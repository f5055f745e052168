-- ===== src/Pump.antt =====
-- src/btmesh/pump.py: the queue between the node and the bearer. What happens is a list of events. A
-- `start` while the task runs leaves that task running beside the new one, out of the reach of
-- `stop`: `idle_others` are the tasks left so that wait for an item, `others` what the rest of them
-- send. `written` is what the bearer has sent, oldest
-- first, and `unfinished` the count that `Queue.join` waits on.
pub mod Log
pub mod Laws
pub mod Failure
mod Tests
use ha_bluetooth_mesh.Prelude.{
  ℕ, zero, suc, ◌+◌, ◌-◌, Bool, true, false, Option, none, some, List, [], ◌∷◌, ◌++◌, ◌&&◌, not,
  if◌then◌else◌,
}
use ha_bluetooth_mesh.Prelude.Bytes.{Bytes}
use ha_bluetooth_mesh.Prelude.Outcome.{Error}

-- A message type and a PDU
abbrev pub Item : Type 0
Item = ℕ × Bytes

pub record BearerPump : Type 0 where
  pub msg_type : ℕ
  pub queue : List Item
  pub unfinished : ℕ
  pub is_running : Bool
  pub current : Option Item
  pub idle_others : ℕ
  pub others : List Item
  pub written : List Item
  pub failure : Option Error

-- `__init__`
unfoldable pub bearer_pump : ℕ → BearerPump
bearer_pump msg_type = record {
  msg_type = msg_type;
  queue = [];
  unfinished = 0;
  is_running = false;
  current = none;
  idle_others = 0;
  others = [];
  written = [];
  failure = none;
}

unfoldable pub item_of : ℕ → Option ℕ → Bytes → Item
item_of default none pdu = (default, pdu)
item_of default (some msg_type) pdu = (msg_type, pdu)

unfoldable pub put : Bytes → Option ℕ → BearerPump → BearerPump
unfolding item_of
put pdu msg_type s = record s {
  queue = s.queue ++ (item_of s.msg_type msg_type pdu ∷ []);
  unfinished = s.unfinished + 1;
}

-- The task that `_task` was, if it runs, goes on beside the new one.
unfoldable pub replace : Bool → Option Item → BearerPump → BearerPump
replace false current s = record s { is_running = true }
replace true none s = record s { idle_others = s.idle_others + 1 }
replace true (some item) s = record s { current = none; others = item ∷ s.others }

unfoldable pub start : BearerPump → BearerPump
unfolding replace
start s = replace s.is_running s.current s

-- The task ends, with what it was sending.
unfoldable pub stop : BearerPump → BearerPump
stop s = record s { is_running = false; current = none }

-- `await self._queue.get()` returns: the task waits in it if it runs and sends nothing.
unfoldable pub take_from : List Item → BearerPump → BearerPump
take_from [] s = s
take_from (item ∷ queue) s = record s { queue = queue; current = some item }

unfoldable pub take_next : Option Item → BearerPump → BearerPump
unfolding take_from
take_next (some sending) s = s
take_next none s = if s.is_running then take_from s.queue s else s

-- `await self._bearer.send(...)` returns, and `task_done` follows.
unfoldable pub finish : Option Item → BearerPump → BearerPump
finish none s = s
finish (some item) s = record s {
  written = s.written ++ (item ∷ []);
  current = none;
  unfinished = s.unfinished - 1;
}

-- It raises: the failure is noted, and the task ends.
unfoldable pub fail : Error → Option Item → BearerPump → BearerPump
fail e none s = s
fail e (some item) s = record s { failure = some e; current = none; is_running = false }

-- The same of a task that `start` has replaced: it takes an item,
unfoldable pub other_take : ℕ → List Item → BearerPump → BearerPump
other_take zero queue s = s
other_take (suc idle) [] s = s
other_take (suc idle) (item ∷ queue) s = record s {
  queue = queue;
  idle_others = idle;
  others = item ∷ s.others;
}

-- (which of them goes on, and what the rest of them send)
unfoldable pub keep : Item → Option (Item × List Item) → Option (Item × List Item)
keep item none = none
keep item (some (picked, rest)) = some (picked, item ∷ rest)

unfoldable pub pick : ℕ → List Item → Option (Item × List Item)
unfolding keep
pick n [] = none
pick zero (item ∷ items) = some (item, items)
pick (suc n) (item ∷ items) = keep item (pick n items)

-- sends it,
unfoldable pub other_finish : Option (Item × List Item) → BearerPump → BearerPump
other_finish none s = s
other_finish (some (item, rest)) s = record s {
  written = s.written ++ (item ∷ []);
  others = rest;
  idle_others = s.idle_others + 1;
  unfinished = s.unfinished - 1;
}

-- or fails to.
unfoldable pub other_fail : Error → Option (Item × List Item) → BearerPump → BearerPump
other_fail e none s = s
other_fail e (some (item, rest)) s = record s { failure = some e; others = rest }

pub data Event : Type 0 where
  puts : Bytes → Option ℕ → Event
  starts stops takes sends other_takes : Event
  raises : Error → Event
  other_sends : ℕ → Event
  other_raises : ℕ → Error → Event

unfoldable pub step : BearerPump → Event → BearerPump
unfolding put start stop take_next finish fail other_take pick other_finish other_fail
step s (puts pdu msg_type) = put pdu msg_type s
step s starts = start s
step s stops = stop s
step s takes = take_next s.current s
step s sends = finish s.current s
step s (raises e) = fail e s.current s
step s other_takes = other_take s.idle_others s.queue s
step s (other_sends n) = other_finish (pick n s.others) s
step s (other_raises n e) = other_fail e (pick n s.others) s

unfoldable pub run : BearerPump → List Event → BearerPump
unfolding step
run s [] = s
run s (e ∷ es) = run (step s e) es

-- What `put` was given, in order
unfoldable pub put_items : ℕ → List Event → List Item
unfolding item_of
put_items default [] = []
put_items default (puts pdu msg_type ∷ es) = item_of default msg_type pdu ∷ put_items default es
put_items default (starts ∷ es) = put_items default es
put_items default (stops ∷ es) = put_items default es
put_items default (takes ∷ es) = put_items default es
put_items default (sends ∷ es) = put_items default es
put_items default (raises e ∷ es) = put_items default es
put_items default (other_takes ∷ es) = put_items default es
put_items default (other_sends n ∷ es) = put_items default es
put_items default (other_raises n e ∷ es) = put_items default es

-- `start` is called only while the task does not run.
unfoldable pub may_come : BearerPump → Event → Bool
may_come s starts = not s.is_running
may_come s (puts pdu msg_type) = true
may_come s stops = true
may_come s takes = true
may_come s sends = true
may_come s other_takes = true
may_come s (raises e) = true
may_come s (other_sends n) = true
may_come s (other_raises n e) = true

unfoldable pub all_come : BearerPump → List Event → Bool
unfolding may_come step
all_come s [] = true
all_come s (e ∷ es) = may_come s e && all_come (step s e) es
