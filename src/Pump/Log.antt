-- ===== src/Pump/Log.antt =====
-- What became of each item of the queue of src/btmesh/pump.py, through each of its operations.
use ha_bluetooth_mesh.Prelude.{
  ℕ, ◌+◌, ◌≤◌, ◌≡◌, refl, sym, ap, ap₂, ◌∙◌, arith, Bool, true, false, Option, none, some, List, [],
  ◌∷◌, ◌++◌, map, append-nil, append_assoc, if◌then◌else◌, length, length-append, Option-cases, inl,
  inr,
}
use ha_bluetooth_mesh.Prelude.Bytes.{Bytes}
use ha_bluetooth_mesh.Prelude.Outcome.{Error}
use ha_bluetooth_mesh.Pump.{
  Item, BearerPump, item_of, put, stop, take_from, take_next, finish, fail,
}

-- What became of the items that left the queue, in order: sent, or lost.
abbrev pub Log : Type 0
Log = List (Bool × Item)

abbrev pub items_of : Log → List Item
items_of log = map (λ (x : Bool × Item). x.1) log

unfoldable pub kept : Log → List Item
kept [] = []
kept ((true, item) ∷ log) = item ∷ kept log
kept ((false, item) ∷ log) = kept log

abbrev pub flight : Option Item → List Item
flight none = []
flight (some item) = item ∷ []

pub record IsLogged (s : BearerPump) (items : List Item) : Type 0 where
  pub log : Log
  pub order : items_of log ++ (flight s.current ++ s.queue) ≡ items
  pub writes : kept log ≡ s.written
  pub counts : length s.written + s.unfinished ≡ length items

items_of-append :
    (log : Log) (x : Bool × Item) → items_of (log ++ (x ∷ [])) ≡ items_of log ++ (x.1 ∷ [])
items_of-append [] x = refl
items_of-append (y ∷ log) x = ap (λ (l : List Item). y.1 ∷ l) (items_of-append log x)

kept-append :
    (log : Log) (sent : Bool) (item : Item)
    → kept (log ++ ((sent, item) ∷ [])) ≡ kept log ++ (if sent then item ∷ [] else [])
unfolding kept
kept-append [] true item = refl
kept-append [] false item = refl
kept-append ((true, other) ∷ log) sent item =
    ap (λ (l : List Item). other ∷ l) (kept-append log sent item)
kept-append ((false, other) ∷ log) sent item = kept-append log sent item

pub length-kept-le : (log : Log) → length (kept log) ≤ length (items_of log)
unfolding kept
length-kept-le [] = omega arith
length-kept-le ((true, item) ∷ log) = omega (arith, length-kept-le log)
length-kept-le ((false, item) ∷ log) = omega (arith, length-kept-le log)

-- Nothing is lost of a log that keeps as many items as it has.
pub kept_all : (log : Log) → length (items_of log) ≤ length (kept log) → kept log ≡ items_of log
unfolding kept
kept_all [] h = refl
kept_all ((true, item) ∷ log) h = ap (λ (l : List Item). item ∷ l) (kept_all log (omega arith))
kept_all ((false, item) ∷ log) h = absurd (omega (arith, length-kept-le log))

-- What is still to come, and what was lost, is unfinished.
pub unfinished-le :
    (s : BearerPump) (items : List Item)
    → IsLogged s items
    → length (flight s.current) + length s.queue ≤ s.unfinished
unfinished-le s items h = omega (
  arith,
  h.counts,
  ap length h.order,
  ap length h.writes,
  length-kept-le h.log,
  length-append (items_of h.log) (flight s.current ++ s.queue),
  length-append (flight s.current) s.queue,
)

pub put-IsLogged :
    (s : BearerPump) (items : List Item) (pdu : Bytes) (msg_type : Option ℕ)
    → IsLogged s items
    → IsLogged (put pdu msg_type s) (items ++ (item_of s.msg_type msg_type pdu ∷ []))
unfolding put
put-IsLogged s items pdu msg_type h =
    let new : List Item = item_of s.msg_type msg_type pdu ∷ [] in
    record {
      log = h.log;
      order =
          ap (λ (l : List Item). items_of h.log ++ l)
            (sym (append_assoc (flight s.current) s.queue new))
          ∙ sym (append_assoc (items_of h.log) (flight s.current ++ s.queue) new)
          ∙ ap (λ (l : List Item). l ++ new) h.order;
      writes = h.writes;
      counts = omega (arith, h.counts, length-append items new);
    }

pub length-zero : (l : List Item) → length l ≡ 0 → l ≡ []
length-zero [] h = refl
length-zero (item ∷ l) h = absurd (omega arith)

take_from-IsLogged :
    (queue : List Item) (s : BearerPump) (items : List Item)
    → s.queue ≡ queue
    → s.current ≡ none
    → IsLogged s items
    → IsLogged (take_from queue s) items
unfolding take_from
take_from-IsLogged [] s items e free h = h
take_from-IsLogged (item ∷ queue) s items e free h = record {
  log = h.log;
  order =
      ap₂ (λ (c : Option Item) (q : List Item). items_of h.log ++ (flight c ++ q)) (sym free)
        (sym e)
      ∙ h.order;
  writes = h.writes;
  counts = h.counts;
}

pub take_next-IsLogged :
    (current : Option Item) (s : BearerPump) (items : List Item)
    → s.current ≡ current
    → IsLogged s items
    → IsLogged (take_next current s) items
unfolding take_next
take_next-IsLogged (some sending) s items e h = h
take_next-IsLogged none s items e h = go s.is_running
  where
    go : (b : Bool) → IsLogged (if b then take_from s.queue s else s) items
    go true = take_from-IsLogged s.queue s items refl e h
    go false = h

-- The item in flight leaves: it goes to the log.
order_after :
    (sent : Bool) (item : Item) (s : BearerPump) (items : List Item) (h : IsLogged s items)
    → s.current ≡ some item
    → items_of (h.log ++ ((sent, item) ∷ [])) ++ s.queue ≡ items
order_after sent item s items h e =
    ap (λ (l : List Item). l ++ s.queue) (items_of-append h.log (sent, item))
    ∙ append_assoc (items_of h.log) (item ∷ []) s.queue
    ∙ ap (λ (c : Option Item). items_of h.log ++ (flight c ++ s.queue)) (sym e)
    ∙ h.order

pub finish-IsLogged :
    (current : Option Item) (s : BearerPump) (items : List Item)
    → s.current ≡ current
    → IsLogged s items
    → IsLogged (finish current s) items
unfolding finish
finish-IsLogged none s items e h = h
finish-IsLogged (some item) s items e h =
    let flying : length (flight s.current) ≡ 1 = ap (λ (c : Option Item). length (flight c)) e in
    record {
      log = h.log ++ ((true, item) ∷ []);
      order = order_after true item s items h e;
      writes = kept-append h.log true item ∙ ap (λ (l : List Item). l ++ (item ∷ [])) h.writes;
      counts =
          omega
            (arith, h.counts, length-append s.written (item ∷ []), unfinished-le s items h, flying);
    }

lose-IsLogged :
    (item : Item) (s lost : BearerPump) (items : List Item)
    → s.current ≡ some item
    → lost.current ≡ none
    → lost.queue ≡ s.queue
    → lost.written ≡ s.written
    → lost.unfinished ≡ s.unfinished
    → IsLogged s items
    → IsLogged lost items
lose-IsLogged item s lost items e free q w u h = record {
  log = h.log ++ ((false, item) ∷ []);
  order =
      ap₂
        (λ (c : Option Item) (q : List Item).
          items_of (h.log ++ ((false, item) ∷ [])) ++ (flight c ++ q))
        free q
      ∙ order_after false item s items h e;
  writes = kept-append h.log false item ∙ append-nil (kept h.log) ∙ h.writes ∙ sym w;
  counts = omega (arith, h.counts, ap length w, u);
}

pub stop-IsLogged :
    (s : BearerPump) (items : List Item) → IsLogged s items → IsLogged (stop s) items
unfolding stop
stop-IsLogged s items h = elim (Option-cases s.current) [
  | inr (item, e) ↦
      lose-IsLogged item s (record s { is_running = false; current = none }) items e refl refl refl
        refl h
  | inl free ↦ record {
    log = h.log;
    order = ap (λ (c : Option Item). items_of h.log ++ (flight c ++ s.queue)) (sym free) ∙ h.order;
    writes = h.writes;
    counts = h.counts;
  }
]

pub fail-IsLogged :
    (e : Error) (current : Option Item) (s : BearerPump) (items : List Item)
    → s.current ≡ current
    → IsLogged s items
    → IsLogged (fail e current s) items
unfolding fail
fail-IsLogged error none s items e h = h
fail-IsLogged error (some item) s items e h =
    lose-IsLogged item s (record s { failure = some error; current = none; is_running = false })
      items e refl refl refl refl h
