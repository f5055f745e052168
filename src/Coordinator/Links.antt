-- ===== src/Coordinator/Links.antt =====
-- src/custom_components/bluetooth_mesh/coordinator.py: the proxy connections that are held. A client
-- is a number, its identity, and stands for its bearer too; `slots` is the GATT connections that the
-- coordinator has opened and not yet closed, each of which takes the one slot of a node. What the
-- radio does is a parameter of each call. A call that holds the lock runs to its end; the tasks
-- that a call starts (a reconnect, the end of a link that was dropped) are calls of their own or
-- are made at once, and the timers are those that call `idle_callback` and `async_probe`.
pub mod Late
pub mod Calls
pub mod Slots
pub mod Held
pub mod Leaks
pub mod Recovery
mod Tests
use ha_bluetooth_mesh.Prelude.{
  ℕ, ◌+◌, ◌-◌, Bool, true, false, Option, none, some, List, [], ◌∷◌, ◌++◌, ◌&&◌, ◌||◌, not, ltb,
  leb, ◌==◌, if◌then◌else◌, bytes_eq, length, map,
}
use ha_bluetooth_mesh.Prelude.Dict.{get, delete, set}
use ha_bluetooth_mesh.Beacon.{SecureNetworkBeacon}
use ha_bluetooth_mesh.NetworkModel.{Text, any}
use ha_bluetooth_mesh.MeshTransport.{ProxyPath, proxy_advert_max_age}
use ha_bluetooth_mesh.Coordinator.Cursor.{Cursor, after_start, settle}
use ha_bluetooth_mesh.Coordinator.Health.{
  Health, set_available, connect_missed, connect_failed, may_attempt, clear_issue, notify_listeners,
}

-- What the coordinator reads of a MeshController.
pub record Controller : Type 0 where
  pub seq : ℕ
  pub tid : ℕ
  pub beacon : Option SecureNetworkBeacon
  pub failed : Bool

pub record Links : Type 0 where
  pub client : Option ℕ
  pub controller : Option Controller
  pub extra_clients : List ℕ
  pub has_fanout : Bool
  pub link_by_bearer : List (ℕ × Text)
  pub proxy_address : Option Text
  pub proxy_addresses : List Text
  pub link_ended_at : Option ℕ
  pub stopped : Bool
  pub idle_timeout : ℕ
  pub idle_armed : Bool
  pub all_proxies : Bool
  pub cursor : Cursor
  pub health : Health
  pub slots : List ℕ

abbrev pub connect_attempts : ℕ
connect_attempts = 4

abbrev pub max_extra_links : ℕ
max_extra_links = 3

-- What a connect to the network comes to: no proxy advertises; it raises, after some clients were
-- opened; or its controller has started, over links of which the main one stands first.
pub data Connect : Type 0 where
  silent : Connect
  raises : List ℕ → (Text → Option ℕ) → List ProxyPath → ℕ → Connect
  up : ℕ → Text → List (ℕ × Text) → ℕ → Connect

-- The time, whether the held client says that it is connected, and what a connect would come to.
pub record Radio : Type 0 where
  pub now : ℕ
  pub is_connected : Bool
  pub connect : Connect

unfoldable pub close : ℕ → List ℕ → List ℕ
close c [] = []
close c (d ∷ slots) = let rest = close c slots in if c == d then rest else d ∷ rest

-- `_disconnect` of each client
unfoldable pub close_all : List ℕ → List ℕ → List ℕ
unfolding close
close_all [] slots = slots
close_all (c ∷ cs) slots = close_all cs (close c slots)

unfoldable pub of_option : Option ℕ → List ℕ
of_option none = []
of_option (some c) = c ∷ []

-- The clients that `_teardown` disconnects
unfoldable pub held : Links → List ℕ
unfolding of_option
held l = of_option l.client ++ l.extra_clients

unfoldable pub is_none {ℓ} : {A : Type ℓ} → Option A → Bool
is_none none = true
is_none (some a) = false

unfoldable pub teardown : Radio → Links → Links
unfolding held close_all is_none
teardown r l = record l {
  client = none;
  controller = none;
  extra_clients = [];
  has_fanout = false;
  link_by_bearer = [];
  link_ended_at = if not (is_none l.client) && r.is_connected then some r.now else l.link_ended_at;
  slots = close_all (held l) l.slots;
}

-- `max_attempts` of the main link
unfoldable pub attempts_of : Bool → Links → ℕ
attempts_of automatic l = if automatic || not (l.health.backoff == 0) then 1 else connect_attempts

-- `_held_the_slot_recently`
unfoldable pub held_the_slot_recently : ℕ → Links → Bool
held_the_slot_recently now l = elim l.link_ended_at [
  | none ↦ false
  | some ended ↦ ltb (now - ended) proxy_advert_max_age
]

-- `_wants_link`
unfoldable pub wants_link : Links → Bool
unfolding is_none
wants_link l = not l.stopped && (l.idle_timeout == 0) && is_none l.controller

unfoldable pub clients_of : List (ℕ × Text) → List ℕ
clients_of links = map (λ (link : ℕ × Text). link.0) links

-- From a started controller on
unfoldable pub hold : ℕ → Text → List (ℕ × Text) → ℕ → Links → Links
unfolding clients_of after_start set_available
hold client address extras seq l = record l {
  client = some client;
  controller = some (record { seq = seq; tid = l.cursor.tid; beacon = none; failed = false });
  extra_clients = clients_of extras;
  has_fanout = l.all_proxies;
  link_by_bearer = if l.all_proxies then (client, address) ∷ extras else [];
  proxy_address = some address;
  proxy_addresses = address ∷ map (λ (link : ℕ × Text). link.1) extras;
  cursor = after_start seq l.cursor;
  health = set_available l.health;
  slots = l.slots ++ (client ∷ clients_of extras);
}

-- The connect of `_ensure_connected`, from the search for a proxy on
unfoldable pub connect_with : Connect → ℕ → Links → Links
unfolding connect_missed connect_failed close_all hold
connect_with silent now l = record l { health = connect_missed l.health }
connect_with (raises opened scanner_of paths elapsed) now l = record l {
  link_by_bearer = [];
  health = connect_failed scanner_of paths elapsed now l.health;
  slots = close_all opened (l.slots ++ opened);
}
connect_with (up client address extras seq) now l = hold client address extras seq l

-- The held link is alive.
unfoldable pub is_alive : Radio → Option Controller → Bool
is_alive r none = false
is_alive r (some c) = r.is_connected && not c.failed

-- `_ensure_connected`; the controller that it returns is the one held then, if it returns one.
unfoldable pub ensure_connected : Radio → Links → Links
unfolding is_alive is_none teardown connect_with
ensure_connected r l =
    if l.stopped
    then l
    else if is_alive r l.controller
    then l
    else connect_with r.connect r.now (if is_none l.controller then l else teardown r l)

-- A stopped coordinator gets no controller, whatever it holds.
unfoldable pub usable : Links → Option Controller
usable l = if l.stopped then none else l.controller

unfoldable pub arm_idle : Links → Links
unfolding is_none
arm_idle l = record l {
  idle_armed = not l.stopped && not (is_none l.controller) && not (l.idle_timeout == 0);
}

-- How a command ended: whether it raised, and the state of the controller after it.
pub record Ended : Type 0 where
  pub raised : Bool
  pub controller : Controller

unfoldable pub set_controller : Controller → Links → Links
unfolding is_none
set_controller c l = record l { controller = if is_none l.controller then none else some c }

unfoldable pub is_failed : Option Controller → Bool
is_failed none = false
is_failed (some c) = c.failed

unfoldable pub drop_if : Bool → Radio → Links → Links
unfolding teardown
drop_if gone r l = if gone then teardown r l else l

unfoldable pub after_command : Radio → Ended → Links → Links
unfolding set_controller drop_if settle arm_idle is_failed is_none
after_command r e l =
    let ended = drop_if e.raised r (set_controller e.controller l) in
    let (cursor, stale) = settle e.controller.seq e.controller.tid e.controller.beacon l.cursor in
    let settled = drop_if stale r (record ended { cursor = cursor }) in
    let alive = drop_if (is_failed settled.controller) r settled in
    if is_none alive.controller then alive else arm_idle alive

-- `_run_connected`, with how the command ends if a link is there to run it
unfoldable pub run_connected : Radio → Ended → Links → Links
unfolding ensure_connected usable after_command
run_connected r e l =
    let connected = ensure_connected r (record l { idle_armed = false }) in
    elim (usable connected) [ none ↦ connected | some c ↦ after_command r e connected ]

-- `_async_probe`
unfoldable pub async_probe : Radio → Links → Links
unfolding ensure_connected teardown is_none
async_probe r l =
    if l.stopped || not (is_none l.controller) || not (may_attempt r.now l.health)
    then l
    else (let connected = ensure_connected r l in
        if not (is_none connected.controller) && not (l.idle_timeout == 0)
        then teardown r connected
        else connected)

-- `_holds`
unfoldable pub holds : ℕ → Links → Bool
unfolding held any
holds c l = any (λ (d : ℕ). c == d) (held l)

-- `_on_client_disconnected`: whether a reconnect is started
unfoldable pub on_client_disconnected : ℕ → ℕ → Bool → Links → Links × Bool
unfolding holds
on_client_disconnected c now is_running l =
    if l.stopped || not (holds c l)
    then (l, false)
    else (record l { link_ended_at = some now }, is_running && (l.idle_timeout == 0))

-- `_async_reconnect`
unfoldable pub async_reconnect : ℕ → Radio → Links → Links
unfolding holds teardown ensure_connected
async_reconnect c r l =
    if l.stopped || not (holds c l) then l else ensure_connected r (teardown r l)

-- `_idle_callback`
unfoldable pub idle_callback : Radio → Links → Links
unfolding teardown
idle_callback r l = teardown r (record l { idle_armed = false })

-- `async_stop`; the write of the cursor is `flush_state`.
unfoldable pub async_stop : Radio → Links → Links
unfolding teardown clear_issue
async_stop r l =
    let ended = teardown r (record l { stopped = true; idle_armed = false }) in
    record ended { health = clear_issue (record ended.health { available = false }) }
