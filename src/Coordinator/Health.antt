-- ===== src/Coordinator/Health.antt =====
-- src/custom_components/bluetooth_mesh/coordinator.py: availability, the wait between attempts, the
-- streak of refusals and the repair on screen. Times are milliseconds of `monotonic`; a scanner
-- object is a number, its identity, and `scanner_of` is what Home Assistant has registered for a
-- source. The listeners are counted as they are told; the issue registry is the list of repairs.
pub mod Attempts
pub mod Repairs
pub mod Laws
pub mod Stuck
pub mod Backoff
mod Tests
use ha_bluetooth_mesh.Prelude.{
  ℕ, ◌+◌, ◌*◌, ◌-◌, Bool, true, false, Option, none, some, List, [], ◌∷◌, ◌&&◌, ◌||◌, not, ltb, leb,
  ◌==◌, min, if◌then◌else◌, bytes_eq,
}
use ha_bluetooth_mesh.NetworkModel.{Text}
use ha_bluetooth_mesh.MeshTransport.{ProxyPath, has_free_slot}

abbrev pub unreachable_threshold : ℕ
unreachable_threshold = 3

-- `PROBE_INTERVAL_AVAILABLE`, 2 min
abbrev pub probe_interval_available : ℕ
probe_interval_available = 120000

-- `PROBE_INTERVAL_UNAVAILABLE`, 15 s
abbrev pub probe_interval_unavailable : ℕ
probe_interval_unavailable = 15000

abbrev pub connect_backoff_base : ℕ
connect_backoff_base = probe_interval_unavailable

-- `CONNECT_BACKOFF_CAP`, 5 min
abbrev pub connect_backoff_cap : ℕ
connect_backoff_cap = 300000

-- `STUCK_PROXY_FAST_FAILURE`, 3 s
abbrev pub stuck_proxy_fast_failure : ℕ
stuck_proxy_fast_failure = 3000

abbrev pub stuck_proxy_failures : ℕ
stuck_proxy_failures = 3

pub data Issue : Type 0 where
  proxy_stuck proxy_unreachable : Issue

pub record Health : Type 0 where
  pub available : Bool
  pub fail_count : ℕ
  pub backoff : ℕ
  pub next_attempt : ℕ
  pub refusals : ℕ
  pub refused_path : Option ProxyPath
  pub refused_scanner : Option ℕ
  pub issue_kind : Option Issue
  pub registry : List Issue
  pub notified : ℕ

-- The part of `__init__`; the registry may still have a repair of an earlier run.
unfoldable pub health : List Issue → Health
health registry = record {
  available = false;
  fail_count = 0;
  backoff = 0;
  next_attempt = 0;
  refusals = 0;
  refused_path = none;
  refused_scanner = none;
  issue_kind = none;
  registry = registry;
  notified = 0;
}

unfoldable pub forget_refusals : Health → Health
forget_refusals h = record h { refusals = 0; refused_path = none; refused_scanner = none }

-- `_proxy_is_stuck`
unfoldable pub proxy_is_stuck : Health → Bool
proxy_is_stuck h =
    leb stuck_proxy_failures h.refusals && elim h.refused_path [ none ↦ false | some p ↦ true ]

-- The streak goes on unless it was another proxy's.
unfoldable pub same_source : Text → Option ProxyPath → Bool
same_source source none = true
same_source source (some p) = bytes_eq source p.source

unfoldable pub add_refusal : (Text → Option ℕ) → ProxyPath → Health → Health
unfolding same_source
add_refusal scanner_of p h = record h {
  refusals = (if same_source p.source h.refused_path then h.refusals else 0) + 1;
  refused_path = some p;
  refused_scanner = scanner_of p.source;
}

-- `_note_refusal`, with the paths of the address at the time
unfoldable pub note_refusal : (Text → Option ℕ) → List ProxyPath → ℕ → Health → Health
unfolding forget_refusals add_refusal has_free_slot
note_refusal scanner_of [] elapsed h = forget_refusals h
note_refusal scanner_of (p ∷ []) elapsed h =
    if ltb stuck_proxy_fast_failure elapsed || not (has_free_slot p)
    then forget_refusals h
    else add_refusal scanner_of p h
note_refusal scanner_of (p ∷ q ∷ paths) elapsed h = forget_refusals h

unfoldable pub clear_issue : Health → Health
clear_issue h = record h { issue_kind = none; registry = [] }

unfoldable pub issue_eq : Issue → Option Issue → Bool
issue_eq proxy_stuck (some proxy_stuck) = true
issue_eq proxy_unreachable (some proxy_unreachable) = true
issue_eq kind other = false

unfoldable pub raise_proxy_issue : Health → Health
unfolding proxy_is_stuck issue_eq clear_issue
raise_proxy_issue h =
    let kind = if proxy_is_stuck h then proxy_stuck else proxy_unreachable in
    if issue_eq kind h.issue_kind
    then h
    else record (clear_issue h) { issue_kind = some kind; registry = kind ∷ [] }

unfoldable pub notify_listeners : Health → Health
notify_listeners h = record h { notified = h.notified + 1 }

unfoldable pub give_up : Health → Health
unfolding raise_proxy_issue notify_listeners
give_up h =
    let raised = raise_proxy_issue (record h { available = false }) in
    if h.available then notify_listeners raised else raised

unfoldable pub set_unavailable : Health → Health
unfolding give_up
set_unavailable h =
    let missed = record h { fail_count = h.fail_count + 1 } in
    if leb unreachable_threshold (h.fail_count + 1) then give_up missed else missed

unfoldable pub set_available : Health → Health
unfolding forget_refusals clear_issue notify_listeners
set_available h = notify_listeners (
    clear_issue (record (forget_refusals (record h { available = true; fail_count = 0 })) {
      backoff = 0;
      next_attempt = 0;
    }))

unfoldable pub may_attempt : ℕ → Health → Bool
may_attempt now h = leb h.next_attempt now

unfoldable pub widened : ℕ → ℕ
widened previous =
    if previous == 0 then connect_backoff_base else min (previous * 2) connect_backoff_cap

unfoldable pub back_off : ℕ → Health → Health
unfolding widened
back_off now h = record h { backoff = widened h.backoff; next_attempt = now + widened h.backoff }

-- What `_proxy_restarted` finds registered is another scanner than the one that it accuses.
unfoldable pub is_new_scanner : Option ℕ → ℕ → Bool
is_new_scanner none accused = false
is_new_scanner (some current) accused = not (current == accused)

unfoldable pub restarted : (Text → Option ℕ) → Option ℕ → Option ProxyPath → Bool
unfolding is_new_scanner
restarted scanner_of none path = false
restarted scanner_of (some accused) none = false
restarted scanner_of (some accused) (some p) = is_new_scanner (scanner_of p.source) accused

-- `_proxy_restarted`
unfoldable pub proxy_restarted : (Text → Option ℕ) → Health → Health × Bool
unfolding restarted forget_refusals
proxy_restarted scanner_of h =
    if restarted scanner_of h.refused_scanner h.refused_path
    then (record (forget_refusals h) { backoff = 0; next_attempt = 0 }, true)
    else (h, false)

-- The delay of `_schedule_probe`; `wants_link` is what `_wants_link` gives.
unfoldable pub probe_delay : ℕ → Bool → Health → ℕ
probe_delay now wants_link h =
    if not h.available || wants_link
    then (if ltb probe_interval_unavailable (h.next_attempt - now)
        then h.next_attempt - now
        else probe_interval_unavailable)
    else probe_interval_available

-- The branch of `_ensure_connected` where no proxy advertises
unfoldable pub connect_missed : Health → Health
unfolding forget_refusals set_unavailable
connect_missed h = set_unavailable (forget_refusals h)

-- The branch of `_ensure_connected` where the connect raises, `elapsed` after it began
unfoldable pub connect_failed : (Text → Option ℕ) → List ProxyPath → ℕ → ℕ → Health → Health
unfolding note_refusal set_unavailable back_off
connect_failed scanner_of paths elapsed now h =
    back_off now (set_unavailable (note_refusal scanner_of paths elapsed h))
