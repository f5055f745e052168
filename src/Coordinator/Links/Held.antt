-- ===== src/Coordinator/Links/Held.antt =====
-- No GATT connection leaks: what src/custom_components/bluetooth_mesh/coordinator.py has open it holds.
use ha_bluetooth_mesh.Prelude.{
  ℕ, ◌≡◌, refl, sym, ap, ◌∙◌, subst, arith, ◌⊎◌, inl, inr, Bool, true, false, Option, none, some,
  List, [], ◌∷◌, ◌++◌, ◌&&◌, ◌||◌, not, ◌==◌, if◌then◌else◌, Bool-cases,
}
use ha_bluetooth_mesh.Coordinator.Cursor.{settle}
use ha_bluetooth_mesh.Coordinator.Health.{may_attempt}
use ha_bluetooth_mesh.Coordinator.Links.{
  Links, Controller, Connect, silent, raises, up, Radio, close_all, of_option, held, is_none,
  teardown, clients_of, hold, connect_with, is_alive, ensure_connected, usable, arm_idle, Ended,
  set_controller, is_failed, drop_if, after_command, run_connected, async_probe, holds,
  on_client_disconnected, async_reconnect, idle_callback, async_stop,
}
use ha_bluetooth_mesh.Coordinator.Links.Slots.{AllAmong, AllAmong-self, AllAmong-nil, close_all-nil}

-- Every connection is one of those held; there is none without a controller, and no controller once
-- the coordinator is stopped.
pub record IsHeld (l : Links) : Type 0 where
  pub within : AllAmong l.slots (held l)
  pub with_controller : (is_none l.controller ≡ false) ⊎ (held l ≡ [])
  pub until_stop : (l.stopped ≡ false) ⊎ (l.controller ≡ none)

abbrev IsClosed : Links → Type 0
IsClosed l = (l.controller ≡ none) × (held l ≡ []) × (l.slots ≡ [])

IsClosed-IsHeld : (l : Links) → IsClosed l → IsHeld l
IsClosed-IsHeld l h = record {
  within = subst (λ (s : List ℕ). AllAmong s (held l)) (sym h.2) tt;
  with_controller = inr h.1;
  until_stop = inr h.0;
}

IsHeld-IsClosed : (l : Links) → IsHeld l → l.controller ≡ none → IsClosed l
unfolding is_none
IsHeld-IsClosed l h none' =
    let empty : held l ≡ [] = elim h.with_controller [
      | inl some' ↦ absurd (ground (arith, some', none'))
      | inr empty ↦ empty
    ] in
    (none', empty, AllAmong-nil l.slots (subst (AllAmong l.slots) empty h.within))

teardown-IsClosed : (r : Radio) (l : Links) → IsHeld l → IsClosed (teardown r l)
unfolding teardown held of_option
teardown-IsClosed r l h = (refl, refl, close_all-nil (held l) l.slots h.within)

teardown-IsHeld : (r : Radio) (l : Links) → IsHeld l → IsHeld (teardown r l)
teardown-IsHeld r l h = IsClosed-IsHeld (teardown r l) (teardown-IsClosed r l h)

connect_with-IsHeld :
    (k : Connect) (now : ℕ) (l : Links)
    → IsClosed l
    → l.stopped ≡ false
    → IsHeld (connect_with k now l)
unfolding connect_with hold held of_option is_none
connect_with-IsHeld silent now l h live = IsClosed-IsHeld (connect_with silent now l) h
connect_with-IsHeld (raises opened scanner_of paths elapsed) now l h live =
    IsClosed-IsHeld (connect_with (raises opened scanner_of paths elapsed) now l) (
      h.0,
      h.1,
      ap (λ (s : List ℕ). close_all opened (s ++ opened)) h.2
          ∙ close_all-nil opened opened (AllAmong-self opened),
    )
connect_with-IsHeld (up client address extras seq) now l h live =
    let links = client ∷ clients_of extras in
    record {
      within = subst (λ (s : List ℕ). AllAmong (s ++ links) links) (sym h.2) (AllAmong-self links);
      with_controller = inl refl;
      until_stop = inl live;
    }

-- The invariant reads only these fields.
pub same-IsHeld :
    (l l' : Links)
    → l'.slots ≡ l.slots
    → held l' ≡ held l
    → l'.controller ≡ l.controller
    → l'.stopped ≡ l.stopped
    → IsHeld l
    → IsHeld l'
same-IsHeld l l' slots held' controller stopped h = record {
  within =
      subst (λ (s : List ℕ). AllAmong s (held l')) (sym slots)
        (subst (AllAmong l.slots) (sym held') h.within);
  with_controller =
      subst (λ (c : Option Controller). (is_none c ≡ false) ⊎ (held l' ≡ [])) (sym controller)
        (subst (λ (cs : List ℕ). (is_none l.controller ≡ false) ⊎ (cs ≡ [])) (sym held')
          h.with_controller);
  until_stop =
      subst (λ (c : Option Controller). (l'.stopped ≡ false) ⊎ (c ≡ none)) (sym controller)
        (subst (λ (b : Bool). (b ≡ false) ⊎ (l.controller ≡ none)) (sym stopped) h.until_stop);
}

-- Either branch of a test keeps the invariant.
pub if-IsHeld :
    (b : Bool) (x y : Links)
    → (b ≡ true → IsHeld x)
    → (b ≡ false → IsHeld y)
    → IsHeld (if b then x else y)
if-IsHeld true x y hx hy = hx refl
if-IsHeld false x y hx hy = hy refl

is_none-eq {ℓ} : {A : Type ℓ} (o : Option A) → is_none o ≡ true → o ≡ none
unfolding is_none
is_none-eq none h = refl
is_none-eq (some a) h = cc

-- A link is made anew only where none is held.
reconnect-IsHeld :
    (r : Radio) (l : Links)
    → IsHeld l
    → l.stopped ≡ false
    → IsHeld (connect_with r.connect r.now (if is_none l.controller then l else teardown r l))
unfolding teardown
reconnect-IsHeld r l h live = go (Bool-cases (is_none l.controller))
  where
    go :
        (is_none l.controller ≡ true) ⊎ (is_none l.controller ≡ false)
        → IsHeld (connect_with r.connect r.now (if is_none l.controller then l else teardown r l))
    go (inl none') =
        subst (λ (b : Bool). IsHeld (connect_with r.connect r.now (if b then l else teardown r l)))
          (sym none')
          (connect_with-IsHeld r.connect r.now l
            (IsHeld-IsClosed l h (is_none-eq l.controller none')) live)
    go (inr some') =
        subst (λ (b : Bool). IsHeld (connect_with r.connect r.now (if b then l else teardown r l)))
          (sym some')
          (connect_with-IsHeld r.connect r.now (teardown r l) (teardown-IsClosed r l h) live)

ensure_connected-IsHeld : (r : Radio) (l : Links) → IsHeld l → IsHeld (ensure_connected r l)
unfolding ensure_connected
ensure_connected-IsHeld r l h =
    let again = connect_with r.connect r.now (if is_none l.controller then l else teardown r l) in
    if-IsHeld l.stopped l (if is_alive r l.controller then l else again) (λ over. h)
      (λ live.
        if-IsHeld (is_alive r l.controller) l again (λ alive. h)
          (λ dead. reconnect-IsHeld r l h live))

drop_if-IsHeld : (gone : Bool) (r : Radio) (l : Links) → IsHeld l → IsHeld (drop_if gone r l)
unfolding drop_if
drop_if-IsHeld gone r l h = if-IsHeld gone (teardown r l) l (λ g. teardown-IsHeld r l h) (λ g. h)

-- What a command leaves of a controller that is held.
set_controller-IsHeld : (c : Controller) (l : Links) → IsHeld l → IsHeld (set_controller c l)
unfolding set_controller is_none held
set_controller-IsHeld c l h = record {
  within = h.within;
  with_controller = ground (arith, h.with_controller);
  until_stop = ground (arith, h.until_stop);
}

after_command-IsHeld : (r : Radio) (e : Ended) (l : Links) → IsHeld l → IsHeld (after_command r e l)
unfolding after_command arm_idle
after_command-IsHeld r e l h =
    let ended = drop_if e.raised r (set_controller e.controller l) in
    let (cursor, stale) = settle e.controller.seq e.controller.tid e.controller.beacon l.cursor in
    let settled = drop_if stale r (record ended { cursor = cursor }) in
    let alive = drop_if (is_failed settled.controller) r settled in
    let ended' =
      drop_if-IsHeld e.raised r (set_controller e.controller l)
        (set_controller-IsHeld e.controller l h) in
    let settled' =
      drop_if-IsHeld stale r (record ended { cursor = cursor })
        (same-IsHeld ended (record ended { cursor = cursor }) refl refl refl refl ended') in
    let alive' = drop_if-IsHeld (is_failed settled.controller) r settled settled' in
    if-IsHeld (is_none alive.controller) alive (arm_idle alive) (λ n. alive')
      (λ n. same-IsHeld alive (arm_idle alive) refl refl refl refl alive')

usable-IsHeld :
    (o : Option Controller) (r : Radio) (e : Ended) (l : Links)
    → IsHeld l
    → IsHeld (elim o [ none ↦ l | some c ↦ after_command r e l ])
usable-IsHeld none r e l h = h
usable-IsHeld (some c) r e l h = after_command-IsHeld r e l h

pub run_connected-IsHeld :
    (r : Radio) (e : Ended) (l : Links) → IsHeld l → IsHeld (run_connected r e l)
unfolding run_connected held
run_connected-IsHeld r e l h =
    let disarmed = record l { idle_armed = false } in
    let connected = ensure_connected r disarmed in
    usable-IsHeld (usable connected) r e connected
      (ensure_connected-IsHeld r disarmed (same-IsHeld l disarmed refl refl refl refl h))

pub async_probe-IsHeld : (r : Radio) (l : Links) → IsHeld l → IsHeld (async_probe r l)
unfolding async_probe
async_probe-IsHeld r l h =
    let connected = ensure_connected r l in
    let connected' = ensure_connected-IsHeld r l h in
    let handed_back = not (is_none connected.controller) && not (l.idle_timeout == 0) in
    if-IsHeld (l.stopped || not (is_none l.controller) || not (may_attempt r.now l.health)) l
      (if handed_back then teardown r connected else connected) (λ b. h)
      (λ b.
        if-IsHeld handed_back (teardown r connected) connected
          (λ g. teardown-IsHeld r connected connected') (λ g. connected'))

pub on_client_disconnected-IsHeld :
    (c now : ℕ) (is_running : Bool) (l : Links)
    → IsHeld l
    → IsHeld (on_client_disconnected c now is_running l).0
unfolding on_client_disconnected held
on_client_disconnected-IsHeld c now is_running l h = go (Bool-cases (l.stopped || not (holds c l)))
  where
    go :
        ((l.stopped || not (holds c l)) ≡ true) ⊎ ((l.stopped || not (holds c l)) ≡ false)
        → IsHeld (on_client_disconnected c now is_running l).0
    go (inl other) = rw other h
    go (inr ours) =
        rw ours (same-IsHeld l (record l { link_ended_at = some now }) refl refl refl refl h)

pub async_reconnect-IsHeld :
    (c : ℕ) (r : Radio) (l : Links) → IsHeld l → IsHeld (async_reconnect c r l)
unfolding async_reconnect
async_reconnect-IsHeld c r l h =
    if-IsHeld (l.stopped || not (holds c l)) l (ensure_connected r (teardown r l)) (λ b. h)
      (λ b. ensure_connected-IsHeld r (teardown r l) (teardown-IsHeld r l h))

pub idle_callback-IsHeld : (r : Radio) (l : Links) → IsHeld l → IsHeld (idle_callback r l)
unfolding idle_callback held
idle_callback-IsHeld r l h =
    let disarmed = record l { idle_armed = false } in
    teardown-IsHeld r disarmed (same-IsHeld l disarmed refl refl refl refl h)

-- A coordinator that stops frees every slot.
pub async_stop-IsHeld : (r : Radio) (l : Links) → IsHeld l → IsHeld (async_stop r l)
unfolding async_stop teardown held of_option
async_stop-IsHeld r l h =
    IsClosed-IsHeld (async_stop r l) (refl, refl, close_all-nil (held l) l.slots h.within)
