-- ===== src/Coordinator/Links/Recovery.antt =====
-- How src/custom_components/bluetooth_mesh/coordinator.py comes back to a link that it has lost.
use ha_bluetooth_mesh.Prelude.{
  ℕ, ◌+◌, ◌≤◌, ◌≡◌, refl, sym, ap, ◌∙◌, subst, arith, ◌⊎◌, Bool, true, false, Option, none, some,
  List, ◌&&◌, ◌||◌, not, ◌==◌, if◌then◌else◌,
}
use ha_bluetooth_mesh.NetworkModel.{Text}
use ha_bluetooth_mesh.Coordinator.Health.{
  Health, probe_delay, may_attempt, set_available, clear_issue, notify_listeners, forget_refusals,
}
use ha_bluetooth_mesh.Coordinator.Links.{
  Links, Controller, up, Radio, is_none, wants_link, is_alive, hold, connect_with, ensure_connected,
  teardown, async_probe,
}

wants_link-eq :
    (l : Links)
    → wants_link l ≡ true
    → (l.stopped ≡ false) × (is_none l.controller ≡ true) × ((l.idle_timeout == 0) ≡ true)
unfolding wants_link
wants_link-eq l wants = (ground (arith, wants), ground (arith, wants), ground (arith, wants))

-- The next probe comes when it may connect.
may_attempt-probe_delay :
    (now : ℕ) (h : Health) → may_attempt (now + probe_delay now true h) h ≡ true
unfolding may_attempt probe_delay
may_attempt-probe_delay now h = ground arith

probe_delay-le :
    (now : ℕ) (h : Health)
    → let t = now + probe_delay now true h in
      (now + 15000 ≤ t) × (h.next_attempt ≤ t) × ((t ≡ now + 15000) ⊎ (t ≡ h.next_attempt))
unfolding probe_delay
probe_delay-le now h = (ground arith, ground arith, ground arith)

is_alive-none : (r : Radio) (o : Option Controller) → is_none o ≡ true → is_alive r o ≡ false
unfolding is_alive is_none
is_alive-none r none h = refl
is_alive-none r (some c) h = cc

-- The branch that the tests of `_ensure_connected` lead to.
connects :
    (over alive free : Bool) (k : Links → Links) (l t : Links)
    → over ≡ false
    → alive ≡ false
    → free ≡ true
    → (if over then l else if alive then l else k (if free then l else t)) ≡ k l
connects true alive free k l t o a f = cc
connects false true free k l t o a f = cc
connects false false true k l t o a f = refl
connects false false false k l t o a f = cc

-- The branch that the tests of `_async_probe` lead to.
keeps_link :
    (barred up' always : Bool) (l t c : Links)
    → barred ≡ false
    → always ≡ true
    → (if barred then l else if up' && not always then t else c) ≡ c
keeps_link true up' always l t c b a = cc
keeps_link false true true l t c b a = refl
keeps_link false false true l t c b a = refl
keeps_link false up' false l t c b a = cc

-- A probe that may connect, of a coordinator that wants a link, is what its connect comes to.
async_probe-connects :
    (r : Radio) (l : Links)
    → wants_link l ≡ true
    → may_attempt r.now l.health ≡ true
    → async_probe r l ≡ connect_with r.connect r.now l
unfolding async_probe ensure_connected
async_probe-connects r l wants may =
    let (live, free, always) = wants_link-eq l wants in
    keeps_link (l.stopped || not (is_none l.controller) || not (may_attempt r.now l.health))
      (not (is_none (ensure_connected r l).controller)) (l.idle_timeout == 0) l
      (teardown r (ensure_connected r l)) (ensure_connected r l) (ground (arith, live, free, may))
      always
    ∙ connects l.stopped (is_alive r l.controller) (is_none l.controller)
        (connect_with r.connect r.now) l (teardown r l) live (is_alive-none r l.controller free)
        free

wants_link-hold :
    (client : ℕ) (address : Text) (extras : List (ℕ × Text)) (seq : ℕ) (l : Links)
    → wants_link (hold client address extras seq l) ≡ false
unfolding wants_link hold is_none
wants_link-hold client address extras seq l = ground arith

-- A coordinator that is to hold a link always and has none arms its next probe for when the wait is
-- over, or for 15 s from now, whichever is later; and where a connect then succeeds, that probe
-- leaves the link held and the mesh available, with no miss and no wait.
pub async_probe-recovers :
    (now : ℕ) (is_connected : Bool) (client : ℕ) (address : Text) (extras : List (ℕ × Text))
    (seq : ℕ) (l : Links)
    → wants_link l ≡ true
    → let t = now + probe_delay now (wants_link l) l.health in
      let l' =
        async_probe
          (record { now = t; is_connected = is_connected; connect = up client address extras seq })
          l in
      ((now + 15000 ≤ t)
        × (l.health.next_attempt ≤ t)
        × ((t ≡ now + 15000) ⊎ (t ≡ l.health.next_attempt)))
      × (l'.client ≡ some client)
      × (wants_link l' ≡ false)
      × (l'.health.available ≡ true)
      × (l'.health.fail_count ≡ 0)
      × (l'.health.next_attempt ≡ 0)
unfolding connect_with hold set_available notify_listeners clear_issue forget_refusals
async_probe-recovers now is_connected client address extras seq l wants =
    let r : Radio = record {
      now = now + probe_delay now (wants_link l) l.health;
      is_connected = is_connected;
      connect = up client address extras seq;
    } in
    let may : may_attempt r.now l.health ≡ true =
      subst (λ (b : Bool). may_attempt (now + probe_delay now b l.health) l.health ≡ true)
        (sym wants) (may_attempt-probe_delay now l.health) in
    let same = async_probe-connects r l wants may in
    (
      subst
          (λ (b : Bool).
            let t = now + probe_delay now b l.health in
            (now + 15000 ≤ t)
            × (l.health.next_attempt ≤ t)
            × ((t ≡ now + 15000) ⊎ (t ≡ l.health.next_attempt)))
          (sym wants) (probe_delay-le now l.health),
      ap (λ (x : Links). x.client) same,
      ap wants_link same ∙ wants_link-hold client address extras seq l,
      ap (λ (x : Links). x.health.available) same,
      ap (λ (x : Links). x.health.fail_count) same,
      ap (λ (x : Links). x.health.next_attempt) same,
    )
