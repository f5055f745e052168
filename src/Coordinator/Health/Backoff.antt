-- ===== src/Coordinator/Health/Backoff.antt =====
-- The wait that src/custom_components/bluetooth_mesh/coordinator.py keeps after failed connects.
use ha_bluetooth_mesh.Prelude.{
  ℕ, zero, suc, ◌+◌, ◌*◌, ◌^◌, ◌<◌, ◌≡◌, refl, sym, ap, ◌∙◌, arith, min, Option, List, [], ◌∷◌,
  ◌++◌, leb, length, map, true, false, ◌||◌, not, Bool-cases, inl, inr, if◌then◌else◌,
}
use ha_bluetooth_mesh.NetworkModel.{Text}
use ha_bluetooth_mesh.MeshTransport.{ProxyPath}
use ha_bluetooth_mesh.Coordinator.Health.{
  Health, Issue, note_refusal, clear_issue, raise_proxy_issue, notify_listeners, give_up,
  set_unavailable, widened, back_off, connect_failed, may_attempt,
}
use ha_bluetooth_mesh.Coordinator.Health.Attempts.{Attempt, failed, step, after}
use ha_bluetooth_mesh.Coordinator.Health.Laws.{note_refusal-fields}
use ha_bluetooth_mesh.Coordinator.Links.{Links, Radio, is_none, async_probe}
use native.Mathlib.Nat.{pow-suc}

-- A connect that raised.
pub record Failure : Type 0 where
  pub scanner_of : Text → Option ℕ
  pub paths : List ProxyPath
  pub elapsed : ℕ
  pub now : ℕ

abbrev pub attempt : Failure → Attempt
attempt f = failed f.scanner_of f.paths f.elapsed f.now

-- The wait after `n` failures more than one
abbrev pub wait : ℕ → ℕ
wait n = min (15000 * 2 ^ n) 300000

widened-min : (x : ℕ) → 0 < x → widened (min (15000 * x) 300000) ≡ min (15000 * (x * 2)) 300000
unfolding widened
widened-min x h = ground arith

pow_pos : (n : ℕ) → 0 < 2 ^ n
pow_pos zero = omega arith
pow_pos (suc n) = omega (arith, pow_pos n, pow-suc 2 n)

widened-wait : (n : ℕ) → widened (wait n) ≡ wait (suc n)
widened-wait n =
    widened-min (2 ^ n) (pow_pos n) ∙ ap (λ (x : ℕ). min (15000 * x) 300000) (sym (pow-suc 2 n))

widened_zero : widened 0 ≡ wait 0
unfolding widened
widened_zero = refl

set_unavailable-backoff : (h : Health) → (set_unavailable h).backoff ≡ h.backoff
unfolding set_unavailable give_up raise_proxy_issue clear_issue notify_listeners
set_unavailable-backoff h = ground arith

-- A failed connect widens the wait, and sets the time before which there is no next one.
failed-backoff :
    (f : Failure) (h : Health)
    → ((step (attempt f) h).backoff ≡ widened h.backoff)
      × ((step (attempt f) h).next_attempt ≡ f.now + widened h.backoff)
unfolding step connect_failed back_off
failed-backoff f h =
    let noted = note_refusal f.scanner_of f.paths f.elapsed h in
    let same : (set_unavailable noted).backoff ≡ h.backoff =
      set_unavailable-backoff noted ∙ (note_refusal-fields f.scanner_of f.paths f.elapsed h).3 in
    (ap widened same, ap (λ (b : ℕ). f.now + widened b) same)

widened-after :
    (registry : List Issue) (past : List Attempt) (fs : List Failure)
    → (after registry past).backoff ≡ 0
    → widened (after registry (map attempt fs ++ past)).backoff ≡ wait (length fs)
unfolding after
widened-after registry past [] fresh = ap widened fresh ∙ widened_zero
widened-after registry past (f ∷ fs) fresh =
    ap widened (
      (failed-backoff f (after registry (map attempt fs ++ past))).0
      ∙ widened-after registry past fs fresh)
    ∙ widened-wait (length fs)

-- A probe before its time is none.
async_probe_gated :
    (r : Radio) (l : Links) → may_attempt r.now l.health ≡ false → async_probe r l ≡ l
unfolding async_probe
async_probe_gated r l early =
    let barred : (l.stopped || not (is_none l.controller) || not (may_attempt r.now l.health))
        ≡ true =
      ground (arith, early) in
    rw (barred, async_probe) refl

-- Where no wait was imposed, `n + 1` connects that raise one after the other, however they fail,
-- leave a wait of 15 s doubled `n` times, and at most 5 min. With nothing else having happened, a
-- probe that comes before that long after the last of them changes nothing: it does not connect.
pub failures-backoff :
    (registry : List Issue) (past : List Attempt) (last : Failure) (earlier : List Failure)
    (r : Radio) (l : Links)
    → (after registry past).backoff ≡ 0
    → let h = after registry (map attempt (last ∷ earlier) ++ past) in
      (h.backoff ≡ wait (length earlier))
      × (h.next_attempt ≡ last.now + wait (length earlier))
      × (async_probe r (record l { health = h }) ≡ (
          if leb (last.now + wait (length earlier)) r.now
          then async_probe r (record l { health = h })
          else record l { health = h }))
unfolding after may_attempt
failures-backoff registry past last earlier r l fresh =
    let h = after registry (map attempt earlier ++ past) in
    let f = failed-backoff last h in
    let w = widened-after registry past earlier fresh in
    let next = f.1 ∙ ap (λ (b : ℕ). last.now + b) w in
    let t = last.now + wait (length earlier) in
    let waiting = record l { health = after registry (map attempt (last ∷ earlier) ++ past) } in
    (
      f.0 ∙ w,
      next,
      elim (Bool-cases (leb t r.now)) [
        | inl due ↦ rw due refl
        | inr early ↦
            rw early (async_probe_gated r waiting (ap (λ (n : ℕ). leb n r.now) next ∙ early))
      ],
    )
