-- ===== src/Coordinator/Health/Stuck.antt =====
-- When src/custom_components/bluetooth_mesh/coordinator.py accuses a proxy of being stuck.
use ha_bluetooth_mesh.Prelude.{
  ℕ, ◌+◌, ◌≤◌, ◌≡◌, refl, sym, subst, arith, true, false, Option, none, some, List, [], ◌∷◌, ◌||◌,
  not, ltb, if◌then◌else◌, bytes_eq, bytes_eq→eq, bytes_eq_refl, Bool-cases, inl, inr,
}
use ha_bluetooth_mesh.NetworkModel.{Text}
use ha_bluetooth_mesh.MeshTransport.{ProxyPath, has_free_slot}
use ha_bluetooth_mesh.Coordinator.Health.{
  Health, Issue, health, forget_refusals, proxy_is_stuck, same_source, add_refusal, note_refusal,
  clear_issue, raise_proxy_issue, notify_listeners, give_up, set_unavailable, set_available,
  back_off, restarted, proxy_restarted, connect_missed, connect_failed, stuck_proxy_fast_failure,
}
use ha_bluetooth_mesh.Coordinator.Health.Attempts.{
  Attempt, reached, missed, failed, heard, step, after, accuses, streak,
}

-- The streak of the state is no longer than that of the attempts.
abbrev IsCounted : Option ProxyPath → ℕ → List Attempt → Type 0
IsCounted none n past = n ≡ 0
IsCounted (some p) n past = n ≤ streak p.source past

raise_proxy_issue-keeps :
    (h : Health)
    → ((raise_proxy_issue h).refusals ≡ h.refusals)
      × ((raise_proxy_issue h).refused_path ≡ h.refused_path)
unfolding raise_proxy_issue clear_issue
raise_proxy_issue-keeps h = ground arith

set_unavailable-keeps :
    (h : Health)
    → ((set_unavailable h).refusals ≡ h.refusals)
      × ((set_unavailable h).refused_path ≡ h.refused_path)
unfolding set_unavailable give_up notify_listeners
set_unavailable-keeps h =
    ground (
      arith,
      raise_proxy_issue-keeps (record h { fail_count = h.fail_count + 1; available = false }),
    )

-- A state with the same streak.
IsCounted-same :
    (h r : Health) (past : List Attempt)
    → (r.refusals ≡ h.refusals) × (r.refused_path ≡ h.refused_path)
    → IsCounted h.refused_path h.refusals past
    → IsCounted r.refused_path r.refusals past
IsCounted-same h r past same c = rw (same.0, same.1) c

-- The streak that the new refusal goes on with.
kept_streak :
    (p : ProxyPath) (path : Option ProxyPath) (n : ℕ) (past : List Attempt)
    → IsCounted path n past
    → (if same_source p.source path then n else 0) ≤ streak p.source past
unfolding same_source
kept_streak p none n past c = omega (arith, c)
kept_streak p (some q) n past c = elim (Bool-cases (bytes_eq p.source q.source)) [
  | inl same ↦
      rw (same, same_source)
        (subst (λ (source : Text). n ≤ streak source past)
          (sym (bytes_eq→eq p.source q.source same)) c)
  | inr other ↦ rw (other, same_source) (omega arith)
]

note_refusal-IsCounted :
    (scanner_of : Text → Option ℕ) (paths : List ProxyPath) (elapsed now : ℕ) (h : Health)
    (past : List Attempt)
    → IsCounted h.refused_path h.refusals past
    → let r = note_refusal scanner_of paths elapsed h in
      IsCounted r.refused_path r.refusals (failed scanner_of paths elapsed now ∷ past)
unfolding note_refusal forget_refusals add_refusal streak accuses
note_refusal-IsCounted scanner_of [] elapsed now h past c = refl
note_refusal-IsCounted scanner_of (p ∷ q ∷ paths) elapsed now h past c = refl
note_refusal-IsCounted scanner_of (p ∷ []) elapsed now h past c =
    elim (Bool-cases (ltb stuck_proxy_fast_failure elapsed || not (has_free_slot p))) [
      | inl slow ↦ rw (slow, note_refusal) refl
      | inr fast ↦
          rw (fast, note_refusal)
            (ground
              (arith, fast, kept_streak p h.refused_path h.refusals past c, bytes_eq_refl p.source))
    ]

heard-IsCounted :
    (scanner_of : Text → Option ℕ) (path : Option ProxyPath) (n : ℕ) (past : List Attempt)
    → IsCounted path n past
    → IsCounted path n (heard scanner_of ∷ past)
unfolding streak
heard-IsCounted scanner_of none n past c = c
heard-IsCounted scanner_of (some p) n past c = c

step-IsCounted :
    (past : List Attempt) (a : Attempt) (h : Health)
    → IsCounted h.refused_path h.refusals past
    → IsCounted (step a h).refused_path (step a h).refusals (a ∷ past)
unfolding step connect_missed connect_failed back_off forget_refusals set_available notify_listeners
    clear_issue proxy_restarted streak
step-IsCounted past reached h c = refl
step-IsCounted past missed h c =
    IsCounted-same (forget_refusals h) (set_unavailable (forget_refusals h)) (missed ∷ past)
      (set_unavailable-keeps (forget_refusals h)) refl
step-IsCounted past (failed scanner_of paths elapsed now) h c =
    let noted = note_refusal scanner_of paths elapsed h in
    IsCounted-same noted (set_unavailable noted) (failed scanner_of paths elapsed now ∷ past)
      (set_unavailable-keeps noted) (note_refusal-IsCounted scanner_of paths elapsed now h past c)
step-IsCounted past (heard scanner_of) h c =
    elim (Bool-cases (restarted scanner_of h.refused_scanner h.refused_path)) [
      | inl new ↦ rw (new, step, proxy_restarted) refl
      | inr old ↦
          rw (old, step, proxy_restarted)
            (heard-IsCounted scanner_of h.refused_path h.refusals past c)
    ]

after-IsCounted :
    (registry : List Issue) (past : List Attempt)
    → let h = after registry past in IsCounted h.refused_path h.refusals past
unfolding after health
after-IsCounted registry [] = refl
after-IsCounted registry (a ∷ past) =
    step-IsCounted past a (after registry past) (after-IsCounted registry past)

accused :
    (path : Option ProxyPath) (n : ℕ) (past : List Attempt)
    → IsCounted path n past
    → 3 ≤ n
    → (p : ProxyPath) × (path ≡ some p) × (3 ≤ streak p.source past)
accused none n past c many = absurd (omega (arith, c, many))
accused (some p) n past c many = (p, refl, omega (arith, c, many))

-- After any attempts from the start on: where the coordinator holds a proxy to be stuck, it accuses
-- one, and each of the last 3 or more attempts was a connect that raised within 3 s while that
-- proxy alone heard the node and did not report that it has no slot free.
pub after-stuck :
    (registry : List Issue) (past : List Attempt)
    → proxy_is_stuck (after registry past) ≡ true
    → (p : ProxyPath) × ((after registry past).refused_path ≡ some p) × (3 ≤ streak p.source past)
unfolding proxy_is_stuck
after-stuck registry past stuck =
    accused (after registry past).refused_path (after registry past).refusals past
      (after-IsCounted registry past) (ground (arith, stuck))
