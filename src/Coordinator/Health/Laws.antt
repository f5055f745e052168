-- ===== src/Coordinator/Health/Laws.antt =====
-- What the attempts of src/custom_components/bluetooth_mesh/coordinator.py make of availability, of
-- the repairs and of the wait.
use ha_bluetooth_mesh.Prelude.{
  ℕ, ◌≡◌, refl, arith, Option, List, [], ◌∷◌, ◌&&◌, ltb, leb, if◌then◌else◌,
}
use ha_bluetooth_mesh.NetworkModel.{Text}
use ha_bluetooth_mesh.MeshTransport.{ProxyPath}
use ha_bluetooth_mesh.Coordinator.Health.{Health, Issue, forget_refusals, add_refusal, note_refusal}
use ha_bluetooth_mesh.Coordinator.Health.Repairs.{IsOnScreen}
use ha_bluetooth_mesh.Coordinator.Health.Attempts.{Attempt, misses, was_reached}

-- A link that has come up clears what an earlier run has left.
abbrev pub left_of : List Issue → List Attempt → List Issue
left_of registry past = if was_reached past then [] else registry

-- The state says of the attempts what they were.
abbrev IsHonest : List Issue → List Attempt → Health → Type 0
IsHonest registry past h =
    (h.fail_count ≡ misses past)
    × (h.available ≡ (was_reached past && ltb (misses past) 3))
    × IsOnScreen (left_of registry past) (leb 3 h.fail_count) h.issue_kind h.registry

pub note_refusal-fields :
    (scanner_of : Text → Option ℕ) (paths : List ProxyPath) (elapsed : ℕ) (h : Health)
    → let r = note_refusal scanner_of paths elapsed h in
      (r.fail_count ≡ h.fail_count)
      × (r.available ≡ h.available)
      × (r.issue_kind ≡ h.issue_kind)
      × (r.backoff ≡ h.backoff)
unfolding note_refusal forget_refusals add_refusal
note_refusal-fields scanner_of [] elapsed h = (refl, refl, refl, refl)
note_refusal-fields scanner_of (p ∷ []) elapsed h = ground arith
note_refusal-fields scanner_of (p ∷ q ∷ paths) elapsed h = (refl, refl, refl, refl)
