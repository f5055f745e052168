-- ===== src/NetworkModel/Addresses.antt =====
-- The address that `free_unicast` of src/btmesh/network_model.py takes.
use ha_bluetooth_mesh.Prelude.{
  ℕ, zero, suc, ◌≤◌, ◌≡◌, refl, arith, true, false, List, ◌&&◌, leb, Bool-cases, inl, inr,
}
use native.Mathlib.Decide.{dec_lt}
use ha_bluetooth_mesh.Prelude.Integers.{ℤ, pos, mem}
use ha_bluetooth_mesh.Prelude.Outcome.{ok}
use ha_bluetooth_mesh.NetworkModel.{
  Network, unicast_max, unicast_addresses, free_below, free_unicast,
}

free_below-first :
    (taken : List ℤ) (n b : ℕ)
    → 1 ≤ b
    → b ≤ n
    → mem (pos b) taken ≡ false
    → (a : ℕ) × (free_below taken n ≡ ok a) × (b ≤ a) × (a ≤ n) × (mem (pos a) taken ≡ false)
unfolding free_below
free_below-first taken zero b some' h free = absurd (omega arith)
free_below-first taken (suc n) b some' h free = elim (Bool-cases (mem (pos (suc n)) taken)) [
  | inr open' ↦ (suc n, rw open' refl, omega arith, omega arith, open')
  | inl owned ↦ elim (dec_lt n b) [
    | yes above ↦ let e : b ≡ suc n = omega arith in cc
    | no within ↦
        let (a, found, least, most, open') = free_below-first taken n b some' (omega arith) free in
        (a, rw owned found, least, omega arith, open')
  ]
]

-- If any unicast address up to the preferred one is owned by no element of the export, the address
-- taken is one that no element owns, and the one nearest to the preferred: no such address lies
-- above it.
pub free_unicast-nearest :
    (n : Network) (preferred b : ℕ)
    → preferred ≤ unicast_max
    → 1 ≤ b
    → b ≤ preferred
    → mem (pos b) (unicast_addresses n) ≡ false
    → (a : ℕ) × (free_unicast (pos preferred) n ≡ ok a)
      × (b ≤ a)
      × (a ≤ preferred)
      × (mem (pos a) (unicast_addresses n) ≡ false)
unfolding free_unicast
free_unicast-nearest n preferred b fits some' h free =
    let range : (leb 1 preferred && leb preferred unicast_max) ≡ true = ground arith in
    let (a, found, least, most, open') =
      free_below-first (unicast_addresses n) preferred b some' h free in
    (a, rw range found, least, most, open')
