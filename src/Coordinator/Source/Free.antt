-- ===== src/Coordinator/Source/Free.antt =====
-- The address that src/custom_components/bluetooth_mesh/coordinator.py transmits from is free.
use ha_bluetooth_mesh.Prelude.{
  ℕ, ◌≤◌, ◌≡◌, refl, ap, arith, Bool, true, false, none, some, ◌&&◌, not, Bool-cases, ◌⊎◌, inl, inr,
}
use ha_bluetooth_mesh.Prelude.Integers.{ℤ, pos, int_lt, int_eq, mem}
use ha_bluetooth_mesh.Prelude.Outcome.{ok}
use ha_bluetooth_mesh.NetworkModel.{Network, unicast_addresses}
use ha_bluetooth_mesh.NetworkModel.Addresses.{free_unicast-nearest}
use ha_bluetooth_mesh.Coordinator.Source.{
  is_unicast, configured_src_addr, derived, or_derived, resolve_src_addr,
}

-- A unicast address that no element of the export owns.
abbrev pub is_free : ℤ → Network → Bool
is_free a n = is_unicast a && not (mem a (unicast_addresses n))

configured-is_free :
    (configured a : ℤ) (n : Network)
    → configured_src_addr configured n ≡ some a
    → is_free a n ≡ true
unfolding configured_src_addr
configured-is_free configured a n h = ground (arith, h)

both : (u m : Bool) → u ≡ true → m ≡ false → (u && not m) ≡ true
both u m hu hm = ground (arith, hu, hm)

blocked : (u m z : Bool) → ((u ≡ false) ⊎ (m ≡ true) ⊎ (z ≡ true)) → ((u && not m) && not z) ≡ false
blocked u m z h = ground (arith, h)

is_unicast-range : (a : ℕ) → 1 ≤ a → a ≤ 0x7FFF → is_unicast (pos a) ≡ true
unfolding is_unicast int_lt
is_unicast-range a least most = ground (arith, least, most)

derived-is_free :
    (n : Network) (b : ℕ)
    → 1 ≤ b
    → b ≤ 0x7FFF
    → mem (pos b) (unicast_addresses n) ≡ false
    → (a : ℤ) × (or_derived none n ≡ ok a) × (is_free a n ≡ true)
unfolding or_derived derived
derived-is_free n b least most free =
    let (a, found, above, below, open') =
      free_unicast-nearest n 0x7FFF b (omega arith) least most free in
    (
      pos a,
      ap derived found,
      both (is_unicast (pos a)) (mem (pos a) (unicast_addresses n))
          (is_unicast-range a (omega (arith, least, above)) (omega (arith, below))) open',
    )

-- Where some unicast address is owned by no element of the export, and whatever the options say,
-- the coordinator settles on an address: a unicast that no element owns; and it is the configured
-- one where that is such an address and not 0.
pub resolve_src_addr-is_free :
    (configured : ℤ) (n : Network) (b : ℕ)
    → 1 ≤ b
    → b ≤ 0x7FFF
    → mem (pos b) (unicast_addresses n) ≡ false
    → (a : ℤ) × (resolve_src_addr configured n ≡ ok a)
      × (is_free a n ≡ true)
      × ((is_free configured n && not (int_eq configured (pos 0))) ≡ false ⊎ (a ≡ configured))
unfolding resolve_src_addr configured_src_addr
resolve_src_addr-is_free configured n b least most free =
    let u = is_unicast configured in
    let m = mem configured (unicast_addresses n) in
    let z = int_eq configured (pos 0) in
    let (d, found, fit) = derived-is_free n b least most free in
    elim (Bool-cases (int_eq configured (pos 0))) [
      | inl default ↦ (d, rw default found, fit, inl (blocked u m z (inr (inr default))))
      | inr set ↦ elim (Bool-cases (is_unicast configured)) [
        | inr foreign ↦ (d, rw (set, foreign) found, fit, inl (blocked u m z (inl foreign)))
        | inl unicast ↦ elim (Bool-cases (mem configured (unicast_addresses n))) [
          | inl taken ↦
              (d, rw (set, unicast, taken) found, fit, inl (blocked u m z (inr (inl taken))))
          | inr spare ↦
              (configured, rw (set, unicast, spare) refl, both u m unicast spare, inr refl)
        ]
      ]
    ]
