-- ===== src/Transport/Assembler/Parts.antt =====
-- The dict of parts: lookups after insertions, and what its size says.
use ha_bluetooth_mesh.Prelude.{
  ℕ, zero, suc, ◌+◌, ◌≤◌, ◌<◌, ◌≡◌, refl, arith, none, some, [], ◌∷◌, ◌==◌, if◌then◌else◌, length,
}
use ha_bluetooth_mesh.Prelude.Bytes.{Bytes}
use ha_bluetooth_mesh.Transport.Assembler.{Parts, lookup, insert}

pub lookup-insert :
    (i j : ℕ) (v : Bytes) (parts : Parts)
    → lookup j (insert i v parts) ≡ (if i == j then some v else lookup j parts)
unfolding lookup insert
lookup-insert i j v [] = refl
lookup-insert i j v ((k, w) ∷ parts) = ground (arith, lookup-insert i j v parts)

-- How many of the keys below `n` are there.
unfoldable pub held : ℕ → Parts → ℕ
held zero parts = 0
held (suc n) parts = held n parts + (elim (lookup n parts) [ none ↦ 0 | some v ↦ 1 ])

pub held_empty : (n : ℕ) → held n [] ≡ 0
unfolding held lookup
held_empty zero = refl
held_empty (suc n) = omega (arith, held_empty n)

pub held-le : (n : ℕ) (parts : Parts) → held n parts ≤ n
unfolding held
held-le zero parts = omega arith
held-le (suc n) parts = ground (arith, held-le n parts)

-- A key outside the range changes nothing in it.
held_outside :
    (n i : ℕ) (v : Bytes) (parts : Parts) → n ≤ i → held n (insert i v parts) ≡ held n parts
unfolding held
held_outside zero i v parts h = refl
held_outside (suc n) i v parts h =
    ground (arith, held_outside n i v parts, lookup-insert i n v parts)

-- One key more, if it was not there.
pub held-insert :
    (n i : ℕ) (v : Bytes) (parts : Parts)
    → i < n
    → held n (insert i v parts) ≡ held n parts + (elim (lookup i parts) [ none ↦ 1 | some w ↦ 0 ])
unfolding held
held-insert zero i v parts h = absurd (omega arith)
held-insert (suc n) i v parts h =
    ground (arith, held-insert n i v parts, held_outside n n v parts, lookup-insert i n v parts)

pub length-insert :
    (i : ℕ) (v : Bytes) (parts : Parts)
    → length (insert i v parts) ≡ length parts + (elim (lookup i parts) [ none ↦ 1 | some w ↦ 0 ])
unfolding lookup insert
length-insert i v [] = omega arith
length-insert i v ((j, w) ∷ parts) = ground (arith, length-insert i v parts)
