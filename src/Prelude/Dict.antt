-- ===== src/Prelude/Dict.antt =====
-- A dict with numbers for keys: its items in the order in which the keys were first set.
use Prim.Native.Nat.{ℕ, ◌+◌, ◌≤◌, ◌<◌}
use mathlib.Core.Path.{◌≡◌, refl, ap, ◌∙◌}
use mathlib.Core.Bool.{Bool, true, false}
use mathlib.Core.Option.{Option, none, some}
use mathlib.Core.List.{List, [], ◌∷◌}
use native.Mathlib.Omega.{arith}
use ha_bluetooth_mesh.Prelude.Tests.{◌==◌, if◌then◌else◌, ==_refl}
use ha_bluetooth_mesh.Prelude.Lists.{length}

module _ {ℓ} {A : Type ℓ} where
  -- `d.get(k)`
  unfoldable pub get : ℕ → List (ℕ × A) → Option A
  get k [] = none
  get k ((j, v) ∷ d) = if j == k then some v else get k d

  -- `d[k] = v` keeps the place of a key that is there.
  unfoldable pub set : ℕ → A → List (ℕ × A) → List (ℕ × A)
  set k v [] = (k, v) ∷ []
  set k v ((j, w) ∷ d) = if j == k then (j, v) ∷ d else (j, w) ∷ set k v d

  -- `d.pop(k, None)`
  unfoldable pub delete : ℕ → List (ℕ × A) → List (ℕ × A)
  delete k [] = []
  delete k ((j, w) ∷ d) = let rest = delete k d in if j == k then rest else (j, w) ∷ rest

  pub get-set :
      (k j : ℕ) (v : A) (d : List (ℕ × A))
      → get j (set k v d) ≡ (if k == j then some v else get j d)
  unfolding get set
  get-set k j v [] = refl
  get-set k j v ((i, w) ∷ d) = ground (arith, get-set k j v d)

  pub get-delete :
      (k j : ℕ) (d : List (ℕ × A)) → get j (delete k d) ≡ (if k == j then none else get j d)
  unfolding get delete
  get-delete k j [] = ground arith
  get-delete k j ((i, w) ∷ d) = ground (arith, get-delete k j d)

  pub length-set-le : (k : ℕ) (v : A) (d : List (ℕ × A)) → length (set k v d) ≤ length d + 1
  unfolding set
  length-set-le k v [] = omega arith
  length-set-le k v ((i, w) ∷ d) = ground (arith, length-set-le k v d)

  -- A key that is there is set in place.
  pub length-set_same :
      (k : ℕ) (v w : A) (d : List (ℕ × A)) → get k d ≡ some w → length (set k v d) ≡ length d
  unfolding get set
  length-set_same k v w [] h = cc
  length-set_same k v w ((i, u) ∷ d) h = ground (arith, length-set_same k v w d)

  pub length-delete-le : (k : ℕ) (d : List (ℕ × A)) → length (delete k d) ≤ length d
  unfolding delete
  length-delete-le k [] = omega arith
  length-delete-le k ((i, w) ∷ d) = ground (arith, length-delete-le k d)

  pub get-set_self : (k : ℕ) (v : A) (d : List (ℕ × A)) → get k (set k v d) ≡ some v
  get-set_self k v d =
      get-set k k v d ∙ ap (λ (b : Bool). if b then some v else get k d) (==_refl k)

  -- `k in d`
  unfoldable pub has : ℕ → List (ℕ × A) → Bool
  has k [] = false
  has k ((j, w) ∷ d) = if j == k then true else has k d

  pub has-set :
      (k j : ℕ) (v : A) (d : List (ℕ × A)) → has j (set k v d) ≡ (if k == j then true else has j d)
  unfolding set has
  has-set k j v [] = refl
  has-set k j v ((i, w) ∷ d) = ground (arith, has-set k j v d)

  pub has-delete :
      (k j : ℕ) (d : List (ℕ × A)) → has j (delete k d) ≡ (if k == j then false else has j d)
  unfolding delete has
  has-delete k j [] = ground arith
  has-delete k j ((i, w) ∷ d) = ground (arith, has-delete k j d)

  pub has-some : (k : ℕ) (v : A) (d : List (ℕ × A)) → get k d ≡ some v → has k d ≡ true
  unfolding get has
  has-some k v [] h = cc
  has-some k v ((i, w) ∷ d) h = ground (arith, has-some k v d)

  pub has-none : (k : ℕ) (d : List (ℕ × A)) → get k d ≡ none → has k d ≡ false
  unfolding get has
  has-none k [] h = refl
  has-none k ((i, w) ∷ d) h = ground (arith, has-none k d)

  pub length-delete-has :
      (k : ℕ) (d : List (ℕ × A)) → has k d ≡ true → length (delete k d) < length d
  unfolding has delete
  length-delete-has k [] h = cc
  length-delete-has k ((i, w) ∷ d) h = ground (arith, length-delete-has k d, length-delete-le k d)
