-- ===== src/NetworkModel/Keys.antt =====
-- The key that `app_key_for_models` of src/btmesh/network_model.py chooses.
use ha_bluetooth_mesh.Prelude.{
  ℕ, ◌≡◌, refl, sym, ap, ◌∙◌, subst, ==_refl, arith, Bool, true, false, none, some, List, [], ◌∷◌,
  map, if◌then◌else◌, Bool-cases, Option-cases, inl, inr,
}
use ha_bluetooth_mesh.Prelude.Integers.{ℤ, pos, negsuc, int_eq, mem}
use ha_bluetooth_mesh.NetworkModel.{
  AppKey, Network, bound_indexes, count, count_all, insort, sorted, bound_app_key_indexes, held,
  first_held, app_key_for_models,
}

-- The indexes that were counted.
abbrev keys_of : List (ℤ × ℕ) → List ℤ
keys_of counts = map (λ (kv : ℤ × ℕ). kv.0) counts

int_eq→≡ : (i j : ℤ) → int_eq i j ≡ true → i ≡ j
unfolding int_eq
int_eq→≡ (pos a) (pos b) h = ap pos (ground arith)
int_eq→≡ (negsuc a) (negsuc b) h = ap negsuc (ground arith)
int_eq→≡ (pos a) (negsuc b) h = cc
int_eq→≡ (negsuc a) (pos b) h = cc

int_eq_refl : (i : ℤ) → int_eq i i ≡ true
unfolding int_eq
int_eq_refl (pos a) = ==_refl a
int_eq_refl (negsuc a) = ==_refl a

absorb : (b x : Bool) → (if b then true else x) ≡ (if b then true else if b then true else x)
absorb true x = refl
absorb false x = refl

mem-count :
    (i k : ℤ) (counts : List (ℤ × ℕ))
    → mem i (keys_of (count k counts)) ≡ (if int_eq k i then true else mem i (keys_of counts))
unfolding mem count
mem-count i k [] = refl
mem-count i k ((j, times) ∷ counts) = elim (Bool-cases (int_eq j k)) [
  | inl same ↦
      let e : j ≡ k = int_eq→≡ j k same in
      rw (same, e) (absorb (int_eq k i) (mem i (keys_of counts)))
  | inr other ↦ rw other (ground (arith, mem-count i k counts))
]

mem-insort :
    (i : ℤ) (item : ℤ × ℕ) (items : List (ℤ × ℕ))
    → mem i (keys_of (insort item items))
      ≡ (if int_eq item.0 i then true else mem i (keys_of items))
unfolding mem insort
mem-insort i item [] = refl
mem-insort i item (next ∷ items) = ground (arith, mem-insort i item items)

mem-sorted : (i : ℤ) (items : List (ℤ × ℕ)) → mem i (keys_of (sorted items)) ≡ mem i (keys_of items)
unfolding mem sorted
mem-sorted i [] = refl
mem-sorted i (item ∷ items) = ground (arith, mem-insort i item (sorted items), mem-sorted i items)

mem-count_all :
    (i : ℤ) (ks : List ℤ) (counts : List (ℤ × ℕ))
    → mem i (keys_of (count_all ks counts)) ≡ (if mem i ks then true else mem i (keys_of counts))
unfolding mem count_all
mem-count_all i [] counts = refl
mem-count_all i (k ∷ ks) counts =
    ground (arith, mem-count_all i ks (count k counts), mem-count i k counts)

if_true : (b : Bool) → (if b then true else false) ≡ b
if_true true = refl
if_true false = refl

-- Each index is listed that is bound to a wanted model, and no other.
mem-bound_app_key_indexes :
    (i : ℤ) (ids : List ℤ) (n : Network)
    → mem i (bound_app_key_indexes ids n) ≡ mem i (bound_indexes ids n)
unfolding bound_app_key_indexes mem
mem-bound_app_key_indexes i ids n =
    mem-sorted i (count_all (bound_indexes ids n) [])
    ∙ mem-count_all i (bound_indexes ids n) []
    ∙ if_true (mem i (bound_indexes ids n))

held-index : (k : ℤ) (keys : List AppKey) (key : AppKey) → held k keys ≡ some key → key.index ≡ k
unfolding held
held-index k [] key h = cc
held-index k (first ∷ keys) key h = elim (Option-cases (held k keys)) [
  | inr (later, there) ↦
      let e : held k (first ∷ keys) ≡ some later = rw (there, held) refl in
      let same : later ≡ key = cc in
      subst (λ (x : AppKey). x.index ≡ k) same (held-index k keys later there)
  | inl missing ↦ elim (Bool-cases (int_eq first.index k)) [
    | inl here ↦
        let e : held k (first ∷ keys) ≡ some first = rw (missing, here, held) refl in
        let same : first ≡ key = cc in
        subst (λ (x : AppKey). x.index ≡ k) same (int_eq→≡ first.index k here)
    | inr other ↦ let e : held k (first ∷ keys) ≡ none = rw (missing, other, held) refl in cc
  ]
]

first_held-held :
    (ks : List ℤ) (n : Network) (i : ℤ) (key : AppKey)
    → mem i ks ≡ true
    → held i n.app_keys ≡ some key
    → (k : ℤ) × (mem k ks ≡ true) × (held k n.app_keys ≡ some (first_held ks n))
unfolding first_held mem
first_held-held [] n i key here there = cc
first_held-held (k ∷ ks) n i key here there = elim (Option-cases (held k n.app_keys)) [
  | inr (key', found) ↦
      let e : first_held (k ∷ ks) n ≡ key' = rw (found, first_held) refl in
      (k, ground (arith, int_eq_refl k), found ∙ ap some (sym e))
  | inl missing ↦
      let e : first_held (k ∷ ks) n ≡ first_held ks n = rw (missing, first_held) refl in
      let later : mem i ks ≡ true = elim (Bool-cases (int_eq k i)) [
        | inl same ↦ let e : k ≡ i = int_eq→≡ k i same in cc
        | inr other ↦ ground arith
      ] in
      let (j, listed, found) = first_held-held ks n i key later there in
      (j, ground arith, found ∙ ap some (sym e))
]

-- If an index that a wanted model is bound to has a key in the export, then the key chosen is one
-- that the export holds for its index, and a wanted model is bound to that index.
pub app_key_for_models-bound :
    (n : Network) (ids : List ℤ) (i : ℤ) (key : AppKey)
    → mem i (bound_indexes ids n) ≡ true
    → held i n.app_keys ≡ some key
    → (held (app_key_for_models ids n).index n.app_keys ≡ some (app_key_for_models ids n))
      × (mem (app_key_for_models ids n).index (bound_indexes ids n) ≡ true)
unfolding app_key_for_models
app_key_for_models-bound n ids i key bound there =
    let (k, listed, found) =
      first_held-held (bound_app_key_indexes ids n) n i key
        (mem-bound_app_key_indexes i ids n ∙ bound) there in
    let e : (app_key_for_models ids n).index ≡ k =
      held-index k n.app_keys (app_key_for_models ids n) found in
    (
      ap (λ (j : ℤ). held j n.app_keys) e ∙ found,
      ap (λ (j : ℤ). mem j (bound_indexes ids n)) e
          ∙ sym (mem-bound_app_key_indexes k ids n)
          ∙ listed,
    )
