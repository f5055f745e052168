-- ===== src/NetworkModel.antt =====
-- src/btmesh/network_model.py: the network that another app provisioned, as its export describes
-- it. A text is its code points; an int that the export gives can be negative.
pub mod Key
pub mod Json
pub mod Import
pub mod Addresses
pub mod Keys
mod Tests
use ha_bluetooth_mesh.Prelude.{
  ℕ, zero, suc, ◌+◌, Bool, true, false, Option, none, some, List, [], ◌∷◌, ◌++◌, ◌&&◌, ◌||◌, leb,
  ltb, ◌==◌, if◌then◌else◌, not, map, length,
}
use ha_bluetooth_mesh.Prelude.Bytes.{Bytes}
use ha_bluetooth_mesh.Prelude.Integers.{ℤ, pos, negsuc, int_eq, int_lt, mem}
use ha_bluetooth_mesh.Prelude.Outcome.{Result, Error, ok, err, network_model_error}
use ha_bluetooth_mesh.Crypto.{Primitives, k3}

abbrev pub Text : Type 0
Text = List ℕ

abbrev pub unicast_min : ℕ
unicast_min = 0x0001

abbrev pub unicast_max : ℕ
unicast_max = 0x7FFF

pub record AppKey : Type 0 where
  pub index : ℤ
  pub key : Bytes
  pub name : Text

pub record Model : Type 0 where
  pub model_id : ℤ
  pub bound_appkey_indexes : List ℤ
  pub subscribe : List ℤ

unfoldable pub is_vendor : Model → Bool
is_vendor m = int_lt (pos 0xFFFF) m.model_id

pub record Element : Type 0 where
  pub index : ℤ
  pub unicast : ℤ
  pub models : List Model
  pub name : Text

pub record Node : Type 0 where
  pub uuid : Text
  pub unicast : ℤ
  pub device_key : Bytes
  pub cid : ℤ
  pub name : Text
  pub elements : List Element

pub record Group : Type 0 where
  pub id : Text
  pub name : Text
  pub kind : Text
  pub address : ℤ

pub record Network : Type 0 where
  pub name : Text
  pub uuid : Text
  pub net_key : Bytes
  pub net_key_index : ℤ
  pub app_key : Bytes
  pub app_key_index : ℤ
  pub iv_index : ℤ
  pub nodes : List Node
  pub app_keys : List AppKey
  pub groups : List Group

-- `any(... for x in xs)`
unfoldable pub any {ℓ} : {A : Type ℓ} → (A → Bool) → List A → Bool
any test [] = false
any test (x ∷ xs) = test x || any test xs

-- `Element.has_model`
unfoldable pub has_model : ℤ → Element → Bool
unfolding any
has_model model_id e = any (λ (m : Model). int_eq m.model_id model_id) e.models

-- `Node.has_model`
unfoldable pub node_has_model : ℤ → Node → Bool
unfolding any has_model
node_has_model model_id n = any (has_model model_id) n.elements

-- The loop of `Node.element_for_model`
unfoldable pub first_element : ℤ → List Element → Option Element
unfolding has_model
first_element model_id [] = none
first_element model_id (e ∷ es) = if has_model model_id e then some e else first_element model_id es

unfoldable pub element_for_model : ℤ → Node → Option Element
unfolding first_element
element_for_model model_id n = first_element model_id n.elements

unfoldable pub filter {ℓ} : {A : Type ℓ} → (A → Bool) → List A → List A
filter test [] = []
filter test (x ∷ xs) = let rest = filter test xs in if test x then x ∷ rest else rest

unfoldable pub elements_for_model : ℤ → Node → List Element
unfolding filter has_model
elements_for_model model_id n = filter (has_model model_id) n.elements

-- `self.uuid or k3(self.net_key).hex()`; `hex` is Python's.
unfoldable pub identifier : Primitives → (Bytes → Text) → Network → Text
identifier p hex n = if length n.uuid == 0 then hex (k3 p n.net_key) else n.uuid

-- The items of a list of lists, in order.
unfoldable pub concat {ℓ κ} : {A : Type ℓ} {B : Type κ} → (A → List B) → List A → List B
concat items [] = []
concat items (x ∷ xs) = items x ++ concat items xs

-- The indexes that `counts.update` gets, in the order of the loops.
unfoldable pub bound_indexes : List ℤ → Network → List ℤ
unfolding concat
bound_indexes wanted n =
    concat
      (λ (node : Node).
        concat
          (λ (e : Element).
            concat (λ (m : Model). if mem m.model_id wanted then m.bound_appkey_indexes else [])
              e.models)
          node.elements)
      n.nodes

-- `Counter.update` with one element: an item of the index and how often it came.
unfoldable pub count : ℤ → List (ℤ × ℕ) → List (ℤ × ℕ)
unfolding int_eq
count k [] = (k, 1) ∷ []
count k ((j, times) ∷ counts) =
    if int_eq j k then (j, times + 1) ∷ counts else (j, times) ∷ count k counts

unfoldable pub count_all : List ℤ → List (ℤ × ℕ) → List (ℤ × ℕ)
unfolding count
count_all [] counts = counts
count_all (k ∷ ks) counts = count_all ks (count k counts)

-- `(-kv[1], kv[0])` of the one item is below that of the other.
unfoldable pub goes_before : ℤ × ℕ → ℤ × ℕ → Bool
unfolding int_lt
goes_before (j, s) (k, t) = ltb t s || ((s == t) && int_lt j k)

unfoldable pub insort : ℤ × ℕ → List (ℤ × ℕ) → List (ℤ × ℕ)
unfolding goes_before
insort item [] = item ∷ []
insort item (next ∷ items) =
    if goes_before next item then next ∷ insort item items else item ∷ next ∷ items

-- `sorted`; the keys of the items differ, so that no two of them are equal.
unfoldable pub sorted : List (ℤ × ℕ) → List (ℤ × ℕ)
unfolding insort
sorted [] = []
sorted (item ∷ items) = insort item (sorted items)

unfoldable pub bound_app_key_indexes : List ℤ → Network → List ℤ
unfolding bound_indexes count_all sorted
bound_app_key_indexes model_ids n =
    map (λ (kv : ℤ × ℕ). kv.0) (sorted (count_all (bound_indexes model_ids n) []))

-- `held.get(index)` of `{key.index: key for key in self.app_keys}`: the last key of an index.
unfoldable pub held : ℤ → List AppKey → Option AppKey
unfolding int_eq
held k [] = none
held k (key ∷ keys) = elim (held k keys) [
  | some later ↦ some later
  | none ↦ if int_eq key.index k then some key else none
]

unfoldable pub default_app_key : Network → AppKey
default_app_key n = elim n.app_keys [
  | [] ↦ record { index = n.app_key_index; key = n.app_key; name = [] }
  | first ∷ keys ↦ first
]

-- The loop of `app_key_for_models`, and the key behind it
unfoldable pub first_held : List ℤ → Network → AppKey
unfolding held default_app_key
first_held [] n = default_app_key n
first_held (k ∷ ks) n = elim (held k n.app_keys) [ some key ↦ key | none ↦ first_held ks n ]

unfoldable pub app_key_for_models : List ℤ → Network → AppKey
unfolding first_held bound_app_key_indexes
app_key_for_models model_ids n = first_held (bound_app_key_indexes model_ids n) n

unfoldable pub unicast_addresses : Network → List ℤ
unfolding concat
unicast_addresses n =
    concat (λ (node : Node). map (λ (e : Element). e.unicast) node.elements) n.nodes

-- The loop of `free_unicast`, from the candidate down to 1
unfoldable pub free_below : List ℤ → ℕ → Result ℕ
unfolding mem
free_below taken zero = err network_model_error
free_below taken (suc n) = if mem (pos (suc n)) taken then free_below taken n else ok (suc n)

unfoldable pub free_unicast : ℤ → Network → Result ℕ
unfolding free_below unicast_addresses
free_unicast (negsuc m) n = err network_model_error
free_unicast (pos preferred) n =
    if leb unicast_min preferred && leb preferred unicast_max
    then free_below (unicast_addresses n) preferred
    else err network_model_error
