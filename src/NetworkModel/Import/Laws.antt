-- ===== src/NetworkModel/Import/Laws.antt =====
-- What `from_connect` of src/btmesh/network_model.py gives or raises.
use ha_bluetooth_mesh.Prelude.{
  ◌≡◌, refl, subst, Bool, true, false, Option, none, some, List, [], ◌∷◌, ◌&&◌, ◌==◌, if◌then◌else◌,
  not, All, length,
}
use ha_bluetooth_mesh.Prelude.Bytes.{Bytes}
use ha_bluetooth_mesh.Prelude.Integers.{ℤ, pos, ◌+ℤ◌}
use ha_bluetooth_mesh.Prelude.Outcome.{Result, ok, err, ◌>>=◌, from_option, network_model_error}
use ha_bluetooth_mesh.NetworkModel.{Text, Element, Node}
use ha_bluetooth_mesh.NetworkModel.Key as Key
use ha_bluetooth_mesh.NetworkModel.Json.{
  Json, null, bool, int, float, text, list, object, no_items, Fields, Builtins, get_or_default,
  as_list, as_dict, as_int, hex_int, hex_bytes,
}
use ha_bluetooth_mesh.NetworkModel.Import.{
  each, skip, parsed, first, output_names, parse_app_key, parse_model, parse_element, parse_node,
  parse_nodes,
}

-- A value with the property, or NetworkModelError.
abbrev pub Yields {ℓ} : {A : Type ℓ} → (A → Type 0) → Result A → Type 0
Yields P (ok a) = P a
Yields P (err e) = e ≡ network_model_error

abbrev pub Anything {ℓ} : {A : Type ℓ} → A → Type 0
Anything a = Unit {0}

pub chain {ℓ κ} :
    {A : Type ℓ} {B : Type κ} (Q : B → Type 0) (r : Result A) (next : A → Result B)
    → Yields Anything r
    → ((a : A) → r ≡ ok a → Yields Q (next a))
    → Yields Q (r >>= next)
chain Q (ok a) next h k = k a refl
chain Q (err e) next h k = h

pub from_option-Yields {ℓ} :
    {A : Type ℓ} (o : Option A) → Yields Anything (from_option network_model_error o)
from_option-Yields none = refl
from_option-Yields (some a) = tt

pub as_int-Yields : (v : Json) → Yields Anything (as_int v)
unfolding as_int
as_int-Yields (int n) = tt
as_int-Yields null = refl
as_int-Yields (bool b) = refl
as_int-Yields (float t) = refl
as_int-Yields (text t) = refl
as_int-Yields (list xs) = refl
as_int-Yields (object d) = refl

hex_int-Yields : (py : Builtins) (v : Json) → Yields Anything (hex_int py v)
unfolding hex_int
hex_int-Yields py (text t) = from_option-Yields (py.int_16 t)
hex_int-Yields py null = refl
hex_int-Yields py (bool b) = refl
hex_int-Yields py (float t) = refl
hex_int-Yields py (int n) = refl
hex_int-Yields py (list xs) = refl
hex_int-Yields py (object d) = refl

pub hex_bytes-Yields :
    (py : Builtins) (key : Text) (d : Fields) → Yields Anything (hex_bytes py key d)
unfolding hex_bytes
hex_bytes-Yields py key d = go (get_or_default key null d)
  where
    go :
        (v : Json)
        → Yields {A = Bytes} Anything (elim v [
          | text t ↦ from_option network_model_error (py.fromhex t)
          | other ↦ err network_model_error
        ])
    go (text t) = from_option-Yields (py.fromhex t)
    go null = refl
    go (bool b) = refl
    go (float t) = refl
    go (int n) = refl
    go (list xs) = refl
    go (object d) = refl

pub Yields-Anything {ℓ} :
    {A : Type ℓ} (P : A → Type 0) (r : Result A) → Yields P r → Yields Anything r
Yields-Anything P (ok a) h = tt
Yields-Anything P (err e) h = h

pub each-Yields {ℓ κ} :
    {A : Type ℓ} {B : Type κ} (P : B → Type 0) (parse : A → Result B) (xs : List A)
    → ((x : A) → Yields P (parse x))
    → Yields (All P) (each parse xs)
unfolding each
each-Yields P parse [] h = tt
each-Yields P parse (x ∷ xs) h =
    chain (All P) (parse x) _ (Yields-Anything P (parse x) (h x)) (λ y e.
      chain (All P) (each parse xs) _
        (Yields-Anything (All P) (each parse xs) (each-Yields P parse xs h))
        (λ ys e'. (subst (Yields P) e (h x), subst (Yields (All P)) e' (each-Yields P parse xs h))))

skip-Yields {ℓ} :
    {B : Type ℓ} (P : B → Type 0) (r : Result B) (rest : Result (List B))
    → Yields P r
    → Yields (All P) rest
    → Yields (All P) (skip r rest)
unfolding skip
skip-Yields P (ok y) (ok ys) h k = (h, k)
skip-Yields P (ok y) (err e) h k = k
skip-Yields P (err network_model_error) rest h k = k
skip-Yields P (err e) rest h k = h

parsed-Yields {ℓ κ} :
    {A : Type ℓ} {B : Type κ} (P : B → Type 0) (parse : A → Result B) (xs : List A)
    → ((x : A) → Yields P (parse x))
    → Yields (All P) (parsed parse xs)
unfolding parsed
parsed-Yields P parse [] h = tt
parsed-Yields P parse (x ∷ xs) h =
    skip-Yields P (parse x) (parsed parse xs) (h x) (parsed-Yields P parse xs h)

-- Each element has the address of its node and its own index, added up.
abbrev pub IsPlaced : Node → Type 0
IsPlaced node = All (λ (e : Element). e.unicast ≡ node.unicast +ℤ e.index) node.elements

unless_empty :
    (b : Bool) (nodes : List Node)
    → All IsPlaced nodes
    → Yields (All IsPlaced) (if b then err network_model_error else ok nodes)
unless_empty true nodes h = refl
unless_empty false nodes h = h

module _ (py : Builtins) where
  parse_model-Yields : (raw : Json) → Yields Anything (parse_model py raw)
  unfolding parse_model
  parse_model-Yields raw =
      chain Anything (from_option network_model_error (as_dict raw)) _
        (from_option-Yields (as_dict raw))
        (λ d e.
          chain Anything (hex_int py (get_or_default Key.model_id null d)) _ (hex_int-Yields py _)
            (λ model_id e.
              chain Anything
                (from_option network_model_error
                  (as_list (get_or_default Key.bind (list no_items) d)))
                _ (from_option-Yields _)
                (λ bind e.
                  chain Anything (each as_int bind) _
                    (Yields-Anything (All Anything) _
                      (each-Yields Anything as_int bind as_int-Yields))
                    (λ indexes e.
                      chain Anything
                        (from_option network_model_error
                          (as_list (get_or_default Key.subscribe (list no_items) d)))
                        _ (from_option-Yields _)
                        (λ subscribe e.
                          chain Anything (each (hex_int py) subscribe) _
                            (Yields-Anything (All Anything) _
                              (each-Yields Anything (hex_int py) subscribe (hex_int-Yields py)))
                            (λ addresses e. tt))))))

  parse_element-Yields :
      (base_unicast : ℤ) (names : List (ℤ × Text)) (raw : Json)
      → Yields
          (λ (e : Element). e.unicast ≡ base_unicast +ℤ e.index)
          (parse_element py base_unicast names raw)
  unfolding parse_element
  parse_element-Yields base_unicast names raw =
      let P : Element → Type 0 = λ e. e.unicast ≡ base_unicast +ℤ e.index in
      chain P (from_option network_model_error (as_dict raw)) _ (from_option-Yields (as_dict raw))
        (λ d e.
          chain P (as_int (get_or_default Key.index (int (pos 0)) d)) _ (as_int-Yields _)
            (λ index e.
              chain P
                (from_option network_model_error
                  (as_list (get_or_default Key.models (list no_items) d)))
                _ (from_option-Yields _)
                (λ raw_models e.
                  chain P (each (parse_model py) raw_models) _
                    (Yields-Anything (All Anything) _
                      (each-Yields Anything (parse_model py) raw_models parse_model-Yields))
                    (λ models e. refl))))

  parse_node-Yields : (raw : Json) → Yields IsPlaced (parse_node py raw)
  unfolding parse_node
  parse_node-Yields raw =
      chain IsPlaced (from_option network_model_error (as_dict raw)) _
        (from_option-Yields (as_dict raw))
        (λ d e.
          chain IsPlaced (hex_int py (get_or_default Key.unicast_address null d)) _
            (hex_int-Yields py _)
            (λ base_unicast e.
              chain IsPlaced (hex_bytes py Key.device_key d) _
                (hex_bytes-Yields py Key.device_key d)
                (λ device_key e.
                  chain IsPlaced (hex_int py (get_or_default Key.cid null d)) _
                    (hex_int-Yields py _)
                    (λ cid e.
                      chain IsPlaced
                        (from_option network_model_error
                          (as_list (get_or_default Key.elements (list no_items) d)))
                        _ (from_option-Yields _)
                        (λ raw_elements e.
                          let P : Element → Type 0 = λ e. e.unicast ≡ base_unicast +ℤ e.index in
                          let placed =
                            each-Yields P (parse_element py base_unicast (output_names d))
                              raw_elements (parse_element-Yields base_unicast (output_names d)) in
                          chain IsPlaced
                            (each (parse_element py base_unicast (output_names d)) raw_elements) _
                            (Yields-Anything (All P) _ placed)
                            (λ elements e. subst (Yields (All P)) e placed))))))

  pub parse_app_key-Yields : (raw : Json) → Yields Anything (parse_app_key py raw)
  unfolding parse_app_key
  parse_app_key-Yields raw =
      chain Anything (from_option network_model_error (as_dict raw)) _
        (from_option-Yields (as_dict raw))
        (λ d e.
          chain Anything (as_int (get_or_default Key.index (int (pos 0)) d)) _ (as_int-Yields _)
            (λ index e.
              chain Anything (hex_bytes py Key.key d) _ (hex_bytes-Yields py Key.key d)
                (λ key e. tt)))

  pub parse_nodes-Yields : (raws : List Json) → Yields (All IsPlaced) (parse_nodes py raws)
  unfolding parse_nodes
  parse_nodes-Yields raws =
      let placed = parsed-Yields IsPlaced (parse_node py) raws parse_node-Yields in
      chain (All IsPlaced) (parsed (parse_node py) raws) _ (Yields-Anything (All IsPlaced) _ placed)
        (λ nodes e.
          unless_empty (not (length raws == 0) && (length nodes == 0)) nodes
            (subst (Yields (All IsPlaced)) e placed))

pub first-Yields : (key : Text) (root : Fields) → Yields Anything (first key root)
unfolding first
first-Yields key root = go (as_list (get_or_default key null root))
  where
    go :
        (entries : Option (List Json))
        → Yields {A = Fields} Anything (elim entries [
          | none ↦ err network_model_error
          | some [] ↦ err network_model_error
          | some (entry ∷ entries) ↦ from_option network_model_error (as_dict entry)
        ])
    go none = refl
    go (some []) = refl
    go (some (entry ∷ entries)) = from_option-Yields (as_dict entry)
