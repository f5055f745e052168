-- ===== src/NetworkModel/Import/Consistency.antt =====
-- The network that `from_connect` of src/btmesh/network_model.py gives.
use ha_bluetooth_mesh.Prelude.{
  ◌≡◌, refl, sym, ap, ◌∙◌, subst, Option, none, some, List, [], ◌∷◌, All,
}
use ha_bluetooth_mesh.Prelude.Integers.{pos}
use ha_bluetooth_mesh.Prelude.Outcome.{Result, ok, err, >>=-eq-ok, from_option, network_model_error}
use ha_bluetooth_mesh.NetworkModel.{Text, AppKey, Network, default_app_key}
use ha_bluetooth_mesh.NetworkModel.Key as Key
use ha_bluetooth_mesh.NetworkModel.Json.{
  Json, null, int, Fields, Builtins, get_or_default, as_list, as_dict, as_int, hex_bytes,
}
use ha_bluetooth_mesh.NetworkModel.Import.{
  each, first, parse_app_key, parse_app_keys, parse_nodes, from_connect, text_of,
}
use ha_bluetooth_mesh.NetworkModel.Import.Laws.{
  Yields, Anything, IsPlaced, chain, from_option-Yields, as_int-Yields, hex_bytes-Yields,
  each-Yields, Yields-Anything, first-Yields, parse_app_key-Yields, parse_nodes-Yields,
}

-- The key that the network names is the first of its keys, and each element has its own address.
pub record IsImported (n : Network) : Type 0 where
  pub same_key : (default_app_key n).key ≡ n.app_key
  pub same_index : (default_app_key n).index ≡ n.app_key_index
  pub placed : All IsPlaced n.nodes

from_option-some {ℓ} :
    {A : Type ℓ} (o : Option A) {a : A} → from_option network_model_error o ≡ ok a → o ≡ some a
from_option-some none h = cc
from_option-some (some a) h = cc

-- `first` returns the first entry of its list.
first-eq :
    (key : Text) (root entry : Fields)
    → first key root ≡ ok entry
    → (x : Json) × (xs : List Json) × (as_list (get_or_default key null root) ≡ some (x ∷ xs))
      × (as_dict x ≡ some entry)
unfolding first
first-eq key root entry h = go (as_list (get_or_default key null root)) h
  where
    go :
        (entries : Option (List Json))
        → (elim entries as (λ x. Result Fields) [
          | none ↦ err network_model_error
          | some [] ↦ err network_model_error
          | some (entry ∷ entries) ↦ from_option network_model_error (as_dict entry)
        ])
          ≡ ok entry
        → (x : Json) × (xs : List Json) × (entries ≡ some (x ∷ xs)) × (as_dict x ≡ some entry)
    go none h = cc
    go (some []) h = cc
    go (some (x ∷ xs)) h = (x, xs, refl, from_option-some (as_dict x) h)

-- Two results that are the same value
ok-eq {ℓ} : {A : Type ℓ} {r : Result A} {a b : A} → r ≡ ok a → r ≡ ok b → a ≡ b
ok-eq h k = cc

some-eq {ℓ} : {A : Type ℓ} {a b : A} → some a ≡ some b → a ≡ b
some-eq h = cc

parse_app_keys-Yields :
    (py : Builtins) (entries : List Json) → Yields Anything (parse_app_keys py entries)
unfolding parse_app_keys
parse_app_keys-Yields py entries =
    Yields-Anything (All Anything) _
      (each-Yields Anything (parse_app_key py) entries (parse_app_key-Yields py))

module _ (py : Builtins) (entry : Fields) where
  parse_app_key-eq :
      (x : Json) (k : AppKey)
      → as_dict x ≡ some entry
      → parse_app_key py x ≡ ok k
      → (hex_bytes py Key.key entry ≡ ok k.key)
        × (as_int (get_or_default Key.index (int (pos 0)) entry) ≡ ok k.index)
  unfolding parse_app_key
  parse_app_key-eq x k h made =
      let (d, dict, rest) = >>=-eq-ok (from_option network_model_error (as_dict x)) _ made in
      let (index, indexed, rest') =
        >>=-eq-ok (as_int (get_or_default Key.index (int (pos 0)) d)) _ rest in
      let (key, keyed, rest'') = >>=-eq-ok (hex_bytes py Key.key d) _ rest' in
      let same : d ≡ entry = some-eq (sym (from_option-some (as_dict x) dict) ∙ h) in
      let e : (record { index = index; key = key; name = text_of py Key.name d }) ≡ k =
        ok-eq refl rest'' in
      (
        ap (λ (d : Fields). hex_bytes py Key.key d) (sym same)
            ∙ keyed
            ∙ ap (λ (k : AppKey). ok k.key) e,
        ap (λ (d : Fields). as_int (get_or_default Key.index (int (pos 0)) d)) (sym same)
            ∙ indexed
            ∙ ap (λ (k : AppKey). ok k.index) e,
      )

  parse_app_keys-first :
      (x : Json) (xs : List Json) (keys : List AppKey)
      → as_dict x ≡ some entry
      → parse_app_keys py (x ∷ xs) ≡ ok keys
      → (k : AppKey) × (ks : List AppKey) × (k ∷ ks ≡ keys)
        × (hex_bytes py Key.key entry ≡ ok k.key)
        × (as_int (get_or_default Key.index (int (pos 0)) entry) ≡ ok k.index)
  unfolding parse_app_keys each
  parse_app_keys-first x xs keys h made =
      let (k, head, rest) = >>=-eq-ok (parse_app_key py x) _ made in
      let (ks, tail, rest') = >>=-eq-ok (each (parse_app_key py) xs) _ rest in
      let (keyed, indexed) = parse_app_key-eq x k h head in
      (k, ks, ok-eq refl rest', keyed, indexed)

default_app_key-first :
    (k : AppKey) (ks : List AppKey) (n : Network) → k ∷ ks ≡ n.app_keys → default_app_key n ≡ k
unfolding default_app_key
default_app_key-first k ks n e = rw (sym e, default_app_key) refl

-- `from_connect` raises nothing but NetworkModelError, whatever the document. Otherwise the key and
-- the index that the network names are those of the first of its keys, and the address of each
-- element of a node is that of the node and the element's index, added up.
pub from_connect-IsImported :
    (py : Builtins) (document : Json) → Yields IsImported (from_connect py document)
unfolding from_connect
from_connect-IsImported py document =
    let P : Network → Type 0 = IsImported in
    chain P (from_option network_model_error (as_dict document)) _
      (from_option-Yields (as_dict document))
      (λ root e1.
        chain P (first Key.net_keys root) _ (first-Yields Key.net_keys root) (λ net_key_entry e2.
          chain P (first Key.app_keys root) _ (first-Yields Key.app_keys root) (λ app_key_entry e3.
            chain P (hex_bytes py Key.key net_key_entry) _
              (hex_bytes-Yields py Key.key net_key_entry)
              (λ net_key e4.
                chain P (hex_bytes py Key.key app_key_entry) _
                  (hex_bytes-Yields py Key.key app_key_entry)
                  (λ app_key e5.
                    chain P
                      (from_option network_model_error
                        (as_list (get_or_default Key.app_keys null root)))
                      _ (from_option-Yields _)
                      (λ entries e6.
                        chain P (parse_app_keys py entries) _ (parse_app_keys-Yields py entries)
                          (λ app_keys e7.
                            chain P
                              (from_option network_model_error
                                (as_list (get_or_default Key.nodes null root)))
                              _ (from_option-Yields _)
                              (λ raw_nodes e8.
                                chain P (parse_nodes py raw_nodes) _
                                  (Yields-Anything (All IsPlaced) _
                                    (parse_nodes-Yields py raw_nodes))
                                  (λ nodes e9.
                                    chain P
                                      (as_int
                                        (get_or_default Key.index (int (pos 0)) net_key_entry))
                                      _ (as_int-Yields _)
                                      (λ net_key_index e10.
                                        chain P
                                          (as_int
                                            (get_or_default Key.index (int (pos 0)) app_key_entry))
                                          _ (as_int-Yields _)
                                          (λ app_key_index e11.
                                            chain P
                                              (as_int
                                                (get_or_default Key.iv_index (int (pos 0)) root))
                                              _ (as_int-Yields _)
                                              (λ iv_index e12.
                                                let (x, xs, listed, dict) =
                                                  first-eq Key.app_keys root app_key_entry e3 in
                                                let same : entries ≡ x ∷ xs =
                                                  some-eq (sym (from_option-some _ e6) ∙ listed) in
                                                let (k, ks, keys, keyed, indexed) =
                                                  parse_app_keys-first py app_key_entry x xs
                                                    app_keys dict
                                                    (ap (parse_app_keys py) (sym same) ∙ e7) in
                                                let first' = default_app_key-first k ks _ keys in
                                                record {
                                                  same_key =
                                                      ap (λ (k : AppKey). k.key) first'
                                                      ∙ ok-eq keyed e5;
                                                  same_index =
                                                      ap (λ (k : AppKey). k.index) first'
                                                      ∙ ok-eq indexed e11;
                                                  placed =
                                                      subst (Yields (All IsPlaced)) e9
                                                        (parse_nodes-Yields py raw_nodes);
                                                }))))))))))))
