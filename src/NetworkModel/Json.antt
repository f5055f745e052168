-- ===== src/NetworkModel/Json.antt =====
-- A JSON document, as json.load returns it, and the reading of its values in
-- src/btmesh/network_model.py. The keys of an object differ; a float is kept as its text.
use ha_bluetooth_mesh.Prelude.{
  Bool, Option, none, some, List, [], ◌∷◌, ◌==◌, if◌then◌else◌, length, bytes_eq,
}
use ha_bluetooth_mesh.Prelude.Bytes.{Bytes}
use ha_bluetooth_mesh.Prelude.Integers.{ℤ}
use ha_bluetooth_mesh.Prelude.Outcome.{Result, ok, err, from_option, network_model_error}
use ha_bluetooth_mesh.NetworkModel.{Text}

mutual
  pub data Json : Type 0 where
    null : Json
    bool : Bool → Json
    int : ℤ → Json
    float text : Text → Json
    list : Items → Json
    object : Fields → Json

  pub data Items : Type 0 where
    no_items : Items
    item : Json → Items → Items

  pub data Fields : Type 0 where
    no_fields : Fields
    field : Text → Json → Fields → Fields

-- What the code takes from Python: `str(value)`, `int(text, 16)` and `bytes.fromhex(text)`, where
-- `none` is a ValueError.
pub record Builtins : Type 0 where
  pub str : Json → Text
  pub int_16 : Text → Option ℤ
  pub fromhex : Text → Option Bytes

unfoldable pub items : Items → List Json
items no_items = []
items (item x xs) = x ∷ items xs

-- `d.get(key)`, and whether the key is there
unfoldable pub lookup : Text → Fields → Option Json
lookup key no_fields = none
lookup key (field k v fields) = if bytes_eq k key then some v else lookup key fields

-- `d.get(key, default)`
unfoldable pub get_or_default : Text → Json → Fields → Json
unfolding lookup
get_or_default key default d = elim (lookup key d) [ some v ↦ v | none ↦ default ]

-- `isinstance(value, list)`, with what it holds
unfoldable pub as_list : Json → Option (List Json)
unfolding items
as_list (list xs) = some (items xs)
as_list other = none

unfoldable pub as_dict : Json → Option Fields
as_dict (object d) = some d
as_dict other = none

-- A text that is not empty
unfoldable pub as_name : Json → Option Text
as_name (text t) = if length t == 0 then none else some t
as_name other = none

-- `_as_int`
unfoldable pub as_int : Json → Result ℤ
as_int (int n) = ok n
as_int other = err network_model_error

-- `_hex_int`
unfoldable pub hex_int : Builtins → Json → Result ℤ
hex_int py (text t) = from_option network_model_error (py.int_16 t)
hex_int py other = err network_model_error

-- `_hex_bytes`
unfoldable pub hex_bytes : Builtins → Text → Fields → Result Bytes
unfolding get_or_default
hex_bytes py key d = elim (get_or_default key null d) [
  | text t ↦ from_option network_model_error (py.fromhex t)
  | other ↦ err network_model_error
]
