-- ===== src/NetworkModel/Tests.antt =====
-- Concrete runs of the import, and the theorems at concrete inputs.
use ha_bluetooth_mesh.Prelude.{
  ℕ, ◌+◌, ◌-◌, ◌*◌, ◌≤◌, ◌≡◌, refl, arith, true, false, Option, none, some, [], ◌∷◌, ◌&&◌, leb,
  if◌then◌else◌, bytes_eq,
}
use ha_bluetooth_mesh.Prelude.Bytes.{Bytes}
use ha_bluetooth_mesh.Prelude.Integers.{ℤ, pos, mem}
use ha_bluetooth_mesh.Prelude.Outcome.{ok, err, network_model_error}
use ha_bluetooth_mesh.NetworkModel.{
  Text, AppKey, Model, Node, Network, bound_indexes, held, app_key_for_models, unicast_addresses,
  free_unicast,
}
use ha_bluetooth_mesh.NetworkModel.Key as Key
use ha_bluetooth_mesh.NetworkModel.Json.{
  Json, null, int, text, list, object, Items, no_items, item, no_fields, field, Builtins,
}
use ha_bluetooth_mesh.NetworkModel.Import.{from_connect}
use ha_bluetooth_mesh.NetworkModel.Import.Laws.{Yields}
use ha_bluetooth_mesh.NetworkModel.Import.Consistency.{IsImported, from_connect-IsImported}
use ha_bluetooth_mesh.NetworkModel.Addresses.{free_unicast-nearest}
use ha_bluetooth_mesh.NetworkModel.Keys.{app_key_for_models-bound}

-- The value of a hexadecimal digit
abbrev digit : ℕ → Option ℕ
digit c =
    if leb 48 c && leb c 57
    then some (c - 48)
    else if leb 65 c && leb c 70
    then some (c - 55)
    else none

abbrev number : ℕ → Text → Option ℤ
number n [] = some (pos n)
number n (c ∷ t) = elim (digit c) [ none ↦ none | some d ↦ number (n * 16 + d) t ]

abbrev octets : Text → Option Bytes
octets [] = some []
octets (c ∷ []) = none
octets (c ∷ d ∷ t) = elim (digit c) [
  | none ↦ none
  | some high ↦ elim (digit d) [
    | none ↦ none
    | some low ↦ elim (octets t) [ none ↦ none | some rest ↦ some ((high * 16 + low) ∷ rest) ]
  ]
]

abbrev name_text : Json → Text
name_text (text t) = t
name_text other = []

abbrev builtins : Builtins
builtins = record { str = name_text; int_16 = number 0; fromhex = octets }

abbrev key_entry : ℕ → Text → Json
key_entry index key =
    object (field Key.index (int (pos index)) (field Key.key (text key) no_fields))

-- A Generic OnOff Server, bound to the second application key
abbrev model : Json
model = object (
    field Key.model_id (text (49 ∷ 48 ∷ 48 ∷ 48 ∷ []))
      (field Key.bind (list (item (int (pos 1)) no_items)) no_fields))

abbrev elements : Items
elements =
    item (object (field Key.models (list (item model no_items)) no_fields))
      (item (object (field Key.index (int (pos 1)) no_fields)) no_items)

abbrev lamp : Json
lamp = object (
    field Key.unicast_address (text (55 ∷ 70 ∷ 70 ∷ 69 ∷ [])) (
      field Key.device_key (text (65 ∷ 65 ∷ [])) (
        field Key.cid (text (48 ∷ 55 ∷ 69 ∷ 57 ∷ []))
          (field Key.elements (list elements) no_fields))))

-- An entry that does not parse stands before the lamp.
abbrev document : Json
document = object (
    field Key.net_keys (list (item (key_entry 0 (48 ∷ 49 ∷ [])) no_items)) (
      field Key.app_keys
        (list (item (key_entry 0 (48 ∷ 50 ∷ [])) (item (key_entry 1 (48 ∷ 51 ∷ [])) no_items)))
        (field Key.nodes (list (item null (item lamp no_items))) no_fields)))

abbrev lamp_model : Model
lamp_model = record { model_id = pos 0x1000; bound_appkey_indexes = pos 1 ∷ []; subscribe = [] }

abbrev lamp_node : Node
lamp_node = record {
  uuid = [];
  unicast = pos 0x7FFE;
  device_key = 0xAA ∷ [];
  cid = pos 0x07E9;
  name = [];
  elements =
      record { index = pos 0; unicast = pos 0x7FFE; models = lamp_model ∷ []; name = [] }
      ∷ record { index = pos 1; unicast = pos 0x7FFF; models = []; name = [] }
      ∷ [];
}

abbrev second_key : AppKey
second_key = record { index = pos 1; key = 0x03 ∷ []; name = [] }

abbrev imported : Network
imported = record {
  name = [];
  uuid = [];
  net_key = 0x01 ∷ [];
  net_key_index = pos 0;
  app_key = 0x02 ∷ [];
  app_key_index = pos 0;
  iv_index = pos 0;
  nodes = lamp_node ∷ [];
  app_keys = record { index = pos 0; key = 0x02 ∷ []; name = [] } ∷ second_key ∷ [];
  groups = [];
}

from_connect-document : from_connect builtins document ≡ ok imported
unfolding from_connect bytes_eq
from_connect-document = refl

-- Where the only node does not parse, nothing is imported.
from_connect_unusable :
    from_connect builtins (
      object (
        field Key.net_keys (list (item (key_entry 0 (48 ∷ 49 ∷ [])) no_items)) (
          field Key.app_keys
            (list (item (key_entry 0 (48 ∷ 50 ∷ [])) no_items))
            (field Key.nodes (list (item null no_items)) no_fields))))
    ≡ err network_model_error
unfolding from_connect bytes_eq
from_connect_unusable = refl

from_connect-IsImported_example : Yields IsImported (from_connect builtins document)
from_connect-IsImported_example = from_connect-IsImported builtins document

free_unicast-nearest_example :
    (a : ℕ) × (free_unicast (pos 0x7FFF) imported ≡ ok a)
    × (0x7FFD ≤ a)
    × (a ≤ 0x7FFF)
    × (mem (pos a) (unicast_addresses imported) ≡ false)
unfolding unicast_addresses mem
free_unicast-nearest_example =
    free_unicast-nearest imported 0x7FFF 0x7FFD (omega arith) (omega arith) (omega arith) refl

app_key_for_models-bound_example :
    (held (app_key_for_models (pos 0x1000 ∷ []) imported).index imported.app_keys
      ≡ some (app_key_for_models (pos 0x1000 ∷ []) imported))
    × (mem
          (app_key_for_models (pos 0x1000 ∷ []) imported).index
          (bound_indexes (pos 0x1000 ∷ []) imported)
        ≡ true)
unfolding bound_indexes mem held
app_key_for_models-bound_example =
    app_key_for_models-bound imported (pos 0x1000 ∷ []) (pos 1) second_key refl refl
