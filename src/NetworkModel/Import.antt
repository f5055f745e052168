-- ===== src/NetworkModel/Import.antt =====
-- `Network.from_connect` of src/btmesh/network_model.py, on a document that json.load has read. The
-- warning that lists the skipped nodes is left out.
pub mod Laws
pub mod Consistency
use ha_bluetooth_mesh.Prelude.{
  ℕ, Bool, true, false, bit, Option, none, some, List, [], ◌∷◌, ◌&&◌, ◌==◌, if◌then◌else◌, not,
  length, bytes_eq,
}
use ha_bluetooth_mesh.Prelude.Bytes.{Bytes}
use ha_bluetooth_mesh.Prelude.Integers.{ℤ, pos, int_eq, ◌+ℤ◌}
use ha_bluetooth_mesh.Prelude.Outcome.{
  Result, Error, ok, err, ◌>>=◌, ◌>>◌, from_option, network_model_error,
}
use ha_bluetooth_mesh.NetworkModel.{Text, AppKey, Model, Element, Node, Group, Network, concat}
use ha_bluetooth_mesh.NetworkModel.Key as Key
use ha_bluetooth_mesh.NetworkModel.Json.{
  Json, null, bool, int, float, text, list, object, no_items, Fields, Builtins, items, lookup,
  get_or_default, as_list, as_dict, as_name, as_int, hex_int, hex_bytes,
}

-- A comprehension whose element may raise
unfoldable pub each {ℓ κ} : {A : Type ℓ} {B : Type κ} → (A → Result B) → List A → Result (List B)
each parse [] = ok []
each parse (x ∷ xs) = do y ← parse x; ys ← each parse xs; ok (y ∷ ys)

-- One round of the loop that skips an entry which raises NetworkModelError
unfoldable pub skip {ℓ} : {B : Type ℓ} → Result B → Result (List B) → Result (List B)
skip (ok y) rest = do ys ← rest; ok (y ∷ ys)
skip (err network_model_error) rest = rest
skip (err e) rest = err e

unfoldable pub parsed {ℓ κ} : {A : Type ℓ} {B : Type κ} → (A → Result B) → List A → Result (List B)
unfolding skip
parsed parse [] = ok []
parsed parse (x ∷ xs) = skip (parse x) (parsed parse xs)

-- `_first`
unfoldable pub first : Text → Fields → Result Fields
unfolding get_or_default as_list as_dict
first key root = elim (as_list (get_or_default key null root)) [
  | none ↦ err network_model_error
  | some [] ↦ err network_model_error
  | some (entry ∷ entries) ↦ from_option network_model_error (as_dict entry)
]

-- `names.get(unicast, "")` of `_output_names`: the first name that an address was given
unfoldable pub name_of : ℤ → List (ℤ × Text) → Text
name_of address [] = []
name_of address ((a, name) ∷ names) = if int_eq a address then name else name_of address names

-- `isinstance(address, int)`, which holds of a bool too
unfoldable pub as_address : Json → Option ℤ
as_address (int n) = some n
as_address (bool b) = some (pos (bit b))
as_address other = none

-- What one device of `tos_devices` adds to `names`
unfoldable pub output_name : Json → List (ℤ × Text)
unfolding as_dict lookup as_address as_name get_or_default
output_name device = elim (as_dict device) [
  | none ↦ []
  | some d ↦ elim (lookup Key.ports d) [
    | none ↦ []
    | some ports ↦ elim (as_address (get_or_default Key.mesh_address null d)) [
      | none ↦ []
      | some address ↦ elim (as_name (get_or_default Key.name null d)) [
        | none ↦ []
        | some name ↦ (address, name) ∷ []
      ]
    ]
  ]
]

-- `_output_names`
unfoldable pub output_names : Fields → List (ℤ × Text)
unfolding concat output_name as_list get_or_default
output_names node = elim (as_list (get_or_default Key.tos_devices null node)) [
  | none ↦ []
  | some devices ↦ concat output_name devices
]

-- `tos_node["type"]`
unfoldable pub type_name : Fields → Text
unfolding as_dict as_name get_or_default
type_name node = elim (as_dict (get_or_default Key.tos_node null node)) [
  | none ↦ []
  | some tos_node ↦ elim (as_name (get_or_default Key.type null tos_node)) [
    | none ↦ []
    | some type ↦ type
  ]
]

-- `tos_devices[0]["name"]`, if that is a text which is not empty
unfoldable pub device_name : List Json → Option Text
unfolding as_dict as_name get_or_default
device_name [] = none
device_name (device ∷ devices) = elim (as_dict device) [
  | none ↦ none
  | some d ↦ as_name (get_or_default Key.name null d)
]

-- `_node_name`
unfoldable pub node_name : Fields → Text
unfolding as_list get_or_default device_name type_name
node_name node = elim (as_list (get_or_default Key.tos_devices null node)) [
  | none ↦ type_name node
  | some devices ↦ elim (device_name devices) [ none ↦ type_name node | some name ↦ name ]
]

-- `data.get("type") == "all"`
unfoldable pub is_all : Json → Bool
is_all (text t) = bytes_eq t Key.all
is_all other = false

module _ (py : Builtins) where
  -- `str(d.get(key, ""))`
  unfoldable pub text_of : Text → Fields → Text
  unfolding get_or_default
  text_of key d = py.str (get_or_default key (text []) d)

  -- The address of a group: an int, which a bool is not.
  unfoldable pub parse_group : Json → List Group
  unfolding as_dict is_all as_name as_int get_or_default text_of
  parse_group entry = elim (as_dict entry) [
    | none ↦ []
    | some d ↦ elim (as_name (get_or_default Key.name null d)) [
      | none ↦ []
      | some name ↦ elim (as_int (get_or_default Key.multicast_address null d)) [
        | err e ↦ []
        | ok address ↦
            if is_all (get_or_default Key.type null d)
            then []
            else record {
              id = text_of Key.id d;
              name = name;
              kind = text_of Key.type d;
              address = address;
            }
              ∷ []
      ]
    ]
  ]

  -- `_parse_groups`
  unfoldable pub parse_groups : Json → List Group
  unfolding as_list concat parse_group
  parse_groups entries = elim (as_list entries) [
    | none ↦ []
    | some groups ↦ concat parse_group groups
  ]

  unfoldable pub parse_app_key : Json → Result AppKey
  unfolding as_dict as_int hex_bytes get_or_default text_of
  parse_app_key entry = do
    d ← from_option network_model_error (as_dict entry)
    index ← as_int (get_or_default Key.index (int (pos 0)) d)
    key ← hex_bytes py Key.key d
    ok (record { index = index; key = key; name = text_of Key.name d })

  -- `_parse_app_keys`
  unfoldable pub parse_app_keys : List Json → Result (List AppKey)
  unfolding each parse_app_key
  parse_app_keys entries = each parse_app_key entries

  -- `_parse_model`
  unfoldable pub parse_model : Json → Result Model
  unfolding as_dict as_list as_int hex_int get_or_default each
  parse_model raw = do
    d ← from_option network_model_error (as_dict raw)
    model_id ← hex_int py (get_or_default Key.model_id null d)
    bind ← from_option network_model_error (as_list (get_or_default Key.bind (list no_items) d))
    indexes ← each as_int bind
    subscribe ←
        from_option network_model_error (as_list (get_or_default Key.subscribe (list no_items) d))
    addresses ← each (hex_int py) subscribe
    ok (record { model_id = model_id; bound_appkey_indexes = indexes; subscribe = addresses })

  -- `_parse_element`
  unfoldable pub parse_element : ℤ → List (ℤ × Text) → Json → Result Element
  unfolding as_dict as_list as_int get_or_default each parse_model name_of ◌+ℤ◌
  parse_element base_unicast names raw = do
    d ← from_option network_model_error (as_dict raw)
    index ← as_int (get_or_default Key.index (int (pos 0)) d)
    raw_models ←
        from_option network_model_error (as_list (get_or_default Key.models (list no_items) d))
    models ← each parse_model raw_models
    let unicast = base_unicast +ℤ index
    ok (record { index = index; unicast = unicast; models = models; name = name_of unicast names })

  -- `_parse_node`
  unfoldable pub parse_node : Json → Result Node
  unfolding as_dict as_list hex_int hex_bytes get_or_default each parse_element output_names
      node_name text_of
  parse_node raw = do
    d ← from_option network_model_error (as_dict raw)
    base_unicast ← hex_int py (get_or_default Key.unicast_address null d)
    device_key ← hex_bytes py Key.device_key d
    cid ← hex_int py (get_or_default Key.cid null d)
    raw_elements ←
        from_option network_model_error (as_list (get_or_default Key.elements (list no_items) d))
    elements ← each (parse_element base_unicast (output_names d)) raw_elements
    ok (record {
      uuid = text_of Key.uuid d;
      unicast = base_unicast;
      device_key = device_key;
      cid = cid;
      name = node_name d;
      elements = elements;
    })

  -- The nodes that parse, unless there were some and none did
  unfoldable pub parse_nodes : List Json → Result (List Node)
  unfolding parsed parse_node
  parse_nodes raw_nodes = do
    nodes ← parsed parse_node raw_nodes
    if not (length raw_nodes == 0) && (length nodes == 0) then err network_model_error else ok nodes

  -- `from_connect`
  unfoldable pub from_connect : Json → Result Network
  unfolding as_dict as_list as_int hex_bytes get_or_default first parse_app_keys parse_nodes
      parse_groups text_of
  from_connect document = do
    root ← from_option network_model_error (as_dict document)
    net_key_entry ← first Key.net_keys root
    app_key_entry ← first Key.app_keys root
    net_key ← hex_bytes py Key.key net_key_entry
    app_key ← hex_bytes py Key.key app_key_entry
    entries ← from_option network_model_error (as_list (get_or_default Key.app_keys null root))
    app_keys ← parse_app_keys entries
    raw_nodes ← from_option network_model_error (as_list (get_or_default Key.nodes null root))
    nodes ← parse_nodes raw_nodes
    net_key_index ← as_int (get_or_default Key.index (int (pos 0)) net_key_entry)
    app_key_index ← as_int (get_or_default Key.index (int (pos 0)) app_key_entry)
    iv_index ← as_int (get_or_default Key.iv_index (int (pos 0)) root)
    ok (record {
      name = text_of Key.mesh_name root;
      uuid = text_of Key.mesh_uuid root;
      net_key = net_key;
      net_key_index = net_key_index;
      app_key = app_key;
      app_key_index = app_key_index;
      iv_index = iv_index;
      nodes = nodes;
      app_keys = app_keys;
      groups = parse_groups (get_or_default Key.tos_groups (list no_items) root);
    })
