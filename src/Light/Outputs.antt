-- ===== src/Light/Outputs.antt =====
-- src/custom_components/bluetooth_mesh/light.py: which elements of a node are lights, and where their
-- commands go.
pub mod Addressed
use ha_bluetooth_mesh.Prelude.{
  ℕ, Bool, true, false, Option, none, some, List, [], ◌∷◌, ◌++◌, ◌&&◌, ◌||◌, not, leb, length,
  if◌then◌else◌,
}
use ha_bluetooth_mesh.Prelude.Integers.{ℤ, pos, int_lt, mem}
use ha_bluetooth_mesh.NetworkModel.{
  Node, Element, Model, Group, Network, any, concat, has_model, node_has_model, element_for_model,
  elements_for_model,
}
use ha_bluetooth_mesh.Light.{
  MeshLight, ColorMode, color_temp, brightness_only, onoff, default_min_kelvin, default_max_kelvin,
}
use ha_bluetooth_mesh.Light.Group.{MeshGroupLight, group_light}

abbrev pub model_generic_onoff : ℤ
model_generic_onoff = pos 0x1000

abbrev pub model_light_lightness : ℤ
model_light_lightness = pos 0x1300

abbrev pub model_light_ctl : ℤ
model_light_ctl = pos 0x1303

abbrev pub model_light_ctl_temp : ℤ
model_light_ctl_temp = pos 0x1306

-- `xs or ys`
unfoldable pub or_else {ℓ} : {A : Type ℓ} → List A → List A → List A
or_else [] ys = ys
or_else (x ∷ xs) ys = x ∷ xs

-- `_outputs`
unfoldable pub outputs : Node → List Element
unfolding or_else elements_for_model
outputs node =
    or_else (elements_for_model model_light_lightness node)
      (elements_for_model model_generic_onoff node)

-- The index of the first output after an element
unfoldable pub next_output : ℤ → List Element → Option ℤ
unfolding int_lt
next_output index [] = none
next_output index (e ∷ es) = if int_lt index e.index then some e.index else next_output index es

unfoldable pub is_before : ℤ → Option ℤ → Bool
unfolding int_lt
is_before index none = true
is_before index (some next) = int_lt index next

-- The loop of `_temp_element_for`, over the elements that follow
unfoldable pub temp_element_among : ℤ → Option ℤ → List Element → Option Element
unfolding is_before has_model int_lt
temp_element_among index next [] = none
temp_element_among index next (e ∷ es) =
    let rest = temp_element_among index next es in
    if int_lt index e.index
    then (if is_before e.index next
        then (if has_model model_light_ctl_temp e then some e else rest)
        else none)
    else rest

-- `_temp_element_for`
unfoldable pub temp_element_for : Node → Element → Option Element
unfolding temp_element_among next_output outputs
temp_element_for node element =
    temp_element_among element.index (next_output element.index (outputs node)) node.elements

-- `_model_unicast`, with the models in the order in which they are tried
unfoldable pub model_unicast : List ℤ → Node → ℤ
unfolding element_for_model
model_unicast [] node = node.unicast
model_unicast (model_id ∷ models) node = elim (element_for_model model_id node) [
  | some e ↦ e.unicast
  | none ↦ model_unicast models node
]

-- `_element_subscribes`
unfoldable pub element_subscribes : ℤ → Element → Bool
unfolding any mem
element_subscribes address e = any (λ (m : Model). mem address m.subscribe) e.models

unfoldable pub mode_of : (ℤ → Bool) → ColorMode
mode_of has =
    if has model_light_ctl
    then color_temp
    else if has model_light_lightness
    then brightness_only
    else onoff

unfoldable pub unicast_of : Option Element → Option ℤ
unicast_of none = none
unicast_of (some e) = some e.unicast

-- `__init__` of the one light of a node
unfoldable pub node_light : Bool → Node → MeshLight
unfolding mode_of model_unicast unicast_of element_for_model node_has_model
node_light invert_ctl node = record {
  onoff_unicast = model_unicast (model_generic_onoff ∷ model_light_lightness ∷ []) node;
  lightness_unicast = model_unicast (model_light_lightness ∷ []) node;
  ctl_unicast = model_unicast (model_light_ctl ∷ []) node;
  ctl_temp_unicast = unicast_of (element_for_model model_light_ctl_temp node);
  mode = mode_of (λ model_id. node_has_model model_id node);
  invert_ctl = invert_ctl;
  min_kelvin = default_min_kelvin;
  max_kelvin = default_max_kelvin;
  is_on = none;
  brightness = none;
  color_temp_kelvin = none;
  unacknowledged = 0;
  range_read = false;
}

-- `__init__` of the light of one output
unfoldable pub element_light : Bool → Node → Element → MeshLight
unfolding mode_of temp_element_for unicast_of has_model
element_light invert_ctl node element = record {
  onoff_unicast = element.unicast;
  lightness_unicast = element.unicast;
  ctl_unicast = element.unicast;
  ctl_temp_unicast = unicast_of (temp_element_for node element);
  mode = mode_of (λ model_id. has_model model_id element);
  invert_ctl = invert_ctl;
  min_kelvin = default_min_kelvin;
  max_kelvin = default_max_kelvin;
  is_on = none;
  brightness = none;
  color_temp_kelvin = none;
  unacknowledged = 0;
  range_read = false;
}

-- The lights of `async_setup_entry` for the outputs of one node, each with its element
unfoldable pub lights_of : List ℤ → Node → List Element → List (MeshLight × Element)
unfolding node_light element_light mem
lights_of inverted node [] = []
lights_of inverted node (e ∷ []) = (node_light (mem node.unicast inverted) node, e) ∷ []
lights_of inverted node (e ∷ f ∷ es) = each (e ∷ f ∷ es)
  where
    each : List Element → List (MeshLight × Element)
    each [] = []
    each (e ∷ es) = (element_light (mem e.unicast inverted) node e, e) ∷ each es

unfoldable pub members_of : ℤ → List (MeshLight × Element) → List MeshLight
unfolding element_subscribes
members_of address [] = []
members_of address ((light, e) ∷ lights) =
    let rest = members_of address lights in
    if element_subscribes address e then light ∷ rest else rest

unfoldable pub groups_of : List (MeshLight × Element) → List Group → List MeshGroupLight
unfolding members_of group_light
groups_of lights [] = []
groups_of lights (g ∷ groups) =
    let members = members_of g.address lights in
    let rest = groups_of lights groups in
    if leb 2 (length members) then group_light g.address members ∷ rest else rest

-- `async_setup_entry`: the lights, and the groups over them
unfoldable pub async_setup_entry : List ℤ → Network → List MeshLight × List MeshGroupLight
unfolding concat lights_of outputs groups_of
async_setup_entry inverted network =
    let lights = concat (λ (node : Node). lights_of inverted node (outputs node)) network.nodes in
    (concat (λ (l : MeshLight × Element). l.0 ∷ []) lights, groups_of lights network.groups)
