-- ===== src/Light/Outputs/Addressed.antt =====
-- Where the commands of a light of src/custom_components/bluetooth_mesh/light.py go, where a
-- node has several outputs.
use ha_bluetooth_mesh.Prelude.{◌≡◌, refl, arith, Bool, true, Option, none, some, List, [], ◌∷◌}
use ha_bluetooth_mesh.Prelude.Integers.{ℤ, int_lt}
use ha_bluetooth_mesh.NetworkModel.{Node, Element, has_model}
use ha_bluetooth_mesh.Light.Outputs.{
  model_light_ctl_temp, outputs, next_output, is_before, temp_element_among, temp_element_for,
  unicast_of, element_light,
}

-- The loop over the elements gives a temperature server that follows the element and stands before
-- the next output.
temp_element_among-between :
    (index : ℤ) (next : Option ℤ) (es : List Element) (t : Element)
    → temp_element_among index next es ≡ some t
    → (int_lt index t.index ≡ true)
      × (is_before t.index next ≡ true)
      × (has_model model_light_ctl_temp t ≡ true)
unfolding temp_element_among
temp_element_among-between index next [] t found = cc
temp_element_among-between index next (e ∷ es) t found =
    ground (arith, temp_element_among-between index next es t)

unicast_of-some :
    (o : Option Element) (a : ℤ)
    → unicast_of o ≡ some a
    → (t : Element) × (o ≡ some t) × (some t.unicast ≡ some a)
unfolding unicast_of
unicast_of-some none a h = cc
unicast_of-some (some t) a h = (t, refl, h)

-- Where the light of an output has an address for temperature commands, it is that of an element
-- which hosts the Light CTL Temperature server, stands after the output and before the next output
-- of the node.
pub element_light-temp_element :
    (invert_ctl : Bool) (node : Node) (e : Element) (a : ℤ)
    → (element_light invert_ctl node e).ctl_temp_unicast ≡ some a
    → (t : Element) × (some t.unicast ≡ some a)
      × (int_lt e.index t.index ≡ true)
      × (is_before t.index (next_output e.index (outputs node)) ≡ true)
      × (has_model model_light_ctl_temp t ≡ true)
unfolding element_light temp_element_for
element_light-temp_element invert_ctl node e a h =
    let (t, found, same) = unicast_of-some (temp_element_for node e) a h in
    let (after, before, hosts) =
      temp_element_among-between e.index (next_output e.index (outputs node)) node.elements t
        found in
    (t, same, after, before, hosts)
