-- ===== src/Light/Tests.antt =====
-- Calls of the lights of src/custom_components/bluetooth_mesh/light.py.
use ha_bluetooth_mesh.Prelude.{
  ℕ, ◌+◌, ◌*◌, ◌/◌, ◌≡◌, refl, arith, ◌⊎◌, if◌then◌else◌, map, true, false, Option, none, some, [],
  ◌∷◌,
}
use ha_bluetooth_mesh.Prelude.Integers.{pos}
use ha_bluetooth_mesh.NetworkModel.{Element, Node}
use ha_bluetooth_mesh.Light.{
  MeshLight, color_temp, onoff, set_onoff, set_ctl_temperature, ha_kelvin,
}
use ha_bluetooth_mesh.Light.TurnOn.{Answers, async_turn_on, settled_kelvin}
use ha_bluetooth_mesh.Light.TurnOn.Settled.{
  lights, switches, confirmed, asked, told, async_turn_on-settled,
}
use ha_bluetooth_mesh.Light.TurnOn.Mirror.{kelvins, async_turn_on-mesh_kelvin}
use ha_bluetooth_mesh.Light.Group as Group
use ha_bluetooth_mesh.Light.Group.{MeshGroupLight, group_light}
use ha_bluetooth_mesh.Light.Group.RollBack.{shown, sets, dark, async_turn_on-IsShown}

abbrev to_brightness : ℕ → ℕ
to_brightness level = (level * 510 + 65535) / 131070

abbrev lamp : MeshLight
lamp = record {
  onoff_unicast = pos 2;
  lightness_unicast = pos 3;
  ctl_unicast = pos 3;
  ctl_temp_unicast = some (pos 4);
  mode = color_temp;
  invert_ctl = true;
  min_kelvin = 2700;
  max_kelvin = 6500;
  is_on = some false;
  brightness = some 80;
  color_temp_kelvin = none;
  unacknowledged = 0;
  range_read = true;
}

abbrev relay : MeshLight
relay = record lamp { mode = onoff; brightness = none }

-- The node answers with the temperature that it was sent, and is silent on the on/off command.
abbrev answers : Answers
answers = record { lightness = none; temperature = some 6500; onoff = none }

warm : async_turn_on to_brightness answers none (some 2700) lamp ≡ (
  record lamp { color_temp_kelvin = some (pos 2700); unacknowledged = 1 },
  set_ctl_temperature (pos 4) (pos 6500) ∷ set_onoff (pos 2) true ∷ [],
)
unfolding async_turn_on settled_kelvin
warm = refl

abbrev warm_asked : Option ℕ
warm_asked = some 2700

abbrev not_asked : Option ℕ
not_asked = none

async_turn_on-settled_example :
    let (l', sent) = async_turn_on to_brightness answers not_asked warm_asked lamp in
    (l'.brightness
      ≡ asked not_asked
          (told answers.lightness (λ level. some (to_brightness level)) lamp.brightness)
          lamp.brightness)
    × (l'.color_temp_kelvin
        ≡ asked warm_asked
            (told answers.temperature (λ k. some (ha_kelvin lamp k)) lamp.color_temp_kelvin)
            lamp.color_temp_kelvin)
    × (l'.is_on ≡ (
        if switches sent
        then told answers.onoff (λ on. some on) lamp.is_on
        else if confirmed answers sent
        then some true
        else lamp.is_on))
    × ((lights sent ≡ true) ⊎ (lamp.is_on ≡ some true) ⊎ (not_asked ≡ some 0))
async_turn_on-settled_example =
    async_turn_on-settled to_brightness answers not_asked warm_asked lamp

async_turn_on-mesh_kelvin_example :
    let (l', sent) =
      async_turn_on to_brightness
        (record { lightness = none; temperature = some 6200; onoff = some true })
        (some 128)
        (some 3000)
        lamp in
    (kelvins sent ≡ pos 6200 ∷ []) × (l'.color_temp_kelvin ≡ some (pos 3000))
async_turn_on-mesh_kelvin_example =
    async_turn_on-mesh_kelvin to_brightness (some 128) 3000 lamp none (some true) (omega arith)
      (omega arith)

abbrev room : MeshGroupLight
room = group_light (pos 0xC000) (lamp ∷ relay ∷ [])

async_turn_on-IsShown_example :
    (Group.async_turn_on true false (some 50) room
      ≡ (record room { members = shown true false (some 50) room }, sets true (some 50) room))
    × (Group.async_turn_off true false room
        ≡ (record room { members = map dark room.members }, set_onoff room.address false ∷ []))
async_turn_on-IsShown_example = async_turn_on-IsShown true false (some 50) room

abbrev element : ℕ → ℕ → Element
element index model = record {
  index = pos index;
  unicast = pos (index + 10);
  models = record { model_id = pos model; bound_appkey_indexes = []; subscribe = [] } ∷ [];
  name = [];
}

-- Two outputs, each with its temperature server behind it
abbrev box : Node
box = record {
  uuid = [];
  unicast = pos 10;
  device_key = [];
  cid = pos 0x07E9;
  name = [];
  elements = element 0 0x1300 ∷ element 1 0x1306 ∷ element 2 0x1300 ∷ element 3 0x1306 ∷ [];
}
