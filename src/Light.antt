-- ===== src/Light.antt =====
-- src/custom_components/bluetooth_mesh/light.py: the lights of a node and the groups over them. What
-- a command of the coordinator answers is a parameter, and so are the float conversions between a
-- brightness and a lightness. The names, the device and the logging are left out, and so is the
-- writing of the state to Home Assistant, which reads the fields here.
pub mod Outputs
pub mod TurnOn
pub mod Group
mod Tests
use ha_bluetooth_mesh.Prelude.{
  ℕ, ◌+◌, ◌-◌, Bool, true, false, Option, none, some, List, [], ◌∷◌, ◌&&◌, ◌||◌, not, ltb, ◌==◌,
  if◌then◌else◌,
}
use ha_bluetooth_mesh.Prelude.Integers.{ℤ, pos, minus}

pub data ColorMode : Type 0 where
  color_temp brightness_only onoff : ColorMode

-- `mode is ColorMode.ONOFF`
unfoldable pub is_onoff : ColorMode → Bool
is_onoff onoff = true
is_onoff mode = false

abbrev pub default_min_kelvin : ℕ
default_min_kelvin = 2700

abbrev pub default_max_kelvin : ℕ
default_max_kelvin = 6500

abbrev pub ha_brightness_max : ℕ
ha_brightness_max = 255

-- The fields of `MeshLight` that its methods use: the addresses, what it is, and the cache.
pub record MeshLight : Type 0 where
  pub onoff_unicast : ℤ
  pub lightness_unicast : ℤ
  pub ctl_unicast : ℤ
  pub ctl_temp_unicast : Option ℤ
  pub mode : ColorMode
  pub invert_ctl : Bool
  pub min_kelvin : ℕ
  pub max_kelvin : ℕ
  pub is_on : Option Bool
  pub brightness : Option ℕ
  pub color_temp_kelvin : Option ℤ
  pub unacknowledged : ℕ
  pub range_read : Bool

-- A command that goes to the coordinator, with its address. A level is written as the brightness
-- that it is the fraction of.
pub data Command : Type 0 where
  set_onoff : ℤ → Bool → Command
  set_lightness : ℤ → ℕ → Command
  set_ctl : ℤ → ℕ → ℤ → Command
  set_ctl_temperature : ℤ → ℤ → Command

-- `_mirror`, which is below 0 for a temperature above the sum of the limits
unfoldable pub mirror : MeshLight → ℕ → ℤ
unfolding minus
mirror l kelvin = minus (l.min_kelvin + l.max_kelvin) kelvin

unfoldable pub mesh_kelvin : MeshLight → ℕ → ℤ
unfolding mirror
mesh_kelvin l kelvin = if l.invert_ctl then mirror l kelvin else pos kelvin

unfoldable pub ha_kelvin : MeshLight → ℕ → ℤ
unfolding mirror
ha_kelvin l kelvin = if l.invert_ctl then mirror l kelvin else pos kelvin

unfoldable pub is_none {ℓ} : {A : Type ℓ} → Option A → Bool
is_none none = true
is_none (some a) = false

-- `_note_answer`
unfoldable pub note_answer : Bool → MeshLight → MeshLight
note_answer answered l = record l { unacknowledged = if answered then 0 else l.unacknowledged + 1 }

-- `_settle_onoff`
unfoldable pub settle_onoff : Option Bool → Option Bool → MeshLight → MeshLight
unfolding note_answer
settle_onoff none was_on l = record (note_answer false l) { is_on = was_on }
settle_onoff (some answer) was_on l = record (note_answer true l) { is_on = some answer }

unfoldable pub apply_group_state : Bool → Option ℕ → MeshLight → MeshLight
apply_group_state on none l = record l { is_on = some on }
apply_group_state on (some level) l = record l { is_on = some on; brightness = some level }

unfoldable pub group_snapshot : MeshLight → Option Bool × Option ℕ
group_snapshot l = (l.is_on, l.brightness)

unfoldable pub restore_group_snapshot : Option Bool × Option ℕ → MeshLight → MeshLight
restore_group_snapshot (is_on, brightness) l = record l { is_on = is_on; brightness = brightness }
