-- ===== src/Light/TurnOn.antt =====
-- src/custom_components/bluetooth_mesh/light.py: `async_turn_on`, `async_turn_off` and the reading of
-- the lamp. The answers to the commands of one call are a parameter, and nothing else changes the
-- light while the call waits for them; `to_brightness` is the rounding of `_level_to_brightness`.
pub mod Settled
pub mod Mirror
use ha_bluetooth_mesh.Prelude.{
  ℕ, zero, Bool, true, false, Option, none, some, List, [], ◌∷◌, ◌++◌, ◌&&◌, ◌||◌, not, ◌==◌,
  if◌then◌else◌,
}
use ha_bluetooth_mesh.Prelude.Integers.{ℤ, pos}
use ha_bluetooth_mesh.Light.{
  MeshLight, ColorMode, color_temp, is_onoff, Command, set_onoff, set_lightness, set_ctl,
  set_ctl_temperature, mesh_kelvin, ha_kelvin, is_none, note_answer, settle_onoff,
  ha_brightness_max,
}

-- What the node answers to a Set of each kind: the lightness, the temperature and the on/off state.
pub record Answers : Type 0 where
  pub lightness : Option ℕ
  pub temperature : Option ℕ
  pub onoff : Option Bool

-- A call of `async_turn_on` under way: the light, the commands sent, and its local variables.
pub record Turn : Type 0 where
  pub light : MeshLight
  pub sent : List Command
  pub drove_lightness : Bool
  pub lit : Bool
  pub temp_only : Bool

unfoldable pub or_kept {ℓ} : {A : Type ℓ} → Option A → Option A → Option A
or_kept none previous = previous
or_kept (some a) previous = some a

unfoldable pub temperature_of : Option ℕ → Option ℤ
temperature_of none = none
temperature_of (some kelvin) = some (pos kelvin)

-- The optimistic state
unfoldable pub optimistic : Option ℕ → Option ℕ → MeshLight → MeshLight
unfolding or_kept temperature_of
optimistic brightness kelvin l = record l {
  is_on = some true;
  brightness = or_kept brightness l.brightness;
  color_temp_kelvin = or_kept (temperature_of kelvin) l.color_temp_kelvin;
}

-- `self._brightness if self._brightness else HA_BRIGHTNESS_MAX`
unfoldable pub level_of : Option ℕ → ℕ
level_of none = ha_brightness_max
level_of (some level) = if level == 0 then ha_brightness_max else level

unfoldable pub settled_kelvin : MeshLight → Option ℕ → Option ℤ → Option ℤ
unfolding ha_kelvin
settled_kelvin l none previous = previous
settled_kelvin l (some kelvin) previous = some (ha_kelvin l kelvin)

unfoldable pub settled_brightness : (ℕ → ℕ) → Option ℕ → Option ℕ → Option ℕ
settled_brightness to_brightness none previous = previous
settled_brightness to_brightness (some level) previous = some (to_brightness level)

unfoldable pub was_lit : Option Bool → Bool
was_lit none = false
was_lit (some on) = on

module _ (to_brightness : ℕ → ℕ) (answers : Answers) where
  -- The first `if` of the body: a brightness
  unfoldable pub turn_brightness : Option ℕ → Option ℕ → Turn → Turn
  unfolding settled_brightness note_answer is_none
  turn_brightness none previous t = t
  turn_brightness (some level) previous t = record t {
    light = record (note_answer (not (is_none answers.lightness)) t.light) {
      brightness = settled_brightness to_brightness answers.lightness previous;
    };
    sent = t.sent ++ (set_lightness t.light.lightness_unicast level ∷ []);
    drove_lightness = true;
    lit = not (is_none answers.lightness);
  }

  -- The node's temperature element takes only the temperature; without one, Light CTL Set carries
  -- a lightness too.
  unfoldable pub send_kelvin : Option ℤ → ℕ → Turn → Turn
  unfolding mesh_kelvin level_of is_none
  send_kelvin (some element) kelvin t = record t {
    sent = t.sent ++ (set_ctl_temperature element (mesh_kelvin t.light kelvin) ∷ []);
    temp_only = true;
  }
  send_kelvin none kelvin t = record t {
    sent =
        t.sent
        ++ (set_ctl t.light.ctl_unicast (level_of t.light.brightness) (mesh_kelvin t.light kelvin)
            ∷ []);
    drove_lightness = true;
    lit = t.lit || not (is_none answers.temperature);
  }

  -- The second `if`: a temperature
  unfoldable pub turn_kelvin : Option ℕ → Option ℤ → Turn → Turn
  unfolding send_kelvin note_answer settled_kelvin is_none
  turn_kelvin none previous t = t
  turn_kelvin (some kelvin) previous t =
      let asked = send_kelvin t.light.ctl_temp_unicast kelvin t in
      record asked {
        light = record (note_answer (not (is_none answers.temperature)) asked.light) {
          color_temp_kelvin = settled_kelvin t.light answers.temperature previous;
        };
      }

  -- The last `if`: the on/off state
  unfoldable pub turn_end : Option Bool → Turn → Turn
  unfolding settle_onoff was_lit
  turn_end was_on t =
      if not t.drove_lightness && (not t.temp_only || not (was_lit was_on))
      then record t {
        light = settle_onoff answers.onoff was_on t.light;
        sent = t.sent ++ (set_onoff t.light.onoff_unicast true ∷ []);
      }
      else if not t.lit
      then record t { light = record t.light { is_on = was_on } }
      else t

  unfoldable pub async_turn_on : Option ℕ → Option ℕ → MeshLight → MeshLight × List Command
  unfolding optimistic turn_brightness turn_kelvin turn_end
  async_turn_on brightness kelvin l =
      let begun : Turn = record {
        light = optimistic brightness kelvin l;
        sent = [];
        drove_lightness = false;
        lit = false;
        temp_only = false;
      } in
      let ended =
        turn_end l.is_on (
          turn_kelvin kelvin l.color_temp_kelvin (turn_brightness brightness l.brightness begun)) in
      (ended.light, ended.sent)

  unfoldable pub async_turn_off : MeshLight → MeshLight × List Command
  unfolding settle_onoff
  async_turn_off l = (
    settle_onoff answers.onoff l.is_on (record l { is_on = some false }),
    set_onoff l.onoff_unicast false ∷ [],
  )

-- What the node answers to a read of each kind.
pub record Reads : Type 0 where
  pub onoff : Option Bool
  pub lightness : Option ℕ
  pub range : Option (ℕ × ℕ)
  pub temperature : Option ℕ

unfoldable pub take_range : Option (ℕ × ℕ) → MeshLight → MeshLight
take_range none l = l
take_range (some (low, high)) l = record l { min_kelvin = low; max_kelvin = high }

-- `_refresh_ctl`: which server answers for the temperature is up to the addresses.
unfoldable pub refresh_ctl : Reads → MeshLight → MeshLight
unfolding take_range settled_kelvin
refresh_ctl r l =
    let ranged = if l.range_read then l else take_range r.range (record l { range_read = true }) in
    record ranged { color_temp_kelvin = settled_kelvin ranged r.temperature l.color_temp_kelvin }

unfoldable pub is_color_temp : ColorMode → Bool
is_color_temp color_temp = true
is_color_temp mode = false

unfoldable pub read_brightness : (ℕ → ℕ) → Bool → Reads → MeshLight → MeshLight
unfolding settled_brightness is_onoff
read_brightness to_brightness on r l =
    if on && not (is_onoff l.mode)
    then record l { brightness = settled_brightness to_brightness r.lightness l.brightness }
    else l

-- `async_refresh_state`, from what the on/off read answers on
unfoldable pub refresh_from : (ℕ → ℕ) → Option Bool → Reads → MeshLight → MeshLight
unfolding read_brightness refresh_ctl is_color_temp
refresh_from to_brightness none r l = l
refresh_from to_brightness (some on) r l =
    let known = read_brightness to_brightness on r (record l { is_on = some on }) in
    if is_color_temp l.mode then refresh_ctl r known else known

unfoldable pub async_refresh_state : (ℕ → ℕ) → Reads → MeshLight → MeshLight
unfolding refresh_from
async_refresh_state to_brightness r l = refresh_from to_brightness r.onoff r l
