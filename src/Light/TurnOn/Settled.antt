-- ===== src/Light/TurnOn/Settled.antt =====
-- What a light of src/custom_components/bluetooth_mesh/light.py shows after a call, and what it sent.
use ha_bluetooth_mesh.Prelude.{
  ℕ, ◌≡◌, arith, ◌⊎◌, Bool, true, false, Option, none, some, List, [], ◌∷◌, ◌||◌, not, ltb,
  if◌then◌else◌,
}
use ha_bluetooth_mesh.Light.{
  MeshLight, Command, set_onoff, set_lightness, set_ctl, set_ctl_temperature, is_none, note_answer,
  settle_onoff, ha_kelvin, mirror,
}
use ha_bluetooth_mesh.Light.TurnOn.{
  Answers, optimistic, or_kept, settled_kelvin, settled_brightness, was_lit, level_of,
  turn_brightness, send_kelvin, turn_kelvin, turn_end, async_turn_on,
}

-- A command that lights the lamp, with a level above 0 or an on.
abbrev pub lights : List Command → Bool
lights [] = false
lights (set_onoff a on ∷ cs) = on || lights cs
lights (set_lightness a level ∷ cs) = ltb 0 level || lights cs
lights (set_ctl a level kelvin ∷ cs) = ltb 0 level || lights cs
lights (set_ctl_temperature a kelvin ∷ cs) = lights cs

-- An on/off command.
abbrev pub switches : List Command → Bool
switches [] = false
switches (set_onoff a on ∷ cs) = true
switches (set_lightness a level ∷ cs) = switches cs
switches (set_ctl a level kelvin ∷ cs) = switches cs
switches (set_ctl_temperature a kelvin ∷ cs) = switches cs

-- A command that carries a level, to which the node has answered.
abbrev pub confirmed : Answers → List Command → Bool
confirmed answers [] = false
confirmed answers (set_onoff a on ∷ cs) = confirmed answers cs
confirmed answers (set_lightness a level ∷ cs) =
    not (is_none answers.lightness) || confirmed answers cs
confirmed answers (set_ctl a level kelvin ∷ cs) =
    not (is_none answers.temperature) || confirmed answers cs
confirmed answers (set_ctl_temperature a kelvin ∷ cs) = confirmed answers cs

abbrev pub asked {ℓ κ} : {A : Type ℓ} {B : Type κ} → Option A → B → B → B
asked none answered previous = previous
asked (some a) answered previous = answered

-- What a silent node leaves, and what an answer makes of it.
abbrev pub told {ℓ κ} : {A : Type ℓ} {B : Type κ} → Option A → (A → B) → B → B
told none read previous = previous
told (some a) read previous = read a

module _ (to_brightness : ℕ → ℕ) (answers : Answers) where
  -- Whatever is asked for and whatever the node answers: a brightness or a temperature that was
  -- asked for is what the node answered to it, and the one before where it was silent; one that was
  -- not asked for is as before. Where an on/off command was sent, the lamp is shown as the node
  -- answered to it, and as before where it was silent; else as on where the node answered to a
  -- command that carries a level, and as before where it did not. And unless the brightness 0 was
  -- asked for or the lamp was shown on, a command that lights it was sent.
  pub async_turn_on-settled :
      (brightness kelvin : Option ℕ) (l : MeshLight)
      → let (l', sent) = async_turn_on to_brightness answers brightness kelvin l in
        (l'.brightness
          ≡ asked brightness
              (told answers.lightness (λ level. some (to_brightness level)) l.brightness)
              l.brightness)
        × (l'.color_temp_kelvin
            ≡ asked kelvin
                (told answers.temperature (λ k. some (ha_kelvin l k)) l.color_temp_kelvin)
                l.color_temp_kelvin)
        × (l'.is_on ≡ (
            if switches sent
            then told answers.onoff (λ on. some on) l.is_on
            else if confirmed answers sent
            then some true
            else l.is_on))
        × ((lights sent ≡ true) ⊎ (l.is_on ≡ some true) ⊎ (brightness ≡ some 0))
  unfolding async_turn_on optimistic turn_brightness turn_kelvin send_kelvin turn_end settle_onoff
      note_answer is_none or_kept was_lit settled_brightness settled_kelvin level_of ha_kelvin
      mirror
  async_turn_on-settled none none l = ground arith
  async_turn_on-settled none (some kelvin) l = ground arith
  async_turn_on-settled (some level) none l = ground arith
  async_turn_on-settled (some level) (some kelvin) l = ground arith
