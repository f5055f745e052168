-- ===== src/Light/TurnOn/Mirror.antt =====
-- The lamps of src/custom_components/bluetooth_mesh/light.py that map the temperature inversely.
use ha_bluetooth_mesh.Prelude.{
  ℕ, ◌+◌, ◌-◌, ◌≤◌, ◌≡◌, ap, ◌∙◌, subst, arith, Bool, Option, none, some, List, [], ◌∷◌, Bool-cases,
  inl, inr, if◌then◌else◌,
}
use ha_bluetooth_mesh.Prelude.Integers.{ℤ, pos, minus}
use ha_bluetooth_mesh.Light.{
  MeshLight, Command, set_onoff, set_lightness, set_ctl, set_ctl_temperature, mirror, mesh_kelvin,
  ha_kelvin, note_answer,
}
use ha_bluetooth_mesh.Light.TurnOn.{
  Answers, optimistic, turn_brightness, turn_kelvin, send_kelvin, turn_end, async_turn_on,
}
use ha_bluetooth_mesh.Light.TurnOn.Settled.{async_turn_on-settled}

-- The temperatures that the commands carry
abbrev pub kelvins : List Command → List ℤ
kelvins [] = []
kelvins (set_onoff a on ∷ cs) = kelvins cs
kelvins (set_lightness a level ∷ cs) = kelvins cs
kelvins (set_ctl a level kelvin ∷ cs) = kelvin ∷ kelvins cs
kelvins (set_ctl_temperature a kelvin ∷ cs) = kelvin ∷ kelvins cs

kelvins-async_turn_on :
    (to_brightness : ℕ → ℕ) (answers : Answers) (brightness : Option ℕ) (kelvin : ℕ) (l : MeshLight)
    → kelvins (async_turn_on to_brightness answers brightness (some kelvin) l).1
      ≡ mesh_kelvin l kelvin ∷ []
unfolding async_turn_on optimistic turn_brightness turn_kelvin send_kelvin turn_end mesh_kelvin
    mirror note_answer
kelvins-async_turn_on to_brightness answers none kelvin l = ground arith
kelvins-async_turn_on to_brightness answers (some level) kelvin l = ground arith

-- The temperature that a lamp is sent for one of the exposed range is of that range.
mesh_kelvin-range :
    (l : MeshLight) (kelvin : ℕ)
    → l.min_kelvin ≤ kelvin
    → kelvin ≤ l.max_kelvin
    → (m : ℕ) × (mesh_kelvin l kelvin ≡ pos m)
      × (m ≡ (if l.invert_ctl then (l.min_kelvin + l.max_kelvin) - kelvin else kelvin))
      × (ha_kelvin l m ≡ pos kelvin)
unfolding mesh_kelvin ha_kelvin mirror minus
mesh_kelvin-range l kelvin low high = elim (Bool-cases l.invert_ctl) [
  | inl inverted ↦ (
    (l.min_kelvin + l.max_kelvin) - kelvin,
    ground (arith, inverted, low, high),
    ground (arith, inverted),
    ground (arith, inverted, low, high),
  )
  | inr straight ↦
      (kelvin, ground (arith, straight), ground (arith, straight), ground (arith, straight))
]

-- For a temperature of the exposed range, whatever brightness goes with it, the commands of the call
-- carry one temperature: the one asked for, or for an inverting lamp the one as far from the other
-- end of the range. A lamp that answers with it shows, after the call, the one asked for.
pub async_turn_on-mesh_kelvin :
    (to_brightness : ℕ → ℕ) (brightness : Option ℕ) (kelvin : ℕ) (l : MeshLight)
    (lightness : Option ℕ) (onoff : Option Bool)
    → l.min_kelvin ≤ kelvin
    → kelvin ≤ l.max_kelvin
    → let m = if l.invert_ctl then (l.min_kelvin + l.max_kelvin) - kelvin else kelvin in
      let (l', sent) =
        async_turn_on to_brightness
          (record { lightness = lightness; temperature = some m; onoff = onoff })
          brightness
          (some kelvin)
          l in
      (kelvins sent ≡ pos m ∷ []) × (l'.color_temp_kelvin ≡ some (pos kelvin))
async_turn_on-mesh_kelvin to_brightness brightness kelvin l lightness onoff low high =
    let (m, goes, same, back) = mesh_kelvin-range l kelvin low high in
    let answers : ℕ → Answers =
      λ k. record { lightness = lightness; temperature = some k; onoff = onoff } in
    let settled = async_turn_on-settled to_brightness (answers m) brightness (some kelvin) l in
    let sent = kelvins-async_turn_on to_brightness (answers m) brightness kelvin l in
    subst
      (λ (k : ℕ).
        (kelvins (async_turn_on to_brightness (answers k) brightness (some kelvin) l).1
          ≡ pos k ∷ [])
        × ((async_turn_on to_brightness (answers k) brightness (some kelvin) l).0.color_temp_kelvin
            ≡ some (pos kelvin)))
      same (sent ∙ ap (λ (k : ℤ). k ∷ []) goes, settled.1 ∙ ap (λ (k : ℤ). some k) back)
