-- ===== src/Light/Group.antt =====
-- src/custom_components/bluetooth_mesh/light.py: the light over the members of a mesh group. Whether
-- a Set has left is the answer of the coordinator, a parameter; `round_ratio` is the rounding of a
-- quotient.
pub mod RollBack
use ha_bluetooth_mesh.Prelude.{
  ℕ, ◌+◌, Bool, true, false, Option, none, some, List, [], ◌∷◌, ◌++◌, ◌&&◌, ◌||◌, not, map, length,
  if◌then◌else◌,
}
use ha_bluetooth_mesh.Prelude.Integers.{ℤ}
use ha_bluetooth_mesh.NetworkModel.{any}
use ha_bluetooth_mesh.Light.{
  MeshLight, ColorMode, brightness_only, onoff, is_onoff, Command, set_onoff, set_lightness,
  apply_group_state, group_snapshot, restore_group_snapshot,
}

pub record MeshGroupLight : Type 0 where
  pub address : ℤ
  pub mode : ColorMode
  pub members : List MeshLight

-- The mode of `__init__`
unfoldable pub group_light : ℤ → List MeshLight → MeshGroupLight
unfolding is_onoff any
group_light address members = record {
  address = address;
  mode = if any (λ (m : MeshLight). not (is_onoff m.mode)) members then brightness_only else onoff;
  members = members;
}

-- `[m.is_on for m in self._members if m.is_on is not None]`
unfoldable pub known : List MeshLight → List Bool
known [] = []
known (m ∷ members) = let rest = known members in elim m.is_on [ none ↦ rest | some on ↦ on ∷ rest ]

unfoldable pub any_on : List Bool → Option Bool
unfolding any
any_on [] = none
any_on (on ∷ ons) = some (any (λ b. b) (on ∷ ons))

unfoldable pub is_on : MeshGroupLight → Option Bool
unfolding known any_on
is_on g = any_on (known g.members)

unfoldable pub lit_brightness : Option Bool → Option ℕ → List ℕ
lit_brightness (some true) (some level) = level ∷ []
lit_brightness on level = []

unfoldable pub lit : List MeshLight → List ℕ
unfolding lit_brightness
lit [] = []
lit (m ∷ members) = elim (lit_brightness m.is_on m.brightness) [
  | [] ↦ lit members
  | level ∷ levels ↦ level ∷ lit members
]

unfoldable pub sum : List ℕ → ℕ
sum [] = 0
sum (n ∷ ns) = n + sum ns

unfoldable pub brightness : (ℕ → ℕ → ℕ) → MeshGroupLight → Option ℕ
unfolding lit sum
brightness round_ratio g = elim (lit g.members) [
  | [] ↦ none
  | level ∷ levels ↦ some (round_ratio (sum (level ∷ levels)) (length (level ∷ levels)))
]

-- What `_push_to_members` tells one member
unfoldable pub push : Bool → Option ℕ → MeshLight → MeshLight
unfolding apply_group_state is_onoff
push on level m = apply_group_state on (if is_onoff m.mode then none else level) m

unfoldable pub push_to_members : Bool → Option ℕ → List MeshLight → List MeshLight
unfolding push
push_to_members on level members = map (push on level) members

unfoldable pub snapshots : List MeshLight → List (Option Bool × Option ℕ)
unfolding group_snapshot
snapshots members = map group_snapshot members

-- `_roll_back`: the snapshots are as many as the members.
unfoldable pub roll_back : List (Option Bool × Option ℕ) → List MeshLight → List MeshLight
unfolding restore_group_snapshot
roll_back [] members = members
roll_back (snapshot ∷ snapshots) [] = []
roll_back (snapshot ∷ snapshots) (m ∷ members) =
    restore_group_snapshot snapshot m ∷ roll_back snapshots members

unfoldable pub with_members : MeshGroupLight → List MeshLight → MeshGroupLight
with_members g members = record g { members = members }

unfoldable pub is_brightness : ColorMode → Bool
is_brightness brightness_only = true
is_brightness mode = false

-- `onoff_left` and `lightness_left` say whether the Set of each kind has left.
module _ (onoff_left lightness_left : Bool) where
  -- The one Set of a call that drives no brightness
  unfoldable pub switch :
      Bool
      → List (Option Bool × Option ℕ)
      → List MeshLight
      → MeshGroupLight
      → MeshGroupLight × List Command
  unfolding roll_back with_members
  switch on saved pushed g = (
    with_members g (if onoff_left then pushed else roll_back saved pushed),
    set_onoff g.address on ∷ [],
  )

  -- The Light Lightness Set, after the Generic OnOff Set where `switched_on`
  unfoldable pub dim :
      Bool
      → ℕ
      → List (Option Bool × Option ℕ)
      → List MeshLight
      → MeshGroupLight
      → MeshGroupLight × List Command
  unfolding roll_back with_members push_to_members
  dim switched_on level saved pushed g =
      let back = roll_back saved pushed in
      (
        with_members g (
            if lightness_left
            then pushed
            else if switched_on
            then push_to_members true none back
            else back),
        (if switched_on then set_onoff g.address true ∷ [] else [])
            ++ (set_lightness g.address level ∷ []),
      )

  unfoldable pub turn_on_dimmed : ℕ → MeshGroupLight → MeshGroupLight × List Command
  unfolding snapshots push_to_members switch dim any is_onoff
  turn_on_dimmed level g =
      let saved = snapshots g.members in
      let pushed = push_to_members true (some level) g.members in
      if any (λ (m : MeshLight). is_onoff m.mode) g.members
      then (if onoff_left then dim true level saved pushed g else switch true saved pushed g)
      else dim false level saved pushed g

  unfoldable pub async_turn_on : Option ℕ → MeshGroupLight → MeshGroupLight × List Command
  unfolding snapshots push_to_members switch turn_on_dimmed is_brightness
  async_turn_on none g = switch true (snapshots g.members) (push_to_members true none g.members) g
  async_turn_on (some level) g =
      if is_brightness g.mode
      then turn_on_dimmed level g
      else switch true (snapshots g.members) (push_to_members true none g.members) g

  unfoldable pub async_turn_off : MeshGroupLight → MeshGroupLight × List Command
  unfolding snapshots push_to_members switch
  async_turn_off g = switch false (snapshots g.members) (push_to_members false none g.members) g
