-- ===== src/Light/Group/RollBack.antt =====
-- What the members of a group of src/custom_components/bluetooth_mesh/light.py show after a call.
use ha_bluetooth_mesh.Prelude.{
  ℕ, ◌≡◌, refl, ap, ap₂, ◌∙◌, inl, inr, Bool, true, false, Bool-cases, Option, none, some, List, [],
  ◌∷◌, ◌++◌, map, if◌then◌else◌,
}
use ha_bluetooth_mesh.NetworkModel.{any}
use ha_bluetooth_mesh.Light.{
  MeshLight, is_onoff, apply_group_state, group_snapshot, restore_group_snapshot, Command,
  set_onoff, set_lightness,
}
use ha_bluetooth_mesh.Light.Group.{
  MeshGroupLight, push, push_to_members, snapshots, roll_back, with_members, is_brightness, switch,
  dim, turn_on_dimmed, async_turn_on, async_turn_off,
}

-- The brightness of a member that an on/off device keeps.
abbrev pub brightness_as : Bool → Option ℕ → Option ℕ → Option ℕ
brightness_as only_onoff none before = before
brightness_as true (some level) before = before
brightness_as false (some level) before = some level

-- A member shown on, with the brightness that it can show.
abbrev pub lit_as : Option ℕ → MeshLight → MeshLight
lit_as level m = record m {
  is_on = some true;
  brightness = brightness_as (is_onoff m.mode) level m.brightness;
}

abbrev pub dark : MeshLight → MeshLight
dark m = record m { is_on = some false }

-- Some member is an on/off device.
abbrev pub is_mixed : MeshGroupLight → Bool
is_mixed g = any (λ (m : MeshLight). is_onoff m.mode) g.members

-- What the members show after a call, by what is asked for and which Set has left.
abbrev pub shown : Bool → Bool → Option ℕ → MeshGroupLight → List MeshLight
shown onoff_left lightness_left none g =
    if onoff_left then map (lit_as none) g.members else g.members
shown onoff_left lightness_left (some level) g =
    if is_brightness g.mode
    then (if is_mixed g
        then (if onoff_left
            then (if lightness_left
                then map (lit_as (some level)) g.members
                else map (lit_as none) g.members)
            else g.members)
        else (if lightness_left then map (lit_as (some level)) g.members else g.members))
    else (if onoff_left then map (lit_as none) g.members else g.members)

-- The Sets that the call has made.
abbrev pub sets : Bool → Option ℕ → MeshGroupLight → List Command
sets onoff_left none g = set_onoff g.address true ∷ []
sets onoff_left (some level) g =
    if is_brightness g.mode
    then (if is_mixed g
        then (if onoff_left
            then set_onoff g.address true ∷ set_lightness g.address level ∷ []
            else set_onoff g.address true ∷ [])
        else set_lightness g.address level ∷ [])
    else set_onoff g.address true ∷ []

restore-apply :
    (on : Bool) (level : Option ℕ) (m : MeshLight)
    → restore_group_snapshot (group_snapshot m) (apply_group_state on level m) ≡ m
unfolding restore_group_snapshot group_snapshot apply_group_state
restore-apply on none m = refl
restore-apply on (some level) m = refl

roll_back-push_to_members :
    (on : Bool) (level : Option ℕ) (members : List MeshLight)
    → roll_back (snapshots members) (push_to_members on level members) ≡ members
unfolding roll_back snapshots push_to_members push
roll_back-push_to_members on level [] = refl
roll_back-push_to_members on level (m ∷ members) =
    ap₂ (λ (a : MeshLight) (rest : List MeshLight). a ∷ rest)
      (restore-apply on (if is_onoff m.mode then none else level) m)
      (roll_back-push_to_members on level members)

push-lit_as : (level : Option ℕ) (m : MeshLight) → push true level m ≡ lit_as level m
unfolding push apply_group_state
push-lit_as none m = elim (Bool-cases (is_onoff m.mode)) [
  | inl only ↦ rw (only, push) refl
  | inr dimmable ↦ rw (dimmable, push) refl
]
push-lit_as (some level) m = elim (Bool-cases (is_onoff m.mode)) [
  | inl only ↦ rw (only, push) refl
  | inr dimmable ↦ rw (dimmable, push) refl
]

push-dark : (m : MeshLight) → push false none m ≡ dark m
unfolding push apply_group_state
push-dark m = elim (Bool-cases (is_onoff m.mode)) [
  | inl only ↦ rw (only, push) refl
  | inr dimmable ↦ rw (dimmable, push) refl
]

push_to_members-eq :
    (on : Bool) (level : Option ℕ) (f : MeshLight → MeshLight)
    → ((m : MeshLight) → push on level m ≡ f m)
    → (members : List MeshLight) → push_to_members on level members ≡ map f members
unfolding push_to_members
push_to_members-eq on level f same [] = refl
push_to_members-eq on level f same (m ∷ members) =
    ap₂ (λ (a : MeshLight) (rest : List MeshLight). a ∷ rest) (same m)
      (push_to_members-eq on level f same members)

switch-shown :
    (o l on : Bool) (level : Option ℕ) (f : MeshLight → MeshLight) (g : MeshGroupLight)
    → ((m : MeshLight) → push on level m ≡ f m)
    → switch o l on (snapshots g.members) (push_to_members on level g.members) g ≡ (
      record g { members = if o then map f g.members else g.members },
      set_onoff g.address on ∷ [],
    )
unfolding switch with_members
switch-shown true l on level f g same =
    ap (λ (members : List MeshLight). (with_members g members, set_onoff g.address on ∷ []))
      (push_to_members-eq on level f same g.members)
switch-shown false l on level f g same =
    ap (λ (members : List MeshLight). (with_members g members, set_onoff g.address on ∷ []))
      (roll_back-push_to_members on level g.members)

dim-shown :
    (o l switched_on : Bool) (level : ℕ) (g : MeshGroupLight)
    → dim o l switched_on level
        (snapshots g.members)
        (push_to_members true (some level) g.members)
        g
      ≡ (
        record g {
          members =
              if l
              then map (lit_as (some level)) g.members
              else if switched_on
              then map (lit_as none) g.members
              else g.members;
        },
        (if switched_on then set_onoff g.address true ∷ [] else [])
            ++ (set_lightness g.address level ∷ []),
      )
unfolding dim with_members
dim-shown o true s level g =
    ap
      (λ (members : List MeshLight). (
        with_members g members,
        (if s then set_onoff g.address true ∷ [] else []) ++ (set_lightness g.address level ∷ []),
      ))
      (push_to_members-eq true (some level) (lit_as (some level)) (push-lit_as (some level))
        g.members)
dim-shown o false true level g =
    ap
      (λ (members : List MeshLight).
        (with_members g members, set_onoff g.address true ∷ set_lightness g.address level ∷ []))
      (ap (push_to_members true none) (roll_back-push_to_members true (some level) g.members)
        ∙ push_to_members-eq true none (lit_as none) (push-lit_as none) g.members)
dim-shown o false false level g =
    ap (λ (members : List MeshLight). (with_members g members, set_lightness g.address level ∷ []))
      (roll_back-push_to_members true (some level) g.members)

turn_on_dimmed-shown :
    (o l : Bool) (level : ℕ) (g : MeshGroupLight)
    → is_brightness g.mode ≡ true
    → turn_on_dimmed o l level g
      ≡ (record g { members = shown o l (some level) g }, sets o (some level) g)
unfolding turn_on_dimmed
turn_on_dimmed-shown o l level g dims =
    elim (Bool-cases (any (λ (m : MeshLight). is_onoff m.mode) g.members)) [
      | inr plain ↦ rw (plain, dims, turn_on_dimmed) (dim-shown o l false level g)
      | inl mixed ↦ elim (Bool-cases o) [
        | inl left ↦ rw (mixed, dims, left, turn_on_dimmed) (dim-shown true l true level g)
        | inr stayed ↦
            rw (mixed, dims, stayed, turn_on_dimmed)
              (switch-shown false l true (some level) (lit_as (some level)) g
                (push-lit_as (some level)))
      ]
    ]

group-shown :
    (o l : Bool) (level : Option ℕ) (g : MeshGroupLight)
    → async_turn_on o l level g ≡ (record g { members = shown o l level g }, sets o level g)
unfolding async_turn_on
group-shown o l none g = switch-shown o l true none (lit_as none) g (push-lit_as none)
group-shown o l (some level) g = elim (Bool-cases (is_brightness g.mode)) [
  | inl dims ↦
      let dimmed : async_turn_on o l (some level) g ≡ turn_on_dimmed o l level g =
        rw (dims, async_turn_on) refl in
      dimmed ∙ turn_on_dimmed-shown o l level g dims
  | inr switches ↦
      rw (switches, async_turn_on) (switch-shown o l true none (lit_as none) g (push-lit_as none))
]

-- A group that is switched on, with a brightness or without: where one Set does it all, an on/off
-- Set or for a brightness a lightness Set, each member is as before if the Set has not left, and
-- else is shown on, with the brightness where the group is dimmable and the member is not an
-- on/off device. Where an on/off device is among the members of a group that is dimmed, an on/off
-- Set comes first: if it has not left, no other is made and each member is as before; if only the
-- lightness Set has not left, each is shown on with the brightness that it had. A group that is
-- switched off shows each member off where its Set has left, and as before where it has not. The
-- Sets made are those named, and nothing else of the group changes.
pub async_turn_on-IsShown :
    (onoff_left lightness_left : Bool) (level : Option ℕ) (g : MeshGroupLight)
    → (async_turn_on onoff_left lightness_left level g
        ≡ (record g { members = shown onoff_left lightness_left level g }, sets onoff_left level g))
      × (async_turn_off onoff_left lightness_left g ≡ (
        record g { members = if onoff_left then map dark g.members else g.members },
        set_onoff g.address false ∷ [],
      ))
unfolding async_turn_off
async_turn_on-IsShown o l level g =
    (group-shown o l level g, switch-shown o l false none dark g push-dark)
