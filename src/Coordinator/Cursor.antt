-- ===== src/Coordinator/Cursor.antt =====
-- src/custom_components/bluetooth_mesh/coordinator.py: the SEQ cursor and the IV Index, and how they
-- are stored. A Store of Home Assistant is a parameter: `load` gives the dict last saved, `save` is
-- `none` where it raises. A write that is queued stands in `pending` with its delay in milliseconds,
-- until the Store calls `state_to_save` for it. The warnings are left out, not the flags they set.
pub mod Run
pub mod Kept
pub mod Replay
mod Tests
use ha_bluetooth_mesh.Prelude.{
  ℕ, ◌+◌, ◌-◌, ◌/◌, Bool, true, false, Option, none, some, not, ◌&&◌, ltb, leb, ◌==◌, if◌then◌else◌,
}
use ha_bluetooth_mesh.Beacon.{SecureNetworkBeacon}

abbrev pub seq_safety_margin : ℕ
seq_safety_margin = 32

-- `SEQ_SAVE_DELAY`, 10 s
abbrev pub seq_save_delay : ℕ
seq_save_delay = 10000

-- A stored dict: what `data.get` gives for its two keys.
pub record Saved : Type 0 where
  pub seq : Option ℕ
  pub iv_index : Option ℕ

-- A Store of Home Assistant, over the type of what it holds on disk.
pub record Store (D : Type 0) : Type 0 where
  pub load : D → Option Saved
  pub save : Saved → D → Option D
  pub remove : D → D

pub record Cursor : Type 0 where
  pub seq : ℕ
  pub tid : ℕ
  pub iv_index : ℕ
  pub saved_seq : ℕ
  pub pending : Option ℕ
  pub beacon : Option SecureNetworkBeacon
  pub beacon_warned : Bool
  pub iv_regress_warned : Bool

-- The two files: that of the network and that of the entry, where older versions kept it.
pub record Files (D : Type 0) : Type 0 where
  pub store : D
  pub legacy : D

-- The part of `__init__`, with the IV Index of the export
unfoldable pub cursor : ℕ → Cursor
cursor iv_index = record {
  seq = 0;
  tid = 0;
  iv_index = iv_index;
  saved_seq = 0;
  pending = none;
  beacon = none;
  beacon_warned = false;
  iv_regress_warned = false;
}

unfoldable pub is_none {ℓ} : {A : Type ℓ} → Option A → Bool
is_none none = true
is_none (some a) = false

-- `data` if it is true: a dict without keys is not.
unfoldable pub non_empty : Option Saved → Option Saved
unfolding is_none
non_empty none = none
non_empty (some s) = if is_none s.seq && is_none s.iv_index then none else some s

unfoldable pub get_or_default : Option ℕ → ℕ → ℕ
get_or_default none d = d
get_or_default (some n) d = n

-- The values that `_load_state` returns, from the dict that it found
unfoldable pub seeded : ℕ → Option Saved → ℕ × ℕ
unfolding get_or_default
seeded iv_index none = (0, iv_index)
seeded iv_index (some s) =
    (get_or_default s.seq 0 + seq_safety_margin, get_or_default s.iv_index iv_index)

-- The file of the entry goes once its dict is in its new home.
unfoldable pub move {ℓ} : {D : Type ℓ} → (D → D) → Option D → D → D → D × D
move remove none store legacy = (store, legacy)
move remove (some moved) store legacy = (moved, remove legacy)

unfoldable pub state_to_save : Cursor → Cursor × Saved
state_to_save c =
    (record c { saved_seq = c.seq }, record { seq = some c.seq; iv_index = some c.iv_index })

-- `not 0 <= ahead < SEQ_SAFETY_MARGIN // 2`, where `ahead` can be below 0
unfoldable pub is_urgent : Cursor → Bool
is_urgent c = not (leb c.saved_seq c.seq && ltb (c.seq - c.saved_seq) (seq_safety_margin / 2))

unfoldable pub persist : Cursor → Cursor
unfolding is_urgent
persist c = record c { pending = some (if is_urgent c then 0 else seq_save_delay) }

-- An IV Index that is above ours restarts the cursor.
unfoldable pub adopt_announced : SecureNetworkBeacon → Cursor → Cursor × Bool
adopt_announced b c =
    let seen = record c { beacon = some b } in
    if b.iv_index == c.iv_index
    then (seen, false)
    else if ltb b.iv_index c.iv_index
    then (record seen { iv_regress_warned = true }, false)
    else (record seen { iv_index = b.iv_index; seq = 0 }, true)

-- `_adopt_iv_index`, with the beacon of the controller
unfoldable pub adopt_iv_index : Option SecureNetworkBeacon → Cursor → Cursor × Bool
unfolding adopt_announced
adopt_iv_index none c = (record c { beacon_warned = true }, false)
adopt_iv_index (some b) c = adopt_announced b c

-- `_ensure_connected`, from a controller that has started on: its cursor comes back.
unfoldable pub after_start : ℕ → Cursor → Cursor
unfolding persist
after_start seq c = persist (record c { seq = seq })

-- The `finally` of `_run_connected`: the cursors of the controller come back, its beacon is looked
-- at, and the write is queued. The Bool is `stale_iv_index`.
unfoldable pub settle : ℕ → ℕ → Option SecureNetworkBeacon → Cursor → Cursor × Bool
unfolding adopt_iv_index persist
settle seq tid beacon c =
    let (adopted, stale) = adopt_iv_index beacon (record c { seq = seq; tid = tid }) in
    (persist adopted, stale)

module _ {D : Type 0} (s : Store D) where
  -- What `_load_state` finds, and the files that it leaves
  unfoldable pub load_dict : Files D → Files D × Option Saved
  unfolding non_empty move
  load_dict f = elim (non_empty (s.load f.store)) [
    | some dict ↦ (f, some dict)
    | none ↦ elim (non_empty (s.load f.legacy)) [
      | none ↦ (f, none)
      | some dict ↦
          let (store, legacy) = move s.remove (s.save dict f.store) f.store f.legacy in
          (record { store = store; legacy = legacy }, some dict)
    ]
  ]

  unfoldable pub load_state : ℕ → Files D → Files D × (ℕ × ℕ)
  unfolding load_dict seeded
  load_state iv_index f = let (f', dict) = load_dict f in (f', seeded iv_index dict)

  -- `_flush_state`: a save that raises is only logged.
  unfoldable pub flush_state : Cursor → Files D → Cursor × Files D
  unfolding state_to_save
  flush_state c f =
      let (c', dict) = state_to_save c in
      elim (s.save dict f.store) [
        | none ↦ (c', f)
        | some store ↦ (record c' { pending = none }, record f { store = store })
      ]

  -- `async_start`, up to the probe
  unfoldable pub async_start : ℕ → Cursor → Files D → Cursor × Files D
  unfolding load_state flush_state
  async_start export_iv_index c f =
      let (f', loaded) = load_state export_iv_index f in
      let (seq, iv_index) = loaded in flush_state (record c { seq = seq; iv_index = iv_index }) f'
