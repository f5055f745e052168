-- ===== src/Coordinator/Cursor/Kept.antt =====
-- How far the stored cursor of src/custom_components/bluetooth_mesh/coordinator.py can be behind.
use ha_bluetooth_mesh.Prelude.{
  ℕ, ◌+◌, ◌≤◌, ◌<◌, ◌≡◌, refl, ap, ◌∙◌, ◌⊎◌, inl, inr, arith, true, Option, none, some, List, ◌||◌,
  not, ltb, ◌==◌, Bool-cases,
}
use ha_bluetooth_mesh.Beacon.{SecureNetworkBeacon}
use ha_bluetooth_mesh.Coordinator.Cursor.{
  Saved, Store, Cursor, Files, cursor, non_empty, is_none, is_urgent, persist, adopt_iv_index,
  adopt_announced, state_to_save, flush_state, load_dict, load_state, seeded, get_or_default,
  async_start,
}
use ha_bluetooth_mesh.Coordinator.Cursor.Run.{is_prompt, is_news, make_write, begin}

-- What the coordinator relies on of a Store: a save does not raise, and what was saved loads.
abbrev pub IsStore : {D : Type 0} → Store D → Type 0
IsStore {D} s = (x : Saved) (d : D) → (d' : D) × (s.save x d ≡ some d') × (s.load d' ≡ some x)

abbrev pub saved_of : ℕ → ℕ → Saved
saved_of seq iv_index = record { seq = some seq; iv_index = some iv_index }

-- A write without delay is queued, or the file has the IV Index and a SEQ less than half a margin
-- behind.
abbrev pub IsKept : {D : Type 0} → Store D → Cursor → Files D → Type 0
IsKept s c f =
    (c.pending ≡ some 0)
    ⊎ ((s.load f.store ≡ some (saved_of c.saved_seq c.iv_index))
        × (c.saved_seq ≤ c.seq)
        × (c.seq < c.saved_seq + 16))

pub IsKept-prompt :
    {D : Type 0} (s : Store D) (c : Cursor) (f : Files D)
    → IsKept s c f
    → is_prompt c ≡ true
    → (s.load f.store ≡ some (saved_of c.saved_seq c.iv_index))
      × (c.saved_seq ≤ c.seq)
      × (c.seq < c.saved_seq + 16)
unfolding is_prompt
IsKept-prompt s c f (inl now) h = absurd (ground (arith, now, h))
IsKept-prompt s c f (inr kept) h = kept

pub persist-IsKept :
    {D : Type 0} (s : Store D) (c : Cursor) (f : Files D)
    → s.load f.store ≡ some (saved_of c.saved_seq c.iv_index)
    → IsKept s (persist c) f
unfolding persist is_urgent
persist-IsKept s c f h = elim (Bool-cases (is_urgent c)) [
  | inl now ↦ inl (rw now refl)
  | inr later ↦ inr (h, ground (arith, later), ground (arith, later))
]

-- A cursor that starts anew is written at once, where the file has another than 0.
persist-restarted : (c : Cursor) → c.seq ≡ 0 → 0 < c.saved_seq → (persist c).pending ≡ some 0
unfolding persist is_urgent
persist-restarted c zero' h = ground arith

pub adopt-IsKept :
    {D : Type 0} (s : Store D) (b : Option SecureNetworkBeacon) (c : Cursor) (f : Files D)
    → s.load f.store ≡ some (saved_of c.saved_seq c.iv_index)
    → (not (is_news b c.iv_index) || ltb 0 c.saved_seq) ≡ true
    → IsKept s (persist (adopt_iv_index b c).0) f
unfolding adopt_iv_index adopt_announced is_news
adopt-IsKept s none c f h safe = persist-IsKept s (record c { beacon_warned = true }) f h
adopt-IsKept s (some b) c f h safe = elim (Bool-cases (b.iv_index == c.iv_index)) [
  | inl same ↦ rw same (persist-IsKept s (record c { beacon = some b }) f h)
  | inr other ↦ elim (Bool-cases (ltb b.iv_index c.iv_index)) [
    | inl behind ↦
        rw (other, behind)
          (persist-IsKept s (record c { beacon = some b; iv_regress_warned = true }) f h)
    | inr ahead ↦
        rw (other, ahead)
          (inl (
            persist-restarted (record c { beacon = some b; iv_index = b.iv_index; seq = 0 }) refl
              (ground (arith, other, ahead, safe))))
  ]
]

module _ {D : Type 0} (s : Store D) (works : IsStore s) where
  flush_state-saves :
      (c : Cursor) (f : Files D)
      → let (c', f') = flush_state s c f in
        (c'.seq ≡ c.seq)
        × (c'.iv_index ≡ c.iv_index)
        × (c'.saved_seq ≡ c.seq)
        × (s.load f'.store ≡ some (saved_of c.seq c.iv_index))
  unfolding flush_state state_to_save
  flush_state-saves c f =
      let (d, saves, loads) = works (saved_of c.seq c.iv_index) f.store in
      rw (saves, flush_state) (refl, refl, refl, loads)

  pub make_write-saves :
      (c : Cursor) (f : Files D)
      → let (c', f') = make_write s c f in
        (c'.seq ≡ c.seq)
        × (c'.iv_index ≡ c.iv_index)
        × (c'.saved_seq ≡ c.seq)
        × (s.load f'.store ≡ some (saved_of c.seq c.iv_index))
  unfolding make_write state_to_save
  make_write-saves c f =
      let (d, saves, loads) = works (saved_of c.seq c.iv_index) f.store in
      rw (saves, make_write) (refl, refl, refl, loads)

  pub saved-IsKept :
      (c c' : Cursor) (f : Files D)
      → (c'.seq ≡ c.seq)
        × (c'.iv_index ≡ c.iv_index)
        × (c'.saved_seq ≡ c.seq)
        × (s.load f.store ≡ some (saved_of c.seq c.iv_index))
      → IsKept s c' f
  saved-IsKept c c' f (p, q, r, loads) =
      inr (rw (r, q) loads, omega (arith, p, r), omega (arith, p, r))

  load_state-saved :
      (e : ℕ) (f : Files D) (m i : ℕ)
      → s.load f.store ≡ some (saved_of m i)
      → load_state s e f ≡ (f, (m + 32, i))
  unfolding load_state load_dict non_empty is_none seeded get_or_default
  load_state-saved e f m i h = rw (h, load_state, load_dict, non_empty, is_none) refl

  module _ (export_iv_index : ℕ) where
    pub begin-IsKept :
        (f : Files D) (sent : List (ℕ × ℕ))
        → IsKept s (begin s export_iv_index f sent).cursor (begin s export_iv_index f sent).files
    unfolding begin async_start
    begin-IsKept f sent =
        let (f', loaded) = load_state s export_iv_index f in
        let c = record (cursor export_iv_index) { seq = loaded.0; iv_index = loaded.1 } in
        saved-IsKept c (flush_state s c f').0 (flush_state s c f').1 (flush_state-saves c f')

    pub begin-saved :
        (f : Files D) (sent : List (ℕ × ℕ)) (m i : ℕ)
        → s.load f.store ≡ some (saved_of m i)
        → ((begin s export_iv_index f sent).cursor.seq ≡ m + 32)
          × ((begin s export_iv_index f sent).cursor.iv_index ≡ i)
    unfolding begin async_start
    begin-saved f sent m i h =
        let c = record (cursor export_iv_index) { seq = m + 32; iv_index = i } in
        let saves = flush_state-saves c f in
        let loaded = load_state-saved export_iv_index f m i h in
        (
          ap (λ (l : Files D × (ℕ × ℕ)). (started l).seq) loaded ∙ saves.0,
          ap (λ (l : Files D × (ℕ × ℕ)). (started l).iv_index) loaded ∙ saves.1,
        )
      where
        started : Files D × (ℕ × ℕ) → Cursor
        started l =
            (flush_state s (record (cursor export_iv_index) { seq = l.1.0; iv_index = l.1.1 })
              l.0).0
