-- ===== src/Transport/Assembler/Delivery.antt =====
-- The segments of one message, in any order and with any repetition, are delivered once.
use ha_bluetooth_mesh.Prelude.{
  ℕ, zero, suc, ◌+◌, ◌-◌, ◌*◌, ◌≤◌, ◌<◌, ◌≡◌, ◌≢◌, refl, sym, ap, ◌∙◌, arith, inl, inr, Bool, true,
  false, none, some, List, [], ◌∷◌, ◌&&◌, not, ltb, ◌==◌, if◌then◌else◌, length, take, drop, slice,
  length-take, length-drop, take-append-take-drop, take_all, All, Bool-cases, Option-cases, map,
}
use native.Mathlib.Decide.{dec_lt}
use ha_bluetooth_mesh.Prelude.Bytes.{Bytes}
use ha_bluetooth_mesh.Prelude.Outcome.{ok}
use ha_bluetooth_mesh.Transport.{AccessSegment, segment_size}
use ha_bluetooth_mesh.Transport.Assembler.{
  Parts, lookup, insert, join_range, TransferKey, key_eq, bool_eq, key_of, SegmentAssembler, track,
  store, add,
}
use ha_bluetooth_mesh.Transport.Assembler.Cover.{
  seen_in, covered, covered_more, covered_none, deliveries, add_all,
}
use ha_bluetooth_mesh.Transport.Assembler.Parts.{
  lookup-insert, held, held_empty, held-le, held-insert, length-insert,
}

key_eq_refl : (k : TransferKey) → key_eq k k ≡ true
unfolding key_eq bool_eq
key_eq_refl k = ground arith

key_eq→eq : (a b : TransferKey) → key_eq a b ≡ true → a ≡ b
unfolding key_eq bool_eq
key_eq→eq a b h = ground arith

-- A message: `upper`, in segments 0 to `last`.
module _ (akf : Bool) (aid seq_zero last : ℕ) (upper : Bytes) where
  abbrev pub segment_of : ℕ → AccessSegment
  segment_of i = record {
    akf = akf;
    aid = aid;
    szmic = 0;
    seq_zero = seq_zero;
    seg_o = i;
    seg_n = last;
    segment = slice (i * segment_size) ((i + 1) * segment_size) upper;
  }

  abbrev key : TransferKey
  key = key_of (segment_of 0)

  abbrev piece : ℕ → Bytes
  piece i = slice (i * segment_size) ((i + 1) * segment_size) upper

  -- The state after the segments `seen` have arrived.
  record IsReceiving (a : SegmentAssembler) (seen : List ℕ) : Type 0 where
    same_key : a.key ≡ some key
    holds : (i : ℕ) → lookup i a.parts ≡ (if seen_in i seen then some (piece i) else none)
    counts : length a.parts ≡ held (last + 1) a.parts
    completes : a.is_complete ≡ covered (last + 1) seen

  module _ (parts : Parts) (seen : List ℕ)
      (holds : (i : ℕ) → lookup i parts ≡ (if seen_in i seen then some (piece i) else none)) where
    held-covered : (k : ℕ) → ltb (held k parts) k ≡ not (covered k seen)
    unfolding held covered
    held-covered zero = refl
    held-covered (suc k) = ground (arith, held-le k parts, held-covered k, holds k)

    join_range-covered :
        (k : ℕ) → covered k seen ≡ true → join_range parts k ≡ ok (take (k * segment_size) upper)
    unfolding join_range covered
    join_range-covered zero c = refl
    join_range-covered (suc k) c =
        let here : seen_in k seen ≡ true = ground arith in
        let width : (k + 1) * segment_size - k * segment_size ≡ 12 = omega arith in
        let total : k * segment_size + 12 ≡ suc k * segment_size = omega arith in
        rw (join_range-covered k (ground arith), holds k, here, width)
          (ap ok (
            take-append-take-drop (k * segment_size) 12 upper ∙ ap (λ (t : ℕ). take t upper) total))

  module _ (whole : last * segment_size < length upper)
      (fits : length upper ≤ (last + 1) * segment_size) where
    piece_size : (i : ℕ) → i < last → length (piece i) ≡ 12
    piece_size i h = omega (
      arith,
      length-take ((i + 1) * segment_size - i * segment_size) (drop (i * segment_size) upper),
      length-drop (i * segment_size) upper,
    )

    whole_upper : take ((last + 1) * segment_size) upper ≡ upper
    whole_upper = take_all ((last + 1) * segment_size) upper fits

    module _ (a : SegmentAssembler) (seen : List ℕ) (i : ℕ) (h : i ≤ last)
        (r : IsReceiving a seen) where
      abbrev parts' : Parts
      parts' = insert i (piece i) a.parts

      holds' : (j : ℕ) → lookup j parts' ≡ (if seen_in j (i ∷ seen) then some (piece j) else none)
      unfolding seen_in
      holds' j = elim (Bool-cases (i == j)) [
        | inl same ↦
            let e : i ≡ j = ground arith in
            rw (lookup-insert i j (piece i) a.parts, same) (ap (λ (k : ℕ). some (piece k)) e)
        | inr other ↦ rw (lookup-insert i j (piece i) a.parts, other) (r.holds j)
      ]

      counts' : length parts' ≡ held (last + 1) parts'
      counts' = omega (
        arith,
        length-insert i (piece i) a.parts,
        held-insert (last + 1) i (piece i) a.parts (omega arith),
        r.counts,
      )

      full' : ltb (length parts') (last + 1) ≡ not (covered (last + 1) (i ∷ seen))
      full' = rw counts' (held-covered parts' (i ∷ seen) holds' (last + 1))

      join' : covered (last + 1) (i ∷ seen) ≡ true → join_range parts' (last + 1) ≡ ok upper
      join' c = join_range-covered parts' (i ∷ seen) holds' (last + 1) c ∙ ap ok whole_upper

      abbrev after : SegmentAssembler
      after = record a { parts = parts'; is_complete = covered (last + 1) (i ∷ seen) }

      after-IsReceiving : IsReceiving after (i ∷ seen)
      after-IsReceiving = record {
        same_key = r.same_key;
        holds = holds';
        counts = counts';
        completes = refl;
      }

      store_step : store a (segment_of i) ≡ (
        after,
        ok (
            if covered (last + 1) (i ∷ seen) && not (covered (last + 1) seen)
            then some upper
            else none),
      )
      unfolding store
      store_step = elim (Bool-cases (covered (last + 1) seen)) [
        | inl old ↦ rw (r.completes, old, covered_more (last + 1) i seen old) refl
        | inr open' ↦ elim (Bool-cases (covered (last + 1) (i ∷ seen))) [
          | inl done ↦ rw (r.completes, open', full', done, join' done) refl
          | inr still ↦ rw (r.completes, open', full', still) refl
        ]
      ]

    -- The checks of `add` pass, so it tracks and stores.
    add_checked :
        (a : SegmentAssembler) (i : ℕ)
        → i ≤ last
        → add a (segment_of i) ≡ store (track a key) (segment_of i)
    unfolding add
    add_checked a i h = elim (dec_lt i last) [
      | yes inner ↦ ground (arith, piece_size i inner)
      | no end ↦ ground arith
    ]

    track_same : (a : SegmentAssembler) (seen : List ℕ) → IsReceiving a seen → track a key ≡ a
    unfolding track
    track_same a seen r = rw (r.same_key, key_eq_refl key)

    abbrev empty : SegmentAssembler
    empty = record { key = some key; parts = []; is_complete = false }

    empty-IsReceiving : IsReceiving empty []
    unfolding lookup seen_in
    empty-IsReceiving = record {
      same_key = refl;
      holds = λ i. refl;
      counts = sym (held_empty (last + 1));
      completes = sym (covered_none (last + 1) (omega arith));
    }

    track_other : (a : SegmentAssembler) → a.key ≢ some key → track a key ≡ empty
    unfolding track
    track_other a other = elim (Option-cases a.key) [
      | inl idle ↦ rw idle refl
      | inr (k, busy) ↦ elim (Bool-cases (key_eq key k)) [
        | inl same ↦ absurd (other (busy ∙ ap some (sym (key_eq→eq key k same))))
        | inr differ ↦ rw (busy, differ) refl
      ]
    ]

    add_all_receiving :
        (order : List ℕ) (a : SegmentAssembler) (seen : List ℕ)
        → All (λ (i : ℕ). i ≤ last) order
        → IsReceiving a seen
        → (add_all a (map segment_of order)).1 ≡ deliveries (last + 1) upper seen order
    unfolding add_all deliveries
    add_all_receiving [] a seen h r = refl
    add_all_receiving (i ∷ order) a seen h r = rw (
      add_checked a i h.0,
      track_same a seen r,
      store_step a seen i h.0 r,
      add_all_receiving order (after a seen i h.0 r) (i ∷ seen) h.1
          (after-IsReceiving a seen i h.0 r),
    )

    -- An assembler that is idle or tracks another transfer is given the segments of a message of
    -- `last` + 1 segments, in any order and with any repetition. No call raises; the call that
    -- makes the set of segments whole returns the message, and every other call returns `None`.
    pub add_all-deliveries :
        (a : SegmentAssembler) (order : List ℕ)
        → a.key ≢ some key
        → All (λ (i : ℕ). i ≤ last) order
        → (add_all a (map segment_of order)).1 ≡ deliveries (last + 1) upper [] order
    unfolding add_all deliveries
    add_all-deliveries a [] other h = refl
    add_all-deliveries a (i ∷ order) other h = rw (
      add_checked a i h.0,
      track_other a other,
      store_step empty [] i h.0 empty-IsReceiving,
      add_all_receiving order (after empty [] i h.0 empty-IsReceiving) (i ∷ []) h.1
          (after-IsReceiving empty [] i h.0 empty-IsReceiving),
    )
