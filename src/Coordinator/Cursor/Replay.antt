-- ===== src/Coordinator/Cursor/Replay.antt =====
-- No SEQ number is spent twice: the replay safety that the cursor of
-- src/custom_components/bluetooth_mesh/coordinator.py is kept for.
use ha_bluetooth_mesh.Prelude.{
  ℕ, zero, suc, ◌+◌, ◌≤◌, ◌<◌, ◌≡◌, refl, sym, ◌⊎◌, inr, arith, Bool, true, false, Option, none,
  some, List, [], ◌∷◌, ◌&&◌, ◌||◌, not, ◌==◌, ltb, leb, All,
}
use ha_bluetooth_mesh.Beacon.{SecureNetworkBeacon}
use ha_bluetooth_mesh.Coordinator.Cursor.{
  Store, Cursor, Files, persist, adopt_iv_index, adopt_announced, after_start, settle,
}
use ha_bluetooth_mesh.Coordinator.Cursor.Run.{
  System, Event, link, join, acks, command, write, crash, spend, sent_after, is_prompt, is_news,
  is_safe, make_write, begin, step, run, all_safe,
}
use ha_bluetooth_mesh.Coordinator.Cursor.Kept.{
  IsStore, IsKept, IsKept-prompt, persist-IsKept, adopt-IsKept, make_write-saves, saved-IsKept,
  begin-IsKept, begin-saved,
}

-- The one pair comes before the other: a lower IV Index, or the same and a lower SEQ.
abbrev pub Below : ℕ × ℕ → ℕ × ℕ → Type 0
Below p q = (p.0 < q.0) ⊎ ((p.0 ≡ q.0) × (p.1 < q.1))

-- Of the pairs, newest first, each is above all that are older.
abbrev pub IsRising : List (ℕ × ℕ) → Type 0
IsRising [] = Unit
IsRising (p ∷ ps) = All (λ q. Below q p) ps × IsRising ps

and-true : (a b : Bool) → (a && b) ≡ true → (a ≡ true) × (b ≡ true)
and-true true b h = (refl, h)
and-true false b h = cc

All-Below :
    (p q : ℕ × ℕ) (ps : List (ℕ × ℕ))
    → ((p.0 < q.0) ⊎ ((p.0 ≡ q.0) × (p.1 ≤ q.1)))
    → All (λ r. Below r p) ps
    → All (λ r. Below r q) ps
All-Below p q [] h a = tt
All-Below p q (r ∷ ps) h a = (ground arith, All-Below p q ps h a.1)

spend-IsRising :
    (i m n : ℕ) (ps : List (ℕ × ℕ))
    → All (λ r. Below r (i, m)) ps
    → IsRising ps
    → All (λ r. Below r (i, m + n)) (spend i m n ps) × IsRising (spend i m n ps)
unfolding spend
spend-IsRising i m zero ps a h = (All-Below (i, m) (i, m + 0) ps (inr (refl, omega arith)) a, h)
spend-IsRising i m (suc n) ps a h =
    let rest =
      spend-IsRising i (m + 1) n ((i, m) ∷ ps)
        (inr (refl, omega arith), All-Below (i, m) (i, m + 1) ps (inr (refl, omega arith)) a)
        (a, h) in
    (
      All-Below (i, (m + 1) + n) (i, m + suc n) (spend i (m + 1) n ((i, m) ∷ ps))
          (inr (refl, omega arith)) rest.0,
      rest.1,
    )

module _ {D : Type 0} (s : Store D) (works : IsStore s) (export_iv_index : ℕ) where
  abbrev IsCurrent : System D → Type 0
  IsCurrent y =
      IsKept s y.cursor y.files
      × All (λ r. Below r (y.cursor.iv_index, y.live)) y.sent
      × (y.cursor.seq ≤ y.live)
      × IsRising y.sent

  begin-IsCurrent :
      (f : Files D) (sent : List (ℕ × ℕ)) (p : ℕ × ℕ)
      → let c = (begin s export_iv_index f sent).cursor in
        ((p.0 < c.iv_index) ⊎ ((p.0 ≡ c.iv_index) × (p.1 ≤ c.seq)))
        → All (λ r. Below r p) sent
        → IsRising sent
        → IsCurrent (begin s export_iv_index f sent)
  unfolding begin
  begin-IsCurrent f sent p le below rising =
      let c = (begin s export_iv_index f sent).cursor in
      (
        begin-IsKept s works export_iv_index f sent,
        All-Below p (c.iv_index, c.seq) sent le below,
        omega arith,
        rising,
      )

  adopt-le :
      (b : Option SecureNetworkBeacon) (c : Cursor)
      → let c' = (adopt_iv_index b c).0 in
        (c.iv_index < c'.iv_index) ⊎ ((c.iv_index ≡ c'.iv_index) × (c.seq ≤ c'.seq))
  unfolding adopt_iv_index adopt_announced
  adopt-le none c = inr (refl, omega arith)
  adopt-le (some b) c = ground arith

  step-IsCurrent :
      (y : System D) (e : Event)
      → IsCurrent y
      → is_safe y.live y.cursor e ≡ true
      → IsCurrent (step s export_iv_index y e)
  unfolding step is_safe sent_after after_start settle persist
  step-IsCurrent y (link n) (kept, below, ahead_of, rising) safe =
      let (prompt, same) = and-true (is_prompt y.cursor) (y.live == y.cursor.seq) safe in
      let ahead = record y.cursor { seq = y.cursor.seq + n } in
      let start =
        All-Below (y.cursor.iv_index, y.live) (y.cursor.iv_index, y.cursor.seq) y.sent
          (inr (refl, ground (arith, same))) below in
      let (below', rising') = spend-IsRising y.cursor.iv_index y.cursor.seq n y.sent start rising in
      (
        persist-IsKept s ahead y.files (IsKept-prompt s y.cursor y.files kept prompt).0,
        below',
        omega arith,
        rising',
      )
  step-IsCurrent y (join n) (kept, below, ahead_of, rising) prompt =
      let ahead = record y.cursor { seq = y.live + n } in
      let (below', rising') = spend-IsRising y.cursor.iv_index y.live n y.sent below rising in
      (
        persist-IsKept s ahead y.files (IsKept-prompt s y.cursor y.files kept prompt).0,
        below',
        omega arith,
        rising',
      )
  step-IsCurrent y (acks n) (kept, below, ahead_of, rising) safe =
      let (below', rising') = spend-IsRising y.cursor.iv_index y.live n y.sent below rising in
      (kept, below', omega (arith, ahead_of), rising')
  step-IsCurrent y (command n tid beacon) (kept, below, ahead_of, rising) safe =
      let (prompt, news) =
        and-true (is_prompt y.cursor)
          (not (is_news beacon y.cursor.iv_index) || ltb 0 y.cursor.saved_seq) safe in
      let c = record y.cursor { seq = y.live + n; tid = tid } in
      let c' = (adopt_iv_index beacon c).0 in
      let spent = spend-IsRising y.cursor.iv_index y.live n y.sent below rising in
      (
        adopt-IsKept s beacon c y.files (IsKept-prompt s y.cursor y.files kept prompt).0 news,
        All-Below (c.iv_index, c.seq) (c'.iv_index, c'.seq)
            (spend y.cursor.iv_index y.live n y.sent) (adopt-le beacon c) spent.0,
        omega arith,
        spent.1,
      )
  step-IsCurrent y write (kept, below, ahead_of, rising) safe =
      let saves = make_write-saves s works y.cursor y.files in
      let (c, f) = make_write s y.cursor y.files in
      (
        saved-IsKept s works y.cursor c f saves,
        All-Below (y.cursor.iv_index, y.live) (c.iv_index, y.live) y.sent
            (inr (sym saves.1, omega arith)) below,
        omega (arith, saves.0, ahead_of),
        rising,
      )
  step-IsCurrent y (crash n) (kept, below, ahead_of, rising) safe =
      let (prompt, few) =
        and-true (is_prompt y.cursor) (leb (y.live + n) (y.cursor.seq + 17)) safe in
      let (loads, least, most) = IsKept-prompt s y.cursor y.files kept prompt in
      let sent = spend y.cursor.iv_index y.live n y.sent in
      let spent = spend-IsRising y.cursor.iv_index y.live n y.sent below rising in
      let found =
        begin-saved s works export_iv_index y.files sent y.cursor.saved_seq y.cursor.iv_index
          loads in
      begin-IsCurrent y.files sent (y.cursor.iv_index, y.live + n)
        (inr (sym found.1, ground (arith, found.0, few, most))) spent.0 spent.1

  run-IsCurrent :
      (y : System D) (es : List Event)
      → IsCurrent y
      → all_safe s export_iv_index y es ≡ true
      → IsCurrent (run s export_iv_index y es)
  unfolding run all_safe
  run-IsCurrent y [] h safe = h
  run-IsCurrent y (e ∷ es) h safe =
      let (now, later) =
        and-true (is_safe y.live y.cursor e)
          (all_safe s export_iv_index (step s export_iv_index y e) es) safe in
      run-IsCurrent (step s export_iv_index y e) es (step-IsCurrent y e h now) later

  -- Over a Store whose saves do not raise and load back, from any files: where a write that is
  -- queued without delay is made before the next call, a new link comes up only when its
  -- predecessor has sent nothing (no Segment Ack) since its cursor was last taken, a process that
  -- dies has sent at most 17 network PDUs since then, and an IV Index is adopted only while the
  -- stored SEQ is not 0, the pairs of IV Index and SEQ sent over any run of links, late links,
  -- Segment Acks, commands, writes and restarts are strictly rising: none is spent twice.
  pub run-IsRising :
      (f : Files D) (es : List Event)
      → all_safe s export_iv_index (begin s export_iv_index f []) es ≡ true
      → IsRising (run s export_iv_index (begin s export_iv_index f []) es).sent
  unfolding begin
  run-IsRising f es safe =
      (run-IsCurrent (begin s export_iv_index f []) es
        (begin-IsKept s works export_iv_index f [], tt, omega arith, tt) safe).3
