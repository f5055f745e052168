-- ===== src/Coordinator/Cursor/Run.antt =====
-- The SEQ numbers that the coordinator of src/custom_components/bluetooth_mesh/coordinator.py sends
-- under, over a run of calls, writes and restarts.
use ha_bluetooth_mesh.Prelude.{
  ℕ, zero, suc, ◌+◌, Bool, true, false, Option, none, some, List, [], ◌∷◌, ◌&&◌, ◌||◌, ltb, leb,
  ◌==◌, not,
}
use ha_bluetooth_mesh.Beacon.{SecureNetworkBeacon}
use ha_bluetooth_mesh.Coordinator.Cursor.{
  Cursor, Store, Files, cursor, state_to_save, after_start, settle, async_start,
}

-- The coordinator, its files, the SEQ that the controller of the held link spends next, and the
-- (IV Index, SEQ) of every network PDU sent, newest first.
pub record System (D : Type 0) : Type 0 where
  pub cursor : Cursor
  pub files : Files D
  pub live : ℕ
  pub sent : List (ℕ × ℕ)

-- What happens: a link comes up, a former one being gone, and its controller spends numbers on the
-- proxy filter; a late link joins, and the filter is claimed again; the node of the held link
-- spends numbers on Segment Acks between commands, of which the coordinator is not told; a command
-- spends numbers and ends, with the beacon its controller has seen; the Store makes the queued
-- write; the process dies after a command has spent numbers, and the coordinator starts anew. A
-- write or a new link takes `_seq`, not the controller's cursor.
pub data Event : Type 0 where
  link join acks : ℕ → Event
  command : ℕ → ℕ → Option SecureNetworkBeacon → Event
  write : Event
  crash : ℕ → Event

-- `n` numbers from `seq` on are spent.
unfoldable pub spend : ℕ → ℕ → ℕ → List (ℕ × ℕ) → List (ℕ × ℕ)
spend iv_index seq zero sent = sent
spend iv_index seq (suc n) sent = spend iv_index (seq + 1) n ((iv_index, seq) ∷ sent)

-- `n` numbers of a controller whose cursor stands at `live`
unfoldable pub sent_after : ℕ → ℕ → Cursor → List (ℕ × ℕ) → List (ℕ × ℕ)
unfolding spend
sent_after live n c sent = spend c.iv_index live n sent

-- No write is queued without delay.
unfoldable pub is_prompt : Cursor → Bool
is_prompt c = elim c.pending [ none ↦ true | some delay ↦ not (delay == 0) ]

-- The beacon has an IV Index that the coordinator adopts.
unfoldable pub is_news : Option SecureNetworkBeacon → ℕ → Bool
is_news none iv_index = false
is_news (some b) iv_index = ltb iv_index b.iv_index

-- A write queued without delay is made before the next call; a new link comes up when no number has
-- been spent since the cursor was last taken; the process dies after at most 17 numbers since then;
-- an IV Index is adopted while the stored SEQ is not 0.
unfoldable pub is_safe : ℕ → Cursor → Event → Bool
unfolding is_prompt is_news
is_safe live c (link n) = is_prompt c && live == c.seq
is_safe live c (join n) = is_prompt c
is_safe live c (acks n) = true
is_safe live c (command n tid beacon) =
    is_prompt c && (not (is_news beacon c.iv_index) || ltb 0 c.saved_seq)
is_safe live c write = true
is_safe live c (crash n) = is_prompt c && leb (live + n) (c.seq + 17)

module _ {D : Type 0} (s : Store D) where
  -- The Store calls `_state_to_save` and writes what it gives; a write that raises is left queued.
  unfoldable pub make_write : Cursor → Files D → Cursor × Files D
  unfolding state_to_save
  make_write c f =
      let (c', dict) = state_to_save c in
      elim (s.save dict f.store) [
        | none ↦ (c', f)
        | some store ↦ (record c' { pending = none }, record f { store = store })
      ]

module _ {D : Type 0} (s : Store D) (export_iv_index : ℕ) where
  unfoldable pub begin : Files D → List (ℕ × ℕ) → System D
  unfolding async_start cursor
  begin f sent =
      let (c, f') = async_start s export_iv_index (cursor export_iv_index) f in
      record { cursor = c; files = f'; live = c.seq; sent = sent }

  unfoldable pub step : System D → Event → System D
  unfolding after_start settle sent_after make_write begin
  step y (link n) = record y {
    cursor = after_start (y.cursor.seq + n) y.cursor;
    live = y.cursor.seq + n;
    sent = sent_after y.cursor.seq n y.cursor y.sent;
  }
  step y (join n) = record y {
    cursor = after_start (y.live + n) y.cursor;
    live = y.live + n;
    sent = sent_after y.live n y.cursor y.sent;
  }
  step y (acks n) = record y { live = y.live + n; sent = sent_after y.live n y.cursor y.sent }
  step y (command n tid beacon) =
      let settled = (settle (y.live + n) tid beacon y.cursor).0 in
      record y { cursor = settled; live = settled.seq; sent = sent_after y.live n y.cursor y.sent }
  step y write = let (c, f) = make_write s y.cursor y.files in record y { cursor = c; files = f }
  step y (crash n) = begin y.files (sent_after y.live n y.cursor y.sent)

  unfoldable pub run : System D → List Event → System D
  unfolding step
  run y [] = y
  run y (e ∷ es) = run (step y e) es

  -- Every event comes when it is safe.
  unfoldable pub all_safe : System D → List Event → Bool
  unfolding is_safe step
  all_safe y [] = true
  all_safe y (e ∷ es) = is_safe y.live y.cursor e && all_safe (step y e) es
