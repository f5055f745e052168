-- ===== src/ProxyPdu/Tests.antt =====
-- Concrete runs, and the theorems at concrete inputs.
use ha_bluetooth_mesh.Prelude.{◌≤◌, ◌≡◌, refl, arith, some, List, [], ◌∷◌, length, All}
use ha_bluetooth_mesh.Prelude.Bytes.{Bytes}
use ha_bluetooth_mesh.Prelude.Outcome.{ok, err, proxy_pdu_error}
use ha_bluetooth_mesh.ProxyPdu.{
  segment, header, sar_at, chunks_from, frames_from, Reassembler, reset, feed, feed_all,
}
use ha_bluetooth_mesh.ProxyPdu.RoundTrip.{one_message, feed_all-segment}

abbrev five : Bytes
five = 1 ∷ 2 ∷ 3 ∷ 4 ∷ 5 ∷ []

abbrev busy : Reassembler
busy = record { msg_type = some 0; buffer = 9 ∷ [] }

segment_five :
    segment 3 five 3 ≡ ok ((0x43 ∷ 1 ∷ 2 ∷ []) ∷ (0x83 ∷ 3 ∷ 4 ∷ []) ∷ (0xC3 ∷ 5 ∷ []) ∷ [])
unfolding segment header sar_at chunks_from frames_from
segment_five = refl

segment_no_room : segment 3 five 1 ≡ err proxy_pdu_error
unfolding segment
segment_no_room = refl

-- A complete frame in the middle of a message.
interrupted : (feed busy (0x00 ∷ 7 ∷ [])).1 ≡ err proxy_pdu_error
unfolding feed
interrupted = refl

feed_all-segment_example :
    (frames : List Bytes) × (segment 3 five 3 ≡ ok frames)
    × All (λ (frame : Bytes). length frame ≤ 3) frames
    × (feed_all reset frames ≡ (reset, one_message (length frames) 3 five))
feed_all-segment_example = feed_all-segment 3 five 3 (omega arith) (omega arith)
