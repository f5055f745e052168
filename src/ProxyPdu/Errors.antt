-- ===== src/ProxyPdu/Errors.antt =====
-- Invalid SAR sequences.
use ha_bluetooth_mesh.Prelude.{ℕ, ◌≤◌, ◌<◌, ◌≡◌, arith, List, [], ◌∷◌, length, ap, ◌∙◌}
use ha_bluetooth_mesh.Prelude.Bytes.{Bytes}
use ha_bluetooth_mesh.Prelude.Outcome.{Error, ok, err, proxy_pdu_error}
use ha_bluetooth_mesh.ProxyPdu.{segment, Reassembler, reset, feed, feed_all}
use ha_bluetooth_mesh.ProxyPdu.RoundTrip.{one_message, feed_all-segment}

-- A frame that `feed` refuses raises ProxyPDUError and leaves the reassembler as new.
pub feed_refusal :
    (r : Reassembler) (frame : Bytes) (e : Error)
    → (feed r frame).1 ≡ err e
    → (e ≡ proxy_pdu_error) × ((feed r frame).0 ≡ reset)
unfolding feed
feed_refusal r [] e h = ground arith
feed_refusal r (octet ∷ payload) e h = ground arith

-- After a refused frame, whatever was being assembled, the frames of the next message are
-- received as by a new reassembler, and the message comes back whole.
pub feed_all_after_refusal :
    (r : Reassembler) (bad : Bytes) (e : Error) (msg_type : ℕ) (payload : Bytes) (mtu : ℕ)
    → (feed r bad).1 ≡ err e
    → msg_type < 64
    → 2 ≤ mtu
    → (frames : List Bytes) × (segment msg_type payload mtu ≡ ok frames)
      × (feed_all (feed r bad).0 frames ≡ (reset, one_message (length frames) msg_type payload))
feed_all_after_refusal r bad e msg_type payload mtu refused small room =
    let (frames, made, fits, got) = feed_all-segment msg_type payload mtu small room in
    (
      frames,
      made,
      ap (λ (s : Reassembler). feed_all s frames) (feed_refusal r bad e refused).1 ∙ got,
    )
