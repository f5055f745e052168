-- ===== src/Node/Receive.antt =====
-- The receiving half of src/btmesh/node.py. `loop` says whether an event loop runs, in which
-- `_call_later` schedules a timer.
use ha_bluetooth_mesh.Prelude.{
  ℕ, ◌+◌, ◌*◌, Bool, true, false, Option, none, some, List, [], ◌∷◌, ◌++◌, ◌==◌, if◌then◌else◌, not,
}
use ha_bluetooth_mesh.Prelude.Bytes.{Bytes}
use ha_bluetooth_mesh.Prelude.Dict.{get, set}
use ha_bluetooth_mesh.Prelude.Outcome.{
  Result, Error, ok, err, network_error, transport_error, access_error,
}
use ha_bluetooth_mesh.Crypto.{Primitives}
use ha_bluetooth_mesh.Network.{DecodedNetworkPdu}
use ha_bluetooth_mesh.Network as Network
use ha_bluetooth_mesh.Transport.{
  SegmentAck, AccessLower, unsegmented, segmented, AccessSegment, ControlLower, segment_ack,
  unknown_control, parse_access_lower, parse_control_lower, decrypt_access,
}
use ha_bluetooth_mesh.Transport.Assembler.{SegmentAssembler, add, pending}
use ha_bluetooth_mesh.Access.{parse_access}
use ha_bluetooth_mesh.Node.{
  MeshNode, Handled, ReceivedMessage, AckTimer, seg_ack_timeout_base, seg_ack_timeout_per_ttl,
  seg_incomplete_timeout, rx_key, seq_auth, cancel_sar_timers, assembler_for, deliver,
}
use ha_bluetooth_mesh.Node.Send.{send_segment_ack}
pub mod Laws

-- `except E: return`: an exception of the class `caught` ends the handling, another goes on.
unfoldable pub is_caught : Error → Error → Bool
is_caught network_error network_error = true
is_caught transport_error transport_error = true
is_caught access_error access_error = true
is_caught caught e = false

unfoldable pub trying {ℓ} : {A : Type ℓ} → Error → Result A → MeshNode → (A → Handled) → Handled
unfolding is_caught
trying caught (err e) n next = (n, if is_caught caught e then ok tt else err e)
trying caught (ok a) n next = next a

-- `_handle_control`, on what the PDU parses to
unfoldable pub note_control : ControlLower → MeshNode → Handled
unfolding set
note_control (segment_ack ack) n = (record n { acks = set ack.seq_zero ack n.acks }, ok tt)
note_control (unknown_control msg) n = (n, ok tt)

unfoldable pub handle_control : DecodedNetworkPdu → MeshNode → Handled
unfolding trying note_control
handle_control pdu n =
    trying transport_error (parse_control_lower pdu.transport_pdu) n (λ msg. note_control msg n)

-- `last_ack`
unfoldable pub last_ack : ℕ → MeshNode → Option SegmentAck
unfolding get
last_ack seq_zero n = get seq_zero n.acks

-- `last_rx_seq.get(pdu.src) == pdu.seq`
unfoldable pub is_echo : DecodedNetworkPdu → MeshNode → Bool
unfolding get
is_echo pdu n = elim (get pdu.src n.last_rx_seq) [ none ↦ false | some seq ↦ seq == pdu.seq ]

module _ (p : Primitives) (loop : Bool) where
  -- `_on_segment_for_us`
  unfoldable pub on_segment_for_us : DecodedNetworkPdu → SegmentAssembler → MeshNode → Handled
  unfolding cancel_sar_timers send_segment_ack set
  on_segment_for_us pdu a n =
      let n' = cancel_sar_timers pdu.src n in
      let delay = seg_ack_timeout_base + seg_ack_timeout_per_ttl * pdu.ttl in
      if not (pending a) then send_segment_ack p pdu a n' else (
        record n' {
          ack_timers =
              set pdu.src (if loop then some (record { delay = delay; pdu = pdu }) else none)
                n'.ack_timers;
          incomplete_timers =
              set pdu.src (if loop then some seg_incomplete_timeout else none) n'.incomplete_timers;
        },
        ok tt,
      )

  -- `_handle_access`, on the access payload
  unfoldable pub take_payload : ℕ → Bytes → MeshNode → Handled
  unfolding trying deliver
  take_payload src payload n =
      trying access_error (parse_access payload) n
        (λ got. (deliver (record { src = src; opcode = got.0; params = got.1 }) n, ok tt))

  -- `_handle_access`, from the choice of the key on
  unfoldable pub open_upper :
      Option Bytes → Bool → ℕ → DecodedNetworkPdu → Bytes → MeshNode → Handled
  unfolding trying take_payload
  open_upper none akf seq pdu upper n = (n, ok tt)
  open_upper (some key) akf seq pdu upper n =
      trying transport_error (decrypt_access p key akf seq pdu.src pdu.dst n.iv_index upper []) n
        (λ payload. take_payload pdu.src payload n)

  -- A whole message, unless its SeqAuth is implausible
  unfoldable pub take_upper : Bool → ℕ → Option ℕ → DecodedNetworkPdu → Bytes → MeshNode → Handled
  unfolding open_upper rx_key
  take_upper akf aid none pdu upper n = (n, ok tt)
  take_upper akf aid (some seq) pdu upper n =
      open_upper (rx_key akf aid pdu.src n) akf seq pdu upper n

  -- `_handle_access`, from `if upper is None` on
  unfoldable pub after_add : AccessSegment → DecodedNetworkPdu → Option Bytes → MeshNode → Handled
  unfolding take_upper seq_auth
  after_add seg pdu none n = (n, ok tt)
  after_add seg pdu (some upper) n =
      take_upper seg.akf seg.aid (seq_auth pdu.seq seg.seq_zero) pdu upper n

  -- What the segment's acknowledgment rules leave, and what follows if they did not raise.
  -- `except TransportError` stands around them.
  unfoldable pub after_rules : AccessSegment → DecodedNetworkPdu → Option Bytes → Handled → Handled
  unfolding trying after_add
  after_rules seg pdu upper (n, result) =
      trying transport_error result n (λ done. after_add seg pdu upper n)

  -- `_handle_access`, from what `assembler.add` left on
  unfoldable pub after_segment :
      AccessSegment
      → DecodedNetworkPdu
      → SegmentAssembler × Result (Option Bytes)
      → MeshNode
      → Handled
  unfolding trying after_rules on_segment_for_us set
  after_segment seg pdu (a, result) n =
      let n' = record n { assemblers = set pdu.src a n.assemblers } in
      trying transport_error result n' (λ upper.
        after_rules seg pdu upper
          (if pdu.dst == n.src then on_segment_for_us pdu a n' else (n', ok tt)))

  unfoldable pub handle_segment :
      AccessSegment → DecodedNetworkPdu → MeshNode × SegmentAssembler → Handled
  unfolding after_segment
  handle_segment seg pdu (n, a) = after_segment seg pdu (add a seg) n

  unfoldable pub handle_lower : DecodedNetworkPdu → MeshNode → AccessLower → Handled
  unfolding take_upper handle_segment assembler_for
  handle_lower pdu n (unsegmented u) = take_upper u.akf u.aid (some pdu.seq) pdu u.upper_pdu n
  handle_lower pdu n (segmented seg) = handle_segment seg pdu (assembler_for pdu.src n)

  -- `_handle_access`
  unfoldable pub handle_access : DecodedNetworkPdu → MeshNode → Handled
  unfolding trying handle_lower
  handle_access pdu n =
      trying transport_error (parse_access_lower pdu.transport_pdu) n (handle_lower pdu n)

  -- `handle_network_pdu`, on the PDU that was decoded
  unfoldable pub handle_decoded : MeshNode → DecodedNetworkPdu → Handled
  unfolding is_echo handle_control handle_access set
  handle_decoded n pdu =
      let n' = record n { last_rx_seq = set pdu.src pdu.seq n.last_rx_seq } in
      if pdu.src == n.src
      then (n, ok tt)
      else if is_echo pdu n
      then (n, ok tt)
      else if pdu.ctl
      then handle_control pdu n'
      else handle_access pdu n'

  unfoldable pub handle_network_pdu : Bytes → MeshNode → Handled
  unfolding trying handle_decoded
  handle_network_pdu raw n = trying network_error (Network.decode p n.ctx raw) n (handle_decoded n)

  -- The callback of the acknowledgment timer of `src`, once its PDU and assembler are known
  unfoldable pub fire_timer : AckTimer → Option SegmentAssembler → MeshNode → Handled
  unfolding send_segment_ack
  fire_timer timer none n = (n, ok tt)
  fire_timer timer (some a) n = send_segment_ack p timer.pdu a n

  unfoldable pub fire_ack : ℕ → MeshNode → Handled
  unfolding get fire_timer
  fire_ack src n = elim (get src n.ack_timers) [
    | none ↦ (n, ok tt)
    | some scheduled ↦ elim scheduled [
      | none ↦ (n, ok tt)
      | some timer ↦ fire_timer timer (get src n.assemblers) n
    ]
  ]
