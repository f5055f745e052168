-- ===== src/Node/Receive/Laws.antt =====
-- A property of the node that each single change of its state keeps is kept by the handlers.
use ha_bluetooth_mesh.Prelude.{
  ℕ, ◌≡◌, Bool, Option, none, some, [], ◌==◌, Bool-cases, Option-cases, inl, inr,
}
use ha_bluetooth_mesh.Prelude.Bytes.{Bytes}
use ha_bluetooth_mesh.Prelude.Dict.{get, set, get-set_self}
use ha_bluetooth_mesh.Prelude.Outcome.{Result, ok, network_error, transport_error, access_error}
use ha_bluetooth_mesh.Crypto.{Primitives}
use ha_bluetooth_mesh.Network.{NetworkContext, DecodedNetworkPdu}
use ha_bluetooth_mesh.Network as Network
use ha_bluetooth_mesh.Transport.{
  AccessLower, unsegmented, segmented, AccessSegment, ControlLower, segment_ack, unknown_control,
  parse_access_lower, parse_control_lower, decrypt_access,
}
use ha_bluetooth_mesh.Transport.Assembler.{SegmentAssembler, add, pending}
use ha_bluetooth_mesh.Access.{parse_access}
use ha_bluetooth_mesh.Node.{
  MeshNode, Handled, AckTimer, rx_key, seq_auth, cancel_sar_timers, new_assembler, assembler_for,
}
use ha_bluetooth_mesh.Node.Receive.{
  note_control, handle_control, on_segment_for_us, take_payload, open_upper, take_upper, after_add,
  after_rules, after_segment, handle_segment, handle_lower, handle_access, is_echo, handle_decoded,
  handle_network_pdu, fire_timer, fire_ack,
}
use ha_bluetooth_mesh.Node.Kept.{
  IsKept, get-new_assembler, trying-keeps, if-keeps, send_segment_ack-keeps,
}

module _ (p : Primitives) (loop : Bool) (P : MeshNode → Type 0) (kept : IsKept P) where
  on_segment_for_us-keeps :
      (pdu : DecodedNetworkPdu) (a b : SegmentAssembler) (n : MeshNode)
      → get pdu.src n.assemblers ≡ some b
      → P n
      → P (on_segment_for_us p loop pdu a n).0
  unfolding on_segment_for_us cancel_sar_timers
  on_segment_for_us-keeps pdu a b n there h = elim (Bool-cases (pending a)) [
    | inl open' ↦
        rw open' (
          kept.schedule (cancel_sar_timers pdu.src n) pdu.src b _ _ there (kept.cancel n pdu.src h))
    | inr done ↦ rw done (
        send_segment_ack-keeps p P kept pdu a (cancel_sar_timers pdu.src n)
          (kept.cancel n pdu.src h))
  ]

  take_payload-keeps :
      (src : ℕ) (payload : Bytes) (n : MeshNode) → P n → P (take_payload p loop src payload n).0
  unfolding take_payload
  take_payload-keeps src payload n h =
      trying-keeps P access_error (parse_access payload) n _ h (λ got. kept.receive n _ h)

  open_upper-keeps :
      (key : Option Bytes) (akf : Bool) (seq : ℕ) (pdu : DecodedNetworkPdu) (upper : Bytes)
      (n : MeshNode)
      → P n
      → P (open_upper p loop key akf seq pdu upper n).0
  unfolding open_upper
  open_upper-keeps none akf seq pdu upper n h = h
  open_upper-keeps (some key) akf seq pdu upper n h =
      trying-keeps P transport_error
        (decrypt_access p key akf seq pdu.src pdu.dst n.iv_index upper []) n _ h
        (λ payload. take_payload-keeps pdu.src payload n h)

  take_upper-keeps :
      (akf : Bool) (aid : ℕ) (seq : Option ℕ) (pdu : DecodedNetworkPdu) (upper : Bytes)
      (n : MeshNode)
      → P n
      → P (take_upper p loop akf aid seq pdu upper n).0
  unfolding take_upper
  take_upper-keeps akf aid none pdu upper n h = h
  take_upper-keeps akf aid (some seq) pdu upper n h =
      open_upper-keeps (rx_key akf aid pdu.src n) akf seq pdu upper n h

  after_add-keeps :
      (seg : AccessSegment) (pdu : DecodedNetworkPdu) (upper : Option Bytes) (n : MeshNode)
      → P n
      → P (after_add p loop seg pdu upper n).0
  unfolding after_add
  after_add-keeps seg pdu none n h = h
  after_add-keeps seg pdu (some upper) n h =
      take_upper-keeps seg.akf seg.aid (seq_auth pdu.seq seg.seq_zero) pdu upper n h

  after_rules-keeps :
      (seg : AccessSegment) (pdu : DecodedNetworkPdu) (upper : Option Bytes) (r : Handled)
      → P r.0
      → P (after_rules p loop seg pdu upper r).0
  unfolding after_rules
  after_rules-keeps seg pdu upper (n, result) h =
      trying-keeps P transport_error result n _ h (λ done. after_add-keeps seg pdu upper n h)

  after_segment-keeps :
      (seg : AccessSegment) (pdu : DecodedNetworkPdu) (old : SegmentAssembler)
      (r : SegmentAssembler × Result (Option Bytes)) (n : MeshNode)
      → get pdu.src n.assemblers ≡ some old
      → P n
      → P (after_segment p loop seg pdu r n).0
  unfolding after_segment
  after_segment-keeps seg pdu old (a, result) n there h =
      let n' : MeshNode = record n { assemblers = set pdu.src a n.assemblers } in
      let h' : P n' = kept.update n pdu.src old a there h in
      trying-keeps P transport_error result n' _ h' (λ upper. after_rules-keeps seg pdu upper _ (
        if-keeps P (pdu.dst == n.src) _ (n', ok tt)
          (on_segment_for_us-keeps pdu a a n' (get-set_self pdu.src a n.assemblers) h') h'))

  handle_segment-keeps :
      (seg : AccessSegment) (pdu : DecodedNetworkPdu) (n : MeshNode)
      → P n
      → P (handle_segment p loop seg pdu (assembler_for pdu.src n)).0
  unfolding handle_segment assembler_for
  handle_segment-keeps seg pdu n h = elim (Option-cases (get pdu.src n.assemblers)) [
    | inl missing ↦
        let (a, there) = get-new_assembler pdu.src n in
        rw (missing, assembler_for)
          (after_segment-keeps seg pdu a _ (new_assembler pdu.src n) there
            (kept.start n pdu.src missing h))
    | inr (a, there) ↦
        rw (there, assembler_for) (after_segment-keeps seg pdu a (add a seg) n there h)
  ]

  handle_lower-keeps :
      (pdu : DecodedNetworkPdu) (n : MeshNode) (lower : AccessLower)
      → P n
      → P (handle_lower p loop pdu n lower).0
  unfolding handle_lower
  handle_lower-keeps pdu n (unsegmented u) h =
      take_upper-keeps u.akf u.aid (some pdu.seq) pdu u.upper_pdu n h
  handle_lower-keeps pdu n (segmented seg) h = handle_segment-keeps seg pdu n h

  pub handle_access-keeps :
      (pdu : DecodedNetworkPdu) (n : MeshNode) → P n → P (handle_access p loop pdu n).0
  unfolding handle_access
  handle_access-keeps pdu n h =
      trying-keeps P transport_error (parse_access_lower pdu.transport_pdu) n _ h
        (λ lower. handle_lower-keeps pdu n lower h)

  note_control-keeps : (msg : ControlLower) (n : MeshNode) → P n → P (note_control msg n).0
  unfolding note_control
  note_control-keeps (segment_ack ack) n h = kept.note n ack h
  note_control-keeps (unknown_control msg) n h = h

  pub handle_control-keeps :
      (pdu : DecodedNetworkPdu) (n : MeshNode) → P n → P (handle_control pdu n).0
  unfolding handle_control
  handle_control-keeps pdu n h =
      trying-keeps P transport_error (parse_control_lower pdu.transport_pdu) n _ h
        (λ msg. note_control-keeps msg n h)

  -- `seen`: the change that only an incoming PDU makes.
  handle_decoded-keeps :
      (pdu : DecodedNetworkPdu) (n : MeshNode)
      → P (record n { last_rx_seq = set pdu.src pdu.seq n.last_rx_seq })
      → P n
      → P (handle_decoded p loop n pdu).0
  unfolding handle_decoded
  handle_decoded-keeps pdu n seen h = if-keeps P (pdu.src == n.src) _ _ h (
      if-keeps P (is_echo pdu n) _ _ h
        (if-keeps P pdu.ctl _ _ (handle_control-keeps pdu _ seen) (handle_access-keeps pdu _ seen)))

  pub handle_network_pdu-keeps :
      (raw : Bytes) (n : MeshNode)
      → ((pdu : DecodedNetworkPdu)
          → P (record n { last_rx_seq = set pdu.src pdu.seq n.last_rx_seq }))
      → P n
      → P (handle_network_pdu p loop raw n).0
  unfolding handle_network_pdu
  handle_network_pdu-keeps raw n seen h =
      trying-keeps P network_error (Network.decode p n.ctx raw) n _ h
        (λ pdu. handle_decoded-keeps pdu n (seen pdu) h)

  fire_timer-keeps :
      (timer : AckTimer) (a : Option SegmentAssembler) (n : MeshNode)
      → P n
      → P (fire_timer p loop timer a n).0
  unfolding fire_timer
  fire_timer-keeps timer none n h = h
  fire_timer-keeps timer (some a) n h = send_segment_ack-keeps p P kept timer.pdu a n h

  pub fire_ack-keeps : (src : ℕ) (n : MeshNode) → P n → P (fire_ack p loop src n).0
  unfolding fire_ack
  fire_ack-keeps src n h = elim (Option-cases (get src n.ack_timers)) [
    | inl missing ↦ rw (missing, fire_ack) h
    | inr (none, there) ↦ rw (there, fire_ack) h
    | inr (some timer, there) ↦
        rw (there, fire_ack) (fire_timer-keeps timer (get src n.assemblers) n h)
  ]
