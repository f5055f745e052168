-- ===== src/Node/Send.antt =====
-- The sending half of src/btmesh/node.py.
use ha_bluetooth_mesh.Prelude.{
  ℕ, ◌+◌, Bool, true, false, Option, none, some, List, [], ◌∷◌, ◌++◌, leb, ◌==◌, if◌then◌else◌,
  length,
}
use ha_bluetooth_mesh.Prelude.Bytes.{Bytes}
use ha_bluetooth_mesh.Prelude.Outcome.{
  Result, ok, err, ◌>>=◌, from_option, node_error, network_error,
}
use ha_bluetooth_mesh.Crypto.{Primitives}
use ha_bluetooth_mesh.Network.{NetworkContext, DecodedNetworkPdu}
use ha_bluetooth_mesh.Network as Network
use ha_bluetooth_mesh.Transport.{
  trans_mic_len, unseg_max_upper_len, encrypt_access, build_unsegmented_access, segment_count,
  segment_access_message, build_segment_ack,
}
use ha_bluetooth_mesh.Transport.Assembler.{SegmentAssembler, seq_zero, block_ack}
use ha_bluetooth_mesh.Node.{MeshNode, Handled, device_key_for, default_ttl}

-- The key, AKF and AID of an outgoing message.
unfoldable pub tx_key : Bool → ℕ → MeshNode → Result (Bytes × Bool × ℕ)
unfolding device_key_for
tx_key false dst n = ok (n.appkey, true, n.aid)
tx_key true dst n = do key ← from_option node_error (device_key_for dst n); ok (key, false, 0)

-- How many SEQ a message takes.
unfoldable pub seq_count : ℕ → ℕ
seq_count upper_len = if leb upper_len unseg_max_upper_len then 1 else segment_count upper_len

-- `parse_proxy_config_pdu`, after `network.decode`: a NetworkError or an access message is foreign
-- traffic; an exception of another class goes on to the caller.
unfoldable pub config_message : Result DecodedNetworkPdu → Result (Option Bytes)
config_message (err network_error) = ok none
config_message (err e) = err e
config_message (ok pdu) = ok (if pdu.ctl then some pdu.transport_pdu else none)

module _ (p : Primitives) where
  -- The lower transport PDUs, each with its SEQ.
  unfoldable pub lower_pdus :
      Bytes → Bool → ℕ → ℕ → ℕ → Bytes → MeshNode → Result (List (ℕ × Bytes))
  lower_pdus key akf aid seq dst payload n = do
    upper ← encrypt_access p key akf seq n.src dst n.iv_index payload []
    if leb (length payload + trans_mic_len) unseg_max_upper_len
        then (do lower ← build_unsegmented_access upper akf aid; ok ((seq, lower) ∷ []))
        else segment_access_message upper akf aid seq

  -- `self._send(network.encode(...))`
  unfoldable pub send_encoded : Result Bytes → MeshNode → Handled
  send_encoded (err e) n = (n, err e)
  send_encoded (ok pdu) n = (record n { sent = n.sent ++ (pdu ∷ []) }, ok tt)

  -- The loop at the end of `send_access`; an exception ends it.
  unfoldable pub send_all : ℕ → ℕ → List (ℕ × Bytes) → MeshNode → Handled
  unfolding send_encoded
  send_all ttl dst [] n = (n, ok tt)
  send_all ttl dst ((seq, lower) ∷ pdus) n =
      elim (Network.encode p n.ctx false ttl seq n.src dst lower) [
        | err e ↦ (n, err e)
        | ok pdu ↦ send_all ttl dst pdus (record n { sent = n.sent ++ (pdu ∷ []) })
      ]

  unfoldable pub send_lower : ℕ → ℕ → Result (List (ℕ × Bytes)) → MeshNode → Handled
  unfolding send_all
  send_lower ttl dst (err e) n = (n, err e)
  send_lower ttl dst (ok pdus) n = send_all ttl dst pdus n

  -- From the SEQ block on, which is spent whether or not the rest works.
  unfoldable pub send_block :
      Bytes × Bool × ℕ → ℕ → ℕ → Bytes → NetworkContext × Result ℕ → MeshNode → Handled
  unfolding send_lower lower_pdus
  send_block key dst ttl payload (ctx, err e) n = (record n { ctx = ctx }, err e)
  send_block (key, akf, aid) dst ttl payload (ctx, ok seq) n =
      let n' = record n { ctx = ctx } in
      send_lower ttl dst (lower_pdus key akf aid seq dst payload n') n'

  unfoldable pub send_with : Result (Bytes × Bool × ℕ) → ℕ → ℕ → Bytes → MeshNode → Handled
  unfolding send_block seq_count
  send_with (err e) dst ttl payload n = (n, err e)
  send_with (ok key) dst ttl payload n =
      send_block key dst ttl payload
        (Network.next_seq n.ctx (seq_count (length payload + trans_mic_len))) n

  unfoldable pub send_access : ℕ → Bytes → Bool → ℕ → MeshNode → Handled
  unfolding send_with tx_key
  send_access dst payload dev_key ttl n = send_with (tx_key dev_key dst n) dst ttl payload n

  -- A control message under one new SEQ.
  unfoldable pub encode_control :
      ℕ → ℕ → Bytes → NetworkContext × Result ℕ → MeshNode → MeshNode × Result Bytes
  encode_control ttl dst message (ctx, err e) n = (record n { ctx = ctx }, err e)
  encode_control ttl dst message (ctx, ok seq) n =
      (record n { ctx = ctx }, Network.encode p ctx true ttl seq n.src dst message)

  unfoldable pub build_proxy_config_pdu : Bytes → MeshNode → MeshNode × Result Bytes
  unfolding encode_control
  build_proxy_config_pdu message n =
      if length message == 0
      then (n, err node_error)
      else encode_control 0 0x0000 message (Network.next_seq n.ctx 1) n

  unfoldable pub parse_proxy_config_pdu : Bytes → MeshNode → Result (Option Bytes)
  unfolding config_message
  parse_proxy_config_pdu raw n = config_message (Network.decode p n.ctx raw)

  unfoldable pub send_control : MeshNode × Result Bytes → Handled
  unfolding send_encoded
  send_control (n, pdu) = send_encoded pdu n

  -- `_send_segment_ack`, from the acknowledgment on
  unfoldable pub send_ack_lower : DecodedNetworkPdu → Result Bytes → MeshNode → Handled
  unfolding send_control encode_control
  send_ack_lower pdu (err e) n = (n, err e)
  send_ack_lower pdu (ok lower) n = send_control (
      encode_control (if pdu.ttl == 0 then 0 else default_ttl) pdu.src lower
        (Network.next_seq n.ctx 1) n)

  -- `_send_segment_ack`, from the SeqZero of the transfer on
  unfoldable pub ack_transfer : DecodedNetworkPdu → SegmentAssembler → Option ℕ → MeshNode → Handled
  unfolding send_ack_lower
  ack_transfer pdu a none n = (n, ok tt)
  ack_transfer pdu a (some zero') n =
      send_ack_lower pdu (build_segment_ack zero' (block_ack a) false) n

  -- `_send_segment_ack`
  unfoldable pub send_segment_ack : DecodedNetworkPdu → SegmentAssembler → MeshNode → Handled
  unfolding ack_transfer
  send_segment_ack pdu a n = ack_transfer pdu a (seq_zero a) n
