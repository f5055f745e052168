-- ===== src/Node/Kept.antt =====
-- A property of the node of src/btmesh/node.py that each single change of its state keeps, and
-- what sends an acknowledgment or a proxy configuration message keeps.
use ha_bluetooth_mesh.Prelude.{
  ℕ, ◌≡◌, Bool, true, false, Option, none, some, [], ◌∷◌, ◌++◌, ◌==◌, if◌then◌else◌, Bool-cases,
  length, inl, inr,
}
use ha_bluetooth_mesh.Prelude.Bytes.{Bytes}
use ha_bluetooth_mesh.Prelude.Dict.{get, set, get-set_self}
use ha_bluetooth_mesh.Prelude.Outcome.{Result, Error, ok, err}
use ha_bluetooth_mesh.Crypto.{Primitives}
use ha_bluetooth_mesh.Network.{NetworkContext, DecodedNetworkPdu}
use ha_bluetooth_mesh.Network as Network
use ha_bluetooth_mesh.Transport.{SegmentAck}
use ha_bluetooth_mesh.Transport.Assembler.{SegmentAssembler, seq_zero}
use ha_bluetooth_mesh.Node.{
  MeshNode, Handled, ReceivedMessage, AckTimer, cancel_sar_timers, new_assembler, deliver,
}
use ha_bluetooth_mesh.Node.Send.{
  send_encoded, encode_control, build_proxy_config_pdu, send_control, send_ack_lower, ack_transfer,
  send_segment_ack,
}
use ha_bluetooth_mesh.Node.Receive.{trying}

-- The changes of which the handlers are made.
pub record IsKept (P : MeshNode → Type 0) : Type 0 where
  pub spend :
      (n : MeshNode) (count : ℕ) → P n → P (record n { ctx = (Network.next_seq n.ctx count).0 })
  pub emit : (n : MeshNode) (pdu : Bytes) → P n → P (record n { sent = n.sent ++ (pdu ∷ []) })
  pub note :
      (n : MeshNode) (ack : SegmentAck) → P n → P (record n { acks = set ack.seq_zero ack n.acks })
  pub cancel : (n : MeshNode) (src : ℕ) → P n → P (cancel_sar_timers src n)
  pub schedule :
      (n : MeshNode) (src : ℕ) (a : SegmentAssembler) (ack : Option AckTimer)
      (incomplete : Option ℕ)
      → get src n.assemblers ≡ some a
      → P n
      → P (record n {
        ack_timers = set src ack n.ack_timers;
        incomplete_timers = set src incomplete n.incomplete_timers;
      })
  pub start : (n : MeshNode) (src : ℕ) → get src n.assemblers ≡ none → P n → P (new_assembler src n)
  pub update :
      (n : MeshNode) (src : ℕ) (old a : SegmentAssembler)
      → get src n.assemblers ≡ some old
      → P n
      → P (record n { assemblers = set src a n.assemblers })
  pub receive : (n : MeshNode) (msg : ReceivedMessage) → P n → P (deliver msg n)

pub get-new_assembler :
    (src : ℕ) (n : MeshNode)
    → (a : SegmentAssembler) × (get src (new_assembler src n).assemblers ≡ some a)
unfolding new_assembler
get-new_assembler src n = (_, get-set_self src _ _)

pub trying-keeps {ℓ} :
    {A : Type ℓ} (P : MeshNode → Type 0) (caught : Error) (r : Result A) (n : MeshNode)
    (next : A → Handled)
    → P n
    → ((a : A) → P (next a).0)
    → P (trying caught r n next).0
unfolding trying
trying-keeps P caught (err e) n next h k = h
trying-keeps P caught (ok a) n next h k = k a

pub if-keeps :
    (P : MeshNode → Type 0) (b : Bool) (x y : Handled) → P x.0 → P y.0 → P (if b then x else y).0
if-keeps P true x y h k = h
if-keeps P false x y h k = k

module _ (p : Primitives) (P : MeshNode → Type 0) (kept : IsKept P) where
  control_spends :
      (ttl dst : ℕ) (message : Bytes) (n : MeshNode) (r : NetworkContext × Result ℕ)
      → P (record n { ctx = r.0 })
      → P (encode_control p ttl dst message r n).0
  unfolding encode_control
  control_spends ttl dst message n (ctx, ok seq) h = h
  control_spends ttl dst message n (ctx, err e) h = h

  pub config_pdu-keeps :
      (message : Bytes) (n : MeshNode) → P n → P (build_proxy_config_pdu p message n).0
  unfolding build_proxy_config_pdu
  config_pdu-keeps message n h = elim (Bool-cases (length message == 0)) [
    | inl empty ↦ rw (empty, build_proxy_config_pdu) h
    | inr some' ↦
        rw (some', build_proxy_config_pdu)
          (control_spends 0 0x0000 message n (Network.next_seq n.ctx 1) (kept.spend n 1 h))
  ]

  send_control-keeps : (r : MeshNode × Result Bytes) → P r.0 → P (send_control p r).0
  unfolding send_control send_encoded
  send_control-keeps (n, ok pdu) h = kept.emit n pdu h
  send_control-keeps (n, err e) h = h

  send_ack_lower-keeps :
      (pdu : DecodedNetworkPdu) (lower : Result Bytes) (n : MeshNode)
      → P n
      → P (send_ack_lower p pdu lower n).0
  unfolding send_ack_lower
  send_ack_lower-keeps pdu (err e) n h = h
  send_ack_lower-keeps pdu (ok lower) n h =
      send_control-keeps _
        (control_spends _ pdu.src lower n (Network.next_seq n.ctx 1) (kept.spend n 1 h))

  ack_transfer-keeps :
      (pdu : DecodedNetworkPdu) (a : SegmentAssembler) (seq' : Option ℕ) (n : MeshNode)
      → P n
      → P (ack_transfer p pdu a seq' n).0
  unfolding ack_transfer
  ack_transfer-keeps pdu a none n h = h
  ack_transfer-keeps pdu a (some seq') n h = send_ack_lower-keeps pdu _ n h

  pub send_segment_ack-keeps :
      (pdu : DecodedNetworkPdu) (a : SegmentAssembler) (n : MeshNode)
      → P n
      → P (send_segment_ack p pdu a n).0
  unfolding send_segment_ack
  send_segment_ack-keeps pdu a n h = ack_transfer-keeps pdu a (seq_zero a) n h
