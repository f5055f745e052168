-- ===== src/Node/EndToEnd.antt =====
-- Two nodes of one network over src/btmesh/node.py: what one of them encodes, the other handles.
pub mod Unsegmented
use ha_bluetooth_mesh.Prelude.{
  ℕ, ◌+◌, ◌*◌, ◌^◌, ◌≤◌, ◌<◌, bit_or, ◌≡◌, ◌≢◌, refl, sym, ap, ◌∙◌, subst, arith, Bool, true, false,
  bit, Option, none, some, List, [], ◌∷◌, ◌++◌, ◌==◌, leb, if◌then◌else◌, length, ==_ne, inl,
}
use ha_bluetooth_mesh.Prelude.Bits.{bit_or_disjoint}
use ha_bluetooth_mesh.Prelude.Bytes.{Bytes, AllBytes}
use ha_bluetooth_mesh.Prelude.Dict.{get, set}
use ha_bluetooth_mesh.Prelude.Outcome.{
  Result, Error, from_option, network_error, transport_error, access_error, value_error, ok,
  >>=-eq-ok, require-ok,
}
use ha_bluetooth_mesh.Crypto.{Primitives, IsSound, ccm_encrypt}
use ha_bluetooth_mesh.Network.{NetworkContext, DecodedNetworkPdu}
use ha_bluetooth_mesh.Network as Network
use ha_bluetooth_mesh.Network.Context.{IsContext}
use ha_bluetooth_mesh.Network.RoundTrip.{IsSendable, decode-encode}
use ha_bluetooth_mesh.Transport.{
  trans_mic_len, unseg_max_upper_len, AccessLower, UnsegmentedAccess, unsegmented,
  parse_access_lower, decrypt_access, access_nonce, check_label_uuid, encrypt_access,
  build_unsegmented_access, check_aid,
}
use ha_bluetooth_mesh.Transport.RoundTrip.{
  IsKeyId, IsKeyId-lt, bit-lt, parse_access_lower-build_unsegmented_access,
}
use ha_bluetooth_mesh.Transport.Upper.{decrypt_access-encrypt_access}
use ha_bluetooth_mesh.Access.{parse_access}
use ha_bluetooth_mesh.Node.{MeshNode, device_key_for, rx_key, deliver}
use ha_bluetooth_mesh.Node.Send.{
  tx_key, send_access, send_with, send_block, send_lower, send_all, lower_pdus, seq_count,
}
use ha_bluetooth_mesh.Node.Receive.{
  trying, handle_control, handle_access, handle_lower, take_upper, open_upper, take_payload,
  is_echo, handle_decoded, handle_network_pdu,
}

-- Every SEQ seen of a source is below its cursor.
abbrev pub IsBelow : Option ℕ → ℕ → Type 0
IsBelow none seq = Unit {0}
IsBelow (some last) seq = last < seq

-- Two nodes with the network key and the IV Index in common. The receiver has seen nothing of the
-- sender above its cursor.
pub record IsLink (a b : MeshNode) : Type 0 where
  pub network : b.ctx ≡ record a.ctx { seq = b.ctx.seq }
  pub ready : IsContext a.ctx
  pub iv_index : b.iv_index ≡ a.iv_index
  pub iv_index_fits : a.iv_index < 2 ^ 32
  pub src_fits : a.src < 2 ^ 16
  pub others : a.src ≢ b.src
  pub fresh : IsBelow (get a.src b.last_rx_seq) a.ctx.seq

is_echo-IsBelow :
    (pdu : DecodedNetworkPdu) (b : MeshNode)
    → IsBelow (get pdu.src b.last_rx_seq) pdu.seq
    → is_echo pdu b ≡ false
unfolding is_echo
is_echo-IsBelow pdu b h = go (get pdu.src b.last_rx_seq) h
  where
    go :
        (last : Option ℕ)
        → IsBelow last pdu.seq
        → (elim last as (λ x. Bool) [ none ↦ false | some seq ↦ seq == pdu.seq ]) ≡ false
    go none h = refl
    go (some last) h = ground arith

-- An access PDU, as `decode` returns it.
abbrev pub access_pdu : ℕ → ℕ → ℕ → ℕ → Bytes → DecodedNetworkPdu
access_pdu ttl seq src dst lower = record {
  ctl = false;
  ttl = ttl;
  seq = seq;
  src = src;
  dst = dst;
  transport_pdu = lower;
}

ready_after :
    (ctx : NetworkContext) (seq : ℕ) → IsContext ctx → IsContext (record ctx { seq = seq })
ready_after ctx seq h = record {
  nid_fits = h.nid_fits;
  encryption_key_size = h.encryption_key_size;
  privacy_key_size = h.privacy_key_size;
  iv_index_fits = h.iv_index_fits;
}

-- The cursor plays no part in reading.
pub decode-seq :
    (p : Primitives) (ctx : NetworkContext) (seq : ℕ) (raw : Bytes)
    → Network.decode p (record ctx { seq = seq }) raw ≡ Network.decode p ctx raw
unfolding Network.decode Network.decode_fields
decode-seq p ctx seq raw = refl

IsBelow-le : (last : Option ℕ) {seq next : ℕ} → seq ≤ next → IsBelow last seq → IsBelow last next
IsBelow-le none le h = tt
IsBelow-le (some last) le h = omega arith

nested_false {ℓ} :
    {A : Type ℓ} (x y z : Bool) (a b c d : A)
    → x ≡ false
    → y ≡ false
    → z ≡ false
    → (if x then a else if y then b else if z then c else d) ≡ d
nested_false true y z a b c d h k l = cc
nested_false false true z a b c d h k l = cc
nested_false false false true a b c d h k l = cc
nested_false false false false a b c d h k l = refl

handle_decoded-fresh :
    (p : Primitives) (loop : Bool) (pdu : DecodedNetworkPdu) (n : MeshNode)
    → pdu.ctl ≡ false
    → (pdu.src == n.src) ≡ false
    → is_echo pdu n ≡ false
    → handle_decoded p loop n pdu
      ≡ handle_access p loop pdu (record n { last_rx_seq = set pdu.src pdu.seq n.last_rx_seq })
unfolding handle_decoded
handle_decoded-fresh p loop pdu n access other fresh =
    let n' : MeshNode = record n { last_rx_seq = set pdu.src pdu.seq n.last_rx_seq } in
    nested_false (pdu.src == n.src) (is_echo pdu n) pdu.ctl (n, ok tt) (n, ok tt)
      (handle_control pdu n') (handle_access p loop pdu n') other fresh access

from_option-ok {ℓ} :
    {A : Type ℓ} (e : Error) (o : Option A) {x : A} → from_option e o ≡ ok x → o ≡ some x
from_option-ok e none h = cc
from_option-ok e (some a) h = cc

pub encrypt_access-AllBytes :
    (p : Primitives)
    → IsSound p
    → (key : Bytes) (akf : Bool) (seq src dst iv_index : ℕ) (payload upper : Bytes)
    → AllBytes payload
    → encrypt_access p key akf seq src dst iv_index payload [] ≡ ok upper
    → AllBytes upper
unfolding encrypt_access ccm_encrypt
encrypt_access-AllBytes p sound key akf seq src dst iv_index payload upper b h =
    let (checked, _, rest) = >>=-eq-ok (check_label_uuid []) _ h in
    let (nonce, _, sealed) = >>=-eq-ok (access_nonce akf seq src dst iv_index) _ rest in
    sound.seal_bytes key 4 nonce payload [] upper b (from_option-ok value_error _ sealed)

pub next_seq-ok :
    (ctx : NetworkContext) (count : ℕ)
    → 1 ≤ count
    → ctx.seq + count ≤ 2 ^ 24
    → Network.next_seq ctx count ≡ (record ctx { seq = ctx.seq + count }, ok ctx.seq)
unfolding Network.next_seq
next_seq-ok ctx count some' room = ground arith

pub rx_key-seen :
    (akf : Bool) (aid src : ℕ) (seen : List (ℕ × ℕ)) (n : MeshNode)
    → rx_key akf aid src (record n { last_rx_seq = seen }) ≡ rx_key akf aid src n
unfolding rx_key device_key_for
rx_key-seen true aid src seen n = refl
rx_key-seen false aid src seen n = refl

-- The node after `next_seq(count)`.
abbrev pub spent : ℕ → MeshNode → MeshNode
spent count n = record n { ctx = record n.ctx { seq = n.ctx.seq + count } }

module _ (p : Primitives) (loop : Bool) where
  -- A whole message, under the key that opens it.
  pub take_upper-ok :
      (akf : Bool) (aid seq : ℕ) (pdu : DecodedNetworkPdu) (upper key payload params : Bytes)
      (opcode : ℕ) (n : MeshNode)
      → rx_key akf aid pdu.src n ≡ some key
      → decrypt_access p key akf seq pdu.src pdu.dst n.iv_index upper [] ≡ ok payload
      → parse_access payload ≡ ok (opcode, params)
      → take_upper p loop akf aid (some seq) pdu upper n
        ≡ (deliver (record { src = pdu.src; opcode = opcode; params = params }) n, ok tt)
  unfolding take_upper open_upper take_payload trying
  take_upper-ok akf aid seq pdu upper key payload params opcode n opens plain read =
      ap (λ (k : Option Bytes). open_upper p loop k akf seq pdu upper n) opens
      ∙ ap
          (λ (r : Result Bytes).
            trying transport_error r n (λ payload. take_payload p loop pdu.src payload n))
          plain
      ∙ ap
          (λ (r : Result (ℕ × Bytes)).
            trying access_error r n (λ got.
              (deliver (record { src = pdu.src; opcode = got.0; params = got.1 }) n, ok tt)))
          read

  -- `send_access` once the key is chosen, the SEQ block taken and the lower transport PDUs made.
  pub send_access-ok :
      (key : Bytes) (akf : Bool) (aid dst ttl : ℕ) (payload : Bytes) (pdus : List (ℕ × Bytes))
      (dev_key : Bool) (n : MeshNode)
      → tx_key dev_key dst n ≡ ok (key, akf, aid)
      → 1 ≤ seq_count (length payload + trans_mic_len)
      → n.ctx.seq + seq_count (length payload + trans_mic_len) ≤ 2 ^ 24
      → lower_pdus p key akf aid n.ctx.seq dst payload
          (spent (seq_count (length payload + trans_mic_len)) n)
        ≡ ok pdus
      → send_access p dst payload dev_key ttl n
        ≡ send_all p ttl dst pdus (spent (seq_count (length payload + trans_mic_len)) n)
  unfolding send_access send_with send_block send_lower
  send_access-ok key akf aid dst ttl payload pdus dev_key n keyed some' room made =
      let count = seq_count (length payload + trans_mic_len) in
      ap (λ (k : Result (Bytes × Bool × ℕ)). send_with p k dst ttl payload n) keyed
      ∙ ap (λ (r : NetworkContext × Result ℕ). send_block p (key, akf, aid) dst ttl payload r n)
          (next_seq-ok n.ctx count some' room)
      ∙ ap (λ (r : Result (List (ℕ × Bytes))). send_lower p ttl dst r (spent count n)) made

module _ (p : Primitives) (sound : IsSound p) (loop : Bool) (a b : MeshNode)
    (link : IsLink a b) where
  -- An access PDU of `a` under a new SEQ, as `b` handles it.
  pub handle_network_pdu-encode :
      (cursor ttl seq dst : ℕ) (lower : Bytes)
      → a.ctx.seq ≤ seq
      → IsSendable false ttl seq a.src dst lower
      → (pdu : Bytes) × (Network.encode p
            (record a.ctx { seq = cursor })
            false
            ttl
            seq
            a.src
            dst
            lower
          ≡ ok pdu)
        × (handle_network_pdu p loop pdu b
            ≡ handle_access p loop
                (access_pdu ttl seq a.src dst lower)
                (record b { last_rx_seq = set a.src seq b.last_rx_seq }))
  unfolding handle_network_pdu trying
  handle_network_pdu-encode cursor ttl seq dst lower new h =
      let (pdu, encoded, decoded, size) =
        decode-encode p sound (record a.ctx { seq = cursor }) (ready_after a.ctx cursor link.ready)
          false ttl seq a.src dst lower h in
      (
        pdu,
        encoded,
        ap (λ (r : Result DecodedNetworkPdu). trying network_error r b (handle_decoded p loop b))
              (ap (λ (c : NetworkContext). Network.decode p c pdu) link.network
                ∙ decode-seq p a.ctx b.ctx.seq pdu
                ∙ sym (decode-seq p a.ctx cursor pdu)
                ∙ decoded)
            ∙ handle_decoded-fresh p loop (access_pdu ttl seq a.src dst lower) b refl
                (==_ne a.src b.src link.others)
                (is_echo-IsBelow (access_pdu ttl seq a.src dst lower) b
                  (IsBelow-le (get a.src b.last_rx_seq) new link.fresh)),
      )
