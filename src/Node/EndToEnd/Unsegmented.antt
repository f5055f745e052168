-- ===== src/Node/EndToEnd/Unsegmented.antt =====
-- A message of one PDU over src/btmesh/node.py: what one node sends, another delivers.
use ha_bluetooth_mesh.Prelude.{
  ℕ, ◌+◌, ◌*◌, ◌^◌, ◌≤◌, ◌<◌, bit_or, ◌≡◌, refl, ap, ◌∙◌, subst, arith, Bool, true, false, bit,
  some, [], ◌∷◌, ◌++◌, leb, length, inl,
}
use ha_bluetooth_mesh.Prelude.Bits.{bit_or_disjoint}
use ha_bluetooth_mesh.Prelude.Bytes.{Bytes, AllBytes}
use ha_bluetooth_mesh.Prelude.Dict.{set}
use ha_bluetooth_mesh.Prelude.Outcome.{Result, transport_error, ok, >>=-eq-ok, require-ok}
use ha_bluetooth_mesh.Crypto.{Primitives, IsSound}
use ha_bluetooth_mesh.Network.{NetworkContext, DecodedNetworkPdu}
use ha_bluetooth_mesh.Network as Network
use ha_bluetooth_mesh.Transport.{
  trans_mic_len, unseg_max_upper_len, AccessLower, UnsegmentedAccess, unsegmented,
  parse_access_lower, decrypt_access, encrypt_access, build_unsegmented_access, check_aid,
}
use ha_bluetooth_mesh.Transport.RoundTrip.{
  IsKeyId, IsKeyId-lt, bit-lt, parse_access_lower-build_unsegmented_access,
}
use ha_bluetooth_mesh.Transport.Upper.{decrypt_access-encrypt_access}
use ha_bluetooth_mesh.Access.{parse_access}
use ha_bluetooth_mesh.Node.{MeshNode, rx_key, deliver}
use ha_bluetooth_mesh.Node.Send.{tx_key, send_access, send_all, lower_pdus, seq_count}
use ha_bluetooth_mesh.Node.Receive.{trying, handle_access, handle_lower, handle_network_pdu}
use ha_bluetooth_mesh.Node.EndToEnd.{
  IsLink, access_pdu, encrypt_access-AllBytes, rx_key-seen, spent, take_upper-ok, send_access-ok,
  handle_network_pdu-encode,
}

unsegmented_octet-IsByte :
    (akf : Bool) (aid : ℕ) → IsKeyId akf aid → bit_or (bit akf * 2 ^ 6) aid < 256
unsegmented_octet-IsByte akf aid h = omega (
  arith,
  bit_or_disjoint 6 (bit akf) aid (IsKeyId-lt akf aid h),
  bit-lt akf,
  IsKeyId-lt akf aid h,
)

build_unsegmented_access-octets :
    (upper : Bytes) (akf : Bool) (aid : ℕ) (pdu : Bytes)
    → IsKeyId akf aid
    → AllBytes upper
    → build_unsegmented_access upper akf aid ≡ ok pdu
    → AllBytes pdu × (length pdu ≡ 1 + length upper)
unfolding build_unsegmented_access
build_unsegmented_access-octets upper akf aid pdu key b h =
    let (checked, _, rest) = >>=-eq-ok (check_aid akf aid) _ h in
    let (_, made) = require-ok _ _ _ rest in ok_octets made
  where
    ok_octets :
        ok (bit_or (bit akf * 2 ^ 6) aid ∷ upper) ≡ ok pdu
        → AllBytes pdu × (length pdu ≡ 1 + length upper)
    ok_octets made =
        let e : bit_or (bit akf * 2 ^ 6) aid ∷ upper ≡ pdu = cc in
        subst (λ (x : Bytes). AllBytes x × (length x ≡ 1 + length upper)) e
          ((unsegmented_octet-IsByte akf aid key, b), omega arith)

seq_count-short : (size : ℕ) → size ≤ 11 → seq_count (size + trans_mic_len) ≡ 1
unfolding seq_count
seq_count-short size h = ground arith

module _ (p : Primitives) (loop : Bool) where
  handle_access-unsegmented :
      (pdu : DecodedNetworkPdu) (u : UnsegmentedAccess) (key payload params : Bytes) (opcode : ℕ)
      (n : MeshNode)
      → parse_access_lower pdu.transport_pdu ≡ ok (unsegmented u)
      → rx_key u.akf u.aid pdu.src n ≡ some key
      → decrypt_access p key u.akf pdu.seq pdu.src pdu.dst n.iv_index u.upper_pdu [] ≡ ok payload
      → parse_access payload ≡ ok (opcode, params)
      → handle_access p loop pdu n
        ≡ (deliver (record { src = pdu.src; opcode = opcode; params = params }) n, ok tt)
  unfolding handle_access handle_lower trying
  handle_access-unsegmented pdu u key payload params opcode n lower opens plain read =
      ap (λ (r : Result AccessLower). trying transport_error r n (handle_lower p loop pdu n)) lower
      ∙ take_upper-ok p loop u.akf u.aid pdu.seq pdu u.upper_pdu key payload params opcode n opens
          plain read

  lower_pdus-short :
      (key : Bytes) (akf : Bool) (aid seq dst : ℕ) (payload upper lower : Bytes) (n : MeshNode)
      → length payload ≤ 11
      → encrypt_access p key akf seq n.src dst n.iv_index payload [] ≡ ok upper
      → build_unsegmented_access upper akf aid ≡ ok lower
      → lower_pdus p key akf aid seq dst payload n ≡ ok ((seq, lower) ∷ [])
  unfolding lower_pdus
  lower_pdus-short key akf aid seq dst payload upper lower n short sealed built =
      let small : leb (length payload + trans_mic_len) unseg_max_upper_len ≡ true = ground arith in
      rw (sealed, small, built) refl

  send_access-short :
      (key : Bytes) (akf : Bool) (aid dst ttl : ℕ) (payload upper lower pdu : Bytes)
      (dev_key : Bool) (n : MeshNode)
      → tx_key dev_key dst n ≡ ok (key, akf, aid)
      → n.ctx.seq < 2 ^ 24
      → length payload ≤ 11
      → encrypt_access p key akf n.ctx.seq n.src dst n.iv_index payload [] ≡ ok upper
      → build_unsegmented_access upper akf aid ≡ ok lower
      → Network.encode p (record n.ctx { seq = n.ctx.seq + 1 }) false ttl n.ctx.seq n.src dst lower
        ≡ ok pdu
      → send_access p dst payload dev_key ttl n
        ≡ (record (spent 1 n) { sent = n.sent ++ (pdu ∷ []) }, ok tt)
  unfolding send_all
  send_access-short key akf aid dst ttl payload upper lower pdu dev_key n keyed room short sealed
        built encoded =
      let one = seq_count-short (length payload) short in
      send_access-ok p loop key akf aid dst ttl payload ((n.ctx.seq, lower) ∷ []) dev_key n keyed
        (omega (arith, one)) (omega (arith, one))
        (lower_pdus-short key akf aid n.ctx.seq dst payload upper lower
          (spent (seq_count (length payload + trans_mic_len)) n) short sealed built)
      ∙ ap (λ count. send_all p ttl dst ((n.ctx.seq, lower) ∷ []) (spent count n)) one
      ∙ rw (encoded, send_all) refl

module _ (p : Primitives) (sound : IsSound p) (loop : Bool) (a b : MeshNode)
    (link : IsLink a b) where
  -- Two nodes share the network key and the IV Index, and the receiver has seen no SEQ of the
  -- sender from its cursor on. An access payload of at most 11 bytes that parses, sent to a 16-bit
  -- address with a 7-bit TTL and a SEQ left, under a 16-byte key that the receiver holds for the
  -- sender, leaves as one PDU and takes one SEQ. The receiver delivers from that PDU the opcode and
  -- the parameters, as a message of the sender, and notes the SEQ; nothing else of it changes.
  pub handle_network_pdu-send_access :
      (key : Bytes) (akf : Bool) (aid dst ttl opcode : ℕ) (payload params : Bytes) (dev_key : Bool)
      → tx_key dev_key dst a ≡ ok (key, akf, aid)
      → rx_key akf aid a.src b ≡ some key
      → IsKeyId akf aid
      → length key ≡ 16
      → a.ctx.seq < 2 ^ 24
      → dst < 2 ^ 16
      → ttl < 2 ^ 7
      → AllBytes payload
      → length payload ≤ 11
      → parse_access payload ≡ ok (opcode, params)
      → (pdu : Bytes) × (send_access p dst payload dev_key ttl a
          ≡ (record (spent 1 a) { sent = a.sent ++ (pdu ∷ []) }, ok tt))
        × (handle_network_pdu p loop pdu b ≡ (
          deliver
              (record { src = a.src; opcode = opcode; params = params })
              (record b { last_rx_seq = set a.src a.ctx.seq b.last_rx_seq }),
          ok tt,
        ))
  handle_network_pdu-send_access key akf aid dst ttl opcode payload params dev_key keyed opens id
        size room dst_fits ttl_fits b' short read =
      let (upper, sealed, plain, upper_size, nonced) =
        decrypt_access-encrypt_access p sound key akf a.ctx.seq a.src dst a.iv_index payload []
          (record {
            key_size = size;
            seq_fits = room;
            src_fits = link.src_fits;
            dst_fits = dst_fits;
            iv_index_fits = link.iv_index_fits;
            pdu_fits = omega arith;
            label_size = inl refl;
          }) in
      let (lower, built, parsed) =
        parse_access_lower-build_unsegmented_access upper akf aid id (omega (arith, upper_size))
          (omega (arith, upper_size)) in
      let (lower_bytes, lower_size) =
        build_unsegmented_access-octets upper akf aid lower id
          (encrypt_access-AllBytes p sound key akf a.ctx.seq a.src dst a.iv_index payload upper b'
            sealed)
          built in
      let (pdu, encoded, handled) =
        handle_network_pdu-encode p sound loop a b link (a.ctx.seq + 1) ttl a.ctx.seq dst lower
          (omega arith)
          (record {
            ttl_fits = omega arith;
            seq_fits = omega arith;
            src_fits = omega (arith, link.src_fits);
            dst_fits = omega arith;
            pdu_not_empty = omega (arith, lower_size);
            pdu_fits = omega (arith, lower_size, upper_size);
            pdu_bytes = lower_bytes;
          }) in
      let b'' : MeshNode = record b { last_rx_seq = set a.src a.ctx.seq b.last_rx_seq } in
      let plain' : decrypt_access p key akf a.ctx.seq a.src dst b.iv_index upper [] ≡ ok payload =
        rw link.iv_index plain in
      (
        pdu,
        send_access-short p loop key akf aid dst ttl payload upper lower pdu dev_key a keyed room
            short sealed built encoded,
        handled
            ∙ handle_access-unsegmented p loop (access_pdu ttl a.ctx.seq a.src dst lower)
                (record { akf = akf; aid = aid; upper_pdu = upper }) key payload params opcode b''
                parsed (rx_key-seen akf aid a.src (set a.src a.ctx.seq b.last_rx_seq) b ∙ opens)
                plain' read,
      )
