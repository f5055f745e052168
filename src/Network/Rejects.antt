-- ===== src/Network/Rejects.antt =====
-- What `decode` accepts, on any bytes.
use ha_bluetooth_mesh.Prelude.{
  ℕ, ◌-◌, ◌/◌, ◌%◌, ◌^◌, ◌≤◌, ◌<◌, ◌≡◌, subst, arith, inl, inr, some, [], ◌∷◌, ◌++◌, replicate,
  truthy, not, ltb, ◌==◌, length, take, drop, slice, get_or, length-take, length-drop, All-take,
  All-drop, Bool-cases,
}
use ha_bluetooth_mesh.Prelude.Bits.{bit_xor-IsByte}
use ha_bluetooth_mesh.Prelude.Bytes.{
  Bytes, IsByte, AllBytes, from_big, from_big-lt, to_bytes_big, to_bytes_big-ok, be,
}
use ha_bluetooth_mesh.Prelude.Outcome.{
  Error, ok, err, from_option, from_option-ok, require-ok, >>=-eq-ok, network_error,
}
use native.Mathlib.Nat.{le_trans, pow-le-pow_right}
use ha_bluetooth_mesh.Crypto.{Primitives, IsSound, aes_ecb, ccm_decrypt}
use ha_bluetooth_mesh.Network.{
  NetworkContext, DecodedNetworkPdu, min_pdu_len, network_nonce, pecb, xor, decode, decode_fields,
}

-- Ranges of the fields of a PDU that was read.
pub record IsInRange (pdu : DecodedNetworkPdu) : Type 0 where
  pub ttl_range : pdu.ttl < 2 ^ 7
  pub seq_range : pdu.seq < 2 ^ 24
  pub src_range : pdu.src < 2 ^ 16
  pub dst_range : pdu.dst < 2 ^ 16
  pub has_payload : 1 ≤ length pdu.transport_pdu
  pub payload_bytes : AllBytes pdu.transport_pdu

-- Any number of bytes, read as a number, cut to `n`.
from_big-take : (n : ℕ) (bs : Bytes) → AllBytes bs → from_big (take n bs) < 256 ^ length (take n bs)
from_big-take n bs h = from_big-lt (take n bs) (All-take IsByte n bs h)

module _ (p : Primitives) (sound : IsSound p) (ctx : NetworkContext) where
  -- The context cannot hold an IV Index that `to_bytes(4)` refuses.
  module _ (iv_fits : ctx.iv_index < 2 ^ 32) where
    decode_fields_error :
        (header encrypted : Bytes) (e : Error)
        → decode_fields p ctx header encrypted ≡ err e
        → e ≡ network_error
    unfolding decode_fields network_nonce
    decode_fields_error header encrypted e h =
        ground (arith, to_bytes_big-ok 4 ctx.iv_index iv_fits)

    -- With an IV Index of 32 bits, NetworkError is the only exception that `decode` raises,
    -- whatever the bytes.
    pub decode_error : (raw : Bytes) (e : Error) → decode p ctx raw ≡ err e → e ≡ network_error
    unfolding decode pecb
    decode_error raw e h =
        let block = replicate 5 0 ++ (be 4 ctx.iv_index ++ take 7 (drop 7 raw)) in
        let mask = take 6 (aes_ecb p ctx.privacy_key block) in
        ground (
          arith,
          to_bytes_big-ok 4 ctx.iv_index iv_fits,
          decode_fields_error (xor (slice 1 7 raw) mask) (drop 7 raw) e,
        )

  xor-AllBytes : (as' ms : Bytes) → AllBytes as' → AllBytes ms → AllBytes (xor as' ms)
  unfolding xor
  xor-AllBytes [] ms h k = tt
  xor-AllBytes (a ∷ as') [] h k = tt
  xor-AllBytes (a ∷ as') (m ∷ ms) h k = (bit_xor-IsByte a m h.0 k.0, xor-AllBytes as' ms h.1 k.1)

  abbrev read_fields : Bytes → Bytes → DecodedNetworkPdu
  read_fields header plaintext = record {
    ctl = truthy (get_or header 0 0 / 2 ^ 7);
    ttl = get_or header 0 0 % 2 ^ 7;
    seq = from_big (slice 1 4 header);
    src = from_big (slice 4 6 header);
    dst = from_big (take 2 plaintext);
    transport_pdu = drop 2 plaintext;
  }

  from_big-slice :
      (from to : ℕ) (bs : Bytes) → AllBytes bs → from_big (slice from to bs) < 256 ^ (to - from)
  from_big-slice from to bs h =
      let cut = slice from to bs in
      let short : length cut ≤ to - from = omega (arith, length-take (to - from) (drop from bs)) in
      le_trans
        (from_big-lt cut (All-take IsByte (to - from) (drop from bs) (All-drop IsByte from bs h)))
        (pow-le-pow_right (omega arith) short)

  read_fields-IsInRange :
      (header plaintext : Bytes)
      → AllBytes header
      → AllBytes plaintext
      → 3 ≤ length plaintext
      → IsInRange (read_fields header plaintext)
  read_fields-IsInRange header plaintext hb pb long = record {
    ttl_range = omega arith;
    seq_range = from_big-slice 1 4 header hb;
    src_range = from_big-slice 4 6 header hb;
    dst_range = from_big-slice 0 2 plaintext pb;
    has_payload = omega (arith, length-drop 2 plaintext);
    payload_bytes = All-drop IsByte 2 plaintext pb;
  }

  decode_fields-IsInRange :
      (header encrypted : Bytes) (pdu : DecodedNetworkPdu)
      → AllBytes header
      → AllBytes encrypted
      → decode_fields p ctx header encrypted ≡ ok pdu
      → IsInRange pdu
  unfolding decode_fields ccm_decrypt
  decode_fields-IsInRange header encrypted pdu hb eb h =
      let (nonce, _, h1) = >>=-eq-ok (network_nonce _ _ _ _ _) _ h in
      let (plaintext, opened, h2) = >>=-eq-ok (from_option network_error _) _ h1 in
      let opened' : p.ccm_open _ _ _ encrypted [] ≡ some plaintext =
        from_option-ok network_error _ opened in
      let pb : AllBytes plaintext = sound.open_bytes _ _ _ encrypted [] plaintext eb opened' in
      elim (Bool-cases (ltb (length plaintext) 3)) [
        | inl short ↦ absurd (cc (short, h2))
        | inr long ↦
            let same : read_fields header plaintext ≡ pdu = cc (long, h2) in
            subst IsInRange same (read_fields-IsInRange header plaintext hb pb (ground arith))
      ]

  pecb-AllBytes :
      (key : Bytes) (iv : ℕ) (random mask : Bytes) → pecb p key iv random ≡ ok mask → AllBytes mask
  unfolding pecb aes_ecb
  pecb-AllBytes key iv random mask h =
      let (ivb, _, h1) = >>=-eq-ok (to_bytes_big 4 iv) _ h in
      let same : take 6 (p.ecb key (replicate 5 0 ++ (ivb ++ random))) ≡ mask = cc h1 in
      subst AllBytes same (All-take IsByte 6 _ (sound.ecb_bytes key _))

  -- A PDU that `decode` accepts is at least 14 bytes long, its first octet carries the NID and the
  -- lowest bit of the IV Index of the context, and the fields read are in range, with a payload.
  pub decode_accepts :
      (raw : Bytes) (pdu : DecodedNetworkPdu)
      → AllBytes raw
      → decode p ctx raw ≡ ok pdu
      → (14 ≤ length raw)
        × (get_or raw 0 0 % 2 ^ 7 ≡ ctx.nid)
        × (get_or raw 0 0 / 2 ^ 7 ≡ ctx.iv_index % 2)
        × IsInRange pdu
  unfolding decode
  decode_accepts raw pdu rb h =
      let (long, h1) = require-ok (not (ltb (length raw) min_pdu_len)) network_error _ h in
      let (ours, h2) = require-ok (get_or raw 0 0 % 2 ^ 7 == ctx.nid) network_error _ h1 in
      let (current, h3) =
        require-ok (get_or raw 0 0 / 2 ^ 7 == ctx.iv_index % 2) network_error _ h2 in
      let (mask, masked, h4) =
        >>=-eq-ok (pecb p ctx.privacy_key ctx.iv_index (take 7 (drop 7 raw))) _ h3 in
      (
        ground arith,
        ground arith,
        ground arith,
        decode_fields-IsInRange (xor (slice 1 7 raw) mask) (drop 7 raw) pdu
            (xor-AllBytes (slice 1 7 raw) mask
              (All-take IsByte 6 (drop 1 raw) (All-drop IsByte 1 raw rb))
              (pecb-AllBytes _ _ _ mask masked))
            (All-drop IsByte 7 raw rb) h4,
      )
