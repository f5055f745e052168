-- ===== src/Network/RoundTrip.antt =====
-- A PDU that `encode` builds is the one that `decode` under the same keys reads.
use ha_bluetooth_mesh.Prelude.{
  ℕ, suc, ◌+◌, ◌*◌, ◌/◌, ◌%◌, ◌^◌, ◌≤◌, ◌<◌, bit_or, ◌≡◌, refl, sym, ap, ap₂, ◌∙◌, arith, ◌⊎◌, Bool,
  true, false, some, [], ◌∷◌, ◌++◌, ltb, bit, length, take, slice, length-append, length-take,
  take-append, take_all, drop-append, truthy, le→ltb, ==_refl, All-append, All-take, replicate,
}
use ha_bluetooth_mesh.Prelude.Bits.{bit_or_disjoint, bit_xor_byte}
use ha_bluetooth_mesh.Prelude.Bytes.{
  Bytes, IsByte, AllBytes, be, to_bytes_big-ok, from_big, from_big-be, length-be, be-AllBytes,
}
use ha_bluetooth_mesh.Prelude.Outcome.{ok}
use ha_bluetooth_mesh.Crypto.{Primitives, IsSound, aes_ecb, ccm_encrypt, ccm_decrypt}
use ha_bluetooth_mesh.Network.Context.{IsContext}
use ha_bluetooth_mesh.Network.{
  NetworkContext, DecodedNetworkPdu, ctl_ttl, network_nonce, pecb, xor, mic_len, encode, decode,
  decode_fields,
}

pub length-xor : (as' ms : Bytes) → length as' ≡ length ms → length (xor as' ms) ≡ length as'
unfolding xor
length-xor [] ms h = refl
length-xor (a ∷ as') [] h = absurd (omega arith)
length-xor (a ∷ as') (m ∷ ms) h = ap suc (length-xor as' ms (omega arith))

-- The keystream, taken off again.
pub xor-xor :
    (as' ms : Bytes)
    → length as' ≡ length ms
    → AllBytes as'
    → AllBytes ms
    → xor (xor as' ms) ms ≡ as'
unfolding xor
xor-xor [] ms h p q = refl
xor-xor (a ∷ as') [] h p q = absurd (omega arith)
xor-xor (a ∷ as') (m ∷ ms) h p q =
    ap₂ (λ (x : ℕ) (xs : Bytes). x ∷ xs) (bit_xor_byte a m p.0 q.0)
      (xor-xor as' ms (omega arith) p.1 q.1)

pub ctl_ttl_fields :
    (ctl : Bool) (ttl : ℕ)
    → ttl ≤ 0x7F
    → (ctl_ttl ctl ttl < 256)
      × (ctl_ttl ctl ttl / 2 ^ 7 ≡ bit ctl)
      × (ctl_ttl ctl ttl % 2 ^ 7 ≡ ttl)
unfolding ctl_ttl
ctl_ttl_fields true ttl h = omega (arith, bit_or_disjoint 7 1 ttl (omega arith))
ctl_ttl_fields false ttl h = omega (arith, bit_or_disjoint 7 0 ttl (omega arith))

truthy-bit : (b : Bool) → truthy (bit b) ≡ b
truthy-bit true = refl
truthy-bit false = refl

-- The header before obfuscation, and the nonce, as bytes.
abbrev header_of : Bool → ℕ → ℕ → ℕ → Bytes
header_of ctl ttl seq src = ctl_ttl ctl ttl ∷ (be 3 seq ++ be 2 src)

abbrev nonce_of : Bool → ℕ → ℕ → ℕ → ℕ → Bytes
nonce_of ctl ttl seq src iv =
    0x00 ∷ ctl_ttl ctl ttl ∷ (be 3 seq ++ (be 2 src ++ (0x00 ∷ 0x00 ∷ be 4 iv)))

network_nonce-ok :
    (ctl : Bool) (ttl seq src iv : ℕ)
    → iv < 2 ^ 32
    → network_nonce ctl ttl seq src iv ≡ ok (nonce_of ctl ttl seq src iv)
unfolding network_nonce
network_nonce-ok ctl ttl seq src iv h = rw (to_bytes_big-ok 4 iv h)

length-nonce_of : (ctl : Bool) (ttl seq src iv : ℕ) → length (nonce_of ctl ttl seq src iv) ≡ 13
unfolding be
length-nonce_of ctl ttl seq src iv = refl

length-header_of : (ctl : Bool) (ttl seq src : ℕ) → length (header_of ctl ttl seq src) ≡ 6
unfolding be
length-header_of ctl ttl seq src = refl

header_of-AllBytes :
    (ctl : Bool) (ttl seq src : ℕ) → ttl ≤ 0x7F → AllBytes (header_of ctl ttl seq src)
header_of-AllBytes ctl ttl seq src h = (
  (ctl_ttl_fields ctl ttl h).0,
  All-append IsByte (be 3 seq) (be 2 src) (be-AllBytes 3 seq) (be-AllBytes 2 src),
)

module _ (p : Primitives) (sound : IsSound p) where
  abbrev mask_of : Bytes → ℕ → Bytes → Bytes
  mask_of key iv random = take 6 (aes_ecb p key (replicate 5 0 ++ (be 4 iv ++ random)))

  pecb-ok :
      (key : Bytes) (iv : ℕ) (random : Bytes)
      → iv < 2 ^ 32
      → pecb p key iv random ≡ ok (mask_of key iv random)
  unfolding pecb
  pecb-ok key iv random h = rw (to_bytes_big-ok 4 iv h)

  mask_of_shape :
      (key : Bytes) (iv : ℕ) (random : Bytes)
      → length key ≡ 16
      → length random ≡ 7
      → (length (mask_of key iv random) ≡ 6) × AllBytes (mask_of key iv random)
  unfolding aes_ecb be
  mask_of_shape key iv random k r =
      let block = replicate 5 0 ++ (be 4 iv ++ random) in
      let size : length (p.ecb key block) ≡ 16 = sound.ecb_size key block k (omega (arith, r)) in
      (
        omega (arith, length-take 6 (p.ecb key block), size),
        All-take IsByte 6 _ (sound.ecb_bytes key block),
      )

-- The fields that `encode` checks, and what it writes for them.
pub record IsSendable (ctl : Bool) (ttl seq src dst : ℕ) (transport_pdu : Bytes) : Type 0 where
  pub ttl_fits : ttl ≤ 0x7F
  pub seq_fits : seq ≤ 0xFFFFFF
  pub src_fits : src ≤ 0xFFFF
  pub dst_fits : dst ≤ 0xFFFF
  pub pdu_not_empty : 0 < length transport_pdu
  pub pdu_fits : length transport_pdu + 2 < 2 ^ 16
  pub pdu_bytes : AllBytes transport_pdu

module _ (p : Primitives) (sound : IsSound p) (ctx : NetworkContext) (ready : IsContext ctx)
    (ctl : Bool) (ttl seq src dst : ℕ) (transport_pdu : Bytes)
    (sendable : IsSendable ctl ttl seq src dst transport_pdu) where
  abbrev fields : DecodedNetworkPdu
  fields = record {
    ctl = ctl;
    ttl = ttl;
    seq = seq;
    src = src;
    dst = dst;
    transport_pdu = transport_pdu;
  }

  abbrev header : Bytes
  header = header_of ctl ttl seq src

  abbrev nonce : Bytes
  nonce = nonce_of ctl ttl seq src ctx.iv_index

  abbrev plaintext : Bytes
  plaintext = be 2 dst ++ transport_pdu

  mic_cases : (mic_len ctl ≡ 4) ⊎ (mic_len ctl ≡ 8)
  unfolding mic_len
  mic_cases = ground arith

  seal :
      (sealed : Bytes) × (p.ccm_seal ctx.encryption_key (mic_len ctl) nonce plaintext []
        ≡ some sealed)
  seal =
      sound.seal_works ctx.encryption_key (mic_len ctl) nonce plaintext [] ready.encryption_key_size
        mic_cases (length-nonce_of ctl ttl seq src ctx.iv_index)
        (omega (arith, length-append (be 2 dst) transport_pdu, length-be 2 dst))

  abbrev sealed : Bytes
  sealed = seal.0

  abbrev mask : Bytes
  mask = mask_of p sound ctx.privacy_key ctx.iv_index (take 7 sealed)

  abbrev raw : Bytes
  raw = bit_or (ctx.iv_index % 2 * 2 ^ 7) ctx.nid ∷ (xor header mask ++ sealed)

  encode-raw : encode p ctx ctl ttl seq src dst transport_pdu ≡ ok raw
  unfolding encode ccm_encrypt
  encode-raw =
      rw
        (
          network_nonce-ok ctl ttl seq src ctx.iv_index ready.iv_index_fits,
          seal.1,
          pecb-ok p sound ctx.privacy_key ctx.iv_index (take 7 sealed) ready.iv_index_fits,
        )
        (ground arith)

  sealed_size : length sealed ≡ 2 + length transport_pdu + mic_len ctl
  sealed_size =
      sound.seal_size ctx.encryption_key (mic_len ctl) nonce plaintext [] sealed seal.1
      ∙ omega (arith, length-append (be 2 dst) transport_pdu, length-be 2 dst)

  mask_shape : (length mask ≡ 6) × AllBytes mask
  mask_shape =
      mask_of_shape p sound ctx.privacy_key ctx.iv_index (take 7 sealed) ready.privacy_key_size
        (omega (arith, length-take 7 sealed, sealed_size, mic_cases))

  obscured_size : length (xor header mask) ≡ 6
  obscured_size =
      length-xor header mask (length-header_of ctl ttl seq src ∙ sym mask_shape.0)
      ∙ length-header_of ctl ttl seq src

  first_octet :
      (bit_or (ctx.iv_index % 2 * 2 ^ 7) ctx.nid % 2 ^ 7 ≡ ctx.nid)
      × (bit_or (ctx.iv_index % 2 * 2 ^ 7) ctx.nid / 2 ^ 7 ≡ ctx.iv_index % 2)
  first_octet =
      omega (arith, bit_or_disjoint 7 (ctx.iv_index % 2) ctx.nid ready.nid_fits, ready.nid_fits)

  ctl_read : truthy (ctl_ttl ctl ttl / 2 ^ 7) ≡ ctl
  ctl_read = rw (ctl_ttl_fields ctl ttl sendable.ttl_fits).1 (truthy-bit ctl)

  seq_read : from_big (slice 1 4 header) ≡ seq
  seq_read =
      ap from_big (take-append 3 (be 3 seq) (be 2 src) (length-be 3 seq))
      ∙ from_big-be 3 seq (omega (arith, sendable.seq_fits))

  src_read : from_big (slice 4 6 header) ≡ src
  src_read =
      ap (λ (t : Bytes). from_big (take 2 t))
        (drop-append 3 (be 3 seq) (be 2 src) (length-be 3 seq))
      ∙ ap from_big (take_all 2 (be 2 src) (omega (arith, length-be 2 src)))
      ∙ from_big-be 2 src (omega (arith, sendable.src_fits))

  dst_read : from_big (take 2 plaintext) ≡ dst
  dst_read =
      ap from_big (take-append 2 (be 2 dst) transport_pdu (length-be 2 dst))
      ∙ from_big-be 2 dst (omega (arith, sendable.dst_fits))

  plaintext_size : ltb (length plaintext) 3 ≡ false
  plaintext_size = le→ltb (length plaintext) 3 (
      omega
        (arith, length-append (be 2 dst) transport_pdu, length-be 2 dst, sendable.pdu_not_empty))

  decode_fields-header : decode_fields p ctx header sealed ≡ ok fields
  unfolding decode_fields ccm_decrypt
  decode_fields-header = rw (
    ctl_read,
    (ctl_ttl_fields ctl ttl sendable.ttl_fits).2,
    seq_read,
    src_read,
    network_nonce-ok ctl ttl seq src ctx.iv_index ready.iv_index_fits,
    sound.open-seal ctx.encryption_key (mic_len ctl) nonce plaintext [] sealed seal.1,
    plaintext_size,
    dst_read,
    drop-append 2 (be 2 dst) transport_pdu (length-be 2 dst),
  )

  raw_size : length raw ≡ 9 + length transport_pdu + mic_len ctl
  raw_size = omega (arith, length-append (xor header mask) sealed, obscured_size, sealed_size)

  decode-raw : decode p ctx raw ≡ ok fields
  unfolding decode
  decode-raw =
      rw
        (
          le→ltb (length raw) 14 (omega (arith, raw_size, mic_cases, sendable.pdu_not_empty)),
          first_octet.0,
          ==_refl ctx.nid,
          first_octet.1,
          ==_refl (ctx.iv_index % 2),
          drop-append 6 (xor header mask) sealed obscured_size,
          pecb-ok p sound ctx.privacy_key ctx.iv_index (take 7 sealed) ready.iv_index_fits,
          take-append 6 (xor header mask) sealed obscured_size,
          xor-xor header mask (length-header_of ctl ttl seq src ∙ sym mask_shape.0)
              (header_of-AllBytes ctl ttl seq src sendable.ttl_fits) mask_shape.1,
        )
        decode_fields-header

  -- In a context made from a network key, `encode` of fields in range succeeds, and `decode` of
  -- what it gave, in the same context, returns exactly those fields. The PDU is 9 bytes and the
  -- NetMIC (8 bytes for a control message, 4 for an access message) longer than its payload.
  pub decode-encode :
      (pdu : Bytes) × (encode p ctx ctl ttl seq src dst transport_pdu ≡ ok pdu)
      × (decode p ctx pdu ≡ ok fields)
      × (length pdu ≡ 9 + length transport_pdu + mic_len ctl)
  decode-encode = (raw, encode-raw, decode-raw, raw_size)
