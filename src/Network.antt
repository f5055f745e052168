-- ===== src/Network.antt =====
-- src/btmesh/network.py: the network layer, encryption, obfuscation and the PDU codec. A range
-- check from 0 up has only its upper half here, since a Python int that it checks is a ℕ. Where such
-- a check stands before a `to_bytes`, that cannot raise and is written `be`.
pub mod Context
pub mod Sequence
pub mod RoundTrip
pub mod Rejects
mod Tests
use ha_bluetooth_mesh.Prelude.{
  ℕ, zero, suc, ◌+◌, ◌-◌, ◌*◌, ◌/◌, ◌%◌, ◌^◌, bit_or, bit_xor, Bool, true, false, Option, none,
  some, List, [], ◌∷◌, ◌++◌, ltb, leb, ◌==◌, if◌then◌else◌, bit, truthy, not, length, take, drop,
  slice, get_or, replicate,
}
use ha_bluetooth_mesh.Prelude.Bytes.{Bytes, be, to_bytes_big, from_big}
use ha_bluetooth_mesh.Prelude.Outcome.{
  Result, ok, err, ◌>>=◌, ◌>>◌, require, from_option, network_error,
}
use ha_bluetooth_mesh.Crypto.{Primitives, K2Output, k2, aes_ecb, ccm_encrypt, ccm_decrypt}

-- `_MIN_PDU_LEN`
abbrev pub min_pdu_len : ℕ
min_pdu_len = 14

pub record DecodedNetworkPdu : Type 0 where
  pub ctl : Bool
  pub ttl : ℕ
  pub seq : ℕ
  pub src : ℕ
  pub dst : ℕ
  pub transport_pdu : Bytes

pub record NetworkContext : Type 0 where
  pub net_key : Bytes
  pub iv_index : ℕ
  pub seq : ℕ
  pub nid : ℕ
  pub encryption_key : Bytes
  pub privacy_key : Bytes

-- `__post_init__` derives the three keys.
unfoldable pub network_context : Primitives → Bytes → ℕ → ℕ → NetworkContext
network_context p net_key iv_index seq =
    let keys = k2 p net_key (0x00 ∷ []) in
    record {
      net_key = net_key;
      iv_index = iv_index;
      seq = seq;
      nid = keys.nid;
      encryption_key = keys.encryption_key;
      privacy_key = keys.privacy_key;
    }

-- The context after the call, and the first SEQ of the block or the exception.
unfoldable pub next_seq : NetworkContext → ℕ → NetworkContext × Result ℕ
next_seq ctx count =
    if ltb count 1
    then (ctx, err network_error)
    else if ltb 0xFFFFFF (ctx.seq + count - 1)
    then (ctx, err network_error)
    else (record ctx { seq = ctx.seq + count }, ok ctx.seq)

-- `(ctl << 7) | ttl`
unfoldable pub ctl_ttl : Bool → ℕ → ℕ
ctl_ttl ctl ttl = bit_or (bit ctl * 2 ^ 7) ttl

-- `_network_nonce`; `ttl`, `seq` and `src` are in range at both calls, `iv_index` need not be.
unfoldable pub network_nonce : Bool → ℕ → ℕ → ℕ → ℕ → Result Bytes
network_nonce ctl ttl seq src iv_index = do
  iv ← to_bytes_big 4 iv_index
  ok (0x00 ∷ ctl_ttl ctl ttl ∷ (be 3 seq ++ (be 2 src ++ (0x00 ∷ 0x00 ∷ iv))))

-- `_pecb`, the obfuscation keystream
unfoldable pub pecb : Primitives → Bytes → ℕ → Bytes → Result Bytes
pecb p privacy_key iv_index privacy_random = do
  iv ← to_bytes_big 4 iv_index
  ok (take 6 (aes_ecb p privacy_key (replicate 5 0 ++ (iv ++ privacy_random))))

-- `_xor`: `zip` stops at the shorter one.
unfoldable pub xor : Bytes → Bytes → Bytes
xor [] bs = []
xor (a ∷ as') [] = []
xor (a ∷ as') (b ∷ bs) = bit_xor a b ∷ xor as' bs

-- `8 if ctl else 4`
unfoldable pub mic_len : Bool → ℕ
mic_len ctl = if ctl then 8 else 4

module _ (p : Primitives) (ctx : NetworkContext) where
  unfoldable pub encode : Bool → ℕ → ℕ → ℕ → ℕ → Bytes → Result Bytes
  encode ctl ttl seq src dst transport_pdu = do
    require (leb ttl 0x7F) network_error
    require (leb seq 0xFFFFFF) network_error
    require (leb src 0xFFFF) network_error
    require (leb dst 0xFFFF) network_error
    require (not (length transport_pdu == 0)) network_error
    let ivi = ctx.iv_index % 2
    let header = ctl_ttl ctl ttl ∷ (be 3 seq ++ be 2 src)
    nonce ← network_nonce ctl ttl seq src ctx.iv_index
    encrypted ← ccm_encrypt p ctx.encryption_key nonce (be 2 dst ++ transport_pdu) (mic_len ctl) []
    mask ← pecb p ctx.privacy_key ctx.iv_index (take 7 encrypted)
    ok (bit_or (ivi * 2 ^ 7) ctx.nid ∷ (xor header mask ++ encrypted))

  -- The fields behind the deobfuscated header.
  unfoldable pub decode_fields : Bytes → Bytes → Result DecodedNetworkPdu
  decode_fields header encrypted = do
    let ctl = truthy (get_or header 0 0 / 2 ^ 7)
    let ttl = get_or header 0 0 % 2 ^ 7
    let seq = from_big (slice 1 4 header)
    let src = from_big (slice 4 6 header)
    nonce ← network_nonce ctl ttl seq src ctx.iv_index
    plaintext ←
        from_option network_error
          (ccm_decrypt p ctx.encryption_key nonce encrypted (mic_len ctl) [])
    require (not (ltb (length plaintext) 3)) network_error
    ok (record {
      ctl = ctl;
      ttl = ttl;
      seq = seq;
      src = src;
      dst = from_big (take 2 plaintext);
      transport_pdu = drop 2 plaintext;
    })

  unfoldable pub decode : Bytes → Result DecodedNetworkPdu
  decode raw = do
    require (not (ltb (length raw) min_pdu_len)) network_error
    require (get_or raw 0 0 % 2 ^ 7 == ctx.nid) network_error
    require (get_or raw 0 0 / 2 ^ 7 == ctx.iv_index % 2) network_error
    let encrypted = drop 7 raw
    mask ← pecb p ctx.privacy_key ctx.iv_index (take 7 encrypted)
    decode_fields (xor (slice 1 7 raw) mask) encrypted
