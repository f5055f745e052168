-- ===== src/Network/Tests.antt =====
-- Concrete runs over toy primitives, and the theorems at concrete inputs.
use ha_bluetooth_mesh.Prelude.{
  ◌+◌, ◌/◌, ◌%◌, ◌^◌, ◌≤◌, ◌≡◌, refl, arith, false, [], ◌∷◌, length, get_or,
}
use ha_bluetooth_mesh.Prelude.Bytes.{Bytes, be, to_bytes_big, from_big}
use ha_bluetooth_mesh.Prelude.Outcome.{ok, err, network_error}
use ha_bluetooth_mesh.Crypto.{k2, s1, aes_cmac, aes_ecb, ccm_encrypt, ccm_decrypt}
use ha_bluetooth_mesh.Crypto.Toy.{toy, toy-IsSound}
use ha_bluetooth_mesh.Network.{
  NetworkContext, DecodedNetworkPdu, network_context, ctl_ttl, network_nonce, pecb, xor, mic_len,
  encode, decode, decode_fields,
}
use ha_bluetooth_mesh.Network.Context.{IsContext, network_context-IsContext}
use ha_bluetooth_mesh.Network.Sequence.{allocate, IsRising, allocate-IsRising}
use ha_bluetooth_mesh.Network.RoundTrip.{IsSendable, decode-encode}
use ha_bluetooth_mesh.Network.Rejects.{IsInRange, decode_accepts}

abbrev key : Bytes
key = 1 ∷ 2 ∷ 3 ∷ []

abbrev ctx : NetworkContext
ctx = network_context toy key 5 100

ctx-IsContext : IsContext ctx
ctx-IsContext = network_context-IsContext toy toy-IsSound key 5 100 (omega arith)

abbrev hello : Bytes
hello = 0x01 ∷ 0x02 ∷ 0x03 ∷ []

hello-IsSendable : IsSendable false 7 100 0x7FFF 0x000C hello
hello-IsSendable = omega arith

abbrev on_air : Bytes
on_air =
    0x91 ∷ 0x5D ∷ 0x5A ∷ 0x5A ∷ 0x3E ∷ 0x25 ∷ 0xA5 ∷ 0x00 ∷ 0x0C ∷ 0x01 ∷ 0x02 ∷ 0x03 ∷ 0xAA ∷ 0xAA
    ∷ 0xAA ∷ 0xAA ∷ []

abbrev read : DecodedNetworkPdu
read = record { ctl = false; ttl = 7; seq = 100; src = 0x7FFF; dst = 0x000C; transport_pdu = hello }

encode-hello : encode toy ctx false 7 100 0x7FFF 0x000C hello ≡ ok on_air
unfolding encode network_context k2 s1 aes_cmac aes_ecb ccm_encrypt toy be to_bytes_big
    network_nonce ctl_ttl pecb xor mic_len
encode-hello = refl

decode-hello : decode toy ctx on_air ≡ ok read
unfolding decode decode_fields network_context k2 s1 aes_cmac aes_ecb ccm_decrypt toy be
    to_bytes_big from_big network_nonce ctl_ttl pecb xor mic_len
decode-hello = refl

-- One octet of the tag changed.
decode_forged :
    decode toy ctx (
      0x91 ∷ 0x5D ∷ 0x5A ∷ 0x5A ∷ 0x3E ∷ 0x25 ∷ 0xA5 ∷ 0x00 ∷ 0x0C ∷ 0x01 ∷ 0x02 ∷ 0x03 ∷ 0xAA
      ∷ 0xAA ∷ 0xAA ∷ 0xAB ∷ [])
    ≡ err network_error
unfolding decode decode_fields network_context k2 s1 aes_cmac aes_ecb ccm_decrypt toy be
    to_bytes_big from_big network_nonce ctl_ttl pecb xor mic_len
decode_forged = refl

decode-encode_example :
    (pdu : Bytes) × (encode toy ctx false 7 100 0x7FFF 0x000C hello ≡ ok pdu)
    × (decode toy ctx pdu ≡ ok read)
    × (length pdu ≡ 9 + 3 + mic_len false)
decode-encode_example =
    decode-encode toy toy-IsSound ctx ctx-IsContext false 7 100 0x7FFF 0x000C hello hello-IsSendable

decode_accepts_example :
    (14 ≤ length on_air)
    × (get_or on_air 0 0 % 2 ^ 7 ≡ ctx.nid)
    × (get_or on_air 0 0 / 2 ^ 7 ≡ ctx.iv_index % 2)
    × IsInRange read
decode_accepts_example = decode_accepts toy toy-IsSound ctx on_air read (omega arith) decode-hello

allocate-IsRising_example :
    IsRising ctx.seq (allocate ctx (3 ∷ 0 ∷ 1 ∷ [])).0.seq (allocate ctx (3 ∷ 0 ∷ 1 ∷ [])).1
    × (ctx.seq ≤ (allocate ctx (3 ∷ 0 ∷ 1 ∷ [])).0.seq)
    × ((allocate ctx (3 ∷ 0 ∷ 1 ∷ [])).0.seq ≤ 2 ^ 24)
unfolding network_context
allocate-IsRising_example = allocate-IsRising ctx (3 ∷ 0 ∷ 1 ∷ []) (omega arith)
