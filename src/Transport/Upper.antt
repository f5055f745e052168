-- ===== src/Transport/Upper.antt =====
-- The upper layer: what was encrypted is decrypted.
use ha_bluetooth_mesh.Prelude.{
  ℕ, ◌+◌, ◌^◌, ◌<◌, ◌≡◌, ◌⊎◌, inl, refl, arith, Bool, some, ◌∷◌, ◌++◌, if◌then◌else◌, length,
}
use ha_bluetooth_mesh.Prelude.Bytes.{Bytes, be, to_bytes_big-ok}
use ha_bluetooth_mesh.Prelude.Outcome.{ok}
use ha_bluetooth_mesh.Crypto.{Primitives, IsSound, ccm_encrypt, ccm_decrypt}
use ha_bluetooth_mesh.Transport.{access_nonce, check_label_uuid, encrypt_access, decrypt_access}

-- What the upper layer needs of its arguments.
pub record IsEncryptable (key : Bytes) (seq src dst iv_index : ℕ) (access_pdu label_uuid : Bytes)
    : Type 0 where
  pub key_size : length key ≡ 16
  pub seq_fits : seq < 2 ^ 24
  pub src_fits : src < 2 ^ 16
  pub dst_fits : dst < 2 ^ 16
  pub iv_index_fits : iv_index < 2 ^ 32
  pub pdu_fits : length access_pdu < 2 ^ 16
  pub label_size : (length label_uuid ≡ 0) ⊎ (length label_uuid ≡ 16)

abbrev nonce_of : Bool → ℕ → ℕ → ℕ → ℕ → Bytes
nonce_of akf seq src dst iv =
    (if akf then 0x01 else 0x02) ∷ 0x00 ∷ (be 3 seq ++ (be 2 src ++ (be 2 dst ++ be 4 iv)))

length-nonce_of : (akf : Bool) (seq src dst iv : ℕ) → length (nonce_of akf seq src dst iv) ≡ 13
unfolding be
length-nonce_of akf seq src dst iv = refl

access_nonce-ok :
    (akf : Bool) (seq src dst iv : ℕ)
    → seq < 2 ^ 24
    → src < 2 ^ 16
    → dst < 2 ^ 16
    → iv < 2 ^ 32
    → access_nonce akf seq src dst iv ≡ ok (nonce_of akf seq src dst iv)
unfolding access_nonce
access_nonce-ok akf seq src dst iv a b c d = rw (
  to_bytes_big-ok 3 seq a,
  to_bytes_big-ok 2 src b,
  to_bytes_big-ok 2 dst c,
  to_bytes_big-ok 4 iv d,
)

check_label_uuid-ok :
    (label : Bytes) → (length label ≡ 0) ⊎ (length label ≡ 16) → check_label_uuid label ≡ ok tt
unfolding check_label_uuid
check_label_uuid-ok label h = ground arith

-- Under a 16-byte key, with addresses, SEQ and IV Index in range and no label or one of 16 bytes,
-- an access PDU is encrypted to one 4 bytes longer, and that is decrypted to the same access PDU. It
-- is sealed with a MIC of 4 bytes, the label beside it, under the nonce of 13 bytes that holds the
-- type, 0x01 for an application key and 0x02 for a device key, a 0 for ASZMIC, then the SEQ, the
-- source, the destination and the IV Index, the most significant byte first.
pub decrypt_access-encrypt_access :
    (p : Primitives)
    → IsSound p
    → (key : Bytes) (akf : Bool) (seq src dst iv_index : ℕ) (access_pdu label_uuid : Bytes)
    → IsEncryptable key seq src dst iv_index access_pdu label_uuid
    → (upper : Bytes) × (encrypt_access p key akf seq src dst iv_index access_pdu label_uuid
        ≡ ok upper)
      × (decrypt_access p key akf seq src dst iv_index upper label_uuid ≡ ok access_pdu)
      × (length upper ≡ length access_pdu + 4)
      × (p.ccm_seal key 4
            ((if akf then 0x01 else 0x02)
              ∷ 0x00
              ∷ (be 3 seq ++ (be 2 src ++ (be 2 dst ++ be 4 iv_index))))
            access_pdu
            label_uuid
          ≡ some upper)
unfolding encrypt_access decrypt_access ccm_encrypt ccm_decrypt
decrypt_access-encrypt_access p sound key akf seq src dst iv access_pdu label h =
    let nonce = nonce_of akf seq src dst iv in
    let made =
      access_nonce-ok akf seq src dst iv h.seq_fits h.src_fits h.dst_fits h.iv_index_fits in
    let labelled = check_label_uuid-ok label h.label_size in
    let (upper, sealed) =
      sound.seal_works key 4 nonce access_pdu label h.key_size (inl refl)
        (length-nonce_of akf seq src dst iv) h.pdu_fits in
    (
      upper,
      rw (labelled, made, sealed) refl,
      rw (labelled, made, sound.open-seal key 4 nonce access_pdu label upper sealed) refl,
      sound.seal_size key 4 nonce access_pdu label upper sealed,
      sealed,
    )
