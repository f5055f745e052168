-- ===== src/Crypto.antt =====
-- src/btmesh/crypto.py: the security functions of the mesh, over the primitives of the package
-- `cryptography`, which are not part of this repository and enter as the parameter `Primitives`.

pub mod Sizes
pub mod Toy
use ha_bluetooth_mesh.Prelude.{
  ℕ, zero, suc, ◌+◌, ◌%◌, ◌^◌, ◌≤◌, ◌<◌, ◌≡◌, ◌⊎◌, Option, none, some, List, [], ◌∷◌, ◌++◌, length,
  drop, get_or, replicate,
}
use ha_bluetooth_mesh.Prelude.Bytes.{Bytes, AllBytes}
use ha_bluetooth_mesh.Prelude.Outcome.{Result, from_option, value_error}

-- AES-CMAC under a 16-byte key, AES on one block, and AES-CCM. `none` from `ccm_seal` is the
-- ValueError of a key, nonce or tag length that AESCCM refuses; `none` from `ccm_open` is that or
-- InvalidTag. The arguments of the last two: key, tag length, nonce, text, associated text.
pub record Primitives : Type 0 where
  pub cmac : Bytes → Bytes → Bytes
  pub ecb : Bytes → Bytes → Bytes
  pub ccm_seal : Bytes → ℕ → Bytes → Bytes → Bytes → Option Bytes
  pub ccm_open : Bytes → ℕ → Bytes → Bytes → Bytes → Option Bytes

-- What the package documents of them: sizes, bytes, that sealing works at the sizes the mesh uses,
-- and that opening undoes sealing.
pub record IsSound (p : Primitives) : Type 0 where
  pub cmac_size : (key text : Bytes) → length (p.cmac key text) ≡ 16
  pub cmac_bytes : (key text : Bytes) → AllBytes (p.cmac key text)
  pub ecb_size :
      (key block : Bytes) → length key ≡ 16 → length block ≡ 16 → length (p.ecb key block) ≡ 16
  pub ecb_bytes : (key block : Bytes) → AllBytes (p.ecb key block)
  pub seal_works :
      (key : Bytes) (tag : ℕ) (nonce text extra : Bytes)
      → length key ≡ 16
      → (tag ≡ 4) ⊎ (tag ≡ 8)
      → length nonce ≡ 13
      → length text < 2 ^ 16
      → (sealed : Bytes) × (p.ccm_seal key tag nonce text extra ≡ some sealed)
  pub seal_size :
      (key : Bytes) (tag : ℕ) (nonce text extra sealed : Bytes)
      → p.ccm_seal key tag nonce text extra ≡ some sealed
      → length sealed ≡ length text + tag
  pub seal_bytes :
      (key : Bytes) (tag : ℕ) (nonce text extra sealed : Bytes)
      → AllBytes text
      → p.ccm_seal key tag nonce text extra ≡ some sealed
      → AllBytes sealed
  pub open_bytes :
      (key : Bytes) (tag : ℕ) (nonce sealed extra text : Bytes)
      → AllBytes sealed
      → p.ccm_open key tag nonce sealed extra ≡ some text
      → AllBytes text
  pub open-seal :
      (key : Bytes) (tag : ℕ) (nonce text extra sealed : Bytes)
      → p.ccm_seal key tag nonce text extra ≡ some sealed
      → p.ccm_open key tag nonce sealed extra ≡ some text

abbrev pub zero_key : Bytes
zero_key = replicate 16 0

pub record K2Output : Type 0 where
  pub nid : ℕ
  pub encryption_key : Bytes
  pub privacy_key : Bytes

module _ (p : Primitives) where
  unfoldable pub aes_cmac : Bytes → Bytes → Bytes
  aes_cmac key text = p.cmac key text

  unfoldable pub aes_ecb : Bytes → Bytes → Bytes
  aes_ecb key block = p.ecb key block

  unfoldable pub s1 : Bytes → Bytes
  s1 m = aes_cmac zero_key m

  unfoldable pub k1 : Bytes → Bytes → Bytes → Bytes
  k1 n salt text = aes_cmac (aes_cmac salt n) text

  -- b"smk2" and the counters \x01, \x02, \x03
  unfoldable pub k2 : Bytes → Bytes → K2Output
  k2 n text =
      let salt = s1 (0x73 ∷ 0x6D ∷ 0x6B ∷ 0x32 ∷ []) in
      let t = aes_cmac salt n in
      let t1 = aes_cmac t (text ++ (0x01 ∷ [])) in
      let t2 = aes_cmac t (t1 ++ (text ++ (0x02 ∷ []))) in
      let t3 = aes_cmac t (t2 ++ (text ++ (0x03 ∷ []))) in
      record { nid = get_or t1 15 0 % 2 ^ 7; encryption_key = t2; privacy_key = t3 }

  -- b"smk3" and b"id64\x01"
  unfoldable pub k3 : Bytes → Bytes
  k3 n =
      let salt = s1 (0x73 ∷ 0x6D ∷ 0x6B ∷ 0x33 ∷ []) in
      let t = aes_cmac salt n in drop 8 (aes_cmac t (0x69 ∷ 0x64 ∷ 0x36 ∷ 0x34 ∷ 0x01 ∷ []))

  -- b"smk4" and b"id6\x01"
  unfoldable pub k4 : Bytes → ℕ
  k4 n =
      let salt = s1 (0x73 ∷ 0x6D ∷ 0x6B ∷ 0x34 ∷ []) in
      let t = aes_cmac salt n in get_or (aes_cmac t (0x69 ∷ 0x64 ∷ 0x36 ∷ 0x01 ∷ [])) 15 0 % 2 ^ 6

  -- The key, the nonce, the text, `mic_len` and the associated text.
  unfoldable pub ccm_encrypt : Bytes → Bytes → Bytes → ℕ → Bytes → Result Bytes
  ccm_encrypt key nonce text mic_len extra =
      from_option value_error (p.ccm_seal key mic_len nonce text extra)

  -- `none` is InvalidTag or ValueError, which every caller handles alike.
  unfoldable pub ccm_decrypt : Bytes → Bytes → Bytes → ℕ → Bytes → Option Bytes
  ccm_decrypt key nonce sealed mic_len extra = p.ccm_open key mic_len nonce sealed extra
