-- ===== src/Crypto/Sizes.antt =====
-- The sizes of derived keys and identifiers.
use ha_bluetooth_mesh.Prelude.{◌<◌, ◌≡◌, arith, [], ◌∷◌, length, length-drop, All-drop}
use ha_bluetooth_mesh.Prelude.Bytes.{Bytes, IsByte, AllBytes}
use ha_bluetooth_mesh.Crypto.{Primitives, IsSound, aes_cmac, s1, k2, k3, k4}

module _ (p : Primitives) (sound : IsSound p) where
  pub k2_sizes :
      (n text : Bytes)
      → ((k2 p n text).nid < 128)
        × (length (k2 p n text).encryption_key ≡ 16)
        × (length (k2 p n text).privacy_key ≡ 16)
  unfolding k2 aes_cmac
  k2_sizes n text = (omega arith, sound.cmac_size _ _, sound.cmac_size _ _)

  pub length-k3 : (n : Bytes) → length (k3 p n) ≡ 8
  unfolding k3 aes_cmac
  length-k3 n =
      let tagged =
        aes_cmac p (aes_cmac p (s1 p (0x73 ∷ 0x6D ∷ 0x6B ∷ 0x33 ∷ [])) n)
          (0x69 ∷ 0x64 ∷ 0x36 ∷ 0x34 ∷ 0x01 ∷ []) in
      let size : length tagged ≡ 16 = sound.cmac_size _ _ in
      omega (arith, length-drop 8 tagged, size)

  pub k3-AllBytes : (n : Bytes) → AllBytes (k3 p n)
  unfolding k3 aes_cmac
  k3-AllBytes n = All-drop IsByte 8 (p.cmac _ _) (sound.cmac_bytes _ _)

  pub k4_bound : (n : Bytes) → k4 p n < 64
  unfolding k4
  k4_bound n = omega arith
