-- ===== src/Beacon/Laws.antt =====
-- Beacons of the own network are read back, and what is accepted is authentic.
use ha_bluetooth_mesh.Prelude.{
  ℕ, ◌/◌, ◌%◌, ◌^◌, ◌<◌, bit_or, ◌≡◌, refl, sym, ap, ◌∙◌, arith, Bool, true, false, ◌∷◌, ◌++◌, ◌==◌,
  if◌then◌else◌, truthy, length, take, drop, slice, get_or, bytes_eq, bytes_eq_refl, bytes_eq→eq,
  length-append, length-take, take-append, drop-append, append_assoc,
}
use ha_bluetooth_mesh.Prelude.Bytes.{Bytes, be, from_big, from_big-be, length-be}
use ha_bluetooth_mesh.Prelude.Outcome.{ok, require-ok, beacon_error}
use ha_bluetooth_mesh.Crypto.{Primitives, IsSound, aes_cmac, k3}
use ha_bluetooth_mesh.Crypto.Sizes.{length-k3}
use ha_bluetooth_mesh.Beacon.{
  SecureNetworkBeacon, beacon_key, auth, parse_secure_network_beacon, build_secure_network_beacon,
  beacon_len, beacon_type_secure_network, flag_key_refresh, flag_iv_update,
}

abbrev flags_of : Bool → Bool → ℕ
flags_of key_refresh iv_update =
    bit_or (if key_refresh then flag_key_refresh else 0) (if iv_update then flag_iv_update else 0)

flags_read :
    (key_refresh iv_update : Bool)
    → (truthy (flags_of key_refresh iv_update % 2) ≡ key_refresh)
      × (truthy (flags_of key_refresh iv_update / 2 % 2) ≡ iv_update)
flags_read true true = (refl, refl)
flags_read true false = (refl, refl)
flags_read false true = (refl, refl)
flags_read false false = (refl, refl)

module _ (p : Primitives) (sound : IsSound p) (net_key : Bytes) where
  length-auth : (body : Bytes) → length (auth p net_key body) ≡ 8
  unfolding auth aes_cmac
  length-auth body =
      let tag = p.cmac (beacon_key p net_key) body in
      length-take 8 tag ∙ omega (arith, sound.cmac_size (beacon_key p net_key) body)

  module _ (iv_index : ℕ) (flags : ℕ) (fits : iv_index < 2 ^ 32) where
    abbrev id : Bytes
    id = k3 p net_key

    abbrev tail : Bytes
    tail = id ++ be 4 iv_index

    tail_size : length tail ≡ 12
    tail_size =
        length-append id (be 4 iv_index)
        ∙ omega (arith, length-k3 p sound net_key, length-be 4 iv_index)

    abbrev body : Bytes
    body = flags ∷ tail

    abbrev payload : Bytes
    payload = beacon_type_secure_network ∷ (body ++ auth p net_key body)

    payload_size : length payload ≡ 22
    payload_size =
        omega (arith, length-append tail (auth p net_key body), tail_size, length-auth body)

    body_read : slice 1 14 payload ≡ body
    body_read = ap (λ (t : Bytes). flags ∷ t) (take-append 12 tail (auth p net_key body) tail_size)

    auth_read : drop 14 payload ≡ auth p net_key body
    auth_read = drop-append 12 tail (auth p net_key body) tail_size

    id_read : slice 2 10 payload ≡ id
    id_read =
        ap (take 8) (append_assoc id (be 4 iv_index) (auth p net_key body))
        ∙ take-append 8 id (be 4 iv_index ++ auth p net_key body) (length-k3 p sound net_key)

    iv_read : from_big (slice 10 14 payload) ≡ iv_index
    iv_read =
        ap (λ (t : Bytes). from_big (take 4 (drop 8 t)))
          (append_assoc id (be 4 iv_index) (auth p net_key body))
        ∙ ap (λ (t : Bytes). from_big (take 4 t))
            (drop-append 8 id (be 4 iv_index ++ auth p net_key body) (length-k3 p sound net_key))
        ∙ ap from_big (take-append 4 (be 4 iv_index) (auth p net_key body) (length-be 4 iv_index))
        ∙ from_big-be 4 iv_index fits

  -- A beacon built for a network key with an IV Index of 32 bits is accepted under that key, and
  -- the flags, the Network ID of the key and the IV Index are read from it.
  pub parse-build_secure_network_beacon :
      (iv_index : ℕ) (key_refresh iv_update : Bool)
      → iv_index < 2 ^ 32
      → (payload : Bytes) × (build_secure_network_beacon p net_key iv_index key_refresh iv_update
          ≡ ok payload)
        × (parse_secure_network_beacon p net_key payload
            ≡ ok (record {
              key_refresh = key_refresh;
              iv_update = iv_update;
              network_id = k3 p net_key;
              iv_index = iv_index;
            }))
  unfolding parse_secure_network_beacon build_secure_network_beacon
  parse-build_secure_network_beacon iv_index key_refresh iv_update fits =
      let flags = flags_of key_refresh iv_update in
      (
        payload iv_index flags fits,
        ground arith,
        rw
            (
              payload_size iv_index flags fits,
              id_read iv_index flags fits,
              bytes_eq_refl (k3 p net_key),
              body_read iv_index flags fits,
              auth_read iv_index flags fits,
              bytes_eq_refl (auth p net_key (body iv_index flags fits)),
              (flags_read key_refresh iv_update).0,
              (flags_read key_refresh iv_update).1,
              iv_read iv_index flags fits,
            )
            refl,
      )

  -- Every accepted payload has 22 bytes and the beacon type, carries the Network ID of the key, and
  -- ends in the 8-byte authentication value of its bytes 1 to 13 under the beacon key.
  pub parse_accepts :
      (payload : Bytes) (beacon : SecureNetworkBeacon)
      → parse_secure_network_beacon p net_key payload ≡ ok beacon
      → (length payload ≡ 22)
        × (get_or payload 0 0 ≡ beacon_type_secure_network)
        × (beacon.network_id ≡ k3 p net_key)
        × (drop 14 payload ≡ take 8 (aes_cmac p (beacon_key p net_key) (slice 1 14 payload)))
  unfolding parse_secure_network_beacon auth
  parse_accepts payload beacon h =
      let (size, h1) = require-ok (length payload == beacon_len) beacon_error _ h in
      let (type, h2) =
        require-ok (get_or payload 0 0 == beacon_type_secure_network) beacon_error _ h1 in
      let (mine, h3) =
        require-ok (bytes_eq (slice 2 10 payload) (k3 p net_key)) beacon_error _ h2 in
      let (signed, h4) =
        require-ok (bytes_eq (auth p net_key (slice 1 14 payload)) (drop 14 payload)) beacon_error _
          h3 in
      let same = bytes_eq→eq (slice 2 10 payload) (k3 p net_key) mine in
      let tag = bytes_eq→eq (auth p net_key (slice 1 14 payload)) (drop 14 payload) signed in
      (ground arith, ground arith, cc (h4, same), sym tag)
