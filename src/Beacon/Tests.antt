-- ===== src/Beacon/Tests.antt =====
-- Concrete runs over toy primitives, and the theorems at concrete inputs.
use ha_bluetooth_mesh.Prelude.{
  ◌≡◌, arith, refl, true, false, [], ◌∷◌, length, take, drop, slice, get_or, bytes_eq,
}
use ha_bluetooth_mesh.Prelude.Bytes.{Bytes, from_big}
use ha_bluetooth_mesh.Prelude.Outcome.{ok, err, beacon_error}
use ha_bluetooth_mesh.Crypto.{k1, k3, s1, aes_cmac}
use ha_bluetooth_mesh.Crypto.Toy.{toy, toy-IsSound}
use ha_bluetooth_mesh.Beacon.{
  SecureNetworkBeacon, beacon_type_secure_network, beacon_key, auth, parse_secure_network_beacon,
  build_secure_network_beacon,
}
use ha_bluetooth_mesh.Beacon.Laws.{parse-build_secure_network_beacon, parse_accepts}

abbrev key : Bytes
key = 1 ∷ 2 ∷ 3 ∷ []

abbrev announced : Bytes
announced =
    0x01 ∷ 0x02 ∷ 0x11 ∷ 0x11 ∷ 0x11 ∷ 0x11 ∷ 0x11 ∷ 0x11 ∷ 0x11 ∷ 0x11 ∷ 0 ∷ 0 ∷ 0 ∷ 6 ∷ 0x11
    ∷ 0x11 ∷ 0x11 ∷ 0x11 ∷ 0x11 ∷ 0x11 ∷ 0x11 ∷ 0x11 ∷ []

abbrev heard : SecureNetworkBeacon
heard = record {
  key_refresh = false;
  iv_update = true;
  network_id = 0x11 ∷ 0x11 ∷ 0x11 ∷ 0x11 ∷ 0x11 ∷ 0x11 ∷ 0x11 ∷ 0x11 ∷ [];
  iv_index = 6;
}

parse_announced : parse_secure_network_beacon toy key announced ≡ ok heard
unfolding parse_secure_network_beacon auth beacon_key k1 k3 s1 aes_cmac toy from_big bytes_eq
parse_announced = refl

parse_short : parse_secure_network_beacon toy key (0x01 ∷ []) ≡ err beacon_error
unfolding parse_secure_network_beacon
parse_short = refl

parse-build_secure_network_beacon_example :
    (payload : Bytes) × (build_secure_network_beacon toy key 6 false true ≡ ok payload)
    × (parse_secure_network_beacon toy key payload
        ≡ ok (record {
          key_refresh = false;
          iv_update = true;
          network_id = k3 toy key;
          iv_index = 6;
        }))
parse-build_secure_network_beacon_example =
    parse-build_secure_network_beacon toy toy-IsSound key 6 false true (omega arith)

parse_accepts_example :
    (length announced ≡ 22)
    × (get_or announced 0 0 ≡ beacon_type_secure_network)
    × (heard.network_id ≡ k3 toy key)
    × (drop 14 announced ≡ take 8 (aes_cmac toy (beacon_key toy key) (slice 1 14 announced)))
parse_accepts_example = parse_accepts toy toy-IsSound key announced heard parse_announced
