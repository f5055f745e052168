-- ===== src/Beacon.antt =====
-- src/btmesh/beacon.py: the Secure Network Beacon. The range check of `build_secure_network_beacon`
-- has only its upper half here, since an IV Index is a ℕ.
pub mod Laws
mod Tests
use ha_bluetooth_mesh.Prelude.{
  ℕ, ◌+◌, ◌/◌, ◌%◌, ◌^◌, bit_or, Bool, List, [], ◌∷◌, ◌++◌, leb, ◌==◌, if◌then◌else◌, truthy,
  length, take, drop, slice, get_or, bytes_eq,
}
use ha_bluetooth_mesh.Prelude.Bytes.{Bytes, be, from_big}
use ha_bluetooth_mesh.Prelude.Outcome.{Result, ok, err, ◌>>=◌, ◌>>◌, require, beacon_error}
use ha_bluetooth_mesh.Crypto.{Primitives, aes_cmac, k1, k3, s1}

abbrev pub beacon_type_secure_network : ℕ
beacon_type_secure_network = 0x01

abbrev pub flag_key_refresh : ℕ
flag_key_refresh = 0x01

abbrev pub flag_iv_update : ℕ
flag_iv_update = 0x02

abbrev pub auth_len : ℕ
auth_len = 8

abbrev pub beacon_len : ℕ
beacon_len = 22

pub record SecureNetworkBeacon : Type 0 where
  pub key_refresh : Bool
  pub iv_update : Bool
  pub network_id : Bytes
  pub iv_index : ℕ

module _ (p : Primitives) (net_key : Bytes) where
  -- b"nkbk" and b"id128\x01"
  unfoldable pub beacon_key : Bytes
  beacon_key =
      k1 p net_key (s1 p (0x6E ∷ 0x6B ∷ 0x62 ∷ 0x6B ∷ []))
        (0x69 ∷ 0x64 ∷ 0x31 ∷ 0x32 ∷ 0x38 ∷ 0x01 ∷ [])

  -- `_auth`
  unfoldable pub auth : Bytes → Bytes
  auth body = take auth_len (aes_cmac p beacon_key body)

  -- Bit 0 of the flags is `flags & _FLAG_KEY_REFRESH`, bit 1 `flags & _FLAG_IV_UPDATE`.
  unfoldable pub parse_secure_network_beacon : Bytes → Result SecureNetworkBeacon
  parse_secure_network_beacon payload = do
    require (length payload == beacon_len) beacon_error
    require (get_or payload 0 0 == beacon_type_secure_network) beacon_error
    let body = slice 1 14 payload
    let network_id = slice 2 10 payload
    require (bytes_eq network_id (k3 p net_key)) beacon_error
    require (bytes_eq (auth body) (drop 14 payload)) beacon_error
    let flags = get_or payload 1 0
    ok (record {
      key_refresh = truthy (flags % 2);
      iv_update = truthy (flags / 2 % 2);
      network_id = network_id;
      iv_index = from_big (slice 10 14 payload);
    })

  unfoldable pub build_secure_network_beacon : ℕ → Bool → Bool → Result Bytes
  build_secure_network_beacon iv_index key_refresh iv_update = do
    require (leb iv_index 0xFFFFFFFF) beacon_error
    let flags =
        bit_or (if key_refresh then flag_key_refresh else 0)
          (if iv_update then flag_iv_update else 0)
    let body = flags ∷ (k3 p net_key ++ be 4 iv_index)
    ok (beacon_type_secure_network ∷ (body ++ auth body))
