-- ===== src/ProxyConfig.antt =====
-- src/btmesh/proxy_config.py: the messages that configure a proxy's address filter. A Python int
-- that the code checks against a range from 0 up is a ℕ here.
pub mod Laws
mod Tests
use ha_bluetooth_mesh.Prelude.{
  ℕ, ◌+◌, Bool, List, [], ◌∷◌, ◌++◌, ◌||◌, leb, ◌==◌, not, length, get_or, slice,
}
use ha_bluetooth_mesh.Prelude.Bytes.{Bytes, be, from_big}
use ha_bluetooth_mesh.Prelude.Outcome.{Result, ok, err, ◌>>=◌, ◌>>◌, require, proxy_config_error}

abbrev pub filter_accept_list : ℕ
filter_accept_list = 0x00

abbrev pub filter_reject_list : ℕ
filter_reject_list = 0x01

abbrev pub op_set_filter_type : ℕ
op_set_filter_type = 0x00

abbrev pub op_add_addresses : ℕ
op_add_addresses = 0x01

abbrev pub op_filter_status : ℕ
op_filter_status = 0x03

pub record FilterStatus : Type 0 where
  pub filter_type : ℕ
  pub list_size : ℕ

unfoldable pub set_filter_type : ℕ → Result Bytes
set_filter_type filter_type = do
  require (filter_type == filter_accept_list || filter_type == filter_reject_list)
      proxy_config_error
  ok (op_set_filter_type ∷ filter_type ∷ [])

-- The loop of `add_addresses`: `packed` and `count` so far, and the addresses left.
pub pack_addresses : Bytes → ℕ → List ℕ → Result (Bytes × ℕ)
pack_addresses packed count [] = ok (packed, count)
pack_addresses packed count (address ∷ addresses) = do
  require (leb address 0xFFFF) proxy_config_error
  pack_addresses (packed ++ be 2 address) (count + 1) addresses

unfoldable pub add_addresses : List ℕ → Result Bytes
add_addresses addresses = do
  (packed, count) ← pack_addresses [] 0 addresses
  require (not (count == 0)) proxy_config_error
  ok (op_add_addresses ∷ packed)

unfoldable pub parse_filter_status : Bytes → Result FilterStatus
parse_filter_status pdu = do
  require (length pdu == 4) proxy_config_error
  require (get_or pdu 0 0 == op_filter_status) proxy_config_error
  ok (record { filter_type = get_or pdu 1 0; list_size = from_big (slice 2 4 pdu) })
