-- ===== src/ProxyConfig/Tests.antt =====
-- The theorems at concrete inputs.
use ha_bluetooth_mesh.Prelude.{◌≡◌, refl, [], ◌∷◌}
use ha_bluetooth_mesh.Prelude.Bytes.{be}
use ha_bluetooth_mesh.Prelude.Outcome.{ok, err, proxy_config_error}
use ha_bluetooth_mesh.ProxyConfig.{set_filter_type, pack_addresses, add_addresses}

set_filter_type_unknown : set_filter_type 2 ≡ err proxy_config_error
unfolding set_filter_type
set_filter_type_unknown = refl

add_addresses_two :
    add_addresses (0x7FFF ∷ 0xC000 ∷ []) ≡ ok (0x01 ∷ 0x7F ∷ 0xFF ∷ 0xC0 ∷ 0x00 ∷ [])
unfolding add_addresses pack_addresses be
add_addresses_two = refl
