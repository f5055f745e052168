-- ===== src/ProvPdu/Tests.antt =====
-- The Provisioning PDU theorems at concrete PDUs.
use ha_bluetooth_mesh.Prelude.{◌≡◌, arith}
use ha_bluetooth_mesh.Prelude.Bytes.{Bytes}
use ha_bluetooth_mesh.Prelude.Outcome.{ok}
use ha_bluetooth_mesh.ProvPdu.{ProvisioningPdu, capabilities, encode, decode}
use ha_bluetooth_mesh.ProvPdu.Laws.{IsValid, decode_lem}

abbrev two_elements : ProvisioningPdu
two_elements = capabilities 2 1 0 0 0 0 0 0

decode_lem_example :
    (octets : Bytes) × (encode two_elements ≡ ok octets) × (decode octets ≡ ok two_elements)
unfolding IsValid
decode_lem_example = decode_lem two_elements (omega arith)
