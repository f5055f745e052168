-- ===== src/Access/Tests.antt =====
-- The Access theorems at concrete messages.
use ha_bluetooth_mesh.Prelude.{◌≡◌, refl, arith, [], ◌∷◌, ◌++◌}
use ha_bluetooth_mesh.Prelude.Bytes.{Bytes, from_big}
use ha_bluetooth_mesh.Prelude.Outcome.{ok, err, access_error}
use ha_bluetooth_mesh.Access.{encode_opcode, opcode_size, parse_access}
use ha_bluetooth_mesh.Access.Opcodes.{encode_opcode-parse_access}
use ha_bluetooth_mesh.Access.Composition.{
  CompositionData, parse_composition_data_status, op_config_composition_data_status,
}
use ha_bluetooth_mesh.Access.Composition.Fuel.{parse_composition_data_status-error}
use ha_bluetooth_mesh.Access.Composition.Laws.{
  IsElement, IsComposition, composition_octets, parse_composition_data_status-octets,
}

encode_opcode-parse_access_example :
    (octets : Bytes) × (encode_opcode 0xC2367D ≡ ok octets)
    × (octets ++ (1 ∷ []) ≡ 0xC2 ∷ 0x36 ∷ 0x7D ∷ 1 ∷ [])
unfolding parse_access opcode_size from_big
encode_opcode-parse_access_example =
    encode_opcode-parse_access (0xC2 ∷ 0x36 ∷ 0x7D ∷ 1 ∷ []) 0xC2367D (1 ∷ []) (omega arith) refl

abbrev a_key : Bytes
a_key = 1 ∷ 2 ∷ 3 ∷ 4 ∷ 5 ∷ 6 ∷ 7 ∷ 8 ∷ 9 ∷ 10 ∷ 11 ∷ 12 ∷ 13 ∷ 14 ∷ 15 ∷ 16 ∷ []

cut_short : parse_composition_data_status (2 ∷ 0 ∷ []) ≡ err access_error
unfolding parse_composition_data_status parse_access opcode_size from_big
cut_short = refl

parse_composition_data_status-error_example : access_error ≡ access_error
parse_composition_data_status-error_example =
    parse_composition_data_status-error (2 ∷ 0 ∷ []) access_error cut_short

abbrev a_lamp : CompositionData
a_lamp = record {
  page = 0;
  cid = 0x0136;
  pid = 1;
  vid = 2;
  crpl = 10;
  features = 3;
  elements =
      record { loc = 0; sig_models = 0x0000 ∷ 0x1000 ∷ []; vendor_models = (0x0136, 1) ∷ [] }
      ∷ record { loc = 1; sig_models = 0x1002 ∷ []; vendor_models = [] }
      ∷ [];
}

parse_composition_data_status-octets_example :
    parse_composition_data_status (op_config_composition_data_status ∷ composition_octets a_lamp)
    ≡ ok a_lamp
unfolding IsComposition IsElement
parse_composition_data_status-octets_example =
    parse_composition_data_status-octets a_lamp (ground arith)
