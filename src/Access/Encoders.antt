-- ===== src/Access/Encoders.antt =====
-- The messages that src/btmesh/access.py encodes.
use ha_bluetooth_mesh.Prelude.{
  ℕ, ◌+◌, ◌-◌, ◌^◌, Bool, [], ◌∷◌, ◌++◌, leb, ◌==◌, if◌then◌else◌, bit, length, ◌&&◌,
}
use ha_bluetooth_mesh.Prelude.Bytes.{Bytes, le, from_big, to_bytes_little}
use ha_bluetooth_mesh.Prelude.Outcome.{Result, ok, ◌>>=◌, ◌>>◌, require, access_error}
use ha_bluetooth_mesh.Access.{encode_opcode, check_key_index, pack_key_indexes}

-- A signed integer, for CTL Delta UV: `neg n` is -(n + 1).
pub data Signed : Type 0 where
  pos : ℕ → Signed
  neg : ℕ → Signed

-- `n.to_bytes(2, "little", signed=True)` for an n of 16 bits
unfoldable pub le_signed : Signed → Bytes
le_signed (pos n) = le 2 n
le_signed (neg n) = le 2 (2 ^ 16 - (n + 1))

abbrev pub op_config_appkey_add : ℕ
op_config_appkey_add = 0x00

abbrev pub op_config_composition_data_get : ℕ
op_config_composition_data_get = 0x8008

abbrev pub op_config_model_app_bind : ℕ
op_config_model_app_bind = 0x803D

abbrev pub op_config_relay_get : ℕ
op_config_relay_get = 0x8026

abbrev pub op_generic_onoff_get : ℕ
op_generic_onoff_get = 0x8201

abbrev pub op_generic_onoff_set : ℕ
op_generic_onoff_set = 0x8202

abbrev pub op_generic_onoff_set_unack : ℕ
op_generic_onoff_set_unack = 0x8203

abbrev pub op_light_lightness_get : ℕ
op_light_lightness_get = 0x824B

abbrev pub op_light_lightness_set : ℕ
op_light_lightness_set = 0x824C

abbrev pub op_light_lightness_set_unack : ℕ
op_light_lightness_set_unack = 0x824D

abbrev pub op_light_ctl_get : ℕ
op_light_ctl_get = 0x825D

abbrev pub op_light_ctl_set : ℕ
op_light_ctl_set = 0x825E

abbrev pub op_light_ctl_set_unack : ℕ
op_light_ctl_set_unack = 0x825F

abbrev pub op_light_ctl_temperature_get : ℕ
op_light_ctl_temperature_get = 0x8261

abbrev pub op_light_ctl_temperature_range_get : ℕ
op_light_ctl_temperature_range_get = 0x8262

abbrev pub op_light_ctl_temperature_set : ℕ
op_light_ctl_temperature_set = 0x8264

abbrev pub op_light_ctl_temperature_set_unack : ℕ
op_light_ctl_temperature_set_unack = 0x8265

abbrev pub op_attention_get : ℕ
op_attention_get = 0x8004

abbrev pub op_node_reset : ℕ
op_node_reset = 0x8049

abbrev pub vd_group_g_set : ℕ
vd_group_g_set = 0xC2

abbrev pub vd_group_g_set_noack : ℕ
vd_group_g_set_noack = 0xC3

abbrev pub ctl_temp_min : ℕ
ctl_temp_min = 0x0320

abbrev pub ctl_temp_max : ℕ
ctl_temp_max = 0x4E20

unfoldable pub config_appkey_add : ℕ → ℕ → Bytes → Result Bytes
config_appkey_add netkey_idx appkey_idx appkey = do
  require (length appkey == 16) access_error
  opcode ← encode_opcode op_config_appkey_add
  indexes ← pack_key_indexes netkey_idx appkey_idx
  ok (opcode ++ (indexes ++ appkey))

unfoldable pub config_model_app_bind : ℕ → ℕ → ℕ → Result Bytes
config_model_app_bind element_addr appkey_idx model_id = do
  require (leb element_addr 0xFFFF) access_error
  check_key_index appkey_idx
  require (leb model_id 0xFFFF) access_error
  opcode ← encode_opcode op_config_model_app_bind
  ok (opcode ++ (le 2 element_addr ++ (le 2 appkey_idx ++ le 2 model_id)))

unfoldable pub config_model_app_bind_vendor : ℕ → ℕ → ℕ → ℕ → Result Bytes
config_model_app_bind_vendor element_addr appkey_idx company_id model_id = do
  require (leb element_addr 0xFFFF) access_error
  check_key_index appkey_idx
  require (leb company_id 0xFFFF) access_error
  require (leb model_id 0xFFFF) access_error
  opcode ← encode_opcode op_config_model_app_bind
  ok (opcode ++ (le 2 element_addr ++ (le 2 appkey_idx ++ (le 2 company_id ++ le 2 model_id))))

unfoldable pub vendor_opcode : ℕ → ℕ → Result ℕ
vendor_opcode op_byte company_id = do
  require (leb 0xC0 op_byte && leb op_byte 0xFF) access_error
  require (leb company_id 0xFFFF) access_error
  ok (from_big (op_byte ∷ le 2 company_id))

-- `company_id.to_bytes(2, "little")` is not guarded here or in `vendor_group_set`.
unfoldable pub vendor_group_onoff_set : ℕ → Bool → ℕ → Bool → Result Bytes
vendor_group_onoff_set company_id on tid ack = do
  require (leb tid 0xFF) access_error
  let op_byte = if ack then vd_group_g_set else vd_group_g_set_noack
  company ← to_bytes_little 2 company_id
  ok (op_byte ∷ (company ++ (bit on ∷ tid ∷ [])))

unfoldable pub vendor_group_set : ℕ → ℕ → Bytes → Bool → Result Bytes
vendor_group_set company_id sub_op params ack = do
  require (leb sub_op 0xFF) access_error
  let op_byte = if ack then vd_group_g_set else vd_group_g_set_noack
  company ← to_bytes_little 2 company_id
  ok (op_byte ∷ (company ++ (sub_op ∷ params)))

unfoldable pub attention_get : Result Bytes
attention_get = encode_opcode op_attention_get

unfoldable pub config_node_reset : Result Bytes
config_node_reset = encode_opcode op_node_reset

unfoldable pub config_relay_get : Result Bytes
config_relay_get = encode_opcode op_config_relay_get

unfoldable pub config_composition_data_get : ℕ → Result Bytes
config_composition_data_get page = do
  require (leb page 0xFF) access_error
  opcode ← encode_opcode op_config_composition_data_get
  ok (opcode ++ (page ∷ []))

unfoldable pub generic_onoff_get : Result Bytes
generic_onoff_get = encode_opcode op_generic_onoff_get

unfoldable pub generic_onoff_set : Bool → ℕ → Bool → Result Bytes
generic_onoff_set onoff tid ack = do
  require (leb tid 0xFF) access_error
  opcode ← encode_opcode (if ack then op_generic_onoff_set else op_generic_onoff_set_unack)
  ok (opcode ++ (bit onoff ∷ tid ∷ []))

unfoldable pub light_lightness_get : Result Bytes
light_lightness_get = encode_opcode op_light_lightness_get

unfoldable pub light_lightness_set : ℕ → ℕ → Bool → Result Bytes
light_lightness_set lightness tid ack = do
  require (leb lightness 0xFFFF) access_error
  require (leb tid 0xFF) access_error
  opcode ← encode_opcode (if ack then op_light_lightness_set else op_light_lightness_set_unack)
  ok (opcode ++ (le 2 lightness ++ (tid ∷ [])))

-- `_check_ctl_temperature`
unfoldable pub check_ctl_temperature : ℕ → Result (Unit {0})
check_ctl_temperature temperature =
    require (leb ctl_temp_min temperature && leb temperature ctl_temp_max) access_error

-- `_check_delta_uv`: -32768 to 32767
unfoldable pub check_delta_uv : Signed → Result (Unit {0})
check_delta_uv (pos n) = require (leb n 32767) access_error
check_delta_uv (neg n) = require (leb (n + 1) 32768) access_error

unfoldable pub light_ctl_get : Result Bytes
light_ctl_get = encode_opcode op_light_ctl_get

unfoldable pub light_ctl_temperature_get : Result Bytes
light_ctl_temperature_get = encode_opcode op_light_ctl_temperature_get

unfoldable pub light_ctl_temperature_range_get : Result Bytes
light_ctl_temperature_range_get = encode_opcode op_light_ctl_temperature_range_get

unfoldable pub light_ctl_set : ℕ → ℕ → Signed → ℕ → Bool → Result Bytes
light_ctl_set lightness temperature delta_uv tid ack = do
  require (leb lightness 0xFFFF) access_error
  check_ctl_temperature temperature
  check_delta_uv delta_uv
  require (leb tid 0xFF) access_error
  opcode ← encode_opcode (if ack then op_light_ctl_set else op_light_ctl_set_unack)
  ok (opcode ++ (le 2 lightness ++ (le 2 temperature ++ (le_signed delta_uv ++ (tid ∷ [])))))

unfoldable pub light_ctl_temperature_set : ℕ → Signed → ℕ → Bool → Result Bytes
light_ctl_temperature_set temperature delta_uv tid ack = do
  check_ctl_temperature temperature
  check_delta_uv delta_uv
  require (leb tid 0xFF) access_error
  opcode ←
      encode_opcode
        (if ack then op_light_ctl_temperature_set else op_light_ctl_temperature_set_unack)
  ok (opcode ++ (le 2 temperature ++ (le_signed delta_uv ++ (tid ∷ []))))
