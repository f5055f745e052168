-- ===== src/Access/Decoders.antt =====
-- The Status messages that src/btmesh/access.py decodes.
use ha_bluetooth_mesh.Prelude.{
  ℕ, ◌+◌, ◌-◌, ◌/◌, ◌%◌, ◌^◌, Bool, Option, none, some, [], ◌∷◌, ltb, ◌==◌, if◌then◌else◌, not,
  length, slice, get_or,
}
use ha_bluetooth_mesh.Prelude.Bytes.{Bytes, from_little}
use ha_bluetooth_mesh.Prelude.Outcome.{Result, ok, ◌>>=◌}
use ha_bluetooth_mesh.Access.{expect_params, unpack_key_indexes}
use ha_bluetooth_mesh.Access.Encoders.{Signed, pos, neg}

abbrev pub op_config_appkey_status : ℕ
op_config_appkey_status = 0x8003

abbrev pub op_config_model_app_status : ℕ
op_config_model_app_status = 0x803E

abbrev pub op_config_relay_status : ℕ
op_config_relay_status = 0x8028

abbrev pub op_generic_onoff_status : ℕ
op_generic_onoff_status = 0x8204

abbrev pub op_light_lightness_status : ℕ
op_light_lightness_status = 0x824E

abbrev pub op_light_ctl_status : ℕ
op_light_ctl_status = 0x8260

abbrev pub op_light_ctl_temperature_range_status : ℕ
op_light_ctl_temperature_range_status = 0x8263

abbrev pub op_light_ctl_temperature_status : ℕ
op_light_ctl_temperature_status = 0x8266

pub record AppKeyStatus : Type 0 where
  pub status : ℕ
  pub netkey_idx : ℕ
  pub appkey_idx : ℕ

pub record ModelAppStatus : Type 0 where
  pub status : ℕ
  pub element_addr : ℕ
  pub appkey_idx : ℕ
  pub model_id : ℕ
  pub company_id : Option ℕ

pub record GenericOnOffStatus : Type 0 where
  pub present_onoff : ℕ
  pub target_onoff : Option ℕ
  pub remaining_time : Option ℕ

pub record LightLightnessStatus : Type 0 where
  pub present_lightness : ℕ
  pub target_lightness : Option ℕ
  pub remaining_time : Option ℕ

pub record LightCtlStatus : Type 0 where
  pub present_lightness : ℕ
  pub present_temperature : ℕ
  pub target_lightness : Option ℕ
  pub target_temperature : Option ℕ
  pub remaining_time : Option ℕ

pub record LightCtlTemperatureStatus : Type 0 where
  pub present_temperature : ℕ
  pub present_delta_uv : Signed
  pub target_temperature : Option ℕ
  pub target_delta_uv : Option Signed
  pub remaining_time : Option ℕ

pub record LightCtlTemperatureRangeStatus : Type 0 where
  pub status_code : ℕ
  pub range_min : ℕ
  pub range_max : ℕ

pub record RelayStatus : Type 0 where
  pub enabled : Bool
  pub supported : Bool
  pub retransmit_count : ℕ
  pub retransmit_interval_steps : ℕ

-- `int.from_bytes(params[i:i+2], "little")`
abbrev pub word_at : ℕ → Bytes → ℕ
word_at i params = from_little (slice i (i + 2) params)

-- A word as an int16.
unfoldable pub signed_word : ℕ → Signed
signed_word w = if ltb w (2 ^ 15) then pos w else neg (2 ^ 16 - w - 1)

unfoldable pub parse_config_appkey_status : Bytes → Result AppKeyStatus
parse_config_appkey_status payload = do
  params ← expect_params payload op_config_appkey_status (4 ∷ [])
  let (netkey_idx, appkey_idx) = unpack_key_indexes (slice 1 4 params)
  ok (record { status = get_or params 0 0; netkey_idx = netkey_idx; appkey_idx = appkey_idx })

unfoldable pub parse_config_model_app_status : Bytes → Result ModelAppStatus
parse_config_model_app_status payload = do
  params ← expect_params payload op_config_model_app_status (7 ∷ 9 ∷ [])
  let status = get_or params 0 0
  let element_addr = word_at 1 params
  let appkey_idx = word_at 3 params
  if length params == 7
      then ok (record {
        status = status;
        element_addr = element_addr;
        appkey_idx = appkey_idx;
        model_id = word_at 5 params;
        company_id = none;
      })
      else ok (record {
        status = status;
        element_addr = element_addr;
        appkey_idx = appkey_idx;
        model_id = word_at 7 params;
        company_id = some (word_at 5 params);
      })

unfoldable pub parse_generic_onoff_status : Bytes → Result GenericOnOffStatus
parse_generic_onoff_status payload = do
  params ← expect_params payload op_generic_onoff_status (1 ∷ 3 ∷ [])
  let present = get_or params 0 0
  if length params == 1
      then ok (record { present_onoff = present; target_onoff = none; remaining_time = none })
      else ok (record {
        present_onoff = present;
        target_onoff = some (get_or params 1 0);
        remaining_time = some (get_or params 2 0);
      })

unfoldable pub parse_light_lightness_status : Bytes → Result LightLightnessStatus
parse_light_lightness_status payload = do
  params ← expect_params payload op_light_lightness_status (2 ∷ 5 ∷ [])
  let present = word_at 0 params
  if length params == 2
      then ok
          (record { present_lightness = present; target_lightness = none; remaining_time = none })
      else ok (record {
        present_lightness = present;
        target_lightness = some (word_at 2 params);
        remaining_time = some (get_or params 4 0);
      })

unfoldable pub parse_light_ctl_status : Bytes → Result LightCtlStatus
parse_light_ctl_status payload = do
  params ← expect_params payload op_light_ctl_status (4 ∷ 9 ∷ [])
  let lightness = word_at 0 params
  let temperature = word_at 2 params
  if length params == 4
      then ok (record {
        present_lightness = lightness;
        present_temperature = temperature;
        target_lightness = none;
        target_temperature = none;
        remaining_time = none;
      })
      else ok (record {
        present_lightness = lightness;
        present_temperature = temperature;
        target_lightness = some (word_at 4 params);
        target_temperature = some (word_at 6 params);
        remaining_time = some (get_or params 8 0);
      })

unfoldable pub parse_light_ctl_temperature_range_status :
    Bytes → Result LightCtlTemperatureRangeStatus
parse_light_ctl_temperature_range_status payload = do
  params ← expect_params payload op_light_ctl_temperature_range_status (5 ∷ [])
  ok (record {
    status_code = get_or params 0 0;
    range_min = word_at 1 params;
    range_max = word_at 3 params;
  })

unfoldable pub parse_light_ctl_temperature_status : Bytes → Result LightCtlTemperatureStatus
parse_light_ctl_temperature_status payload = do
  params ← expect_params payload op_light_ctl_temperature_status (4 ∷ 9 ∷ [])
  let temperature = word_at 0 params
  let delta_uv = signed_word (word_at 2 params)
  if length params == 4
      then ok (record {
        present_temperature = temperature;
        present_delta_uv = delta_uv;
        target_temperature = none;
        target_delta_uv = none;
        remaining_time = none;
      })
      else ok (record {
        present_temperature = temperature;
        present_delta_uv = delta_uv;
        target_temperature = some (word_at 4 params);
        target_delta_uv = some (signed_word (word_at 6 params));
        remaining_time = some (get_or params 8 0);
      })

unfoldable pub parse_config_relay_status : Bytes → Result RelayStatus
parse_config_relay_status payload = do
  params ← expect_params payload op_config_relay_status (2 ∷ [])
  let relay = get_or params 0 0
  let retransmit = get_or params 1 0
  ok (record {
    enabled = relay == 0x01;
    supported = not (relay == 0x02);
    retransmit_count = retransmit % 2 ^ 3;
    retransmit_interval_steps = retransmit / 2 ^ 3 % 2 ^ 5;
  })
