-- ===== src/Controller/Commands.antt =====
-- The commands of src/btmesh/controller.py. `none` is the command's None.
use ha_bluetooth_mesh.Prelude.{
  ℕ, Bool, true, false, Option, none, some, List, ◌++◌, ltb, ◌==◌, if◌then◌else◌, not,
}
use ha_bluetooth_mesh.Prelude.Bytes.{Bytes}
use ha_bluetooth_mesh.Prelude.Outcome.{
  Result, ok, err, ◌>>=◌, timeout_error, node_error, access_error,
}
use ha_bluetooth_mesh.Crypto.{Primitives}
use ha_bluetooth_mesh.Access.{encode_opcode}
use ha_bluetooth_mesh.Access.Encoders.{
  pos, ctl_temp_min, ctl_temp_max, config_relay_get, config_composition_data_get, generic_onoff_get,
  generic_onoff_set, light_lightness_get, light_lightness_set, light_ctl_get,
  light_ctl_temperature_get, light_ctl_temperature_range_get, light_ctl_set,
  light_ctl_temperature_set,
}
use ha_bluetooth_mesh.Access.Decoders.{
  op_config_relay_status, op_generic_onoff_status, op_light_lightness_status, op_light_ctl_status,
  op_light_ctl_temperature_status, op_light_ctl_temperature_range_status, RelayStatus,
  parse_config_relay_status, parse_generic_onoff_status, parse_light_lightness_status,
  parse_light_ctl_status, parse_light_ctl_temperature_status,
  parse_light_ctl_temperature_range_status,
}
use ha_bluetooth_mesh.Access.Composition.{
  op_config_composition_data_status, CompositionData, parse_composition_data_status,
}
use ha_bluetooth_mesh.Node.{ReceivedMessage, default_ttl}
use ha_bluetooth_mesh.Node.Send.{send_access}
use ha_bluetooth_mesh.Node.Request.{Attempt, request}
use ha_bluetooth_mesh.Controller.{MeshController, Handled, put_sent, next_tid}

-- `_full_payload`
unfoldable pub full_payload : ReceivedMessage → Result Bytes
full_payload msg = do octets ← encode_opcode msg.opcode; ok (octets ++ msg.params)

-- `_settled`
unfoldable pub settled {ℓ} : {A : Type ℓ} → A → Option A → A
settled present none = present
settled present (some target) = target

-- `min(_CTL_TEMP_MAX, max(_CTL_TEMP_MIN, kelvin))`
unfoldable pub clamp : ℕ → ℕ
clamp kelvin =
    if ltb kelvin ctl_temp_min
    then ctl_temp_min
    else if ltb ctl_temp_max kelvin
    then ctl_temp_max
    else kelvin

-- What a command makes of the response: silence is None, and other exceptions go on.
unfoldable pub read_status {ℓ} :
    {A : Type ℓ} → (Bytes → Result (Option A)) → Result ReceivedMessage → Result (Option A)
unfolding full_payload
read_status parse (err timeout_error) = ok none
read_status parse (err e) = err e
read_status parse (ok msg) = do octets ← full_payload msg; parse octets

-- `except AccessError: return None`
unfoldable pub unless_unreadable {ℓ} : {A : Type ℓ} → Result (Option A) → Result (Option A)
unless_unreadable (err access_error) = ok none
unless_unreadable r = r

-- The same of the two probes, which make None of a NodeError and of an AccessError too.
unfoldable pub read_probe {ℓ} :
    {A : Type ℓ} → (Bytes → Result (Option A)) → Result ReceivedMessage → Result (Option A)
unfolding unless_unreadable full_payload
read_probe parse (err timeout_error) = ok none
read_probe parse (err node_error) = ok none
read_probe parse (err e) = err e
read_probe parse (ok msg) = unless_unreadable (do octets ← full_payload msg; parse octets)

abbrev pub onoff_read : Bytes → Result (Option Bool)
onoff_read octets = do
  status ← parse_generic_onoff_status octets
  ok (some (not (status.present_onoff == 0)))

abbrev pub onoff_settled : Bytes → Result (Option Bool)
onoff_settled octets = do
  status ← parse_generic_onoff_status octets
  ok (some (not (settled status.present_onoff status.target_onoff == 0)))

abbrev pub lightness_read : Bytes → Result (Option ℕ)
lightness_read octets = do
  status ← parse_light_lightness_status octets
  ok (some status.present_lightness)

abbrev pub lightness_settled : Bytes → Result (Option ℕ)
lightness_settled octets = do
  status ← parse_light_lightness_status octets
  ok (some (settled status.present_lightness status.target_lightness))

abbrev pub ctl_settled : Bytes → Result (Option ℕ)
ctl_settled octets = do
  status ← parse_light_ctl_status octets
  ok (some (settled status.present_temperature status.target_temperature))

abbrev pub temperature_settled : Bytes → Result (Option ℕ)
temperature_settled octets = do
  status ← parse_light_ctl_temperature_status octets
  ok (some (settled status.present_temperature status.target_temperature))

abbrev pub range_read : Bytes → Result (Option (ℕ × ℕ))
range_read octets = do
  status ← parse_light_ctl_temperature_range_status octets
  ok (if status.status_code == 0x00 then some (status.range_min, status.range_max) else none)

abbrev pub relay_read : Bytes → Result (Option RelayStatus)
relay_read octets = do status ← parse_config_relay_status octets; ok (some status)

abbrev pub composition_read : Bytes → Result (Option CompositionData)
composition_read octets = do data' ← parse_composition_data_status octets; ok (some data')

module _ (p : Primitives) (loop : Bool) (unicast : ℕ) (arrivals : List Attempt) where
  -- The request of a command, from its payload on
  unfoldable pub ask :
      Result Bytes → ℕ → Bool → ℕ → MeshController → MeshController × Result ReceivedMessage
  unfolding put_sent
  ask (err e) opcode dev_key retries c = (c, err e)
  ask (ok payload) opcode dev_key retries c =
      let (n, r) =
        request p loop unicast opcode payload dev_key default_ttl retries arrivals c.node in
      (put_sent n c, r)

  unfoldable pub command {ℓ} :
      {A : Type ℓ}
      → (Bytes → Result (Option A))
      → Result Bytes
      → ℕ
      → ℕ
      → MeshController
      → MeshController × Result (Option A)
  unfolding ask read_status
  command parse payload opcode retries c =
      let (c', r) = ask payload opcode false retries c in (c', read_status parse r)

  unfoldable pub probe {ℓ} :
      {A : Type ℓ}
      → (Bytes → Result (Option A))
      → Result Bytes
      → ℕ
      → MeshController
      → MeshController × Result (Option A)
  unfolding ask read_probe
  probe parse payload opcode c =
      let (c', r) = ask payload opcode true 0 c in (c', read_probe parse r)

  unfoldable pub get_relay : MeshController → MeshController × Result (Option RelayStatus)
  unfolding probe
  get_relay c = probe relay_read config_relay_get op_config_relay_status c

  unfoldable pub get_composition :
      ℕ → MeshController → MeshController × Result (Option CompositionData)
  unfolding probe
  get_composition page c =
      probe composition_read (config_composition_data_get page) op_config_composition_data_status c

  unfoldable pub set_onoff : Bool → ℕ → MeshController → MeshController × Result (Option Bool)
  unfolding command next_tid
  set_onoff on retries c =
      command onoff_settled (generic_onoff_set on c.tid true) op_generic_onoff_status retries
        (next_tid c)

  unfoldable pub get_onoff : MeshController → MeshController × Result (Option Bool)
  unfolding command
  get_onoff c = command onoff_read generic_onoff_get op_generic_onoff_status 1 c

  unfoldable pub get_lightness : MeshController → MeshController × Result (Option ℕ)
  unfolding command
  get_lightness c = command lightness_read light_lightness_get op_light_lightness_status 1 c

  unfoldable pub set_lightness : ℕ → MeshController → MeshController × Result (Option ℕ)
  unfolding command next_tid
  set_lightness lightness c =
      command lightness_settled (light_lightness_set lightness c.tid true) op_light_lightness_status
        1 (next_tid c)

  unfoldable pub set_ctl : ℕ → ℕ → MeshController → MeshController × Result (Option ℕ)
  unfolding command next_tid clamp
  set_ctl lightness kelvin c =
      command ctl_settled (light_ctl_set lightness (clamp kelvin) (pos 0) c.tid true)
        op_light_ctl_status 1 (next_tid c)

  unfoldable pub get_ctl_temperature : MeshController → MeshController × Result (Option ℕ)
  unfolding command
  get_ctl_temperature c =
      command temperature_settled light_ctl_temperature_get op_light_ctl_temperature_status 1 c

  unfoldable pub get_ctl : MeshController → MeshController × Result (Option ℕ)
  unfolding command
  get_ctl c = command ctl_settled light_ctl_get op_light_ctl_status 1 c

  unfoldable pub get_ctl_temperature_range :
      MeshController → MeshController × Result (Option (ℕ × ℕ))
  unfolding command
  get_ctl_temperature_range c =
      command range_read light_ctl_temperature_range_get op_light_ctl_temperature_range_status 1 c

  unfoldable pub set_ctl_temperature : ℕ → MeshController → MeshController × Result (Option ℕ)
  unfolding command next_tid clamp
  set_ctl_temperature kelvin c =
      command temperature_settled (light_ctl_temperature_set (clamp kelvin) (pos 0) c.tid true)
        op_light_ctl_temperature_status 1 (next_tid c)

-- `send_access` to a group, from the payload on; `flush` waits, and changes nothing.
unfoldable pub send_group : Primitives → ℕ → Result Bytes → MeshController → Handled
unfolding put_sent
send_group p group_address (err e) c = (c, err e)
send_group p group_address (ok payload) c =
    let (n, r) = send_access p group_address payload false default_ttl c.node in (put_sent n c, r)

unfoldable pub set_group_onoff : Primitives → ℕ → Bool → MeshController → Handled
unfolding send_group next_tid
set_group_onoff p group_address on c =
    send_group p group_address (generic_onoff_set on c.tid false) (next_tid c)

unfoldable pub set_group_lightness : Primitives → ℕ → ℕ → MeshController → Handled
unfolding send_group next_tid
set_group_lightness p group_address lightness c =
    send_group p group_address (light_lightness_set lightness c.tid false) (next_tid c)
