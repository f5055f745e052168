-- ===== src/Provisioner/Tests.antt =====
-- A session over toy primitives, up to the device's random value.
use ha_bluetooth_mesh.Prelude.{◌≡◌, ◌≢◌, refl, Option, none, [], ◌∷◌, ◌++◌, replicate, bytes_eq}
use ha_bluetooth_mesh.Prelude.Bytes.{Bytes, be}
use ha_bluetooth_mesh.Prelude.Outcome.{ok}
use ha_bluetooth_mesh.Crypto.{aes_cmac, s1, k1, ccm_encrypt}
use ha_bluetooth_mesh.Crypto.Toy.{toy}
use ha_bluetooth_mesh.ProvPdu.{random, encode, decode, layout, fields}
use ha_bluetooth_mesh.Provisioner.{
  wait_random, Provisioner, checked, emit, go_to, send_sealed, send_data, on_random, dispatch,
  abort, aborting, handle_pdu,
}
use ha_bluetooth_mesh.Provisioner.Laws.{Outcome, handle_pdu-Outcome, handle_pdu-Shown}

abbrev device_random : Bytes
device_random = replicate 16 7

abbrev session : Provisioner
session = record {
  netkey = replicate 16 1;
  key_index = 0;
  iv_index = 0;
  unicast_addr = 2;
  own_key = replicate 64 3;
  own_random = replicate 16 4;
  static_oob = none;
  state = wait_random;
  device_key = none;
  device_capabilities = none;
  invite_params = 0 ∷ [];
  caps_params = replicate 11 0;
  start_params = replicate 5 0;
  auth_value = replicate 16 0;
  secret = replicate 32 5;
  conf_salt = replicate 16 6;
  conf_key = replicate 16 8;
  own_confirmation = replicate 16 9;
  device_confirmation = aes_cmac toy (replicate 16 8) (replicate 16 7 ++ replicate 16 0);
  sent = [];
}

abbrev no_exchange : Bytes → Option Bytes
no_exchange key = none

taken : (handle_pdu toy no_exchange (0x06 ∷ device_random) session).1 ≡ ok tt
unfolding handle_pdu abort aborting checked dispatch on_random send_data send_sealed emit go_to
    decode encode layout fields bytes_eq aes_cmac s1 k1 ccm_encrypt toy be
taken = refl

handle_pdu-Outcome_example :
    Outcome wait_random (handle_pdu toy no_exchange (0x06 ∷ device_random) session)
handle_pdu-Outcome_example = handle_pdu-Outcome toy no_exchange (0x06 ∷ device_random) session

handle_pdu-Shown_example :
    (value : Bytes) × (decode (0x06 ∷ device_random) ≡ ok (random value))
    × (value ≢ session.own_random)
    × (aes_cmac toy session.conf_key (value ++ session.auth_value) ≡ session.device_confirmation)
handle_pdu-Shown_example =
    handle_pdu-Shown toy no_exchange (0x06 ∷ device_random) session refl taken
