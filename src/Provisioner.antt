-- ===== src/Provisioner.antt =====
-- src/btmesh/provisioner.py: the provisioning session. The private key is a parameter through
-- `exchange`, the ECDH secret with a device's public key, none where that is no point of the curve.
-- `sent` is the calls of the `send` callback; the log and the `on_done` callback are left out.
pub mod Laws
mod Tests
use ha_bluetooth_mesh.Prelude.{
  ℕ, zero, suc, ◌+◌, ◌-◌, ◌*◌, ◌/◌, ◌%◌, ◌^◌, Bool, true, false, Option, none, some, List, [], ◌∷◌,
  ◌++◌, ◌&&◌, not, ltb, ◌==◌, if◌then◌else◌, truthy, bytes_eq, length, take, drop, replicate,
}
use ha_bluetooth_mesh.Prelude.Bytes.{Bytes, be}
use ha_bluetooth_mesh.Prelude.Outcome.{
  Result, Error, ok, err, from_option, is_bt_mesh_error, provisioning_error, provisioning_failed,
}
use ha_bluetooth_mesh.Crypto.{Primitives, aes_cmac, s1, k1, ccm_encrypt}
use ha_bluetooth_mesh.ProvPdu.{
  ProvisioningPdu, invite, capabilities, start, public_key, confirmation, random, provisioning_data,
  complete, failed, encode, decode,
}

pub data State : Type 0 where
  idle wait_capabilities wait_public_key wait_confirmation wait_random wait_complete done aborted :
      State

pub record Provisioner : Type 0 where
  pub netkey : Bytes
  pub key_index : ℕ
  pub iv_index : ℕ
  pub unicast_addr : ℕ
  pub own_key : Bytes
  pub own_random : Bytes
  pub static_oob : Option Bytes
  pub state : State
  pub device_key : Option Bytes
  pub device_capabilities : Option ProvisioningPdu
  pub invite_params : Bytes
  pub caps_params : Bytes
  pub start_params : Bytes
  pub auth_value : Bytes
  pub secret : Bytes
  pub conf_salt : Bytes
  pub conf_key : Bytes
  pub own_confirmation : Bytes
  pub device_confirmation : Bytes
  pub sent : List Bytes

-- What a method leaves: the session, and whether it raised.
abbrev pub Handled : Type 0
Handled = Provisioner × Result (Unit {0})

-- `static_auth_value`, of a value that `__init__` took, of 1 to 16 bytes
unfoldable pub static_auth_value : Bytes → Result Bytes
static_auth_value [] = err provisioning_error
static_auth_value (b ∷ bs) =
    let value = take 16 (b ∷ bs) in ok (value ++ replicate (16 - length value) 0)

-- A call that can raise, and what follows it.
unfoldable pub checked {ℓ} : {A : Type ℓ} → Result A → Provisioner → (A → Handled) → Handled
checked (err e) p next = (p, err e)
checked (ok a) p next = next a

-- `_emit`, and what follows.
unfoldable pub emit : ProvisioningPdu → Provisioner → (Bytes → Provisioner → Handled) → Handled
unfolding checked
emit pdu p next =
    checked (encode pdu) p (λ octets. next octets (record p { sent = p.sent ++ (octets ∷ []) }))

-- `_set_state` at the end of a handler
unfoldable pub go_to : State → Bytes → Provisioner → Handled
go_to new octets p = (record p { state = new }, ok tt)

-- `Provisioner.start`
unfoldable pub begin : Provisioner → Handled
unfolding emit
begin p = elim p.state [
  | idle ↦
      emit (invite 0) p (λ octets p'.
        (record p' { invite_params = drop 1 octets; state = wait_capabilities }, ok tt))
  | wait_capabilities ↦ (p, err provisioning_error)
  | wait_public_key ↦ (p, err provisioning_error)
  | wait_confirmation ↦ (p, err provisioning_error)
  | wait_random ↦ (p, err provisioning_error)
  | wait_complete ↦ (p, err provisioning_error)
  | done ↦ (p, err provisioning_error)
  | aborted ↦ (p, err provisioning_error)
]

-- `_on_capabilities`, after Start was sent.
unfoldable pub send_key : Bytes → Provisioner → Handled
unfolding emit go_to
send_key started p =
    emit (public_key (take 32 p.own_key) (drop 32 p.own_key))
      (record p { start_params = drop 1 started }) (go_to wait_public_key)

-- `_on_capabilities`, from the encoding of the capabilities on.
unfoldable pub after_caps : ℕ → Provisioner → Bytes → Handled
unfolding emit send_key
after_caps auth_method p octets =
    emit (start 0 0 auth_method 0 0) (record p { caps_params = drop 1 octets }) send_key

unfoldable pub send_start : ProvisioningPdu → ℕ → Provisioner → Handled
unfolding checked after_caps
send_start caps auth_method p = checked (encode caps) p (after_caps auth_method p)

unfoldable pub start_static : ProvisioningPdu → Provisioner → Bytes → Handled
unfolding send_start
start_static caps p auth = send_start caps 0x01 (record p { auth_value = auth })

-- The authentication method and value, for a device that takes a static OOB value or not.
unfoldable pub choose_auth : ProvisioningPdu → Bool → Option Bytes → Provisioner → Handled
unfolding static_auth_value checked start_static send_start
choose_auth caps true (some value) p = checked (static_auth_value value) p (start_static caps p)
choose_auth caps false (some value) p =
    send_start caps 0x00 (record p { auth_value = replicate 16 0 })
choose_auth caps offers_static none p =
    send_start caps 0x00 (record p { auth_value = replicate 16 0 })

unfoldable pub on_capabilities : ProvisioningPdu → ℕ → ℕ → Provisioner → Handled
unfolding choose_auth
on_capabilities caps algorithms static_oob_type p =
    let p' = record p { device_capabilities = some caps } in
    if algorithms % 2 == 0
    then (p', err provisioning_error)
    else choose_auth caps (truthy (static_oob_type % 2)) p.static_oob p'

-- `if self.state is not State.DONE: self._set_state(State.FAILED)`
unfoldable pub abort : State → Provisioner → Provisioner
abort done p = p
abort s p = record p { state = aborted }

-- `except BtMeshError`: an exception of another class leaves the state alone.
unfoldable pub aborting : Handled → Handled
unfolding abort
aborting (p, ok u) = (p, ok u)
aborting (p, err e) = (if is_bt_mesh_error e then abort p.state p else p, err e)

module _ (prims : Primitives) (exchange : Bytes → Option Bytes) where
  -- `_on_public_key`, from the secret on.
  unfoldable pub send_confirmation : Bytes → Provisioner → Bytes → Handled
  unfolding emit go_to
  send_confirmation device_key' p secret =
      let inputs =
        p.invite_params ++ (p.caps_params ++ (p.start_params ++ (p.own_key ++ device_key'))) in
      let salt = s1 prims inputs in
      let key = k1 prims secret salt (0x70 ∷ 0x72 ∷ 0x63 ∷ 0x6B ∷ []) in
      let conf = aes_cmac prims key (p.own_random ++ p.auth_value) in
      emit (confirmation conf)
        (record p { secret = secret; conf_salt = salt; conf_key = key; own_confirmation = conf })
        (go_to wait_confirmation)

  unfoldable pub on_public_key : Bytes → Bytes → Provisioner → Handled
  unfolding checked send_confirmation
  on_public_key x y p =
      if bytes_eq (x ++ y) p.own_key
      then (p, err provisioning_error)
      else checked (from_option provisioning_error (exchange (x ++ y))) p
          (send_confirmation (x ++ y) p)

  unfoldable pub on_confirmation : Bytes → Provisioner → Handled
  unfolding emit go_to
  on_confirmation value p =
      if bytes_eq value p.own_confirmation
      then (p, err provisioning_error)
      else emit (random p.own_random) (record p { device_confirmation = value }) (go_to wait_random)

  -- `_on_random`, from the ciphertext on.
  unfoldable pub send_sealed : Provisioner → Bytes → Handled
  unfolding emit go_to
  send_sealed p sealed =
      emit (provisioning_data (take (length sealed - 8) sealed) (drop (length sealed - 8) sealed)) p
        (go_to wait_complete)

  -- `_on_random`, from the derivation of the session keys on. `__init__` has checked the fields.
  unfoldable pub send_data : Bytes → Provisioner → Handled
  unfolding checked send_sealed
  send_data value p =
      let salt = s1 prims (p.conf_salt ++ (p.own_random ++ value)) in
      let session_key = k1 prims p.secret salt (0x70 ∷ 0x72 ∷ 0x73 ∷ 0x6B ∷ []) in
      let nonce_key = k1 prims p.secret salt (0x70 ∷ 0x72 ∷ 0x73 ∷ 0x6E ∷ []) in
      let session_nonce = drop (length nonce_key - 13) nonce_key in
      let plaintext =
        p.netkey ++ (be 2 p.key_index ++ (0x00 ∷ (be 4 p.iv_index ++ be 2 p.unicast_addr))) in
      let keyed = record p {
        device_key = some (k1 prims p.secret salt (0x70 ∷ 0x72 ∷ 0x64 ∷ 0x6B ∷ []));
      } in
      checked (ccm_encrypt prims session_key session_nonce plaintext 8 []) keyed (send_sealed keyed)

  unfoldable pub on_random : Bytes → Provisioner → Handled
  unfolding send_data
  on_random value p =
      if bytes_eq value p.own_random
      then (p, err provisioning_error)
      else if bytes_eq (aes_cmac prims p.conf_key (value ++ p.auth_value)) p.device_confirmation
      then send_data value p
      else (p, err provisioning_error)

  -- The `_dispatch` table, on the state of the session and the class of the PDU.
  unfoldable pub dispatch : State → ProvisioningPdu → Provisioner → Handled
  unfolding on_capabilities on_public_key on_confirmation on_random
  dispatch wait_capabilities (capabilities a b c d e f g h) p =
      on_capabilities (capabilities a b c d e f g h) b d p
  dispatch wait_public_key (public_key x y) p = on_public_key x y p
  dispatch wait_confirmation (confirmation value) p = on_confirmation value p
  dispatch wait_random (random value) p = on_random value p
  dispatch wait_complete complete p = (record p { state = done }, ok tt)
  dispatch s (failed error_code) p = (p, err provisioning_failed)
  dispatch s pdu p = (p, err provisioning_error)

  unfoldable pub handle_pdu : Bytes → Provisioner → Handled
  unfolding checked dispatch aborting
  handle_pdu octets p = aborting (checked (decode octets) p (λ pdu. dispatch p.state pdu p))
