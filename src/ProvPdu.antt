-- ===== src/ProvPdu.antt =====
-- src/btmesh/prov_pdu.py: the Provisioning PDUs. A field is a number from 0 up, so that
-- `_check_uint` tests its upper bound; `describe`, which prints, is left out.
pub mod Laws
mod Tests
use ha_bluetooth_mesh.Prelude.{
  ℕ, zero, suc, ◌+◌, ◌*◌, ◌/◌, ◌%◌, ◌^◌, Bool, true, false, Option, none, some, List, [], ◌∷◌, ◌++◌,
  ◌&&◌, ltb, ◌==◌, if◌then◌else◌, length, take, drop, slice, get_or,
}
use ha_bluetooth_mesh.Prelude.Bytes.{Bytes, be, from_big}
use ha_bluetooth_mesh.Prelude.Outcome.{
  Result, ok, err, ◌>>=◌, ◌>>◌, require, from_option, provisioning_pdu_error,
}

pub data ProvisioningPdu : Type 0 where
  invite : (attention_duration : ℕ) → ProvisioningPdu
  capabilities :
      (num_elements algorithms public_key_type static_oob_type : ℕ)
      (output_oob_size output_oob_actions input_oob_size input_oob_actions : ℕ)
      → ProvisioningPdu
  start : (algorithm public_key auth_method auth_action auth_size : ℕ) → ProvisioningPdu
  public_key : (x y : Bytes) → ProvisioningPdu
  confirmation : (value : Bytes) → ProvisioningPdu
  random : (value : Bytes) → ProvisioningPdu
  provisioning_data : (encrypted mic : Bytes) → ProvisioningPdu
  complete : ProvisioningPdu
  failed : (error_code : ℕ) → ProvisioningPdu

-- `_check_uint`
unfoldable pub check_uint : ℕ → ℕ → Result ℕ
check_uint value bits = if ltb value (2 ^ bits) then ok value else err provisioning_pdu_error

-- The classes' `encode`.
unfoldable pub encode : ProvisioningPdu → Result Bytes
unfolding check_uint
encode (invite attention_duration) = do a ← check_uint attention_duration 8; ok (0x00 ∷ a ∷ [])
encode
      (capabilities num_elements algorithms key_type oob_type out_size out_actions in_size
        in_actions) =
    do
      a ← check_uint num_elements 8
      b ← check_uint algorithms 16
      c ← check_uint key_type 8
      d ← check_uint oob_type 8
      e ← check_uint out_size 8
      f ← check_uint out_actions 16
      g ← check_uint in_size 8
      h ← check_uint in_actions 16
      ok (0x01 ∷ a ∷ be 2 b ++ (c ∷ d ∷ e ∷ be 2 f ++ (g ∷ be 2 h)))
encode (start algorithm key auth_method auth_action auth_size) = do
  a ← check_uint algorithm 8
  b ← check_uint key 8
  c ← check_uint auth_method 8
  d ← check_uint auth_action 8
  e ← check_uint auth_size 8
  ok (0x02 ∷ a ∷ b ∷ c ∷ d ∷ e ∷ [])
encode (public_key x y) =
    if length x == 32 && length y == 32 then ok (0x03 ∷ x ++ y) else err provisioning_pdu_error
encode (confirmation value) =
    if length value == 16 then ok (0x05 ∷ value) else err provisioning_pdu_error
encode (random value) = if length value == 16 then ok (0x06 ∷ value) else err provisioning_pdu_error
encode (provisioning_data encrypted mic) =
    if length encrypted == 25 && length mic == 8
    then ok (0x07 ∷ encrypted ++ mic)
    else err provisioning_pdu_error
encode complete = ok (0x08 ∷ [])
encode (failed error_code) = do a ← check_uint error_code 8; ok (0x09 ∷ a ∷ [])

-- `_LAYOUT`: the opcodes, and the length of the parameters of each.
unfoldable pub layout : ℕ → Option ℕ
layout opcode =
    if opcode == 0x00
    then some 1
    else if opcode == 0x01
    then some 11
    else if opcode == 0x02
    then some 5
    else if opcode == 0x03
    then some 64
    else if opcode == 0x05
    then some 16
    else if opcode == 0x06
    then some 16
    else if opcode == 0x07
    then some 33
    else if opcode == 0x08
    then some 0
    else if opcode == 0x09
    then some 1
    else none

-- `struct.unpack` of a byte, and of two.
abbrev pub octet_at : ℕ → Bytes → ℕ
octet_at i params = get_or params i 0

abbrev pub field_at : ℕ → Bytes → ℕ
field_at i params = from_big (slice i (i + 2) params)

-- The `if cls is` chain of `decode`, whose last class is Failed: an opcode that the layout does not
-- have does not get here.
unfoldable pub fields : ℕ → Bytes → ProvisioningPdu
fields opcode params =
    if opcode == 0x00
    then invite (octet_at 0 params)
    else if opcode == 0x01
    then capabilities (octet_at 0 params) (field_at 1 params) (octet_at 3 params)
        (octet_at 4 params) (octet_at 5 params) (field_at 6 params) (octet_at 8 params)
        (field_at 9 params)
    else if opcode == 0x02
    then start (octet_at 0 params) (octet_at 1 params) (octet_at 2 params) (octet_at 3 params)
        (octet_at 4 params)
    else if opcode == 0x03
    then public_key (take 32 params) (drop 32 params)
    else if opcode == 0x05
    then confirmation params
    else if opcode == 0x06
    then random params
    else if opcode == 0x07
    then provisioning_data (take 25 params) (drop 25 params)
    else if opcode == 0x08
    then complete
    else failed (octet_at 0 params)

unfoldable pub decode : Bytes → Result ProvisioningPdu
unfolding layout fields
decode [] = err provisioning_pdu_error
decode (first ∷ params) = do
  require (first / 2 ^ 6 % 2 ^ 2 == 0) provisioning_pdu_error
  let opcode = first % 2 ^ 6
  expected_len ← from_option provisioning_pdu_error (layout opcode)
  require (length params == expected_len) provisioning_pdu_error
  ok (fields opcode params)
