-- ===== src/Access/Requests.antt =====
-- The requests of src/btmesh/access.py, against what a node reads from them.
use ha_bluetooth_mesh.Prelude.{
  ℕ, ◌+◌, ◌*◌, ◌/◌, ◌%◌, ◌^◌, ◌≤◌, ◌<◌, ◌≡◌, ◌∙◌, refl, sym, ap, arith, Bool, true, false, [], ◌∷◌,
  ◌++◌, leb, ◌==◌, if◌then◌else◌, ◌&&◌, length, take, drop, get_or, take-append, drop-append,
  leb→le,
}
use ha_bluetooth_mesh.Prelude.Bytes.{Bytes, be, le, from_big, from_little}
use ha_bluetooth_mesh.Prelude.Outcome.{Result, ok, ◌>>◌, access_error, require-ok}
use ha_bluetooth_mesh.Access.{encode_opcode, parse_access, opcode_size, unpack_key_indexes}
use ha_bluetooth_mesh.Access.Opcodes.{
  one, parse_access-encode_opcode, unpack_key_indexes-pack_key_indexes,
}
use ha_bluetooth_mesh.Access.Encoders.{
  Signed, pos, neg, check_ctl_temperature, check_delta_uv, light_ctl_set, config_appkey_add,
  vendor_opcode, ctl_temp_min, ctl_temp_max, op_light_ctl_set, op_light_ctl_set_unack,
  op_config_appkey_add,
}
use ha_bluetooth_mesh.Access.Decoders.{word_at, signed_word}
use ha_bluetooth_mesh.Access.Replies.{IsInt16, signed_word-le_signed, le_signed_octets, word_back}

-- The arguments that a Light CTL Set takes.
unfoldable pub IsCtl : ℕ → ℕ → Signed → ℕ → Type 0
IsCtl lightness temperature delta_uv tid =
    (lightness < 2 ^ 16)
    × (ctl_temp_min ≤ temperature)
    × (temperature ≤ ctl_temp_max)
    × IsInt16 delta_uv
    × (tid < 256)

ctl_opcode :
    (ack : Bool) (params : Bytes)
    → (octets : Bytes) × (encode_opcode (if ack then op_light_ctl_set else op_light_ctl_set_unack)
        ≡ ok octets)
      × (parse_access (octets ++ params)
          ≡ ok (if ack then op_light_ctl_set else op_light_ctl_set_unack, params))
unfolding encode_opcode parse_access opcode_size be from_big
ctl_opcode true params = (be 2 op_light_ctl_set, refl, ground arith)
ctl_opcode false params = (be 2 op_light_ctl_set_unack, refl, ground arith)

int16_check : (d : Signed) → IsInt16 d → check_delta_uv d ≡ ok tt
unfolding IsInt16 check_delta_uv
int16_check (pos n) h = ground arith
int16_check (neg n) h = ground arith

-- A Light CTL Set with arguments in range gives a message with the opcode that `ack` asks for,
-- seven octets of parameters, and each argument where a lamp reads it.
pub light_ctl_set_lem :
    (lightness temperature : ℕ) (delta_uv : Signed) (tid : ℕ) (ack : Bool)
    → IsCtl lightness temperature delta_uv tid
    → (payload : Bytes) × (params : Bytes) × (light_ctl_set lightness temperature delta_uv tid ack
        ≡ ok payload)
      × (parse_access payload
          ≡ ok (if ack then op_light_ctl_set else op_light_ctl_set_unack, params))
      × (length params ≡ 7)
      × (word_at 0 params ≡ lightness)
      × (word_at 2 params ≡ temperature)
      × (signed_word (word_at 4 params) ≡ delta_uv)
      × (get_or params 6 0 ≡ tid)
unfolding IsCtl light_ctl_set check_ctl_temperature le from_little
light_ctl_set_lem lightness temperature delta_uv tid ack (p, q, r, s, t) =
    let (a, b, e) = le_signed_octets delta_uv in
    let read : signed_word (a + 256 * (b + 256 * 0)) ≡ delta_uv =
      ap (λ (o : Bytes). signed_word (from_little o)) (sym e) ∙ signed_word-le_signed delta_uv s in
    let params = le 2 lightness ++ (le 2 temperature ++ (a ∷ b ∷ tid ∷ [])) in
    let (octets, encoded, parsed) = ctl_opcode ack params in
    let first : leb lightness 0xFFFF ≡ true = ground arith in
    let second : (leb ctl_temp_min temperature && leb temperature ctl_temp_max) ≡ true =
      ground arith in
    let third : leb tid 0xFF ≡ true = ground arith in
    (
      octets ++ params,
      params,
      rw (first, second, int16_check delta_uv s, third, encoded, e) refl,
      parsed,
      refl,
      word_back lightness p,
      word_back temperature (omega arith),
      read,
      refl,
    )

IsInt16-checked :
    (d : Signed) (k : Result Bytes) {b : Bytes}
    → (check_delta_uv d >> k) ≡ ok b
    → IsInt16 d × (k ≡ ok b)
unfolding IsInt16 check_delta_uv
IsInt16-checked (pos n) k h =
    let (c, h') = require-ok (leb n 32767) access_error k h in
    let m : n ≤ 32767 = leb→le n 32767 c in (omega arith, h')
IsInt16-checked (neg n) k h =
    let (c, h') = require-ok (leb (n + 1) 32768) access_error k h in
    let m : n + 1 ≤ 32768 = leb→le (n + 1) 32768 c in (omega arith, h')

in_ctl_range : (t : ℕ) → (leb ctl_temp_min t && leb t ctl_temp_max) ≡ true → (800 ≤ t) × (t ≤ 20000)
in_ctl_range t h = (ground arith, ground arith)

-- A Light CTL Set is made only of arguments in range: a lightness of 16 bits, a temperature from
-- 800 to 20000, a Delta UV of 16 bits with a sign, and a transaction of 8 bits.
pub light_ctl_set_accepts :
    (lightness temperature : ℕ) (delta_uv : Signed) (tid : ℕ) (ack : Bool) (payload : Bytes)
    → light_ctl_set lightness temperature delta_uv tid ack ≡ ok payload
    → (lightness < 2 ^ 16)
      × (800 ≤ temperature)
      × (temperature ≤ 20000)
      × IsInt16 delta_uv
      × (tid < 256)
unfolding light_ctl_set check_ctl_temperature
light_ctl_set_accepts lightness temperature delta_uv tid ack payload h =
    let (a, h1) = require-ok (leb lightness 0xFFFF) access_error _ h in
    let (b, h2) =
      require-ok (leb ctl_temp_min temperature && leb temperature ctl_temp_max) access_error _ h1 in
    let (c, h3) = IsInt16-checked delta_uv _ h2 in
    let (d, h4) = require-ok (leb tid 0xFF) access_error _ h3 in
    let l : lightness ≤ 0xFFFF = leb→le _ _ a in
    let (t, u) = in_ctl_range temperature b in
    let i : tid ≤ 0xFF = leb→le _ _ d in (omega arith, t, u, c, omega arith)

-- A Config AppKey Add of two 12-bit key indexes and a key of 16 bytes: a node reads both indexes
-- from the first three octets of the parameters, and the key from the rest.
pub config_appkey_add_lem :
    (netkey_idx appkey_idx : ℕ) (appkey : Bytes)
    → netkey_idx < 2 ^ 12
    → appkey_idx < 2 ^ 12
    → length appkey ≡ 16
    → (payload : Bytes) × (params : Bytes) × (config_appkey_add netkey_idx appkey_idx appkey
        ≡ ok payload)
      × (parse_access payload ≡ ok (op_config_appkey_add, params))
      × (unpack_key_indexes (take 3 params) ≡ (netkey_idx, appkey_idx))
      × (drop 3 params ≡ appkey)
unfolding config_appkey_add
config_appkey_add_lem netkey_idx appkey_idx appkey h k l =
    let (indexes, packed, size, unpacked) =
      unpack_key_indexes-pack_key_indexes netkey_idx appkey_idx h k in
    let sized : (length appkey == 16) ≡ true = ground arith in
    let (octets, encoded, parsed) =
      parse_access-encode_opcode op_config_appkey_add (indexes ++ appkey) (one (omega arith)) in
    (
      octets ++ (indexes ++ appkey),
      indexes ++ appkey,
      rw (sized, encoded, packed) refl,
      parsed,
      ap unpack_key_indexes (take-append 3 indexes appkey size) ∙ unpacked,
      drop-append 3 indexes appkey size,
    )

-- A 3-octet vendor opcode from 0xC0 up, before any parameters, is an opcode that parses back, with
-- the company ID in its last two octets, low octet first.
pub parse_access-vendor_opcode :
    (op_byte company_id : ℕ) (params : Bytes)
    → 0xC0 ≤ op_byte
    → op_byte ≤ 0xFF
    → company_id < 2 ^ 16
    → (opcode : ℕ) × (vendor_opcode op_byte company_id ≡ ok opcode)
      × (encode_opcode opcode ≡ ok (op_byte ∷ le 2 company_id))
      × (parse_access (op_byte ∷ le 2 company_id ++ params) ≡ ok (opcode, params))
unfolding vendor_opcode encode_opcode parse_access opcode_size from_big le be
parse_access-vendor_opcode op_byte company_id params h k l =
    let lo = company_id % 256 in
    let hi = company_id / 256 % 256 in
    let opcode = (op_byte * 256 + lo) * 256 + hi in
    let first : opcode / 256 / 256 % 256 ≡ op_byte = omega arith in
    let second : opcode / 256 % 256 ≡ lo = omega arith in
    let third : opcode % 256 ≡ hi = omega arith in
    (opcode, ground arith, ground (arith, first, second, third), ground arith)
