-- ===== src/Access.antt =====
-- src/btmesh/access.py: opcodes and the parts that the message codecs share. A Python int that the
-- code checks against a range from 0 up is a ℕ here; `to_bytes` after such a check is `be` or `le`.
pub mod Encoders
pub mod Decoders
pub mod Composition
pub mod Opcodes
pub mod Replies
pub mod Requests
mod Tests
use ha_bluetooth_mesh.Prelude.{
  ℕ, zero, suc, ◌+◌, ◌-◌, ◌*◌, ◌/◌, ◌%◌, ◌^◌, bit_or, Bool, true, false, Option, none, some, List,
  [], ◌∷◌, ◌++◌, ◌&&◌, ◌||◌, ltb, leb, ◌==◌, if◌then◌else◌, not, length, take, drop, get_or,
}
use ha_bluetooth_mesh.Prelude.Bytes.{Bytes, be, le, from_big, from_little}
use ha_bluetooth_mesh.Prelude.Outcome.{Result, ok, err, ◌>>=◌, ◌>>◌, require, access_error}

unfoldable pub encode_opcode : ℕ → Result Bytes
encode_opcode opcode =
    if leb opcode 0x7E
    then ok (opcode ∷ [])
    else if leb 0x8000 opcode && leb opcode 0xBFFF
    then ok (be 2 opcode)
    else if leb 0xC00000 opcode && leb opcode 0xFFFFFF
    then ok (be 3 opcode)
    else err access_error

-- The number of octets of an opcode, from its first.
unfoldable pub opcode_size : ℕ → ℕ
opcode_size first = if ltb first 0x80 then 1 else if ltb first 0xC0 then 2 else 3

unfoldable pub parse_access : Bytes → Result (ℕ × Bytes)
unfolding opcode_size
parse_access [] = err access_error
parse_access (first ∷ rest) =
    let payload = first ∷ rest in
    let size = opcode_size first in
    if first == 0x7F
    then err access_error
    else if ltb (length payload) size
    then err access_error
    else ok (from_big (take size payload), drop size payload)

-- `len(params) not in lengths`
pub contains : List ℕ → ℕ → Bool
contains [] n = false
contains (l ∷ ls) n = n == l || contains ls n

-- `_expect_params`
unfoldable pub expect_params : Bytes → ℕ → List ℕ → Result Bytes
unfolding contains
expect_params payload opcode lengths = do
  (got_opcode, params) ← parse_access payload
  require (got_opcode == opcode) access_error
  require (contains lengths (length params)) access_error
  ok params

-- `_check_key_index`
unfoldable pub check_key_index : ℕ → Result (Unit {0})
check_key_index idx = require (leb idx 0xFFF) access_error

-- `_pack_key_indexes`
unfoldable pub pack_key_indexes : ℕ → ℕ → Result Bytes
unfolding check_key_index
pack_key_indexes idx1 idx2 = do
  check_key_index idx1
  check_key_index idx2
  ok (le 2 (bit_or (idx2 % 2 ^ 4 * 2 ^ 12) idx1) ++ (idx2 / 2 ^ 4 ∷ []))

-- `_unpack_key_indexes`
unfoldable pub unpack_key_indexes : Bytes → ℕ × ℕ
unpack_key_indexes octets =
    let low = from_little (take 2 octets) in
    (low % 2 ^ 12, bit_or (get_or octets 2 0 * 2 ^ 4) (low / 2 ^ 12))
