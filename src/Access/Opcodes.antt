-- ===== src/Access/Opcodes.antt =====
-- The opcode at the head of a message, and the packed pair of key indexes.
use ha_bluetooth_mesh.Prelude.{
  ℕ, ◌+◌, ◌*◌, ◌/◌, ◌%◌, ◌^◌, ◌≤◌, ◌<◌, ◌≡◌, refl, arith, bit_or, true, [], ◌∷◌, ◌++◌, inl, inr,
  ltb, leb, Bool-cases, ltb→lt, subst, length,
}
use ha_bluetooth_mesh.Prelude.Bytes.{Bytes, AllBytes, be, le, from_big, from_little}
use ha_bluetooth_mesh.Prelude.Bits.{bit_or_disjoint}
use ha_bluetooth_mesh.Prelude.Outcome.{ok}
use ha_bluetooth_mesh.Access.{
  encode_opcode, opcode_size, parse_access, check_key_index, pack_key_indexes, unpack_key_indexes,
}

-- The opcodes that the code encodes, by their number of octets.
pub data IsOpcode : ℕ → Type 0 where
  one : {opcode : ℕ} → opcode ≤ 0x7E → IsOpcode opcode
  two : {opcode : ℕ} → 0x8000 ≤ opcode → opcode ≤ 0xBFFF → IsOpcode opcode
  three : {opcode : ℕ} → 0xC00000 ≤ opcode → opcode ≤ 0xFFFFFF → IsOpcode opcode

-- Every opcode in one of the three ranges is encoded, and its octets, before any parameters, parse
-- to the opcode and those parameters.
pub parse_access-encode_opcode :
    (opcode : ℕ) (params : Bytes)
    → IsOpcode opcode
    → (octets : Bytes) × (encode_opcode opcode ≡ ok octets)
      × (parse_access (octets ++ params) ≡ ok (opcode, params))
unfolding encode_opcode opcode_size parse_access be from_big
parse_access-encode_opcode opcode params (one h) = (opcode ∷ [], ground arith, ground arith)
parse_access-encode_opcode opcode params (two h k) = (be 2 opcode, ground arith, ground arith)
parse_access-encode_opcode opcode params (three h k) = (be 3 opcode, ground arith, ground arith)

-- The encoding that a parse read, stated of any result.
IsRead : Bytes → ℕ × Bytes → Type 0
IsRead payload (opcode, params) =
    (octets : Bytes) × (encode_opcode opcode ≡ ok octets) × (octets ++ params ≡ payload)

one_octet :
    (a : ℕ) (rest : Bytes)
    → a < 0x7F
    → (parse_access (a ∷ rest) ≡ ok (a, rest)) × IsRead (a ∷ rest) (a, rest)
unfolding encode_opcode opcode_size parse_access from_big IsRead
one_octet a rest h = (ground arith, (a ∷ [], ground arith, refl))

two_octets :
    (a b : ℕ) (rest : Bytes)
    → 0x80 ≤ a
    → a < 0xC0
    → b < 256
    → (parse_access (a ∷ b ∷ rest) ≡ ok (a * 256 + b, rest))
      × IsRead (a ∷ b ∷ rest) (a * 256 + b, rest)
unfolding encode_opcode opcode_size parse_access from_big be IsRead
two_octets a b rest h k l =
    let high : (a * 256 + b) / 256 % 256 ≡ a = omega arith in
    let low : (a * 256 + b) % 256 ≡ b = omega arith in
    (ground arith, (a ∷ b ∷ [], ground (arith, high, low), refl))

three_octets :
    (a b c : ℕ) (rest : Bytes)
    → 0xC0 ≤ a
    → a < 256
    → b < 256
    → c < 256
    → let opcode = (a * 256 + b) * 256 + c in
      (parse_access (a ∷ b ∷ c ∷ rest) ≡ ok (opcode, rest))
      × IsRead (a ∷ b ∷ c ∷ rest) (opcode, rest)
unfolding encode_opcode opcode_size parse_access from_big be IsRead
three_octets a b c rest h k l m =
    let opcode = (a * 256 + b) * 256 + c in
    let high : opcode / 256 / 256 % 256 ≡ a = omega arith in
    let middle : opcode / 256 % 256 ≡ b = omega arith in
    let low : opcode % 256 ≡ c = omega arith in
    (ground arith, (a ∷ b ∷ c ∷ [], ground (arith, high, middle, low), refl))

same_result :
    (payload : Bytes) (read given : ℕ × Bytes)
    → (parse_access payload ≡ ok read) × IsRead payload read
    → parse_access payload ≡ ok given
    → IsRead payload given
same_result payload read given (p, q) h = let e : read ≡ given = cc in subst (IsRead payload) e q

is_read :
    (payload : Bytes) (result : ℕ × Bytes)
    → AllBytes payload
    → parse_access payload ≡ ok result
    → IsRead payload result
unfolding opcode_size parse_access
is_read [] result b h = cc
is_read (a ∷ []) result b h = same_result _ _ _ (one_octet a [] (ground arith)) h
is_read (a ∷ b ∷ []) result (p, (q, t)) h = elim (Bool-cases (ltb a 0x7F)) [
  | inl small ↦ same_result _ _ _ (one_octet a _ (ltb→lt _ _ small)) h
  | inr large ↦ same_result _ _ _ (two_octets a b [] (ground arith) (ground arith) q) h
]
is_read (a ∷ b ∷ c ∷ rest) result (p, (q, (r, t))) h = elim (Bool-cases (ltb a 0x7F)) [
  | inl small ↦ same_result _ _ _ (one_octet a _ (ltb→lt _ _ small)) h
  | inr large ↦ elim (Bool-cases (ltb a 0xC0)) [
    | inl two' ↦ same_result _ _ _ (two_octets a b (c ∷ rest) (ground arith) (ltb→lt _ _ two') q) h
    | inr three' ↦ same_result _ _ _ (three_octets a b c rest (ground arith) p q r) h
  ]
]

-- Bytes that parse to an opcode and parameters are that opcode's octets, then those parameters.
pub encode_opcode-parse_access :
    (payload : Bytes) (opcode : ℕ) (params : Bytes)
    → AllBytes payload
    → parse_access payload ≡ ok (opcode, params)
    → (octets : Bytes) × (encode_opcode opcode ≡ ok octets) × (octets ++ params ≡ payload)
unfolding IsRead
encode_opcode-parse_access payload opcode params b h = is_read payload (opcode, params) b h

-- Two key indexes of 12 bits pack into three octets, from which both are read back.
pub unpack_key_indexes-pack_key_indexes :
    (idx1 idx2 : ℕ)
    → idx1 < 2 ^ 12
    → idx2 < 2 ^ 12
    → (octets : Bytes) × (pack_key_indexes idx1 idx2 ≡ ok octets)
      × (length octets ≡ 3)
      × (unpack_key_indexes octets ≡ (idx1, idx2))
unfolding pack_key_indexes check_key_index unpack_key_indexes le from_little
unpack_key_indexes-pack_key_indexes idx1 idx2 h k =
    let low : leb idx1 0xFFF ≡ true = ground arith in
    let high : leb idx2 0xFFF ≡ true = ground arith in
    let or : bit_or (idx2 % 2 ^ 4 * 2 ^ 12) idx1 ≡ idx2 % 16 * 4096 + idx1 =
      omega (arith, bit_or_disjoint 12 (idx2 % 2 ^ 4) idx1 h) in
    let word = idx2 % 16 * 4096 + idx1 in
    let e : word % 256 + 256 * (word / 256 % 256 + 256 * 0) ≡ word = omega arith in
    let p : word % 2 ^ 12 ≡ idx1 = omega arith in
    let q : word / 2 ^ 12 ≡ idx2 % 16 = omega arith in
    let r : bit_or (idx2 / 16 * 2 ^ 4) (idx2 % 16) ≡ idx2 =
      omega (arith, bit_or_disjoint 4 (idx2 / 16) (idx2 % 16) (omega arith)) in
    (le 2 word ++ (idx2 / 2 ^ 4 ∷ []), rw (low, high, or) refl, refl, rw (e, p, q, r) refl)
