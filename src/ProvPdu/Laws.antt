-- ===== src/ProvPdu/Laws.antt =====
-- A Provisioning PDU against its octets, both ways.
use ha_bluetooth_mesh.Prelude.{
  ℕ, ◌/◌, ◌%◌, ◌^◌, ◌<◌, ◌≡◌, ◌∙◌, refl, sym, ap, arith, Bool, true, some, [], ◌∷◌, ◌++◌, ◌&&◌, ltb,
  ◌==◌, lt→ltb, ltb→lt, Bool-cases, inl, inr, if◌then◌else◌, length, length-append, take-append,
  drop-append,
}
use ha_bluetooth_mesh.Prelude.Bytes.{Bytes, be, from_big, from_big-be}
use ha_bluetooth_mesh.Prelude.Outcome.{Result, ok, err, ◌>>=◌, provisioning_pdu_error}
use ha_bluetooth_mesh.ProvPdu.{
  ProvisioningPdu, invite, capabilities, start, public_key, confirmation, random, provisioning_data,
  complete, failed, check_uint, encode, layout, fields, decode,
}

-- The fields that the layouts of the PDUs can hold.
unfoldable pub IsValid : ProvisioningPdu → Type 0
IsValid (invite a) = a < 2 ^ 8
IsValid (capabilities a b c d e f g h) =
    (a < 2 ^ 8)
    × (b < 2 ^ 16)
    × (c < 2 ^ 8)
    × (d < 2 ^ 8)
    × (e < 2 ^ 8)
    × (f < 2 ^ 16)
    × (g < 2 ^ 8)
    × (h < 2 ^ 16)
IsValid (start a b c d e) = (a < 2 ^ 8) × (b < 2 ^ 8) × (c < 2 ^ 8) × (d < 2 ^ 8) × (e < 2 ^ 8)
IsValid (public_key x y) = (length x ≡ 32) × (length y ≡ 32)
IsValid (confirmation value) = length value ≡ 16
IsValid (random value) = length value ≡ 16
IsValid (provisioning_data encrypted mic) = (length encrypted ≡ 25) × (length mic ≡ 8)
IsValid complete = Unit {0}
IsValid (failed error_code) = error_code < 2 ^ 8

decode_first :
    (opcode n : ℕ) (params : Bytes)
    → opcode < 64
    → layout opcode ≡ some n
    → length params ≡ n
    → decode (opcode ∷ params) ≡ ok (fields opcode params)
unfolding decode
decode_first opcode n params h l e =
    let padding : (opcode / 2 ^ 6 % 2 ^ 2 == 0) ≡ true = ground arith in
    let same : opcode % 2 ^ 6 ≡ opcode = omega arith in
    let sized : (length params == n) ≡ true = ground arith in rw (padding, same, l, sized) refl

check_uint-ok : (value bits : ℕ) → value < 2 ^ bits → check_uint value bits ≡ ok value
unfolding check_uint
check_uint-ok value bits h = rw (lt→ltb _ _ h) refl

-- A PDU whose fields fit their layout is encoded, and its octets decode to the same PDU.
pub decode_lem :
    (pdu : ProvisioningPdu)
    → IsValid pdu
    → (octets : Bytes) × (encode pdu ≡ ok octets) × (decode octets ≡ ok pdu)
unfolding IsValid encode layout fields be from_big
decode_lem (invite a) h =
    (0 ∷ a ∷ [], rw (check_uint-ok a 8 h) refl, decode_first 0 1 (a ∷ []) (omega arith) refl refl)
decode_lem (capabilities a b c d e f g h) (pa, pb, pc, pd, pe, pf, pg, ph) =
    let params = a ∷ be 2 b ++ (c ∷ d ∷ e ∷ be 2 f ++ (g ∷ be 2 h)) in
    (
      1 ∷ params,
      rw
          (
            check_uint-ok a 8 pa,
            check_uint-ok b 16 pb,
            check_uint-ok c 8 pc,
            check_uint-ok d 8 pd,
            check_uint-ok e 8 pe,
            check_uint-ok f 16 pf,
            check_uint-ok g 8 pg,
            check_uint-ok h 16 ph,
          )
          refl,
      decode_first 1 11 params (omega arith) refl refl
          ∙ rw (from_big-be 2 b pb, from_big-be 2 f pf, from_big-be 2 h ph) refl,
    )
decode_lem (start a b c d e) (pa, pb, pc, pd, pe) = (
  2 ∷ a ∷ b ∷ c ∷ d ∷ e ∷ [],
  rw
      (
        check_uint-ok a 8 pa,
        check_uint-ok b 8 pb,
        check_uint-ok c 8 pc,
        check_uint-ok d 8 pd,
        check_uint-ok e 8 pe,
      )
      refl,
  decode_first 2 5 (a ∷ b ∷ c ∷ d ∷ e ∷ []) (omega arith) refl refl,
)
decode_lem (public_key x y) (h, k) = (
  3 ∷ x ++ y,
  ground arith,
  decode_first 3 64 (x ++ y) (omega arith) refl (omega (arith, length-append x y))
      ∙ rw (take-append 32 x y h, drop-append 32 x y h) refl,
)
decode_lem (confirmation value) h =
    (5 ∷ value, ground arith, decode_first 5 16 value (omega arith) refl h)
decode_lem (random value) h =
    (6 ∷ value, ground arith, decode_first 6 16 value (omega arith) refl h)
decode_lem (provisioning_data encrypted mic) (h, k) = (
  7 ∷ encrypted ++ mic,
  ground arith,
  decode_first 7 33 (encrypted ++ mic) (omega arith) refl
        (omega (arith, length-append encrypted mic))
      ∙ rw (take-append 25 encrypted mic h, drop-append 25 encrypted mic h) refl,
)
decode_lem complete h = (8 ∷ [], refl, decode_first 8 0 [] (omega arith) refl refl)
decode_lem (failed a) h =
    (9 ∷ a ∷ [], rw (check_uint-ok a 8 h) refl, decode_first 9 1 (a ∷ []) (omega arith) refl refl)

check_uint-lt :
    (value bits : ℕ) (k : ℕ → Result Bytes) {octets : Bytes}
    → (check_uint value bits >>= k) ≡ ok octets
    → (value < 2 ^ bits) × (k value ≡ ok octets)
unfolding check_uint
check_uint-lt value bits k h = elim (Bool-cases (ltb value (2 ^ bits))) [
  | inl small ↦ (
    ltb→lt _ _ small,
    sym (
          ap (λ (r : Result ℕ). r >>= k)
            (ap (λ (t : Bool). if t then ok value else err provisioning_pdu_error) small))
        ∙ h,
  )
  | inr large ↦ absurd (cc (large, h))
]

sized :
    (m n : ℕ) (octets result : Bytes)
    → (if m == n then ok octets else err provisioning_pdu_error) ≡ ok result
    → m ≡ n
sized m n octets result h = elim (Bool-cases (m == n)) [
  | inl same ↦ ground arith
  | inr other ↦ absurd (cc (other, h))
]

both_sized :
    (m n m' n' : ℕ) (octets result : Bytes)
    → (if m == n && m' == n' then ok octets else err provisioning_pdu_error) ≡ ok result
    → (m ≡ n) × (m' ≡ n')
both_sized m n m' n' octets result h = elim (Bool-cases (m == n && m' == n')) [
  | inl same ↦ (ground arith, ground arith)
  | inr other ↦ absurd (cc (other, h))
]

-- Only a PDU whose fields fit their layout is encoded.
pub encode_accepts : (pdu : ProvisioningPdu) (octets : Bytes) → encode pdu ≡ ok octets → IsValid pdu
unfolding IsValid encode
encode_accepts (invite a) octets h = (check_uint-lt a 8 _ h).0
encode_accepts (capabilities a b c d e f g i) octets h =
    let (pa, h1) = check_uint-lt a 8 _ h in
    let (pb, h2) = check_uint-lt b 16 _ h1 in
    let (pc, h3) = check_uint-lt c 8 _ h2 in
    let (pd, h4) = check_uint-lt d 8 _ h3 in
    let (pe, h5) = check_uint-lt e 8 _ h4 in
    let (pf, h6) = check_uint-lt f 16 _ h5 in
    let (pg, h7) = check_uint-lt g 8 _ h6 in
    (pa, pb, pc, pd, pe, pf, pg, (check_uint-lt i 16 _ h7).0)
encode_accepts (start a b c d e) octets h =
    let (pa, h1) = check_uint-lt a 8 _ h in
    let (pb, h2) = check_uint-lt b 8 _ h1 in
    let (pc, h3) = check_uint-lt c 8 _ h2 in
    let (pd, h4) = check_uint-lt d 8 _ h3 in (pa, pb, pc, pd, (check_uint-lt e 8 _ h4).0)
encode_accepts (public_key x y) octets h = both_sized _ _ _ _ _ _ h
encode_accepts (confirmation value) octets h = sized _ _ _ _ h
encode_accepts (random value) octets h = sized _ _ _ _ h
encode_accepts (provisioning_data encrypted mic) octets h = both_sized _ _ _ _ _ _ h
encode_accepts complete octets h = tt
encode_accepts (failed a) octets h = (check_uint-lt a 8 _ h).0
