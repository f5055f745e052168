-- ===== src/Transport/RoundTrip.antt =====
-- The lower transport PDUs that this layer builds are those that it parses.
use ha_bluetooth_mesh.Prelude.{
  ℕ, ◌+◌, ◌*◌, ◌/◌, ◌%◌, ◌^◌, ◌≤◌, ◌<◌, bit_or, ◌≡◌, refl, ap, ◌∙◌, arith, Bool, true, false, ◌∷◌,
  ◌++◌, bit, truthy, length, take, slice, get_or, length-append, take-append, take_all, drop-append,
}
use ha_bluetooth_mesh.Prelude.Bits.{bit_or_disjoint}
use ha_bluetooth_mesh.Prelude.Bytes.{Bytes, be, from_big, from_big-be, length-be}
use ha_bluetooth_mesh.Prelude.Outcome.{ok}
use ha_bluetooth_mesh.Transport.{
  unsegmented, segment_ack, check_aid, build_unsegmented_access, parse_access_lower,
  build_segment_ack, parse_control_lower,
}

-- AKF and AID as the code accepts them.
abbrev pub IsKeyId : Bool → ℕ → Type 0
IsKeyId true aid = aid < 64
IsKeyId false aid = aid ≡ 0

pub IsKeyId-lt : (akf : Bool) (aid : ℕ) → IsKeyId akf aid → aid < 64
IsKeyId-lt true aid h = h
IsKeyId-lt false aid h = omega arith

pub check_aid-ok : (akf : Bool) (aid : ℕ) → IsKeyId akf aid → check_aid akf aid ≡ ok tt
unfolding check_aid
check_aid-ok true aid h = ground arith
check_aid-ok false aid h = ground arith

unseg_octet :
    (akf : Bool) (aid : ℕ)
    → IsKeyId akf aid
    → (bit_or (bit akf * 2 ^ 6) aid / 2 ^ 7 ≡ 0)
      × (bit_or (bit akf * 2 ^ 6) aid / 2 ^ 6 % 2 ≡ bit akf)
      × (bit_or (bit akf * 2 ^ 6) aid % 2 ^ 6 ≡ aid)
unseg_octet true aid h = omega (arith, bit_or_disjoint 6 1 aid h)
unseg_octet false aid h = omega (arith, bit_or_disjoint 6 0 aid (omega arith))

pub truthy-bit : (b : Bool) → truthy (bit b) ≡ b
truthy-bit true = refl
truthy-bit false = refl

-- A PDU of 1 to 15 bytes, sent unsegmented under an AppKey (AID of 6 bits) or a device key (AID 0),
-- is built, and parses to the same key flag, AID and bytes.
pub parse_access_lower-build_unsegmented_access :
    (upper_pdu : Bytes) (akf : Bool) (aid : ℕ)
    → IsKeyId akf aid
    → 1 ≤ length upper_pdu
    → length upper_pdu ≤ 15
    → (pdu : Bytes) × (build_unsegmented_access upper_pdu akf aid ≡ ok pdu)
      × (parse_access_lower pdu
          ≡ ok (unsegmented (record { akf = akf; aid = aid; upper_pdu = upper_pdu })))
unfolding build_unsegmented_access parse_access_lower
parse_access_lower-build_unsegmented_access upper_pdu akf aid key some_bytes few =
    let (seg, flag, id) = unseg_octet akf aid key in
    (
      bit_or (bit akf * 2 ^ 6) aid ∷ upper_pdu,
      rw (check_aid-ok akf aid key) (ground arith),
      rw (seg, flag, id, truthy-bit akf) (ground arith),
    )

-- The fields of a 2-byte and a 4-byte number, one after the other.
module _ (head tail : ℕ) where
  two_four_size : length (be 2 head ++ be 4 tail) ≡ 6
  two_four_size =
      length-append (be 2 head) (be 4 tail) ∙ omega (arith, length-be 2 head, length-be 4 tail)

  two_four_first : get_or (be 2 head ++ be 4 tail) 0 0 ≡ head / 256 % 256
  unfolding be
  two_four_first = refl

  two_four_head : head < 2 ^ 16 → from_big (take 2 (be 2 head ++ be 4 tail)) ≡ head
  two_four_head h =
      ap from_big (take-append 2 (be 2 head) (be 4 tail) (length-be 2 head)) ∙ from_big-be 2 head h

  two_four_tail : tail < 2 ^ 32 → from_big (slice 2 6 (be 2 head ++ be 4 tail)) ≡ tail
  two_four_tail h =
      ap (λ (t : Bytes). from_big (take 4 t))
        (drop-append 2 (be 2 head) (be 4 tail) (length-be 2 head))
      ∙ ap from_big (take_all 4 (be 4 tail) (omega (arith, length-be 4 tail)))
      ∙ from_big-be 4 tail h

pub bit-lt : (b : Bool) → bit b < 2
bit-lt true = omega arith
bit-lt false = omega arith

ack_head :
    (obo : Bool) (seq_zero : ℕ)
    → seq_zero < 2 ^ 13
    → bit_or (bit obo * 2 ^ 15) (seq_zero * 2 ^ 2) ≡ bit obo * 2 ^ 15 + seq_zero * 4
ack_head obo seq_zero h = bit_or_disjoint 15 (bit obo) (seq_zero * 2 ^ 2) (omega arith)

-- A Segment Acknowledgment for a SeqZero of 13 bits and a block of 32 bits is built, and parses to
-- the same fields.
pub parse_control_lower-build_segment_ack :
    (seq_zero block_ack : ℕ) (obo : Bool)
    → seq_zero < 2 ^ 13
    → block_ack < 2 ^ 32
    → (pdu : Bytes) × (build_segment_ack seq_zero block_ack obo ≡ ok pdu)
      × (parse_control_lower pdu
          ≡ ok (segment_ack (record { obo = obo; seq_zero = seq_zero; block_ack = block_ack })))
unfolding build_segment_ack parse_control_lower
parse_control_lower-build_segment_ack seq_zero block_ack obo z b =
    let head = bit_or (bit obo * 2 ^ 15) (seq_zero * 2 ^ 2) in
    let value : head ≡ bit obo * 2 ^ 15 + seq_zero * 4 = ack_head obo seq_zero z in
    let small : head < 2 ^ 16 = omega (arith, value, bit-lt obo) in
    let flag : head / 256 % 256 / 2 ^ 7 ≡ bit obo = omega (arith, value, bit-lt obo) in
    let zero_bits : head / 2 ^ 2 % 2 ^ 13 ≡ seq_zero = omega (arith, value, bit-lt obo) in
    (
      0x00 ∷ (be 2 head ++ be 4 block_ack),
      ground arith,
      rw
          (
            two_four_size head block_ack,
            two_four_first head block_ack,
            flag,
            truthy-bit obo,
            two_four_head head block_ack small,
            zero_bits,
            two_four_tail head block_ack b,
          )
          refl,
    )
