-- ===== src/Transport/Segments.antt =====
-- Segmentation: every segment parses, and to its own piece of the message.
use ha_bluetooth_mesh.Prelude.{
  ℕ, zero, suc, ◌+◌, ◌-◌, ◌*◌, ◌/◌, ◌%◌, ◌^◌, ◌≤◌, ◌<◌, bit_or, ◌≡◌, refl, ap, ◌∙◌, arith, Bool,
  true, false, some, List, ◌++◌, bit, length, take, drop, slice, get_elem?, length-append,
  length-take, length-drop, take-append, drop-append, le→ltb,
}
use native.Mathlib.Nat.{zero-add, add-zero}
use ha_bluetooth_mesh.Prelude.Bits.{bit_or_disjoint}
use ha_bluetooth_mesh.Prelude.Bytes.{Bytes, be, from_big, from_big-be, length-be}
use ha_bluetooth_mesh.Prelude.Outcome.{ok}
use ha_bluetooth_mesh.Transport.{
  segmented, segment_size, segment_count, parse_access_lower, segment_pdu, segments_from,
  segment_access_message,
}
use ha_bluetooth_mesh.Transport.Assembler.Delivery.{segment_of}
use ha_bluetooth_mesh.Transport.RoundTrip.{IsKeyId, IsKeyId-lt, check_aid-ok, bit-lt, truthy-bit}

-- The three fields of a segment's header, and its first octet.
segment_header :
    (seq_zero seg_o seg_n : ℕ)
    → seq_zero < 2 ^ 13
    → seg_o < 32
    → seg_n < 32
    → bit_or (bit_or (seq_zero * 2 ^ 10) (seg_o * 2 ^ 5)) seg_n
      ≡ seq_zero * 1024 + seg_o * 32 + seg_n
segment_header seq_zero seg_o seg_n z o n =
    let upper : bit_or (seq_zero * 2 ^ 10) (seg_o * 2 ^ 5) ≡ (seq_zero * 32 + seg_o) * 2 ^ 5 =
      omega (arith, bit_or_disjoint 10 seq_zero (seg_o * 2 ^ 5) (omega arith)) in
    ap (λ (t : ℕ). bit_or t seg_n) upper
    ∙ bit_or_disjoint 5 (seq_zero * 32 + seg_o) seg_n n
    ∙ omega arith

seg_octet :
    (akf : Bool) (aid : ℕ)
    → IsKeyId akf aid
    → bit_or (bit_or 0x80 (bit akf * 2 ^ 6)) aid ≡ 128 + bit akf * 64 + aid
seg_octet true aid h = bit_or_disjoint 6 3 aid h
seg_octet false aid h = bit_or_disjoint 6 2 aid (omega arith) ∙ omega arith

module _ (akf : Bool) (aid seq_zero last : ℕ) (upper : Bytes) (key : IsKeyId akf aid)
    (zero_fits : seq_zero < 2 ^ 13) (last_fits : last < 32)
    (whole : last * segment_size < length upper) where
  -- Segment `i`, parsed.
  parse_access_lower-segment_pdu :
      (i : ℕ)
      → i ≤ last
      → parse_access_lower (segment_pdu upper akf aid seq_zero last i)
        ≡ ok (segmented (segment_of akf aid seq_zero last upper i))
  unfolding parse_access_lower segment_pdu
  parse_access_lower-segment_pdu i h =
      let header = bit_or (bit_or (seq_zero * 2 ^ 10) (i * 2 ^ 5)) last in
      let chunk = slice (i * segment_size) ((i + 1) * segment_size) upper in
      let octet = bit_or (bit_or 0x80 (bit akf * 2 ^ 6)) aid in
      let value : header ≡ seq_zero * 1024 + i * 32 + last =
        segment_header seq_zero i last zero_fits (omega arith) last_fits in
      let chunk_size : 1 ≤ length chunk = omega (
        arith,
        length-take ((i + 1) * segment_size - i * segment_size) (drop (i * segment_size) upper),
        length-drop (i * segment_size) upper,
      ) in
      let rest_size : length (be 3 header ++ chunk) ≡ 3 + length chunk =
        length-append (be 3 header) chunk ∙ omega (arith, length-be 3 header) in
      let id : aid < 64 = IsKeyId-lt akf aid key in
      let first : octet ≡ 128 + bit akf * 64 + aid = seg_octet akf aid key in
      let e1 : octet / 2 ^ 7 ≡ 1 = omega (arith, first, bit-lt akf, id) in
      let e2 : octet / 2 ^ 6 % 2 ≡ bit akf = omega (arith, first, bit-lt akf, id) in
      let e3 : octet % 2 ^ 6 ≡ aid = omega (arith, first, bit-lt akf, id) in
      let e4 : from_big (take 3 (be 3 header ++ chunk)) ≡ header =
        ap from_big (take-append 3 (be 3 header) chunk (length-be 3 header))
        ∙ from_big-be 3 header (omega (arith, value)) in
      let e5 : header / 2 ^ 23 ≡ 0 = omega (arith, value) in
      let e6 : header / 2 ^ 10 % 2 ^ 13 ≡ seq_zero = omega (arith, value) in
      let e7 : header / 2 ^ 5 % 2 ^ 5 ≡ i = omega (arith, value) in
      let e8 : header % 2 ^ 5 ≡ last = omega (arith, value) in
      rw
        (
          e1,
          e2,
          e3,
          truthy-bit akf,
          rest_size,
          le→ltb (3 + length chunk + 1) 5 (omega arith),
          e4,
          e5,
          e6,
          e7,
          e8,
          drop-append 3 (be 3 header) chunk (length-be 3 header),
        )
        refl

segments_from-get_elem? :
    (upper : Bytes) (akf : Bool) (aid first_seq seg_n left from i : ℕ)
    → i < left
    → get_elem? (segments_from upper akf aid first_seq seg_n left from) i
      ≡ some
          (first_seq + (from + i), segment_pdu upper akf aid (first_seq % 2 ^ 13) seg_n (from + i))
unfolding segments_from
segments_from-get_elem? upper akf aid first_seq seg_n zero from i h = absurd (omega arith)
segments_from-get_elem? upper akf aid first_seq seg_n (suc left) from zero h =
    rw (add-zero from) refl
segments_from-get_elem? upper akf aid first_seq seg_n (suc left) from (suc i) h =
    let e : from + 1 + i ≡ from + suc i = omega arith in
    rw (segments_from-get_elem? upper akf aid first_seq seg_n left (from + 1) i (omega arith), e)
      refl

length-segments_from :
    (upper : Bytes) (akf : Bool) (aid first_seq seg_n left from : ℕ)
    → length (segments_from upper akf aid first_seq seg_n left from) ≡ left
unfolding segments_from
length-segments_from upper akf aid first_seq seg_n zero from = refl
length-segments_from upper akf aid first_seq seg_n (suc left) from =
    ap suc (length-segments_from upper akf aid first_seq seg_n left (from + 1))

-- A PDU that needs at most 32 segments, under a key that the code accepts and with a SEQ block
-- inside the 24-bit space, is segmented. Each segment `i` is paired with SEQ `first_seq + i`, and
-- parses to the key, SZMIC 0, the 13 lowest bits of `first_seq`, SegO `i`, the last SegN, and
-- bytes 12 i to 12 i + 11 of the PDU.
pub parse-segment_access_message :
    (upper : Bytes) (akf : Bool) (aid first_seq i : ℕ)
    → IsKeyId akf aid
    → 0 < length upper
    → segment_count (length upper) ≤ 32
    → first_seq + segment_count (length upper) ≤ 2 ^ 24
    → i < segment_count (length upper)
    → (pdus : List (ℕ × Bytes)) × (pdu : Bytes) × (segment_access_message upper akf aid first_seq
        ≡ ok pdus)
      × (length pdus ≡ segment_count (length upper))
      × (get_elem? pdus i ≡ some (first_seq + i, pdu))
      × (parse_access_lower pdu
          ≡ ok (
              segmented (
                segment_of akf aid
                  (first_seq % 2 ^ 13)
                  (segment_count (length upper) - 1)
                  upper
                  i)))
unfolding segment_access_message segment_count
parse-segment_access_message upper akf aid first_seq i key full few fits h =
    let count = segment_count (length upper) in
    let last = count - 1 in
    (
      segments_from upper akf aid first_seq last count 0,
      segment_pdu upper akf aid (first_seq % 2 ^ 13) last i,
      rw (check_aid-ok akf aid key) (ground arith),
      length-segments_from upper akf aid first_seq last count 0,
      segments_from-get_elem? upper akf aid first_seq last count 0 i h ∙ rw (zero-add i) refl,
      parse_access_lower-segment_pdu akf aid (first_seq % 2 ^ 13) last upper key (omega arith)
          (omega arith) (omega arith) i (omega arith),
    )
