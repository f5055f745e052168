-- ===== src/Transport.antt =====
-- src/btmesh/transport.py: the upper and lower transport layers. A Python int that the code checks
-- against a range from 0 up is a ℕ here; `to_bytes` after such a check cannot raise and is `be`.
pub mod Assembler
pub mod RoundTrip
pub mod Segments
pub mod Upper
mod Tests
use ha_bluetooth_mesh.Prelude.{
  ℕ, zero, suc, ◌+◌, ◌-◌, ◌*◌, ◌/◌, ◌%◌, ◌^◌, bit_or, Bool, true, false, Option, none, some, List,
  [], ◌∷◌, ◌++◌, ◌&&◌, ◌||◌, ltb, leb, ◌==◌, if◌then◌else◌, bit, truthy, not, length, take, drop,
  slice, get_or,
}
use ha_bluetooth_mesh.Prelude.Bytes.{Bytes, be, to_bytes_big, from_big}
use ha_bluetooth_mesh.Prelude.Outcome.{
  Result, ok, err, ◌>>=◌, ◌>>◌, require, from_option, transport_error,
}
use ha_bluetooth_mesh.Crypto.{Primitives, ccm_encrypt, ccm_decrypt}

abbrev pub segment_size : ℕ
segment_size = 12

abbrev pub unseg_max_upper_len : ℕ
unseg_max_upper_len = 15

abbrev pub trans_mic_len : ℕ
trans_mic_len = 4

abbrev pub max_segments : ℕ
max_segments = 32

pub record UnsegmentedAccess : Type 0 where
  pub akf : Bool
  pub aid : ℕ
  pub upper_pdu : Bytes

pub record AccessSegment : Type 0 where
  pub akf : Bool
  pub aid : ℕ
  pub szmic : ℕ
  pub seq_zero : ℕ
  pub seg_o : ℕ
  pub seg_n : ℕ
  pub segment : Bytes

-- `UnsegmentedAccess | AccessSegment`
pub data AccessLower : Type 0 where
  unsegmented : UnsegmentedAccess → AccessLower
  segmented : AccessSegment → AccessLower

pub record SegmentAck : Type 0 where
  pub obo : Bool
  pub seq_zero : ℕ
  pub block_ack : ℕ

pub record UnknownControl : Type 0 where
  pub opcode : ℕ
  pub parameters : Bytes

-- `SegmentAck | UnknownControl`
pub data ControlLower : Type 0 where
  segment_ack : SegmentAck → ControlLower
  unknown_control : UnknownControl → ControlLower

-- `_access_nonce`; nothing checks the range of its arguments before.
unfoldable pub access_nonce : Bool → ℕ → ℕ → ℕ → ℕ → Result Bytes
access_nonce akf seq src dst iv_index = do
  seq_bytes ← to_bytes_big 3 seq
  src_bytes ← to_bytes_big 2 src
  dst_bytes ← to_bytes_big 2 dst
  iv_bytes ← to_bytes_big 4 iv_index
  ok ((if akf then 0x01 else 0x02) ∷ 0x00 ∷ (seq_bytes ++ (src_bytes ++ (dst_bytes ++ iv_bytes))))

-- `_check_label_uuid`: b"" or 16 bytes.
unfoldable pub check_label_uuid : Bytes → Result (Unit {0})
check_label_uuid label_uuid =
    require (length label_uuid == 0 || length label_uuid == 16) transport_error

module _ (p : Primitives) (key : Bytes) (akf : Bool) (seq src dst iv_index : ℕ) where
  unfoldable pub encrypt_access : Bytes → Bytes → Result Bytes
  encrypt_access access_pdu label_uuid = do
    check_label_uuid label_uuid
    nonce ← access_nonce akf seq src dst iv_index
    ccm_encrypt p key nonce access_pdu trans_mic_len label_uuid

  unfoldable pub decrypt_access : Bytes → Bytes → Result Bytes
  decrypt_access upper_pdu label_uuid = do
    check_label_uuid label_uuid
    nonce ← access_nonce akf seq src dst iv_index
    from_option transport_error (ccm_decrypt p key nonce upper_pdu trans_mic_len label_uuid)

-- `_check_aid`
unfoldable pub check_aid : Bool → ℕ → Result (Unit {0})
check_aid akf aid = do
  require (leb aid 0x3F) transport_error
  require (akf || aid == 0) transport_error

unfoldable pub build_unsegmented_access : Bytes → Bool → ℕ → Result Bytes
build_unsegmented_access upper_pdu akf aid = do
  check_aid akf aid
  require (leb 1 (length upper_pdu) && leb (length upper_pdu) unseg_max_upper_len) transport_error
  ok (bit_or (bit akf * 2 ^ 6) aid ∷ upper_pdu)

-- One round of the loop of `segment_access_message`. SegO and SegN have 5 bits and SeqZero 13, so
-- the header has 24 bits.
unfoldable pub segment_pdu : Bytes → Bool → ℕ → ℕ → ℕ → ℕ → Bytes
segment_pdu upper_pdu akf aid seq_zero seg_n seg_o =
    let header = bit_or (bit_or (seq_zero * 2 ^ 10) (seg_o * 2 ^ 5)) seg_n in
    let chunk = slice (seg_o * segment_size) ((seg_o + 1) * segment_size) upper_pdu in
    let octet0 = bit_or (bit_or 0x80 (bit akf * 2 ^ 6)) aid in octet0 ∷ (be 3 header ++ chunk)

-- The loop over `range(seg_count)`: `left` rounds from `seg_o` on.
pub segments_from : Bytes → Bool → ℕ → ℕ → ℕ → ℕ → ℕ → List (ℕ × Bytes)
segments_from upper_pdu akf aid first_seq seg_n zero seg_o = []
segments_from upper_pdu akf aid first_seq seg_n (suc left) seg_o =
    (first_seq + seg_o, segment_pdu upper_pdu akf aid (first_seq % 2 ^ 13) seg_n seg_o)
    ∷ segments_from upper_pdu akf aid first_seq seg_n left (seg_o + 1)

-- `(len(upper_pdu) + SEGMENT_SIZE - 1) // SEGMENT_SIZE`
unfoldable pub segment_count : ℕ → ℕ
segment_count upper_len = (upper_len + segment_size - 1) / segment_size

unfoldable pub segment_access_message : Bytes → Bool → ℕ → ℕ → Result (List (ℕ × Bytes))
segment_access_message upper_pdu akf aid first_seq = do
  check_aid akf aid
  require (not (length upper_pdu == 0)) transport_error
  let seg_count = segment_count (length upper_pdu)
  require (not (ltb max_segments seg_count)) transport_error
  require (not (ltb 0xFFFFFF (first_seq + seg_count - 1))) transport_error
  ok (segments_from upper_pdu akf aid first_seq (seg_count - 1) seg_count 0)

unfoldable pub parse_access_lower : Bytes → Result AccessLower
parse_access_lower [] = err transport_error
parse_access_lower (octet ∷ rest) =
    let akf = truthy (octet / 2 ^ 6 % 2) in
    let aid = octet % 2 ^ 6 in
    let header = from_big (take 3 rest) in
    if octet / 2 ^ 7 == 0
    then (if ltb (length rest + 1) 2
        then err transport_error
        else ok (unsegmented (record { akf = akf; aid = aid; upper_pdu = rest })))
    else if ltb (length rest + 1) 5
    then err transport_error
    else ok (
        segmented (record {
          akf = akf;
          aid = aid;
          szmic = header / 2 ^ 23;
          seq_zero = header / 2 ^ 10 % 2 ^ 13;
          seg_o = header / 2 ^ 5 % 2 ^ 5;
          seg_n = header % 2 ^ 5;
          segment = drop 3 rest;
        }))

unfoldable pub build_segment_ack : ℕ → ℕ → Bool → Result Bytes
build_segment_ack seq_zero block_ack obo = do
  require (leb seq_zero 0x1FFF) transport_error
  require (leb block_ack 0xFFFFFFFF) transport_error
  let head = bit_or (bit obo * 2 ^ 15) (seq_zero * 2 ^ 2)
  ok (0x00 ∷ (be 2 head ++ be 4 block_ack))

unfoldable pub parse_control_lower : Bytes → Result ControlLower
parse_control_lower [] = err transport_error
parse_control_lower (octet ∷ rest) =
    if truthy (octet / 2 ^ 7)
    then err transport_error
    else if not (octet % 2 ^ 7 == 0x00)
    then ok (unknown_control (record { opcode = octet % 2 ^ 7; parameters = rest }))
    else if not (length rest + 1 == 7)
    then err transport_error
    else ok (
        segment_ack (record {
          obo = truthy (get_or rest 0 0 / 2 ^ 7);
          seq_zero = from_big (take 2 rest) / 2 ^ 2 % 2 ^ 13;
          block_ack = from_big (slice 2 6 rest);
        }))
