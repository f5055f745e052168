-- ===== src/Transport/Tests.antt =====
-- Concrete runs, and the theorems at concrete inputs.
use ha_bluetooth_mesh.Prelude.{
  ℕ, ◌+◌, ◌-◌, ◌%◌, ◌^◌, ◌≡◌, inl, refl, arith, true, false, some, none, List, [], ◌∷◌, ◌++◌,
  length, get_elem?, map, replicate,
}
use ha_bluetooth_mesh.Prelude.Bytes.{Bytes, be}
use ha_bluetooth_mesh.Prelude.Outcome.{ok, err, transport_error}
use ha_bluetooth_mesh.Crypto.Toy.{toy, toy-IsSound}
use ha_bluetooth_mesh.Transport.{
  segmented, segment_count, segment_pdu, check_aid, segment_access_message, parse_access_lower,
  encrypt_access, decrypt_access,
}
use ha_bluetooth_mesh.Transport.Assembler.{reset}
use ha_bluetooth_mesh.Transport.Assembler.Cover.{deliveries, add_all, covered}
use ha_bluetooth_mesh.Transport.Assembler.Delivery.{segment_of, add_all-deliveries}
use ha_bluetooth_mesh.Transport.Segments.{parse-segment_access_message}
use ha_bluetooth_mesh.Transport.Upper.{decrypt_access-encrypt_access}

abbrev letter : Bytes
letter = replicate 12 1 ++ (replicate 12 2 ++ (3 ∷ []))

segment_pdu_lem : segment_pdu (0xAA ∷ []) true 5 3 0 0 ≡ 0xC5 ∷ 0x00 ∷ 0x0C ∷ 0x00 ∷ 0xAA ∷ []
unfolding segment_pdu be
segment_pdu_lem = refl

segment_access_message_bad_key : segment_access_message (1 ∷ []) false 5 0 ≡ err transport_error
unfolding segment_access_message check_aid
segment_access_message_bad_key = refl

-- The last segment first, one of them twice, and one after the end.
deliveries_out_of_order :
    deliveries 3 letter [] (2 ∷ 0 ∷ 0 ∷ 1 ∷ 2 ∷ [])
    ≡ ok none ∷ ok none ∷ ok none ∷ ok (some letter) ∷ ok none ∷ []
unfolding deliveries covered
deliveries_out_of_order = refl

add_all-deliveries_example :
    (add_all reset (map (segment_of true 5 3 2 letter) (2 ∷ 0 ∷ 0 ∷ 1 ∷ 2 ∷ []))).1
    ≡ deliveries 3 letter [] (2 ∷ 0 ∷ 0 ∷ 1 ∷ 2 ∷ [])
add_all-deliveries_example =
    add_all-deliveries true 5 3 2 letter (omega arith) (omega arith) reset (2 ∷ 0 ∷ 0 ∷ 1 ∷ 2 ∷ [])
      (λ e. cc e) (omega arith)

parse-segment_access_message_example :
    (pdus : List (ℕ × Bytes)) × (pdu : Bytes) × (segment_access_message letter true 5 0x2003
      ≡ ok pdus)
    × (length pdus ≡ segment_count (length letter))
    × (get_elem? pdus 1 ≡ some (0x2003 + 1, pdu))
    × (parse_access_lower pdu
        ≡ ok (
            segmented
              (segment_of true 5 (0x2003 % 2 ^ 13) (segment_count (length letter) - 1) letter 1)))
unfolding segment_count
parse-segment_access_message_example =
    parse-segment_access_message letter true 5 0x2003 1 (omega arith) (omega arith) (omega arith)
      (omega arith) (omega arith)

decrypt_access-encrypt_access_example :
    (upper : Bytes) × (encrypt_access toy (replicate 16 9) true 7 1 2 0 (1 ∷ 2 ∷ []) [] ≡ ok upper)
    × (decrypt_access toy (replicate 16 9) true 7 1 2 0 upper [] ≡ ok (1 ∷ 2 ∷ []))
    × (length upper ≡ 2 + 4)
    × (toy.ccm_seal
          (replicate 16 9)
          4
          (0x01 ∷ 0x00 ∷ (be 3 7 ++ (be 2 1 ++ (be 2 2 ++ be 4 0))))
          (1 ∷ 2 ∷ [])
          []
        ≡ some upper)
decrypt_access-encrypt_access_example =
    decrypt_access-encrypt_access toy toy-IsSound (replicate 16 9) true 7 1 2 0 (1 ∷ 2 ∷ []) []
      (record {
        key_size = refl;
        seq_fits = omega arith;
        src_fits = omega arith;
        dst_fits = omega arith;
        iv_index_fits = omega arith;
        pdu_fits = omega arith;
        label_size = inl refl;
      })
