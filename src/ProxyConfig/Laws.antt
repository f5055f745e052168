-- ===== src/ProxyConfig/Laws.antt =====
-- What the filter messages hold.
use ha_bluetooth_mesh.Prelude.{
  ℕ, suc, ◌+◌, ◌*◌, ◌/◌, ◌%◌, ◌^◌, ◌≤◌, ◌<◌, ◌≡◌, refl, arith, true, List, [], ◌∷◌, ◌++◌,
  append_assoc, append-nil, length, leb, All,
}
use native.Mathlib.Nat.{add-zero}
use ha_bluetooth_mesh.Prelude.Bytes.{Bytes, be, from_big}
use ha_bluetooth_mesh.Prelude.Outcome.{ok, err, proxy_config_error}
use ha_bluetooth_mesh.ProxyConfig.{
  pack_addresses, add_addresses, parse_filter_status, op_add_addresses, op_filter_status,
}

-- The addresses that a proxy reads from the parameters: pairs of bytes, high byte first.
pub read_addresses : Bytes → List ℕ
read_addresses [] = []
read_addresses (hi ∷ []) = []
read_addresses (hi ∷ lo ∷ rest) = (hi * 256 + lo) ∷ read_addresses rest

packed_by : List ℕ → Bytes
packed_by [] = []
packed_by (a ∷ as') = be 2 a ++ packed_by as'

pack_addresses-packed_by :
    (packed : Bytes) (count : ℕ) (addresses : List ℕ)
    → All (λ (a : ℕ). a ≤ 0xFFFF) addresses
    → pack_addresses packed count addresses
      ≡ ok (packed ++ packed_by addresses, count + length addresses)
unfolding pack_addresses packed_by
pack_addresses-packed_by packed count [] h = rw (append-nil, add-zero count) refl
pack_addresses-packed_by packed count (a ∷ as') h =
    let e : count + 1 + length as' ≡ count + suc (length as') = omega arith in
    let small : leb a 0xFFFF ≡ true = ground arith in
    rw
      (
        small,
        pack_addresses-packed_by (packed ++ be 2 a) (count + 1) as' h.1,
        append_assoc packed (be 2 a) (packed_by as'),
        e,
      )
      refl

read_addresses-packed_by :
    (addresses : List ℕ)
    → All (λ (a : ℕ). a ≤ 0xFFFF) addresses
    → read_addresses (packed_by addresses) ≡ addresses
unfolding read_addresses packed_by be
read_addresses-packed_by [] h = refl
read_addresses-packed_by (a ∷ as') h =
    let e : a / 256 % 256 * 256 + a % 256 ≡ a = omega arith in
    rw (read_addresses-packed_by as' h.1, e) refl

-- One 16-bit address or more make a message: the opcode, then bytes from which the same addresses
-- are read in the same order.
pub read_addresses-add_addresses :
    (first : ℕ) (rest : List ℕ)
    → All (λ (a : ℕ). a ≤ 0xFFFF) (first ∷ rest)
    → (packed : Bytes) × (add_addresses (first ∷ rest) ≡ ok (op_add_addresses ∷ packed))
      × (read_addresses packed ≡ first ∷ rest)
unfolding add_addresses
read_addresses-add_addresses first rest h = (
  packed_by (first ∷ rest),
  rw (pack_addresses-packed_by [] 0 (first ∷ rest) h) (ground arith),
  read_addresses-packed_by (first ∷ rest) h,
)

pack_addresses_out_of_range :
    (packed : Bytes) (count : ℕ) (before after : List ℕ) (address : ℕ)
    → 0xFFFF < address
    → pack_addresses packed count (before ++ (address ∷ after)) ≡ err proxy_config_error
unfolding pack_addresses
pack_addresses_out_of_range packed count [] after address h = ground arith
pack_addresses_out_of_range packed count (a ∷ as') after address h =
    ground (arith, pack_addresses_out_of_range (packed ++ be 2 a) (count + 1) as' after address)

-- An address that needs more than 16 bits, wherever it stands, raises ProxyConfigError, and so
-- does an empty list.
pub add_addresses_error :
    (before after : List ℕ) (address : ℕ)
    → 0xFFFF < address
    → (add_addresses (before ++ (address ∷ after)) ≡ err proxy_config_error)
      × (add_addresses [] ≡ err proxy_config_error)
unfolding add_addresses pack_addresses
add_addresses_error before after address h =
    (rw (pack_addresses_out_of_range [] 0 before after address h) refl, refl)

-- A Filter Status of a type of one byte and a size of two parses to both.
pub parse_filter_status-be :
    (filter_type list_size : ℕ)
    → list_size < 2 ^ 16
    → parse_filter_status (op_filter_status ∷ filter_type ∷ be 2 list_size)
      ≡ ok (record { filter_type = filter_type; list_size = list_size })
unfolding parse_filter_status be from_big
parse_filter_status-be filter_type list_size h = ground arith
