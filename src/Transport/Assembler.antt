-- ===== src/Transport/Assembler.antt =====
-- `SegmentAssembler` of src/btmesh/transport.py.
pub mod Parts
pub mod Cover
pub mod Delivery
use ha_bluetooth_mesh.Prelude.{
  ℕ, zero, suc, ◌+◌, ◌*◌, ◌^◌, Bool, true, false, Option, none, some, List, [], ◌∷◌, ◌++◌, ◌&&◌,
  ltb, ◌==◌, if◌then◌else◌, not, length,
}
use ha_bluetooth_mesh.Prelude.Bytes.{Bytes}
use ha_bluetooth_mesh.Prelude.Outcome.{
  Result, ok, err, ◌>>=◌, from_option, transport_error, key_error,
}
use ha_bluetooth_mesh.Transport.{AccessSegment, segment_size}

-- A dict from SegO to its bytes, in insertion order.
abbrev pub Parts : Type 0
Parts = List (ℕ × Bytes)

-- `parts[i]`
pub lookup : ℕ → Parts → Option Bytes
lookup i [] = none
lookup i ((j, v) ∷ parts) = if j == i then some v else lookup i parts

-- `parts[i] = v` keeps the place of a key that is there.
pub insert : ℕ → Bytes → Parts → Parts
insert i v [] = (i, v) ∷ []
insert i v ((j, w) ∷ parts) = if j == i then (j, v) ∷ parts else (j, w) ∷ insert i v parts

-- `(akf, aid, szmic, seq_zero, seg_n)`
pub record TransferKey : Type 0 where
  pub akf : Bool
  pub aid : ℕ
  pub szmic : ℕ
  pub seq_zero : ℕ
  pub seg_n : ℕ

bool_eq : Bool → Bool → Bool
bool_eq true b = b
bool_eq false b = not b

-- `==` on two keys
pub key_eq : TransferKey → TransferKey → Bool
unfolding bool_eq
key_eq a b =
    bool_eq a.akf b.akf
    && (a.aid == b.aid)
    && (a.szmic == b.szmic)
    && (a.seq_zero == b.seq_zero)
    && (a.seg_n == b.seg_n)

abbrev pub key_of : AccessSegment → TransferKey
key_of seg = record {
  akf = seg.akf;
  aid = seg.aid;
  szmic = seg.szmic;
  seq_zero = seg.seq_zero;
  seg_n = seg.seg_n;
}

pub record SegmentAssembler : Type 0 where
  pub key : Option TransferKey
  pub parts : Parts
  pub is_complete : Bool

-- `SegmentAssembler()`, and the state after `reset()`
abbrev pub reset : SegmentAssembler
reset = record { key = none; parts = []; is_complete = false }

unfoldable pub seq_zero : SegmentAssembler → Option ℕ
seq_zero a = elim a.key [ none ↦ none | some k ↦ some k.seq_zero ]

-- `sum(1 << seg_o for seg_o in parts)`
pub bits_of : Parts → ℕ
bits_of [] = 0
bits_of ((i, v) ∷ parts) = 2 ^ i + bits_of parts

unfoldable pub block_ack : SegmentAssembler → ℕ
unfolding bits_of
block_ack a = bits_of a.parts

unfoldable pub complete : SegmentAssembler → Bool
complete a = a.is_complete

unfoldable pub pending : SegmentAssembler → Bool
pending a = elim a.key [ none ↦ false | some k ↦ not a.is_complete ]

-- `b"".join(parts[i] for i in range(n))`
unfoldable pub join_range : Parts → ℕ → Result Bytes
join_range parts zero = ok []
join_range parts (suc n) = do
  front ← join_range parts n
  part ← from_option key_error (lookup n parts)
  ok (front ++ part)

-- `if key != self._key`: another transfer starts over.
unfoldable pub track : SegmentAssembler → TransferKey → SegmentAssembler
unfolding key_eq
track a key =
    let same : Bool = elim a.key [ none ↦ false | some k ↦ key_eq key k ] in
    if same then a else record { key = some key; parts = []; is_complete = false }

-- From `self._parts[seg.seg_o] = seg.segment` on.
unfoldable pub store : SegmentAssembler → AccessSegment → SegmentAssembler × Result (Option Bytes)
store a seg =
    let parts = insert seg.seg_o seg.segment a.parts in
    let stored = record a { parts = parts } in
    if a.is_complete
    then (stored, ok none)
    else if ltb (length parts) (seg.seg_n + 1)
    then (stored, ok none)
    else (
      record a { parts = parts; is_complete = true },
      (do upper ← join_range parts (seg.seg_n + 1); ok (some upper)),
    )

-- The state after the call, and what it returns or raises.
unfoldable pub add : SegmentAssembler → AccessSegment → SegmentAssembler × Result (Option Bytes)
unfolding track store
add a seg =
    if ltb seg.seg_n seg.seg_o
    then (a, err transport_error)
    else if ltb seg.seg_o seg.seg_n && not (length seg.segment == segment_size)
    then (a, err transport_error)
    else store (track a (key_of seg)) seg
