-- ===== src/ProxyPdu/Frames.antt =====
-- What `segment` makes: frames that fit the MTU and together carry the payload.
use ha_bluetooth_mesh.Prelude.{
  ℕ, zero, suc, ◌+◌, ◌-◌, ◌/◌, ◌%◌, ◌^◌, ◌≤◌, ◌<◌, ◌≡◌, arith, inl, inr, List, [], ◌∷◌, ◌++◌, ltb,
  lt→ltb, length, drop, length-take, take-append-drop, drop-drop, drop_all, All, Bool-cases,
}
use ha_bluetooth_mesh.Prelude.Bits.{bit_or_disjoint}
use ha_bluetooth_mesh.Prelude.Bytes.{Bytes}
use ha_bluetooth_mesh.Prelude.Outcome.{ok}
use ha_bluetooth_mesh.ProxyPdu.{header, chunks_from, frames_from, segment, sar_complete}

-- The first octet of a frame, read back.
pub header_fields :
    (sar msg_type : ℕ)
    → msg_type < 64
    → (header sar msg_type / 2 ^ 6 ≡ sar) × (header sar msg_type % 2 ^ 6 ≡ msg_type)
unfolding header
header_fields sar msg_type h = (
  omega (arith, bit_or_disjoint 6 sar msg_type h),
  omega (arith, bit_or_disjoint 6 sar msg_type h),
)

unfoldable pub concat : List Bytes → Bytes
concat [] = []
concat (x ∷ xs) = x ++ concat xs

-- The parts, put together again, are the payload from `i` on.
pub concat-chunks_from :
    (fuel i chunk : ℕ) (payload : Bytes)
    → 0 < chunk
    → length payload ≤ i + fuel
    → concat (chunks_from fuel i chunk payload) ≡ drop i payload
unfolding chunks_from concat
concat-chunks_from zero i chunk payload pos enough = rw (drop_all i payload (omega arith))
concat-chunks_from (suc fuel) i chunk payload pos enough =
    let width : i + chunk - i ≡ chunk = omega arith in
    elim (Bool-cases (ltb i (length payload))) [
      | inl more ↦
          rw (more, concat-chunks_from fuel (i + chunk) chunk payload pos (omega arith), width)
            (rw (← drop-drop chunk i payload) (take-append-drop chunk (drop i payload)))
      | inr end ↦ rw (end, drop_all i payload (ground arith))
    ]

-- Every part has at most `chunk` bytes.
pub chunks_from_width :
    (fuel i chunk : ℕ) (payload : Bytes)
    → All (λ (part : Bytes). length part ≤ chunk) (chunks_from fuel i chunk payload)
unfolding chunks_from
chunks_from_width zero i chunk payload = tt
chunks_from_width (suc fuel) i chunk payload = elim (Bool-cases (ltb i (length payload))) [
  | inl more ↦ rw more (
    omega (arith, length-take (i + chunk - i) (drop i payload)),
    chunks_from_width fuel (i + chunk) chunk payload,
  )
  | inr end ↦ rw end tt
]

-- A payload of more than `chunk` bytes takes two parts at least.
pub chunks_from_many :
    (fuel chunk : ℕ) (payload : Bytes)
    → 0 < chunk
    → chunk < length payload
    → length payload ≤ fuel
    → 2 ≤ length (chunks_from fuel 0 chunk payload)
unfolding chunks_from
chunks_from_many zero chunk payload pos long enough = absurd (omega arith)
chunks_from_many (suc zero) chunk payload pos long enough = absurd (omega arith)
chunks_from_many (suc (suc fuel)) chunk payload pos long enough =
    rw (lt→ltb 0 (length payload) (omega arith), lt→ltb (0 + chunk) (length payload) (omega arith))
      (omega arith)

frames_from_width :
    (msg_type n i chunk : ℕ) (parts : List Bytes)
    → All (λ (part : Bytes). length part ≤ chunk) parts
    → All (λ (frame : Bytes). length frame ≤ chunk + 1) (frames_from msg_type n i parts)
unfolding frames_from
frames_from_width msg_type n i chunk [] h = tt
frames_from_width msg_type n i chunk (part ∷ parts) h =
    (omega arith, frames_from_width msg_type n (i + 1) chunk parts h.1)

-- The two shapes of a successful `segment`.
pub segment_short :
    (msg_type : ℕ) (payload : Bytes) (mtu : ℕ)
    → msg_type < 64
    → 2 ≤ mtu
    → length payload ≤ mtu - 1
    → segment msg_type payload mtu ≡ ok ((header sar_complete msg_type ∷ payload) ∷ [])
unfolding segment
segment_short msg_type payload mtu small room short = ground arith

pub segment_long :
    (msg_type : ℕ) (payload : Bytes) (mtu : ℕ)
    → msg_type < 64
    → 2 ≤ mtu
    → mtu - 1 < length payload
    → segment msg_type payload mtu
      ≡ ok (
          frames_from msg_type
            (length (chunks_from (length payload) 0 (mtu - 1) payload))
            0
            (chunks_from (length payload) 0 (mtu - 1) payload))
unfolding segment
segment_long msg_type payload mtu small room long = ground arith

-- Frames of the parts of a long payload fit the MTU.
pub frames_fit :
    (msg_type n : ℕ) (payload : Bytes) (mtu : ℕ)
    → 2 ≤ mtu
    → All
        (λ (frame : Bytes). length frame ≤ mtu)
        (frames_from msg_type n 0 (chunks_from (length payload) 0 (mtu - 1) payload))
frames_fit msg_type n payload mtu room =
    let room' : mtu - 1 + 1 ≡ mtu = omega arith in
    rw room' at (
      frames_from_width msg_type n 0 (mtu - 1) _
        (chunks_from_width (length payload) 0 (mtu - 1) payload))
