-- ===== src/ProxyPdu/RoundTrip.antt =====
-- The frames of `segment`, fed in order to a reassembler, give back the message.
use ha_bluetooth_mesh.Prelude.{
  ℕ, zero, suc, ◌+◌, ◌-◌, ◌≤◌, ◌<◌, ◌≡◌, refl, sym, ap, ap₂, ◌∙◌, arith, Option, none, some, List,
  [], ◌∷◌, ◌++◌, length, All, append-nil, append_assoc,
}
use ha_bluetooth_mesh.Prelude.Bytes.{Bytes}
use ha_bluetooth_mesh.Prelude.Outcome.{Result, ok}
use ha_bluetooth_mesh.ProxyPdu.{
  header, frames_from, chunks_from, segment, sar_at, sar_complete, Reassembler, reset, feed,
  feed_all,
}
use ha_bluetooth_mesh.ProxyPdu.Frames.{
  header_fields, concat, concat-chunks_from, chunks_from_many, segment_short, segment_long,
  frames_fit,
}
use native.Mathlib.Decide.{dec_le}

-- What `n` calls give, of which only the last has a message.
abbrev pub one_message : ℕ → ℕ → Bytes → List (Result (Option (ℕ × Bytes)))
one_message zero msg_type payload = []
one_message (suc zero) msg_type payload = ok (some (msg_type, payload)) ∷ []
one_message (suc (suc n)) msg_type payload = ok none ∷ one_message (suc n) msg_type payload

abbrev assembling : ℕ → Bytes → Reassembler
assembling msg_type buffer = record { msg_type = some msg_type; buffer = buffer }

feed_all_step :
    (r : Reassembler) (frame : Bytes) (frames : List Bytes) {r' r'' : Reassembler}
    {x : Result (Option (ℕ × Bytes))} {xs : List (Result (Option (ℕ × Bytes)))}
    → feed r frame ≡ (r', x)
    → feed_all r' frames ≡ (r'', xs)
    → feed_all r (frame ∷ frames) ≡ (r'', x ∷ xs)
unfolding feed_all
feed_all_step r frame frames p q = rw (p, q)

module _ (msg_type : ℕ) (small : msg_type < 64) where
  feed_first :
      (n : ℕ) (part : Bytes)
      → feed reset (header (sar_at 0 n) msg_type ∷ part) ≡ (assembling msg_type part, ok none)
  unfolding feed sar_at
  feed_first n part = ground (arith, header_fields 1 msg_type small)

  feed_middle :
      (n i : ℕ) (buffer part : Bytes)
      → 0 < i
      → i + 1 < n
      → feed (assembling msg_type buffer) (header (sar_at i n) msg_type ∷ part)
        ≡ (assembling msg_type (buffer ++ part), ok none)
  unfolding feed sar_at
  feed_middle n i buffer part pos inner = ground (arith, header_fields 2 msg_type small)

  feed_last :
      (n i : ℕ) (buffer part : Bytes)
      → 0 < i
      → i + 1 ≡ n
      → feed (assembling msg_type buffer) (header (sar_at i n) msg_type ∷ part)
        ≡ (reset, ok (some (msg_type, buffer ++ part)))
  unfolding feed sar_at
  feed_last n i buffer part pos end = ground (arith, header_fields 3 msg_type small)

  feed_rest :
      (n i : ℕ) (buffer part : Bytes) (parts : List Bytes)
      → 0 < i
      → i + length (part ∷ parts) ≡ n
      → feed_all (assembling msg_type buffer) (frames_from msg_type n i (part ∷ parts))
        ≡ (reset, one_message (length (part ∷ parts)) msg_type (buffer ++ concat (part ∷ parts)))
  unfolding feed_all frames_from concat
  feed_rest n i buffer part [] pos end =
      rw (feed_last n i buffer part pos (omega arith), append-nil) refl
  feed_rest n i buffer part (next ∷ parts) pos end =
      feed_all_step (assembling msg_type buffer) (header (sar_at i n) msg_type ∷ part)
        (frames_from msg_type n (i + 1) (next ∷ parts))
        (feed_middle n i buffer part pos (omega arith))
        (feed_rest n (i + 1) (buffer ++ part) next parts (omega arith) (omega arith))
      ∙ ap (λ (all : Bytes). (reset, one_message (length (part ∷ next ∷ parts)) msg_type all))
          (append_assoc buffer part (concat (next ∷ parts)))

  feed_parts :
      (n : ℕ) (parts : List Bytes)
      → 2 ≤ length parts
      → length parts ≡ n
      → feed_all reset (frames_from msg_type n 0 parts)
        ≡ (reset, one_message (length parts) msg_type (concat parts))
  unfolding frames_from concat
  feed_parts n [] many size = absurd (omega arith)
  feed_parts n (part ∷ []) many size = absurd (omega arith)
  feed_parts n (first ∷ next ∷ parts) many size =
      feed_all_step reset (header (sar_at 0 n) msg_type ∷ first)
        (frames_from msg_type n (0 + 1) (next ∷ parts)) (feed_first n first)
        (feed_rest n (0 + 1) first next parts (omega arith) (omega arith))

pub length-frames_from :
    (msg_type n i : ℕ) (parts : List Bytes) → length (frames_from msg_type n i parts) ≡ length parts
unfolding frames_from
length-frames_from msg_type n i [] = refl
length-frames_from msg_type n i (part ∷ parts) =
    ap suc (length-frames_from msg_type n (i + 1) parts)

feed_complete :
    (msg_type : ℕ) (payload : Bytes)
    → msg_type < 64
    → feed_all reset ((header sar_complete msg_type ∷ payload) ∷ [])
      ≡ (reset, ok (some (msg_type, payload)) ∷ [])
unfolding feed_all feed
feed_complete msg_type payload small = ground (arith, header_fields 0 msg_type small)

-- For a message type of 6 bits and an MTU of at least 2, `segment` succeeds; every frame fits the
-- MTU; and an idle reassembler that is fed the frames in order answers `None` to each but the last,
-- returns the message type and the whole payload at the last, and is idle again.
pub feed_all-segment :
    (msg_type : ℕ) (payload : Bytes) (mtu : ℕ)
    → msg_type < 64
    → 2 ≤ mtu
    → (frames : List Bytes) × (segment msg_type payload mtu ≡ ok frames)
      × All (λ (frame : Bytes). length frame ≤ mtu) frames
      × (feed_all reset frames ≡ (reset, one_message (length frames) msg_type payload))
feed_all-segment msg_type payload mtu small room = elim (dec_le (length payload) (mtu - 1)) [
  | yes short ↦ (
    (header sar_complete msg_type ∷ payload) ∷ [],
    segment_short msg_type payload mtu small room short,
    omega arith,
    feed_complete msg_type payload small,
  )
  | no long ↦
      let parts = chunks_from (length payload) 0 (mtu - 1) payload in
      let whole : concat parts ≡ payload =
        concat-chunks_from (length payload) 0 (mtu - 1) payload (omega arith) (omega arith) in
      let many : 2 ≤ length parts =
        chunks_from_many (length payload) (mtu - 1) payload (omega arith) (omega arith)
          (omega arith) in
      (
        frames_from msg_type (length parts) 0 parts,
        segment_long msg_type payload mtu small room (omega arith),
        frames_fit msg_type (length parts) payload mtu room,
        feed_parts msg_type small (length parts) parts many refl
            ∙ ap₂ (λ (n : ℕ) (all : Bytes). (reset, one_message n msg_type all))
                (sym (length-frames_from msg_type (length parts) 0 parts)) whole,
      )
]
