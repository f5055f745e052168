-- ===== src/Network/Sequence.antt =====
-- Sequence numbers: a SEQ used twice under one IV Index would repeat a nonce.
use ha_bluetooth_mesh.Prelude.{
  ℕ, zero, suc, ◌+◌, ◌^◌, ◌≤◌, ◌<◌, ◌≡◌, subst, arith, ◌&&◌, leb, if◌then◌else◌, ◌⊎◌, inl, inr,
  List, [], ◌∷◌, ◌++◌,
}
use ha_bluetooth_mesh.Prelude.Outcome.{Result, ok, err, network_error}
use ha_bluetooth_mesh.Network.{NetworkContext, next_seq}

-- A call succeeds exactly if it asks for at least one SEQ and the block ends by 0xFFFFFF; it then
-- returns the cursor and moves it past the block. Any other call raises NetworkError and leaves
-- the context alone.
pub next_seq_lem :
    (ctx : NetworkContext) (count : ℕ)
    → next_seq ctx count ≡ (
        if leb 1 count && leb (ctx.seq + count) (2 ^ 24)
        then (record ctx { seq = ctx.seq + count }, ok ctx.seq)
        else (ctx, err network_error))
unfolding next_seq
next_seq_lem ctx count = ground arith

-- `n` numbers from `first` on.
block : ℕ → ℕ → List ℕ
block first zero = []
block first (suc n) = first ∷ block (first + 1) n

-- The numbers that a call gives the right to use.
granted : ℕ → Result ℕ → List ℕ
unfolding block
granted count (ok first) = block first count
granted count (err e) = []

-- Calls of `next_seq` one after the other, refused ones included: the context at the end, and
-- every SEQ that was handed out.
pub allocate : NetworkContext → List ℕ → NetworkContext × List ℕ
unfolding granted
allocate ctx [] = (ctx, [])
allocate ctx (count ∷ counts) =
    let (ctx', first) = next_seq ctx count in
    let (ctx'', rest) = allocate ctx' counts in (ctx'', granted count first ++ rest)

-- Rising from `from` on, and below `to`.
abbrev pub IsRising : ℕ → ℕ → List ℕ → Type 0
IsRising from to [] = from ≤ to
IsRising from to (x ∷ xs) = (from ≤ x) × (x < to) × IsRising (x + 1) to xs

block-IsRising :
    (first n to : ℕ) (rest : List ℕ)
    → first + n ≤ to
    → IsRising (first + n) to rest
    → IsRising first to (block first n ++ rest)
unfolding block
block-IsRising first zero to rest h r =
    let e : first + 0 ≡ first = omega arith in subst (λ (k : ℕ). IsRising k to rest) e r
block-IsRising first (suc n) to rest h r =
    let e : first + suc n ≡ first + 1 + n = omega arith in
    (
      omega arith,
      omega arith,
      block-IsRising (first + 1) n to rest (omega arith)
          (subst (λ (k : ℕ). IsRising k to rest) e r),
    )

-- A call either moves the cursor over the block that it grants, or grants nothing.
next_seq_cases :
    (ctx : NetworkContext) (count : ℕ)
    → ((next_seq ctx count ≡ (record ctx { seq = ctx.seq + count }, ok ctx.seq))
        × (ctx.seq + count ≤ 2 ^ 24))
      ⊎ (next_seq ctx count ≡ (ctx, err network_error))
unfolding next_seq
next_seq_cases ctx count = ground arith

-- However often and for however many numbers it is called, the SEQs handed out rise strictly,
-- from the cursor at the start to below the cursor at the end, so none is handed out twice; and
-- a cursor that started within the 24-bit space ends within it.
pub allocate-IsRising :
    (ctx : NetworkContext) (counts : List ℕ)
    → ctx.seq ≤ 2 ^ 24
    → IsRising ctx.seq (allocate ctx counts).0.seq (allocate ctx counts).1
      × (ctx.seq ≤ (allocate ctx counts).0.seq)
      × ((allocate ctx counts).0.seq ≤ 2 ^ 24)
unfolding allocate
allocate-IsRising ctx [] h = (omega arith, omega arith, h)
allocate-IsRising ctx (count ∷ counts) h = elim (next_seq_cases ctx count) [
  | inl (moved, fits) ↦
      let (rising, grows, ends) =
        allocate-IsRising (record ctx { seq = ctx.seq + count }) counts fits in
      rw moved (block-IsRising ctx.seq count _ _ grows rising, omega arith, ends)
  | inr refused ↦ rw refused (allocate-IsRising ctx counts h)
]
