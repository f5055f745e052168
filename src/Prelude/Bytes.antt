-- ===== src/Prelude/Bytes.antt =====
-- Python's bytes as lists of numbers, and int.to_bytes / int.from_bytes in both byte orders.
use Prim.Native.Nat.{ℕ, zero, suc, ◌+◌, ◌*◌, ◌/◌, ◌%◌, ◌^◌, ◌≤◌, ◌<◌}
use mathlib.Core.Path.{◌≡◌, refl, ap, ◌∙◌}
use mathlib.Core.List.{List, [], ◌∷◌, ◌++◌}
use native.Mathlib.Omega.{arith}
use native.Mathlib.Nat.{pow-suc}
use ha_bluetooth_mesh.Prelude.Tests.{ltb, lt→ltb, if◌then◌else◌}
use ha_bluetooth_mesh.Prelude.Lists.{length, length-append, All, All-append}
use ha_bluetooth_mesh.Prelude.Outcome.{Result, ok, err, overflow_error, value_error}

abbrev pub Bytes : Type 0
Bytes = List ℕ

abbrev pub IsByte : ℕ → Type 0
IsByte b = b < 256

abbrev pub AllBytes : Bytes → Type 0
AllBytes = All IsByte

-- The `k` lowest bytes of `n`, the highest of them first.
unfoldable pub be : ℕ → ℕ → Bytes
be zero n = []
be (suc k) n = be k (n / 256) ++ (n % 256 ∷ [])

-- The `k` lowest bytes of `n`, the lowest first.
unfoldable pub le : ℕ → ℕ → Bytes
le zero n = []
le (suc k) n = n % 256 ∷ le k (n / 256)

-- `n.to_bytes(k, "big")`
unfoldable pub to_bytes_big : ℕ → ℕ → Result Bytes
to_bytes_big k n = if ltb n (256 ^ k) then ok (be k n) else err overflow_error

-- `n.to_bytes(k, "little")`
unfoldable pub to_bytes_little : ℕ → ℕ → Result Bytes
to_bytes_little k n = if ltb n (256 ^ k) then ok (le k n) else err overflow_error

-- `bytes([n])`
unfoldable pub byte : ℕ → Result Bytes
byte n = if ltb n 256 then ok (n ∷ []) else err value_error

-- `int.from_bytes(bs, "big")`, from what the bytes before gave.
unfoldable pub from_big_after : ℕ → Bytes → ℕ
from_big_after acc [] = acc
from_big_after acc (b ∷ bs) = from_big_after (acc * 256 + b) bs

unfoldable pub from_big : Bytes → ℕ
unfolding from_big_after
from_big bs = from_big_after 0 bs

-- `int.from_bytes(bs, "little")`
unfoldable pub from_little : Bytes → ℕ
from_little [] = 0
from_little (b ∷ bs) = b + 256 * from_little bs

pub length-be : (k n : ℕ) → length (be k n) ≡ k
unfolding be
length-be zero n = refl
length-be (suc k) n =
    length-append (be k (n / 256)) (n % 256 ∷ []) ∙ omega (arith, length-be k (n / 256))

pub length-le : (k n : ℕ) → length (le k n) ≡ k
unfolding le
length-le zero n = refl
length-le (suc k) n = ap suc (length-le k (n / 256))

pub be-AllBytes : (k n : ℕ) → AllBytes (be k n)
unfolding be
be-AllBytes zero n = tt
be-AllBytes (suc k) n =
    All-append IsByte (be k (n / 256)) (n % 256 ∷ []) (be-AllBytes k (n / 256)) (omega arith)

pub le-AllBytes : (k n : ℕ) → AllBytes (le k n)
unfolding le
le-AllBytes zero n = tt
le-AllBytes (suc k) n = (omega arith, le-AllBytes k (n / 256))

from_big_after-append :
    (acc : ℕ) (xs : Bytes) (b : ℕ)
    → from_big_after acc (xs ++ (b ∷ [])) ≡ from_big_after acc xs * 256 + b
unfolding from_big_after
from_big_after-append acc [] b = refl
from_big_after-append acc (x ∷ xs) b = from_big_after-append (acc * 256 + x) xs b

pub from_big-be : (k n : ℕ) → n < 256 ^ k → from_big (be k n) ≡ n
unfolding from_big be
from_big-be zero n h = omega arith
from_big-be (suc k) n h = omega (
  arith,
  from_big_after-append 0 (be k (n / 256)) (n % 256),
  from_big-be k (n / 256) (omega (arith, pow-suc 256 k)),
)

pub from_little-le : (k n : ℕ) → n < 256 ^ k → from_little (le k n) ≡ n
unfolding from_little le
from_little-le zero n h = omega arith
from_little-le (suc k) n h =
    omega (arith, from_little-le k (n / 256) (omega (arith, pow-suc 256 k)))

pub to_bytes_big-ok : (k n : ℕ) → n < 256 ^ k → to_bytes_big k n ≡ ok (be k n)
unfolding to_bytes_big
to_bytes_big-ok k n h = rw (lt→ltb _ _ h)

pub to_bytes_little-ok : (k n : ℕ) → n < 256 ^ k → to_bytes_little k n ≡ ok (le k n)
unfolding to_bytes_little
to_bytes_little-ok k n h = rw (lt→ltb _ _ h)

pub byte-ok : (n : ℕ) → n < 256 → byte n ≡ ok (n ∷ [])
unfolding byte
byte-ok n h = rw (lt→ltb _ _ h)

one_more_byte : (acc b unit : ℕ) → b < 256 → (acc * 256 + b + 1) * unit ≤ (acc + 1) * (unit * 256)
one_more_byte acc b unit h = grind arith

from_big_after-lt :
    (acc : ℕ) (bs : Bytes) → AllBytes bs → from_big_after acc bs < (acc + 1) * 256 ^ length bs
unfolding from_big_after
from_big_after-lt acc [] h = omega arith
from_big_after-lt acc (b ∷ bs) h = rw (pow-suc 256 (length bs)) (
    omega
      (arith, from_big_after-lt (acc * 256 + b) bs h.1, one_more_byte acc b (256 ^ length bs) h.0))

-- Bytes, read as a number, are below the power of 256 that their count gives.
pub from_big-lt : (bs : Bytes) → AllBytes bs → from_big bs < 256 ^ length bs
unfolding from_big
from_big-lt bs h = omega (arith, from_big_after-lt 0 bs h)

pub from_little-lt : (bs : Bytes) → AllBytes bs → from_little bs < 256 ^ length bs
unfolding from_little
from_little-lt [] h = omega arith
from_little-lt (b ∷ bs) h = rw (pow-suc 256 (length bs)) (omega (arith, from_little-lt bs h.1, h.0))
