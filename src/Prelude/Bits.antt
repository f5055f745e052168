-- ===== src/Prelude/Bits.antt =====
-- `|` of bit fields that do not overlap, and `^`, at variables.
use Prim.Native.Nat.{
  ℕ, zero, suc, ◌+◌, ◌*◌, ◌/◌, ◌%◌, ◌^◌, ◌≤◌, ◌<◌, max, bit_or, bit_xor, digits, differ,
  bit_or-bitwise, bit_xor-bitwise,
}
use mathlib.Core.Path.{◌≡◌, refl, ap, ap₂, ◌∙◌}
use native.Mathlib.Omega.{arith}
use native.Mathlib.Nat.{pow-suc}

-- The recursion on digits does not depend on its fuel, once there is enough.
module _ (f : ℕ → ℕ → ℕ) where
  abbrev run : ℕ → ℕ → ℕ → ℕ
  run n a b = digits (λ y. y) f n a b

  run_fuel : (n m a b : ℕ) → a ≤ n → a ≤ m → run n a b ≡ run m a b
  run_fuel zero zero a b p q = refl
  run_fuel zero (suc m) zero b p q = refl
  run_fuel zero (suc m) (suc a) b p q = absurd (omega arith)
  run_fuel (suc n) zero zero b p q = refl
  run_fuel (suc n) zero (suc a) b p q = absurd (omega arith)
  run_fuel (suc n) (suc m) zero b p q = refl
  run_fuel (suc n) (suc m) (suc a) b p q =
      omega (arith, run_fuel n m (suc a / 2) (b / 2) (omega arith) (omega arith))

bit_or_step : (a b : ℕ) → bit_or a b ≡ bit_or (a / 2) (b / 2) * 2 + max (a % 2) (b % 2)
bit_or_step zero b = omega (arith, bit_or-bitwise 0 b, bit_or-bitwise 0 (b / 2))
bit_or_step (suc a) b = omega (
  arith,
  bit_or-bitwise (suc a) b,
  bit_or-bitwise (suc a / 2) (b / 2),
  run_fuel max a (suc a / 2) (suc a / 2) (b / 2) (omega arith) (omega arith),
)

bit_xor_step : (a b : ℕ) → bit_xor a b ≡ bit_xor (a / 2) (b / 2) * 2 + differ (a % 2) (b % 2)
bit_xor_step zero b = omega (arith, bit_xor-bitwise 0 b, bit_xor-bitwise 0 (b / 2))
bit_xor_step (suc a) b = omega (
  arith,
  bit_xor-bitwise (suc a) b,
  bit_xor-bitwise (suc a / 2) (b / 2),
  run_fuel differ a (suc a / 2) (suc a / 2) (b / 2) (omega arith) (omega arith),
)

bit_or-zero_fuel : (n a : ℕ) → a ≤ n → bit_or a 0 ≡ a
bit_or-zero_fuel n zero h = refl
bit_or-zero_fuel zero (suc a) h = absurd (omega arith)
bit_or-zero_fuel (suc n) (suc a) h =
    omega (arith, bit_or_step (suc a) 0, bit_or-zero_fuel n (suc a / 2) (omega arith))

-- A field above the lowest `k` bits, and one in them.
pub bit_or_disjoint : (k hi lo : ℕ) → lo < 2 ^ k → bit_or (hi * 2 ^ k) lo ≡ hi * 2 ^ k + lo
bit_or_disjoint zero hi lo h =
    let low : lo ≡ 0 = omega arith in
    let high : hi * 2 ^ 0 ≡ hi = omega arith in
    ap₂ bit_or high low ∙ bit_or-zero_fuel hi hi (omega arith) ∙ omega arith
bit_or_disjoint (suc k) hi lo h =
    let double : hi * 2 ^ suc k ≡ hi * 2 ^ k * 2 =
      ap (λ (t : ℕ). hi * t) (pow-suc 2 k) ∙ omega arith in
    let half : hi * 2 ^ suc k / 2 ≡ hi * 2 ^ k = omega (arith, double) in
    omega (
      arith,
      double,
      bit_or_step (hi * 2 ^ suc k) lo,
      ap (λ (t : ℕ). bit_or t (lo / 2)) half,
      bit_or_disjoint k hi (lo / 2) (omega (arith, pow-suc 2 k)),
    )

digit_cases : (d e : ℕ) → d < 2 → e < 2 → (differ d e < 2) × (differ (differ d e) e ≡ d)
digit_cases zero zero p q = omega arith
digit_cases zero (suc zero) p q = omega arith
digit_cases (suc zero) zero p q = omega arith
digit_cases (suc zero) (suc zero) p q = omega arith
digit_cases (suc (suc d)) e p q = absurd (omega arith)
digit_cases zero (suc (suc e)) p q = absurd (omega arith)
digit_cases (suc zero) (suc (suc e)) p q = absurd (omega arith)

xor_bounded : (n a b : ℕ) → a < 2 ^ n → b < 2 ^ n → bit_xor a b < 2 ^ n
xor_bounded zero zero zero p q = omega (arith, bit_xor-bitwise 0 0)
xor_bounded zero (suc a) b p q = absurd (omega arith)
xor_bounded zero zero (suc b) p q = absurd (omega arith)
xor_bounded (suc n) a b p q = omega (
  arith,
  pow-suc 2 n,
  bit_xor_step a b,
  xor_bounded n (a / 2) (b / 2) (omega (arith, pow-suc 2 n)) (omega (arith, pow-suc 2 n)),
  digit_cases (a % 2) (b % 2) (omega arith) (omega arith),
)

xor_cancel : (n a b : ℕ) → a < 2 ^ n → b < 2 ^ n → bit_xor (bit_xor a b) b ≡ a
xor_cancel zero zero zero p q =
    ap (λ (t : ℕ). bit_xor t 0) (bit_xor-bitwise 0 0) ∙ bit_xor-bitwise 0 0
xor_cancel zero (suc a) b p q = absurd (omega arith)
xor_cancel zero zero (suc b) p q = absurd (omega arith)
xor_cancel (suc n) a b p q =
    let x = bit_xor a b in
    let ih =
      xor_cancel n (a / 2) (b / 2) (omega (arith, pow-suc 2 n)) (omega (arith, pow-suc 2 n)) in
    let (small, back) = digit_cases (a % 2) (b % 2) (omega arith) (omega arith) in
    let upper : x / 2 ≡ bit_xor (a / 2) (b / 2) = omega (arith, bit_xor_step a b) in
    let lower : x % 2 ≡ differ (a % 2) (b % 2) = omega (arith, bit_xor_step a b) in
    omega (
      arith,
      bit_xor_step x b,
      ap (λ (t : ℕ). bit_xor t (b / 2)) upper,
      ap (λ (t : ℕ). differ t (b % 2)) lower,
      ih,
      back,
    )

-- One byte of a keystream is taken off by the same byte.
pub bit_xor_byte : (x y : ℕ) → x < 256 → y < 256 → bit_xor (bit_xor x y) y ≡ x
bit_xor_byte = xor_cancel 8

pub bit_xor-IsByte : (x y : ℕ) → x < 256 → y < 256 → bit_xor x y < 256
bit_xor-IsByte = xor_bounded 8
