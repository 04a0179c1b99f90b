-- ===== src/Base/Bits.antt =====
-- The bitwise operations as arithmetic: shifts of disjoint fields joined by `|`, and the range of
-- `^` and `&` at a width.
use Prim.Native.Nat.{
  ℕ, zero, suc, ◌+◌, ◌*◌, ◌/◌, ◌%◌, ◌^◌, ◌≤◌, ◌<◌, max, differ, bit_and, bit_or, bit_xor, digits,
  bit_and-bitwise, bit_or-bitwise, bit_xor-bitwise,
}
use mathlib.Core.Path.{◌≡◌, refl, ap}
use native.Mathlib.Nat.{pow-suc}
use native.Mathlib.Omega.{arith}

-- Any fuel from the first number on gives the same digits.
digits_fuel :
    (z : ℕ → ℕ) (f : ℕ → ℕ → ℕ) (n m a b : ℕ) → a ≤ n → a ≤ m → digits z f n a b ≡ digits z f m a b
digits_fuel z f (suc k) (suc l) (suc a) b p q =
    ap (λ t. t * 2 + f (suc a % 2) (b % 2))
      (digits_fuel z f k l (suc a / 2) (b / 2) (omega arith) (omega arith))
digits_fuel z f (suc k) (suc l) zero b p q = refl
digits_fuel z f (suc k) zero (suc a) b p q = absurd (omega arith)
digits_fuel z f (suc k) zero zero b p q = refl
digits_fuel z f zero (suc l) (suc a) b p q = absurd (omega arith)
digits_fuel z f zero (suc l) zero b p q = refl
digits_fuel z f zero zero a b p q = refl

zero-bit_or : (b : ℕ) → bit_or 0 b ≡ b
zero-bit_or b = bit_or-bitwise 0 b

zero-bit_xor : (b : ℕ) → bit_xor 0 b ≡ b
zero-bit_xor b = bit_xor-bitwise 0 b

zero-bit_and : (b : ℕ) → bit_and 0 b ≡ 0
zero-bit_and b = bit_and-bitwise 0 b

bit_or_step : (x y : ℕ) → bit_or x y ≡ bit_or (x / 2) (y / 2) * 2 + max (x % 2) (y % 2)
bit_or_step zero y = omega (arith, zero-bit_or y, zero-bit_or (y / 2))
bit_or_step (suc a) b = omega (
  arith,
  bit_or-bitwise (suc a) b,
  bit_or-bitwise (suc a / 2) (b / 2),
  digits_fuel (λ b. b) max a (suc a / 2) (suc a / 2) (b / 2) (omega arith) (omega arith),
)

differ-lt-two : (a b : ℕ) → a < 2 → b < 2 → differ a b < 2
differ-lt-two zero b p q = q
differ-lt-two (suc zero) zero p q = omega arith
differ-lt-two (suc zero) (suc b) p q = omega arith
differ-lt-two (suc (suc a)) b p q = omega arith

bit_xor_step : (a b : ℕ) → bit_xor a b ≡ bit_xor (a / 2) (b / 2) * 2 + differ (a % 2) (b % 2)
bit_xor_step zero b = omega (arith, zero-bit_xor b, zero-bit_xor (b / 2))
bit_xor_step (suc a) b = omega (
  arith,
  bit_xor-bitwise (suc a) b,
  bit_xor-bitwise (suc a / 2) (b / 2),
  digits_fuel (λ b. b) differ a (suc a / 2) (suc a / 2) (b / 2) (omega arith) (omega arith),
)

-- A word stays in its width under `^`.
pub bit_xor-lt_pow : (k a b : ℕ) → a < 2 ^ k → b < 2 ^ k → bit_xor a b < 2 ^ k
bit_xor-lt_pow zero zero b p q = rw zero-bit_xor q
bit_xor-lt_pow zero (suc a) b p q = absurd (omega arith)
bit_xor-lt_pow (suc k) a b p q = omega (
  arith,
  pow-suc 2 k,
  bit_xor_step a b,
  differ-lt-two (a % 2) (b % 2) (omega arith) (omega arith),
  bit_xor-lt_pow k (a / 2) (b / 2) (omega (arith, pow-suc 2 k)) (omega (arith, pow-suc 2 k)),
)

bit_or-zero_fuel : (n a : ℕ) → a ≤ n → bit_or a 0 ≡ a
bit_or-zero_fuel n zero h = zero-bit_or 0
bit_or-zero_fuel zero (suc a) h = absurd (omega arith)
bit_or-zero_fuel (suc n) (suc a) h =
    omega (arith, bit_or_step (suc a) 0, bit_or-zero_fuel n (suc a / 2) (omega arith))

-- `hi << k | lo`, where `lo` has k bits.
pub bit_or_fields : (k hi lo : ℕ) → lo < 2 ^ k → bit_or (hi * 2 ^ k) lo ≡ hi * 2 ^ k + lo
bit_or_fields zero hi zero h = omega (arith, bit_or-zero_fuel (hi * 1) (hi * 1) (omega arith))
bit_or_fields zero hi (suc lo) h = absurd (omega arith)
bit_or_fields (suc k) hi lo h =
    let double : hi * 2 ^ suc k ≡ hi * 2 ^ k * 2 = omega (arith, ap (λ t. hi * t) (pow-suc 2 k)) in
    let half : hi * 2 ^ k * 2 / 2 ≡ hi * 2 ^ k = omega arith in
    rw double (
      omega (
        arith,
        pow-suc 2 k,
        bit_or_step (hi * 2 ^ k * 2) lo,
        ap (λ t. bit_or t (lo / 2)) half,
        bit_or_fields k hi (lo / 2) (omega (arith, pow-suc 2 k)),
      ))
