-- ===== src/Base/Bits.antt =====
-- Bitwise operations on the native numbers, shifted to the right: the operation of two shifted numbers
-- is the shifted result.
use Prim.Native.Nat.{
  ℕ, zero, suc, ◌+◌, ◌*◌, ◌/◌, ◌%◌, ◌^◌, ◌≤◌, ◌<◌, min, digits, bitwise, differ, bit_and, bit_xor,
  bit_and-bitwise, bit_xor-bitwise,
}
use mathlib.Core.Path.{◌≡◌, refl, sym, ap, ap₂, ◌∙◌}
use native.Mathlib.Omega.{arith}

module _ (z : ℕ → ℕ) (f : ℕ → ℕ → ℕ) (halves : (b : ℕ) → z b / 2 ≡ z (b / 2))
    (one_digit : (a b : ℕ) → f (a % 2) (b % 2) < 2) where
  -- Any count of digits that is not too small gives the same.
  digits_enough : (n m a b : ℕ) → a ≤ n → a ≤ m → digits z f n a b ≡ digits z f m a b
  digits_enough zero zero a b p q = refl
  digits_enough n m zero b p q = runs_out n ∙ sym (runs_out m)
    where
      runs_out : (k : ℕ) → digits z f k zero b ≡ z b
      runs_out zero = refl
      runs_out (suc k) = refl
  digits_enough zero (suc m) (suc a) b p q = absurd (omega arith)
  digits_enough (suc n) zero (suc a) b p q = absurd (omega arith)
  digits_enough (suc n) (suc m) (suc a) b p q =
      ap (λ d. d * 2 + f (suc a % 2) (b % 2))
        (digits_enough n m (suc a / 2) (b / 2) (omega arith) (omega arith))

  bitwise-half : (a b : ℕ) → bitwise z f a b / 2 ≡ bitwise z f (a / 2) (b / 2)
  bitwise-half zero b = halves b
  bitwise-half (suc a) b = omega (
    arith,
    one_digit (suc a) b,
    digits_enough a (suc a / 2) (suc a / 2) (b / 2) (omega arith) (omega arith),
  )

min_digit : (a b : ℕ) → min (a % 2) (b % 2) < 2
min_digit a b = omega arith

differ_below : (x y : ℕ) → x < 2 → y < 2 → differ x y < 2
differ_below zero y h k = k
differ_below (suc x) zero h k = h
differ_below (suc x) (suc y) h k = differ_below x y (omega arith) (omega arith)

differ_digit : (a b : ℕ) → differ (a % 2) (b % 2) < 2
differ_digit a b = differ_below (a % 2) (b % 2) (omega arith) (omega arith)

bit_and-half : (a b : ℕ) → bit_and a b / 2 ≡ bit_and (a / 2) (b / 2)
bit_and-half a b =
    ap (λ n. n / 2) (bit_and-bitwise a b)
    ∙ bitwise-half (λ b. zero) min (λ b. refl) min_digit a b
    ∙ sym (bit_and-bitwise (a / 2) (b / 2))

bit_xor-half : (a b : ℕ) → bit_xor a b / 2 ≡ bit_xor (a / 2) (b / 2)
bit_xor-half a b =
    ap (λ n. n / 2) (bit_xor-bitwise a b)
    ∙ bitwise-half (λ b. b) differ (λ b. refl) differ_digit a b
    ∙ sym (bit_xor-bitwise (a / 2) (b / 2))

-- An operation that commutes with halving commutes with the shift by a hexadecimal digit, and by seven.
module _ (f : ℕ → ℕ → ℕ) (half : (a b : ℕ) → f a b / 2 ≡ f (a / 2) (b / 2)) where
  sixteenth : (n : ℕ) → n / 2 / 2 / 2 / 2 ≡ n / 16
  sixteenth n = omega arith

  digit : (a b : ℕ) → f a b / 16 ≡ f (a / 16) (b / 16)
  digit a b =
      omega (
        arith,
        half a b,
        half (a / 2) (b / 2),
        half (a / 2 / 2) (b / 2 / 2),
        half (a / 2 / 2 / 2) (b / 2 / 2 / 2),
      )
      ∙ ap₂ f (sixteenth a) (sixteenth b)

  seven_sixteenths : (n : ℕ) → n / 16 / 16 / 16 / 16 / 16 / 16 / 16 ≡ n / 2 ^ 28
  seven_sixteenths n = omega arith

  seven_digits : (a b : ℕ) → f a b / 2 ^ 28 ≡ f (a / 2 ^ 28) (b / 2 ^ 28)
  seven_digits a b =
      omega (
        arith,
        digit a b,
        digit (a / 16) (b / 16),
        digit (a / 16 / 16) (b / 16 / 16),
        digit (a / 16 / 16 / 16) (b / 16 / 16 / 16),
        digit (a / 16 / 16 / 16 / 16) (b / 16 / 16 / 16 / 16),
        digit (a / 16 / 16 / 16 / 16 / 16) (b / 16 / 16 / 16 / 16 / 16),
        digit (a / 16 / 16 / 16 / 16 / 16 / 16) (b / 16 / 16 / 16 / 16 / 16 / 16),
      )
      ∙ ap₂ f (seven_sixteenths a) (seven_sixteenths b)

pub bit_and-shift : (a b : ℕ) → bit_and a b / 2 ^ 28 ≡ bit_and (a / 2 ^ 28) (b / 2 ^ 28)
bit_and-shift = seven_digits bit_and bit_and-half

pub bit_xor-shift : (a b : ℕ) → bit_xor a b / 2 ^ 28 ≡ bit_xor (a / 2 ^ 28) (b / 2 ^ 28)
bit_xor-shift = seven_digits bit_xor bit_xor-half
