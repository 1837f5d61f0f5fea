-- ===== src/Utils/Hash.antt =====
-- The hash of a string in src/slam_utils.c has 28 bits.
use Prim.Native.Nat.{bit_and, bit_xor}
use slam.Base.{
  ℕ, zero, suc, ◌+◌, ◌*◌, ◌/◌, ◌^◌, ◌<◌, ◌≡◌, refl, sym, ◌∙◌, ap, ap₂, Bool, true, [], ◌∷◌, arith,
  u32, ◌==◌, ◌&&◌, bit_and-shift, bit_xor-shift, if◌then◌else◌,
}
use slam.Lua.Api.{Text}
use slam.Utils.{hash_round, hash_from, hash_string, extended}

-- each number below a bound passes a test
all_below : ℕ → (ℕ → Bool) → Bool
all_below zero test = true
all_below (suc n) test = test n && all_below n test

all_below-at : (n : ℕ) (test : ℕ → Bool) (t : ℕ) → all_below n test ≡ true → t < n → test t ≡ true
unfolding all_below
all_below-at zero test t all h = absurd (omega arith)
all_below-at (suc n) test t all h = ground (arith, all_below-at n test t)

-- each of sixteen digits, masked by 15, is itself, and the exclusive or with itself is 0.
digit_table : all_below 16 (λ t. bit_and t 15 == t && bit_xor (bit_xor t 0) t == 0) ≡ true
unfolding all_below
digit_table = refl

digit_kept : (t : ℕ) → t < 16 → bit_and t 15 ≡ t
digit_kept t h = ground (arith, all_below-at 16 _ t digit_table h)

digit_cleared : (t : ℕ) → t < 16 → bit_xor (bit_xor t 0) t ≡ 0
digit_cleared t h = ground (arith, all_below-at 16 _ t digit_table h)

below : (n : ℕ) → n / 2 ^ 28 ≡ 0 → n < 2 ^ 28
below n h = omega arith

-- the top digit of the mask
masked : (n : ℕ) → n < 2 ^ 32 → bit_and n 0xF0000000 / 2 ^ 28 ≡ n / 2 ^ 28
masked n h = bit_and-shift n 0xF0000000 ∙ digit_kept (n / 2 ^ 28) (omega arith)

-- A number of 32 bits whose top digit is taken out of it, here and below.
cleared :
    (n g : ℕ) → n < 2 ^ 32 → g / 2 ^ 28 ≡ n / 2 ^ 28 → bit_xor (bit_xor n (g / 2 ^ 24)) g < 2 ^ 28
cleared n g h e = below (bit_xor (bit_xor n (g / 2 ^ 24)) g) (
    bit_xor-shift (bit_xor n (g / 2 ^ 24)) g
    ∙ ap₂ bit_xor (bit_xor-shift n (g / 2 ^ 24) ∙ ap (bit_xor (n / 2 ^ 28)) (omega arith)) e
    ∙ digit_cleared (n / 2 ^ 28) (omega arith))

u32-lt : (n : ℕ) → u32 n < 2 ^ 32
u32-lt n = omega arith

round-lt :
    (n g : ℕ)
    → n < 2 ^ 32
    → g / 2 ^ 28 ≡ n / 2 ^ 28
    → (if g == 0 then n else bit_xor (bit_xor n (g / 2 ^ 24)) g) < 2 ^ 28
round-lt n zero h e = below n (sym e)
round-lt n (suc g) h e = ground (arith, cleared n (suc g) h e)

hash_round-lt : (h c : ℕ) → hash_round h c < 2 ^ 28
unfolding hash_round
hash_round-lt h c =
    round-lt (u32 (h * 2 ^ 4 + extended c)) (bit_and (u32 (h * 2 ^ 4 + extended c)) 0xF0000000)
      (omega arith) (masked (u32 (h * 2 ^ 4 + extended c)) (omega arith))

hash_from-lt : (h : ℕ) (s : Text) → h < 2 ^ 28 → hash_from h s < 2 ^ 28
unfolding hash_from
hash_from-lt h [] b = b
hash_from-lt h (c ∷ s) b = hash_from-lt (hash_round h c) s (hash_round-lt h c)

-- The hash of every string has 28 bits: its top digit is zero.
pub hash_string-lt : (s : Text) → hash_string s < 2 ^ 28
unfolding hash_string
hash_string-lt s = hash_from-lt 0 s (omega arith)
