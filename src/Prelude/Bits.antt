-- ===== src/Prelude/Bits.antt =====
-- Bit operations on bytes as arithmetic. Each fact is a table, checked by evaluation.
use Prim.Native.Nat.{ℕ, zero, suc, ◌+◌, ◌*◌, ◌/◌, ◌%◌, ◌<◌, bit_and, bit_or}
use mathlib.Core.Path.{◌≡◌, refl}
use mathlib.Core.Bool.{Bool, true, ◌&&◌}
use native.Mathlib.Omega.{arith}
use amber_store.Prelude.Tests.{◌==◌, ==_iff}

-- Two functions have the same values at the numbers below `n`.
same_upto : (ℕ → ℕ) → (ℕ → ℕ) → ℕ → Bool
same_upto f g zero = true
same_upto f g (suc n) = same_upto f g n && (f n == g n)

agree_at : (f g : ℕ → ℕ) (n x : ℕ) → x < n → same_upto f g n ≡ true → f x ≡ g x
unfolding same_upto
agree_at f g zero x h table = absurd (omega arith)
agree_at f g (suc n) x h table = ground (arith, agree_at f g n x, ==_iff (f x) (g x))

agree_below : (f g : ℕ → ℕ) (n : ℕ) → same_upto f g n ≡ true → (x : ℕ) → x < n → f x ≡ g x
agree_below f g n table x h = agree_at f g n x h table

pub bit_and_7 : (b : ℕ) → b < 256 → bit_and b 0x07 ≡ b % 8
unfolding same_upto
bit_and_7 = agree_below _ _ 256 refl

pub bit_and_8 : (b : ℕ) → b < 256 → bit_and b 0x08 ≡ b / 8 % 2 * 8
unfolding same_upto
bit_and_8 = agree_below _ _ 256 refl

pub bit_and_31 : (b : ℕ) → b < 256 → bit_and b 0x1f ≡ b % 32
unfolding same_upto
bit_and_31 = agree_below _ _ 256 refl

pub bit_and_fe : (b : ℕ) → b < 256 → bit_and b 0xfe ≡ b / 2 * 2
unfolding same_upto
bit_and_fe = agree_below _ _ 256 refl

pub bit_and_1 : (b : ℕ) → b < 256 → bit_and b 0x01 ≡ b % 2
unfolding same_upto
bit_and_1 = agree_below _ _ 256 refl

or_nibble_table : same_upto (λ x. bit_or (x / 16 * 16 % 256) (x % 16)) (λ x. x) 256 ≡ true
unfolding same_upto
or_nibble_table = refl

-- `hi<<4 | lo` for two nibbles.
pub or_nibble : (hi lo : ℕ) → hi < 16 → lo < 16 → bit_or (hi * 16 % 256) lo ≡ hi * 16 + lo
or_nibble hi lo h l =
    let q : (hi * 16 + lo) / 16 ≡ hi = omega arith in
    let r : (hi * 16 + lo) % 16 ≡ lo = omega arith in
    rw (q, r) at
      (agree_below (λ x. bit_or (x / 16 * 16 % 256) (x % 16)) (λ x. x) 256 or_nibble_table
        (hi * 16 + lo) (omega arith))

or_five_table : same_upto (λ x. bit_or (x / 32 * 32 % 256) (x % 32)) (λ x. x) 256 ≡ true
unfolding same_upto
or_five_table = refl

-- `major<<5 | lo` for three bits and five bits.
pub or_five : (hi lo : ℕ) → hi < 8 → lo < 32 → bit_or (hi * 32 % 256) lo ≡ hi * 32 + lo
or_five hi lo h l =
    let q : (hi * 32 + lo) / 32 ≡ hi = omega arith in
    let r : (hi * 32 + lo) % 32 ≡ lo = omega arith in
    rw (q, r) at
      (agree_below (λ x. bit_or (x / 32 * 32 % 256) (x % 32)) (λ x. x) 256 or_five_table
        (hi * 32 + lo) (omega arith))
