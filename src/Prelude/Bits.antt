-- ===== src/Prelude/Bits.antt =====
-- Masks as arithmetic: `x & 0x7f` at every number, and the sign and the top bit of seven bits.
use Prim.Native.Nat.{
  ℕ, zero, suc, ◌+◌, ◌*◌, ◌/◌, ◌%◌, ◌≤◌, ◌<◌, min, bit_and, bit_or, digits, bit_and-bitwise,
}
use mathlib.Core.Path.{◌≡◌, refl}
use mathlib.Core.Bool.{Bool, true, false}
use native.Mathlib.Omega.{arith}
use pocket_rust.Prelude.Tests.{◌==◌, if◌then◌else◌}

-- The mask `m` takes every number `a` to `g a`, however many rounds the digit recursion is given.
abbrev Masks : ℕ → (ℕ → ℕ) → Type 0
Masks m g = (rounds a : ℕ) → a ≤ rounds → digits (λ _. zero) min rounds a m ≡ g a

no_bits : Masks 0 (λ _. 0)
no_bits zero zero h = refl
no_bits zero (suc a) h = absurd (omega arith)
no_bits (suc rounds) zero h = refl
no_bits (suc rounds) (suc a) h = omega (arith, no_bits rounds (suc a / 2) (omega arith))

-- A mask with one more bit at the low end.
one_more_bit :
    (m : ℕ) (g : ℕ → ℕ) → Masks m g → g 0 ≡ 0 → Masks (m * 2 + 1) (λ a. g (a / 2) * 2 + a % 2)
one_more_bit m g h z zero zero le = omega (arith, z)
one_more_bit m g h z zero (suc a) le = absurd (omega arith)
one_more_bit m g h z (suc rounds) zero le = omega (arith, z)
one_more_bit m g h z (suc rounds) (suc a) le =
    let quotient : (m * 2 + 1) / 2 ≡ m = omega arith in
    let bit : (m * 2 + 1) % 2 ≡ 1 = omega arith in
    rw (quotient, bit, h rounds (suc a / 2) (omega arith)) (omega arith)

three_bits :
    (m : ℕ) (g : ℕ → ℕ)
    → Masks m g
    → g 0 ≡ 0
    → Masks
        (((m * 2 + 1) * 2 + 1) * 2 + 1)
        (λ a. ((g (a / 2 / 2 / 2) * 2 + a / 2 / 2 % 2) * 2 + a / 2 % 2) * 2 + a % 2)
three_bits m g h z =
    one_more_bit _ _ (one_more_bit _ _ (one_more_bit m g h z) (omega (arith, z))) (omega (arith, z))

-- `x & 0x7f` is the remainder by 128.
pub low_seven : (a : ℕ) → bit_and a 0x7f ≡ a % 128
low_seven a =
    let three = three_bits 0 (λ _. 0) no_bits refl in
    let six = three_bits 7 _ three refl in
    omega (arith, bit_and-bitwise a 0x7f, one_more_bit 63 _ six refl a a (omega arith))

-- A test that passes at every number below a bound.
passes : (ℕ → Bool) → ℕ → Bool
passes test zero = true
passes test (suc n) = if test n then passes test n else false

passes-lt : (test : ℕ → Bool) (n i : ℕ) → passes test n ≡ true → i < n → test i ≡ true
unfolding passes
passes-lt test zero i all lt = absurd (omega arith)
passes-lt test (suc n) i all lt = ground (arith, passes-lt test n i)

-- `x | 0x80` sets the top bit of a group of seven bits.
pub set_top_bit : (x : ℕ) → x < 128 → bit_or x 0x80 ≡ x + 128
unfolding passes
set_top_bit x h = ground (arith, passes-lt (λ i. bit_or i 0x80 == (i + 128)) 128 x refl h)

-- `x & 0x40` is the sign bit of a group of seven bits.
pub sign_bit : (x : ℕ) → x < 128 → bit_and x 0x40 ≡ x / 64 * 64
unfolding passes
sign_bit x h = ground (arith, passes-lt (λ i. bit_and i 0x40 == (i / 64 * 64)) 128 x refl h)
