-- ===== src/Common/Bits.antt =====
-- Masks and shifts at variables, as arithmetic.
use Prim.Native.Nat.{
  ℕ, zero, suc, ◌+◌, ◌*◌, ◌/◌, ◌%◌, ◌^◌, ◌≤◌, ◌<◌, max, bit_and, bit_or, digits, bit_or-bitwise,
}
use mathlib.Core.Path.{◌≡◌, refl, ap, ◌∙◌}
use mathlib.Core.Bool.{Bool, true, ◌&&◌}
use native.Mathlib.Omega.{arith}
use native.Mathlib.Nat.{pow-suc}
use mqtt_protocol_v.Common.Tests.{◌==◌, ==_iff}

-- Over a small range, every value is checked by evaluation.
abbrev pub all_below : ℕ → (ℕ → Bool) → Bool
all_below zero p = true
all_below (suc n) p = p n && all_below n p

pub all_below_sound : (n : ℕ) (p : ℕ → Bool) (x : ℕ) → all_below n p ≡ true → x < n → p x ≡ true
all_below_sound zero p x h lt = absurd (omega arith)
all_below_sound (suc n) p x h lt = ground (arith, all_below_sound n p x)

pub bit_and_low : (b : ℕ) → b < 256 → bit_and b 127 ≡ b % 128
bit_and_low b h = (==_iff _ _).0 (all_below_sound 256 (λ x. bit_and x 127 == (x % 128)) b refl h)

pub bit_and_top : (b : ℕ) → b < 256 → bit_and b 128 ≡ b / 128 * 128
bit_and_top b h =
    (==_iff _ _).0 (all_below_sound 256 (λ x. bit_and x 128 == (x / 128 * 128)) b refl h)

pub bit_or_top : (b : ℕ) → b < 128 → bit_or b 128 ≡ b + 128
bit_or_top b h = (==_iff _ _).0 (all_below_sound 128 (λ x. bit_or x 128 == (x + 128)) b refl h)

pub bit_and_one : (b : ℕ) → b < 256 → bit_and b 1 ≡ b % 2
bit_and_one b h = (==_iff _ _).0 (all_below_sound 256 (λ x. bit_and x 1 == (x % 2)) b refl h)

pub bit_and_two : (b : ℕ) → b < 256 → bit_and b 2 ≡ b / 2 % 2 * 2
bit_and_two b h =
    (==_iff _ _).0 (all_below_sound 256 (λ x. bit_and x 2 == (x / 2 % 2 * 2)) b refl h)

pub bit_and_three : (b : ℕ) → b < 256 → bit_and b 3 ≡ b % 4
bit_and_three b h = (==_iff _ _).0 (all_below_sound 256 (λ x. bit_and x 3 == (x % 4)) b refl h)

double_shift : (b k : ℕ) → b * 2 ^ suc k ≡ 2 * (b * 2 ^ k)
double_shift b k = omega (arith, ap (λ (t : ℕ). b * t) (pow-suc 2 k))

-- The digits of `|` where the first number fits below the second: no digit meets another.
or_digits_disjoint :
    (n k a b : ℕ) → a < 2 ^ k → a ≤ n → digits (λ y. y) max n a (b * 2 ^ k) ≡ a + b * 2 ^ k
or_digits_disjoint zero k zero b small fuel = omega arith
or_digits_disjoint zero k (suc a) b small fuel = absurd (omega arith)
or_digits_disjoint (suc n) k zero b small fuel = omega arith
or_digits_disjoint (suc n) zero (suc a) b small fuel = absurd (omega arith)
or_digits_disjoint (suc n) (suc k) (suc a) b small fuel =
    let half : b * 2 ^ suc k / 2 ≡ b * 2 ^ k = omega (arith, double_shift b k) in
    let even : b * 2 ^ suc k % 2 ≡ 0 = omega (arith, double_shift b k) in
    let fits : suc a / 2 < 2 ^ k = omega (arith, pow-suc 2 k) in
    rw (half, even)
      (omega (arith, double_shift b k, or_digits_disjoint n k (suc a / 2) b fits (omega arith)))

-- `a | b << k` is a sum where `a` fits into `k` bits.
pub bit_or_disjoint : (k a b : ℕ) → a < 2 ^ k → bit_or a (b * 2 ^ k) ≡ a + b * 2 ^ k
bit_or_disjoint k a b small = bit_or-bitwise a _ ∙ or_digits_disjoint a k a b small (omega arith)
