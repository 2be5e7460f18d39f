-- ===== src/Base/Bits.antt =====
-- `bit_or` with disjoint bits is a sum, and low-bit masks of a byte are remainders.
use Prim.Native.Nat.{
  ℕ, zero, suc, ◌+◌, ◌*◌, ◌/◌, ◌%◌, ◌^◌, ◌≤◌, ◌<◌, max, bit_and, bit_or, digits, bit_or-bitwise,
}
use mathlib.Core.Path.{◌≡◌, refl}
use mathlib.Core.Bool.{Bool, true, ◌&&◌}
use native.Mathlib.Omega.{arith}
use native.Mathlib.Nat.{pow-suc}
use agents_net.Base.Tests.{◌==◌, ==_iff}

every_below : ℕ → (ℕ → Bool) → Bool
every_below zero p = true
every_below (suc n) p = p n && every_below n p

every_below_sound : (n : ℕ) (p : ℕ → Bool) (x : ℕ) → every_below n p ≡ true → x < n → p x ≡ true
unfolding every_below
every_below_sound zero p x h lt = absurd (omega arith)
every_below_sound (suc n) p x h lt = ground (arith, every_below_sound n p x)

low_six_table : every_below 256 (λ x. bit_and x 0x3f == x % 64) ≡ true
unfolding every_below
low_six_table = refl

-- b & 0x3f of a byte.
pub low_six : (b : ℕ) → b < 256 → bit_and b 0x3f ≡ b % 64
low_six b h = (==_iff _ _).0 (every_below_sound 256 _ b low_six_table h)

-- What `bit_or` computes with fuel `n`.
abbrev or_digits : ℕ → ℕ → ℕ → ℕ
or_digits n a b = digits (λ b. b) max n a b

or_digits_fuel : (x y j k : ℕ) → x ≤ j → x ≤ k → or_digits j x y ≡ or_digits k x y
or_digits_fuel (suc x) y zero k below₁ below₂ = absurd (omega (arith, below₁))
or_digits_fuel (suc x) y (suc j) zero below₁ below₂ = absurd (omega (arith, below₂))
or_digits_fuel (suc x) y (suc j) (suc k) below₁ below₂ =
    omega (arith, or_digits_fuel (suc x / 2) (y / 2) j k (omega arith) (omega arith))
or_digits_fuel zero y (suc j) (suc k) below₁ below₂ = refl
or_digits_fuel zero y (suc j) zero below₁ below₂ = refl
or_digits_fuel zero y zero (suc k) below₁ below₂ = refl
or_digits_fuel zero y zero zero below₁ below₂ = refl

zero-bit_or : (b : ℕ) → bit_or 0 b ≡ b
zero-bit_or b = bit_or-bitwise 0 b

bit_or_step : (a b : ℕ) → bit_or a b ≡ bit_or (a / 2) (b / 2) * 2 + max (a % 2) (b % 2)
bit_or_step zero b = omega (arith, zero-bit_or b, zero-bit_or (b / 2))
bit_or_step (suc a) b = omega (
  arith,
  bit_or-bitwise (suc a) b,
  bit_or-bitwise (suc a / 2) (b / 2),
  or_digits_fuel (suc a / 2) (b / 2) a (suc a / 2) (omega arith) (omega arith),
)

bit_or-zero_fuel : (n a : ℕ) → a ≤ n → bit_or a 0 ≡ a
bit_or-zero_fuel n zero h = refl
bit_or-zero_fuel zero (suc a) h = absurd (omega arith)
bit_or-zero_fuel (suc n) (suc a) h =
    omega (arith, bit_or_step (suc a) 0, bit_or-zero_fuel n (suc a / 2) (omega arith))

bit_or-zero : (a : ℕ) → bit_or a 0 ≡ a
bit_or-zero a = bit_or-zero_fuel a a (omega arith)

bit_or-even : (a t : ℕ) → bit_or a (t * 2) ≡ bit_or (a / 2) t * 2 + a % 2
bit_or-even a t =
    let half : t * 2 / 2 ≡ t = omega arith in
    let step = bit_or_step a (t * 2) in omega (arith, rw half at step)

even-bit_or : (t a : ℕ) → bit_or (t * 2) a ≡ bit_or t (a / 2) * 2 + a % 2
even-bit_or t a =
    let half : t * 2 / 2 ≡ t = omega arith in
    let step = bit_or_step (t * 2) a in omega (arith, rw half at step)

double_power : (m k : ℕ) → k * 2 ^ suc m ≡ k * 2 ^ m * 2
double_power m k = rw pow-suc (omega arith)

-- The low `m` bits of one side and the high bits of the other.
pub bit_or_high : (m a k : ℕ) → a < 2 ^ m → bit_or a (k * 2 ^ m) ≡ a + k * 2 ^ m
bit_or_high zero zero k h = omega (arith, zero-bit_or (k * 2 ^ zero))
bit_or_high zero (suc a) k h = absurd (omega arith)
bit_or_high (suc m) a k h =
    let lt : a / 2 < 2 ^ m = omega (arith, pow-suc 2 m) in
    rw (double_power m k) (omega (arith, bit_or-even a (k * 2 ^ m), bit_or_high m (a / 2) k lt))

pub bit_or_low : (m a k : ℕ) → a < 2 ^ m → bit_or (k * 2 ^ m) a ≡ k * 2 ^ m + a
bit_or_low zero zero k h = omega (arith, bit_or-zero (k * 2 ^ zero))
bit_or_low zero (suc a) k h = absurd (omega arith)
bit_or_low (suc m) a k h =
    let lt : a / 2 < 2 ^ m = omega (arith, pow-suc 2 m) in
    rw (double_power m k) (omega (arith, even-bit_or (k * 2 ^ m) a, bit_or_low m (a / 2) k lt))
