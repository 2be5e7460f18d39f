-- ===== src/Base/Decimal.antt =====
-- strconv.ParseUint in base 10 and strconv.Itoa on numbers that are not negative.
use Prim.Native.Nat.{ℕ, zero, suc, ◌+◌, ◌-◌, ◌*◌, ◌/◌, ◌%◌, ◌≤◌, ◌<◌}
use mathlib.Core.Path.{◌≡◌, refl}
use mathlib.Core.Bool.{Bool, true, ◌&&◌}
use mathlib.Core.List.{[], ◌∷◌, ◌++◌}
use mathlib.Core.Option.{Option, none, some}
use mathlib.Core.Logic.{inl, inr}
use native.Mathlib.Omega.{arith}
use agents_net.Base.Tests.{ltb, leb, if◌then◌else◌, Bool-cases}
use agents_net.Base.Lists.{All, All-append}
use agents_net.Base.Bytes.{Bytes}

abbrev pub is_digit : ℕ → Bool
is_digit c = leb b'0' c && leb c b'9'

-- One digit: a value above `max` is ErrRange, a byte that is no digit ErrSyntax.
abbrev pub add_digit : ℕ → ℕ → ℕ → Option ℕ
add_digit max acc c =
    if is_digit c
    then (if leb (acc * 10 + (c - 48)) max then some (acc * 10 + (c - 48)) else none)
    else none

unfoldable pub parse_digits : ℕ → ℕ → Bytes → Option ℕ
parse_digits max acc [] = some acc
parse_digits max acc (c ∷ s) = elim (add_digit max acc c) [
  | none ↦ none
  | some n ↦ parse_digits max n s
]

-- strconv.ParseUint(s, 10, w) with `max` = 2^w - 1; both errors are `none`.
unfoldable pub parse_uint : ℕ → Bytes → Option ℕ
unfolding parse_digits
parse_uint max [] = none
parse_uint max (c ∷ s) = parse_digits max 0 (c ∷ s)

-- The fuel bounds the number of digits.
unfoldable pub digits_of : ℕ → ℕ → Bytes
digits_of zero n = (48 + n % 10) ∷ []
digits_of (suc f) n =
    let rest = digits_of f (n / 10) in
    if ltb n 10 then (48 + n) ∷ [] else rest ++ (48 + n % 10) ∷ []

unfoldable pub itoa : ℕ → Bytes
unfolding digits_of
itoa n = digits_of n n

-- The value read is never above the bound.
pub parse_digits-le :
    (max acc : ℕ) (s : Bytes) (n : ℕ) → acc ≤ max → parse_digits max acc s ≡ some n → n ≤ max
unfolding parse_digits
parse_digits-le max acc [] n h e = ground arith
parse_digits-le max acc (c ∷ s) n h e =
    ground (arith, parse_digits-le max (acc * 10 + (c - 48)) s n)

pub parse_uint-le : (max : ℕ) (s : Bytes) (n : ℕ) → parse_uint max s ≡ some n → n ≤ max
unfolding parse_uint
parse_uint-le max [] n e = cc
parse_uint-le max (c ∷ s) n e = parse_digits-le max 0 (c ∷ s) n (omega arith) e

-- What is read holds digits only.
pub parse_digits-is_digit :
    (max acc : ℕ) (s : Bytes) (n : ℕ)
    → parse_digits max acc s ≡ some n
    → All (λ c. is_digit c ≡ true) s
unfolding parse_digits
parse_digits-is_digit max acc [] n e = tt
parse_digits-is_digit max acc (c ∷ s) n e =
    ground (arith, parse_digits-is_digit max (acc * 10 + (c - 48)) s n)

pub parse_uint-is_digit :
    (max : ℕ) (s : Bytes) (n : ℕ) → parse_uint max s ≡ some n → All (λ c. is_digit c ≡ true) s
unfolding parse_uint
parse_uint-is_digit max [] n e = cc
parse_uint-is_digit max (c ∷ s) n e = parse_digits-is_digit max 0 (c ∷ s) n e

parse_digits-append :
    (max acc : ℕ) (s t : Bytes) (n : ℕ)
    → parse_digits max acc s ≡ some n
    → parse_digits max acc (s ++ t) ≡ parse_digits max n t
unfolding parse_digits
parse_digits-append max acc [] t n e = ground arith
parse_digits-append max acc (c ∷ s) t n e =
    ground (arith, parse_digits-append max (acc * 10 + (c - 48)) s t n)

parse_last :
    (max q d : ℕ)
    → d < 10
    → q * 10 + d ≤ max
    → parse_digits max q ((48 + d) ∷ []) ≡ some (q * 10 + d)
unfolding parse_digits
parse_last max q d h k = ground arith

digits_of_digits : (f n : ℕ) → All (λ c. is_digit c ≡ true) (digits_of f n)
unfolding digits_of
digits_of_digits zero n = ground arith
digits_of_digits (suc f) n = elim (Bool-cases (ltb n 10)) [
  | inl small ↦ rw small (ground arith, tt)
  | inr big ↦ rw big (
      All-append (λ c. is_digit c ≡ true) (digits_of f (n / 10)) ((48 + n % 10) ∷ [])
        (digits_of_digits f (n / 10)) (ground arith, tt))
]

pub itoa-is_digit : (n : ℕ) → All (λ c. is_digit c ≡ true) (itoa n)
unfolding itoa
itoa-is_digit n = digits_of_digits n n

parse_digits-digits_of :
    (f n max : ℕ) → n ≤ f → n ≤ max → parse_digits max 0 (digits_of f n) ≡ some n
unfolding digits_of
parse_digits-digits_of zero n max h k = ground (arith, parse_last max 0 0)
parse_digits-digits_of (suc f) n max h k = ground (
  arith,
  parse_last max 0 n,
  parse_digits-digits_of f (n / 10) max,
  parse_digits-append max 0 (digits_of f (n / 10)) ((48 + n % 10) ∷ []) (n / 10),
  parse_last max (n / 10) (n % 10),
)

digits_of_cons : (f n : ℕ) → (c : ℕ) × (s : Bytes) × (digits_of f n ≡ c ∷ s)
unfolding digits_of
digits_of_cons zero n = (48 + n % 10, [], refl)
digits_of_cons (suc f) n =
    let (c, s, e) = digits_of_cons f (n / 10) in
    elim (Bool-cases (ltb n 10)) [
      | inl small ↦ (48 + n, [], rw small)
      | inr big ↦ (c, s ++ (48 + n % 10) ∷ [], rw (big, e))
    ]

-- What Itoa writes ParseUint reads back, if it is in range.
pub parse_uint-itoa : (n max : ℕ) → n ≤ max → parse_uint max (itoa n) ≡ some n
unfolding itoa parse_uint
parse_uint-itoa n max h =
    let (c, s, e) = digits_of_cons n n in
    rw e (rw e at (parse_digits-digits_of n n max (omega arith) h))
