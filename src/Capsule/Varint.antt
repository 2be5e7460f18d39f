-- ===== src/Capsule/Varint.antt =====
-- appendVarint and readVarint of sdk/pkg/tun2connect/capsule.go.
use agents_net.Base.{
  ℕ, zero, suc, ◌+◌, ◌-◌, ◌*◌, ◌/◌, ◌%◌, ◌^◌, ◌≤◌, ◌<◌, ◌≡◌, refl, ap, inl, inr, some, [], ◌∷◌,
  ◌++◌, arith, ltb, lt→ltb, ltb→lt, if◌then◌else◌, length, All, Bool-cases,
}
use agents_net.Base.Bytes.{Bytes}
use agents_net.Base.Result.{ok}
use agents_net.Base.Bits.{low_six, bit_or_high, bit_or_low}
use agents_net.Capsule.{ReadError, big_endian, append_varint, varint_bytes, read_varint}
use Prim.Native.Nat.{bit_or}
use native.Mathlib.Nat.{pow-suc}

abbrev pub IsByte : ℕ → Type 0
IsByte b = b < 256

-- The encoding in plain arithmetic, for a value below 2^62.
unfoldable pub encoding : ℕ → Bytes
unfolding big_endian
encoding v =
    if ltb v (2 ^ 6)
    then v ∷ []
    else if ltb v (2 ^ 14)
    then big_endian 2 (v + 2 ^ 14)
    else if ltb v (2 ^ 30)
    then big_endian 4 (v + 2 * 2 ^ 30)
    else big_endian 8 (v + 3 * 2 ^ 62)

or_two : (v : ℕ) → v < 2 ^ 14 → bit_or (v % 2 ^ 16) 0x4000 ≡ v + 2 ^ 14
or_two v h = let e : v % 2 ^ 16 ≡ v = omega arith in rw e (bit_or_high 14 v 1 h)

or_four : (v : ℕ) → v < 2 ^ 30 → bit_or (v % 2 ^ 32) 0x8000_0000 ≡ v + 2 * 2 ^ 30
or_four v h = let e : v % 2 ^ 32 ≡ v = omega arith in rw e (bit_or_high 30 v 2 h)

or_eight : (v : ℕ) → v < 2 ^ 62 → bit_or v 0xc000_0000_0000_0000 ≡ v + 3 * 2 ^ 62
or_eight v h = bit_or_high 62 v 3 h

-- appendVarint keeps what is in the buffer and appends the encoding.
pub append_varint-encoding :
    (b : Bytes) (v : ℕ) → v < 2 ^ 62 → append_varint b v ≡ some (b ++ encoding v)
unfolding append_varint encoding
append_varint-encoding b v h = elim (Bool-cases (ltb v (2 ^ 6))) [
  | inl one ↦ rw one (let e : v % 256 ≡ v = ground arith in rw e)
  | inr big ↦ rw big (elim (Bool-cases (ltb v (2 ^ 14))) [
    | inl two ↦ rw two (rw (or_two v (ground arith)))
    | inr big' ↦ rw big' (elim (Bool-cases (ltb v (2 ^ 30))) [
      | inl four ↦ rw four (rw (or_four v (ground arith)))
      | inr big'' ↦ rw big'' (rw (or_eight v h, lt→ltb v (2 ^ 62) h))
    ])
  ])
]

mul_mono : (x y z : ℕ) → y ≤ z → x * y ≤ x * z
mul_mono x y z h = grind arith

-- The number that base-256 digits stand for, most significant first, after the digits of `acc`.
abbrev digits_value : ℕ → Bytes → ℕ
digits_value acc [] = acc
digits_value acc (b ∷ bs) = digits_value (acc * 256 + b) bs

shift_in : (v b : ℕ) → v < 2 ^ 56 → b < 256 → bit_or (v * 256 % 2 ^ 64) b ≡ v * 256 + b
shift_in v b h k = let e : v * 256 % 2 ^ 64 ≡ v * 256 = omega arith in rw e (bit_or_low 8 b v k)

pow-pos : (k : ℕ) → 0 < 256 ^ k
pow-pos zero = omega arith
pow-pos (suc k) = omega (arith, pow-suc 256 k, pow-pos k)

pow_mono : (k m : ℕ) → k ≤ m → 256 ^ k ≤ 256 ^ m
pow_mono zero m h = pow-pos m
pow_mono (suc k) zero h = absurd (omega arith)
pow_mono (suc k) (suc m) h = omega (arith, pow-suc 256 k, pow-suc 256 m, pow_mono k m (omega arith))

-- Seven digits after six bits.
top_room : (b k : ℕ) → k ≤ 7 → (b % 64 + 1) * 256 ^ k ≤ 2 ^ 64
top_room b k h =
    let seven = pow_mono k 7 h in
    let low = mul_mono (256 ^ k) (b % 64 + 1) 64 (omega arith) in omega arith

-- One more digit leaves room for the others.
digit_room :
    (acc b k : ℕ)
    → b < 256
    → (acc + 1) * 256 ^ suc k ≤ 2 ^ 64
    → (acc < 2 ^ 56) × ((acc * 256 + b + 1) * 256 ^ k ≤ 2 ^ 64)
digit_room acc b k hb fits =
    let p = 256 ^ k in
    let pos : 1 ≤ p = pow-pos k in
    let shown = rw pow-suc at fits in
    let all_of : (acc + 1) * 256 * p ≤ 2 ^ 64 = omega arith in
    let low : (acc + 1) * 256 * 1 ≤ (acc + 1) * 256 * p = mul_mono ((acc + 1) * 256) 1 p pos in
    let digit : p * (acc * 256 + b + 1) ≤ p * ((acc + 1) * 256) = mul_mono p _ _ (omega arith) in
    (omega arith, omega arith)

varint_bytes-digits_value :
    (end : ReadError) (bs : Bytes) (acc : ℕ) (rest : Bytes)
    → All IsByte bs
    → (acc + 1) * 256 ^ length bs ≤ 2 ^ 64
    → varint_bytes end (length bs) acc (bs ++ rest) ≡ ok (digits_value acc bs, rest)
unfolding varint_bytes
varint_bytes-digits_value end [] acc rest h fits = refl
varint_bytes-digits_value end (b ∷ bs) acc rest (hb, hbs) fits =
    let room = digit_room acc b (length bs) hb fits in
    rw (shift_in acc b room.0 hb) (varint_bytes-digits_value end bs (acc * 256 + b) rest hbs room.1)

read_one :
    (end : ReadError) (v : ℕ) (rest : Bytes) → v < 2 ^ 6 → read_varint end (v ∷ rest) ≡ ok (v, rest)
unfolding read_varint
read_one end v rest h =
    let e : v / 2 ^ 6 ≡ 0 = omega arith in
    rw (e, low_six v (omega arith)) (let e' : v % 64 ≡ v = omega arith in rw e')

-- The first byte of a longer encoding: the length in the top two bits.
read_prefixed :
    (end : ReadError) (b₀ : ℕ) (bs : Bytes) (rest : Bytes)
    → IsByte b₀
    → All IsByte bs
    → length bs ≡ 2 ^ (b₀ / 64) - 1
    → length bs ≤ 7
    → read_varint end (b₀ ∷ bs ++ rest) ≡ ok (digits_value (b₀ % 64) bs, rest)
unfolding read_varint
read_prefixed end b₀ bs rest h hs e short =
    rw (low_six b₀ h, ← e)
      (varint_bytes-digits_value end bs (b₀ % 64) rest hs (top_room b₀ (length bs) short))

big_endian-IsByte : (k w : ℕ) → All IsByte (big_endian k w)
unfolding big_endian
big_endian-IsByte zero w = tt
big_endian-IsByte (suc k) w = (omega arith, big_endian-IsByte k w)

length-big_endian : (k w : ℕ) → length (big_endian k w) ≡ k
unfolding big_endian
length-big_endian zero w = refl
length-big_endian (suc k) w = ap suc (length-big_endian k w)

-- The top two bits of an encoding whose first byte `k` bytes follow.
abbrev tag_of : ℕ → ℕ
tag_of k = if ltb k 2 then 1 else if ltb k 4 then 2 else 3

-- An encoding of `k + 1` bytes, for the length `k` that its top two bits give.
read_wide :
    (end : ReadError) (k w v : ℕ) (rest : Bytes)
    → k ≤ 7
    → w / 256 ^ k % 256 / 64 ≡ tag_of k
    → digits_value (w / 256 ^ k % 256 % 64) (big_endian k w) ≡ v
    → 2 ^ tag_of k - 1 ≡ k
    → read_varint end (big_endian (suc k) w ++ rest) ≡ ok (v, rest)
unfolding big_endian
read_wide end k w v rest h tag value kk = rw (← value) (
    read_prefixed end (w / 256 ^ k % 256) (big_endian k w) rest (omega arith)
      (big_endian-IsByte k w) (rw (tag, length-big_endian k w, kk)) (rw length-big_endian h))

read_two :
    (end : ReadError) (v : ℕ) (rest : Bytes)
    → v < 2 ^ 14
    → read_varint end (big_endian 2 (v + 2 ^ 14) ++ rest) ≡ ok (v, rest)
unfolding big_endian
read_two end v rest h =
    read_wide end 1 (v + 2 ^ 14) v rest (omega arith) (omega arith) (omega arith) refl

read_four :
    (end : ReadError) (v : ℕ) (rest : Bytes)
    → v < 2 ^ 30
    → read_varint end (big_endian 4 (v + 2 * 2 ^ 30) ++ rest) ≡ ok (v, rest)
unfolding big_endian
read_four end v rest h =
    read_wide end 3 (v + 2 * 2 ^ 30) v rest (omega arith) (omega arith) (omega arith) refl

read_eight :
    (end : ReadError) (v : ℕ) (rest : Bytes)
    → v < 2 ^ 62
    → read_varint end (big_endian 8 (v + 3 * 2 ^ 62) ++ rest) ≡ ok (v, rest)
unfolding big_endian
read_eight end v rest h =
    read_wide end 7 (v + 3 * 2 ^ 62) v rest (omega arith) (omega arith) (omega arith) refl

-- An encoding read back, with whatever follows it.
pub read_varint-encoding :
    (end : ReadError) (v : ℕ) (rest : Bytes)
    → v < 2 ^ 62
    → read_varint end (encoding v ++ rest) ≡ ok (v, rest)
unfolding encoding
read_varint-encoding end v rest h = elim (Bool-cases (ltb v (2 ^ 6))) [
  | inl one ↦ rw one (read_one end v rest (ltb→lt _ _ one))
  | inr big ↦ rw big (elim (Bool-cases (ltb v (2 ^ 14))) [
    | inl two ↦ rw two (read_two end v rest (ltb→lt _ _ two))
    | inr big' ↦ rw big' (elim (Bool-cases (ltb v (2 ^ 30))) [
      | inl four ↦ rw four (read_four end v rest (ltb→lt _ _ four))
      | inr big'' ↦ rw big'' (read_eight end v rest h)
    ])
  ])
]
