-- ===== src/Firewall/Digits.antt =====
-- The bytes of numbers in the rules of rules_linux.go of sdk/pkg/netnsproxy tell them apart.
use agents_net.Base.{ℕ, ◌/◌, ◌%◌, ◌^◌, ◌<◌, ◌≡◌, ap, [], ◌∷◌, ◌==◌, arith}
use agents_net.Base.Bytes.{Bytes, bytes_eq, bytes_eq_iff}
use agents_net.Firewall.{Endian, little, big, append_uint32, append_uint16}

four_digits :
    (a b : ℕ)
    → a < 2 ^ 32
    → b < 2 ^ 32
    → a % 256 ≡ b % 256
    → a / 256 % 256 ≡ b / 256 % 256
    → a / 65536 % 256 ≡ b / 65536 % 256
    → a / 16777216 % 256 ≡ b / 16777216 % 256
    → a ≡ b
four_digits a b a_below b_below p q r s = omega arith

same_four :
    {a b c d a' b' c' d' : ℕ}
    → ◌≡◌ {A = Bytes} (a ∷ b ∷ c ∷ d ∷ []) (a' ∷ b' ∷ c' ∷ d' ∷ [])
    → (a ≡ a') × (b ≡ b') × (c ≡ c') × (d ≡ d')
same_four h = (cc, cc, cc, cc)

append_uint32-inj :
    (e : Endian) (a b : ℕ) → a < 2 ^ 32 → b < 2 ^ 32 → append_uint32 e a ≡ append_uint32 e b → a ≡ b
unfolding append_uint32
append_uint32-inj little a b a_below b_below h =
    let (p, q, r, s) = same_four h in four_digits a b a_below b_below p q r s
append_uint32-inj big a b a_below b_below h =
    let (p, q, r, s) = same_four h in four_digits a b a_below b_below s r q p

pub append_uint32-bytes_eq :
    (e : Endian) (a b : ℕ)
    → a < 2 ^ 32
    → b < 2 ^ 32
    → bytes_eq (append_uint32 e a) (append_uint32 e b) ≡ (a == b)
append_uint32-bytes_eq e a b a_below b_below = ground (
  arith,
  append_uint32-inj e a b a_below b_below,
  ap (append_uint32 e) {x = a} {y = b},
  bytes_eq_iff (append_uint32 e a) (append_uint32 e b),
)

pub append_uint16-bytes_eq :
    (a b : ℕ) → a < 2 ^ 16 → b < 2 ^ 16 → bytes_eq (append_uint16 a) (append_uint16 b) ≡ (a == b)
unfolding bytes_eq
append_uint16-bytes_eq a b a_below b_below = ground arith

pub one_byte_eq : (a b : ℕ) → bytes_eq (a ∷ []) (b ∷ []) ≡ (a == b)
unfolding bytes_eq
one_byte_eq a b = ground arith
