-- ===== src/Netip/Equality.antt =====
-- `addr_eq` decides equality, and what `next` and `unmap` do inside a prefix.
use agents_net.Base.{ℕ, ◌+◌, ◌^◌, ◌≡◌, ◌↔◌, refl, true, false, arith, ◌==◌, inl, inr, Bool-cases}
use agents_net.Base.Bytes.{bytes_eq_iff, bytes_eq_refl}
use agents_net.Netip.{Addr, invalid, v4, v6, Prefix, addr_eq, next, contains, contains_addr, is6}

addr_eq→eq : (a b : Addr) → addr_eq a b ≡ true → a ≡ b
unfolding addr_eq
addr_eq→eq invalid invalid h = refl
addr_eq→eq (v4 a) (v4 b) h = ground arith
addr_eq→eq (v6 a z) (v6 b y) h = ground (arith, bytes_eq_iff z y)
addr_eq→eq invalid (v4 b) h = cc
addr_eq→eq invalid (v6 b y) h = cc
addr_eq→eq (v4 a) invalid h = cc
addr_eq→eq (v4 a) (v6 b y) h = cc
addr_eq→eq (v6 a z) invalid h = cc
addr_eq→eq (v6 a z) (v4 b) h = cc

pub addr_eq_refl : (a : Addr) → addr_eq a a ≡ true
unfolding addr_eq
addr_eq_refl invalid = refl
addr_eq_refl (v4 a) = ground arith
addr_eq_refl (v6 a z) = ground (arith, bytes_eq_refl z)

pub addr_eq_iff : (a b : Addr) → (addr_eq a b ≡ true) ↔ (a ≡ b)
addr_eq_iff a b = (addr_eq→eq a b, λ e. rw e (addr_eq_refl b))

-- The number of an address in its family.
abbrev pub number : Addr → ℕ
number invalid = 0
number (v4 n) = n
number (v6 n z) = n

contains_addr-invalid : (b : Addr) (bits : ℕ) → contains_addr b bits invalid ≡ false
contains_addr-invalid invalid bits = refl
contains_addr-invalid (v4 n) bits = refl
contains_addr-invalid (v6 n z) bits = refl

invalid_outside : (p : Prefix) → contains p invalid ≡ true → ⊥
unfolding contains
invalid_outside p h = cc (contains_addr-invalid p.addr p.bits)

-- The next address of a prefix is the next number, in the same family.
pub next_contained :
    (p : Prefix) (a : Addr)
    → contains p (next a) ≡ true
    → (number (next a) ≡ number a + 1) × (is6 (next a) ≡ is6 a)
unfolding next contains
next_contained p invalid h = absurd (invalid_outside p h)
next_contained p (v4 n) h = elim (Bool-cases (n + 1 == 2 ^ 32)) [
  | inl e ↦ absurd (invalid_outside p (rw e at h))
  | inr e ↦ rw e (refl, refl)
]
next_contained p (v6 n z) h = elim (Bool-cases (n + 1 == 2 ^ 128)) [
  | inl e ↦ absurd (invalid_outside p (rw e at h))
  | inr e ↦ rw e (refl, refl)
]
