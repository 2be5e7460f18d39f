-- ===== src/Netip/Nested.antt =====
-- Prefixes of net/netip inside one another.
use agents_net.Base.{
  ℕ, zero, suc, [], ◌+◌, ◌-◌, ◌*◌, ◌/◌, ◌^◌, ◌≤◌, ◌≡◌, sym, ◌∙◌, ap, true, arith, and_true, ==_iff,
}
use agents_net.Base.Bytes.{bytes_eq}
use native.Mathlib.Nat.{pow-zero, pow-suc, div-div-eq-div-mul}
use agents_net.Netip.{Addr, invalid, v4, v6, Prefix, contains, contains_addr, same_prefix}

div_power : (j k x : ℕ) → x / 2 ^ (j + k) ≡ x / 2 ^ j / 2 ^ k
div_power j zero x = let same : j + zero ≡ j = omega arith in rw same (omega (arith, pow-zero 2))
div_power j (suc k) x =
    let next : j + suc k ≡ suc (j + k) = omega arith in
    let whole : 2 ^ (j + suc k) ≡ 2 ^ (j + k) * 2 = rw next (pow-suc 2 (j + k)) in
    let part : 2 ^ suc k ≡ 2 ^ k * 2 = pow-suc 2 k in
    rw (whole, part)
      (sym (div-div-eq-div-mul x (2 ^ (j + k)) 2)
        ∙ ap (λ y. y / 2) (div_power j k x)
        ∙ div-div-eq-div-mul (x / 2 ^ j) (2 ^ k) 2)

-- Numbers that share `p` leading bits share `r` of them.
div_nested :
    (w r p a b : ℕ) → r ≤ p → a / 2 ^ (w - p) ≡ b / 2 ^ (w - p) → a / 2 ^ (w - r) ≡ b / 2 ^ (w - r)
div_nested w r p a b h e =
    let split : w - r ≡ (w - p) + (w - r - (w - p)) = omega arith in
    rw split (div_power (w - p) _ a ∙ rw e (sym (div_power (w - p) _ b)))

-- What lies in a prefix lies in every shorter prefix that holds the address of the prefix.
pub contains_nested :
    (r p : Prefix) (a : Addr)
    → r.bits ≤ p.bits
    → contains r p.addr ≡ true
    → contains p a ≡ true
    → contains r a ≡ true
unfolding contains
contains_nested r p a h outer inner = go r.addr p.addr a outer inner
  where
    go :
        (x y z : Addr)
        → contains_addr x r.bits y ≡ true
        → contains_addr y p.bits z ≡ true
        → contains_addr x r.bits z ≡ true
    go (v4 x) (v4 y) (v4 z) o i =
        let near = div_nested 32 r.bits p.bits z y h ((==_iff _ _).0 i) in
        (==_iff _ _).1 (near ∙ (==_iff _ _).0 o)
    go (v6 x s) (v6 y t) (v6 z u) o i =
        let (plain, same) = and_true (bytes_eq u []) (same_prefix 128 p.bits z y) i in
        let (_, o') = and_true (bytes_eq t []) (same_prefix 128 r.bits y x) o in
        let near = div_nested 128 r.bits p.bits z y h ((==_iff _ _).0 same) in
        rw plain ((==_iff _ _).1 (near ∙ (==_iff _ _).0 o'))
    go invalid y z o i = cc
    go (v4 x) invalid z o i = cc
    go (v6 x s) invalid z o i = cc
    go (v4 x) (v6 y t) z o i = cc
    go (v6 x s) (v4 y) z o i = cc
    go (v4 x) (v4 y) invalid o i = cc
    go (v4 x) (v4 y) (v6 z u) o i = cc
    go (v6 x s) (v6 y t) invalid o i = cc
    go (v6 x s) (v6 y t) (v4 z) o i = cc
