-- ===== src/Dns/Lists.antt =====
-- The usage list of sdk/pkg/tun2connect/dns.go.
use agents_net.Base.{
  ◌+◌, ◌≤◌, ◌≡◌, refl, Bool, true, some, List, [], ◌∷◌, arith, length, All, any, Bool-cases, inl,
  inr,
}
use mathlib.Core.Path.{subst}
use agents_net.Netip.{Addr, addr_eq}
use agents_net.Netip.Equality.{addr_eq_refl}
use agents_net.Dns.{Binding, remove_addr, move_to_front, back}

abbrev pub holds : Addr → List Binding → Bool
holds a order = any (λ x. addr_eq x.addr a) order

pub length-remove_addr :
    (a : Addr) (l : List Binding) → holds a l ≡ true → length (remove_addr a l) + 1 ≡ length l
unfolding remove_addr
length-remove_addr a [] h = cc
length-remove_addr a (b ∷ bs) h = ground (arith, length-remove_addr a bs)

pub length-move_to_front : (b : Binding) (l : List Binding) → length (move_to_front b l) ≡ length l
unfolding move_to_front
length-move_to_front b l = ground (arith, length-remove_addr b.addr l)

pub back-holds : (l : List Binding) (o : Binding) → back l ≡ some o → holds o.addr l ≡ true
unfolding back
back-holds [] o h = cc
back-holds (b ∷ []) o h = ground (arith, addr_eq_refl o.addr)
back-holds (b ∷ c ∷ bs) o h = ground (arith, back-holds (c ∷ bs) o)

pub back-some : (l : List Binding) → 1 ≤ length l → (o : Binding) × (back l ≡ some o)
unfolding back
back-some [] h = absurd (omega arith)
back-some (b ∷ []) h = (b, refl)
back-some (b ∷ c ∷ bs) h = back-some (c ∷ bs) (omega arith)

module _ (P : Binding → Type 0) where
  pub All-remove_addr : (a : Addr) (l : List Binding) → All P l → All P (remove_addr a l)
  unfolding remove_addr
  All-remove_addr a [] h = tt
  All-remove_addr a (b ∷ bs) (hb, hbs) = elim (Bool-cases (addr_eq b.addr a)) [
    | inl e ↦ rw e hbs
    | inr e ↦ rw e (hb, All-remove_addr a bs hbs)
  ]

  pub All-move_to_front :
      (b : Binding) (l : List Binding) → P b → All P l → All P (move_to_front b l)
  unfolding move_to_front
  All-move_to_front b l hb hl = elim (Bool-cases (holds b.addr l)) [
    | inl e ↦ rw e (hb, All-remove_addr b.addr l hl)
    | inr e ↦ rw e hl
  ]

  pub All-back : (l : List Binding) (o : Binding) → back l ≡ some o → All P l → P o
  unfolding back
  All-back [] o h hl = cc
  All-back (b ∷ []) o h (hb, hl) = let e : b ≡ o = cc in subst P e hb
  All-back (b ∷ c ∷ bs) o h (hb, hl) = All-back (c ∷ bs) o h hl
