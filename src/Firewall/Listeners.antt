-- ===== src/Firewall/Listeners.antt =====
-- The listener that the rules of rules_linux.go of sdk/pkg/netnsproxy find for a packet.
use mathlib.Core.Path.{subst}
use agents_net.Base.{
  ◌^◌, ◌<◌, ◌≡◌, refl, ap, ◌⊎◌, inl, inr, Bool, true, false, none, some, List, [], ◌∷◌, ◌==◌,
  if◌then◌else◌, arith, All, any, Bool-cases,
}
use agents_net.Firewall.{Endian, Ports, ipproto_tcp}
use agents_net.Firewall.Kernel.{Frame, Nftables}
use agents_net.Firewall.Rules.{reaches}
use agents_net.Firewall.Chains.{first_of_family}

abbrev pub of_family : Frame → Ports → Bool
of_family f l = f.family == l.family

-- TCP that a listener takes: the first packet of a connection when there is one of its family, a
-- later one when it was translated to the port of one.
abbrev pub comes_in : {e : Endian} → Nftables e → List Ports → Frame → Bool
comes_in k ls g = if g.first then any (of_family g) ls else any (reaches (k.mapped g)) ls

abbrev pub Among : Ports → List Ports → Type 0
Among l [] = ⊥
Among l (m ∷ ls) = (m ≡ l) ⊎ Among l ls

pub Among-any :
    (p : Ports → Bool) (l : Ports) (ls : List Ports) → Among l ls → p l ≡ true → any p ls ≡ true
Among-any p l [] i h = elim i [ ]
Among-any p l (m ∷ ls) (inl e) h = ground (arith, ap p e)
Among-any p l (m ∷ ls) (inr i) h = ground (arith, Among-any p l ls i h)

pub Among-tcp :
    (l : Ports) (ls : List Ports) → Among l ls → All (λ l. l.tcp < 2 ^ 16) ls → l.tcp < 2 ^ 16
Among-tcp l [] i hs = elim i [ ]
Among-tcp l (m ∷ ls) (inl e) (h, hs) = subst (λ l. l.tcp < 2 ^ 16) e h
Among-tcp l (m ∷ ls) (inr i) (h, hs) = Among-tcp l ls i hs

-- The listener that the chain prerouting finds is one of the list.
module _ (f g : Frame) where
  pub first_of_family-none :
      (ls : List Ports) → first_of_family f ls ≡ none → any (of_family f) ls ≡ false
  first_of_family-none [] h = refl
  first_of_family-none (l ∷ ls) h = ground (arith, first_of_family-none ls)

  pub first_of_family-some :
      (ls : List Ports) (l : Ports)
      → first_of_family f ls ≡ some l
      → ((f.family == l.family) ≡ true) × Among l ls
  first_of_family-some [] l h = absurd (none_some h)
    where
      none_some : {l : Ports} → none ≡ some l → ⊥
      none_some q = cc
  first_of_family-some (m ∷ ls) l h = elim (Bool-cases (f.family == m.family)) [
    | inl same ↦ here same (rw same at h)
    | inr other ↦ let (same, i) = first_of_family-some ls l (rw other at h) in (same, inr i)
  ]
    where
      here :
          (f.family == m.family) ≡ true
          → some m ≡ some l
          → ((f.family == l.family) ≡ true) × ((m ≡ l) ⊎ Among l ls)
      here same q = let e : m ≡ l = cc in (rw e at same, inl e)

  pub not_tcp-reaches :
      (ls : List Ports) → (g.protocol == ipproto_tcp) ≡ false → any (reaches g) ls ≡ false
  not_tcp-reaches [] other = refl
  not_tcp-reaches (l ∷ ls) other = rw other (not_tcp-reaches ls other)

  pub other_family-reaches :
      (ls : List Ports)
      → g.family ≡ f.family
      → any (of_family f) ls ≡ false
      → any (reaches g) ls ≡ false
  other_family-reaches [] same h = refl
  other_family-reaches (l ∷ ls) same h = ground (arith, other_family-reaches ls same)
