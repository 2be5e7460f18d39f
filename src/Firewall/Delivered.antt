-- ===== src/Firewall/Delivered.antt =====
-- Packets on their way through the chains of rules_linux.go of sdk/pkg/netnsproxy.
use agents_net.Base.{
  ℕ, ◌^◌, ◌<◌, ◌≡◌, refl, ap, ◌∙◌, inl, inr, Bool, true, false, ◌&&◌, ◌||◌, List, [], ◌∷◌, ◌==◌,
  if◌then◌else◌, arith, All, any, Bool-cases,
}
use agents_net.Firewall.{
  Endian, Ruling, accept, udp_prerouting, Ports, ipproto_tcp, ipproto_udp, ipproto_icmp,
  ipproto_icmpv6, routing_mark, port_unreachable, redirect_rules,
}
use agents_net.Firewall.Kernel.{Frame, IsFrame, Nftables, rules_of, delivers}
use agents_net.Firewall.Rules.{from_index, takes}
use agents_net.Firewall.Listeners.{comes_in}
use agents_net.Firewall.HandedOn.{
  IsHandedOn, unmarked, marked, unmarked-IsFrame, marked-IsFrame, to_input, walk_udp_prerouting,
  IsHandedOn-prerouting,
}
use agents_net.Firewall.Listed.{rules}
use agents_net.Firewall.Chains.{admits, walk_input}

-- What input accepts of a frame as it left udp_prerouting.
abbrev lets_in : {e : Endian} → Nftables e → List Ports → Frame → Bool
lets_in k ls g =
    ((g.protocol == ipproto_udp) && (g.fwmark == routing_mark))
    || ((g.protocol == ipproto_icmp)
        || ((g.protocol == ipproto_icmpv6) || ((g.protocol == ipproto_tcp) && comes_in k ls g)))

module _ {e : Endian} (k : Nftables e) (index : ℕ) (udp : Bool) (ls : List Ports) where
  module _ (f : Frame) (fits : IsFrame f) (here : from_index index f ≡ true) where
    module _ (below : All (λ l. l.tcp < 2 ^ 16) ls) where
      admits-lets_in :
          (g h : Frame)
          → IsHandedOn k index udp ls f fits here below g h
          → admits h ls ≡ lets_in k ls g
      admits-lets_in g h on = rw (on.reached, on.protocol, on.fwmark) refl

      delivers_on :
          (g : Frame)
          → IsFrame g
          → from_index index g ≡ true
          → k.walk (rules_of udp_prerouting (rules e index udp ls)) f ≡ (accept, g)
          → (delivers k (redirect_rules e index ls udp) f).0
            ≡ (if lets_in k ls g then accept else port_unreachable)
      unfolding redirect_rules
      delivers_on g width from walked =
          let (h, on) = IsHandedOn-prerouting k index udp ls f fits here below g width from in
          ap (λ (r : Ruling × Frame). r.0)
            (to_input k (rules e index udp ls) f g h walked on.walked
              ∙ walk_input k index h on.width on.from udp ls below)
          ∙ verdict_of (admits h ls) (lets_in k ls g) h (admits-lets_in g h on)
        where
          verdict_of :
              (b c : Bool) (h : Frame)
              → b ≡ c
              → (if◌then◌else◌ {A = Ruling × Frame} b (accept, h) (port_unreachable, h)).0
                ≡ (if c then accept else port_unreachable)
          verdict_of true true h q = refl
          verdict_of false false h q = refl
          verdict_of true false h q = cc
          verdict_of false true h q = cc

-- What of the interface's packets for the host is let in: what a listener's UDP socket takes,
-- ICMP, and TCP that comes in.
abbrev pub admitted : {e : Endian} → Nftables e → Bool → List Ports → Frame → Bool
admitted k udp ls f =
    any (takes k udp (unmarked f)) ls
    || ((f.protocol == ipproto_icmp)
        || ((f.protocol == ipproto_icmpv6)
            || ((f.protocol == ipproto_tcp) && comes_in k ls (unmarked f))))

takes-udp :
    {e : Endian} (k : Nftables e) (udp : Bool) (f : Frame) (ls : List Ports)
    → any (takes k udp f) ls ≡ true
    → f.protocol ≡ ipproto_udp
takes-udp k udp f [] h = absurd (cc)
takes-udp k udp f (l ∷ ls) h = elim (Bool-cases (takes k udp f l)) [
  | inl taken ↦ ground arith
  | inr other ↦ takes-udp k udp f ls (rw other at h)
]

-- A packet of the interface that is for the host gets in exactly if the filter admits it,
-- whatever mark it came with, and every other one is rejected as port unreachable: of UDP it is
-- what the socket of a listener of its family takes, which without UDP is only for port 53; of
-- TCP the first packet of a connection when there is a listener of its family, and a later one
-- only when its connection was translated to the port of a listener of its family; and ICMP of
-- both versions.
pub delivers-admitted :
    {e : Endian} (k : Nftables e) (index : ℕ) (udp : Bool) (ls : List Ports) (f : Frame)
    → IsFrame f
    → from_index index f ≡ true
    → All (λ l. l.tcp < 2 ^ 16) ls
    → (delivers k (redirect_rules e index ls udp) f).0
      ≡ (if admitted k udp ls f then accept else port_unreachable)
delivers-admitted k index udp ls f fits here below =
    let walked = walk_udp_prerouting k index udp ls f fits here in
    elim (Bool-cases (any (takes k udp (unmarked f)) ls)) [
      | inl taken ↦
          let is_udp = takes-udp k udp (unmarked f) ls taken in
          delivers_on k index udp ls f fits here below (marked f) (marked-IsFrame f fits) here
            (rw taken at walked)
          ∙ ap verdict (ground (arith, is_udp, taken))
      | inr other ↦
          delivers_on k index udp ls f fits here below (unmarked f) (unmarked-IsFrame f fits) here
            (rw other at walked)
          ∙ ap verdict (ground (arith, other))
    ]
  where
    verdict : Bool → Ruling
    verdict b = if b then accept else port_unreachable
