-- ===== src/Firewall/Chains.antt =====
-- What each chain of rules_linux.go of sdk/pkg/netnsproxy does to a packet.
use agents_net.Base.{
  ℕ, ◌^◌, ◌<◌, ◌≡◌, refl, ap, ◌∙◌, Bool, true, false, ◌&&◌, ◌||◌, Option, none, some, List, [], ◌∷◌,
  ◌++◌, map, ◌==◌, if◌then◌else◌, All, any,
}
use agents_net.Firewall.{
  Endian, append_uint16, Ruling, accept, Expr, input, Ports, ipproto_tcp, ipproto_udp, ipproto_icmp,
  ipproto_icmpv6, routing_mark, port_unreachable, final_verdict,
}
use agents_net.Firewall.Kernel.{Frame, IsFrame, ruled, passed, Nftables, rules_of}
use agents_net.Firewall.Rules.{
  from_index, takes, reaches, final_verdict_lem, accept_protocol_lem, accept_marked_lem,
  redirect_tcp_lem, redirect_udp_lem, accept_redirected_lem,
}
use agents_net.Firewall.Listed.{rules, tcp_exprs, udp_exprs, redirected_exprs, input_rules}

-- The first listener of the packet's family.
abbrev pub first_of_family : Frame → List Ports → Option Ports
first_of_family f [] = none
first_of_family f (l ∷ ls) = if f.family == l.family then some l else first_of_family f ls

-- What the chain input accepts of the interface's packets.
abbrev pub admits : Frame → List Ports → Bool
admits f ls =
    ((f.protocol == ipproto_udp) && (f.fwmark == routing_mark))
    || ((f.protocol == ipproto_icmp) || ((f.protocol == ipproto_icmpv6) || any (reaches f) ls))

or_else {ℓ} :
    {A : Type ℓ} (x y : A) {w : A} (p q : Bool)
    → w ≡ (if q then x else y)
    → (if p then x else w) ≡ (if p || q then x else y)
or_else x y true q h = refl
or_else x y false q h = h

module _ {e : Endian} (k : Nftables e) (index : ℕ) where
  -- A rule that rules under a test and lets every other packet through as it is.
  tested :
      (f g : Frame) (v : Ruling) (c : Bool) (rule : List Expr) (l : List (List Expr))
      → k.run_rule rule k.fresh f ≡ (if c then ruled v g else passed f)
      → k.walk (rule ∷ l) f ≡ (if c then (v, g) else k.walk l f)
  tested f g v true rule l h = rw (k.next_rule rule l f, h) refl
  tested f g v false rule l h = rw (k.next_rule rule l f, h) refl

  abbrev pub handed_on : Frame → Option Ports → Frame
  handed_on f none = f
  handed_on f (some l) = k.translate (append_uint16 l.tcp) f

  abbrev pub redirected : Frame → Option Ports → Ruling × Frame
  redirected f o = (accept, handed_on f o)

  module _ (f : Frame) (fits : IsFrame f) (here : from_index index f ≡ true) where
    -- The same for a packet of the interface.
    tested_here :
        (g : Frame) (v : Ruling) (c : Bool) (rule : List Expr) (l : List (List Expr))
        → k.run_rule rule k.fresh f ≡ (if from_index index f && c then ruled v g else passed f)
        → k.walk (rule ∷ l) f ≡ (if c then (v, g) else k.walk l f)
    tested_here g v c rule l h =
        tested f g v c rule l (h ∙ ap (λ b. if b && c then ruled v g else passed f) here)

    pub walk_tcp :
        (ls : List Ports)
        → f.protocol ≡ ipproto_tcp
        → k.walk (map (tcp_exprs e index) ls) f ≡ redirected f (first_of_family f ls)
    walk_tcp [] tcp = k.chain_end f
    walk_tcp (l ∷ ls) tcp =
        tested_here _ accept _ _ (map (tcp_exprs e index) ls) (redirect_tcp_lem k index f fits l)
        ∙ chosen (f.family == l.family) _ (walk_tcp ls tcp)
      where
        chosen :
            (same : Bool) {w : Ruling × Frame} (o : Option Ports)
            → w ≡ redirected f o
            → (if same && (f.protocol == ipproto_tcp)
                then (accept, k.translate (append_uint16 l.tcp) f)
                else w)
              ≡ redirected f (if same then some l else o)
        chosen true o h = rw tcp refl
        chosen false o h = h

    pub walk_not_tcp :
        (ls : List Ports)
        → (f.protocol == ipproto_tcp) ≡ false
        → k.walk (map (tcp_exprs e index) ls) f ≡ (accept, f)
    walk_not_tcp [] other = k.chain_end f
    walk_not_tcp (l ∷ ls) other =
        tested_here _ accept _ _ (map (tcp_exprs e index) ls) (redirect_tcp_lem k index f fits l)
        ∙ missed (f.family == l.family) (f.protocol == ipproto_tcp) _ other (walk_not_tcp ls other)
      where
        missed :
            (c d : Bool) (v : Ruling × Frame) {w x : Ruling × Frame}
            → d ≡ false
            → w ≡ x
            → (if c && d then v else w) ≡ x
        missed true d v e h = rw e h
        missed false d v e h = h

    pub walk_udp :
        (udp : Bool) (ls : List Ports)
        → k.walk (map (udp_exprs e index udp) ls) f ≡ (
            if any (takes k udp f) ls
            then (accept, record f { fwmark = routing_mark })
            else (accept, f))
    walk_udp udp [] = k.chain_end f
    walk_udp udp (l ∷ ls) =
        tested_here _ accept _ _ (map (udp_exprs e index udp) ls)
          (redirect_udp_lem k index f fits udp l)
        ∙ or_else _ _ (takes k udp f l) (any (takes k udp f) ls) (walk_udp udp ls)

    walk_redirected :
        (ls : List Ports)
        → All (λ l. l.tcp < 2 ^ 16) ls
        → k.walk
            (map (redirected_exprs e index) ls
              ++ ((final_verdict e index input port_unreachable).exprs ∷ []))
            f
          ≡ (if any (reaches f) ls then (accept, f) else (port_unreachable, f))
    walk_redirected [] below =
        tested f f port_unreachable _ _ [] (final_verdict_lem k index f fits input port_unreachable)
        ∙ rw here refl
    walk_redirected (l ∷ ls) (l_below, below) =
        tested_here f accept _ _ _ (accept_redirected_lem k index f fits l l_below)
        ∙ or_else _ _ (reaches f l) (any (reaches f) ls) (walk_redirected ls below)

    pub walk_input :
        (udp : Bool) (ls : List Ports)
        → All (λ l. l.tcp < 2 ^ 16) ls
        → k.walk (rules_of input (rules e index udp ls)) f
          ≡ (if admits f ls then (accept, f) else (port_unreachable, f))
    walk_input udp ls below = rw (input_rules e index udp ls) (
        or_next ((f.protocol == ipproto_udp) && (f.fwmark == routing_mark))
          ((f.protocol == ipproto_icmp) || ((f.protocol == ipproto_icmpv6) || any (reaches f) ls)) _
          (accept_marked_lem k index f fits)
          (or_next (f.protocol == ipproto_icmp)
            ((f.protocol == ipproto_icmpv6) || any (reaches f) ls) _
            (accept_protocol_lem k index f fits ipproto_icmp)
            (or_next (f.protocol == ipproto_icmpv6) (any (reaches f) ls) _
              (accept_protocol_lem k index f fits ipproto_icmpv6) (walk_redirected ls below))))
      where
        or_next :
            (c d : Bool) (rule : List Expr) {l : List (List Expr)}
            → k.run_rule rule k.fresh f
              ≡ (if from_index index f && c then ruled accept f else passed f)
            → k.walk l f ≡ (if d then (accept, f) else (port_unreachable, f))
            → k.walk (rule ∷ l) f ≡ (if c || d then (accept, f) else (port_unreachable, f))
        or_next c d rule h q =
            tested_here f accept c rule _ h ∙ or_else _ (port_unreachable, f) c d q

module _ {e : Endian} (k : Nftables e) (f : Frame) where
  -- Rules that all let the packet through.
  pub walk_passes :
      (l : List (List Expr))
      → All (λ rule. k.run_rule rule k.fresh f ≡ passed f) l
      → k.walk l f ≡ (accept, f)
  walk_passes [] h = k.chain_end f
  walk_passes (rule ∷ l) (p, h) = rw (k.next_rule rule l f, p) (walk_passes l h)
