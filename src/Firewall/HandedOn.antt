-- ===== src/Firewall/HandedOn.antt =====
-- What the prerouting chains of rules_linux.go of sdk/pkg/netnsproxy hand on.
use agents_net.Base.{
  ℕ, ◌^◌, ◌<◌, ◌≡◌, refl, sym, ap, ◌∙◌, inl, inr, Bool, true, false, ◌&&◌, none, some, List, map,
  ◌==◌, if◌then◌else◌, arith, All, any, ==_iff, Bool-cases, Option-cases,
}
use agents_net.Firewall.{
  Endian, append_uint16, Ruling, accept, drop, prerouting, udp_prerouting, input, forward,
  FilterRule, Ports, ipproto_tcp, routing_mark, chains, clear_mark,
}
use agents_net.Firewall.Kernel.{
  Frame, IsFrame, Nftables, if_accepted, rules_of, run_chain, through, delivers, forwards,
}
use agents_net.Firewall.Rules.{from_index, takes, reaches, clear_mark_lem}
use agents_net.Firewall.Listed.{rules, udp_exprs, prerouting_rules, udp_prerouting_rules}
use agents_net.Firewall.Chains.{first_of_family, walk_tcp, walk_not_tcp, walk_udp}
use agents_net.Firewall.Listeners.{
  of_family, comes_in, Among-any, Among-tcp, first_of_family-none, first_of_family-some,
  not_tcp-reaches, other_family-reaches,
}

abbrev pub unmarked : Frame → Frame
unmarked f = record f { fwmark = 0 }

abbrev pub marked : Frame → Frame
marked f = record f { fwmark = routing_mark }

pub unmarked-IsFrame : (f : Frame) → IsFrame f → IsFrame (unmarked f)
unmarked-IsFrame f fits = record {
  interface = fits.interface;
  fwmark = omega arith;
  port = fits.port;
}

pub marked-IsFrame : (f : Frame) → IsFrame f → IsFrame (marked f)
marked-IsFrame f fits = record {
  interface = fits.interface;
  fwmark = omega arith;
  port = fits.port;
}

pub if_true {ℓ} : {A : Type ℓ} (b : Bool) (x y : A) → b ≡ true → (if b then x else y) ≡ x
if_true true x y h = refl
if_true false x y h = cc

if_false {ℓ} : {A : Type ℓ} (b : Bool) (x y : A) → b ≡ false → (if b then x else y) ≡ y
if_false true x y h = cc
if_false false x y h = refl

settled : (r : Ruling × Frame) → if_accepted r (λ f. (accept, f)) ≡ r
settled (accept, f) = refl
settled (drop, f) = refl
settled (Ruling.reject t c, f) = refl

module _ {e : Endian} (k : Nftables e) (rs : List FilterRule) (f : Frame) where
  -- What the chain prerouting, of type nat, does to a packet.
  abbrev pub natted : Frame → Ruling × Frame
  natted g = if g.first then k.walk (rules_of prerouting rs) g else (accept, k.mapped g)

  -- The prerouting chains of a hook in order, then the chain of the next hook.
  pub to_input :
      (g h : Frame)
      → k.walk (rules_of udp_prerouting rs) f ≡ (accept, g)
      → natted g ≡ (accept, h)
      → delivers k (record { chains = chains; rules = rs }) f ≡ k.walk (rules_of input rs) h
  unfolding delivers through run_chain
  to_input g h p q = rw (p, q) (settled (k.walk (rules_of input rs) h))

  pub to_forward :
      (g h : Frame)
      → k.walk (rules_of udp_prerouting rs) f ≡ (accept, g)
      → natted g ≡ (accept, h)
      → forwards k (record { chains = chains; rules = rs }) f ≡ k.walk (rules_of forward rs) h
  unfolding forwards through run_chain
  to_forward g h p q = rw (p, q) (settled (k.walk (rules_of forward rs) h))

module _ {e : Endian} (k : Nftables e) (index : ℕ) (udp : Bool) (ls : List Ports) where
  module _ (f : Frame) (fits : IsFrame f) (here : from_index index f ≡ true) where
    -- The mark that a packet comes with is gone; the new one tells that a socket has taken it.
    pub walk_udp_prerouting :
        k.walk (rules_of udp_prerouting (rules e index udp ls)) f
        ≡ (if any (takes k udp (unmarked f)) ls then (accept, marked f) else (accept, unmarked f))
    walk_udp_prerouting =
        rw
          (
            udp_prerouting_rules e index udp ls,
            k.next_rule (clear_mark e index).exprs (map (udp_exprs e index udp) ls) f,
            clear_mark_lem k index f fits,
            here,
          )
          (walk_udp k index (unmarked f) (unmarked-IsFrame f fits) here udp ls)

    -- What prerouting hands on for TCP, and for anything else.
    module _ (below : All (λ l. l.tcp < 2 ^ 16) ls) where
      -- A frame that came through prerouting is the one that came, but for a translation.
      pub record IsHandedOn (g h : Frame) : Type 0 where
        pub walked : natted k (rules e index udp ls) f g ≡ (accept, h)
        pub width : IsFrame h
        pub from : from_index index h ≡ true
        pub protocol : h.protocol ≡ g.protocol
        pub fwmark : h.fwmark ≡ g.fwmark
        pub reached : any (reaches h) ls ≡ ((g.protocol == ipproto_tcp) && comes_in k ls g)

      as_first :
          (g : Frame)
          → g.first ≡ true
          → ((g.protocol == ipproto_tcp) && any (of_family g) ls)
            ≡ ((g.protocol == ipproto_tcp) && comes_in k ls g)
      as_first g opening =
          ap (λ b. (g.protocol == ipproto_tcp) && b) (sym (if_true g.first _ _ opening))

      -- A later packet of a connection.
      later-IsHandedOn :
          (g : Frame)
          → IsFrame g
          → from_index index g ≡ true
          → g.first ≡ false
          → IsHandedOn g (k.mapped g)
      later-IsHandedOn g width from later =
          let (port, interface, family, protocol, mark, status) = k.maps g width in
          let comes : comes_in k ls g ≡ any (reaches (k.mapped g)) ls =
            if_false g.first _ _ later in
          let reached : any (reaches (k.mapped g)) ls
              ≡ ((g.protocol == ipproto_tcp) && any (reaches (k.mapped g)) ls) =
            elim (Bool-cases (g.protocol == ipproto_tcp)) [
              | inl tcp ↦ ap (λ b. b && any (reaches (k.mapped g)) ls) (sym tcp)
              | inr other ↦
                  let other' : ((k.mapped g).protocol == ipproto_tcp) ≡ false =
                    ap (λ p. p == ipproto_tcp) protocol ∙ other in
                  not_tcp-reaches g (k.mapped g) ls other'
                  ∙ ap (λ b. b && any (reaches (k.mapped g)) ls) (sym other)
            ] in
          record {
            walked = if_false g.first _ _ later;
            width = record {
              interface = rw interface width.interface;
              fwmark = rw mark width.fwmark;
              port = port;
            };
            from = rw interface from;
            protocol = protocol;
            fwmark = mark;
            reached = reached ∙ ap (λ b. (g.protocol == ipproto_tcp) && b) (sym comes);
          }

      listener-IsHandedOn :
          (g : Frame) (l : Ports)
          → IsFrame g
          → from_index index g ≡ true
          → g.first ≡ true
          → g.protocol ≡ ipproto_tcp
          → first_of_family g ls ≡ some l
          → IsHandedOn g (k.translate (append_uint16 l.tcp) g)
      listener-IsHandedOn g l width from opening tcp found =
          let (same, i) = first_of_family-some g g ls l found in
          let small = Among-tcp l ls i below in
          let (natted, port, interface, family, protocol, mark) = k.translates l.tcp g small in
          let reach : reaches (k.translate (append_uint16 l.tcp) g) l ≡ true = ground arith in
          let walked : k.walk (rules_of prerouting (rules e index udp ls)) g
              ≡ (accept, k.translate (append_uint16 l.tcp) g) =
            rw (prerouting_rules e index udp ls, walk_tcp k index g width from ls tcp, found)
              refl in
          let reached : any (reaches (k.translate (append_uint16 l.tcp) g)) ls
              ≡ ((g.protocol == ipproto_tcp) && any (of_family g) ls) =
            ground (
              arith,
              tcp,
              Among-any (reaches (k.translate (append_uint16 l.tcp) g)) l ls i reach,
              Among-any (of_family g) l ls i same,
            ) in
          record {
            walked = if_true g.first _ _ opening ∙ walked;
            width = record {
              interface = rw interface width.interface;
              fwmark = rw mark width.fwmark;
              port = omega (arith, port, small);
            };
            from = rw interface from;
            protocol = protocol;
            fwmark = mark;
            reached = reached ∙ as_first g opening;
          }

      missed-IsHandedOn :
          (g : Frame)
          → IsFrame g
          → from_index index g ≡ true
          → g.first ≡ true
          → g.protocol ≡ ipproto_tcp
          → first_of_family g ls ≡ none
          → IsHandedOn g g
      missed-IsHandedOn g width from opening tcp unfound =
          let walked : k.walk (rules_of prerouting (rules e index udp ls)) g ≡ (accept, g) =
            rw (prerouting_rules e index udp ls, walk_tcp k index g width from ls tcp, unfound)
              refl in
          let reached : any (reaches g) ls ≡ ((g.protocol == ipproto_tcp) && any (of_family g) ls) =
            ground
              (arith, tcp, first_of_family-none g g ls unfound, other_family-reaches g g ls refl) in
          record {
            walked = if_true g.first _ _ opening ∙ walked;
            width = width;
            from = from;
            protocol = refl;
            fwmark = refl;
            reached = reached ∙ as_first g opening;
          }

      other-IsHandedOn :
          (g : Frame)
          → IsFrame g
          → from_index index g ≡ true
          → g.first ≡ true
          → (g.protocol == ipproto_tcp) ≡ false
          → IsHandedOn g g
      other-IsHandedOn g width from opening other = record {
        walked =
            if_true g.first _ _ opening
            ∙ rw (prerouting_rules e index udp ls) (walk_not_tcp k index g width from ls other);
        width = width;
        from = from;
        protocol = refl;
        fwmark = refl;
        reached = not_tcp-reaches g g ls other ∙ ap (λ b. b && comes_in k ls g) (sym other);
      }

      pub IsHandedOn-prerouting :
          (g : Frame) → IsFrame g → from_index index g ≡ true → (h : Frame) × IsHandedOn g h
      IsHandedOn-prerouting g width from = elim (Bool-cases g.first) [
        | inr later ↦ (k.mapped g, later-IsHandedOn g width from later)
        | inl opening ↦ elim (Bool-cases (g.protocol == ipproto_tcp)) [
          | inl is_tcp ↦
              let tcp = (==_iff g.protocol ipproto_tcp).0 is_tcp in
              elim (Option-cases (first_of_family g ls)) [
                | inl unfound ↦ (g, missed-IsHandedOn g width from opening tcp unfound)
                | inr (l, found) ↦ (
                  k.translate (append_uint16 l.tcp) g,
                  listener-IsHandedOn g l width from opening tcp found,
                )
              ]
          | inr other ↦ (g, other-IsHandedOn g width from opening other)
        ]
      ]
