-- ===== src/Firewall/Listed.antt =====
-- The rules of each chain of rules_linux.go of sdk/pkg/netnsproxy.
use mathlib.Core.List.{append-nil}
use agents_net.Base.{ℕ, ◌≡◌, refl, ap, Bool, false, List, [], ◌∷◌, ◌++◌, map, arith}
use agents_net.Firewall.{
  Endian, drop, Expr, ChainName, prerouting, udp_prerouting, input, forward, FilterRule, Ports,
  ipproto_icmp, ipproto_icmpv6, port_unreachable, redirect_tcp, redirect_udp, redirects, clear_mark,
  accept_marked, accept_protocol, accept_redirected, final_verdict, redirect_rules,
}
use agents_net.Firewall.Kernel.{name_eq, rules_of}

rules_of-append :
    (name : ChainName) (rs ss : List FilterRule)
    → rules_of name (rs ++ ss) ≡ rules_of name rs ++ rules_of name ss
rules_of-append name [] ss = refl
rules_of-append name (r ∷ rs) ss = ground (arith, rules_of-append name rs ss)

abbrev pub tcp_exprs : Endian → ℕ → Ports → List Expr
tcp_exprs e index l = (redirect_tcp e index l).exprs

abbrev pub udp_exprs : Endian → ℕ → Bool → Ports → List Expr
udp_exprs e index udp l = (redirect_udp e index udp l).exprs

abbrev pub redirected_exprs : Endian → ℕ → Ports → List Expr
redirected_exprs e index l = (accept_redirected e index l).exprs

module _ (e : Endian) (index : ℕ) (udp : Bool) where
  prerouting-redirects :
      (ls : List Ports)
      → rules_of prerouting (redirects e index udp ls) ≡ map (tcp_exprs e index) ls
  unfolding redirects redirect_tcp redirect_udp
  prerouting-redirects [] = refl
  prerouting-redirects (l ∷ ls) = ap (◌∷◌ (tcp_exprs e index l)) (prerouting-redirects ls)

  udp_prerouting-redirects :
      (ls : List Ports)
      → rules_of udp_prerouting (redirects e index udp ls) ≡ map (udp_exprs e index udp) ls
  unfolding redirects redirect_tcp redirect_udp
  udp_prerouting-redirects [] = refl
  udp_prerouting-redirects (l ∷ ls) =
      ap (◌∷◌ (udp_exprs e index udp l)) (udp_prerouting-redirects ls)

  input-redirects : (ls : List Ports) → rules_of input (redirects e index udp ls) ≡ []
  unfolding redirects redirect_tcp redirect_udp
  input-redirects [] = refl
  input-redirects (l ∷ ls) = input-redirects ls

  forward-redirects : (ls : List Ports) → rules_of forward (redirects e index udp ls) ≡ []
  unfolding redirects redirect_tcp redirect_udp
  forward-redirects [] = refl
  forward-redirects (l ∷ ls) = forward-redirects ls

  input-accept_redirected :
      (ls : List Ports)
      → rules_of input (map (accept_redirected e index) ls) ≡ map (redirected_exprs e index) ls
  unfolding accept_redirected
  input-accept_redirected [] = refl
  input-accept_redirected (l ∷ ls) =
      ap (◌∷◌ (redirected_exprs e index l)) (input-accept_redirected ls)

  other_accept_redirected :
      (name : ChainName)
      → name_eq input name ≡ false
      → (ls : List Ports) → rules_of name (map (accept_redirected e index) ls) ≡ []
  unfolding accept_redirected
  other_accept_redirected name other [] = refl
  other_accept_redirected name other (l ∷ ls) = rw other (other_accept_redirected name other ls)

  abbrev pub rules : List Ports → List FilterRule
  rules ls = (redirect_rules e index ls udp).rules

  -- What follows the rules of the loop, in the chains that are not input.
  last_rules :
      (name : ChainName)
      → name_eq input name ≡ false
      → (ls : List Ports)
      → rules_of name (
          map (accept_redirected e index) ls
          ++ (final_verdict e index input port_unreachable
              ∷ final_verdict e index forward drop
              ∷ []))
        ≡ rules_of name (final_verdict e index forward drop ∷ [])
  unfolding final_verdict
  last_rules name other ls =
      rw
        (
          rules_of-append name (map (accept_redirected e index) ls) (
              final_verdict e index input port_unreachable
              ∷ final_verdict e index forward drop
              ∷ []),
          other_accept_redirected name other ls,
          other,
        )
        refl

  pub prerouting_rules :
      (ls : List Ports) → rules_of prerouting (rules ls) ≡ map (tcp_exprs e index) ls
  unfolding redirect_rules clear_mark accept_marked accept_protocol final_verdict
  prerouting_rules ls =
      rw
        (
          rules_of-append prerouting (redirects e index udp ls) _,
          prerouting-redirects ls,
          last_rules prerouting refl ls,
        )
        (append-nil (map (tcp_exprs e index) ls))

  pub udp_prerouting_rules :
      (ls : List Ports)
      → rules_of udp_prerouting (rules ls)
        ≡ (clear_mark e index).exprs ∷ map (udp_exprs e index udp) ls
  unfolding redirect_rules clear_mark accept_marked accept_protocol final_verdict
  udp_prerouting_rules ls =
      rw
        (
          rules_of-append udp_prerouting (redirects e index udp ls) _,
          udp_prerouting-redirects ls,
          last_rules udp_prerouting refl ls,
        )
        (ap (◌∷◌ (clear_mark e index).exprs) (append-nil (map (udp_exprs e index udp) ls)))

  pub forward_rules :
      (ls : List Ports)
      → rules_of forward (rules ls) ≡ (final_verdict e index forward drop).exprs ∷ []
  unfolding redirect_rules clear_mark accept_marked accept_protocol final_verdict
  forward_rules ls =
      rw
        (
          rules_of-append forward (redirects e index udp ls) _,
          forward-redirects ls,
          last_rules forward refl ls,
        )
        refl

  pub input_rules :
      (ls : List Ports)
      → rules_of input (rules ls)
        ≡ (accept_marked e index).exprs
          ∷ (accept_protocol e index ipproto_icmp).exprs
          ∷ (accept_protocol e index ipproto_icmpv6).exprs
          ∷ (map (redirected_exprs e index) ls
              ++ ((final_verdict e index input port_unreachable).exprs ∷ []))
  unfolding redirect_rules clear_mark accept_marked accept_protocol final_verdict
  input_rules ls =
      rw
        (
          rules_of-append input (redirects e index udp ls) _,
          input-redirects ls,
          rules_of-append input (map (accept_redirected e index) ls) _,
          input-accept_redirected ls,
        )
        refl
