-- ===== src/Firewall/Isolated.antt =====
-- The rules of rules_linux.go of sdk/pkg/netnsproxy stop what the interface would have forwarded
-- and leave the packets of other interfaces alone.
use agents_net.Base.{
  ℕ, ◌^◌, ◌<◌, ◌≡◌, refl, ap, ◌∙◌, inl, inr, Bool, true, false, ◌&&◌, List, [], ◌∷◌, ◌++◌, map,
  if◌then◌else◌, All, any, Bool-cases,
}
use agents_net.Firewall.{
  Endian, Ruling, accept, drop, Expr, ChainName, prerouting, udp_prerouting, input, forward, Ports,
  ipproto_icmp, ipproto_icmpv6, port_unreachable, final_verdict, redirect_rules,
}
use agents_net.Firewall.Kernel.{
  Frame, IsFrame, RuleResult, passed, Nftables, rules_of, delivers, forwards,
}
use agents_net.Firewall.Rules.{
  from_index, takes, clear_mark_lem, final_verdict_lem, accept_protocol_lem, accept_marked_lem,
  redirect_tcp_lem, redirect_udp_lem, accept_redirected_lem,
}
use agents_net.Firewall.Listed.{
  rules, tcp_exprs, udp_exprs, redirected_exprs, prerouting_rules, udp_prerouting_rules,
  forward_rules, input_rules,
}
use agents_net.Firewall.Chains.{walk_passes}
use agents_net.Firewall.HandedOn.{
  if_true, unmarked, marked, unmarked-IsFrame, marked-IsFrame, to_input, to_forward,
  walk_udp_prerouting, IsHandedOn-prerouting,
}

module _ {e : Endian} (k : Nftables e) (index : ℕ) (udp : Bool) (ls : List Ports) (f : Frame)
    (fits : IsFrame f) where
  forwards_on :
      (g : Frame)
      → IsFrame g
      → from_index index g ≡ true
      → All (λ l. l.tcp < 2 ^ 16) ls
      → k.walk (rules_of udp_prerouting (rules e index udp ls)) f ≡ (accept, g)
      → from_index index f ≡ true
      → (forwards k (redirect_rules e index ls udp) f).0 ≡ drop
  unfolding redirect_rules
  forwards_on g width from below walked here =
      let (h, on) = IsHandedOn-prerouting k index udp ls f fits here below g width from in
      ap (λ (r : Ruling × Frame). r.0)
        (to_forward k (rules e index udp ls) f g h walked on.walked ∙ dropped h on.width on.from)
    where
      dropped :
          (h : Frame)
          → IsFrame h
          → from_index index h ≡ true
          → k.walk (rules_of forward (rules e index udp ls)) h ≡ (drop, h)
      dropped h width from =
          rw
            (
              forward_rules e index udp ls,
              k.next_rule (final_verdict e index forward drop).exprs [] h,
              final_verdict_lem k index h width forward drop,
              from,
            )
            refl

  -- No packet that comes in by the interface is forwarded.
  pub forwards-drop :
      from_index index f ≡ true
      → All (λ l. l.tcp < 2 ^ 16) ls
      → (forwards k (redirect_rules e index ls udp) f).0 ≡ drop
  forwards-drop here below =
      let walked = walk_udp_prerouting k index udp ls f fits here in
      elim (Bool-cases (any (takes k udp (unmarked f)) ls)) [
        | inl taken ↦
            forwards_on (marked f) (marked-IsFrame f fits) here below (rw taken at walked) here
        | inr other ↦
            forwards_on (unmarked f) (unmarked-IsFrame f fits) here below (rw other at walked) here
      ]

-- A test that begins with one that fails.
skips :
    (b c : Bool) {r : RuleResult} (o p : RuleResult)
    → b ≡ false
    → r ≡ (if b && c then o else p)
    → r ≡ p
skips true c o p h q = cc
skips false c o p h q = q

skips_one :
    (b : Bool) {r : RuleResult} (o p : RuleResult) → b ≡ false → r ≡ (if b then o else p) → r ≡ p
skips_one true o p h q = cc
skips_one false o p h q = q

module _ {e : Endian} (k : Nftables e) (index : ℕ) (udp : Bool) (f : Frame) (fits : IsFrame f)
    (elsewhere : from_index index f ≡ false) where
  abbrev Passes : List Expr → Type 0
  Passes rule = k.run_rule rule k.fresh f ≡ passed f

  final-Passes : (chain : ChainName) (v : Ruling) → Passes (final_verdict e index chain v).exprs
  final-Passes chain v =
      skips_one (from_index index f) _ _ elsewhere (final_verdict_lem k index f fits chain v)

  tcp-Passes : (ls : List Ports) → All Passes (map (tcp_exprs e index) ls)
  tcp-Passes [] = tt
  tcp-Passes (l ∷ ls) = (
    skips (from_index index f) _ _ _ elsewhere (redirect_tcp_lem k index f fits l),
    tcp-Passes ls,
  )

  udp-Passes : (ls : List Ports) → All Passes (map (udp_exprs e index udp) ls)
  udp-Passes [] = tt
  udp-Passes (l ∷ ls) = (
    skips (from_index index f) _ _ _ elsewhere (redirect_udp_lem k index f fits udp l),
    udp-Passes ls,
  )

  redirected-Passes :
      (ls : List Ports)
      → All (λ l. l.tcp < 2 ^ 16) ls
      → All Passes (
          map (redirected_exprs e index) ls
          ++ ((final_verdict e index input port_unreachable).exprs ∷ []))
  redirected-Passes [] below = (final-Passes input port_unreachable, tt)
  redirected-Passes (l ∷ ls) (l_below, below) = (
    skips (from_index index f) _ _ _ elsewhere (accept_redirected_lem k index f fits l l_below),
    redirected-Passes ls below,
  )

  input-Passes :
      (ls : List Ports)
      → All (λ l. l.tcp < 2 ^ 16) ls
      → k.walk (rules_of input (rules e index udp ls)) f ≡ (accept, f)
  input-Passes ls below = rw (input_rules e index udp ls) (
      walk_passes k f _ (
        skips (from_index index f) _ _ _ elsewhere (accept_marked_lem k index f fits),
        (
          skips (from_index index f) _ _ _ elsewhere
              (accept_protocol_lem k index f fits ipproto_icmp),
          (
            skips (from_index index f) _ _ _ elsewhere
                (accept_protocol_lem k index f fits ipproto_icmpv6),
            redirected-Passes ls below,
          ),
        ),
      ))

  udp_prerouting-Passes :
      (ls : List Ports) → k.walk (rules_of udp_prerouting (rules e index udp ls)) f ≡ (accept, f)
  udp_prerouting-Passes ls = rw (udp_prerouting_rules e index udp ls) (
      walk_passes k f _ (
        skips_one (from_index index f) _ _ elsewhere (clear_mark_lem k index f fits),
        udp-Passes ls,
      ))

  prerouting-Passes :
      (ls : List Ports) → k.walk (rules_of prerouting (rules e index udp ls)) f ≡ (accept, f)
  prerouting-Passes ls = rw (prerouting_rules e index udp ls) (walk_passes k f _ (tcp-Passes ls))

  -- The first packet of a connection from another interface is neither stopped nor changed, on its way to the host or to
  -- another one.
  pub elsewhere-accept :
      (ls : List Ports)
      → f.first ≡ true
      → All (λ l. l.tcp < 2 ^ 16) ls
      → (delivers k (redirect_rules e index ls udp) f ≡ (accept, f))
        × (forwards k (redirect_rules e index ls udp) f ≡ (accept, f))
  unfolding redirect_rules
  elsewhere-accept ls opening below =
      let early = udp_prerouting-Passes ls in
      let late = if_true f.first _ _ opening ∙ prerouting-Passes ls in
      (
        to_input k (rules e index udp ls) f f f early late ∙ input-Passes ls below,
        to_forward k (rules e index udp ls) f f f early late
            ∙ rw (forward_rules e index udp ls) (walk_passes k f _ (final-Passes forward drop, tt)),
      )
