-- ===== src/Firewall/Rules.antt =====
-- What each rule of rules_linux.go of sdk/pkg/netnsproxy does to a packet.
use agents_net.Base.{
  ℕ, ◌%◌, ◌^◌, ◌<◌, ◌≡◌, refl, Bool, true, false, not, ◌&&◌, ◌||◌, List, [], ◌∷◌, ◌++◌, ◌∙◌, ◌==◌,
  if◌then◌else◌, arith,
}
use agents_net.Base.Bytes.{bytes_eq}
use agents_net.Firewall.{
  Endian, little, big, append_uint32, append_uint16, four_zeros, mark, Ruling, accept, Expr, meta,
  set_meta, cmp_eq, cmp_neq, ct_status, bitwise, immediate, tproxy, rule_verdict, Ports, port_match,
  ipproto_tcp, ipproto_udp, status_destination_nat, routing_mark, ChainName, redirect_tcp,
  redirect_udp, clear_mark, accept_marked, accept_protocol, accept_redirected, final_verdict,
}
use agents_net.Firewall.Kernel.{
  Frame, IsFrame, Registers, store, translated, ruled, passed, RuleResult, Nftables,
}
use agents_net.Firewall.Digits.{append_uint32-bytes_eq}
use agents_net.Firewall.Tests.{
  interface_lem, protocol_lem, family_lem, port_lem, meta-cmp, also, behind,
}

abbrev pub from_index : ℕ → Frame → Bool
from_index index f = f.interface == index % 2 ^ 32

-- A socket of the listener takes the datagram: of its family, to port 53 if UDP is not enabled.
abbrev pub takes : {e : Endian} → Nftables e → Bool → Frame → Ports → Bool
takes k udp f l =
    (f.family == l.family)
    && ((f.protocol == ipproto_udp)
        && ((udp || (f.port == 53)) && k.listens l.family (append_uint16 l.udp) f))

-- The listener's port of TCP, reached by translation.
abbrev pub reaches : Frame → Ports → Bool
reaches f l =
    (f.protocol == ipproto_tcp) && ((f.family == l.family) && ((f.port == l.tcp) && translated f))

module _ {e : Endian} (k : Nftables e) (index : ℕ) (f : Frame) (fits : IsFrame f) where
  pub clear_mark_lem :
      k.run_rule (clear_mark e index).exprs k.fresh f
      ≡ (if from_index index f then passed (record f { fwmark = 0 }) else passed f)
  unfolding clear_mark append_uint32
  clear_mark_lem =
      behind (from_index index f) _ (interface_lem k index _ _ f fits.interface) (
        k.constant 1 four_zeros _ _ f
        ∙ k.sets 1 _ _ f 0 (omega arith) (zero_bytes e)
        ∙ k.at_end _ _)
    where
      zero_bytes : (e : Endian) → four_zeros ≡ append_uint32 e 0
      zero_bytes little = refl
      zero_bytes big = refl

  pub final_verdict_lem :
      (chain : ChainName) (v : Ruling)
      → k.run_rule (final_verdict e index chain v).exprs k.fresh f
        ≡ (if from_index index f then ruled v f else passed f)
  unfolding final_verdict
  final_verdict_lem chain v =
      behind (from_index index f) _ (interface_lem k index _ _ f fits.interface)
        (k.decides v [] _ f)

  pub accept_protocol_lem :
      (protocol : ℕ)
      → k.run_rule (accept_protocol e index protocol).exprs k.fresh f
        ≡ (if from_index index f && (f.protocol == protocol) then ruled accept f else passed f)
  unfolding accept_protocol
  accept_protocol_lem protocol =
      also (from_index index f) _ _ _ (interface_lem k index _ _ f fits.interface) (
        behind (f.protocol == protocol) _ (protocol_lem k protocol _ _ f) (k.decides accept [] _ f))

  pub accept_marked_lem : k.run_rule (accept_marked e index).exprs k.fresh f ≡ (
      if from_index index f && ((f.protocol == ipproto_udp) && (f.fwmark == routing_mark))
      then ruled accept f
      else passed f)
  unfolding accept_marked
  accept_marked_lem = also (from_index index f) _ _ _ (interface_lem k index _ _ f fits.interface) (
      also (f.protocol == ipproto_udp) _ _ _ (protocol_lem k ipproto_udp _ _ f)
        (behind (f.fwmark == routing_mark) _ (marked _) (k.decides accept [] _ f)))
    where
      marked :
          (regs : Registers)
          → k.run_rule
              (meta mark 1 ∷ cmp_eq 1 (append_uint32 e routing_mark) ∷ rule_verdict accept ∷ [])
              regs
              f
            ≡ (if f.fwmark == routing_mark
                then k.run_rule
                    (rule_verdict accept ∷ [])
                    (store 1 (append_uint32 e f.fwmark) regs)
                    f
                else passed f)
      marked regs =
          rw
            (
              meta-cmp k mark (append_uint32 e routing_mark) (rule_verdict accept ∷ []) regs f,
              append_uint32-bytes_eq e f.fwmark routing_mark fits.fwmark (omega arith),
            )
            refl

  pub redirect_tcp_lem :
      (l : Ports)
      → k.run_rule (redirect_tcp e index l).exprs k.fresh f ≡ (
          if from_index index f && ((f.family == l.family) && (f.protocol == ipproto_tcp))
          then ruled accept (k.translate (append_uint16 l.tcp) f)
          else passed f)
  unfolding redirect_tcp
  redirect_tcp_lem l =
      also (from_index index f) _ _ _ (interface_lem k index _ _ f fits.interface) (
        also (f.family == l.family) _ _ _ (family_lem k l.family _ _ f) (
          behind (f.protocol == ipproto_tcp) _ (protocol_lem k ipproto_tcp _ _ f)
            (k.constant 1 (append_uint16 l.tcp) _ _ f ∙ k.redirects 1 [] _ f)))

  sent_to_socket :
      (l : Ports) (regs : Registers)
      → k.run_rule
          (immediate 1 (append_uint16 l.udp)
            ∷ tproxy l.family 1
            ∷ immediate 1 (append_uint32 e routing_mark)
            ∷ set_meta mark 1
            ∷ rule_verdict accept
            ∷ [])
          regs
          f
        ≡ (if k.listens l.family (append_uint16 l.udp) f
            then ruled accept (record f { fwmark = routing_mark })
            else passed f)
  sent_to_socket l regs =
      behind (k.listens l.family (append_uint16 l.udp) f) (passed f)
        (k.constant 1 (append_uint16 l.udp) _ regs f
          ∙ k.finds_socket l.family 1 _ (store 1 (append_uint16 l.udp) regs) f)
        (k.constant 1 (append_uint32 e routing_mark) _ _ f
          ∙ k.sets 1 _ _ f routing_mark (omega arith) refl
          ∙ k.decides accept [] _ _)

  port_of_udp :
      (udp : Bool) (rest : List Expr) (regs : Registers) (o : RuleResult) (c : Bool)
      → ((r : Registers) → k.run_rule rest r f ≡ (if c then o else passed f))
      → k.run_rule ((if not udp then port_match 53 else []) ++ rest) regs f
        ≡ (if (udp || (f.port == 53)) && c then o else passed f)
  port_of_udp true rest regs o c h = h regs
  port_of_udp false rest regs o c h =
      also (f.port == 53) c _ _ (port_lem k 53 rest regs f fits.port (omega arith)) (h _)

  pub redirect_udp_lem :
      (udp : Bool) (l : Ports)
      → k.run_rule (redirect_udp e index udp l).exprs k.fresh f ≡ (
          if from_index index f && takes k udp f l
          then ruled accept (record f { fwmark = routing_mark })
          else passed f)
  unfolding redirect_udp
  redirect_udp_lem udp l =
      also (from_index index f) _ _ _ (interface_lem k index _ _ f fits.interface) (
        also (f.family == l.family) _ _ _ (family_lem k l.family _ _ f) (
          also (f.protocol == ipproto_udp) _ _ _ (protocol_lem k ipproto_udp _ _ f)
            (port_of_udp udp _ _ _ _ (sent_to_socket l))))

  translated_lem :
      (regs : Registers)
      → k.run_rule
          (ct_status 1
            ∷ bitwise 1 1 4 (append_uint32 e status_destination_nat) four_zeros
            ∷ cmp_neq 1 four_zeros
            ∷ rule_verdict accept
            ∷ [])
          regs
          f
        ≡ (if translated f then ruled accept f else passed f)
  unfolding bytes_eq append_uint32
  translated_lem regs =
      k.reads_status 1 _ regs f
      ∙ k.unequal 1 four_zeros _ _ f
      ∙ on_bit e (translated f) (k.decides accept [] _ f)
    where
      on_bit :
          (e : Endian) (b : Bool) {x : RuleResult}
          → x ≡ ruled accept f
          → (if bytes_eq (append_uint32 e (if b then 32 else 0)) four_zeros then passed f else x)
            ≡ (if b then ruled accept f else passed f)
      on_bit little true h = h
      on_bit little false h = refl
      on_bit big true h = h
      on_bit big false h = refl

  pub accept_redirected_lem :
      (l : Ports)
      → l.tcp < 2 ^ 16
      → k.run_rule (accept_redirected e index l).exprs k.fresh f
        ≡ (if from_index index f && reaches f l then ruled accept f else passed f)
  unfolding accept_redirected
  accept_redirected_lem l below =
      also (from_index index f) _ _ _ (interface_lem k index _ _ f fits.interface) (
        also (f.protocol == ipproto_tcp) _ _ _ (protocol_lem k ipproto_tcp _ _ f) (
          also (f.family == l.family) _ _ _ (family_lem k l.family _ _ f) (
            also (f.port == l.tcp) _ _ _ (port_lem k l.tcp _ _ f fits.port below)
              (translated_lem _))))
