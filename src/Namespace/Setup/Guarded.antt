-- ===== src/Namespace/Setup/Guarded.antt =====
-- What the rules that New of sdk/pkg/netnsproxy/proxy_linux.go installs let a guest reach.
use mathlib.Core.Path.{subst}
use agents_net.Base.{
  ◌%◌, ◌^◌, ◌<◌, ◌≡◌, refl, sym, ap, ◌∙◌, ◌⊎◌, inl, inr, Bool, true, false, ◌&&◌, ◌||◌, some, List,
  [], ◌∷◌, ◌==◌, if◌then◌else◌, arith, All-map, any, Bool-cases, and_true, ==_iff,
}
use agents_net.Base.Result.{ok}
use agents_net.Firewall.{
  Endian, Conn, Ports, accept, drop, ipproto_icmp, ipproto_icmpv6, ipproto_tcp, ipproto_udp,
  port_unreachable,
}
use agents_net.Firewall.Kernel.{Frame, IsFrame, Nftables, delivers, forwards}
use agents_net.Firewall.Rules.{from_index, takes}
use agents_net.Firewall.Delivered.{admitted, delivers-admitted}
use agents_net.Firewall.HandedOn.{unmarked}
use agents_net.Firewall.Listeners.{comes_in}
use agents_net.Firewall.Isolated.{forwards-drop}
use agents_net.Namespace.Routes.{Netlink}
use agents_net.Namespace.Setup.{Config, Link, Proxy, Outside, new_proxy}
use agents_net.Namespace.Setup.Ready.{IsReturned, new_proxy-IsSetUp}

-- ICMP, TCP, and UDP if it is enabled or asks a resolver.
abbrev pub IsAllowed : Config → Frame → Type 0
IsAllowed c f =
    (f.protocol ≡ ipproto_icmp)
    ⊎ ((f.protocol ≡ ipproto_icmpv6)
        ⊎ ((f.protocol ≡ ipproto_tcp)
            ⊎ ((f.protocol ≡ ipproto_udp) × ((c.enable_udp ≡ true) ⊎ (f.port ≡ 53)))))

taken-IsAllowed :
    {e : Endian} (k : Nftables e) (c : Config) (f : Frame) (ls : List Ports)
    → any (takes k c.enable_udp (unmarked f)) ls ≡ true
    → (f.protocol ≡ ipproto_udp) × ((c.enable_udp ≡ true) ⊎ (f.port ≡ 53))
taken-IsAllowed k c f [] h = absurd (cc)
taken-IsAllowed k c f (l ∷ ls) h = elim (Bool-cases (takes k c.enable_udp (unmarked f) l)) [
  | inl taken ↦
      let is_udp =
        and_true (f.protocol == ipproto_udp) _ (and_true (f.family == l.family) _ taken).1 in
      (
        (==_iff f.protocol ipproto_udp).0 is_udp.0,
        enabled_or_dns c.enable_udp (and_true (c.enable_udp || (f.port == 53)) _ is_udp.1).0,
      )
  | inr other ↦ taken-IsAllowed k c f ls (rw other at h)
]
  where
    enabled_or_dns : (b : Bool) → (b || (f.port == 53)) ≡ true → (b ≡ true) ⊎ (f.port ≡ 53)
    enabled_or_dns true q = inl refl
    enabled_or_dns false q = inr ((==_iff f.port 53).0 q)

admitted-IsAllowed :
    {e : Endian} (k : Nftables e) (c : Config) (f : Frame) (ls : List Ports)
    → admitted k c.enable_udp ls f ≡ true
    → IsAllowed c f
admitted-IsAllowed k c f ls h = elim (Bool-cases (any (takes k c.enable_udp (unmarked f)) ls)) [
  | inl taken ↦ inr (inr (inr (taken-IsAllowed k c f ls taken)))
  | inr other ↦ protocols (rw other at h)
]
  where
    protocols :
        ((f.protocol == ipproto_icmp)
            || ((f.protocol == ipproto_icmpv6)
                || ((f.protocol == ipproto_tcp) && comes_in k ls (unmarked f))))
          ≡ true
        → IsAllowed c f
    protocols q = ground arith

-- Once New has returned a proxy, no packet that comes in by its interface is forwarded, and one
-- for the host gets in only if it is ICMP, TCP, or UDP that is enabled or for port 53; it does
-- not depend on the mark of the packet.
pub guarded-IsAllowed :
    (n : Netlink) (o : Outside) (e : Endian) (c : Config) (start : n.State) (p : Proxy)
    (conn : Conn) (link : Link) (k : Nftables e) (f : Frame)
    → (new_proxy n o e c start).result ≡ ok p
    → (new_proxy n o e c start).installed ≡ some conn
    → o.interface_by_name c.interface ≡ some link
    → f.interface ≡ link.index % 2 ^ 32
    → IsFrame f
    → ((forwards k conn f).0 ≡ drop) × ((delivers k conn f).0 ≡ accept → IsAllowed c f)
guarded-IsAllowed n o e c start p conn link k f returned kept named comes fits =
    let ready =
      subst (IsReturned n o e c start (new_proxy n o e c start)) returned
        (new_proxy-IsSetUp n o e c start) in
    let same_link : ready.link ≡ link = some-eq (sym ready.ingress.named ∙ named) in
    let here : from_index ready.link.index f ≡ true =
      (==_iff f.interface (ready.link.index % 2 ^ 32)).1
        (comes ∙ ap (λ (l : Link). l.index % 2 ^ 32) (sym same_link)) in
    let small =
      All-map ready.listeners (λ (l : Ports) (h : (l.tcp < 2 ^ 16) × (l.udp < 2 ^ 16)). h.0)
        ready.small in
    subst
      (λ (x : Conn). ((forwards k x f).0 ≡ drop) × ((delivers k x f).0 ≡ accept → IsAllowed c f))
      (some-eq (sym ready.rules ∙ kept))
      (
        forwards-drop k ready.link.index c.enable_udp ready.listeners f fits here small,
        λ let_in. admitted-IsAllowed k c f ready.listeners (
            let_in_only (admitted k c.enable_udp ready.listeners f) (
              sym (
                delivers-admitted k ready.link.index c.enable_udp ready.listeners f fits here small)
              ∙ let_in)),
      )
  where
    some-eq : {A : Type 0} {x y : A} → some x ≡ some y → x ≡ y
    some-eq q = cc

    let_in_only : (b : Bool) → (if b then accept else port_unreachable) ≡ accept → b ≡ true
    let_in_only true q = refl
    let_in_only false q = cc
