-- ===== src/Namespace/Setup/Ready.antt =====
-- New of sdk/pkg/netnsproxy/proxy_linux.go leaves nothing behind when it fails.
use mathlib.Core.Path.{subst}
use agents_net.Base.{
  ◌^◌, ◌<◌, ◌≡◌, refl, ◌⊎◌, inl, inr, Bool, true, false, not, ◌||◌, Option, none, some, List, [],
  map, if◌then◌else◌, arith, All, any, Option-cases,
}
use agents_net.Base.Result.{Result, ok, err, ok-eq}
use agents_net.Policy.Names.{is_empty}
use agents_net.Firewall.{Endian, Conn, Ports, redirect_rules}
use agents_net.Namespace.Routes.{Netlink, RouteError, families}
use agents_net.Namespace.Routes.Restored.{
  IsRestored, unchanged, IsInstalled, install_routes-IsInstalled,
}
use agents_net.Namespace.Setup.{
  Config, Link, Proxy, Outside, SetupError, missing_forwarder, missing_interface, unfit_interface,
  no_interfaces, unexpected_interface, no_routes, connections_or_default, is_unexpected,
  check_config, with_defaults, new_value, nfproto_of, Host, Setup, failed, after_routes,
  install_rules, after_check, new_proxy,
}
use agents_net.Namespace.Setup.Listening.{
  IsOwned, close-IsOwned, endpoint, tcp_endpoint, udp_endpoint, IsGrown, IsListening,
  listen_families-IsListening,
}

-- The interface is up, is not the loopback, and is alone in its namespace but for loopbacks.
pub record IsIngress (o : Outside) (c : Config) (l : Link) : Type 0 where
  pub named : o.interface_by_name c.interface ≡ some l
  pub not_loopback : l.loopback ≡ false
  pub up : l.up ≡ true
  pub links : List Link
  pub listed : o.interfaces ≡ some links
  pub alone : any (is_unexpected l) links ≡ false

guard_passed :
    {A : Type 0} (b : Bool) (x : SetupError) (r : Result SetupError A) (a : A)
    → (if b then err x else r) ≡ ok a
    → (b ≡ false) × (r ≡ ok a)
guard_passed true x r a h = absurd (erred h)
  where
    erred : err x ≡ ok a → ⊥
    erred q = cc
guard_passed false x r a h = (refl, h)

-- What the interface's list of neighbours has to be.
checked_links : Outside → Link → Result SetupError Link
checked_links o l = elim o.interfaces [
  | none ↦ err no_interfaces
  | some links ↦ if any (is_unexpected l) links then err unexpected_interface else ok l
]

checked_link : Outside → Link → Result SetupError Link
unfolding checked_links
checked_link o l = if l.loopback || not l.up then err unfit_interface else checked_links o l

checked_links-alone :
    (o : Outside) (l m : Link)
    → checked_links o l ≡ ok m
    → (l ≡ m)
      × (links : List Link) × (o.interfaces ≡ some links)
      × (any (is_unexpected l) links ≡ false)
unfolding checked_links
checked_links-alone o l m h = elim (Option-cases o.interfaces) [
  | inl unlisted ↦ let q = rw (unlisted, checked_links) at h in absurd (erred q)
  | inr (links, listed) ↦
      let q = rw (listed, checked_links) at h in
      let (alone, same) =
        guard_passed (any (is_unexpected l) links) unexpected_interface (ok l) m q in
      (ok-eq same, links, listed, alone)
]
  where
    erred : {x : SetupError} → err x ≡ ok m → ⊥
    erred q = cc

checked_link-IsIngress :
    (o : Outside) (c : Config) (l m : Link)
    → o.interface_by_name c.interface ≡ some l
    → checked_link o l ≡ ok m
    → IsIngress o c m
unfolding checked_link
checked_link-IsIngress o c l m named h =
    let (fit, q) = guard_passed (l.loopback || not l.up) unfit_interface (checked_links o l) m h in
    let (same, links, listed, alone) = checked_links-alone o l m q in
    subst (IsIngress o c) same (record {
      named = named;
      not_loopback = ground arith;
      up = ground arith;
      links = links;
      listed = listed;
      alone = alone;
    })

check_config-IsIngress :
    (o : Outside) (c : Config) (l : Link) → check_config o c ≡ ok l → IsIngress o c l
unfolding check_config checked_link checked_links
check_config-IsIngress o c l h =
    let (forwarder, q) = guard_passed (not c.has_forwarder) missing_forwarder _ l h in
    let (filled, q') = guard_passed (is_empty c.interface) missing_interface _ l q in
    elim (Option-cases (o.interface_by_name c.interface)) [
      | inl unnamed ↦ let x = rw unnamed at q' in absurd (erred x)
      | inr (m, named) ↦ checked_link-IsIngress o c m l named (rw named at q')
    ]
  where
    erred : {x : SetupError} → err x ≡ ok l → ⊥
    erred q = cc

module _ (n : Netlink) (o : Outside) (e : Endian) (c : Config) (start : n.State) where
  -- A proxy that listens, with what was installed for it.
  pub record IsReady (s : Setup n) (p : Proxy) : Type 0 where
    pub link : Link
    pub ingress : IsIngress o c link
    pub config : p.config ≡ with_defaults c
    pub slots : p.slots ≡ connections_or_default c.max_connections
    pub listeners : List Ports
    pub tcp : map endpoint p.tcp ≡ map tcp_endpoint listeners
    pub udp : map endpoint p.udp ≡ map udp_endpoint listeners
    pub of_families : map (λ l. l.family) listeners ≡ map nfproto_of (families c.enable_ipv6)
    pub small : All (λ l. (l.tcp < 2 ^ 16) × (l.udp < 2 ^ 16)) listeners
    pub rules : s.installed ≡ some (redirect_rules e link.index listeners c.enable_udp)
    pub routes : IsInstalled n c.enable_ipv6 start (s.tables, none)

  -- Nothing is left, but what could not be deleted.
  pub record IsUndone (s : Setup n) (x : SetupError) : Type 0 where
    pub closed : s.open_sockets ≡ []
    pub tables : IsRestored n c.enable_ipv6 start s.tables
    pub rules : (s.installed ≡ none) ⊎ ((r : RouteError) × (x ≡ no_routes r true))

  abbrev pub IsReturned : Setup n → Result SetupError Proxy → Type 0
  IsReturned s (ok p) = IsReady s p
  IsReturned s (err x) = IsUndone s x

  abbrev pub IsSetUp : Setup n → Type 0
  IsSetUp s = IsReturned s s.result

  failed-IsSetUp :
      (h : Host) (t : n.State) (x : SetupError)
      → IsOwned h
      → IsRestored n c.enable_ipv6 start t
      → IsSetUp (failed n o e h none t x)
  failed-IsSetUp h t x owned same = record {
    closed = close-IsOwned h.proxy h.open_sockets owned;
    tables = same;
    rules = inl refl;
  }

  abbrev begin : Host
  unfolding new_value
  begin = record { open_sockets = []; proxy = new_value c }

  after_routes-IsSetUp :
      (h : Host) (l : Link) (ls : List Ports)
      → IsIngress o c l
      → IsOwned h
      → IsGrown begin h (families c.enable_ipv6) ls
      → (r : n.State × Option RouteError) → IsInstalled n c.enable_ipv6 start r
      → IsSetUp (after_routes n o e h (redirect_rules e l.index ls c.enable_udp) r)
  unfolding after_routes begin
  after_routes-IsSetUp h l ls ingress owned g (t, none) routed = record {
    link = l;
    ingress = ingress;
    config = g.config;
    slots = g.slots;
    listeners = ls;
    tcp = g.tcp;
    udp = g.udp;
    of_families = g.of_families;
    small = g.small;
    rules = refl;
    routes = routed;
  }
  after_routes-IsSetUp h l ls ingress owned g (t, some x) same = record {
    closed = close-IsOwned h.proxy h.open_sockets owned;
    tables = same;
    rules = left o.flush_deletion _;
  }
    where
      left :
          (b : Bool) (k : Conn)
          → ((if b then none else some k) ≡ none)
            ⊎ ((r : RouteError) × (no_routes x (not b) ≡ no_routes r true))
      left true k = inl refl
      left false k = inr (x, refl)

  install_rules-IsSetUp :
      (l : Link) (r : Host × Option (List Ports))
      → IsIngress o c l
      → IsListening begin (families c.enable_ipv6) r
      → IsSetUp (install_rules n o e c l.index start r)
  unfolding install_rules
  install_rules-IsSetUp l (h, none) ingress owned =
      failed-IsSetUp h start _ owned (unchanged n c.enable_ipv6 start)
  install_rules-IsSetUp l (h, some ls) ingress (owned, g) =
      either o.new_nftables _ _ (failed-IsSetUp h start _ owned (unchanged n c.enable_ipv6 start)) (
        either o.flush _ _ (failed-IsSetUp h start _ owned (unchanged n c.enable_ipv6 start)) (
          after_routes-IsSetUp h l ls ingress owned g _
            (install_routes-IsInstalled n c.enable_ipv6 start)))
    where
      either : (b : Bool) (s t : Setup n) → IsSetUp s → IsSetUp t → IsSetUp (if not b then s else t)
      either true s t p q = q
      either false s t p q = p

  after_check-IsSetUp :
      (r : Result SetupError Link)
      → ((l : Link) → r ≡ ok l → IsIngress o c l)
      → IsSetUp (after_check n o e c start r)
  unfolding begin
  after_check-IsSetUp (err x) ingress = record {
    closed = refl;
    tables = unchanged n c.enable_ipv6 start;
    rules = inl refl;
  }
  after_check-IsSetUp (ok l) ingress =
      install_rules-IsSetUp l _ (ingress l refl)
        (listen_families-IsListening o (families c.enable_ipv6) begin tt)

  -- New either returns a proxy or undoes what it did. A proxy has the defaults filled in, one
  -- socket of TCP and one of UDP for every family, the rules for these sockets and the interface
  -- installed, and the routes; the interface is up, is no loopback, and is alone but for
  -- loopbacks. After an error every socket is closed, the routes and their rules are as before,
  -- but for those that were added and whose deletion failed, and no rule of nftables is left,
  -- unless the deletion of the table failed too, which the error then tells.
  pub new_proxy-IsSetUp : IsSetUp (new_proxy n o e c start)
  unfolding new_proxy
  new_proxy-IsSetUp = after_check-IsSetUp (check_config o c) (check_config-IsIngress o c)
