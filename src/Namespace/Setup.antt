-- ===== src/Namespace/Setup.antt =====
-- New and Close of sdk/pkg/netnsproxy/proxy_linux.go.
pub mod Listening
pub mod Ready
pub mod Guarded
use agents_net.Base.{
  ℕ, ◌≡◌, ◌%◌, ◌^◌, Bool, true, false, not, ◌&&◌, ◌||◌, Option, none, some, List, [], ◌∷◌, ◌++◌,
  map, ◌==◌, if◌then◌else◌, any,
}
use agents_net.Base.Bytes.{Bytes, codes}
use agents_net.Base.Int.{ℤ, pos, negsuc}
use agents_net.Base.Result.{Result, ok, err}
use agents_net.Policy.Names.{is_empty}
use agents_net.Firewall.{Endian, Conn, Ports, redirect_rules}
use agents_net.Namespace.Routes.{
  InetFamily, inet, inet6, family_eq, Netlink, RouteError, families, install_routes,
}

pub record Config : Type 0 where
  -- Forwarder, its Dialer and its DNS are not nil.
  pub has_forwarder : Bool
  pub interface : Bytes
  pub table : Bytes
  pub enable_udp : Bool
  pub enable_ipv6 : Bool
  pub max_connections : ℤ

pub record Link : Type 0 where
  pub index : ℕ
  pub loopback : Bool
  pub up : Bool

pub data Transport : Type 0 where
  stream : Transport
  packet : Transport

-- A socket that New listens on, with its port.
pub record Socket : Type 0 where
  pub transport : Transport
  pub family : InetFamily
  pub port : ℕ

pub record Proxy : Type 0 where
  pub config : Config
  pub slots : ℕ
  pub tcp : List Socket
  pub udp : List Socket

-- What the system answers; `none` and `false` are errors.
pub record Outside : Type 0 where
  pub interface_by_name : Bytes → Option Link
  pub interfaces : Option (List Link)
  pub listen : Transport → InetFamily → Option ℕ
  pub new_nftables : Bool
  pub flush : Bool
  pub flush_deletion : Bool

pub data SetupError : Type 0 where
  missing_forwarder : SetupError
  missing_interface : SetupError
  unknown_interface : SetupError
  unfit_interface : SetupError
  no_interfaces : SetupError
  unexpected_interface : SetupError
  not_listening : SetupError
  no_nftables : SetupError
  not_flushed : SetupError
  -- Of installRoutes, and whether the deletion of the table failed as well.
  no_routes : RouteError → Bool → SetupError

abbrev pub default_table : Bytes
default_table = codes "agents_net"

abbrev pub default_connections : ℕ
default_connections = 1024

-- cfg.MaxConnections with its default.
abbrev pub connections_or_default : ℤ → ℕ
connections_or_default (negsuc n) = default_connections
connections_or_default (pos n) = if n == 0 then default_connections else n

abbrev pub is_unexpected : Link → Link → Bool
is_unexpected l candidate = not (candidate.index == l.index) && not candidate.loopback

-- The checks in front of the first socket.
unfoldable pub check_config : Outside → Config → Result SetupError Link
check_config o c =
    if not c.has_forwarder
    then err missing_forwarder
    else if is_empty c.interface
    then err missing_interface
    else elim (o.interface_by_name c.interface) [
      | none ↦ err unknown_interface
      | some l ↦ if l.loopback || not l.up then err unfit_interface else elim o.interfaces [
        | none ↦ err no_interfaces
        | some links ↦ if any (is_unexpected l) links then err unexpected_interface else ok l
      ]
    ]

unfoldable pub with_defaults : Config → Config
with_defaults c = record c {
  table = if is_empty c.table then default_table else c.table;
  max_connections = pos (connections_or_default c.max_connections);
}

unfoldable pub new_value : Config → Proxy
unfolding with_defaults
new_value c = record {
  config = with_defaults c;
  slots = connections_or_default c.max_connections;
  tcp = [];
  udp = [];
}

abbrev pub nfproto_of : InetFamily → ℕ
nfproto_of inet = 2
nfproto_of inet6 = 10

-- The conversions uint16(port).
abbrev pub ports_of : InetFamily → ℕ → ℕ → Ports
ports_of family tcp udp = record {
  family = nfproto_of family;
  tcp = tcp % 2 ^ 16;
  udp = udp % 2 ^ 16;
}

-- The sockets that are open, and the proxy that owns them.
pub record Host : Type 0 where
  pub open_sockets : List Socket
  pub proxy : Proxy

unfoldable pub open_tcp : InetFamily → ℕ → Host → Host
open_tcp family port h = record {
  open_sockets = h.open_sockets ++ record { transport = stream; family = family; port = port } ∷ [];
  proxy = record h.proxy {
    tcp = h.proxy.tcp ++ record { transport = stream; family = family; port = port } ∷ [];
  };
}

unfoldable pub open_udp : InetFamily → ℕ → Host → Host
open_udp family port h = record {
  open_sockets = h.open_sockets ++ record { transport = packet; family = family; port = port } ∷ [];
  proxy = record h.proxy {
    udp = h.proxy.udp ++ record { transport = packet; family = family; port = port } ∷ [];
  };
}

unfoldable pub listen_family : Outside → InetFamily → Host → Host × Option Ports
unfolding open_tcp open_udp
listen_family o family h = elim (o.listen stream family) [
  | none ↦ (h, none)
  | some t ↦ elim (o.listen packet family) [
    | none ↦ (open_tcp family t h, none)
    | some u ↦ (open_udp family u (open_tcp family t h), some (ports_of family t u))
  ]
]

abbrev pub put_ports : Ports → Host × Option (List Ports) → Host × Option (List Ports)
put_ports l (h, none) = (h, none)
put_ports l (h, some ls) = (h, some (l ∷ ls))

abbrev pub listen_on :
    (Host → Host × Option (List Ports)) → Host × Option Ports → Host × Option (List Ports)
listen_on next (h, none) = (h, none)
listen_on next (h, some l) = put_ports l (next h)

unfoldable pub listen_families : Outside → List InetFamily → Host → Host × Option (List Ports)
unfolding listen_family
listen_families o [] h = (h, some [])
listen_families o (family ∷ rest) h = listen_on (listen_families o rest) (listen_family o family h)

abbrev pub transport_eq : Transport → Transport → Bool
transport_eq stream stream = true
transport_eq packet packet = true
transport_eq _ _ = false

abbrev pub socket_eq : Socket → Socket → Bool
socket_eq s t =
    transport_eq s.transport t.transport && (family_eq s.family t.family && (s.port == t.port))

abbrev pub owns : Proxy → Socket → Bool
owns p s = any (socket_eq s) (p.tcp ++ p.udp)

-- Close, on the sockets that are open.
abbrev pub close : Proxy → List Socket → List Socket
close p [] = []
close p (s ∷ l) = if owns p s then close p l else s ∷ close p l

-- What New leaves behind: the open sockets, the table of nftables, the tables of routes, and
-- what it returns.
pub record Setup (n : Netlink) : Type 0 where
  pub open_sockets : List Socket
  pub installed : Option Conn
  pub tables : n.State
  pub result : Result SetupError Proxy

module _ (n : Netlink) (o : Outside) (e : Endian) where
  abbrev pub failed : Host → Option Conn → n.State → SetupError → Setup n
  failed h installed tables x = record {
    open_sockets = close h.proxy h.open_sockets;
    installed = installed;
    tables = tables;
    result = err x;
  }

  -- The end of New, with what installRoutes returns.
  unfoldable pub after_routes : Host → Conn → n.State × Option RouteError → Setup n
  after_routes h conn (t, none) = record {
    open_sockets = h.open_sockets;
    installed = some conn;
    tables = t;
    result = ok h.proxy;
  }
  after_routes h conn (t, some x) =
      failed h (if o.flush_deletion then none else some conn) t (no_routes x (not o.flush_deletion))

  unfoldable pub install_rules : Config → ℕ → n.State → Host × Option (List Ports) → Setup n
  unfolding after_routes
  install_rules c index tables (h, none) = failed h none tables not_listening
  install_rules c index tables (h, some ls) =
      if not o.new_nftables
      then failed h none tables no_nftables
      else if not o.flush
      then failed h none tables not_flushed
      else after_routes h (redirect_rules e index ls c.enable_udp)
          (install_routes n c.enable_ipv6 tables)

  abbrev pub after_check : Config → n.State → Result SetupError Link → Setup n
  after_check c tables (err x) = record {
    open_sockets = [];
    installed = none;
    tables = tables;
    result = err x;
  }
  after_check c tables (ok l) = install_rules c l.index tables (
      listen_families o (families c.enable_ipv6)
        (record { open_sockets = []; proxy = new_value c }))

  unfoldable pub new_proxy : Config → n.State → Setup n
  unfolding check_config new_value listen_families install_rules
  new_proxy c tables = after_check c tables (check_config o c)
