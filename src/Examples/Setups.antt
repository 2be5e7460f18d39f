-- ===== src/Examples/Setups.antt =====
-- A proxy for the interface 7, with a kernel and tables on which every call works.
use agents_net.Base.{ℕ, ◌≡◌, refl, true, false, some, List, [], ◌∷◌}
use agents_net.Base.Bytes.{codes}
use agents_net.Base.Int.{pos}
use agents_net.Base.Result.{ok}
use agents_net.Firewall.{little, Ports, accept, drop, redirect_rules}
use agents_net.Firewall.Kernel.{delivers, forwards}
use agents_net.Namespace.Routes.{
  InetFamily, inet, inet6, install_routes, install_families, install_family, add_route, add_rule,
  keep_or_undo, roll_back, entry_eq,
}
use agents_net.Namespace.Setup.{
  Config, Link, Transport, stream, packet, Proxy, Outside, check_config, with_defaults, new_value,
  open_tcp, open_udp, listen_family, listen_families, after_routes, install_rules, new_proxy,
}
use agents_net.Namespace.Setup.Ready.{IsSetUp, new_proxy-IsSetUp}
use agents_net.Namespace.Setup.Guarded.{IsAllowed, guarded-IsAllowed}
use agents_net.Examples.Firewall.{kernel, forged, forged-IsFrame}
use agents_net.Examples.Namespaces.{Entries, netlink}

abbrev config : Config
config = record {
  has_forwarder = true;
  interface = codes "eth0";
  table = [];
  enable_udp = false;
  enable_ipv6 = true;
  max_connections = pos 0;
}

abbrev eth : Link
eth = record { index = 7; loopback = false; up = true }

abbrev port_of : Transport → InetFamily → ℕ
port_of stream inet = 40001
port_of packet inet = 40002
port_of stream inet6 = 40003
port_of packet inet6 = 40004

abbrev outside : Outside
outside = record {
  interface_by_name = λ name. some eth;
  interfaces = some (record { index = 1; loopback = true; up = true } ∷ eth ∷ []);
  listen = λ t f. some (port_of t f);
  new_nftables = true;
  flush = true;
  flush_deletion = true;
}

abbrev empty : Entries
empty x = false

setups : Unit {0}
unfolding entry_eq install_routes install_families install_family add_route add_rule keep_or_undo
    roll_back check_config with_defaults new_value open_tcp open_udp listen_family listen_families
    after_routes install_rules new_proxy
setups = tt

new_proxy-IsSetUp_example :
    IsSetUp netlink outside little config empty (new_proxy netlink outside little config empty)
new_proxy-IsSetUp_example = new_proxy-IsSetUp netlink outside little config empty

abbrev proxy : Proxy
proxy = record {
  config = record config { table = codes "agents_net"; max_connections = pos 1024 };
  slots = 1024;
  tcp =
      record { transport = stream; family = inet; port = 40001 }
      ∷ record { transport = stream; family = inet6; port = 40003 }
      ∷ [];
  udp =
      record { transport = packet; family = inet; port = 40002 }
      ∷ record { transport = packet; family = inet6; port = 40004 }
      ∷ [];
}

abbrev listeners : List Ports
listeners =
    record { family = 2; tcp = 40001; udp = 40002 }
    ∷ record { family = 10; tcp = 40003; udp = 40004 }
    ∷ []

returned : (new_proxy netlink outside little config empty).result ≡ ok proxy
unfolding setups
returned = refl

kept :
    (new_proxy netlink outside little config empty).installed
    ≡ some (redirect_rules little 7 listeners false)
unfolding setups
kept = refl

guarded-IsAllowed_example :
    ((forwards kernel (redirect_rules little 7 listeners false) forged).0 ≡ drop)
    × ((delivers kernel (redirect_rules little 7 listeners false) forged).0 ≡ accept
        → IsAllowed config forged)
guarded-IsAllowed_example =
    guarded-IsAllowed netlink outside little config empty proxy
      (redirect_rules little 7 listeners false) eth kernel forged returned kept refl refl
      forged-IsFrame
