-- ===== src/Boundary/H2.antt =====
-- serveH2 of sdk/cmd/connect-proxy/main.go: a request on one stream of an HTTP/2 session.
pub mod Answered
use agents_net.Base.{ℕ, Bool, not, ◌||◌, Option, none, some, List, [], if◌then◌else◌}
use agents_net.Base.Bytes.{Bytes, codes, bytes_eq}
use agents_net.Base.Result.{ok, err}
use agents_net.Net.{split_host_port}
use agents_net.Netip.{Addr}
use agents_net.Policy.{tcp, udp, Policy, parse_port}
use agents_net.Policy.Names.{is_empty}
use agents_net.Policy.Authorize.{
  malformed_target, malformed_port, malformed_template, connect_only, unsupported_protocol,
}
use agents_net.Boundary.{World, h2, Session, Event, connect_upstream}
use agents_net.Boundary.Front.{is_ok, masque_target, refuse, respond}

-- What package http2 gives of a request: the method, the field :protocol, the decoded path and the
-- authority.
pub record Stream : Type 0 where
  pub method : Bytes
  pub protocol : Bytes
  pub path : Bytes
  pub authority : Bytes

unfoldable pub h2_udp :
    World → Option Policy → Stream → Session → Option (List Event × Option (Addr × Bytes))
h2_udp w current r s =
    if not (bytes_eq r.protocol (codes "connect-udp"))
    then some (refuse h2 w current none r.path s 400 unsupported_protocol)
    else elim (masque_target r.path) [
      | none ↦ some (refuse h2 w current (some udp) r.path s 400 malformed_template)
      | some (host, port) ↦ respond 200 (connect_upstream w current h2 udp host port s)
    ]

unfoldable pub h2_tcp :
    World → Option Policy → Stream → Session → Option (List Event × Option (Addr × Bytes))
h2_tcp w current r s = elim (split_host_port r.authority) [
  | none ↦ some (refuse h2 w current (some tcp) r.authority s 400 malformed_target)
  | some (host, port) ↦
      if is_empty host
      then some (refuse h2 w current (some tcp) r.authority s 400 malformed_target)
      else if not (is_ok (parse_port port))
      then some (refuse h2 w current (some tcp) r.authority s 400 malformed_port)
      else respond 200 (connect_upstream w current h2 tcp host port s)
]

unfoldable pub serve_h2 :
    World → Option Policy → Stream → Session → Option (List Event × Option (Addr × Bytes))
unfolding h2_udp h2_tcp
serve_h2 w current r s =
    if not (bytes_eq r.method (codes "CONNECT"))
    then some (refuse h2 w current none [] s 405 connect_only)
    else if not (is_empty r.protocol)
    then h2_udp w current r s
    else h2_tcp w current r s
