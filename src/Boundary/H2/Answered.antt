-- ===== src/Boundary/H2/Answered.antt =====
-- serveH2 of sdk/cmd/connect-proxy/main.go: what comes of every request.
use agents_net.Base.{
  ℕ, ◌≡◌, true, false, Bool-cases, Option, Option-cases, none, some, List, [], inl, inr,
}
use agents_net.Base.Bytes.{Bytes, codes, bytes_eq, bytes_eq→eq}
use agents_net.Net.{split_host_port}
use agents_net.Netip.{Addr}
use agents_net.Policy.{Network, tcp, udp, Policy, parse_port}
use agents_net.Policy.Names.{is_empty}
use agents_net.Policy.Authorize.{
  malformed_target, malformed_port, malformed_template, connect_only, unsupported_protocol,
}
use agents_net.Boundary.{World, h2, Session, Event}
use agents_net.Boundary.Front.{is_ok, masque_target}
use agents_net.Boundary.Outcome.{IsServed, Serves, refuse-Serves, respond-Serves}
use agents_net.Boundary.H2.{Stream, h2_udp, h2_tcp, serve_h2}

-- What a request asks for: CONNECT to an authority, or extended CONNECT by the template.
pub data IsAskedH2 (r : Stream) : Network → Bytes → Bytes → ℕ → Type 0 where
  to_authority :
      (host port : Bytes)
      → r.method ≡ codes "CONNECT"
      → is_empty r.protocol ≡ true
      → split_host_port r.authority ≡ some (host, port)
      → is_empty host ≡ false
      → is_ok (parse_port port) ≡ true
      → IsAskedH2 r tcp host port 200
  by_template :
      (host port : Bytes)
      → r.method ≡ codes "CONNECT"
      → r.protocol ≡ codes "connect-udp"
      → masque_target r.path ≡ some (host, port)
      → IsAskedH2 r udp host port 200

module _ (w : World) (current : Option Policy) (r : Stream) (s : Session) where
  h2_udp-Serves : r.method ≡ codes "CONNECT" → Serves (IsAskedH2 r) w current (h2_udp w current r s)
  unfolding h2_udp
  h2_udp-Serves method = elim (Bool-cases (bytes_eq r.protocol (codes "connect-udp"))) [
    | inr e ↦
        rw (e, h2_udp)
          (refuse-Serves (IsAskedH2 r) h2 w current s none r.path 400 unsupported_protocol)
    | inl e ↦ elim (Option-cases (masque_target r.path)) [
      | inl f ↦
          rw (e, f, h2_udp)
            (refuse-Serves (IsAskedH2 r) h2 w current s (some udp) r.path 400 malformed_template)
      | inr ((host, port), f) ↦
          rw (e, f, h2_udp)
            (respond-Serves (IsAskedH2 r) h2 w current s udp host port 200
              (by_template host port method (bytes_eq→eq r.protocol (codes "connect-udp") e) f))
    ]
  ]

  h2_tcp-Serves :
      r.method ≡ codes "CONNECT"
      → is_empty r.protocol ≡ true
      → Serves (IsAskedH2 r) w current (h2_tcp w current r s)
  unfolding h2_tcp
  h2_tcp-Serves method plain = elim (Option-cases (split_host_port r.authority)) [
    | inl e ↦
        rw (e, h2_tcp)
          (refuse-Serves (IsAskedH2 r) h2 w current s (some tcp) r.authority 400 malformed_target)
    | inr ((host, port), e) ↦ elim (Bool-cases (is_empty host)) [
      | inl f ↦
          rw (e, f, h2_tcp)
            (refuse-Serves (IsAskedH2 r) h2 w current s (some tcp) r.authority 400 malformed_target)
      | inr f ↦ elim (Bool-cases (is_ok (parse_port port))) [
        | inr g ↦
            rw (e, f, g, h2_tcp)
              (refuse-Serves (IsAskedH2 r) h2 w current s (some tcp) r.authority 400 malformed_port)
        | inl g ↦
            rw (e, f, g, h2_tcp)
              (respond-Serves (IsAskedH2 r) h2 w current s tcp host port 200
                (to_authority host port method plain e f g))
      ]
    ]
  ]

-- Every HTTP/2 request gets one audit record and one response. Either the response is a refusal
-- with the reason of the record and nothing is opened; or the request is a CONNECT with a
-- well-formed authority or an extended CONNECT by the template, the record allows it, the
-- response is 200, and the connection is one that the loaded policy grants for that target.
pub serve_h2-IsServed :
    (w : World) (current : Option Policy) (r : Stream) (s : Session)
    → (o : List Event × Option (Addr × Bytes)) × (serve_h2 w current r s ≡ some o)
      × IsServed (IsAskedH2 r) w current o
unfolding serve_h2
serve_h2-IsServed w current r s = elim (Bool-cases (bytes_eq r.method (codes "CONNECT"))) [
  | inr e ↦ rw (e, serve_h2) (refuse-Serves (IsAskedH2 r) h2 w current s none [] 405 connect_only)
  | inl e ↦
      let method = bytes_eq→eq r.method (codes "CONNECT") e in
      elim (Bool-cases (is_empty r.protocol)) [
        | inl f ↦ rw (e, f, serve_h2) (h2_tcp-Serves w current r s method f)
        | inr f ↦ rw (e, f, serve_h2) (h2_udp-Serves w current r s method)
      ]
]
