-- ===== src/Boundary/Front/Served.antt =====
-- The front end of sdk/cmd/connect-proxy/main.go: what comes of every parsed head.
use agents_net.Base.{ℕ, ◌≡◌, Option, none, some, List, [], Bool-cases, Option-cases, inl, inr}
use agents_net.Base.Bytes.{Bytes, codes, bytes_eq, bytes_eq_iff}
use agents_net.Base.Result.{ok, Result-cases}
use agents_net.Netip.{Addr}
use agents_net.Policy.{Network, tcp, udp, Policy}
use agents_net.Policy.Authorize.{malformed_upgrade, malformed_template, connect_only}
use agents_net.Boundary.{World, h1, Session, Event}
use agents_net.Boundary.Outcome.{IsServed, Serves, refuse-Serves, respond-Serves}
use agents_net.Boundary.Front.{
  Http, Head, connect_target, upgrade_target, is_upgrade, masque_target, handle_connect,
  handle_connect_udp, serve_head,
}

-- What a head asks for: CONNECT to an authority, or a connect-udp upgrade by the template.
pub data IsAsked (f : Http) (w : World) (h : Head) : Network → Bytes → Bytes → ℕ → Type 0 where
  by_connect :
      (host port : Bytes)
      → h.method ≡ codes "CONNECT"
      → connect_target f w h ≡ ok (host, port)
      → IsAsked f w h tcp host port 200
  by_upgrade :
      (path host port : Bytes)
      → h.method ≡ codes "GET"
      → upgrade_target f h ≡ some path
      → masque_target path ≡ some (host, port)
      → IsAsked f w h udp host port 101

module _ (f : Http) (w : World) (current : Option Policy) (h : Head) (s : Session) where
  handle_connect-Serves :
      h.method ≡ codes "CONNECT" → Serves (IsAsked f w h) w current (handle_connect f w current h s)
  unfolding handle_connect
  handle_connect-Serves method = elim (Result-cases (connect_target f w h)) [
    | inr (reason, e) ↦
        rw (e, handle_connect)
          (refuse-Serves (IsAsked f w h) h1 w current s (some tcp) h.target 400 reason)
    | inl ((host, port), e) ↦
        rw (e, handle_connect)
          (respond-Serves (IsAsked f w h) h1 w current s tcp host port 200
            (by_connect host port method e))
  ]

  handle_connect_udp-Serves :
      h.method ≡ codes "GET" → Serves (IsAsked f w h) w current (handle_connect_udp f w current h s)
  unfolding handle_connect_udp
  handle_connect_udp-Serves method = elim (Option-cases (upgrade_target f h)) [
    | inl e ↦
        rw (e, handle_connect_udp)
          (refuse-Serves (IsAsked f w h) h1 w current s (some udp) h.target 400 malformed_upgrade)
    | inr (path, e) ↦ elim (Option-cases (masque_target path)) [
      | inl t ↦
          rw (e, t, handle_connect_udp)
            (refuse-Serves (IsAsked f w h) h1 w current s (some udp) h.target 400
              malformed_template)
      | inr ((host, port), t) ↦
          rw (e, t, handle_connect_udp)
            (respond-Serves (IsAsked f w h) h1 w current s udp host port 101
              (by_upgrade path host port method e t))
    ]
  ]

-- Every parsed head gets one audit record and one response. Either the record has a decision
-- other than allow, the response is a refusal with the reason of the record, and nothing is
-- opened; or the head is a CONNECT or a connect-udp upgrade with a well-formed target, the
-- record allows it, the response is 200 or 101, and the connection is one that the loaded policy
-- grants for that target.
pub serve_head-IsServed :
    (f : Http) (w : World) (current : Option Policy) (h : Head) (s : Session)
    → (r : List Event × Option (Addr × Bytes)) × (serve_head f w current h s ≡ some r)
      × IsServed (IsAsked f w h) w current r
unfolding serve_head
serve_head-IsServed f w current h s = elim (Bool-cases (bytes_eq h.method (codes "CONNECT"))) [
  | inl connect ↦
      rw connect (
        handle_connect-Serves f w current h s ((bytes_eq_iff h.method (codes "CONNECT")).0 connect))
  | inr other ↦ elim (Bool-cases (bytes_eq h.method (codes "GET"))) [
    | inl get ↦ elim (Bool-cases (is_upgrade f h)) [
      | inl upgrade ↦
          rw (other, get, upgrade)
            (handle_connect_udp-Serves f w current h s
              ((bytes_eq_iff h.method (codes "GET")).0 get))
      | inr plain ↦
          rw (other, get, plain)
            (refuse-Serves (IsAsked f w h) h1 w current s none [] 405 connect_only)
    ]
    | inr neither ↦
        rw (other, neither) (refuse-Serves (IsAsked f w h) h1 w current s none [] 405 connect_only)
  ]
]
