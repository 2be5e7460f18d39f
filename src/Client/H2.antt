-- ===== src/Client/H2.antt =====
-- sdk/pkg/tun2connect/connect_h2.go: the boundary client over one shared HTTP/2 session.
-- Packages tls and http2 are a parameter; the state is the session that is cached.
pub mod Shared
use agents_net.Base.{
  ℕ, Bool, true, false, not, ◌&&◌, Option, none, some, List, [], ◌∷◌, ◌++◌, if◌then◌else◌,
}
use agents_net.Base.Bytes.{Bytes, codes, bytes_eq}
use agents_net.Base.Result.{Result, ok, err}
use agents_net.Base.Unicode.{Unicode}
use agents_net.Policy.Names.{is_empty}
use agents_net.Client.{
  Request, Response, Refusal, Opened, unopened, kept, closed, is_success, tcp_request, authority_or,
  udp_proxy_url,
}
use agents_net.Client.Field.{proxy_status_reason}

pub record TlsConfig : Type 0 where
  pub next_protos : List Bytes
  pub server_name : Bytes
  pub insecure : Bool

abbrev pub or_h2 : List Bytes → List Bytes
or_h2 [] = codes "h2" ∷ []
or_h2 (proto ∷ protos) = proto ∷ protos

-- The defaults of a configuration.
unfoldable pub tls_defaults : Bytes → TlsConfig → TlsConfig
tls_defaults authority cfg = record cfg {
  next_protos = or_h2 cfg.next_protos;
  server_name =
      if is_empty cfg.server_name && not cfg.insecure
      then authority_or authority
      else cfg.server_name;
}

-- DialBoundary, HandshakeContext with the protocol that was negotiated, NewClientConn,
-- CanTakeNewRequest and RoundTrip. C is a connection, K a session, S the body of a response.
pub record H2Transport (E C K S : Type 0) : Type 0 where
  pub dial : Result E C
  pub handshake : TlsConfig → C → Result E (C × Bytes)
  pub new_client_conn : C → Result E K
  pub can_take : K → Bool
  pub round_trip : Request → K → Result E (Response × S)

pub data H2Error (E : Type 0) : Type 0 where
  transport : E → H2Error E
  wrong_protocol : Bytes → H2Error E
  refused : Refusal → H2Error E

-- The connection wrapped in TLS; every error closes it.
unfoldable pub secure :
    {E C K S : Type 0} → H2Transport E C K S → Bytes → Option TlsConfig → C → Result (H2Error E) C
unfolding tls_defaults bytes_eq
secure t authority none c = ok c
secure t authority (some cfg) c = elim (t.handshake (tls_defaults authority cfg) c) [
  | err e ↦ err (transport e)
  | ok (c', proto) ↦ if bytes_eq proto (codes "h2") then ok c' else err (wrong_protocol proto)
]

-- The session cached now, what became of a connection dialled for it, and the session to use.
unfoldable pub fresh_session :
    {E C K S : Type 0}
    → H2Transport E C K S
    → Bytes
    → Option TlsConfig
    → Option K
    → Option K × Opened × Result (H2Error E) K
unfolding secure
fresh_session t authority cfg cached = elim t.dial [
  | err e ↦ (cached, unopened, err (transport e))
  | ok c ↦ elim (secure t authority cfg c) [
    | err e ↦ (cached, closed, err e)
    | ok c' ↦ elim (t.new_client_conn c') [
      | err e ↦ (cached, closed, err (transport e))
      | ok k ↦ (some k, kept, ok k)
    ]
  ]
]

unfoldable pub session :
    {E C K S : Type 0}
    → H2Transport E C K S
    → Bytes
    → Option TlsConfig
    → Option K
    → Option K × Opened × Result (H2Error E) K
unfolding fresh_session
session t authority cfg none = fresh_session t authority cfg none
session t authority cfg (some k) =
    if t.can_take k then (some k, unopened, ok k) else fresh_session t authority cfg (some k)

-- The stream of a request: not begun, handed to the caller, or cancelled with its pipe closed.
pub data Begun : Type 0 where
  not_begun handed cancelled : Begun

abbrev pub refusal : {E : Type 0} → Unicode → Response → H2Error E
refusal u r =
    refused
      (record { code = r.code; status = r.status; reason = proxy_status_reason u r.proxy_status })

-- roundTrip on the session that was found.
unfoldable pub exchange :
    {E C K S : Type 0} → Unicode → H2Transport E C K S → Request → K → Begun × Result (H2Error E) S
exchange u t req k = elim (t.round_trip req k) [
  | err e ↦ (cancelled, err (transport e))
  | ok (r, body) ↦ if is_success r then (handed, ok body) else (cancelled, err (refusal u r))
]

unfoldable pub h2_round_trip :
    {E C K S : Type 0}
    → Unicode
    → H2Transport E C K S
    → Bytes
    → Option TlsConfig
    → List (Bytes × Bytes)
    → Request
    → Option K
    → Option K × Opened × Begun × Result (H2Error E) S
unfolding session exchange
h2_round_trip u t authority cfg header req cached =
    let (cached', o, found) = session t authority cfg cached in
    elim found [
      | err e ↦ (cached', o, not_begun, err e)
      | ok k ↦
          let (b, answer) = exchange u t (record req { header = req.header ++ header }) k in
          (cached', o, b, answer)
    ]

-- The request of an extended CONNECT.
abbrev pub h2_udp_request : Bytes → Bytes → ℕ → Request
h2_udp_request authority name port = record {
  method = codes "CONNECT";
  target = (udp_proxy_url name port).1;
  host = authority_or authority;
  header = (codes ":protocol", codes "connect-udp") ∷ (codes "Capsule-Protocol", codes "?1") ∷ [];
}

unfoldable pub h2_dial_tcp :
    {E C K S : Type 0}
    → Unicode
    → H2Transport E C K S
    → Bytes
    → Option TlsConfig
    → List (Bytes × Bytes)
    → Bytes
    → ℕ
    → Option K
    → Option K × Opened × Begun × Result (H2Error E) S
h2_dial_tcp u t authority cfg header name port cached =
    h2_round_trip u t authority cfg header (tcp_request name port) cached

unfoldable pub h2_dial_udp :
    {E C K S : Type 0}
    → Unicode
    → H2Transport E C K S
    → Bytes
    → Option TlsConfig
    → List (Bytes × Bytes)
    → Bytes
    → ℕ
    → Option K
    → Option K × Opened × Begun × Result (H2Error E) S
h2_dial_udp u t authority cfg header name port cached =
    h2_round_trip u t authority cfg header (h2_udp_request authority name port) cached
