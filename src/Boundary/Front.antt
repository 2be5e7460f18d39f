-- ===== src/Boundary/Front.antt =====
-- The HTTP/1.1 front end of sdk/cmd/connect-proxy/main.go behind the parsed head: connectTarget,
-- sameAuthority, upgradeTarget, masqueTarget, handleConnect, handleConnectUDP and serve.
pub mod Served
use agents_net.Base.{
  ℕ, ◌+◌, ◌-◌, ◌*◌, Bool, true, false, not, ◌&&◌, ◌||◌, Option, none, some, List, [], ◌∷◌, ◌++◌,
  leb, ◌==◌, if◌then◌else◌,
}
use agents_net.Base.Bytes.{Bytes, codes, bytes_eq, split, trim, trim_suffix}
use agents_net.Base.Result.{Result, ok, err}
use agents_net.Base.Unicode.{equal_fold}
use agents_net.Net.{split_host_port}
use agents_net.Netip.{Addr, addr_eq}
use agents_net.Policy.{Network, tcp, udp, Policy, parse_port}
use agents_net.Policy.Names.{is_empty}
use agents_net.Policy.Authorize.{
  Reason, malformed_target, malformed_port, authority_mismatch, malformed_upgrade,
  malformed_template, connect_only,
}
use agents_net.Boundary.{
  World, Wire, h1, block, Session, AuditRecord, Event, denied, established, audit, connect_upstream,
}

-- The checks of package httpguts and the parser of package url: ValidHostHeader,
-- HeaderValuesContainsToken, and ParseRequestURI, which answers whether there is a user and the
-- decoded path.
pub record Http : Type 0 where
  pub valid_host_header : Bytes → Bool
  pub contains_token : List Bytes → Bytes → Bool
  pub parse_request_uri : Bytes → Option (Bool × Bytes)

-- A parsed head with the values of the fields that are read.
pub record Head : Type 0 where
  pub method : Bytes
  pub target : Bytes
  pub host : List Bytes
  pub connection : List Bytes
  pub upgrade : List Bytes

-- Header.Get, empty without a value.
abbrev pub first_value : List Bytes → Bytes
first_value [] = []
first_value (v ∷ vs) = v

unfoldable pub same_authority : World → Bytes → Bytes → Bool
unfolding bytes_eq
same_authority w a b = elim (split_host_port a) [
  | none ↦ false
  | some (host_a, port_a) ↦ elim (split_host_port b) [
    | none ↦ false
    | some (host_b, port_b) ↦
        if not (bytes_eq port_a port_b) then false else elim (w.platform.parse_addr host_a) [
          | some addr_a ↦ elim (w.platform.parse_addr host_b) [
            | none ↦ false
            | some addr_b ↦ addr_eq addr_a addr_b
          ]
          | none ↦
              equal_fold w.platform.unicode (trim_suffix host_a (codes "."))
                (trim_suffix host_b (codes "."))
        ]
  ]
]

abbrev pub is_ok {ℓ κ} : {E : Type κ} {A : Type ℓ} → Result E A → Bool
is_ok (ok a) = true
is_ok (err e) = false

unfoldable pub connect_target : Http → World → Head → Result Reason (Bytes × Bytes)
connect_target f w h =
    if not (f.valid_host_header h.target)
    then err malformed_target
    else elim (split_host_port h.target) [
      | none ↦ err malformed_target
      | some (host, port) ↦
          if is_empty host
          then err malformed_target
          else if not (is_ok (parse_port port))
          then err malformed_port
          else if not (is_empty (first_value h.host))
              && not (same_authority w (first_value h.host) h.target)
          then err authority_mismatch
          else ok (host, port)
    ]

unfoldable pub upgrade_target : Http → Head → Option Bytes
upgrade_target f h =
    if not (f.contains_token h.connection (codes "Upgrade"))
      || not (f.contains_token h.upgrade (codes "connect-udp"))
    then none
    else elim (f.parse_request_uri h.target) [
      | none ↦ none
      | some (user, path) ↦ if user then none else some path
    ]

abbrev pub is_upgrade : Http → Head → Bool
is_upgrade f h = f.contains_token h.upgrade (codes "connect-udp")

abbrev pub unhex : ℕ → Option ℕ
unhex c =
    if leb b'0' c && leb c b'9'
    then some (c - b'0')
    else if leb b'a' c && leb c b'f'
    then some (c - b'a' + 10)
    else if leb b'A' c && leb c b'F'
    then some (c - b'A' + 10)
    else none

-- Where url.PathUnescape stands: in plain text, behind a percent sign, behind its first digit.
pub data Escape : Type 0 where
  plain percent : Escape
  high : ℕ → Escape

abbrev pub prepend : ℕ → Option Bytes → Option Bytes
prepend c none = none
prepend c (some s) = some (c ∷ s)

-- url.PathUnescape; every error is `none`.
unfoldable pub unescape : Escape → Bytes → Option Bytes
unescape plain [] = some []
unescape percent [] = none
unescape (high d) [] = none
unescape plain (c ∷ s) =
    let rest = unescape (if c == b'%' then percent else plain) s in
    if c == b'%' then rest else prepend c rest
unescape percent (c ∷ s) = elim (unhex c) [ none ↦ none | some d ↦ unescape (high d) s ]
unescape (high d) (c ∷ s) =
    let rest = unescape plain s in
    elim (unhex c) [ none ↦ none | some e ↦ prepend (d * 16 + e) rest ]

-- The segments of a path of the template.
abbrev pub from_segments : List Bytes → Option (Bytes × Bytes)
from_segments (a ∷ b ∷ c ∷ host ∷ port ∷ []) =
    if bytes_eq a (codes ".well-known") && bytes_eq b (codes "masque") && bytes_eq c (codes "udp")
    then elim (unescape plain host) [
      | none ↦ none
      | some name ↦ if is_empty name then none else some (name, port)
    ]
    else none
from_segments _ = none

unfoldable pub masque_target : Bytes → Option (Bytes × Bytes)
masque_target path = from_segments (split b'/' (trim (λ c. c == b'/') path))

-- refuse on a record without a policy decision; a transport or destination may be absent.
abbrev pub refuse :
    Wire
    → World
    → Option Policy
    → Option Network
    → Bytes
    → Session
    → ℕ
    → Reason
    → List Event × Option (Addr × Bytes)
refuse wire w current network destination s status reason = (
  audit w current (record {
    listener = [];
    sandbox = [];
    generation = [];
    policy = [];
    wire = wire;
    transport = network;
    destination = destination;
    address = [];
    peer = s.peer;
    connection = s.id;
    rule = [];
    decision = block;
    reason = some reason;
  })
      ∷ denied status reason
      ∷ [],
  none,
)

-- The response to an outcome of connectUpstream.
unfoldable pub respond :
    ℕ → Option (List Event × Option (Addr × Bytes)) → Option (List Event × Option (Addr × Bytes))
respond status none = none
respond status (some (events, none)) = some (events, none)
respond status (some (events, some c)) = some (events ++ established status ∷ [], some c)

unfoldable pub handle_connect :
    Http → World → Option Policy → Head → Session → Option (List Event × Option (Addr × Bytes))
handle_connect f w current h s = elim (connect_target f w h) [
  | err reason ↦ some (refuse h1 w current (some tcp) h.target s 400 reason)
  | ok (host, port) ↦ respond 200 (connect_upstream w current h1 tcp host port s)
]

unfoldable pub handle_connect_udp :
    Http → World → Option Policy → Head → Session → Option (List Event × Option (Addr × Bytes))
handle_connect_udp f w current h s = elim (upgrade_target f h) [
  | none ↦ some (refuse h1 w current (some udp) h.target s 400 malformed_upgrade)
  | some path ↦ elim (masque_target path) [
    | none ↦ some (refuse h1 w current (some udp) h.target s 400 malformed_template)
    | some (host, port) ↦ respond 101 (connect_upstream w current h1 udp host port s)
  ]
]

-- The switch of serve on the method.
unfoldable pub serve_head :
    Http → World → Option Policy → Head → Session → Option (List Event × Option (Addr × Bytes))
unfolding bytes_eq
serve_head f w current h s =
    if bytes_eq h.method (codes "CONNECT")
    then handle_connect f w current h s
    else if bytes_eq h.method (codes "GET") && is_upgrade f h
    then handle_connect_udp f w current h s
    else some (refuse h1 w current none [] s 405 connect_only)
