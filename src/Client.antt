-- ===== src/Client.antt =====
-- sdk/pkg/tun2connect/connect.go: the boundary client over HTTP/1.1, and the Proxy-Status field.
-- What package net/http does with a request and a response is a parameter, `Transport`.
pub mod Field
pub mod Status
pub mod H2
pub mod Path
pub mod Template
pub mod Authority
pub mod Dialled
use agents_net.Base.{
  ℕ, zero, suc, ◌+◌, ◌*◌, ◌/◌, ◌%◌, Bool, true, false, not, ◌&&◌, ◌||◌, Option, none, some, List,
  [], ◌∷◌, ◌++◌, leb, ltb, ◌==◌, if◌then◌else◌,
}
use agents_net.Base.Bytes.{Bytes, codes, bytes_eq, cut, split, trim}
use agents_net.Base.Decimal.{itoa}
use agents_net.Base.Result.{Result, ok, err}
use agents_net.Base.Unicode.{Unicode, trim_space}
use agents_net.Net.{join_host_port}
use agents_net.Client.Field.{proxy_status_reason}

-- A byte that url.PathEscape leaves alone.
abbrev pub is_plain : ℕ → Bool
is_plain c =
    (leb b'a' c && leb c b'z')
    || (leb b'A' c && leb c b'Z')
    || (leb b'0' c && leb c b'9')
    || (c == b'-')
    || (c == b'_')
    || (c == b'.')
    || (c == b'~')
    || (c == b'$')
    || (c == b'&')
    || (c == b'+')
    || (c == b'=')
    || (c == b':')
    || (c == b'@')

abbrev pub hex : ℕ → ℕ
hex d = if ltb d 10 then 48 + d else 55 + d

unfoldable pub path_escape : Bytes → Bytes
path_escape [] = []
path_escape (c ∷ s) =
    let tail = path_escape s in
    if is_plain c then c ∷ tail else b'%' ∷ hex (c / 16) ∷ hex (c % 16) ∷ tail

-- strings.ReplaceAll of a colon by "%3A".
unfoldable pub replace_colons : Bytes → Bytes
replace_colons [] = []
replace_colons (c ∷ s) =
    let tail = replace_colons s in if c == b':' then b'%' ∷ b'3' ∷ b'A' ∷ tail else c ∷ tail

unfoldable pub encoded_host : Bytes → Bytes
encoded_host host = replace_colons (path_escape host)

abbrev pub masque_path : Bytes → ℕ → Bytes
masque_path host port =
    codes "/.well-known/masque/udp/" ++ (host ++ (b'/' ∷ itoa port ++ b'/' ∷ []))

-- The path and the raw path of udpProxyURL.
unfoldable pub udp_proxy_url : Bytes → ℕ → Bytes × Bytes
udp_proxy_url host port = (masque_path host port, masque_path (encoded_host host) port)

pub record Request : Type 0 where
  pub method : Bytes
  -- The host of the URL or, for an upgrade, its raw path.
  pub target : Bytes
  pub host : Bytes
  pub header : List (Bytes × Bytes)

pub record Response : Type 0 where
  pub code : ℕ
  pub status : Bytes
  pub proxy_status : Bytes
  pub upgrade : Bytes

-- DialBoundary, Request.Write and http.ReadResponse on a connection of type C.
pub record Transport (E C : Type 0) : Type 0 where
  pub dial : Result E C
  pub write : Request → C → Result E C
  pub read : C → Result E (Response × C)

pub record Refusal : Type 0 where
  pub code : ℕ
  pub status : Bytes
  pub reason : Bytes

pub data ClientError (E : Type 0) : Type 0 where
  transport : E → ClientError E
  too_many_interim : ClientError E
  refused : Refusal → ClientError E

abbrev pub max_interim_responses : ℕ
max_interim_responses = 8

abbrev pub is_final : ℕ → Bool
is_final code = ltb code 100 || leb 200 code || (code == 101)

-- The loop of readFinalResponse with the interim responses that it may still skip.
unfoldable pub final_response :
    {E C : Type 0} → Transport E C → ℕ → C → Result (ClientError E) (Response × C)
final_response t zero c = elim (t.read c) [
  | err e ↦ err (transport e)
  | ok (r, c') ↦ if is_final r.code then ok (r, c') else err too_many_interim
]
final_response t (suc left) c = elim (t.read c) [
  | err e ↦ err (transport e)
  | ok (r, c') ↦ let next = final_response t left c' in if is_final r.code then ok (r, c') else next
]

-- A connection that was opened, and whether it was closed again.
pub data Opened : Type 0 where
  unopened kept closed : Opened

-- roundTrip with the fields of the client added to the request.
unfoldable pub round_trip :
    {E C : Type 0}
    → Transport E C
    → List (Bytes × Bytes)
    → Request
    → Opened × Result (ClientError E) (Response × C)
round_trip t header req = elim t.dial [
  | err e ↦ (unopened, err (transport e))
  | ok c ↦ elim (t.write (record req { header = req.header ++ header }) c) [
    | err e ↦ (closed, err (transport e))
    | ok c' ↦ elim (final_response t max_interim_responses c') [
      | err e ↦ (closed, err e)
      | ok found ↦ (kept, ok found)
    ]
  ]
]

abbrev pub refusal : {E : Type 0} → Unicode → Response → ClientError E
refusal u r =
    refused
      (record { code = r.code; status = r.status; reason = proxy_status_reason u r.proxy_status })

abbrev pub tcp_request : Bytes → ℕ → Request
tcp_request name port = record {
  method = codes "CONNECT";
  target = join_host_port name (itoa port);
  host = join_host_port name (itoa port);
  header = [];
}

-- authority(), where an empty Authority is the default.
abbrev pub authority_or : Bytes → Bytes
authority_or [] = codes "boundary"
authority_or (c ∷ s) = c ∷ s

abbrev pub udp_request : Bytes → Bytes → ℕ → Request
udp_request authority name port = record {
  method = codes "GET";
  target = (udp_proxy_url name port).1;
  host = authority_or authority;
  header =
      (codes "Connection", codes "Upgrade")
      ∷ (codes "Upgrade", codes "connect-udp")
      ∷ (codes "Capsule-Protocol", codes "?1")
      ∷ [];
}

-- The end of both dials: a response that does not open a tunnel closes the connection.
unfoldable pub finish :
    {E C : Type 0}
    → Unicode
    → (Response → Bool)
    → Opened × Result (ClientError E) (Response × C)
    → Opened × Result (ClientError E) C
finish u opens (o, err e) = (o, err e)
finish u opens (o, ok (r, c)) = if opens r then (o, ok c) else (closed, err (refusal u r))

abbrev pub is_success : Response → Bool
is_success r = leb 200 r.code && leb r.code 299

abbrev pub is_switch : Response → Bool
is_switch r = (r.code == 101) && bytes_eq r.upgrade (codes "connect-udp")

unfoldable pub dial_tcp :
    {E C : Type 0}
    → Unicode
    → Transport E C
    → List (Bytes × Bytes)
    → Bytes
    → ℕ
    → Opened × Result (ClientError E) C
dial_tcp u t header name port = finish u is_success (round_trip t header (tcp_request name port))

unfoldable pub dial_udp :
    {E C : Type 0}
    → Unicode
    → Transport E C
    → List (Bytes × Bytes)
    → Bytes
    → Bytes
    → ℕ
    → Opened × Result (ClientError E) C
dial_udp u t header authority name port =
    finish u is_switch (round_trip t header (udp_request authority name port))
