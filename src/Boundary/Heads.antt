-- ===== src/Boundary/Heads.antt =====
-- boundedReader, readHead, newSession and serve of sdk/cmd/connect-proxy/main.go: a connection up
-- to its head. Package textproto, which reads lines and header blocks, is a parameter.
pub mod Bounded
pub mod Handled
use agents_net.Base.{
  ℕ, zero, suc, ◌+◌, ◌-◌, ◌%◌, ◌^◌, Bool, true, false, not, ◌&&◌, ◌||◌, Option, none, some, List,
  [], ◌∷◌, length, all, leb, ltb, ◌==◌, if◌then◌else◌,
}
use agents_net.Base.Bytes.{Bytes, codes, bytes_eq, contains_byte, cut}
use agents_net.Base.Decimal.{itoa}
use agents_net.Base.Result.{Result, ok, err}
use agents_net.Netip.{Addr}
use agents_net.Policy.{Policy}
use agents_net.Policy.Names.{is_empty}
use agents_net.Policy.Authorize.{
  Reason, head_too_large, malformed_request_line, unsupported_version, malformed_header,
  duplicate_host, missing_host, tls_failed,
}
use agents_net.Boundary.{World, Wire, h1, fail, Session, AuditRecord, Event, audit}
use agents_net.Boundary.Front.{Http, Head, refuse, serve_head}

abbrev pub max_head_bytes : ℕ
max_head_bytes = 65536

-- The length that Read passes on to the inner reader; `none` is the error of a head that is too
-- large, and a remaining of `none` stands for a negative one.
unfoldable pub bounded_length : Option ℕ → ℕ → Option ℕ
bounded_length none len = some len
bounded_length (some zero) len = none
bounded_length (some (suc n)) len = some (if ltb (suc n) len then suc n else len)

-- What remains when the inner reader gave so many bytes; this is called below a length.
unfoldable pub bounded_rest : Option ℕ → ℕ → Option ℕ
bounded_rest none n = none
bounded_rest (some remaining) n = some (remaining - n)

-- The errors of package textproto that readHead tells apart: the one of boundedReader, an end or a
-- deadline, and the rest.
pub data ReadError : Type 0 where
  limited ended other : ReadError

-- A header block: the keys in canonical form, each with its values.
abbrev pub Fields : Type 0
Fields = List (Bytes × List Bytes)

-- Reader.ReadLine and Reader.ReadMIMEHeader on what a connection delivers, http.ParseHTTPVersion,
-- and httpguts.ValidHeaderFieldName.
pub record Parser (S : Type 0) : Type 0 where
  pub read_line : S → Result ReadError (Bytes × S)
  pub read_mime_header : S → Result ReadError Fields
  pub parse_http_version : Bytes → Option (ℕ × ℕ)
  pub valid_field_name : Bytes → Bool

-- Header.Values
unfoldable pub values : Bytes → Fields → List Bytes
unfolding bytes_eq
values key [] = []
values key ((k, vs) ∷ fields) = if bytes_eq k key then vs else values key fields

-- A headError, and every other error.
pub data HeadError : Type 0 where
  head_error : ℕ → Reason → HeadError
  lost : HeadError

abbrev line_error : ReadError → HeadError
line_error limited = head_error 431 head_too_large
line_error ended = lost
line_error other = lost

abbrev header_error : ReadError → HeadError
header_error limited = head_error 431 head_too_large
header_error ended = lost
header_error other = head_error 400 malformed_header

-- The checks behind the header block.
unfoldable pub check_fields :
    {S : Type 0} → Parser S → Bytes → Bytes → ℕ → Fields → Result HeadError Head
unfolding values
check_fields p method target minor fields =
    if ltb 1 (length (values (codes "Host") fields))
    then err (head_error 400 duplicate_host)
    else if not (all (λ (key, vs). p.valid_field_name key) fields)
    then err (head_error 400 malformed_header)
    else if leb 1 minor && (length (values (codes "Host") fields) == 0)
    then err (head_error 400 missing_host)
    else ok (record {
      method = method;
      target = target;
      host = values (codes "Host") fields;
      connection = values (codes "Connection") fields;
      upgrade = values (codes "Upgrade") fields;
    })

-- The checks of the request line and the header block behind it.
unfoldable pub check_line :
    {S : Type 0} → Parser S → Bytes → Bytes → Bytes → S → Result HeadError Head
unfolding check_fields
check_line p method target version s =
    if is_empty target || contains_byte b' ' version || not (p.valid_field_name method)
    then err (head_error 400 malformed_request_line)
    else elim (p.parse_http_version version) [
      | none ↦ err (head_error 505 unsupported_version)
      | some (major, minor) ↦
          if not (major == 1)
          then err (head_error 505 unsupported_version)
          else elim (p.read_mime_header s) [
            | err e ↦ err (header_error e)
            | ok fields ↦ check_fields p method target minor fields
          ]
    ]

unfoldable pub read_head : {S : Type 0} → Parser S → S → Result HeadError Head
unfolding cut check_line
read_head p s = elim (p.read_line s) [
  | err e ↦ err (line_error e)
  | ok (line, s') ↦ elim (cut b' ' line) [
    | none ↦ err (head_error 400 malformed_request_line)
    | some (method, tail) ↦ elim (cut b' ' tail) [
      | none ↦ err (head_error 400 malformed_request_line)
      | some (target, version) ↦ check_line p method target version s'
    ]
  ]
]

-- The counter of connections and the session of the next one.
unfoldable pub new_session : ℕ → Bytes → ℕ × Session
unfolding itoa
new_session connections peer =
    let next = (connections + 1) % 2 ^ 64 in (next, record { peer = peer; id = itoa next })

-- A record without a request, and no response.
abbrev pub failed_connection : Wire → Reason → AuditRecord
failed_connection wire reason = record {
  listener = [];
  sandbox = [];
  generation = [];
  policy = [];
  wire = wire;
  transport = none;
  destination = [];
  address = [];
  peer = [];
  connection = [];
  rule = [];
  decision = fail;
  reason = some reason;
}

-- serve, where sessionPeer answers the peer or, with `none`, an error. The answer has the counter.
unfoldable pub serve :
    {S : Type 0}
    → Parser S
    → Http
    → World
    → Option Policy
    → ℕ
    → Option Bytes
    → S
    → ℕ × Option (List Event × Option (Addr × Bytes))
unfolding read_head new_session
serve p f w current connections none s =
    (connections, some (audit w current (failed_connection h1 tls_failed) ∷ [], none))
serve p f w current connections (some peer) s =
    let (next, session) = new_session connections peer in
    elim (read_head p s) [
      | err (head_error status reason) ↦
          (next, some (refuse h1 w current none [] session status reason))
      | err lost ↦ (next, some ([], none))
      | ok h ↦ (next, serve_head f w current h session)
    ]
