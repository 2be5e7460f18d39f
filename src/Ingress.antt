-- ===== src/Ingress.antt =====
-- sdk/cmd/tun2connect/run.go: the arguments of the launcher and the head of an ingress stream.
pub mod Pinned
pub mod Lines
pub mod Target
pub mod Served
use agents_net.Base.{
  ℕ, zero, suc, ◌+◌, Bool, true, false, not, ◌&&◌, ◌||◌, Option, none, some, List, [], ◌∷◌, ◌++◌,
  length, take, drop, ltb, ◌==◌, if◌then◌else◌,
}
use agents_net.Base.Bytes.{
  Bytes, codes, bytes_eq, contains_byte, cut, has_prefix, split, trim_suffix,
}
use agents_net.Base.Decimal.{parse_uint}
use agents_net.Base.Result.{Result, ok, err}
use agents_net.Base.Unicode.{Unicode, trim_space, equal_fold}
use agents_net.Net.{split_host_port}
use agents_net.Policy.Names.{is_empty}
use agents_net.Client.Field.{proxy_status}

-- strings.Contains of "://".
unfoldable pub has_scheme : Bytes → Bool
unfolding has_prefix
has_scheme [] = false
has_scheme (c ∷ s) = has_prefix (c ∷ s) (codes "://") || has_scheme s

unfoldable pub parse_run_args : List Bytes → Option (Bytes × List Bytes)
unfolding has_scheme
parse_run_args [] = none
parse_run_args (boundary ∷ command) =
    some (if has_scheme boundary then boundary else codes "unix://" ++ boundary, command)

-- A map from ports to true: the ports of the loop, added to those of before.
abbrev pub Pinned : Type 0
Pinned = ℕ → Bool

unfoldable pub pinned_loop : Unicode → Pinned → List Bytes → Option Pinned
unfolding parse_uint
pinned_loop u pinned [] = some pinned
pinned_loop u pinned (field ∷ fields) = elim (parse_uint 65535 (trim_space u field)) [
  | none ↦ none
  | some zero ↦ none
  | some (suc n) ↦ pinned_loop u (λ p. if p == suc n then true else pinned p) fields
]

unfoldable pub parse_pinned_ports : Unicode → Bytes → Option Pinned
unfolding pinned_loop split
parse_pinned_ports u [] = some (λ p. false)
parse_pinned_ports u (c ∷ s) = pinned_loop u (λ p. false) (split b',' (c ∷ s))

abbrev pub max_ingress_head : ℕ
max_ingress_head = 8192

-- The status and the reason token of a refusal.
abbrev pub Refusal : Type 0
Refusal = ℕ × Bytes

-- ReadString up to a newline, without it and a return in front of it, and what is left.
unfoldable pub read_line : Bytes → Option (Bytes × Bytes)
unfolding cut trim_suffix
read_line s = elim (cut b'\n' s) [
  | none ↦ none
  | some (line, rest) ↦ some (trim_suffix line (codes "\r"), rest)
]

-- How many Host fields there were, and the value of the last.
pub record Hosts : Type 0 where
  pub count : ℕ
  pub last : Bytes

-- A header line; `none` is malformed.
unfoldable pub read_field : Unicode → Hosts → Bytes → Option Hosts
unfolding equal_fold
read_field u h line = elim (cut b':' line) [
  | none ↦ none
  | some (name, value) ↦
      if is_empty name || contains_byte b' ' name || contains_byte 9 name
      then none
      else if equal_fold u name (codes "Host")
      then some (record { count = h.count + 1; last = trim_space u value })
      else some h
]

-- The loop over header lines, which the outer `none` ends without fuel. Each line takes a byte.
unfoldable pub read_fields : Unicode → ℕ → Hosts → Bytes → Option (Option (Hosts × Bytes))
unfolding read_line read_field
read_fields u zero h s = none
read_fields u (suc fuel) h s = elim (read_line s) [
  | none ↦ some none
  | some (line, rest) ↦
      if is_empty line
      then some (some (h, rest))
      else elim (read_field u h line) [ none ↦ some none | some h' ↦ read_fields u fuel h' rest ]
]

abbrev pub is_loopback : Bytes → Bool
is_loopback addr = bytes_eq addr (codes "127.0.0.1") || bytes_eq addr (codes "::1")

-- The port of the target.
unfoldable pub check_port : Pinned → Bytes → Hosts → Bytes → Result Refusal Bytes
unfolding parse_uint bytes_eq
check_port pinned target h port = elim (parse_uint 65535 port) [
  | none ↦ err (400, codes "malformed-port")
  | some zero ↦ err (400, codes "malformed-port")
  | some (suc n) ↦
      if (h.count == 1) && not (bytes_eq h.last target)
      then err (400, codes "authority-mismatch")
      else if not (pinned (suc n))
      then err (403, codes "port-not-permitted")
      else ok target
]

-- What follows the header: Host, method and target.
unfoldable pub check_target : Pinned → Bytes → Bytes → Bytes → Hosts → Result Refusal Bytes
unfolding check_port split_host_port
check_target pinned method target version h =
    if ltb 1 h.count
    then err (400, codes "duplicate-host")
    else if not (bytes_eq method (codes "CONNECT"))
    then err (405, codes "connect-only")
    else if bytes_eq version (codes "HTTP/1.1") && (h.count == 0)
    then err (400, codes "missing-host")
    else elim (split_host_port target) [
      | none ↦ err (400, codes "malformed-target")
      | some (addr, port) ↦
          if not (is_loopback addr)
          then err (400, codes "malformed-target")
          else check_port pinned target h port
    ]

-- The request line and the header; the fields of the line are its parts at single spaces.
unfoldable pub check_head :
    Unicode → Pinned → List Bytes → Bytes → Option (Result Refusal (Bytes × Bytes))
unfolding check_target read_fields has_prefix
check_head u pinned (method ∷ target ∷ version ∷ []) rest =
    if is_empty method || is_empty target
    then some (err (400, codes "malformed-request-line"))
    else if not (bytes_eq version (codes "HTTP/1.1")) && not (bytes_eq version (codes "HTTP/1.0"))
    then if has_prefix version (codes "HTTP/")
      then some (err (505, codes "unsupported-version"))
      else some (err (400, codes "malformed-request-line"))
    else elim (read_fields u (length rest + 1) (record { count = 0; last = [] }) rest) [
      | none ↦ none
      | some none ↦ some (err (400, codes "malformed-header"))
      | some (some (h, tunnel)) ↦ elim (check_target pinned method target version h) [
        | err e ↦ some (err e)
        | ok found ↦ some (ok (found, tunnel))
      ]
    ]
check_head u pinned _ rest = some (err (400, codes "malformed-request-line"))

-- The target with the bytes behind the head, on the bytes that the reader gets.
unfoldable pub ingress_target : Unicode → Pinned → Bytes → Option (Result Refusal (Bytes × Bytes))
unfolding check_head split
ingress_target u pinned s = elim (read_line s) [
  | none ↦ some (err (400, codes "malformed-request-line"))
  | some (line, rest) ↦ check_head u pinned (split b' ' line) rest
]

-- What a stream is answered with: a refusal with its Proxy-Status, or a join with a connection to
-- a target, which gets the rest of the stream.
pub data Reply : Type 0 where
  refused : ℕ → Bytes → Reply
  joined : Bytes → Bytes → Reply

unfoldable pub reply_to : (Bytes → Bool) → Bytes → Result Refusal (Bytes × Bytes) → Reply
unfolding proxy_status
reply_to dial later (err (status, reason)) = refused status (proxy_status (codes "ingress") reason)
reply_to dial later (ok (target, tunnel)) =
    if dial target
    then joined target (tunnel ++ later)
    else refused 502 (proxy_status (codes "ingress") (codes "dial-failed"))

-- The handler of serveIngress on a stream: the head is read within the limit, and what the
-- connection delivers later follows. The dialler answers whether a target takes it.
unfoldable pub serve_ingress : Unicode → (Bytes → Bool) → Pinned → Bytes → Option Reply
unfolding reply_to ingress_target
serve_ingress u dial pinned s = elim (ingress_target u pinned (take max_ingress_head s)) [
  | none ↦ none
  | some answer ↦ some (reply_to dial (drop max_ingress_head s) answer)
]
