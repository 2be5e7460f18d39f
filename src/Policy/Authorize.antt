-- ===== src/Policy/Authorize.antt =====
-- The decision: selectRule, literalRule, excepted, listed and authorize of
-- sdk/cmd/connect-proxy/policy.go.
pub mod Select
pub mod Sound
pub mod Granted
pub mod Closed
use agents_net.Base.{
  ℕ, ◌+◌, ◌-◌, Bool, true, false, not, ◌&&◌, ◌||◌, Option, none, some, List, [], ◌∷◌, ◌++◌, ltb,
  ◌==◌, if◌then◌else◌, length, take, any,
}
use agents_net.Base.Bytes.{Bytes, has_suffix, count_byte}
use agents_net.Base.Result.{Result, ok, err}
use agents_net.Base.Unicode.{to_lower}
use agents_net.Net.{join_host_port}
use agents_net.Netip.{Addr, contains, zone, unmap, addr_eq}
use agents_net.Policy.{Platform, Network, Rule, SuffixRule, Policy, permits, has, parse_port}
use agents_net.Policy.Names.{is_empty, normalize_name}
use agents_net.Policy.Ranges.{public_address}

-- The reason tokens of a refusal; no token is `none`.
pub data Reason : Type 0 where
  malformed_port scoped_ip port_not_allowed transport_not_allowed ip_not_on_allowlist : Reason
  malformed_target not_on_allowlist resolved_address_denied : Reason
  policy_unavailable udp_disabled resolve_failed dial_failed : Reason
  authority_mismatch malformed_upgrade malformed_template connect_only : Reason
  unsupported_protocol head_too_large malformed_request_line unsupported_version : Reason
  malformed_header duplicate_host missing_host busy tls_failed : Reason

-- The reason kept when the port of one more candidate is not permitted.
abbrev pub keep_reason : Option Reason → Option Reason
keep_reason none = some port_not_allowed
keep_reason (some r) = some r

-- The loop of selectRule over the candidates and the reason so far.
unfoldable pub select_loop : List Rule → ℕ → Network → Option Reason → Option Rule × Option Reason
select_loop [] port network reason = (none, reason)
select_loop (r ∷ rs) port network reason =
    let rest =
      select_loop rs port network
        (if not (permits r.ports port) then keep_reason reason else some transport_not_allowed) in
    if not (permits r.ports port)
    then rest
    else if not (has r.transports network)
    then rest
    else (some r, none)

unfoldable pub select_rule : List Rule → ℕ → Network → Option Rule × Option Reason
unfolding select_loop
select_rule candidates port network = select_loop candidates port network none

-- The first rule that covers the address on the port.
unfoldable pub covering_rule : List Rule → Addr → ℕ → Option Rule
covering_rule [] a port = none
covering_rule (r ∷ rs) a port =
    if contains r.prefix a && permits r.ports port then some r else covering_rule rs a port

abbrev pub is_some {ℓ} : {A : Type ℓ} → Option A → Bool
is_some none = false
is_some (some a) = true

-- literalRule
abbrev pub literal_rule : Policy → Addr → ℕ → Option Rule
literal_rule q a port = covering_rule q.literals a port

abbrev pub excepted : Policy → Addr → ℕ → Bool
excepted q a port = is_some (covering_rule q.exceptions a port)

abbrev pub listed : List Addr → Addr → Bool
listed addresses a = any (λ x. addr_eq x a) addresses

-- The outcome; `failed` is a resolution error.
pub record Verdict : Type 0 where
  pub destination : Bytes
  pub addresses : List Addr
  pub rule : Bytes
  pub reason : Option Reason
  pub status : ℕ
  pub failed : Bool

abbrev pub deny : ℕ → Reason → Verdict → Verdict
deny status reason v = record v { status = status; reason = some reason }

-- The literal rules whose prefix holds the address.
unfoldable pub literal_candidates : List Rule → Addr → List Rule
literal_candidates [] a = []
literal_candidates (r ∷ rs) a =
    let rest = literal_candidates rs a in if contains r.prefix a then r ∷ rest else rest

-- A suffix rule applies to the names below its suffix, down to its depth.
unfoldable pub suffix_applies : Bytes → SuffixRule → Bool
suffix_applies name s =
    has_suffix name (b'.' ∷ s.suffix)
    && not (
        ltb 0 s.depth
        && ltb s.depth (count_byte b'.' (take (length name - length s.suffix - 1) name) + 1))

unfoldable pub suffix_candidates : Bytes → List SuffixRule → List Rule
suffix_candidates name [] = []
suffix_candidates name (s ∷ ss) =
    let rest = suffix_candidates name ss in if suffix_applies name s then s.rule ∷ rest else rest

abbrev pub name_candidates : Policy → Bytes → List Rule
name_candidates q name = q.names name ++ (suffix_candidates name q.suffixes ++ q.wildcard)

-- A resolved address that the boundary may dial.
abbrev pub dialable : Policy → Rule → ℕ → Addr → Bool
dialable q selected port a =
    listed selected.resolve a
    || is_some (literal_rule q a port)
    || excepted q a port
    || public_address a

-- The loop that keeps the addresses of a resolution.
unfoldable pub checked_addresses : Policy → Rule → ℕ → List Addr → List Addr
checked_addresses q selected port [] = []
checked_addresses q selected port (raw ∷ raws) =
    let a = unmap raw in
    let rest = checked_addresses q selected port raws in
    if not (is_empty (zone a)) then rest else if dialable q selected port a then a ∷ rest else rest

-- The refusal when no rule was selected: the reason of the closest candidate, or the default.
abbrev pub deny_unselected : Option Reason → Reason → Verdict → Verdict
deny_unselected none default_reason v = deny 403 default_reason v
deny_unselected (some reason) default_reason v = deny 403 reason v

-- The branch of a literal address.
unfoldable pub authorize_address :
    Platform → Policy → Verdict → Addr → Bytes → ℕ → Network → Verdict
authorize_address p q v address port number network =
    if not (is_empty (zone address))
    then deny 403 scoped_ip v
    else let a = unmap address in
      let v' = record v { destination = join_host_port (p.addr_string a) port } in
      let (selected, reason) = select_rule (literal_candidates q.literals a) number network in
      elim selected [
        | some r ↦ record v' { addresses = a ∷ []; rule = r.id }
        | none ↦ deny_unselected reason ip_not_on_allowlist v'
      ]

-- What is resolved for a selected rule: its static list, or else a lookup, which may fail.
abbrev pub resolution : (Bytes → Option (List Addr)) → Rule → Bytes → Option (List Addr)
resolution lookup r name = elim r.resolve [ [] ↦ lookup name | a ∷ l ↦ some (a ∷ l) ]

-- The check of what was resolved for a selected rule.
unfoldable pub authorize_resolved : Policy → Verdict → Rule → ℕ → Option (List Addr) → Verdict
authorize_resolved q v r number none = record v { failed = true }
authorize_resolved q v r number (some resolved) =
    let addresses = checked_addresses q r number resolved in
    let v' = record v { addresses = addresses } in
    if length addresses == 0 then deny 403 resolved_address_denied v' else v'

-- The branch of a normalized name.
unfoldable pub authorize_name :
    (Bytes → Option (List Addr)) → Policy → Verdict → Bytes → Bytes → ℕ → Network → Verdict
authorize_name lookup q v name port number network =
    let v' = record v { destination = join_host_port name port } in
    let (selected, reason) = select_rule (name_candidates q name) number network in
    elim selected [
      | some r ↦
          authorize_resolved q (record v' { rule = r.id }) r number (resolution lookup r name)
      | none ↦ deny_unselected reason not_on_allowlist v'
    ]

abbrev pub initial_verdict : Bytes → Bytes → Verdict
initial_verdict host port = record {
  destination = join_host_port host port;
  addresses = [];
  rule = [];
  reason = none;
  status = 403;
  failed = false;
}

-- authorize; the resolver is the first argument, `none` its error.
unfoldable pub authorize :
    (Bytes → Option (List Addr)) → Platform → Policy → Bytes → Bytes → Network → Verdict
authorize lookup p q host port network =
    let v = initial_verdict host port in
    elim (parse_port port) [
      | err e ↦ deny 400 malformed_port v
      | ok number ↦ elim (p.parse_addr (to_lower p.unicode host)) [
        | some address ↦ authorize_address p q v address port number network
        | none ↦ elim (normalize_name p host) [
          | none ↦ deny 400 malformed_target v
          | some name ↦ authorize_name lookup q v name port number network
        ]
      ]
    ]
