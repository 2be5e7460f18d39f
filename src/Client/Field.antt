-- ===== src/Client/Field.antt =====
-- sdk/pkg/tun2connect/connect.go: the field Proxy-Status, written and read.
use agents_net.Base.{
  Bool, false, ◌||◌, Option, none, some, List, [], ◌∷◌, ◌++◌, ◌==◌, if◌then◌else◌,
}
use agents_net.Base.Bytes.{Bytes, codes, bytes_eq, cut, split, trim}
use agents_net.Base.Unicode.{Unicode, trim_space}

-- ProxyErrorType
unfoldable pub is_one_of : Bytes → List Bytes → Bool
unfolding bytes_eq
is_one_of s [] = false
is_one_of s (t ∷ ts) = bytes_eq s t || is_one_of s ts

unfoldable pub proxy_error_type : Bytes → Bytes
unfolding is_one_of
proxy_error_type reason =
    if is_one_of reason (
      codes "not-on-allowlist"
      ∷ codes "port-not-allowed"
      ∷ codes "transport-not-allowed"
      ∷ codes "udp-disabled"
      ∷ codes "identity-unknown"
      ∷ codes "port-not-permitted"
      ∷ [])
    then codes "http_request_denied"
    else if is_one_of reason
        (codes "ip-not-on-allowlist" ∷ codes "resolved-address-denied" ∷ codes "scoped-ip" ∷ [])
    then codes "destination_ip_prohibited"
    else if is_one_of reason (codes "resolve-failed" ∷ [])
    then codes "dns_error"
    else if is_one_of reason (codes "dial-failed" ∷ [])
    then codes "destination_unavailable"
    else if is_one_of reason (codes "busy" ∷ [])
    then codes "connection_limit_reached"
    else if is_one_of reason (codes "policy-unavailable" ∷ [])
    then codes "proxy_configuration_error"
    else if is_one_of reason (codes "unsupported-version" ∷ [])
    then codes "http_protocol_error"
    else codes "http_request_error"

unfoldable pub proxy_status : Bytes → Bytes → Bytes
unfolding proxy_error_type
proxy_status member reason =
    member ++ (codes "; error=" ++ (proxy_error_type reason ++ (codes "; reason=" ++ reason)))

abbrev pub first : List Bytes → Bytes
first [] = []
first (s ∷ ss) = s

abbrev pub rest : List Bytes → List Bytes
rest [] = []
rest (s ∷ ss) = ss

-- The value of one parameter when it is the reason.
unfoldable pub reason_param : Unicode → Bytes → Option Bytes
unfolding cut bytes_eq
reason_param u param = elim (cut b'=' (trim_space u param)) [
  | none ↦ none
  | some (key, value) ↦
      if bytes_eq key (codes "reason") then some (trim (λ c. c == b'"') value) else none
]

unfoldable pub find_reason : Unicode → List Bytes → Bytes
find_reason u [] = []
find_reason u (param ∷ params) = elim (reason_param u param) [
  | some reason ↦ reason
  | none ↦ find_reason u params
]

-- ProxyStatusReason on the first value of the field, empty without one.
unfoldable pub proxy_status_reason : Unicode → Bytes → Bytes
unfolding split find_reason
proxy_status_reason u field = find_reason u (rest (split b';' (first (split b',' field))))
