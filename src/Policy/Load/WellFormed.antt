-- ===== src/Policy/Load/WellFormed.antt =====
-- loadDescriptor of sdk/cmd/connect-proxy/policy.go: what a policy that loads satisfies.
use agents_net.Base.{
  ◌≡◌, refl, Bool, true, false, not, Option, some, List, [], ◌∷◌, ◌++◌, arith, ltb, ◌==◌, length,
  All-append, Option-cases, inl, inr,
}
use mathlib.Core.Path.{subst}
use agents_net.Base.Bytes.{Bytes, codes, bytes_eq, bytes_eq_iff}
use agents_net.Base.Int.{is_nat}
use agents_net.Base.Result.{ok, bound_value, ok-eq}
use agents_net.Policy.{
  Platform, kinds_not_one, id_too_long, unsupported_schema, version_required, sandbox_required,
  default_not_deny, exception_fields, not_special_purpose, DescriptorRule, Descriptor, Rule, Policy,
  parse_ports, parse_transports,
}
use agents_net.Policy.Ranges.{special_purpose}
use agents_net.Policy.Load.{
  require, parse_prefix, static_resolve, checked_depth, add_rule, add_rules, kinds, add_exception,
  add_exceptions, load_decoded, load_descriptor, empty_policy, is_given, is_exception,
}
use agents_net.Policy.Load.Ports.{parse_ports-IsPorts, err-ne-ok}
use agents_net.Policy.Load.Ruled.{
  Header, IsRuled, IsException, bound_unit, require-true, checked_depth-le, place_rule-IsRuled,
}

add_rule-IsRuled :
    {head : Header} (p : Platform) (dr : DescriptorRule) (q q' : Policy)
    → IsRuled head q
    → add_rule p dr q ≡ ok q'
    → IsRuled head q'
unfolding add_rule
add_rule-IsRuled p dr q q' w e =
    let (_, _, e₁) = bound_unit (require (kinds dr == 1) kinds_not_one) e in
    let (_, short, e₂) = bound_unit (require (not (ltb 64 (length dr.id))) id_too_long) e₁ in
    let (ports, ported, e₃) = bound_value (parse_ports dr.ports) e₂ in
    let (transports, _, e₄) = bound_value (parse_transports dr.transports) e₃ in
    let (resolved, _, e₅) = bound_value (static_resolve p dr) e₄ in
    let (depth, deep, e₆) = bound_value (checked_depth dr) e₅ in
    place_rule-IsRuled p dr depth _ q
      (record {
        ports = parse_ports-IsPorts dr.ports ports ported;
        short =
            let t = require-true (not (ltb 64 (length dr.id))) id_too_long short in
            ground (arith, t);
      })
      (checked_depth-le dr depth deep) w q' e₆

add_rules-IsRuled :
    {head : Header} (p : Platform) (drs : List DescriptorRule) (q q' : Policy)
    → IsRuled head q
    → add_rules p drs q ≡ ok q'
    → IsRuled head q'
unfolding add_rules
add_rules-IsRuled p [] q q' w e = subst (IsRuled _) (ok-eq e) w
add_rules-IsRuled p (dr ∷ drs) q q' w e =
    let (q₁, first, rest) = bound_value (add_rule p dr q) e in
    add_rules-IsRuled p drs q₁ q' (add_rule-IsRuled p dr q q₁ w first) rest

exception-IsRuled :
    {head : Header} (q : Policy) (r : Rule)
    → IsException r
    → IsRuled head q
    → IsRuled head (record q { exceptions = q.exceptions ++ r ∷ [] })
exception-IsRuled q r h w = record {
  header = w.header;
  names = w.names;
  keys = w.keys;
  suffixes = w.suffixes;
  wildcard = w.wildcard;
  literals = w.literals;
  exceptions = All-append IsException q.exceptions (r ∷ []) w.exceptions (h, tt);
}

add_exception-IsRuled :
    {head : Header} (p : Platform) (dr : DescriptorRule) (q q' : Policy)
    → IsRuled head q
    → add_exception p dr q ≡ ok q'
    → IsRuled head q'
unfolding add_exception
add_exception-IsRuled p dr q q' w e =
    let (_, _, e₁) = bound_unit (require (is_exception dr) exception_fields) e in
    let (prefix, _, e₂) = bound_value (parse_prefix p dr.cidr) e₁ in
    let (_, special, e₃) = bound_unit (require (special_purpose prefix) not_special_purpose) e₂ in
    let (ports, ported, e₄) = bound_value (parse_ports dr.ports) e₃ in
    subst (IsRuled _) (ok-eq e₄) (
      exception-IsRuled q _
        (record {
          ports = parse_ports-IsPorts dr.ports ports ported;
          special = require-true (special_purpose prefix) not_special_purpose special;
        })
        w)

add_exceptions-IsRuled :
    {head : Header} (p : Platform) (drs : List DescriptorRule) (q q' : Policy)
    → IsRuled head q
    → add_exceptions p drs q ≡ ok q'
    → IsRuled head q'
unfolding add_exceptions
add_exceptions-IsRuled p [] q q' w e = subst (IsRuled _) (ok-eq e) w
add_exceptions-IsRuled p (dr ∷ drs) q q' w e =
    let (q₁, first, rest) = bound_value (add_exception p dr q) e in
    add_exceptions-IsRuled p drs q₁ q' (add_exception-IsRuled p dr q q₁ w first) rest

-- What a descriptor that loads says, and what its policy is.
pub record IsLoaded (d : Descriptor) (generation : Bytes) (q : Policy) : Type 0 where
  pub schema : is_nat 1 d.schema ≡ true
  pub version : is_given d.version ≡ true
  pub sandbox : is_given d.sandbox ≡ true
  pub default : d.default_action ≡ codes "deny"
  pub ruled : IsRuled (d.version, d.sandbox, generation, d.udp) q

load_decoded-IsLoaded :
    (p : Platform) (generation : Bytes) (d : Descriptor) (q : Policy)
    → load_decoded p generation d ≡ ok q
    → IsLoaded d generation q
unfolding load_decoded
load_decoded-IsLoaded p generation d q e =
    let (_, schema, e₁) = bound_unit (require (is_nat 1 d.schema) unsupported_schema) e in
    let (_, version, e₂) = bound_unit (require (is_given d.version) version_required) e₁ in
    let (_, sandbox, e₃) = bound_unit (require (is_given d.sandbox) sandbox_required) e₂ in
    let (_, default, e₄) =
      bound_unit (require (bytes_eq d.default_action (codes "deny")) default_not_deny) e₃ in
    let (q₁, rules, e₅) = bound_value (add_rules p d.rules (empty_policy d generation)) e₄ in
    record {
      schema = require-true _ unsupported_schema schema;
      version = require-true _ version_required version;
      sandbox = require-true _ sandbox_required sandbox;
      default =
          (bytes_eq_iff d.default_action (codes "deny")).0
            (require-true _ default_not_deny default);
      ruled =
          add_exceptions-IsRuled p d.resolved_addresses q₁ q
            (add_rules-IsRuled p d.rules (empty_policy d generation) q₁
              (record {
                header = refl;
                names = λ n. tt;
                keys = λ n h. absurd (h refl);
                suffixes = tt;
                wildcard = tt;
                literals = tt;
                exceptions = tt;
              })
              rules)
            e₅;
    }

-- A descriptor that loads has schema 1, a version and a sandbox of 1 to 256 bytes and the
-- default "deny"; its policy has the version, sandbox, UDP feature and generation given, every
-- rule has an id of at most 64 bytes and either every port or some ordered ranges of ports from
-- 1 to 65535, every name with a rule and every suffix is a valid host name, a depth is at most
-- 126, and every exception lies in a special-purpose range.
pub load_descriptor-IsLoaded :
    (decode : Bytes → Option (Descriptor × Bool)) (p : Platform) (input generation : Bytes)
    (q : Policy)
    → load_descriptor decode p input generation ≡ ok q
    → (d : Descriptor) × (decode input ≡ some (d, false)) × IsLoaded d generation q
unfolding load_descriptor
load_descriptor-IsLoaded decode p input generation q e = elim (Option-cases (decode input)) [
  | inl failed ↦ absurd (err-ne-ok (rw (failed, load_descriptor) at e))
  | inr ((d, true), decoded) ↦ absurd (err-ne-ok (rw (decoded, load_descriptor) at e))
  | inr ((d, false), decoded) ↦
      (d, decoded, load_decoded-IsLoaded p generation d q (rw (decoded, load_descriptor) at e))
]
