-- ===== src/Policy/Authorize/Closed.antt =====
-- A descriptor without rules: loadDescriptor and authorize of
-- sdk/cmd/connect-proxy/policy.go together.
use agents_net.Base.{◌≡◌, refl, Bool, false, Option, some, List, [], ◌∷◌}
use mathlib.Core.Path.{subst}
use agents_net.Base.Bytes.{Bytes, codes, bytes_eq}
use agents_net.Base.Int.{is_nat}
use agents_net.Base.Result.{ok, bound_value, ok-eq}
use agents_net.Netip.{Addr}
use agents_net.Policy.{
  Platform, PolicyError, exception_fields, not_special_purpose, unsupported_schema,
  version_required, sandbox_required, default_not_deny, Network, Rule, SuffixRule, DescriptorRule,
  Descriptor, Policy, parse_ports,
}
use agents_net.Policy.Ranges.{special_purpose}
use agents_net.Policy.Load.{
  require, parse_prefix, is_exception, is_given, empty_policy, add_rules, add_exception,
  add_exceptions, load_decoded, load_descriptor,
}
use agents_net.Policy.Load.Ruled.{bound_unit}
use agents_net.Policy.Authorize.{suffix_candidates, name_candidates, authorize}
use agents_net.Policy.Authorize.Sound.{Among, IsGranted, by_address, by_name}
use agents_net.Policy.Authorize.Granted.{IsAllowed, authorize-IsGranted}

-- A policy that no rule was loaded into.
pub record IsClosed (q : Policy) : Type 0 where
  pub names : (n : Bytes) → q.names n ≡ []
  pub suffixes : q.suffixes ≡ []
  pub wildcard : q.wildcard ≡ []
  pub literals : q.literals ≡ []

add_exception-IsClosed :
    (p : Platform) (dr : DescriptorRule) (q q' : Policy)
    → IsClosed q
    → add_exception p dr q ≡ ok q'
    → IsClosed q'
unfolding add_exception
add_exception-IsClosed p dr q q' c e =
    let (_, _, e₁) = bound_unit (require (is_exception dr) exception_fields) e in
    let (prefix, _, e₂) = bound_value (parse_prefix p dr.cidr) e₁ in
    let (_, _, e₃) = bound_unit (require (special_purpose prefix) not_special_purpose) e₂ in
    let (ports, _, e₄) = bound_value (parse_ports dr.ports) e₃ in
    subst IsClosed (ok-eq e₄) (record {
      names = c.names;
      suffixes = c.suffixes;
      wildcard = c.wildcard;
      literals = c.literals;
    })

add_exceptions-IsClosed :
    (p : Platform) (drs : List DescriptorRule) (q q' : Policy)
    → IsClosed q
    → add_exceptions p drs q ≡ ok q'
    → IsClosed q'
unfolding add_exceptions
add_exceptions-IsClosed p [] q q' c e = subst IsClosed (ok-eq e) c
add_exceptions-IsClosed p (dr ∷ drs) q q' c e =
    let (q₁, first, rest) = bound_value (add_exception p dr q) e in
    add_exceptions-IsClosed p drs q₁ q' (add_exception-IsClosed p dr q q₁ c first) rest

load_decoded-IsClosed :
    (p : Platform) (generation : Bytes) (d : Descriptor) (q : Policy)
    → d.rules ≡ []
    → load_decoded p generation d ≡ ok q
    → IsClosed q
unfolding load_decoded add_rules
load_decoded-IsClosed p generation d q none_given e =
    let (_, _, e₁) = bound_unit (require (is_nat 1 d.schema) unsupported_schema) e in
    let (_, _, e₂) = bound_unit (require (is_given d.version) version_required) e₁ in
    let (_, _, e₃) = bound_unit (require (is_given d.sandbox) sandbox_required) e₂ in
    let (_, _, e₄) =
      bound_unit (require (bytes_eq d.default_action (codes "deny")) default_not_deny) e₃ in
    let (q₁, rules, e₅) = bound_value (add_rules p d.rules (empty_policy d generation)) e₄ in
    add_exceptions-IsClosed p d.resolved_addresses q₁ q
      (subst IsClosed (ok-eq (rw none_given at rules))
        (record { names = λ n. refl; suffixes = refl; wildcard = refl; literals = refl }))
      e₅

closed_candidates : (q : Policy) (name : Bytes) → IsClosed q → name_candidates q name ≡ []
unfolding suffix_candidates
closed_candidates q name c = rw (c.names name, c.suffixes, c.wildcard) refl

closed-IsGranted :
    (p : Platform) (q : Policy) (host port : Bytes) (network : Network)
    (v : agents_net.Policy.Authorize.Verdict)
    → IsClosed q
    → IsGranted p q host port network v
    → ⊥
closed-IsGranted p q host port network v c (by_address number a r _ _ _ covering _ _ _) =
    subst (Among r) c.literals covering.among
closed-IsGranted p q host port network v c (by_name number name r _ _ permitting _ _ _) =
    subst (Among r) (closed_candidates q name c) permitting.among

-- A descriptor without rules allows nothing: whatever it names as exceptions, no host and port
-- gets a verdict without a reason and without a resolution error.
pub load_descriptor-denies :
    (decode : Bytes → Option (Descriptor × Bool)) (p : Platform) (input generation : Bytes)
    (d : Descriptor) (q : Policy)
    → decode input ≡ some (d, false)
    → d.rules ≡ []
    → load_descriptor decode p input generation ≡ ok q
    → (lookup : Bytes → Option (List Addr)) (host port : Bytes) (network : Network)
    → ¬ IsAllowed (authorize lookup p q host port network)
unfolding load_descriptor
load_descriptor-denies decode p input generation d q decoded none_given loaded lookup host port
      network allowed =
    closed-IsGranted p q host port network (authorize lookup p q host port network)
      (load_decoded-IsClosed p generation d q none_given (rw (decoded, load_descriptor) at loaded))
      (authorize-IsGranted lookup p q host port network allowed)
