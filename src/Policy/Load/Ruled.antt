-- ===== src/Policy/Load/Ruled.antt =====
-- The form of loaded rules, and addRule of sdk/cmd/connect-proxy/policy.go.
use agents_net.Base.{
  ℕ, ◌≤◌, ◌≡◌, ◌≢◌, refl, sym, Bool, true, false, some, List, [], ◌∷◌, ◌++◌, arith, length, All,
  All-append, Bool-cases, Option-cases, inl, inr,
}
use mathlib.Core.Path.{subst}
use agents_net.Base.Bytes.{Bytes, codes, bytes_eq, bytes_eq_iff}
use agents_net.Base.Result.{Result, ok, err, ◌>>◌, bound_value, ok-eq}
use agents_net.Netip.{Prefix}
use agents_net.Policy.{Platform, PolicyError, bad_ip, DescriptorRule, Rule, SuffixRule, Policy}
use agents_net.Policy.Names.{is_empty, valid_name, normalize_name}
use agents_net.Policy.Ranges.{special_purpose}
use agents_net.Policy.Load.{
  require, add_name, parse_prefix, place_rule, parse_literal, checked_depth,
}
use agents_net.Policy.Load.Ports.{IsPorts, err-ne-ok}

-- A rule that was loaded.
pub record IsRule (r : Rule) : Type 0 where
  pub ports : IsPorts r.ports
  pub short : length r.id ≤ 64

pub record IsSuffix (s : SuffixRule) : Type 0 where
  pub rule : IsRule s.rule
  pub name : valid_name s.suffix ≡ true
  pub depth : s.depth ≤ 126

pub record IsException (r : Rule) : Type 0 where
  pub ports : IsPorts r.ports
  pub special : special_purpose r.prefix ≡ true

-- The version, sandbox, generation and UDP feature of a policy.
abbrev pub Header : Type 0
Header = Bytes × Bytes × Bytes × Bool

abbrev pub header_of : Policy → Header
header_of q = (q.version, q.sandbox, q.generation, q.udp)

-- The rules of a policy, and its header.
pub record IsRuled (head : Header) (q : Policy) : Type 0 where
  pub header : header_of q ≡ head
  pub names : (n : Bytes) → All IsRule (q.names n)
  pub keys : (n : Bytes) → q.names n ≢ [] → valid_name n ≡ true
  pub suffixes : All IsSuffix q.suffixes
  pub wildcard : All IsRule q.wildcard
  pub literals : All IsRule q.literals
  pub exceptions : All IsException q.exceptions

pub require-true : (b : Bool) (x : PolicyError) {u : Unit {0}} → require b x ≡ ok u → b ≡ true
require-true true x e = refl
require-true false x e = absurd (err-ne-ok e)

pub bound_unit :
    {A : Type 0} {next : Result PolicyError A} {b : A} (r : Result PolicyError (Unit {0}))
    → (r >> next) ≡ ok b
    → (u : Unit {0}) × (r ≡ ok u) × (next ≡ ok b)
bound_unit (err e) h = cc
bound_unit (ok u) h = (u, refl, h)

normalize_name_valid :
    (p : Platform) (host n : Bytes) → normalize_name p host ≡ some n → valid_name n ≡ true
unfolding normalize_name
normalize_name_valid p host n e = ground arith

pub checked_depth-le : (dr : DescriptorRule) (n : ℕ) → checked_depth dr ≡ ok n → n ≤ 126
unfolding checked_depth
checked_depth-le dr n e = ground arith

add_name-IsRule :
    (name : Bytes) (r : Rule) (names : Bytes → List Rule) (n : Bytes)
    → IsRule r
    → All IsRule (names n)
    → All IsRule (add_name name r names n)
add_name-IsRule name r names n h all = elim (Bool-cases (bytes_eq n name)) [
  | inl same ↦ rw same (All-append IsRule (names n) (r ∷ []) all (h, tt))
  | inr other ↦ rw other all
]

add_name-keys :
    (name : Bytes) (r : Rule) (names : Bytes → List Rule)
    → valid_name name ≡ true
    → ((n : Bytes) → names n ≢ [] → valid_name n ≡ true)
    → (n : Bytes) → add_name name r names n ≢ []
    → valid_name n ≡ true
add_name-keys name r names v keys n h = elim (Bool-cases (bytes_eq n name)) [
  | inl same ↦ subst (λ m. valid_name m ≡ true) (sym ((bytes_eq_iff n name).0 same)) v
  | inr other ↦ keys n (rw other at h)
]

-- One step of addRule keeps the rules of a policy.
module _ (p : Platform) (dr : DescriptorRule) (depth : ℕ) (r : Rule) (q : Policy) (h : IsRule r)
    (k : depth ≤ 126) {head : Header} (w : IsRuled head q) where
  wildcard-IsRuled : IsRuled head (record q { wildcard = q.wildcard ++ r ∷ [] })
  wildcard-IsRuled = record {
    header = w.header;
    names = w.names;
    keys = w.keys;
    suffixes = w.suffixes;
    literals = w.literals;
    exceptions = w.exceptions;
    wildcard = All-append IsRule q.wildcard (r ∷ []) w.wildcard (h, tt);
  }

  name-IsRuled :
      (name : Bytes)
      → valid_name name ≡ true
      → IsRuled head (record q { names = add_name name r q.names })
  name-IsRuled name v = record {
    header = w.header;
    names = λ n. add_name-IsRule name r q.names n h (w.names n);
    keys = add_name-keys name r q.names v w.keys;
    suffixes = w.suffixes;
    wildcard = w.wildcard;
    literals = w.literals;
    exceptions = w.exceptions;
  }

  suffix-IsRuled :
      (suffix : Bytes)
      → valid_name suffix ≡ true
      → IsRuled head (record q {
        suffixes = q.suffixes ++ record { suffix = suffix; depth = depth; rule = r } ∷ [];
      })
  suffix-IsRuled suffix v = record {
    header = w.header;
    names = w.names;
    keys = w.keys;
    wildcard = w.wildcard;
    literals = w.literals;
    exceptions = w.exceptions;
    suffixes =
        All-append IsSuffix q.suffixes (record { suffix = suffix; depth = depth; rule = r } ∷ [])
          w.suffixes (record { rule = h; name = v; depth = k }, tt);
  }

  literal-IsRuled :
      (prefix : Prefix)
      → IsRuled head (record q { literals = q.literals ++ record r { prefix = prefix } ∷ [] })
  literal-IsRuled prefix = record {
    header = w.header;
    names = w.names;
    keys = w.keys;
    suffixes = w.suffixes;
    wildcard = w.wildcard;
    exceptions = w.exceptions;
    literals =
        All-append IsRule q.literals (record r { prefix = prefix } ∷ []) w.literals
          (record { ports = h.ports; short = h.short }, tt);
  }

  pub place_rule-IsRuled : (q' : Policy) → place_rule p dr depth r q ≡ ok q' → IsRuled head q'
  unfolding place_rule
  place_rule-IsRuled q' e = elim (Bool-cases (bytes_eq dr.name (codes "*"))) [
    | inl any ↦ subst (IsRuled head) (ok-eq (rw any at e)) wildcard-IsRuled
    | inr no₁ ↦ elim (Bool-cases (is_empty dr.name)) [
      | inr named ↦ elim (Option-cases (normalize_name p dr.name)) [
        | inl bad ↦ absurd (err-ne-ok (rw (no₁, named, bad, place_rule) at e))
        | inr (n, found) ↦
            subst (IsRuled head) (ok-eq (rw (no₁, named, found, place_rule) at e))
              (name-IsRuled n (normalize_name_valid p dr.name n found))
      ]
      | inl no₂ ↦ elim (Bool-cases (is_empty dr.suffix)) [
        | inr suffixed ↦ elim (Option-cases (normalize_name p dr.suffix)) [
          | inl bad ↦ absurd (err-ne-ok (rw (no₁, no₂, suffixed, bad, place_rule) at e))
          | inr (n, found) ↦
              subst (IsRuled head) (ok-eq (rw (no₁, no₂, suffixed, found, place_rule) at e))
                (suffix-IsRuled n (normalize_name_valid p dr.suffix n found))
        ]
        | inl no₃ ↦ elim (Bool-cases (is_empty dr.ip)) [
          | inr ip ↦
              let (a, _, same) =
                bound_value (parse_literal p bad_ip dr.ip) (rw (no₁, no₂, no₃, ip) at e) in
              subst (IsRuled head) (ok-eq same) (literal-IsRuled _)
          | inl no₄ ↦
              let (prefix, _, same) =
                bound_value (parse_prefix p dr.cidr) (rw (no₁, no₂, no₃, no₄) at e) in
              subst (IsRuled head) (ok-eq same) (literal-IsRuled prefix)
        ]
      ]
    ]
  ]
