-- ===== src/Policy/Authorize/Sound.antt =====
-- What a permission of authorize in sdk/cmd/connect-proxy/policy.go rests on.
use agents_net.Base.{
  ℕ, ◌≡◌, ◌≢◌, ◌∙◌, ◌⊎◌, inl, inr, true, false, ◌&&◌, Option, none, some, List, [], ◌∷◌, All,
  Bool-cases, Option-cases, and_true,
}
use mathlib.Core.Path.{subst}
use agents_net.Base.Bytes.{Bytes}
use agents_net.Base.Result.{ok}
use agents_net.Base.Unicode.{to_lower}
use agents_net.Netip.{Addr, contains, zone, unmap}
use agents_net.Policy.{Platform, Network, Rule, Policy, permits, has, parse_port}
use agents_net.Policy.Names.{is_empty, normalize_name}
use agents_net.Policy.Authorize.{
  Reason, Verdict, covering_rule, is_some, listed, select_rule, literal_candidates, name_candidates,
  checked_addresses, dialable,
}
use agents_net.Policy.Ranges.{public_address}
use agents_net.Policy.Authorize.Select.{closest, first_permitting, select_rule-first_permitting}

-- One of the rules of a list.
abbrev pub Among : Rule → List Rule → Type 0
Among r [] = ⊥
Among r (x ∷ xs) = (x ≡ r) ⊎ Among r xs

-- A candidate that permits the port and the network.
pub record IsPermitting (rs : List Rule) (port : ℕ) (network : Network) (r : Rule) : Type 0 where
  pub among : Among r rs
  pub port_permitted : permits r.ports port ≡ true
  pub network_permitted : has r.transports network ≡ true

some-eq : {x y : Rule} → some x ≡ some y → x ≡ y
some-eq e = cc

first_permitting-IsPermitting :
    (rs : List Rule) (port : ℕ) (network : Network) (r : Rule)
    → first_permitting rs port network ≡ some r
    → IsPermitting rs port network r
unfolding first_permitting
first_permitting-IsPermitting [] port network r e = absurd (cc)
first_permitting-IsPermitting (x ∷ rs) port network r e =
    elim (Bool-cases (permits x.ports port && has x.transports network)) [
      | inl both ↦
          let same : x ≡ r = some-eq (rw both at e) in
          let (p, h) = and_true _ _ both in
          record {
            among = inl same;
            port_permitted = subst (λ y. permits y.ports port ≡ true) same p;
            network_permitted = subst (λ y. has y.transports network ≡ true) same h;
          }
      | inr fails ↦
          let rest = first_permitting-IsPermitting rs port network r (rw fails at e) in
          record {
            among = inr rest.among;
            port_permitted = rest.port_permitted;
            network_permitted = rest.network_permitted;
          }
    ]

-- A selected rule is a candidate that permits; without one some refusal is certain.
pub select_rule-cases :
    (rs : List Rule) (port : ℕ) (network : Network)
    → ((r : Rule) × (select_rule rs port network ≡ (some r, none)) × IsPermitting rs port network r)
      ⊎ ((reason : Option Reason) × (select_rule rs port network ≡ (none, reason)))
select_rule-cases rs port network = elim (Option-cases (first_permitting rs port network)) [
  | inl missing ↦
      inr (closest none rs port, select_rule-first_permitting rs port network ∙ rw missing)
  | inr (r, e) ↦ inl (
    r,
    select_rule-first_permitting rs port network ∙ rw e,
    first_permitting-IsPermitting rs port network r e,
  )
]

pub literal_candidates-Among :
    (rs : List Rule) (a : Addr) (r : Rule)
    → Among r (literal_candidates rs a)
    → Among r rs × (contains r.prefix a ≡ true)
unfolding literal_candidates
literal_candidates-Among [] a r i = absurd i
literal_candidates-Among (x ∷ rs) a r i = elim (Bool-cases (contains x.prefix a)) [
  | inl c ↦ elim (let j : Among r (x ∷ literal_candidates rs a) = rw c at i in j) [
    | inl same ↦ (inl same, subst (λ y. contains y.prefix a ≡ true) same c)
    | inr rest ↦ let (l, m) = literal_candidates-Among rs a r rest in (inr l, m)
  ]
  | inr c ↦ let (l, m) = literal_candidates-Among rs a r (rw c at i) in (inr l, m)
]

false-ne-true : false ≡ true → ⊥
false-ne-true e = cc

-- A rule of the list covers the address on the port.
pub record IsCovering (rs : List Rule) (a : Addr) (port : ℕ) (r : Rule) : Type 0 where
  pub among : Among r rs
  pub covered : contains r.prefix a ≡ true
  pub port_permitted : permits r.ports port ≡ true

covering_rule-IsCovering :
    (rs : List Rule) (a : Addr) (port : ℕ) (r : Rule)
    → covering_rule rs a port ≡ some r
    → IsCovering rs a port r
unfolding covering_rule
covering_rule-IsCovering [] a port r e = absurd (cc)
covering_rule-IsCovering (x ∷ rs) a port r e =
    elim (Bool-cases (contains x.prefix a && permits x.ports port)) [
      | inl both ↦
          let same : x ≡ r = some-eq (rw both at e) in
          let (c, p) = and_true _ _ both in
          record {
            among = inl same;
            covered = subst (λ y. contains y.prefix a ≡ true) same c;
            port_permitted = subst (λ y. permits y.ports port ≡ true) same p;
          }
      | inr fails ↦
          let rest = covering_rule-IsCovering rs a port r (rw fails at e) in
          record {
            among = inr rest.among;
            covered = rest.covered;
            port_permitted = rest.port_permitted;
          }
    ]

is_some-IsCovering :
    (rs : List Rule) (a : Addr) (port : ℕ)
    → is_some (covering_rule rs a port) ≡ true
    → (r : Rule) × IsCovering rs a port r
is_some-IsCovering rs a port h = elim (Option-cases (covering_rule rs a port)) [
  | inl missing ↦ absurd (false-ne-true (rw missing at h))
  | inr (r, e) ↦ (r, covering_rule-IsCovering rs a port r e)
]

-- Why an address that a name resolved to may be dialled under the selected rule.
pub data MayDial (q : Policy) (selected : Rule) (port : ℕ) (a : Addr) : Type 0 where
  static : listed selected.resolve a ≡ true → MayDial q selected port a
  literal : (r : Rule) → IsCovering q.literals a port r → MayDial q selected port a
  exception : (r : Rule) → IsCovering q.exceptions a port r → MayDial q selected port a
  public : public_address a ≡ true → MayDial q selected port a

dialable-MayDial :
    (q : Policy) (r : Rule) (port : ℕ) (a : Addr) → dialable q r port a ≡ true → MayDial q r port a
dialable-MayDial q r port a h = elim (Bool-cases (listed r.resolve a)) [
  | inl e ↦ static e
  | inr e₁ ↦ elim (Bool-cases (is_some (covering_rule q.literals a port))) [
    | inl e ↦ let (x, c) = is_some-IsCovering q.literals a port e in literal x c
    | inr e₂ ↦ elim (Bool-cases (is_some (covering_rule q.exceptions a port))) [
      | inl e ↦ let (x, c) = is_some-IsCovering q.exceptions a port e in exception x c
      | inr e₃ ↦ public (rw (e₁, e₂, e₃) at h)
    ]
  ]
]

-- An address that the boundary may dial under the rule; it has no zone.
abbrev pub IsDialable : Policy → Rule → ℕ → Addr → Type 0
IsDialable q r port a = MayDial q r port a × (is_empty (zone a) ≡ true)

pub checked_addresses-IsDialable :
    (q : Policy) (r : Rule) (port : ℕ) (resolved : List Addr)
    → All (IsDialable q r port) (checked_addresses q r port resolved)
unfolding checked_addresses
checked_addresses-IsDialable q r port [] = tt
checked_addresses-IsDialable q r port (raw ∷ raws) =
    elim (Bool-cases (is_empty (zone (unmap raw)))) [
      | inr zoned ↦ rw zoned (checked_addresses-IsDialable q r port raws)
      | inl plain ↦ elim (Bool-cases (dialable q r port (unmap raw))) [
        | inl d ↦
            rw (plain, d)
              (
                (dialable-MayDial q r port (unmap raw) d, plain),
                checked_addresses-IsDialable q r port raws,
              )
        | inr d ↦ rw (plain, d) (checked_addresses-IsDialable q r port raws)
      ]
    ]

-- What a verdict without a reason and without an error says of the policy.
pub data IsGranted (p : Platform) (q : Policy) (host port : Bytes) (network : Network) (v : Verdict)
    : Type 0 where
  -- A literal address, the only one to dial, which a literal rule covers.
  by_address :
      (number : ℕ) (a : Addr) (r : Rule)
      → parse_port port ≡ ok number
      → p.parse_addr (to_lower p.unicode host) ≡ some a
      → is_empty (zone a) ≡ true
      → IsCovering q.literals (unmap a) number r
      → has r.transports network ≡ true
      → v.addresses ≡ unmap a ∷ []
      → v.rule ≡ r.id
      → IsGranted p q host port network v
  -- A name that a rule selects, with one address at least and each of them checked.
  by_name :
      (number : ℕ) (name : Bytes) (r : Rule)
      → parse_port port ≡ ok number
      → normalize_name p host ≡ some name
      → IsPermitting (name_candidates q name) number network r
      → All (IsDialable q r number) v.addresses
      → v.addresses ≢ []
      → v.rule ≡ r.id
      → IsGranted p q host port network v
