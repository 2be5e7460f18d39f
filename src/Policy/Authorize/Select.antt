-- ===== src/Policy/Authorize/Select.antt =====
-- selectRule of sdk/cmd/connect-proxy/policy.go against a closed form.
use agents_net.Base.{
  ℕ, ◌≡◌, ◌∙◌, ap, refl, true, false, ◌&&◌, Option, none, some, List, [], ◌∷◌, arith, if◌then◌else◌,
  any, Bool-cases, inl, inr,
}
use agents_net.Policy.{Network, Rule, permits, has}
use agents_net.Policy.Authorize.{
  Reason, transport_not_allowed, keep_reason, select_loop, select_rule,
}

-- The first rule that permits the port and the network.
unfoldable pub first_permitting : List Rule → ℕ → Network → Option Rule
first_permitting [] port network = none
first_permitting (r ∷ rs) port network =
    if permits r.ports port && has r.transports network
    then some r
    else first_permitting rs port network

-- Why no candidate was selected, after a reason so far: a transport if some candidate permits the port.
abbrev pub closest : Option Reason → List Rule → ℕ → Option Reason
closest reason [] port = reason
closest reason (r ∷ rs) port =
    if any (λ x. permits x.ports port) (r ∷ rs)
    then some transport_not_allowed
    else keep_reason reason

abbrev outcome : Option Reason → Option Rule → Option Rule × Option Reason
outcome reason none = (none, reason)
outcome reason (some r) = (some r, none)

-- The reason behind a candidate that fails by its transport, or by its port.
closest_transport :
    (reason : Option Reason) (r : Rule) (rs : List Rule) (port : ℕ)
    → permits r.ports port ≡ true
    → closest (some transport_not_allowed) rs port ≡ closest reason (r ∷ rs) port
closest_transport reason r [] port p = rw p
closest_transport reason r (x ∷ rs) port p = rw p (ground arith)

closest_port :
    (reason : Option Reason) (r : Rule) (rs : List Rule) (port : ℕ)
    → permits r.ports port ≡ false
    → closest (keep_reason reason) rs port ≡ closest reason (r ∷ rs) port
closest_port reason r [] port p = rw p
closest_port none r (x ∷ rs) port p = rw p
closest_port (some y) r (x ∷ rs) port p = rw p

select_loop-outcome :
    (rs : List Rule) (port : ℕ) (network : Network) (reason : Option Reason)
    → select_loop rs port network reason
      ≡ outcome (closest reason rs port) (first_permitting rs port network)
unfolding select_loop first_permitting
select_loop-outcome [] port network reason = refl
select_loop-outcome (r ∷ rs) port network reason = elim (Bool-cases (permits r.ports port)) [
  | inl p ↦ elim (Bool-cases (has r.transports network)) [
    | inl h ↦ rw (p, h)
    | inr h ↦
        let found = first_permitting rs port network in
        let same = closest_transport reason r rs port p in
        rw (p, h)
          (select_loop-outcome rs port network (some transport_not_allowed)
            ∙ ap (λ x. outcome x found) (rw p at same))
  ]
  | inr p ↦
      let found = first_permitting rs port network in
      let same = closest_port reason r rs port p in
      rw p (
        select_loop-outcome rs port network (keep_reason reason)
        ∙ ap (λ x. outcome x found) (rw p at same))
]

-- selectRule returns the first candidate that permits the port and the network, with no reason.
-- With none it returns no rule, and as the reason: transport-not-allowed if some candidate
-- permits the port, port-not-allowed if there are candidates and none permits it, and no reason
-- without candidates.
pub select_rule-first_permitting :
    (rs : List Rule) (port : ℕ) (network : Network)
    → select_rule rs port network ≡ elim (first_permitting rs port network) [
      | some r ↦ (some r, none)
      | none ↦ (none, closest none rs port)
    ]
unfolding select_rule
select_rule-first_permitting rs port network =
    select_loop-outcome rs port network none ∙ split (first_permitting rs port network)
  where
    split :
        (found : Option Rule)
        → outcome (closest none rs port) found
          ≡ elim found [ some r ↦ (some r, none) | none ↦ (none, closest none rs port) ]
    split none = refl
    split (some r) = refl
