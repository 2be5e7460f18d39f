-- ===== src/Policy/Load/Ports.antt =====
-- The port ranges that parsePorts of sdk/cmd/connect-proxy/policy.go accepts.
use agents_net.Base.{
  ℕ, ◌≤◌, ◌≡◌, ◌≢◌, All-append, false, Option, none, some, List, [], ◌∷◌, ◌++◌, arith, ltb, All,
  Bool-cases, Option-cases, inl, inr,
}
use mathlib.Core.Path.{subst}
use agents_net.Base.Bytes.{Bytes, cut}
use agents_net.Base.Decimal.{parse_uint, parse_uint-le}
use agents_net.Base.Result.{Result, ok, err, bound_value, ok-eq}
use agents_net.Policy.{
  PolicyError, PortValue, PortSet, parse_port, port_text, parse_range, parse_ranges, parse_ports,
}

-- A range of ports in order, without port 0.
abbrev pub IsRange : ℕ × ℕ → Type 0
IsRange (first, last) = (1 ≤ first) × (first ≤ last) × (last ≤ 65535)

pub err-ne-ok {ℓ} :
    {A : Type ℓ} {x : PolicyError} {y : A} → ◌≡◌ {A = Result PolicyError A} (err x) (ok y) → ⊥
err-ne-ok e = cc

parse_port-bounds : (t : Bytes) (n : ℕ) → parse_port t ≡ ok n → (1 ≤ n) × (n ≤ 65535)
unfolding parse_port
parse_port-bounds t n e = elim (Option-cases (parse_uint 65535 t)) [
  | inl missing ↦ absurd (ground arith)
  | inr (m, q) ↦ ground (arith, parse_uint-le 65535 t m q)
]

parse_range-IsRange : (t : Bytes) (r : ℕ × ℕ) → parse_range t ≡ ok r → IsRange r
unfolding parse_range
parse_range-IsRange t r e = elim (Option-cases (cut b'-' t)) [
  | inl missing ↦
      let (first, q, same) = bound_value (parse_port t) (rw (missing, parse_range) at e) in
      let (low, high) = parse_port-bounds t first q in
      subst IsRange (ok-eq same) (low, omega arith, high)
  | inr ((lo, hi), found) ↦
      let (first, q, rest) = bound_value (parse_port lo) (rw (found, parse_range) at e) in
      let (last, q', same) = bound_value (parse_port hi) rest in
      let (low, _) = parse_port-bounds lo first q in
      let (_, high) = parse_port-bounds hi last q' in
      elim (Bool-cases (ltb last first)) [
        | inl reversed ↦ absurd (err-ne-ok (rw reversed at same))
        | inr ordered ↦
            subst IsRange (ok-eq (rw ordered at same)) (low, ground (arith, ordered), high)
      ]
]

parse_ranges-IsRange :
    (values : List PortValue) (set l : List (ℕ × ℕ))
    → All IsRange set
    → parse_ranges values set ≡ ok l
    → All IsRange l
unfolding parse_ranges
parse_ranges-IsRange [] set l h e = subst (All IsRange) (ok-eq e) h
parse_ranges-IsRange (value ∷ values) set l h e =
    let (t, q, e₁) = bound_value (port_text value) e in
    let (r, q', e₂) = bound_value (parse_range t) e₁ in
    parse_ranges-IsRange values (set ++ r ∷ []) l
      (All-append IsRange set (r ∷ []) h (parse_range-IsRange t r q', tt)) e₂

-- Every port, or some ranges, at least one.
pub record IsPorts (ports : PortSet) : Type 0 where
  pub ordered : All IsRange ports.ranges
  pub some_range : ports.any_port ≡ false → ports.ranges ≢ []

-- The loop only adds to the ranges that are there.
parse_ranges_grow :
    (values : List PortValue) (x : ℕ × ℕ) (set l : List (ℕ × ℕ))
    → parse_ranges values (x ∷ set) ≡ ok l
    → l ≢ []
unfolding parse_ranges
parse_ranges_grow [] x set l e nil = cc
parse_ranges_grow (value ∷ values) x set l e nil =
    let (t, q, e₁) = bound_value (port_text value) e in
    let (r, q', e₂) = bound_value (parse_range t) e₁ in
    parse_ranges_grow values x (set ++ r ∷ []) l e₂ nil

pub parse_ports-IsPorts :
    (values : Option (List PortValue)) (ports : PortSet)
    → parse_ports values ≡ ok ports
    → IsPorts ports
unfolding parse_ports parse_ranges
parse_ports-IsPorts none ports e =
    subst IsPorts (ok-eq e) (record { ordered = tt; some_range = λ f. absurd (cc) })
parse_ports-IsPorts (some []) ports e = absurd (err-ne-ok e)
parse_ports-IsPorts (some (v ∷ vs)) ports e =
    let (l, q, same) = bound_value (parse_ranges (v ∷ vs) []) e in
    let (t, _, q₁) = bound_value (port_text v) q in
    let (r, _, q₂) = bound_value (parse_range t) q₁ in
    subst IsPorts (ok-eq same) (record {
      ordered = parse_ranges-IsRange (v ∷ vs) [] l tt q;
      some_range = λ f. parse_ranges_grow vs r [] l q₂;
    })
