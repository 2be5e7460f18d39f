-- ===== src/Ingress/Pinned.antt =====
-- parsePinnedPorts of sdk/cmd/tun2connect/run.go: which ports are pinned.
use agents_net.Base.{
  ℕ, zero, suc, ◌≤◌, ◌≡◌, ◌↔◌, ◌⊎◌, inl, inr, arith, true, false, Bool-cases, Option-cases, some,
  List, [], ◌∷◌, ◌==◌, if◌then◌else◌,
}
use agents_net.Base.Bytes.{Bytes, split}
use agents_net.Base.Decimal.{parse_uint, parse_uint-le}
use agents_net.Base.Unicode.{Unicode, trim_space}
use agents_net.Ingress.{Pinned, pinned_loop, parse_pinned_ports}

-- A field that reads as the port, spaces around it aside.
abbrev pub Listed : Unicode → ℕ → List Bytes → Type 0
Listed u port [] = ⊥
Listed u port (field ∷ fields) =
    (parse_uint 65535 (trim_space u field) ≡ some port) ⊎ Listed u port fields

pinned_loop-Listed :
    (u : Unicode) (before pinned : Pinned) (fields : List Bytes) (port : ℕ)
    → pinned_loop u before fields ≡ some pinned
    → pinned port ≡ true
    → (before port ≡ true) ⊎ ((1 ≤ port) × Listed u port fields)
unfolding pinned_loop
pinned_loop-Listed u before pinned [] port q h = inl (ground (arith, q, h))
pinned_loop-Listed u before pinned (field ∷ fields) port q h =
    elim (Option-cases (parse_uint 65535 (trim_space u field))) [
      | inl e ↦ let q' = rw (e, pinned_loop) at q in cc
      | inr (zero, e) ↦ let q' = rw (e, pinned_loop) at q in cc
      | inr (suc n, e) ↦
          elim (pinned_loop-Listed u (λ p. if p == suc n then true else before p) pinned fields port
            (rw (e, pinned_loop) at q) h) [
              | inr (k, l) ↦ inr (k, inr l)
              | inl k ↦ elim (Bool-cases (port == suc n)) [
                | inl same ↦
                    let at_port : port ≡ suc n = ground arith in
                    inr (omega (arith, at_port), inl (rw at_port e))
                | inr other ↦ inl (rw other at k)
              ]
            ]
    ]

-- What was pinned or is listed is still so behind the first field.
add_first :
    (u : Unicode) (before : Pinned) (field : Bytes) (fields : List Bytes) (port n : ℕ)
    → parse_uint 65535 (trim_space u field) ≡ some n
    → (before port ≡ true) ⊎ Listed u port (field ∷ fields)
    → ((if port == n then true else before port) ≡ true) ⊎ Listed u port fields
add_first u before field fields port n e (inl h) = inl (ground (arith, h))
add_first u before field fields port n e (inr (inl h)) =
    let same : n ≡ port = cc in inl (ground (arith, same))
add_first u before field fields port n e (inr (inr h)) = inr h

pinned_loop-kept :
    (u : Unicode) (before pinned : Pinned) (fields : List Bytes) (port : ℕ)
    → pinned_loop u before fields ≡ some pinned
    → (before port ≡ true) ⊎ Listed u port fields
    → pinned port ≡ true
unfolding pinned_loop
pinned_loop-kept u before pinned [] port q (inl h) = ground (arith, q, h)
pinned_loop-kept u before pinned [] port q (inr h) = elim h [ ]
pinned_loop-kept u before pinned (field ∷ fields) port q h =
    elim (Option-cases (parse_uint 65535 (trim_space u field))) [
      | inl e ↦ let q' = rw (e, pinned_loop) at q in cc
      | inr (zero, e) ↦ let q' = rw (e, pinned_loop) at q in cc
      | inr (suc n, e) ↦
          pinned_loop-kept u (λ p. if p == suc n then true else before p) pinned fields port
            (rw (e, pinned_loop) at q) (add_first u before field fields port (suc n) e h)
    ]

Listed-bound : (u : Unicode) (port : ℕ) (fields : List Bytes) → Listed u port fields → port ≤ 65535
Listed-bound u port [] h = elim h [ ]
Listed-bound u port (field ∷ fields) (inl h) = parse_uint-le 65535 (trim_space u field) port h
Listed-bound u port (field ∷ fields) (inr h) = Listed-bound u port fields h

-- When a value that is not empty is accepted, the pinned ports are those that its fields name;
-- each is from 1 to 65535.
pub parse_pinned_ports-Listed :
    (u : Unicode) (c : ℕ) (value : Bytes) (pinned : Pinned) (port : ℕ)
    → parse_pinned_ports u (c ∷ value) ≡ some pinned
    → (pinned port ≡ true) ↔ ((1 ≤ port) × (port ≤ 65535) × Listed u port (split b',' (c ∷ value)))
unfolding parse_pinned_ports
parse_pinned_ports-Listed u c value pinned port q = (
  λ h. elim (pinned_loop-Listed u (λ p. false) pinned (split b',' (c ∷ value)) port q h) [
    | inl e ↦ cc
    | inr (positive, l) ↦ (positive, Listed-bound u port (split b',' (c ∷ value)) l, l)
  ],
  λ (positive, bound, l).
      pinned_loop-kept u (λ p. false) pinned (split b',' (c ∷ value)) port q (inr l),
)
