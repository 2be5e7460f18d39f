-- ===== src/Ingress/Lines.antt =====
-- The lines of a head, as ingressTarget of sdk/cmd/tun2connect/run.go reads them.
use mathlib.Core.List.{append_assoc}
use agents_net.Base.{
  ℕ, zero, suc, ◌<◌, ◌≡◌, ◌≢◌, false, inl, inr, refl, sym, ap, ◌∙◌, arith, true, Bool-cases, Option,
  Option-cases, none, some, [], ◌∷◌, ◌++◌, length, length-append,
}
use agents_net.Base.Bytes.{Bytes, codes, cut, cut_sound, Lacks, trim_suffix}
use agents_net.Base.Unicode.{Unicode}
use agents_net.Policy.Names.{is_empty}
use agents_net.Ingress.{Hosts, read_line, read_field, read_fields}

-- A line that was read starts the text, up to its first newline, and is cut at a return.
pub read_line_sound :
    (s line rest : Bytes)
    → read_line s ≡ some (line, rest)
    → (raw : Bytes) × (s ≡ raw ++ b'\n' ∷ rest)
      × Lacks b'\n' raw
      × (line ≡ trim_suffix raw (codes "\r"))
unfolding read_line
read_line_sound s line rest h = elim (Option-cases (cut b'\n' s)) [
  | inl e ↦ cc
  | inr ((raw, rest'), e) ↦
      let (apart, lacks) = cut_sound b'\n' s raw rest' e in
      let q = rw (e, read_line) at h in
      let same : rest' ≡ rest = cc in
      let cut_line : line ≡ trim_suffix raw (codes "\r") = cc in
      (raw, apart ∙ ap (λ x. raw ++ b'\n' ∷ x) same, lacks, cut_line)
]

read_line-length : (s line rest : Bytes) → read_line s ≡ some (line, rest) → length rest < length s
read_line-length s line rest h =
    let (raw, e, lacks, cut_line) = read_line_sound s line rest h in
    rw e (omega (arith, length-append raw (b'\n' ∷ rest)))

-- Fuel above the length is enough.
pub read_fields_enough :
    (u : Unicode) (fuel : ℕ) (h : Hosts) (s : Bytes)
    → length s < fuel
    → (r : Option (Hosts × Bytes)) × (read_fields u fuel h s ≡ some r)
unfolding read_fields
read_fields_enough u zero h s b = let impossible : ⊥ = omega arith in elim impossible [ ]
read_fields_enough u (suc fuel) h s b = elim (Option-cases (read_line s)) [
  | inl e ↦ (none, rw (e, read_fields) refl)
  | inr ((line, rest), e) ↦ elim (Bool-cases (is_empty line)) [
    | inl f ↦ (some (h, rest), rw (e, f, read_fields) refl)
    | inr f ↦ elim (Option-cases (read_field u h line)) [
      | inl g ↦ (none, rw (e, f, g, read_fields) refl)
      | inr (h', g) ↦
          let (r, q) =
            read_fields_enough u fuel h' rest (omega (arith, read_line-length s line rest e)) in
          (r, rw (e, f, g, read_fields) q)
    ]
  ]
]

-- Lines up to and with the first that is blank, but for a return: the header and its end.
pub data IsFields : Bytes → Type 0 where
  blank :
      (raw : Bytes)
      → Lacks b'\n' raw
      → trim_suffix raw (codes "\r") ≡ []
      → IsFields (raw ++ b'\n' ∷ [])
  field :
      (raw front : Bytes)
      → Lacks b'\n' raw
      → trim_suffix raw (codes "\r") ≢ []
      → IsFields front
      → IsFields (raw ++ b'\n' ∷ front)

-- A line, and the lines of a header.
pub data IsHead : Bytes → Type 0 where
  head : (raw front : Bytes) → Lacks b'\n' raw → IsFields front → IsHead (raw ++ b'\n' ∷ front)

is_empty_sound : (s : Bytes) → is_empty s ≡ true → s ≡ []
is_empty_sound [] h = refl
is_empty_sound (c ∷ s) h = absurd (ground (arith, h))

is_empty_complete : (s : Bytes) → is_empty s ≡ false → s ≢ []
is_empty_complete [] h q = cc
is_empty_complete (c ∷ s) h q = cc

-- What is left behind the header is the end of the text.
pub read_fields_rest :
    (u : Unicode) (fuel : ℕ) (h h' : Hosts) (s rest : Bytes)
    → read_fields u fuel h s ≡ some (some (h', rest))
    → (front : Bytes) × (s ≡ front ++ rest) × IsFields front
unfolding read_fields
read_fields_rest u zero h h' s rest q = cc
read_fields_rest u (suc fuel) h h' s rest q = elim (Option-cases (read_line s)) [
  | inl e ↦ let q' = rw (e, read_fields) at q in cc
  | inr ((line, t), e) ↦
      let (raw, apart, lacks, cut_line) = read_line_sound s line t e in
      elim (Bool-cases (is_empty line)) [
        | inl f ↦
            let q' = rw (e, f, read_fields) at q in
            let same : t ≡ rest = cc in
            (
              raw ++ b'\n' ∷ [],
              apart ∙ ap (λ x. raw ++ b'\n' ∷ x) same ∙ sym (append_assoc raw (b'\n' ∷ []) rest),
              blank raw lacks (sym cut_line ∙ is_empty_sound line f),
            )
        | inr f ↦ elim (Option-cases (read_field u h line)) [
          | inl g ↦ let q' = rw (e, f, g, read_fields) at q in cc
          | inr (h₁, g) ↦
              let (front, apart', fields) =
                read_fields_rest u fuel h₁ h' t rest (rw (e, f, g, read_fields) at q) in
              (
                raw ++ b'\n' ∷ front,
                apart
                    ∙ ap (λ x. raw ++ b'\n' ∷ x) apart'
                    ∙ sym (append_assoc raw (b'\n' ∷ front) rest),
                field raw front lacks (λ bare. is_empty_complete line f (cut_line ∙ bare)) fields,
              )
        ]
      ]
]
