-- ===== src/Client/Template.antt =====
-- What masqueTarget of sdk/cmd/connect-proxy/main.go makes of the path of udpProxyURL.
use mathlib.Core.List.{append_assoc, reverse, reverse-append, reverse-cons, reverse-reverse}
use agents_net.Base.{
  ℕ, zero, suc, ◌+◌, ◌/◌, ◌%◌, ◌≡◌, ap, ◌∙◌, inl, inr, refl, arith, true, false, Bool-cases, none,
  some, [], ◌∷◌, ◌++◌, All, All-right, ltb, ◌==◌, if◌then◌else◌,
}
use agents_net.Base.Decimal.{itoa, digits_of, is_digit, itoa-is_digit}
use agents_net.Base.Bytes.{
  Bytes, codes, Lacks, bytes_eq, split, trim, trim_left, split_at_sep, split-Lacks,
}
use agents_net.Policy.Names.{is_empty}
use agents_net.Boundary.Front.{plain, unescape, from_segments, masque_target}
use agents_net.Client.{masque_path}
use agents_net.Client.Path.{digits-Lacks}

digits_of_snoc : (f n : ℕ) → (s : Bytes) × (d : ℕ) × (digits_of f n ≡ s ++ d ∷ [])
unfolding digits_of
digits_of_snoc zero n = ([], 48 + n % 10, refl)
digits_of_snoc (suc f) n = elim (Bool-cases (ltb n 10)) [
  | inl e ↦ ([], 48 + n, rw e refl)
  | inr e ↦ (digits_of f (n / 10), 48 + n % 10, rw e refl)
]

-- Of a text that ends with a slash, only the slash is trimmed.
trim_end :
    (d : ℕ) (s : Bytes)
    → (d == b'/') ≡ false
    → reverse (trim_left (λ x. x == b'/') (reverse (s ++ d ∷ b'/' ∷ []))) ≡ s ++ d ∷ []
unfolding trim_left
trim_end d s h =
    rw (reverse-append s (d ∷ b'/' ∷ []), h)
      (reverse-cons d (reverse s) ∙ ap (λ t. t ++ d ∷ []) (reverse-reverse s))

-- The path without its first slash.
abbrev inside : Bytes → Bytes → Bytes
inside host port = codes ".well-known/masque/udp/" ++ (host ++ (b'/' ∷ port))

itoa_snoc : (n : ℕ) → (s : Bytes) × (d : ℕ) × (itoa n ≡ s ++ d ∷ []) × ((d == b'/') ≡ false)
unfolding itoa
itoa_snoc n =
    let (s, d, e) = digits_of_snoc n n in
    let digits : All (λ c. is_digit c ≡ true) (s ++ d ∷ []) = rw e at (itoa-is_digit n) in
    (s, d, e, ground (arith, (All-right (λ c. is_digit c ≡ true) s (d ∷ []) digits).0))

trimmed :
    (host : Bytes) (port : ℕ)
    → trim (λ c. c == b'/') (masque_path host port) ≡ inside host (itoa port)
unfolding trim trim_left
trimmed host port =
    let (s, d, e, h) = itoa_snoc port in
    let ended : inside host (itoa port ++ b'/' ∷ []) ≡ inside host s ++ d ∷ b'/' ∷ [] =
      rw e (simp append_assoc) in
    let joined : inside host s ++ d ∷ [] ≡ inside host (itoa port) = rw e (simp append_assoc) in
    ap (λ t. reverse (trim_left (λ c. c == b'/') (reverse t))) ended
    ∙ trim_end d (inside host s) h
    ∙ joined

segments :
    (host : Bytes) (port : ℕ)
    → Lacks b'/' host
    → split b'/' (inside host (itoa port))
      ≡ codes ".well-known" ∷ codes "masque" ∷ codes "udp" ∷ host ∷ itoa port ∷ []
unfolding split
segments host port h =
    ap (λ l. codes ".well-known" ∷ codes "masque" ∷ codes "udp" ∷ l)
      (split_at_sep b'/' host (itoa port) h
        ∙ ap (λ l. host ∷ l) (split-Lacks b'/' (itoa port) (digits-Lacks b'/' port refl)))

-- The boundary reads the path of a client's URL back, for a host without a slash: the port as it
-- was, and the host decoded once more than the URL is, unless that fails or leaves nothing.
pub masque_target-masque_path :
    (host : Bytes) (port : ℕ)
    → Lacks b'/' host
    → masque_target (masque_path host port) ≡ elim (unescape plain host) [
      | none ↦ none
      | some name ↦ if is_empty name then none else some (name, itoa port)
    ]
unfolding masque_target bytes_eq
masque_target-masque_path host port h =
    ap (λ t. from_segments (split b'/' t)) (trimmed host port)
    ∙ ap from_segments (segments host port h)
