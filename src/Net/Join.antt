-- ===== src/Net/Join.antt =====
-- net.SplitHostPort on what net.JoinHostPort joined.
use agents_net.Base.{
  ℕ, ◌≡◌, ◌≢◌, refl, ◌∙◌, inl, inr, arith, true, false, Bool-cases, none, some, [], ◌∷◌, ◌++◌,
  All-append, ◌==◌,
}
use agents_net.Base.Bytes.{Bytes, Lacks, Lacks-contains_byte, contains_byte, cut, cut_at_sep}
use agents_net.Net.{join_host_port, cut_last, split_bracketed, split_host_port}

contains_byte-Lacks : (c : ℕ) (s : Bytes) → Lacks c s → contains_byte c s ≡ false
contains_byte-Lacks c [] h = refl
contains_byte-Lacks c (x ∷ s) (hx, hs) = ground (arith, hx, contains_byte-Lacks c s hs)

cut_last-Lacks : (sep : ℕ) (t : Bytes) → Lacks sep t → cut_last sep t ≡ none
unfolding cut_last
cut_last-Lacks sep [] h = refl
cut_last-Lacks sep (c ∷ t) (hc, ht) =
    let other : (c == sep) ≡ false = ground (arith, hc) in
    rw (cut_last-Lacks sep t ht, other, cut_last) refl

cut_last_at_sep : (sep : ℕ) (s t : Bytes) → Lacks sep t → cut_last sep (s ++ sep ∷ t) ≡ some (s, t)
unfolding cut_last
cut_last_at_sep sep [] t h =
    let same : (sep == sep) ≡ true = ground arith in
    rw (cut_last-Lacks sep t h, same, cut_last) refl
cut_last_at_sep sep (c ∷ s) t h = rw (cut_last_at_sep sep s t h, cut_last) refl

-- A byte that a host or a port never has.
abbrev pub IsUnbracketed : Bytes → Type 0
IsUnbracketed s = Lacks b'[' s × Lacks b']' s

split_bracketed-join :
    (host port : Bytes)
    → IsUnbracketed host
    → IsUnbracketed port
    → Lacks b':' port
    → split_bracketed (host ++ (b']' ∷ b':' ∷ port)) ≡ some (host, port)
unfolding split_bracketed cut
split_bracketed-join host port (open_host, close_host) (open_port, close_port) colons =
    rw
      (
        cut_at_sep b']' host (b':' ∷ port) close_host,
        contains_byte-Lacks b'[' host open_host,
        contains_byte-Lacks b':' port colons,
        contains_byte-Lacks b'[' port open_port,
        contains_byte-Lacks b']' port close_port,
        split_bracketed,
      )
      refl

split_open : (s : Bytes) → split_host_port (b'[' ∷ s) ≡ split_bracketed s
unfolding split_host_port
split_open s = refl

split_plain-join :
    (host port : Bytes)
    → Lacks b':' host
    → IsUnbracketed host
    → IsUnbracketed port
    → Lacks b':' port
    → split_host_port (host ++ (b':' ∷ port)) ≡ some (host, port)
unfolding split_host_port
split_plain-join [] port h (open_host, close_host) (open_port, close_port) colons =
    rw
      (
        cut_last-Lacks b':' port colons,
        contains_byte-Lacks b'[' port open_port,
        contains_byte-Lacks b']' port close_port,
        split_host_port,
      )
      refl
split_plain-join (c ∷ host) port (hc, h) ((open_c, open_host), (close_c, close_host))
      (open_port, close_port) colons =
    let not_open : (c == b'[') ≡ false = ground (arith, open_c) in
    let not_close : (c == b']') ≡ false = ground (arith, close_c) in
    let not_colon : (c == b':') ≡ false = ground (arith, hc) in
    let opens =
      contains_byte-Lacks b'[' (host ++ (b':' ∷ port))
        (All-append (λ x. x ≢ b'[') host (b':' ∷ port) open_host (ground arith, open_port)) in
    let closes =
      contains_byte-Lacks b']' (host ++ (b':' ∷ port))
        (All-append (λ x. x ≢ b']') host (b':' ∷ port) close_host (ground arith, close_port)) in
    rw
      (
        not_open,
        cut_last_at_sep b':' host port colons,
        not_colon,
        contains_byte-Lacks b':' host h,
        not_close,
        opens,
        closes,
        split_host_port,
      )
      (rw not_open refl)

-- SplitHostPort takes apart what JoinHostPort joined, when neither part has a bracket and the
-- port no colon.
pub split_host_port-join_host_port :
    (host port : Bytes)
    → IsUnbracketed host
    → IsUnbracketed port
    → Lacks b':' port
    → split_host_port (join_host_port host port) ≡ some (host, port)
unfolding join_host_port
split_host_port-join_host_port host port hh hp colons =
    elim (Bool-cases (contains_byte b':' host)) [
      | inr e ↦
          rw (e, join_host_port)
            (split_plain-join host port (Lacks-contains_byte b':' host e) hh hp colons)
      | inl e ↦
          rw (e, join_host_port)
            (split_open (host ++ (b']' ∷ b':' ∷ port))
              ∙ split_bracketed-join host port hh hp colons)
    ]
