-- ===== src/Ingress/Target.antt =====
-- ingressTarget of sdk/cmd/tun2connect/run.go: it ends, and what it lets through.
use mathlib.Core.List.{append_assoc}
use agents_net.Base.{
  ℕ, zero, suc, ◌+◌, ◌≤◌, ◌≡◌, ◌⊎◌, inl, inr, sym, ap, ◌∙◌, arith, true, not, ◌&&◌, ◌||◌,
  Bool-cases, Option-cases, none, some, List, [], ◌∷◌, ◌++◌, length, ltb, ◌==◌,
}
use agents_net.Base.Bytes.{Bytes, codes, bytes_eq, bytes_eq→eq, split, has_prefix}
use agents_net.Base.Decimal.{parse_uint}
use agents_net.Base.Result.{ok, Result-cases}
use agents_net.Base.Unicode.{Unicode}
use agents_net.Net.{split_host_port}
use agents_net.Policy.Names.{is_empty}
use agents_net.Ingress.{
  Pinned, Hosts, read_line, read_fields, is_loopback, check_port, check_target, check_head,
  ingress_target,
}
use agents_net.Ingress.Lines.{read_line_sound, IsFields, IsHead, head, read_fields_rest}

-- A target that the stream may be joined to: a loopback address on a pinned port.
abbrev pub Joinable : Pinned → Bytes → Type 0
Joinable pinned target =
    (addr port : Bytes) × (n : ℕ) × (split_host_port target ≡ some (addr, port))
    × ((addr ≡ codes "127.0.0.1") ⊎ (addr ≡ codes "::1"))
    × (parse_uint 65535 port ≡ some n)
    × (1 ≤ n)
    × (pinned n ≡ true)

check_port-ok :
    (pinned : Pinned) (target : Bytes) (h : Hosts) (port found : Bytes)
    → check_port pinned target h port ≡ ok found
    → (found ≡ target) × ((n : ℕ) × (parse_uint 65535 port ≡ some n) × (1 ≤ n) × (pinned n ≡ true))
unfolding check_port
check_port-ok pinned target h port found q = elim (Option-cases (parse_uint 65535 port)) [
  | inl e ↦ let q' = rw (e, check_port) at q in cc
  | inr (zero, e) ↦ let q' = rw (e, check_port) at q in cc
  | inr (suc n, e) ↦
      let q' = rw (e, check_port) at q in (ground arith, (suc n, e, omega arith, ground arith))
]

is_loopback_sound :
    (addr : Bytes) → is_loopback addr ≡ true → (addr ≡ codes "127.0.0.1") ⊎ (addr ≡ codes "::1")
is_loopback_sound addr h = elim (Bool-cases (bytes_eq addr (codes "127.0.0.1"))) [
  | inl e ↦ inl (bytes_eq→eq addr (codes "127.0.0.1") e)
  | inr e ↦ inr (bytes_eq→eq addr (codes "::1") (ground arith))
]

check_target-Joinable :
    (pinned : Pinned) (method target version : Bytes) (h : Hosts) (found : Bytes)
    → check_target pinned method target version h ≡ ok found
    → Joinable pinned found
unfolding check_target
check_target-Joinable pinned method target version h found q = elim (Bool-cases (ltb 1 h.count)) [
  | inl e ↦ let q' = rw (e, check_target) at q in cc
  | inr e ↦ elim (Bool-cases (not (bytes_eq method (codes "CONNECT")))) [
    | inl f ↦ let q' = rw (e, f, check_target) at q in cc
    | inr f ↦ elim (Bool-cases (bytes_eq version (codes "HTTP/1.1") && (h.count == 0))) [
      | inl g ↦ let q' = rw (e, f, g, check_target) at q in cc
      | inr g ↦ elim (Option-cases (split_host_port target)) [
        | inl k ↦ let q' = rw (e, f, g, k, check_target) at q in cc
        | inr ((addr, port), k) ↦ elim (Bool-cases (not (is_loopback addr))) [
          | inl l ↦ let q' = rw (e, f, g, k, l, check_target) at q in cc
          | inr l ↦
              let (same, (n, at_n, positive, there)) =
                check_port-ok pinned target h port found (rw (e, f, g, k, l, check_target) at q) in
              (
                addr,
                port,
                n,
                rw same k,
                is_loopback_sound addr (ground (arith, l)),
                at_n,
                positive,
                there,
              )
        ]
      ]
    ]
  ]
]

-- What is let through: the target, and what is left of the text behind a front of some shape.
abbrev pub IsThrough : (Bytes → Type 0) → Pinned → Bytes → Bytes → Bytes → Type 0
IsThrough IsFront pinned s target tunnel =
    Joinable pinned target × ((front : Bytes) × (s ≡ front ++ tunnel) × IsFront front)

check_head_line :
    (u : Unicode) (pinned : Pinned) (method target version rest found tunnel : Bytes)
    → check_head u pinned (method ∷ target ∷ version ∷ []) rest ≡ some (ok (found, tunnel))
    → IsThrough IsFields pinned rest found tunnel
unfolding check_head
check_head_line u pinned method target version rest found tunnel q =
    elim (Bool-cases (is_empty method || is_empty target)) [
      | inl e ↦ let q' = rw (e, check_head) at q in cc
      | inr e ↦
          elim (Bool-cases (
            not (bytes_eq version (codes "HTTP/1.1"))
            && not (bytes_eq version (codes "HTTP/1.0")))) [
              | inl f ↦ elim (Bool-cases (has_prefix version (codes "HTTP/"))) [
                | inl g ↦ let q' = rw (e, f, g, check_head) at q in cc
                | inr g ↦ let q' = rw (e, f, g, check_head) at q in cc
              ]
              | inr f ↦
                  elim (Option-cases
                    (read_fields u (length rest + 1) (record { count = 0; last = [] }) rest)) [
                      | inl g ↦ let q' = rw (e, f, g, check_head) at q in cc
                      | inr (none, g) ↦ let q' = rw (e, f, g, check_head) at q in cc
                      | inr (some (h, t), g) ↦
                          elim (Result-cases (check_target pinned method target version h)) [
                            | inr (x, k) ↦ let q' = rw (e, f, g, k, check_head) at q in cc
                            | inl (found', k) ↦
                                let q' = rw (e, f, g, k, check_head) at q in
                                let same : found' ≡ found = cc in
                                let left : t ≡ tunnel = cc in
                                let (front, apart, fields) =
                                  read_fields_rest u (length rest + 1) _ h rest t g in
                                (
                                  rw (← same) (
                                      check_target-Joinable pinned method target version h found'
                                        k),
                                  (front, apart ∙ ap (λ x. front ++ x) left, fields),
                                )
                          ]
                    ]
            ]
    ]

check_head-IsThrough :
    (u : Unicode) (pinned : Pinned) (fields : List Bytes) (rest found tunnel : Bytes)
    → check_head u pinned fields rest ≡ some (ok (found, tunnel))
    → IsThrough IsFields pinned rest found tunnel
unfolding check_head
check_head-IsThrough u pinned [] rest found tunnel q = cc
check_head-IsThrough u pinned (a ∷ []) rest found tunnel q = cc
check_head-IsThrough u pinned (a ∷ b ∷ []) rest found tunnel q = cc
check_head-IsThrough u pinned (a ∷ b ∷ c ∷ []) rest found tunnel q =
    check_head_line u pinned a b c rest found tunnel q
check_head-IsThrough u pinned (a ∷ b ∷ c ∷ d ∷ l) rest found tunnel q = cc

-- What ingressTarget lets through names a loopback address and a pinned port from 1 to 65535,
-- and what it leaves to the tunnel is what was sent behind the head, which ends with its first
-- blank line.
pub ingress_target-IsThrough :
    (u : Unicode) (pinned : Pinned) (s target tunnel : Bytes)
    → ingress_target u pinned s ≡ some (ok (target, tunnel))
    → IsThrough IsHead pinned s target tunnel
unfolding ingress_target
ingress_target-IsThrough u pinned s target tunnel q = elim (Option-cases (read_line s)) [
  | inl e ↦ let q' = rw (e, ingress_target) at q in cc
  | inr ((line, rest), e) ↦
      let (raw, apart, lacks, cut_line) = read_line_sound s line rest e in
      let (joinable, (front, apart', fields)) =
        check_head-IsThrough u pinned (split b' ' line) rest target tunnel
          (rw (e, ingress_target) at q) in
      (
        joinable,
        (
          raw ++ b'\n' ∷ front,
          apart ∙ ap (λ x. raw ++ b'\n' ∷ x) apart' ∙ sym (append_assoc raw (b'\n' ∷ front) tunnel),
          head raw front lacks fields,
        ),
      )
]
