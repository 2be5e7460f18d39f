-- ===== src/Ingress/Served.antt =====
-- The handler of serveIngress in sdk/cmd/tun2connect/run.go: it ends, and what it answers.
use mathlib.Core.List.{append_assoc}
use agents_net.Base.{
  ◌+◌, ◌≡◌, ◌⊎◌, inl, inr, refl, sym, ap, ◌∙◌, arith, Bool, true, not, ◌&&◌, ◌||◌, Bool-cases,
  Option, Option-cases, none, some, List, [], ◌∷◌, ◌++◌, length, take, drop,
}
use agents_net.Base.Bytes.{Bytes, codes, split, bytes_eq, has_prefix, take-append-drop}
use agents_net.Base.Result.{Result, ok, err, Result-cases}
use agents_net.Base.Unicode.{Unicode}
use agents_net.Policy.Names.{is_empty}
use agents_net.Client.Field.{proxy_status}
use agents_net.Ingress.{
  Pinned, Refusal, read_line, check_target, check_head, ingress_target, max_ingress_head, Reply,
  refused, joined, reply_to, serve_ingress,
}
use agents_net.Ingress.Lines.{read_fields_enough, IsHead}
use agents_net.Ingress.Target.{Joinable, ingress_target-IsThrough}

abbrev malformed_line : Result Refusal (Bytes × Bytes)
malformed_line = err (400, codes "malformed-request-line")

check_head_total :
    (u : Unicode) (pinned : Pinned) (fields : List Bytes) (rest : Bytes)
    → (r : Result Refusal (Bytes × Bytes)) × (check_head u pinned fields rest ≡ some r)
unfolding check_head
check_head_total u pinned [] rest = (malformed_line, refl)
check_head_total u pinned (a ∷ []) rest = (malformed_line, refl)
check_head_total u pinned (a ∷ b ∷ []) rest = (malformed_line, refl)
check_head_total u pinned (a ∷ b ∷ c ∷ d ∷ l) rest = (malformed_line, refl)
check_head_total u pinned (a ∷ b ∷ c ∷ []) rest =
    let (r, e) =
      read_fields_enough u (length rest + 1) (record { count = 0; last = [] }) rest (omega arith) in
    elim (Bool-cases (is_empty a || is_empty b)) [
      | inl f ↦ (malformed_line, rw (f, check_head) refl)
      | inr f ↦
          elim (Bool-cases
            (not (bytes_eq c (codes "HTTP/1.1")) && not (bytes_eq c (codes "HTTP/1.0")))) [
              | inl g ↦ elim (Bool-cases (has_prefix c (codes "HTTP/"))) [
                | inl h ↦ (err (505, codes "unsupported-version"), rw (f, g, h, check_head) refl)
                | inr h ↦ (malformed_line, rw (f, g, h, check_head) refl)
              ]
              | inr g ↦ elim (Option-cases r) [
                | inl h ↦ (err (400, codes "malformed-header"), rw (f, g, e, h, check_head) refl)
                | inr ((hosts, t), h) ↦ elim (Result-cases (check_target pinned a b c hosts)) [
                  | inl (x, k) ↦ (ok (x, t), rw (f, g, e, h, k, check_head) refl)
                  | inr (x, k) ↦ (err x, rw (f, g, e, h, k, check_head) refl)
                ]
              ]
            ]
    ]

ingress_target_total :
    (u : Unicode) (pinned : Pinned) (s : Bytes)
    → (r : Result Refusal (Bytes × Bytes)) × (ingress_target u pinned s ≡ some r)
unfolding ingress_target
ingress_target_total u pinned s = elim (Option-cases (read_line s)) [
  | inl e ↦ (malformed_line, rw (e, ingress_target) refl)
  | inr ((line, rest), e) ↦
      let (r, h) = check_head_total u pinned (split b' ' line) rest in (r, rw (e, ingress_target) h)
]

-- What a stream may be answered with.
abbrev pub IsServed : Unicode → (Bytes → Bool) → Pinned → Bytes → Option Reply → Type 0
IsServed u dial pinned s none = ⊥
IsServed u dial pinned s (some (joined target rest)) =
    Joinable pinned target
    × (dial target ≡ true)
    × ((front : Bytes) × (s ≡ front ++ rest) × IsHead front)
IsServed u dial pinned s (some (refused status field)) =
    (reason : Bytes) × (field ≡ proxy_status (codes "ingress") reason)
    × ((ingress_target u pinned (take max_ingress_head s) ≡ some (err (status, reason)))
        ⊎ ((status ≡ 502) × (reason ≡ codes "dial-failed")))

reply_to-IsServed :
    (u : Unicode) (dial : Bytes → Bool) (pinned : Pinned) (s : Bytes)
    (answer : Result Refusal (Bytes × Bytes))
    → ingress_target u pinned (take max_ingress_head s) ≡ some answer
    → IsServed u dial pinned s (some (reply_to dial (drop max_ingress_head s) answer))
unfolding reply_to
reply_to-IsServed u dial pinned s (err (status, reason)) q = (reason, refl, inl q)
reply_to-IsServed u dial pinned s (ok (target, tunnel)) q = elim (Bool-cases (dial target)) [
  | inr e ↦ rw e (codes "dial-failed", refl, inr (refl, refl))
  | inl e ↦
      let (joinable, (front, apart, is)) =
        ingress_target-IsThrough u pinned (take max_ingress_head s) target tunnel q in
      let whole : s ≡ front ++ (tunnel ++ drop max_ingress_head s) =
        sym (take-append-drop max_ingress_head s)
        ∙ ap (λ x. x ++ drop max_ingress_head s) apart
        ∙ append_assoc front tunnel (drop max_ingress_head s) in
      rw e (joinable, e, (front, whole, is))
]

-- Every ingress stream is answered. It is joined only to a loopback address on a pinned port
-- that takes the connection, with all that was sent behind the head, which is a line and the
-- lines up to the first blank one; otherwise the Proxy-Status has the reason of ingressTarget, or
-- dial-failed with 502.
pub serve_ingress-IsServed :
    (u : Unicode) (dial : Bytes → Bool) (pinned : Pinned) (s : Bytes)
    → IsServed u dial pinned s (serve_ingress u dial pinned s)
unfolding serve_ingress
serve_ingress-IsServed u dial pinned s =
    let (answer, e) = ingress_target_total u pinned (take max_ingress_head s) in
    rw (e, serve_ingress) (reply_to-IsServed u dial pinned s answer e)
