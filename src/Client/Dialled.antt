-- ===== src/Client/Dialled.antt =====
-- roundTrip, readFinalResponse and the end of DialTCP and DialUDP, on every connection.
use agents_net.Base.{
  ap, ◌∙◌, ℕ, zero, suc, ◌≡◌, ◌≤◌, ◌⊎◌, inl, inr, refl, Bool, true, false, Bool-cases, List, ◌++◌,
  leb, if◌then◌else◌, arith,
}
use agents_net.Base.Bytes.{Bytes}
use agents_net.Base.Result.{Result, ok, err, Result-cases}
use agents_net.Base.Unicode.{Unicode}
use agents_net.Client.{
  Request, Response, Transport, ClientError, transport, too_many_interim, refused,
  max_interim_responses, is_final, final_response, Opened, unopened, kept, closed, round_trip,
  refusal, tcp_request, udp_request, finish, is_success, is_switch, dial_tcp, dial_udp,
}

-- The connection answers with so many interim responses and then the final one.
pub data Yields {E C : Type 0} (t : Transport E C) : C → ℕ → Response → C → Type 0 where
  final :
      {c c' : C} {r : Response} → t.read c ≡ ok (r, c') → is_final r.code ≡ true → Yields t c 0 r c'
  interim :
      {c c' c'' : C} {n : ℕ} {r r' : Response}
      → t.read c ≡ ok (r, c')
      → is_final r.code ≡ false
      → Yields t c' n r' c''
      → Yields t c (suc n) r' c''

-- What final_response may answer when it may still skip `left` responses.
abbrev pub IsFinal :
    {E C : Type 0} → Transport E C → C → ℕ → Result (ClientError E) (Response × C) → Type 0
IsFinal t c left (ok (r, c')) = (n : ℕ) × (n ≤ left) × Yields t c n r c'
IsFinal {E} t c left (err e) = (e ≡ too_many_interim) ⊎ ((e' : E) × (e ≡ transport e'))

more_left :
    {E C : Type 0} (t : Transport E C) (c c' : C) (r : Response) (left : ℕ)
    (x : Result (ClientError E) (Response × C))
    → t.read c ≡ ok (r, c')
    → is_final r.code ≡ false
    → IsFinal t c' left x
    → IsFinal t c (suc left) x
more_left t c c' r left (ok (r', c'')) e f (n, h, y) = (suc n, omega arith, interim e f y)
more_left t c c' r left (err x) e f h = h

pub final_response-IsFinal :
    {E C : Type 0} (t : Transport E C) (left : ℕ) (c : C)
    → IsFinal t c left (final_response t left c)
unfolding final_response
final_response-IsFinal t zero c = elim (Result-cases (t.read c)) [
  | inl ((r, c'), e) ↦ elim (Bool-cases (is_final r.code)) [
    | inl f ↦ rw (e, f, final_response) (0, omega arith, final e f)
    | inr f ↦ rw (e, f, final_response) (inl refl)
  ]
  | inr (x, e) ↦ rw (e, final_response) (inr (x, refl))
]
final_response-IsFinal t (suc left) c = elim (Result-cases (t.read c)) [
  | inl ((r, c'), e) ↦ elim (Bool-cases (is_final r.code)) [
    | inl f ↦ rw (e, f, final_response) (0, omega arith, final e f)
    | inr f ↦
        rw (e, f, final_response)
          (more_left t c c' r left (final_response t left c') e f
            (final_response-IsFinal t left c'))
  ]
  | inr (x, e) ↦ rw (e, final_response) (inr (x, refl))
]

-- A connection with at most `left` interim responses in front of the final one has it found.
pub final_response-Yields :
    {E C : Type 0} (t : Transport E C) (left n : ℕ) (c c' : C) (r : Response)
    → Yields t c n r c'
    → final_response t left c ≡ (if leb n left then ok (r, c') else err too_many_interim)
unfolding final_response
final_response-Yields t zero _ c c' r (final e f) = rw (e, f, final_response) refl
final_response-Yields t (suc left) _ c c' r (final e f) =
    let within : leb 0 (suc left) ≡ true = ground arith in rw (e, f, within, final_response) refl
final_response-Yields t zero (suc n) c c' r (interim e f y) =
    let beyond : leb (suc n) 0 ≡ false = ground arith in rw (e, f, beyond, final_response) refl
final_response-Yields t (suc left) (suc n) c c' r (interim {c' = d} e f y) =
    let same : leb n left ≡ leb (suc n) (suc left) = ground arith in
    rw (e, f, final_response)
      (final_response-Yields t left n d c' r y
        ∙ ap (λ within. if within then ok (r, c') else err too_many_interim) same)

-- What was sent and what came back: the final response behind at most eight others.
abbrev pub Answered : {E C : Type 0} → Transport E C → Request → Response → C → Type 0
Answered {C = C} t req r c' =
    (c₀ c₁ : C) × (n : ℕ) × (t.dial ≡ ok c₀)
    × (t.write req c₀ ≡ ok c₁)
    × (n ≤ max_interim_responses)
    × Yields t c₁ n r c'

abbrev pub IsAnswered :
    {E C : Type 0}
    → Transport E C
    → Request
    → Opened × Result (ClientError E) (Response × C)
    → Type 0
IsAnswered t req (o, ok (r, c')) = (o ≡ kept) × Answered t req r c'
IsAnswered t req (o, err (transport e)) = (o ≡ unopened) ⊎ (o ≡ closed)
IsAnswered t req (o, err too_many_interim) = o ≡ closed
IsAnswered t req (o, err (refused f)) = ⊥

abbrev pub with_header : List (Bytes × Bytes) → Request → Request
with_header header req = record req { header = req.header ++ header }

IsAnswered-final :
    {E C : Type 0} (t : Transport E C) (req : Request) (c₀ c₁ : C)
    (x : Result (ClientError E) (Response × C))
    → t.dial ≡ ok c₀
    → t.write req c₀ ≡ ok c₁
    → IsFinal t c₁ max_interim_responses x
    → IsAnswered t req (elim x [ err e ↦ (closed, err e) | ok found ↦ (kept, ok found) ])
IsAnswered-final t req c₀ c₁ (ok (r, c')) d w (n, h, y) = (refl, (c₀, c₁, n, d, w, h, y))
IsAnswered-final t req c₀ c₁ (err (transport e)) d w h = inr refl
IsAnswered-final t req c₀ c₁ (err too_many_interim) d w h = refl
IsAnswered-final t req c₀ c₁ (err (refused f)) d w (inl h) = cc
IsAnswered-final t req c₀ c₁ (err (refused f)) d w (inr (e, h)) = cc

round_trip-opened :
    {E C : Type 0} (t : Transport E C) (header : List (Bytes × Bytes)) (req : Request) (c₀ c₁ : C)
    → t.dial ≡ ok c₀
    → t.write (with_header header req) c₀ ≡ ok c₁
    → round_trip t header req ≡ elim (final_response t max_interim_responses c₁) [
      | err e ↦ (closed, err e)
      | ok found ↦ (kept, ok found)
    ]
unfolding round_trip
round_trip-opened t header req c₀ c₁ d w = simp (d, w, round_trip)

round_trip-unopened :
    {E C : Type 0} (t : Transport E C) (header : List (Bytes × Bytes)) (req : Request) (e : E)
    → t.dial ≡ err e
    → round_trip t header req ≡ (unopened, err (transport e))
unfolding round_trip
round_trip-unopened t header req e d = simp (d, round_trip)

round_trip-unwritten :
    {E C : Type 0} (t : Transport E C) (header : List (Bytes × Bytes)) (req : Request) (c₀ : C)
    (e : E)
    → t.dial ≡ ok c₀
    → t.write (with_header header req) c₀ ≡ err e
    → round_trip t header req ≡ (closed, err (transport e))
unfolding round_trip
round_trip-unwritten t header req c₀ e d w = simp (d, w, round_trip)

round_trip-IsAnswered :
    {E C : Type 0} (t : Transport E C) (header : List (Bytes × Bytes)) (req : Request)
    → IsAnswered t (with_header header req) (round_trip t header req)
round_trip-IsAnswered t header req = elim (Result-cases t.dial) [
  | inr (e, d) ↦ rw (round_trip-unopened t header req e d) (inl refl)
  | inl (c₀, d) ↦ elim (Result-cases (t.write (with_header header req) c₀)) [
    | inr (e, w) ↦ rw (round_trip-unwritten t header req c₀ e d w) (inr refl)
    | inl (c₁, w) ↦ rw (round_trip-opened t header req c₀ c₁ d w) (
        IsAnswered-final t (with_header header req) c₀ c₁
          (final_response t max_interim_responses c₁) d w
          (final_response-IsFinal t max_interim_responses c₁))
  ]
]

-- How a dial may end.
abbrev pub IsDialled :
    {E C : Type 0}
    → Unicode
    → Transport E C
    → (Response → Bool)
    → Request
    → Opened × Result (ClientError E) C
    → Type 0
IsDialled u t opens req (o, ok c) =
    (r : Response) × (o ≡ kept) × Answered t req r c × (opens r ≡ true)
IsDialled u t opens req (o, err (transport e)) = (o ≡ unopened) ⊎ (o ≡ closed)
IsDialled u t opens req (o, err too_many_interim) = o ≡ closed
IsDialled {E} {C} u t opens req (o, err (refused f)) =
    (r : Response) × (c : C) × (o ≡ closed)
    × Answered t req r c
    × (opens r ≡ false)
    × (◌≡◌ {A = ClientError E} (refused f) (refusal u r))

finish-IsDialled :
    {E C : Type 0} (u : Unicode) (t : Transport E C) (opens : Response → Bool) (req : Request)
    (x : Opened × Result (ClientError E) (Response × C))
    → IsAnswered t req x
    → IsDialled u t opens req (finish u opens x)
unfolding finish
finish-IsDialled u t opens req (o, err (transport e)) h = h
finish-IsDialled u t opens req (o, err too_many_interim) h = h
finish-IsDialled u t opens req (o, err (refused f)) h = elim h [ ]
finish-IsDialled u t opens req (o, ok (r, c)) (k, a) = elim (Bool-cases (opens r)) [
  | inl e ↦ rw e (r, k, a, e)
  | inr e ↦ rw e (r, c, refl, a, e, refl)
]

-- Both dials keep the connection exactly with a tunnel, whose final response, behind at most
-- eight interim ones, is a success (for UDP: the switch to connect-udp). Otherwise no connection
-- stays open; a refusal carries code, status and reason of a final response that opens nothing.
pub dial_tcp-IsDialled :
    {E C : Type 0} (u : Unicode) (t : Transport E C) (header : List (Bytes × Bytes))
    (authority name : Bytes) (port : ℕ)
    → IsDialled u t is_success
        (with_header header (tcp_request name port))
        (dial_tcp u t header name port)
      × IsDialled u t is_switch
          (with_header header (udp_request authority name port))
          (dial_udp u t header authority name port)
unfolding dial_tcp dial_udp
dial_tcp-IsDialled u t header authority name port =
    let tcp = tcp_request name port in
    let udp = udp_request authority name port in
    (
      finish-IsDialled u t is_success (with_header header tcp) (round_trip t header tcp)
          (round_trip-IsAnswered t header tcp),
      finish-IsDialled u t is_switch (with_header header udp) (round_trip t header udp)
          (round_trip-IsAnswered t header udp),
    )
