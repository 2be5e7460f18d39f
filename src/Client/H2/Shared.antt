-- ===== src/Client/H2/Shared.antt =====
-- The shared session of sdk/pkg/tun2connect/connect_h2.go: what a dial leaves open.
use agents_net.Base.{ℕ, ◌≡◌, ◌≢◌, ◌⊎◌, inl, inr, refl, true, Bool-cases, Option, none, some, List}
use agents_net.Base.Bytes.{Bytes}
use agents_net.Base.Result.{Result, ok, err, Result-cases}
use agents_net.Base.Unicode.{Unicode}
use agents_net.Client.{Request, Response, Opened, unopened, kept, closed, is_success, tcp_request}
use agents_net.Client.Dialled.{with_header}
use agents_net.Client.H2.{
  TlsConfig, H2Transport, H2Error, transport, secure, fresh_session, session, Begun, not_begun,
  handed, cancelled, exchange, h2_round_trip, h2_udp_request, h2_dial_tcp, h2_dial_udp,
}

module _ {E C K S : Type 0} (t : H2Transport E C K S) (authority : Bytes)
    (cfg : Option TlsConfig) where
  -- The session is the one that was made on the connection that was dialled and secured.
  abbrev pub IsNew : Option K → Type 0
  IsNew cached' =
      (c : C) × (c' : C) × (k : K) × (t.dial ≡ ok c)
      × (secure t authority cfg c ≡ ok c')
      × (t.new_client_conn c' ≡ ok k)
      × (cached' ≡ some k)

  -- A connection that was dialled is the cached session's, or is not open and the cache is as
  -- before.
  abbrev pub IsCached : Option K → Option K → Opened → Type 0
  IsCached cached cached' o = ((o ≡ kept) × IsNew cached') ⊎ ((o ≢ kept) × (cached' ≡ cached))

  -- The session to use is the cached one.
  abbrev pub IsSession : Option K → Option K × Opened × Result (H2Error E) K → Type 0
  IsSession cached (cached', o, ok k) = IsCached cached cached' o × (cached' ≡ some k)
  IsSession cached (cached', o, err e) = (o ≢ kept) × (cached' ≡ cached)

  undialled :
      (cached : Option K) (e : E)
      → t.dial ≡ err e
      → fresh_session t authority cfg cached ≡ (cached, unopened, err (transport e))
  unfolding fresh_session
  undialled cached e d = simp (d, fresh_session)

  unsecured :
      (cached : Option K) (c : C) (e : H2Error E)
      → t.dial ≡ ok c
      → secure t authority cfg c ≡ err e
      → fresh_session t authority cfg cached ≡ (cached, closed, err e)
  unfolding fresh_session
  unsecured cached c e d f = simp (d, f, fresh_session)

  unstarted :
      (cached : Option K) (c c' : C) (e : E)
      → t.dial ≡ ok c
      → secure t authority cfg c ≡ ok c'
      → t.new_client_conn c' ≡ err e
      → fresh_session t authority cfg cached ≡ (cached, closed, err (transport e))
  unfolding fresh_session
  unstarted cached c c' e d f g = simp (d, f, g, fresh_session)

  started :
      (cached : Option K) (c c' : C) (k : K)
      → t.dial ≡ ok c
      → secure t authority cfg c ≡ ok c'
      → t.new_client_conn c' ≡ ok k
      → fresh_session t authority cfg cached ≡ (some k, kept, ok k)
  unfolding fresh_session
  started cached c c' k d f g = simp (d, f, g, fresh_session)

  fresh_session-IsSession :
      (cached : Option K) → IsSession cached (fresh_session t authority cfg cached)
  fresh_session-IsSession cached = elim (Result-cases t.dial) [
    | inr (e, d) ↦ rw (undialled cached e d) ((λ h. cc), refl)
    | inl (c, d) ↦ elim (Result-cases (secure t authority cfg c)) [
      | inr (e, f) ↦ rw (unsecured cached c e d f) ((λ h. cc), refl)
      | inl (c', f) ↦ elim (Result-cases (t.new_client_conn c')) [
        | inr (e, g) ↦ rw (unstarted cached c c' e d f g) ((λ h. cc), refl)
        | inl (k, g) ↦
            rw (started cached c c' k d f g) (inl (refl, (c, c', k, d, f, g, refl)), refl)
      ]
    ]
  ]

  session-IsSession : (cached : Option K) → IsSession cached (session t authority cfg cached)
  unfolding session
  session-IsSession none = fresh_session-IsSession none
  session-IsSession (some k) = elim (Bool-cases (t.can_take k)) [
    | inl e ↦ rw (e, session) (inr ((λ h. cc), refl), refl)
    | inr e ↦ rw (e, session) (fresh_session-IsSession (some k))
  ]

-- The stream is handed to the caller exactly with a body, of a response of the session that is a
-- success; otherwise it was not begun or is cancelled.
abbrev pub IsStream :
    {E C K S : Type 0}
    → H2Transport E C K S
    → Request
    → Option K
    → Begun × Result (H2Error E) S
    → Type 0
IsStream {K = K} t req cached' (b, ok body) =
    (k : K) × (r : Response) × (b ≡ handed)
    × (cached' ≡ some k)
    × (t.round_trip req k ≡ ok (r, body))
    × (is_success r ≡ true)
IsStream t req cached' (b, err e) = (b ≡ not_begun) ⊎ (b ≡ cancelled)

exchange-IsStream :
    {E C K S : Type 0} (u : Unicode) (t : H2Transport E C K S) (req : Request) (cached' : Option K)
    (k : K)
    → cached' ≡ some k
    → IsStream t req cached' (exchange u t req k)
unfolding exchange
exchange-IsStream u t req cached' k at_k = elim (Result-cases (t.round_trip req k)) [
  | inr (e, h) ↦ rw (h, exchange) (inr refl)
  | inl ((r, body), h) ↦ elim (Bool-cases (is_success r)) [
    | inl f ↦ rw (h, f, exchange) (k, r, refl, at_k, h, f)
    | inr f ↦ rw (h, f, exchange) (inr refl)
  ]
]

-- How a dial may end.
abbrev pub IsDialledH2 :
    {E C K S : Type 0}
    → H2Transport E C K S
    → Bytes
    → Option TlsConfig
    → Request
    → Option K
    → Option K × Opened × Begun × Result (H2Error E) S
    → Type 0
IsDialledH2 t authority cfg req cached (cached', o, b, r) =
    IsCached t authority cfg cached cached' o × IsStream t req cached' (b, r)

round_trip_found :
    {E C K S : Type 0} (u : Unicode) (t : H2Transport E C K S) (authority : Bytes)
    (cfg : Option TlsConfig) (header : List (Bytes × Bytes)) (req : Request) (cached : Option K)
    (x : Option K × Opened × Result (H2Error E) K)
    → IsSession t authority cfg cached x
    → IsDialledH2 t authority cfg (with_header header req) cached (elim x.2 [
      | err e ↦ (x.0, x.1, not_begun, err e)
      | ok k ↦ (
        x.0,
        x.1,
        (exchange u t (with_header header req) k).0,
        (exchange u t (with_header header req) k).1,
      )
    ])
round_trip_found u t authority cfg header req cached (cached', o, err e) (other, same) =
    (inr (other, same), inl refl)
round_trip_found u t authority cfg header req cached (cached', o, ok k) (is, at_k) =
    (is, exchange-IsStream u t (with_header header req) cached' k at_k)

-- After a dial over HTTP/2 the connection that was dialled for it is kept open exactly when the
-- cached session is the one that was made on it; otherwise none is open, and the cache is as before. The stream is handed to the caller exactly with a body, of
-- a response of the cached session that is a success; otherwise it was not begun or is cancelled.
pub h2_dial_tcp-IsDialledH2 :
    {E C K S : Type 0} (u : Unicode) (t : H2Transport E C K S) (authority : Bytes)
    (cfg : Option TlsConfig) (header : List (Bytes × Bytes)) (name : Bytes) (port : ℕ)
    (cached : Option K)
    → IsDialledH2 t authority cfg
        (with_header header (tcp_request name port))
        cached
        (h2_dial_tcp u t authority cfg header name port cached)
      × IsDialledH2 t authority cfg
          (with_header header (h2_udp_request authority name port))
          cached
          (h2_dial_udp u t authority cfg header name port cached)
unfolding h2_dial_tcp h2_dial_udp h2_round_trip
h2_dial_tcp-IsDialledH2 u t authority cfg header name port cached = (
  round_trip_found u t authority cfg header (tcp_request name port) cached
      (session t authority cfg cached) (session-IsSession t authority cfg cached),
  round_trip_found u t authority cfg header (h2_udp_request authority name port) cached
      (session t authority cfg cached) (session-IsSession t authority cfg cached),
)
