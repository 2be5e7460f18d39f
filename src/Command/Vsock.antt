-- ===== src/Command/Vsock.antt =====
-- The boundary that sdk/cmd/tun2connect/main.go dials.
use mathlib.Core.Path.{subst}
use agents_net.Base.{
  ℕ, ◌%◌, ◌^◌, ◌<◌, ◌≡◌, refl, sym, ap, ◌∙◌, inl, inr, true, Option, some, ◌∷◌, ◌++◌, if◌then◌else◌,
  arith, All, All-map, Bool-cases, Option-cases,
}
use agents_net.Base.Bytes.{Bytes, codes, bytes_eq, bytes_eq→eq, cut, cut_at_sep, cut_sound, Lacks}
use agents_net.Base.Decimal.{
  is_digit, itoa, itoa-is_digit, parse_uint, parse_uint-le, parse_uint-itoa,
}
use agents_net.Base.Result.{Result, ok, err, ok-eq, Result-cases}
use agents_net.Command.{
  AddressError, DialerError, unsupported_scheme, max_uint32, parse_vsock, Url, BoundaryDial,
  over_net, over_vsock, checked_vsock, boundary_dialer, Dialling, net_dial, vsock_dial, call_dialer,
}

-- The address is the text of a CID and of a port, each of 32 bits, on both sides of its first colon.
pub record IsVsock (addr : Bytes) (cid port : ℕ) : Type 0 where
  pub raw_cid : Bytes
  pub raw_port : Bytes
  pub joined : addr ≡ raw_cid ++ b':' ∷ raw_port
  pub first : Lacks b':' raw_cid
  pub left : parse_uint max_uint32 raw_cid ≡ some cid
  pub right : parse_uint max_uint32 raw_port ≡ some port

below : (s : Bytes) (n : ℕ) → parse_uint max_uint32 s ≡ some n → n % 2 ^ 32 ≡ n
below s n h = omega (arith, parse_uint-le max_uint32 s n h)

parsed_parts :
    (addr raw_cid raw_port : Bytes) (cid port : ℕ)
    → cut b':' addr ≡ some (raw_cid, raw_port)
    → parse_uint max_uint32 raw_cid ≡ some cid
    → parse_uint max_uint32 raw_port ≡ some port
    → parse_vsock addr ≡ ok (cid, port)
unfolding parse_vsock
parsed_parts addr raw_cid raw_port cid port h left right =
    let cid_kept = below raw_cid cid left in
    let port_kept = below raw_port port right in
    rw (h, parse_vsock, left, right, cid_kept, port_kept) refl

parse_vsock-IsVsock :
    (addr : Bytes) (cid port : ℕ) → parse_vsock addr ≡ ok (cid, port) → IsVsock addr cid port
unfolding parse_vsock
parse_vsock-IsVsock addr cid port h = elim (Option-cases (cut b':' addr)) [
  | inl e ↦ absurd (erred (rw (e, parse_vsock) at h))
  | inr ((raw_cid, raw_port), e) ↦ elim (Option-cases (parse_uint max_uint32 raw_cid)) [
    | inl left ↦ let q = rw (e, parse_vsock) at h in absurd (erred (rw left at q))
    | inr (m, left) ↦ elim (Option-cases (parse_uint max_uint32 raw_port)) [
      | inl right ↦
          let q = rw (e, parse_vsock) at h in
          let q' = rw left at q in absurd (erred (rw right at q'))
      | inr (n, right) ↦
          let found : ◌≡◌ {A = Result AddressError (ℕ × ℕ)} (ok (m, n)) (ok (cid, port)) =
            sym (parsed_parts addr raw_cid raw_port m n e left right) ∙ h in
          let same : ◌≡◌ {A = ℕ × ℕ} (m, n) (cid, port) = ok-eq found in
          let (joined, first) = cut_sound b':' addr raw_cid raw_port e in
          record {
            raw_cid = raw_cid;
            raw_port = raw_port;
            joined = joined;
            first = first;
            left = left ∙ ap (λ (x : ℕ × ℕ). some x.0) same;
            right = right ∙ ap (λ (x : ℕ × ℕ). some x.1) same;
          }
    ]
  ]
]
  where
    erred : {e : AddressError} → ◌≡◌ {A = Result AddressError (ℕ × ℕ)} (err e) (ok (cid, port)) → ⊥
    erred q = cc

-- What the URL names.
pub data IsTarget (u : Url) : Dialling → Type 0 where
  of_unix : u.scheme ≡ codes "unix" → IsTarget u (net_dial (codes "unix") u.path)
  of_tcp : u.scheme ≡ codes "tcp" → IsTarget u (net_dial (codes "tcp") u.host)
  of_vsock :
      (cid port : ℕ)
      → u.scheme ≡ codes "vsock"
      → IsVsock u.host cid port
      → IsTarget u (vsock_dial cid port)

abbrev pub Reaches : Option Url → BoundaryDial → Type 0
Reaches parsed dial =
    (u : Url) × (parsed ≡ some u)
    × (target : Dialling) × (call_dialer dial ≡ ok target)
    × IsTarget u target

called :
    (addr : Bytes) (cid port : ℕ)
    → parse_vsock addr ≡ ok (cid, port)
    → call_dialer (over_vsock addr) ≡ ok (vsock_dial cid port)
unfolding call_dialer
called addr cid port parsed = rw (parsed, call_dialer) refl

checked-Reaches :
    (u : Url) (dial : BoundaryDial)
    → u.scheme ≡ codes "vsock"
    → checked_vsock u.host (parse_vsock u.host) ≡ ok dial
    → Reaches (some u) dial
unfolding call_dialer
checked-Reaches u dial named h = elim (Result-cases (parse_vsock u.host)) [
  | inl ((cid, port), parsed) ↦ subst (Reaches (some u)) (ok-eq (rw parsed at h)) (
    u,
    refl,
    vsock_dial cid port,
    called u.host cid port parsed,
    of_vsock cid port named (parse_vsock-IsVsock u.host cid port parsed),
  )
  | inr (e, failed) ↦ let q = rw failed at h in absurd (erred q)
]
  where
    erred : {E : Type 0} {e : E} → err e ≡ ok dial → ⊥
    erred q = cc

dialer_of : Url → Result DialerError BoundaryDial
unfolding boundary_dialer
dialer_of u =
    if bytes_eq u.scheme (codes "unix")
    then ok (over_net (codes "unix") u.path)
    else if bytes_eq u.scheme (codes "tcp")
    then ok (over_net (codes "tcp") u.host)
    else if bytes_eq u.scheme (codes "vsock")
    then checked_vsock u.host (parse_vsock u.host)
    else err (unsupported_scheme u.scheme)

dialer_of-Reaches : (u : Url) (dial : BoundaryDial) → dialer_of u ≡ ok dial → Reaches (some u) dial
unfolding dialer_of call_dialer
dialer_of-Reaches u dial h = elim (Bool-cases (bytes_eq u.scheme (codes "unix"))) [
  | inl is_unix ↦ subst (Reaches (some u)) (ok-eq (rw is_unix at h)) (
    u,
    refl,
    net_dial (codes "unix") u.path,
    refl,
    of_unix (bytes_eq→eq u.scheme (codes "unix") is_unix),
  )
  | inr not_unix ↦ elim (Bool-cases (bytes_eq u.scheme (codes "tcp"))) [
    | inl is_tcp ↦
        let q = rw not_unix at h in
        subst (Reaches (some u)) (ok-eq (rw is_tcp at q)) (
          u,
          refl,
          net_dial (codes "tcp") u.host,
          refl,
          of_tcp (bytes_eq→eq u.scheme (codes "tcp") is_tcp),
        )
    | inr not_tcp ↦
        let q = rw not_unix at h in
        let q' = rw not_tcp at q in
        elim (Bool-cases (bytes_eq u.scheme (codes "vsock"))) [
          | inl is_vsock ↦
              checked-Reaches u dial (bytes_eq→eq u.scheme (codes "vsock") is_vsock)
                (rw is_vsock at q')
          | inr other ↦ let q'' = rw other at q' in absurd (erred q'')
        ]
  ]
]
  where
    erred : {e : DialerError} → err e ≡ ok dial → ⊥
    erred q = cc

-- The function that boundaryDialer returns never fails on its address: it dials the path of a
-- unix URL, the host of a tcp URL, or the CID and port, of 32 bits each, whose numbers are the text
-- before and behind the first colon of the host of a vsock URL.
pub boundary_dialer-Reaches :
    (parse : Bytes → Option Url) (proxy : Bytes) (dial : BoundaryDial)
    → boundary_dialer parse proxy ≡ ok dial
    → Reaches (parse proxy) dial
unfolding boundary_dialer dialer_of
boundary_dialer-Reaches parse proxy dial h = elim (Option-cases (parse proxy)) [
  | inl invalid ↦ let q = rw (invalid, boundary_dialer) at h in absurd (erred q)
  | inr (u, parsed) ↦ rw parsed (dialer_of-Reaches u dial (rw (parsed, boundary_dialer) at h))
]
  where
    erred : {e : DialerError} → err e ≡ ok dial → ⊥
    erred q = cc

digit-Lacks : (s : Bytes) → All (λ c. is_digit c ≡ true) s → Lacks b':' s
digit-Lacks s h = All-map s (λ (c : ℕ) d. ground (arith, d)) h

-- parseVSOCK reads the text of a CID and a port back, when both have 32 bits.
pub parse_vsock-itoa :
    (cid port : ℕ)
    → cid < 2 ^ 32
    → port < 2 ^ 32
    → parse_vsock (itoa cid ++ b':' ∷ itoa port) ≡ ok (cid, port)
unfolding parse_vsock
parse_vsock-itoa cid port cid_below port_below =
    let at = cut_at_sep b':' (itoa cid) (itoa port) (digit-Lacks (itoa cid) (itoa-is_digit cid)) in
    let first = parse_uint-itoa cid max_uint32 (omega arith) in
    let second = parse_uint-itoa port max_uint32 (omega arith) in
    let cid_kept : cid % 2 ^ 32 ≡ cid = omega arith in
    let port_kept : port % 2 ^ 32 ≡ port = omega arith in
    rw (at, parse_vsock, first, second, cid_kept, port_kept) refl
