-- ===== src/Client/Authority.antt =====
-- The CONNECT request of sdk/pkg/tun2connect/connect.go at connectTarget of
-- sdk/cmd/connect-proxy/main.go.
use agents_net.Base.{
  ℕ, zero, suc, ◌≡◌, ◌≢◌, ◌≤◌, ◌<◌, ◌++◌, refl, ap, ◌∙◌, inl, inr, arith, Bool, true, false, not,
  ◌&&◌, Bool-cases, Option, Option-cases, none, some, List, [], ◌∷◌, All, All-map, All-append, all,
  ◌==◌, if◌then◌else◌,
}
use agents_net.Base.Bytes.{Bytes, codes, Lacks, contains_byte, bytes_eq_refl, trim_suffix}
use agents_net.Base.Decimal.{itoa, itoa-is_digit, parse_uint-itoa}
use agents_net.Base.Result.{ok, err}
use agents_net.Base.Unicode.{Unicode, equal_fold, is_ascii, lower_byte}
use agents_net.Net.{join_host_port, split_host_port}
use agents_net.Net.Join.{IsUnbracketed, split_host_port-join_host_port}
use agents_net.Netip.Equality.{addr_eq_refl}
use agents_net.Policy.{parse_port}
use agents_net.Policy.Names.{is_empty}
use agents_net.Policy.Authorize.{authority_mismatch}
use agents_net.Boundary.{World}
use agents_net.Boundary.Front.{Http, Head, same_authority, connect_target}
use agents_net.Client.{Request, tcp_request}
use agents_net.Client.Path.{digits-Lacks}

-- Request.Write of net/http: the head that it sends, or `none` for an error. A CONNECT request
-- without other fields gets its host as target and Host field; PunycodeHostPort leaves ASCII as it
-- is, a host that ValidHostHeader takes is not dropped, and one without a percent has no zone to
-- remove.
pub record RequestWriter : Type 0 where
  pub written_head : Request → Option Head
  pub valid_host_header : Bytes → Bool
  pub written_connect :
      (req : Request)
      → req.method ≡ codes "CONNECT"
      → req.target ≡ req.host
      → req.header ≡ []
      → is_ascii req.host ≡ true
      → valid_host_header req.host ≡ true
      → Lacks b'%' req.host
      → written_head req
        ≡ some (record {
          method = codes "CONNECT";
          target = req.host;
          host = req.host ∷ [];
          connection = [];
          upgrade = [];
        })

All-join_host_port {ℓ} :
    (P : ℕ → Type ℓ) (host port : Bytes)
    → All P host
    → All P port
    → P b'['
    → P b']'
    → P b':'
    → All P (join_host_port host port)
unfolding join_host_port
All-join_host_port P host port hh hp left right colon =
    elim (Bool-cases (contains_byte b':' host)) [
      | inl e ↦
          rw (e, join_host_port)
            (left, All-append P host (b']' ∷ b':' ∷ port) hh (right, (colon, hp)))
      | inr e ↦ rw (e, join_host_port) (All-append P host (b':' ∷ port) hh (colon, hp))
    ]

is_ascii_complete : (s : Bytes) → All (λ c. c < 128) s → is_ascii s ≡ true
is_ascii_complete [] h = refl
is_ascii_complete (c ∷ s) (hc, hs) = ground (arith, hc, is_ascii_complete s hs)

digits_below : (port : ℕ) → All (λ c. c < 128) (itoa port)
digits_below port = All-map (itoa port) (λ (c : ℕ) d. ground (arith, d)) (itoa-is_digit port)

-- The head of the request for a name of ASCII without a zone.
written_head-tcp_request :
    (r : RequestWriter) (name : Bytes) (port : ℕ)
    → All (λ c. c < 128) name
    → Lacks b'%' name
    → r.valid_host_header (tcp_request name port).host ≡ true
    → r.written_head (tcp_request name port)
      ≡ some (record {
        method = codes "CONNECT";
        target = (tcp_request name port).host;
        host = (tcp_request name port).host ∷ [];
        connection = [];
        upgrade = [];
      })
written_head-tcp_request r name port ascii zoneless valid =
    r.written_connect (tcp_request name port) refl refl refl
      (is_ascii_complete (tcp_request name port).host (
        All-join_host_port (λ c. c < 128) name (itoa port) ascii (digits_below port) (omega arith)
          (omega arith) (omega arith)))
      valid
      (All-join_host_port (λ c. c ≢ b'%') name (itoa port) zoneless (digits-Lacks b'%' port refl)
        (ground arith) (ground arith) (ground arith))

equal_fold_refl :
    (u : Unicode) → ((s : Bytes) → u.equal_fold s s ≡ true) → (s : Bytes) → equal_fold u s s ≡ true
unfolding equal_fold
equal_fold_refl u same s = elim (Bool-cases (is_ascii s)) [
  | inl e ↦ rw (e, equal_fold) (bytes_eq_refl (agents_net.Base.map lower_byte s))
  | inr e ↦ rw (e, equal_fold) (same s)
]

same_authority_refl :
    (w : World) (a host port : Bytes)
    → ((s : Bytes) → w.platform.unicode.equal_fold s s ≡ true)
    → split_host_port a ≡ some (host, port)
    → same_authority w a a ≡ true
unfolding same_authority
same_authority_refl w a host port same e = elim (Option-cases (w.platform.parse_addr host)) [
  | inl p ↦
      rw (e, same_authority)
        (rw (e, bytes_eq_refl port, p)
          (equal_fold_refl w.platform.unicode same (trim_suffix host (codes "."))))
  | inr (addr, p) ↦
      rw (e, same_authority) (rw (e, bytes_eq_refl port, p) (rw p (addr_eq_refl addr)))
]

parse_port-itoa : (port : ℕ) → 1 ≤ port → port ≤ 65535 → parse_port (itoa port) ≡ ok port
unfolding parse_port
parse_port-itoa port h k =
    let positive : (port == 0) ≡ false = ground arith in
    rw (parse_uint-itoa port 65535 k, positive, parse_port) refl

no_conflict {ℓ} : {A : Type ℓ} (b : Bool) (x y : A) → (if b && false then x else y) ≡ y
no_conflict true x y = refl
no_conflict false x y = refl

-- The boundary reads the CONNECT request that the client sends for a host and a port from 1 to
-- 65535 as that host and port, when the host is ASCII, not empty, and has no brackets and no zone,
-- both sides take the target for a valid Host value, and text folds to itself.
pub connect_target-tcp_request :
    (r : RequestWriter) (f : Http) (w : World) (name : Bytes) (port : ℕ)
    → is_empty name ≡ false
    → All (λ c. c < 128) name
    → Lacks b'%' name
    → IsUnbracketed name
    → 1 ≤ port
    → port ≤ 65535
    → r.valid_host_header (tcp_request name port).host ≡ true
    → f.valid_host_header (tcp_request name port).host ≡ true
    → ((s : Bytes) → w.platform.unicode.equal_fold s s ≡ true)
    → (h : Head) × (r.written_head (tcp_request name port) ≡ some h)
      × (connect_target f w h ≡ ok (name, itoa port))
unfolding connect_target
connect_target-tcp_request r f w name port named ascii zoneless clean positive bound sent valid
      same =
    let target = (tcp_request name port).host in
    let parts : split_host_port target ≡ some (name, itoa port) =
      split_host_port-join_host_port name (itoa port) clean
        (digits-Lacks b'[' port refl, digits-Lacks b']' port refl) (digits-Lacks b':' port refl) in
    (
      _,
      written_head-tcp_request r name port ascii zoneless sent,
      rw
          (
            valid,
            parts,
            named,
            parse_port-itoa port positive bound,
            same_authority_refl w target name (itoa port) same parts,
            connect_target,
          )
          (no_conflict (not (is_empty target)) (err authority_mismatch) (ok (name, itoa port))),
    )
