-- ===== src/Client/Path.antt =====
-- udpProxyURL of sdk/pkg/tun2connect/connect.go against masqueTarget of
-- sdk/cmd/connect-proxy/main.go.
use agents_net.Base.{
  ℕ, ◌+◌, ◌*◌, ◌/◌, ◌%◌, ◌≡◌, ◌≢◌, ◌<◌, ap, ◌∙◌, inl, inr, refl, arith, Bool, true, false, not,
  Bool-cases, some, [], ◌∷◌, ◌++◌, All, All-map, All-append, ◌==◌, if◌then◌else◌, ◌&&◌,
}
use agents_net.Base.Decimal.{itoa, itoa-is_digit, is_digit}
use agents_net.Base.Bytes.{Bytes, codes, Lacks, Lacks-contains_byte}
use agents_net.Boundary.Front.{plain, percent, high, unhex, prepend, unescape}
use agents_net.Client.{is_plain, hex, path_escape, replace_colons, encoded_host, udp_proxy_url}

-- One byte, written out by path_escape and then by replace_colons.
abbrev escaped : ℕ → Bytes → Bytes
escaped c tail =
    if is_plain c && not (c == b':') then c ∷ tail else b'%' ∷ hex (c / 16) ∷ hex (c % 16) ∷ tail

hex_not_colon : (d : ℕ) → d < 16 → (hex d == b':') ≡ false
hex_not_colon d h = ground arith

encoded_host_cons :
    (c : ℕ) (s : Bytes) → c < 256 → encoded_host (c ∷ s) ≡ escaped c (encoded_host s)
unfolding encoded_host path_escape replace_colons
encoded_host_cons c s h = elim (Bool-cases (is_plain c)) [
  | inl p ↦ elim (Bool-cases (c == b':')) [
    | inl e ↦ rw (p, e, encoded_host, path_escape, replace_colons) (ground (arith, p, e))
    | inr e ↦ rw (p, e, encoded_host, path_escape, replace_colons) refl
  ]
  | inr p ↦
      rw
        (
          p,
          encoded_host,
          path_escape,
          replace_colons,
          hex_not_colon (c / 16) (omega arith),
          hex_not_colon (c % 16) (omega arith),
        )
        refl
]

unhex-hex : (d : ℕ) → d < 16 → unhex (hex d) ≡ some d
unhex-hex d h = ground arith

unescape_first :
    (x d : ℕ) (s : Bytes) → unhex x ≡ some d → unescape percent (x ∷ s) ≡ unescape (high d) s
unfolding unescape
unescape_first x d s e = rw (e, unescape) refl

unescape_second :
    (x d e : ℕ) (s : Bytes)
    → unhex x ≡ some e
    → unescape (high d) (x ∷ s) ≡ prepend (d * 16 + e) (unescape plain s)
unfolding unescape
unescape_second x d e s h = rw (h, unescape) refl

unescape_start : (s : Bytes) → unescape plain (b'%' ∷ s) ≡ unescape percent s
unfolding unescape
unescape_start s = refl

unescape-percent :
    (c : ℕ) (tail : Bytes)
    → c < 256
    → unescape plain (b'%' ∷ hex (c / 16) ∷ hex (c % 16) ∷ tail) ≡ prepend c (unescape plain tail)
unescape-percent c tail h =
    let whole : c / 16 * 16 + c % 16 ≡ c = omega arith in
    let first = unhex-hex (c / 16) (omega arith) in
    let second = unhex-hex (c % 16) (omega arith) in
    unescape_start (hex (c / 16) ∷ hex (c % 16) ∷ tail)
    ∙ unescape_first (hex (c / 16)) (c / 16) (hex (c % 16) ∷ tail) first
    ∙ unescape_second (hex (c % 16)) (c / 16) (c % 16) tail second
    ∙ ap (λ d. prepend d (unescape plain tail)) whole

-- Text without a percent sign is its own decoding.
unescape_kept :
    (c : ℕ) (tail : Bytes)
    → (c == b'%') ≡ false
    → unescape plain (c ∷ tail) ≡ prepend c (unescape plain tail)
unfolding unescape
unescape_kept c tail h = rw (h, unescape) refl

is_plain_not_percent : (c : ℕ) → is_plain c ≡ true → (c == b'%') ≡ false
is_plain_not_percent c h = ground arith

unescape-escaped :
    (c : ℕ) (tail : Bytes)
    → c < 256
    → unescape plain (escaped c tail) ≡ prepend c (unescape plain tail)
unescape-escaped c tail h = elim (Bool-cases (is_plain c)) [
  | inl p ↦ elim (Bool-cases (c == b':')) [
    | inl e ↦ rw (p, e) (unescape-percent c tail h)
    | inr e ↦ rw (p, e) (unescape_kept c tail (is_plain_not_percent c p))
  ]
  | inr p ↦ rw p (unescape-percent c tail h)
]

unescape-append :
    (a t s : Bytes)
    → All (λ c. c ≢ b'%') a
    → unescape plain t ≡ some s
    → unescape plain (a ++ t) ≡ some (a ++ s)
unescape-append [] t s h e = e
unescape-append (c ∷ a) t s (hc, ha) e =
    unescape_kept c (a ++ t) (ground (arith, hc)) ∙ ap (prepend c) (unescape-append a t s ha e)

either_append :
    (b : Bool) (x y t : Bytes) → (if b then x else y) ++ t ≡ (if b then x ++ t else (y ++ t))
either_append true x y t = refl
either_append false x y t = refl

escaped-append : (c : ℕ) (s t : Bytes) → escaped c s ++ t ≡ escaped c (s ++ t)
escaped-append c s t =
    either_append (is_plain c && not (c == b':')) (c ∷ s) (b'%' ∷ hex (c / 16) ∷ hex (c % 16) ∷ s) t

encoded_host_nil : (t : Bytes) → encoded_host [] ++ t ≡ t
unfolding encoded_host path_escape replace_colons
encoded_host_nil t = refl

unescape-encoded_host :
    (host t s : Bytes)
    → All (λ c. c < 256) host
    → unescape plain t ≡ some s
    → unescape plain (encoded_host host ++ t) ≡ some (host ++ s)
unescape-encoded_host [] t s h e = ap (unescape plain) (encoded_host_nil t) ∙ e
unescape-encoded_host (c ∷ a) t s (hc, ha) e =
    let apart = ap (λ x. x ++ t) (encoded_host_cons c a hc) ∙ escaped-append c (encoded_host a) t in
    ap (unescape plain) apart
    ∙ unescape-escaped c (encoded_host a ++ t) hc
    ∙ ap (prepend c) (unescape-encoded_host a t s ha e)

pub digits-Lacks : (c port : ℕ) → is_digit c ≡ false → Lacks c (itoa port)
digits-Lacks c port h = All-map (itoa port) (λ d e f. ground (arith, h, e, f)) (itoa-is_digit port)

-- What stands behind the host in a path of the template.
abbrev pub ending : ℕ → Bytes
ending port = b'/' ∷ itoa port ++ b'/' ∷ []

ending-Lacks : (port : ℕ) → Lacks b'%' (ending port)
ending-Lacks port = (
  ground arith,
  All-append (λ c. c ≢ b'%') (itoa port) (b'/' ∷ []) (digits-Lacks b'%' port refl)
      (ground arith, tt),
)

pub unescape-Lacks : (a : Bytes) → Lacks b'%' a → unescape plain a ≡ some a
unfolding unescape
unescape-Lacks [] h = refl
unescape-Lacks (c ∷ a) (hc, ha) =
    unescape_kept c a (ground (arith, hc)) ∙ ap (prepend c) (unescape-Lacks a ha)

-- The raw path of the URL that the client asks for is an encoding of its path, whatever bytes
-- the host has: decoded once it is the path.
pub unescape-udp_proxy_url :
    (host : Bytes) (port : ℕ)
    → All (λ c. c < 256) host
    → unescape plain (udp_proxy_url host port).1 ≡ some (udp_proxy_url host port).0
unfolding udp_proxy_url
unescape-udp_proxy_url host port h =
    unescape-append (codes "/.well-known/masque/udp/") (encoded_host host ++ ending port)
      (host ++ ending port) (Lacks-contains_byte b'%' (codes "/.well-known/masque/udp/") refl)
      (unescape-encoded_host host (ending port) (ending port) h
        (unescape-Lacks (ending port) (ending-Lacks port)))
