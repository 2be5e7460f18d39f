-- ===== src/Client/Status.antt =====
-- ProxyStatusReason against ProxyStatus of sdk/pkg/tun2connect/connect.go.
use mathlib.Core.List.{reverse, reverse_aux, reverse-reverse}
use agents_net.Base.{
  ℕ, ◌≡◌, ◌≢◌, refl, ap, ◌∙◌, arith, Bool, true, false, ◌&&◌, ◌||◌, none, some, [], ◌∷◌, ◌++◌, All,
  All-map, All-append, all, leb, ◌==◌, if◌then◌else◌,
}
use agents_net.Base.Bytes.{
  Bytes, codes, Lacks, Lacks-contains_byte, contains_byte, bytes_eq, cut, split, split_at_sep,
  split-Lacks, trim, trim_left,
}
use agents_net.Base.Unicode.{Unicode, is_space, is_ascii, trim_space}
use agents_net.Client.Field.{
  proxy_error_type, proxy_status, first, rest, reason_param, find_reason, proxy_status_reason,
}

-- Letters in lower case, the dash and the underscore, of which members, types and reasons are made.
abbrev pub is_token_byte : ℕ → Bool
is_token_byte c = (leb b'a' c && leb c b'z') || (c == b'-') || (c == b'_')

unfoldable pub IsToken : Bytes → Type 0
IsToken = All (λ c. is_token_byte c ≡ true)

pub IsToken-all : (s : Bytes) → all is_token_byte s ≡ true → IsToken s
unfolding IsToken
IsToken-all [] h = tt
IsToken-all (c ∷ s) h = (ground arith, IsToken-all s (ground arith))

either-IsToken : (b : Bool) (s t : Bytes) → IsToken s → IsToken t → IsToken (if b then s else t)
either-IsToken true s t hs ht = hs
either-IsToken false s t hs ht = ht

proxy_error_type-IsToken : (reason : Bytes) → IsToken (proxy_error_type reason)
unfolding proxy_error_type
proxy_error_type-IsToken reason =
    either-IsToken _ _ _ (IsToken-all (codes "http_request_denied") refl) (
      either-IsToken _ _ _ (IsToken-all (codes "destination_ip_prohibited") refl) (
        either-IsToken _ _ _ (IsToken-all (codes "dns_error") refl) (
          either-IsToken _ _ _ (IsToken-all (codes "destination_unavailable") refl) (
            either-IsToken _ _ _ (IsToken-all (codes "connection_limit_reached") refl) (
              either-IsToken _ _ _ (IsToken-all (codes "proxy_configuration_error") refl) (
                either-IsToken _ _ _ (IsToken-all (codes "http_protocol_error") refl)
                  (IsToken-all (codes "http_request_error") refl)))))))

token-Lacks : (c : ℕ) (s : Bytes) → is_token_byte c ≡ false → IsToken s → Lacks c s
unfolding IsToken
token-Lacks c s h = All-map s (λ d e f. ground (arith, h, e, f))

trim_left_kept : (p : ℕ → Bool) (s : Bytes) → All (λ c. p c ≡ false) s → trim_left p s ≡ s
unfolding trim_left
trim_left_kept p [] h = refl
trim_left_kept p (c ∷ s) (hc, hs) = rw (hc, trim_left) refl

All-reverse_aux : (P : ℕ → Type 0) (s r : Bytes) → All P s → All P r → All P (reverse_aux s r)
All-reverse_aux P [] r h k = k
All-reverse_aux P (c ∷ s) r (hc, h) k = All-reverse_aux P s (c ∷ r) h (hc, k)

trim_kept : (p : ℕ → Bool) (s : Bytes) → All (λ c. p c ≡ false) s → trim p s ≡ s
unfolding trim
trim_kept p s h =
    ap (λ t. reverse (trim_left p (reverse t))) (trim_left_kept p s h)
    ∙ ap reverse (trim_left_kept p (reverse s) (All-reverse_aux (λ c. p c ≡ false) s [] h tt))
    ∙ reverse-reverse s

-- A text of visible ASCII bytes behind one space.
abbrev is_visible : ℕ → Bool
is_visible c = leb 33 c && leb c 126

visible-is_ascii : (s : Bytes) → All (λ c. is_visible c ≡ true) s → is_ascii s ≡ true
visible-is_ascii [] h = refl
visible-is_ascii (c ∷ s) (hc, hs) = ground (arith, hc, visible-is_ascii s hs)

trim_space_visible :
    (u : Unicode) (s : Bytes) → All (λ c. is_visible c ≡ true) s → trim_space u (b' ' ∷ s) ≡ s
unfolding trim_space trim trim_left
trim_space_visible u s h =
    rw (visible-is_ascii s h, trim_space)
      (trim_kept is_space s (All-map s (λ c e. ground (arith, e)) h))

token_visible : (s : Bytes) → IsToken s → All (λ c. is_visible c ≡ true) s
unfolding IsToken
token_visible s = All-map s (λ c e. ground (arith, e))

-- A parameter with its name, one space in front.
named_visible :
    (name value : Bytes)
    → All (λ c. is_visible c ≡ true) name
    → IsToken value
    → All (λ c. is_visible c ≡ true) (name ++ b'=' ∷ value)
named_visible name value h k =
    All-append (λ c. is_visible c ≡ true) name (b'=' ∷ value) h (refl, token_visible value k)

reason_param_error :
    (u : Unicode) (value : Bytes) → IsToken value → reason_param u (codes " error=" ++ value) ≡ none
unfolding reason_param cut bytes_eq
reason_param_error u value h =
    rw
      (
        trim_space_visible u (codes "error=" ++ value) (
            named_visible (codes "error") value
              (token_visible (codes "error") (IsToken-all (codes "error") refl)) h),
        reason_param,
      )
      refl

quote_kept : (s : Bytes) → IsToken s → trim (λ c. c == b'"') s ≡ s
unfolding IsToken
quote_kept s h = trim_kept (λ c. c == b'"') s (All-map s (λ c e. ground (arith, e)) h)

reason_param_reason :
    (u : Unicode) (value : Bytes)
    → IsToken value
    → reason_param u (codes " reason=" ++ value) ≡ some value
unfolding reason_param cut bytes_eq
reason_param_reason u value h =
    rw
      (
        trim_space_visible u (codes "reason=" ++ value) (
            named_visible (codes "reason") value
              (token_visible (codes "reason") (IsToken-all (codes "reason") refl)) h),
        reason_param,
      )
      (ap some (quote_kept value h))

find_second :
    (u : Unicode) (a b reason : Bytes)
    → reason_param u a ≡ none
    → reason_param u b ≡ some reason
    → find_reason u (a ∷ b ∷ []) ≡ reason
unfolding find_reason
find_second u a b reason e f = rw (e, f, find_reason) refl

-- A parameter with its name in front lacks a separator that the name and the value lack.
param-Lacks :
    (c : ℕ) (name value : Bytes)
    → is_token_byte c ≡ false
    → contains_byte c name ≡ false
    → IsToken value
    → Lacks c (name ++ value)
param-Lacks c name value h k v =
    All-append (λ d. d ≢ c) name value (Lacks-contains_byte c name k) (token-Lacks c value h v)

split_params :
    (member type reason : Bytes)
    → IsToken member
    → IsToken type
    → IsToken reason
    → split b';' (
        first
          (split b',' (member ++ (codes "; error=" ++ (type ++ (codes "; reason=" ++ reason))))))
      ≡ member ∷ (codes " error=" ++ type) ∷ (codes " reason=" ++ reason) ∷ []
split_params member type reason hm ht hr =
    let tail = param-Lacks b',' (codes "; reason=") reason refl refl hr in
    let types =
      All-append (λ c. c ≢ b',') (codes "; error=" ++ type) (codes "; reason=" ++ reason)
        (param-Lacks b',' (codes "; error=") type refl refl ht) tail in
    let whole =
      All-append (λ c. c ≢ b',') member
        (codes "; error=" ++ (type ++ (codes "; reason=" ++ reason)))
        (token-Lacks b',' member refl hm) types in
    ap (λ l. split b';' (first l)) (split-Lacks b',' _ whole)
    ∙ split_at_sep b';' member (codes " error=" ++ (type ++ (codes "; reason=" ++ reason)))
        (token-Lacks b';' member refl hm)
    ∙ ap (λ l. member ∷ l)
        (split_at_sep b';' (codes " error=" ++ type) (codes " reason=" ++ reason)
            (param-Lacks b';' (codes " error=") type refl refl ht)
          ∙ ap (λ l. (codes " error=" ++ type) ∷ l)
              (split-Lacks b';' (codes " reason=" ++ reason)
                (param-Lacks b';' (codes " reason=") reason refl refl hr)))

-- ProxyStatusReason reads from a field that ProxyStatus built the reason that it was built with,
-- when member and reason are made of lower-case letters, dashes and underscores.
pub proxy_status_reason-proxy_status :
    (u : Unicode) (member reason : Bytes)
    → IsToken member
    → IsToken reason
    → proxy_status_reason u (proxy_status member reason) ≡ reason
unfolding proxy_status_reason proxy_status
proxy_status_reason-proxy_status u member reason hm hr =
    let type = proxy_error_type reason in
    let ht = proxy_error_type-IsToken reason in
    ap (λ l. find_reason u (rest l)) (split_params member type reason hm ht hr)
    ∙ find_second u (codes " error=" ++ type) (codes " reason=" ++ reason) reason
        (reason_param_error u type ht) (reason_param_reason u reason hr)
