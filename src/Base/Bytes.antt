-- ===== src/Base/Bytes.antt =====
-- Go strings and byte slices as lists of byte values, with the functions of package strings
-- that the program calls.
use Prim.Native.Nat.{ℕ, zero, suc, ◌+◌, ◌-◌}
use Prim.Native.Char.{code}
use Prim.Native.String.{String}
use mathlib.Core.Path.{◌≡◌, refl, ap}
use mathlib.Core.Bool.{Bool, true, false, ◌&&◌}
use mathlib.Core.List.{List, [], ◌∷◌, ◌++◌, reverse}
use mathlib.Core.Option.{Option, none, some}
use mathlib.Core.Logic.{◌↔◌, ◌≢◌}
use native.Mathlib.Omega.{arith}
use agents_net.Base.Tests.{leb, ◌==◌, if◌then◌else◌}
use agents_net.Base.Lists.{
  length, take, drop, All, any, take-append_length, drop-append_length, length-append,
}

abbrev pub Bytes : Type 0
Bytes = List ℕ

-- The bytes of an ASCII literal.
abbrev pub codes : String → Bytes
codes String.[] = []
codes (String.◌∷◌ c s) = code c ∷ codes s

-- `a == b` on strings.
unfoldable pub bytes_eq : Bytes → Bytes → Bool
bytes_eq [] [] = true
bytes_eq (x ∷ xs) (y ∷ ys) = (x == y) && bytes_eq xs ys
bytes_eq _ _ = false

pub bytes_eq→eq : (s t : Bytes) → bytes_eq s t ≡ true → s ≡ t
unfolding bytes_eq
bytes_eq→eq [] [] h = refl
bytes_eq→eq (x ∷ xs) (y ∷ ys) h = ground (arith, bytes_eq→eq xs ys)
bytes_eq→eq [] (y ∷ ys) h = cc
bytes_eq→eq (x ∷ xs) [] h = cc

pub bytes_eq_refl : (s : Bytes) → bytes_eq s s ≡ true
unfolding bytes_eq
bytes_eq_refl [] = refl
bytes_eq_refl (x ∷ xs) = ground (arith, bytes_eq_refl xs)

pub bytes_eq_iff : (s t : Bytes) → (bytes_eq s t ≡ true) ↔ (s ≡ t)
bytes_eq_iff s t = (bytes_eq→eq s t, λ e. ground (arith, bytes_eq_refl s))

-- strings.HasPrefix
unfoldable pub has_prefix : Bytes → Bytes → Bool
has_prefix s [] = true
has_prefix (a ∷ s) (p ∷ ps) = (a == p) && has_prefix s ps
has_prefix [] (p ∷ ps) = false

-- strings.HasSuffix
unfoldable pub has_suffix : Bytes → Bytes → Bool
unfolding bytes_eq
has_suffix s p = leb (length p) (length s) && bytes_eq (drop (length s - length p) s) p

-- strings.TrimSuffix
unfoldable pub trim_suffix : Bytes → Bytes → Bytes
unfolding has_suffix
trim_suffix s p = if has_suffix s p then take (length s - length p) s else s

-- strings.Contains(s, c) of one byte.
abbrev pub contains_byte : ℕ → Bytes → Bool
contains_byte c s = any (λ x. x == c) s

-- strings.Cut at a one-byte separator: `none` is found = false.
unfoldable pub cut : ℕ → Bytes → Option (Bytes × Bytes)
cut sep [] = none
cut sep (c ∷ s) =
    if c == sep
    then some ([], s)
    else elim (cut sep s) [ none ↦ none | some (before, after) ↦ some (c ∷ before, after) ]

-- strings.Split at a one-byte separator; `head` is never missing.
abbrev pub cons_head : ℕ → List Bytes → List Bytes
cons_head c [] = (c ∷ []) ∷ []
cons_head c (p ∷ ps) = (c ∷ p) ∷ ps

unfoldable pub split : ℕ → Bytes → List Bytes
split sep [] = [] ∷ []
split sep (c ∷ s) = let rest = split sep s in if c == sep then [] ∷ rest else cons_head c rest

-- strings.TrimLeft and strings.Trim over a set of bytes given by a test.
unfoldable pub trim_left : (ℕ → Bool) → Bytes → Bytes
trim_left p [] = []
trim_left p (c ∷ s) = let rest = trim_left p s in if p c then rest else c ∷ s

unfoldable pub trim : (ℕ → Bool) → Bytes → Bytes
unfolding trim_left
trim p s = reverse (trim_left p (reverse (trim_left p s)))

-- strings.Count of one byte.
unfoldable pub count_byte : ℕ → Bytes → ℕ
count_byte c [] = 0
count_byte c (x ∷ s) = (if x == c then 1 else 0) + count_byte c s

-- The text holds no byte `c`.
abbrev pub Lacks : ℕ → Bytes → Type 0
Lacks c = All (λ x. x ≢ c)

pub Lacks-contains_byte : (c : ℕ) (s : Bytes) → contains_byte c s ≡ false → Lacks c s
Lacks-contains_byte c [] h = tt
Lacks-contains_byte c (x ∷ s) h = (ground arith, Lacks-contains_byte c s (ground arith))

pub cut_at_sep : (sep : ℕ) (s t : Bytes) → Lacks sep s → cut sep (s ++ sep ∷ t) ≡ some (s, t)
unfolding cut
cut_at_sep sep [] t h = ground arith
cut_at_sep sep (c ∷ s) t (hc, hs) = ground (arith, cut_at_sep sep s t hs)

pub cut_missing : (sep : ℕ) (s : Bytes) → Lacks sep s → cut sep s ≡ none
unfolding cut
cut_missing sep [] h = refl
cut_missing sep (c ∷ s) (hc, hs) = ground (arith, cut_missing sep s hs)

pub cut_sound :
    (sep : ℕ) (s before after : Bytes)
    → cut sep s ≡ some (before, after)
    → (s ≡ before ++ sep ∷ after) × Lacks sep before
unfolding cut
cut_sound sep [] before after h = cc
cut_sound sep (c ∷ s) [] after h = ground arith
cut_sound sep (c ∷ s) (b ∷ before) after h = ground (arith, cut_sound sep s before after)

pub split-Lacks : (sep : ℕ) (s : Bytes) → Lacks sep s → split sep s ≡ s ∷ []
unfolding split
split-Lacks sep [] h = refl
split-Lacks sep (c ∷ s) (hc, hs) = ground (arith, split-Lacks sep s hs)

pub split_at_sep :
    (sep : ℕ) (s t : Bytes) → Lacks sep s → split sep (s ++ sep ∷ t) ≡ s ∷ split sep t
unfolding split
split_at_sep sep [] t h = ground arith
split_at_sep sep (c ∷ s) t (hc, hs) = ground (arith, split_at_sep sep s t hs)

pub has_suffix-append : (s p : Bytes) → has_suffix (s ++ p) p ≡ true
unfolding has_suffix
has_suffix-append s p =
    let e : length (s ++ p) - length p ≡ length s = omega (arith, length-append s p) in
    rw (e, drop-append_length s p) (ground (arith, bytes_eq_refl p, length-append s p))

pub take-append_suffix : (s p : Bytes) → take (length (s ++ p) - length p) (s ++ p) ≡ s
take-append_suffix s p =
    let e : length (s ++ p) - length p ≡ length s = omega (arith, length-append s p) in
    rw e (take-append_length s p)

pub take-append-drop : (n : ℕ) (s : Bytes) → take n s ++ drop n s ≡ s
take-append-drop zero s = refl
take-append-drop (suc n) [] = refl
take-append-drop (suc n) (x ∷ s) = ap (◌∷◌ x) (take-append-drop n s)

-- A text with the suffix is some text followed by it.
pub has_suffix_sound : (s p : Bytes) → has_suffix s p ≡ true → s ≡ take (length s - length p) s ++ p
unfolding has_suffix
has_suffix_sound s p h =
    let e : drop (length s - length p) s ≡ p = bytes_eq→eq _ _ (ground arith) in
    ground (arith, e, take-append-drop (length s - length p) s)
