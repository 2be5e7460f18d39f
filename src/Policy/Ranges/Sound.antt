-- ===== src/Policy/Ranges/Sound.antt =====
-- specialPurpose against publicAddress of sdk/cmd/connect-proxy/policy.go.
use agents_net.Base.{
  ◌≡◌, refl, sym, ◌∙◌, Bool, true, false, not, ◌||◌, List, [], ◌∷◌, ◌++◌, leb, arith, any,
  Bool-cases, inl, inr, ◌⊎◌, and_true, leb→le,
}
use agents_net.Base.Bytes.{bytes_eq}
use agents_net.Netip.{
  Addr, invalid, v4, v6, Prefix, is_valid, zone, is4in6, contains, unmap, is_global_unicast,
  is_private,
}
use agents_net.Netip.Nested.{contains_nested}
use agents_net.Policy.Ranges.{
  non_public, classifier_ranges, public_address, covers, special_purpose,
}

true-ne-false : true ≡ false → ⊥
true-ne-false e = cc

or_true : (a b : Bool) → (a || b) ≡ true → (a ≡ true) ⊎ (b ≡ true)
or_true true b h = inl refl
or_true false b h = inr h

-- Some range of a list holds every address of a prefix that some range covers.
covers-contains :
    (p : Prefix) (a : Addr) (rs : List Prefix)
    → contains p a ≡ true
    → any (covers p) rs ≡ true
    → any (λ r. contains r a) rs ≡ true
covers-contains p a [] inner h = cc
covers-contains p a (r ∷ rs) inner h = elim (or_true (covers p r) (any (covers p) rs) h) [
  | inl here ↦
      let (front, outer) = and_true _ (contains r p.addr) here in
      let (_, longer) = and_true _ (leb r.bits p.bits) front in
      rw (contains_nested r p a (leb→le _ _ longer) outer inner) refl
  | inr later ↦ rw (covers-contains p a rs inner later) (ground arith)
]

any-append : (f : Prefix → Bool) (xs ys : List Prefix) → any f (xs ++ ys) ≡ (any f xs || any f ys)
any-append f [] ys = refl
any-append f (x ∷ xs) ys = ground (arith, any-append f xs ys)

-- The classifiers reject every address of their ranges.
classified :
    (a : Addr)
    → any (λ r. contains r a) classifier_ranges ≡ true
    → (not (is_global_unicast a) || is_private a) ≡ true
unfolding classifier_ranges contains is_global_unicast is_private unmap
classified invalid h = refl
classified (v4 n) h = ground arith
classified (v6 n z) h = ground arith

-- No address that lies in a special-purpose prefix is public.
pub special_purpose-public_address :
    (p : Prefix) (a : Addr)
    → special_purpose p ≡ true
    → contains p a ≡ true
    → public_address a ≡ false
unfolding special_purpose public_address
special_purpose-public_address p a special inner =
    let found = covers-contains p a (classifier_ranges ++ non_public) inner special in
    elim (or_true _ _ (sym (any-append (λ r. contains r a) classifier_ranges non_public) ∙ found)) [
      | inl classifier ↦ rw (classified a classifier) refl
      | inr listed ↦ rw listed (ground arith)
    ]

-- An address that the classifiers reject lies in one of their ranges.
ranged :
    (a : Addr)
    → is_valid a ≡ true
    → bytes_eq (zone a) [] ≡ true
    → is4in6 a ≡ false
    → (not (is_global_unicast a) || is_private a) ≡ true
    → any (λ r. contains r a) (classifier_ranges ++ non_public) ≡ true
unfolding classifier_ranges non_public contains is_global_unicast is_private unmap
ranged invalid valid plain mapped h = cc
ranged (v4 n) valid plain mapped h = ground arith
ranged (v6 n z) valid plain mapped h = ground arith

-- Of the valid addresses without a zone that map no IPv4 address, the public ones are those in
-- no special-purpose range.
pub public_address-any :
    (a : Addr)
    → is_valid a ≡ true
    → bytes_eq (zone a) [] ≡ true
    → is4in6 a ≡ false
    → public_address a ≡ not (any (λ r. contains r a) (classifier_ranges ++ non_public))
unfolding public_address
public_address-any a valid plain native =
    elim (Bool-cases (not (is_global_unicast a) || is_private a)) [
      | inl rejected ↦ rw (rejected, ranged a valid plain native rejected) refl
      | inr accepted ↦ elim (Bool-cases (any (λ r. contains r a) classifier_ranges)) [
        | inl classifier ↦ absurd (true-ne-false (sym (classified a classifier) ∙ accepted))
        | inr free ↦
            rw (accepted, any-append (λ r. contains r a) classifier_ranges non_public, free) refl
      ]
    ]
