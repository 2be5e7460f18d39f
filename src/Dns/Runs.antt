-- ===== src/Dns/Runs.antt =====
-- Runs of sdk/pkg/tun2connect/dns.go: any sequence of queries and reverse lookups.
use agents_net.Base.{
  ◌≡◌, refl, Bool, Option, some, none, List, [], ◌∷◌, length, All, ◌≤◌, inl, inr, ◌⊎◌,
}
use agents_net.Base.Bytes.{Bytes}
use agents_net.Base.Result.{Result, ok, err}
use agents_net.Base.Unicode.{Unicode}
use agents_net.Netip.{Addr, unmap}
use agents_net.Netip.Equality.{addr_eq_refl}
use agents_net.Dns.{
  VirtualDns, DnsError, family_of, canonical, resolve, reverse_lookup, new_virtual_dns,
  max_synthetic_names,
}
use agents_net.Dns.Invariant.{Owners, IsSynthetic, IsValid, no_owners, new_virtual_dns-IsValid}
use agents_net.Dns.Preserve.{Extends}
use agents_net.Dns.Bind.{grant-Extends}
use agents_net.Dns.Refine.{Answers, known, issued, refused, resolve-Refines, reverse_lookup-Refines}

pub data Call : Type 0 where
  -- Resolve4 and, with true, Resolve6.
  query : Bool → Bytes → Call
  dial : Addr → Call

-- A call with what it answered.
pub data Answer : Type 0 where
  resolved : Bool → Bytes → Result DnsError Addr → Answer
  reversed : Addr → Option Bytes → Answer

unfoldable pub run : Unicode → List Call → VirtualDns → VirtualDns × List Answer
run u [] d = (d, [])
run u (query six name ∷ calls) d =
    let (d₁, r) = resolve u six name d in
    let (d₂, rs) = run u calls d₁ in (d₂, resolved six name r ∷ rs)
run u (dial a ∷ calls) d =
    let (d₁, r) = reverse_lookup a d in let (d₂, rs) = run u calls d₁ in (d₂, reversed a r ∷ rs)

-- An answer that a table of owners confirms.
abbrev pub Confirms : Unicode → Owners → Answer → Type 0
Confirms u owners (resolved six name (ok a)) =
    (owners a ≡ some (canonical u name)) × IsSynthetic six a
Confirms u owners (resolved six name (err e)) = Unit
Confirms u owners (reversed a (some n)) = owners (unmap a) ≡ some n
Confirms u owners (reversed a none) = Unit

Answers-Extends :
    {owners : Owners} {six : Bool} {name : Bytes} {r : Result DnsError Addr} {owners' : Owners}
    → Answers owners six name r owners'
    → Extends owners owners'
Answers-Extends (known a e s) b n h = h
Answers-Extends {owners} {name = name} (issued a fresh s) b n h =
    grant-Extends owners a name fresh b n h
Answers-Extends (refused x) b n h = h

Answers-Confirms :
    (u : Unicode) (raw : Bytes) {owners : Owners} {six : Bool} {r : Result DnsError Addr}
    {owners' : Owners}
    → Answers owners six (canonical u raw) r owners'
    → Confirms u owners' (resolved six raw r)
Answers-Confirms u raw (known a e s) = (e, s)
Answers-Confirms u raw (issued a fresh s) = (rw addr_eq_refl, s)
Answers-Confirms u raw (refused x) = tt

Confirms-Extends :
    (u : Unicode) (owners owners' : Owners) (x : Answer)
    → Extends owners owners'
    → Confirms u owners x
    → Confirms u owners' x
Confirms-Extends u owners owners' (resolved six name (ok a)) ext (e, s) = (ext a _ e, s)
Confirms-Extends u owners owners' (resolved six name (err e)) ext h = tt
Confirms-Extends u owners owners' (reversed a (some n)) ext h = ext (unmap a) n h
Confirms-Extends u owners owners' (reversed a none) ext h = tt

-- One table of owners, grown from the given one, confirms every answer of a run.
abbrev IsConfirmed : Unicode → Owners → VirtualDns × List Answer → Type 0
IsConfirmed u owners (d, answers) =
    (owners' : Owners) × Extends owners owners'
    × IsValid owners' d
    × All (Confirms u owners') answers

reverse_answer :
    (u : Unicode) (owners : Owners) (a : Addr) (r : Option Bytes)
    → ((n : Bytes) → r ≡ some n → owners (unmap a) ≡ some n)
    → Confirms u owners (reversed a r)
reverse_answer u owners a none h = tt
reverse_answer u owners a (some n) h = h n refl

run-IsConfirmed :
    (u : Unicode) (calls : List Call) (owners : Owners) (d : VirtualDns)
    → IsValid owners d
    → IsConfirmed u owners (run u calls d)
unfolding run
run-IsConfirmed u [] owners d v = (owners, λ a n e. e, v, tt)
run-IsConfirmed u (query six name ∷ calls) owners d v =
    let (o₁, answer, v₁) = resolve-Refines u owners six name d v in
    let (o₂, ext, v₂, all_rest) = run-IsConfirmed u calls o₁ (resolve u six name d).0 v₁ in
    (
      o₂,
      λ a n e. ext a n (Answers-Extends answer a n e),
      v₂,
      (
        Confirms-Extends u o₁ o₂ (resolved six name (resolve u six name d).1) ext
            (Answers-Confirms u name answer),
        all_rest,
      ),
    )
run-IsConfirmed u (dial a ∷ calls) owners d v =
    let (named, v₁) = reverse_lookup-Refines owners a d v in
    let (o₂, ext, v₂, all_rest) = run-IsConfirmed u calls owners (reverse_lookup a d).0 v₁ in
    (
      o₂,
      ext,
      v₂,
      (
        Confirms-Extends u owners o₂ (reversed a (reverse_lookup a d).1) ext
            (reverse_answer u owners a (reverse_lookup a d).1 named),
        all_rest,
      ),
    )

-- In any run of a new resolver, one table of owners confirms all the answers: each address
-- handed out is synthetic and belongs to the canonical name that was asked for, and Reverse
-- names the owner of the address or nothing.
pub run-Confirms :
    (u : Unicode) (calls : List Call)
    → (owners : Owners) × All (Confirms u owners) (run u calls new_virtual_dns).1
run-Confirms u calls =
    let (owners, _, _, confirmed) =
      run-IsConfirmed u calls no_owners new_virtual_dns new_virtual_dns-IsValid in
    (owners, confirmed)

-- The names and addresses that queries were answered with.
unfoldable pub handed_out : Unicode → List Answer → List (Bytes × Addr)
handed_out u [] = []
handed_out u (resolved six name (ok a) ∷ rs) = (canonical u name, a) ∷ handed_out u rs
handed_out u (resolved six name (err e) ∷ rs) = handed_out u rs
handed_out u (reversed a r ∷ rs) = handed_out u rs

-- Membership that keeps its place.
abbrev pub In : Bytes → Addr → List (Bytes × Addr) → Type 0
In n a [] = ⊥
In n a ((m, b) ∷ l) = ((m ≡ n) × (b ≡ a)) ⊎ In n a l

handed_out_owner :
    (u : Unicode) (owners : Owners) (rs : List Answer) (n : Bytes) (a : Addr)
    → All (Confirms u owners) rs
    → In n a (handed_out u rs)
    → owners a ≡ some n
unfolding handed_out
handed_out_owner u owners [] n a h i = absurd i
handed_out_owner u owners (resolved six name (ok b) ∷ rs) n a ((e, s), h) (inl (p, q)) = cc
handed_out_owner u owners (resolved six name (ok b) ∷ rs) n a (hx, h) (inr i) =
    handed_out_owner u owners rs n a h i
handed_out_owner u owners (resolved six name (err e) ∷ rs) n a (hx, h) i =
    handed_out_owner u owners rs n a h i
handed_out_owner u owners (reversed b r ∷ rs) n a (hx, h) i = handed_out_owner u owners rs n a h i

-- No run hands one address out to two names, whatever was forgotten in between.
pub run_never_reuses :
    (u : Unicode) (calls : List Call) (n m : Bytes) (a : Addr)
    → In n a (handed_out u (run u calls new_virtual_dns).1)
    → In m a (handed_out u (run u calls new_virtual_dns).1)
    → n ≡ m
run_never_reuses u calls n m a i j =
    let (owners, confirmed) = run-Confirms u calls in
    cc (handed_out_owner u owners _ n a confirmed i, handed_out_owner u owners _ m a confirmed j)

-- After any run each family remembers at most 65536 names.
pub run_bounded :
    (u : Unicode) (calls : List Call) (six : Bool)
    → length (family_of six (run u calls new_virtual_dns).0).order ≤ max_synthetic_names
run_bounded u calls six =
    let (_, _, v, _) = run-IsConfirmed u calls no_owners new_virtual_dns new_virtual_dns-IsValid in
    (v.families six).bounded
