-- ===== src/Dns/Refine.antt =====
-- `resolve` and `Reverse` of sdk/pkg/tun2connect/dns.go against the table of owners.
use agents_net.Base.{
  ◌≡◌, sym, ◌∙◌, ap, Bool, true, false, some, none, [], arith, Bool-cases, Option-cases, inl, inr,
}
use mathlib.Core.Path.{subst}
use agents_net.Base.Bytes.{Bytes, bytes_eq}
use agents_net.Base.Result.{Result, ok, err}
use agents_net.Base.Unicode.{Unicode}
use agents_net.Netip.{Addr, is6, next, contains, unmap}
use agents_net.Netip.Equality.{next_contained}
use agents_net.Dns.{
  VirtualDns, DnsError, empty_name, pool_exhausted, family_of, evict, bind_name, canonical,
  resolve_canonical, resolve, reverse_lookup,
}
use agents_net.Dns.Invariant.{Owners, IsSynthetic, IsListed, IsValid}
use agents_net.Dns.Preserve.{touch-IsValid, evict-IsEvicted}
use agents_net.Dns.Bind.{grant, bind_name-IsValid}

-- What the table allows a query for a name to answer, and the table behind it: a known address
-- of that name, a new address, or an error.
pub data Answers (owners : Owners) (six : Bool) (name : Bytes)
    : Result DnsError Addr → Owners → Type 0 where
  known :
      (a : Addr) → owners a ≡ some name → IsSynthetic six a → Answers owners six name (ok a) owners
  issued :
      (a : Addr)
      → owners a ≡ none
      → IsSynthetic six a
      → Answers owners six name (ok a) (grant a name owners)
  refused : (e : DnsError) → Answers owners six name (err e) owners

abbrev Refines : Owners → Bool → Bytes → VirtualDns × Result DnsError Addr → Type 0
Refines owners six name (d', r) =
    (owners' : Owners) × Answers owners six name r owners' × IsValid owners' d'

-- The next address of a valid family is nobody's.
module _ (owners : Owners) (six : Bool) (d : VirtualDns) (v : IsValid owners d) where
  next-IsSynthetic :
      contains (family_of six d).pool (next (family_of six d).last) ≡ true
      → contains (family_of six d).reserved (next (family_of six d).last) ≡ false
      → IsSynthetic six (next (family_of six d).last)
  next-IsSynthetic inside outside =
      let f = v.families six in
      record {
        kind =
            (next_contained (family_of six d).pool (family_of six d).last inside).1 ∙ f.last_kind;
        pooled = cc (f.pool);
        unreserved = cc (f.reserved);
      }

  next_fresh :
      contains (family_of six d).pool (next (family_of six d).last) ≡ true
      → owners (next (family_of six d).last) ≡ none
  next_fresh inside =
      let f = v.families six in
      let (up, kind) = next_contained (family_of six d).pool (family_of six d).last inside in
      elim (Option-cases (owners (next (family_of six d).last))) [
        | inl none_yet ↦ none_yet
        | inr (n, e) ↦
            let le = v.issued _ n e in
            let same : is6 (next (family_of six d).last) ≡ six = kind ∙ f.last_kind in
            absurd (omega (arith, rw same at le))
      ]

  issue-Refines :
      (name : Bytes)
      → contains (family_of six d).pool (next (family_of six d).last) ≡ true
      → contains (family_of six d).reserved (next (family_of six d).last) ≡ false
      → Refines owners six name (
        bind_name six name (next (family_of six d).last) (evict six d),
        ok (next (family_of six d).last),
      )
  issue-Refines name inside outside =
      let addr = next (family_of six d).last in
      let fresh = next_fresh inside in
      let synthetic = next-IsSynthetic inside outside in
      let ev = evict-IsEvicted owners six d v in
      let (up, _) = next_contained (family_of six d).pool (family_of six d).last inside in
      (
        grant addr name owners,
        issued addr fresh synthetic,
        bind_name-IsValid owners six name addr (evict six d) fresh synthetic ev.room
            (rw (ev.last) (omega arith)) ev.valid,
      )

  -- A query on a canonical name answers as the table allows, and keeps the invariant.
  pub resolve_canonical-Refines :
      (name : Bytes) → Refines owners six name (resolve_canonical six name d)
  unfolding resolve_canonical
  resolve_canonical-Refines name = elim (Option-cases ((family_of six d).names name)) [
    | inr (b, e) ↦
        let n = (v.families six).named name b e in
        rw (e, resolve_canonical)
          (
            owners,
            known b.addr (n.listed.owned ∙ ap some n.same) n.listed.synthetic,
            touch-IsValid owners six b d n.listed v,
          )
    | inl miss ↦
        rw (miss, resolve_canonical)
          (elim (Bool-cases (contains (family_of six d).pool (next (family_of six d).last))) [
            | inl inside ↦
                elim (Bool-cases
                  (contains (family_of six d).reserved (next (family_of six d).last))) [
                    | inl reserved ↦ rw (inside, reserved) (owners, refused pool_exhausted, v)
                    | inr outside ↦ rw (inside, outside) (issue-Refines name inside outside)
                  ]
            | inr outside ↦ rw outside (owners, refused pool_exhausted, v)
          ])
  ]

-- A query answers as the table allows for the canonical name, and keeps the invariant.
pub resolve-Refines :
    (u : Unicode) (owners : Owners) (six : Bool) (name : Bytes) (d : VirtualDns)
    → IsValid owners d
    → (owners' : Owners) × Answers owners six (canonical u name) (resolve u six name d).1 owners'
      × IsValid owners' (resolve u six name d).0
unfolding resolve
resolve-Refines u owners six name d v = elim (Bool-cases (bytes_eq (canonical u name) [])) [
  | inl empty ↦ rw empty (owners, refused empty_name, v)
  | inr named ↦ rw named (resolve_canonical-Refines owners six d v (canonical u name))
]

-- Reverse names only the owner of an address, and keeps the invariant.
pub reverse_lookup-Refines :
    (owners : Owners) (a : Addr) (d : VirtualDns)
    → IsValid owners d
    → ((n : Bytes) → (reverse_lookup a d).1 ≡ some n → owners (unmap a) ≡ some n)
      × IsValid owners (reverse_lookup a d).0
unfolding reverse_lookup
reverse_lookup-Refines owners a d v = elim (Option-cases (d.reverse (unmap a))) [
  | inl miss ↦ rw (miss, reverse_lookup) (λ n e. absurd (cc), v)
  | inr (b, e) ↦
      let (at_a, listed) = v.reversed (unmap a) b e in
      rw (e, reverse_lookup)
        (
          λ n q. rw (← at_a) (listed.owned ∙ q),
          touch-IsValid owners (is6 b.addr) b d
              (subst (λ x. IsListed owners (is6 x) b) (sym at_a) listed) v,
        )
]
