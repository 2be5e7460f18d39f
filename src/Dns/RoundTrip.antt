-- ===== src/Dns/RoundTrip.antt =====
-- `resolve` and then `Reverse` of sdk/pkg/tun2connect/dns.go.
use agents_net.Base.{
  ◌≡◌, refl, ◌∙◌, ap, Bool, true, false, not, ◌||◌, some, [], Bool-cases, Option-cases, inl, inr,
}
use mathlib.Core.Path.{subst}
use agents_net.Base.Bytes.{Bytes, bytes_eq}
use agents_net.Base.Result.{Result, ok, err}
use agents_net.Base.Unicode.{Unicode}
use agents_net.Netip.{Addr, next, contains, unmap}
use agents_net.Netip.Equality.{addr_eq_refl}
use agents_net.Dns.{
  Binding, VirtualDns, DnsError, family_of, evict, bind_name, canonical, resolve_canonical, resolve,
  reverse_lookup,
}
use agents_net.Dns.Invariant.{Owners, IsSynthetic, IsValid, unmap_synthetic}
use agents_net.Dns.Preserve.{touch}
use agents_net.Dns.Refine.{Answers, known, issued, refused, resolve-Refines}

-- An address that the reverse map takes to a name.
abbrev LeadsTo : VirtualDns → Addr → Bytes → Type 0
LeadsTo d a name = (b : Binding) × (d.reverse a ≡ some b) × (b.name ≡ name)

touch-reverse : (six : Bool) (b : Binding) (d : VirtualDns) → (touch six b d).reverse ≡ d.reverse
touch-reverse false b d = refl
touch-reverse true b d = refl

bind_name-LeadsTo :
    (six : Bool) (name : Bytes) (a : Addr) (d : VirtualDns)
    → LeadsTo (bind_name six name a d) a name
unfolding bind_name
bind_name-LeadsTo six name a d = (record { name = name; addr = a }, rw addr_eq_refl, refl)

ok-eq : {x y : Addr} → ◌≡◌ {A = Result DnsError Addr} (ok x) (ok y) → x ≡ y
ok-eq e = cc

err-ne-ok : {x : DnsError} {y : Addr} → ◌≡◌ {A = Result DnsError Addr} (err x) (ok y) → ⊥
err-ne-ok e = cc

resolve_canonical-LeadsTo :
    (owners : Owners) (six : Bool) (name : Bytes) (d : VirtualDns) (a : Addr)
    → IsValid owners d
    → (resolve_canonical six name d).1 ≡ ok a
    → LeadsTo (resolve_canonical six name d).0 a name
unfolding resolve_canonical
resolve_canonical-LeadsTo owners six name d a v e =
    elim (Option-cases ((family_of six d).names name)) [
      | inr (b, hit) ↦
          let n = (v.families six).named name b hit in
          let q : b.addr ≡ a = ok-eq (rw (hit, resolve_canonical) at e) in
          rw (hit, resolve_canonical)
            (
              b,
              ap (λ m. m a) (touch-reverse six b d)
                  ∙ subst (λ x. d.reverse x ≡ some b) q n.reversed,
              n.same,
            )
      | inl miss ↦
          elim (Bool-cases (
            not (contains (family_of six d).pool (next (family_of six d).last))
            || contains (family_of six d).reserved (next (family_of six d).last))) [
              | inl out ↦ absurd (err-ne-ok (rw (miss, resolve_canonical, out) at e))
              | inr inside ↦
                  let q : next (family_of six d).last ≡ a =
                    ok-eq (rw (miss, resolve_canonical, inside) at e) in
                  rw (miss, resolve_canonical, inside)
                    (rw (← q)
                      (bind_name-LeadsTo six name (next (family_of six d).last) (evict six d)))
            ]
    ]

reverse_lookup-LeadsTo :
    (d : VirtualDns) (a : Addr) (name : Bytes)
    → unmap a ≡ a
    → LeadsTo d a name
    → (reverse_lookup a d).1 ≡ some name
unfolding reverse_lookup
reverse_lookup-LeadsTo d a name plain (b, e, same) = rw (plain, e, reverse_lookup) (ap some same)

pub Answers-IsSynthetic :
    {owners : Owners} {six : Bool} {name : Bytes} {r : Result DnsError Addr} {owners' : Owners}
    (a : Addr)
    → Answers owners six name r owners'
    → r ≡ ok a
    → IsSynthetic six a
Answers-IsSynthetic {six} a (known b e s) q = subst (IsSynthetic six) (ok-eq q) s
Answers-IsSynthetic {six} a (issued b fresh s) q = subst (IsSynthetic six) (ok-eq q) s
Answers-IsSynthetic a (refused x) q = absurd (err-ne-ok q)

-- In a valid state, Reverse takes the address that a query was just answered with back to the
-- canonical form of the name that was asked for.
pub reverse_lookup-resolve :
    (u : Unicode) (owners : Owners) (six : Bool) (name : Bytes) (d : VirtualDns) (a : Addr)
    → IsValid owners d
    → (resolve u six name d).1 ≡ ok a
    → (reverse_lookup a (resolve u six name d).0).1 ≡ some (canonical u name)
unfolding resolve
reverse_lookup-resolve u owners six name d a v e =
    let (owners', answer, _) = resolve-Refines u owners six name d v in
    let plain = unmap_synthetic six a (Answers-IsSynthetic a answer e) in
    elim (Bool-cases (bytes_eq (canonical u name) [])) [
      | inl empty ↦ absurd (err-ne-ok (rw empty at e))
      | inr named ↦ rw named (
          reverse_lookup-LeadsTo _ a _ plain
            (resolve_canonical-LeadsTo owners six (canonical u name) d a v (rw named at e)))
    ]
