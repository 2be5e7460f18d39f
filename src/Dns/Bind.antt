-- ===== src/Dns/Bind.antt =====
-- A new binding in sdk/pkg/tun2connect/dns.go: an address that nobody owns yet goes to a name.
use agents_net.Base.{
  ◌≤◌, ◌<◌, ◌≡◌, refl, sym, Bool, not, Option, some, none, List, [], ◌∷◌, arith, length, All,
  Bool-cases, inl, inr, ◌⊎◌,
}
use agents_net.Base.Bytes.{Bytes, bytes_eq, bytes_eq_iff}
use mathlib.Core.Path.{subst}
use agents_net.Netip.{Addr, addr_eq, is6}
use agents_net.Netip.Equality.{number, addr_eq_iff, addr_eq_refl}
use agents_net.Dns.{Binding, Family, VirtualDns, put, max_synthetic_names, family_of, bind_name}
use agents_net.Dns.Invariant.{Owners, IsSynthetic, IsListed, IsNamed, IsFamily, IsReversed, IsValid}
use agents_net.Dns.Preserve.{rebuild, rebuilt, Extends}

some-eq : {x y : Binding} → some x ≡ some y → x ≡ y
some-eq e = cc

-- The table with one more owner.
abbrev pub grant : Addr → Bytes → Owners → Owners
grant a n owners = put addr_eq a (some n) owners

pub grant-Extends :
    (owners : Owners) (a : Addr) (n : Bytes) → owners a ≡ none → Extends owners (grant a n owners)
grant-Extends owners a n fresh b m e = elim (Bool-cases (addr_eq b a)) [
  | inl same ↦ absurd (cc ((addr_eq_iff b a).0 same))
  | inr other ↦ rw other e
]

listed_kept :
    (owners owners' : Owners) (s : Bool) (b : Binding)
    → Extends owners owners'
    → IsListed owners s b
    → IsListed owners' s b
listed_kept owners owners' s b ext h = record {
  owned = ext b.addr b.name h.owned;
  synthetic = h.synthetic;
}

All-listed_kept :
    (owners owners' : Owners) (s : Bool) (l : List Binding)
    → Extends owners owners'
    → All (IsListed owners s) l
    → All (IsListed owners' s) l
All-listed_kept owners owners' s [] ext h = tt
All-listed_kept owners owners' s (b ∷ l) ext (hb, hl) =
    (listed_kept owners owners' s b ext hb, All-listed_kept owners owners' s l ext hl)

-- What a new binding `new` of a fresh address leaves of the older ones.
module _ (owners : Owners) (new : Binding) (fresh : owners new.addr ≡ none) where
  abbrev granted : Owners
  granted = grant new.addr new.name owners

  IsNamed-kept :
      (r : Addr → Option Binding) (s : Bool) (b : Binding) (n : Bytes)
      → IsNamed owners r s n b
      → IsNamed granted (put addr_eq new.addr (some new) r) s n b
  IsNamed-kept r s b n h = record {
    same = h.same;
    listed = listed_kept owners granted s b (grant-Extends owners new.addr new.name fresh) h.listed;
    reversed = elim (Bool-cases (addr_eq b.addr new.addr)) [
      | inl same ↦ absurd (cc ((addr_eq_iff b.addr new.addr).0 same, h.listed.owned))
      | inr other ↦ rw other h.reversed
    ];
  }

  bind_other :
      (r : Addr → Option Binding) (s : Bool) (f : Family)
      → IsFamily owners r s f
      → IsFamily granted (put addr_eq new.addr (some new) r) s f
  bind_other r s f h = record {
    pool = h.pool;
    reserved = h.reserved;
    last_kind = h.last_kind;
    named = λ n b e. IsNamed-kept r s b n (h.named n b e);
    listed =
        All-listed_kept owners granted s f.order (grant-Extends owners new.addr new.name fresh)
          h.listed;
    bounded = h.bounded;
  }

  abbrev bound_family : Family → Family
  bound_family f = record f {
    last = new.addr;
    order = new ∷ f.order;
    names = put bytes_eq new.name (some new) f.names;
  }

  new_listed : (s : Bool) → IsSynthetic s new.addr → IsListed granted s new
  new_listed s h = record { owned = rw addr_eq_refl; synthetic = h }

  bind_own :
      (r : Addr → Option Binding) (s : Bool) (f : Family)
      → IsSynthetic s new.addr
      → length f.order < max_synthetic_names
      → IsFamily owners r s f
      → IsFamily granted (put addr_eq new.addr (some new) r) s (bound_family f)
  bind_own r s f synthetic room h =
      let older = bind_other r s f h in
      record {
        pool = h.pool;
        reserved = h.reserved;
        last_kind = synthetic.kind;
        named = λ n b e. elim (Bool-cases (bytes_eq n new.name)) [
          | inr other ↦ older.named n b (rw other at e)
          | inl same ↦
              let q : new ≡ b = some-eq (rw same at e) in
              subst (IsNamed granted (put addr_eq new.addr (some new) r) s n) q (record {
                same = sym ((bytes_eq_iff n new.name).0 same);
                listed = new_listed s synthetic;
                reversed = rw addr_eq_refl;
              })
        ];
        listed = (new_listed s synthetic, older.listed);
        bounded = room;
      }

  bind-IsReversed :
      (r : Addr → Option Binding)
      → IsSynthetic (is6 new.addr) new.addr
      → ((a : Addr) (b : Binding) → r a ≡ some b → IsReversed owners a b)
      → (a : Addr) (b : Binding) → put addr_eq new.addr (some new) r a ≡ some b
      → IsReversed granted a b
  bind-IsReversed r synthetic h a b e = elim (Bool-cases (addr_eq a new.addr)) [
    | inl same ↦
        let q : new ≡ b = some-eq (rw same at e) in
        let at_a = (addr_eq_iff a new.addr).0 same in
        rw (at_a, ← q) (refl, new_listed (is6 new.addr) synthetic)
    | inr other ↦
        let (same_addr, listed) = h a b (rw other at e) in
        (
          same_addr,
          listed_kept owners granted (is6 a) b (grant-Extends owners new.addr new.name fresh)
              listed,
        )
  ]

  bind_step :
      (six : Bool) (d : VirtualDns)
      → IsSynthetic six new.addr
      → length (family_of six d).order < max_synthetic_names
      → number (family_of six d).last ≤ number new.addr
      → IsValid owners d
      → IsValid granted (
          rebuilt six
            (bound_family (family_of six d))
            (put addr_eq new.addr (some new) d.reverse)
            d)
  bind_step six d synthetic room later v =
      rebuild owners granted d (put addr_eq new.addr (some new) d.reverse) six
        (bound_family (family_of six d))
        (bind_own d.reverse six (family_of six d) synthetic room (v.families six))
        (bind_other d.reverse (not six) (family_of (not six) d) (v.families (not six)))
        (bind-IsReversed d.reverse (rw synthetic.kind synthetic) v.reversed) later issued v
    where
      issued :
          (a : Addr) (n : Bytes)
          → granted a ≡ some n
          → (owners a ≡ some n) ⊎ ((is6 a ≡ six) × (number a ≤ number new.addr))
      issued a n e = elim (Bool-cases (addr_eq a new.addr)) [
        | inl same ↦
            let at_new = (addr_eq_iff a new.addr).0 same in
            inr (cc (synthetic.kind), rw at_new (omega arith))
        | inr other ↦ inl (rw other at e)
      ]

-- A fresh synthetic address goes to a name: the invariant holds with that one owner more.
pub bind_name-IsValid :
    (owners : Owners) (six : Bool) (name : Bytes) (addr : Addr) (d : VirtualDns)
    → owners addr ≡ none
    → IsSynthetic six addr
    → length (family_of six d).order < max_synthetic_names
    → number (family_of six d).last ≤ number addr
    → IsValid owners d
    → IsValid (grant addr name owners) (bind_name six name addr d)
unfolding bind_name
bind_name-IsValid owners six name addr d fresh synthetic room later v =
    bind_step owners (record { name = name; addr = addr }) fresh six d synthetic room later v
