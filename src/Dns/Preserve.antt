-- ===== src/Dns/Preserve.antt =====
-- Each change of state in sdk/pkg/tun2connect/dns.go keeps the invariant.
use agents_net.Base.{
  ◌≤◌, ◌<◌, ◌≡◌, ◌≢◌, refl, Bool, true, false, not, Option, some, none, arith, length, leb,
  Bool-cases, inl, inr, ◌⊎◌,
}
use agents_net.Base.Bytes.{Bytes, bytes_eq, bytes_eq_refl}
use agents_net.Netip.{Addr, addr_eq, is6}
use agents_net.Netip.Equality.{number, addr_eq_iff}
use agents_net.Dns.{
  Binding, Family, VirtualDns, put, max_synthetic_names, family_of, with_family, remove_addr,
  move_to_front, back, evict,
}
use agents_net.Dns.Lists.{
  holds, length-remove_addr, length-move_to_front, back-holds, back-some, All-remove_addr,
  All-move_to_front, All-back,
}
use agents_net.Dns.Invariant.{Owners, IsListed, IsNamed, IsFamily, IsReversed, IsValid}

-- What was handed out stays handed out.
abbrev pub Extends : Owners → Owners → Type 0
Extends owners owners' = (a : Addr) (n : Bytes) → owners a ≡ some n → owners' a ≡ some n

abbrev pub rebuilt : Bool → Family → (Addr → Option Binding) → VirtualDns → VirtualDns
rebuilt six g r d = record (with_family six g d) { reverse = r }

-- A state with one family, the reverse map and the owners changed.
module _ (owners owners' : Owners) (d : VirtualDns) (r : Addr → Option Binding) where
  pub rebuild :
      (six : Bool) (g : Family)
      → IsFamily owners' r six g
      → IsFamily owners' r (not six) (family_of (not six) d)
      → ((a : Addr) (b : Binding) → r a ≡ some b → IsReversed owners' a b)
      → number (family_of six d).last ≤ number g.last
      → ((a : Addr) (n : Bytes)
          → owners' a ≡ some n
          → (owners a ≡ some n) ⊎ ((is6 a ≡ six) × (number a ≤ number g.last)))
      → IsValid owners d
      → IsValid owners' (rebuilt six g r d)
  rebuild six g own other rev grows new v = record {
    families = fams six g own other;
    reversed = rev;
    issued = λ a n e. bound six g grows a n (new a n e);
  }
    where
      fams :
          (six : Bool) (g : Family)
          → IsFamily owners' r six g
          → IsFamily owners' r (not six) (family_of (not six) d)
          → (s : Bool) → IsFamily owners' r s (family_of s (rebuilt six g r d))
      fams false g own other false = own
      fams false g own other true = other
      fams true g own other false = other
      fams true g own other true = own

      last_of :
          (six s : Bool) (g : Family)
          → number (family_of six d).last ≤ number g.last
          → number (family_of s d).last ≤ number (family_of s (rebuilt six g r d)).last
      last_of false false g h = h
      last_of false true g h = omega arith
      last_of true false g h = omega arith
      last_of true true g h = h

      own_last : (six : Bool) (g : Family) → (family_of six (rebuilt six g r d)).last ≡ g.last
      own_last false g = refl
      own_last true g = refl

      bound :
          (six : Bool) (g : Family)
          → number (family_of six d).last ≤ number g.last
          → (a : Addr) (n : Bytes)
          → (owners a ≡ some n) ⊎ ((is6 a ≡ six) × (number a ≤ number g.last))
          → number a ≤ number (family_of (is6 a) (rebuilt six g r d)).last
      bound six g h a n (inl old) = omega (arith, v.issued a n old, last_of six (is6 a) g h)
      bound six g h a n (inr (e, le)) = rw (e, own_last) le

-- A use of a name moves it to the front of its family.
abbrev pub touch : Bool → Binding → VirtualDns → VirtualDns
touch six b d =
    let f = family_of six d in with_family six (record f { order = move_to_front b f.order }) d

touch_family :
    (owners : Owners) (r : Addr → Option Binding) (six : Bool) (b : Binding) (f : Family)
    → IsListed owners six b
    → IsFamily owners r six f
    → IsFamily owners r six (record f { order = move_to_front b f.order })
touch_family owners r six b f hb h = record {
  pool = h.pool;
  reserved = h.reserved;
  last_kind = h.last_kind;
  named = h.named;
  listed = All-move_to_front (IsListed owners six) b f.order hb h.listed;
  bounded = rw (length-move_to_front b f.order) h.bounded;
}

pub touch-IsValid :
    (owners : Owners) (six : Bool) (b : Binding) (d : VirtualDns)
    → IsListed owners six b
    → IsValid owners d
    → IsValid owners (touch six b d)
touch-IsValid owners false b d hb v =
    rebuild owners owners d d.reverse false _
      (touch_family owners d.reverse false b _ hb (v.families false)) (v.families true) v.reversed
      (omega arith) (λ a n e. inl e) v
touch-IsValid owners true b d hb v =
    rebuild owners owners d d.reverse true _
      (touch_family owners d.reverse true b _ hb (v.families true)) (v.families false) v.reversed
      (omega arith) (λ a n e. inl e) v

-- A binding that is not the evicted one is found under its name as before.
IsNamed-kept :
    (owners : Owners) (r : Addr → Option Binding) (s : Bool) (o b : Binding) (n : Bytes)
    → b.addr ≢ o.addr
    → IsNamed owners r s n b
    → IsNamed owners (put addr_eq o.addr none r) s n b
IsNamed-kept owners r s o b n differ h = record {
  same = h.same;
  listed = h.listed;
  reversed = ground (arith, addr_eq_iff b.addr o.addr, h.reversed);
}

-- Without the element of an address, its name and its reverse entry.
abbrev evicted_family : Binding → Family → Family
evicted_family o f = record f {
  names = put bytes_eq o.name none f.names;
  order = remove_addr o.addr f.order;
}

evict_own :
    (owners : Owners) (r : Addr → Option Binding) (six : Bool) (o : Binding) (f : Family)
    → IsListed owners six o
    → holds o.addr f.order ≡ true
    → IsFamily owners r six f
    → IsFamily owners (put addr_eq o.addr none r) six (evicted_family o f)
evict_own owners r six o f ho held h = record {
  pool = h.pool;
  reserved = h.reserved;
  last_kind = h.last_kind;
  named = λ n b e. elim (Bool-cases (bytes_eq n o.name)) [
    | inl same ↦ absurd (cc same)
    | inr other ↦
        let old = h.named n b (rw other at e) in
        IsNamed-kept owners r six o b n
          (λ q. cc (bytes_eq_refl n, old.same, old.listed.owned, ho.owned)) old
  ];
  listed = All-remove_addr (IsListed owners six) o.addr f.order h.listed;
  bounded = omega (arith, length-remove_addr o.addr f.order held, h.bounded);
}

pub not-ne : (b : Bool) → not b ≡ b → ⊥
not-ne true e = cc
not-ne false e = cc

evict_other :
    (owners : Owners) (r : Addr → Option Binding) (six : Bool) (o : Binding) (f : Family)
    → IsListed owners six o
    → IsFamily owners r (not six) f
    → IsFamily owners (put addr_eq o.addr none r) (not six) f
evict_other owners r six o f ho h = record {
  pool = h.pool;
  reserved = h.reserved;
  last_kind = h.last_kind;
  named = λ n b e.
      let old = h.named n b e in
      IsNamed-kept owners r (not six) o b n
        (λ q. not-ne six (cc (old.listed.synthetic.kind, ho.synthetic.kind))) old;
  listed = h.listed;
  bounded = h.bounded;
}

IsReversed-kept :
    (owners : Owners) (r : Addr → Option Binding) (o : Addr)
    → ((a : Addr) (b : Binding) → r a ≡ some b → IsReversed owners a b)
    → (a : Addr) (b : Binding) → put addr_eq o none r a ≡ some b
    → IsReversed owners a b
IsReversed-kept owners r o h a b e = elim (Bool-cases (addr_eq a o)) [
  | inl same ↦ absurd (cc same)
  | inr other ↦ h a b (rw other at e)
]

-- Eviction makes room in its family, changes no `last`, and keeps the invariant.
pub record IsEvicted (owners : Owners) (six : Bool) (d d' : VirtualDns) : Type 0 where
  pub valid : IsValid owners d'
  pub room : length (family_of six d').order < max_synthetic_names
  pub last : (family_of six d').last ≡ (family_of six d).last

evict_step :
    (owners : Owners) (six : Bool) (o : Binding) (d : VirtualDns)
    → back (family_of six d).order ≡ some o
    → IsValid owners d
    → IsEvicted owners six d
        (rebuilt six (evicted_family o (family_of six d)) (put addr_eq o.addr none d.reverse) d)
evict_step owners false o d e v =
    let f = d.v4_family in
    let own = v.families false in
    let ho = All-back (IsListed owners false) f.order o e own.listed in
    let held = back-holds f.order o e in
    record {
      valid =
          rebuild owners owners d (put addr_eq o.addr none d.reverse) false (evicted_family o f)
            (evict_own owners d.reverse false o f ho held own)
            (evict_other owners d.reverse false o d.v6_family ho (v.families true))
            (IsReversed-kept owners d.reverse o.addr v.reversed) (omega arith) (λ a n p. inl p) v;
      room = omega (arith, length-remove_addr o.addr f.order held, own.bounded);
      last = refl;
    }
evict_step owners true o d e v =
    let f = d.v6_family in
    let own = v.families true in
    let ho = All-back (IsListed owners true) f.order o e own.listed in
    let held = back-holds f.order o e in
    record {
      valid =
          rebuild owners owners d (put addr_eq o.addr none d.reverse) true (evicted_family o f)
            (evict_own owners d.reverse true o f ho held own)
            (evict_other owners d.reverse true o d.v4_family ho (v.families false))
            (IsReversed-kept owners d.reverse o.addr v.reversed) (omega arith) (λ a n p. inl p) v;
      room = omega (arith, length-remove_addr o.addr f.order held, own.bounded);
      last = refl;
    }

pub evict-IsEvicted :
    (owners : Owners) (six : Bool) (d : VirtualDns)
    → IsValid owners d
    → IsEvicted owners six d (evict six d)
unfolding evict
evict-IsEvicted owners six d v =
    elim (Bool-cases (leb max_synthetic_names (length (family_of six d).order))) [
      | inl full ↦
          let (o, e) = back-some (family_of six d).order (ground arith) in
          rw (full, e) (evict_step owners six o d e v)
      | inr room ↦ rw room (record { valid = v; room = ground arith; last = refl })
    ]
