-- ===== src/Dns/Invariant.antt =====
-- The abstract view of the resolver: a table of owners, which gives each address handed out so
-- far the name that it was handed out for and is only ever added to, and what ties a state of
-- sdk/pkg/tun2connect/dns.go to it.
use agents_net.Base.{◌≤◌, ◌≡◌, refl, Bool, true, false, Option, some, none, arith, length, All}
use agents_net.Base.Bytes.{Bytes}
use agents_net.Netip.{Addr, invalid, v4, v6, Prefix, contains, unmap, is6}
use agents_net.Netip.Equality.{number}
use agents_net.Dns.{
  Binding, Family, VirtualDns, v4_pool, v6_pool, v4_reserved, v6_reserved, max_synthetic_names,
  family_of, new_virtual_dns,
}

abbrev pub Owners : Type 0
Owners = Addr → Option Bytes

abbrev pub pool_of : Bool → Prefix
pool_of false = v4_pool
pool_of true = v6_pool

abbrev pub reserved_of : Bool → Prefix
reserved_of false = v4_reserved
reserved_of true = v6_reserved

-- An address that the resolver may hand out for a family.
pub record IsSynthetic (six : Bool) (a : Addr) : Type 0 where
  pub kind : is6 a ≡ six
  pub pooled : contains (pool_of six) a ≡ true
  pub unreserved : contains (reserved_of six) a ≡ false

pub record IsListed (owners : Owners) (six : Bool) (b : Binding) : Type 0 where
  pub owned : owners b.addr ≡ some b.name
  pub synthetic : IsSynthetic six b.addr

pub record IsNamed (owners : Owners) (reverse : Addr → Option Binding) (six : Bool) (n : Bytes)
    (b : Binding) : Type 0 where
  pub same : b.name ≡ n
  pub listed : IsListed owners six b
  pub reversed : reverse b.addr ≡ some b

pub record IsFamily (owners : Owners) (reverse : Addr → Option Binding) (six : Bool) (f : Family)
    : Type 0 where
  pub pool : f.pool ≡ pool_of six
  pub reserved : f.reserved ≡ reserved_of six
  pub last_kind : is6 f.last ≡ six
  pub named : (n : Bytes) (b : Binding) → f.names n ≡ some b → IsNamed owners reverse six n b
  pub listed : All (IsListed owners six) f.order
  pub bounded : length f.order ≤ max_synthetic_names

-- What the reverse map holds for an address.
abbrev pub IsReversed : Owners → Addr → Binding → Type 0
IsReversed owners a b = (b.addr ≡ a) × IsListed owners (is6 a) b

pub record IsValid (owners : Owners) (d : VirtualDns) : Type 0 where
  pub families : (six : Bool) → IsFamily owners d.reverse six (family_of six d)
  pub reversed : (a : Addr) (b : Binding) → d.reverse a ≡ some b → IsReversed owners a b
  pub issued :
      (a : Addr) (n : Bytes) → owners a ≡ some n → number a ≤ number (family_of (is6 a) d).last

-- No address has an owner yet.
abbrev pub no_owners : Owners
no_owners a = none

-- A new resolver is valid for the table in which no address has an owner.
pub new_virtual_dns-IsValid : IsValid no_owners new_virtual_dns
unfolding new_virtual_dns
new_virtual_dns-IsValid = record {
  families = new_family-IsFamily;
  reversed = λ a b e. absurd (cc);
  issued = λ a n e. absurd (cc);
}
  where
    new_family-IsFamily :
        (six : Bool) → IsFamily no_owners (λ a. none) six (family_of six new_virtual_dns)
    new_family-IsFamily false = record {
      pool = refl;
      reserved = refl;
      last_kind = refl;
      named = λ n b e. absurd (cc);
      listed = tt;
      bounded = omega arith;
    }
    new_family-IsFamily true = record {
      pool = refl;
      reserved = refl;
      last_kind = refl;
      named = λ n b e. absurd (cc);
      listed = tt;
      bounded = omega arith;
    }

-- A synthetic address is no mapped address.
pub unmap_synthetic : (six : Bool) (a : Addr) → IsSynthetic six a → unmap a ≡ a
unfolding unmap contains
unmap_synthetic six invalid s = refl
unmap_synthetic six (v4 n) s = refl
unmap_synthetic false (v6 n z) s = cc (s.kind)
unmap_synthetic true (v6 n z) s = ground (arith, s.pooled)
