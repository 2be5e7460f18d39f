-- ===== src/Dns.antt =====
-- sdk/pkg/tun2connect/dns.go: the resolver that invents one address for each name.
-- The maps are functions. A list element is the binding that it holds: bindings never change,
-- and no two elements of a list hold the same address.
pub mod Lists
pub mod Invariant
pub mod Preserve
pub mod Bind
pub mod Refine
pub mod Runs
pub mod RoundTrip
pub mod Query
use agents_net.Base.{
  ℕ, ◌+◌, ◌-◌, ◌/◌, ◌^◌, Bool, true, false, not, ◌&&◌, ◌||◌, Option, none, some, List, [], ◌∷◌, ltb,
  leb, ◌==◌, if◌then◌else◌, length, any,
}
use agents_net.Base.Bytes.{Bytes, codes, bytes_eq, trim_suffix}
use agents_net.Base.Result.{Result, ok, err}
use agents_net.Base.Unicode.{Unicode, to_lower}
use agents_net.Netip.{Addr, invalid, v4, v6, Prefix, next, contains, addr_eq, unmap, is6}

abbrev pub v4_pool : Prefix
v4_pool = record { addr = v4 0x6440_0000; bits = 10 }

abbrev pub v6_pool : Prefix
v6_pool = record { addr = v6 0x100_0000_0000_0000_0000_0000_0000_0000 []; bits = 64 }

abbrev pub v4_reserved : Prefix
v4_reserved = record { addr = v4 0x647f_ff00; bits = 24 }

abbrev pub v6_reserved : Prefix
v6_reserved = record { addr = v6 0x100_0000_0000_0000_ffff_ffff_ffff_ff00 []; bits = 120 }

abbrev pub max_synthetic_names : ℕ
max_synthetic_names = 65536

pub record Binding : Type 0 where
  pub name : Bytes
  pub addr : Addr

pub record Family : Type 0 where
  pub pool : Prefix
  pub reserved : Prefix
  pub last : Addr
  pub names : Bytes → Option Binding
  pub order : List Binding

pub record VirtualDns : Type 0 where
  pub v4_family : Family
  pub v6_family : Family
  pub reverse : Addr → Option Binding

pub data DnsError : Type 0 where
  empty_name pool_exhausted : DnsError

-- A write or, with `none`, a delete in a map.
abbrev pub put {ℓ κ} :
    {K : Type ℓ} {V : Type κ} → (K → K → Bool) → K → Option V → (K → Option V) → K → Option V
put eq k v m j = if eq j k then v else m j

abbrev new_family : Prefix → Prefix → Family
new_family pool reserved = record {
  pool = pool;
  reserved = reserved;
  last = pool.addr;
  names = λ n. none;
  order = [];
}

unfoldable pub new_virtual_dns : VirtualDns
new_virtual_dns = record {
  v4_family = new_family v4_pool v4_reserved;
  v6_family = new_family v6_pool v6_reserved;
  reverse = λ a. none;
}

unfoldable pub canonical : Unicode → Bytes → Bytes
canonical u name = to_lower u (trim_suffix name (codes "."))

-- The list without the element of an address.
unfoldable pub remove_addr : Addr → List Binding → List Binding
remove_addr a [] = []
remove_addr a (b ∷ bs) = if addr_eq b.addr a then bs else b ∷ remove_addr a bs

-- list.MoveToFront, which leaves a list alone that does not hold the element.
unfoldable pub move_to_front : Binding → List Binding → List Binding
move_to_front b order =
    if any (λ x. addr_eq x.addr b.addr) order then b ∷ remove_addr b.addr order else order

-- list.Back
unfoldable pub back : List Binding → Option Binding
back [] = none
back (b ∷ []) = some b
back (b ∷ c ∷ bs) = back (c ∷ bs)

abbrev pub family_of : Bool → VirtualDns → Family
family_of false d = d.v4_family
family_of true d = d.v6_family

abbrev pub with_family : Bool → Family → VirtualDns → VirtualDns
with_family false f d = record d { v4_family = f }
with_family true f d = record d { v6_family = f }

-- The eviction of the least recently used name of a full family.
unfoldable pub evict : Bool → VirtualDns → VirtualDns
evict six d =
    let f = family_of six d in
    if leb max_synthetic_names (length f.order)
    then elim (back f.order) [
      | none ↦ d
      | some oldest ↦
          let g = record f {
            names = put bytes_eq oldest.name none f.names;
            order = remove_addr oldest.addr f.order;
          } in
          record (with_family six g d) { reverse = put addr_eq oldest.addr none d.reverse }
    ]
    else d

-- The new binding of an address, at the front.
unfoldable pub bind_name : Bool → Bytes → Addr → VirtualDns → VirtualDns
bind_name six name addr d =
    let f = family_of six d in
    let b : Binding = record { name = name; addr = addr } in
    let g = record f {
      last = addr;
      order = b ∷ f.order;
      names = put bytes_eq name (some b) f.names;
    } in
    record (with_family six g d) { reverse = put addr_eq addr (some b) d.reverse }

-- The steps of `resolve` on a canonical name.
unfoldable pub resolve_canonical : Bool → Bytes → VirtualDns → VirtualDns × Result DnsError Addr
resolve_canonical six name d =
    let f = family_of six d in
    elim (f.names name) [
      | some b ↦ (with_family six (record f { order = move_to_front b f.order }) d, ok b.addr)
      | none ↦
          let addr = next f.last in
          if not (contains f.pool addr) || contains f.reserved addr
          then (d, err pool_exhausted)
          else (bind_name six name addr (evict six d), ok addr)
    ]

unfoldable pub resolve : Unicode → Bool → Bytes → VirtualDns → VirtualDns × Result DnsError Addr
resolve u six name d =
    let n = canonical u name in
    if bytes_eq n [] then (d, err empty_name) else resolve_canonical six n d

unfoldable pub reverse_lookup : Addr → VirtualDns → VirtualDns × Option Bytes
reverse_lookup a d = elim (d.reverse (unmap a)) [
  | none ↦ (d, none)
  | some b ↦
      let six = is6 b.addr in
      let f = family_of six d in
      (with_family six (record f { order = move_to_front b f.order }) d, some b.name)
]
