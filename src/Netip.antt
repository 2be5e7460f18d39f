-- ===== src/Netip.antt =====
-- The parts of Go's net/netip that the program calls: addresses, prefixes and classifiers.
-- An IPv4 address is a number below 2^32, an IPv6 address one below 2^128 with its zone.
pub mod Equality
pub mod Nested
use agents_net.Base.{
  ℕ, ◌+◌, ◌-◌, ◌*◌, ◌/◌, ◌%◌, ◌^◌, ◌<◌, ◌≤◌, Bool, true, false, not, ◌&&◌, ◌||◌, [], ltb, leb, ◌==◌,
  if◌then◌else◌,
}
use agents_net.Base.Bytes.{Bytes, bytes_eq}

pub data Addr : Type 0 where
  -- The zero netip.Addr.
  invalid : Addr
  v4 : ℕ → Addr
  v6 : ℕ → Bytes → Addr

pub record Prefix : Type 0 where
  pub addr : Addr
  pub bits : ℕ

abbrev pub is_valid : Addr → Bool
is_valid invalid = false
is_valid _ = true

abbrev pub is4 : Addr → Bool
is4 (v4 n) = true
is4 _ = false

-- Is6, which a 4in6 address satisfies too.
abbrev pub is6 : Addr → Bool
is6 (v6 n z) = true
is6 _ = false

abbrev pub zone : Addr → Bytes
zone (v6 n z) = z
zone _ = []

abbrev pub bit_len : Addr → ℕ
bit_len invalid = 0
bit_len (v4 n) = 32
bit_len (v6 n z) = 128

-- ::ffff:0:0/96
abbrev pub is4in6 : Addr → Bool
is4in6 (v6 n z) = n / 2 ^ 32 == 0xffff
is4in6 _ = false

-- Unmap drops the zone of a mapped address with the mapping.
unfoldable pub unmap : Addr → Addr
unmap (v6 n z) = if n / 2 ^ 32 == 0xffff then v4 (n % 2 ^ 32) else v6 n z
unmap a = a

-- Next is the zero Addr behind the last address of a family.
unfoldable pub next : Addr → Addr
next invalid = invalid
next (v4 n) = if n + 1 == 2 ^ 32 then invalid else v4 (n + 1)
next (v6 n z) = if n + 1 == 2 ^ 128 then invalid else v6 (n + 1) z

-- `a == b` on netip.Addr.
unfoldable pub addr_eq : Addr → Addr → Bool
unfolding bytes_eq
addr_eq invalid invalid = true
addr_eq (v4 a) (v4 b) = a == b
addr_eq (v6 a z) (v6 b y) = (a == b) && bytes_eq z y
addr_eq _ _ = false

-- Two numbers of `width` bits with the same first `bits` bits.
abbrev pub same_prefix : ℕ → ℕ → ℕ → ℕ → Bool
same_prefix width bits a b = a / 2 ^ (width - bits) == b / 2 ^ (width - bits)

abbrev pub contains_addr : Addr → ℕ → Addr → Bool
contains_addr (v4 b) bits (v4 a) = same_prefix 32 bits a b
contains_addr (v6 b z) bits (v6 a y) = bytes_eq y [] && same_prefix 128 bits a b
contains_addr _ bits _ = false

-- Prefix.Contains, for a prefix whose length fits its address. An address with a zone is in none.
unfoldable pub contains : Prefix → Addr → Bool
unfolding bytes_eq
contains p a = contains_addr p.addr p.bits a

abbrev pub mask : Addr → ℕ → Addr
mask (v4 n) bits = v4 (n / 2 ^ (32 - bits) * 2 ^ (32 - bits))
mask (v6 n z) bits = v6 (n / 2 ^ (128 - bits) * 2 ^ (128 - bits)) []
mask invalid bits = invalid

-- Prefix.Masked
unfoldable pub masked : Prefix → Prefix
masked p = record { addr = mask p.addr p.bits; bits = p.bits }

abbrev pub is_loopback : Addr → Bool
is_loopback (v4 n) = n / 2 ^ 24 == 127
is_loopback (v6 n z) = n == 1
is_loopback invalid = false

abbrev pub is_multicast : Addr → Bool
is_multicast (v4 n) = n / 2 ^ 28 == 0xe
is_multicast (v6 n z) = n / 2 ^ 120 == 0xff
is_multicast invalid = false

abbrev pub is_link_local_unicast : Addr → Bool
is_link_local_unicast (v4 n) = n / 2 ^ 16 == 0xa9fe
is_link_local_unicast (v6 n z) = n / 2 ^ 118 == 0x3fa
is_link_local_unicast invalid = false

abbrev pub private_unmapped : Addr → Bool
private_unmapped (v4 n) = (n / 2 ^ 24 == 10) || (n / 2 ^ 20 == 0xac1) || (n / 2 ^ 16 == 0xc0a8)
private_unmapped (v6 n z) = n / 2 ^ 121 == 0x7e
private_unmapped invalid = false

unfoldable pub is_private : Addr → Bool
unfolding unmap
is_private a = private_unmapped (unmap a)

-- 0.0.0.0 and 255.255.255.255, and :: without a zone.
abbrev pub is_excluded : Addr → Bool
is_excluded (v4 n) = (n == 0) || (n == 2 ^ 32 - 1)
is_excluded (v6 n z) = (n == 0) && bytes_eq z []
is_excluded invalid = true

abbrev pub global_unmapped : Addr → Bool
global_unmapped a =
    not (is_excluded a)
    && not (is_loopback a)
    && not (is_multicast a)
    && not (is_link_local_unicast a)

unfoldable pub is_global_unicast : Addr → Bool
unfolding unmap bytes_eq
is_global_unicast a = global_unmapped (unmap a)
