-- ===== src/Policy/Ranges.antt =====
-- The special-purpose address ranges of sdk/cmd/connect-proxy/policy.go, publicAddress and
-- specialPurpose.
pub mod Sound
use agents_net.Base.{
  ℕ, ◌^◌, ◌*◌, ◌+◌, Bool, not, ◌&&◌, ◌||◌, List, [], ◌∷◌, ◌++◌, leb, any, if◌then◌else◌, true,
  false,
}
use agents_net.Netip.{Addr, v4, v6, Prefix, contains, is4, is_global_unicast, is_private}

abbrev pub range4 : ℕ → ℕ → ℕ → ℕ → ℕ → Prefix
range4 a b c d bits = record {
  addr = v4 (a * 0x100_0000 + b * 0x1_0000 + c * 0x100 + d);
  bits = bits;
}

-- The first three 16-bit groups of an address whose other groups are 0.
abbrev pub range6 : ℕ → ℕ → ℕ → ℕ → Prefix
range6 a b c bits = record { addr = v6 (a * 2 ^ 112 + b * 2 ^ 96 + c * 2 ^ 80) []; bits = bits }

unfoldable pub non_public : List Prefix
non_public =
    range4 0 0 0 0 8
    ∷ range4 100 64 0 0 10
    ∷ range4 192 0 0 0 24
    ∷ range4 192 0 2 0 24
    ∷ range4 198 18 0 0 15
    ∷ range4 198 51 100 0 24
    ∷ range4 203 0 113 0 24
    ∷ range4 240 0 0 0 4
    ∷ range6 0x64 0xff9b 0 96
    ∷ range6 0x64 0xff9b 1 48
    ∷ range6 0x100 0 0 64
    ∷ range6 0x2001 0 0 23
    ∷ range6 0x2001 0xdb8 0 32
    ∷ range6 0x2002 0 0 16
    ∷ range6 0x3fff 0 0 20
    ∷ range6 0x5f00 0 0 16
    ∷ range6 0xfec0 0 0 10
    ∷ []

-- The ranges that the classifiers of net/netip cover.
unfoldable pub classifier_ranges : List Prefix
classifier_ranges =
    range4 10 0 0 0 8
    ∷ range4 127 0 0 0 8
    ∷ range4 169 254 0 0 16
    ∷ range4 172 16 0 0 12
    ∷ range4 192 168 0 0 16
    ∷ range4 224 0 0 0 4
    ∷ record { addr = v6 0 []; bits = 128 }
    ∷ record { addr = v6 1 []; bits = 128 }
    ∷ range6 0xfc00 0 0 7
    ∷ range6 0xfe80 0 0 10
    ∷ range6 0xff00 0 0 8
    ∷ []

unfoldable pub public_address : Addr → Bool
public_address a =
    if not (is_global_unicast a) || is_private a
    then false
    else not (any (λ p. contains p a) non_public)

-- The range `r` covers the whole of `p`.
abbrev pub covers : Prefix → Prefix → Bool
covers p r = same_family (is4 r.addr) (is4 p.addr) && leb r.bits p.bits && contains r p.addr
  where
    same_family : Bool → Bool → Bool
    same_family true b = b
    same_family false b = not b

unfoldable pub special_purpose : Prefix → Bool
special_purpose p = any (covers p) (classifier_ranges ++ non_public)
