-- ===== src/Policy/Load.antt =====
-- Loading a descriptor: parsePrefix, addRule and loadDescriptor of
-- sdk/cmd/connect-proxy/policy.go. A pointer that is filled step by step is a record passed on.
pub mod Ports
pub mod Ruled
pub mod WellFormed
use agents_net.Base.{
  ℕ, ◌+◌, ◌-◌, Bool, true, false, not, ◌&&◌, ◌||◌, Option, none, some, List, [], ◌∷◌, ◌++◌, ltb,
  ◌==◌, if◌then◌else◌, length,
}
use agents_net.Base.Bytes.{Bytes, codes, bytes_eq}
use agents_net.Base.Int.{ℤ, is_nat}
use agents_net.Base.Result.{Result, ok, err, ◌>>=◌, ◌>>◌}
use agents_net.Netip.{Addr, invalid, Prefix, zone, bit_len, is4in6, unmap, masked}
use agents_net.Policy.{
  Platform, PolicyError, decode_failed, trailing_data, unsupported_schema, version_required,
  sandbox_required, default_not_deny, kinds_not_one, id_too_long, resolve_without_name,
  empty_resolve, resolve_address, bad_depth, bad_name, bad_suffix, bad_ip, bad_cidr, cidr_zone,
  mapped_prefix_short, exception_fields, not_special_purpose, DescriptorRule, Descriptor, Rule,
  Policy, parse_ports, parse_transports,
}
use agents_net.Policy.Names.{is_empty, normalize_name}
use agents_net.Policy.Ranges.{special_purpose}

abbrev pub require : Bool → PolicyError → Result PolicyError (Unit {0})
require true e = ok tt
require false e = err e

abbrev zero_prefix : Prefix
zero_prefix = record { addr = invalid; bits = 0 }

-- An IPv4-mapped prefix becomes the IPv4 prefix that it stands for.
unfoldable pub parse_prefix : Platform → Bytes → Result PolicyError Prefix
parse_prefix p t = elim (p.parse_prefix t) [
  | none ↦ err bad_cidr
  | some prefix ↦
      if not (is_empty (zone prefix.addr))
      then err cidr_zone
      else if is4in6 prefix.addr
      then if ltb prefix.bits 96
        then err mapped_prefix_short
        else ok (masked (record { addr = unmap prefix.addr; bits = prefix.bits - 96 }))
      else ok (masked prefix)
]

-- A literal address, without a zone, unmapped.
unfoldable pub parse_literal : Platform → PolicyError → Bytes → Result PolicyError Addr
parse_literal p e t = elim (p.parse_addr t) [
  | none ↦ err e
  | some a ↦ if is_empty (zone a) then ok (unmap a) else err e
]

unfoldable pub resolve_list : Platform → List Bytes → List Addr → Result PolicyError (List Addr)
resolve_list p [] resolved = ok resolved
resolve_list p (raw ∷ raws) resolved = do
  a ← parse_literal p resolve_address raw
  resolve_list p raws (resolved ++ a ∷ [])

abbrev one_if : Bool → ℕ
one_if b = if b then 1 else 0

-- How many of name, suffix, ip and cidr are given.
abbrev pub kinds : DescriptorRule → ℕ
kinds dr =
    one_if (not (is_empty dr.name))
    + one_if (not (is_empty dr.suffix))
    + one_if (not (is_empty dr.ip))
    + one_if (not (is_empty dr.cidr))

unfoldable pub static_resolve : Platform → DescriptorRule → Result PolicyError (List Addr)
static_resolve p dr = elim dr.resolve [
  | none ↦ ok []
  | some raws ↦ do
    require (not (is_empty dr.name || bytes_eq dr.name (codes "*"))) resolve_without_name
    require (not (length raws == 0)) empty_resolve
    resolve_list p raws []
]

-- The depth of a suffix rule; 0 is unlimited.
unfoldable pub checked_depth : DescriptorRule → Result PolicyError ℕ
checked_depth dr = elim dr.depth [
  | ℤ.pos n ↦ if not (n == 0) && (is_empty dr.suffix || ltb 126 n) then err bad_depth else ok n
  | ℤ.negsuc n ↦ err bad_depth
]

-- `p.names[name] = append(p.names[name], r)`
abbrev pub add_name : Bytes → Rule → (Bytes → List Rule) → Bytes → List Rule
add_name name r names n = if bytes_eq n name then names n ++ r ∷ [] else names n

-- The switch at the end of addRule.
unfoldable pub place_rule :
    Platform → DescriptorRule → ℕ → Rule → Policy → Result PolicyError Policy
place_rule p dr depth r q =
    if bytes_eq dr.name (codes "*")
    then ok (record q { wildcard = q.wildcard ++ r ∷ [] })
    else if not (is_empty dr.name)
    then elim (normalize_name p dr.name) [
      | none ↦ err bad_name
      | some name ↦ ok (record q { names = add_name name r q.names })
    ]
    else if not (is_empty dr.suffix)
    then elim (normalize_name p dr.suffix) [
      | none ↦ err bad_suffix
      | some suffix ↦ ok (record q {
        suffixes = q.suffixes ++ record { suffix = suffix; depth = depth; rule = r } ∷ [];
      })
    ]
    else if not (is_empty dr.ip)
    then (do
      a ← parse_literal p bad_ip dr.ip
      ok (record q {
        literals = q.literals ++ record r { prefix = record { addr = a; bits = bit_len a } } ∷ [];
      }))
    else (do
      prefix ← parse_prefix p dr.cidr
      ok (record q { literals = q.literals ++ record r { prefix = prefix } ∷ [] }))

unfoldable pub add_rule : Platform → DescriptorRule → Policy → Result PolicyError Policy
add_rule p dr q = do
  require (kinds dr == 1) kinds_not_one
  require (not (ltb 64 (length dr.id))) id_too_long
  ports ← parse_ports dr.ports
  transports ← parse_transports dr.transports
  resolved ← static_resolve p dr
  depth ← checked_depth dr
  place_rule p dr depth
      (record {
        id = dr.id;
        ports = ports;
        transports = transports;
        resolve = resolved;
        prefix = zero_prefix;
      })
      q

unfoldable pub add_rules : Platform → List DescriptorRule → Policy → Result PolicyError Policy
add_rules p [] q = ok q
add_rules p (dr ∷ drs) q = do q' ← add_rule p dr q; add_rules p drs q'

-- Only cidr and ports may be given.
abbrev pub is_exception : DescriptorRule → Bool
is_exception dr =
    not (is_empty dr.cidr)
    && is_empty dr.name
    && is_empty dr.suffix
    && is_empty dr.ip
    && is_nil dr.transports
    && is_nil dr.resolve
    && is_empty dr.id
    && is_nat 0 dr.depth
  where
    is_nil : Option (List Bytes) → Bool
    is_nil none = true
    is_nil (some l) = false

unfoldable pub add_exception : Platform → DescriptorRule → Policy → Result PolicyError Policy
add_exception p dr q = do
  require (is_exception dr) exception_fields
  prefix ← parse_prefix p dr.cidr
  require (special_purpose prefix) not_special_purpose
  ports ← parse_ports dr.ports
  ok (record q {
    exceptions =
        q.exceptions
        ++ record {
          id = [];
          ports = ports;
          transports = record { tcp = false; udp = false };
          resolve = [];
          prefix = prefix;
        }
          ∷ [];
  })

unfoldable pub add_exceptions : Platform → List DescriptorRule → Policy → Result PolicyError Policy
add_exceptions p [] q = ok q
add_exceptions p (dr ∷ drs) q = do q' ← add_exception p dr q; add_exceptions p drs q'

-- A required string of at most 256 bytes.
abbrev pub is_given : Bytes → Bool
is_given s = not (is_empty s || ltb 256 (length s))

abbrev pub empty_policy : Descriptor → Bytes → Policy
empty_policy d generation = record {
  version = d.version;
  sandbox = d.sandbox;
  generation = generation;
  udp = d.udp;
  names = λ n. [];
  suffixes = [];
  wildcard = [];
  literals = [];
  exceptions = [];
}

-- The part of loadDescriptor behind the JSON decoder.
unfoldable pub load_decoded : Platform → Bytes → Descriptor → Result PolicyError Policy
load_decoded p generation d = do
  require (is_nat 1 d.schema) unsupported_schema
  require (is_given d.version) version_required
  require (is_given d.sandbox) sandbox_required
  require (bytes_eq d.default_action (codes "deny")) default_not_deny
  q ← add_rules p d.rules (empty_policy d generation)
  add_exceptions p d.resolved_addresses q

-- The decoder of encoding/json, with unknown fields refused, is the first argument: what it
-- decodes, and whether there is more data.
unfoldable pub load_descriptor :
    (Bytes → Option (Descriptor × Bool)) → Platform → Bytes → Bytes → Result PolicyError Policy
load_descriptor decode p input generation = elim (decode input) [
  | none ↦ err decode_failed
  | some (d, more) ↦ if more then err trailing_data else load_decoded p generation d
]
