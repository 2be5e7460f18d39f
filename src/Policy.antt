-- ===== src/Policy.antt =====
-- sdk/cmd/connect-proxy/policy.go: the data of a policy, ports and transports.
-- Parts of the text forms of addresses and names are not in the repository: they are `Platform`.
pub mod Names
pub mod Ranges
pub mod Load
pub mod Authorize
use agents_net.Base.{
  ℕ, suc, ◌-◌, Bool, true, false, not, ◌&&◌, ◌||◌, Option, none, some, List, [], ◌∷◌, ◌++◌, ltb,
  leb, ◌==◌, if◌then◌else◌, any,
}
use agents_net.Base.Bytes.{Bytes, codes, bytes_eq, cut}
use agents_net.Base.Decimal.{parse_uint, itoa}
use agents_net.Base.Int.{ℤ}
use agents_net.Base.Result.{Result, ok, err, ◌>>=◌}
use agents_net.Base.Unicode.{Unicode}
use agents_net.Netip.{Addr, Prefix}

-- What the policy takes from outside the repository: the Unicode tables, the text forms of
-- net/netip (ParseAddr, ParsePrefix, Addr.String) and idna's ToASCII under the name profile.
pub record Platform : Type 0 where
  pub unicode : Unicode
  pub parse_addr : Bytes → Option Addr
  pub parse_prefix : Bytes → Option Prefix
  pub addr_string : Addr → Bytes
  pub to_ascii : Bytes → Option Bytes

-- The errors of loading a descriptor, without the text that they quote.
pub data PolicyError : Type 0 where
  decode_failed trailing_data unsupported_schema version_required sandbox_required : PolicyError
  default_not_deny kinds_not_one id_too_long empty_ports port_not_integer port_type : PolicyError
  invalid_port reversed_range empty_transports unknown_transport resolve_without_name : PolicyError
  empty_resolve resolve_address bad_depth bad_name bad_suffix bad_ip bad_cidr cidr_zone :
      PolicyError
  mapped_prefix_short exception_fields not_special_purpose : PolicyError

-- One element of a JSON "ports" list: `fraction` is a number that is no integer.
pub data PortValue : Type 0 where
  integer : ℤ → PortValue
  fraction : PortValue
  text : Bytes → PortValue
  other : PortValue

-- A nil slice is `none`; an absent string is empty and an absent depth 0.
pub record DescriptorRule : Type 0 where
  pub id : Bytes
  pub name : Bytes
  pub suffix : Bytes
  pub depth : ℤ
  pub ip : Bytes
  pub cidr : Bytes
  pub ports : Option (List PortValue)
  pub transports : Option (List Bytes)
  pub resolve : Option (List Bytes)

pub record Descriptor : Type 0 where
  pub schema : ℤ
  pub version : Bytes
  pub sandbox : Bytes
  pub default_action : Bytes
  pub rules : List DescriptorRule
  pub resolved_addresses : List DescriptorRule
  pub udp : Bool
  pub h2 : Bool

pub record PortSet : Type 0 where
  pub any_port : Bool
  pub ranges : List (ℕ × ℕ)

abbrev pub in_range : ℕ → ℕ × ℕ → Bool
in_range port (first, last) = leb first port && leb port last

unfoldable pub permits : PortSet → ℕ → Bool
permits p port = p.any_port || any (in_range port) p.ranges

unfoldable pub parse_port : Bytes → Result PolicyError ℕ
unfolding parse_uint
parse_port value = elim (parse_uint 65535 value) [
  | none ↦ err invalid_port
  | some number ↦ if number == 0 then err invalid_port else ok number
]

-- strconv.FormatInt in base 10.
abbrev pub format_int : ℤ → Bytes
format_int (ℤ.pos n) = itoa n
format_int (ℤ.negsuc n) = b'-' ∷ itoa (suc n)

unfoldable pub port_text : PortValue → Result PolicyError Bytes
port_text (integer i) = ok (format_int i)
port_text fraction = err port_not_integer
port_text (text t) = ok t
port_text other = err port_type

-- The range of one element: "n" or "a-b".
unfoldable pub parse_range : Bytes → Result PolicyError (ℕ × ℕ)
parse_range t = elim (cut b'-' t) [
  | none ↦ do first ← parse_port t; ok (first, first)
  | some (lo, hi) ↦ do
    first ← parse_port lo
    last ← parse_port hi
    if ltb last first then err reversed_range else ok (first, last)
]

-- The loop of parsePorts.
unfoldable pub parse_ranges : List PortValue → List (ℕ × ℕ) → Result PolicyError (List (ℕ × ℕ))
parse_ranges [] set = ok set
parse_ranges (value ∷ values) set = do
  t ← port_text value
  r ← parse_range t
  parse_ranges values (set ++ r ∷ [])

unfoldable pub parse_ports : Option (List PortValue) → Result PolicyError PortSet
parse_ports none = ok (record { any_port = true; ranges = [] })
parse_ports (some []) = err empty_ports
parse_ports (some (v ∷ vs)) = do
  ranges ← parse_ranges (v ∷ vs) []
  ok (record { any_port = false; ranges = ranges })

-- The network argument of authorize.
pub data Network : Type 0 where
  tcp udp : Network

pub record TransportSet : Type 0 where
  pub tcp : Bool
  pub udp : Bool

unfoldable pub has : TransportSet → Network → Bool
has t tcp = t.tcp
has t udp = t.udp

-- The loop of parseTransports.
unfoldable pub transports_loop : List Bytes → TransportSet → Result PolicyError TransportSet
unfolding bytes_eq
transports_loop [] set = ok set
transports_loop (value ∷ values) set =
    let with_tcp = transports_loop values (record set { tcp = true }) in
    let with_udp = transports_loop values (record set { udp = true }) in
    if bytes_eq value (codes "tcp")
    then with_tcp
    else if bytes_eq value (codes "udp")
    then with_udp
    else err unknown_transport

unfoldable pub parse_transports : Option (List Bytes) → Result PolicyError TransportSet
parse_transports none = ok (record { tcp = true; udp = false })
parse_transports (some []) = err empty_transports
parse_transports (some (v ∷ vs)) = transports_loop (v ∷ vs) (record { tcp = false; udp = false })

-- A nil resolution list is empty; a name rule has the zero prefix.
pub record Rule : Type 0 where
  pub id : Bytes
  pub ports : PortSet
  pub transports : TransportSet
  pub resolve : List Addr
  pub prefix : Prefix

pub record SuffixRule : Type 0 where
  pub suffix : Bytes
  pub depth : ℕ
  pub rule : Rule

-- The map of exact names is a function; a missing name has the empty list.
pub record Policy : Type 0 where
  pub version : Bytes
  pub sandbox : Bytes
  pub generation : Bytes
  pub udp : Bool
  pub names : Bytes → List Rule
  pub suffixes : List SuffixRule
  pub wildcard : List Rule
  pub literals : List Rule
  pub exceptions : List Rule
