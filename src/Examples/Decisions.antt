-- ===== src/Examples/Decisions.antt =====
-- Concrete decisions of a small policy.
use agents_net.Policy.{
  udp, Descriptor, DescriptorRule, PortValue, PolicyError, parse_ports, parse_ranges, port_text,
  parse_range, transports_loop, parse_transports,
}
use agents_net.Base.{◌≡◌, refl, true, false, Option, none, some, List, [], ◌∷◌, if◌then◌else◌}
use agents_net.Base.Bytes.{Bytes, codes, bytes_eq, trim_suffix, cut, has_suffix, split, count_byte}
use agents_net.Base.Decimal.{parse_uint, itoa}
use agents_net.Base.Unicode.{Unicode, to_lower}
use agents_net.Netip.{Addr, v4, contains, addr_eq, unmap, is_global_unicast, is_private}
use agents_net.Policy.{
  Platform, Network, tcp, PortSet, TransportSet, Rule, SuffixRule, Policy, permits, has, parse_port,
}
use agents_net.Policy.Names.{valid_name, normalize_name}
use agents_net.Policy.Ranges.{non_public, public_address}
use agents_net.Policy.Authorize.{
  Verdict, select_loop, select_rule, covering_rule, literal_candidates, suffix_applies,
  suffix_candidates, checked_addresses, authorize_address, authorize_resolved, authorize_name,
  authorize,
}
use agents_net.Policy.Authorize.Select.{first_permitting, select_rule-first_permitting}
use agents_net.Policy.Authorize.Sound.{IsGranted}
use agents_net.Policy.Authorize.Granted.{authorize-IsGranted}
use agents_net.Net.{join_host_port}

unfoldable pub decisions : Unit {0}
unfolding to_lower bytes_eq trim_suffix has_suffix split count_byte cut parse_uint itoa
    join_host_port contains addr_eq unmap is_global_unicast is_private permits has parse_port
    valid_name normalize_name non_public public_address select_loop select_rule covering_rule
    literal_candidates suffix_applies suffix_candidates checked_addresses authorize_address
    authorize_resolved authorize_name authorize
decisions = tt

-- Tables of text that is not ASCII, which no example has.
abbrev pub plain : Unicode
plain = record { lower = λ s. s; equal_fold = bytes_eq; trim_space = λ s. s }

-- Text forms of one address of each kind that the examples use.
abbrev pub platform : Platform
platform = record {
  unicode = plain;
  parse_addr = λ s. if bytes_eq s (codes "10.0.0.1") then some (v4 0x0a00_0001) else none;
  parse_prefix = λ s. none;
  addr_string = λ a. codes "10.0.0.1";
  to_ascii = λ s. some s;
}

abbrev pub https : PortSet
https = record { any_port = false; ranges = (443, 443) ∷ [] }

abbrev pub tcp_only : TransportSet
tcp_only = record { tcp = true; udp = false }

abbrev pub web : Rule
web = record {
  id = codes "web";
  ports = https;
  transports = tcp_only;
  resolve = [];
  prefix = record { addr = Addr.invalid; bits = 0 };
}

abbrev pub inner : Rule
inner = record web { id = codes "inner"; prefix = record { addr = v4 0x0a00_0000; bits = 8 } }

abbrev pub small : Policy
small = record {
  version = codes "1";
  sandbox = codes "box";
  generation = [];
  udp = false;
  names = λ n. [];
  suffixes = record { suffix = codes "example.com"; depth = 1; rule = web } ∷ [];
  wildcard = [];
  literals = inner ∷ [];
  exceptions = [];
}

-- A private address that no literal rule covers is dropped, a public one kept.
abbrev pub lookup : Bytes → Option (List Addr)
lookup name = some (v4 0xc0a8_0001 ∷ v4 0x0808_0808 ∷ [])

www : authorize lookup platform small (codes "WWW.example.com.") (codes "443") tcp ≡ record {
  destination = codes "www.example.com:443";
  addresses = v4 0x0808_0808 ∷ [];
  rule = codes "web";
  reason = none;
  status = 403;
  failed = false;
}
unfolding decisions
www = refl

-- One label more than the depth of the suffix rule.
too_deep :
    (authorize lookup platform small (codes "a.www.example.com") (codes "443") tcp).reason
    ≡ some agents_net.Policy.Authorize.not_on_allowlist
unfolding decisions
too_deep = refl

authorize-IsGranted_example :
    IsGranted platform small
      (codes "www.example.com")
      (codes "443")
      tcp
      (authorize lookup platform small (codes "www.example.com") (codes "443") tcp)
unfolding decisions
authorize-IsGranted_example =
    authorize-IsGranted lookup platform small (codes "www.example.com") (codes "443") tcp
      (refl, refl)

select_rule-first_permitting_example :
    select_rule (record web { ports = record https { ranges = [] } } ∷ inner ∷ []) 443 tcp
    ≡ (some inner, none)
unfolding decisions first_permitting
select_rule-first_permitting_example =
    select_rule-first_permitting (record web { ports = record https { ranges = [] } } ∷ inner ∷ [])
      443 tcp
