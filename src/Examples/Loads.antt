-- ===== src/Examples/Loads.antt =====
-- A small descriptor that loads, and the address ranges.
use agents_net.Base.Int.{ℤ}
use agents_net.Policy.{
  Descriptor, DescriptorRule, PortValue, parse_ports, parse_ranges, port_text, parse_range,
  transports_loop, parse_transports,
}
use agents_net.Policy.Ranges.{classifier_ranges, special_purpose}
use agents_net.Policy.Ranges.Sound.{special_purpose-public_address}
use agents_net.Policy.Load.{
  parse_prefix, resolve_list, static_resolve, checked_depth, place_rule, add_rule, add_rules,
  add_exception, add_exceptions, load_decoded, load_descriptor, empty_policy,
}
use agents_net.Policy.Load.WellFormed.{IsLoaded, load_descriptor-IsLoaded}
use agents_net.Policy.Authorize.Closed.{load_descriptor-denies}
use agents_net.Policy.Authorize.Granted.{IsAllowed}
use agents_net.Netip.{masked}
use agents_net.Base.{Bool, ◌≡◌, refl, false, Option, none, some, [], ◌∷◌}
use agents_net.Base.Bytes.{Bytes, codes}
use agents_net.Base.Result.{ok}
use agents_net.Netip.{v4}
use agents_net.Policy.{tcp, Policy}
use agents_net.Policy.Ranges.{public_address}
use agents_net.Policy.Authorize.{authorize}
use agents_net.Examples.Decisions.{decisions, platform, web, lookup}

loading : Unit {0}
unfolding decisions masked special_purpose classifier_ranges parse_ports parse_ranges port_text
    parse_range transports_loop parse_transports parse_prefix resolve_list static_resolve
    checked_depth place_rule add_rule add_rules add_exception add_exceptions load_decoded
    load_descriptor
loading = tt

abbrev empty_rule : DescriptorRule
empty_rule = record {
  id = [];
  name = [];
  suffix = [];
  depth = ℤ.pos 0;
  ip = [];
  cidr = [];
  ports = none;
  transports = none;
  resolve = none;
}

abbrev suffix_rule : DescriptorRule
suffix_rule = record empty_rule {
  id = codes "web";
  suffix = codes "Example.COM.";
  depth = ℤ.pos 1;
  ports = some (PortValue.integer (ℤ.pos 443) ∷ PortValue.text (codes "8000-8999") ∷ []);
}

abbrev descriptor : Descriptor
descriptor = record {
  schema = ℤ.pos 1;
  version = codes "1";
  sandbox = codes "box";
  default_action = codes "deny";
  rules = suffix_rule ∷ [];
  resolved_addresses = [];
  udp = false;
  h2 = false;
}

-- The decoder of one input.
abbrev decode : Bytes → Option (Descriptor × Bool)
decode input = some (descriptor, false)

abbrev decode_closed : Bytes → Option (Descriptor × Bool)
decode_closed input = some (record descriptor { rules = [] }, false)

abbrev loaded : Policy
loaded = record (empty_policy descriptor []) {
  suffixes =
      record {
        suffix = codes "example.com";
        depth = 1;
        rule = record web {
          ports = record { any_port = false; ranges = (443, 443) ∷ (8000, 8999) ∷ [] };
        };
      }
      ∷ [];
}

loads : load_descriptor decode platform [] [] ≡ ok loaded
unfolding loading
loads = refl

load_descriptor-IsLoaded_example :
    (d : Descriptor) × (decode [] ≡ some (d, false)) × IsLoaded d [] loaded
unfolding loading
load_descriptor-IsLoaded_example = load_descriptor-IsLoaded decode platform [] [] loaded refl

load_descriptor-denies_example : ¬ IsAllowed (
    authorize lookup platform
      (empty_policy (record descriptor { rules = [] }) [])
      (codes "example.com")
      (codes "443")
      tcp)
unfolding loading
load_descriptor-denies_example =
    load_descriptor-denies decode_closed platform [] [] (record descriptor { rules = [] })
      (empty_policy (record descriptor { rules = [] }) []) refl refl refl lookup
      (codes "example.com") (codes "443") tcp

-- 10.1.0.0/16 and an address of it.
special_purpose-public_address_example : public_address (v4 0x0a01_0203) ≡ false
unfolding loading
special_purpose-public_address_example =
    special_purpose-public_address (record { addr = v4 0x0a01_0000; bits = 16 }) (v4 0x0a01_0203)
      refl refl
