-- ===== src/Examples/Requests.antt =====
-- Concrete requests at the boundary.
use agents_net.Boundary.Front.{
  Http, Head, same_authority, connect_target, upgrade_target, masque_target, unescape, serve_head,
}
use agents_net.Boundary.Front.Served.{IsAsked, serve_head-IsServed}
use agents_net.Boundary.Outcome.{IsServed}
use agents_net.Net.{cut_last, split_bracketed, split_host_port}
use agents_net.Base.Bytes.{trim_left, trim}
use agents_net.Boundary.{
  World, h1, Session, Event, connect_upstream, dial_loop, dial_authorized, after_dial,
  after_authorize,
}
use agents_net.Boundary.Decided.{IsDecided, connect_upstream-IsDecided}
use agents_net.Policy.{
  udp, Descriptor, DescriptorRule, PortValue, PolicyError, parse_ports, parse_ranges, port_text,
  parse_range, transports_loop, parse_transports,
}
use agents_net.Base.{◌≡◌, if◌then◌else◌, refl, true, false, Option, none, some, List, [], ◌∷◌}
use agents_net.Base.Bytes.{Bytes, codes}
use agents_net.Base.Result.{ok}
use agents_net.Base.Unicode.{equal_fold, is_ascii}
use agents_net.Netip.{Addr}
use agents_net.Policy.{
  Platform, Network, tcp, PortSet, TransportSet, Rule, SuffixRule, Policy, permits, has, parse_port,
}
use agents_net.Policy.Authorize.{
  Verdict, select_loop, select_rule, covering_rule, literal_candidates, suffix_applies,
  suffix_candidates, checked_addresses, authorize_address, authorize_resolved, authorize_name,
  authorize,
}
use agents_net.Base.{arith}
use agents_net.Base.Bytes.{bytes_eq_refl}
use agents_net.Base.Decimal.{itoa}
use agents_net.Client.{tcp_request}
use agents_net.Client.Authority.{RequestWriter, connect_target-tcp_request}
use agents_net.Examples.Decisions.{decisions, platform, small, lookup}

-- Every dial succeeds, at the address text that was dialled.
abbrev pub world : World
world = record {
  platform = platform;
  lookup = lookup;
  dial = λ network text. some text;
  listener = codes "box";
}

connect_upstream-IsDecided_example :
    (r : List Event × Option (Addr × Bytes)) × (connect_upstream world
        (some small)
        h1
        tcp
        (codes "www.example.com")
        (codes "443")
        (record { peer = []; id = codes "1" })
      ≡ some r)
    × IsDecided world (some small) tcp (codes "www.example.com") (codes "443") r
connect_upstream-IsDecided_example =
    connect_upstream-IsDecided world (some small) h1 tcp (codes "www.example.com") (codes "443")
      (record { peer = []; id = codes "1" })

-- A policy that does not enable UDP.
udp_refused :
    connect_upstream world
      (some small)
      h1
      udp
      (codes "www.example.com")
      (codes "443")
      (record { peer = []; id = codes "1" })
    ≡ agents_net.Boundary.refusal world
        (some small)
        (agents_net.Boundary.first_record h1 udp
          (codes "www.example.com")
          (codes "443")
          (record { peer = []; id = codes "1" }))
        agents_net.Boundary.block
        403
        agents_net.Policy.Authorize.udp_disabled
unfolding connect_upstream
udp_refused = refl

-- Every target is taken for a host, and every field holds every token.
abbrev pub http : Http
http = record {
  valid_host_header = λ s. true;
  contains_token = λ values token. true;
  parse_request_uri = λ t. some (false, t);
}

abbrev pub connect_head : Head
connect_head = record {
  method = codes "CONNECT";
  target = codes "www.example.com:443";
  host = codes "WWW.example.com.:443" ∷ [];
  connection = [];
  upgrade = [];
}

serve_head-IsServed_example :
    (r : List Event × Option (Addr × Bytes)) × (serve_head http world
        (some small)
        connect_head
        (record { peer = []; id = codes "1" })
      ≡ some r)
    × IsServed (IsAsked http world connect_head) world (some small) r
serve_head-IsServed_example =
    serve_head-IsServed http world (some small) connect_head (record { peer = []; id = codes "1" })

targets : Unit {0}
unfolding decisions equal_fold cut_last split_bracketed split_host_port trim_left trim
    same_authority connect_target upgrade_target masque_target unescape
targets = tt

-- The Host field may differ in case and by a dot.
connect_target_host :
    connect_target http world connect_head ≡ ok (codes "www.example.com", codes "443")
unfolding targets
connect_target_host = refl

masque_target_escaped :
    masque_target (codes "/.well-known/masque/udp/2001%3adb8%3A%3a1/53/")
    ≡ some (codes "2001:db8::1", codes "53")
unfolding targets
masque_target_escaped = refl

split_host_port_forms :
    (split_host_port (codes "[::1]:443") ≡ some (codes "::1", codes "443"))
    × (split_host_port (codes "::1:443") ≡ none)
    × (split_host_port (codes "host") ≡ none)
unfolding targets
split_host_port_forms = (refl, refl, refl)

-- A writer that sends the host as it is, and only ASCII.
abbrev writer : RequestWriter
writer = record {
  written_head = λ req.
      if is_ascii req.host
      then some (record {
        method = codes "CONNECT";
        target = req.host;
        host = req.host ∷ [];
        connection = [];
        upgrade = [];
      })
      else none;
  valid_host_header = λ s. true;
  written_connect = λ req method target header ascii valid zoneless. rw ascii refl;
}

connect_target-tcp_request_example :
    (h : Head) × (writer.written_head (tcp_request (codes "www.example.com") 443) ≡ some h)
    × (connect_target http world h ≡ ok (codes "www.example.com", itoa 443))
connect_target-tcp_request_example =
    connect_target-tcp_request writer http world (codes "www.example.com") 443 refl (ground arith)
      (ground arith) (ground arith, ground arith) (omega arith) (omega arith) refl refl
      bytes_eq_refl
