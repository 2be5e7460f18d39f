-- ===== src/Examples/Client.antt =====
-- A client whose boundary answers with an interim response and then a refusal.
use agents_net.Base.{ℕ, zero, suc, ◌≡◌, refl, arith, [], some, none}
use agents_net.Base.Bytes.{Bytes, codes, split, trim, trim_left, bytes_eq}
use agents_net.Base.Result.{Result, ok}
use agents_net.Client.{
  Transport, Response, dial_tcp, dial_udp, tcp_request, udp_request, is_success, is_switch,
}
use agents_net.Client.Dialled.{IsDialled, with_header, dial_tcp-IsDialled}
use agents_net.Base.Decimal.{itoa, digits_of}
use agents_net.Client.{path_escape, replace_colons, encoded_host, udp_proxy_url, masque_path}
use agents_net.Boundary.Front.{unescape, masque_target}
use agents_net.Client.Template.{masque_target-masque_path}
use agents_net.Client.H2.{H2Transport, h2_udp_request, h2_dial_tcp, h2_dial_udp}
use agents_net.Client.H2.Shared.{IsDialledH2, h2_dial_tcp-IsDialledH2}
use agents_net.Base.{◌==◌}
use agents_net.Examples.Decisions.{plain}

abbrev hint : Response
hint = record { code = 103; status = codes "103 Early Hints"; proxy_status = []; upgrade = [] }

abbrev forbidden : Response
forbidden = record {
  code = 403;
  status = codes "403 Forbidden";
  proxy_status = codes "boundary; error=http_request_denied; reason=not-on-allowlist";
  upgrade = [];
}

abbrev answer : ℕ → Result (Unit {0}) (Response × ℕ)
answer zero = ok (forbidden, 0)
answer (suc n) = ok (hint, n)

-- A connection is how many interim responses are still to come.
abbrev boundary : Transport (Unit {0}) ℕ
boundary = record { dial = ok 1; write = λ r c. ok c; read = answer }

dial_tcp-IsDialled_example :
    IsDialled plain boundary is_success
      (with_header [] (tcp_request (codes "a") 1))
      (dial_tcp plain boundary [] (codes "a") 1)
    × IsDialled plain boundary is_switch
        (with_header [] (udp_request [] (codes "a") 1))
        (dial_udp plain boundary [] [] (codes "a") 1)
dial_tcp-IsDialled_example = dial_tcp-IsDialled plain boundary [] [] (codes "a") 1

client_paths : Unit {0}
unfolding unescape path_escape replace_colons encoded_host udp_proxy_url split trim trim_left
    masque_target bytes_eq
client_paths = tt

-- A zone that the URL holds as %25 has its percent sign left over, and is refused.
zone_path :
    (udp_proxy_url (codes "fe80::1%eth0") 53).1
    ≡ codes "/.well-known/masque/udp/fe80%3A%3A1%25eth0/53/"
unfolding client_paths itoa digits_of
zone_path = refl

zone_target : masque_target (udp_proxy_url (codes "fe80::1%eth0") 53).0 ≡ none
unfolding client_paths itoa digits_of
zone_target = refl

-- Text that decodes once more names another host.
masque_target-masque_path_example :
    masque_target (masque_path (codes "a%62") 53) ≡ some (codes "ab", codes "53")
unfolding client_paths itoa digits_of
masque_target-masque_path_example = masque_target-masque_path (codes "a%62") 53 (ground arith)

-- A transport whose sessions are numbers, of which only 0 takes another stream.
abbrev shared : H2Transport (Unit {0}) (Unit {0}) ℕ Bytes
shared = record {
  dial = ok tt;
  handshake = λ cfg c. ok (c, codes "h2");
  new_client_conn = λ c. ok 0;
  can_take = λ k. k == 0;
  round_trip = λ req k. ok (record forbidden { code = 200 }, req.target);
}

h2_dial_tcp-IsDialledH2_example :
    IsDialledH2 shared [] none
      (with_header [] (tcp_request (codes "a") 1))
      (some 5)
      (h2_dial_tcp plain shared [] none [] (codes "a") 1 (some 5))
    × IsDialledH2 shared [] none
        (with_header [] (h2_udp_request [] (codes "a") 1))
        (some 5)
        (h2_dial_udp plain shared [] none [] (codes "a") 1 (some 5))
h2_dial_tcp-IsDialledH2_example =
    h2_dial_tcp-IsDialledH2 plain shared [] none [] (codes "a") 1 (some 5)
