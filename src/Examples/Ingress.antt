-- ===== src/Examples/Ingress.antt =====
-- Ingress streams with one pinned port.
use agents_net.Base.{◌==◌, if◌then◌else◌, ◌≡◌, ◌≤◌, ◌↔◌, refl, true, false, some, [], ◌∷◌}
use agents_net.Base.Bytes.{
  Bytes, codes, bytes_eq, cut, has_prefix, split, trim, trim_left, trim_suffix, has_suffix,
}
use agents_net.Base.Decimal.{parse_uint, parse_digits}
use agents_net.Base.Unicode.{trim_space, equal_fold}
use agents_net.Net.{split_host_port, cut_last, split_bracketed}
use agents_net.Client.Field.{proxy_status, proxy_error_type, is_one_of}
use agents_net.Ingress.{
  Pinned, has_scheme, parse_run_args, pinned_loop, parse_pinned_ports, read_line, read_field,
  read_fields, check_port, check_target, check_head, ingress_target, reply_to, serve_ingress,
  refused, joined,
}
use agents_net.Ingress.Pinned.{Listed, parse_pinned_ports-Listed}
use agents_net.Ingress.Served.{IsServed, serve_ingress-IsServed}
use agents_net.Examples.Decisions.{plain}

ingress : Unit {0}
unfolding bytes_eq cut has_prefix split trim trim_left trim_suffix has_suffix parse_uint
    parse_digits trim_space equal_fold split_host_port cut_last split_bracketed proxy_status
    proxy_error_type is_one_of has_scheme parse_run_args pinned_loop parse_pinned_ports read_line
    read_field read_fields check_port check_target check_head ingress_target reply_to serve_ingress
ingress = tt

path_argument :
    parse_run_args (codes "/run/b.sock" ∷ codes "sh" ∷ [])
    ≡ some (codes "unix:///run/b.sock", codes "sh" ∷ [])
unfolding ingress
path_argument = refl

-- The ports 8080 and 9090.
abbrev pinned : Pinned
pinned p = if p == 9090 then true else if p == 8080 then true else false

two_ports : parse_pinned_ports plain (codes "8080, 9090") ≡ some pinned
unfolding ingress
two_ports = refl

parse_pinned_ports-Listed_example :
    (true ≡ true)
    ↔ ((1 ≤ 9090) × (9090 ≤ 65535) × Listed plain 9090 (split b',' (codes "8080, 9090")))
unfolding ingress
parse_pinned_ports-Listed_example =
    parse_pinned_ports-Listed plain b'8' (codes "080, 9090") pinned 9090 two_ports

abbrev head : Bytes
head = codes "CONNECT 127.0.0.1:8080 HTTP/1.1\r\nhost: 127.0.0.1:8080\r\n\r\nhello"

served :
    serve_ingress plain (λ t. true) pinned head
    ≡ some (joined (codes "127.0.0.1:8080") (codes "hello"))
unfolding ingress
served = refl

unpinned :
    serve_ingress plain (λ t. true) pinned (codes "CONNECT [::1]:22 HTTP/1.0\n\n")
    ≡ some (refused 403 (codes "ingress; error=http_request_denied; reason=port-not-permitted"))
unfolding ingress
unpinned = refl

serve_ingress-IsServed_example :
    IsServed plain (λ t. true) pinned head (serve_ingress plain (λ t. true) pinned head)
serve_ingress-IsServed_example = serve_ingress-IsServed plain (λ t. true) pinned head
