-- ===== src/Examples/Connections.antt =====
-- Concrete connections of the boundary: their heads, their budget and HTTP/2 streams.
use agents_net.Base.{ℕ, ◌+◌, ◌≡◌, ◌↔◌, refl, arith, true, false, Option, none, some, List, [], ◌∷◌}
use agents_net.Base.Bytes.{Bytes, codes, cut, bytes_eq}
use agents_net.Base.Result.{ok, err}
use agents_net.Netip.{Addr}
use agents_net.Policy.Authorize.{missing_host}
use agents_net.Boundary.{Event, Session}
use agents_net.Boundary.Outcome.{IsServed}
use agents_net.Boundary.H2.{Stream, serve_h2}
use agents_net.Boundary.H2.Answered.{IsAskedH2, serve_h2-IsServed}
use agents_net.Boundary.Heads.{
  Parser, Fields, HeadError, head_error, ended, read_head, check_line, check_fields, values, serve,
  max_head_bytes, bounded_length,
}
use agents_net.Boundary.Heads.Bounded.{Reads, idle, read, Reads-max_head_bytes}
use agents_net.Boundary.Heads.Handled.{IsHandled, serve-IsHandled}
use agents_net.Boundary.Listener.{Listening, Reach, here, later, accepted, new_listener, accept}
use agents_net.Boundary.Listener.Budget.{IsWithin, Reach-new_listener}
use agents_net.Examples.Decisions.{small}
use agents_net.Examples.Requests.{world, http}

abbrev one_session : Session
one_session = record { peer = []; id = codes "1" }

abbrev stream : Stream
stream = record {
  method = codes "CONNECT";
  protocol = [];
  path = [];
  authority = codes "www.example.com:443";
}

serve_h2-IsServed_example :
    (o : List Event × Option (Addr × Bytes)) × (serve_h2 world (some small) stream one_session
      ≡ some o)
    × IsServed (IsAskedH2 stream) world (some small) o
serve_h2-IsServed_example = serve_h2-IsServed world (some small) stream one_session

-- A connection that delivers one request line and a header block.
abbrev parser : Parser (Bytes × Fields)
parser = record {
  read_line = λ (line, fields). ok (line, ([], fields));
  read_mime_header = λ (line, fields). ok fields;
  parse_http_version = λ version. some (1, 1);
  valid_field_name = λ name. true;
}

hostless : read_head parser (codes "CONNECT a:1 HTTP/1.1", []) ≡ err (head_error 400 missing_host)
unfolding read_head check_line check_fields values cut bytes_eq
hostless = refl

serve-IsHandled_example :
    (o : List Event × Option (Addr × Bytes)) × ((serve parser http world
        (some small)
        0
        (some [])
        (codes "CONNECT a:1 HTTP/1.1", [])).1
      ≡ some o)
    × IsHandled parser http world (some small) (codes "CONNECT a:1 HTTP/1.1", []) (some []) o
serve-IsHandled_example =
    serve-IsHandled parser http world (some small) 0 (some []) (codes "CONNECT a:1 HTTP/1.1", [])

one_read : Reads (some max_head_bytes) (4096 + 0) (some 61440)
unfolding bounded_length agents_net.Boundary.Heads.bounded_rest
one_read = read 4096 4096 4096 refl (omega arith) idle

Reads-max_head_bytes_example :
    (left : ℕ) × (some 61440 ≡ some left)
    × (4096 + 0 + left ≡ max_head_bytes)
    × ((bounded_length (some 61440) 10 ≡ none) ↔ (4096 + 0 ≡ max_head_bytes))
Reads-max_head_bytes_example = Reads-max_head_bytes (4096 + 0) 10 (some 61440) one_read

abbrev full : Listening
full = record { slots = record { used = 1; capacity = 1 }; handlers = 7 ∷ [] }

one_connection : Reach world (some small) false (new_listener 1) full
unfolding accept
one_connection = later here (accepted 7 false (record { used = 1; capacity = 1 }) refl)

Reach-new_listener_example :
    IsWithin 1 full
    × ((accept world (some small) false false (record { used = 1; capacity = 1 })).2 ≡ false)
Reach-new_listener_example = Reach-new_listener world (some small) false false 1 full one_connection
