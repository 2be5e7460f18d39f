-- ===== src/Forwarder/Relay.antt =====
-- The loops of sdk/pkg/tun2connect/forwarder.go over datagrams, RelayUDP and ServeDNS, and the
-- loop of pumpUDP of sdk/cmd/connect-proxy/main.go towards the client. `room` is how many writes
-- succeed; a list of reads ends with an error of the connection.
pub mod Carried
pub mod Resolved
use agents_net.Base.{
  ℕ, zero, suc, ◌+◌, ◌≡◌, refl, Option, none, some, List, [], ◌∷◌, ◌++◌, map, length, take,
}
use agents_net.Base.Bytes.{Bytes}
use agents_net.Base.Int.{ℤ}
use agents_net.Base.Result.{Result, ok, err}
use agents_net.Base.Unicode.{Unicode}
use agents_net.Capsule.{ReadError, write_datagram, read_datagram}
use agents_net.Dns.{VirtualDns}
use agents_net.Dns.Query.{Messages, handle_query}

abbrev pub max_datagram_size : ℕ
max_datagram_size = 65535

-- The goroutine of RelayUDP that reads from the guest; a read takes what fits the buffer.
unfoldable pub upload : ℕ → List Bytes → Bytes
upload room [] = []
upload zero (p ∷ ps) = []
upload (suc room) (p ∷ ps) = elim (write_datagram (take max_datagram_size p)) [
  | none ↦ []
  | some enc ↦ enc ++ upload room ps
]

-- The one that writes to the guest, with what it has written; `none` is a lack of fuel.
unfoldable pub download_loop : ReadError → ℕ → ℕ → Bytes → List Bytes → Option (List Bytes)
download_loop end zero room s sent = none
download_loop end (suc fuel) zero s sent = elim (read_datagram end s) [
  | none ↦ none
  | some r ↦ some sent
]
download_loop end (suc fuel) (suc room) s sent = elim (read_datagram end s) [
  | none ↦ none
  | some (err e) ↦ some sent
  | some (ok (p, rest)) ↦ download_loop end fuel room rest (sent ++ p ∷ [])
]

unfoldable pub download : ReadError → ℕ → Bytes → Option (List Bytes)
unfolding download_loop
download end room s = download_loop end (suc (length s)) room s []

-- The loop of pumpUDP that reads from upstream, with its own buffer.
unfoldable pub pump_downstream : ℕ → List Bytes → Bytes
pump_downstream room [] = []
pump_downstream zero (p ∷ ps) = []
pump_downstream (suc room) (p ∷ ps) = elim (write_datagram (take 65535 p)) [
  | none ↦ []
  | some enc ↦ enc ++ pump_downstream room ps
]

-- A round of ServeDNS behind HandleQuery, with the rounds that follow.
abbrev pub after_query :
    {E : Type 0}
    → (ℕ → VirtualDns → VirtualDns × List Bytes)
    → ℕ
    → VirtualDns × Result E Bytes
    → VirtualDns × List Bytes
after_query next room (d, err e) = next room d
after_query next zero (d, ok response) = (d, [])
after_query next (suc n) (d, ok response) = let (d', rest) = next n d in (d', response ∷ rest)

-- ServeDNS, with the state of the resolver and the responses that were written; its buffer has
-- 1500 bytes.
unfoldable pub serve_dns :
    {E P Q B : Type 0}
    → Messages E P Q B
    → Unicode
    → ℤ
    → ℕ
    → List Bytes
    → VirtualDns
    → VirtualDns × List Bytes
serve_dns m u ttl room [] d = (d, [])
serve_dns m u ttl room (query ∷ queries) d =
    after_query (λ n d'. serve_dns m u ttl n queries d') room
      (handle_query m u ttl (take 1500 query) d)
