-- ===== src/Forwarder/Relay/Resolved.antt =====
-- ServeDNS of sdk/pkg/tun2connect/forwarder.go answers from the resolver.
use agents_net.Base.{ℕ, zero, suc, List, [], ◌∷◌, take}
use agents_net.Base.Bytes.{Bytes}
use agents_net.Base.Int.{ℤ}
use agents_net.Base.Result.{Result, ok, err}
use agents_net.Base.Unicode.{Unicode}
use agents_net.Dns.{VirtualDns}
use agents_net.Dns.Invariant.{Owners, IsValid}
use agents_net.Dns.Query.{Messages, handle_query}
use agents_net.Dns.Query.Replied.{IsReplied, unparsed, replied, handle_query-IsReplied}
use agents_net.Forwarder.Relay.{after_query, serve_dns}

module _ {E P Q B : Type 0} (m : Messages E P Q B) (u : Unicode) (ttl : ℤ) where
  -- The state behind a query is valid, whatever came of it.
  replied-IsValid :
      (owners : Owners) (query : Bytes) (d : VirtualDns) (r : VirtualDns × Result E Bytes)
      → IsValid owners d
      → IsReplied m u owners query d r
      → (owners' : Owners) × IsValid owners' r.0
  replied-IsValid owners query d r v (unparsed e h) = (owners, v)
  replied-IsValid owners query d r v
        (replied hdr p q t answer erred owners' d' reply a b c lookup v' is) =
      (owners', v')

  -- What becomes of the queries in order, each from a valid state of the resolver: those that get
  -- no response are passed over, the others are answered until a write fails.
  pub data IsServing : ℕ → VirtualDns → List Bytes → VirtualDns × List Bytes → Type 0 where
    read_failed : (room : ℕ) (d : VirtualDns) → IsServing room d [] (d, [])
    unanswered :
        (room : ℕ) (owners : Owners) (d d' : VirtualDns) (query : Bytes) (queries : List Bytes)
        (e : E) (r : VirtualDns × List Bytes)
        → IsValid owners d
        → IsReplied m u owners (take 1500 query) d (d', err e)
        → IsServing room d' queries r
        → IsServing room d (query ∷ queries) r
    write_failed :
        (owners : Owners) (d d' : VirtualDns) (query : Bytes) (queries : List Bytes)
        (response : Bytes)
        → IsValid owners d
        → IsReplied m u owners (take 1500 query) d (d', ok response)
        → IsServing zero d (query ∷ queries) (d', [])
    answered :
        (room : ℕ) (owners : Owners) (d d' d'' : VirtualDns) (query : Bytes) (queries : List Bytes)
        (response : Bytes) (responses : List Bytes)
        → IsValid owners d
        → IsReplied m u owners (take 1500 query) d (d', ok response)
        → IsServing room d' queries (d'', responses)
        → IsServing (suc room) d (query ∷ queries) (d'', response ∷ responses)

  -- ServeDNS answers the queries of a flow in order from the resolver, each as HandleQuery
  -- does from a valid state; a query without a response is passed over, and the loop ends with
  -- the connection. The resolver is valid behind it.
  pub serve_dns-IsServing :
      (room : ℕ) (queries : List Bytes) (owners : Owners) (d : VirtualDns)
      → IsValid owners d
      → IsServing room d queries (serve_dns m u ttl room queries d)
        × ((owners' : Owners) × IsValid owners' (serve_dns m u ttl room queries d).0)
  unfolding serve_dns
  serve_dns-IsServing room [] owners d v = (read_failed room d, (owners, v))
  serve_dns-IsServing room (query ∷ queries) owners d v =
      go room (handle_query m u ttl (take 1500 query) d)
        (handle_query-IsReplied m u owners ttl (take 1500 query) d v)
        (λ n owners' d' v'. serve_dns-IsServing n queries owners' d' v')
    where
      go :
          (room : ℕ) (r : VirtualDns × Result E Bytes)
          → IsReplied m u owners (take 1500 query) d r
          → ((n : ℕ) (owners' : Owners) (d' : VirtualDns)
              → IsValid owners' d'
              → IsServing n d' queries (serve_dns m u ttl n queries d')
                × ((owners'' : Owners) × IsValid owners'' (serve_dns m u ttl n queries d').0))
          → IsServing room d
              (query ∷ queries)
              (after_query (λ n d'. serve_dns m u ttl n queries d') room r)
            × ((owners' : Owners) × IsValid owners'
                  (after_query (λ n d'. serve_dns m u ttl n queries d') room r).0)
      go room (d', err e) done next =
          let (owners', v') = replied-IsValid owners (take 1500 query) d (d', err e) v done in
          let (rest, valid) = next room owners' d' v' in
          (unanswered room owners d d' query queries e _ v done rest, valid)
      go zero (d', ok response) done next = (
        write_failed owners d d' query queries response v done,
        replied-IsValid owners (take 1500 query) d (d', ok response) v done,
      )
      go (suc n) (d', ok response) done next =
          let (owners', v') = replied-IsValid owners (take 1500 query) d (d', ok response) v done in
          let (rest, valid) = next n owners' d' v' in
          (answered n owners d d' _ query queries response _ v done rest, valid)
