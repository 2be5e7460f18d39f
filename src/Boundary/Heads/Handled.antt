-- ===== src/Boundary/Heads/Handled.antt =====
-- serve of sdk/cmd/connect-proxy/main.go: what comes of every connection.
use agents_net.Base.{ℕ, ◌≡◌, inl, inr, refl, Option, none, some, List, [], ◌∷◌}
use agents_net.Base.Bytes.{Bytes}
use agents_net.Base.Result.{ok, err, Result-cases}
use agents_net.Netip.{Addr}
use agents_net.Policy.{Policy}
use agents_net.Policy.Authorize.{Reason, tls_failed}
use agents_net.Boundary.{World, h1, Event, audit}
use agents_net.Boundary.Front.{Http, Head}
use agents_net.Boundary.Front.Served.{IsAsked, serve_head-IsServed}
use agents_net.Boundary.Outcome.{Asked, IsServed, refuse-Serves}
use agents_net.Boundary.Heads.{
  Parser, head_error, lost, read_head, new_session, failed_connection, serve,
}

-- Nothing is asked for.
abbrev pub NotAsked : Asked
NotAsked network host port status = ⊥

-- How a connection may end: without a peer only a failure is recorded, a head that is lost leaves
-- no trace, and every other head, read or malformed, gets one record and one response.
pub data IsHandled {S : Type 0} (p : Parser S) (f : Http) (w : World) (current : Option Policy)
    (s : S) : Option Bytes → List Event × Option (Addr × Bytes) → Type 0 where
  no_peer :
      IsHandled p f w current s none (audit w current (failed_connection h1 tls_failed) ∷ [], none)
  no_head :
      (peer : Bytes) → read_head p s ≡ err lost → IsHandled p f w current s (some peer) ([], none)
  answered :
      (peer : Bytes) (h : Head) (o : List Event × Option (Addr × Bytes))
      → read_head p s ≡ ok h
      → IsServed (IsAsked f w h) w current o
      → IsHandled p f w current s (some peer) o
  malformed :
      (peer : Bytes) (status : ℕ) (reason : Reason) (o : List Event × Option (Addr × Bytes))
      → read_head p s ≡ err (head_error status reason)
      → IsServed NotAsked w current o
      → IsHandled p f w current s (some peer) o

-- Every connection is handled, whatever it sends: the handler ends without a panic. A tunnel is
-- opened only for a head that was read whole and asks for its target; a head that is malformed or
-- too large is recorded and refused, and a head that is lost is neither.
pub serve-IsHandled :
    {S : Type 0} (p : Parser S) (f : Http) (w : World) (current : Option Policy) (connections : ℕ)
    (peer : Option Bytes) (s : S)
    → (o : List Event × Option (Addr × Bytes)) × ((serve p f w current connections peer s).1
        ≡ some o)
      × IsHandled p f w current s peer o
unfolding serve
serve-IsHandled p f w current connections none s = (_, refl, no_peer)
serve-IsHandled p f w current connections (some peer) s =
    let session = (new_session connections peer).1 in
    elim (Result-cases (read_head p s)) [
      | inl (h, e) ↦
          let (o, q, served) = serve_head-IsServed f w current h session in
          (o, rw (e, serve) q, answered peer h o e served)
      | inr (lost, e) ↦ (_, rw (e, serve) refl, no_head peer e)
      | inr (head_error status reason, e) ↦
          let (o, q, served) = refuse-Serves NotAsked h1 w current session none [] status reason in
          (o, rw (e, serve) q, malformed peer status reason o e served)
    ]
