-- ===== src/Boundary/Outcome.antt =====
-- What either front end of sdk/cmd/connect-proxy/main.go answers.
use agents_net.Base.{◌≡◌, ◌≢◌, refl, ℕ, Option, none, some, List, [], ◌∷◌}
use agents_net.Base.Bytes.{Bytes}
use agents_net.Netip.{Addr}
use agents_net.Policy.{Network, Policy}
use agents_net.Policy.Authorize.{Reason}
use agents_net.Boundary.{
  World, Wire, allow, block, Session, AuditRecord, Event, denied, established, audit,
  connect_upstream,
}
use agents_net.Boundary.Decided.{IsOpened, IsDecided, opened, refused, connect_upstream-IsDecided}
use agents_net.Boundary.Front.{refuse, respond}

-- What a request asks for: the network, the host, the port and the status of success.
abbrev pub Asked : Type 1
Asked = Network → Bytes → Bytes → ℕ → Type 0

-- One record and one response: a refusal, or the head that opens the tunnel asked for.
pub data IsServed (asks : Asked) (w : World) (current : Option Policy)
    : List Event × Option (Addr × Bytes) → Type 0 where
  tunnelled :
      (network : Network) (host port : Bytes) (status : ℕ) (rec : AuditRecord) (a : Addr)
      (remote : Bytes)
      → asks network host port status
      → IsOpened w current network host port rec a remote
      → IsServed asks w current (audit w current rec ∷ established status ∷ [], some (a, remote))
  rejected :
      (rec : AuditRecord) (status : ℕ) (reason : Reason)
      → rec.decision ≢ allow
      → rec.reason ≡ some reason
      → IsServed asks w current (audit w current rec ∷ denied status reason ∷ [], none)

abbrev pub Serves :
    Asked → World → Option Policy → Option (List Event × Option (Addr × Bytes)) → Type 0
Serves asks w current o =
    (r : List Event × Option (Addr × Bytes)) × (o ≡ some r) × IsServed asks w current r

module _ (asks : Asked) (wire : Wire) (w : World) (current : Option Policy) (s : Session) where
  pub refuse-Serves :
      (network : Option Network) (destination : Bytes) (status : ℕ) (reason : Reason)
      → Serves asks w current (some (refuse wire w current network destination s status reason))
  refuse-Serves network destination status reason = (
    _,
    refl,
    rejected
        (record {
          listener = [];
          sandbox = [];
          generation = [];
          policy = [];
          wire = wire;
          transport = network;
          destination = destination;
          address = [];
          peer = s.peer;
          connection = s.id;
          rule = [];
          decision = block;
          reason = some reason;
        })
        status reason (λ e. cc) refl,
  )

  respond-IsServed :
      (network : Network) (host port : Bytes) (status : ℕ) (r : List Event × Option (Addr × Bytes))
      → asks network host port status
      → IsDecided w current network host port r
      → Serves asks w current (respond status (some r))
  unfolding respond
  respond-IsServed network host port status r asked (opened rec a remote o) =
      (_, refl, tunnelled network host port status rec a remote asked o)
  respond-IsServed network host port status r asked (refused rec code reason other same) =
      (_, refl, rejected rec code reason other same)

  pub respond-Serves :
      (network : Network) (host port : Bytes) (status : ℕ)
      → asks network host port status
      → Serves asks w current (respond status (connect_upstream w current wire network host port s))
  respond-Serves network host port status asked =
      let (r, e, d) = connect_upstream-IsDecided w current wire network host port s in
      rw e (respond-IsServed network host port status r asked d)
