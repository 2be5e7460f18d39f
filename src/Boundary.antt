-- ===== src/Boundary.antt =====
-- connectUpstream of sdk/cmd/connect-proxy/main.go: the decision, its audit record, the dial.
-- What is written is a list of events; the connection is the address that it leads to.
pub mod Decided
pub mod Front
pub mod Outcome
pub mod H2
pub mod Heads
pub mod Listener
pub mod Idle
use agents_net.Base.{
  ℕ, Bool, true, false, not, ◌&&◌, Option, none, some, List, [], ◌∷◌, if◌then◌else◌,
}
use agents_net.Base.Bytes.{Bytes}
use agents_net.Net.{join_host_port}
use agents_net.Netip.{Addr}
use agents_net.Policy.{Platform, Network, tcp, udp, Policy}
use agents_net.Policy.Authorize.{
  Reason, policy_unavailable, udp_disabled, resolve_failed, dial_failed, Verdict, authorize,
}

-- What connectUpstream takes from outside: the text forms, the resolver (`none` is its error),
-- net.DialTimeout on an address text with its port, which answers the remote address, and the
-- name of the listener.
pub record World : Type 0 where
  pub platform : Platform
  pub lookup : Bytes → Option (List Addr)
  pub dial : Network → Bytes → Option Bytes
  pub listener : Bytes

pub data Wire : Type 0 where
  h1 h2 : Wire

pub data Decision : Type 0 where
  allow block fail : Decision

pub record Session : Type 0 where
  pub peer : Bytes
  pub id : Bytes

-- auditRecord without the time. An empty reason or transport is `none`.
pub record AuditRecord : Type 0 where
  pub listener : Bytes
  pub sandbox : Bytes
  pub generation : Bytes
  pub policy : Bytes
  pub wire : Wire
  pub transport : Option Network
  pub destination : Bytes
  pub address : Bytes
  pub peer : Bytes
  pub connection : Bytes
  pub rule : Bytes
  pub decision : Decision
  pub reason : Option Reason

pub data Event : Type 0 where
  audited : AuditRecord → Event
  -- The head of the response that opens a tunnel.
  established : ℕ → Event
  -- The responder's deny.
  denied : ℕ → Reason → Event

-- The record that `audit` writes under the current policy.
abbrev pub audit : World → Option Policy → AuditRecord → Event
audit w none r = audited (record r { listener = w.listener })
audit w (some q) r = audited (record r {
  listener = w.listener;
  sandbox = q.sandbox;
  policy = q.version;
  generation = q.generation;
})

-- The connection with the address that it was dialled at, an error, or neither.
pub data Dialled : Type 0 where
  connected : Addr → Bytes → Dialled
  failed nothing : Dialled

-- The loop of dialAuthorized and whether there is an error so far.
unfoldable pub dial_loop : World → Network → Bytes → Bool → List Addr → Dialled
dial_loop w network port erred [] = if erred then failed else nothing
dial_loop w network port erred (a ∷ l) =
    let rest = dial_loop w network port true l in
    elim (w.dial network (join_host_port (w.platform.addr_string a) port)) [
      | some remote ↦ connected a remote
      | none ↦ rest
    ]

unfoldable pub dial_authorized : World → Network → List Addr → Bytes → Dialled
unfolding dial_loop
dial_authorized w network addresses port = dial_loop w network port false addresses

abbrev pub first_record : Wire → Network → Bytes → Bytes → Session → AuditRecord
first_record wire network host port s = record {
  listener = [];
  sandbox = [];
  generation = [];
  policy = [];
  wire = wire;
  transport = some network;
  destination = join_host_port host port;
  address = [];
  peer = s.peer;
  connection = s.id;
  rule = [];
  decision = fail;
  reason = none;
}

-- A record and a refusal for the same reason, and no connection.
abbrev pub refusal :
    World
    → Option Policy
    → AuditRecord
    → Decision
    → ℕ
    → Reason
    → Option (List Event × Option (Addr × Bytes))
refusal w current rec decision status reason = some (
  audit w current (record rec { decision = decision; reason = some reason })
      ∷ denied status reason
      ∷ [],
  none,
)

-- What follows the dial; `none` is the panic on a connection that is nil.
unfoldable pub after_dial :
    World
    → Option Policy
    → AuditRecord
    → Bytes
    → Dialled
    → Option (List Event × Option (Addr × Bytes))
after_dial w current rec rule nothing = none
after_dial w current rec rule failed = refusal w current rec fail 502 dial_failed
after_dial w current rec rule (connected a remote) = some (
  audit w current (record rec { decision = allow; address = remote; rule = rule }) ∷ [],
  some (a, remote),
)

-- The switch on the verdict of `authorize`.
unfoldable pub after_authorize :
    World
    → Option Policy
    → Network
    → Bytes
    → AuditRecord
    → Verdict
    → Option (List Event × Option (Addr × Bytes))
after_authorize w current network port rec v =
    let rec' = record rec { destination = v.destination } in
    elim v.reason [
      | some reason ↦ refusal w current rec' block v.status reason
      | none ↦
          if v.failed
          then refusal w current rec' fail 502 resolve_failed
          else after_dial w current rec' v.rule (dial_authorized w network v.addresses port)
    ]

abbrev pub is_udp : Network → Bool
is_udp tcp = false
is_udp udp = true

unfoldable pub connect_upstream :
    World
    → Option Policy
    → Wire
    → Network
    → Bytes
    → Bytes
    → Session
    → Option (List Event × Option (Addr × Bytes))
connect_upstream w none wire network host port s =
    refusal w none (first_record wire network host port s) fail 503 policy_unavailable
connect_upstream w (some q) wire network host port s =
    let rec = first_record wire network host port s in
    if is_udp network && not q.udp
    then refusal w (some q) rec block 403 udp_disabled
    else after_authorize w (some q) network port rec
        (authorize w.lookup w.platform q host port network)
