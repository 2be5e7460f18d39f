-- ===== src/Namespace.antt =====
-- sdk/pkg/netnsproxy/proxy_linux.go: the table of UDP flows of a namespace proxy and its slots.
-- Goroutines and sockets are the steps of the environment.
pub mod Lists
pub mod Routes
pub mod Setup
pub mod Flows
pub mod Isolated
use agents_net.Base.{
  ℕ, zero, suc, ◌+◌, ◌-◌, ◌≡◌, ◌≤◌, ◌<◌, Bool, true, false, not, ◌&&◌, ◌||◌, Option, none, some,
  List, [], ◌∷◌, ◌++◌, length, ltb, ◌==◌, if◌then◌else◌,
}
use agents_net.Base.Bytes.{Bytes}
use agents_net.Netip.{Addr, addr_eq}

pub record Endpoint : Type 0 where
  pub addr : Addr
  pub port : ℕ

pub record FlowKey : Type 0 where
  pub peer : Endpoint
  pub destination : Endpoint

unfoldable pub endpoint_eq : Endpoint → Endpoint → Bool
endpoint_eq a b = addr_eq a.addr b.addr && (a.port == b.port)

-- The equality of map keys.
unfoldable pub key_eq : FlowKey → FlowKey → Bool
unfolding endpoint_eq
key_eq a b = endpoint_eq a.peer b.peer && endpoint_eq a.destination b.destination

-- What ReadMsgUDP delivers: whether a flag tells of truncation, and the destination that
-- packetDestination finds in the control message, if it does.
pub record Datagram : Type 0 where
  pub truncated : Bool
  pub peer : Endpoint
  pub destination : Option Endpoint
  pub payload : Bytes

-- The channel of packets of a flow, and whether `done` is closed.
pub record Flow : Type 0 where
  pub key : FlowKey
  pub queue : List Bytes
  pub closed : Bool

abbrev pub max_packets : ℕ
max_packets = 16

-- The select on `packets`, `done` and a default. With `done` closed either case may be taken;
-- the first argument says whether it is `done`.
unfoldable pub push : Bool → Bytes → Flow → Flow
push picks_done packet f =
    if f.closed && picks_done
    then f
    else if ltb (length f.queue) max_packets
    then record f { queue = f.queue ++ packet ∷ [] }
    else f

unfoldable pub find : FlowKey → List Flow → Option Flow
find k [] = none
find k (f ∷ fs) = let rest = find k fs in if key_eq f.key k then some f else rest

unfoldable pub push_at : Bool → FlowKey → Bytes → List Flow → List Flow
unfolding push
push_at picks_done k packet [] = []
push_at picks_done k packet (f ∷ fs) =
    let rest = push_at picks_done k packet fs in
    if key_eq f.key k then push picks_done packet f ∷ fs else f ∷ rest

-- `used` is how many elements the channel of slots holds; `leaving` counts the workers that have
-- deleted their flow and not given the slot back, `tcp` those of serveTCP.
pub record Table : Type 0 where
  pub capacity : ℕ
  pub used : ℕ
  pub flows : List Flow
  pub leaving : ℕ
  pub tcp : ℕ

abbrev pub new_table : ℕ → Table
new_table capacity = record { capacity = capacity; used = 0; flows = []; leaving = 0; tcp = 0 }

-- The guards in front of the table.
unfoldable pub flow_key : Bool → Datagram → Option FlowKey
flow_key enable_udp p = if p.truncated then none else elim p.destination [
  | none ↦ none
  | some destination ↦
      if not (destination.port == 53) && not enable_udp
      then none
      else some (record { peer = p.peer; destination = destination })
]

abbrev pub new_flow : FlowKey → Flow
new_flow k = record { key = k; queue = []; closed = false }

-- A flow that is new needs a slot and then a reply socket, which `opens` answers; without the
-- socket the slot goes back.
unfoldable pub open_flow : Bool → FlowKey → Bytes → Table → Table
unfolding push
open_flow opens k payload t =
    if ltb t.used t.capacity
    then if opens
      then record t { used = t.used + 1; flows = push false payload (new_flow k) ∷ t.flows }
      else t
    else t

-- One round of the loop of serveUDP.
unfoldable pub receive : Bool → Bool → Bool → Datagram → Table → Table
unfolding flow_key find open_flow push_at
receive enable_udp opens picks_done p t = elim (flow_key enable_udp p) [
  | none ↦ t
  | some k ↦ elim (find k t.flows) [
    | none ↦ open_flow opens k p.payload t
    | some f ↦ record t { flows = push_at picks_done k p.payload t.flows }
  ]
]

-- The steps of the loop of serveUDP, of the goroutines of a flow, and of serveTCP.
pub data Step (enable_udp : Bool) (t : Table) : Table → Type 0 where
  receives :
      (opens picks_done : Bool) (p : Datagram)
      → Step enable_udp t (receive enable_udp opens picks_done p t)
  -- The reply socket of a flow delivers a packet.
  delivers :
      (picks_done : Bool) (packet : Bytes) (before after : List Flow) (f : Flow)
      → t.flows ≡ before ++ f ∷ after
      → Step enable_udp t (record t { flows = before ++ push picks_done packet f ∷ after })
  reads :
      (packet : Bytes) (queue : List Bytes) (before after : List Flow) (f : Flow)
      → t.flows ≡ before ++ f ∷ after
      → f.queue ≡ packet ∷ queue
      → Step enable_udp t (record t { flows = before ++ record f { queue = queue } ∷ after })
  closes :
      (before after : List Flow) (f : Flow)
      → t.flows ≡ before ++ f ∷ after
      → Step enable_udp t (record t { flows = before ++ record f { closed = true } ∷ after })
  -- The worker closes its flow and deletes it, and then gives the slot back.
  deletes :
      (before after : List Flow) (f : Flow)
      → t.flows ≡ before ++ f ∷ after
      → Step enable_udp t (record t { flows = before ++ after; leaving = t.leaving + 1 })
  returns :
      1 ≤ t.leaving → Step enable_udp t (record t { leaving = t.leaving - 1; used = t.used - 1 })
  tcp_starts :
      t.used < t.capacity → Step enable_udp t (record t { used = t.used + 1; tcp = t.tcp + 1 })
  tcp_ends : 1 ≤ t.tcp → Step enable_udp t (record t { used = t.used - 1; tcp = t.tcp - 1 })

pub data Reach (enable_udp : Bool) (t : Table) : Table → Type 0 where
  here : Reach enable_udp t t
  later : {u v : Table} → Reach enable_udp t u → Step enable_udp u v → Reach enable_udp t v
