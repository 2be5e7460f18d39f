-- ===== src/Namespace/Isolated.antt =====
-- serveUDP of sdk/pkg/netnsproxy/proxy_linux.go: a datagram reaches the flow of its key only.
use mathlib.Core.Path.{subst}
use agents_net.Base.{
  ◌≡◌, refl, sym, ap, ◌∙◌, inl, inr, Bool, true, false, and_true, ==_iff, Bool-cases, Option-cases,
  none, some, List, [], ◌∷◌, ltb, ◌==◌, ◌⊎◌, not, ◌&&◌, arith,
}
use agents_net.Base.Bytes.{Bytes}
use agents_net.Netip.{addr_eq}
use agents_net.Netip.Equality.{addr_eq_iff}
use agents_net.Namespace.{
  Endpoint, FlowKey, endpoint_eq, key_eq, Datagram, Flow, push, find, push_at, Table, flow_key,
  new_flow, open_flow, receive,
}
use agents_net.Namespace.Lists.{push-key}

endpoint_eq→eq : (a b : Endpoint) → endpoint_eq a b ≡ true → a ≡ b
unfolding endpoint_eq
endpoint_eq→eq a b h =
    let (same_addr, same_port) = and_true (addr_eq a.addr b.addr) (a.port == b.port) h in
    let addr : a.addr ≡ b.addr = (addr_eq_iff a.addr b.addr).0 same_addr in
    let port : a.port ≡ b.port = (==_iff a.port b.port).0 same_port in cc

key_eq→eq : (j k : FlowKey) → key_eq j k ≡ true → j ≡ k
unfolding key_eq
key_eq→eq j k h =
    let (same_peer, same_destination) =
      and_true (endpoint_eq j.peer k.peer) (endpoint_eq j.destination k.destination) h in
    let peer = endpoint_eq→eq j.peer k.peer same_peer in
    let destination = endpoint_eq→eq j.destination k.destination same_destination in cc

find-cons :
    (k : FlowKey) (f : Flow) (fs : List Flow) → key_eq f.key k ≡ false → find k (f ∷ fs) ≡ find k fs
unfolding find
find-cons k f fs h = rw (h, find) refl

find_here :
    (k : FlowKey) (f : Flow) (fs : List Flow) → key_eq f.key k ≡ true → find k (f ∷ fs) ≡ some f
unfolding find
find_here k f fs h = rw (h, find) refl

find-push_at :
    (picks_done : Bool) (j k : FlowKey) (packet : Bytes) (fs : List Flow)
    → key_eq k j ≡ false
    → find j (push_at picks_done k packet fs) ≡ find j fs
unfolding push_at
find-push_at picks_done j k packet [] h = refl
find-push_at picks_done j k packet (f ∷ fs) h = elim (Bool-cases (key_eq f.key k)) [
  | inl e ↦
      let other : key_eq f.key j ≡ false = rw (key_eq→eq f.key k e) h in
      let pushed : key_eq (push picks_done packet f).key j ≡ false =
        rw (push-key picks_done packet f) other in
      rw (e, push_at)
        (find-cons j (push picks_done packet f) fs pushed ∙ sym (find-cons j f fs other))
  | inr e ↦ elim (Bool-cases (key_eq f.key j)) [
    | inl g ↦
        rw (e, push_at)
          (find_here j f (push_at picks_done k packet fs) g ∙ sym (find_here j f fs g))
    | inr g ↦
        rw (e, push_at)
          (find-cons j f (push_at picks_done k packet fs) g
            ∙ find-push_at picks_done j k packet fs h
            ∙ sym (find-cons j f fs g))
  ]
]

find-open_flow :
    (opens : Bool) (j k : FlowKey) (payload : Bytes) (t : Table)
    → key_eq k j ≡ false
    → find j (open_flow opens k payload t).flows ≡ find j t.flows
unfolding open_flow
find-open_flow opens j k payload t h = elim (Bool-cases (ltb t.used t.capacity)) [
  | inr e ↦ rw (e, open_flow) refl
  | inl e ↦ elim (Bool-cases opens) [
    | inr g ↦ rw (e, g, open_flow) refl
    | inl g ↦
        let other : key_eq (push false payload (new_flow k)).key j ≡ false =
          rw (push-key false payload (new_flow k)) h in
        rw (e, g, open_flow) (find-cons j (push false payload (new_flow k)) t.flows other)
  ]
]

-- A datagram that goes to the flow of the key: whole, with a destination, from and to its ends, and
-- for DNS unless UDP is enabled.
abbrev pub IsFor : Bool → Datagram → FlowKey → Type 0
IsFor enable_udp p j =
    (p.truncated ≡ false)
    × (p.destination ≡ some j.destination)
    × (p.peer ≡ j.peer)
    × ((j.destination.port ≡ 53) ⊎ (enable_udp ≡ true))

some_inj : {j k : FlowKey} → some j ≡ some k → j ≡ k
some_inj q = cc

flow_key-IsFor :
    (enable_udp : Bool) (p : Datagram) (j : FlowKey)
    → flow_key enable_udp p ≡ some j
    → IsFor enable_udp p j
unfolding flow_key
flow_key-IsFor enable_udp p j h = elim (Bool-cases p.truncated) [
  | inl e ↦ absurd (none_some (rw e at h))
  | inr e ↦ elim (Option-cases p.destination) [
    | inl d ↦ let q = rw e at h in absurd (none_some (rw d at q))
    | inr (x, d) ↦
        let q = rw e at h in
        let q' = rw d at q in
        elim (Bool-cases (not (x.port == 53) && not enable_udp)) [
          | inl out ↦ absurd (none_some (rw out at q'))
          | inr in_use ↦
              let key : some (record { peer = p.peer; destination = x }) ≡ some j =
                rw in_use at q' in
              let same : record { peer = p.peer; destination = x } ≡ j = some_inj key in
              let there : x ≡ j.destination = ap (λ (k : FlowKey). k.destination) same in
              (
                e,
                d ∙ ap some there,
                ap (λ (k : FlowKey). k.peer) same,
                subst (λ y. (y.port ≡ 53) ⊎ (enable_udp ≡ true)) there (ground (arith, in_use)),
              )
        ]
  ]
]
  where
    none_some : none ≡ some j → ⊥
    none_some q = cc

-- A datagram that serveUDP receives changes no flow but the one of its own peer and destination;
-- one that is truncated, has no destination, or is not for port 53 while UDP is not enabled
-- changes none.
pub find-receive :
    (enable_udp opens picks_done : Bool) (p : Datagram) (t : Table) (j : FlowKey)
    → ¬ IsFor enable_udp p j
    → find j (receive enable_udp opens picks_done p t).flows ≡ find j t.flows
unfolding receive
find-receive enable_udp opens picks_done p t j other = elim (Option-cases (flow_key enable_udp p)) [
  | inl e ↦ rw (e, receive) refl
  | inr (k, e) ↦
      let apart : key_eq k j ≡ false = elim (Bool-cases (key_eq k j)) [
        | inl same ↦
            absurd (other (flow_key-IsFor enable_udp p j (e ∙ ap some (key_eq→eq k j same))))
        | inr differs ↦ differs
      ] in
      elim (Option-cases (find k t.flows)) [
        | inl g ↦ rw (e, g, receive) (find-open_flow opens j k p.payload t apart)
        | inr (f, g) ↦ rw (e, g, receive) (find-push_at picks_done j k p.payload t.flows apart)
      ]
]
