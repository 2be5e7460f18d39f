-- ===== src/Namespace/Flows.antt =====
-- The flows of sdk/pkg/netnsproxy/proxy_linux.go: slots, queues and keys in every state.
use agents_net.Base.{
  ℕ, ◌+◌, ◌≡◌, ◌≤◌, inl, inr, refl, ap, arith, Bool, true, false, Bool-cases, Option-cases, none,
  List, ◌∷◌, ◌++◌, All, All-right, length, length-append, ltb,
}
use agents_net.Base.Bytes.{Bytes}
use agents_net.Namespace.{
  FlowKey, key_eq, Datagram, Flow, push, find, Table, new_table, flow_key, new_flow, open_flow,
  receive, Step, receives, delivers, reads, closes, deletes, returns, tcp_starts, tcp_ends, Reach,
  here, later,
}
use agents_net.Namespace.Lists.{
  Distinct, keys, IsShort, push-key, push-IsShort, push_at-keys, push_at-IsShort, push_at-length,
  find-none, keys-replace, Distinct-delete, All-replace, All-delete,
}

-- Every slot is held by a flow, by a worker that leaves or by one of serveTCP; no more are held
-- than there are, no queue is longer than its channel, and no key has two flows.
pub record IsSound (capacity : ℕ) (t : Table) : Type 0 where
  pub fixed : t.capacity ≡ capacity
  pub counted : t.used ≡ length t.flows + t.leaving + t.tcp
  pub bounded : t.used ≤ capacity
  pub queues : All IsShort t.flows
  pub distinct : Distinct (keys t.flows)

-- A flow takes the place of another one with its key.
replace-IsSound :
    (capacity : ℕ) (t : Table) (before after : List Flow) (f f' : Flow)
    → t.flows ≡ before ++ f ∷ after
    → f'.key ≡ f.key
    → (IsShort f → IsShort f')
    → IsSound capacity t
    → IsSound capacity (record t { flows = before ++ f' ∷ after })
replace-IsSound capacity t before after f f' at_f same short i =
    let queues : All IsShort (before ++ f ∷ after) = rw at_f at i.queues in
    let distinct : Distinct (keys (before ++ f ∷ after)) = rw at_f at i.distinct in
    let as_long : length (before ++ f' ∷ after) ≡ length t.flows =
      rw at_f
        (omega (arith, length-append before (f ∷ after), length-append before (f' ∷ after))) in
    record {
      fixed = i.fixed;
      counted = omega (arith, as_long, i.counted);
      bounded = i.bounded;
      queues =
          All-replace IsShort before after f f'
            (short (All-right IsShort before (f ∷ after) queues).0) queues;
      distinct = rw (keys-replace before after f f' same) distinct;
    }

open_flow-IsSound :
    (capacity : ℕ) (opens : Bool) (k : FlowKey) (payload : Bytes) (t : Table)
    → find k t.flows ≡ none
    → IsSound capacity t
    → IsSound capacity (open_flow opens k payload t)
unfolding open_flow
open_flow-IsSound capacity opens k payload t missing i = elim (Bool-cases (ltb t.used t.capacity)) [
  | inr e ↦ rw (e, open_flow) i
  | inl e ↦ elim (Bool-cases opens) [
    | inr g ↦ rw (e, g, open_flow) i
    | inl g ↦
        let apart : All (λ j. key_eq j (push false payload (new_flow k)).key ≡ false)
            (keys t.flows) =
          rw (push-key false payload (new_flow k)) (find-none k t.flows missing) in
        rw (e, g, open_flow)
          (record {
            fixed = i.fixed;
            counted = omega (arith, i.counted);
            bounded = ground (arith, e, i.fixed);
            queues = (push-IsShort false payload (new_flow k) (omega arith), i.queues);
            distinct = (apart, i.distinct);
          })
  ]
]

receive-IsSound :
    (capacity : ℕ) (enable_udp opens picks_done : Bool) (p : Datagram) (t : Table)
    → IsSound capacity t
    → IsSound capacity (receive enable_udp opens picks_done p t)
unfolding receive
receive-IsSound capacity enable_udp opens picks_done p t i =
    elim (Option-cases (flow_key enable_udp p)) [
      | inl e ↦ rw (e, receive) i
      | inr (k, e) ↦ elim (Option-cases (find k t.flows)) [
        | inl g ↦ rw (e, g, receive) (open_flow-IsSound capacity opens k p.payload t g i)
        | inr (f, g) ↦
            rw (e, g, receive)
              (record {
                fixed = i.fixed;
                counted = omega (arith, i.counted, push_at-length picks_done k p.payload t.flows);
                bounded = i.bounded;
                queues = push_at-IsShort picks_done k p.payload t.flows i.queues;
                distinct = rw (push_at-keys picks_done k p.payload t.flows) i.distinct;
              })
      ]
    ]

Step-IsSound :
    {enable_udp : Bool} {t u : Table} (capacity : ℕ)
    → Step enable_udp t u
    → IsSound capacity t
    → IsSound capacity u
Step-IsSound {enable_udp = enable_udp} {t = t} capacity (receives opens picks_done p) i =
    receive-IsSound capacity enable_udp opens picks_done p t i
Step-IsSound {t = t} capacity (delivers picks_done packet before after f at_f) i =
    replace-IsSound capacity t before after f (push picks_done packet f) at_f
      (push-key picks_done packet f) (push-IsShort picks_done packet f) i
Step-IsSound {t = t} capacity (reads packet queue before after f at_f first) i =
    replace-IsSound capacity t before after f (record f { queue = queue }) at_f refl
      (λ h. omega (arith, h, ap length first)) i
Step-IsSound {t = t} capacity (closes before after f at_f) i =
    replace-IsSound capacity t before after f (record f { closed = true }) at_f refl (λ h. h) i
Step-IsSound {t = t} capacity (deletes before after f at_f) i =
    let queues : All IsShort (before ++ f ∷ after) = rw at_f at i.queues in
    let distinct : Distinct (keys (before ++ f ∷ after)) = rw at_f at i.distinct in
    let fewer : length t.flows ≡ length (before ++ after) + 1 =
      rw at_f (omega (arith, length-append before (f ∷ after), length-append before after)) in
    record {
      fixed = i.fixed;
      counted = omega (arith, fewer, i.counted);
      bounded = i.bounded;
      queues = All-delete IsShort before after f queues;
      distinct = Distinct-delete before after f distinct;
    }
Step-IsSound capacity (returns some_leave) i = record {
  fixed = i.fixed;
  counted = omega (arith, some_leave, i.counted);
  bounded = omega (arith, i.bounded);
  queues = i.queues;
  distinct = i.distinct;
}
Step-IsSound capacity (tcp_starts room) i = record {
  fixed = i.fixed;
  counted = omega (arith, i.counted);
  bounded = omega (arith, room, i.fixed);
  queues = i.queues;
  distinct = i.distinct;
}
Step-IsSound capacity (tcp_ends some_tcp) i = record {
  fixed = i.fixed;
  counted = omega (arith, some_tcp, i.counted);
  bounded = omega (arith, i.bounded);
  queues = i.queues;
  distinct = i.distinct;
}

-- In every state that the proxy reaches each flow, each worker that leaves and each TCP worker
-- holds one of the slots, of which no more are held than there are; no queue has more than 16
-- packets, and no pair of peer and destination has two flows.
pub Reach-new_table :
    (enable_udp : Bool) (capacity : ℕ) (t : Table)
    → Reach enable_udp (new_table capacity) t
    → IsSound capacity t
Reach-new_table enable_udp capacity _ here = record {
  fixed = refl;
  counted = omega arith;
  bounded = omega arith;
  queues = tt;
  distinct = tt;
}
Reach-new_table enable_udp capacity t (later {u = u} r s) =
    Step-IsSound capacity s (Reach-new_table enable_udp capacity u r)
