-- ===== src/Engine/Closing.antt =====
-- Close of sdk/pkg/tun2connect/engine.go, and the release of a session.
use agents_net.Base.{
  ℕ, ◌+◌, ◌-◌, ◌≤◌, ◌≡◌, refl, ◌∙◌, ap, inl, inr, Bool, true, Option, none, some, List, [], ◌∷◌,
  ◌++◌, arith, length, length-append, Option-cases,
}
use agents_net.Engine.{
  Engine, Worker, UdpRequest, acquire, release, give_back, handle_udp, Outcome, tcp_refused,
  tcp_ended, dns_ended, udp_refused, udp_ended, System, Step, tcp_arrives, udp_arrives, goes_on,
  returns, closes, waits, closes_stack, Reach, here, later, new_system,
}
use agents_net.Engine.Safety.{
  handle_tcp-IsAdmission, handle_udp-IsAdmission, IsSound, started-length, no_admission,
  Step-IsSound, Reach-IsSound, new_system-IsSound,
}

-- In every reachable state the channel and the counter hold the live workers, one each, and at
-- most the capacity. Once Close has passed workers.Wait, and so when the stack is closed, the
-- engine is closed and no worker is live, whatever requests still arrive.
pub Reach-new_system :
    (enable_udp : Bool) (capacity : ℕ) (s : System)
    → Reach enable_udp (new_system capacity) s
    → IsSound capacity s
Reach-new_system enable_udp capacity s r = Reach-IsSound capacity (new_system-IsSound capacity) r

release-some : (e : Engine) → 1 ≤ e.sessions → 1 ≤ e.workers → (e' : Engine) × (release e ≡ some e')
unfolding release
release-some e h k = (record e { sessions = e.sessions - 1; workers = e.workers - 1 }, ground arith)

give_back-some :
    (e : Engine)
    → (r : Engine × Option Worker) × (give_back
          (record e { sessions = e.sessions + 1; workers = e.workers + 1 })
        ≡ some r)
unfolding give_back
give_back-some e =
    let (e', q) =
      release-some (record e { sessions = e.sessions + 1; workers = e.workers + 1 }) (omega arith)
        (omega arith) in
    ((e', none), rw (q, give_back) refl)

handle_udp-some :
    (enable_udp : Bool) (r : UdpRequest) (e : Engine)
    → (x : Engine × Option Worker) × (handle_udp enable_udp r e ≡ some x)
unfolding handle_udp acquire
handle_udp-some enable_udp r e = elim (Option-cases (handle_udp enable_udp r e)) [
  | inr found ↦ found
  | inl stuck ↦ absurd (let (x, q) = give_back-some e in ground (arith, stuck, q))
]

-- No release blocks: a live worker of a reachable state can give its session back, and
-- handleUDP answers on every request.
pub Reach-release :
    (enable_udp : Bool) (capacity : ℕ) (s : System) (before after : List Worker) (v : Worker)
    (r : UdpRequest)
    → Reach enable_udp (new_system capacity) s
    → s.live ≡ before ++ v ∷ after
    → ((e : Engine) × (release s.engine ≡ some e))
      × ((x : Engine × Option Worker) × (handle_udp enable_udp r s.engine ≡ some x))
Reach-release enable_udp capacity s before after v r reach at_v =
    let sound = Reach-new_system enable_udp capacity s reach in
    let some_live : 1 ≤ length s.live = rw at_v (omega (arith, length-append before (v ∷ after))) in
    (
      release-some s.engine (omega (arith, sound.sessions)) (omega (arith, sound.workers)),
      handle_udp-some enable_udp r s.engine,
    )

-- Every worker can return.
ends : (v : Worker) → Outcome v none
ends Worker.tcp_dialing = tcp_refused
ends Worker.tcp_relaying = tcp_ended
ends Worker.serving_dns = dns_ended
ends Worker.udp_dialing = udp_refused
ends Worker.udp_relaying = udp_ended

release-closed : (e e' : Engine) → release e ≡ some e' → e'.closed ≡ e.closed
unfolding release
release-closed e e' h = ground arith

drained :
    {enable_udp : Bool} {s : System} (capacity : ℕ) (l : List Worker) (t : System)
    → Reach enable_udp s t
    → t.live ≡ l
    → t.engine.closed ≡ true
    → IsSound capacity t
    → (u : System) × Reach enable_udp s u × (u.engine.closed ≡ true) × (u.engine.workers ≡ 0)
drained capacity [] t r empty shut v = (t, r, shut, v.workers ∙ ap length empty)
drained capacity (w ∷ l) t r first shut v =
    let some_live : 1 ≤ length t.live = rw first (omega arith) in
    let (e, q) = release-some t.engine (omega (arith, v.sessions)) (omega (arith, v.workers)) in
    let step = returns [] l w e first (ends w) q in
    drained capacity l (record t { engine = e; live = l }) (later r step) refl
      (release-closed t.engine e q ∙ shut) (Step-IsSound capacity step v)

-- Close can finish from every reachable state: once it is called and every worker returns, the
-- stack is closed.
pub Reach-closes :
    (enable_udp : Bool) (capacity : ℕ) (s : System)
    → Reach enable_udp (new_system capacity) s
    → (t : System) × Reach enable_udp s t × (t.stack_closed ≡ true)
Reach-closes enable_udp capacity s r =
    let shut : Step enable_udp s (record s { engine = record s.engine { closed = true } }) =
      closes in
    let (u, r', closed, idle) =
      drained capacity s.live (record s { engine = record s.engine { closed = true } })
        (later here shut) refl refl
        (Step-IsSound capacity shut (Reach-new_system enable_udp capacity s r)) in
    let waited = later r' (waits closed idle) in
    (record u { waited = true; stack_closed = true }, later waited (closes_stack refl), refl)

-- A closed engine stays closed, and no step of it starts a worker.
pub Step-closed :
    {enable_udp : Bool} {s t : System}
    → Step enable_udp s t
    → s.engine.closed ≡ true
    → (t.engine.closed ≡ true) × (length t.live ≤ length s.live)
Step-closed {s = s} (tcp_arrives valid e w h) shut =
    let a = handle_tcp-IsAdmission valid s.engine e w h in
    (a.closed ∙ shut, omega (arith, started-length w s.live, no_admission s.engine e w shut a))
Step-closed {enable_udp = enable_udp} {s = s} (udp_arrives r e w h) shut =
    let a = handle_udp-IsAdmission enable_udp r s.engine e w h in
    (a.closed ∙ shut, omega (arith, started-length w s.live, no_admission s.engine e w shut a))
Step-closed (goes_on before after a b at_a o) shut = (
  shut,
  rw at_a (omega (arith, length-append before (a ∷ after), length-append before (b ∷ after))),
)
Step-closed {s = s} (returns before after a e at_a o h) shut = (
  release-closed s.engine e h ∙ shut,
  rw at_a (omega (arith, length-append before (a ∷ after), length-append before after)),
)
Step-closed closes shut = (refl, omega arith)
Step-closed (waits closed idle) shut = (shut, omega arith)
Step-closed (closes_stack waited) shut = (shut, omega arith)
