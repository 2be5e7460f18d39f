-- ===== src/Engine/Safety.antt =====
-- The sessions of sdk/pkg/tun2connect/engine.go in every reachable state.
use agents_net.Base.{
  ℕ, ◌+◌, ◌≤◌, ◌<◌, ◌≡◌, refl, sym, ◌∙◌, ◌⊎◌, Bool, true, false, Option, none, some, List, ◌∷◌,
  ◌++◌, arith, length, length-append,
}
use agents_net.Engine.{
  Engine, Worker, UdpRequest, acquire, release, give_back, handle_tcp, handle_udp, System, started,
  Step, tcp_arrives, udp_arrives, goes_on, returns, closes, waits, closes_stack, Reach, here, later,
  new_system,
}

abbrev pub size : Option Worker → ℕ
size none = 0
size (some w) = 1

-- What a request does to the engine: it counts the worker that it starts, for which there was room.
pub record IsAdmission (e e' : Engine) (w : Option Worker) : Type 0 where
  pub closed : e'.closed ≡ e.closed
  pub capacity : e'.capacity ≡ e.capacity
  pub sessions : e'.sessions ≡ e.sessions + size w
  pub workers : e'.workers ≡ e.workers + size w
  pub room : (size w ≡ 0) ⊎ ((e.closed ≡ false) × (e.sessions < e.capacity))

pub handle_tcp-IsAdmission :
    (valid : Bool) (e e' : Engine) (w : Option Worker)
    → handle_tcp valid e ≡ (e', w)
    → IsAdmission e e' w
unfolding handle_tcp acquire
handle_tcp-IsAdmission valid e e' w h = ground arith

give_back-IsAdmission :
    (e e' : Engine) (w : Option Worker)
    → e.closed ≡ false
    → give_back (record e { sessions = e.sessions + 1; workers = e.workers + 1 }) ≡ some (e', w)
    → IsAdmission e e' w
unfolding give_back release
give_back-IsAdmission e e' w open_engine h = ground arith

some-eq : {x y : Engine × Option Worker} → some x ≡ some y → x ≡ y
some-eq e = cc

-- An engine with a session more, and a worker that holds it.
admitted-IsAdmission :
    (e e' : Engine) (v : Worker) (w : Option Worker)
    → e.closed ≡ false
    → e.sessions < e.capacity
    → ◌≡◌ {A = Option (Engine × Option Worker)}
        (some (record e { sessions = e.sessions + 1; workers = e.workers + 1 }, some v))
        (some (e', w))
    → IsAdmission e e' w
admitted-IsAdmission e e' v w o r h = ground arith

pub handle_udp-IsAdmission :
    (enable_udp : Bool) (r : UdpRequest) (e e' : Engine) (w : Option Worker)
    → handle_udp enable_udp r e ≡ some (e', w)
    → IsAdmission e e' w
unfolding handle_udp acquire
handle_udp-IsAdmission enable_udp r e e' w h = ground (
  arith,
  give_back-IsAdmission e e' w,
  admitted-IsAdmission e e' Worker.serving_dns w,
  admitted-IsAdmission e e' Worker.udp_dialing w,
)

-- The sessions and the workers are the live workers, within the capacity; none is live once Close
-- has waited for them, nor when it has closed the stack.
pub record IsSound (capacity : ℕ) (s : System) : Type 0 where
  pub capacity_kept : s.engine.capacity ≡ capacity
  pub sessions : s.engine.sessions ≡ length s.live
  pub workers : s.engine.workers ≡ length s.live
  pub bounded : length s.live ≤ capacity
  pub stopped : s.waited ≡ true → (s.engine.closed ≡ true) × (length s.live ≡ 0)
  pub in_order : s.stack_closed ≡ true → s.waited ≡ true

pub started-length :
    (w : Option Worker) (l : List Worker) → length (started w l) ≡ size w + length l
started-length none l = omega arith
started-length (some w) l = omega arith

pub no_admission :
    (e e' : Engine) (w : Option Worker) → e.closed ≡ true → IsAdmission e e' w → size w ≡ 0
no_admission e e' w shut a = ground (arith, a.room)

admission-IsSound :
    (capacity : ℕ) (s : System) (e : Engine) (w : Option Worker)
    → IsAdmission s.engine e w
    → IsSound capacity s
    → IsSound capacity (record s { engine = e; live = started w s.live })
admission-IsSound capacity s e w a v = record {
  capacity_kept = a.capacity ∙ v.capacity_kept;
  sessions = omega (arith, a.sessions, v.sessions, started-length w s.live);
  workers = omega (arith, a.workers, v.workers, started-length w s.live);
  bounded = ground (arith, a.room, v.bounded, v.sessions, v.capacity_kept, started-length w s.live);
  stopped = λ halted.
      let (shut, none_live) = v.stopped halted in
      (
        a.closed ∙ shut,
        omega (arith, none_live, started-length w s.live, no_admission s.engine e w shut a),
      );
  in_order = v.in_order;
}

release-eq :
    (e e' : Engine)
    → release e ≡ some e'
    → (e'.closed ≡ e.closed)
      × (e'.capacity ≡ e.capacity)
      × (e.sessions ≡ e'.sessions + 1)
      × (e.workers ≡ e'.workers + 1)
unfolding release
release-eq e e' h = ground arith

pub Step-IsSound :
    {enable_udp : Bool} {s t : System} (capacity : ℕ)
    → Step enable_udp s t
    → IsSound capacity s
    → IsSound capacity t
Step-IsSound {s = s} capacity (tcp_arrives valid e w h) v =
    admission-IsSound capacity s e w (handle_tcp-IsAdmission valid s.engine e w h) v
Step-IsSound {enable_udp = enable_udp} {s = s} capacity (udp_arrives r e w h) v =
    admission-IsSound capacity s e w (handle_udp-IsAdmission enable_udp r s.engine e w h) v
Step-IsSound {s = s} capacity (goes_on before after a b at_a o) v =
    let same : length (before ++ b ∷ after) ≡ length s.live =
      rw at_a (omega (arith, length-append before (a ∷ after), length-append before (b ∷ after))) in
    record {
      capacity_kept = v.capacity_kept;
      sessions = v.sessions ∙ sym same;
      workers = v.workers ∙ sym same;
      bounded = rw same v.bounded;
      stopped = λ halted. ((v.stopped halted).0, same ∙ (v.stopped halted).1);
      in_order = v.in_order;
    }
Step-IsSound {s = s} capacity (returns before after a e at_a o h) v =
    let fewer : length s.live ≡ length (before ++ after) + 1 =
      rw at_a (omega (arith, length-append before (a ∷ after), length-append before after)) in
    let (closed, cap, one, two) = release-eq s.engine e h in
    record {
      capacity_kept = cap ∙ v.capacity_kept;
      sessions = omega (arith, fewer, one, v.sessions);
      workers = omega (arith, fewer, two, v.workers);
      bounded = omega (arith, fewer, v.bounded);
      stopped = λ halted. absurd (let z = (v.stopped halted).1 in omega (arith, fewer, z));
      in_order = v.in_order;
    }
Step-IsSound capacity closes v = record {
  capacity_kept = v.capacity_kept;
  sessions = v.sessions;
  workers = v.workers;
  bounded = v.bounded;
  stopped = λ halted. (refl, (v.stopped halted).1);
  in_order = v.in_order;
}
Step-IsSound capacity (closes_stack waited) v = record {
  capacity_kept = v.capacity_kept;
  sessions = v.sessions;
  workers = v.workers;
  bounded = v.bounded;
  stopped = v.stopped;
  in_order = λ halted. waited;
}
Step-IsSound capacity (waits closed idle) v = record {
  capacity_kept = v.capacity_kept;
  sessions = v.sessions;
  workers = v.workers;
  bounded = v.bounded;
  stopped = λ halted. (closed, omega (arith, idle, v.workers));
  in_order = λ halted. refl;
}

pub Reach-IsSound :
    {enable_udp : Bool} {s t : System} (capacity : ℕ)
    → IsSound capacity s
    → Reach enable_udp s t
    → IsSound capacity t
Reach-IsSound capacity v here = v
Reach-IsSound capacity v (later r st) = Step-IsSound capacity st (Reach-IsSound capacity v r)

pub new_system-IsSound : (capacity : ℕ) → IsSound capacity (new_system capacity)
new_system-IsSound capacity = record {
  capacity_kept = refl;
  sessions = refl;
  workers = refl;
  bounded = omega arith;
  stopped = λ halted. absurd (cc);
  in_order = λ halted. absurd (cc);
}
