-- ===== src/Engine.antt =====
-- sdk/pkg/tun2connect/engine.go: the admission of flows and the life of their workers.
-- A goroutine is a worker of a list; the network stack and the boundary choose its outcomes.
pub mod Safety
pub mod Closing
use agents_net.Base.{
  ℕ, zero, suc, ◌+◌, ◌-◌, ◌≡◌, Bool, true, false, not, ◌&&◌, ◌||◌, Option, none, some, List, [],
  ◌∷◌, ◌++◌, leb, ltb, ◌==◌, if◌then◌else◌,
}
use agents_net.Base.Int.{ℤ}
use agents_net.Base.Result.{Result, ok, err}
use agents_net.Netip.{Addr, Prefix, is_valid, is4in6}

-- The numbers of Config and whether the interfaces are given; durations in nanoseconds.
pub record Config : Type 0 where
  pub device : Bool
  pub dialer : Bool
  pub dns : Bool
  pub addresses : List Prefix
  pub enable_udp : Bool
  pub udp_idle_timeout : ℤ
  pub dial_timeout : ℤ
  pub max_connections : ℤ

pub data ConfigError : Type 0 where
  missing invalid_address : ConfigError

-- A prefix is valid when its address is, and its length fits.
abbrev pub bad_address : Prefix → Bool
bad_address p = not (is_valid p.addr) || is4in6 p.addr

unfoldable pub check_addresses : List Prefix → Result ConfigError (Unit {0})
check_addresses [] = ok tt
check_addresses (p ∷ ps) =
    let rest = check_addresses ps in if bad_address p then err invalid_address else rest

-- A number that is not positive gives way to its default.
abbrev pub positive_or : ℕ → ℤ → ℤ
positive_or n (ℤ.pos zero) = ℤ.pos n
positive_or n (ℤ.pos (suc m)) = ℤ.pos (suc m)
positive_or n (ℤ.negsuc m) = ℤ.pos n

-- The checks and defaults at the start of New.
unfoldable pub new_config : Config → Result ConfigError Config
unfolding check_addresses
new_config cfg =
    if not cfg.device || not cfg.dialer || not cfg.dns
    then err missing
    else elim (check_addresses cfg.addresses) [
      | err e ↦ err e
      | ok u ↦ ok (record cfg {
        udp_idle_timeout = positive_or 30_000_000_000 cfg.udp_idle_timeout;
        dial_timeout = positive_or 15_000_000_000 cfg.dial_timeout;
        max_connections = positive_or 1024 cfg.max_connections;
      })
    ]

-- `sessions` is how many elements the channel holds, `capacity` how many it can.
pub record Engine : Type 0 where
  pub closed : Bool
  pub capacity : ℕ
  pub sessions : ℕ
  pub workers : ℕ

abbrev pub new_engine : ℕ → Engine
new_engine capacity = record { closed = false; capacity = capacity; sessions = 0; workers = 0 }

unfoldable pub acquire : Engine → Engine × Bool
acquire e =
    if e.closed
    then (e, false)
    else if ltb e.sessions e.capacity
    then (record e { sessions = e.sessions + 1; workers = e.workers + 1 }, true)
    else (e, false)

-- `none` is a receive that blocks or a counter that would be negative.
unfoldable pub release : Engine → Option Engine
release e =
    if e.sessions == 0 || e.workers == 0
    then none
    else some (record e { sessions = e.sessions - 1; workers = e.workers - 1 })

-- A goroutine that holds a session.
pub data Worker : Type 0 where
  tcp_dialing tcp_relaying serving_dns udp_dialing udp_relaying : Worker

-- What handleTCP needs of a request: whether its address converts.
-- The answer is the worker that was started; without one the request is reset.
unfoldable pub handle_tcp : Bool → Engine → Engine × Option Worker
unfolding acquire
handle_tcp valid e =
    if not valid
    then (e, none)
    else let (e', admitted) = acquire e in if admitted then (e', some tcp_dialing) else (e', none)

pub record UdpRequest : Type 0 where
  pub port : ℕ
  pub valid : Bool
  -- Whether CreateEndpoint succeeds.
  pub endpoint : Bool

-- The session of a request that starts no worker goes back.
unfoldable pub give_back : Engine → Option (Engine × Option Worker)
unfolding release
give_back e = elim (release e) [ none ↦ none | some e' ↦ some (e', none) ]

-- Without a worker the answer of handleUDP is false; `none` is a release that blocks.
unfoldable pub handle_udp : Bool → UdpRequest → Engine → Option (Engine × Option Worker)
handle_udp enable_udp r e =
    let (e', admitted) = acquire e in
    if not admitted
    then some (e', none)
    else if r.port == 53
    then if not r.endpoint then give_back e' else some (e', some serving_dns)
    else if not enable_udp
    then give_back e'
    else if not r.valid
    then give_back e'
    else if not r.endpoint
    then give_back e'
    else some (e', some udp_dialing)

-- What happens to a worker next: it goes on, or returns.
pub data Outcome : Worker → Option Worker → Type 0 where
  -- The dial fails, or then CreateEndpoint does; the request is reset.
  tcp_refused : Outcome tcp_dialing none
  -- The handshake is completed.
  tcp_accepted : Outcome tcp_dialing (some tcp_relaying)
  tcp_ended : Outcome tcp_relaying none
  dns_ended : Outcome serving_dns none
  udp_refused : Outcome udp_dialing none
  udp_accepted : Outcome udp_dialing (some udp_relaying)
  udp_ended : Outcome udp_relaying none

pub record System : Type 0 where
  pub engine : Engine
  pub live : List Worker
  -- Whether Close has passed workers.Wait, and whether it has closed the stack.
  pub waited : Bool
  pub stack_closed : Bool

abbrev pub started : Option Worker → List Worker → List Worker
started none live = live
started (some w) live = w ∷ live

-- The steps of the engine and of its environment. A request may arrive at any time, during Close
-- and after it too.
pub data Step (enable_udp : Bool) (s : System) : System → Type 0 where
  tcp_arrives :
      (valid : Bool) (e : Engine) (w : Option Worker)
      → handle_tcp valid s.engine ≡ (e, w)
      → Step enable_udp s (record s { engine = e; live = started w s.live })
  udp_arrives :
      (r : UdpRequest) (e : Engine) (w : Option Worker)
      → handle_udp enable_udp r s.engine ≡ some (e, w)
      → Step enable_udp s (record s { engine = e; live = started w s.live })
  goes_on :
      (before after : List Worker) (v w : Worker)
      → s.live ≡ before ++ v ∷ after
      → Outcome v (some w)
      → Step enable_udp s (record s { live = before ++ w ∷ after })
  returns :
      (before after : List Worker) (v : Worker) (e : Engine)
      → s.live ≡ before ++ v ∷ after
      → Outcome v none
      → release s.engine ≡ some e
      → Step enable_udp s (record s { engine = e; live = before ++ after })
  -- The first part of Close.
  closes : Step enable_udp s (record s { engine = record s.engine { closed = true } })
  -- Its second part, workers.Wait, returns.
  waits :
      s.engine.closed ≡ true → s.engine.workers ≡ 0 → Step enable_udp s (record s { waited = true })
  -- Its last part.
  closes_stack : s.waited ≡ true → Step enable_udp s (record s { stack_closed = true })

pub data Reach (enable_udp : Bool) (s : System) : System → Type 0 where
  here : Reach enable_udp s s
  later : {t u : System} → Reach enable_udp s t → Step enable_udp t u → Reach enable_udp s u

abbrev pub new_system : ℕ → System
new_system capacity = record {
  engine = new_engine capacity;
  live = [];
  waited = false;
  stack_closed = false;
}
