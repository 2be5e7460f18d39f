-- ===== src/Examples/Engine.antt =====
-- A run of the engine with one session, and destinations of the forwarder.
use agents_net.Base.{ℕ, ◌≡◌, refl, arith, true, false, some, none, [], ◌∷◌}
use agents_net.Base.Bytes.{Bytes, codes}
use agents_net.Base.Result.{Result, ok}
use agents_net.Netip.{Addr, v4}
use agents_net.Engine.{
  Engine, System, Step, Reach, here, later, tcp_arrives, returns, tcp_dialing, tcp_refused,
  new_system, handle_tcp, handle_udp, acquire, release, UdpRequest,
}
use agents_net.Engine.Safety.{IsSound}
use agents_net.Engine.Closing.{Reach-new_system, Reach-release, Reach-closes}
use agents_net.Dns.{new_virtual_dns, resolve, canonical}
use agents_net.Dns.Invariant.{no_owners, new_virtual_dns-IsValid, IsValid}
use agents_net.Forwarder.{target_host, dial, from_dialer}
use agents_net.Forwarder.Names.{Names, dial-resolve, target_host-Names}
use agents_net.Examples.Decisions.{plain}
use agents_net.Examples.Resolver.{first_address, resolver}

engine_run : Unit {0}
unfolding acquire release handle_tcp handle_udp
engine_run = tt

abbrev busy_engine : Engine
busy_engine = record { closed = false; capacity = 1; sessions = 1; workers = 1 }

abbrev busy : System
busy = record {
  engine = busy_engine;
  live = tcp_dialing ∷ [];
  waited = false;
  stack_closed = false;
}

-- The one session is taken.
one_flow : Reach true (new_system 1) busy
unfolding engine_run
one_flow = later here (tcp_arrives true busy_engine (some tcp_dialing) refl)

full : handle_tcp true busy_engine ≡ (busy_engine, none)
unfolding engine_run
full = refl

Reach-new_system_example : IsSound 1 busy
Reach-new_system_example = Reach-new_system true 1 busy one_flow

abbrev query : UdpRequest
query = record { port = 53; valid = true; endpoint = true }

Reach-release_example :
    ((e : Engine) × (release busy_engine ≡ some e))
    × ((x : _) × (handle_udp true query busy_engine ≡ some x))
Reach-release_example = Reach-release true 1 busy [] [] tcp_dialing query one_flow refl

Reach-closes_example : (t : System) × Reach true busy t × (t.stack_closed ≡ true)
Reach-closes_example = Reach-closes true 1 busy one_flow

abbrev closing : System
closing = record busy { engine = record busy_engine { closed = true } }

abbrev closed_engine : Engine
closed_engine = record { closed = true; capacity = 1; sessions = 0; workers = 0 }

abbrev drained : System
drained = record { engine = closed_engine; live = []; waited = false; stack_closed = false }

last_return : Step true closing drained
unfolding engine_run
last_return = returns [] [] tcp_dialing closed_engine refl tcp_refused refl

abbrev number : Addr → Bytes
number a = codes "address"

abbrev call : Bytes → ℕ → Result (Unit {0}) (Bytes × ℕ)
call name port = ok (name, port)

dial-resolve_example :
    (dial call number first_address 443 (resolve plain false (codes "A.") new_virtual_dns).0).1
    ≡ from_dialer (call (canonical plain (codes "A.")) 443)
unfolding resolver
dial-resolve_example =
    dial-resolve call number plain no_owners false (codes "A.") new_virtual_dns first_address 443
      new_virtual_dns-IsValid refl (ground arith)

target_host-Names_example :
    Names number no_owners (v4 1) 80 (target_host number (v4 1) 80 new_virtual_dns).1
    × IsValid no_owners (target_host number (v4 1) 80 new_virtual_dns).0
target_host-Names_example =
    target_host-Names number no_owners new_virtual_dns (v4 1) 80 new_virtual_dns-IsValid
