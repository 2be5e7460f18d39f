-- ===== src/Examples/Watches.antt =====
-- A tunnel with an idle timeout of eight milliseconds.
use agents_net.Base.{◌≡◌, ◌≤◌, ◌<◌, refl, arith, some, [], ◌∷◌, ◌++◌, ℕ}
use agents_net.Boundary.Idle.{touches, ticks, watch, idle_watch}
use agents_net.Boundary.Idle.Watched.{IsIdle, idle_watch-IsIdle, ticks_from, idle_watch-next_tick}

idle_watch-IsIdle_example :
    IsIdle 8000000 0 (touches 3000000 ∷ ticks 10000000 ∷ ticks 12000000 ∷ []) 12000000
unfolding idle_watch watch
idle_watch-IsIdle_example =
    idle_watch-IsIdle 8000000 0 (touches 3000000 ∷ ticks 10000000 ∷ ticks 12000000 ∷ []) 12000000
      refl

-- A touch after three milliseconds, and a tick every two.
idle_watch-next_tick_example :
    (t : ℕ) × (idle_watch 8000000 0 ((touches 3000000 ∷ []) ++ ticks_from 4000000 2000000 5)
      ≡ some t)
    × (11000000 ≤ t)
    × (t < 13000000)
unfolding idle_watch watch
idle_watch-next_tick_example =
    idle_watch-next_tick 8000000 0 4000000 5 (touches 3000000 ∷ []) (omega arith) (tt, tt) refl
      (omega arith) (omega arith)
