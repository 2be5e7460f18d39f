-- ===== src/Boundary/Idle.antt =====
-- idleWatch of sdk/cmd/connect-proxy/main.go, on what happens to it in order: times are numbers
-- of nanoseconds. Where the channel `done` and the ticker are both ready, the order of the list
-- says which of them the select takes.
pub mod Watched
use agents_net.Base.{
  ℕ, zero, suc, ◌+◌, ◌-◌, ◌/◌, Bool, true, false, Option, none, some, List, [], ◌∷◌, ◌++◌, leb, ltb,
  ◌==◌, if◌then◌else◌,
}

pub data Moment : Type 0 where
  -- A read that brought bytes.
  touches : ℕ → Moment
  ticks : ℕ → Moment
  cancels : Moment

abbrev pub millisecond : ℕ
millisecond = 1000000

-- The period of the ticker.
abbrev pub tick_period : ℕ → ℕ
tick_period idle = if ltb (idle / 4) millisecond then millisecond else idle / 4

-- The goroutine, from the time of the last touch: when it runs `stop`, if it does. A tick that
-- the clock puts before the last touch counts as no time since it.
unfoldable pub watch : ℕ → ℕ → List Moment → Option ℕ
watch idle last [] = none
watch idle last (touches t ∷ ms) = watch idle t ms
watch idle last (ticks t ∷ ms) =
    let rest = watch idle last ms in if leb idle (t - last) then some t else rest
watch idle last (cancels ∷ ms) = none

-- A timeout of zero starts no watch.
unfoldable pub idle_watch : ℕ → ℕ → List Moment → Option ℕ
unfolding watch
idle_watch idle start ms = if idle == 0 then none else watch idle start ms
