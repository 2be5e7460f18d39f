-- ===== src/Boundary/Idle/Watched.antt =====
-- When idleWatch of sdk/cmd/connect-proxy/main.go stops a tunnel.
use agents_net.Base.{
  ℕ, zero, suc, ◌+◌, ◌-◌, ◌≡◌, ◌≢◌, ◌≤◌, ◌<◌, refl, ap, ◌∙◌, inl, inr, false, none, some, List, [],
  ◌∷◌, ◌++◌, leb, ◌==◌, arith, All, Bool-cases, leb→le,
}
use agents_net.Boundary.Idle.{Moment, touches, ticks, cancels, tick_period, watch, idle_watch}

-- The time of the last touch.
abbrev pub last_touch : ℕ → List Moment → ℕ
last_touch last [] = last
last_touch last (touches t ∷ ms) = last_touch t ms
last_touch last (ticks t ∷ ms) = last_touch last ms
last_touch last (cancels ∷ ms) = last_touch last ms

abbrev pub IsKept : Moment → Type 0
IsKept (touches t) = Unit
IsKept (ticks t) = Unit
IsKept cancels = ⊥

-- A tick at which the tunnel was idle for long enough, with a timeout, and nothing cancelled
-- before it.
pub record IsIdle (idle start : ℕ) (ms : List Moment) (t : ℕ) : Type 0 where
  pub before : List Moment
  pub after : List Moment
  pub split : ms ≡ before ++ ticks t ∷ after
  pub kept : All IsKept before
  pub positive : idle ≢ 0
  pub quiet : last_touch start before + idle ≤ t

behind_one :
    (idle start start' : ℕ) (m : Moment) (ms : List Moment) (t : ℕ)
    → IsKept m
    → ((l : List Moment) → last_touch start (m ∷ l) ≡ last_touch start' l)
    → IsIdle idle start' ms t
    → IsIdle idle start (m ∷ ms) t
behind_one idle start start' m ms t kept same i = record {
  before = m ∷ i.before;
  after = i.after;
  split = ap (◌∷◌ m) i.split;
  kept = (kept, i.kept);
  positive = i.positive;
  quiet = rw (same i.before) i.quiet;
}

watch-IsIdle :
    (idle start : ℕ) (ms : List Moment) (t : ℕ)
    → idle ≢ 0
    → watch idle start ms ≡ some t
    → IsIdle idle start ms t
unfolding watch
watch-IsIdle idle start [] t positive h = absurd (cc)
watch-IsIdle idle start (touches s ∷ ms) t positive h =
    behind_one idle start s (touches s) ms t tt (λ l. refl) (watch-IsIdle idle s ms t positive h)
watch-IsIdle idle start (cancels ∷ ms) t positive h = absurd (cc)
watch-IsIdle idle start (ticks s ∷ ms) t positive h = elim (Bool-cases (leb idle (s - start))) [
  | inl long ↦ here (rw long at h) (leb→le idle (s - start) long)
  | inr short ↦
      behind_one idle start start (ticks s) ms t tt (λ l. refl)
        (watch-IsIdle idle start ms t positive (rw short at h))
]
  where
    here : some s ≡ some t → idle ≤ s - start → IsIdle idle start (ticks s ∷ ms) t
    here q long =
        let same : s ≡ t = cc in
        record {
          before = [];
          after = ms;
          split = ap (λ x. ticks x ∷ ms) same;
          kept = tt;
          positive = positive;
          quiet = omega (arith, same, long, positive);
        }

-- idleWatch stops a tunnel only at a tick that comes the idle timeout or more after the last
-- touch, and never once it is cancelled or with a timeout of zero.
pub idle_watch-IsIdle :
    (idle start : ℕ) (ms : List Moment) (t : ℕ)
    → idle_watch idle start ms ≡ some t
    → IsIdle idle start ms t
unfolding idle_watch
idle_watch-IsIdle idle start ms t h = elim (Bool-cases (idle == 0)) [
  | inl off ↦ let q = rw off at h in absurd (none_some q)
  | inr on ↦ watch-IsIdle idle start ms t (λ e. ground (arith, on, e)) (rw on at h)
]
  where
    none_some : {t : ℕ} → none ≡ some t → ⊥
    none_some q = cc

-- Ticks at a distance, and the time of the one that would follow.
abbrev pub ticks_from : ℕ → ℕ → ℕ → List Moment
ticks_from s period zero = []
ticks_from s period (suc n) = ticks s ∷ ticks_from (s + period) period n

abbrev pub next_tick : ℕ → ℕ → ℕ → ℕ
next_tick s period zero = s
next_tick s period (suc n) = next_tick (s + period) period n

stops_by :
    (idle start s period n : ℕ)
    → idle ≢ 0
    → s < start + idle + period
    → start + idle + period ≤ next_tick s period n
    → (t : ℕ) × (watch idle start (ticks_from s period n) ≡ some t)
      × (start + idle ≤ t)
      × (t < start + idle + period)
unfolding watch
stops_by idle start s period zero positive early late = absurd (omega arith)
stops_by idle start s period (suc n) positive early late =
    elim (Bool-cases (leb idle (s - start))) [
      | inl long ↦ (s, rw long refl, omega (arith, leb→le idle (s - start) long), early)
      | inr short ↦
          let (t, h, low, high) =
            stops_by idle start (s + period) period n positive (ground (arith, short)) late in
          (t, rw short h, low, high)
    ]

-- A watch that has not stopped goes on from the last touch.
watch-append :
    (idle start : ℕ) (before l : List Moment)
    → All IsKept before
    → watch idle start before ≡ none
    → watch idle start (before ++ l) ≡ watch idle (last_touch start before) l
unfolding watch
watch-append idle start [] l kept h = refl
watch-append idle start (touches t ∷ before) l (k, kept) h = watch-append idle t before l kept h
watch-append idle start (cancels ∷ before) l (k, kept) h = elim k [ ]
watch-append idle start (ticks t ∷ before) l (k, kept) h =
    elim (Bool-cases (leb idle (t - start))) [
      | inl long ↦ let q = rw long at h in absurd (some_none q)
      | inr short ↦ rw short (watch-append idle start before l kept (rw short at h))
    ]
  where
    some_none : {t : ℕ} → some t ≡ none → ⊥
    some_none q = cc

-- A tunnel that is neither touched nor cancelled any more is stopped: when the ticker goes on at
-- its period, at a tick from the idle timeout on and less than a period later.
pub idle_watch-next_tick :
    (idle start s n : ℕ) (before : List Moment)
    → idle ≢ 0
    → All IsKept before
    → idle_watch idle start before ≡ none
    → s < last_touch start before + idle + tick_period idle
    → last_touch start before + idle + tick_period idle ≤ next_tick s (tick_period idle) n
    → (t : ℕ) × (idle_watch idle start (before ++ ticks_from s (tick_period idle) n) ≡ some t)
      × (last_touch start before + idle ≤ t)
      × (t < last_touch start before + idle + tick_period idle)
unfolding idle_watch
idle_watch-next_tick idle start s n before positive kept quiet early late =
    let on : (idle == 0) ≡ false = ground (arith, positive) in
    let (t, h, low, high) =
      stops_by idle (last_touch start before) s (tick_period idle) n positive early late in
    (t, rw on (watch-append idle start before _ kept (rw on at quiet) ∙ h), low, high)
