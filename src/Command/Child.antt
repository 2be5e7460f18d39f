-- ===== src/Command/Child.antt =====
-- runChild of sdk/cmd/tun2connect/run.go: the signals and processes of a supervisor. What the
-- kernel does is a list of events; processes that have died wait to be reaped in a list.
pub mod Supervised
use agents_net.Base.{
  ℕ, ◌+◌, Bool, true, false, Option, none, some, List, [], ◌∷◌, ◌++◌, ◌==◌, if◌then◌else◌,
}

pub data Signal : Type 0 where
  sigchld : Signal
  -- SIGINT, SIGTERM or SIGQUIT.
  fatal : ℕ → Signal

pub data WaitStatus : Type 0 where
  exited : ℕ → WaitStatus
  signaled : ℕ → WaitStatus

pub record Dead : Type 0 where
  pub pid : ℕ
  pub status : WaitStatus

pub data Happening : Type 0 where
  dies : Dead → Happening
  arrives : Signal → Happening

abbrev pub exit_code : WaitStatus → ℕ
exit_code (exited n) = n
exit_code (signaled n) = 128 + n

-- The inner loop of Wait4, with what it returns if it finds the child; all others are reaped.
unfoldable pub reap : ℕ → List Dead → Option ℕ
reap child [] = none
reap child (d ∷ ds) =
    let rest = reap child ds in if d.pid == child then some (exit_code d.status) else rest

-- What became of the supervisor: it runs, with those that wait to be reaped and the signals that
-- it sent to the child's group, or it returned.
pub data Supervision : Type 0 where
  running : List Dead → List ℕ → Supervision
  returned : ℕ → List ℕ → Supervision

abbrev pub after_reap : (List Dead → Supervision) → List ℕ → Option ℕ → Supervision
after_reap next sent (some code) = returned code sent
after_reap next sent none = next []

unfoldable pub run_child : ℕ → List Happening → List Dead → List ℕ → Supervision
unfolding reap
run_child child [] dead sent = running dead sent
run_child child (dies d ∷ hs) dead sent = run_child child hs (dead ++ d ∷ []) sent
run_child child (arrives (fatal n) ∷ hs) dead sent = run_child child hs dead (sent ++ n ∷ [])
run_child child (arrives sigchld ∷ hs) dead sent =
    after_reap (λ l. run_child child hs l sent) sent (reap child dead)
