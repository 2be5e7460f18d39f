-- ===== src/Command/Child/Supervised.antt =====
-- When runChild of sdk/cmd/tun2connect/run.go returns, and with what.
use mathlib.Core.List.{append_assoc, append-nil}
use agents_net.Base.{
  ℕ, ◌≡◌, refl, ap, ◌∙◌, false, none, some, List, [], ◌∷◌, ◌++◌, ◌==◌, arith, All,
}
use agents_net.Command.Child.{
  sigchld, fatal, WaitStatus, Dead, Happening, dies, arrives, exit_code, reap, returned, run_child,
}

-- Nothing of the child yet.
abbrev pub IsOther : ℕ → Happening → Type 0
IsOther child (dies d) = (d.pid == child) ≡ false
IsOther child (arrives s) = Unit

-- Neither the child's death nor a SIGCHLD.
abbrev pub IsQuiet : ℕ → Happening → Type 0
IsQuiet child (dies d) = (d.pid == child) ≡ false
IsQuiet child (arrives sigchld) = ⊥
IsQuiet child (arrives (fatal n)) = Unit

-- The fatal signals, in order.
abbrev pub fatal_signals : List Happening → List ℕ
fatal_signals [] = []
fatal_signals (dies d ∷ hs) = fatal_signals hs
fatal_signals (arrives sigchld ∷ hs) = fatal_signals hs
fatal_signals (arrives (fatal n) ∷ hs) = n ∷ fatal_signals hs

abbrev Others : ℕ → List Dead → Type 0
Others child = All (λ d. (d.pid == child) ≡ false)

reap-Others : (child : ℕ) (ds : List Dead) → Others child ds → reap child ds ≡ none
unfolding reap
reap-Others child [] h = refl
reap-Others child (d ∷ ds) (o, h) = rw (o, reap) (reap-Others child ds h)

reap-child :
    (child : ℕ) (before after : List Dead) (ws : WaitStatus)
    → Others child before
    → reap child (before ++ record { pid = child; status = ws } ∷ after) ≡ some (exit_code ws)
unfolding reap
reap-child child [] after ws h = ground arith
reap-child child (d ∷ before) after ws (o, h) = rw (o, reap) (reap-child child before after ws h)

Others-snoc :
    (child : ℕ) (ds : List Dead) (d : Dead)
    → Others child ds
    → (d.pid == child) ≡ false
    → Others child (ds ++ d ∷ [])
Others-snoc child [] d h o = (o, tt)
Others-snoc child (x ∷ ds) d (p, h) o = (p, Others-snoc child ds d h o)

-- The child is among the dead until the next SIGCHLD.
quiet_end :
    (child : ℕ) (between after : List Happening) (before late : List Dead) (ws : WaitStatus)
    (sent : List ℕ)
    → All (IsQuiet child) between
    → Others child before
    → run_child child
        (between ++ arrives sigchld ∷ after)
        (before ++ record { pid = child; status = ws } ∷ late)
        sent
      ≡ returned (exit_code ws) (sent ++ fatal_signals between)
unfolding run_child
quiet_end child [] after before late ws sent q o =
    rw (reap-child child before late ws o, append-nil) refl
quiet_end child (dies d ∷ between) after before late ws sent (p, q) o =
    ap (λ l. run_child child (between ++ arrives sigchld ∷ after) l sent)
      (append_assoc before (record { pid = child; status = ws } ∷ late) (d ∷ []))
    ∙ quiet_end child between after before (late ++ d ∷ []) ws sent q o
quiet_end child (arrives sigchld ∷ between) after before late ws sent (p, q) o = elim p [ ]
quiet_end child (arrives (fatal n) ∷ between) after before late ws sent (p, q) o =
    quiet_end child between after before late ws (sent ++ n ∷ []) q o ∙ rw append_assoc refl

run_from :
    (child : ℕ) (early between after : List Happening) (dead : List Dead) (ws : WaitStatus)
    (sent : List ℕ)
    → All (IsOther child) early
    → All (IsQuiet child) between
    → Others child dead
    → run_child child
        (early ++ dies (record { pid = child; status = ws }) ∷ (between ++ arrives sigchld ∷ after))
        dead
        sent
      ≡ returned (exit_code ws) (sent ++ (fatal_signals early ++ fatal_signals between))
unfolding run_child
run_from child [] between after dead ws sent e q o =
    quiet_end child between after dead [] ws sent q o
run_from child (dies d ∷ early) between after dead ws sent (p, e) q o =
    run_from child early between after (dead ++ d ∷ []) ws sent e q (Others-snoc child dead d o p)
run_from child (arrives sigchld ∷ early) between after dead ws sent (p, e) q o =
    rw (reap-Others child dead o) (run_from child early between after [] ws sent e q tt)
run_from child (arrives (fatal n) ∷ early) between after dead ws sent (p, e) q o =
    run_from child early between after dead ws (sent ++ n ∷ []) e q o ∙ rw append_assoc refl

-- The supervisor runs until the first SIGCHLD behind the death of its child, whatever other
-- processes died and however many deaths one SIGCHLD stands for, and then returns the child's
-- exit status, or 128 and the signal that ended it. Every fatal signal until then, and no other,
-- was sent on, in order.
pub run_child-returned :
    (child : ℕ) (early between after : List Happening) (ws : WaitStatus)
    → All (IsOther child) early
    → All (IsQuiet child) between
    → run_child child
        (early ++ dies (record { pid = child; status = ws }) ∷ (between ++ arrives sigchld ∷ after))
        []
        []
      ≡ returned (exit_code ws) (fatal_signals early ++ fatal_signals between)
run_child-returned child early between after ws e q =
    run_from child early between after [] ws [] e q tt
