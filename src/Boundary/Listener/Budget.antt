-- ===== src/Boundary/Listener/Budget.antt =====
-- serveListener of sdk/cmd/connect-proxy/main.go: no more handlers than the budget.
use agents_net.Base.{
  ℕ, ◌+◌, ◌≤◌, ◌≡◌, inl, inr, refl, ap, ◌∙◌, arith, Bool, true, false, Bool-cases, Option, some,
  List, [], ◌∷◌, ◌++◌, length, length-append, ltb,
}
use agents_net.Policy.{Policy}
use agents_net.Boundary.{World, Event}
use agents_net.Boundary.Listener.{
  Slots, accept, leave, Listening, Step, accepted, turned_away, ended, Reach, here, later,
  new_listener,
}

pub record IsWithin (capacity : ℕ) (l : Listening) : Type 0 where
  pub fixed : l.slots.capacity ≡ capacity
  pub counted : l.slots.used ≡ length l.handlers
  pub bounded : length l.handlers ≤ capacity

accept-started :
    (w : World) (current : Option Policy) (use_h2 is_tls : Bool) (s s' : Slots)
    → accept w current use_h2 is_tls s ≡ (s', [], true)
    → (s'.capacity ≡ s.capacity) × (s'.used ≡ s.used + 1) × (s.used + 1 ≤ s.capacity)
unfolding accept
accept-started w current use_h2 is_tls s s' h = ground (arith, h)

accept-away :
    (w : World) (current : Option Policy) (use_h2 is_tls : Bool) (s s' : Slots)
    (events : List Event)
    → accept w current use_h2 is_tls s ≡ (s', events, false)
    → (s'.capacity ≡ s.capacity) × (s'.used ≡ s.used)
unfolding accept
accept-away w current use_h2 is_tls s s' events h = ground (arith, h)

leave-eq : (s s' : Slots) → leave s ≡ some s' → (s'.capacity ≡ s.capacity) × (s.used ≡ s'.used + 1)
unfolding leave
leave-eq s s' h = ground arith

Step-IsWithin :
    {w : World} {current : Option Policy} {use_h2 : Bool} {l m : Listening} (capacity : ℕ)
    → Step w current use_h2 l m
    → IsWithin capacity l
    → IsWithin capacity m
Step-IsWithin {w = w} {current = current} {use_h2 = use_h2} {l = l} capacity
      (accepted id is_tls s h) i =
    let (same, one, room) = accept-started w current use_h2 is_tls l.slots s h in
    record {
      fixed = same ∙ i.fixed;
      counted = omega (arith, one, i.counted);
      bounded = omega (arith, room, i.counted, i.fixed);
    }
Step-IsWithin {w = w} {current = current} {use_h2 = use_h2} {l = l} capacity
      (turned_away is_tls s events h) i =
    let (same, kept) = accept-away w current use_h2 is_tls l.slots s events h in
    record { fixed = same ∙ i.fixed; counted = kept ∙ i.counted; bounded = i.bounded }
Step-IsWithin {l = l} capacity (ended before after id s at_id h) i =
    let fewer : length l.handlers ≡ length (before ++ after) + 1 =
      rw at_id (omega (arith, length-append before (id ∷ after), length-append before after)) in
    let (same, one) = leave-eq l.slots s h in
    record {
      fixed = same ∙ i.fixed;
      counted = omega (arith, one, fewer, i.counted);
      bounded = omega (arith, fewer, i.bounded);
    }

Reach-IsWithin :
    {w : World} {current : Option Policy} {use_h2 : Bool} {l m : Listening} (capacity : ℕ)
    → IsWithin capacity l
    → Reach w current use_h2 l m
    → IsWithin capacity m
Reach-IsWithin capacity i here = i
Reach-IsWithin capacity i (later r s) = Step-IsWithin capacity s (Reach-IsWithin capacity i r)

accept_decides :
    (w : World) (current : Option Policy) (use_h2 is_tls : Bool) (s : Slots)
    → (accept w current use_h2 is_tls s).2 ≡ ltb s.used s.capacity
unfolding accept
accept_decides w current use_h2 is_tls s = elim (Bool-cases (ltb s.used s.capacity)) [
  | inl e ↦ rw (e, accept) refl
  | inr e ↦ rw (e, accept) refl
]

-- In every state that a listener reaches no more handlers run than its budget of connections,
-- each holds one slot, and the next connection gets a handler exactly when fewer run.
pub Reach-new_listener :
    (w : World) (current : Option Policy) (use_h2 is_tls : Bool) (capacity : ℕ) (l : Listening)
    → Reach w current use_h2 (new_listener capacity) l
    → IsWithin capacity l
      × ((accept w current use_h2 is_tls l.slots).2 ≡ ltb (length l.handlers) capacity)
Reach-new_listener w current use_h2 is_tls capacity l r =
    let within =
      Reach-IsWithin capacity (record { fixed = refl; counted = refl; bounded = omega arith }) r in
    let same : ltb l.slots.used l.slots.capacity ≡ ltb (length l.handlers) capacity =
      ap (λ n. ltb n l.slots.capacity) within.counted
      ∙ ap (λ n. ltb (length l.handlers) n) within.fixed in
    (within, accept_decides w current use_h2 is_tls l.slots ∙ same)
