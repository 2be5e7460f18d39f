-- ===== src/Namespace/Routes/Tracked.antt =====
-- What installRoutes of sdk/pkg/netnsproxy/routes_linux.go has added so far.
use agents_net.Base.{
  ℕ, ◌≡◌, refl, ap, ◌∙◌, ◌⊎◌, inl, inr, Bool, true, false, ◌||◌, Option, none, some, List, [], ◌∷◌,
  ◌++◌, map, arith, any, any-append, Bool-cases, Option-cases,
}
use agents_net.Namespace.Routes.{
  InetFamily, Route, RoutingRule, Entry, a_route, a_rule, entry_eq, Netlink, RouteError,
  local_route, marked_rule, conflicts, Progress, add_rule, add_route, install_family,
  install_families, unless_failed, roll_back,
}
use agents_net.Namespace.Routes.Deleted.{
  entry_eq→eq, has-delete_all, has_before, IsRefused, delete_all-IsRefused,
}

any-map {ℓ κ} :
    {A : Type ℓ} {B : Type κ} (p : B → Bool) (f : A → B) (xs : List A)
    → any p (map f xs) ≡ any (λ x. p (f x)) xs
any-map p f [] = refl
any-map p f (x ∷ xs) = ap (◌||◌ (p (f x))) (any-map p f xs)

module _ (n : Netlink) where
  -- An entry that the call added.
  abbrev pub added : Entry → Progress n → Bool
  added y p = any (λ r. entry_eq y (a_rule r)) p.rules || any (λ r. entry_eq y (a_route r)) p.routes

  -- The entries are those at the start and the ones that were added, which are new.
  pub record IsTracked (start : n.State) (p : Progress n) : Type 0 where
    pub has_now : (y : Entry) → n.has y p.state ≡ (added y p || n.has y start)
    pub new : (y : Entry) → added y p ≡ true → n.has y start ≡ false

  any-added :
      (p : Progress n) (y : Entry)
      → any (entry_eq y) (map a_rule p.rules ++ map a_route p.routes) ≡ added y p
  any-added p y = ground (
    arith,
    any-append (entry_eq y) (map a_rule p.rules) (map a_route p.routes),
    any-map (entry_eq y) a_rule p.rules,
    any-map (entry_eq y) a_route p.routes,
  )

  -- What was there before is there behind the deferred call.
  pub has-roll_back :
      (start : n.State) (p : Progress n) (y : Entry)
      → IsTracked start p
      → n.has y start ≡ true
      → n.has y (roll_back n p) ≡ true
  unfolding roll_back
  has-roll_back start p y t there =
      has-delete_all n y (map a_rule p.rules ++ map a_route p.routes) p.state
        (ground (arith, any-added p y, t.new y, there)) (ground (arith, t.has_now y, there))

  -- Anything else was added, and could not be deleted.
  pub roll_back-IsRefused :
      (start : n.State) (p : Progress n) (y : Entry)
      → IsTracked start p
      → n.has y (roll_back n p) ≡ true
      → (n.has y start ≡ true) ⊎ ((added y p ≡ true) × IsRefused n y (roll_back n p))
  unfolding roll_back
  roll_back-IsRefused start p y t h = elim (Bool-cases (added y p)) [
    | inl new ↦ inr (
      new,
      delete_all-IsRefused n y (map a_rule p.rules ++ map a_route p.routes) p.state
          (any-added p y ∙ new) h,
    )
    | inr other ↦
        let before = has_before n y (map a_rule p.rules ++ map a_route p.routes) p.state h in
        inl (ground (arith, before, other, t.has_now y))
  ]

  abbrev pub entries : ℕ → List InetFamily → List Entry
  entries link [] = []
  entries link (f ∷ fs) = a_route (local_route link f) ∷ a_rule (marked_rule f) ∷ entries link fs

  -- One addition that netlink accepts, with what it does to the list of what was added.
  track :
      (start : n.State) (x : Entry) (p q : Progress n)
      → n.add x p.state ≡ some q.state
      → ((y : Entry) → added y q ≡ (entry_eq y x || added y p))
      → IsTracked start p
      → IsTracked start q
  track start x p q h grown t = record {
    has_now = λ y. ground (arith, n.has_added x y p.state q.state h, grown y, t.has_now y);
    new = λ y among. ground (
      arith,
      grown y,
      t.new y,
      entry_eq→eq y x,
      n.add_new x p.state q.state h,
      t.has_now x,
      t.has_now y,
    );
  }

  -- What a round, or some of them, leads to: everything tracked, nothing added but what was to be,
  -- and all of that unless it failed.
  abbrev pub IsAdded : n.State → List Entry → Progress n → Progress n × Option RouteError → Type 0
  IsAdded start l p (q, some e) =
      IsTracked start q
      × ((y : Entry) → added y q ≡ true → (any (entry_eq y) l || added y p) ≡ true)
  IsAdded start l p (q, none) =
      IsTracked start q × ((y : Entry) → added y q ≡ (any (entry_eq y) l || added y p))

  added-rule :
      (p : Progress n) (s : n.State) (r : RoutingRule) (y : Entry)
      → added y (record p { state = s; rules = p.rules ++ r ∷ [] })
        ≡ (entry_eq y (a_rule r) || added y p)
  added-rule p s r y = ground (arith, any-append (λ r. entry_eq y (a_rule r)) p.rules (r ∷ []))

  added-route :
      (p : Progress n) (s : n.State) (r : Route) (y : Entry)
      → added y (record p { state = s; routes = p.routes ++ r ∷ [] })
        ≡ (entry_eq y (a_route r) || added y p)
  added-route p s r y = ground (arith, any-append (λ r. entry_eq y (a_route r)) p.routes (r ∷ []))

  add_rule-IsAdded :
      (start : n.State) (f : InetFamily) (p : Progress n)
      → IsTracked start p
      → IsAdded start (a_rule (marked_rule f) ∷ []) p (add_rule n f p)
  unfolding add_rule
  add_rule-IsAdded start f p t = elim (Option-cases (n.add (a_rule (marked_rule f)) p.state)) [
    | inl refused ↦ rw (refused, add_rule) (t, λ y h. ground (arith, h))
    | inr (s, taken) ↦
        rw (taken, add_rule)
          (
            track start (a_rule (marked_rule f)) p _ taken (added-rule p s (marked_rule f)) t,
            λ y. ground (arith, added-rule p s (marked_rule f) y),
          )
  ]

  -- What follows an addition.
  IsAdded-behind :
      (start : n.State) (before l : List Entry) (p q : Progress n)
      → ((y : Entry) → added y q ≡ (any (entry_eq y) before || added y p))
      → (r : Progress n × Option RouteError) → IsAdded start l q r
      → IsAdded start (before ++ l) p r
  IsAdded-behind start before l p q grown (r, some e) (t, more) =
      (t, λ y h. ground (arith, any-append (entry_eq y) before l, grown y, more y h))
  IsAdded-behind start before l p q grown (r, none) (t, more) =
      (t, λ y. ground (arith, any-append (entry_eq y) before l, grown y, more y))

  add_route-IsAdded :
      (start : n.State) (link : ℕ) (f : InetFamily) (p : Progress n)
      → IsTracked start p
      → IsAdded start
          (a_route (local_route link f) ∷ a_rule (marked_rule f) ∷ [])
          p
          (add_route n link f p)
  unfolding add_route
  add_route-IsAdded start link f p t =
      elim (Option-cases (n.add (a_route (local_route link f)) p.state)) [
        | inl refused ↦ rw (refused, add_route) (t, λ y h. ground (arith, h))
        | inr (s, taken) ↦
            rw (taken, add_route)
              (IsAdded-behind start (a_route (local_route link f) ∷ [])
                (a_rule (marked_rule f) ∷ []) p
                (record p { state = s; routes = p.routes ++ local_route link f ∷ [] })
                (λ y. ground (arith, added-route p s (local_route link f) y)) _
                (add_rule-IsAdded start f _ (
                  track start (a_route (local_route link f)) p _ taken
                    (added-route p s (local_route link f)) t)))
      ]

  install_family-IsAdded :
      (start : n.State) (link : ℕ) (f : InetFamily) (p : Progress n)
      → IsTracked start p
      → IsAdded start
          (a_route (local_route link f) ∷ a_rule (marked_rule f) ∷ [])
          p
          (install_family n link f p)
  unfolding install_family
  install_family-IsAdded start link f p t = elim (Option-cases (n.rule_list f p.state)) [
    | inl unlisted ↦ rw (unlisted, install_family) (t, λ y h. ground (arith, h))
    | inr (l, listed) ↦ elim (Bool-cases (any conflicts l)) [
      | inl conflict ↦ rw (listed, install_family) (rw conflict (t, λ y h. ground (arith, h)))
      | inr free ↦ rw (listed, install_family) (rw free (add_route-IsAdded start link f p t))
    ]
  ]

  pub install_families-IsAdded :
      (start : n.State) (link : ℕ) (fs : List InetFamily) (p : Progress n)
      → IsTracked start p
      → IsAdded start (entries link fs) p (install_families n link fs p)
  unfolding install_families
  install_families-IsAdded start link [] p t = (t, λ y. refl)
  install_families-IsAdded start link (f ∷ fs) p t =
      go (install_family n link f p) (install_family-IsAdded start link f p t)
        (install_families-IsAdded start link fs)
    where
      go :
          (r : Progress n × Option RouteError)
          → IsAdded start (a_route (local_route link f) ∷ a_rule (marked_rule f) ∷ []) p r
          → ((q : Progress n)
              → IsTracked start q
              → IsAdded start (entries link fs) q (install_families n link fs q))
          → IsAdded start (entries link (f ∷ fs)) p (unless_failed n r (install_families n link fs))
      go (q, some e) (tracked, more) next = (tracked, λ y h. ground (arith, more y h))
      go (q, none) (tracked, grown) next =
          IsAdded-behind start (a_route (local_route link f) ∷ a_rule (marked_rule f) ∷ [])
            (entries link fs) p q grown _ (next q tracked)
