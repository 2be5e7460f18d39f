-- ===== src/Namespace/Routes/Restored.antt =====
-- installRoutes of sdk/pkg/netnsproxy/routes_linux.go: what it adds, and what it takes back.
use mathlib.Core.Path.{subst}
use agents_net.Base.{
  ℕ, ◌≡◌, refl, sym, ◌⊎◌, inl, inr, Bool, true, false, ◌||◌, Option, none, some, List, [], arith,
  any, Bool-cases, Option-cases,
}
use agents_net.Namespace.Routes.{
  InetFamily, inet, RoutingRule, Entry, entry_eq, Netlink, RouteError, no_loopback, conflicts,
  families, Progress, install_family, install_families, unless_failed, keep_or_undo, install_routes,
}
use agents_net.Namespace.Routes.Deleted.{IsRefused}
use agents_net.Namespace.Routes.Tracked.{
  IsTracked, entries, IsAdded, has-roll_back, roll_back-IsRefused, install_families-IsAdded,
}

module _ (n : Netlink) where
  -- The rules of a family are listed before anything is added, and none uses what is to be added.
  abbrev IsFree : InetFamily → n.State → Type 0
  IsFree f s = (l : List RoutingRule) × (n.rule_list f s ≡ some l) × (any conflicts l ≡ false)

  abbrev Succeeds : Progress n × Option RouteError → Type 0
  Succeeds (q, some e) = ⊥
  Succeeds (q, none) = Unit

  install_family-IsFree :
      (link : ℕ) (f : InetFamily) (p : Progress n)
      → Succeeds (install_family n link f p)
      → IsFree f p.state
  unfolding install_family
  install_family-IsFree link f p h = elim (Option-cases (n.rule_list f p.state)) [
    | inl unlisted ↦ let x : ⊥ = rw (unlisted, install_family) at h in elim x [ ]
    | inr (l, listed) ↦ elim (Bool-cases (any conflicts l)) [
      | inl conflict ↦
          let h' = rw (listed, install_family) at h in let x : ⊥ = rw conflict at h' in elim x [ ]
      | inr free ↦ (l, listed, free)
    ]
  ]

  unless_failed-Succeeds :
      (r : Progress n × Option RouteError) (next : Progress n → Progress n × Option RouteError)
      → Succeeds (unless_failed n r next)
      → Succeeds r
  unless_failed-Succeeds (q, some e) next h = h
  unless_failed-Succeeds (q, none) next h = tt

  -- An entry of what is to be added that is left because its deletion failed.
  pub record IsLeft (ipv6 : Bool) (start t : n.State) (y : Entry) : Type 0 where
    pub link : ℕ
    pub named : n.link_by_name start ≡ some link
    pub among : any (entry_eq y) (entries n link (families ipv6)) ≡ true
    pub refused : IsRefused n y t

  -- The tables have the entries that they had, and no other but what could not be deleted.
  abbrev pub IsRestored : Bool → n.State → n.State → Type 0
  IsRestored ipv6 start t =
      ((y : Entry) → n.has y start ≡ true → n.has y t ≡ true)
      × ((y : Entry) → n.has y t ≡ true → (n.has y start ≡ true) ⊎ IsLeft ipv6 start t y)

  pub unchanged : (ipv6 : Bool) (start : n.State) → IsRestored ipv6 start start
  unchanged ipv6 start = (λ y h. h, λ y h. inl h)

  -- The tables behind the call: restored if it fails. Otherwise no rule of IPv4 had the
  -- table, priority or mark before, and the tables have more by exactly the entries of every
  -- family on the loopback link, all of them new.
  abbrev pub IsInstalled : Bool → n.State → n.State × Option RouteError → Type 0
  IsInstalled ipv6 start (t, some e) = IsRestored ipv6 start t
  IsInstalled ipv6 start (t, none) =
      (link : ℕ) × (n.link_by_name start ≡ some link)
      × IsFree inet start
      × ((y : Entry)
          → n.has y t ≡ (any (entry_eq y) (entries n link (families ipv6)) || n.has y start))
      × ((y : Entry)
          → any (entry_eq y) (entries n link (families ipv6)) ≡ true
          → n.has y start ≡ false)

  keep_or_undo-IsInstalled :
      (ipv6 : Bool) (start : n.State) (link : ℕ) (r : Progress n × Option RouteError)
      → n.link_by_name start ≡ some link
      → (Succeeds r → IsFree inet start)
      → IsAdded n start
          (entries n link (families ipv6))
          (record { state = start; routes = []; rules = [] })
          r
      → IsInstalled ipv6 start (keep_or_undo n r)
  unfolding keep_or_undo
  keep_or_undo-IsInstalled ipv6 start link (p, some e) named free (t, more) = (
    λ y. has-roll_back n start p y t,
    λ y h. elim (roll_back-IsRefused n start p y t h) [
      | inl there ↦ inl there
      | inr (new, refused) ↦ inr (record {
        link = link;
        named = named;
        among = ground (arith, more y new);
        refused = refused;
      })
    ],
  )
  keep_or_undo-IsInstalled ipv6 start link (p, none) named free (t, grown) = (
    link,
    named,
    free tt,
    λ y. ground (arith, t.has_now y, grown y),
    λ y among. ground (arith, t.new y, grown y),
  )

  without_loopback :
      (ipv6 : Bool) (start : n.State)
      → n.new_handle start ≡ true
      → n.link_by_name start ≡ none
      → install_routes n ipv6 start ≡ (start, some no_loopback)
  unfolding install_routes
  without_loopback ipv6 start opened unnamed =
      rw (opened, install_routes, unnamed, install_routes) refl

  abbrev nothing_added : n.State → Progress n
  nothing_added start = record { state = start; routes = []; rules = [] }

  with_loopback :
      (ipv6 : Bool) (start : n.State) (link : ℕ)
      → n.new_handle start ≡ true
      → n.link_by_name start ≡ some link
      → install_routes n ipv6 start
        ≡ keep_or_undo n (install_families n link (families ipv6) (nothing_added start))
  unfolding install_routes
  with_loopback ipv6 start link opened named =
      rw (opened, install_routes, named, install_routes) refl

  -- If installRoutes fails, whichever call of netlink failed, the tables have the entries that
  -- they had, and no other, but a local route on the loopback link or a rule for the mark of one
  -- of the families whose deletion, while it was there, failed as well. Otherwise no rule of IPv4 used its table,
  -- priority or mark before, and the tables have more by exactly a local route on the loopback
  -- link and a rule for the mark for every family, all of them new.
  pub install_routes-IsInstalled :
      (ipv6 : Bool) (start : n.State) → IsInstalled ipv6 start (install_routes n ipv6 start)
  unfolding install_routes install_families
  install_routes-IsInstalled ipv6 start = elim (Bool-cases (n.new_handle start)) [
    | inr unopened ↦ rw (unopened, install_routes) (unchanged ipv6 start)
    | inl opened ↦ elim (Option-cases (n.link_by_name start)) [
      | inl unnamed ↦
          subst (IsInstalled ipv6 start) (sym (without_loopback ipv6 start opened unnamed))
            (unchanged ipv6 start)
      | inr (link, named) ↦
          subst (IsInstalled ipv6 start) (sym (with_loopback ipv6 start link opened named)) (
            keep_or_undo-IsInstalled ipv6 start link _ named
              (λ h.
                install_family-IsFree link inet (nothing_added start)
                  (unless_failed-Succeeds _ _ h))
              (install_families-IsAdded n start link (families ipv6) (nothing_added start) tracked))
    ]
  ]
    where
      tracked : IsTracked n start (nothing_added start)
      tracked = record { has_now = λ y. refl; new = λ y among. cc }
