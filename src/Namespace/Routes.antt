-- ===== src/Namespace/Routes.antt =====
-- sdk/pkg/netnsproxy/routes_linux.go: the policy routes of a namespace proxy.
pub mod Deleted
pub mod Tracked
pub mod Restored
use agents_net.Base.{
  ℕ, ◌≡◌, Bool, true, false, not, ◌&&◌, ◌||◌, Option, none, some, List, [], ◌∷◌, ◌++◌, map, ◌==◌,
  if◌then◌else◌, any,
}
use agents_net.Firewall.{routing_mark, routing_table}

pub data InetFamily : Type 0 where
  inet : InetFamily
  inet6 : InetFamily

abbrev pub family_eq : InetFamily → InetFamily → Bool
family_eq inet inet = true
family_eq inet6 inet6 = true
family_eq _ _ = false

-- The fields of a route that are set; the destination is every address of the family.
pub record Route : Type 0 where
  pub link_index : ℕ
  pub destination : InetFamily
  pub table : ℕ
  pub scope : ℕ
  pub kind : ℕ

pub record RoutingRule : Type 0 where
  pub family : InetFamily
  pub table : ℕ
  pub priority : ℕ
  pub mark : ℕ

-- What netlink adds and deletes.
pub data Entry : Type 0 where
  a_route : Route → Entry
  a_rule : RoutingRule → Entry

unfoldable pub entry_eq : Entry → Entry → Bool
entry_eq (a_route r) (a_route s) =
    (r.link_index == s.link_index)
    && (family_eq r.destination s.destination
        && ((r.table == s.table) && ((r.scope == s.scope) && (r.kind == s.kind))))
entry_eq (a_rule r) (a_rule s) =
    family_eq r.family s.family
    && ((r.table == s.table) && ((r.priority == s.priority) && (r.mark == s.mark)))
entry_eq _ _ = false

-- The netlink library on the kernel's tables: `none` is an error of a call, which changes
-- nothing. An addition makes the entry, which must be new, and a deletion takes it away.
pub record Netlink : Type 1 where
  pub State : Type 0
  pub new_handle : State → Bool
  pub link_by_name : State → Option ℕ
  pub rule_list : InetFamily → State → Option (List RoutingRule)
  pub add : Entry → State → Option State
  pub del : Entry → State → Option State
  pub has : Entry → State → Bool
  pub add_new : (x : Entry) (s t : State) → add x s ≡ some t → has x s ≡ false
  pub has_added :
      (x y : Entry) (s t : State) → add x s ≡ some t → has y t ≡ (entry_eq y x || has y s)
  pub has_deleted :
      (x y : Entry) (s t : State) → del x s ≡ some t → has y t ≡ (not (entry_eq y x) && has y s)

pub data RouteError : Type 0 where
  no_handle : RouteError
  no_loopback : RouteError
  no_listing : RouteError
  in_use : RouteError
  route_refused : RouteError
  rule_refused : RouteError

-- SCOPE_HOST and RTN_LOCAL.
abbrev pub local_route : ℕ → InetFamily → Route
local_route link family = record {
  link_index = link;
  destination = family;
  table = routing_table;
  scope = 254;
  kind = 2;
}

abbrev pub marked_rule : InetFamily → RoutingRule
marked_rule family = record {
  family = family;
  table = routing_table;
  priority = routing_table;
  mark = routing_mark;
}

abbrev pub conflicts : RoutingRule → Bool
conflicts r =
    (r.table == routing_table) || ((r.priority == routing_table) || (r.mark == routing_mark))

abbrev pub families : Bool → List InetFamily
families ipv6 = inet ∷ (if ipv6 then inet6 ∷ [] else [])

module _ (n : Netlink) where
  -- The tables, and what was added to them.
  pub record Progress : Type 0 where
    pub state : n.State
    pub routes : List Route
    pub rules : List RoutingRule

  -- One round of the loop, with the rules that there are.
  unfoldable pub add_rule : InetFamily → Progress → Progress × Option RouteError
  add_rule family p = elim (n.add (a_rule (marked_rule family)) p.state) [
    | none ↦ (p, some rule_refused)
    | some s ↦ (record p { state = s; rules = p.rules ++ marked_rule family ∷ [] }, none)
  ]

  unfoldable pub add_route : ℕ → InetFamily → Progress → Progress × Option RouteError
  unfolding add_rule
  add_route link family p = elim (n.add (a_route (local_route link family)) p.state) [
    | none ↦ (p, some route_refused)
    | some s ↦
        add_rule family (record p { state = s; routes = p.routes ++ local_route link family ∷ [] })
  ]

  unfoldable pub install_family : ℕ → InetFamily → Progress → Progress × Option RouteError
  unfolding add_route
  install_family link family p = elim (n.rule_list family p.state) [
    | none ↦ (p, some no_listing)
    | some existing ↦ if any conflicts existing then (p, some in_use) else add_route link family p
  ]

  abbrev pub unless_failed :
      Progress × Option RouteError
      → (Progress → Progress × Option RouteError)
      → Progress × Option RouteError
  unless_failed (p, some e) next = (p, some e)
  unless_failed (p, none) next = next p

  unfoldable pub install_families : ℕ → List InetFamily → Progress → Progress × Option RouteError
  unfolding install_family
  install_families link [] p = (p, none)
  install_families link (family ∷ rest) p =
      unless_failed (install_family link family p) (install_families link rest)

  -- The error of a deletion is ignored.
  unfoldable pub try_delete : Entry → n.State → n.State
  try_delete x s = elim (n.del x s) [ none ↦ s | some t ↦ t ]

  abbrev pub delete_all : List Entry → n.State → n.State
  delete_all [] s = s
  delete_all (x ∷ xs) s = delete_all xs (try_delete x s)

  -- The deferred call: the rules go first.
  unfoldable pub roll_back : Progress → n.State
  unfolding try_delete
  roll_back p = delete_all (map a_rule p.rules ++ map a_route p.routes) p.state

  unfoldable pub keep_or_undo : Progress × Option RouteError → n.State × Option RouteError
  unfolding roll_back
  keep_or_undo (p, some e) = (roll_back p, some e)
  keep_or_undo (p, none) = (p.state, none)

  unfoldable pub install_routes : Bool → n.State → n.State × Option RouteError
  unfolding install_families keep_or_undo
  install_routes ipv6 s =
      if not (n.new_handle s) then (s, some no_handle) else elim (n.link_by_name s) [
        | none ↦ (s, some no_loopback)
        | some link ↦
            keep_or_undo (
              install_families link (families ipv6) (record { state = s; routes = []; rules = [] }))
      ]
