-- ===== src/Namespace/Routes/Deleted.antt =====
-- The deferred deletions of installRoutes of sdk/pkg/netnsproxy/routes_linux.go.
use agents_net.Base.{
  ◌≡◌, refl, ◌⊎◌, inl, inr, Bool, true, false, not, ◌&&◌, none, List, [], ◌∷◌, arith, any,
  Bool-cases, Option-cases,
}
use agents_net.Namespace.Routes.{
  InetFamily, inet, inet6, family_eq, Entry, a_route, a_rule, entry_eq, Netlink, try_delete,
  delete_all,
}

family_eq→eq : (f g : InetFamily) → family_eq f g ≡ true → f ≡ g
family_eq→eq inet inet h = refl
family_eq→eq inet6 inet6 h = refl
family_eq→eq inet inet6 h = cc
family_eq→eq inet6 inet h = cc

pub entry_eq→eq : (x y : Entry) → entry_eq x y ≡ true → x ≡ y
unfolding entry_eq
entry_eq→eq (a_route r) (a_route s) h = ground (arith, family_eq→eq r.destination s.destination)
entry_eq→eq (a_rule r) (a_rule s) h = ground (arith, family_eq→eq r.family s.family)
entry_eq→eq (a_route r) (a_rule s) h = cc
entry_eq→eq (a_rule r) (a_route s) h = cc

module _ (n : Netlink) where
  -- A deletion takes its entry away, or it fails and nothing changes.
  try_delete-cases :
      (x : Entry) (s : n.State)
      → ((n.del x s ≡ none) × (try_delete n x s ≡ s))
        ⊎ ((y : Entry) → n.has y (try_delete n x s) ≡ (not (entry_eq y x) && n.has y s))
  unfolding try_delete
  try_delete-cases x s = elim (Option-cases (n.del x s)) [
    | inl refused ↦ inl (refused, rw (refused, try_delete) refl)
    | inr (t, deleted) ↦ inr (λ y. rw (deleted, try_delete) (n.has_deleted x y s t deleted))
  ]

  pub has-delete_all :
      (y : Entry) (l : List Entry) (s : n.State)
      → any (entry_eq y) l ≡ false
      → n.has y s ≡ true
      → n.has y (delete_all n l s) ≡ true
  has-delete_all y [] s apart there = there
  has-delete_all y (x ∷ l) s apart there =
      has-delete_all y l (try_delete n x s) (ground (arith, apart)) (elim (try_delete-cases x s) [
        | inl (refused, same) ↦ rw same there
        | inr deleted ↦ ground (arith, apart, there, deleted y)
      ])

  pub has_before :
      (y : Entry) (l : List Entry) (s : n.State)
      → n.has y (delete_all n l s) ≡ true
      → n.has y s ≡ true
  has_before y [] s h = h
  has_before y (x ∷ l) s h =
      let behind = has_before y l (try_delete n x s) h in
      elim (try_delete-cases x s) [
        | inl (refused, same) ↦ rw same at behind
        | inr deleted ↦ ground (arith, behind, deleted y)
      ]

  -- The entry is left because its deletion failed, in a state that has all that is left.
  pub record IsRefused (y : Entry) (t : n.State) : Type 0 where
    pub state : n.State
    pub there : n.has y state ≡ true
    pub refused : n.del y state ≡ none
    pub left : (z : Entry) → n.has z t ≡ true → n.has z state ≡ true

  pub delete_all-IsRefused :
      (y : Entry) (l : List Entry) (s : n.State)
      → any (entry_eq y) l ≡ true
      → n.has y (delete_all n l s) ≡ true
      → IsRefused y (delete_all n l s)
  delete_all-IsRefused y [] s among h = absurd (cc)
  delete_all-IsRefused y (x ∷ l) s among h = elim (Bool-cases (any (entry_eq y) l)) [
    | inl later ↦ delete_all-IsRefused y l (try_delete n x s) later h
    | inr last ↦
        let here : entry_eq y x ≡ true = ground (arith, among, last) in
        elim (try_delete-cases x s) [
          | inl (refused, same) ↦ record {
            state = s;
            there = has_before y (x ∷ l) s h;
            refused = rw (entry_eq→eq y x here) refused;
            left = λ z. has_before z (x ∷ l) s;
          }
          | inr deleted ↦
              absurd (gone (n.has y s) (deleted y) (has_before y l (try_delete n x s) h) here)
        ]
  ]
    where
      gone : {b c : Bool} (d : Bool) → b ≡ (not c && d) → b ≡ true → c ≡ true → ⊥
      gone d p q r = ground (arith, p, q, r)
