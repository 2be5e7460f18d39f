-- ===== src/Examples/Namespaces.antt =====
-- Datagrams at a namespace proxy with one slot.
use agents_net.Base.{
  ℕ, ◌≡◌, refl, sym, ap, inl, inr, Bool, true, false, not, ◌&&◌, ◌||◌, Option, none, some, [], ◌∷◌,
  if◌then◌else◌, Bool-cases,
}
use agents_net.Namespace.Routes.{Entry, entry_eq, Netlink, install_routes}
use agents_net.Namespace.Routes.Restored.{IsInstalled, install_routes-IsInstalled}
use agents_net.Netip.{v4, addr_eq}
use agents_net.Namespace.{
  Endpoint, FlowKey, endpoint_eq, key_eq, Datagram, push, find, push_at, Table, new_table, flow_key,
  open_flow, receive, here, later, receives,
}
use agents_net.Namespace.Flows.{IsSound, Reach-new_table}
use agents_net.Namespace.Isolated.{IsFor, find-receive}

datagrams : Unit {0}
unfolding addr_eq endpoint_eq key_eq push find push_at flow_key open_flow receive
datagrams = tt

abbrev peer : ℕ → Endpoint
peer n = record { addr = v4 n; port = 4000 }

abbrev server : Endpoint
server = record { addr = v4 0x0808_0808; port = 53 }

abbrev query_from : ℕ → Datagram
query_from n = record {
  truncated = false;
  peer = peer n;
  destination = some server;
  payload = n ∷ [];
}

abbrev key_of : ℕ → FlowKey
key_of n = record { peer = peer n; destination = server }

abbrev one_flow : Table
one_flow = receive false true false (query_from 1) (new_table 1)

-- The second packet of a flow is queued, and a second flow has no slot.
queued :
    find (key_of 1) (receive false true false (query_from 1) one_flow).flows
    ≡ some (record { key = key_of 1; queue = (1 ∷ []) ∷ (1 ∷ []) ∷ []; closed = false })
unfolding datagrams
queued = refl

full : receive false true false (query_from 2) one_flow ≡ one_flow
unfolding datagrams
full = refl

Reach-new_table_example : IsSound 1 one_flow
Reach-new_table_example =
    Reach-new_table false 1 one_flow (later here (receives true false (query_from 1)))

other_key : ¬ IsFor false (query_from 2) (key_of 1)
unfolding datagrams
other_key (whole, destination, peer, port) = cc

find-receive_example :
    find (key_of 1) (receive false true false (query_from 2) one_flow).flows
    ≡ find (key_of 1) one_flow.flows
find-receive_example = find-receive false true false (query_from 2) one_flow (key_of 1) other_key

-- Tables of the kernel as tests.
abbrev pub Entries : Type 0
Entries = Entry → Bool

abbrev pub add_entry : Entry → Entries → Option Entries
add_entry x s = if s x then none else some (λ y. entry_eq y x || s y)

pub unseen :
    (x : Entry) (s t : Entries)
    → add_entry x s ≡ some t
    → (s x ≡ false) × ((λ y. entry_eq y x || s y) ≡ t)
unseen x s t h = elim (Bool-cases (s x)) [
  | inl seen ↦ let q = rw seen at h in absurd (none_some q)
  | inr free ↦ let q = rw free at h in (free, same_some q)
]
  where
    none_some : none ≡ some t → ⊥
    none_some q = cc

    same_some : some (λ y. entry_eq y x || s y) ≡ some t → (λ y. entry_eq y x || s y) ≡ t
    same_some q = cc

-- The entry has to be there.
abbrev pub del_entry : Entry → Entries → Option Entries
del_entry x s = if s x then some (λ y. not (entry_eq y x) && s y) else none

pub gone :
    (x : Entry) (s t : Entries) → del_entry x s ≡ some t → (λ y. not (entry_eq y x) && s y) ≡ t
gone x s t h = elim (Bool-cases (s x)) [
  | inl seen ↦ let q = rw seen at h in same_some q
  | inr free ↦ let q = rw free at h in absurd (none_some q)
]
  where
    none_some : none ≡ some t → ⊥
    none_some q = cc

    same_some :
        some (λ y. not (entry_eq y x) && s y) ≡ some t → (λ y. not (entry_eq y x) && s y) ≡ t
    same_some q = cc

abbrev pub netlink : Netlink
netlink = record {
  State = Entries;
  new_handle = λ s. true;
  link_by_name = λ s. some 1;
  rule_list = λ f s. some [];
  add = add_entry;
  del = del_entry;
  has = λ x s. s x;
  add_new = λ x s t h. (unseen x s t h).0;
  has_added = λ x y s t h. ap (λ (u : Entries). u y) (sym (unseen x s t h).1);
  has_deleted = λ x y s t h. ap (λ (u : Entries). u y) (sym (gone x s t h));
}

install_routes-IsInstalled_example :
    IsInstalled netlink true (λ x. false) (install_routes netlink true (λ x. false))
install_routes-IsInstalled_example = install_routes-IsInstalled netlink true (λ x. false)
