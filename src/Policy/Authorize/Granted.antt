-- ===== src/Policy/Authorize/Granted.antt =====
-- The verdicts of authorize of sdk/cmd/connect-proxy/policy.go that refuse nothing.
use agents_net.Base.{
  ℕ, ◌≡◌, refl, inl, inr, true, false, Option, none, some, List, ◌==◌, length, Bool-cases,
  Option-cases,
}
use agents_net.Base.Bytes.{Bytes}
use agents_net.Base.Result.{ok, Result-cases}
use agents_net.Base.Unicode.{to_lower}
use agents_net.Net.{join_host_port}
use agents_net.Netip.{Addr, zone, unmap}
use agents_net.Policy.{Platform, Network, Rule, Policy, parse_port}
use agents_net.Policy.Names.{is_empty, normalize_name}
use agents_net.Policy.Authorize.{
  Reason, Verdict, select_rule, literal_candidates, name_candidates, checked_addresses,
  ip_not_on_allowlist, not_on_allowlist, authorize_address, authorize_resolved, authorize_name,
  authorize, resolution, deny_unselected,
}
use agents_net.Policy.Authorize.Sound.{
  IsPermitting, IsGranted, by_address, by_name, select_rule-cases, literal_candidates-Among,
  checked_addresses-IsDialable,
}

abbrev pub IsAllowed : Verdict → Type 0
IsAllowed v = (v.reason ≡ none) × (v.failed ≡ false)

-- A refusal carries a reason.
refused : {x : Reason} → some x ≡ none → ⊥
refused e = cc

true-ne-false : true ≡ false → ⊥
true-ne-false e = cc

deny_unselected-refuses :
    (reason : Option Reason) (x : Reason) (v : Verdict)
    → (deny_unselected reason x v).reason ≡ none
    → ⊥
deny_unselected-refuses none x v e = refused e
deny_unselected-refuses (some y) x v e = refused e

module _ (p : Platform) (q : Policy) (host port : Bytes) (network : Network) (number : ℕ)
    (parsed : parse_port port ≡ ok number) (v : Verdict) where
  authorize_address-IsGranted :
      (a : Addr)
      → p.parse_addr (to_lower p.unicode host) ≡ some a
      → (authorize_address p q v a port number network).reason ≡ none
      → IsGranted p q host port network (authorize_address p q v a port number network)
  unfolding authorize_address
  authorize_address-IsGranted a e h = elim (Bool-cases (is_empty (zone a))) [
    | inr zoned ↦ absurd (refused (rw (authorize_address, zoned) at h))
    | inl plain ↦
        elim (select_rule-cases (literal_candidates q.literals (unmap a)) number network) [
          | inl (r, s, m) ↦
              let (among, covered) = literal_candidates-Among q.literals (unmap a) r m.among in
              rw (plain, s, authorize_address)
                (by_address number a r parsed e plain
                  (record { among = among; covered = covered; port_permitted = m.port_permitted })
                  m.network_permitted refl refl)
          | inr (reason, s) ↦ absurd (
              deny_unselected-refuses
                (select_rule (literal_candidates q.literals (unmap a)) number network).1
                ip_not_on_allowlist
                (record v { destination = join_host_port (p.addr_string (unmap a)) port })
                (rw (plain, s, authorize_address) at h))
        ]
  ]

  authorize_resolved-IsGranted :
      (name : Bytes)
      → normalize_name p host ≡ some name
      → (w : Verdict) (r : Rule) → IsPermitting (name_candidates q name) number network r
      → (found : Option (List Addr)) → IsAllowed (authorize_resolved q w r number found)
      → w.rule ≡ r.id
      → IsGranted p q host port network (authorize_resolved q w r number found)
  unfolding authorize_resolved
  authorize_resolved-IsGranted name e w r m none h id = absurd (true-ne-false h.1)
  authorize_resolved-IsGranted name e w r m (some l) h id =
      elim (Bool-cases (length (checked_addresses q r number l) == 0)) [
        | inl empty ↦ absurd (refused (rw empty at h.0))
        | inr filled ↦ rw filled (
            by_name number name r parsed e m (checked_addresses-IsDialable q r number l)
              (λ nil. true-ne-false (rw nil at filled)) id)
      ]

  authorize_name-IsGranted :
      (lookup : Bytes → Option (List Addr)) (name : Bytes)
      → normalize_name p host ≡ some name
      → IsAllowed (authorize_name lookup q v name port number network)
      → IsGranted p q host port network (authorize_name lookup q v name port number network)
  unfolding authorize_name
  authorize_name-IsGranted lookup name e h =
      elim (select_rule-cases (name_candidates q name) number network) [
        | inr (reason, s) ↦ absurd (
            deny_unselected-refuses (select_rule (name_candidates q name) number network).1
              not_on_allowlist (record v { destination = join_host_port name port })
              (rw (s, authorize_name) at h.0))
        | inl (r, s, m) ↦
            rw (s, authorize_name)
              (authorize_resolved-IsGranted name e _ r m (resolution lookup r name)
                (rw (s, authorize_name) at h) refl)
      ]

-- A verdict without a reason and without a resolution error rests on a rule of the policy: for
-- a literal address a literal rule that covers it on the port and transport, for a name a rule
-- of that name, and then every address to dial is listed, covered by a literal or exception
-- rule on that port, or public, and there is one at least.
pub authorize-IsGranted :
    (lookup : Bytes → Option (List Addr)) (p : Platform) (q : Policy) (host port : Bytes)
    (network : Network)
    → IsAllowed (authorize lookup p q host port network)
    → IsGranted p q host port network (authorize lookup p q host port network)
unfolding authorize
authorize-IsGranted lookup p q host port network h = elim (Result-cases (parse_port port)) [
  | inr (x, e) ↦ absurd (refused (rw (e, authorize) at h.0))
  | inl (number, e) ↦ elim (Option-cases (p.parse_addr (to_lower p.unicode host))) [
    | inr (a, f) ↦
        rw (e, f, authorize)
          (authorize_address-IsGranted p q host port network number e _ a f
            (rw (e, f, authorize) at h.0))
    | inl f ↦ elim (Option-cases (normalize_name p host)) [
      | inl g ↦ absurd (refused (rw (e, f, g, authorize) at h.0))
      | inr (name, g) ↦
          rw (e, f, g, authorize)
            (authorize_name-IsGranted p q host port network number e _ lookup name g
              (rw (e, f, g, authorize) at h))
    ]
  ]
]
