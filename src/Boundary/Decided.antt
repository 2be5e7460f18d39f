-- ===== src/Boundary/Decided.antt =====
-- The outcomes of connectUpstream of sdk/cmd/connect-proxy/main.go.
use agents_net.Base.{
  ℕ, ◌≡◌, ◌≢◌, refl, ◌⊎◌, inl, inr, Bool, true, false, not, Option, none, some, List, [], ◌∷◌,
  arith, if◌then◌else◌, Bool-cases, Option-cases,
}
use agents_net.Base.Bytes.{Bytes}
use agents_net.Net.{join_host_port}
use agents_net.Netip.{Addr}
use agents_net.Policy.{Network, tcp, udp, Policy}
use agents_net.Policy.Authorize.{
  Reason, policy_unavailable, udp_disabled, resolve_failed, dial_failed, Verdict, authorize,
}
use agents_net.Policy.Authorize.Sound.{IsGranted, by_address, by_name}
use agents_net.Policy.Authorize.Granted.{authorize-IsGranted}
use agents_net.Boundary.{
  World, Wire, Decision, allow, block, fail, Session, AuditRecord, Event, denied, audit, Dialled,
  connected, failed, nothing, dial_loop, dial_authorized, first_record, refusal, after_dial,
  after_authorize, connect_upstream,
}

-- One of the addresses of a list.
abbrev pub Listed : Addr → List Addr → Type 0
Listed a [] = ⊥
Listed a (x ∷ xs) = (x ≡ a) ⊎ Listed a xs

-- The outcome of dialling: nothing only without addresses, a connection only to one of them.
abbrev IsDialled : World → Network → Bytes → List Addr → Dialled → Type 0
IsDialled w network port l (connected a remote) =
    Listed a l × (w.dial network (join_host_port (w.platform.addr_string a) port) ≡ some remote)
IsDialled w network port l failed = Unit
IsDialled w network port l nothing = l ≡ []

dialled_later :
    (w : World) (network : Network) (port : Bytes) (x : Addr) (l : List Addr) (r : Dialled)
    → r ≢ nothing
    → IsDialled w network port l r
    → IsDialled w network port (x ∷ l) r
dialled_later w network port x l (connected a remote) some_result (i, e) = (inr i, e)
dialled_later w network port x l failed some_result h = tt
dialled_later w network port x l nothing some_result h = absurd (some_result refl)

dial_loop-erred :
    (w : World) (network : Network) (port : Bytes) (l : List Addr)
    → dial_loop w network port true l ≢ nothing
unfolding dial_loop
dial_loop-erred w network port [] e = cc
dial_loop-erred w network port (a ∷ l) e =
    elim (Option-cases (w.dial network (join_host_port (w.platform.addr_string a) port))) [
      | inl missed ↦ dial_loop-erred w network port l (rw (missed, dial_loop) at e)
      | inr (remote, reached) ↦ not_nothing (rw (reached, dial_loop) at e)
    ]
  where
    not_nothing : {x : Addr} {y : Bytes} → connected x y ≡ nothing → ⊥
    not_nothing q = cc

dial_loop-IsDialled :
    (w : World) (network : Network) (port : Bytes) (erred : Bool) (l : List Addr)
    → IsDialled w network port l (dial_loop w network port erred l)
unfolding dial_loop
dial_loop-IsDialled w network port true [] = tt
dial_loop-IsDialled w network port false [] = refl
dial_loop-IsDialled w network port erred (a ∷ l) =
    elim (Option-cases (w.dial network (join_host_port (w.platform.addr_string a) port))) [
      | inl missed ↦
          rw (missed, dial_loop)
            (dialled_later w network port a l _ (dial_loop-erred w network port l)
              (dial_loop-IsDialled w network port true l))
      | inr (remote, reached) ↦ rw (reached, dial_loop) (inl refl, reached)
    ]

-- What an open connection rests on, and what its record says.
pub record IsOpened (w : World) (current : Option Policy) (network : Network) (host port : Bytes)
    (rec : AuditRecord) (a : Addr) (remote : Bytes) : Type 0 where
  pub q : Policy
  pub loaded : current ≡ some q
  pub udp_enabled : network ≡ udp → q.udp ≡ true
  pub granted :
      IsGranted w.platform q host port network (authorize w.lookup w.platform q host port network)
  pub checked : Listed a (authorize w.lookup w.platform q host port network).addresses
  pub reached : w.dial network (join_host_port (w.platform.addr_string a) port) ≡ some remote
  pub decision : rec.decision ≡ allow
  pub address : rec.address ≡ remote
  pub rule : rec.rule ≡ (authorize w.lookup w.platform q host port network).rule
  pub destination :
      rec.destination ≡ (authorize w.lookup w.platform q host port network).destination

-- One record and a connection, or one record and one refusal for the same reason.
pub data IsDecided (w : World) (current : Option Policy) (network : Network) (host port : Bytes)
    : List Event × Option (Addr × Bytes) → Type 0 where
  opened :
      (rec : AuditRecord) (a : Addr) (remote : Bytes)
      → IsOpened w current network host port rec a remote
      → IsDecided w current network host port (audit w current rec ∷ [], some (a, remote))
  refused :
      (rec : AuditRecord) (status : ℕ) (reason : Reason)
      → rec.decision ≢ allow
      → rec.reason ≡ some reason
      → IsDecided w current network host port
          (audit w current rec ∷ denied status reason ∷ [], none)

abbrev Decides :
    World
    → Option Policy
    → Network
    → Bytes
    → Bytes
    → Option (List Event × Option (Addr × Bytes))
    → Type 0
Decides w current network host port o =
    (r : List Event × Option (Addr × Bytes)) × (o ≡ some r)
    × IsDecided w current network host port r

refusal-Decides :
    (w : World) (current : Option Policy) (network : Network) (host port : Bytes)
    (rec : AuditRecord) (decision : Decision) (status : ℕ) (reason : Reason)
    → decision ≢ allow
    → Decides w current network host port (refusal w current rec decision status reason)
refusal-Decides w current network host port rec decision status reason other = (
  _,
  refl,
  refused (record rec { decision = decision; reason = some reason }) status reason other refl,
)

granted-addresses :
    (w : World) (q : Policy) (network : Network) (host port : Bytes) (v : Verdict)
    → IsGranted w.platform q host port network v
    → v.addresses ≢ []
granted-addresses w q network host port v (by_address number a r _ _ _ _ _ one _) e = cc (one, e)
granted-addresses w q network host port v (by_name number name r _ _ _ _ filled _) e = filled e

after_dial-Decides :
    (w : World) (q : Policy) (network : Network) (host port : Bytes) (rec : AuditRecord)
    → (network ≡ udp → q.udp ≡ true)
    → IsGranted w.platform q host port network (authorize w.lookup w.platform q host port network)
    → (d : Dialled)
    → IsDialled w network port (authorize w.lookup w.platform q host port network).addresses d
    → Decides w (some q) network host port (
        after_dial w
          (some q)
          (record rec {
            destination = (authorize w.lookup w.platform q host port network).destination;
          })
          (authorize w.lookup w.platform q host port network).rule
          d)
unfolding after_dial
after_dial-Decides w q network host port rec enabled granted nothing empty =
    absurd (granted-addresses w q network host port _ granted empty)
after_dial-Decides w q network host port rec enabled granted failed h =
    refusal-Decides w (some q) network host port
      (record rec { destination = (authorize w.lookup w.platform q host port network).destination })
      fail 502 dial_failed (λ e. cc)
after_dial-Decides w q network host port rec enabled granted (connected a remote) (i, e) = (
  _,
  refl,
  opened
      (record rec {
        destination = (authorize w.lookup w.platform q host port network).destination;
        decision = allow;
        address = remote;
        rule = (authorize w.lookup w.platform q host port network).rule;
      })
      a remote
      (record {
        q = q;
        loaded = refl;
        udp_enabled = enabled;
        granted = granted;
        checked = i;
        reached = e;
        decision = refl;
        address = refl;
        rule = refl;
        destination = refl;
      }),
)

after_authorize-Decides :
    (w : World) (q : Policy) (network : Network) (host port : Bytes) (rec : AuditRecord)
    → (network ≡ udp → q.udp ≡ true)
    → Decides w (some q) network host port (
        after_authorize w
          (some q)
          network
          port
          rec
          (authorize w.lookup w.platform q host port network))
unfolding after_authorize dial_authorized
after_authorize-Decides w q network host port rec enabled =
    let v = authorize w.lookup w.platform q host port network in
    elim (Option-cases v.reason) [
      | inr (reason, e) ↦
          rw (e, after_authorize)
            (refusal-Decides w (some q) network host port
              (record rec { destination = v.destination }) block v.status reason (λ x. cc))
      | inl e ↦ elim (Bool-cases v.failed) [
        | inl f ↦
            rw (e, f, after_authorize)
              (refusal-Decides w (some q) network host port
                (record rec { destination = v.destination }) fail 502 resolve_failed (λ x. cc))
        | inr f ↦
            let granted = authorize-IsGranted w.lookup w.platform q host port network (e, f) in
            rw (e, f, after_authorize)
              (after_dial-Decides w q network host port rec enabled granted _
                (dial_loop-IsDialled w network port false v.addresses))
      ]
    ]

either_branch :
    (w : World) (current : Option Policy) (network : Network) (host port : Bytes) (b : Bool)
    {x y : Option (List Event × Option (Addr × Bytes))}
    → (b ≡ true → Decides w current network host port x)
    → (b ≡ false → Decides w current network host port y)
    → Decides w current network host port (if b then x else y)
either_branch w current network host port true first second = first refl
either_branch w current network host port false first second = second refl

-- connectUpstream always returns, and never uses a connection that is nil. Either it writes one
-- audit record with a decision other than allow and one refusal with the reason of the record,
-- and opens nothing; or it writes one record, of the decision allow, and the connection was
-- dialled at an address that the verdict of the loaded policy lists, that verdict is granted by
-- the policy, and for UDP the policy enables UDP.
pub connect_upstream-IsDecided :
    (w : World) (current : Option Policy) (wire : Wire) (network : Network) (host port : Bytes)
    (s : Session)
    → (r : List Event × Option (Addr × Bytes)) × (connect_upstream w current wire network host port
          s
        ≡ some r)
      × IsDecided w current network host port r
unfolding connect_upstream
connect_upstream-IsDecided w none wire network host port s =
    refusal-Decides w none network host port (first_record wire network host port s) fail 503
      policy_unavailable (λ x. cc)
connect_upstream-IsDecided w (some q) wire tcp host port s =
    after_authorize-Decides w q tcp host port (first_record wire tcp host port s) (λ x. absurd (cc))
connect_upstream-IsDecided w (some q) wire udp host port s =
    either_branch w (some q) udp host port (not q.udp)
      (λ off.
        refusal-Decides w (some q) udp host port (first_record wire udp host port s) block 403
          udp_disabled (λ x. cc))
      (λ on.
        after_authorize-Decides w q udp host port (first_record wire udp host port s)
          (λ x. ground (arith, on)))
