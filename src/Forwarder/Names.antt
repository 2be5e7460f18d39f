-- ===== src/Forwarder/Names.antt =====
-- The names that sdk/pkg/tun2connect/forwarder.go dials, with the resolver of dns.go.
use agents_net.Base.{
  ℕ, ◌/◌, ◌^◌, ◌≡◌, ◌≢◌, refl, ◌⊎◌, inl, inr, Bool, true, false, not, ◌||◌, Option, none, some,
  ◌==◌, arith, Option-cases, Bool-cases,
}
use agents_net.Base.Bytes.{Bytes}
use agents_net.Base.Result.{Result, ok}
use agents_net.Base.Unicode.{Unicode}
use agents_net.Netip.{Addr, invalid, v4, v6, is_valid, unmap, contains}
use agents_net.Dns.{VirtualDns, canonical, resolve, reverse_lookup}
use agents_net.Dns.Invariant.{Owners, IsSynthetic, IsValid, unmap_synthetic}
use agents_net.Dns.Refine.{resolve-Refines, reverse_lookup-Refines}
use agents_net.Dns.RoundTrip.{reverse_lookup-resolve, Answers-IsSynthetic}
use agents_net.Forwarder.{target_host, from_dialer, dial}

synthetic_valid : (six : Bool) (a : Addr) → IsSynthetic six a → is_valid a ≡ true
unfolding contains
synthetic_valid false invalid s = s.pooled
synthetic_valid true invalid s = s.pooled
synthetic_valid six (v4 n) s = refl
synthetic_valid six (v6 n z) s = refl

-- A mapped address unmaps to an IPv4 address, which is not mapped.
unmap_twice : (a : Addr) → unmap (unmap a) ≡ unmap a
unfolding unmap
unmap_twice invalid = refl
unmap_twice (v4 n) = refl
unmap_twice (v6 n z) = elim (Bool-cases (n / 2 ^ 32 == 0xffff)) [
  | inl mapped ↦ rw mapped refl
  | inr native ↦ rw native (rw native refl)
]

-- The host for a valid destination, of a known name or not.
module _ (text : Addr → Bytes) (a : Addr) (port : ℕ) (d : VirtualDns) (valid : is_valid a ≡ true)
    (positive : (port == 0) ≡ false) where
  target_host-some :
      (name : Bytes)
      → (reverse_lookup (unmap a) d).1 ≡ some name
      → (target_host text a port d).1 ≡ some name
  unfolding target_host
  target_host-some name e = rw (valid, positive) (rw (e, target_host) refl)

  target_host-none :
      (reverse_lookup (unmap a) d).1 ≡ none → (target_host text a port d).1 ≡ some (text (unmap a))
  unfolding target_host
  target_host-none e = rw (valid, positive) (rw (e, target_host) refl)

  target_host-state : (target_host text a port d).0 ≡ (reverse_lookup (unmap a) d).0
  unfolding target_host
  target_host-state = elim (Option-cases (reverse_lookup (unmap a) d).1) [
    | inl e ↦ rw (valid, positive) (rw (e, target_host) refl)
    | inr (n, e) ↦ rw (valid, positive) (rw (e, target_host) refl)
  ]

target_host-invalid :
    (text : Addr → Bytes) (a : Addr) (port : ℕ) (d : VirtualDns)
    → (not (is_valid a) || (port == 0)) ≡ true
    → target_host text a port d ≡ (d, none)
unfolding target_host
target_host-invalid text a port d e = rw (e, target_host) refl

dial-some :
    {E C : Type 0} (call : Bytes → ℕ → Result E C) (text : Addr → Bytes) (a : Addr) (port : ℕ)
    (d : VirtualDns) (name : Bytes)
    → (target_host text a port d).1 ≡ some name
    → (dial call text a port d).1 ≡ from_dialer (call name port)
unfolding dial
dial-some call text a port d name e = rw (e, dial) refl

-- A flow to the address that a query was just answered with goes to the canonical form of the
-- name that was asked for, on the port of the flow.
pub dial-resolve :
    {E C : Type 0} (call : Bytes → ℕ → Result E C) (text : Addr → Bytes) (u : Unicode)
    (owners : Owners) (six : Bool) (name : Bytes) (d : VirtualDns) (a : Addr) (port : ℕ)
    → IsValid owners d
    → (resolve u six name d).1 ≡ ok a
    → port ≢ 0
    → (dial call text a port (resolve u six name d).0).1
      ≡ from_dialer (call (canonical u name) port)
dial-resolve call text u owners six name d a port v e positive =
    let (owners', answer, v') = resolve-Refines u owners six name d v in
    let synthetic = Answers-IsSynthetic a answer e in
    let plain = unmap_synthetic six a synthetic in
    let back = reverse_lookup-resolve u owners six name d a v e in
    dial-some call text a port (resolve u six name d).0 (canonical u name) (
      target_host-some text a port (resolve u six name d).0 (synthetic_valid six a synthetic)
        (ground (arith, positive)) (canonical u name) (rw plain back))

-- What the host of a destination may be under a table of owners.
abbrev pub Names : (Addr → Bytes) → Owners → Addr → ℕ → Option Bytes → Type 0
Names text owners a port none = (is_valid a ≡ false) ⊎ (port ≡ 0)
Names text owners a port (some host) = (owners (unmap a) ≡ some host) ⊎ (host ≡ text (unmap a))

-- In a valid state the host of a destination is the owner of the address, unmapped, or its
-- text; only a destination that is invalid or has port 0 has none; and the state stays valid.
pub target_host-Names :
    (text : Addr → Bytes) (owners : Owners) (d : VirtualDns) (a : Addr) (port : ℕ)
    → IsValid owners d
    → Names text owners a port (target_host text a port d).1
      × IsValid owners (target_host text a port d).0
target_host-Names text owners d a port v = elim (Bool-cases (not (is_valid a) || (port == 0))) [
  | inl bad ↦ rw (target_host-invalid text a port d bad) (ground (arith, bad), v)
  | inr good ↦
      let valid : is_valid a ≡ true = ground (arith, good) in
      let positive : (port == 0) ≡ false = ground (arith, good) in
      let (owner, v') = reverse_lookup-Refines owners (unmap a) d v in
      let kept : IsValid owners (target_host text a port d).0 =
        rw (target_host-state text a port d valid positive) v' in
      elim (Option-cases (reverse_lookup (unmap a) d).1) [
        | inl e ↦ (rw (target_host-none text a port d valid positive e) (inr refl), kept)
        | inr (n, e) ↦ (
          rw (target_host-some text a port d valid positive n e)
              (inl (rw (unmap_twice a) at (owner n e))),
          kept,
        )
      ]
]
