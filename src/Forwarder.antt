-- ===== src/Forwarder.antt =====
-- sdk/pkg/tun2connect/forwarder.go: which destination a flow is dialled to.
-- The Dialer is a function of host and port; the resolver's state is passed on.
pub mod Names
pub mod Relay
use agents_net.Base.{ℕ, Bool, not, ◌||◌, Option, none, some, ◌==◌, if◌then◌else◌}
use agents_net.Base.Bytes.{Bytes}
use agents_net.Base.Result.{Result, ok, err}
use agents_net.Netip.{Addr, is_valid, unmap}
use agents_net.Dns.{VirtualDns, reverse_lookup}

-- The error of targetHost is ErrInvalidDestination, `none`. The first argument is Addr.String.
unfoldable pub target_host : (Addr → Bytes) → Addr → ℕ → VirtualDns → VirtualDns × Option Bytes
target_host text addr port d =
    if not (is_valid addr) || (port == 0)
    then (d, none)
    else let (d', found) = reverse_lookup (unmap addr) d in
      elim found [ some name ↦ (d', some name) | none ↦ (d', some (text (unmap addr))) ]

pub data DialError (E : Type 0) : Type 0 where
  invalid_destination : DialError E
  dialer : E → DialError E

abbrev pub from_dialer : {E C : Type 0} → Result E C → Result (DialError E) C
from_dialer (ok c) = ok c
from_dialer (err e) = err (dialer e)

-- DialTCP and DialUDP, which differ in the method of the Dialer that they call.
unfoldable pub dial :
    {E C : Type 0}
    → (Bytes → ℕ → Result E C)
    → (Addr → Bytes)
    → Addr
    → ℕ
    → VirtualDns
    → VirtualDns × Result (DialError E) C
dial call text addr port d =
    let (d', host) = target_host text addr port d in
    elim host [
      | none ↦ (d', err invalid_destination)
      | some name ↦ (d', from_dialer (call name port))
    ]
