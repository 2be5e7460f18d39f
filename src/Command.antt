-- ===== src/Command.antt =====
-- sdk/cmd/tun2connect/main.go: where the command finds the boundary, and the TTL of its resolver.
-- The parser of URLs is a parameter; `none` is its error.
pub mod Vsock
pub mod Child
use agents_net.Base.{
  ℕ, ◌+◌, ◌^◌, ◌%◌, Bool, true, false, Option, none, some, List, [], ◌∷◌, ◌++◌, if◌then◌else◌,
}
use agents_net.Base.Bytes.{Bytes, codes, bytes_eq, cut}
use agents_net.Base.Decimal.{parse_uint}
use agents_net.Base.Int.{ℤ, pos, negsuc}
use agents_net.Base.Result.{Result, ok, err, ◌>>=◌}

pub data AddressError : Type 0 where
  no_separator : AddressError
  invalid_cid : AddressError
  invalid_port : AddressError

abbrev pub max_uint32 : ℕ
max_uint32 = 4294967295

abbrev pub number_or : AddressError → Option ℕ → Result AddressError ℕ
number_or e none = err e
number_or e (some n) = ok (n % 2 ^ 32)

-- Both parts are parsed as ParseUint(s, 10, 32).
unfoldable pub parse_vsock : Bytes → Result AddressError (ℕ × ℕ)
unfolding cut parse_uint
parse_vsock addr = elim (cut b':' addr) [
  | none ↦ err no_separator
  | some (raw_cid, raw_port) ↦ number_or invalid_cid (parse_uint max_uint32 raw_cid) >>= λ cid.
      number_or invalid_port (parse_uint max_uint32 raw_port) >>= λ port. ok (cid, port)
]

pub record Url : Type 0 where
  pub scheme : Bytes
  pub host : Bytes
  pub path : Bytes

-- The dial function that is returned: over package net, or over a VSOCK address in text form.
pub data BoundaryDial : Type 0 where
  over_net : Bytes → Bytes → BoundaryDial
  over_vsock : Bytes → BoundaryDial

pub data DialerError : Type 0 where
  invalid_url : DialerError
  invalid_address : AddressError → DialerError
  unsupported_scheme : Bytes → DialerError

abbrev pub checked_vsock : Bytes → Result AddressError (ℕ × ℕ) → Result DialerError BoundaryDial
checked_vsock addr (err e) = err (invalid_address e)
checked_vsock addr (ok _) = ok (over_vsock addr)

unfoldable pub boundary_dialer : (Bytes → Option Url) → Bytes → Result DialerError BoundaryDial
unfolding bytes_eq parse_vsock
boundary_dialer parse proxy = elim (parse proxy) [
  | none ↦ err invalid_url
  | some u ↦
      if bytes_eq u.scheme (codes "unix")
      then ok (over_net (codes "unix") u.path)
      else if bytes_eq u.scheme (codes "tcp")
      then ok (over_net (codes "tcp") u.host)
      else if bytes_eq u.scheme (codes "vsock")
      then checked_vsock u.host (parse_vsock u.host)
      else err (unsupported_scheme u.scheme)
]

-- What a call of the function dials: dialVSOCK parses the address again.
pub data Dialling : Type 0 where
  net_dial : Bytes → Bytes → Dialling
  vsock_dial : ℕ → ℕ → Dialling

unfoldable pub call_dialer : BoundaryDial → Result AddressError Dialling
unfolding parse_vsock
call_dialer (over_net network addr) = ok (net_dial network addr)
call_dialer (over_vsock addr) = parse_vsock addr >>= λ (cid, port). ok (vsock_dial cid port)
