-- ===== src/Firewall/Tests.antt =====
-- The tests that the rules of rules_linux.go of sdk/pkg/netnsproxy begin with.
use agents_net.Base.{
  ℕ, ◌%◌, ◌^◌, ◌<◌, ◌≡◌, refl, Bool, true, false, ◌&&◌, List, [], ◌∷◌, ◌++◌, ◌==◌, if◌then◌else◌,
  arith,
}
use agents_net.Base.Bytes.{Bytes, bytes_eq}
use agents_net.Firewall.{
  Endian, append_uint32, append_uint16, MetaKey, iif, nfproto, l4proto, Expr, meta, cmp_eq,
  interface_match, protocol_match, family_match, port_match,
}
use agents_net.Firewall.Kernel.{Frame, Registers, store, key, passed, RuleResult, Nftables}
use agents_net.Firewall.Digits.{append_uint32-bytes_eq, append_uint16-bytes_eq, one_byte_eq}

module _ {e : Endian} (k : Nftables e) where
  -- A test of a key: the rule goes on if the bytes are those of the packet.
  pub meta-cmp :
      (key_of : MetaKey) (d : Bytes) (l : List Expr) (regs : Registers) (f : Frame)
      → k.run_rule (meta key_of 1 ∷ cmp_eq 1 d ∷ l) regs f ≡ (
          if bytes_eq (key e key_of f) d
          then k.run_rule l (store 1 (key e key_of f) regs) f
          else passed f)
  meta-cmp key_of d l regs f =
      rw (k.loads key_of 1 (cmp_eq 1 d ∷ l) regs f)
        (k.equal 1 d l (store 1 (key e key_of f) regs) f)

  pub interface_lem :
      (index : ℕ) (l : List Expr) (regs : Registers) (f : Frame)
      → f.interface < 2 ^ 32
      → k.run_rule (interface_match e index ++ l) regs f ≡ (
          if f.interface == index % 2 ^ 32
          then k.run_rule l (store 1 (append_uint32 e f.interface) regs) f
          else passed f)
  unfolding interface_match
  interface_lem index l regs f below =
      rw
        (
          meta-cmp iif (append_uint32 e (index % 2 ^ 32)) l regs f,
          append_uint32-bytes_eq e f.interface (index % 2 ^ 32) below (omega arith),
        )
        refl

  pub protocol_lem :
      (protocol : ℕ) (l : List Expr) (regs : Registers) (f : Frame)
      → k.run_rule (protocol_match protocol ++ l) regs f ≡ (
          if f.protocol == protocol
          then k.run_rule l (store 1 (f.protocol ∷ []) regs) f
          else passed f)
  unfolding protocol_match
  protocol_lem protocol l regs f =
      rw (meta-cmp l4proto (protocol ∷ []) l regs f, one_byte_eq f.protocol protocol) refl

  pub family_lem :
      (family : ℕ) (l : List Expr) (regs : Registers) (f : Frame)
      → k.run_rule (family_match family ++ l) regs f
        ≡ (if f.family == family then k.run_rule l (store 1 (f.family ∷ []) regs) f else passed f)
  family_lem family l regs f =
      rw (meta-cmp nfproto (family ∷ []) l regs f, one_byte_eq f.family family) refl

  pub port_lem :
      (port : ℕ) (l : List Expr) (regs : Registers) (f : Frame)
      → f.port < 2 ^ 16
      → port < 2 ^ 16
      → k.run_rule (port_match port ++ l) regs f ≡ (
          if f.port == port then k.run_rule l (store 1 (append_uint16 f.port) regs) f else passed f)
  port_lem port l regs f below port_below =
      rw
        (
          k.reads_port 1 (cmp_eq 1 (append_uint16 port) ∷ l) regs f,
          k.equal 1 (append_uint16 port) l (store 1 (append_uint16 f.port) regs) f,
          append_uint16-bytes_eq f.port port below port_below,
        )
        refl

-- Tests in a row: the rule goes on behind the last one if all hold.
pub also :
    {o x : RuleResult} (c d : Bool) (y z : RuleResult)
    → o ≡ (if c then x else z)
    → x ≡ (if d then y else z)
    → o ≡ (if c && d then y else z)
also true d y z p q = cc
also false d y z p q = cc

pub behind :
    {o x y : RuleResult} (c : Bool) (z : RuleResult)
    → o ≡ (if c then x else z)
    → x ≡ y
    → o ≡ (if c then y else z)
behind true z p q = cc
behind false z p q = cc
