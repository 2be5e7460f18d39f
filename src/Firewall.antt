-- ===== src/Firewall.antt =====
-- sdk/pkg/netnsproxy/rules_linux.go: the nftables chains and rules of a namespace proxy, as the
-- list of what redirectRules adds to the connection.
pub mod Kernel
pub mod Digits
pub mod Tests
pub mod Rules
pub mod Listed
pub mod Chains
pub mod Listeners
pub mod HandedOn
pub mod Delivered
pub mod Isolated
use agents_net.Base.{
  ℕ, ◌/◌, ◌%◌, ◌^◌, Bool, true, false, not, ◌&&◌, List, [], ◌∷◌, ◌++◌, map, ◌==◌, if◌then◌else◌,
}
use agents_net.Base.Bytes.{Bytes}

-- The order of bytes of the machine, behind binary.NativeEndian.
pub data Endian : Type 0 where
  little : Endian
  big : Endian

-- AppendUint32(nil, n) of package binary, in either order.
unfoldable pub append_uint32 : Endian → ℕ → Bytes
append_uint32 little n = n % 256 ∷ n / 256 % 256 ∷ n / 65536 % 256 ∷ n / 16777216 % 256 ∷ []
append_uint32 big n = n / 16777216 % 256 ∷ n / 65536 % 256 ∷ n / 256 % 256 ∷ n % 256 ∷ []

-- binary.BigEndian.AppendUint16(nil, n)
abbrev pub append_uint16 : ℕ → Bytes
append_uint16 n = n / 256 % 256 ∷ n % 256 ∷ []

-- make([]byte, 4)
abbrev pub four_zeros : Bytes
four_zeros = 0 ∷ 0 ∷ 0 ∷ 0 ∷ []

pub data MetaKey : Type 0 where
  iif : MetaKey
  nfproto : MetaKey
  l4proto : MetaKey
  mark : MetaKey

pub data Ruling : Type 0 where
  accept : Ruling
  drop : Ruling
  -- The reject expression, with its type and code.
  reject : ℕ → ℕ → Ruling

-- The expressions that the rules are made of; a register is a number.
pub data Expr : Type 0 where
  meta : MetaKey → ℕ → Expr
  set_meta : MetaKey → ℕ → Expr
  cmp_eq : ℕ → Bytes → Expr
  cmp_neq : ℕ → Bytes → Expr
  -- Of the transport header: register, offset and length.
  payload : ℕ → ℕ → ℕ → Expr
  ct_status : ℕ → Expr
  -- Source, destination, length, mask and xor.
  bitwise : ℕ → ℕ → ℕ → Bytes → Bytes → Expr
  immediate : ℕ → Bytes → Expr
  redir : ℕ → Expr
  tproxy : ℕ → ℕ → Expr
  rule_verdict : Ruling → Expr

pub data ChainName : Type 0 where
  prerouting : ChainName
  udp_prerouting : ChainName
  input : ChainName
  forward : ChainName

pub data Hook : Type 0 where
  prerouting_hook : Hook
  input_hook : Hook
  forward_hook : Hook

pub data ChainType : Type 0 where
  nat : ChainType
  filter : ChainType

-- The named priorities, -150, -100 and 0.
pub data Priority : Type 0 where
  mangle : Priority
  nat_dest : Priority
  filtering : Priority

pub record Chain : Type 0 where
  pub name : ChainName
  pub kind : ChainType
  pub hook : Hook
  pub priority : Priority

pub record FilterRule : Type 0 where
  pub chain : ChainName
  pub exprs : List Expr

-- What was added to the connection, in order.
pub record Conn : Type 0 where
  pub chains : List Chain
  pub rules : List FilterRule

pub record Ports : Type 0 where
  pub family : ℕ
  pub tcp : ℕ
  pub udp : ℕ

abbrev pub ipproto_icmp : ℕ
ipproto_icmp = 1

abbrev pub ipproto_tcp : ℕ
ipproto_tcp = 6

abbrev pub ipproto_udp : ℕ
ipproto_udp = 17

abbrev pub ipproto_icmpv6 : ℕ
ipproto_icmpv6 = 58

abbrev pub status_destination_nat : ℕ
status_destination_nat = 32

abbrev pub routing_mark : ℕ
routing_mark = 0x616e

abbrev pub routing_table : ℕ
routing_table = 16666

-- NFT_REJECT_ICMPX_UNREACH and NFT_REJECT_ICMPX_PORT_UNREACH.
abbrev pub port_unreachable : Ruling
port_unreachable = reject 2 1

-- The conversion uint32(index) keeps the low 32 bits.
unfoldable pub interface_match : Endian → ℕ → List Expr
interface_match e index = meta iif 1 ∷ cmp_eq 1 (append_uint32 e (index % 2 ^ 32)) ∷ []

unfoldable pub protocol_match : ℕ → List Expr
protocol_match protocol = meta l4proto 1 ∷ cmp_eq 1 (protocol ∷ []) ∷ []

abbrev pub family_match : ℕ → List Expr
family_match family = meta nfproto 1 ∷ cmp_eq 1 (family ∷ []) ∷ []

abbrev pub port_match : ℕ → List Expr
port_match port = payload 1 2 2 ∷ cmp_eq 1 (append_uint16 port) ∷ []

-- What follows the port in register 1, with the chain that the rule belongs to.
unfoldable pub redirect_tcp : Endian → ℕ → Ports → FilterRule
unfolding interface_match protocol_match
redirect_tcp e index l = record {
  chain = prerouting;
  exprs =
      interface_match e index
      ++ (family_match l.family
          ++ (protocol_match ipproto_tcp ++ (immediate 1 (append_uint16 l.tcp) ∷ redir 1 ∷ [])));
}

unfoldable pub redirect_udp : Endian → ℕ → Bool → Ports → FilterRule
unfolding interface_match protocol_match
redirect_udp e index udp l = record {
  chain = udp_prerouting;
  exprs =
      interface_match e index
      ++ (family_match l.family
          ++ (protocol_match ipproto_udp
              ++ ((if not udp then port_match 53 else [])
                  ++ (immediate 1 (append_uint16 l.udp)
                      ∷ tproxy l.family 1
                      ∷ immediate 1 (append_uint32 e routing_mark)
                      ∷ set_meta mark 1
                      ∷ rule_verdict accept
                      ∷ []))));
}

-- The loops over the listeners and the two transports of each.
unfoldable pub redirects : Endian → ℕ → Bool → List Ports → List FilterRule
unfolding redirect_tcp redirect_udp
redirects e index udp [] = []
redirects e index udp (l ∷ ls) =
    redirect_tcp e index l ∷ redirect_udp e index udp l ∷ redirects e index udp ls

unfoldable pub clear_mark : Endian → ℕ → FilterRule
unfolding interface_match
clear_mark e index = record {
  chain = udp_prerouting;
  exprs = interface_match e index ++ (immediate 1 four_zeros ∷ set_meta mark 1 ∷ []);
}

unfoldable pub accept_marked : Endian → ℕ → FilterRule
unfolding interface_match protocol_match
accept_marked e index = record {
  chain = input;
  exprs =
      interface_match e index
      ++ (protocol_match ipproto_udp
          ++ (meta mark 1 ∷ cmp_eq 1 (append_uint32 e routing_mark) ∷ rule_verdict accept ∷ []));
}

unfoldable pub accept_protocol : Endian → ℕ → ℕ → FilterRule
unfolding interface_match protocol_match
accept_protocol e index protocol = record {
  chain = input;
  exprs = interface_match e index ++ (protocol_match protocol ++ (rule_verdict accept ∷ []));
}

unfoldable pub accept_redirected : Endian → ℕ → Ports → FilterRule
unfolding interface_match protocol_match
accept_redirected e index l = record {
  chain = input;
  exprs =
      interface_match e index
      ++ (protocol_match ipproto_tcp
          ++ (family_match l.family
              ++ (port_match l.tcp
                  ++ (ct_status 1
                      ∷ bitwise 1 1 4 (append_uint32 e status_destination_nat) four_zeros
                      ∷ cmp_neq 1 four_zeros
                      ∷ rule_verdict accept
                      ∷ []))));
}

unfoldable pub final_verdict : Endian → ℕ → ChainName → Ruling → FilterRule
unfolding interface_match
final_verdict e index chain v = record {
  chain = chain;
  exprs = interface_match e index ++ (rule_verdict v ∷ []);
}

-- The four chains, in the order in which they are added.
abbrev pub chains : List Chain
chains =
    record { name = prerouting; kind = nat; hook = prerouting_hook; priority = nat_dest }
    ∷ record { name = udp_prerouting; kind = filter; hook = prerouting_hook; priority = mangle }
    ∷ record { name = input; kind = filter; hook = input_hook; priority = filtering }
    ∷ record { name = forward; kind = filter; hook = forward_hook; priority = filtering }
    ∷ []

-- The connection after redirectRules.
unfoldable pub redirect_rules : Endian → ℕ → List Ports → Bool → Conn
unfolding redirects clear_mark accept_marked accept_protocol accept_redirected final_verdict
redirect_rules e index listeners udp = record {
  chains = chains;
  rules =
      clear_mark e index
      ∷ (redirects e index udp listeners
          ++ (accept_marked e index
              ∷ accept_protocol e index ipproto_icmp
              ∷ accept_protocol e index ipproto_icmpv6
              ∷ (map (accept_redirected e index) listeners
                  ++ (final_verdict e index input port_unreachable
                      ∷ final_verdict e index forward drop
                      ∷ []))));
}
