-- ===== src/Firewall/Kernel.antt =====
-- Nftables as rules_linux.go of sdk/pkg/netnsproxy relies on it: a parameter with the documented
-- effect of each expression, and the order in which chains and rules run.
use agents_net.Base.{
  ℕ, ◌/◌, ◌%◌, ◌^◌, ◌<◌, ◌≡◌, Bool, true, false, List, [], ◌∷◌, ltb, ◌==◌, if◌then◌else◌,
}
use agents_net.Base.Bytes.{Bytes, bytes_eq}
use agents_net.Firewall.{
  Endian, append_uint32, append_uint16, four_zeros, MetaKey, iif, nfproto, l4proto, mark, Ruling,
  accept, Expr, meta, set_meta, cmp_eq, cmp_neq, payload, ct_status, bitwise, immediate, redir,
  tproxy, rule_verdict, ChainName, prerouting, udp_prerouting, input, forward, Hook,
  prerouting_hook, input_hook, forward_hook, Priority, mangle, nat_dest, filtering, ChainType, nat,
  filter, Chain, FilterRule, Conn,
}

-- What the expressions read of a packet: the index of the interface it came in by, the protocol
-- of its header and of the layer above, its mark, the port it goes to, the status that conntrack
-- keeps of its connection, and whether it is the first one of it.
pub record Frame : Type 0 where
  pub interface : ℕ
  pub family : ℕ
  pub protocol : ℕ
  pub fwmark : ℕ
  pub port : ℕ
  pub status : ℕ
  pub first : Bool

-- The widths of the fields.
pub record IsFrame (f : Frame) : Type 0 where
  pub interface : f.interface < 2 ^ 32
  pub fwmark : f.fwmark < 2 ^ 32
  pub port : f.port < 2 ^ 16

abbrev pub Registers : Type 0
Registers = ℕ → Bytes

abbrev pub store : ℕ → Bytes → Registers → Registers
store r b regs s = if s == r then b else regs s

abbrev pub key : Endian → MetaKey → Frame → Bytes
key e iif f = append_uint32 e f.interface
key e nfproto f = f.family ∷ []
key e l4proto f = f.protocol ∷ []
key e mark f = append_uint32 e f.fwmark

-- The bit of the status that says that the destination was translated.
abbrev pub translated : Frame → Bool
translated f = f.status / 32 % 2 == 1

-- A rule ends with a verdict or lets the packet go on to the next rule.
pub data RuleResult : Type 0 where
  ruled : Ruling → Frame → RuleResult
  passed : Frame → RuleResult

abbrev pub if_passed : RuleResult → (Frame → Ruling × Frame) → Ruling × Frame
if_passed (ruled v f) next = (v, f)
if_passed (passed f) next = next f

abbrev pub if_accepted : Ruling × Frame → (Frame → Ruling × Frame) → Ruling × Frame
if_accepted (accept, f) next = next f
if_accepted (v, f) next = (v, f)

-- `run_rule` runs the expressions of a rule, `walk` the rules of a chain. `translate` is what
-- redir does to a packet, `mapped` what conntrack does to a later packet of a connection, and `listens` says whether a socket takes what is sent to the port.
pub record Nftables (e : Endian) : Type 0 where
  pub run_rule : List Expr → Registers → Frame → RuleResult
  pub walk : List (List Expr) → Frame → Ruling × Frame
  pub fresh : Registers
  pub translate : Bytes → Frame → Frame
  pub mapped : Frame → Frame
  pub listens : ℕ → Bytes → Frame → Bool
  pub at_end : (regs : Registers) (f : Frame) → run_rule [] regs f ≡ passed f
  pub loads :
      (k : MetaKey) (r : ℕ) (l : List Expr) (regs : Registers) (f : Frame)
      → run_rule (meta k r ∷ l) regs f ≡ run_rule l (store r (key e k f) regs) f
  pub equal :
      (r : ℕ) (b : Bytes) (l : List Expr) (regs : Registers) (f : Frame)
      → run_rule (cmp_eq r b ∷ l) regs f
        ≡ (if bytes_eq (regs r) b then run_rule l regs f else passed f)
  pub unequal :
      (r : ℕ) (b : Bytes) (l : List Expr) (regs : Registers) (f : Frame)
      → run_rule (cmp_neq r b ∷ l) regs f
        ≡ (if bytes_eq (regs r) b then passed f else run_rule l regs f)
  pub sets :
      (r : ℕ) (l : List Expr) (regs : Registers) (f : Frame) (n : ℕ)
      → n < 2 ^ 32
      → regs r ≡ append_uint32 e n
      → run_rule (set_meta mark r ∷ l) regs f ≡ run_rule l regs (record f { fwmark = n })
  pub constant :
      (r : ℕ) (b : Bytes) (l : List Expr) (regs : Registers) (f : Frame)
      → run_rule (immediate r b ∷ l) regs f ≡ run_rule l (store r b regs) f
  -- Bytes 2 and 3 of a transport header are the destination port.
  pub reads_port :
      (r : ℕ) (l : List Expr) (regs : Registers) (f : Frame)
      → run_rule (payload r 2 2 ∷ l) regs f ≡ run_rule l (store r (append_uint16 f.port) regs) f
  -- The status of conntrack under the mask of one bit.
  pub reads_status :
      (r : ℕ) (l : List Expr) (regs : Registers) (f : Frame)
      → run_rule (ct_status r ∷ bitwise r r 4 (append_uint32 e 32) four_zeros ∷ l) regs f
        ≡ run_rule l (store r (append_uint32 e (if translated f then 32 else 0)) regs) f
  pub redirects :
      (r : ℕ) (l : List Expr) (regs : Registers) (f : Frame)
      → run_rule (redir r ∷ l) regs f ≡ ruled accept (translate (regs r) f)
  pub finds_socket :
      (family r : ℕ) (l : List Expr) (regs : Registers) (f : Frame)
      → run_rule (tproxy family r ∷ l) regs f
        ≡ (if listens family (regs r) f then run_rule l regs f else passed f)
  pub decides :
      (v : Ruling) (l : List Expr) (regs : Registers) (f : Frame)
      → run_rule (rule_verdict v ∷ l) regs f ≡ ruled v f
  -- The policy of a chain that is added without one is to accept.
  pub chain_end : (f : Frame) → walk [] f ≡ (accept, f)
  pub next_rule :
      (rule : List Expr) (rules : List (List Expr)) (f : Frame)
      → walk (rule ∷ rules) f ≡ if_passed (run_rule rule fresh f) (walk rules)
  pub translates :
      (port : ℕ) (f : Frame)
      → port < 2 ^ 16
      → (translated (translate (append_uint16 port) f) ≡ true)
        × ((translate (append_uint16 port) f).port ≡ port)
        × ((translate (append_uint16 port) f).interface ≡ f.interface)
        × ((translate (append_uint16 port) f).family ≡ f.family)
        × ((translate (append_uint16 port) f).protocol ≡ f.protocol)
        × ((translate (append_uint16 port) f).fwmark ≡ f.fwmark)
  -- A stored translation changes the destination only.
  pub maps :
      (f : Frame)
      → IsFrame f
      → ((mapped f).port < 2 ^ 16)
        × ((mapped f).interface ≡ f.interface)
        × ((mapped f).family ≡ f.family)
        × ((mapped f).protocol ≡ f.protocol)
        × ((mapped f).fwmark ≡ f.fwmark)
        × ((mapped f).status ≡ f.status)

abbrev pub name_eq : ChainName → ChainName → Bool
name_eq prerouting prerouting = true
name_eq udp_prerouting udp_prerouting = true
name_eq input input = true
name_eq forward forward = true
name_eq _ _ = false

abbrev pub hook_eq : Hook → Hook → Bool
hook_eq prerouting_hook prerouting_hook = true
hook_eq input_hook input_hook = true
hook_eq forward_hook forward_hook = true
hook_eq _ _ = false

abbrev pub rank : Priority → ℕ
rank mangle = 0
rank nat_dest = 1
rank filtering = 2

-- The chains of a hook, the lower priority first.
abbrev pub insert_chain : Chain → List Chain → List Chain
insert_chain c [] = c ∷ []
insert_chain c (d ∷ ds) =
    if ltb (rank c.priority) (rank d.priority) then c ∷ d ∷ ds else d ∷ insert_chain c ds

abbrev pub chains_at : Hook → List Chain → List Chain
chains_at h [] = []
chains_at h (c ∷ cs) = if hook_eq c.hook h then insert_chain c (chains_at h cs) else chains_at h cs

abbrev pub rules_of : ChainName → List FilterRule → List (List Expr)
rules_of name [] = []
rules_of name (r ∷ rs) =
    if name_eq r.chain name then r.exprs ∷ rules_of name rs else rules_of name rs

abbrev pub is_nat : ChainType → Bool
is_nat nat = true
is_nat filter = false

-- A chain of type nat sees the first packet of a connection only; the later ones get the
-- translation that conntrack keeps.
unfoldable pub run_chain :
    {e : Endian} → Nftables e → List FilterRule → Chain → Frame → Ruling × Frame
run_chain k rules c f =
    if is_nat c.kind
    then if f.first then k.walk (rules_of c.name rules) f else (accept, k.mapped f)
    else k.walk (rules_of c.name rules) f

-- A packet passes a hook when each of its chains accepts it.
unfoldable pub through :
    {e : Endian} → Nftables e → List FilterRule → List Chain → Frame → Ruling × Frame
unfolding run_chain
through k rules [] f = (accept, f)
through k rules (c ∷ cs) f = if_accepted (run_chain k rules c f) (through k rules cs)

-- A packet for this host passes prerouting and input, one for another host prerouting and forward.
unfoldable pub delivers : {e : Endian} → Nftables e → Conn → Frame → Ruling × Frame
unfolding through
delivers k conn f =
    if_accepted (through k conn.rules (chains_at prerouting_hook conn.chains) f)
      (through k conn.rules (chains_at input_hook conn.chains))

unfoldable pub forwards : {e : Endian} → Nftables e → Conn → Frame → Ruling × Frame
unfolding through
forwards k conn f =
    if_accepted (through k conn.rules (chains_at prerouting_hook conn.chains) f)
      (through k conn.rules (chains_at forward_hook conn.chains))
