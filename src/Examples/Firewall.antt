-- ===== src/Examples/Firewall.antt =====
-- A kernel that runs the rules of a proxy on one interface, and packets for it.
use agents_net.Base.{
  ℕ, ◌+◌, ◌*◌, ◌^◌, ◌<◌, ◌≡◌, refl, true, false, List, [], ◌∷◌, if◌then◌else◌, arith, All, inl, inr,
  Bool-cases,
}
use agents_net.Base.Bytes.{Bytes, bytes_eq}
use agents_net.Firewall.{
  little, append_uint32, append_uint16, mark, Ruling, accept, Expr, meta, set_meta, cmp_eq, cmp_neq,
  payload, ct_status, bitwise, immediate, redir, tproxy, rule_verdict, Ports, port_unreachable,
  redirect_rules,
}
use agents_net.Firewall.Kernel.{
  Frame, IsFrame, Registers, store, key, translated, RuleResult, ruled, passed, if_passed, Nftables,
  delivers,
}
use agents_net.Firewall.Delivered.{delivers-admitted}

-- The number of four little-endian bytes, and of two in the order of the network.
abbrev pub number : Bytes → ℕ
number (a ∷ b ∷ c ∷ d ∷ []) = a + 256 * b + 65536 * c + 16777216 * d
number (a ∷ b ∷ []) = 256 * a + b
number _ = 0

abbrev pub translate : Bytes → Frame → Frame
translate b f = record f { port = number b; status = 32 }

-- A connection that was translated goes to one port.
abbrev pub mapped : Frame → Frame
mapped f = record f { port = if translated f then 40003 else f.port }

pub mapped-port : (f : Frame) → IsFrame f → (mapped f).port < 2 ^ 16
mapped-port f fits = elim (Bool-cases (translated f)) [
  | inl e ↦ rw e (omega arith)
  | inr e ↦ rw e fits.port
]

unfoldable pub run_rule : List Expr → Registers → Frame → RuleResult
unfolding bytes_eq append_uint32
run_rule [] regs f = passed f
run_rule (meta k r ∷ l) regs f = run_rule l (store r (key little k f) regs) f
run_rule (set_meta k r ∷ l) regs f = run_rule l regs (record f { fwmark = number (regs r) })
run_rule (cmp_eq r b ∷ l) regs f =
    let rest = run_rule l regs f in if bytes_eq (regs r) b then rest else passed f
run_rule (cmp_neq r b ∷ l) regs f =
    let rest = run_rule l regs f in if bytes_eq (regs r) b then passed f else rest
run_rule (payload r offset len ∷ l) regs f = run_rule l (store r (append_uint16 f.port) regs) f
run_rule (ct_status r ∷ l) regs f =
    run_rule l (store r (append_uint32 little (if translated f then 32 else 0)) regs) f
-- What ct_status stores is under the mask already.
run_rule (bitwise s d len m x ∷ l) regs f = run_rule l regs f
run_rule (immediate r b ∷ l) regs f = run_rule l (store r b regs) f
run_rule (redir r ∷ l) regs f = ruled accept (translate (regs r) f)
run_rule (tproxy family r ∷ l) regs f = run_rule l regs f
run_rule (rule_verdict v ∷ l) regs f = ruled v f

unfoldable pub walk : List (List Expr) → Frame → Ruling × Frame
unfolding run_rule
walk [] f = (accept, f)
walk (rule ∷ rules) f = if_passed (run_rule rule (λ r. []) f) (walk rules)

number-append_uint32 : (n : ℕ) → n < 2 ^ 32 → number (append_uint32 little n) ≡ n
unfolding append_uint32
number-append_uint32 n below = omega arith

pub sets_mark :
    (r : ℕ) (l : List Expr) (regs : Registers) (f : Frame) (n : ℕ)
    → n < 2 ^ 32
    → regs r ≡ append_uint32 little n
    → run_rule (set_meta mark r ∷ l) regs f ≡ run_rule l regs (record f { fwmark = n })
unfolding run_rule
sets_mark r l regs f n below h = rw (h, number-append_uint32 n below) refl

abbrev pub kernel : Nftables little
unfolding run_rule walk
kernel = record {
  run_rule = run_rule;
  walk = walk;
  fresh = λ r. [];
  translate = translate;
  mapped = mapped;
  listens = λ family port f. true;
  at_end = λ regs f. refl;
  loads = λ k r l regs f. refl;
  equal = λ r b l regs f. refl;
  unequal = λ r b l regs f. refl;
  sets = sets_mark;
  constant = λ r b l regs f. refl;
  reads_port = λ r l regs f. refl;
  reads_status = λ r l regs f. refl;
  redirects = λ r l regs f. refl;
  finds_socket = λ family r l regs f. refl;
  decides = λ v l regs f. refl;
  chain_end = λ f. refl;
  next_rule = λ rule rules f. refl;
  translates = λ port f below. (refl, omega (arith, below), refl, refl, refl, refl);
  maps = λ f fits. (mapped-port f fits, refl, refl, refl, refl, refl);
}

abbrev listeners : List Ports
listeners =
    record { family = 2; tcp = 40001; udp = 40002 }
    ∷ record { family = 10; tcp = 40003; udp = 40004 }
    ∷ []

-- A datagram to a resolver, one to another port with a forged mark, and a connection.
abbrev query : Frame
query = record {
  interface = 7;
  family = 2;
  protocol = 17;
  fwmark = 0;
  port = 53;
  status = 0;
  first = true;
}

abbrev pub forged : Frame
forged = record {
  interface = 7;
  family = 2;
  protocol = 17;
  fwmark = 0x616e;
  port = 40002;
  status = 0;
  first = true;
}

abbrev connection : Frame
connection = record {
  interface = 7;
  family = 10;
  protocol = 6;
  fwmark = 0;
  port = 443;
  status = 0;
  first = true;
}

small_ports : All (λ l. l.tcp < 2 ^ 16) listeners
small_ports = (omega arith, (omega arith, tt))

pub forged-IsFrame : IsFrame forged
forged-IsFrame = record { interface = omega arith; fwmark = omega arith; port = omega arith }

-- The mark does not open the way in.
delivers-admitted_example :
    (delivers kernel (redirect_rules little 7 listeners false) forged).0 ≡ port_unreachable
delivers-admitted_example =
    delivers-admitted kernel 7 false listeners forged forged-IsFrame refl small_ports

queries : (delivers kernel (redirect_rules little 7 listeners false) query).0 ≡ accept
unfolding delivers walk redirect_rules
queries = refl

connection_delivered :
    delivers kernel (redirect_rules little 7 listeners false) connection
    ≡ (accept, record connection { port = 40003; status = 32 })
unfolding delivers walk redirect_rules
connection_delivered = refl

-- Of its later packets, those that were not translated are not let in, whatever their port.
later_delivered :
    ((delivers kernel
        (redirect_rules little 7 listeners false)
        (record connection { first = false; status = 32 })).0
      ≡ accept)
    × ((delivers kernel
          (redirect_rules little 7 listeners false)
          (record connection { first = false; port = 40003 })).0
        ≡ port_unreachable)
unfolding delivers walk redirect_rules
later_delivered = (refl, refl)
