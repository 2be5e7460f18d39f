-- ===== src/Dns/Query.antt =====
-- HandleQuery and ttlSeconds of sdk/pkg/tun2connect/dns.go. Package dnsmessage, which parses the
-- query and builds the reply, is a parameter.
pub mod Replied
use agents_net.Base.{
  ℕ, zero, suc, ◌/◌, ◌-◌, ◌^◌, Bool, true, false, Option, none, some, ltb, ◌==◌, if◌then◌else◌,
}
use agents_net.Base.Bytes.{Bytes}
use agents_net.Base.Int.{ℤ}
use agents_net.Base.Result.{Result, ok, err, ◌>>=◌}
use agents_net.Base.Unicode.{Unicode}
use agents_net.Netip.{Addr}
use agents_net.Dns.{VirtualDns, DnsError, resolve}

-- A quotient that is not negative, within 2^31-1; Go truncates the division towards zero.
unfoldable pub ttl_seconds : ℤ → ℕ
ttl_seconds (ℤ.pos n) = if ltb 2147483647 (n / 1_000_000_000) then 2147483647 else n / 1_000_000_000
ttl_seconds (ℤ.negsuc n) = 0

-- The classes and types that the code tells apart.
pub data Class : Type 0 where
  inet other_class : Class

pub data Kind : Type 0 where
  a aaaa other_kind : Kind

-- A question of package dnsmessage has its name as text; `raw` is the rest of what is sent back.
pub record Question (Q : Type 0) : Type 0 where
  pub name : Bytes
  pub class : Class
  pub kind : Kind
  pub raw : Q

pub record Header : Type 0 where
  pub id : ℕ
  pub op_code : ℕ
  pub recursion_desired : Bool

-- The header of a reply; the fields that are always true are left out.
pub record ReplyHeader : Type 0 where
  pub id : ℕ
  pub op_code : ℕ
  pub recursion_desired : Bool
  pub server_failure : Bool

-- Parser.Start and Question, NewBuilder, StartQuestions, Question, StartAnswers, AResource or
-- AAAAResource with the TTL, and Finish, on a builder of type B.
pub record Messages (E P Q B : Type 0) : Type 0 where
  pub start : Bytes → Result E (Header × P)
  pub question : P → Result E (Question Q)
  pub new_builder : ReplyHeader → B
  pub start_questions : B → Result E B
  pub put_question : Question Q → B → Result E B
  pub start_answers : B → Result E B
  pub a_resource : Question Q → ℕ → Addr → B → Result E B
  pub aaaa_resource : Question Q → ℕ → Addr → B → Result E B
  pub finish : B → Result E Bytes

-- The lookup for a question: the address of an answer, and whether the lookup failed.
abbrev pub found_or_failed : VirtualDns × Result DnsError Addr → VirtualDns × Option Addr × Bool
found_or_failed (d, ok addr) = (d, some addr, false)
found_or_failed (d, err e) = (d, none, true)

unfoldable pub look_up :
    Unicode → Class → Kind → Bytes → VirtualDns → VirtualDns × Option Addr × Bool
look_up u inet a name d = found_or_failed (resolve u false name d)
look_up u inet aaaa name d = found_or_failed (resolve u true name d)
look_up u inet other_kind name d = (d, none, false)
look_up u other_class kind name d = (d, none, false)

abbrev pub is_a : Kind → Bool
is_a a = true
is_a aaaa = false
is_a other_kind = false

-- The answer section.
unfoldable pub put_answer :
    {E P Q B : Type 0} → Messages E P Q B → ℕ → Question Q → Option Addr → B → Result E B
put_answer m ttl q none b = ok b
put_answer m ttl q (some addr) b = m.start_answers b >>= λ b'.
    if is_a q.kind then m.a_resource q ttl addr b' else m.aaaa_resource q ttl addr b'

-- The reply to a question.
unfoldable pub reply :
    {E P Q B : Type 0}
    → Messages E P Q B
    → ℕ
    → Header
    → Question Q
    → Option Addr
    → Bool
    → Result E Bytes
unfolding put_answer
reply m ttl hdr q answer failed =
    let b = m.new_builder (record {
      id = hdr.id;
      op_code = hdr.op_code;
      recursion_desired = hdr.recursion_desired;
      server_failure = failed;
    }) in
    m.start_questions b >>= m.put_question q >>= put_answer m ttl q answer >>= m.finish

unfoldable pub handle_query :
    {E P Q B : Type 0}
    → Messages E P Q B
    → Unicode
    → ℤ
    → Bytes
    → VirtualDns
    → VirtualDns × Result E Bytes
unfolding reply look_up ttl_seconds
handle_query m u ttl query d = elim (m.start query) [
  | err e ↦ (d, err e)
  | ok (hdr, p) ↦ elim (m.question p) [
    | err e ↦ (d, err e)
    | ok q ↦
        let (d', answer, failed) = look_up u q.class q.kind q.name d in
        (d', reply m (ttl_seconds ttl) hdr q answer failed)
  ]
]
