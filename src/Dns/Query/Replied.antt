-- ===== src/Dns/Query/Replied.antt =====
-- HandleQuery of sdk/pkg/tun2connect/dns.go: which address a reply carries, and its TTL.
use agents_net.Base.{
  ℕ, ◌≤◌, ◌≡◌, ◌⊎◌, inl, inr, refl, ap, arith, Bool, true, false, Option, none, some,
}
use agents_net.Base.Bytes.{Bytes}
use agents_net.Base.Int.{ℤ}
use agents_net.Base.Result.{Result, ok, err, Result-cases}
use agents_net.Base.Unicode.{Unicode}
use agents_net.Netip.{Addr}
use agents_net.Dns.{VirtualDns, DnsError, canonical, resolve}
use agents_net.Dns.Invariant.{Owners, IsValid}
use agents_net.Dns.Refine.{Answers, resolve-Refines}
use agents_net.Dns.Query.{
  ttl_seconds, Class, inet, other_class, Kind, a, aaaa, other_kind, Question, Header, Messages,
  ReplyHeader, is_a, found_or_failed, look_up, put_answer, reply, handle_query,
}

-- The family that a question asks for, if it asks for an address.
abbrev pub asked_family : Class → Kind → Option Bool
asked_family inet a = some false
asked_family inet aaaa = some true
asked_family inet other_kind = none
asked_family other_class kind = none

-- What a lookup may find under a table of owners, and the table behind it.
pub data IsLookup (u : Unicode) (owners : Owners) (class : Class) (kind : Kind) (name : Bytes)
    : Option Addr → Bool → Owners → Type 0 where
  silent : asked_family class kind ≡ none → IsLookup u owners class kind name none false owners
  found :
      (six : Bool) (addr : Addr) (owners' : Owners)
      → asked_family class kind ≡ some six
      → Answers owners six (canonical u name) (ok addr) owners'
      → IsLookup u owners class kind name (some addr) false owners'
  failed :
      (six : Bool) (e : DnsError) (owners' : Owners)
      → asked_family class kind ≡ some six
      → Answers owners six (canonical u name) (err e) owners'
      → IsLookup u owners class kind name none true owners'

-- A lookup that leaves a valid state.
abbrev pub LooksUp :
    Unicode → Owners → Class → Kind → Bytes → VirtualDns × Option Addr × Bool → Type 0
LooksUp u owners class kind name (d, answer, erred) =
    (owners' : Owners) × IsLookup u owners class kind name answer erred owners' × IsValid owners' d

found_or_failed-LooksUp :
    (u : Unicode) (owners owners' : Owners) (class : Class) (kind : Kind) (name : Bytes)
    (six : Bool) (d : VirtualDns) (r : Result DnsError Addr)
    → asked_family class kind ≡ some six
    → Answers owners six (canonical u name) r owners'
    → IsValid owners' d
    → LooksUp u owners class kind name (found_or_failed (d, r))
found_or_failed-LooksUp u owners owners' class kind name six d (ok addr) asked answers v =
    (owners', found six addr owners' asked answers, v)
found_or_failed-LooksUp u owners owners' class kind name six d (err e) asked answers v =
    (owners', failed six e owners' asked answers, v)

look_up-LooksUp :
    (u : Unicode) (owners : Owners) (class : Class) (kind : Kind) (name : Bytes) (d : VirtualDns)
    → IsValid owners d
    → LooksUp u owners class kind name (look_up u class kind name d)
unfolding look_up
look_up-LooksUp u owners inet a name d v =
    let (owners', answers, v') = resolve-Refines u owners false name d v in
    found_or_failed-LooksUp u owners owners' inet a name false (resolve u false name d).0
      (resolve u false name d).1 refl answers v'
look_up-LooksUp u owners inet aaaa name d v =
    let (owners', answers, v') = resolve-Refines u owners true name d v in
    found_or_failed-LooksUp u owners owners' inet aaaa name true (resolve u true name d).0
      (resolve u true name d).1 refl answers v'
look_up-LooksUp u owners inet other_kind name d v = (owners, silent refl, v)
look_up-LooksUp u owners other_class kind name d v = (owners, silent refl, v)

ttl_seconds-le : (ttl : ℤ) → ttl_seconds ttl ≤ 2147483647
unfolding ttl_seconds
ttl_seconds-le (ℤ.pos n) = ground arith
ttl_seconds-le (ℤ.negsuc n) = omega arith

-- A lookup that finds an address was for a question of type A or AAAA.
asked_kind :
    (class : Class) (kind : Kind) (six : Bool)
    → asked_family class kind ≡ some six
    → (kind ≡ a) ⊎ (kind ≡ aaaa)
asked_kind inet a six h = inl refl
asked_kind inet aaaa six h = inr refl
asked_kind inet other_kind six h = absurd (cc)
asked_kind other_class kind six h = absurd (cc)

kind_found :
    (u : Unicode) (owners owners' : Owners) (class : Class) (kind : Kind) (name : Bytes)
    (answer : Option Addr) (erred : Bool)
    → IsLookup u owners class kind name answer erred owners'
    → (addr : Addr) → answer ≡ some addr
    → (kind ≡ a) ⊎ (kind ≡ aaaa)
kind_found u owners owners' class kind name answer erred (found six x o' asked answers) addr at =
    asked_kind class kind six asked
kind_found u owners owners' class kind name answer erred (silent asked) addr at = absurd (cc)
kind_found u owners owners' class kind name answer erred (failed six e o' asked answers) addr at =
    absurd (cc)

module _ {E P Q B : Type 0} (m : Messages E P Q B) (ttl : ℕ) (q : Question Q) where
  -- The answer section: none without an address, and otherwise one record of the question's type
  -- with the TTL and the address, unless the section cannot be started.
  pub data IsAnswered : Option Addr → B → Result E B → Type 0 where
    no_answer : (b : B) → IsAnswered none b (ok b)
    no_section :
        (addr : Addr) (b : B) (e : E) → m.start_answers b ≡ err e → IsAnswered (some addr) b (err e)
    with_a :
        (addr : Addr) (b b' : B)
        → q.kind ≡ a
        → m.start_answers b ≡ ok b'
        → IsAnswered (some addr) b (m.a_resource q ttl addr b')
    with_aaaa :
        (addr : Addr) (b b' : B)
        → q.kind ≡ aaaa
        → m.start_answers b ≡ ok b'
        → IsAnswered (some addr) b (m.aaaa_resource q ttl addr b')

  put_answer-IsAnswered :
      (answer : Option Addr) (b : B)
      → ((addr : Addr) → answer ≡ some addr → (q.kind ≡ a) ⊎ (q.kind ≡ aaaa))
      → IsAnswered answer b (put_answer m ttl q answer b)
  unfolding put_answer
  put_answer-IsAnswered none b of_kind = no_answer b
  put_answer-IsAnswered (some addr) b of_kind = elim (Result-cases (m.start_answers b)) [
    | inr (e, h) ↦ rw (h, put_answer) (no_section addr b e h)
    | inl (b', h) ↦ elim (of_kind addr refl) [
      | inl k ↦
          let is : is_a q.kind ≡ true = ap is_a k in rw (h, put_answer, is) (with_a addr b b' k h)
      | inr k ↦
          let is : is_a q.kind ≡ false = ap is_a k in
          rw (h, put_answer, is) (with_aaaa addr b b' k h)
    ]
  ]

  -- What is sent back: the header of the query with the failure, its question, and the answer
  -- section, or the error of the step of the builder that failed.
  pub data IsBuilt (h : ReplyHeader) (answer : Option Addr) : Result E Bytes → Type 0 where
    unstarted : (e : E) → m.start_questions (m.new_builder h) ≡ err e → IsBuilt h answer (err e)
    unasked :
        (b : B) (e : E)
        → m.start_questions (m.new_builder h) ≡ ok b
        → m.put_question q b ≡ err e
        → IsBuilt h answer (err e)
    unanswered :
        (b b' : B) (e : E)
        → m.start_questions (m.new_builder h) ≡ ok b
        → m.put_question q b ≡ ok b'
        → IsAnswered answer b' (err e)
        → IsBuilt h answer (err e)
    built :
        (b b' b'' : B)
        → m.start_questions (m.new_builder h) ≡ ok b
        → m.put_question q b ≡ ok b'
        → IsAnswered answer b' (ok b'')
        → IsBuilt h answer (m.finish b'')

  abbrev pub header_of : Header → Bool → ReplyHeader
  header_of hdr erred = record {
    id = hdr.id;
    op_code = hdr.op_code;
    recursion_desired = hdr.recursion_desired;
    server_failure = erred;
  }

  reply-IsBuilt :
      (hdr : Header) (answer : Option Addr) (erred : Bool)
      → ((addr : Addr) → answer ≡ some addr → (q.kind ≡ a) ⊎ (q.kind ≡ aaaa))
      → IsBuilt (header_of hdr erred) answer (reply m ttl hdr q answer erred)
  unfolding reply
  reply-IsBuilt hdr answer erred of_kind =
      elim (Result-cases (m.start_questions (m.new_builder (header_of hdr erred)))) [
        | inr (e, h) ↦ rw (h, reply) (unstarted e h)
        | inl (b, h) ↦ elim (Result-cases (m.put_question q b)) [
          | inr (e, k) ↦ rw (h, reply, k) (unasked b e h k)
          | inl (b', k) ↦
              let is = put_answer-IsAnswered answer b' of_kind in
              elim (Result-cases (put_answer m ttl q answer b')) [
                | inr (e, l) ↦ rw (h, reply, k, l) (unanswered b b' e h k (rw l at is))
                | inl (b'', l) ↦ rw (h, reply, k, l) (built b b' b'' h k (rw l at is))
              ]
        ]
      ]

-- The query or its question cannot be parsed.
abbrev pub IsUnparsed : {E P Q B : Type 0} → Messages E P Q B → Bytes → E → Type 0
IsUnparsed {P = P} m query e =
    (m.start query ≡ err e)
    ⊎ ((hdr : Header) × (p : P) × (m.start query ≡ ok (hdr, p)) × (m.question p ≡ err e))

-- What HandleQuery may answer: an error of the parser, with the state as it was, or the reply to a
-- question, with the answer of the lookup, if there is one, and a TTL of at most 2^31-1 seconds.
pub data IsReplied {E P Q B : Type 0} (m : Messages E P Q B) (u : Unicode) (owners : Owners)
    (query : Bytes) (d : VirtualDns) : VirtualDns × Result E Bytes → Type 0 where
  unparsed : (e : E) → IsUnparsed m query e → IsReplied m u owners query d (d, err e)
  replied :
      (hdr : Header) (p : P) (q : Question Q) (ttl : ℕ) (answer : Option Addr) (erred : Bool)
      (owners' : Owners) (d' : VirtualDns) (r : Result E Bytes)
      → m.start query ≡ ok (hdr, p)
      → m.question p ≡ ok q
      → ttl ≤ 2147483647
      → IsLookup u owners q.class q.kind q.name answer erred owners'
      → IsValid owners' d'
      → IsBuilt m ttl q (header_of m ttl q hdr erred) answer r
      → IsReplied m u owners query d (d', r)

-- In a valid state, HandleQuery replies to a question of class IN and type A or AAAA with an
-- address of that family that the table of owners gives to the canonical name, or with a server
-- failure; to any other question without an answer; always with a TTL within 2^31-1 seconds, and
-- the state behind it is valid. A query that does not parse is an error and changes nothing.
pub handle_query-IsReplied :
    {E P Q B : Type 0} (m : Messages E P Q B) (u : Unicode) (owners : Owners) (ttl : ℤ)
    (query : Bytes) (d : VirtualDns)
    → IsValid owners d
    → IsReplied m u owners query d (handle_query m u ttl query d)
unfolding handle_query
handle_query-IsReplied m u owners ttl query d v = elim (Result-cases (m.start query)) [
  | inr (e, h) ↦ rw (h, handle_query) (unparsed e (inl h))
  | inl ((hdr, p), h) ↦ elim (Result-cases (m.question p)) [
    | inr (e, k) ↦ rw (h, k, handle_query) (unparsed e (inr (hdr, p, h, k)))
    | inl (q, k) ↦
        let (owners', lookup, v') = look_up-LooksUp u owners q.class q.kind q.name d v in
        rw (h, k, handle_query)
          (replied hdr p q (ttl_seconds ttl) (look_up u q.class q.kind q.name d).1
            (look_up u q.class q.kind q.name d).2 owners' (look_up u q.class q.kind q.name d).0 _ h
            k (ttl_seconds-le ttl) lookup v'
            (reply-IsBuilt m (ttl_seconds ttl) q hdr (look_up u q.class q.kind q.name d).1
              (look_up u q.class q.kind q.name d).2
              (kind_found u owners owners' q.class q.kind q.name _ _ lookup)))
  ]
]
