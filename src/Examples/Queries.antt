-- ===== src/Examples/Queries.antt =====
-- Concrete DNS queries, with messages of a few bytes.
use agents_net.Base.{◌≡◌, refl, true, [], ◌∷◌}
use agents_net.Base.Bytes.{Bytes, codes}
use agents_net.Base.Int.{ℤ}
use agents_net.Base.Result.{ok}
use agents_net.Forwarder.Relay.{serve_dns}
use agents_net.Forwarder.Relay.Resolved.{IsServing, serve_dns-IsServing}
use agents_net.Dns.Invariant.{Owners, IsValid}
use agents_net.Dns.{new_virtual_dns}
use agents_net.Dns.Invariant.{no_owners, new_virtual_dns-IsValid}
use agents_net.Dns.Query.{
  ttl_seconds, inet, a, Question, Messages, look_up, put_answer, reply, handle_query,
}
use agents_net.Dns.Query.Replied.{IsReplied, handle_query-IsReplied}
use agents_net.Examples.Decisions.{plain}
use agents_net.Examples.Resolver.{resolver}

-- A query is the name; its question is of class IN and type A. A reply lists the TTL.
abbrev ask : Bytes → Question (Unit {0})
ask name = record { name = name; class = inet; kind = a; raw = tt }

abbrev messages : Messages (Unit {0}) Bytes (Unit {0}) Bytes
messages = record {
  start = λ query. ok (record { id = 7; op_code = 0; recursion_desired = true }, query);
  question = λ name. ok (ask name);
  new_builder = λ header. header.id ∷ [];
  start_questions = λ b. ok b;
  put_question = λ q b. ok b;
  start_answers = λ b. ok b;
  a_resource = λ q ttl addr b. ok (ttl ∷ b);
  aaaa_resource = λ q ttl addr b. ok (ttl ∷ b);
  finish = λ b. ok b;
}

-- The part of a second is dropped.
ttl_minute : ttl_seconds (ℤ.pos 60_500_000_000) ≡ 60
unfolding ttl_seconds
ttl_minute = refl

one_answer :
    (handle_query messages plain (ℤ.pos 60_000_000_000) (codes "A.") new_virtual_dns).1
    ≡ ok (60 ∷ 7 ∷ [])
unfolding resolver handle_query reply look_up put_answer ttl_seconds
one_answer = refl

handle_query-IsReplied_example :
    IsReplied messages plain no_owners
      (codes "A.")
      new_virtual_dns
      (handle_query messages plain (ℤ.pos 60_000_000_000) (codes "A.") new_virtual_dns)
handle_query-IsReplied_example =
    handle_query-IsReplied messages plain no_owners (ℤ.pos 60_000_000_000) (codes "A.")
      new_virtual_dns new_virtual_dns-IsValid

-- Two queries, of which the connection takes one response.
serve_dns-IsServing_example :
    IsServing messages plain
      (ℤ.pos 0)
      1
      new_virtual_dns
      (codes "A." ∷ codes "B." ∷ [])
      (serve_dns messages plain (ℤ.pos 0) 1 (codes "A." ∷ codes "B." ∷ []) new_virtual_dns)
    × ((owners : Owners) × IsValid owners
          (serve_dns messages plain (ℤ.pos 0) 1 (codes "A." ∷ codes "B." ∷ []) new_virtual_dns).0)
serve_dns-IsServing_example =
    serve_dns-IsServing messages plain (ℤ.pos 0) 1 (codes "A." ∷ codes "B." ∷ []) no_owners
      new_virtual_dns new_virtual_dns-IsValid
