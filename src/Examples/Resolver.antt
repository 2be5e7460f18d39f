-- ===== src/Examples/Resolver.antt =====
-- Concrete runs of the resolver.
use agents_net.Base.{◌≡◌, refl, inl, inr, true, false, List, [], ◌∷◌, All}
use agents_net.Base.Bytes.{codes, bytes_eq, trim_suffix}
use agents_net.Base.Unicode.{to_lower}
use agents_net.Netip.{Addr, v4, v6, next, contains, addr_eq, unmap}
use agents_net.Dns.{
  new_virtual_dns, canonical, remove_addr, move_to_front, back, evict, bind_name, resolve_canonical,
  resolve, reverse_lookup,
}
use agents_net.Dns.Invariant.{Owners}
use agents_net.Dns.Runs.{
  Call, query, dial, Confirms, run, handed_out, run-Confirms, run_never_reuses,
}
use agents_net.Examples.Decisions.{plain}

unfoldable pub resolver : Unit {0}
unfolding to_lower bytes_eq trim_suffix new_virtual_dns canonical remove_addr move_to_front back
    evict bind_name resolve_canonical resolve reverse_lookup run handed_out next contains addr_eq
    unmap
resolver = tt

abbrev calls : List Call
calls =
    query false (codes "A.")
    ∷ dial (v4 0x6440_0001)
    ∷ query true (codes "b")
    ∷ query false (codes "a")
    ∷ []

-- The second address of the pool for "a", whatever its case.
abbrev pub first_address : Addr
first_address = v4 0x6440_0001

calls_answers :
    handed_out plain (run plain calls new_virtual_dns).1
    ≡ (codes "a", first_address)
      ∷ (codes "b", v6 0x100_0000_0000_0000_0000_0000_0000_0001 [])
      ∷ (codes "a", first_address)
      ∷ []
unfolding resolver
calls_answers = refl

run-Confirms_example :
    (owners : Owners) × All (Confirms plain owners) (run plain calls new_virtual_dns).1
run-Confirms_example = run-Confirms plain calls

run_never_reuses_example : codes "a" ≡ codes "a"
unfolding resolver
run_never_reuses_example =
    run_never_reuses plain calls (codes "a") (codes "a") first_address (inl (refl, refl))
      (inr (inr (inl (refl, refl))))
