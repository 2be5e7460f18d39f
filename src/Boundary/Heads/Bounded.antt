-- ===== src/Boundary/Heads/Bounded.antt =====
-- boundedReader of sdk/cmd/connect-proxy/main.go over any sequence of reads.
use agents_net.Base.{ap, ◌↔◌, ℕ, zero, suc, ◌+◌, ◌-◌, ◌≤◌, ◌≡◌, refl, arith, Option, none, some}
use agents_net.Boundary.Heads.{max_head_bytes, bounded_length, bounded_rest}

-- Reads that delivered so many bytes in all, from one remaining to another: each inner read gives
-- at most the bytes that it is asked for.
pub data Reads : Option ℕ → ℕ → Option ℕ → Type 0 where
  idle : {remaining : Option ℕ} → Reads remaining 0 remaining
  read :
      {remaining end : Option ℕ} {total : ℕ} (len asked n : ℕ)
      → bounded_length remaining len ≡ some asked
      → n ≤ asked
      → Reads (bounded_rest remaining n) total end
      → Reads remaining (n + total) end

asked_bound :
    (remaining len asked : ℕ)
    → bounded_length (some remaining) len ≡ some asked
    → (asked ≤ remaining) × (asked ≤ len)
unfolding bounded_length
asked_bound zero len asked h = cc
asked_bound (suc n) len asked h = ground (arith, h)

rest_bound :
    {total : ℕ} {start end : Option ℕ} (remaining : ℕ)
    → start ≡ some remaining
    → Reads start total end
    → (left : ℕ) × (end ≡ some left) × (total + left ≡ remaining)
unfolding bounded_rest
rest_bound remaining e idle = (remaining, e, omega arith)
rest_bound {start = start} remaining e (read len asked n h k r) =
    let bound = asked_bound remaining len asked (rw e at h) in
    let (left, at_left, sum) = rest_bound (remaining - n) (ap (λ o. bounded_rest o n) e) r in
    (left, at_left, omega (arith, bound, sum, k))

length_iff : (left len : ℕ) → (bounded_length (some left) len ≡ none) ↔ (left ≡ 0)
unfolding bounded_length
length_iff zero len = (λ h. refl, λ h. refl)
length_iff (suc n) len = (λ h. cc, λ h. cc)

-- While a head is read, what the connection delivered and what remains make up 64 KiB, and the
-- next read is the error of a head that is too large exactly when all of it was delivered.
pub Reads-max_head_bytes :
    (total len : ℕ) (end : Option ℕ)
    → Reads (some max_head_bytes) total end
    → (left : ℕ) × (end ≡ some left)
      × (total + left ≡ max_head_bytes)
      × ((bounded_length end len ≡ none) ↔ (total ≡ max_head_bytes))
Reads-max_head_bytes total len end r =
    let (left, at_left, sum) = rest_bound max_head_bytes refl r in
    let (to, back) = length_iff left len in
    (
      left,
      at_left,
      sum,
      (
        λ h. omega (arith, sum, to (rw at_left at h)),
        λ full. rw at_left (back (omega (arith, sum, full))),
      ),
    )
