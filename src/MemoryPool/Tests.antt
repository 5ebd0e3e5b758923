-- ===== src/MemoryPool/Tests.antt =====
-- Runs of the pool with two slots.
use hft_order_book_simulator.Common.{ℕ, ◌+◌, ◌<◌, ◌≡◌, ◌↔◌, refl, arith, none, some, [], ◌∷◌, ◌∉◌}
use hft_order_book_simulator.MemoryPool.{
  MemoryPool, construct, allocate, deallocate, in_use, available,
}
use hft_order_book_simulator.MemoryPool.Ownership.{
  Reach, start, allocates, deallocates, allocate-total,
}

abbrev two_slots : MemoryPool ℕ
two_slots = construct 2 (λ i. 0)

abbrev both_taken : MemoryPool ℕ
both_taken = (allocate 6 (allocate 5 two_slots).1).1

exhausted : ((allocate 7 both_taken).0 ≡ none) × (available both_taken ≡ 0)
unfolding allocate construct available
exhausted = (refl, refl)

-- The slot that was freed last is handed out first.
reused : (allocate 7 (deallocate (some 0) both_taken)).0 ≡ some 0
unfolding allocate deallocate construct
reused = refl

one_held : Reach 2 (λ i. 0) (deallocate (some 0) both_taken) (1 ∷ [])
unfolding allocate construct
one_held = deallocates 0 refl (allocates 6 (allocates 5 start))

allocate-total_example :
    let p = deallocate (some 0) both_taken in
    (in_use p ≡ 1)
    × (available p + 1 ≡ 2)
    × ((1 < 2) ↔ ((i : ℕ) × ((allocate 7 p).0 ≡ some i) × (i ∉ 1 ∷ []) × (i < 2)))
allocate-total_example = allocate-total 2 7 (omega arith) (omega arith) one_held
