-- ===== src/Driver/PoolCycle.antt =====
-- main.cpp, `test_memory_pool`: its assertions hold.
use hft_order_book_simulator.Common.{
  ℕ, suc, ◌+◌, ◌^◌, ◌≤◌, ◌<◌, ◌≡◌, refl, sym, ap, ◌∙◌, subst, true, false, Option, none, some, List,
  [], ◌∷◌, ◌==◌, length, arith, ◌∈◌, ◌∉◌, Distinct, All,
}
use hft_order_book_simulator.Common.Int.{pos}
use hft_order_book_simulator.Common.Words.{sub64}
use hft_order_book_simulator.Types.{Order, Ptr, default_order}
use hft_order_book_simulator.MemoryPool
use hft_order_book_simulator.MemoryPool.{MemoryPool}
use hft_order_book_simulator.MemoryPool.FreeList.{
  IsFree, from, length-from, construct-IsFree, allocate-slot, allocate-IsFree, allocate-exhausted,
  deallocate-IsFree,
}
use hft_order_book_simulator.PriceLevel.{modify}
use hft_order_book_simulator.PriceLevel.Queue.{ne_of_not_mem}
use hft_order_book_simulator.Driver.{allocation_burst, deallocation_burst, test_memory_pool}

-- What is stored in the slots does not matter to the free list.
storage-IsFree :
    (p : MemoryPool Order) (free : List ℕ) (h : ℕ → Order)
    → IsFree p free
    → IsFree (record p { storage = h }) free
storage-IsFree p free h v = record {
  chain = v.chain;
  distinct = v.distinct;
  in_range = v.in_range;
  counted = v.counted;
  small = v.small;
}

-- The allocation burst takes all the slots, in the order of the free list.
burst_all :
    (i : ℕ) (p : MemoryPool Order) (free : List ℕ)
    → IsFree p free
    → (q : MemoryPool Order) × (allocation_burst (length free) i p ≡ some (free, q))
      × IsFree q []
      × (q.capacity ≡ p.capacity)
unfolding allocation_burst
burst_all i p [] v = (p, refl, v, refl)
burst_all i p (x ∷ xs) v =
    let slot = allocate-slot p default_order x xs v in
    let p₁ = (MemoryPool.allocate default_order p).1 in
    let fields = λ (o : Order). record o { id = i + 1; price = pos (10000 + i); quantity = 100 } in
    let p₂ = record p₁ { storage = modify p₁.storage x fields } in
    let v₂ =
      storage-IsFree p₁ xs (modify p₁.storage x fields) (allocate-IsFree p default_order x xs v) in
    let rest = burst_all (suc i) p₂ xs v₂ in
    (
      rest.0,
      rw (allocation_burst, ap (λ (r : Option Ptr × MemoryPool Order). r.0) slot, rest.1) refl,
      rest.2,
      rest.3 ∙ ap (λ (r : Option Ptr × MemoryPool Order). r.1.capacity) slot,
    )

deallocate-capacity :
    (i : ℕ) (p : MemoryPool Order) → (MemoryPool.deallocate (some i) p).capacity ≡ p.capacity
unfolding MemoryPool.deallocate MemoryPool.push_free_slot
deallocate-capacity i p = refl

-- The deallocation burst gives back the slots that it is given.
burst_back :
    (ptrs : List Ptr) (p : MemoryPool Order) (free : List ℕ)
    → IsFree p free
    → Distinct ptrs
    → ((a : Ptr) → a ∈ ptrs → a ∉ free)
    → All (λ a. a < p.capacity) ptrs
    → length ptrs ≤ p.allocated
    → (free' : List ℕ) × IsFree (deallocation_burst ptrs p) free'
      × (length free' ≡ length ptrs + length free)
      × ((deallocation_burst ptrs p).capacity ≡ p.capacity)
unfolding deallocation_burst
burst_back [] p free v d out lt le = (free, v, omega arith, refl)
burst_back (x ∷ xs) p free v d out lt le =
    let p₁ = MemoryPool.deallocate (some x) p in
    let v₁ = deallocate-IsFree p x free v (out x (ground arith)) lt.0 (omega arith) in
    let same = deallocate-capacity x p in
    let rest =
      burst_back xs p₁ (x ∷ free) v₁ d.1 (λ a m. apart a m)
        (subst (λ c. All (λ a. a < c) xs) (sym same) lt.1)
        (omega (arith, v.counted, v₁.counted, same)) in
    (rest.0, rest.1, omega (arith, rest.2), rest.3 ∙ same)
  where
    apart : (a : Ptr) → a ∈ xs → a ∉ x ∷ free
    apart a m =
        let e : (x == a) ≡ false = ne_of_not_mem x a xs d.0 m in
        let f : a ∉ free = out a (ground (arith, m)) in ground (arith, e, f)

all_free :
    (p : MemoryPool Order) (free : List ℕ)
    → IsFree p free
    → length free ≡ p.capacity
    → MemoryPool.available p ≡ p.capacity
unfolding MemoryPool.available sub64
all_free p free v e = omega (arith, v.counted, v.small, e)

none_free :
    (p : MemoryPool Order) → IsFree p [] → (MemoryPool.available p ≡ 0) × (p.allocated ≡ p.capacity)
unfolding MemoryPool.available sub64
none_free p v = (omega (arith, v.counted, v.small), omega (arith, v.counted))

-- With a pool of any capacity above 0 and below 2 ^ 64, whatever its memory holds at first, every assertion of
-- `test_memory_pool` holds: the burst gets a slot each time, then the pool is exhausted, and after the slots have been
-- given back all are available.
pub test_memory_pool_lem :
    (capacity : ℕ) (raw : ℕ → Order)
    → 0 < capacity
    → capacity < 2 ^ 64
    → test_memory_pool capacity raw ≡ true
unfolding test_memory_pool MemoryPool.construct MemoryPool.in_use
test_memory_pool_lem capacity raw some_slot small =
    let p = MemoryPool.construct capacity raw in
    let v = construct-IsFree capacity raw some_slot small in
    let whole : length (from 0 capacity) ≡ p.capacity = length-from 0 capacity in
    let burst = burst_all 0 p (from 0 capacity) v in
    let q = burst.0 in
    let taken : allocation_burst capacity 0 p ≡ some (from 0 capacity, q) =
      subst (λ n. allocation_burst n 0 p ≡ some (from 0 capacity, q)) whole burst.1 in
    let gone = none_free q burst.2 in
    let back =
      burst_back (from 0 capacity) q [] burst.2 v.distinct (λ a m. refl)
        (subst (λ c. All (λ a. a < c) (from 0 capacity)) (sym burst.3) v.in_range)
        (omega (arith, whole, gone.1, burst.3)) in
    let q' = deallocation_burst (from 0 capacity) q in
    let first : MemoryPool.available p ≡ capacity = all_free p (from 0 capacity) v whole in
    let last : MemoryPool.available q' ≡ capacity =
      all_free q' back.0 back.1 (omega (arith, back.2, back.3, whole, burst.3))
      ∙ back.3
      ∙ burst.3 in
    let refused : (MemoryPool.allocate default_order q).0 ≡ none =
      ap (λ (r : Option Ptr × MemoryPool Order). r.0)
        (allocate-exhausted q default_order burst.2) in
    let self : (capacity == capacity) ≡ true = ground arith in
    rw (test_memory_pool, first, self, taken, gone.0, refused, last, self) refl
