-- ===== src/MemoryPool/FreeList.antt =====
-- The free list of the pool: what the constructor builds, and what `allocate` and `deallocate` make of
-- it. The pool with its free slots is a stack of slot numbers.
use hft_order_book_simulator.Common.{
  ℕ, zero, suc, ◌+◌, ◌%◌, ◌^◌, ◌<◌, ◌≡◌, refl, subst, Option, none, some, List, [], ◌∷◌, arith,
  ◌==◌, ◌∉◌, Distinct, false, length, All, ap,
}
use hft_order_book_simulator.MemoryPool.{
  MemoryPool, update, link_slots, construct, allocate, place, deallocate, pop_free_slot,
  push_free_slot,
}

-- From `head` the links lead through the slots `xs` to nullptr.
abbrev pub Chain : (ℕ → Option ℕ) → Option ℕ → List ℕ → Type 0
Chain next head [] = head ≡ none
Chain next head (x ∷ xs) = (head ≡ some x) × Chain next (next x) xs

-- The free slots of the pool are `free`, the next one to hand out first.
pub record IsFree {ℓ} {T : Type ℓ} (p : MemoryPool T) (free : List ℕ) : Type 0 where
  pub chain : Chain p.next p.free_head free
  pub distinct : Distinct free
  pub in_range : All (λ i. i < p.capacity) free
  pub counted : length free + p.allocated ≡ p.capacity
  pub small : p.capacity < 2 ^ 64

pub Chain-update :
    (next : ℕ → Option ℕ) (head : Option ℕ) (xs : List ℕ) (i : ℕ) (v : Option ℕ)
    → i ∉ xs
    → Chain next head xs
    → Chain (update next i v) head xs
Chain-update next head [] i v out c = c
Chain-update next head (x ∷ xs) i v out c =
    let e : (i == x) ≡ false = ground arith in
    (c.0, rw e (Chain-update next (next x) xs i v (ground arith) c.1))

-- The numbers from `i` on, `n` of them.
abbrev pub from : ℕ → ℕ → List ℕ
from i zero = []
from i (suc n) = i ∷ from (suc i) n

not-mem-from : (a i n : ℕ) → a < i → a ∉ from i n
not-mem-from a i zero h = refl
not-mem-from a i (suc n) h = ground (arith, not-mem-from a (suc i) n)

from-Distinct : (i n : ℕ) → Distinct (from i n)
from-Distinct i zero = tt
from-Distinct i (suc n) = (not-mem-from i (suc i) n (omega arith), from-Distinct (suc i) n)

from-All : (i n : ℕ) → All (λ a. a < i + n) (from i n)
from-All i zero = tt
from-All i (suc n) =
    (omega arith, subst (λ k. All (λ a. a < k) (from (suc i) n)) (omega arith) (from-All (suc i) n))

pub length-from : (i n : ℕ) → length (from i n) ≡ n
length-from i zero = refl
length-from i (suc n) = ap suc (length-from (suc i) n)

-- The loop leaves the links below its start as they were.
link_slots-below : (n i : ℕ) (next : ℕ → Option ℕ) (j : ℕ) → j < i → link_slots n i next j ≡ next j
unfolding link_slots
link_slots-below zero i next j h = refl
link_slots-below (suc n) i next j h =
    ground (arith, link_slots-below n (suc i) (update next i (some (suc i))) j)

link_slots-Chain :
    (n i k : ℕ) (next : ℕ → Option ℕ)
    → k ≡ i + n
    → Chain (update (link_slots n i next) k none) (some i) (from i (suc n))
unfolding link_slots
link_slots-Chain zero i k next e = ground arith
link_slots-Chain (suc n) i k next e =
    let next' : ℕ → Option ℕ = update next i (some (suc i)) in
    let first : update (link_slots n (suc i) next') k none i ≡ some (suc i) =
      ground (arith, link_slots-below n (suc i) next' i) in
    (refl, rw first (link_slots-Chain n (suc i) k next' (omega arith)))

module _ {ℓ} {T : Type ℓ} where
  -- The constructor leaves every slot free, in the order of the array.
  pub construct-IsFree :
      (capacity : ℕ) (raw : ℕ → T)
      → 0 < capacity
      → capacity < 2 ^ 64
      → IsFree (construct capacity raw) (from 0 capacity)
  unfolding construct
  construct-IsFree zero raw h small = absurd (omega arith)
  construct-IsFree (suc n) raw h small = record {
    chain =
        subst (λ k. Chain (update (link_slots k 0 (λ i. none)) k none) (some 0) (from 0 (suc n)))
          (omega arith) (link_slots-Chain n 0 n (λ i. none) (omega arith));
    distinct = from-Distinct 0 (suc n);
    in_range = subst (λ k. All (λ a. a < k) (from 0 (suc n))) (omega arith) (from-All 0 (suc n));
    counted = omega (arith, length-from 0 (suc n));
    small = small;
  }

  pub pop_free_slot-none : (p : MemoryPool T) → p.free_head ≡ none → pop_free_slot p ≡ (none, p)
  unfolding pop_free_slot
  pop_free_slot-none p e = simp (e, pop_free_slot)

  pop_free_slot-some :
      (p : MemoryPool T) (x : ℕ)
      → p.free_head ≡ some x
      → pop_free_slot p ≡ (some x, record p { free_head = p.next x })
  unfolding pop_free_slot
  pop_free_slot-some p x e = simp (e, pop_free_slot)

  -- An exhausted pool returns nullptr and is left as it was.
  pub allocate-exhausted :
      (p : MemoryPool T) (value : T) → IsFree p [] → allocate value p ≡ (none, p)
  unfolding allocate
  allocate-exhausted p value v = ap (place value) (pop_free_slot-none p v.chain)

  -- Otherwise it hands out the first free slot, with the value constructed in it.
  pub allocate-slot :
      (p : MemoryPool T) (value : T) (x : ℕ) (xs : List ℕ)
      → IsFree p (x ∷ xs)
      → allocate value p ≡ (
        some x,
        record p {
          free_head = p.next x;
          allocated = (p.allocated + 1) % 2 ^ 64;
          storage = update p.storage x value;
        },
      )
  unfolding allocate
  allocate-slot p value x xs v = ap (place value) (pop_free_slot-some p x v.chain.0)

  pub allocate-IsFree :
      (p : MemoryPool T) (value : T) (x : ℕ) (xs : List ℕ)
      → IsFree p (x ∷ xs)
      → IsFree (allocate value p).1 xs
  allocate-IsFree p value x xs v = rw (allocate-slot p value x xs v) (record {
    chain = v.chain.1;
    distinct = v.distinct.1;
    in_range = v.in_range.1;
    counted = omega (arith, v.counted, v.small);
    small = v.small;
  })

  -- A slot that comes back is the next one to go out.
  pub deallocate-IsFree :
      (p : MemoryPool T) (i : ℕ) (xs : List ℕ)
      → IsFree p xs
      → i ∉ xs
      → i < p.capacity
      → 0 < p.allocated
      → IsFree (deallocate (some i) p) (i ∷ xs)
  unfolding deallocate push_free_slot
  deallocate-IsFree p i xs v out lt used = record {
    chain = (
      refl,
      (rw (own i p.free_head) (Chain-update p.next p.free_head xs i p.free_head out v.chain)),
    );
    distinct = (out, v.distinct);
    in_range = (lt, v.in_range);
    counted = omega (arith, v.counted, v.small);
    small = v.small;
  }
    where
      own : (j : ℕ) (w : Option ℕ) → update p.next j w j ≡ w
      own j w = ground arith
