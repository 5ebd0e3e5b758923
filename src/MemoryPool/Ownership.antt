-- ===== src/MemoryPool/Ownership.antt =====
-- memory_pool.hpp: a client's calls on the pool, in any order. The client frees only what it holds, as the
-- comment on `deallocate` asks.
use hft_order_book_simulator.Common.{
  ℕ, suc, ◌+◌, ◌^◌, ◌<◌, ◌≡◌, ◌↔◌, refl, sym, subst, Option, none, some, List, [], ◌∷◌, arith, ◌==◌,
  ◌∈◌, ◌∉◌, Distinct, has, inl, inr, Bool-cases, length, ap, ◌∙◌, if◌then◌else◌,
}
use hft_order_book_simulator.MemoryPool.{
  MemoryPool, construct, allocate, deallocate, push_free_slot, available, in_use,
}
use hft_order_book_simulator.MemoryPool.FreeList.{
  IsFree, from, construct-IsFree, allocate-exhausted, allocate-slot, allocate-IsFree,
  deallocate-IsFree,
}

-- The slots that the client holds after an `allocate`.
abbrev take_in : Option ℕ → List ℕ → List ℕ
take_in none live = live
take_in (some i) live = i ∷ live

-- The slots that it holds after it has freed `i`.
abbrev give_back : ℕ → List ℕ → List ℕ
give_back i [] = []
give_back i (x ∷ xs) = if i == x then xs else x ∷ give_back i xs

pub data Reach {ℓ} {T : Type ℓ} (capacity : ℕ) (raw : ℕ → T) : MemoryPool T → List ℕ → Type ℓ where
  start : Reach capacity raw (construct capacity raw) []
  allocates :
      {p : MemoryPool T} {live : List ℕ} (value : T)
      → Reach capacity raw p live
      → Reach capacity raw (allocate value p).1 (take_in (allocate value p).0 live)
  deallocates :
      {p : MemoryPool T} {live : List ℕ} (i : ℕ)
      → i ∈ live
      → Reach capacity raw p live
      → Reach capacity raw (deallocate (some i) p) (give_back i live)

-- Each slot is either held or free, and none is held twice.
pub record Owns {ℓ} {T : Type ℓ} (capacity : ℕ) (p : MemoryPool T) (live free : List ℕ)
    : Type 0 where
  pub free_list : IsFree p free
  pub capacity_kept : p.capacity ≡ capacity
  pub held : Distinct live
  pub apart : (i : ℕ) → i ∈ live → i ∉ free
  pub held_in_range : (i : ℕ) → i ∈ live → i < p.capacity
  pub used : p.allocated ≡ length live

give_back-mem : (i j : ℕ) (live : List ℕ) → j ∈ give_back i live → j ∈ live
give_back-mem i j [] h = h
give_back-mem i j (x ∷ xs) h = ground (arith, give_back-mem i j xs)

give_back-Distinct : (i : ℕ) (live : List ℕ) → Distinct live → Distinct (give_back i live)
give_back-Distinct i [] d = tt
give_back-Distinct i (x ∷ xs) d = elim (Bool-cases (i == x)) [
  | inl e ↦ rw e d.1
  | inr e ↦ rw e (elim (Bool-cases (has x (give_back i xs))) [
    | inl e' ↦ absurd (ground (arith, give_back-mem i x xs e'))
    | inr e' ↦ (e', give_back-Distinct i xs d.1)
  ])
]

give_back-self : (i : ℕ) (live : List ℕ) → Distinct live → i ∉ give_back i live
give_back-self i [] d = refl
give_back-self i (x ∷ xs) d = ground (arith, give_back-self i xs d.1)

length-give_back :
    (i : ℕ) (live : List ℕ) → i ∈ live → length live ≡ suc (length (give_back i live))
length-give_back i [] h = cc
length-give_back i (x ∷ xs) h = ground (arith, length-give_back i xs)

module _ {ℓ} {T : Type ℓ} where
  capacity-deallocate :
      (p : MemoryPool T) (i : ℕ) {capacity : ℕ}
      → p.capacity ≡ capacity
      → (deallocate (some i) p).capacity ≡ capacity
  unfolding deallocate push_free_slot
  capacity-deallocate p i e = e

  in_range-deallocate :
      (p : MemoryPool T) (i : ℕ) {j : ℕ} → j < p.capacity → j < (deallocate (some i) p).capacity
  unfolding deallocate push_free_slot
  in_range-deallocate p i e = e

  used-deallocate :
      (p : MemoryPool T) (i : ℕ) (rest : List ℕ)
      → p.allocated ≡ suc (length rest)
      → p.allocated < 2 ^ 64
      → (deallocate (some i) p).allocated ≡ length rest
  unfolding deallocate push_free_slot
  used-deallocate p i rest e small = omega arith

  construct-Owns :
      (capacity : ℕ) (raw : ℕ → T)
      → 0 < capacity
      → capacity < 2 ^ 64
      → Owns capacity (construct capacity raw) [] (from 0 capacity)
  unfolding construct
  construct-Owns capacity raw h k = record {
    free_list = construct-IsFree capacity raw h k;
    capacity_kept = refl;
    held = tt;
    apart = λ i m. cc;
    held_in_range = λ i m. absurd (cc m);
    used = refl;
  }

module _ {ℓ} {T : Type ℓ} (capacity : ℕ) where
  Owns-fresh :
      (p : MemoryPool T) (live : List ℕ) (x : ℕ) (xs : List ℕ)
      → Owns capacity p live (x ∷ xs)
      → x ∉ live
  Owns-fresh p live x xs v = elim (Bool-cases (has x live)) [
    | inl h ↦ absurd (ground (arith, v.apart x h))
    | inr h ↦ h
  ]

  allocate-Owns :
      (p : MemoryPool T) (live free : List ℕ) (value : T)
      → Owns capacity p live free
      → (free' : List ℕ) × Owns capacity
          (allocate value p).1
          (take_in (allocate value p).0 live)
          free'
  allocate-Owns p live [] value v = ([], rw (allocate-exhausted p value v.free_list) v)
  allocate-Owns p live (x ∷ xs) value v =
      let e = allocate-slot p value x xs v.free_list in
      (
        xs,
        subst (λ r. Owns capacity r.1 (take_in r.0 live) xs) (sym e)
            (record {
              free_list = subst (λ r. IsFree r.1 xs) e (allocate-IsFree p value x xs v.free_list);
              capacity_kept = v.capacity_kept;
              held = (Owns-fresh p live x xs v, v.held);
              apart = λ i h. ground (arith, v.apart i, v.free_list.distinct.0);
              held_in_range = λ i h. ground (arith, v.held_in_range i, v.free_list.in_range.0);
              used = omega (arith, v.used, v.free_list.counted, v.free_list.small);
            }),
      )

  deallocate-Owns :
      (p : MemoryPool T) (live free : List ℕ) (i : ℕ)
      → Owns capacity p live free
      → i ∈ live
      → Owns capacity (deallocate (some i) p) (give_back i live) (i ∷ free)
  deallocate-Owns p live free i v h = record {
    free_list =
        deallocate-IsFree p i free v.free_list (v.apart i h) (v.held_in_range i h)
          (omega (arith, v.used, length-give_back i live h));
    capacity_kept = capacity-deallocate p i v.capacity_kept;
    held = give_back-Distinct i live v.held;
    apart = λ j k. elim (Bool-cases (j == i)) [
      | inl e ↦ absurd (ground (arith, k, give_back-self i live v.held))
      | inr e ↦ rw e (v.apart j (give_back-mem i j live k))
    ];
    held_in_range = λ j k. in_range-deallocate p i (v.held_in_range j (give_back-mem i j live k));
    used =
        used-deallocate p i (give_back i live) (v.used ∙ length-give_back i live h) (
          omega (arith, v.used, length-give_back i live h, v.free_list.counted, v.free_list.small));
  }

  -- Whatever the client does within the rules, every slot is held, or free, and never both.
  Reach-Owns :
      {raw : ℕ → T} {p : MemoryPool T} {live : List ℕ}
      → 0 < capacity
      → capacity < 2 ^ 64
      → Reach capacity raw p live
      → (free : List ℕ) × Owns capacity p live free
  Reach-Owns {raw = raw} h k start = (from 0 capacity, construct-Owns capacity raw h k)
  Reach-Owns h k (allocates {p} {live} value r) =
      let (free, v) = Reach-Owns h k r in allocate-Owns p live free value v
  Reach-Owns h k (deallocates {p} {live} i m r) =
      let (free, v) = Reach-Owns h k r in (i ∷ free, deallocate-Owns p live free i v m)

  -- What the next `allocate` answers.
  abbrev Offers : MemoryPool T → List ℕ → T → Type 0
  Offers p live value = (i : ℕ) × ((allocate value p).0 ≡ some i) × (i ∉ live) × (i < capacity)

  allocate-Offers :
      (p : MemoryPool T) (live free : List ℕ) (value : T)
      → Owns capacity p live free
      → (length live < capacity) ↔ Offers p live value
  allocate-Offers p live [] value v = (
    λ lt. absurd (omega (arith, v.used, v.free_list.counted, v.capacity_kept)),
    λ (i, e, _, _). ground (arith, ap (λ r. r.0) (allocate-exhausted p value v.free_list), e),
  )
  allocate-Offers p live (x ∷ xs) value v = (
    λ lt. (
      x,
      ap (λ r. r.0) (allocate-slot p value x xs v.free_list),
      Owns-fresh p live x xs v,
      omega (arith, v.free_list.in_range.0, v.capacity_kept),
    ),
    λ o. omega (arith, v.used, v.free_list.counted, v.capacity_kept),
  )

  -- After any calls of a client that frees only what it holds, of a capacity from 1 to 2 ^ 64 - 1: the pool hands out a slot exactly while the client holds fewer than `capacity`, never one that is
  -- held, and its counters say how many are held and how many are left.
  pub allocate-total :
      {raw : ℕ → T} {p : MemoryPool T} {live : List ℕ} (value : T)
      → 0 < capacity
      → capacity < 2 ^ 64
      → Reach capacity raw p live
      → (in_use p ≡ length live)
        × (available p + length live ≡ capacity)
        × ((length live < capacity)
            ↔ ((i : ℕ) × ((allocate value p).0 ≡ some i) × (i ∉ live) × (i < capacity)))
  unfolding in_use available
  allocate-total {p} {live} value h k r =
      let (free, v) = Reach-Owns h k r in
      (
        v.used,
        omega (arith, v.used, v.free_list.counted, v.capacity_kept, v.free_list.small),
        allocate-Offers p live free value v,
      )
