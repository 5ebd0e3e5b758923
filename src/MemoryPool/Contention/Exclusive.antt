-- ===== src/MemoryPool/Contention/Exclusive.antt =====
-- memory_pool.hpp: what the threads may count on, whatever the order of their steps.
use hft_order_book_simulator.Common.{
  ℕ, zero, suc, ◌+◌, ◌^◌, ◌≤◌, ◌<◌, ◌≡◌, ◌≢◌, ◌↔◌, refl, ◌∙◌, arith, Option, some, List, ◌∈◌,
  Distinct, Bool-cases, inl, inr, if◌then◌else◌, ltb,
}
use hft_order_book_simulator.Common.Words.{add64, sub64}
use hft_order_book_simulator.MemoryPool.{update}
use hft_order_book_simulator.MemoryPool.FreeList.{Chain, from, construct-IsFree}
use hft_order_book_simulator.MemoryPool.Contention.{
  Allocator, Freer, Place, System, Step, load_head, none_left, load_next, pop, pop_again, count,
  build, give, link, push, push_again, uncount, init, Reach, here, later,
}
use hft_order_book_simulator.MemoryPool.Contention.Invariant.{Inv, other, apart}
use hft_order_book_simulator.MemoryPool.Contention.Moves.{relied, kept}
use hft_order_book_simulator.MemoryPool.Contention.Steps.{Step-Inv}

mem-from : (a i n : ℕ) → i ≤ a → a < i + n → a ∈ from i n
mem-from a i zero low high = absurd (omega (arith, low, high))
mem-from a i (suc n) low high = ground (arith, mem-from a (suc i) n)

from-bound : (a i n : ℕ) → a ∈ from i n → a < i + n
from-bound a i zero mem = absurd (cc mem)
from-bound a i (suc n) mem = ground (arith, from-bound a (suc i) n, mem)

init-all :
    (capacity i : ℕ)
    → (if ltb i capacity then Place.free else Place.nowhere) ≡ Place.free
    → i ∈ from 0 capacity
init-all capacity i f = elim (Bool-cases (ltb i capacity)) [
  | inl e ↦ mem-from i 0 capacity (omega arith) (ground (arith, e))
  | inr e ↦ absurd (cc (f, e))
]

-- A number that is no slot stays one.
outside :
    (place : ℕ → Place) (i j : ℕ) (p q : Place)
    → place j ≡ q
    → q ≢ Place.nowhere
    → place i ≡ Place.nowhere
    → update place j p i ≡ Place.nowhere
outside place i j p q e ne out = other place j i p (apart place j i e out ne) ∙ out

module _ {ℓ} {T : Type ℓ} where
  init-Inv :
      (capacity : ℕ) (raw : ℕ → T)
      → 0 < capacity
      → capacity < 2 ^ 64
      → Inv (init capacity raw) (from 0 capacity)
  init-Inv capacity raw pos small =
      let v = construct-IsFree capacity raw pos small in
      record {
        chain = v.chain;
        distinct = v.distinct;
        listed = λ i mem. ground (arith, from-bound i 0 capacity mem);
        all = λ i f. init-all capacity i f;
        relies = tt;
        keeps = λ t. tt;
      }

  Reach-Inv : (s u : System T) (xs : List ℕ) → Inv s xs → Reach s u → (ys : List ℕ) × Inv u ys
  Reach-Inv s u xs v here = (xs, v)
  Reach-Inv s u xs v (later {t} r step) =
      let rest = Reach-Inv s t xs v r in Step-Inv t u rest.0 rest.1 step

  Step-outside :
      (s u : System T) (xs : List ℕ) (i : ℕ)
      → Inv s xs
      → Step s u
      → s.place i ≡ Place.nowhere
      → u.place i ≡ Place.nowhere
  unfolding add64 sub64
  Step-outside s u xs i v (load_head e) out = out
  Step-outside s u xs i v (none_left e) out = out
  Step-outside s u xs i v (load_next j e) out = out
  Step-outside s u xs i v (pop j n e same) out =
      outside s.place i j Place.taken Place.free
        (v.listed j (relied s xs v (Allocator.read j n) e).0) (λ f. absurd (cc f)) out
  Step-outside s u xs i v (pop_again j n e) out = out
  Step-outside s u xs i v (count j e) out = out
  Step-outside s u xs i v (build j value e) out =
      outside s.place i j Place.held Place.taken (relied s xs v (Allocator.counted j) e)
        (λ f. absurd (cc f)) out
  Step-outside s u xs i v (give t j e mine) out =
      outside s.place i j (Place.freeing t) Place.held mine (λ f. absurd (cc f)) out
  Step-outside s u xs i v (link t j head e) out = out
  Step-outside s u xs i v (push t j head e same) out =
      outside s.place i j Place.free (Place.freeing t) (kept s xs v t (Freer.linked j head) e).0
        (λ f. absurd (cc f)) out
  Step-outside s u xs i v (push_again t j head e) out = out
  Step-outside s u xs i v (uncount t e) out = out

  Reach-outside :
      (s u : System T) (xs : List ℕ) (i : ℕ)
      → Inv s xs
      → Reach s u
      → s.place i ≡ Place.nowhere
      → u.place i ≡ Place.nowhere
  Reach-outside s u xs i v here out = out
  Reach-outside s u xs i v (later {t} r step) out =
      let rest = Reach-Inv s t xs v r in
      Step-outside t u rest.0 i rest.1 step (Reach-outside s t xs i v r out)

  -- In a pool of more than 0 and fewer than 2 ^ 64 slots, one thread allocates and any number of threads free, in any
  -- order of their steps. From the head the links lead
  -- through a list of slots without repetition, and these are the free ones: none that the allocating thread has
  -- taken, the client holds or a thread is freeing.
  pub contended-Chain :
      (capacity : ℕ) (raw : ℕ → T) (s : System T)
      → 0 < capacity
      → capacity < 2 ^ 64
      → Reach (init capacity raw) s
      → (xs : List ℕ) × Chain s.pool.next s.pool.free_head xs
        × Distinct xs
        × ((i : ℕ) → (i ∈ xs) ↔ (s.place i ≡ Place.free))
  contended-Chain capacity raw s pos small r =
      let end =
        Reach-Inv (init capacity raw) s (from 0 capacity) (init-Inv capacity raw pos small) r in
      (end.0, end.1.chain, end.1.distinct, λ i. (end.1.listed i, end.1.all i))

  -- In a pool of more than 0 and fewer than 2 ^ 64 slots, one thread allocates and any number of threads free, in any
  -- order of their steps. When the compare-exchange of `pop_free_slot` finds the head `i` that the thread has read, `i` is a slot of the
  -- pool that nobody has, and the `next` that it stores is still the link of `i`, however many threads freed slots in
  -- between.
  pub exclusive :
      (capacity : ℕ) (raw : ℕ → T) (s : System T) (i : ℕ) (next : Option ℕ)
      → 0 < capacity
      → capacity < 2 ^ 64
      → Reach (init capacity raw) s
      → s.allocator ≡ Allocator.read i next
      → s.pool.free_head ≡ some i
      → (i < capacity) × (s.place i ≡ Place.free) × (s.pool.next i ≡ next)
  exclusive capacity raw s i next pos small r e same =
      let v0 = init-Inv capacity raw pos small in
      let end = Reach-Inv (init capacity raw) s (from 0 capacity) v0 r in
      let mine = relied s end.0 end.1 (Allocator.read i next) e in
      let free = end.1.listed i mine.0 in (inside free, free, mine.1)
    where
      inside : s.place i ≡ Place.free → i < capacity
      inside f = elim (Bool-cases (ltb i capacity)) [
        | inl lt ↦ ground (arith, lt)
        | inr ge ↦ absurd (
            cc (
              f,
              Reach-outside (init capacity raw) s (from 0 capacity) i
                  (init-Inv capacity raw pos small) r (rw ge refl),
            ))
      ]
