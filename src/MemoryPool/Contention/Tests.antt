-- ===== src/MemoryPool/Contention/Tests.antt =====
-- Runs of a small pool with several threads.
use hft_order_book_simulator.Common.{
  ℕ, ◌-◌, ◌^◌, ◌<◌, ◌≡◌, ◌↔◌, refl, some, List, ◌∈◌, Distinct, arith,
}
use hft_order_book_simulator.Common.Words.{add64, sub64}
use hft_order_book_simulator.MemoryPool.{link_slots, construct, available}
use hft_order_book_simulator.MemoryPool.FreeList.{Chain}
use hft_order_book_simulator.MemoryPool.Contention.{
  Allocator, Place, System, after_pop, after_count, after_build, after_give, after_link, after_push,
  load_head, load_next, pop, pop_again, count, build, give, link, push, init, Reach, here, later,
}
use hft_order_book_simulator.MemoryPool.Contention.Exclusive.{contended-Chain, exclusive}

abbrev raw : ℕ → ℕ
raw i = 0

abbrev waiting : System ℕ → System ℕ
waiting s = record s { allocator = Allocator.loaded s.pool.free_head }

abbrev reading : System ℕ → ℕ → System ℕ
reading s i = record s { allocator = Allocator.read i (s.pool.next i) }

-- The allocating thread has one object, in slot 0.
abbrev one : ℕ → System ℕ
unfolding construct link_slots add64
one capacity =
    let s = reading (init capacity raw) 0 in
    after_build (after_count (after_pop s 0 (s.pool.next 0)) 0) 0 7

one-Reach : (capacity : ℕ) → Reach (init capacity raw) (one capacity)
unfolding construct link_slots add64
one-Reach capacity =
    later
      (later (later (later (later here (load_head refl)) (load_next 0 refl)) (pop 0 _ refl refl))
        (count 0 refl))
      (build 0 7 refl)

-- The thread 5 has linked slot 0 and put it at the head.
abbrev back : System ℕ → System ℕ
back s = after_push (after_link (after_give s 5 0) 5 0 s.pool.free_head) 5 0

back-Reach : (capacity : ℕ) → Reach (init capacity raw) (back (one capacity))
unfolding construct link_slots add64
back-Reach capacity =
    later (later (later (one-Reach capacity) (give 5 0 refl refl)) (link 5 0 _ refl))
      (push 5 0 _ refl refl)

-- Before that thread has decremented `allocated_`, the slot is out again: the count is 2 in a pool of one slot.
abbrev over : System ℕ
unfolding construct link_slots add64
over = let s = reading (back (one 1)) 0 in after_count (after_pop s 0 (s.pool.next 0)) 0

over-Reach : Reach (init 1 raw) over
unfolding construct link_slots add64
over-Reach =
    later
      (later (later (later (back-Reach 1) (load_head refl)) (load_next 0 refl)) (pop 0 _ refl refl))
      (count 0 refl)

over-available : available over.pool ≡ 2 ^ 64 - 1
unfolding available construct link_slots add64 sub64
over-available = refl

-- In a pool of two slots the allocating thread has read slot 1 when slot 0 comes back: its compare-exchange fails, and
-- it reads slot 0.
abbrev overtaken : System ℕ
unfolding construct link_slots add64
overtaken = reading (back (reading (one 2) 1)) 0

overtaken-Reach : Reach (init 2 raw) overtaken
unfolding construct link_slots add64
overtaken-Reach =
    let at_one = later (later (one-Reach 2) (load_head refl)) (load_next 1 refl) in
    let freed =
      later (later (later at_one (give 5 0 refl refl)) (link 5 0 _ refl)) (push 5 0 _ refl refl) in
    later (later freed (pop_again 1 _ refl)) (load_next 0 refl)

contended-Chain_example :
    (xs : List ℕ) × Chain overtaken.pool.next overtaken.pool.free_head xs
    × Distinct xs
    × ((i : ℕ) → (i ∈ xs) ↔ (overtaken.place i ≡ Place.free))
contended-Chain_example =
    contended-Chain 2 raw overtaken (omega arith) (omega arith) overtaken-Reach

exclusive_example : (0 < 2) × (overtaken.place 0 ≡ Place.free) × (overtaken.pool.next 0 ≡ some 1)
unfolding construct link_slots add64
exclusive_example =
    exclusive 2 raw overtaken 0 (some 1) (omega arith) (omega arith) overtaken-Reach refl refl
