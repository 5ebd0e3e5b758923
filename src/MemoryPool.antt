-- ===== src/MemoryPool.antt =====
-- memory_pool.hpp, `MemoryPool<T, Capacity>`, as one thread sees it: no compare-exchange is disturbed
-- by another thread, so each of the two loops leaves at the first attempt that does not fail
-- spuriously, and a spurious failure reloads the same head.
-- A slot is named by its index in `slots_`; `none` is nullptr. The address of an object is that of its
-- slot, since `storage` stands at the start of the slot.
pub mod FreeList
pub mod Ownership
pub mod Contention
mod Tests
use hft_order_book_simulator.Common.{ℕ, zero, suc, ◌-◌, Option, none, some, ◌==◌, if◌then◌else◌}
use hft_order_book_simulator.Common.Words.{add64, sub64}

abbrev pub update {ℓ} : {A : Type ℓ} → (ℕ → A) → ℕ → A → ℕ → A
update f i v j = if i == j then v else f j

-- `storage` is what the slots hold as objects, `next` their free-list links. The bytes of a slot stay
-- as they are when it is freed, for a `T` whose destructor does nothing.
pub record MemoryPool {ℓ} (T : Type ℓ) : Type ℓ where
  pub capacity : ℕ
  pub storage : ℕ → T
  pub next : ℕ → Option ℕ
  pub free_head : Option ℕ
  pub allocated : ℕ

-- The loop of the constructor: `n` rounds from index `i` on.
unfoldable pub link_slots : ℕ → ℕ → (ℕ → Option ℕ) → ℕ → Option ℕ
link_slots zero i next = next
link_slots (suc n) i next = link_slots n (suc i) (update next i (some (suc i)))

module _ {ℓ} {T : Type ℓ} where
  -- `raw` is what the memory holds before any object is constructed.
  unfoldable pub construct : ℕ → (ℕ → T) → MemoryPool T
  unfolding link_slots
  construct capacity raw = record {
    capacity = capacity;
    storage = raw;
    next = update (link_slots (capacity - 1) 0 λ i. none) (capacity - 1) none;
    free_head = some 0;
    allocated = 0;
  }

  unfoldable pub pop_free_slot : MemoryPool T → Option ℕ × MemoryPool T
  pop_free_slot p = elim p.free_head [
    | none ↦ (none, p)
    | some slot ↦ (some slot, record p { free_head = p.next slot })
  ]

  unfoldable pub push_free_slot : ℕ → MemoryPool T → MemoryPool T
  push_free_slot slot p = record p { next = update p.next slot p.free_head; free_head = some slot }

  -- `value` is the object that `T(std::forward<Args>(args)...)` constructs in the slot.
  unfoldable pub place : T → Option ℕ × MemoryPool T → Option ℕ × MemoryPool T
  unfolding add64
  place value (none, p) = (none, p)
  place value (some i, p) =
      (some i, record p { allocated = add64 p.allocated 1; storage = update p.storage i value })

  unfoldable pub allocate : T → MemoryPool T → Option ℕ × MemoryPool T
  unfolding place pop_free_slot
  allocate value p = place value (pop_free_slot p)

  unfoldable pub deallocate : Option ℕ → MemoryPool T → MemoryPool T
  unfolding push_free_slot sub64
  deallocate none p = p
  deallocate (some i) p =
      let p' = push_free_slot i p in record p' { allocated = sub64 p'.allocated 1 }

  unfoldable pub available : MemoryPool T → ℕ
  unfolding sub64
  available p = sub64 p.capacity p.allocated

  unfoldable pub in_use : MemoryPool T → ℕ
  in_use p = p.allocated
