-- ===== src/MemoryPool/Contention.antt =====
-- memory_pool.hpp with several threads, a shared access at a time: one thread allocates and any number of threads
-- free, as the comment on the class allows. A compare-exchange is one step, and a weak one may fail for no reason; then
-- it reloads the head. `place` records who has each slot; the program has no such variable.
pub mod Invariant
pub mod Moves
pub mod Steps
pub mod Exclusive
mod Tests
use hft_order_book_simulator.Common.{ℕ, ◌+◌, ◌<◌, ◌≡◌, Option, none, some, if◌then◌else◌, ltb}
use hft_order_book_simulator.Common.Words.{add64, sub64}
use hft_order_book_simulator.MemoryPool.{MemoryPool, update, construct}

-- Where the allocating thread stands in `allocate` and in `pop_free_slot`, with its local variables.
pub data Allocator : Type 0 where
  idle : Allocator
  loaded : (head : Option ℕ) → Allocator  -- before the test of `head`
  read : (head : ℕ) → (next : Option ℕ) → Allocator  -- before the compare-exchange
  popped : (slot : ℕ) → Allocator  -- before `allocated_.fetch_add`
  counted : (slot : ℕ) → Allocator  -- before the construction of the object

-- Where a freeing thread stands in `deallocate` and in `push_free_slot`.
pub data Freer : Type 0 where
  idle : Freer
  loaded : (slot : ℕ) → (head : Option ℕ) → Freer  -- before the store to `slot->next`
  linked : (slot : ℕ) → (head : Option ℕ) → Freer  -- before the compare-exchange
  pushed : Freer  -- before `allocated_.fetch_sub`

-- Who has a slot: the free list, the thread that allocates, the client, or the thread that frees it.
pub data Place : Type 0 where
  nowhere free taken held : Place
  freeing : ℕ → Place

pub record System {ℓ} (T : Type ℓ) : Type ℓ where
  pub pool : MemoryPool T
  pub allocator : Allocator
  pub freer : ℕ → Freer
  pub place : ℕ → Place

module _ {ℓ} {T : Type ℓ} where
  -- The compare-exchange of `pop_free_slot` succeeds.
  abbrev pub after_pop : System T → ℕ → Option ℕ → System T
  after_pop s i next = record s {
    pool = record s.pool { free_head = next };
    allocator = Allocator.popped i;
    place = update s.place i Place.taken;
  }

  abbrev pub after_count : System T → ℕ → System T
  unfolding add64
  after_count s i = record s {
    pool = record s.pool { allocated = add64 s.pool.allocated 1 };
    allocator = Allocator.counted i;
  }

  -- The object is constructed, and `allocate` returns the slot.
  abbrev pub after_build : System T → ℕ → T → System T
  after_build s i value = record s {
    pool = record s.pool { storage = update s.pool.storage i value };
    allocator = Allocator.idle;
    place = update s.place i Place.held;
  }

  -- The client calls `deallocate`, which loads the head.
  abbrev pub after_give : System T → ℕ → ℕ → System T
  after_give s t i = record s {
    freer = update s.freer t (Freer.loaded i s.pool.free_head);
    place = update s.place i (Place.freeing t);
  }

  abbrev pub after_link : System T → ℕ → ℕ → Option ℕ → System T
  after_link s t i head = record s {
    pool = record s.pool { next = update s.pool.next i head };
    freer = update s.freer t (Freer.linked i head);
  }

  -- The compare-exchange of `push_free_slot` succeeds.
  abbrev pub after_push : System T → ℕ → ℕ → System T
  after_push s t i = record s {
    pool = record s.pool { free_head = some i };
    freer = update s.freer t Freer.pushed;
    place = update s.place i Place.free;
  }

  abbrev pub after_uncount : System T → ℕ → System T
  unfolding sub64
  after_uncount s t = record s {
    pool = record s.pool { allocated = sub64 s.pool.allocated 1 };
    freer = update s.freer t Freer.idle;
  }

  pub data Step (s : System T) : System T → Type ℓ where
    load_head :
        s.allocator ≡ Allocator.idle
        → Step s (record s { allocator = Allocator.loaded s.pool.free_head })
    -- `allocate` returns nullptr
    none_left :
        s.allocator ≡ Allocator.loaded none → Step s (record s { allocator = Allocator.idle })
    load_next :
        (i : ℕ)
        → s.allocator ≡ Allocator.loaded (some i)
        → Step s (record s { allocator = Allocator.read i (s.pool.next i) })
    pop :
        (i : ℕ) (next : Option ℕ)
        → s.allocator ≡ Allocator.read i next
        → s.pool.free_head ≡ some i
        → Step s (after_pop s i next)
    pop_again :
        (i : ℕ) (next : Option ℕ)
        → s.allocator ≡ Allocator.read i next
        → Step s (record s { allocator = Allocator.loaded s.pool.free_head })
    count : (i : ℕ) → s.allocator ≡ Allocator.popped i → Step s (after_count s i)
    build : (i : ℕ) (value : T) → s.allocator ≡ Allocator.counted i → Step s (after_build s i value)
    give : (t i : ℕ) → s.freer t ≡ Freer.idle → s.place i ≡ Place.held → Step s (after_give s t i)
    link :
        (t i : ℕ) (head : Option ℕ)
        → s.freer t ≡ Freer.loaded i head
        → Step s (after_link s t i head)
    push :
        (t i : ℕ) (head : Option ℕ)
        → s.freer t ≡ Freer.linked i head
        → s.pool.free_head ≡ head
        → Step s (after_push s t i)
    push_again :
        (t i : ℕ) (head : Option ℕ)
        → s.freer t ≡ Freer.linked i head
        → Step s (record s { freer = update s.freer t (Freer.loaded i s.pool.free_head) })
    uncount : (t : ℕ) → s.freer t ≡ Freer.pushed → Step s (after_uncount s t)

  -- A new pool, before any thread has called anything.
  abbrev pub init : ℕ → (ℕ → T) → System T
  init capacity raw = record {
    pool = construct capacity raw;
    allocator = Allocator.idle;
    freer = λ t. Freer.idle;
    place = λ i. if ltb i capacity then Place.free else Place.nowhere;
  }

  pub data Reach (s : System T) : System T → Type ℓ where
    here : Reach s s
    later : {t u : System T} → Reach s t → Step t u → Reach s u
