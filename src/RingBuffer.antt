-- ===== src/RingBuffer.antt =====
-- spsc_ring_buffer.hpp, `SPSCRingBuffer<T, Capacity>`: the operations as each thread runs them when nothing
-- else happens in between. Single loads and stores, interleaved, are in `Threads`.
pub mod Threads
pub mod Indices
pub mod Fifo
pub mod Size
pub mod Calls
mod Tests
use Prim.Native.Nat.{bit_and}
use hft_order_book_simulator.Common.{
  ℕ, ◌-◌, Bool, true, false, Option, none, some, ◌==◌, if◌then◌else◌,
}
use hft_order_book_simulator.Common.Words.{add64, sub64}
use hft_order_book_simulator.MemoryPool.{update}

-- `buffer` is the array, of which the indices below `capacity` exist.
pub record RingBuffer {ℓ} (T : Type ℓ) : Type ℓ where
  pub capacity : ℕ
  pub head : ℕ
  pub tail : ℕ
  pub buffer : ℕ → T

-- `(i + 1) & MASK`
unfoldable pub next_index : ℕ → ℕ → ℕ
unfolding add64
next_index capacity i = bit_and (add64 i 1) (capacity - 1)

module _ {ℓ} {T : Type ℓ} where
  -- `raw` is what the array holds before anything is stored.
  unfoldable pub construct : ℕ → (ℕ → T) → RingBuffer T
  construct capacity raw = record { capacity = capacity; head = 0; tail = 0; buffer = raw }

  -- Both overloads: a moved item arrives as a copied one does.
  unfoldable pub push : T → RingBuffer T → Bool × RingBuffer T
  unfolding next_index
  push item r =
      let next_h = next_index r.capacity r.head in
      if next_h == r.tail
      then (false, r)
      else (true, record r { buffer = update r.buffer r.head item; head = next_h })

  unfoldable pub pop : RingBuffer T → Option T × RingBuffer T
  unfolding next_index
  pop r =
      if r.tail == r.head
      then (none, r)
      else (some (r.buffer r.tail), record r { tail = next_index r.capacity r.tail })

  unfoldable peek : RingBuffer T → Option T
  peek r = if r.tail == r.head then none else some (r.buffer r.tail)

  unfoldable pub size_approx : RingBuffer T → ℕ
  unfolding add64 sub64
  size_approx r = bit_and (add64 (sub64 r.head r.tail) r.capacity) (r.capacity - 1)

  unfoldable pub empty : RingBuffer T → Bool
  empty r = r.head == r.tail

  unfoldable pub full : RingBuffer T → Bool
  unfolding next_index
  full r = next_index r.capacity r.head == r.tail

  unfoldable pub usable_capacity : RingBuffer T → ℕ
  usable_capacity r = r.capacity - 1
