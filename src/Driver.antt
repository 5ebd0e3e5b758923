-- ===== src/Driver.antt =====
-- main.cpp: the scenarios that the program runs. A scenario is the sequence of its calls; what it prints is left out.
pub mod PoolCycle
pub mod Load
pub mod Matching
mod Tests
use hft_order_book_simulator.Common.{
  ℕ, zero, suc, ◌+◌, ◌*◌, ◌%◌, Bool, true, false, not, ◌&&◌, Option, none, some, List, [], ◌∷◌,
  ◌++◌, ◌==◌, ltb, if◌then◌else◌, length, get_elem?, erase_at, is_some,
}
use hft_order_book_simulator.Common.Int.{ℤ, pos, ◌+ℤ◌, eqb_ℤ}
use hft_order_book_simulator.Types.{
  Order, Ptr, Price, Quantity, OrderId, Timestamp, Side, bid, ask, OrderType, limit, market, ioc,
  fok, default_order,
}
use hft_order_book_simulator.MemoryPool
use hft_order_book_simulator.MemoryPool.{MemoryPool}
use hft_order_book_simulator.PriceLevel.{modify}
use hft_order_book_simulator.LatencyTimer
use hft_order_book_simulator.LatencyTimer.{LatencyTimer, record_since, ◌>>=◌}
use hft_order_book_simulator.OrderBook
use hft_order_book_simulator.OrderBook.{OrderBook}
use hft_order_book_simulator.OrderBook.Matching.{is_limit}
use hft_order_book_simulator.OrderBook.Api.{add_order, cancel_order}
use hft_order_book_simulator.OrderBook.Queries.{best_bid, best_ask, spread, is_empty}
use hft_order_book_simulator.OrderBook.Tally.{trades_in}

-- The loop of the allocation burst, from index `i` on, with the pointers that it collects; `none` is an assertion that
-- fails.
unfoldable pub allocation_burst : ℕ → ℕ → MemoryPool Order → Option (List Ptr × MemoryPool Order)
unfolding MemoryPool.allocate
allocation_burst zero i pool = some ([], pool)
allocation_burst (suc n) i pool =
    let (slot, pool') = MemoryPool.allocate default_order pool in
    elim slot [
      | none ↦ none
      | some p ↦
          let fields =
            λ (o : Order). record o { id = i + 1; price = pos (10000 + i); quantity = 100 } in
          allocation_burst n (suc i) (record pool' { storage = modify pool'.storage p fields })
          >>= λ (ptrs, pool''). some (p ∷ ptrs, pool'')
    ]

unfoldable pub deallocation_burst : List Ptr → MemoryPool Order → MemoryPool Order
unfolding MemoryPool.deallocate
deallocation_burst [] pool = pool
deallocation_burst (p ∷ ptrs) pool = deallocation_burst ptrs (MemoryPool.deallocate (some p) pool)

-- Whether every assertion of the scenario holds, with a pool of `capacity` slots.
unfoldable pub test_memory_pool : ℕ → (ℕ → Order) → Bool
unfolding MemoryPool.construct MemoryPool.available MemoryPool.in_use MemoryPool.allocate
    allocation_burst deallocation_burst
test_memory_pool capacity raw =
    let pool = MemoryPool.construct capacity raw in
    (MemoryPool.available pool == capacity)
    && (MemoryPool.in_use pool == 0)
    && elim (allocation_burst capacity 0 pool) [
      | none ↦ false
      | some (ptrs, full) ↦
          (MemoryPool.available full == 0)
          && not (is_some (MemoryPool.allocate default_order full).0)
          && (MemoryPool.available (deallocation_burst ptrs full) == capacity)
    ]

-- What the distributions and the clock give in one round of the load simulation. `idx n` is drawn when `n` ids are
-- active.
pub record Draw : Type 0 where
  pub side : ℕ
  pub type : ℕ
  pub price : ℤ
  pub qty : Quantity
  pub idx : ℕ → ℕ
  pub t0 : ℤ
  pub t1 : ℤ

pub record Simulation : Type 0 where
  pub book : OrderBook
  pub active_ids : List OrderId
  pub order_latency : LatencyTimer

abbrev pub side_of : ℕ → Side
side_of n = if n == 0 then bid else ask

-- LIMIT or MARKET.
abbrev pub type_of : ℕ → OrderType
type_of n = if n % 2 == 0 then limit else market

abbrev pub base_price : Price
base_price = pos 10000

-- A round up to the cancellation.
unfoldable pub place_order : ℕ → Draw → Simulation → Simulation
unfolding add_order record_since ◌+ℤ◌
place_order i d s =
    let otype = type_of d.type in
    let (oid, b) = add_order (side_of d.side) otype (base_price +ℤ d.price) d.qty s.book in
    record {
      book = b;
      active_ids =
          if not (oid == 0) && is_limit otype && not (i % 7 == 0)
          then s.active_ids ++ oid ∷ []
          else s.active_ids;
      order_latency = record_since d.t0 d.t1 s.order_latency;
    }

-- `none` is an access out of range.
unfoldable pub cancel_one : ℕ → Simulation → Option Simulation
unfolding cancel_order
cancel_one idx s = get_elem? s.active_ids idx >>= λ id.
    some (record s { book = (cancel_order id s.book).1; active_ids = erase_at idx s.active_ids })

unfoldable pub simulate_round : ℕ → Draw → Simulation → Option Simulation
unfolding place_order cancel_one
simulate_round i d s =
    let s' = place_order i d s in
    if not (is_empty s'.active_ids) && (i % 5 == 0)
    then cancel_one (d.idx (length s'.active_ids)) s'
    else some s'

-- `n` rounds, from the one with number `i` on.
unfoldable pub simulate : ℕ → ℕ → (ℕ → Draw) → Simulation → Option Simulation
unfolding simulate_round
simulate zero i draws s = some s
simulate (suc n) i draws s = simulate_round i (draws i) s >>= simulate n (suc i) draws

-- The scenario with a number of rounds; the program takes 50000.
unfoldable pub test_simulation_under_load :
    ℕ → (ℕ → Order) → (ℕ → Timestamp) → (ℕ → Draw) → Option Simulation
unfolding OrderBook.construct simulate
test_simulation_under_load n raw clock draws = simulate n 0 draws (record {
  book = OrderBook.construct raw true false clock;
  active_ids = [];
  order_latency = LatencyTimer.construct;
})
