-- ===== src/Driver/Tests.antt =====
-- Runs of the scenarios, with small pools.
use hft_order_book_simulator.Common.{ℕ, ◌%◌, ◌^◌, ◌≡◌, refl, arith, true, some}
use hft_order_book_simulator.Common.Int.{pos}
use hft_order_book_simulator.Types.{Order, default_order}
use hft_order_book_simulator.MemoryPool
use hft_order_book_simulator.LatencyTimer
use hft_order_book_simulator.OrderBook.Queries.{total_trades, total_volume}
use hft_order_book_simulator.OrderBook.Tally.{trades_in, volume_in}
use hft_order_book_simulator.OrderBook.Invariant.{BookOk}
use hft_order_book_simulator.Driver.{Draw, Simulation, test_memory_pool, test_simulation_under_load}
use hft_order_book_simulator.Driver.Matching.{test_order_book_matching}
use hft_order_book_simulator.Driver.PoolCycle.{test_memory_pool_lem}
use hft_order_book_simulator.Driver.Load.{InRange, load_lem}

abbrev raw : ℕ → Order
raw i = default_order

test_memory_pool_lem_example : test_memory_pool 3 raw ≡ true
test_memory_pool_lem_example = test_memory_pool_lem 3 raw (omega arith) (omega arith)

-- The assertions on the matching engine hold, with twelve slots.
matching_passes : test_order_book_matching (MemoryPool.construct 12 raw) (λ n. pos n) ≡ true
unfolding test_order_book_matching MemoryPool.construct
matching_passes = refl

-- Bids and asks in turn, limit and market orders in pairs.
abbrev draws : ℕ → Draw
draws j = record {
  side = j % 2;
  type = j % 4;
  price = pos j;
  qty = 100;
  idx = λ n. 0;
  t0 = pos j;
  t1 = pos j;
}

draws-InRange : (j : ℕ) → InRange (draws j)
draws-InRange j = record { qty = omega arith; idx = λ n some_id. some_id }

load_lem_example :
    (s : Simulation) × (test_simulation_under_load 8 raw (λ n. pos n) draws ≡ some s)
    × BookOk s.book
    × (LatencyTimer.count s.order_latency ≡ 8)
    × (total_trades s.book ≡ trades_in s.book.events % 2 ^ 64)
    × (total_volume s.book ≡ volume_in s.book.events % 2 ^ 64)
load_lem_example = load_lem 8 raw (λ n. pos n) draws draws-InRange (omega arith)
