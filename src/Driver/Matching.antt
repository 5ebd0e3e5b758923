-- ===== src/Driver/Matching.antt =====
-- main.cpp, `test_order_book_matching`, over a pool that is given. What the callback of the trades collects are the
-- trades among the events of the book.
use hft_order_book_simulator.Common.{ℕ, Bool, true, ◌&&◌, ◌==◌, ltb}
use hft_order_book_simulator.Common.Int.{pos, eqb_ℤ}
use hft_order_book_simulator.Types.{
  Order, Quantity, Timestamp, Side, bid, ask, OrderType, limit, market, ioc, fok,
}
use hft_order_book_simulator.MemoryPool.{MemoryPool}
use hft_order_book_simulator.OrderBook.{OrderBook, construct_over}
use hft_order_book_simulator.OrderBook.Api.{add_order}
use hft_order_book_simulator.OrderBook.Queries.{best_bid, best_ask, spread}
use hft_order_book_simulator.OrderBook.Tally.{trades_in}

-- An order whose id is not looked at.
abbrev submit_order : Side → OrderType → ℕ → Quantity → OrderBook → OrderBook
submit_order side type price quantity b = (add_order side type (pos price) quantity b).1

-- The resting orders, asks first.
abbrev seed : OrderBook → OrderBook
seed b =
    let b₁ =
      submit_order ask limit 15000 200
        (submit_order ask limit 15005 300 (submit_order ask limit 15010 500 b)) in
    submit_order bid limit 14998 250
      (submit_order bid limit 14995 350 (submit_order bid limit 14990 400 b₁))

-- Whether every assertion of the scenario holds.
unfoldable pub test_order_book_matching : MemoryPool Order → (ℕ → Timestamp) → Bool
unfolding construct_over add_order best_bid best_ask spread
test_order_book_matching pool clock =
    let b = seed (construct_over pool true true clock) in
    let swept = submit_order bid market 0 600 b in
    let refilled = submit_order ask limit 15005 1000 swept in
    let partly = submit_order bid ioc 15005 2000 refilled in
    let refused = submit_order bid fok 15010 99999 partly in
    eqb_ℤ (best_bid b) (pos 14998)
    && eqb_ℤ (best_ask b) (pos 15000)
    && eqb_ℤ (spread b) (pos 2)
    && ltb (trades_in b.events) (trades_in swept.events)
    && ltb (trades_in refilled.events) (trades_in partly.events)
    && (trades_in partly.events == trades_in refused.events)
