-- ===== src/OrderBook/Tests.antt =====
-- Runs of the unit tests of test_order_book.cpp on a book over a small pool.
use hft_order_book_simulator.Common.{ℕ, ◌≡◌, refl, true, false, List, [], ◌∷◌}
use hft_order_book_simulator.Common.Int.{pos}
use hft_order_book_simulator.Types.{
  Price, Quantity, OrderId, Side, bid, ask, OrderType, limit, market, ioc, fok, default_order,
}
use hft_order_book_simulator.MemoryPool
use hft_order_book_simulator.OrderBook.{OrderBook, construct_over, Event, traded, ticked}
use hft_order_book_simulator.OrderBook.Api.{add_order, cancel_order, amend_order}
use hft_order_book_simulator.OrderBook.Queries.{
  best_bid, best_ask, best_bid_qty, spread, bid_levels, ask_levels, order_count,
}

abbrev fresh : OrderBook
unfolding construct_over MemoryPool.construct
fresh = construct_over (MemoryPool.construct 8 λ i. default_order) true true (λ n. pos n)

abbrev then_add : Side → OrderType → ℕ → Quantity → OrderBook → OrderBook
unfolding add_order
then_add s t px qty b = (add_order s t (pos px) qty b).1

abbrev add_bid : OrderType → ℕ → Quantity → OrderBook → OrderBook
unfolding then_add
add_bid = then_add bid

abbrev add_ask : OrderType → ℕ → Quantity → OrderBook → OrderBook
unfolding then_add
add_ask = then_add ask

-- Maker, price and quantity of each trade, latest first.
abbrev fills : List Event → List (OrderId × Price × Quantity)
fills [] = []
fills (traded t ∷ es) = (t.maker_order_id, t.price, t.quantity) ∷ fills es
fills (ticked t ∷ es) = fills es

resting : OrderBook
unfolding fresh add_bid add_ask
resting = add_ask limit 10010 100 (add_bid limit 9990 100 fresh)

no_cross_resting :
    (best_bid resting ≡ pos 9990) × (best_ask resting ≡ pos 10010) × (spread resting ≡ pos 20)
unfolding resting spread
no_cross_resting = (refl, refl, refl)

crossed : OrderBook
unfolding fresh add_bid add_ask
crossed = add_bid limit 10000 200 (add_ask limit 10000 200 fresh)

-- The filled taker stays in the map.
exact_cross_full_fill :
    (fills crossed.events ≡ (1, pos 10000, 200) ∷ [])
    × (bid_levels crossed ≡ 0)
    × (ask_levels crossed ≡ 0)
    × (order_count crossed ≡ 1)
unfolding crossed bid_levels ask_levels order_count
exact_cross_full_fill = (refl, refl, refl, refl)

partly_filled : OrderBook
unfolding fresh add_bid add_ask
partly_filled = add_bid limit 10000 300 (add_ask limit 10000 100 fresh)

partial_fill :
    (fills partly_filled.events ≡ (1, pos 10000, 100) ∷ [])
    × (ask_levels partly_filled ≡ 0)
    × (best_bid_qty partly_filled ≡ 200)
unfolding partly_filled ask_levels best_bid_qty
partial_fill = (refl, refl, refl)

queued : OrderBook
unfolding fresh add_bid add_ask
queued = add_ask limit 10000 100 (add_bid limit 10000 50 (add_bid limit 10000 50 fresh))

price_time_priority : fills queued.events ≡ (2, pos 10000, 50) ∷ (1, pos 10000, 50) ∷ []
unfolding queued
price_time_priority = refl

three_asks : OrderBook
unfolding fresh add_bid add_ask
three_asks = add_ask limit 10020 100 (add_ask limit 10000 100 (add_ask limit 10010 100 fresh))

market_order_sweep :
    fills (add_bid market 0 300 three_asks).events
    ≡ (3, pos 10020, 100) ∷ (1, pos 10010, 100) ∷ (2, pos 10000, 100) ∷ []
unfolding add_bid three_asks
market_order_sweep = refl

-- An IOC order for 10000 buys at 10020 as well.
ioc_ignores_its_price :
    fills (add_bid ioc 10000 300 three_asks).events
    ≡ (3, pos 10020, 100) ∷ (1, pos 10010, 100) ∷ (2, pos 10000, 100) ∷ []
unfolding add_bid three_asks
ioc_ignores_its_price = refl

fok_reject_insufficient_qty :
    let b = add_bid fok 10010 500 three_asks in (fills b.events ≡ []) × (ask_levels b ≡ 3)
unfolding add_bid three_asks ask_levels
fok_reject_insufficient_qty = (refl, refl)

fok_full_fill :
    let b = add_bid fok 10010 200 three_asks in
    (fills b.events ≡ (1, pos 10010, 100) ∷ (2, pos 10000, 100) ∷ []) × (ask_levels b ≡ 1)
unfolding add_bid three_asks ask_levels
fok_full_fill = (refl, refl)

one_bid : OrderBook
unfolding fresh add_bid
one_bid = add_bid limit 10000 100 fresh

cancel_twice :
    let (done, b) = cancel_order 1 one_bid in
    (done ≡ true) × (bid_levels b ≡ 0) × ((cancel_order 1 b).0 ≡ false)
unfolding one_bid cancel_order bid_levels
cancel_twice = (refl, refl, refl)

amend_down : let (done, b) = amend_order 1 50 one_bid in (done ≡ true) × (best_bid_qty b ≡ 50)
unfolding one_bid amend_order best_bid_qty
amend_down = (refl, refl)

-- An increase costs the first bid its place.
amend_up :
    fills
      (add_ask limit 10000 60
        (amend_order 1 70 (add_bid limit 10000 50 (add_bid limit 10000 50 fresh))).1).events
    ≡ (1, pos 10000, 10) ∷ (2, pos 10000, 50) ∷ []
unfolding fresh add_bid add_ask amend_order
amend_up = refl
