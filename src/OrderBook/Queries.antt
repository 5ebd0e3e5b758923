-- ===== src/OrderBook/Queries.antt =====
-- order_book.hpp and order_book.cpp, the queries: best prices, spread, counters and depth snapshots.
use hft_order_book_simulator.Common.{
  ℕ, ◌^◌, ◌-◌, Bool, true, false, List, [], ◌∷◌, ◌++◌, if◌then◌else◌, leb, length, ◌||◌,
}
use hft_order_book_simulator.Common.Int.{pos, ◌-ℤ◌}
use hft_order_book_simulator.Types.{Price, Quantity}
use hft_order_book_simulator.OrderBook.{OrderBook, Levels}

abbrev pub price_max : Price
price_max = pos (2 ^ 63 - 1)

-- The key at `begin()`, or the given default.
abbrev pub first_price : Price → Levels → Price
first_price d [] = d
first_price d ((k, l) ∷ m) = k

abbrev first_qty : Levels → Quantity
first_qty [] = 0
first_qty ((k, l) ∷ m) = l.total_qty

unfoldable pub best_bid : OrderBook → Price
best_bid b = first_price (pos 0) b.bids

unfoldable pub best_ask : OrderBook → Price
best_ask b = first_price price_max b.asks

unfoldable pub best_bid_qty : OrderBook → Quantity
best_bid_qty b = first_qty b.bids

unfoldable pub best_ask_qty : OrderBook → Quantity
best_ask_qty b = first_qty b.asks

abbrev pub is_empty {ℓ} : {A : Type ℓ} → List A → Bool
is_empty [] = true
is_empty (x ∷ xs) = false

unfoldable pub spread : OrderBook → Price
unfolding best_bid best_ask ◌-ℤ◌
spread b = if is_empty b.bids || is_empty b.asks then pos 0 else best_ask b -ℤ best_bid b

unfoldable pub bid_levels : OrderBook → ℕ
bid_levels b = length b.bids

unfoldable pub ask_levels : OrderBook → ℕ
ask_levels b = length b.asks

unfoldable pub order_count : OrderBook → ℕ
order_count b = length b.order_map

abbrev pub total_trades : OrderBook → ℕ
total_trades b = b.stats.total_trades

abbrev pub total_volume : OrderBook → ℕ
total_volume b = b.stats.total_volume

abbrev orders_added : OrderBook → ℕ
orders_added b = b.stats.orders_added

abbrev pub orders_cancelled : OrderBook → ℕ
orders_cancelled b = b.stats.orders_cancelled

pub record DepthEntry : Type 0 where
  pub price : Price
  pub qty : Quantity
  pub order_cnt : ℕ

-- The loop of `bid_depth` and `ask_depth`, with what it has collected.
unfoldable pub depth_loop : ℕ → List DepthEntry → Levels → List DepthEntry
depth_loop n result [] = result
depth_loop n result ((px, l) ∷ m) =
    let entry : DepthEntry = record { price = px; qty = l.total_qty; order_cnt = l.order_count } in
    let rest = depth_loop n (result ++ entry ∷ []) m in
    if leb n (length result) then result else rest

unfoldable pub bid_depth : ℕ → OrderBook → List DepthEntry
unfolding depth_loop
bid_depth n b = depth_loop n [] b.bids

unfoldable pub ask_depth : ℕ → OrderBook → List DepthEntry
unfolding depth_loop
ask_depth n b = depth_loop n [] b.asks
