-- ===== src/OrderBook/Ticks.antt =====
-- order_book.cpp, `publish_market_data`: what the market data callback is called with.
use hft_order_book_simulator.Common.{◌≡◌, refl, true, [], ◌∷◌, if◌then◌else◌}
use hft_order_book_simulator.Common.Int.{pos}
use hft_order_book_simulator.Types.{MarketDataTick}
use hft_order_book_simulator.OrderBook.{
  OrderBook, Levels, ticked, publish_market_data, quote_bid, quote_ask, no_tick, now_ns,
}
use hft_order_book_simulator.OrderBook.Queries.{
  best_bid, best_ask, best_bid_qty, best_ask_qty, is_empty,
}

-- The tick agrees with the queries; only the best ask of an empty side is 0 in the tick and not the greatest price.
pub record TickOf (b : OrderBook) (tick : MarketDataTick) : Type 0 where
  pub bid : tick.best_bid ≡ best_bid b
  pub bid_qty : tick.best_bid_qty ≡ best_bid_qty b
  pub ask : tick.best_ask ≡ (if is_empty b.asks then pos 0 else best_ask b)
  pub ask_qty : tick.best_ask_qty ≡ best_ask_qty b
  pub last_px : tick.last_trade_px ≡ b.last_trade_px
  pub last_qty : tick.last_trade_qty ≡ b.last_trade_qty
  pub now : tick.timestamp ≡ b.clock b.now_calls

-- The tick before the sides are quoted.
abbrev unquoted : OrderBook → MarketDataTick
unquoted b = record no_tick {
  timestamp = b.clock b.now_calls;
  last_trade_px = b.last_trade_px;
  last_trade_qty = b.last_trade_qty;
}

quotes :
    (b : OrderBook) (m n : Levels)
    → TickOf (record b { bids = m; asks = n }) (quote_ask n (quote_bid m (unquoted b)))
unfolding quote_bid quote_ask best_bid best_ask best_bid_qty best_ask_qty
quotes b [] [] = record {
  bid = refl;
  bid_qty = refl;
  ask = refl;
  ask_qty = refl;
  last_px = refl;
  last_qty = refl;
  now = refl;
}
quotes b [] ((j, x) ∷ n) = record {
  bid = refl;
  bid_qty = refl;
  ask = refl;
  ask_qty = refl;
  last_px = refl;
  last_qty = refl;
  now = refl;
}
quotes b ((k, l) ∷ m) [] = record {
  bid = refl;
  bid_qty = refl;
  ask = refl;
  ask_qty = refl;
  last_px = refl;
  last_qty = refl;
  now = refl;
}
quotes b ((k, l) ∷ m) ((j, x) ∷ n) = record {
  bid = refl;
  bid_qty = refl;
  ask = refl;
  ask_qty = refl;
  last_px = refl;
  last_qty = refl;
  now = refl;
}

-- When the market data callback is set, `publish_market_data` calls it once, with the best prices and quantities that the
-- queries answer, except that the best ask is 0 when there is none; the last trade and the time.
pub publish_lem :
    (b : OrderBook)
    → b.on_market_data ≡ true
    → (tick : MarketDataTick) × TickOf b tick
      × ((publish_market_data b).events ≡ ticked tick ∷ b.events)
unfolding publish_market_data now_ns
publish_lem b on =
    (quote_ask b.asks (quote_bid b.bids (unquoted b)), quotes b b.bids b.asks, rw on refl)
