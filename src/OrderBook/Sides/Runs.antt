-- ===== src/OrderBook/Sides/Runs.antt =====
-- The matching loops have one run at most, so that what a run leads to is what the functions compute.
use hft_order_book_simulator.PriceLevel.{PriceLevel}
use hft_order_book_simulator.OrderBook.{OrderBook}
