-- ===== src/OrderBook.antt =====
-- order_book.hpp and order_book.cpp, `class OrderBook`: its state, and the steps from which its operations are
-- composed. The orders stand in the storage of the pool; both sides, the id map and the matching loops
-- share them by pointer.
pub mod Matching
pub mod Api
pub mod Queries
pub mod Trail
pub mod Ledger
pub mod Accounts
pub mod Ticks
pub mod Keeping
pub mod Tally
pub mod Effects
pub mod Keyed
pub mod Untouched
pub mod Releases
pub mod Invariant
pub mod Session
pub mod RoundTrip
pub mod Sides
pub mod Fok
pub mod Depth
pub mod Cancel
pub mod Refusals
mod Tests
mod Witnesses
use hft_order_book_simulator.Common.{
  ℕ, suc, Bool, true, false, ◌&&◌, Option, none, some, List, [], ◌∷◌, ◌++◌, ◌==◌, if◌then◌else◌,
  is_some,
}
use hft_order_book_simulator.Common.Int.{ℤ, pos, ltb_ℤ}
use hft_order_book_simulator.Common.Words.{add32, sub32, add64}
use hft_order_book_simulator.Types.{
  Order, Ptr, Price, Quantity, OrderId, Timestamp, Side, bid, ask, OrderType, OrderStatus, filled,
  partial, Trade, MarketDataTick, remaining, is_active, default_order,
}
use hft_order_book_simulator.MemoryPool
use hft_order_book_simulator.MemoryPool.{MemoryPool}
use hft_order_book_simulator.PriceLevel
use hft_order_book_simulator.PriceLevel.{PriceLevel, Heap, modify, default_level}
use hft_order_book_simulator.Containers.{
  find, adjust, at_or_insert, erase, lookup, emplace, drop_key,
}

abbrev max_orders : ℕ
max_orders = 65536

-- One side of the book.
abbrev pub Levels : Type 0
Levels = List (Price × PriceLevel)

-- What the callbacks were called with, latest first.
pub data Event : Type 0 where
  traded : Trade → Event
  ticked : MarketDataTick → Event

pub record Stats : Type 0 where
  pub total_trades : ℕ
  pub total_volume : ℕ
  pub orders_added : ℕ
  pub orders_cancelled : ℕ

-- `on_trade` and `on_market_data` say whether a callback is set. `clock` is what the successive calls of
-- `steady_clock::now` return, and `now_calls` how many were made.
pub record OrderBook : Type 0 where
  pub bids : Levels
  pub asks : Levels
  pub order_map : List (OrderId × Ptr)
  pub pool : MemoryPool Order
  pub id_counter : OrderId
  pub last_trade_px : Price
  pub last_trade_qty : Quantity
  pub on_trade : Bool
  pub on_market_data : Bool
  pub stats : Stats
  pub events : List Event
  pub clock : ℕ → Timestamp
  pub now_calls : ℕ

-- The orders in memory.
abbrev pub heap : OrderBook → Heap
heap b = b.pool.storage

abbrev pub with_heap : OrderBook → Heap → OrderBook
with_heap b h = record b { pool = record b.pool { storage = h } }

-- The constructor, over a pool that is given, so that a small one can be put in.
unfoldable pub construct_over : MemoryPool Order → Bool → Bool → (ℕ → Timestamp) → OrderBook
construct_over pool on_trade on_market_data clock = record {
  bids = [];
  asks = [];
  order_map = [];
  pool = pool;
  id_counter = 0;
  last_trade_px = pos 0;
  last_trade_qty = 0;
  on_trade = on_trade;
  on_market_data = on_market_data;
  stats = record { total_trades = 0; total_volume = 0; orders_added = 0; orders_cancelled = 0 };
  events = [];
  clock = clock;
  now_calls = 0;
}

unfoldable pub construct : (ℕ → Order) → Bool → Bool → (ℕ → Timestamp) → OrderBook
unfolding construct_over
construct raw = construct_over (MemoryPool.construct max_orders raw)

-- `std::greater<Price>` for the bids, `std::less<Price>` for the asks.
abbrev pub before : Side → Price → Price → Bool
before bid a b = ltb_ℤ b a
before ask a b = ltb_ℤ a b

abbrev pub levels : Side → OrderBook → Levels
levels bid b = b.bids
levels ask b = b.asks

abbrev pub with_levels : Side → OrderBook → Levels → OrderBook
with_levels bid b m = record b { bids = m }
with_levels ask b m = record b { asks = m }

-- `level_it = side_.find(px); if (level_it != side_.end()) level_it->second.total_qty -= qty;`
unfoldable pub reduce_total : Side → Price → Quantity → OrderBook → OrderBook
unfolding adjust sub32
reduce_total s px qty b =
    with_levels s b
      (adjust (before s) px (λ l. record l { total_qty = sub32 l.total_qty qty }) (levels s b))

unfoldable pub now_ns : OrderBook → Timestamp × OrderBook
now_ns b = (b.clock b.now_calls, record b { now_calls = suc b.now_calls })

-- `o.filled_qty += qty`, and the status that follows from what remains.
unfoldable pub fill : Quantity → Order → Order
unfolding add32 remaining
fill qty o =
    let o' : Order = record o { filled_qty = add32 o.filled_qty qty } in
    record o' { status = if remaining o' == 0 then filled else partial }

-- `if (on_trade_) { ... on_trade_(t); }`
unfoldable pub report_trade : Ptr → Ptr → Price → Quantity → OrderBook → OrderBook
unfolding now_ns
report_trade maker taker px qty b =
    let (now, b') = now_ns b in
    if b.on_trade
    then record b' {
      events =
          traded (record {
            maker_order_id = (heap b maker).id;
            taker_order_id = (heap b taker).id;
            price = px;
            quantity = qty;
            timestamp = now;
          })
          ∷ b'.events;
    }
    else b

-- The two fills and the two statuses touch different orders, so they may be set one order at a time.
unfoldable pub execute_trade : Ptr → Ptr → Price → Quantity → OrderBook → OrderBook
unfolding fill reduce_total report_trade add64
execute_trade maker taker px qty b =
    let b₁ = with_heap b (modify (modify (heap b) maker (fill qty)) taker (fill qty)) in
    let o : Order = heap b₁ maker in
    let b₂ = reduce_total o.side o.price qty b₁ in
    report_trade maker taker px qty (record b₂ {
      last_trade_px = px;
      last_trade_qty = qty;
      stats = record b₂.stats {
        total_trades = add64 b₂.stats.total_trades 1;
        total_volume = add64 b₂.stats.total_volume qty;
      };
    })

-- `level = side_[o->price]; level.price = o->price; level.push_back(o); level.total_qty -= o->filled_qty;`
unfoldable pub rest_order : Ptr → OrderBook → OrderBook
unfolding at_or_insert adjust sub32 PriceLevel.push_back
rest_order p b =
    let o : Order = heap b p in
    let s : Side = o.side in
    let (found, m) = at_or_insert (before s) o.price default_level (levels s b) in
    let (h, pushed) = PriceLevel.push_back (heap b) (record found { price = o.price }) p in
    with_levels s (with_heap b h) (
      adjust (before s) o.price
        (λ l. record pushed { total_qty = sub32 pushed.total_qty (h p).filled_qty }) m)

-- A level is changed through an iterator; `put_level` stores what it has become.
unfoldable pub put_level : Side → Price → PriceLevel → OrderBook → OrderBook
unfolding adjust
put_level s px l b = with_levels s b (adjust (before s) px (λ l'. l) (levels s b))

unfoldable pub erase_level : Side → Price → OrderBook → OrderBook
unfolding erase
erase_level s px b = with_levels s b (erase (before s) px (levels s b))

unfoldable pub remove_from_book : Ptr → OrderBook → OrderBook
unfolding find PriceLevel.remove PriceLevel.empty put_level erase_level
remove_from_book p b =
    let o : Order = heap b p in
    elim (find (before o.side) o.price (levels o.side b)) [
      | none ↦ b
      | some l ↦
          let (h, l') = PriceLevel.remove (heap b) l p in
          let b' = put_level o.side o.price l' (with_heap b h) in
          if PriceLevel.empty l' then erase_level o.side o.price b' else b'
    ]

abbrev pub no_tick : MarketDataTick
no_tick = record {
  best_bid = pos 0;
  best_ask = pos 0;
  best_bid_qty = 0;
  best_ask_qty = 0;
  last_trade_px = pos 0;
  last_trade_qty = 0;
  timestamp = pos 0;
}

-- `if (!bids_.empty()) { ... }`, and so for the asks.
unfoldable pub quote_bid : Levels → MarketDataTick → MarketDataTick
quote_bid [] t = t
quote_bid ((px, l) ∷ m) t = record t { best_bid = px; best_bid_qty = l.total_qty }

unfoldable pub quote_ask : Levels → MarketDataTick → MarketDataTick
quote_ask [] t = t
quote_ask ((px, l) ∷ m) t = record t { best_ask = px; best_ask_qty = l.total_qty }

unfoldable pub publish_market_data : OrderBook → OrderBook
unfolding now_ns quote_bid quote_ask
publish_market_data b =
    let (now, b') = now_ns b in
    let tick : MarketDataTick = record no_tick {
      timestamp = now;
      last_trade_px = b.last_trade_px;
      last_trade_qty = b.last_trade_qty;
    } in
    if b.on_market_data
    then record b' { events = ticked (quote_ask b.asks (quote_bid b.bids tick)) ∷ b'.events }
    else b
