-- ===== src/OrderBook/Witnesses.antt =====
-- A book with one ask, for 5 at 10, and the orders that meet it.
use hft_order_book_simulator.Common.{
  List, zero, suc, ◌+◌, ◌≡◌, refl, arith, true, false, none, some, [], ◌∷◌, ◌⊎◌, take, map,
}
use hft_order_book_simulator.Common.Int.{pos}
use hft_order_book_simulator.Types.{
  Trade, MarketDataTick, Order, bid, ask, limit, fok, default_order, remaining, is_active,
}
use hft_order_book_simulator.PriceLevel.{PriceLevel, Heap}
use hft_order_book_simulator.OrderBook.{OrderBook, heap, ticked, publish_market_data}
use hft_order_book_simulator.OrderBook.Matching.{match_against, loop_fuel, match_order}
use hft_order_book_simulator.OrderBook.Sides.{LevelOk}
use hft_order_book_simulator.OrderBook.Sides.Level.{Taker}
use hft_order_book_simulator.OrderBook.Sides.Outer.{SideRun}
use hft_order_book_simulator.OrderBook.Sides.Sweep.{Ready, match_against_lem}
use hft_order_book_simulator.OrderBook.Accounts.{Accounts, accounts_lem}
use hft_order_book_simulator.OrderBook.Ticks.{TickOf, publish_lem}
use hft_order_book_simulator.OrderBook.Sides.Loops.{Rounds}
use hft_order_book_simulator.OrderBook.Sides.Ending.{loops_end}
use hft_order_book_simulator.OrderBook.Api.{cancel_order}
use hft_order_book_simulator.OrderBook.Queries.{bid_depth, ask_depth}
use hft_order_book_simulator.OrderBook.Depth.{entry_of, depth_lem}
use hft_order_book_simulator.OrderBook.Cancel.{cancel_once}
use hft_order_book_simulator.Containers.{lookup}
use hft_order_book_simulator.OrderBook.Fok.{Rejected, fok_all_or_nothing}

abbrev the_ask : Order
the_ask = record default_order { id = 1; price = pos 10; quantity = 5; side = ask; type = limit }

abbrev the_fok : Order
the_fok = record default_order { id = 2; price = pos 10; quantity = 5; side = bid; type = fok }

abbrev orders : Heap
orders zero = the_ask
orders (suc p) = the_fok

abbrev ask_level : PriceLevel
ask_level = record { price = pos 10; total_qty = 5; head = some 0; tail = some 0; order_count = 1 }

abbrev book : OrderBook
book = record {
  bids = [];
  asks = (pos 10, ask_level) ∷ [];
  order_map = (1, 0) ∷ (2, 1) ∷ [];
  pool = record {
    capacity = 4;
    storage = orders;
    next = λ i. none;
    free_head = some 2;
    allocated = 2;
  };
  id_counter = 2;
  last_trade_px = pos 0;
  last_trade_qty = 0;
  on_trade = true;
  on_market_data = true;
  stats = record { total_trades = 0; total_volume = 0; orders_added = 2; orders_cancelled = 0 };
  events = [];
  clock = λ n. pos n;
  now_calls = 2;
}

ask_level-LevelOk : LevelOk ask orders (pos 10) ask_level (0 ∷ [])
unfolding remaining is_active
ask_level-LevelOk = record {
  queue = record {
    head = refl;
    tail = refl;
    links = (refl, refl, tt);
    distinct = (refl, tt);
    count = refl;
  };
  price = refl;
  orders = (
    record {
      side = refl;
      price = refl;
      positive = omega arith;
      active = refl;
      open_qty = omega arith;
      fits = omega arith;
    },
    tt,
  );
  total = refl;
}

the_fok-Taker : Taker the_fok
unfolding is_active
the_fok-Taker = record {
  fits = omega arith;
  within = omega arith;
  open_if = λ e. omega arith;
  full_if = λ e. cc;
}

book-Ready : Ready ask book 1 ((0 ∷ []) ∷ [])
book-Ready = record {
  side = (ask_level-LevelOk, (λ e. cc), tt, tt);
  distinct = (refl, tt);
  apart = refl;
  taker = the_fok-Taker;
  room = omega arith;
}

match_against_lem_example :
    SideRun ask 1 ((0 ∷ []) ∷ []) book (match_against (loop_fuel book) ask 1 book)
match_against_lem_example = match_against_lem ask book 1 ((0 ∷ []) ∷ []) book-Ready

fok_all_or_nothing_example :
    let b = match_order 1 book in
    Rejected book 1 b ⊎ (((heap b 1).filled_qty ≡ 5) × (is_active (heap b 1) ≡ false))
fok_all_or_nothing_example = fok_all_or_nothing book 1 ((0 ∷ []) ∷ []) book-Ready refl refl

depth_lem_example :
    (bid_depth 1 book ≡ take 1 (map entry_of book.bids))
    × (ask_depth 1 book ≡ take 1 (map entry_of book.asks))
depth_lem_example = depth_lem 1 book

cancel_once_example :
    let b = (cancel_order 1 book).1 in
    (lookup 1 b.order_map ≡ none) × (cancel_order 1 b ≡ (false, b))
unfolding cancel_order
cancel_once_example = cancel_once 1 book (refl, (refl, tt)) refl

loops_end_example : Rounds ask 1 book (match_against (loop_fuel book + 7) ask 1 book)
loops_end_example = loops_end 7 ask book 1 ((0 ∷ []) ∷ []) book-Ready

accounts_lem_example :
    (ts : List Trade) × Accounts ask 1 book (match_against (loop_fuel book) ask 1 book) ts
accounts_lem_example = accounts_lem ask book 1 ((0 ∷ []) ∷ []) book-Ready

publish_lem_example :
    let b = record book { on_market_data = true } in
    (tick : MarketDataTick) × TickOf b tick
    × ((publish_market_data b).events ≡ ticked tick ∷ b.events)
publish_lem_example = publish_lem (record book { on_market_data = true }) refl
