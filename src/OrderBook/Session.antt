-- ===== src/OrderBook/Session.antt =====
-- A book from its construction on, through any number of calls of `add_order`, `cancel_order` and `amend_order`.
mod Best
mod Witnesses
use hft_order_book_simulator.Common.{
  ℕ, zero, suc, ◌+◌, ◌^◌, ◌≤◌, ◌<◌, ◌≡◌, refl, arith, Bool, true, false, List, [], ◌∷◌, ◌==◌,
  length, All, subst, sym, ◌∈◌,
}
use hft_order_book_simulator.Common.Int.{ℤ, negsuc, ◌<ℤ◌, ◌-ℤ◌, pos}
use hft_order_book_simulator.Types.{
  Order, OrderId, Ptr, Price, Quantity, Timestamp, Side, bid, ask, OrderType,
}
use hft_order_book_simulator.MemoryPool
use hft_order_book_simulator.MemoryPool.FreeList.{from, construct-IsFree}
use hft_order_book_simulator.Containers.{lookup}
use hft_order_book_simulator.OrderBook.{OrderBook, Levels, heap, levels, construct_over, before}
use hft_order_book_simulator.OrderBook.Api.{add_order, cancel_order, amend_order}
use hft_order_book_simulator.OrderBook.Sides.{AllPrices, Ahead, SideOk}
use hft_order_book_simulator.OrderBook.Invariant.{Core, BookOk, Uncrossed, nobody}
use hft_order_book_simulator.OrderBook.Invariant.Adding.{add_order-BookOk}
use hft_order_book_simulator.OrderBook.Invariant.Cancelling.{cancel_order-BookOk}
use hft_order_book_simulator.OrderBook.Invariant.Amending.{amend_order-BookOk}
use hft_order_book_simulator.OrderBook.Invariant.Counter.{
  add_order-counter, cancel_order-counter, amend_order-counter,
}

pub data Call : Type 0 where
  add : Side → OrderType → Price → Quantity → Call
  cancel : OrderId → Call
  amend : OrderId → Quantity → Call

abbrev pub call : Call → OrderBook → OrderBook
call (add side type price quantity) b = (add_order side type price quantity b).1
call (cancel id) b = (cancel_order id b).1
call (amend id new_qty) b = (amend_order id new_qty b).1

-- The quantities of the calls are 32-bit ones.
abbrev pub Fits : Call → Type 0
Fits (add side type price quantity) = quantity < 2 ^ 32
Fits (cancel id) = Unit {0}
Fits (amend id new_qty) = new_qty < 2 ^ 32

abbrev pub run : List Call → OrderBook → OrderBook
run [] b = b
run (c ∷ cs) b = run cs (call c b)

pub construct-Core :
    (capacity : ℕ) (raw : ℕ → Order) (on_trade on_market_data : Bool) (clock : ℕ → Timestamp)
    → 0 < capacity
    → capacity < 2 ^ 64
    → Core
        (construct_over (MemoryPool.construct capacity raw) on_trade on_market_data clock)
        (from 0 capacity)
        (λ s. [])
        nobody
unfolding construct_over MemoryPool.construct lookup
construct-Core capacity raw on_trade on_market_data clock some_slot small = record {
  side = nothing_there;
  distinct = λ s. tt;
  uncrossed = no_prices;
  keyed = record {
    free_list = construct-IsFree capacity raw some_slot small;
    distinct = tt;
    own_id = λ i p h. cc;
    apart = λ i p h. cc;
    in_range = λ i p h. cc;
    old = λ i p h. cc;
    used = refl;
  };
  entered = λ s a i. cc;
  listed = λ i a h act n. cc;
  idle = λ s a i. refl;
}
  where
    nothing_there :
        (s : Side)
        → let b =
            construct_over (MemoryPool.construct capacity raw) on_trade on_market_data clock in
          SideOk s (heap b) (levels s b) []
    nothing_there bid = tt
    nothing_there ask = tt

    no_prices :
        (s : Side)
        → Uncrossed s
            (construct_over (MemoryPool.construct capacity raw) on_trade on_market_data clock)
    no_prices bid = tt
    no_prices ask = tt

pub construct-BookOk :
    (capacity : ℕ) (raw : ℕ → Order) (on_trade on_market_data : Bool) (clock : ℕ → Timestamp)
    → 0 < capacity
    → capacity < 2 ^ 64
    → BookOk (construct_over (MemoryPool.construct capacity raw) on_trade on_market_data clock)
construct-BookOk capacity raw on_trade on_market_data clock some_slot small = record {
  free = from 0 capacity;
  queues = λ s. [];
  core = construct-Core capacity raw on_trade on_market_data clock some_slot small;
}

run-BookOk :
    (cs : List Call) (b : OrderBook)
    → BookOk b
    → All Fits cs
    → b.id_counter + length cs < 2 ^ 64
    → BookOk (run cs b)
run-BookOk [] b v fits counted = v
run-BookOk (add side type price quantity ∷ cs) b v fits counted =
    let room : b.id_counter + 1 < 2 ^ 64 = omega arith in
    run-BookOk cs (add_order side type price quantity b).1
      (add_order-BookOk side type price quantity b v room fits.0) fits.1
      (omega (arith, add_order-counter side type price quantity b v room fits.0))
run-BookOk (cancel id ∷ cs) b v fits counted =
    run-BookOk cs (cancel_order id b).1 (cancel_order-BookOk id b v) fits.1
      (omega (arith, cancel_order-counter id b))
run-BookOk (amend id new_qty ∷ cs) b v fits counted =
    run-BookOk cs (amend_order id new_qty b).1 (amend_order-BookOk id new_qty b v fits.0) fits.1
      (omega (arith, amend_order-counter id new_qty b))

-- After any calls of `add_order`, `cancel_order` and `amend_order` from the construction of a book on, fewer than 2^64
-- and with 32-bit quantities, the book is well formed: its sides are in order and do not cross, its map and its pool
-- agree, and the active orders of the map are those of the sides.
pub session_lem :
    (capacity : ℕ) (raw : ℕ → Order) (on_trade on_market_data : Bool) (clock : ℕ → Timestamp)
    (cs : List Call)
    → 0 < capacity
    → capacity < 2 ^ 64
    → All Fits cs
    → length cs < 2 ^ 64
    → BookOk
        (run cs (construct_over (MemoryPool.construct capacity raw) on_trade on_market_data clock))
unfolding construct_over
session_lem capacity raw on_trade on_market_data clock cs some_slot small fits few =
    run-BookOk cs (construct_over (MemoryPool.construct capacity raw) on_trade on_market_data clock)
      (construct-BookOk capacity raw on_trade on_market_data clock some_slot small) fits
      (omega (arith, few))
