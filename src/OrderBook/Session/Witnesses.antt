-- ===== src/OrderBook/Session/Witnesses.antt =====
-- A book with a pool of four orders, from its construction on, and its first orders.
use hft_order_book_simulator.Common.{
  ◌%◌, ◌+◌, ◌^◌, ◌<◌, ◌≤◌, ◌≡◌, refl, arith, true, false, none, some, ◌⊎◌, [], ◌∷◌, ◌==◌, List,
}
use hft_order_book_simulator.Common.Int.{pos}
use hft_order_book_simulator.Types.{Ptr, Side, bid, ask, limit, default_order, is_active}
use hft_order_book_simulator.MemoryPool
use hft_order_book_simulator.MemoryPool.FreeList.{from}
use hft_order_book_simulator.Containers.{lookup}
use hft_order_book_simulator.OrderBook.Queries.{total_trades, total_volume, orders_cancelled}
use hft_order_book_simulator.OrderBook.{OrderBook, heap, levels, construct_over, rest_order}
use hft_order_book_simulator.OrderBook.Api.{
  add_order, cancel_order, amend_order, enter, is_malformed,
}
use hft_order_book_simulator.OrderBook.Sides.{Resting}
use hft_order_book_simulator.OrderBook.Sides.Placing.{enqueue}
use hft_order_book_simulator.OrderBook.Sides.Dequeue.{dequeue}
use hft_order_book_simulator.OrderBook.Invariant.{Core, BookOk, nobody, put}
use hft_order_book_simulator.OrderBook.Invariant.Adding.{add_order-BookOk}
use hft_order_book_simulator.OrderBook.Invariant.Cancelling.{cancel_order-BookOk, cancel_takes_out}
use hft_order_book_simulator.OrderBook.Invariant.Amending.{amend_order-BookOk, amend_keeps_place}
use hft_order_book_simulator.OrderBook.Invariant.Entering.{entered_book, enter-Core, enter-Entered}
use hft_order_book_simulator.OrderBook.Invariant.Resting.{rest_order-Core}
use hft_order_book_simulator.OrderBook.Refusals.{Unfit, Fit, Done, Open, add_refused, amend_refused}
use hft_order_book_simulator.OrderBook.RoundTrip.{cancel-add}
use hft_order_book_simulator.OrderBook.Tally.{trades_in, volume_in}
use hft_order_book_simulator.OrderBook.Tally.{tally_lem, cancelled_in, cancelled_lem}
use hft_order_book_simulator.OrderBook.Session.Best.{Stands, Quoted, spread_lem}
use hft_order_book_simulator.OrderBook.Session.{
  Call, add, cancel, amend, run, construct-BookOk, construct-Core, session_lem,
}

abbrev fresh : OrderBook
fresh = construct_over (MemoryPool.construct 4 (λ i. default_order)) true true (λ n. pos n)

fresh-BookOk : BookOk fresh
fresh-BookOk =
    construct-BookOk 4 (λ i. default_order) true true (λ n. pos n) (omega arith) (omega arith)

fresh_counter : fresh.id_counter + 1 < 2 ^ 64
unfolding construct_over
fresh_counter = omega arith

-- A bid for 5 at 10.
abbrev one : OrderBook
one = (add_order bid limit (pos 10) 5 fresh).1

add_order-BookOk_example : BookOk (add_order bid limit (pos 10) 5 fresh).1
add_order-BookOk_example =
    add_order-BookOk bid limit (pos 10) 5 fresh fresh-BookOk fresh_counter (omega arith)

one-BookOk : BookOk one
one-BookOk = add_order-BookOk bid limit (pos 10) 5 fresh fresh-BookOk fresh_counter (omega arith)

one_entry : lookup 1 one.order_map ≡ some 0
unfolding add_order lookup construct_over MemoryPool.construct
one_entry = refl

one_active : is_active (heap one 0) ≡ true
unfolding add_order construct_over MemoryPool.construct
one_active = refl

cancel_order-BookOk_example : BookOk (cancel_order 1 one).1
cancel_order-BookOk_example = cancel_order-BookOk 1 one one-BookOk

amend_order-BookOk_example : BookOk (amend_order 1 8 one).1
amend_order-BookOk_example = amend_order-BookOk 1 8 one one-BookOk (omega arith)

cancel_takes_out_example :
    let r = cancel_order 1 one in
    (r.0 ≡ true)
    × Core r.1 (0 ∷ one-BookOk.free) (λ s. dequeue 0 (one-BookOk.queues s)) nobody
    × (r.1.pool.free_head ≡ some 0)
cancel_takes_out_example =
    cancel_takes_out 1 one one-BookOk.free one-BookOk.queues 0 one-BookOk.core one_entry one_active

more_than_filled : (heap one 0).filled_qty < 3
unfolding add_order construct_over MemoryPool.construct
more_than_filled = let h : 0 < 3 = omega arith in h

less_than_all : 3 ≤ (heap one 0).quantity
unfolding add_order construct_over MemoryPool.construct
less_than_all = let h : 3 ≤ 5 = omega arith in h

amend_keeps_place_example :
    let r = amend_order 1 3 one in
    (r.0 ≡ true) × Core r.1 one-BookOk.free one-BookOk.queues nobody × ((heap r.1 0).quantity ≡ 3)
amend_keeps_place_example =
    amend_keeps_place 1 3 one one-BookOk.free one-BookOk.queues 0 one-BookOk.core one_entry
      one_active more_than_filled less_than_all

abbrev calls : List Call
calls = add bid limit (pos 10) 5 ∷ add ask limit (pos 12) 4 ∷ amend 1 7 ∷ cancel 2 ∷ []

session_lem_example : BookOk (run calls fresh)
session_lem_example =
    session_lem 4 (λ i. default_order) true true (λ n. pos n) calls (omega arith) (omega arith)
      (omega arith, (omega arith, (omega arith, (tt, tt)))) (omega arith)

-- The bid, and an ask for 4 at 12.
abbrev two : OrderBook
two = run (add bid limit (pos 10) 5 ∷ add ask limit (pos 12) 4 ∷ []) fresh

two-BookOk : BookOk two
two-BookOk =
    session_lem 4 (λ i. default_order) true true (λ n. pos n)
      (add bid limit (pos 10) 5 ∷ add ask limit (pos 12) 4 ∷ []) (omega arith) (omega arith)
      (omega arith, (omega arith, tt)) (omega arith)

bid_Stands : Stands bid two 1 0
unfolding add_order construct_over MemoryPool.construct lookup is_active
bid_Stands = (refl, refl, refl)

ask_Stands : Stands ask two 2 1
unfolding add_order construct_over MemoryPool.construct lookup is_active
ask_Stands = (refl, refl, refl)

spread_lem_example : Quoted two 0 1
spread_lem_example =
    spread_lem 4 (λ i. default_order) true true (λ n. pos n)
      (add bid limit (pos 10) 5 ∷ add ask limit (pos 12) 4 ∷ []) 1 2 0 1 (omega arith) (omega arith)
      (omega arith, (omega arith, tt)) (omega arith) bid_Stands ask_Stands

add_refused_example :
    ((Unfit limit (pos 0) 5 ⊎ (fresh.pool.free_head ≡ none))
      × (add_order ask limit (pos 0) 5 fresh ≡ (0, fresh)))
    ⊎ (Fit limit (pos 0) 5
        × ((p : Ptr) × (fresh.pool.free_head ≡ some p))
        × ((add_order ask limit (pos 0) 5 fresh).0 ≡ fresh.id_counter + 1))
add_refused_example = add_refused ask limit (pos 0) 5 fresh fresh-BookOk fresh_counter (omega arith)

amend_refused_example :
    (((lookup 1 one.order_map ≡ none)
        ⊎ ((p : Ptr) × (lookup 1 one.order_map ≡ some p)
            × (Done (heap one p).status ⊎ (3 ≤ (heap one p).filled_qty))))
      × (amend_order 1 3 one ≡ (false, one)))
    ⊎ (((p : Ptr) × (lookup 1 one.order_map ≡ some p)
          × Open (heap one p).status
          × ((heap one p).filled_qty < 3))
        × ((amend_order 1 3 one).0 ≡ true))
amend_refused_example = amend_refused 1 3 one

-- The bid before it is matched.
abbrev entered : OrderBook
entered = entered_book bid limit (pos 10) 5 0 fresh

fresh-Core : Core fresh (from 0 4) (λ s. []) nobody
fresh-Core =
    construct-Core 4 (λ i. default_order) true true (λ n. pos n) (omega arith) (omega arith)

entered-Core : Core entered (from 1 3) (λ s. []) (◌==◌ 0)
entered-Core = enter-Core bid limit (pos 10) 5 0 fresh fresh-Core fresh_counter

entered-Resting : Resting bid (pos 10) (heap entered 0)
unfolding enter construct_over MemoryPool.construct is_active
entered-Resting = record {
  side = refl;
  price = refl;
  positive = omega arith;
  active = refl;
  open_qty = let h : 0 < 5 = omega arith in h;
  fits = let h : 5 < 2 ^ 32 = omega arith in h;
}

rest_order-Core_example :
    Core
      (rest_order 0 entered)
      (from 1 3)
      (put bid (enqueue bid (pos 10) 0 (levels bid entered) []) (λ s. []))
      nobody
unfolding enter construct_over MemoryPool.construct
rest_order-Core_example =
    rest_order-Core 0 entered-Core
      (enter-Entered bid limit (pos 10) 5 0 fresh fresh-Core fresh_counter) entered-Resting tt

cancel-add_example :
    let x = add_order bid limit (pos 10) 5 fresh in
    let y = cancel_order x.0 x.1 in
    (y.0 ≡ true)
    × ((s : Side) → levels s y.1 ≡ levels s fresh)
    × Core y.1 (from 0 4) (λ s. []) nobody
unfolding construct_over MemoryPool.construct is_malformed
cancel-add_example =
    cancel-add bid (pos 10) 5 fresh 0 (from 1 3) (λ s. []) fresh-Core fresh_counter (omega arith)
      refl tt

tally_lem_example :
    let b =
      run calls
        (construct_over (MemoryPool.construct 4 (λ i. default_order)) true true (λ n. pos n)) in
    (total_trades b ≡ trades_in b.events % 2 ^ 64) × (total_volume b ≡ volume_in b.events % 2 ^ 64)
tally_lem_example = tally_lem (MemoryPool.construct 4 (λ i. default_order)) true (λ n. pos n) calls

cancelled_lem_example :
    let b = construct_over (MemoryPool.construct 4 (λ i. default_order)) true true (λ n. pos n) in
    orders_cancelled (run calls b) ≡ cancelled_in calls b % 2 ^ 64
cancelled_lem_example =
    cancelled_lem (MemoryPool.construct 4 (λ i. default_order)) true true (λ n. pos n) calls
