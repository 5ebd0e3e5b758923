-- ===== src/OrderBook/Api.antt =====
-- order_book.cpp, the calls that change a book: `add_order`, `cancel_order` and `amend_order`.
use hft_order_book_simulator.Common.{
  Bool, true, false, ◌&&◌, ◌||◌, Option, none, some, ◌==◌, if◌then◌else◌, ltb,
}
use hft_order_book_simulator.Common.Int.{pos, leb_ℤ}
use hft_order_book_simulator.Common.Words.{add64, sub32}
use hft_order_book_simulator.Types.{
  Order, Ptr, Price, Quantity, OrderId, Side, OrderType, new, cancelled, is_active, default_order,
  remaining,
}
use hft_order_book_simulator.MemoryPool
use hft_order_book_simulator.MemoryPool.{MemoryPool}
use hft_order_book_simulator.PriceLevel.{modify}
use hft_order_book_simulator.Containers.{lookup, emplace, drop_key}
use hft_order_book_simulator.OrderBook.{
  OrderBook, heap, with_heap, now_ns, reduce_total, rest_order, remove_from_book,
  publish_market_data, execute_trade,
}
use hft_order_book_simulator.OrderBook.Matching.{
  is_limit, match_order, forget, set_status, match_against, settle, reject, match_level,
  check_fok_fillable, retire, erase_front_if_empty, stops_at,
}

-- The two guards before anything is allocated.
unfoldable pub is_malformed : OrderType → Price → Quantity → Bool
is_malformed type price quantity = quantity == 0 || (is_limit type && leb_ℤ price (pos 0))

-- The order in the slot `p` is filled in and entered in the map.
unfoldable pub enter : Side → OrderType → Price → Quantity → Ptr → OrderBook → OrderBook
unfolding add64 now_ns emplace
enter side type price quantity p b =
    let id = add64 b.id_counter 1 in
    let (now, b') = now_ns (record b { id_counter = id }) in
    let o : Order = record {
      id = id;
      price = price;
      quantity = quantity;
      filled_qty = 0;
      side = side;
      type = type;
      status = new;
      timestamp = now;
      prev = none;
      next = none;
    } in
    record (with_heap b' (modify (heap b') p λ old. o)) {
      order_map = emplace id p b'.order_map;
      stats = record b'.stats { orders_added = add64 b'.stats.orders_added 1 };
    }

-- What `add_order` does with what the pool answers. The id that is returned is read from the slot after
-- `match_order` may have freed it; freeing leaves the bytes of the slot as they are.
unfoldable pub submit :
    Side
    → OrderType
    → Price
    → Quantity
    → Option Ptr × MemoryPool Order
    → OrderBook
    → OrderId × OrderBook
unfolding enter match_order
submit side type price quantity (none, pool) b = (0, record b { pool = pool })
submit side type price quantity (some p, pool) b =
    let b' = match_order p (enter side type price quantity p (record b { pool = pool })) in
    ((heap b' p).id, b')

unfoldable pub add_order : Side → OrderType → Price → Quantity → OrderBook → OrderId × OrderBook
unfolding is_malformed MemoryPool.allocate submit enter match_order settle reject check_fok_fillable
    forget match_against match_level execute_trade retire erase_front_if_empty stops_at remaining
    is_active rest_order publish_market_data
add_order side type price quantity b =
    if is_malformed type price quantity
    then (0, b)
    else submit side type price quantity (MemoryPool.allocate default_order b.pool) b

-- What `cancel_order` does with an active order.
unfoldable pub withdraw : OrderId → Ptr → OrderBook → OrderBook
unfolding remove_from_book drop_key MemoryPool.deallocate add64 publish_market_data
withdraw id p b =
    let b₁ = set_status p cancelled (remove_from_book p b) in
    publish_market_data (record b₁ {
      order_map = drop_key id b₁.order_map;
      stats = record b₁.stats { orders_cancelled = add64 b₁.stats.orders_cancelled 1 };
      pool = MemoryPool.deallocate (some p) b₁.pool;
    })

unfoldable pub cancel_order : OrderId → OrderBook → Bool × OrderBook
unfolding lookup is_active withdraw
cancel_order id b = elim (lookup id b.order_map) [
  | none ↦ (false, b)
  | some p ↦ if is_active (heap b p) then (true, withdraw id p b) else (false, b)
]

abbrev pub set_quantity : Ptr → Quantity → OrderBook → OrderBook
set_quantity p qty b = with_heap b (modify (heap b) p λ o. record o { quantity = qty })

-- An increase goes to the back of the level; a reduction stays where it is.
unfoldable pub resize : Ptr → Quantity → OrderBook → OrderBook
unfolding remove_from_book rest_order reduce_total sub32
resize p new_qty b =
    let o : Order = heap b p in
    if ltb o.quantity new_qty
    then rest_order p (set_quantity p new_qty (remove_from_book p b))
    else set_quantity p new_qty (reduce_total o.side o.price (sub32 o.quantity new_qty) b)

unfoldable pub amend_order : OrderId → Quantity → OrderBook → Bool × OrderBook
unfolding lookup is_active resize publish_market_data
amend_order id new_qty b = elim (lookup id b.order_map) [
  | none ↦ (false, b)
  | some p ↦
      if is_active (heap b p) && ltb (heap b p).filled_qty new_qty
      then (true, publish_market_data (resize p new_qty b))
      else (false, b)
]
