-- ===== src/OrderBook/Matching.antt =====
-- order_book.cpp, the matching engine: `match_order`, the two matching loops and the check for FOK orders.
-- The loops against the asks and against the bids are one loop over the passive side: `before s px k` is
-- `px < k` on the asks and `px > k` on the bids. Each loop takes fuel.
use hft_order_book_simulator.Common.{
  ℕ, zero, suc, Bool, true, false, ◌&&◌, Option, none, some, [], ◌∷◌, ◌==◌, if◌then◌else◌, min, ltb,
  leb,
}
use hft_order_book_simulator.Common.Words.{add32}
use hft_order_book_simulator.Types.{
  Order, Ptr, Price, Quantity, Side, bid, ask, OrderType, limit, fok, OrderStatus, filled,
  cancelled, rejected, remaining, is_active,
}
use hft_order_book_simulator.MemoryPool
use hft_order_book_simulator.PriceLevel
use hft_order_book_simulator.PriceLevel.{PriceLevel, modify}
use hft_order_book_simulator.Containers.{drop_key}
use hft_order_book_simulator.OrderBook.{
  OrderBook, Levels, heap, with_heap, before, levels, with_levels, execute_trade, rest_order,
  publish_market_data,
}

abbrev pub opposite : Side → Side
opposite bid = ask
opposite ask = bid

abbrev pub is_limit : OrderType → Bool
is_limit limit = true
is_limit _ = false

abbrev pub is_fok : OrderType → Bool
is_fok fok = true
is_fok _ = false

abbrev pub set_status : Ptr → OrderStatus → OrderBook → OrderBook
set_status p st b = with_heap b (modify (heap b) p λ o. record o { status = st })

-- `order_map_.erase(o->id); pool_->deallocate(o);`
unfoldable pub forget : Ptr → OrderBook → OrderBook
unfolding drop_key MemoryPool.deallocate
forget p b = record b {
  order_map = drop_key (heap b p).id b.order_map;
  pool = MemoryPool.deallocate (some p) b.pool;
}

-- `level.remove(o)`, for the level at `begin()`.
unfoldable pub remove_from_front : Side → Ptr → OrderBook → OrderBook
unfolding PriceLevel.remove
remove_from_front s p b = elim (levels s b) [
  | [] ↦ b
  | (k, l) ∷ m ↦
      let (h, l') = PriceLevel.remove (heap b) l p in with_levels s (with_heap b h) ((k, l') ∷ m)
]

-- The maker is filled: `level.remove(ask); ask->status = FILLED; order_map_.erase(ask->id); ...`
unfoldable pub retire : Side → Ptr → OrderBook → OrderBook
unfolding remove_from_front forget
retire s p b = forget p (set_status p filled (remove_from_front s p b))

-- The inner loop: from the order `cur` on through the level at `begin()`.
unfoldable pub match_level : ℕ → Side → Price → Ptr → Option Ptr → OrderBook → OrderBook
match_level zero s px taker cur b = b
match_level (suc fuel) s px taker none b = b
match_level (suc fuel) s px taker (some maker) b =
    let fill_qty = min (remaining (heap b taker)) (remaining (heap b maker)) in
    let b₁ = execute_trade maker taker px fill_qty b in
    let b₂ = if remaining (heap b₁ maker) == 0 then retire s maker b₁ else b₁ in
    let rest = match_level fuel s px taker (heap b₁ maker).next b₂ in
    if is_active (heap b taker) then rest else b

-- `if (level.empty()) side_.erase(side_.begin());`
unfoldable pub erase_front_if_empty : Side → OrderBook → OrderBook
unfolding PriceLevel.empty
erase_front_if_empty s b = elim (levels s b) [
  | [] ↦ b
  | (k, l) ∷ m ↦ if PriceLevel.empty l then with_levels s b m else b
]

-- The price check: only a LIMIT order has one.
unfoldable pub stops_at : Side → Order → Price → Bool
stops_at s o px = is_limit o.type && before s o.price px

-- The outer loop, from the best level of the passive side `s` on.
unfoldable pub match_against : ℕ → Side → Ptr → OrderBook → OrderBook
match_against zero s taker b = b
match_against (suc fuel) s taker b = elim (levels s b) [
  | [] ↦ b
  | (k, l) ∷ m ↦
      let rest =
        match_against fuel s taker
          (erase_front_if_empty s (match_level (suc b.pool.capacity) s l.price taker l.head b)) in
      if is_active (heap b taker)
      then (if stops_at s (heap b taker) l.price then b else rest)
      else b
]

-- No loop runs more often than there are orders in the pool.
abbrev pub loop_fuel : OrderBook → ℕ
loop_fuel b = suc b.pool.capacity

-- The loop of `check_fok_fillable`, over the passive side.
unfoldable pub fok_available : Side → Price → Quantity → Quantity → Levels → Quantity
unfolding add32
fok_available s px qty available [] = available
fok_available s px qty available ((k, l) ∷ m) =
    let more = add32 available l.total_qty in
    let rest = fok_available s px qty more m in
    if before s px k then available else if leb qty more then more else rest

unfoldable pub check_fok_fillable : Order → OrderBook → Quantity
unfolding fok_available
check_fok_fillable o b =
    let s = opposite o.side in fok_available s o.price o.quantity 0 (levels s b)

-- `status = REJECTED`, and the order is gone; nothing is published.
unfoldable pub reject : Ptr → OrderBook → OrderBook
unfolding forget
reject p b = forget p (set_status p rejected b)

-- What follows the matching loop: a LIMIT order rests with what is left of it, any other is cancelled.
unfoldable pub settle : Ptr → OrderBook → OrderBook
settle p b = publish_market_data (
    if is_active (heap b p)
    then (if is_limit (heap b p).type then rest_order p b else forget p (set_status p cancelled b))
    else b)

unfoldable pub match_order : Ptr → OrderBook → OrderBook
match_order p b =
    let o : Order = heap b p in
    if is_fok o.type && ltb (check_fok_fillable o b) o.quantity
    then reject p b
    else settle p (match_against (loop_fuel b) (opposite o.side) p b)
