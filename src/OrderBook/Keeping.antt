-- ===== src/OrderBook/Keeping.antt =====
-- What the counters and the callbacks of a book keep through all that a call does.
use hft_order_book_simulator.Common.{
  ℕ, zero, suc, sym, subst, Bool, true, false, ◌&&◌, Option, none, some, [], ◌∷◌, ◌==◌,
  if◌then◌else◌, min, ltb,
}
use hft_order_book_simulator.Common.Words.{add64}
use hft_order_book_simulator.Types.{
  Order, Ptr, Price, Quantity, Side, OrderType, OrderId, default_order, cancelled, is_active, Trade,
  MarketDataTick, remaining,
}
use hft_order_book_simulator.MemoryPool
use hft_order_book_simulator.MemoryPool.{MemoryPool}
use hft_order_book_simulator.PriceLevel
use hft_order_book_simulator.PriceLevel.{PriceLevel}
use hft_order_book_simulator.Containers.{find, lookup}
use hft_order_book_simulator.OrderBook.{
  OrderBook, ticked, heap, with_heap, levels, before, execute_trade, rest_order, remove_from_book,
  put_level, erase_level, reduce_total, publish_market_data,
}
use hft_order_book_simulator.OrderBook.Matching.{
  opposite, set_status, erase_front_if_empty, retire, forget, reject, settle, stops_at, is_limit,
  is_fok, match_level, match_against, match_order, loop_fuel, check_fok_fillable,
}
use hft_order_book_simulator.OrderBook.Api.{
  is_malformed, enter, submit, add_order, set_quantity, resize, amend_order,
}
use hft_order_book_simulator.OrderBook.Ledger.{
  Ledger, ledger, with_trade, trade_of, execute_trade-ledger, erase_front-Quiet,
  remove_from_front-Quiet, with_levels-ledger,
}

-- A property of the ledger that trades, ticks and the count of the orders added do not end.
module _ (P : Ledger → Type 0) (trades : (tr : Trade) (l : Ledger) → P l → P (with_trade tr l))
    (ticks : (x : MarketDataTick) (l : Ledger) → P l → P (l.0, ticked x ∷ l.1, l.2, l.3, l.4))
    (adds : (n : ℕ) (l : Ledger)
      → P l
      → P (record l.0 { orders_added = n }, l.1, l.2, l.3, l.4)) where
  if_keeps :
      (c : Bool) (x y : OrderBook) → P (ledger x) → P (ledger y) → P (ledger (if c then x else y))
  if_keeps true x y h k = h
  if_keeps false x y h k = k

  -- The book of an answer.
  answer_keeps :
      {A : Type 0} (c : Bool) (x y : A × OrderBook)
      → P (ledger x.1)
      → P (ledger y.1)
      → P (ledger (if c then x else y).1)
  answer_keeps true x y h k = h
  answer_keeps false x y h k = k

  execute_trade_keeps :
      (maker taker : Ptr) (px : Price) (qty : Quantity) (b : OrderBook)
      → P (ledger b)
      → P (ledger (execute_trade maker taker px qty b))
  execute_trade_keeps maker taker px qty b h =
      subst P (sym (execute_trade-ledger maker taker px qty b))
        (trades (trade_of maker taker px qty b) (ledger b) h)

  retire_keeps : (s : Side) (p : Ptr) (b : OrderBook) → P (ledger b) → P (ledger (retire s p b))
  unfolding retire forget
  retire_keeps s p b h = subst P (sym (remove_from_front-Quiet s p p b).ledger_same) h

  pub publish_keeps : (b : OrderBook) → P (ledger b) → P (ledger (publish_market_data b))
  unfolding publish_market_data
  publish_keeps b h = if_keeps b.on_market_data _ b (ticks _ (ledger b) h) h

  -- The matching loops.
  match_level_keeps :
      (fuel : ℕ) (s : Side) (px : Price) (taker : Ptr) (cur : Option Ptr) (b : OrderBook)
      → P (ledger b)
      → P (ledger (match_level fuel s px taker cur b))
  unfolding match_level
  match_level_keeps zero s px taker cur b h = h
  match_level_keeps (suc fuel) s px taker none b h = h
  match_level_keeps (suc fuel) s px taker (some maker) b h =
      let qty = min (remaining (heap b taker)) (remaining (heap b maker)) in
      let b₁ = execute_trade maker taker px qty b in
      let h₁ = execute_trade_keeps maker taker px qty b h in
      let done = remaining (heap b₁ maker) == 0 in
      let b₂ = if done then retire s maker b₁ else b₁ in
      let h₂ = if_keeps done (retire s maker b₁) b₁ (retire_keeps s maker b₁ h₁) h₁ in
      if_keeps (is_active (heap b taker)) _ b
        (match_level_keeps fuel s px taker (heap b₁ maker).next b₂ h₂) h

  match_against_keeps :
      (fuel : ℕ) (s : Side) (taker : Ptr) (b : OrderBook)
      → P (ledger b)
      → P (ledger (match_against fuel s taker b))
  unfolding match_against
  match_against_keeps zero s taker b h = h
  match_against_keeps (suc fuel) s taker b h =
      elim (levels s b)
        as (λ z. P (
          ledger (elim z as (λ y. OrderBook) [
            | [] ↦ b
            | (k, l) ∷ m ↦
                let rest = match_against fuel s taker (
                  erase_front_if_empty s
                    (match_level (suc b.pool.capacity) s l.price taker l.head b)) in
                if is_active (heap b taker)
                then (if stops_at s (heap b taker) l.price then b else rest)
                else b
          ]))) [
            | [] ↦ h
            | (k, l) ∷ m ↦
                let b₁ = match_level (suc b.pool.capacity) s l.price taker l.head b in
                let h₁ = match_level_keeps (suc b.pool.capacity) s l.price taker l.head b h in
                let h₂ = subst P (sym (erase_front-Quiet s taker b₁).ledger_same) h₁ in
                let rest = match_against_keeps fuel s taker (erase_front_if_empty s b₁) h₂ in
                if_keeps (is_active (heap b taker)) _ b
                  (if_keeps (stops_at s (heap b taker) l.price) b _ h rest) h
          ]

  rest_order_keeps : (p : Ptr) (b : OrderBook) → P (ledger b) → P (ledger (rest_order p b))
  unfolding rest_order
  rest_order_keeps p b h = subst P (sym (with_levels-ledger (heap b p).side _ _)) h

  pub remove_from_book_keeps :
      (p : Ptr) (b : OrderBook) → P (ledger b) → P (ledger (remove_from_book p b))
  unfolding remove_from_book put_level erase_level
  remove_from_book_keeps p b h =
      let s = (heap b p).side in
      let k = (heap b p).price in
      elim (find (before s) k (levels s b))
        as (λ c. P (
          ledger (elim c as (λ z. OrderBook) [
            | none ↦ b
            | some l ↦
                let (g, l') = PriceLevel.remove (heap b) l p in
                let b' = put_level s k l' (with_heap b g) in
                if PriceLevel.empty l' then erase_level s k b' else b'
          ]))) [
            | none ↦ h
            | some l ↦
                let (g, l') = PriceLevel.remove (heap b) l p in
                let b' = put_level s k l' (with_heap b g) in
                let h' = subst P (sym (with_levels-ledger s (with_heap b g) _)) h in
                if_keeps (PriceLevel.empty l') _ b' (subst P (sym (with_levels-ledger s b' _)) h')
                  h'
          ]

  settle_keeps : (p : Ptr) (b : OrderBook) → P (ledger b) → P (ledger (settle p b))
  unfolding settle forget
  settle_keeps p b h = publish_keeps _ (
      if_keeps (is_active (heap b p)) _ b
        (if_keeps (is_limit (heap b p).type) (rest_order p b) (forget p (set_status p cancelled b))
          (rest_order_keeps p b h) h)
        h)

  match_order_keeps : (p : Ptr) (b : OrderBook) → P (ledger b) → P (ledger (match_order p b))
  unfolding match_order reject forget
  match_order_keeps p b h =
      let o : Order = heap b p in
      let s = opposite o.side in
      if_keeps (is_fok o.type && ltb (check_fok_fillable o b) o.quantity) (reject p b) _ h (
        settle_keeps p (match_against (loop_fuel b) s p b)
          (match_against_keeps (loop_fuel b) s p b h))

  submit_keeps :
      (side : Side) (type : OrderType) (price : Price) (quantity : Quantity)
      (r : Option Ptr × MemoryPool Order) (b : OrderBook)
      → P (ledger b)
      → P (ledger (submit side type price quantity r b).1)
  unfolding submit enter
  submit_keeps side type price quantity (none, pool) b h = h
  submit_keeps side type price quantity (some p, pool) b h =
      match_order_keeps p (enter side type price quantity p (record b { pool = pool }))
        (adds (add64 b.stats.orders_added 1) (ledger b) h)

  resize_keeps :
      (p : Ptr) (new_qty : Quantity) (b : OrderBook)
      → P (ledger b)
      → P (ledger (resize p new_qty b))
  unfolding resize reduce_total
  resize_keeps p new_qty b h =
      if_keeps (ltb (heap b p).quantity new_qty) _ _
        (rest_order_keeps p (set_quantity p new_qty (remove_from_book p b))
          (remove_from_book_keeps p b h))
        (subst P (sym (with_levels-ledger (heap b p).side b _)) h)

  pub add_order_keeps :
      (side : Side) (type : OrderType) (price : Price) (quantity : Quantity) (b : OrderBook)
      → P (ledger b)
      → P (ledger (add_order side type price quantity b).1)
  unfolding add_order
  add_order_keeps side type price quantity b h =
      answer_keeps (is_malformed type price quantity) (0, b)
        (submit side type price quantity (MemoryPool.allocate default_order b.pool) b) h
        (submit_keeps side type price quantity (MemoryPool.allocate default_order b.pool) b h)

  pub amend_order_keeps :
      (id : OrderId) (new_qty : Quantity) (b : OrderBook)
      → P (ledger b)
      → P (ledger (amend_order id new_qty b).1)
  unfolding amend_order
  amend_order_keeps id new_qty b h =
      elim (lookup id b.order_map)
        as (λ o. P (
          ledger
            (elim o as (λ z. Bool × OrderBook) [
              | none ↦ (false, b)
              | some p ↦
                  if is_active (heap b p) && ltb (heap b p).filled_qty new_qty
                  then (true, publish_market_data (resize p new_qty b))
                  else (false, b)
            ]).1)) [
              | none ↦ h
              | some p ↦
                  answer_keeps (is_active (heap b p) && ltb (heap b p).filled_qty new_qty)
                    (true, publish_market_data (resize p new_qty b)) (false, b)
                    (publish_keeps (resize p new_qty b) (resize_keeps p new_qty b h)) h
            ]
