-- ===== src/OrderBook/Effects.antt =====
-- What the steps of the matching engine do to the memory and to the two sides, one equation each.
use mathlib.Core.Path.{subst₂}
use hft_order_book_simulator.Common.{
  ◌≡◌, refl, sym, subst, Bool, true, false, [], ◌∷◌, if◌then◌else◌, arith,
}
use hft_order_book_simulator.Common.Words.{add64, sub32}
use hft_order_book_simulator.Types.{Ptr, Price, Quantity, Side, bid, ask, filled}
use hft_order_book_simulator.PriceLevel
use hft_order_book_simulator.PriceLevel.{PriceLevel, Heap, modify}
use hft_order_book_simulator.Containers.{adjust}
use hft_order_book_simulator.OrderBook.{
  OrderBook, Levels, heap, with_heap, before, levels, with_levels, execute_trade, reduce_total,
  report_trade, fill,
}
use hft_order_book_simulator.OrderBook.Matching.{
  opposite, forget, remove_from_front, retire, set_status, erase_front_if_empty,
}

pub before_irrefl : (s : Side) (k : Price) → before s k k ≡ false
before_irrefl bid k = ground arith
before_irrefl ask k = ground arith

pub adjust-front :
    (s : Side) (k : Price) (f : PriceLevel → PriceLevel) (l : PriceLevel) (m : Levels)
    → adjust (before s) k f ((k, l) ∷ m) ≡ (k, f l) ∷ m
unfolding adjust
adjust-front s k f l m = rw before_irrefl

pub levels-with_levels : (s : Side) (b : OrderBook) (m : Levels) → levels s (with_levels s b m) ≡ m
levels-with_levels bid b m = refl
levels-with_levels ask b m = refl

pub opposite-with_levels :
    (s : Side) (b : OrderBook) (m : Levels)
    → levels (opposite s) (with_levels s b m) ≡ levels (opposite s) b
opposite-with_levels bid b m = refl
opposite-with_levels ask b m = refl

with_levels-heap : (s : Side) (b : OrderBook) (m : Levels) → heap (with_levels s b m) ≡ heap b
with_levels-heap bid b m = refl
with_levels-heap ask b m = refl

with_levels-capacity :
    (s : Side) (b : OrderBook) (m : Levels) → (with_levels s b m).pool.capacity ≡ b.pool.capacity
with_levels-capacity bid b m = refl
with_levels-capacity ask b m = refl

-- The memory after a trade of `qty` between two orders.
abbrev pub traded_heap : Heap → Ptr → Ptr → Quantity → Heap
traded_heap h maker taker qty = modify (modify h maker (fill qty)) taker (fill qty)

-- The part of a book that the invariants speak of.
pub record Effect (s : Side) (b : OrderBook) (h : Heap) (m : Levels) (b' : OrderBook) : Type 0 where
  pub memory : heap b' ≡ h
  pub side : levels s b' ≡ m
  pub other : levels (opposite s) b' ≡ levels (opposite s) b
  pub capacity : b'.pool.capacity ≡ b.pool.capacity

Effect-if :
    {s : Side} {b : OrderBook} {h : Heap} {m : Levels} (c : Bool) {x y : OrderBook}
    → Effect s b h m x
    → Effect s b h m y
    → Effect s b h m (if c then x else y)
Effect-if true e f = e
Effect-if false e f = f

report_trade-Effect :
    (s : Side) (maker taker : Ptr) (px : Price) (qty : Quantity) (b : OrderBook)
    → Effect s b (heap b) (levels s b) (report_trade maker taker px qty b)
unfolding report_trade
report_trade-Effect bid maker taker px qty b =
    Effect-if b.on_trade (record { memory = refl; side = refl; other = refl; capacity = refl })
      (record { memory = refl; side = refl; other = refl; capacity = refl })
report_trade-Effect ask maker taker px qty b =
    Effect-if b.on_trade (record { memory = refl; side = refl; other = refl; capacity = refl })
      (record { memory = refl; side = refl; other = refl; capacity = refl })

-- `execute_trade`, for a maker on the side `s'` at the price `k'`.
unfoldable pub execute_at : Side → Price → Ptr → Ptr → Price → Quantity → OrderBook → OrderBook
unfolding reduce_total add64
execute_at s' k' maker taker px qty b =
    let b₂ =
      reduce_total s' k' qty
        (with_heap b (modify (modify (heap b) maker (fill qty)) taker (fill qty))) in
    report_trade maker taker px qty (record b₂ {
      last_trade_px = px;
      last_trade_qty = qty;
      stats = record b₂.stats {
        total_trades = add64 b₂.stats.total_trades 1;
        total_volume = add64 b₂.stats.total_volume qty;
      };
    })

execute_at-Effect :
    (s : Side) (k : Price) (maker taker : Ptr) (px : Price) (qty : Quantity) (b : OrderBook)
    → Effect s b
        (traded_heap (heap b) maker taker qty)
        (adjust (before s) k (λ l. record l { total_qty = sub32 l.total_qty qty }) (levels s b))
        (execute_at s k maker taker px qty b)
unfolding execute_at
execute_at-Effect bid k maker taker px qty b =
    let r = report_trade-Effect bid maker taker px qty _ in
    record { memory = r.memory; side = r.side; other = r.other; capacity = r.capacity }
execute_at-Effect ask k maker taker px qty b =
    let r = report_trade-Effect ask maker taker px qty _ in
    record { memory = r.memory; side = r.side; other = r.other; capacity = r.capacity }

-- A trade between two orders changes their fills and the total of the maker's level.
pub execute_trade-Effect :
    (s : Side) (k : Price) (maker taker : Ptr) (px : Price) (qty : Quantity) (b : OrderBook)
    → (traded_heap (heap b) maker taker qty maker).side ≡ s
    → (traded_heap (heap b) maker taker qty maker).price ≡ k
    → Effect s b
        (traded_heap (heap b) maker taker qty)
        (adjust (before s) k (λ l. record l { total_qty = sub32 l.total_qty qty }) (levels s b))
        (execute_trade maker taker px qty b)
unfolding execute_trade execute_at
execute_trade-Effect s k maker taker px qty b es ek =
    subst₂
      (λ s' k'.
        Effect s b (traded_heap (heap b) maker taker qty)
          (adjust (before s) k (λ l. record l { total_qty = sub32 l.total_qty qty }) (levels s b))
          (execute_at s' k' maker taker px qty b))
      (sym es) (sym ek) (execute_at-Effect s k maker taker px qty b)

removed_front : Levels → Side → Ptr → OrderBook → OrderBook
removed_front [] s p b = b
removed_front ((k, l) ∷ m) s p b =
    with_levels s (with_heap b (PriceLevel.remove (heap b) l p).0)
      ((k, (PriceLevel.remove (heap b) l p).1) ∷ m)

remove_from_front-eq :
    (s : Side) (p : Ptr) (b : OrderBook) (m : Levels)
    → levels s b ≡ m
    → remove_from_front s p b ≡ removed_front m s p b
unfolding remove_from_front removed_front
remove_from_front-eq s p b [] e = simp (e, remove_from_front)
remove_from_front-eq s p b ((k, l) ∷ m) e = simp (e, remove_from_front)

-- A filled maker leaves the level at the front.
pub retire-Effect :
    (s : Side) (p : Ptr) (b : OrderBook) (k : Price) (l : PriceLevel) (m : Levels)
    → levels s b ≡ (k, l) ∷ m
    → Effect s b
        (modify (PriceLevel.remove (heap b) l p).0 p (λ o. record o { status = filled }))
        ((k, (PriceLevel.remove (heap b) l p).1) ∷ m)
        (retire s p b)
unfolding retire removed_front
retire-Effect bid p b k l m e =
    subst
      (λ x.
        Effect bid b
          (modify (PriceLevel.remove (heap b) l p).0 p (λ o. record o { status = filled }))
          ((k, (PriceLevel.remove (heap b) l p).1) ∷ m) (forget p (set_status p filled x)))
      (sym (remove_from_front-eq bid p b ((k, l) ∷ m) e))
      (record { memory = refl; side = refl; other = refl; capacity = refl })
retire-Effect ask p b k l m e =
    subst
      (λ x.
        Effect ask b
          (modify (PriceLevel.remove (heap b) l p).0 p (λ o. record o { status = filled }))
          ((k, (PriceLevel.remove (heap b) l p).1) ∷ m) (forget p (set_status p filled x)))
      (sym (remove_from_front-eq ask p b ((k, l) ∷ m) e))
      (record { memory = refl; side = refl; other = refl; capacity = refl })

erased_front : Levels → Side → OrderBook → OrderBook
erased_front [] s b = b
erased_front ((k, l) ∷ m) s b = if PriceLevel.empty l then with_levels s b m else b

erase_front_if_empty-eq :
    (s : Side) (b : OrderBook) (m : Levels)
    → levels s b ≡ m
    → erase_front_if_empty s b ≡ erased_front m s b
unfolding erase_front_if_empty erased_front
erase_front_if_empty-eq s b [] e = simp (e, erase_front_if_empty)
erase_front_if_empty-eq s b ((k, l) ∷ m) e = simp (e, erase_front_if_empty)

-- The level at the front goes if it has no order left.
pub erase_front-Effect :
    (s : Side) (b : OrderBook) (k : Price) (l : PriceLevel) (m : Levels) (c : Bool)
    → levels s b ≡ (k, l) ∷ m
    → PriceLevel.empty l ≡ c
    → Effect s b (heap b) (if c then m else (k, l) ∷ m) (erase_front_if_empty s b)
unfolding erased_front
erase_front-Effect s b k l m c e ec =
    subst (Effect s b (heap b) (if c then m else (k, l) ∷ m))
      (sym (erase_front_if_empty-eq s b ((k, l) ∷ m) e))
      (subst
        (λ c'.
          Effect s b (heap b) (if c then m else (k, l) ∷ m) (if c' then with_levels s b m else b))
        (sym ec) (choose c))
  where
    choose :
        (c' : Bool)
        → Effect s b (heap b) (if c' then m else (k, l) ∷ m) (if c' then with_levels s b m else b)
    choose true = record {
      memory = with_levels-heap s b m;
      side = levels-with_levels s b m;
      other = opposite-with_levels s b m;
      capacity = with_levels-capacity s b m;
    }
    choose false = record { memory = refl; side = e; other = refl; capacity = refl }
