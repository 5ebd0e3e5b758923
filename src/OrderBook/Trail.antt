-- ===== src/OrderBook/Trail.antt =====
-- What the matching loops do, as a sequence of steps: trades, each with the first order of the best level of the passive
-- side, and the removal of levels that are empty.
use hft_order_book_simulator.Common.{
  ◌≡◌, true, false, Option, none, some, List, [], ◌∷◌, ◌++◌, ◌==◌, min,
}
use hft_order_book_simulator.Types.{Ptr, Price, Quantity, Side, remaining, is_active}
use hft_order_book_simulator.OrderBook.{OrderBook, Levels, heap, levels, execute_trade}
use hft_order_book_simulator.OrderBook.Matching.{retire, erase_front_if_empty, stops_at}

-- The first order of the best level, with the price of the level.
abbrev pub front : Levels → Option (Price × Ptr)
front [] = none
front ((k, l) ∷ m) = elim l.head [ none ↦ none | some p ↦ some (l.price, p) ]

-- The next trade of the incoming order `t` is with `p`, at the price `px`, which its limit reaches, for all that the two
-- allow.
pub record Next (s : Side) (t p : Ptr) (px : Price) (qty : Quantity) (b : OrderBook) : Type 0 where
  pub first : front (levels s b) ≡ some (px, p)
  pub most : qty ≡ min (remaining (heap b t)) (remaining (heap b p))
  pub apart : (p == t) ≡ false
  pub active : is_active (heap b t) ≡ true
  pub reaches : stops_at s (heap b t) px ≡ false

-- Steps that lead from a book to `b'`, with the makers that they retire, in this order.
pub data Trail (s : Side) (t : Ptr) (b' : OrderBook) : List Ptr → OrderBook → Type 0 where
  over : Trail s t b' [] b'
  fills_part :
      {b : OrderBook} {rs : List Ptr} (p : Ptr) (px : Price) (qty : Quantity)
      → Next s t p px qty b
      → (remaining (heap (execute_trade p t px qty b) p) == 0) ≡ false
      → Trail s t b' rs (execute_trade p t px qty b)
      → Trail s t b' rs b
  fills_whole :
      {b : OrderBook} {rs : List Ptr} (p : Ptr) (px : Price) (qty : Quantity)
      → Next s t p px qty b
      → (remaining (heap (execute_trade p t px qty b) p) == 0) ≡ true
      → Trail s t b' rs (retire s p (execute_trade p t px qty b))
      → Trail s t b' (p ∷ rs) b
  erases :
      {b : OrderBook} {rs : List Ptr}
      → Trail s t b' rs (erase_front_if_empty s b)
      → Trail s t b' rs b

pub Trail-trans :
    {s : Side} {t : Ptr} {b' b'' : OrderBook} {rs' : List Ptr} {b : OrderBook} {rs : List Ptr}
    → Trail s t b' rs b
    → Trail s t b'' rs' b'
    → Trail s t b'' (rs ++ rs') b
Trail-trans over y = y
Trail-trans (fills_part p px qty n e x) y = fills_part p px qty n e (Trail-trans x y)
Trail-trans (fills_whole p px qty n e x) y = fills_whole p px qty n e (Trail-trans x y)
Trail-trans (erases x) y = erases (Trail-trans x y)
