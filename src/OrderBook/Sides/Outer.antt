-- ===== src/OrderBook/Sides/Outer.antt =====
-- The outer matching loop: level by level from the best price on, until the incoming order is used up, the side is
-- empty, or a LIMIT order does not reach the next price.
use hft_order_book_simulator.Common.{
  ℕ, zero, suc, ◌+◌, ◌≡◌, refl, true, false, List, [], ◌∷◌, ◌++◌, ◌==◌, Bool-cases, inl, inr, ◌⊎◌,
  ◌∈◌, ◌∉◌,
}
use hft_order_book_simulator.Types.{Order, Ptr, Price, Side, is_active}
use hft_order_book_simulator.PriceLevel.{PriceLevel}
use hft_order_book_simulator.OrderBook.{OrderBook, Levels, heap, levels}
use hft_order_book_simulator.OrderBook.Matching.{
  match_against, match_level, stops_at, erase_front_if_empty, opposite,
}
use hft_order_book_simulator.OrderBook.Trail.{Trail, over}
use hft_order_book_simulator.OrderBook.Sides.{SideOk, Ahead, all_of, sum_remaining}
use hft_order_book_simulator.OrderBook.Sides.Level.{Taker, SameTaker}

-- Why the loop has left, by the levels that are there: none, or the order is used up, or it does not reach the best.
abbrev pub Stopped : Side → Order → Levels → Type 0
Stopped s o [] = Unit {0}
Stopped s o ((k, l) ∷ m) = (is_active o ≡ false) ⊎ (stops_at s o k ≡ true)

-- The side `s`, which held the orders at `qs`, has been matched against the incoming order `t`, up to the state `b'`.
pub record SideRun (s : Side) (t : Ptr) (qs : List (List Ptr)) (b b' : OrderBook) : Type 0 where
  pub left : List (List Ptr)
  pub ok : SideOk s (heap b') (levels s b') left
  pub other : levels (opposite s) b' ≡ levels (opposite s) b
  pub outside : (a : Ptr) → a ∉ all_of qs → (t == a) ≡ false → heap b' a ≡ heap b a
  pub taken : List Ptr
  pub split : all_of qs ≡ taken ++ all_of left
  pub trail : Trail s t b' taken b
  pub within : (a : Ptr) → a ∈ all_of left → a ∈ all_of qs
  pub same : SameTaker (heap b t) (heap b' t)
  pub taker : Taker (heap b' t)
  pub balance :
      (heap b' t).filled_qty + sum_remaining (heap b') (all_of left)
      ≡ (heap b t).filled_qty + sum_remaining (heap b) (all_of qs)
  pub prices : (s' : Side) (k : Price) → Ahead s' k (levels s b) → Ahead s' k (levels s b')
  pub stopped : Stopped s (heap b' t) (levels s b')
  pub capacity : b'.pool.capacity ≡ b.pool.capacity

pub stay :
    {s : Side} {t : Ptr} {qs : List (List Ptr)} {b : OrderBook} (m : Levels)
    → levels s b ≡ m
    → SideOk s (heap b) m qs
    → Taker (heap b t)
    → Stopped s (heap b t) m
    → SideRun s t qs b b
stay {s} {t} {qs} {b} m e v w st = record {
  left = qs;
  ok = rw e v;
  other = refl;
  outside = λ a out ne. refl;
  taken = [];
  split = refl;
  trail = over;
  within = λ a i. i;
  same = refl;
  taker = w;
  balance = refl;
  prices = λ s' k h. h;
  stopped = rw e st;
  capacity = refl;
}

pub match_against-nil :
    (fuel : ℕ) (s : Side) (t : Ptr) (b : OrderBook) → levels s b ≡ [] → match_against fuel s t b ≡ b
unfolding match_against
match_against-nil zero s t b e = refl
match_against-nil (suc fuel) s t b e = simp (e, match_against)

pub match_against-inactive :
    (fuel : ℕ) (s : Side) (t : Ptr) (b : OrderBook) (m : Levels)
    → levels s b ≡ m
    → is_active (heap b t) ≡ false
    → match_against fuel s t b ≡ b
unfolding match_against
match_against-inactive zero s t b m e idle = refl
match_against-inactive (suc fuel) s t b [] e idle = simp (e, match_against)
match_against-inactive (suc fuel) s t b ((k, l) ∷ m) e idle = simp (e, idle, match_against)

pub match_against-stops :
    (fuel : ℕ) (s : Side) (t : Ptr) (b : OrderBook) (k : Price) (l : PriceLevel) (m : Levels)
    → levels s b ≡ (k, l) ∷ m
    → stops_at s (heap b t) l.price ≡ true
    → match_against fuel s t b ≡ b
unfolding match_against
match_against-stops zero s t b k l m e st = refl
match_against-stops (suc fuel) s t b k l m e st = elim (Bool-cases (is_active (heap b t))) [
  | inl busy ↦ simp (e, busy, st, match_against)
  | inr idle ↦ simp (e, idle, match_against)
]

-- One level.
abbrev after_level : Side → Ptr → PriceLevel → OrderBook → OrderBook
after_level s t l b =
    erase_front_if_empty s (match_level (suc b.pool.capacity) s l.price t l.head b)

pub match_against-goes_on :
    (fuel : ℕ) (s : Side) (t : Ptr) (b : OrderBook) (k : Price) (l : PriceLevel) (m : Levels)
    → levels s b ≡ (k, l) ∷ m
    → is_active (heap b t) ≡ true
    → stops_at s (heap b t) l.price ≡ false
    → match_against (suc fuel) s t b ≡ match_against fuel s t (after_level s t l b)
unfolding match_against
match_against-goes_on fuel s t b k l m e busy st = simp (e, busy, st, match_against)
