-- ===== src/OrderBook/Invariant/Clear.antt =====
-- A LIMIT order that reaches no price of the other side: `add_order` lets it rest as it is.
use hft_order_book_simulator.Common.{
  ℕ, ◌≡◌, ◌≢◌, refl, ap, ◌∙◌, arith, true, false, ◌&&◌, List, [], ◌∷◌, ◌==◌, ◌∉◌, outside_left,
  outside_right, ltb, Bool-cases, inl, inr,
}
use mathlib.Core.List.{append-nil}
use hft_order_book_simulator.Types.{Ptr, Price, Side, limit, is_active}
use hft_order_book_simulator.PriceLevel.{Heap}
use hft_order_book_simulator.OrderBook.{
  OrderBook, Levels, heap, before, levels, rest_order, publish_market_data,
}
use hft_order_book_simulator.OrderBook.Matching.{
  opposite, match_against, match_order, stops_at, is_limit, is_fok, loop_fuel, settle,
  check_fok_fillable,
}
use hft_order_book_simulator.OrderBook.Sides.{SideOk, Ahead, all_of}
use hft_order_book_simulator.OrderBook.Sides.Outer.{match_against-nil, match_against-stops}
use hft_order_book_simulator.OrderBook.Invariant.Closing.{settle_limit}
use hft_order_book_simulator.OrderBook.Sides.Placing.{enqueue}
use hft_order_book_simulator.OrderBook.Sides.Dequeue.{dequeue, queues_with, without-split, mem_own}

match_against-clear :
    (fuel : ℕ) (s : Side) (t : Ptr) (b : OrderBook) (m : Levels) (qs : List (List Ptr))
    → levels s b ≡ m
    → SideOk s (heap b) m qs
    → is_limit (heap b t).type ≡ true
    → Ahead s (heap b t).price m
    → match_against fuel s t b ≡ b
unfolding stops_at
match_against-clear fuel s t b [] qs e v lim clear = match_against-nil fuel s t b e
match_against-clear fuel s t b ((k, l) ∷ m) [] e v lim clear = absurd v
match_against-clear fuel s t b ((k, l) ∷ m) (ps ∷ qs) e v lim clear =
    match_against-stops fuel s t b k l m e
      (rw lim (ap (before s (heap b t).price) v.0.price ∙ clear.0))

pub match_order-clear :
    (t : Ptr) (b : OrderBook) (qs : List (List Ptr))
    → let s = opposite (heap b t).side in
      SideOk s (heap b) (levels s b) qs
      → (heap b t).type ≡ limit
      → is_active (heap b t) ≡ true
      → Ahead s (heap b t).price (levels s b)
      → match_order t b ≡ publish_market_data (rest_order t b)
unfolding match_order settle
match_order-clear t b qs v lim busy clear =
    let go_on : (is_fok (heap b t).type
          && ltb (check_fok_fillable (heap b t) b) (heap b t).quantity)
        ≡ false =
      rw lim refl in
    let is_lim : is_limit (heap b t).type ≡ true = rw lim refl in
    let s = opposite (heap b t).side in
    rw (match_order, go_on)
      (ap (settle t) (match_against-clear (loop_fuel b) s t b (levels s b) qs refl v is_lim clear)
        ∙ settle_limit t b busy is_lim)

kept_queue : (ps : List Ptr) (qs : List (List Ptr)) → ps ≢ [] → queues_with ps qs ≡ ps ∷ qs
kept_queue [] qs filled = absurd (filled refl)
kept_queue (x ∷ ps) qs filled = refl

module _ (s : Side) (h : Heap) (k : Price) (p : Ptr) where
  -- An order that has joined a side at the back leaves the queues as they were when it goes.
  pub dequeue-enqueue :
      (m : Levels) (qs : List (List Ptr))
      → SideOk s h m qs
      → p ∉ all_of qs
      → dequeue p (enqueue s k p m qs) ≡ qs
  dequeue-enqueue [] [] v out = let own : (p == p) ≡ true = ground arith in rw own refl
  dequeue-enqueue [] (ps ∷ qs) v out = absurd v
  dequeue-enqueue ((j, l) ∷ m) [] v out = absurd v
  dequeue-enqueue ((j, l) ∷ m) (ps ∷ qs) v out = elim (Bool-cases (before s j k)) [
    | inl behind ↦
        rw (behind, outside_left p ps (all_of qs) out)
          (ap (λ zs. ps ∷ zs) (dequeue-enqueue m qs v.3 (outside_right p ps (all_of qs) out)))
    | inr e ↦ elim (Bool-cases (before s k j)) [
      | inl new ↦ let own : (p == p) ≡ true = ground arith in rw (e, new, own) refl
      | inr e' ↦
          rw (e, e', mem_own p ps [])
            (ap (λ zs. queues_with zs qs)
                (without-split p ps [] (outside_left p ps (all_of qs) out) ∙ append-nil ps)
              ∙ kept_queue ps qs v.1)
    ]
  ]
