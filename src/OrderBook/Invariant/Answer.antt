-- ===== src/OrderBook/Invariant/Answer.antt =====
-- The id of an order that is matched: what `add_order` reads from the slot at the end.
use hft_order_book_simulator.Common.{◌≡◌, ap, ◌∙◌, List, ◌==◌, Bool-cases, inl, inr, ltb, ◌&&◌}
use hft_order_book_simulator.Types.{Order, Ptr, is_active, cancelled, rejected}
use hft_order_book_simulator.OrderBook.{OrderBook, heap, rest_order, publish_market_data}
use hft_order_book_simulator.OrderBook.Matching.{
  opposite, forget, set_status, settle, is_limit, reject, match_order, is_fok, check_fok_fillable,
  match_against, loop_fuel,
}
use hft_order_book_simulator.OrderBook.Keyed.{Keys, SameKeys, Entered}
use hft_order_book_simulator.OrderBook.Untouched.{
  publish-SameKeys, rest_order-SameKeys, set_status-SameKeys,
}
use hft_order_book_simulator.OrderBook.Sides.Level.{Taker}
use hft_order_book_simulator.OrderBook.Invariant.{Queues, Core}
use hft_order_book_simulator.OrderBook.Invariant.Matching.{match_against-Matched}

SameKeys-id : (b b' : OrderBook) (t : Ptr) → SameKeys b b' → (heap b' t).id ≡ (heap b t).id
SameKeys-id b b' t x = ap (λ (k : Keys). k.0 t) x

settle-id : (t : Ptr) (b : OrderBook) → (heap (settle t b) t).id ≡ (heap b t).id
unfolding settle forget
settle-id t b = elim (Bool-cases (is_active (heap b t))) [
  | inr idle ↦ rw (settle, idle) (SameKeys-id b (publish_market_data b) t (publish-SameKeys b))
  | inl busy ↦ elim (Bool-cases (is_limit (heap b t).type)) [
    | inl lim ↦
        let rested = rest_order t b in
        rw (settle, busy, lim)
          (SameKeys-id rested (publish_market_data rested) t (publish-SameKeys rested)
            ∙ SameKeys-id b rested t (rest_order-SameKeys t b))
    | inr other ↦
        let gone = forget t (set_status t cancelled b) in
        rw (settle, busy, other)
          (SameKeys-id gone (publish_market_data gone) t (publish-SameKeys gone)
            ∙ SameKeys-id b (set_status t cancelled b) t (set_status-SameKeys t cancelled b))
  ]
]

pub match_order-id :
    {b : OrderBook} {free : List Ptr} {q : Queues} (t : Ptr)
    → Core b free q (◌==◌ t)
    → Entered b t
    → Taker (heap b t)
    → (heap (match_order t b) t).id ≡ (heap b t).id
unfolding match_order reject forget
match_order-id {b} t v e w =
    elim (Bool-cases
      (is_fok (heap b t).type && ltb (check_fok_fillable (heap b t) b) (heap b t).quantity)) [
        | inl refused ↦
            rw (match_order, refused)
              (SameKeys-id b (set_status t rejected b) t (set_status-SameKeys t rejected b))
        | inr allowed ↦
            let s = opposite (heap b t).side in
            rw (match_order, allowed)
              (settle-id t (match_against (loop_fuel b) s t b)
                ∙ ap (λ (o : Order). o.id) (match_against-Matched v e w s).same)
      ]
