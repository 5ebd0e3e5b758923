-- ===== src/OrderBook/Invariant/Counter.antt =====
-- The id counter: one more after an order that is accepted, and the same after every other call.
use hft_order_book_simulator.Common.{
  ◌+◌, ◌^◌, ◌≤◌, ◌<◌, ◌≡◌, refl, ap, ◌∙◌, arith, Bool, ◌&&◌, some, List, [], ◌∷◌, ◌==◌, Bool-cases,
  Option-cases, inl, inr, ltb,
}
use hft_order_book_simulator.Common.Words.{add64, sub32}
use hft_order_book_simulator.Types.{
  OrderId, Ptr, Price, Quantity, Side, OrderType, cancelled, is_active, default_order,
}
use hft_order_book_simulator.MemoryPool
use hft_order_book_simulator.Containers.{lookup, drop_key}
use hft_order_book_simulator.OrderBook.{
  OrderBook, heap, rest_order, remove_from_book, reduce_total, publish_market_data,
}
use hft_order_book_simulator.OrderBook.Matching.{
  opposite, forget, set_status, settle, is_limit, reject, match_order, is_fok, check_fok_fillable,
  match_against, loop_fuel,
}
use hft_order_book_simulator.OrderBook.Api.{
  withdraw, cancel_order, set_quantity, resize, amend_order, add_order, is_malformed, submit,
}
use hft_order_book_simulator.OrderBook.Cancel.{cancel-cases}
use hft_order_book_simulator.OrderBook.Keyed.{Keys, SameKeys, Entered}
use hft_order_book_simulator.OrderBook.Untouched.{
  publish-SameKeys, rest_order-SameKeys, remove_from_book-SameKeys, reduce_total-SameKeys,
}
use hft_order_book_simulator.OrderBook.Sides.Level.{Taker}
use hft_order_book_simulator.OrderBook.Invariant.{Queues, Core, BookOk, nobody}
use hft_order_book_simulator.OrderBook.Invariant.Matching.{match_against-Matched}
use hft_order_book_simulator.OrderBook.Invariant.Entering.{
  enter-Core, enter-Entered, enter-Taker, enter-id_counter,
}
use hft_order_book_simulator.OrderBook.Invariant.Adding.{accepted, exhausted, well_formed}

SameKeys-counter : (b b' : OrderBook) → SameKeys b b' → b'.id_counter ≡ b.id_counter
SameKeys-counter b b' x = ap (λ (k : Keys). k.6) x

publish-counter : (b : OrderBook) → (publish_market_data b).id_counter ≡ b.id_counter
publish-counter b = SameKeys-counter b (publish_market_data b) (publish-SameKeys b)

settle-counter : (t : Ptr) (b : OrderBook) → (settle t b).id_counter ≡ b.id_counter
unfolding settle forget
settle-counter t b = elim (Bool-cases (is_active (heap b t))) [
  | inr idle ↦ rw (settle, idle) (publish-counter b)
  | inl busy ↦ elim (Bool-cases (is_limit (heap b t).type)) [
    | inl lim ↦
        rw (settle, busy, lim)
          (publish-counter (rest_order t b)
            ∙ SameKeys-counter b (rest_order t b) (rest_order-SameKeys t b))
    | inr other ↦ rw (settle, busy, other) (publish-counter (forget t (set_status t cancelled b)))
  ]
]

match_order-counter :
    {b : OrderBook} {free : List Ptr} {q : Queues} (t : Ptr)
    → Core b free q (◌==◌ t)
    → Entered b t
    → Taker (heap b t)
    → (match_order t b).id_counter ≡ b.id_counter
unfolding match_order reject forget
match_order-counter {b} t v e w =
    elim (Bool-cases
      (is_fok (heap b t).type && ltb (check_fok_fillable (heap b t) b) (heap b t).quantity)) [
        | inl refused ↦ rw (match_order, refused) refl
        | inr allowed ↦
            let s = opposite (heap b t).side in
            rw (match_order, allowed)
              (settle-counter t (match_against (loop_fuel b) s t b)
                ∙ (match_against-Matched v e w s).id_counter)
      ]

module _ (side : Side) (type : OrderType) (price : Price) (quantity : Quantity)
    (b : OrderBook) where
  submit-counter :
      (free : List Ptr) (q : Queues)
      → Core b free q nobody
      → b.id_counter + 1 < 2 ^ 64
      → quantity < 2 ^ 32
      → 0 < quantity
      → (submit side type price quantity (MemoryPool.allocate default_order b.pool) b).1.id_counter
        ≤ b.id_counter + 1
  submit-counter [] q v counted fits positive = omega (
    arith,
    ap (λ (x : OrderBook). x.id_counter) (exhausted side type price quantity b v.keyed.free_list),
  )
  submit-counter (p ∷ xs) q v counted fits positive =
      let matched =
        match_order-counter p (enter-Core side type price quantity p b v counted)
          (enter-Entered side type price quantity p b v counted)
          (enter-Taker side type price quantity p b v counted fits positive) in
      omega (
        arith,
        ap (λ (x : OrderBook). x.id_counter)
            (accepted side type price quantity b p xs v.keyed.free_list),
        matched,
        enter-id_counter side type price quantity p b,
      )

  pub add_order-counter :
      BookOk b
      → b.id_counter + 1 < 2 ^ 64
      → quantity < 2 ^ 32
      → (add_order side type price quantity b).1.id_counter ≤ b.id_counter + 1
  unfolding add_order
  add_order-counter v counted fits = elim (Bool-cases (is_malformed type price quantity)) [
    | inl bad ↦ rw (add_order, bad) (omega arith)
    | inr good ↦
        rw (add_order, good)
          (submit-counter v.free v.queues v.core counted fits
            (well_formed side type price quantity b good).0)
  ]

withdraw-counter :
    (id : OrderId) (p : Ptr) (b : OrderBook) → (withdraw id p b).id_counter ≡ b.id_counter
unfolding withdraw
withdraw-counter id p b =
    let b₁ = set_status p cancelled (remove_from_book p b) in
    let b₂ : OrderBook = record b₁ {
      order_map = drop_key id b₁.order_map;
      stats = record b₁.stats { orders_cancelled = add64 b₁.stats.orders_cancelled 1 };
      pool = MemoryPool.deallocate (some p) b₁.pool;
    } in
    publish-counter b₂ ∙ SameKeys-counter b (remove_from_book p b) (remove_from_book-SameKeys p b)

pub cancel_order-counter :
    (id : OrderId) (b : OrderBook) → (cancel_order id b).1.id_counter ≡ b.id_counter
cancel_order-counter id b = elim (cancel-cases id b) [
  | inl refused ↦ ap (λ (r : Bool × OrderBook). r.1.id_counter) refused
  | inr (p, e, busy, done) ↦
      ap (λ (r : Bool × OrderBook). r.1.id_counter) done ∙ withdraw-counter id p b
]

resize-counter :
    (p : Ptr) (qty : Quantity) (b : OrderBook) → (resize p qty b).id_counter ≡ b.id_counter
unfolding resize
resize-counter p qty b = elim (Bool-cases (ltb (heap b p).quantity qty)) [
  | inl up ↦
      let b₁ = set_quantity p qty (remove_from_book p b) in
      rw (resize, up)
        (SameKeys-counter b₁ (rest_order p b₁) (rest_order-SameKeys p b₁)
          ∙ SameKeys-counter b (remove_from_book p b) (remove_from_book-SameKeys p b))
  | inr down ↦
      let o = heap b p in
      let d = sub32 o.quantity qty in
      rw (resize, down)
        (SameKeys-counter b (reduce_total o.side o.price d b)
          (reduce_total-SameKeys o.side o.price d b))
]

pub amend_order-counter :
    (id : OrderId) (qty : Quantity) (b : OrderBook)
    → (amend_order id qty b).1.id_counter ≡ b.id_counter
unfolding amend_order
amend_order-counter id qty b = elim (Option-cases (lookup id b.order_map)) [
  | inl e ↦ rw (amend_order, e) refl
  | inr (p, e) ↦ elim (Bool-cases (is_active (heap b p) && ltb (heap b p).filled_qty qty)) [
    | inr refused ↦ rw (amend_order, e, refused) refl
    | inl ok ↦ rw (amend_order, e, ok) (publish-counter (resize p qty b) ∙ resize-counter p qty b)
  ]
]
