-- ===== src/OrderBook/Invariant/Closing.antt =====
-- How a call ends with the order it works on: the order leaves the map, or it is done with, or it rests.
use hft_order_book_simulator.Common.{
  ◌≡◌, refl, sym, ap, subst, arith, Bool, true, false, ◌&&◌, List, [], ◌∷◌, ◌==◌, Bool-cases, inl,
  inr, ltb,
}
use hft_order_book_simulator.Common.Int.{pos, ◌<ℤ◌}
use hft_order_book_simulator.Types.{
  Order, Ptr, Side, bid, ask, OrderStatus, cancelled, rejected, is_active,
}
use hft_order_book_simulator.PriceLevel.{Heap}
use hft_order_book_simulator.OrderBook.{
  OrderBook, Levels, heap, before, levels, rest_order, publish_market_data,
}
use hft_order_book_simulator.OrderBook.Matching.{
  opposite, forget, set_status, settle, stops_at, is_limit, reject, match_order, is_fok,
  check_fok_fillable, match_against, loop_fuel,
}
use hft_order_book_simulator.OrderBook.Keyed.{
  Entered, Entered-frame, forget-Keyed, forget-Entered, forget-lookup,
}
use hft_order_book_simulator.OrderBook.Untouched.{publish-SameKeys, set_status-SameKeys}
use hft_order_book_simulator.OrderBook.Sides.{SideOk, Ahead, AllPrices}
use hft_order_book_simulator.OrderBook.Sides.Level.{Taker}
use hft_order_book_simulator.OrderBook.Sides.Outer.{Stopped}
use hft_order_book_simulator.OrderBook.Sides.Prices.{Ahead-trans}
use hft_order_book_simulator.OrderBook.Invariant.{Queues, Core, Core-frame, BookOk, nobody}
use hft_order_book_simulator.OrderBook.Invariant.Matching.{match_against-Matched}
use hft_order_book_simulator.OrderBook.Invariant.Resting.{rest_order-BookOk}

-- Publishing changes neither the sides nor the memory.
publish-levels : (s : Side) (b : OrderBook) → levels s (publish_market_data b) ≡ levels s b
unfolding publish_market_data
publish-levels bid b = ground arith
publish-levels ask b = ground arith

pub publish-heap : (b : OrderBook) → heap (publish_market_data b) ≡ heap b
unfolding publish_market_data
publish-heap b = ground arith

pub publish-Core :
    {free : List Ptr} {q : Queues} {busy : Ptr → Bool} (b : OrderBook)
    → Core b free q busy
    → Core (publish_market_data b) free q busy
publish-Core b v =
    Core-frame v (publish_market_data b) (λ s. publish-levels s b) (publish-SameKeys b)
      (λ a n. ap (λ (h : Heap). h a) (publish-heap b))

pub publish-BookOk : (b : OrderBook) → BookOk b → BookOk (publish_market_data b)
publish-BookOk b v = record { free = v.free; queues = v.queues; core = publish-Core b v.core }

module _ {b : OrderBook} {free : List Ptr} {q : Queues} (p : Ptr) (v : Core b free q (◌==◌ p)) where
  -- The status of the order at hand is set.
  pub set_status-Core : (st : OrderStatus) → Core (set_status p st b) free q (◌==◌ p)
  set_status-Core st =
      Core-frame v (set_status p st b) same_levels (set_status-SameKeys p st b) (λ a ne. rw ne refl)
    where
      same_levels : (s : Side) → levels s (set_status p st b) ≡ levels s b
      same_levels bid = refl
      same_levels ask = refl

  -- The order leaves the map.
  pub forget-Core : Entered b p → Core (forget p b) (p ∷ free) q nobody
  unfolding forget
  forget-Core e = record {
    side = by_levels;
    distinct = v.distinct;
    uncrossed = by_uncrossed;
    keyed = forget-Keyed p v.keyed e;
    entered = λ s a i. forget-Entered p a v.keyed e (v.entered s a i) (v.idle s a i);
    listed = λ i a h act n.
        let (was, ne) = forget-lookup p i a v.keyed h in v.listed i a was act (ground arith);
    idle = λ s a i. refl;
  }
    where
      by_levels : (s : Side) → SideOk s (heap b) (levels s (forget p b)) (q s)
      by_levels bid = v.side bid
      by_levels ask = v.side ask

      by_uncrossed :
          (s : Side)
          → AllPrices (λ k. Ahead s k (levels s (forget p b))) (levels (opposite s) (forget p b))
      by_uncrossed bid = v.uncrossed bid
      by_uncrossed ask = v.uncrossed ask

  forget-BookOk : Entered b p → BookOk (forget p b)
  forget-BookOk e = record { free = p ∷ free; queues = q; core = forget-Core e }

  -- The order is done with, and may stay in the map.
  done-BookOk : is_active (heap b p) ≡ false → BookOk b
  done-BookOk idle = record {
    free = free;
    queues = q;
    core = record {
      side = v.side;
      distinct = v.distinct;
      uncrossed = v.uncrossed;
      keyed = v.keyed;
      entered = v.entered;
      listed = λ i a h act n. elim (Bool-cases (p == a)) [
        | inl same ↦ absurd (ground (arith, same, act, idle))
        | inr other ↦ v.listed i a h act other
      ];
      idle = λ s a i. refl;
    };
  }

-- A LIMIT order that the loop has left active does not reach any price of the side.
Stopped-Ahead :
    (s : Side) (o : Order) (h : Heap) (m : Levels) (qs : List (List Ptr))
    → SideOk s h m qs
    → Stopped s o m
    → is_active o ≡ true
    → Ahead s o.price m
unfolding stops_at
Stopped-Ahead s o h [] qs v st busy = tt
Stopped-Ahead s o h ((k, l) ∷ m) [] v st busy = absurd v
Stopped-Ahead s o h ((k, l) ∷ m) (ps ∷ qs) v (inl idle) busy = cc
Stopped-Ahead s o h ((k, l) ∷ m) (ps ∷ qs) v (inr st) busy =
    let e : before s o.price k ≡ true = ground arith in (e, Ahead-trans s o.price k m e v.2)

abbrev pub LimitPositive : Order → Type 0
LimitPositive o = is_limit o.type ≡ true → pos 0 <ℤ o.price

pub settle_limit :
    (t : Ptr) (b : OrderBook)
    → is_active (heap b t) ≡ true
    → is_limit (heap b t).type ≡ true
    → settle t b ≡ publish_market_data (rest_order t b)
unfolding settle
settle_limit t b busy lim = rw (settle, busy, lim) refl

settle_other :
    (t : Ptr) (b : OrderBook)
    → is_active (heap b t) ≡ true
    → is_limit (heap b t).type ≡ false
    → settle t b ≡ publish_market_data (forget t (set_status t cancelled b))
unfolding settle
settle_other t b busy lim = rw (settle, busy, lim) refl

settle_done :
    (t : Ptr) (b : OrderBook) → is_active (heap b t) ≡ false → settle t b ≡ publish_market_data b
unfolding settle
settle_done t b idle = rw (settle, idle) refl

settle-BookOk :
    {b : OrderBook} {free : List Ptr} {q : Queues} (t : Ptr)
    → Core b free q (◌==◌ t)
    → Entered b t
    → Taker (heap b t)
    → LimitPositive (heap b t)
    → Stopped (opposite (heap b t).side) (heap b t) (levels (opposite (heap b t).side) b)
    → BookOk (settle t b)
settle-BookOk {b} {free} {q} t v e w positive st = elim (Bool-cases (is_active (heap b t))) [
  | inr idle ↦ subst BookOk (sym (settle_done t b idle)) (publish-BookOk b (done-BookOk t v idle))
  | inl busy ↦ elim (Bool-cases (is_limit (heap b t).type)) [
    | inl lim ↦ subst BookOk (sym (settle_limit t b busy lim)) (
        publish-BookOk (rest_order t b) (
          rest_order-BookOk t v e
            (record {
              side = refl;
              price = refl;
              positive = positive lim;
              active = busy;
              open_qty = w.open_if busy;
              fits = w.fits;
            })
            (Stopped-Ahead (opposite (heap b t).side) (heap b t) (heap b)
              (levels (opposite (heap b t).side) b) (q (opposite (heap b t).side))
              (v.side (opposite (heap b t).side)) st busy)))
    | inr other ↦
        let b₁ = set_status t cancelled b in
        subst BookOk (sym (settle_other t b busy other)) (
          publish-BookOk (forget t b₁) (
            forget-BookOk t (set_status-Core t v cancelled)
              (Entered-frame b b₁ t (set_status-SameKeys t cancelled b) e)))
  ]
]

-- The whole of `match_order`.
pub match_order-BookOk :
    {b : OrderBook} {free : List Ptr} {q : Queues} (t : Ptr)
    → Core b free q (◌==◌ t)
    → Entered b t
    → Taker (heap b t)
    → LimitPositive (heap b t)
    → BookOk (match_order t b)
unfolding match_order reject
match_order-BookOk {b} {free} {q} t v e w positive =
    elim (Bool-cases
      (is_fok (heap b t).type && ltb (check_fok_fillable (heap b t) b) (heap b t).quantity)) [
        | inl refused ↦
            let b₁ = set_status t rejected b in
            rw (match_order, refused)
              (forget-BookOk t (set_status-Core t v rejected)
                (Entered-frame b b₁ t (set_status-SameKeys t rejected b) e))
        | inr allowed ↦
            let s = (heap b t).side in
            let b' = match_against (loop_fuel b) (opposite s) t b in
            let x = match_against-Matched v e w (opposite s) in
            rw (match_order, allowed)
              (settle-BookOk t x.core x.entered x.taker (subst LimitPositive (sym x.same) positive)
                (subst (λ s'. Stopped (opposite s') (heap b' t) (levels (opposite s') b'))
                  (sym (ap (λ (o : Order). o.side) x.same)) x.stopped))
      ]
