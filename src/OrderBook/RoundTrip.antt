-- ===== src/OrderBook/RoundTrip.antt =====
-- `add_order` and then `cancel_order`: an order that rests and is taken back.
use mathlib.Core.Path.{subst₂}
use hft_order_book_simulator.Common.{
  ◌+◌, ◌^◌, ◌<◌, ◌≡◌, refl, sym, ap, ◌∙◌, subst, arith, true, false, List, ◌∷◌, ◌==◌, ◌∉◌, has,
  Bool-cases, inl, inr,
}
use hft_order_book_simulator.Common.Int.{pos, ◌<ℤ◌}
use hft_order_book_simulator.Types.{
  Order, OrderId, Ptr, Price, Quantity, Side, limit, is_active, default_order,
}
use hft_order_book_simulator.MemoryPool.FreeList.{allocate-slot}
use hft_order_book_simulator.PriceLevel.{Heap}
use hft_order_book_simulator.PriceLevel.Payload.{push_back-SamePayload}
use hft_order_book_simulator.OrderBook.{OrderBook, heap, levels, rest_order, publish_market_data}
use hft_order_book_simulator.OrderBook.Matching.{opposite, match_order}
use hft_order_book_simulator.OrderBook.Api.{add_order, cancel_order, is_malformed, submit}
use hft_order_book_simulator.OrderBook.Keyed.{Entered, Entered-frame}
use hft_order_book_simulator.OrderBook.Untouched.{publish-SameKeys, rest_order-SameKeys}
use hft_order_book_simulator.OrderBook.Sides.{Resting, Ahead, all_of}
use hft_order_book_simulator.OrderBook.Sides.Joining.{joined, joined_heap}
use hft_order_book_simulator.OrderBook.Sides.Inserting.{placed, found_level}
use hft_order_book_simulator.OrderBook.Sides.Placing.{enqueue}
use hft_order_book_simulator.OrderBook.Sides.Dequeue.{dequeue, dequeue-absent}
use hft_order_book_simulator.OrderBook.Sides.Unique.{bare, SideOk-unique}
use hft_order_book_simulator.OrderBook.Invariant.{Queues, put, by_put, Core, Core-queues, nobody}
use hft_order_book_simulator.OrderBook.Invariant.Entering.{
  entered_book, new_order, enter-new_order, enter-others, enter-levels, enter-Core, enter-Entered,
  enter-Taker,
}
use hft_order_book_simulator.OrderBook.Invariant.Adding.{well_formed}
use hft_order_book_simulator.OrderBook.Invariant.Clear.{match_order-clear, dequeue-enqueue}
use hft_order_book_simulator.OrderBook.Invariant.Closing.{publish-Core, publish-heap}
use hft_order_book_simulator.OrderBook.Invariant.Resting.{
  rest_order-Core, rest_order-eq, heap-with_both,
}
use hft_order_book_simulator.OrderBook.Invariant.Cancelling.{cancel_takes_out, cancel-bare}

-- Resting changes no more of an order than its links.
rest_order-bare : (p a : Ptr) (b : OrderBook) → bare (heap (rest_order p b) a) ≡ bare (heap b a)
rest_order-bare p a b =
    let s = (heap b p).side in
    let k = (heap b p).price in
    let l = found_level s k (levels s b) in
    ap (λ (z : OrderBook). bare (heap z a)) (rest_order-eq p b)
    ∙ ap (λ (h : Heap). bare (h a))
        (heap-with_both s b (joined_heap (heap b) k p l)
          (placed s k (joined (heap b) k p) (levels s b)))
    ∙ ap bare (push_back-SamePayload (heap b) (record l { price = k }) p a)

module _ (side : Side) (price : Price) (quantity : Quantity) (b : OrderBook) (p : Ptr)
    (xs : List Ptr) (q : Queues) (v : Core b (p ∷ xs) q nobody)
    (counted : b.id_counter + 1 < 2 ^ 64) (fits : quantity < 2 ^ 32)
    (good : is_malformed limit price quantity ≡ false)
    (clear : Ahead (opposite side) price (levels (opposite side) b)) where
  abbrev e : OrderBook
  e = entered_book side limit price quantity p b

  abbrev b₁ : OrderBook
  b₁ = publish_market_data (rest_order p e)

  begun : Core e xs q (◌==◌ p)
  begun = enter-Core side limit price quantity p b v counted

  the_order : heap e p ≡ new_order side limit price quantity b
  the_order = enter-new_order side limit price quantity p b

  begun_active : is_active (heap e p) ≡ true
  unfolding is_active
  begun_active = ap is_active the_order

  -- The side of the order, as the memory has it.
  on_side : (P : Side → Price → Type 0) → P side price → P (heap e p).side (heap e p).price
  on_side P x =
      subst₂ P (sym (ap (λ (o : Order). o.side) the_order))
        (sym (ap (λ (o : Order). o.price) the_order)) x

  begun_clear :
      Ahead (opposite (heap e p).side) (heap e p).price (levels (opposite (heap e p).side) e)
  begun_clear =
      on_side (λ s k. Ahead (opposite s) k (levels (opposite s) e))
        (subst (Ahead (opposite side) price)
          (sym (enter-levels side limit price quantity p b (opposite side))) clear)

  begun_resting : Resting (heap e p).side (heap e p).price (heap e p)
  begun_resting =
      let w =
        enter-Taker side limit price quantity p b v counted fits
          (well_formed side limit price quantity b good).0 in
      record {
        side = refl;
        price = refl;
        positive =
            on_side (λ s k. pos 0 <ℤ k) ((well_formed side limit price quantity b good).1 refl);
        active = begun_active;
        open_qty = w.open_if begun_active;
        fits = w.fits;
      }

  matched : match_order p e ≡ b₁
  matched =
      match_order-clear p e (q (opposite (heap e p).side)) (begun.side (opposite (heap e p).side))
        (ap (λ (o : Order). o.type) the_order) begun_active begun_clear

  added : add_order side limit price quantity b ≡ ((heap b₁ p).id, b₁)
  unfolding add_order submit
  added =
      let slot = allocate-slot b.pool default_order p xs v.keyed.free_list in
      rw (add_order, good)
        (ap (λ r. submit side limit price quantity r b) slot
          ∙ ap (λ (z : OrderBook). let r : OrderId × OrderBook = ((heap z p).id, z) in r) matched)

  rested : Core b₁ xs (put side (enqueue side price p (levels side b) (q side)) q) nobody
  rested = publish-Core (rest_order p e) (
      Core-queues (λ s. ap (λ z. z s) (queues_e))
        (rest_order-Core p begun (enter-Entered side limit price quantity p b v counted)
          begun_resting begun_clear))
    where
      queues_e :
          (put
            (heap e p).side
            (enqueue
              (heap e p).side
              (heap e p).price
              p
              (levels (heap e p).side e)
              (q (heap e p).side))
            q)
          ≡ put side (enqueue side price p (levels side b) (q side)) q
      queues_e =
          on_side
            (λ s k.
              put s (enqueue s k p (levels s e) (q s)) q
              ≡ put side (enqueue side price p (levels side b) (q side)) q)
            (ap (λ m. put side (enqueue side price p m (q side)) q)
              (enter-levels side limit price quantity p b side))

  entered₁ : Entered b₁ p
  entered₁ =
      Entered-frame e b₁ p (publish-SameKeys (rest_order p e) ∙ rest_order-SameKeys p e)
        (enter-Entered side limit price quantity p b v counted)

  bare₁ : (a : Ptr) → bare (heap b₁ a) ≡ bare (heap e a)
  bare₁ a = ap (λ (h : Heap). bare (h a)) (publish-heap (rest_order p e)) ∙ rest_order-bare p a e

  active₁ : is_active (heap b₁ p) ≡ true
  unfolding is_active
  active₁ = ap is_active (bare₁ p) ∙ begun_active

  out : (s : Side) → p ∉ all_of (q s)
  out s = elim (Bool-cases (has p (all_of (q s)))) [
    | inl i ↦ absurd (ground (arith, begun.idle s p i))
    | inr o ↦ o
  ]

  queues_back :
      (s : Side) → dequeue p (put side (enqueue side price p (levels side b) (q side)) q s) ≡ q s
  queues_back =
      by_put (λ s z. dequeue p z ≡ q s) side (enqueue side price p (levels side b) (q side)) q
        (dequeue-enqueue side (heap b) price p (levels side b) (q side) (v.side side) (out side))
        (dequeue-absent p (q (opposite side)) (out (opposite side)))

  abbrev b₂ : OrderBook
  b₂ = (cancel_order (heap b₁ p).id b₁).1

  ended : ((cancel_order (heap b₁ p).id b₁).0 ≡ true) × Core b₂ (p ∷ xs) q nobody
  ended =
      let x =
        cancel_takes_out (heap b₁ p).id b₁ xs
          (put side (enqueue side price p (levels side b) (q side)) q) p rested entered₁ active₁ in
      (x.0, Core-queues queues_back x.1)

  bare₂ : (a : Ptr) → (p == a) ≡ false → bare (heap b₂ a) ≡ bare (heap b₁ a)
  bare₂ a ne =
      cancel-bare (heap b₁ p).id b₁ xs (put side (enqueue side price p (levels side b) (q side)) q)
        p rested entered₁ active₁ a ne

  levels_back : (s : Side) → levels s b₂ ≡ levels s b
  levels_back s =
      SideOk-unique s (heap b) (heap b₂) (levels s b) (levels s b₂) (q s) (v.side s)
        (ended.1.side s)
        (λ a i.
          let ne = begun.idle s a i in
          bare₂ a ne ∙ bare₁ a ∙ ap bare (enter-others side limit price quantity p b a ne))

  -- A LIMIT order that is well formed and does not reach the other side, added to a well-formed book with a free slot
  -- and cancelled by the id that `add_order` answered, leaves both sides as they were, level by level, with the same
  -- slots free; the second call answers true. The id counter must not wrap, and the quantity is a 32-bit one.
  pub cancel-add :
      let x = add_order side limit price quantity b in
      let y = cancel_order x.0 x.1 in
      (y.0 ≡ true) × ((s : Side) → levels s y.1 ≡ levels s b) × Core y.1 (p ∷ xs) q nobody
  cancel-add =
      subst
        (λ (x : OrderId × OrderBook).
          let y = cancel_order x.0 x.1 in
          (y.0 ≡ true) × ((s : Side) → levels s y.1 ≡ levels s b) × Core y.1 (p ∷ xs) q nobody)
        (sym added) (ended.0, levels_back, ended.1)
