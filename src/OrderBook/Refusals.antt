-- ===== src/OrderBook/Refusals.antt =====
-- order_book.cpp, `add_order` and `amend_order`: which calls are refused, and what becomes of the book then.
use hft_order_book_simulator.Common.{
  ◌≡◌, ◌≢◌, refl, ap, ◌∙◌, ◌⊎◌, inl, inr, true, false, none, some, Bool-cases, Option-cases, ltb,
  ◌<◌, ◌≤◌, ◌+◌, ◌^◌, arith, List, [], ◌∷◌,
}
use hft_order_book_simulator.Common.Int.{pos, ◌<ℤ◌, ◌≤ℤ◌}
use hft_order_book_simulator.Types.{
  Order, Side, OrderType, limit, market, ioc, fok, Price, Quantity, OrderId, Ptr, OrderStatus, new,
  partial, filled, cancelled, rejected, is_active, default_order,
}
use hft_order_book_simulator.MemoryPool
use hft_order_book_simulator.MemoryPool.FreeList.{pop_free_slot-none, allocate-slot}
use hft_order_book_simulator.Containers.{lookup}
use hft_order_book_simulator.OrderBook.{OrderBook, heap}
use hft_order_book_simulator.OrderBook.Matching.{match_order}
use hft_order_book_simulator.OrderBook.Api.{add_order, amend_order, is_malformed, submit}
use hft_order_book_simulator.OrderBook.Invariant.{Queues, Core, BookOk, nobody}
use hft_order_book_simulator.OrderBook.Invariant.Answer.{match_order-id}
use hft_order_book_simulator.OrderBook.Invariant.Entering.{
  entered_book, enter-new_order, enter-Core, enter-Entered, enter-Taker,
}

-- Why an order is turned down, and what an order that is taken has instead.
abbrev pub Unfit : OrderType → Price → Quantity → Type 0
Unfit type price quantity = (quantity ≡ 0) ⊎ ((type ≡ limit) × (price ≤ℤ pos 0))

abbrev pub Fit : OrderType → Price → Quantity → Type 0
Fit type price quantity = (0 < quantity) × ((type ≢ limit) ⊎ (pos 0 <ℤ price))

malformed-Unfit :
    (type : OrderType) (price : Price) (quantity : Quantity)
    → is_malformed type price quantity ≡ true
    → Unfit type price quantity
unfolding is_malformed
malformed-Unfit market price quantity e = inl (ground arith)
malformed-Unfit limit price quantity e = ground arith
malformed-Unfit ioc price quantity e = inl (ground arith)
malformed-Unfit fok price quantity e = inl (ground arith)

well_formed-Fit :
    (type : OrderType) (price : Price) (quantity : Quantity)
    → is_malformed type price quantity ≡ false
    → Fit type price quantity
unfolding is_malformed
well_formed-Fit market price quantity e = (ground arith, inl (λ x. cc))
well_formed-Fit limit price quantity e = (ground arith, inr (ground arith))
well_formed-Fit ioc price quantity e = (ground arith, inl (λ x. cc))
well_formed-Fit fok price quantity e = (ground arith, inl (λ x. cc))

module _ (side : Side) (type : OrderType) (price : Price) (quantity : Quantity)
    (b : OrderBook) where
  -- Without a free slot.
  submit-none :
      b.pool.free_head ≡ none
      → submit side type price quantity (MemoryPool.allocate default_order b.pool) b ≡ (0, b)
  unfolding submit MemoryPool.allocate MemoryPool.place
  submit-none dry =
      ap (λ r. submit side type price quantity (MemoryPool.place default_order r) b)
        (pop_free_slot-none b.pool dry)

  -- With one, the answer is the next id.
  submit-some :
      (p : Ptr) (xs : List Ptr) (q : Queues)
      → Core b (p ∷ xs) q nobody
      → b.id_counter + 1 < 2 ^ 64
      → quantity < 2 ^ 32
      → 0 < quantity
      → (submit side type price quantity (MemoryPool.allocate default_order b.pool) b).0
        ≡ b.id_counter + 1
  unfolding submit
  submit-some p xs q v counted fits positive =
      let e = entered_book side type price quantity p b in
      let answer : (heap (match_order p e) p).id ≡ (heap e p).id =
        match_order-id p (enter-Core side type price quantity p b v counted)
          (enter-Entered side type price quantity p b v counted)
          (enter-Taker side type price quantity p b v counted fits positive) in
      ap (λ r. (submit side type price quantity r b).0)
        (allocate-slot b.pool default_order p xs v.keyed.free_list)
      ∙ answer
      ∙ ap (λ (o : Order). o.id) (enter-new_order side type price quantity p b)
      ∙ omega arith

-- On a well-formed book, as long as the id counter does not wrap and the quantity is a 32-bit one, `add_order` either
-- answers 0 and leaves the book as it is, and then the quantity is 0, or it is a LIMIT order without a positive price, or
-- the pool has no free slot; or it answers the next id, and then the quantity is positive, so is the price of a LIMIT order,
-- and there is a free slot.
pub add_refused :
    (side : Side) (type : OrderType) (price : Price) (quantity : Quantity) (b : OrderBook)
    → BookOk b
    → b.id_counter + 1 < 2 ^ 64
    → quantity < 2 ^ 32
    → ((Unfit type price quantity ⊎ (b.pool.free_head ≡ none))
        × (add_order side type price quantity b ≡ (0, b)))
      ⊎ (Fit type price quantity
          × ((p : Ptr) × (b.pool.free_head ≡ some p))
          × ((add_order side type price quantity b).0 ≡ b.id_counter + 1))
unfolding add_order
add_refused side type price quantity b v counted fits =
    elim (Bool-cases (is_malformed type price quantity)) [
      | inl bad ↦ inl (inl (malformed-Unfit type price quantity bad), rw (add_order, bad) refl)
      | inr good ↦ by_free v.free v.core good
    ]
  where
    by_free :
        (free : List Ptr)
        → Core b free v.queues nobody
        → is_malformed type price quantity ≡ false
        → ((Unfit type price quantity ⊎ (b.pool.free_head ≡ none))
            × (add_order side type price quantity b ≡ (0, b)))
          ⊎ (Fit type price quantity
              × ((p : Ptr) × (b.pool.free_head ≡ some p))
              × ((add_order side type price quantity b).0 ≡ b.id_counter + 1))
    by_free [] c good =
        let dry = c.keyed.free_list.chain in
        inl (inr dry, rw (add_order, good) (submit-none side type price quantity b dry))
    by_free (p ∷ xs) c good =
        let fit = well_formed-Fit type price quantity good in
        inr (
          fit,
          (p, c.keyed.free_list.chain.0),
          rw (add_order, good)
              (submit-some side type price quantity b p xs v.queues c counted fits fit.0),
        )

-- Whether a status is that of an order that is done with, and of one that is not.
abbrev pub Done : OrderStatus → Type 0
Done st = (st ≡ filled) ⊎ (st ≡ cancelled) ⊎ (st ≡ rejected)

abbrev pub Open : OrderStatus → Type 0
Open st = (st ≡ new) ⊎ (st ≡ partial)

active-Open : (o : Order) → is_active o ≡ true → Open o.status
unfolding is_active
active-Open o e = by_status o.status refl
  where
    by_status : (st : OrderStatus) → o.status ≡ st → Open o.status
    by_status new x = inl x
    by_status partial x = inr x
    by_status filled x = let z : is_active o ≡ false = rw x refl in cc
    by_status cancelled x = let z : is_active o ≡ false = rw x refl in cc
    by_status rejected x = let z : is_active o ≡ false = rw x refl in cc

idle-Done : (o : Order) → is_active o ≡ false → Done o.status
unfolding is_active
idle-Done o e = by_status o.status refl
  where
    by_status : (st : OrderStatus) → o.status ≡ st → Done o.status
    by_status new x = let z : is_active o ≡ true = rw x refl in cc
    by_status partial x = let z : is_active o ≡ true = rw x refl in cc
    by_status filled x = inl x
    by_status cancelled x = inr (inl x)
    by_status rejected x = inr (inr x)

-- `amend_order` either answers false and leaves the book as it is, and then the id is not in the map, or its order is
-- filled, cancelled or rejected, or the new quantity is not above what is filled; or it answers true, and then the order
-- of the id is new or partly filled, and the new quantity is above what is filled.
pub amend_refused :
    (id : OrderId) (new_qty : Quantity) (b : OrderBook)
    → (((lookup id b.order_map ≡ none)
          ⊎ ((p : Ptr) × (lookup id b.order_map ≡ some p)
              × (Done (heap b p).status ⊎ (new_qty ≤ (heap b p).filled_qty))))
        × (amend_order id new_qty b ≡ (false, b)))
      ⊎ (((p : Ptr) × (lookup id b.order_map ≡ some p)
            × Open (heap b p).status
            × ((heap b p).filled_qty < new_qty))
          × ((amend_order id new_qty b).0 ≡ true))
unfolding amend_order
amend_refused id new_qty b = elim (Option-cases (lookup id b.order_map)) [
  | inl e ↦ inl (inl e, rw (amend_order, e) refl)
  | inr (p, e) ↦ elim (Bool-cases (is_active (heap b p))) [
    | inr idle ↦ inl (inr (p, e, inl (idle-Done (heap b p) idle)), rw (amend_order, e, idle) refl)
    | inl busy ↦ elim (Bool-cases (ltb (heap b p).filled_qty new_qty)) [
      | inr small ↦ inl (inr (p, e, inr (ground arith)), rw (amend_order, e, busy, small) refl)
      | inl more ↦
          inr (
            (p, e, active-Open (heap b p) busy, ground arith),
            rw (amend_order, e, busy, more) refl,
          )
    ]
  ]
]
