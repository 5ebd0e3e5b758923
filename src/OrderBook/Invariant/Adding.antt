-- ===== src/OrderBook/Invariant/Adding.antt =====
-- `add_order` as a whole.
use hft_order_book_simulator.Common.{
  ◌+◌, ◌^◌, ◌<◌, ◌≡◌, sym, ap, subst, arith, true, false, List, [], ◌∷◌, Bool-cases, inl, inr,
}
use hft_order_book_simulator.Common.Int.{pos, ◌<ℤ◌}
use hft_order_book_simulator.Types.{Ptr, Price, Quantity, Side, OrderType, default_order}
use hft_order_book_simulator.MemoryPool
use hft_order_book_simulator.MemoryPool.{MemoryPool}
use hft_order_book_simulator.MemoryPool.FreeList.{IsFree, allocate-slot, allocate-exhausted}
use hft_order_book_simulator.OrderBook.{OrderBook}
use hft_order_book_simulator.OrderBook.Matching.{is_limit, match_order}
use hft_order_book_simulator.OrderBook.Api.{add_order, is_malformed, submit}
use hft_order_book_simulator.OrderBook.Invariant.{Queues, Core, BookOk, nobody}
use hft_order_book_simulator.OrderBook.Invariant.Closing.{LimitPositive, match_order-BookOk}
use hft_order_book_simulator.OrderBook.Invariant.Entering.{
  entered_book, enter-new_order, enter-Core, enter-Entered, enter-Taker,
}

module _ (side : Side) (type : OrderType) (price : Price) (quantity : Quantity)
    (b : OrderBook) where
  pub well_formed :
      is_malformed type price quantity ≡ false
      → (0 < quantity) × (is_limit type ≡ true → pos 0 <ℤ price)
  unfolding is_malformed
  well_formed e = (ground arith, (λ l. ground arith))

  pub accepted :
      (p : Ptr) (xs : List Ptr)
      → IsFree b.pool (p ∷ xs)
      → (submit side type price quantity (MemoryPool.allocate default_order b.pool) b).1
        ≡ match_order p (entered_book side type price quantity p b)
  unfolding submit
  accepted p xs f =
      ap (λ r. (submit side type price quantity r b).1) (allocate-slot b.pool default_order p xs f)

  pub exhausted :
      IsFree b.pool []
      → (submit side type price quantity (MemoryPool.allocate default_order b.pool) b).1 ≡ b
  unfolding submit
  exhausted f =
      ap (λ r. (submit side type price quantity r b).1) (allocate-exhausted b.pool default_order f)

  submit-BookOk :
      (free : List Ptr) (q : Queues)
      → Core b free q nobody
      → b.id_counter + 1 < 2 ^ 64
      → quantity < 2 ^ 32
      → (0 < quantity) × (is_limit type ≡ true → pos 0 <ℤ price)
      → BookOk (submit side type price quantity (MemoryPool.allocate default_order b.pool) b).1
  submit-BookOk [] q v counted fits (some_qty, positive) =
      subst BookOk (sym (exhausted v.keyed.free_list)) (record { free = []; queues = q; core = v })
  submit-BookOk (p ∷ xs) q v counted fits (some_qty, positive) =
      subst BookOk (sym (accepted p xs v.keyed.free_list)) (
        match_order-BookOk p (enter-Core side type price quantity p b v counted)
          (enter-Entered side type price quantity p b v counted)
          (enter-Taker side type price quantity p b v counted fits some_qty)
          (subst LimitPositive (sym (enter-new_order side type price quantity p b)) positive))

  -- `add_order` keeps the invariant of the book, whatever the order and whatever becomes of it, as long as the id counter
  -- does not wrap and the quantity is a 32-bit one.
  pub add_order-BookOk :
      BookOk b
      → b.id_counter + 1 < 2 ^ 64
      → quantity < 2 ^ 32
      → BookOk (add_order side type price quantity b).1
  unfolding add_order
  add_order-BookOk v counted fits = elim (Bool-cases (is_malformed type price quantity)) [
    | inl bad ↦ rw (add_order, bad) v
    | inr good ↦
        rw (add_order, good) (submit-BookOk v.free v.queues v.core counted fits (well_formed good))
  ]
