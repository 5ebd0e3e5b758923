-- ===== src/OrderBook/Invariant/Cancelling.antt =====
-- `cancel_order`, and the increase of `amend_order`: the order leaves its level first.
use mathlib.Core.Path.{subst₂}
use hft_order_book_simulator.Common.{
  ◌^◌, ◌<◌, ◌≡◌, refl, sym, ap, ◌∙◌, subst, arith, Bool, true, false, Option, some, List, ◌∷◌, ◌==◌,
  ◌∈◌, inl, inr,
}
use hft_order_book_simulator.Common.Words.{add64}
use hft_order_book_simulator.Types.{
  Order, OrderId, Ptr, Price, Quantity, Side, bid, ask, cancelled, is_active,
}
use hft_order_book_simulator.MemoryPool
use hft_order_book_simulator.PriceLevel.{Heap, modify}
use hft_order_book_simulator.Containers.{lookup, drop_key}
use hft_order_book_simulator.OrderBook.{
  OrderBook, heap, levels, remove_from_book, rest_order, publish_market_data,
}
use hft_order_book_simulator.OrderBook.Matching.{opposite, forget, set_status}
use hft_order_book_simulator.OrderBook.Api.{withdraw, cancel_order, set_quantity}
use hft_order_book_simulator.OrderBook.Keyed.{Keys, SameKeys, Entered-frame}
use hft_order_book_simulator.OrderBook.Untouched.{
  set_status-SameKeys, set_quantity-SameKeys, remove_from_book-SameKeys,
}
use hft_order_book_simulator.OrderBook.Sides.{Resting, Ahead, AllPrices, all_of}
use hft_order_book_simulator.OrderBook.Sides.Unique.{bare}
use hft_order_book_simulator.OrderBook.Sides.Members.{Resting_on, price_on}
use hft_order_book_simulator.OrderBook.Sides.Dequeue.{dequeue}
use hft_order_book_simulator.OrderBook.Cancel.{cancel-cases}
use hft_order_book_simulator.OrderBook.Invariant.{Queues, Core, Core-frame, BookOk, nobody}
use hft_order_book_simulator.OrderBook.Invariant.Taking.{remove_from_book-Removed}
use hft_order_book_simulator.OrderBook.Invariant.Resting.{rest_order-BookOk}
use hft_order_book_simulator.OrderBook.Invariant.Closing.{
  set_status-Core, forget-Core, publish-Core, publish-heap,
}

-- `withdraw` forgets the order, and counts.
counted : OrderBook → OrderBook
unfolding add64
counted b = record b {
  stats = record b.stats { orders_cancelled = add64 b.stats.orders_cancelled 1 };
}

counted-Core :
    {free : List Ptr} {q : Queues} (b : OrderBook)
    → Core b free q nobody
    → Core (counted b) free q nobody
unfolding counted
counted-Core b v = Core-frame v (counted b) same refl (λ a n. refl)
  where
    same : (s : Side) → levels s (counted b) ≡ levels s b
    same bid = refl
    same ask = refl

withdraw-eq :
    (id : OrderId) (p : Ptr) (b : OrderBook)
    → (heap (set_status p cancelled (remove_from_book p b)) p).id ≡ id
    → withdraw id p b
      ≡ publish_market_data (counted (forget p (set_status p cancelled (remove_from_book p b))))
unfolding withdraw counted forget
withdraw-eq id p b e =
    let b₁ = set_status p cancelled (remove_from_book p b) in
    ap
      (λ (i : OrderId). publish_market_data (
        counted (record b₁ {
          order_map = drop_key i b₁.order_map;
          pool = MemoryPool.deallocate (some p) b₁.pool;
        })))
      (sym e)

module _ (id : OrderId) (b : OrderBook) (free : List Ptr) (q : Queues) (p : Ptr)
    (v : Core b free q nobody) (e : lookup id b.order_map ≡ some p)
    (busy : is_active (heap b p) ≡ true) where
  withdraw-Core : Core (withdraw id p b) (p ∷ free) (λ s. dequeue p (q s)) nobody
  withdraw-Core =
      let (s, i) = v.listed id p e busy refl in
      let r = remove_from_book-Removed v s p i in
      let b₀ = remove_from_book p b in
      let b₁ = set_status p cancelled b₀ in
      let kept : SameKeys b b₁ =
        set_status-SameKeys p cancelled b₀ ∙ remove_from_book-SameKeys p b in
      let id_kept : (heap b₁ p).id ≡ id = ap (λ (k : Keys). k.0 p) kept ∙ v.keyed.own_id id p e in
      subst (λ z. Core z (p ∷ free) (λ s. dequeue p (q s)) nobody)
        (sym (withdraw-eq id p b id_kept))
        (publish-Core (counted (forget p b₁)) (
          counted-Core (forget p b₁) (
            forget-Core p (set_status-Core p r.core cancelled)
              (Entered-frame b₀ b₁ p (set_status-SameKeys p cancelled b₀) r.entered))))

  -- An active order of the map can be cancelled: the call answers true, the order leaves its side, its slot is the next
  -- one that the pool hands out, and the book is well formed with every other order in its place.
  pub cancel_takes_out :
      let r = cancel_order id b in
      (r.0 ≡ true)
      × Core r.1 (p ∷ free) (λ s. dequeue p (q s)) nobody
      × (r.1.pool.free_head ≡ some p)
  unfolding cancel_order
  cancel_takes_out =
      let done : cancel_order id b ≡ (true, withdraw id p b) = rw (cancel_order, e, busy) refl in
      subst
        (λ (r : Bool × OrderBook).
          (r.0 ≡ true)
          × Core r.1 (p ∷ free) (λ s. dequeue p (q s)) nobody
          × (r.1.pool.free_head ≡ some p))
        (sym done) (refl, withdraw-Core, withdraw-Core.keyed.free_list.chain.0)

  -- Of the other orders no more than the links changes.
  withdraw-bare : (a : Ptr) → (p == a) ≡ false → bare (heap (withdraw id p b) a) ≡ bare (heap b a)
  unfolding counted forget
  withdraw-bare a ne =
      let (s, i) = v.listed id p e busy refl in
      let r = remove_from_book-Removed v s p i in
      let b₀ = remove_from_book p b in
      let b₁ = set_status p cancelled b₀ in
      let id_kept : (heap b₁ p).id ≡ id =
        ap (λ (k : Keys). k.0 p)
          (set_status-SameKeys p cancelled b₀ ∙ remove_from_book-SameKeys p b)
        ∙ v.keyed.own_id id p e in
      let set : heap b₁ a ≡ heap b₀ a = rw ne refl in
      ap (λ (z : OrderBook). bare (heap z a)) (withdraw-eq id p b id_kept)
      ∙ ap (λ (h : Heap). bare (h a)) (publish-heap (counted (forget p b₁)))
      ∙ ap bare (set ∙ r.payload a)

  pub cancel-bare :
      (a : Ptr) → (p == a) ≡ false → bare (heap (cancel_order id b).1 a) ≡ bare (heap b a)
  unfolding cancel_order
  cancel-bare a ne =
      let done : cancel_order id b ≡ (true, withdraw id p b) = rw (cancel_order, e, busy) refl in
      ap (λ (r : Bool × OrderBook). bare (heap r.1 a)) done ∙ withdraw-bare a ne

-- `cancel_order` keeps the invariant of the book, for every id.
pub cancel_order-BookOk : (id : OrderId) (b : OrderBook) → BookOk b → BookOk (cancel_order id b).1
cancel_order-BookOk id b v = elim (cancel-cases id b) [
  | inl refused ↦ subst (λ (r : Bool × OrderBook). BookOk r.1) (sym refused) v
  | inr (p, e, busy, done) ↦
      subst (λ (r : Bool × OrderBook). BookOk r.1) (sym done)
        (record {
          free = p ∷ v.free;
          queues = λ s. dequeue p (v.queues s);
          core = withdraw-Core id b v.free v.queues p v.core e busy;
        })
]

opposite_twice : (s : Side) → opposite (opposite s) ≡ s
opposite_twice bid = refl
opposite_twice ask = refl

pub set_quantity-levels :
    (p : Ptr) (qty : Quantity) (s : Side) (b : OrderBook)
    → levels s (set_quantity p qty b) ≡ levels s b
set_quantity-levels p qty bid b = refl
set_quantity-levels p qty ask b = refl

-- The quantity of the order at hand.
set_quantity-Core :
    {b : OrderBook} {free : List Ptr} {q : Queues} (p : Ptr) (qty : Quantity)
    → Core b free q (◌==◌ p)
    → Core (set_quantity p qty b) free q (◌==◌ p)
set_quantity-Core {b} p qty v =
    Core-frame v (set_quantity p qty b) (λ s. set_quantity-levels p qty s b)
      (set_quantity-SameKeys p qty b) (λ a ne. rw ne refl)

-- An increase.
Resting-more :
    (s : Side) (k : Price) (o o' : Order) (prev next : Option Ptr) (qty : Quantity)
    → Resting s k o
    → o' ≡ record o { prev = prev; next = next; quantity = qty }
    → o.filled_qty < qty
    → qty < 2 ^ 32
    → Resting s k o'
unfolding is_active
Resting-more s k o o' prev next qty r e lt fits = subst (Resting s k) (sym e) (record {
  side = r.side;
  price = r.price;
  positive = r.positive;
  active = r.active;
  open_qty = lt;
  fits = fits;
})

pub increase-BookOk :
    {b : OrderBook} {free : List Ptr} {q : Queues} (s : Side) (p : Ptr) (qty : Quantity)
    → Core b free q nobody
    → p ∈ all_of (q s)
    → (heap b p).filled_qty < qty
    → qty < 2 ^ 32
    → BookOk (rest_order p (set_quantity p qty (remove_from_book p b)))
increase-BookOk {b} {free} {q} s p qty v i lt fits =
    let r = remove_from_book-Removed v s p i in
    let b₀ = remove_from_book p b in
    let b₁ = set_quantity p qty b₀ in
    let was = Resting_on s (heap b) (levels s b) (q s) p (v.side s) i in
    let k = (heap b p).price in
    let g = heap b₀ p in
    let now : Resting s k (heap b₁ p) =
      Resting-more s k (heap b p) (heap b₁ p) g.prev g.next qty was
        (own (heap b₀) ∙ ap (λ (o : Order). record o { quantity = qty }) (r.payload p)) lt fits in
    let clear : Ahead (opposite s) k (levels (opposite s) b₁) =
      subst (Ahead (opposite s) k) (sym (set_quantity-levels p qty (opposite s) b₀ ∙ r.other)) (
        price_on (λ j. Ahead (opposite s) j (levels (opposite s) b)) s (heap b) (levels s b) (q s) p
          (v.side s) i
          (subst (λ s'. AllPrices (λ j. Ahead (opposite s) j (levels (opposite s) b)) (levels s' b))
            (opposite_twice s) (v.uncrossed (opposite s)))) in
    rest_order-BookOk p (set_quantity-Core p qty r.core)
      (Entered-frame b₀ b₁ p (set_quantity-SameKeys p qty b₀) r.entered)
      (subst₂ (λ s' j. Resting s' j (heap b₁ p)) (sym now.side) (sym now.price) now)
      (subst₂ (λ s' j. Ahead (opposite s') j (levels (opposite s') b₁)) (sym now.side)
        (sym now.price) clear)
  where
    own :
        (h : Heap)
        → modify h p (λ o. record o { quantity = qty }) p ≡ record (h p) { quantity = qty }
    own h = ground arith
