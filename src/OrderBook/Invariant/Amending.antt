-- ===== src/OrderBook/Invariant/Amending.antt =====
-- `amend_order` as a whole.
use mathlib.Core.Path.{subst₂}
use hft_order_book_simulator.Common.{
  ◌^◌, ◌≤◌, ◌<◌, ◌≡◌, refl, sym, ap, ◌∙◌, subst, arith, Bool, true, false, ◌&&◌, some, List, ◌==◌,
  ◌∈◌, Bool-cases, Option-cases, inl, inr, ltb, ==_iff,
}
use hft_order_book_simulator.Common.Words.{sub32}
use hft_order_book_simulator.Types.{OrderId, Ptr, Price, Quantity, Side, is_active}
use hft_order_book_simulator.PriceLevel.{Heap}
use hft_order_book_simulator.Containers.{lookup, adjust}
use hft_order_book_simulator.OrderBook.{
  OrderBook, Levels, heap, levels, with_levels, before, reduce_total, publish_market_data,
}
use hft_order_book_simulator.OrderBook.Matching.{opposite}
use hft_order_book_simulator.OrderBook.Api.{amend_order, resize, set_quantity}
use hft_order_book_simulator.OrderBook.Keyed.{Keys, SameKeys, Keyed-frame, Entered-frame}
use hft_order_book_simulator.OrderBook.Untouched.{set_quantity-SameKeys, reduce_total-SameKeys}
use hft_order_book_simulator.OrderBook.Effects.{levels-with_levels, opposite-with_levels}
use hft_order_book_simulator.OrderBook.Sides.{SideOk, SideOk-frame, Ahead, AllPrices, all_of}
use hft_order_book_simulator.OrderBook.Sides.Prices.{AllPrices-map, AllPrices-adjust}
use hft_order_book_simulator.OrderBook.Sides.Reducing.{lower, requantified, lower_lem}
use hft_order_book_simulator.OrderBook.Sides.Members.{Resting_on}
use hft_order_book_simulator.OrderBook.Invariant.{
  Queues, Core, BookOk, nobody, by_side, both_Uncrossed, sides_apart,
}
use hft_order_book_simulator.OrderBook.Invariant.Resting.{heap-with_levels}
use hft_order_book_simulator.OrderBook.Invariant.Cancelling.{increase-BookOk, set_quantity-levels}
use hft_order_book_simulator.OrderBook.Invariant.Closing.{
  publish-BookOk, publish-Core, publish-heap,
}

-- The book after the reduction of an order of the side `s` at the price `k`.
abbrev reduced_at : Side → Price → Ptr → Quantity → OrderBook → OrderBook
reduced_at s k p qty b = set_quantity p qty (reduce_total s k (sub32 (heap b p).quantity qty) b)

module _ {b : OrderBook} {free : List Ptr} {q : Queues} (v : Core b free q nobody) (s : Side)
    (p : Ptr) (qty : Quantity) (i : p ∈ all_of (q s)) (more : (heap b p).filled_qty < qty)
    (less : qty ≤ (heap b p).quantity) where
  abbrev k : Price
  k = (heap b p).price

  abbrev b' : OrderBook
  b' = reduced_at s k p qty b

  abbrev m' : Levels
  m' = adjust (before s) k (lower (sub32 (heap b p).quantity qty)) (levels s b)

  memory : heap b' ≡ requantified (heap b) p qty
  unfolding reduce_total
  memory = ap (λ (h : Heap). requantified h p qty) (heap-with_levels s b m')

  this_side : levels s b' ≡ m'
  unfolding reduce_total
  this_side = set_quantity-levels p qty s (with_levels s b m') ∙ levels-with_levels s b m'

  other_side : levels (opposite s) b' ≡ levels (opposite s) b
  unfolding reduce_total
  other_side =
      set_quantity-levels p qty (opposite s) (with_levels s b m') ∙ opposite-with_levels s b m'

  kept : SameKeys b b'
  kept =
      set_quantity-SameKeys p qty (reduce_total s k (sub32 (heap b p).quantity qty) b)
      ∙ reduce_total-SameKeys s k (sub32 (heap b p).quantity qty) b

  apart : (a : Ptr) → a ∈ all_of (q (opposite s)) → (p == a) ≡ false
  apart a j = elim (Bool-cases (p == a)) [
    | inl same ↦
        let here : a ∈ all_of (q s) = subst (λ z. z ∈ all_of (q s)) ((==_iff p a).0 same) i in
        cc (sides_apart v s a j)
    | inr other ↦ other
  ]

  still_active : (a : Ptr) → is_active (heap b' a) ≡ is_active (heap b a)
  unfolding is_active
  still_active a = ap (λ (z : Heap). is_active (z a)) memory ∙ same (heap b)
    where
      same : (h : Heap) → is_active (requantified h p qty a) ≡ is_active (h a)
      same h = elim (Bool-cases (p == a)) [ inl e ↦ rw e refl | inr e ↦ rw e refl ]

  decrease-Core : Core b' free q nobody
  decrease-Core = record {
    side =
        by_side (λ s'. SideOk s' (heap b') (levels s' b') (q s')) s
          (subst₂ (λ h m. SideOk s h m (q s)) (sym memory) (sym this_side)
            (lower_lem s (heap b) p qty more less (levels s b) (q s) (v.side s) (v.distinct s) i))
          (subst₂ (λ h m. SideOk (opposite s) h m (q (opposite s))) (sym memory) (sym other_side)
            (SideOk-frame (opposite s) (heap b) (requantified (heap b) p qty)
              (levels (opposite s) b) (q (opposite s)) (λ a j. rw (apart a j) refl)
              (v.side (opposite s))));
    distinct = v.distinct;
    uncrossed = both_Uncrossed s b' (
        subst₂ (λ m₁ m₂. AllPrices (λ j. Ahead s j m₁) m₂) (sym this_side) (sym other_side)
          (AllPrices-map
            (λ j h.
              AllPrices-adjust (λ z. before s j z ≡ true) s k
                (lower (sub32 (heap b p).quantity qty)) (levels s b) h)
            (levels (opposite s) b) (v.uncrossed s)));
    keyed = Keyed-frame b b' kept v.keyed;
    entered = λ s' a j. Entered-frame b b' a kept (v.entered s' a j);
    listed = λ id a h act n.
        v.listed id a (ap (λ (z : Keys). lookup id z.1) (sym kept) ∙ h) (sym (still_active a) ∙ act)
          refl;
    idle = λ s' a j. refl;
  }

  decreased_quantity : (heap b' p).quantity ≡ qty
  decreased_quantity = ap (λ (z : Heap). (z p).quantity) memory ∙ own (heap b)
    where
      own : (h : Heap) → (requantified h p qty p).quantity ≡ qty
      own h = ground arith

-- A reduction by `resize`.
resize_down :
    (p : Ptr) (qty : Quantity) (b : OrderBook) (s : Side)
    → (heap b p).side ≡ s
    → qty ≤ (heap b p).quantity
    → resize p qty b ≡ reduced_at s (heap b p).price p qty b
unfolding resize
resize_down p qty b s es less =
    let down : ltb (heap b p).quantity qty ≡ false = ground arith in
    rw (resize, down) (ap (λ s'. reduced_at s' (heap b p).price p qty b) es)

resize-BookOk :
    {b : OrderBook} {free : List Ptr} {q : Queues} (s : Side) (p : Ptr) (qty : Quantity)
    → Core b free q nobody
    → p ∈ all_of (q s)
    → (heap b p).filled_qty < qty
    → qty < 2 ^ 32
    → BookOk (resize p qty b)
unfolding resize
resize-BookOk {b} {free} {q} s p qty v i more fits =
    elim (Bool-cases (ltb (heap b p).quantity qty)) [
      | inl up ↦ rw (resize, up) (increase-BookOk s p qty v i more fits)
      | inr down ↦
          let r = Resting_on s (heap b) (levels s b) (q s) p (v.side s) i in
          let less : qty ≤ (heap b p).quantity = ground arith in
          subst BookOk (sym (resize_down p qty b s r.side less))
            (record { free = free; queues = q; core = decrease-Core v s p qty i more less })
    ]

-- `amend_order` keeps the invariant of the book, for every id and every 32-bit quantity.
pub amend_order-BookOk :
    (id : OrderId) (new_qty : Quantity) (b : OrderBook)
    → BookOk b
    → new_qty < 2 ^ 32
    → BookOk (amend_order id new_qty b).1
unfolding amend_order
amend_order-BookOk id new_qty b v fits = elim (Option-cases (lookup id b.order_map)) [
  | inl e ↦ rw (amend_order, e) v
  | inr (p, e) ↦ elim (Bool-cases (is_active (heap b p) && ltb (heap b p).filled_qty new_qty)) [
    | inr refused ↦ rw (amend_order, e, refused) v
    | inl ok ↦
        let (s, i) = v.core.listed id p e (ground arith) refl in
        rw (amend_order, e, ok)
          (publish-BookOk (resize p new_qty b)
            (resize-BookOk s p new_qty v.core i (ground arith) fits))
  ]
]

amend_accepted :
    (id : OrderId) (new_qty : Quantity) (b : OrderBook) (p : Ptr)
    → lookup id b.order_map ≡ some p
    → is_active (heap b p) ≡ true
    → (heap b p).filled_qty < new_qty
    → amend_order id new_qty b ≡ (true, publish_market_data (resize p new_qty b))
unfolding amend_order
amend_accepted id new_qty b p e busy more =
    let ok : (is_active (heap b p) && ltb (heap b p).filled_qty new_qty) ≡ true = ground arith in
    rw (amend_order, e, ok) refl

-- An order of the book that is amended to no more than its quantity, but to more than what is filled, gets the new
-- quantity and keeps its place: the call answers true, and the book is well formed with the queues that it had.
pub amend_keeps_place :
    (id : OrderId) (new_qty : Quantity) (b : OrderBook) (free : List Ptr) (q : Queues) (p : Ptr)
    → Core b free q nobody
    → lookup id b.order_map ≡ some p
    → is_active (heap b p) ≡ true
    → (heap b p).filled_qty < new_qty
    → new_qty ≤ (heap b p).quantity
    → let r = amend_order id new_qty b in
      (r.0 ≡ true) × Core r.1 free q nobody × ((heap r.1 p).quantity ≡ new_qty)
amend_keeps_place id new_qty b free q p v e busy more less =
    let (s, i) = v.listed id p e busy refl in
    let r = Resting_on s (heap b) (levels s b) (q s) p (v.side s) i in
    let b' = reduced_at s (heap b p).price p new_qty b in
    let to : amend_order id new_qty b ≡ (true, publish_market_data b') =
      amend_accepted id new_qty b p e busy more
      ∙ ap (λ (z : OrderBook). let x : Bool × OrderBook = (true, publish_market_data z) in x)
          (resize_down p new_qty b s r.side less) in
    subst
      (λ (x : Bool × OrderBook).
        (x.0 ≡ true) × Core x.1 free q nobody × ((heap x.1 p).quantity ≡ new_qty))
      (sym to)
      (
        refl,
        publish-Core b' (decrease-Core v s p new_qty i more less),
        ap (λ (h : Heap). (h p).quantity) (publish-heap b')
            ∙ decreased_quantity v s p new_qty i more less,
      )
