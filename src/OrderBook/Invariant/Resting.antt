-- ===== src/OrderBook/Invariant/Resting.antt =====
-- `rest_order` on a book: an order that is out of the sides goes to its own, when its price does not cross the other.
use mathlib.Core.Path.{subst₂}
use hft_order_book_simulator.Common.{
  ◌≡◌, refl, sym, ap, ◌∙◌, subst, arith, true, false, some, List, [], ◌∷◌, ◌==◌, ◌∈◌, ◌∉◌, has,
  Distinct, Bool-cases, inl, inr, ==_iff,
}
use hft_order_book_simulator.Types.{OrderId, Ptr, Price, Side, bid, ask, is_active}
use hft_order_book_simulator.PriceLevel.{Heap, default_level}
use hft_order_book_simulator.PriceLevel.Queue.{SamePayload}
use hft_order_book_simulator.PriceLevel.Payload.{push_back-SamePayload}
use hft_order_book_simulator.Containers.{lookup, at_or_insert}
use hft_order_book_simulator.OrderBook.{
  OrderBook, Levels, heap, with_heap, before, levels, with_levels, rest_order,
}
use hft_order_book_simulator.OrderBook.Matching.{opposite}
use hft_order_book_simulator.OrderBook.Keyed.{Keyed-frame, Entered, Entered-frame, Keys, SameKeys}
use hft_order_book_simulator.OrderBook.Untouched.{rest_order-SameKeys}
use hft_order_book_simulator.OrderBook.Effects.{levels-with_levels, opposite-with_levels}
use hft_order_book_simulator.OrderBook.Sides.{
  Resting, SideOk, SideOk-frame, Ahead, AllPrices, all_of,
}
use hft_order_book_simulator.OrderBook.Sides.Joining.{joined, joined_heap}
use hft_order_book_simulator.OrderBook.Sides.Inserting.{placed, found_level}
use hft_order_book_simulator.OrderBook.Sides.Placing.{Placed, place_lem, enqueue}
use hft_order_book_simulator.OrderBook.Sides.Prices.{
  before-opposite, AllPrices-map, AllPrices-adjust, AllPrices-at_or_insert,
}
use hft_order_book_simulator.OrderBook.Invariant.{
  Queues, put, Core, BookOk, nobody, Uncrossed, by_put, by_side, both_Uncrossed, sides_apart,
  put-same, put-other,
}

pub heap-with_levels : (s : Side) (b : OrderBook) (m : Levels) → heap (with_levels s b m) ≡ heap b
heap-with_levels bid b m = refl
heap-with_levels ask b m = refl

pub heap-with_both :
    (s : Side) (b : OrderBook) (h : Heap) (m : Levels) → heap (with_levels s (with_heap b h) m) ≡ h
heap-with_both s b h m = heap-with_levels s (with_heap b h) m

levels-with_heap : (s : Side) (b : OrderBook) (h : Heap) → levels s (with_heap b h) ≡ levels s b
levels-with_heap bid b h = refl
levels-with_heap ask b h = refl

pub opposite-with_both :
    (s : Side) (b : OrderBook) (h : Heap) (m : Levels)
    → levels (opposite s) (with_levels s (with_heap b h) m) ≡ levels (opposite s) b
opposite-with_both s b h m =
    opposite-with_levels s (with_heap b h) m ∙ levels-with_heap (opposite s) b h

AllPrices-both :
    (P Q : Price → Type 0) (m : Levels)
    → AllPrices P m
    → AllPrices Q m
    → AllPrices (λ k. P k × Q k) m
AllPrices-both P Q [] h k = tt
AllPrices-both P Q ((j, l) ∷ m) h k = ((h.0, k.0), AllPrices-both P Q m h.1 k.1)

pub payload-is_active :
    (h g : Heap) → SamePayload h g → (a : Ptr) → is_active (g a) ≡ is_active (h a)
unfolding is_active
payload-is_active h g same a = ap is_active (same a)

-- The book after the order at `p` has been put on the side `s` at the price `k`.
abbrev pub rested : Side → Price → Ptr → OrderBook → OrderBook
rested s k p b =
    with_levels s (with_heap b (joined_heap (heap b) k p (found_level s k (levels s b))))
      (placed s k (joined (heap b) k p) (levels s b))

pub rest_order-eq :
    (p : Ptr) (b : OrderBook) → rest_order p b ≡ rested (heap b p).side (heap b p).price p b
unfolding rest_order
rest_order-eq p b = refl

module _ {b : OrderBook} {free : List Ptr} {q : Queues} {p : Ptr} (v : Core b free q (◌==◌ p))
    (e : Entered b p) (s : Side) (k : Price) (r : Resting s k (heap b p))
    (clear : Ahead (opposite s) k (levels (opposite s) b)) where
  x : Placed s (heap b) k p (levels s b) (q s)
  x = place_lem s (heap b) k p (levels s b) (q s) (v.side s) (v.distinct s) out r
    where
      out : p ∉ all_of (q s)
      out = elim (Bool-cases (has p (all_of (q s)))) [
        | inl i ↦ absurd (ground (arith, v.idle s p i))
        | inr e ↦ e
      ]

  abbrev b' : OrderBook
  b' = rested s k p b

  abbrev g : Heap
  g = joined_heap (heap b) k p (found_level s k (levels s b))

  abbrev qs' : List (List Ptr)
  qs' = enqueue s k p (levels s b) (q s)

  memory : heap b' ≡ g
  memory = heap-with_both s b g (placed s k (joined (heap b) k p) (levels s b))

  rested-Uncrossed : Uncrossed s b'
  rested-Uncrossed =
      let m = levels s b in
      let ahead =
        AllPrices-map (λ j h. sym (before-opposite s k j) ∙ h) (levels (opposite s) b) clear in
      subst₂ (λ m₁ m₂. AllPrices (λ j. Ahead s j m₁) m₂)
        (sym (levels-with_levels s (with_heap b g) (placed s k (joined (heap b) k p) m)))
        (sym (opposite-with_both s b g (placed s k (joined (heap b) k p) m)))
        (AllPrices-map
          (λ j h.
            AllPrices-adjust (λ i. before s j i ≡ true) s k
              (λ l. joined (heap b) k p (found_level s k m))
              (at_or_insert (before s) k default_level m).1
              (AllPrices-at_or_insert (λ i. before s j i ≡ true) s k default_level m h.1 h.0))
          (levels (opposite s) b)
          (AllPrices-both (λ j. Ahead s j m) (λ j. before s j k ≡ true) (levels (opposite s) b)
            (v.uncrossed s) ahead))

  kept : SameKeys b b'
  kept =
      subst₂ (λ s' k'. SameKeys b (rested s' k' p b)) r.side r.price
        (subst (SameKeys b) (rest_order-eq p b) (rest_order-SameKeys p b))

  relisted :
      (i : OrderId) (a : Ptr)
      → lookup i b'.order_map ≡ some a
      → is_active (heap b' a) ≡ true
      → nobody a ≡ false
      → (s' : Side) × (a ∈ all_of (put s qs' q s'))
  relisted i a h act n = elim (Bool-cases (p == a)) [
    | inl same ↦
        (s, subst (λ z. a ∈ all_of z) (sym (put-same s qs' q)) (ground (arith, x.members a, same)))
    | inr other ↦
        let pay =
          payload-is_active (heap b) g
            (push_back-SamePayload (heap b) (record (found_level s k (levels s b)) { price = k }) p)
            a in
        let (s', j) =
          v.listed i a (ap (λ (z : Keys). lookup i z.1) (sym kept) ∙ h)
            (sym pay ∙ ap (λ (z : Heap). is_active (z a)) (sym memory) ∙ act) other in
        by_side (λ s'. a ∈ all_of (q s') → (s' : Side) × (a ∈ all_of (put s qs' q s'))) s
          (λ j. (
            s,
            subst (λ z. a ∈ all_of z) (sym (put-same s qs' q)) (ground (arith, x.members a, j)),
          ))
          (λ j. (opposite s, subst (λ z. a ∈ all_of z) (sym (put-other s qs' q)) j)) s' j
  ]

  rested-Core : Core b' free (put s qs' q) nobody
  rested-Core = record {
    side =
        by_put (λ s' z. SideOk s' (heap b') (levels s' b') z) s qs' q
          (subst₂ (λ h m. SideOk s h m qs') (sym memory)
            (sym (
              levels-with_levels s (with_heap b g) (placed s k (joined (heap b) k p) (levels s b))))
            x.ok)
          (subst₂ (λ h m. SideOk (opposite s) h m (q (opposite s))) (sym memory)
            (sym (opposite-with_both s b g (placed s k (joined (heap b) k p) (levels s b))))
            (SideOk-frame (opposite s) (heap b) g (levels (opposite s) b) (q (opposite s))
              (λ a i. x.outside a (sides_apart v s a i) (v.idle (opposite s) a i))
              (v.side (opposite s))));
    distinct = by_put (λ s' z. Distinct (all_of z)) s qs' q x.distinct (v.distinct (opposite s));
    uncrossed = both_Uncrossed s b' rested-Uncrossed;
    keyed = Keyed-frame b b' kept v.keyed;
    entered =
        by_put (λ s' z. (a : Ptr) → a ∈ all_of z → Entered b' a) s qs' q
          (λ a i. Entered-frame b b' a kept (joined_entered a i))
          (λ a i. Entered-frame b b' a kept (v.entered (opposite s) a i));
    listed = relisted;
    idle = λ s' a i. refl;
  }
    where
      joined_entered : (a : Ptr) → a ∈ all_of qs' → Entered b a
      joined_entered a i = elim (Bool-cases (a == p)) [
        | inl same ↦ subst (Entered b) (sym ((==_iff a p).0 same)) e
        | inr other ↦ v.entered s a (ground (arith, x.members a))
      ]

-- `rest_order` puts an order that is out of the sides behind the orders of its price on its side, on a level of its own
-- if there are none, and the book is well formed with it: when the order is active and in the map, its price is positive
-- and does not cross the other side.
pub rest_order-Core :
    {b : OrderBook} {free : List Ptr} {q : Queues} (p : Ptr)
    → Core b free q (◌==◌ p)
    → Entered b p
    → Resting (heap b p).side (heap b p).price (heap b p)
    → Ahead (opposite (heap b p).side) (heap b p).price (levels (opposite (heap b p).side) b)
    → let s = (heap b p).side in
      Core (rest_order p b) free (put s (enqueue s (heap b p).price p (levels s b) (q s)) q) nobody
rest_order-Core {b} {free} {q} p v e r clear =
    let s = (heap b p).side in
    let k = (heap b p).price in
    subst (λ z. Core z free (put s (enqueue s k p (levels s b) (q s)) q) nobody)
      (sym (rest_order-eq p b)) (rested-Core v e s k r clear)

pub rest_order-BookOk :
    {b : OrderBook} {free : List Ptr} {q : Queues} (p : Ptr)
    → Core b free q (◌==◌ p)
    → Entered b p
    → Resting (heap b p).side (heap b p).price (heap b p)
    → Ahead (opposite (heap b p).side) (heap b p).price (levels (opposite (heap b p).side) b)
    → BookOk (rest_order p b)
rest_order-BookOk {b} {free} {q} p v e r clear =
    let s = (heap b p).side in
    record {
      free = free;
      queues = put s (enqueue s (heap b p).price p (levels s b) (q s)) q;
      core = rest_order-Core p v e r clear;
    }
