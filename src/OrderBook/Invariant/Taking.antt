-- ===== src/OrderBook/Invariant/Taking.antt =====
-- `remove_from_book` on a book: an order of a side leaves it, and the map keeps the order for the time being.
use mathlib.Core.Path.{subst₂}
use hft_order_book_simulator.Common.{
  ◌≡◌, refl, sym, ap, ◌∙◌, subst, arith, true, false, some, List, if◌then◌else◌, ◌==◌, ◌∈◌, ◌∉◌,
  has, Distinct, Bool-cases, inl, inr, ==_iff,
}
use hft_order_book_simulator.Types.{OrderId, Ptr, Price, Side, bid, ask, is_active}
use hft_order_book_simulator.PriceLevel
use hft_order_book_simulator.PriceLevel.{PriceLevel, Heap}
use hft_order_book_simulator.PriceLevel.Queue.{SamePayload}
use hft_order_book_simulator.PriceLevel.Payload.{remove-SamePayload}
use hft_order_book_simulator.Containers.{lookup, find}
use hft_order_book_simulator.OrderBook.{
  OrderBook, Levels, heap, with_heap, before, levels, with_levels, remove_from_book, put_level,
  erase_level,
}
use hft_order_book_simulator.OrderBook.Matching.{opposite}
use hft_order_book_simulator.OrderBook.Keyed.{Keyed-frame, Entered, Entered-frame, Keys, SameKeys}
use hft_order_book_simulator.OrderBook.Untouched.{remove_from_book-SameKeys}
use hft_order_book_simulator.OrderBook.Effects.{levels-with_levels}
use hft_order_book_simulator.OrderBook.Sides.{
  Resting, SideOk, SideOk-frame, Ahead, AllPrices, all_of,
}
use hft_order_book_simulator.OrderBook.Sides.Taking.{Taken, take_lem}
use hft_order_book_simulator.OrderBook.Sides.Dequeue.{dequeue, dequeue-absent}
use hft_order_book_simulator.OrderBook.Sides.Leaving.{reduced, reduced-AllPrices}
use hft_order_book_simulator.OrderBook.Sides.Members.{Resting_on}
use hft_order_book_simulator.OrderBook.Sides.Prices.{AllPrices-map}
use hft_order_book_simulator.OrderBook.Invariant.{
  Queues, put, Core, Core-queues, nobody, Uncrossed, by_put, by_side, both_Uncrossed, sides_apart,
  put-same, put-other,
}
use hft_order_book_simulator.OrderBook.Invariant.Resting.{
  heap-with_both, opposite-with_both, payload-is_active,
}

-- The book after the order at `p` has been taken from the level `l` of the side `s` at the price `k`.
abbrev taken_out : Side → Price → PriceLevel → Ptr → OrderBook → OrderBook
taken_out s k l p b =
    let (h, l') = PriceLevel.remove (heap b) l p in
    with_levels s (with_heap b h) (reduced s k l' (levels s b))

remove_at : Side → Price → PriceLevel → Ptr → OrderBook → OrderBook
unfolding put_level erase_level
remove_at s k l p b =
    let (h, l') = PriceLevel.remove (heap b) l p in
    let b' = put_level s k l' (with_heap b h) in
    if PriceLevel.empty l' then erase_level s k b' else b'

remove_at-eq :
    (s : Side) (k : Price) (l : PriceLevel) (p : Ptr) (b : OrderBook)
    → remove_at s k l p b ≡ taken_out s k l p b
unfolding remove_at put_level erase_level
remove_at-eq bid k l p b = elim (Bool-cases (PriceLevel.empty (PriceLevel.remove (heap b) l p).1)) [
  | inl gone ↦ rw gone refl
  | inr kept ↦ rw kept refl
]
remove_at-eq ask k l p b = elim (Bool-cases (PriceLevel.empty (PriceLevel.remove (heap b) l p).1)) [
  | inl gone ↦ rw gone refl
  | inr kept ↦ rw kept refl
]

remove_from_book-eq :
    (p : Ptr) (b : OrderBook) (s : Side) (k : Price) (l : PriceLevel)
    → (heap b p).side ≡ s
    → (heap b p).price ≡ k
    → find (before s) k (levels s b) ≡ some l
    → remove_from_book p b ≡ taken_out s k l p b
unfolding remove_from_book remove_at
remove_from_book-eq p b s k l es ek found =
    let e : find (before (heap b p).side) (heap b p).price (levels (heap b p).side b) ≡ some l =
      subst₂ (λ s' k'. find (before s') k' (levels s' b) ≡ some l) (sym es) (sym ek) found in
    let step : remove_from_book p b ≡ remove_at (heap b p).side (heap b p).price l p b =
      rw (remove_from_book, e) refl in
    subst₂ (λ s' k'. remove_from_book p b ≡ remove_at s' k' l p b) es ek step
    ∙ remove_at-eq s k l p b

-- The order at `p` has left the side `s`.
pub record Removed (s : Side) (p : Ptr) (b : OrderBook) (free : List Ptr) (q : Queues)
    (b' : OrderBook) : Type 0 where
  pub core : Core b' free (λ s'. dequeue p (q s')) (◌==◌ p)
  pub entered : Entered b' p
  pub payload : SamePayload (heap b) (heap b')
  pub other : levels (opposite s) b' ≡ levels (opposite s) b

module _ {b : OrderBook} {free : List Ptr} {q : Queues} (v : Core b free q nobody) (s : Side)
    (p : Ptr) (i : p ∈ all_of (q s)) where
  r : Resting s (heap b p).price (heap b p)
  r = Resting_on s (heap b) (levels s b) (q s) p (v.side s) i

  abbrev k : Price
  k = (heap b p).price

  x : Taken s (heap b) k p (levels s b) (q s)
  x = take_lem s (heap b) (levels s b) (q s) p (v.side s) (v.distinct s) i

  abbrev b' : OrderBook
  b' = taken_out s k x.level p b

  abbrev g : Heap
  g = (PriceLevel.remove (heap b) x.level p).0

  abbrev m' : Levels
  m' = reduced s k (PriceLevel.remove (heap b) x.level p).1 (levels s b)

  abbrev qs' : List (List Ptr)
  qs' = x.taking.queues

  removed_eq : remove_from_book p b ≡ b'
  removed_eq = remove_from_book-eq p b s k x.level r.side refl x.found

  memory : heap b' ≡ g
  memory = heap-with_both s b g m'

  kept : SameKeys b b'
  kept = subst (SameKeys b) removed_eq (remove_from_book-SameKeys p b)

  pay : SamePayload (heap b) g
  pay = remove-SamePayload (heap b) x.level p

  taken-Uncrossed : Uncrossed s b'
  taken-Uncrossed =
      subst₂ (λ m₁ m₂. AllPrices (λ j. Ahead s j m₁) m₂)
        (sym (levels-with_levels s (with_heap b g) m')) (sym (opposite-with_both s b g m'))
        (AllPrices-map
          (λ j h.
            reduced-AllPrices (λ z. before s j z ≡ true) s k
              (PriceLevel.remove (heap b) x.level p).1 (levels s b) h)
          (levels (opposite s) b) (v.uncrossed s))

  still_listed :
      (id : OrderId) (a : Ptr)
      → lookup id b'.order_map ≡ some a
      → is_active (heap b' a) ≡ true
      → (p == a) ≡ false
      → (s' : Side) × (a ∈ all_of (put s qs' q s'))
  still_listed id a h act ne =
      let was = payload-is_active (heap b) g pay a in
      let (s', j) =
        v.listed id a (ap (λ (z : Keys). lookup id z.1) (sym kept) ∙ h)
          (sym was ∙ ap (λ (z : Heap). is_active (z a)) (sym memory) ∙ act) refl in
      by_side (λ s'. a ∈ all_of (q s') → (s' : Side) × (a ∈ all_of (put s qs' q s'))) s
        (λ j. (
          s,
          subst (λ z. a ∈ all_of z) (sym (put-same s qs' q))
              (ground (arith, x.taking.members a, j, ne)),
        ))
        (λ j. (opposite s, subst (λ z. a ∈ all_of z) (sym (put-other s qs' q)) j)) s' j

  apart : (a : Ptr) → a ∈ all_of (q (opposite s)) → (p == a) ≡ false
  apart a j = elim (Bool-cases (p == a)) [
    | inl same ↦
        let here : a ∈ all_of (q s) = subst (λ z. z ∈ all_of (q s)) ((==_iff p a).0 same) i in
        cc (sides_apart v s a j)
    | inr other ↦ other
  ]

  exact : (s' : Side) → put s qs' q s' ≡ dequeue p (q s')
  exact =
      by_put (λ s' z. z ≡ dequeue p (q s')) s qs' q x.taking.exact
        (sym (dequeue-absent p (q (opposite s)) away))
    where
      away : p ∉ all_of (q (opposite s))
      away = elim (Bool-cases (has p (all_of (q (opposite s))))) [
        | inl j ↦ absurd (ground (arith, apart p j))
        | inr o ↦ o
      ]

  taken-Core : Core b' free (put s qs' q) (◌==◌ p)
  taken-Core = record {
    side =
        by_put (λ s' z. SideOk s' (heap b') (levels s' b') z) s qs' q
          (subst₂ (λ h m. SideOk s h m qs') (sym memory)
            (sym (levels-with_levels s (with_heap b g) m')) x.taking.ok)
          (subst₂ (λ h m. SideOk (opposite s) h m (q (opposite s))) (sym memory)
            (sym (opposite-with_both s b g m'))
            (SideOk-frame (opposite s) (heap b) g (levels (opposite s) b) (q (opposite s))
              (λ a j. x.taking.outside a (sides_apart v s a j)) (v.side (opposite s))));
    distinct =
        by_put (λ s' z. Distinct (all_of z)) s qs' q x.taking.distinct (v.distinct (opposite s));
    uncrossed = both_Uncrossed s b' taken-Uncrossed;
    keyed = Keyed-frame b b' kept v.keyed;
    entered =
        by_put (λ s' z. (a : Ptr) → a ∈ all_of z → Entered b' a) s qs' q
          (λ a j. Entered-frame b b' a kept (v.entered s a (ground (arith, x.taking.members a))))
          (λ a j. Entered-frame b b' a kept (v.entered (opposite s) a j));
    listed = still_listed;
    idle =
        by_put (λ s' z. (a : Ptr) → a ∈ all_of z → (p == a) ≡ false) s qs' q
          (λ a j. ground (arith, x.taking.members a)) (λ a j. apart a j);
  }

  pub remove_from_book-Removed : Removed s p b free q (remove_from_book p b)
  remove_from_book-Removed = subst (Removed s p b free q) (sym removed_eq) (record {
    core = Core-queues exact taken-Core;
    entered = Entered-frame b b' p kept (v.entered s p i);
    payload = subst (SamePayload (heap b)) (sym memory) pay;
    other = opposite-with_both s b g m';
  })
