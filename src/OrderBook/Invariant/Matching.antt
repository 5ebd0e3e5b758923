-- ===== src/OrderBook/Invariant/Matching.antt =====
-- The matching loops on a book: an incoming order that is out of the sides is matched against one of them.
use hft_order_book_simulator.Common.{
  ◌≡◌, sym, ap, ◌∙◌, subst, arith, true, false, some, List, [], ◌∷◌, ◌++◌, ◌==◌, ◌∈◌, ◌∉◌, has,
  has-append, Distinct, Distinct-left, Distinct-right, apart_left, Bool-cases, inl, inr, All,
}
use hft_order_book_simulator.Common.Pigeonhole.{length-bounded}
use hft_order_book_simulator.Types.{OrderId, Ptr, Side, is_active}
use hft_order_book_simulator.Containers.{lookup}
use hft_order_book_simulator.OrderBook.{OrderBook, heap, levels}
use hft_order_book_simulator.OrderBook.Matching.{opposite, match_against, loop_fuel}
use hft_order_book_simulator.OrderBook.Keyed.{Entered}
use hft_order_book_simulator.OrderBook.Releases.{Releases, Trail-Releases}
use hft_order_book_simulator.OrderBook.Sides.{SideOk, SideOk-frame, Ahead, AllPrices, all_of}
use hft_order_book_simulator.OrderBook.Sides.Level.{Taker, SameTaker}
use hft_order_book_simulator.OrderBook.Sides.Outer.{SideRun, Stopped}
use hft_order_book_simulator.OrderBook.Sides.Sweep.{Ready, match_against_lem}
use hft_order_book_simulator.OrderBook.Sides.Prices.{AllPrices-map}
use hft_order_book_simulator.OrderBook.Invariant.{
  Queues, put, Core, Uncrossed, by_put, by_side, both_Uncrossed, sides_apart, put-same, put-other,
}

All-of : (P : Ptr → Type 0) (ps : List Ptr) → ((a : Ptr) → a ∈ ps → P a) → All P ps
All-of P [] h = tt
All-of P (p ∷ ps) h = (h p (ground arith), All-of P ps (λ a i. h a (ground arith)))

-- The incoming order after the loops, and the book.
pub record Matched (s : Side) (t : Ptr) (b b' : OrderBook) : Type 0 where
  pub free : List Ptr
  pub queues : Queues
  pub core : Core b' free queues (◌==◌ t)
  pub entered : Entered b' t
  pub same : SameTaker (heap b t) (heap b' t)
  pub taker : Taker (heap b' t)
  pub stopped : Stopped s (heap b' t) (levels s b')
  pub id_counter : b'.id_counter ≡ b.id_counter

module _ {b : OrderBook} {free : List Ptr} {q : Queues} {t : Ptr} (v : Core b free q (◌==◌ t))
    (et : Entered b t) (w : Taker (heap b t)) (s : Side) where
  out : (s' : Side) → t ∉ all_of (q s')
  out s' = elim (Bool-cases (has t (all_of (q s')))) [
    | inl i ↦ absurd (ground (arith, v.idle s' t i))
    | inr e ↦ e
  ]

  match-Ready : Ready s b t (q s)
  match-Ready = record {
    side = v.side s;
    distinct = v.distinct s;
    apart = out s;
    taker = w;
    room =
        length-bounded b.pool.capacity (all_of (q s)) (v.distinct s)
          (λ a i. v.keyed.in_range (heap b a).id a (v.entered s a i));
  }

  module _ (b' : OrderBook) (r : SideRun s t (q s) b b') where
    mem_taken : (a : Ptr) → a ∈ r.taken → a ∈ all_of (q s)
    mem_taken a i =
        subst (λ ws. a ∈ ws) (sym r.split) (ground (arith, has-append a r.taken (all_of r.left)))

    left_apart : Distinct (r.taken ++ all_of r.left)
    left_apart = subst Distinct r.split (v.distinct s)

    released : Releases r.taken b b'
    released =
        Trail-Releases r.trail v.keyed
          (All-of (Entered b) r.taken (λ a i. v.entered s a (mem_taken a i)))
          (Distinct-left r.taken (all_of r.left) left_apart)

    -- Orders that were not taken stay as they are.
    not_taken : (a : Ptr) → a ∉ all_of (q s) → a ∉ r.taken
    not_taken a o = elim (Bool-cases (has a r.taken)) [ inl i ↦ cc (mem_taken a i) | inr e ↦ e ]

    other_same : (a : Ptr) → a ∈ all_of (q (opposite s)) → heap b' a ≡ heap b a
    other_same a i = r.outside a (sides_apart v s a i) (v.idle (opposite s) a i)

    matched-Uncrossed : Uncrossed s b'
    matched-Uncrossed =
        subst (AllPrices (λ k. Ahead s k (levels s b'))) (sym r.other)
          (AllPrices-map (λ k. r.prices s k) (levels (opposite s) b) (v.uncrossed s))

    still_listed :
        (i : OrderId) (a : Ptr)
        → lookup i b'.order_map ≡ some a
        → is_active (heap b' a) ≡ true
        → (t == a) ≡ false
        → (s' : Side) × (a ∈ all_of (put s r.left q s'))
    still_listed i a h act ne = elim (Bool-cases (has a (all_of (q s)))) [
      | inl here ↦
          let there : a ∈ r.taken ++ all_of r.left = subst (λ ws. a ∈ ws) r.split here in
          let in_left : a ∈ all_of r.left =
            ground (arith, has-append a r.taken (all_of r.left), (released.was i a h).1) in
          (s, subst (λ x. a ∈ all_of x) (sym (put-same s r.left q)) in_left)
      | inr away ↦
          let e = r.outside a away ne in
          let (s', j) = v.listed i a (released.was i a h).0 (ap is_active (sym e) ∙ act) ne in
          by_side (λ s'. a ∈ all_of (q s') → (s' : Side) × (a ∈ all_of (put s r.left q s'))) s
            (λ j. cc) (λ j. (opposite s, subst (λ x. a ∈ all_of x) (sym (put-other s r.left q)) j))
            s' j
    ]

    matched : Matched s t b b'
    matched = record {
      free = released.free;
      queues = put s r.left q;
      core = record {
        side =
            by_put (λ s' x. SideOk s' (heap b') (levels s' b') x) s r.left q r.ok
              (subst (λ m. SideOk (opposite s) (heap b') m (q (opposite s))) (sym r.other)
                (SideOk-frame (opposite s) (heap b) (heap b') (levels (opposite s) b)
                  (q (opposite s)) other_same (v.side (opposite s))));
        distinct =
            by_put (λ s' x. Distinct (all_of x)) s r.left q
              (Distinct-right r.taken (all_of r.left) left_apart) (v.distinct (opposite s));
        uncrossed = both_Uncrossed s b' matched-Uncrossed;
        keyed = released.keyed;
        entered =
            by_put (λ s' x. (a : Ptr) → a ∈ all_of x → Entered b' a) s r.left q
              (λ a i.
                released.stay a (v.entered s a (r.within a i))
                  (apart_left r.taken (all_of r.left) a left_apart i))
              (λ a i.
                released.stay a (v.entered (opposite s) a i) (not_taken a (sides_apart v s a i)));
        listed = still_listed;
        idle =
            by_put (λ s' x. (a : Ptr) → a ∈ all_of x → (t == a) ≡ false) s r.left q
              (λ a i. v.idle s a (r.within a i)) (v.idle (opposite s));
      };
      entered = released.stay t et (not_taken t (out s));
      same = r.same;
      taker = r.taker;
      stopped = r.stopped;
      id_counter = released.id_counter;
    }

  pub match_against-Matched : Matched s t b (match_against (loop_fuel b) s t b)
  match_against-Matched =
      matched (match_against (loop_fuel b) s t b) (match_against_lem s b t (q s) match-Ready)
