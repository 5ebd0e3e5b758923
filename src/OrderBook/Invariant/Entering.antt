-- ===== src/OrderBook/Invariant/Entering.antt =====
-- `add_order` up to the call of `match_order`: a slot of the pool is taken, and the new order is entered in the map.
use hft_order_book_simulator.Common.{
  ℕ, suc, ◌+◌, ◌%◌, ◌^◌, ◌≤◌, ◌<◌, ◌≡◌, refl, sym, ap, ◌∙◌, subst, arith, false, ◌⊎◌, Option, none,
  some, List, [], ◌∷◌, ◌++◌, ◌==◌, ◌∈◌, ◌∉◌, has, Distinct, Distinct-snoc, Bool-cases, inl, inr,
  if◌then◌else◌, length,
}
use hft_order_book_simulator.Common.Words.{add64}
use hft_order_book_simulator.Types.{
  Order, OrderId, Ptr, Price, Quantity, Side, bid, ask, OrderType, default_order, is_active, new,
}
use hft_order_book_simulator.MemoryPool
use hft_order_book_simulator.MemoryPool.{MemoryPool}
use hft_order_book_simulator.MemoryPool.FreeList.{IsFree, allocate-IsFree, allocate-slot}
use hft_order_book_simulator.Containers.{lookup, emplace}
use hft_order_book_simulator.OrderBook.{OrderBook, heap, levels}
use hft_order_book_simulator.OrderBook.Matching.{opposite}
use hft_order_book_simulator.OrderBook.Api.{enter}
use hft_order_book_simulator.OrderBook.Keyed.{IdMap, ids, Keyed, Entered, IsFree-frame}
use hft_order_book_simulator.OrderBook.Sides.{SideOk, SideOk-frame, all_of}
use hft_order_book_simulator.OrderBook.Sides.Level.{Taker}
use hft_order_book_simulator.OrderBook.Invariant.{Queues, Core, nobody}

mem-lookup : (j : OrderId) (m : IdMap) → j ∈ ids m → (p : Ptr) × (lookup j m ≡ some p)
unfolding lookup
mem-lookup j [] i = cc
mem-lookup j ((k, p) ∷ m) i = elim (Bool-cases (k == j)) [
  | inl e ↦ (p, rw (lookup, e) refl)
  | inr e ↦ let (a, h) = mem-lookup j m (ground arith) in (a, rw (lookup, e) h)
]

-- No id of a map whose ids are at most `n` is more.
new-id :
    (n j : ℕ) (m : IdMap)
    → ((i : OrderId) (p : Ptr) → lookup i m ≡ some p → i ≤ n)
    → n < j
    → j ∉ ids m
new-id n j m old lt = elim (Bool-cases (has j (ids m))) [
  | inl i ↦ let (p, h) = mem-lookup j m i in absurd (omega (arith, old j p h))
  | inr e ↦ e
]

emplace-new :
    (i : OrderId) (p : Ptr) (m : IdMap)
    → i ∉ ids m
    → (ids (emplace i p m) ≡ ids m ++ i ∷ []) × (length (emplace i p m) ≡ suc (length m))
unfolding emplace
emplace-new i p [] out = (refl, refl)
emplace-new i p ((j, a) ∷ m) out =
    let ne : (j == i) ≡ false = ground arith in
    let ih = emplace-new i p m (ground arith) in rw ne (ap (◌∷◌ j) ih.0, ap suc ih.1)

lookup-emplace :
    (i j : OrderId) (p : Ptr) (m : IdMap)
    → i ∉ ids m
    → lookup j (emplace i p m) ≡ (if i == j then some p else lookup j m)
unfolding lookup emplace
lookup-emplace i j p [] out = refl
lookup-emplace i j p ((k, a) ∷ m) out = ground (arith, lookup-emplace i j p m)

-- The book that `match_order` is called with.
abbrev pub entered_book : Side → OrderType → Price → Quantity → Ptr → OrderBook → OrderBook
entered_book side type price quantity p b = enter side type price quantity p (record b {
  pool = record b.pool {
    free_head = b.pool.next p;
    allocated = (b.pool.allocated + 1) % 2 ^ 64;
    storage = MemoryPool.update b.pool.storage p default_order;
  };
})

-- The order that is entered.
abbrev pub new_order : Side → OrderType → Price → Quantity → OrderBook → Order
new_order side type price quantity b = record {
  id = (b.id_counter + 1) % 2 ^ 64;
  price = price;
  quantity = quantity;
  filled_qty = 0;
  side = side;
  type = type;
  status = new;
  timestamp = b.clock b.now_calls;
  prev = none;
  next = none;
}

module _ (side : Side) (type : OrderType) (price : Price) (quantity : Quantity) (p : Ptr)
    (b : OrderBook) where
  abbrev b' : OrderBook
  b' = entered_book side type price quantity p b

  pub enter-levels : (s : Side) → levels s b' ≡ levels s b
  unfolding enter
  enter-levels bid = refl
  enter-levels ask = refl

  pub enter-others : (a : Ptr) → (p == a) ≡ false → heap b' a ≡ heap b a
  unfolding enter
  enter-others a ne = ground arith

  pub enter-new_order : heap b' p ≡ new_order side type price quantity b
  unfolding enter add64
  enter-new_order = ground arith

  enter-order_map : b'.order_map ≡ emplace ((b.id_counter + 1) % 2 ^ 64) p b.order_map
  unfolding enter add64
  enter-order_map = refl

  pub enter-id_counter : b'.id_counter ≡ (b.id_counter + 1) % 2 ^ 64
  unfolding enter add64
  enter-id_counter = refl

  enter-pool :
      (b'.pool.next ≡ b.pool.next)
      × (b'.pool.free_head ≡ b.pool.next p)
      × (b'.pool.allocated ≡ (b.pool.allocated + 1) % 2 ^ 64)
      × (b'.pool.capacity ≡ b.pool.capacity)
  unfolding enter
  enter-pool = (refl, refl, refl, refl)

  module _ {xs : List Ptr} {q : Queues} (v : Core b (p ∷ xs) q nobody)
      (counted : b.id_counter + 1 < 2 ^ 64) where
    abbrev i₀ : OrderId
    i₀ = (b.id_counter + 1) % 2 ^ 64

    fresh_id : i₀ ∉ ids b.order_map
    fresh_id = new-id b.id_counter i₀ b.order_map v.keyed.old (omega arith)

    -- What the map holds after the entry.
    entries :
        (i : OrderId) (a : Ptr)
        → lookup i b'.order_map ≡ some a
        → ((i ≡ i₀) × (a ≡ p)) ⊎ ((lookup i b.order_map ≡ some a) × ((p == a) ≡ false))
    entries i a h =
        let both : (if i₀ == i then some p else lookup i b.order_map) ≡ some a =
          sym (lookup-emplace i₀ i p b.order_map fresh_id)
          ∙ ap (lookup i) (sym enter-order_map)
          ∙ h in
        elim (Bool-cases (i₀ == i)) [
          | inl same ↦ inl (ground (arith, both, same))
          | inr other ↦
              let old : lookup i b.order_map ≡ some a = ground (arith, both, other) in
              inr (old, ground (arith, v.keyed.apart i a old))
        ]

    enter-own : lookup i₀ b'.order_map ≡ some p
    enter-own =
        ap (lookup i₀) enter-order_map ∙ lookup-emplace i₀ i₀ p b.order_map fresh_id ∙ ground arith

    pub enter-Entered : Entered b' p
    enter-Entered = ap (λ (o : Order). lookup o.id b'.order_map) enter-new_order ∙ enter-own

    enter-IsFree : IsFree b'.pool xs
    enter-IsFree =
        let allocated =
          subst (λ (r : Option ℕ × MemoryPool Order). IsFree r.1 xs)
            (allocate-slot b.pool default_order p xs v.keyed.free_list)
            (allocate-IsFree b.pool default_order p xs v.keyed.free_list) in
        IsFree-frame enter-pool.0 enter-pool.1 enter-pool.2 enter-pool.3 allocated

    enter-Keyed : Keyed b' xs
    enter-Keyed =
        let map_ids = emplace-new i₀ p b.order_map fresh_id in
        let free = v.keyed.free_list in
        record {
          free_list = enter-IsFree;
          distinct =
              subst Distinct (sym (ap ids enter-order_map ∙ map_ids.0))
                (Distinct-snoc (ids b.order_map) i₀ fresh_id v.keyed.distinct);
          own_id = λ i a h. elim (entries i a h) [
            | inl (ei, ea) ↦
                ap (λ z. (heap b' z).id) ea ∙ ap (λ (o : Order). o.id) enter-new_order ∙ sym ei
            | inr (old, other) ↦
                ap (λ (o : Order). o.id) (enter-others a other) ∙ v.keyed.own_id i a old
          ];
          apart = λ i a h. elim (entries i a h) [
            | inl (ei, ea) ↦ subst (λ z. z ∉ xs) (sym ea) free.distinct.0
            | inr (old, other) ↦ ground (arith, v.keyed.apart i a old)
          ];
          in_range = λ i a h. elim (entries i a h) [
            | inl (ei, ea) ↦ omega (arith, free.in_range.0, enter-pool.3)
            | inr (old, other) ↦ omega (arith, v.keyed.in_range i a old, enter-pool.3)
          ];
          old = λ i a h. elim (entries i a h) [
            | inl (ei, ea) ↦ omega (arith, enter-id_counter)
            | inr (old, other) ↦ omega (arith, v.keyed.old i a old, enter-id_counter, counted)
          ];
          used = omega (
            arith,
            enter-pool.2,
            v.keyed.used,
            free.counted,
            free.small,
            map_ids.1,
            ap length enter-order_map,
          );
        }

    pub enter-Core : Core b' xs q (◌==◌ p)
    enter-Core = record {
      side = λ s.
          subst (λ m. SideOk s (heap b') m (q s)) (sym (enter-levels s))
            (SideOk-frame s (heap b) (heap b') (levels s b) (q s)
              (λ a i. enter-others a (not_new s a i)) (v.side s));
      distinct = v.distinct;
      uncrossed = λ s. rw (enter-levels s, enter-levels (opposite s)) (v.uncrossed s);
      keyed = enter-Keyed;
      entered = λ s a i. enter-old a (v.entered s a i);
      listed = λ i a h act ne. elim (entries i a h) [
        | inl (ei, ea) ↦ absurd (ground (arith, ea, ne))
        | inr (old, other) ↦ v.listed i a old (ap is_active (sym (enter-others a ne)) ∙ act) refl
      ];
      idle = not_new;
    }
      where
        not_new : (s : Side) (a : Ptr) → a ∈ all_of (q s) → (p == a) ≡ false
        not_new s a i = ground (arith, v.keyed.apart (heap b a).id a (v.entered s a i))

        enter-old : (a : Ptr) → Entered b a → Entered b' a
        enter-old a e =
            let other : (p == a) ≡ false = ground (arith, v.keyed.apart (heap b a).id a e) in
            let same = enter-others a other in
            let ne : (i₀ == (heap b a).id) ≡ false =
              ground (arith, v.keyed.old (heap b a).id a e, counted) in
            ap (λ (o : Order). lookup o.id b'.order_map) same
            ∙ ap (lookup (heap b a).id) enter-order_map
            ∙ lookup-emplace i₀ (heap b a).id p b.order_map fresh_id
            ∙ rw ne e

    pub enter-Taker : quantity < 2 ^ 32 → 0 < quantity → Taker (heap b' p)
    unfolding is_active
    enter-Taker fits positive =
        subst Taker (sym enter-new_order)
          (record { fits = fits; within = omega arith; open_if = λ e. positive; full_if = λ e. cc })
