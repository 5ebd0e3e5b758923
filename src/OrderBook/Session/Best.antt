-- ===== src/OrderBook/Session/Best.antt =====
-- The best prices and the spread, after any calls, and the active orders of the map.
use hft_order_book_simulator.Common.{
  ℕ, ◌^◌, ◌<◌, ◌≡◌, refl, sym, ◌∙◌, subst, arith, Bool, true, false, some, List, [], ◌∷◌, length,
  All, ◌∈◌, has, has-append, Bool-cases, inl, inr, ◌⊎◌,
}
use hft_order_book_simulator.Common.Int.{ℤ, negsuc, ◌<ℤ◌, ◌≤ℤ◌, ◌-ℤ◌, pos}
use hft_order_book_simulator.Types.{
  Order, OrderId, Ptr, Price, Timestamp, Side, bid, ask, is_active,
}
use hft_order_book_simulator.PriceLevel.{Heap}
use hft_order_book_simulator.MemoryPool
use hft_order_book_simulator.Containers.{lookup}
use hft_order_book_simulator.OrderBook.{OrderBook, Levels, heap, levels, construct_over, before}
use hft_order_book_simulator.OrderBook.Queries.{
  best_bid, best_ask, spread, is_empty, first_price, price_max,
}
use hft_order_book_simulator.OrderBook.Sides.{AllPrices, Ahead, SideOk, all_of}
use hft_order_book_simulator.OrderBook.Sides.Members.{Resting_of, Resting_on, price_on}
use hft_order_book_simulator.OrderBook.Invariant.{BookOk}
use hft_order_book_simulator.OrderBook.Session.{Call, Fits, run, session_lem}

first_below :
    (m n : Levels) (d e : Price)
    → is_empty m ≡ false
    → is_empty n ≡ false
    → AllPrices (λ k. Ahead ask k n) m
    → first_price d m <ℤ first_price e n
first_below [] n d e x y h = cc
first_below ((k, l) ∷ m) [] d e x y h = cc
first_below ((k, l) ∷ m) ((j, l') ∷ n) d e x y h = ground (arith, h.0.0)

difference_positive : (a b : ℤ) → a <ℤ b → pos 0 <ℤ (b -ℤ a)
unfolding ◌-ℤ◌
difference_positive (pos m) (pos n) h = ground arith
difference_positive (pos m) (negsuc n) h = ground arith
difference_positive (negsuc m) (pos n) h = ground arith
difference_positive (negsuc m) (negsuc n) h = ground arith

-- The order at `p` is in the map under the id `i`, active, and of the side `s`.
abbrev pub Stands : Side → OrderBook → OrderId → Ptr → Type 0
Stands s b i p =
    (lookup i b.order_map ≡ some p) × (is_active (heap b p) ≡ true) × ((heap b p).side ≡ s)

-- An order of a side: what it means for the price of the first level.
front_best :
    (s : Side) (h : Heap) (d : Price) (m : Levels) (qs : List (List Ptr)) (p : Ptr)
    → SideOk s h m qs
    → p ∈ all_of qs
    → (is_empty m ≡ false)
      × (((h p).price ≡ first_price d m) ⊎ (before s (first_price d m) (h p).price ≡ true))
      × ((a : Ptr) × (a ∈ all_of qs) × ((h a).price ≡ first_price d m))
front_best s h d [] [] p v i = cc
front_best s h d [] (ps ∷ qs) p v i = absurd v
front_best s h d ((k, l) ∷ m) [] p v i = cc
front_best s h d ((k, l) ∷ m) ([] ∷ qs) p v i = absurd (v.1 refl)
front_best s h d ((k, l) ∷ m) ((x ∷ ps) ∷ qs) p v i = (
  refl,
  elim (Bool-cases (has p (x ∷ ps))) [
    | inl here ↦ inl (Resting_of s h k (x ∷ ps) p v.0.orders here).price
    | inr e ↦ inr (
        price_on (λ j. before s k j ≡ true) s h m qs p v.3
          (ground (arith, has-append p (x ∷ ps) (all_of qs))) v.2)
  ],
  (x, ground arith, v.0.orders.0.price),
)

module _ (b : OrderBook) (v : BookOk b) where
  -- An active order of the map is on its side.
  on_its_side : (s : Side) (i : OrderId) (p : Ptr) → Stands s b i p → p ∈ all_of (v.queues s)
  on_its_side s i p st =
      let (s', here) = v.core.listed i p st.0 st.1 refl in
      let r = Resting_on s' (heap b) (levels s' b) (v.queues s') p (v.core.side s') here in
      subst (λ z. p ∈ all_of (v.queues z)) (sym r.side ∙ st.2) here

  -- An order of a side is an active order of the map.
  stands : (s : Side) (p : Ptr) → p ∈ all_of (v.queues s) → Stands s b (heap b p).id p
  stands s p here =
      let r = Resting_on s (heap b) (levels s b) (v.queues s) p (v.core.side s) here in
      (v.core.entered s p here, r.active, r.side)

  module _ (s : Side) (d : Price) (i : OrderId) (p : Ptr) (st : Stands s b i p) where
    abbrev front : Price
    front = first_price d (levels s b)

    front_lem :
        (is_empty (levels s b) ≡ false)
        × (((heap b p).price ≡ front) ⊎ (before s front (heap b p).price ≡ true))
        × ((a : Ptr) × Stands s b (heap b a).id a × ((heap b a).price ≡ front))
    front_lem =
        let x =
          front_best s (heap b) d (levels s b) (v.queues s) p (v.core.side s)
            (on_its_side s i p st) in
        (x.0, x.1, (x.2.0, stands s x.2.0 x.2.1, x.2.2))

no_higher : (x k : ℤ) → (x ≡ k) ⊎ (before bid k x ≡ true) → x ≤ℤ k
no_higher x k (inl e) = rw e (omega arith)
no_higher x k (inr h) = ground arith

no_lower : (x k : ℤ) → (x ≡ k) ⊎ (before ask k x ≡ true) → k ≤ℤ x
no_lower x k (inl e) = rw e (omega arith)
no_lower x k (inr h) = ground arith

-- The best bid and the best ask of `b`, as the active orders of its map have it, and the spread.
pub record Quoted (b : OrderBook) (p r : Ptr) : Type 0 where
  pub highest : (heap b p).price ≤ℤ best_bid b
  pub lowest : best_ask b ≤ℤ (heap b r).price
  pub bid_there : (a : Ptr) × Stands bid b (heap b a).id a × ((heap b a).price ≡ best_bid b)
  pub ask_there : (a : Ptr) × Stands ask b (heap b a).id a × ((heap b a).price ≡ best_ask b)
  pub apart : best_bid b <ℤ best_ask b
  pub difference : spread b ≡ best_ask b -ℤ best_bid b
  pub positive : pos 0 <ℤ spread b

BookOk-Quoted :
    (b : OrderBook) (i j : OrderId) (p r : Ptr)
    → BookOk b
    → Stands bid b i p
    → Stands ask b j r
    → Quoted b p r
unfolding best_bid best_ask spread
BookOk-Quoted b i j p r v bidding asking =
    let x = front_lem b v bid (pos 0) i p bidding in
    let y = front_lem b v ask price_max j r asking in
    let below = first_below b.bids b.asks (pos 0) price_max x.0 y.0 (v.core.uncrossed ask) in
    let same : spread b ≡ best_ask b -ℤ best_bid b = rw (spread, x.0, y.0) refl in
    record {
      highest = no_higher (heap b p).price (best_bid b) x.1;
      lowest = no_lower (heap b r).price (best_ask b) y.1;
      bid_there = x.2;
      ask_there = y.2;
      apart = below;
      difference = same;
      positive =
          subst (λ z. pos 0 <ℤ z) (sym same) (difference_positive (best_bid b) (best_ask b) below);
    }

-- After any calls of `add_order`, `cancel_order` and `amend_order` from the construction of a book on, fewer than 2^64
-- and with 32-bit quantities, take any active bid and any active ask of the map. The bid is at most `best_bid`, the ask at
-- least `best_ask`, active orders of the map stand at both prices, `best_bid` is below `best_ask`, and `spread` is their
-- difference, which is positive.
pub spread_lem :
    (capacity : ℕ) (raw : ℕ → Order) (on_trade on_market_data : Bool) (clock : ℕ → Timestamp)
    (cs : List Call) (i j : OrderId) (p r : Ptr)
    → 0 < capacity
    → capacity < 2 ^ 64
    → All Fits cs
    → length cs < 2 ^ 64
    → (let b =
          run cs
            (construct_over (MemoryPool.construct capacity raw) on_trade on_market_data clock) in
        Stands bid b i p)
    → (let b =
          run cs
            (construct_over (MemoryPool.construct capacity raw) on_trade on_market_data clock) in
        Stands ask b j r)
    → Quoted
        (run cs (construct_over (MemoryPool.construct capacity raw) on_trade on_market_data clock))
        p
        r
spread_lem capacity raw on_trade on_market_data clock cs i j p r some_slot small fits few x y =
    BookOk-Quoted
      (run cs (construct_over (MemoryPool.construct capacity raw) on_trade on_market_data clock)) i
      j p r (session_lem capacity raw on_trade on_market_data clock cs some_slot small fits few) x y
