-- ===== src/OrderBook/Invariant.antt =====
-- What holds of a book between two calls: both sides are in order and do not cross, the map of the orders and the pool
-- agree, and the orders of the sides are the active ones of the map. While a call works on an order, that order is out
-- of both sides.
pub mod Matching
pub mod Resting
pub mod Taking
pub mod Closing
pub mod Entering
pub mod Adding
pub mod Cancelling
pub mod Amending
pub mod Counter
pub mod Answer
pub mod Clear
use mathlib.Core.Path.{fun_ext}
use hft_order_book_simulator.Common.{
  ℕ, ◌+◌, ◌-◌, ◌^◌, ◌≤◌, ◌<◌, ◌≡◌, ◌≢◌, refl, sym, ap, ◌∙◌, subst, arith, Bool, true, false, Option,
  none, some, List, [], ◌∷◌, ◌++◌, ◌==◌, ◌∈◌, ◌∉◌, has, Distinct, Bool-cases, inl, inr,
  if◌then◌else◌,
}
use hft_order_book_simulator.Types.{Order, OrderId, Ptr, Price, Side, bid, ask, is_active}
use hft_order_book_simulator.PriceLevel.{Heap}
use hft_order_book_simulator.Containers.{lookup}
use hft_order_book_simulator.OrderBook.{OrderBook, Levels, heap, before, levels}
use hft_order_book_simulator.OrderBook.Matching.{opposite}
use hft_order_book_simulator.OrderBook.Keyed.{
  Keys, keys, SameKeys, Keyed, Entered, Keyed-frame, Entered-frame,
}
use hft_order_book_simulator.OrderBook.Sides.{SideOk, SideOk-frame, Ahead, AllPrices, all_of}
use hft_order_book_simulator.OrderBook.Sides.Members.{Resting_on}

-- The orders of the two sides, level by level.
abbrev pub Queues : Type 0
Queues = Side → List (List Ptr)

abbrev pub put : Side → List (List Ptr) → Queues → Queues
put bid x q bid = x
put bid x q ask = q ask
put ask x q bid = q bid
put ask x q ask = x

-- Every price of the side opposite to `s` comes ahead of every price of `s`.
abbrev pub Uncrossed : Side → OrderBook → Type 0
Uncrossed s b = AllPrices (λ k. Ahead s k (levels s b)) (levels (opposite s) b)

-- The orders that `busy` names are out of the sides.
pub record Core (b : OrderBook) (free : List Ptr) (q : Queues) (busy : Ptr → Bool) : Type 0 where
  pub side : (s : Side) → SideOk s (heap b) (levels s b) (q s)
  pub distinct : (s : Side) → Distinct (all_of (q s))
  pub uncrossed : (s : Side) → Uncrossed s b
  pub keyed : Keyed b free
  pub entered : (s : Side) (a : Ptr) → a ∈ all_of (q s) → Entered b a
  pub listed :
      (i : OrderId) (a : Ptr)
      → lookup i b.order_map ≡ some a
      → is_active (heap b a) ≡ true
      → busy a ≡ false
      → (s : Side) × (a ∈ all_of (q s))
  pub idle : (s : Side) (a : Ptr) → a ∈ all_of (q s) → busy a ≡ false

abbrev pub nobody : Ptr → Bool
nobody a = false

pub record BookOk (b : OrderBook) : Type 0 where
  pub free : List Ptr
  pub queues : Queues
  pub core : Core b free queues nobody

-- One side and the other.
pub by_side : (P : Side → Type 0) (s : Side) → P s → P (opposite s) → (s' : Side) → P s'
by_side P bid x y bid = x
by_side P bid x y ask = y
by_side P ask x y bid = y
by_side P ask x y ask = x

pub put-same : (s : Side) (x : List (List Ptr)) (q : Queues) → put s x q s ≡ x
put-same bid x q = refl
put-same ask x q = refl

pub put-other :
    (s : Side) (x : List (List Ptr)) (q : Queues) → put s x q (opposite s) ≡ q (opposite s)
put-other bid x q = refl
put-other ask x q = refl

-- A property of the orders of both sides, after one side has been changed.
pub by_put :
    (P : Side → List (List Ptr) → Type 0) (s : Side) (x : List (List Ptr)) (q : Queues)
    → P s x
    → P (opposite s) (q (opposite s))
    → (s' : Side) → P s' (put s x q s')
by_put P s x q h k =
    by_side (λ s'. P s' (put s x q s')) s (subst (P s) (sym (put-same s x q)) h)
      (subst (P (opposite s)) (sym (put-other s x q)) k)

AllPrices-swap :
    (R : Price → Price → Type 0) (m n : Levels)
    → AllPrices (λ k. AllPrices (R k) n) m
    → AllPrices (λ j. AllPrices (λ k. R k j) m) n
AllPrices-swap R m [] h = tt
AllPrices-swap R m ((j, l) ∷ n) h = (first m h, AllPrices-swap R m n (others m h))
  where
    first :
        (m : Levels) → AllPrices (λ k. AllPrices (R k) ((j, l) ∷ n)) m → AllPrices (λ k. R k j) m
    first [] h = tt
    first ((k, l') ∷ m) h = (h.0.0, first m h.1)

    others :
        (m : Levels)
        → AllPrices (λ k. AllPrices (R k) ((j, l) ∷ n)) m
        → AllPrices (λ k. AllPrices (R k) n) m
    others [] h = tt
    others ((k, l') ∷ m) h = (h.0.1, others m h.1)

Uncrossed-opposite : (s : Side) (b : OrderBook) → Uncrossed s b → Uncrossed (opposite s) b
Uncrossed-opposite bid b h = AllPrices-swap (λ k j. before bid k j ≡ true) b.asks b.bids h
Uncrossed-opposite ask b h = AllPrices-swap (λ k j. before ask k j ≡ true) b.bids b.asks h

pub both_Uncrossed : (s : Side) (b : OrderBook) → Uncrossed s b → (s' : Side) → Uncrossed s' b
both_Uncrossed s b h = by_side (λ s'. Uncrossed s' b) s h (Uncrossed-opposite s b h)

opposite-apart : (s : Side) → s ≢ opposite s
opposite-apart bid e = cc
opposite-apart ask e = cc

module _ {b : OrderBook} {free : List Ptr} {q : Queues} {busy : Ptr → Bool}
    (v : Core b free q busy) where
  -- No order is on both sides.
  pub sides_apart : (s : Side) (a : Ptr) → a ∈ all_of (q (opposite s)) → a ∉ all_of (q s)
  sides_apart s a i = elim (Bool-cases (has a (all_of (q s)))) [
    | inl j ↦ absurd (
        opposite-apart s (
          sym (Resting_on s (heap b) (levels s b) (q s) a (v.side s) j).side
          ∙ (Resting_on (opposite s) (heap b) (levels (opposite s) b) (q (opposite s)) a
              (v.side (opposite s)) i).side))
    | inr e ↦ e
  ]

  -- Steps that only change orders that are out of the sides.
  pub Core-frame :
      (b' : OrderBook)
      → ((s : Side) → levels s b' ≡ levels s b)
      → SameKeys b b'
      → ((a : Ptr) → busy a ≡ false → heap b' a ≡ heap b a)
      → Core b' free q busy
  Core-frame b' sides x same = record {
    side = λ s.
        subst (λ m. SideOk s (heap b') m (q s)) (sym (sides s))
          (SideOk-frame s (heap b) (heap b') (levels s b) (q s) (λ a i. same a (v.idle s a i))
            (v.side s));
    distinct = v.distinct;
    uncrossed = λ s. rw (sides s, sides (opposite s)) (v.uncrossed s);
    keyed = Keyed-frame b b' x v.keyed;
    entered = λ s a i. Entered-frame b b' a x (v.entered s a i);
    listed = λ i a h act free_of.
        v.listed i a (ap (λ (k : Keys). lookup i k.1) (sym x) ∙ h)
          (ap is_active (sym (same a free_of)) ∙ act) free_of;
    idle = v.idle;
  }

pub Core-queues :
    {b : OrderBook} {free : List Ptr} {q q' : Queues} {busy : Ptr → Bool}
    → ((s : Side) → q s ≡ q' s)
    → Core b free q busy
    → Core b free q' busy
Core-queues {b} {free} {q} {q'} {busy} same v = subst (λ z. Core b free z busy) (fun_ext same) v
