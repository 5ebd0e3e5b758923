-- ===== src/OrderBook/Sides/Leaving.antt =====
-- `remove_from_book` on one level, and what becomes of the levels.
use hft_order_book_simulator.Common.{
  ℕ, ◌+◌, ◌%◌, ◌^◌, ◌<◌, ◌≡◌, refl, sym, ap, ◌∙◌, arith, true, some, List, [], ◌∷◌, ◌++◌,
  if◌then◌else◌, All, ◌∉◌, has-append, Bool-cases, inl, inr,
}
use hft_order_book_simulator.Common.Words.{sub32}
use hft_order_book_simulator.Types.{Ptr, Price, Side, remaining}
use hft_order_book_simulator.PriceLevel
use hft_order_book_simulator.PriceLevel.{PriceLevel, Heap}
use hft_order_book_simulator.PriceLevel.Removal.{remove-IsQueue, remove-Removes, total-remove}
use hft_order_book_simulator.PriceLevel.Payload.{remove-SamePayload}
use hft_order_book_simulator.Containers.{find, adjust, erase}
use hft_order_book_simulator.OrderBook.{Levels, before}
use hft_order_book_simulator.OrderBook.Effects.{before_irrefl, adjust-front}
use hft_order_book_simulator.OrderBook.Sides.{
  Resting, LevelOk, AllPrices, sum_remaining, sum_remaining-frame, remaining-sub, All-Resting-frame,
  SameOrders,
}
use hft_order_book_simulator.OrderBook.Sides.Sweep.{sum_remaining-append}
use hft_order_book_simulator.OrderBook.Sides.Prices.{AllPrices-adjust, AllPrices-erase}
use hft_order_book_simulator.OrderBook.Sides.Inserting.{adjust_behind}
use hft_order_book_simulator.OrderBook.Sides.Members.{Resting_of}

-- The levels after the one of the price `k` has become `l`, and has gone if it is empty.
abbrev pub reduced : Side → Price → PriceLevel → Levels → Levels
reduced s k l m =
    let m' = adjust (before s) k (λ x. l) m in
    if PriceLevel.empty l then erase (before s) k m' else m'

total_taken :
    (total x r y : ℕ)
    → total ≡ (x + (r + y)) % 2 ^ 32
    → r < 2 ^ 32
    → sub32 total r ≡ (x + y) % 2 ^ 32
unfolding sub32
total_taken total x r y e lt = omega arith

-- What remains of a level without the order `p`.
module _ (s : Side) (h : Heap) (k : Price) (l : PriceLevel) (xs ys : List Ptr) (p : Ptr)
    (v : LevelOk s h k l (xs ++ p ∷ ys)) where
  abbrev pub g : Heap
  g = (PriceLevel.remove h l p).0

  All-without : (P : Ptr → Type 0) (zs : List Ptr) → All P (zs ++ p ∷ ys) → All P (zs ++ ys)
  All-without P [] a = a.1
  All-without P (z ∷ zs) a = (a.0, All-without P zs a.1)

  removed_total : (PriceLevel.remove h l p).1.total_qty ≡ sum_remaining g (xs ++ ys) % 2 ^ 32
  removed_total =
      let r =
        Resting_of s h k (xs ++ p ∷ ys) p v.orders (ground (arith, has-append p xs (p ∷ ys))) in
      let pay = remove-SamePayload h l p in
      let same : SameOrders (xs ++ ys) h g = λ a i. pay a in
      let rem = remaining-sub (h p) (omega (arith, r.open_qty)) r.fits in
      (total-remove h l xs ys p v.queue).0
      ∙ total_taken l.total_qty (sum_remaining h xs) (remaining (h p)) (sum_remaining h ys)
          (v.total ∙ ap (λ (n : ℕ). n % 2 ^ 32) (sum_remaining-append h xs (p ∷ ys)))
          (omega (arith, rem, r.fits))
      ∙ ap (λ (n : ℕ). n % 2 ^ 32)
          (sym (sum_remaining-frame h g (xs ++ ys) same ∙ sum_remaining-append h xs ys))

  pub removed-LevelOk : LevelOk s g k (PriceLevel.remove h l p).1 (xs ++ ys)
  removed-LevelOk = record {
    queue = remove-IsQueue h l xs ys p v.queue;
    price = (total-remove h l xs ys p v.queue).1 ∙ v.price;
    orders =
        All-Resting-frame s k h g (xs ++ ys) (λ a i. remove-SamePayload h l p a)
          (All-without (λ a. Resting s k (h a)) xs v.orders);
    total = removed_total;
  }

  pub removed_outside : (a : Ptr) → a ∉ xs ++ p ∷ ys → g a ≡ h a
  removed_outside a out = (remove-Removes h l xs ys p v.queue).outside a out

erase_behind :
    (s : Side) (k j : Price) (l : PriceLevel) (m : Levels)
    → before s j k ≡ true
    → erase (before s) k ((j, l) ∷ m) ≡ (j, l) ∷ erase (before s) k m
unfolding erase
erase_behind s k j l m e = rw (erase, e) refl

erase_here :
    (s : Side) (k : Price) (l : PriceLevel) (m : Levels) → erase (before s) k ((k, l) ∷ m) ≡ m
unfolding erase
erase_here s k l m = rw (erase, before_irrefl s k) refl

module _ (s : Side) (k j : Price) (l : PriceLevel) (m : Levels) where
  pub find_behind : before s j k ≡ true → find (before s) k ((j, l) ∷ m) ≡ find (before s) k m
  unfolding find
  find_behind e = rw (find, e) refl

  pub reduced_behind :
      (l' : PriceLevel)
      → before s j k ≡ true
      → reduced s k l' ((j, l) ∷ m) ≡ (j, l) ∷ reduced s k l' m
  reduced_behind l' e =
      let changed = adjust_behind s k j (λ x. l') l m e in
      elim (Bool-cases (PriceLevel.empty l')) [
        | inl gone ↦ rw (gone, changed) (erase_behind s k j l (adjust (before s) k (λ x. l') m) e)
        | inr kept ↦ rw (kept, changed) refl
      ]

module _ (s : Side) (k : Price) (l : PriceLevel) (m : Levels) where
  pub find_here : find (before s) k ((k, l) ∷ m) ≡ some l
  unfolding find
  find_here = rw (find, before_irrefl s k) refl

  pub reduced_here :
      (l' : PriceLevel)
      → reduced s k l' ((k, l) ∷ m) ≡ (if PriceLevel.empty l' then m else (k, l') ∷ m)
  reduced_here l' = elim (Bool-cases (PriceLevel.empty l')) [
    | inl gone ↦ rw (gone, adjust-front s k (λ x. l') l m) (erase_here s k l' m)
    | inr kept ↦ rw (kept, adjust-front s k (λ x. l') l m) refl
  ]

pub reduced-AllPrices :
    (Q : Price → Type 0) (s : Side) (k : Price) (l : PriceLevel) (m : Levels)
    → AllPrices Q m
    → AllPrices Q (reduced s k l m)
reduced-AllPrices Q s k l m q =
    let q' = AllPrices-adjust Q s k (λ x. l) m q in
    elim (Bool-cases (PriceLevel.empty l)) [
      | inl gone ↦ rw gone (AllPrices-erase Q s k (adjust (before s) k (λ x. l) m) q')
      | inr kept ↦ rw kept q'
    ]
