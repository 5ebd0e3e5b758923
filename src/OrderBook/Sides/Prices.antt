-- ===== src/OrderBook/Sides/Prices.antt =====
-- The order of the prices on a side, and the keys of the levels under the operations of the map.
use hft_order_book_simulator.Common.{◌≡◌, refl, arith, true, false, [], ◌∷◌, Bool-cases, inl, inr}
use hft_order_book_simulator.Common.Int.{eq_of_parts}
use hft_order_book_simulator.Types.{Price, Side, bid, ask}
use hft_order_book_simulator.PriceLevel.{PriceLevel}
use hft_order_book_simulator.Containers.{adjust, at_or_insert, erase}
use hft_order_book_simulator.OrderBook.{Levels, before}
use hft_order_book_simulator.OrderBook.Matching.{opposite}
use hft_order_book_simulator.OrderBook.Sides.{AllPrices, Ahead}

before_trans :
    (s : Side) (a b c : Price) → before s a b ≡ true → before s b c ≡ true → before s a c ≡ true
before_trans bid a b c h k = ground arith
before_trans ask a b c h k = ground arith

pub before_total : (s : Side) (a b : Price) → before s a b ≡ false → before s b a ≡ false → a ≡ b
before_total bid a b h k = eq_of_parts a b (ground arith)
before_total ask a b h k = eq_of_parts a b (ground arith)

pub before-opposite : (s : Side) (a b : Price) → before (opposite s) a b ≡ before s b a
before-opposite bid a b = refl
before-opposite ask a b = refl

pub AllPrices-map :
    {Q R : Price → Type 0}
    → ((j : Price) → Q j → R j)
    → (m : Levels) → AllPrices Q m
    → AllPrices R m
AllPrices-map f [] h = tt
AllPrices-map f ((j, l) ∷ m) h = (f j h.0, AllPrices-map f m h.1)

pub Ahead-trans :
    (s : Side) (k j : Price) (m : Levels) → before s k j ≡ true → Ahead s j m → Ahead s k m
Ahead-trans s k j m h = AllPrices-map (λ i. before_trans s k j i h) m

pub AllPrices-adjust :
    (Q : Price → Type 0) (s : Side) (k : Price) (f : PriceLevel → PriceLevel) (m : Levels)
    → AllPrices Q m
    → AllPrices Q (adjust (before s) k f m)
unfolding adjust
AllPrices-adjust Q s k f [] h = tt
AllPrices-adjust Q s k f ((j, l) ∷ m) h = elim (Bool-cases (before s j k)) [
  | inl e ↦ rw e (h.0, AllPrices-adjust Q s k f m h.1)
  | inr e ↦ elim (Bool-cases (before s k j)) [ inl e' ↦ rw (e, e') h | inr e' ↦ rw (e, e') h ]
]

pub AllPrices-at_or_insert :
    (Q : Price → Type 0) (s : Side) (k : Price) (d : PriceLevel) (m : Levels)
    → Q k
    → AllPrices Q m
    → AllPrices Q (at_or_insert (before s) k d m).1
unfolding at_or_insert
AllPrices-at_or_insert Q s k d [] q h = (q, tt)
AllPrices-at_or_insert Q s k d ((j, l) ∷ m) q h = elim (Bool-cases (before s j k)) [
  | inl e ↦ rw e (h.0, AllPrices-at_or_insert Q s k d m q h.1)
  | inr e ↦ elim (Bool-cases (before s k j)) [ inl e' ↦ rw (e, e') (q, h) | inr e' ↦ rw (e, e') h ]
]

pub AllPrices-erase :
    (Q : Price → Type 0) (s : Side) (k : Price) (m : Levels)
    → AllPrices Q m
    → AllPrices Q (erase (before s) k m)
unfolding erase
AllPrices-erase Q s k [] h = tt
AllPrices-erase Q s k ((j, l) ∷ m) h = elim (Bool-cases (before s j k)) [
  | inl e ↦ rw e (h.0, AllPrices-erase Q s k m h.1)
  | inr e ↦ elim (Bool-cases (before s k j)) [ inl e' ↦ rw (e, e') h | inr e' ↦ rw (e, e') h.1 ]
]
