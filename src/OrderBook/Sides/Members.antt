-- ===== src/OrderBook/Sides/Members.antt =====
-- The orders of a level and of a side, one by one.
use hft_order_book_simulator.Common.{
  sym, subst, arith, List, [], ◌∷◌, ◌==◌, All, ◌∈◌, has, has-append, Bool-cases, ==_iff, inl, inr,
}
use hft_order_book_simulator.Types.{Ptr, Price, Side}
use hft_order_book_simulator.PriceLevel.{Heap}
use hft_order_book_simulator.OrderBook.{Levels}
use hft_order_book_simulator.OrderBook.Sides.{Resting, SideOk, AllPrices, all_of}

-- An order of a level rests at its price.
pub Resting_of :
    (s : Side) (h : Heap) (k : Price) (ps : List Ptr) (p : Ptr)
    → All (λ a. Resting s k (h a)) ps
    → p ∈ ps
    → Resting s k (h p)
Resting_of s h k [] p v i = cc
Resting_of s h k (x ∷ ps) p v i = elim (Bool-cases (p == x)) [
  | inl e ↦ subst (λ z. Resting s k (h z)) (sym ((==_iff p x).0 e)) v.0
  | inr e ↦ Resting_of s h k ps p v.1 (ground arith)
]

-- An order of a side rests at its own price, and that is one of the prices of the side.
pub Resting_on :
    (s : Side) (h : Heap) (m : Levels) (qs : List (List Ptr)) (p : Ptr)
    → SideOk s h m qs
    → p ∈ all_of qs
    → Resting s (h p).price (h p)
Resting_on s h [] [] p v i = cc
Resting_on s h [] (ps ∷ qs) p v i = absurd v
Resting_on s h ((k, l) ∷ m) [] p v i = cc
Resting_on s h ((k, l) ∷ m) (ps ∷ qs) p v i = elim (Bool-cases (has p ps)) [
  | inl here ↦
      let r = Resting_of s h k ps p v.0.orders here in
      subst (λ z. Resting s z (h p)) (sym r.price) r
  | inr e ↦ Resting_on s h m qs p v.3 (ground (arith, has-append p ps (all_of qs)))
]

pub price_on :
    (Q : Price → Type 0) (s : Side) (h : Heap) (m : Levels) (qs : List (List Ptr)) (p : Ptr)
    → SideOk s h m qs
    → p ∈ all_of qs
    → AllPrices Q m
    → Q (h p).price
price_on Q s h [] [] p v i q = cc
price_on Q s h [] (ps ∷ qs) p v i q = absurd v
price_on Q s h ((k, l) ∷ m) [] p v i q = cc
price_on Q s h ((k, l) ∷ m) (ps ∷ qs) p v i q = elim (Bool-cases (has p ps)) [
  | inl here ↦ subst Q (sym (Resting_of s h k ps p v.0.orders here).price) q.0
  | inr e ↦ price_on Q s h m qs p v.3 (ground (arith, has-append p ps (all_of qs))) q.1
]
