-- ===== src/OrderBook/Sides/Loops.antt =====
-- The two matching loops of `match_against_asks` and `match_against_bids` as they are written, with no bound on their
-- rounds: a run of a loop is a derivation, so that a loop that does not end has none.
use hft_order_book_simulator.Common.{
  ℕ, zero, suc, ◌+◌, ◌-◌, ◌≤◌, ◌<◌, ◌≡◌, refl, sym, ap, ◌∙◌, subst, Bool, true, false, Option, none,
  some, List, [], ◌∷◌, ◌==◌, if◌then◌else◌, arith, Bool-cases, inl, inr, ◌∉◌, length, min, head_or,
}
use native.Mathlib.Decide.{dec_le}
use hft_order_book_simulator.Types.{Ptr, Price, Side, remaining, is_active}
use hft_order_book_simulator.PriceLevel.{PriceLevel}
use hft_order_book_simulator.OrderBook.{OrderBook, Levels, heap, levels, execute_trade}
use hft_order_book_simulator.OrderBook.Matching.{
  match_level, retire, stops_at, erase_front_if_empty,
}
use hft_order_book_simulator.OrderBook.Sides.{LevelOk}
use hft_order_book_simulator.OrderBook.Sides.Level.{
  Taker, round_gone, next₁, idle₁, match_level-none, match_level-inactive,
}
use hft_order_book_simulator.OrderBook.Sides.Inner.{
  maker, taker, fill_qty, remains, rest, round, stops_at-same,
}

-- The inner loop, from the order `cur` on: it leaves when there is no order or the incoming one is used up, or it makes a
-- trade, takes the order out when nothing is left of it, and goes on with the one that was behind it.
pub data Trips (s : Side) (px : Price) (t : Ptr) : Option Ptr → OrderBook → OrderBook → Type 0 where
  at_end : (b : OrderBook) → Trips s px t none b b
  used_up : (cur : Option Ptr) (b : OrderBook) → is_active (heap b t) ≡ false → Trips s px t cur b b
  trip :
      (p : Ptr) (b b₁ b' : OrderBook)
      → is_active (heap b t) ≡ true
      → b₁ ≡ execute_trade p t px (min (remaining (heap b t)) (remaining (heap b p))) b
      → Trips s px t (heap b₁ p).next (if remaining (heap b₁ p) == 0 then retire s p b₁ else b₁) b'
      → Trips s px t (some p) b b'

-- The outer loop: it leaves when the side is empty, the incoming order is used up or its limit is reached, or it goes
-- through the best level, erases it when it is empty, and goes on.
pub data Rounds (s : Side) (t : Ptr) : OrderBook → OrderBook → Type 0 where
  none_left : (b : OrderBook) → levels s b ≡ [] → Rounds s t b b
  idles : (b : OrderBook) → is_active (heap b t) ≡ false → Rounds s t b b
  breaks :
      (b : OrderBook) (k : Price) (l : PriceLevel) (m : Levels)
      → levels s b ≡ (k, l) ∷ m
      → is_active (heap b t) ≡ true
      → stops_at s (heap b t) l.price ≡ true
      → Rounds s t b b
  goes :
      (b b₁ b' : OrderBook) (k : Price) (l : PriceLevel) (m : Levels)
      → levels s b ≡ (k, l) ∷ m
      → is_active (heap b t) ≡ true
      → stops_at s (heap b t) l.price ≡ false
      → Trips s l.price t l.head b b₁
      → Rounds s t (erase_front_if_empty s b₁) b'
      → Rounds s t b b'

-- A trip, by what is traded, what is left of the maker and what is behind it.
trip_by :
    (s : Side) (px : Price) (t p : Ptr) (b b' : OrderBook) (qty : ℕ) (c : Bool) (cur : Option Ptr)
    → is_active (heap b t) ≡ true
    → min (remaining (heap b t)) (remaining (heap b p)) ≡ qty
    → (heap (execute_trade p t px qty b) p).next ≡ cur
    → (remaining (heap (execute_trade p t px qty b) p) == 0) ≡ c
    → (let b₁ = execute_trade p t px qty b in Trips s px t cur (if c then retire s p b₁ else b₁) b')
    → Trips s px t (some p) b b'
trip_by s px t p b b' qty c cur busy eq en ec tr =
    let b₁ = execute_trade p t px qty b in
    let with_next = subst (λ x. Trips s px t x (if c then retire s p b₁ else b₁) b') (sym en) tr in
    let with_test =
      subst (λ x. Trips s px t (heap b₁ p).next (if x then retire s p b₁ else b₁) b') (sym ec)
        with_next in
    trip p b b₁ b' busy (ap (λ (n : ℕ). execute_trade p t px n b) (sym eq)) with_test

module _ (fuel : ℕ) (s : Side) (k px : Price) (m : Levels) (t p : Ptr) (ps : List Ptr)
    (b : OrderBook) (l : PriceLevel) (e : levels s b ≡ (k, l) ∷ m)
    (v : LevelOk s (heap b) k l (p ∷ ps)) (out : t ∉ p ∷ ps) (w : Taker (heap b t))
    (busy : is_active (heap b t) ≡ true) (at : px ≡ k)
    (reaches : stops_at s (heap b t) px ≡ false) where
  abbrev theirs : ℕ
  theirs = maker fuel s k px m t p ps b l e v out w busy at reaches

  abbrev ours : ℕ
  ours = taker fuel s k px m t p ps b l e v out w busy at reaches

  -- A trade of `qty`, after which the loop goes on to `b'`.
  round_trip :
      (qty : ℕ) (c : Bool)
      → min ours theirs ≡ qty
      → qty ≤ theirs
      → qty ≤ ours
      → (theirs - qty == 0) ≡ c
      → (let b₁ = execute_trade p t px qty b in
          Trips s px t
            (head_or ps none)
            (if c then retire s p b₁ else b₁)
            (match_level fuel s px t (head_or ps none) (if c then retire s p b₁ else b₁)))
      → Trips s px t (some p) b (match_level (suc fuel) s px t (some p) b)
  round_trip qty c eq le₁ le₂ en tr =
      let fits : (heap b t).filled_qty + qty ≤ (heap b t).quantity = omega (arith, w.within) in
      let b' = rest fuel s k px m t p ps b l e v out w busy at reaches qty c in
      subst (Trips s px t (some p) b)
        (sym (round fuel s k px m t p ps b l e v out w busy at reaches qty c eq le₁ le₂ en))
        (trip_by s px t p b b' qty c (head_or ps none) busy
          (fill_qty fuel s k px m t p ps b l e v out w busy at reaches ∙ eq)
          (next₁ s k px m t p ps b l qty e v out w fits le₁)
          (remains fuel s k px m t p ps b l e v out w busy at reaches qty c le₁ le₂ en) tr)

  -- The maker is filled.
  whole_trip :
      ((b' : OrderBook) (l' : PriceLevel)
        → levels s b' ≡ (k, l') ∷ m
        → LevelOk s (heap b') k l' ps
        → Taker (heap b' t)
        → stops_at s (heap b' t) px ≡ false
        → Trips s px t (head_or ps none) b' (match_level fuel s px t (head_or ps none) b'))
      → theirs ≤ ours
      → Trips s px t (some p) b (match_level (suc fuel) s px t (some p) b)
  whole_trip ih le =
      let fits : (heap b t).filled_qty + theirs ≤ (heap b t).quantity = omega (arith, w.within) in
      let step = round_gone s k px m t p ps b l theirs e v out w fits (omega arith) refl in
      let b₂ = retire s p (execute_trade p t px theirs b) in
      round_trip theirs true (omega arith) (omega arith) le (ground arith) (
        ih b₂ step.level step.side step.ok step.taker
          (stops_at-same s (heap b t) (heap b₂ t) px step.same ∙ reaches))

  -- The incoming order is filled.
  part_trip : ours < theirs → Trips s px t (some p) b (match_level (suc fuel) s px t (some p) b)
  part_trip lt =
      let fits : (heap b t).filled_qty + ours ≤ (heap b t).quantity = omega (arith, w.within) in
      let b₁ = execute_trade p t px ours b in
      let idle : is_active (heap b₁ t) ≡ false =
        idle₁ s k px m t p ps b l ours e v out w fits (omega arith) refl in
      round_trip ours false (omega arith) (omega arith) (omega arith) (ground arith) (
        subst (Trips s px t (head_or ps none) b₁)
          (sym (match_level-inactive fuel s px t (head_or ps none) b₁ idle))
          (used_up (head_or ps none) b₁ idle))

-- With more fuel than orders the function of the inner loop computes what the loop does.
pub match_level-Trips :
    (fuel : ℕ) (s : Side) (k px : Price) (m : Levels) (t : Ptr) (ps : List Ptr) (b : OrderBook)
    (l : PriceLevel)
    → length ps < fuel
    → levels s b ≡ (k, l) ∷ m
    → LevelOk s (heap b) k l ps
    → t ∉ ps
    → Taker (heap b t)
    → px ≡ k
    → stops_at s (heap b t) px ≡ false
    → Trips s px t (head_or ps none) b (match_level fuel s px t (head_or ps none) b)
match_level-Trips zero s k px m t ps b l f e v out w at reaches = absurd (omega arith)
match_level-Trips (suc fuel) s k px m t [] b l f e v out w at reaches =
    subst (Trips s px t none b) (sym (match_level-none (suc fuel) s px t b)) (at_end b)
match_level-Trips (suc fuel) s k px m t (p ∷ ps) b l f e v out w at reaches =
    let ih =
      λ (b' : OrderBook) (l' : PriceLevel) (e' : levels s b' ≡ (k, l') ∷ m)
          (v' : LevelOk s (heap b') k l' ps) (w' : Taker (heap b' t))
          (reaches' : stops_at s (heap b' t) px ≡ false).
        match_level-Trips fuel s k px m t ps b' l' (omega arith) e' v' (ground arith) w' at
          reaches' in
    elim (Bool-cases (is_active (heap b t))) [
      | inr idle ↦
          subst (Trips s px t (some p) b)
            (sym (match_level-inactive (suc fuel) s px t (some p) b idle)) (used_up (some p) b idle)
      | inl busy ↦
          elim (dec_le (maker fuel s k px m t p ps b l e v out w busy at reaches)
            (taker fuel s k px m t p ps b l e v out w busy at reaches)) [
              | yes le ↦ whole_trip fuel s k px m t p ps b l e v out w busy at reaches ih le
              | no gt ↦ part_trip fuel s k px m t p ps b l e v out w busy at reaches (omega arith)
            ]
    ]
