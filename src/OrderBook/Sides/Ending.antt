-- ===== src/OrderBook/Sides/Ending.antt =====
-- The matching loops end: the outer loop, level by level.
use hft_order_book_simulator.Common.{
  ℕ, zero, suc, ◌+◌, ◌≤◌, ◌<◌, ◌≡◌, refl, sym, ap, ◌∙◌, subst, true, false, none, some, List, [],
  ◌∷◌, ◌++◌, arith, Bool-cases, inl, inr, ◌⊎◌, ◌∉◌, has-append, length, length-append, head_or,
  Distinct, Distinct-right,
}
use hft_order_book_simulator.Types.{Ptr, Price, Side, is_active}
use hft_order_book_simulator.PriceLevel.{PriceLevel, Heap}
use hft_order_book_simulator.OrderBook.{OrderBook, Levels, heap, levels}
use hft_order_book_simulator.OrderBook.Matching.{
  match_against, match_level, stops_at, erase_front_if_empty, loop_fuel,
}
use hft_order_book_simulator.OrderBook.Effects.{erase_front-Effect}
use hft_order_book_simulator.OrderBook.Sides.{LevelOk, SideOk, SideOk-frame, all_of}
use hft_order_book_simulator.OrderBook.Sides.Level.{Taker, Progress}
use hft_order_book_simulator.OrderBook.Sides.Inner.{match_level-LevelRun}
use hft_order_book_simulator.OrderBook.Sides.Outer.{
  match_against-nil, match_against-inactive, match_against-stops, match_against-goes_on,
}
use hft_order_book_simulator.OrderBook.Sides.Sweep.{
  Ready, behind, level_gone, empty_by_head, length-all_of,
}
use hft_order_book_simulator.OrderBook.Sides.Loops.{
  Trips, Rounds, none_left, idles, breaks, goes, match_level-Trips,
}

-- One level: the loop goes through it, and then through the rest.
module _ (fuel : ℕ) (s : Side) (k : Price) (m : Levels) (t : Ptr) (ps : List Ptr)
    (qs : List (List Ptr)) (b : OrderBook) (l : PriceLevel) (v : SideOk s (heap b) m qs)
    (d : Distinct (ps ++ all_of qs)) (out : t ∉ ps ++ all_of qs) (e : levels s b ≡ (k, l) ∷ m)
    (lv : LevelOk s (heap b) k l ps) (w : Taker (heap b t)) where
  -- What the level leaves is done with, or the rest of the loop is asked.
  after_round :
      (b₁ : OrderBook) (taken left : List Ptr)
      → Progress s k m t ps taken left b b₁
      → (left ≡ []) ⊎ (is_active (heap b₁ t) ≡ false)
      → ((b₂ : OrderBook)
          → levels s b₂ ≡ m
          → SideOk s (heap b₂) m qs
          → Taker (heap b₂ t)
          → b₂.pool.capacity ≡ b.pool.capacity
          → Rounds s t b₂ (match_against fuel s t b₂))
      → Rounds s t (erase_front_if_empty s b₁) (match_against fuel s t (erase_front_if_empty s b₁))
  after_round b₁ taken [] p done ih =
      let E = level_gone s k m t ps qs b b₁ v d out l e p in
      ih (erase_front_if_empty s b₁) E.side
        (subst (λ g. SideOk s g m qs) (sym E.memory)
          (SideOk-frame s (heap b) (heap b₁) m qs (behind s k m t ps qs b b₁ v d out p.outside) v))
        (subst (λ (g : Heap). Taker (g t)) (sym E.memory) p.taker) (E.capacity ∙ p.capacity)
  after_round b₁ taken (q ∷ left) p (inl none_there) ih = cc
  after_round b₁ taken (q ∷ left) p (inr idle) ih =
      let E =
        erase_front-Effect s b₁ k p.level m false p.side
          (empty_by_head p.level (some q) p.ok.queue.head) in
      let b₂ = erase_front_if_empty s b₁ in
      let idle₂ : is_active (heap b₂ t) ≡ false =
        ap (λ (g : Heap). is_active (g t)) E.memory ∙ idle in
      subst (Rounds s t b₂)
        (sym (match_against-inactive fuel s t b₂ ((k, p.level) ∷ m) E.side idle₂)) (idles b₂ idle₂)

  level_round :
      is_active (heap b t) ≡ true
      → stops_at s (heap b t) l.price ≡ false
      → length ps < suc b.pool.capacity
      → ((b₂ : OrderBook)
          → levels s b₂ ≡ m
          → SideOk s (heap b₂) m qs
          → Taker (heap b₂ t)
          → b₂.pool.capacity ≡ b.pool.capacity
          → Rounds s t b₂ (match_against fuel s t b₂))
      → Rounds s t b (match_against (suc fuel) s t b)
  level_round busy go f ih =
      let away : t ∉ ps = ground (arith, out, has-append t ps (all_of qs)) in
      let n = suc b.pool.capacity in
      let run = match_level-LevelRun n s k l.price m t ps b l f e lv away w lv.price go in
      let trips = match_level-Trips n s k l.price m t ps b l f e lv away w lv.price go in
      let by_head =
        subst (λ c. Trips s l.price t c b (match_level n s l.price t c b)) (sym lv.queue.head)
          trips in
      let later =
        after_round (match_level n s l.price t (head_or ps none) b) run.taken run.left run.progress
          run.done ih in
      let later_by_head =
        subst
          (λ c.
            let b₂ = erase_front_if_empty s (match_level n s l.price t c b) in
            Rounds s t b₂ (match_against fuel s t b₂))
          (sym lv.queue.head) later in
      subst (Rounds s t b) (sym (match_against-goes_on fuel s t b k l m e busy go)) (
        goes b (match_level n s l.price t l.head b)
          (match_against fuel s t (erase_front_if_empty s (match_level n s l.price t l.head b))) k l
          m e busy go by_head later_by_head)

match_against-Rounds :
    (fuel : ℕ) (s : Side) (t : Ptr) (qs : List (List Ptr)) (b : OrderBook) (m : Levels)
    → levels s b ≡ m
    → SideOk s (heap b) m qs
    → Distinct (all_of qs)
    → t ∉ all_of qs
    → Taker (heap b t)
    → length qs < fuel
    → length (all_of qs) ≤ b.pool.capacity
    → Rounds s t b (match_against fuel s t b)
match_against-Rounds zero s t qs b m e v d out w f c = absurd (omega arith)
match_against-Rounds (suc fuel) s t [] b [] e v d out w f c =
    subst (Rounds s t b) (sym (match_against-nil (suc fuel) s t b e)) (none_left b e)
match_against-Rounds (suc fuel) s t (ps ∷ qs) b [] e v d out w f c = absurd v
match_against-Rounds (suc fuel) s t [] b ((k, l) ∷ m) e v d out w f c = absurd v
match_against-Rounds (suc fuel) s t (ps ∷ qs) b ((k, l) ∷ m) e v d out w f c =
    let ih =
      λ (b₂ : OrderBook) (e₂ : levels s b₂ ≡ m) (v₂ : SideOk s (heap b₂) m qs)
          (w₂ : Taker (heap b₂ t)) (c₂ : b₂.pool.capacity ≡ b.pool.capacity).
        match_against-Rounds fuel s t qs b₂ m e₂ v₂ (Distinct-right ps (all_of qs) d)
          (ground (arith, has-append t ps (all_of qs))) w₂ (omega arith)
          (omega (arith, length-append ps (all_of qs))) in
    elim (Bool-cases (is_active (heap b t))) [
      | inr idle ↦
          subst (Rounds s t b) (sym (match_against-inactive (suc fuel) s t b ((k, l) ∷ m) e idle))
            (idles b idle)
      | inl busy ↦ elim (Bool-cases (stops_at s (heap b t) l.price)) [
        | inl st ↦
            subst (Rounds s t b) (sym (match_against-stops (suc fuel) s t b k l m e st))
              (breaks b k l m e busy st)
        | inr go ↦
            level_round fuel s k m t ps qs b l v.3 d out e v.0 w busy go
              (omega (arith, length-append ps (all_of qs))) ih
      ]
    ]

-- With the bound that `match_order` gives them, or any greater one, the functions of the matching loops compute what the
-- loops themselves do, on a passive side that is ready for the order: so the loops end, and in that book.
pub loops_end :
    (extra : ℕ) (s : Side) (b : OrderBook) (t : Ptr) (qs : List (List Ptr))
    → Ready s b t qs
    → Rounds s t b (match_against (loop_fuel b + extra) s t b)
loops_end extra s b t qs r =
    match_against-Rounds (loop_fuel b + extra) s t qs b (levels s b) refl r.side r.distinct r.apart
      r.taker (omega (arith, length-all_of s (heap b) (levels s b) qs r.side, r.room)) r.room
