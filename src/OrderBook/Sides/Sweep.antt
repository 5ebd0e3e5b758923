-- ===== src/OrderBook/Sides/Sweep.antt =====
-- The outer matching loop as a whole, over a side of the book.
use mathlib.Core.List.{append_assoc, append-nil}
use hft_order_book_simulator.OrderBook.Trail.{Trail, Trail-trans, over, erases}
use hft_order_book_simulator.Common.{
  ℕ, zero, suc, ◌+◌, ◌≤◌, ◌<◌, ◌≡◌, refl, sym, ap, ◌∙◌, subst, Bool, true, false, Option, none,
  some, List, [], ◌∷◌, ◌++◌, ◌==◌, arith, Bool-cases, inl, inr, ◌⊎◌, ◌∈◌, ◌∉◌, has, has-append,
  length, length-append, head_or, Distinct, apart_left, Distinct-right,
}
use hft_order_book_simulator.Types.{Ptr, Price, Side, is_active}
use hft_order_book_simulator.PriceLevel
use hft_order_book_simulator.PriceLevel.{PriceLevel, Heap}
use hft_order_book_simulator.PriceLevel.Queue.{ne_of_not_mem}
use hft_order_book_simulator.OrderBook.{OrderBook, Levels, heap, levels}
use hft_order_book_simulator.OrderBook.Matching.{
  match_against, match_level, stops_at, erase_front_if_empty, loop_fuel,
}
use hft_order_book_simulator.OrderBook.Effects.{Effect, erase_front-Effect}
use hft_order_book_simulator.OrderBook.Sides.{
  SideOk, SideOk-frame, Ahead, all_of, sum_remaining, sum_remaining-frame,
}
use hft_order_book_simulator.OrderBook.Sides.Level.{Taker, SameTaker, SameTaker-trans, Progress}
use hft_order_book_simulator.OrderBook.Sides.Inner.{match_level-LevelRun}
use hft_order_book_simulator.OrderBook.Sides.Outer.{
  SideRun, Stopped, stay, match_against-nil, match_against-inactive, match_against-stops,
  match_against-goes_on,
}

pub sum_remaining-append :
    (h : Heap) (xs ys : List Ptr)
    → sum_remaining h (xs ++ ys) ≡ sum_remaining h xs + sum_remaining h ys
sum_remaining-append h [] ys = omega arith
sum_remaining-append h (x ∷ xs) ys = omega (arith, sum_remaining-append h xs ys)

pub empty_by_head :
    (l : PriceLevel) (c : Option Ptr)
    → l.head ≡ c
    → PriceLevel.empty l ≡ elim c [ none ↦ true | some p ↦ false ]
unfolding PriceLevel.empty
empty_by_head l c e =
    ap (λ (x : Option Ptr). elim x as (λ z. Bool) [ none ↦ true | some p ↦ false ]) e

module _ (s : Side) (k : Price) (m : Levels) (t : Ptr) (ps : List Ptr) (qs : List (List Ptr))
    (b b₁ : OrderBook) (v : SideOk s (heap b) m qs) (d : Distinct (ps ++ all_of qs))
    (out : t ∉ ps ++ all_of qs) where
  -- The level leaves the orders of the others alone.
  pub behind :
      ((a : Ptr) → a ∉ ps → (t == a) ≡ false → heap b₁ a ≡ heap b a)
      → (a : Ptr) → a ∈ all_of qs
      → heap b₁ a ≡ heap b a
  behind outside a i =
      outside a (apart_left ps (all_of qs) a d i)
        (ne_of_not_mem t a (all_of qs) (ground (arith, has-append t ps (all_of qs))) i)

  sum_behind :
      ((a : Ptr) → a ∉ ps → (t == a) ≡ false → heap b₁ a ≡ heap b a)
      → sum_remaining (heap b₁) (all_of qs) ≡ sum_remaining (heap b) (all_of qs)
  sum_behind outside =
      sum_remaining-frame (heap b) (heap b₁) (all_of qs) (λ a i. rw (behind outside a i) refl)

  -- The level is used up: what follows on the levels behind it.
  pub level_gone :
      (l : PriceLevel)
      → levels s b ≡ (k, l) ∷ m
      → {taken : List Ptr} → Progress s k m t ps taken [] b b₁
      → Effect s b₁ (heap b₁) m (erase_front_if_empty s b₁)
  level_gone l e p =
      erase_front-Effect s b₁ k p.level m true p.side (empty_by_head p.level none p.ok.queue.head)

  then_run :
      {b' : OrderBook} (l : PriceLevel) (taken : List Ptr)
      → levels s b ≡ (k, l) ∷ m
      → Progress s k m t ps taken [] b b₁
      → Trail s t b₁ taken b
      → Effect s b₁ (heap b₁) m (erase_front_if_empty s b₁)
      → SideRun s t qs (erase_front_if_empty s b₁) b'
      → SideRun s t (ps ∷ qs) b b'
  then_run {b'} l taken e p tr E r = record {
    left = r.left;
    ok = r.ok;
    other = r.other ∙ E.other ∙ p.other;
    outside = λ a o ne.
        r.outside a (ground (arith, has-append a ps (all_of qs))) ne
        ∙ ap (λ (g : Heap). g a) E.memory
        ∙ p.outside a (ground (arith, has-append a ps (all_of qs))) ne;
    taken = taken ++ r.taken;
    split =
        ap (λ z. z ++ all_of qs) (p.split ∙ append-nil taken)
        ∙ ap (λ z. taken ++ z) r.split
        ∙ sym (append_assoc taken r.taken (all_of r.left));
    trail = Trail-trans tr (erases r.trail);
    within = λ a i. ground (arith, r.within a i, has-append a ps (all_of qs));
    same =
        SameTaker-trans (heap b t) (heap b₁ t) (heap b' t) p.same
          (subst (λ (g : Heap). SameTaker (g t) (heap b' t)) E.memory r.same);
    taker = r.taker;
    balance = omega (
      arith,
      r.balance,
      p.balance,
      ap (λ (g : Heap). (g t).filled_qty + sum_remaining g (all_of qs)) E.memory,
      sum_behind p.outside,
      sum_remaining-append (heap b) ps (all_of qs),
    );
    prices = λ s' j h. r.prices s' j (subst (Ahead s' j) (sym E.side) (subst (Ahead s' j) e h).1);
    stopped = r.stopped;
    capacity = r.capacity ∙ E.capacity ∙ p.capacity;
  }

  -- Something is left of the level: then the incoming order is used up.
  level_stays :
      (l : PriceLevel) (p : Ptr) (taken left : List Ptr)
      → levels s b ≡ (k, l) ∷ m
      → Ahead s k m
      → (x : Progress s k m t ps taken (p ∷ left) b b₁) → Trail s t b₁ taken b
      → is_active (heap b₁ t) ≡ false
      → Effect s b₁ (heap b₁) ((k, x.level) ∷ m) (erase_front_if_empty s b₁)
      → SideRun s t (ps ∷ qs) b (erase_front_if_empty s b₁)
  level_stays l p taken left e ahead x tr idle E = record {
    left = (p ∷ left) ∷ qs;
    ok =
        subst (λ z. SideOk s (heap (erase_front_if_empty s b₁)) z ((p ∷ left) ∷ qs)) (sym E.side)
          (subst (λ g. SideOk s g ((k, x.level) ∷ m) ((p ∷ left) ∷ qs)) (sym E.memory)
            (x.ok, (λ z. cc), ahead, SideOk-frame s (heap b) (heap b₁) m qs (behind x.outside) v));
    other = E.other ∙ x.other;
    outside = λ a o ne.
        ap (λ (g : Heap). g a) E.memory
        ∙ x.outside a (ground (arith, has-append a ps (all_of qs))) ne;
    taken = taken;
    split = ap (λ z. z ++ all_of qs) x.split ∙ append_assoc taken (p ∷ left) (all_of qs);
    trail =
        subst (λ z. Trail s t (erase_front_if_empty s b₁) z b) (append-nil taken)
          (Trail-trans tr (erases over));
    within = λ a i.
        let split : has a ps ≡ has a (taken ++ p ∷ left) = ap (has a) x.split in
        ground (
          arith,
          i,
          split,
          has-append a taken (p ∷ left),
          has-append a (p ∷ left) (all_of qs),
          has-append a ps (all_of qs),
        );
    same = subst (λ (g : Heap). SameTaker (heap b t) (g t)) (sym E.memory) x.same;
    taker = subst (λ (g : Heap). Taker (g t)) (sym E.memory) x.taker;
    balance = omega (
      arith,
      x.balance,
      ap (λ (g : Heap). (g t).filled_qty + sum_remaining g ((p ∷ left) ++ all_of qs)) E.memory,
      sum_behind x.outside,
      sum_remaining-append (heap b₁) (p ∷ left) (all_of qs),
      sum_remaining-append (heap b) ps (all_of qs),
    );
    prices = λ s' j h.
        subst (Ahead s' j) (sym E.side) ((subst (Ahead s' j) e h).0, (subst (Ahead s' j) e h).1);
    stopped =
        subst (Stopped s (heap (erase_front_if_empty s b₁) t)) (sym E.side)
          (inl (ap (λ (g : Heap). is_active (g t)) E.memory ∙ idle));
    capacity = E.capacity ∙ x.capacity;
  }

  -- The rest of the loop behind this level.
  abbrev Rest : ℕ → Type 0
  Rest fuel =
      (b₂ : OrderBook)
      → levels s b₂ ≡ m
      → SideOk s (heap b₂) m qs
      → Taker (heap b₂ t)
      → b₂.pool.capacity ≡ b.pool.capacity
      → SideRun s t qs b₂ (match_against fuel s t b₂)

  finish :
      (fuel : ℕ) (l : PriceLevel) (taken left : List Ptr)
      → levels s b ≡ (k, l) ∷ m
      → Ahead s k m
      → Progress s k m t ps taken left b b₁
      → Trail s t b₁ taken b
      → (left ≡ []) ⊎ (is_active (heap b₁ t) ≡ false)
      → Rest fuel
      → SideRun s t (ps ∷ qs) b (match_against fuel s t (erase_front_if_empty s b₁))
  finish fuel l taken [] e ahead p tr done rest =
      let E = level_gone l e p in
      let v₂ : SideOk s (heap (erase_front_if_empty s b₁)) m qs =
        subst (λ g. SideOk s g m qs) (sym E.memory)
          (SideOk-frame s (heap b) (heap b₁) m qs (behind p.outside) v) in
      let w₂ = subst (λ (g : Heap). Taker (g t)) (sym E.memory) p.taker in
      then_run l taken e p tr E
        (rest (erase_front_if_empty s b₁) E.side v₂ w₂ (E.capacity ∙ p.capacity))
  finish fuel l taken (q ∷ left) e ahead p tr (inl none_left) rest = cc
  finish fuel l taken (q ∷ left) e ahead p tr (inr idle) rest =
      let E =
        erase_front-Effect s b₁ k p.level m false p.side
          (empty_by_head p.level (some q) p.ok.queue.head) in
      let idle₂ = ap (λ (g : Heap). is_active (g t)) E.memory ∙ idle in
      subst (SideRun s t (ps ∷ qs) b)
        (sym (
          match_against-inactive fuel s t (erase_front_if_empty s b₁) ((k, p.level) ∷ m) E.side
            idle₂))
        (level_stays l q taken left e ahead p tr idle E)

match_against-SideRun :
    (fuel : ℕ) (s : Side) (t : Ptr) (qs : List (List Ptr)) (b : OrderBook) (m : Levels)
    → levels s b ≡ m
    → SideOk s (heap b) m qs
    → Distinct (all_of qs)
    → t ∉ all_of qs
    → Taker (heap b t)
    → length qs < fuel
    → length (all_of qs) ≤ b.pool.capacity
    → SideRun s t qs b (match_against fuel s t b)
match_against-SideRun zero s t qs b m e v d out w f c = absurd (omega arith)
match_against-SideRun (suc fuel) s t [] b [] e v d out w f c =
    subst (SideRun s t [] b) (sym (match_against-nil (suc fuel) s t b e)) (stay [] e v w tt)
match_against-SideRun (suc fuel) s t (ps ∷ qs) b [] e v d out w f c = absurd v
match_against-SideRun (suc fuel) s t [] b ((k, l) ∷ m) e v d out w f c = absurd v
match_against-SideRun (suc fuel) s t (ps ∷ qs) b ((k, l) ∷ m) e v d out w f c =
    let rest =
      λ (b₂ : OrderBook) (e₂ : levels s b₂ ≡ m) (v₂ : SideOk s (heap b₂) m qs)
          (w₂ : Taker (heap b₂ t)) (c₂ : b₂.pool.capacity ≡ b.pool.capacity).
        match_against-SideRun fuel s t qs b₂ m e₂ v₂ (Distinct-right ps (all_of qs) d)
          (ground (arith, has-append t ps (all_of qs))) w₂ (omega arith)
          (omega (arith, length-append ps (all_of qs))) in
    elim (Bool-cases (is_active (heap b t))) [
      | inr idle ↦
          subst (SideRun s t (ps ∷ qs) b)
            (sym (match_against-inactive (suc fuel) s t b ((k, l) ∷ m) e idle))
            (stay ((k, l) ∷ m) e v w (inl idle))
      | inl busy ↦ elim (Bool-cases (stops_at s (heap b t) l.price)) [
        | inl st ↦
            subst (SideRun s t (ps ∷ qs) b) (sym (match_against-stops (suc fuel) s t b k l m e st))
              (stay ((k, l) ∷ m) e v w (inr (ap (stops_at s (heap b t)) (sym v.0.price) ∙ st)))
        | inr go ↦
            let run =
              match_level-LevelRun (suc b.pool.capacity) s k l.price m t ps b l
                (omega (arith, length-append ps (all_of qs))) e v.0
                (ground (arith, has-append t ps (all_of qs))) w v.0.price go in
            subst (SideRun s t (ps ∷ qs) b)
              (sym (
                match_against-goes_on fuel s t b k l m e busy go
                ∙ ap
                    (λ h.
                      match_against fuel s t (
                        erase_front_if_empty s (match_level (suc b.pool.capacity) s l.price t h b)))
                    v.0.queue.head))
              (finish s k m t ps qs b
                (match_level (suc b.pool.capacity) s l.price t (head_or ps none) b) v.3 d out fuel l
                run.taken run.left e v.2 run.progress run.trail run.done rest)
      ]
    ]

-- What `match_order` needs of the passive side `s`, holding the orders at `qs`, and of the incoming order `t`.
pub record Ready (s : Side) (b : OrderBook) (t : Ptr) (qs : List (List Ptr)) : Type 0 where
  pub side : SideOk s (heap b) (levels s b) qs
  pub distinct : Distinct (all_of qs)
  pub apart : t ∉ all_of qs
  pub taker : Taker (heap b t)
  pub room : length (all_of qs) ≤ b.pool.capacity

pub length-all_of :
    (s : Side) (h : Heap) (m : Levels) (qs : List (List Ptr))
    → SideOk s h m qs
    → length qs ≤ length (all_of qs)
length-all_of s h m [] v = omega arith
length-all_of s h [] (ps ∷ qs) v = absurd v
length-all_of s h ((k, l) ∷ m) ([] ∷ qs) v = absurd (v.1 refl)
length-all_of s h ((k, l) ∷ m) ((p ∷ ps) ∷ qs) v =
    omega (arith, length-append ps (all_of qs), length-all_of s h m qs v.3)

-- The matching loops, with the fuel that `match_order` gives them, on a passive side that is ready for the order: the
-- passive side stays in order, what goes missing from it is what the incoming order gains, nothing else in memory or on
-- the other side changes, the loops make their trades one after another with the first order of the best level, at prices that the limit of
-- the order reaches, and they
-- end for a reason of their own, not for want of fuel.
pub match_against_lem :
    (s : Side) (b : OrderBook) (t : Ptr) (qs : List (List Ptr))
    → Ready s b t qs
    → SideRun s t qs b (match_against (loop_fuel b) s t b)
match_against_lem s b t qs r =
    match_against-SideRun (loop_fuel b) s t qs b (levels s b) refl r.side r.distinct r.apart r.taker
      (omega (arith, length-all_of s (heap b) (levels s b) qs r.side, r.room)) r.room
