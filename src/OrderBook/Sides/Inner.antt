-- ===== src/OrderBook/Sides/Inner.antt =====
-- The inner matching loop as a whole: with more fuel than orders it leaves only when the level or the incoming order
-- is used up.
use native.Mathlib.Decide.{dec_le}
use hft_order_book_simulator.Common.{
  ℕ, zero, suc, ◌+◌, ◌-◌, ◌≤◌, ◌<◌, ◌≡◌, refl, sym, ap, ◌∙◌, subst, Bool, true, false, Option, none,
  some, List, [], ◌∷◌, ◌==◌, if◌then◌else◌, arith, Bool-cases, inl, inr, ◌∉◌, length, min, head_or,
}
use hft_order_book_simulator.Types.{Order, Ptr, Price, Side, remaining, is_active}
use hft_order_book_simulator.PriceLevel.{PriceLevel}
use hft_order_book_simulator.OrderBook.{OrderBook, Levels, heap, levels, execute_trade}
use hft_order_book_simulator.OrderBook.Matching.{match_level, retire, stops_at}
use hft_order_book_simulator.OrderBook.Trail.{front, Next, over, fills_part, fills_whole}
use hft_order_book_simulator.OrderBook.Sides.{LevelOk, remaining-sub}
use hft_order_book_simulator.OrderBook.Sides.Level.{
  Taker, SameTaker, Progress-trans, LevelRun, still, round_stays, round_gone, next₁, left₁, idle₁,
  match_level-none, match_level-inactive, match_level-round,
}

-- Trades do not change what an order reaches.
pub stops_at-same :
    (s : Side) (o o' : Order) (px : Price) → SameTaker o o' → stops_at s o' px ≡ stops_at s o px
unfolding stops_at
stops_at-same s o o' px e = ap (λ (x : Order). stops_at s x px) e

-- One round, with an active incoming order `t` and the maker `p`; `ih` is the rest of the loop.
module _ (fuel : ℕ) (s : Side) (k px : Price) (m : Levels) (t p : Ptr) (ps : List Ptr)
    (b : OrderBook) (l : PriceLevel) (e : levels s b ≡ (k, l) ∷ m)
    (v : LevelOk s (heap b) k l (p ∷ ps)) (out : t ∉ p ∷ ps) (w : Taker (heap b t))
    (busy : is_active (heap b t) ≡ true) (at : px ≡ k)
    (reaches : stops_at s (heap b t) px ≡ false) where
  abbrev pub maker : ℕ
  maker = (heap b p).quantity - (heap b p).filled_qty

  abbrev pub taker : ℕ
  taker = (heap b t).quantity - (heap b t).filled_qty

  pub fill_qty : min (remaining (heap b t)) (remaining (heap b p)) ≡ min taker maker
  fill_qty = omega (
    arith,
    remaining-sub (heap b p) (omega (arith, v.orders.0.open_qty)) v.orders.0.fits,
    remaining-sub (heap b t) w.within w.fits,
  )

  -- The trade is with the first order of the level, at its price.
  first : front (levels s b) ≡ some (px, p)
  first =
      ap front e
      ∙ ap
          (λ (c : Option Ptr). elim c as (λ x. Option (Price × Ptr)) [
            | none ↦ none
            | some q ↦ some (l.price, q)
          ])
          v.queue.head
      ∙ ap (λ (x : Price). some (x, p)) (v.price ∙ sym at)

  front_trade : (qty : ℕ) → min taker maker ≡ qty → Next s t p px qty b
  front_trade qty eq = record {
    first = first;
    most = sym (fill_qty ∙ eq);
    apart = ground (arith, out);
    active = busy;
    reaches = reaches;
  }

  -- Whether anything remains of the maker.
  pub remains :
      (qty : ℕ) (c : Bool)
      → qty ≤ maker
      → qty ≤ taker
      → (maker - qty == 0) ≡ c
      → (remaining (heap (execute_trade p t px qty b) p) == 0) ≡ c
  remains qty c le₁ le₂ en =
      ap (λ (x : ℕ). x == 0) (left₁ s k px m t p ps b l qty e v out w (omega (arith, w.within)) le₁)
      ∙ en

  -- What the round leaves to do, by what remains of the maker.
  abbrev pub rest : ℕ → Bool → OrderBook
  rest qty c =
      let b₁ = execute_trade p t px qty b in
      match_level fuel s px t (head_or ps none) (if c then retire s p b₁ else b₁)

  pub round :
      (qty : ℕ) (c : Bool)
      → min taker maker ≡ qty
      → qty ≤ maker
      → qty ≤ taker
      → (maker - qty == 0) ≡ c
      → match_level (suc fuel) s px t (some p) b ≡ rest qty c
  round qty c eq le₁ le₂ en =
      let b₁ = execute_trade p t px qty b in
      let fits : (heap b t).filled_qty + qty ≤ (heap b t).quantity = omega (arith, w.within) in
      match_level-round fuel s px t p b qty busy (fill_qty ∙ eq)
      ∙ ap
          (λ c.
            match_level fuel s px t c (if remaining (heap b₁ p) == 0 then retire s p b₁ else b₁))
          (next₁ s k px m t p ps b l qty e v out w fits le₁)
      ∙ ap (λ x. match_level fuel s px t (head_or ps none) (if x then retire s p b₁ else b₁))
          (ap (λ (x : ℕ). x == 0) (left₁ s k px m t p ps b l qty e v out w fits le₁) ∙ en)

  -- The maker is filled, and the loop goes on with the order behind it.
  whole :
      ((b' : OrderBook) (l' : PriceLevel)
        → levels s b' ≡ (k, l') ∷ m
        → LevelOk s (heap b') k l' ps
        → Taker (heap b' t)
        → stops_at s (heap b' t) px ≡ false
        → LevelRun s k m t ps b' (match_level fuel s px t (head_or ps none) b'))
      → maker ≤ taker
      → LevelRun s k m t (p ∷ ps) b (match_level (suc fuel) s px t (some p) b)
  whole ih le =
      let step =
        round_gone s k px m t p ps b l maker e v out w (omega (arith, w.within)) (omega arith)
          refl in
      let later =
        ih (retire s p (execute_trade p t px maker b)) step.level step.side step.ok step.taker (
          stops_at-same s (heap b t) (heap (retire s p (execute_trade p t px maker b)) t) px
            step.same
          ∙ reaches) in
      subst (LevelRun s k m t (p ∷ ps) b)
        (sym (round maker true (omega arith) (omega arith) le (ground arith)))
        (record {
          left = later.left;
          taken = p ∷ later.taken;
          progress = Progress-trans step later.progress;
          trail =
              fills_whole p px maker (front_trade maker (omega arith))
                (remains maker true (omega arith) le (ground arith)) later.trail;
          done = later.done;
        })

  -- The incoming order is filled, and the loop ends.
  part : taker < maker → LevelRun s k m t (p ∷ ps) b (match_level (suc fuel) s px t (some p) b)
  part lt =
      let fits : (heap b t).filled_qty + taker ≤ (heap b t).quantity = omega (arith, w.within) in
      let step = round_stays s k px m t p ps b l taker e v out w fits (omega arith) lt in
      let b₁ = execute_trade p t px taker b in
      let idle : is_active (heap b₁ t) ≡ false =
        idle₁ s k px m t p ps b l taker e v out w fits (omega arith) refl in
      let ends : rest taker false ≡ b₁ =
        match_level-inactive fuel s px t (head_or ps none) b₁ idle in
      subst (LevelRun s k m t (p ∷ ps) b)
        (sym (round taker false (omega arith) (omega arith) (omega arith) (ground arith) ∙ ends))
        (record {
          left = p ∷ ps;
          taken = [];
          progress = step;
          trail =
              fills_part p px taker (front_trade taker (omega arith))
                (remains taker false (omega arith) (omega arith) (ground arith)) over;
          done = inr idle;
        })

pub match_level-LevelRun :
    (fuel : ℕ) (s : Side) (k px : Price) (m : Levels) (t : Ptr) (ps : List Ptr) (b : OrderBook)
    (l : PriceLevel)
    → length ps < fuel
    → levels s b ≡ (k, l) ∷ m
    → LevelOk s (heap b) k l ps
    → t ∉ ps
    → Taker (heap b t)
    → px ≡ k
    → stops_at s (heap b t) px ≡ false
    → LevelRun s k m t ps b (match_level fuel s px t (head_or ps none) b)
match_level-LevelRun zero s k px m t ps b l f e v out w at reaches = absurd (omega arith)
match_level-LevelRun (suc fuel) s k px m t [] b l f e v out w at reaches =
    subst (LevelRun s k m t [] b) (sym (match_level-none (suc fuel) s px t b))
      (record { left = []; taken = []; progress = still l e v w; trail = over; done = inl refl })
match_level-LevelRun (suc fuel) s k px m t (p ∷ ps) b l f e v out w at reaches =
    let ih =
      λ (b' : OrderBook) (l' : PriceLevel) (e' : levels s b' ≡ (k, l') ∷ m)
          (v' : LevelOk s (heap b') k l' ps) (w' : Taker (heap b' t))
          (reaches' : stops_at s (heap b' t) px ≡ false).
        match_level-LevelRun fuel s k px m t ps b' l' (omega arith) e' v' (ground arith) w' at
          reaches' in
    elim (Bool-cases (is_active (heap b t))) [
      | inr idle ↦
          subst (LevelRun s k m t (p ∷ ps) b)
            (sym (match_level-inactive (suc fuel) s px t (some p) b idle))
            (record {
              left = p ∷ ps;
              taken = [];
              progress = still l e v w;
              trail = over;
              done = inr idle;
            })
      | inl busy ↦
          elim (dec_le (maker fuel s k px m t p ps b l e v out w busy at reaches)
            (taker fuel s k px m t p ps b l e v out w busy at reaches)) [
              | yes le ↦ whole fuel s k px m t p ps b l e v out w busy at reaches ih le
              | no gt ↦ part fuel s k px m t p ps b l e v out w busy at reaches (omega arith)
            ]
    ]
