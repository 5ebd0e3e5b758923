-- ===== src/OrderBook/Sides/Level.antt =====
-- The inner matching loop, on a level at the front of a side: it takes orders from the front of the queue until the
-- level or the incoming order is used up.
use mathlib.Core.List.{append_assoc}
use hft_order_book_simulator.Common.{
  ℕ, zero, suc, ◌+◌, ◌-◌, ◌^◌, ◌≤◌, ◌<◌, ◌≡◌, refl, sym, ap, ◌∙◌, subst, true, false, Option, none,
  some, List, [], ◌∷◌, ◌++◌, ◌==◌, if◌then◌else◌, arith, ◌⊎◌, ◌∉◌, has, has-append, min, head_or,
}
use hft_order_book_simulator.Common.Words.{sub32}
use hft_order_book_simulator.Types.{Order, Ptr, Price, Side, filled, remaining, is_active}
use hft_order_book_simulator.PriceLevel
use hft_order_book_simulator.PriceLevel.{PriceLevel, Heap, modify}
use hft_order_book_simulator.Containers.{adjust}
use hft_order_book_simulator.OrderBook.{
  OrderBook, Levels, heap, before, levels, fill, execute_trade,
}
use hft_order_book_simulator.OrderBook.Matching.{opposite, match_level, retire}
use hft_order_book_simulator.OrderBook.Trail.{Trail}
use hft_order_book_simulator.OrderBook.Effects.{
  traded_heap, Effect, execute_trade-Effect, retire-Effect, adjust-front,
}
use hft_order_book_simulator.OrderBook.Sides.{LevelOk, sum_remaining, remaining-sub}
use hft_order_book_simulator.OrderBook.Sides.Fill.{
  Filled, fill-Filled, stays, gone, h₁, l₁, h₂, l₂, traded_taker, sum_behind, sum_gone,
  traded_outside, gone_outside, traded-IsQueue, maker-Filled,
}

-- An incoming order: active exactly while something remains of it.
pub record Taker (o : Order) : Type 0 where
  pub fits : o.quantity < 2 ^ 32
  pub within : o.filled_qty ≤ o.quantity
  pub open_if : is_active o ≡ true → o.filled_qty < o.quantity
  pub full_if : is_active o ≡ false → o.filled_qty ≡ o.quantity

-- Nothing but the fill and the status of an order has changed.
abbrev pub SameTaker : Order → Order → Type 0
SameTaker o o' = o' ≡ record o { filled_qty = o'.filled_qty; status = o'.status }

-- The book `b`, whose front level held `ps`, has become `b'`, whose front level holds `left`: orders were taken
-- from the front, and what is missing of them went to the incoming order `t`.
pub record Progress (s : Side) (k : Price) (m : Levels) (t : Ptr) (ps taken left : List Ptr)
    (b b' : OrderBook) : Type 0 where
  pub level : PriceLevel
  pub split : ps ≡ taken ++ left
  pub side : levels s b' ≡ (k, level) ∷ m
  pub ok : LevelOk s (heap b') k level left
  pub other : levels (opposite s) b' ≡ levels (opposite s) b
  pub outside : (a : Ptr) → a ∉ ps → (t == a) ≡ false → heap b' a ≡ heap b a
  pub same : SameTaker (heap b t) (heap b' t)
  pub taker : Taker (heap b' t)
  pub balance :
      (heap b' t).filled_qty + sum_remaining (heap b') left
      ≡ (heap b t).filled_qty + sum_remaining (heap b) ps
  pub capacity : b'.pool.capacity ≡ b.pool.capacity

pub SameTaker-trans : (o o' o'' : Order) → SameTaker o o' → SameTaker o' o'' → SameTaker o o''
SameTaker-trans o o' o'' e f =
    f ∙ ap (λ (x : Order). record x { filled_qty = o''.filled_qty; status = o''.status }) e

pub Progress-trans :
    {s : Side} {k : Price} {m : Levels} {t : Ptr} {ps qs rs xs ys : List Ptr} {b b' b'' : OrderBook}
    → Progress s k m t ps xs qs b b'
    → Progress s k m t qs ys rs b' b''
    → Progress s k m t ps (xs ++ ys) rs b b''
Progress-trans {t = t} {ps} {qs} {rs} {xs} {ys} {b} {b'} {b''} x y = record {
  level = y.level;
  split = x.split ∙ ap (λ zs. xs ++ zs) y.split ∙ sym (append_assoc xs ys rs);
  side = y.side;
  ok = y.ok;
  other = y.other ∙ x.other;
  outside = λ a out ne. y.outside a (behind a out) ne ∙ x.outside a out ne;
  same = SameTaker-trans (heap b t) (heap b' t) (heap b'' t) x.same y.same;
  taker = y.taker;
  balance = y.balance ∙ x.balance;
  capacity = y.capacity ∙ x.capacity;
}
  where
    behind : (a : Ptr) → a ∉ ps → a ∉ qs
    behind a out =
        let e : has a (xs ++ qs) ≡ false = ap (has a) (sym x.split) ∙ out in
        ground (arith, e, has-append a xs qs)

pub record LevelRun (s : Side) (k : Price) (m : Levels) (t : Ptr) (ps : List Ptr) (b b' : OrderBook)
    : Type 0 where
  pub left : List Ptr
  pub taken : List Ptr
  pub progress : Progress s k m t ps taken left b b'
  pub trail : Trail s t b' taken b
  pub done : (left ≡ []) ⊎ (is_active (heap b' t) ≡ false)

pub match_level-none :
    (fuel : ℕ) (s : Side) (px : Price) (t : Ptr) (b : OrderBook)
    → match_level fuel s px t none b ≡ b
unfolding match_level
match_level-none zero s px t b = refl
match_level-none (suc fuel) s px t b = refl

pub match_level-inactive :
    (fuel : ℕ) (s : Side) (px : Price) (t : Ptr) (cur : Option Ptr) (b : OrderBook)
    → is_active (heap b t) ≡ false
    → match_level fuel s px t cur b ≡ b
unfolding match_level
match_level-inactive zero s px t cur b e = refl
match_level-inactive (suc fuel) s px t none b e = refl
match_level-inactive (suc fuel) s px t (some p) b e = rw e

-- One round, with the quantity and the test at the end of it given.
pub match_level-round :
    (fuel : ℕ) (s : Side) (px : Price) (t p : Ptr) (b : OrderBook) (qty : ℕ)
    → is_active (heap b t) ≡ true
    → min (remaining (heap b t)) (remaining (heap b p)) ≡ qty
    → match_level (suc fuel) s px t (some p) b ≡ (
        let b₁ = execute_trade p t px qty b in
        match_level fuel s px t
          (heap b₁ p).next
          (if remaining (heap b₁ p) == 0 then retire s p b₁ else b₁))
unfolding match_level
match_level-round fuel s px t p b qty act e = rw (act, e)

fill-SameTaker : (qty : ℕ) (o : Order) → SameTaker o (fill qty o)
unfolding fill
fill-SameTaker qty o = refl

fill-Taker : (qty : ℕ) (o : Order) → Taker o → o.filled_qty + qty ≤ o.quantity → Taker (fill qty o)
fill-Taker qty o v h =
    let f = fill-Filled qty o h v.fits in
    record {
      fits = omega (arith, f.quantity, v.fits);
      within = omega (arith, f.quantity, f.filled_qty);
      open_if = λ e. ground (arith, f.quantity, f.filled_qty, f.active, e);
      full_if = λ e. ground (arith, f.quantity, f.filled_qty, f.active, e);
    }

-- Nothing happens to an empty level or with an order that is used up.
pub still :
    {s : Side} {k : Price} {m : Levels} {t : Ptr} {ps : List Ptr} {b : OrderBook} (l : PriceLevel)
    → levels s b ≡ (k, l) ∷ m
    → LevelOk s (heap b) k l ps
    → Taker (heap b t)
    → Progress s k m t ps [] ps b b
still l e ok v = record {
  level = l;
  split = refl;
  side = e;
  ok = ok;
  other = refl;
  outside = λ a out ne. refl;
  same = refl;
  taker = v;
  balance = refl;
  capacity = refl;
}

module _ (s : Side) (k px : Price) (m : Levels) (t p : Ptr) (ps : List Ptr) (b : OrderBook)
    (l : PriceLevel) (qty : ℕ) (e : levels s b ≡ (k, l) ∷ m) (v : LevelOk s (heap b) k l (p ∷ ps))
    (out : t ∉ p ∷ ps) (w : Taker (heap b t))
    (fits : (heap b t).filled_qty + qty ≤ (heap b t).quantity)
    (le : qty ≤ (heap b p).quantity - (heap b p).filled_qty) where
  abbrev b₁ : OrderBook
  b₁ = execute_trade p t px qty b

  g₁ : Heap
  g₁ = h₁ s (heap b) k l p ps t qty v out

  E₁ : Effect s b (traded_heap (heap b) p t qty) ((k, l₁ s (heap b) k l p ps t qty v out) ∷ m) b₁
  E₁ =
      let f = maker-Filled s (heap b) k l p ps t qty v out le in
      let x =
        execute_trade-Effect s k p t px qty b (f.side ∙ v.orders.0.side)
          (f.price ∙ v.orders.0.price) in
      record {
        memory = x.memory;
        side =
            x.side
            ∙ ap (adjust (before s) k (λ l. record l { total_qty = sub32 l.total_qty qty })) e
            ∙ adjust-front s k _ l m;
        other = x.other;
        capacity = x.capacity;
      }

  f₁ : Filled qty (heap b p) (g₁ p)
  unfolding g₁
  f₁ = maker-Filled s (heap b) k l p ps t qty v out le

  taker₁ : heap b₁ t ≡ fill qty (heap b t)
  taker₁ = ap (λ g. g t) E₁.memory ∙ traded_taker (heap b) p t qty (ground arith)

  taker_filled : (fill qty (heap b t)).filled_qty ≡ (heap b t).filled_qty + qty
  taker_filled = (fill-Filled qty (heap b t) fits w.fits).filled_qty

  maker_left : remaining (heap b p) ≡ (heap b p).quantity - (heap b p).filled_qty
  maker_left = remaining-sub (heap b p) (omega (arith, v.orders.0.open_qty)) v.orders.0.fits

  -- Something remains of the maker.
  pub round_stays :
      qty < (heap b p).quantity - (heap b p).filled_qty → Progress s k m t (p ∷ ps) [] (p ∷ ps) b b₁
  unfolding g₁
  round_stays lt = record {
    level = l₁ s (heap b) k l p ps t qty v out;
    split = refl;
    side = E₁.side;
    ok =
        subst (λ g. LevelOk s g k (l₁ s (heap b) k l p ps t qty v out) (p ∷ ps)) (sym E₁.memory)
          (stays s (heap b) k l p ps t qty v out lt);
    other = E₁.other;
    outside =
        λ a o ne. ap (λ g. g a) E₁.memory ∙ traded_outside s (heap b) k l p ps t qty v out a o ne;
    same = subst (SameTaker (heap b t)) (sym taker₁) (fill-SameTaker qty (heap b t));
    taker = subst Taker (sym taker₁) (fill-Taker qty (heap b t) w fits);
    balance = omega (
      arith,
      ap (λ (x : Order). x.filled_qty) taker₁,
      taker_filled,
      ap (λ (g : Heap). sum_remaining g (p ∷ ps)) E₁.memory,
      f₁.rest,
      maker_left,
      sum_behind s (heap b) k l p ps t qty v out,
    );
    capacity = E₁.capacity;
  }

  -- The maker is filled and leaves.
  abbrev b₂ : OrderBook
  b₂ = retire s p b₁

  E₂ :
      Effect s b₁
        (h₂ s (heap b) k l p ps t qty v out)
        ((k, l₂ s (heap b) k l p ps t qty v out) ∷ m)
        b₂
  E₂ =
      subst
        (λ g.
          Effect s b₁
            (modify (PriceLevel.remove g (l₁ s (heap b) k l p ps t qty v out) p).0 p
              (λ o. record o { status = filled }))
            ((k, (PriceLevel.remove g (l₁ s (heap b) k l p ps t qty v out) p).1) ∷ m) b₂)
        E₁.memory (retire-Effect s p b₁ k (l₁ s (heap b) k l p ps t qty v out) m E₁.side)

  taker₂ : heap b₂ t ≡ fill qty (heap b t)
  taker₂ =
      ap (λ g. g t) E₂.memory
      ∙ gone_outside s (heap b) k l p ps t qty v out t out
      ∙ traded_taker (heap b) p t qty (ground arith)

  pub round_gone :
      qty ≡ (heap b p).quantity - (heap b p).filled_qty → Progress s k m t (p ∷ ps) (p ∷ []) ps b b₂
  round_gone all_of_it = record {
    level = l₂ s (heap b) k l p ps t qty v out;
    split = refl;
    side = E₂.side;
    ok =
        subst (λ g. LevelOk s g k (l₂ s (heap b) k l p ps t qty v out) ps) (sym E₂.memory)
          (gone s (heap b) k l p ps t qty v out all_of_it);
    other = E₂.other ∙ E₁.other;
    outside = λ a o ne.
        ap (λ g. g a) E₂.memory
        ∙ gone_outside s (heap b) k l p ps t qty v out a o
        ∙ traded_outside s (heap b) k l p ps t qty v out a o ne;
    same = subst (SameTaker (heap b t)) (sym taker₂) (fill-SameTaker qty (heap b t));
    taker = subst Taker (sym taker₂) (fill-Taker qty (heap b t) w fits);
    balance = omega (
      arith,
      ap (λ (x : Order). x.filled_qty) taker₂,
      taker_filled,
      ap (λ (g : Heap). sum_remaining g ps) E₂.memory,
      maker_left,
      sum_gone s (heap b) k l p ps t qty v out,
    );
    capacity = E₂.capacity ∙ E₁.capacity;
  }

  -- Whether the maker leaves, and which order is next.
  pub next₁ : (heap b₁ p).next ≡ head_or ps none
  next₁ =
      ap (λ (g : Heap). (g p).next) E₁.memory
      ∙ (traded-IsQueue s (heap b) k l p ps t qty v out).links.1

  pub left₁ : remaining (heap b₁ p) ≡ (heap b p).quantity - (heap b p).filled_qty - qty
  unfolding g₁
  left₁ = ap (λ (g : Heap). remaining (g p)) E₁.memory ∙ f₁.rest

  -- A trade of all that remains of the incoming order ends it.
  pub idle₁ : qty ≡ (heap b t).quantity - (heap b t).filled_qty → is_active (heap b₁ t) ≡ false
  idle₁ all_of_it =
      let f = fill-Filled qty (heap b t) fits w.fits in
      let z : (heap b t).quantity - (heap b t).filled_qty - qty ≡ 0 = omega arith in
      ap is_active taker₁ ∙ f.active ∙ ap (λ (n : ℕ). if n == 0 then false else true) z
