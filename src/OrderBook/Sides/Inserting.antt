-- ===== src/OrderBook/Sides/Inserting.antt =====
-- What `operator[]` and a change of the level it finds do to the levels of a side.
use hft_order_book_simulator.Common.{◌≡◌, refl, ap, ◌∙◌, true, false, [], ◌∷◌}
use hft_order_book_simulator.Types.{Price, Side}
use hft_order_book_simulator.PriceLevel.{PriceLevel, default_level}
use hft_order_book_simulator.Containers.{adjust, at_or_insert}
use hft_order_book_simulator.OrderBook.{Levels, before}
use hft_order_book_simulator.OrderBook.Effects.{adjust-front}

-- The level that `operator[]` finds or makes.
abbrev pub found_level : Side → Price → Levels → PriceLevel
found_level s k m = (at_or_insert (before s) k default_level m).0

-- The levels after a change `f` of that level.
abbrev pub placed : Side → Price → (PriceLevel → PriceLevel) → Levels → Levels
placed s k f m =
    adjust (before s) k (λ l. f (found_level s k m)) (at_or_insert (before s) k default_level m).1

module _ (s : Side) (k j : Price) (f : PriceLevel → PriceLevel) (l : PriceLevel) (m : Levels) where
  pub adjust_behind :
      before s j k ≡ true → adjust (before s) k f ((j, l) ∷ m) ≡ (j, l) ∷ adjust (before s) k f m
  unfolding adjust
  adjust_behind e = rw (adjust, e) refl

  adjust_here :
      before s j k ≡ false
      → before s k j ≡ false
      → adjust (before s) k f ((j, l) ∷ m) ≡ (j, f l) ∷ m
  unfolding adjust
  adjust_here e e' = rw (adjust, e, e') refl

module _ (s : Side) (k j : Price) (l : PriceLevel) (m : Levels) where
  pub insert_behind :
      before s j k ≡ true
      → at_or_insert (before s) k default_level ((j, l) ∷ m) ≡ (
        (at_or_insert (before s) k default_level m).0,
        (j, l) ∷ (at_or_insert (before s) k default_level m).1,
      )
  unfolding at_or_insert
  insert_behind e = rw (at_or_insert, e) refl

  insert_new :
      before s j k ≡ false
      → before s k j ≡ true
      → at_or_insert (before s) k default_level ((j, l) ∷ m)
        ≡ (default_level, (k, default_level) ∷ (j, l) ∷ m)
  unfolding at_or_insert
  insert_new e e' = rw (at_or_insert, e, e') refl

  insert_here :
      before s j k ≡ false
      → before s k j ≡ false
      → at_or_insert (before s) k default_level ((j, l) ∷ m) ≡ (l, (j, l) ∷ m)
  unfolding at_or_insert
  insert_here e e' = rw (at_or_insert, e, e') refl

  -- `placed` by where the price `k` belongs.
  abbrev via : (PriceLevel → PriceLevel) → PriceLevel × Levels → Levels
  via f r = adjust (before s) k (λ x. f r.0) r.1

  pub placed_behind :
      (f : PriceLevel → PriceLevel)
      → before s j k ≡ true
      → (placed s k f ((j, l) ∷ m) ≡ (j, l) ∷ placed s k f m)
        × (found_level s k ((j, l) ∷ m) ≡ found_level s k m)
  placed_behind f e = (
    ap (via f) (insert_behind e)
        ∙ adjust_behind s k j (λ x. f (found_level s k m)) l
            (at_or_insert (before s) k default_level m).1 e,
    ap (λ (r : PriceLevel × Levels). r.0) (insert_behind e),
  )

  pub placed_new :
      (f : PriceLevel → PriceLevel)
      → before s j k ≡ false
      → before s k j ≡ true
      → (placed s k f ((j, l) ∷ m) ≡ (k, f default_level) ∷ (j, l) ∷ m)
        × (found_level s k ((j, l) ∷ m) ≡ default_level)
  placed_new f e e' = (
    ap (via f) (insert_new e e')
        ∙ adjust-front s k (λ x. f default_level) default_level ((j, l) ∷ m),
    ap (λ (r : PriceLevel × Levels). r.0) (insert_new e e'),
  )

  pub placed_here :
      (f : PriceLevel → PriceLevel)
      → before s j k ≡ false
      → before s k j ≡ false
      → (placed s k f ((j, l) ∷ m) ≡ (j, f l) ∷ m) × (found_level s k ((j, l) ∷ m) ≡ l)
  placed_here f e e' = (
    ap (via f) (insert_here e e') ∙ adjust_here s k j (λ x. f l) l m e e',
    ap (λ (r : PriceLevel × Levels). r.0) (insert_here e e'),
  )

pub placed_first :
    (s : Side) (k : Price) (f : PriceLevel → PriceLevel)
    → (placed s k f [] ≡ (k, f default_level) ∷ []) × (found_level s k [] ≡ default_level)
unfolding at_or_insert
placed_first s k f = (adjust-front s k (λ x. f default_level) default_level [], refl)
