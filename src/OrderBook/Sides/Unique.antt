-- ===== src/OrderBook/Sides/Unique.antt =====
-- The levels of a side are determined by its queues and by what the orders are, links apart.
use hft_order_book_simulator.Common.{
  ℕ, ◌%◌, ◌^◌, ◌≡◌, ◌≢◌, refl, sym, ap, ◌∙◌, arith, none, List, [], ◌∷◌, ◌∈◌, has-append,
}
use hft_order_book_simulator.Types.{Order, Ptr, Price, Side, remaining}
use hft_order_book_simulator.PriceLevel.{PriceLevel, Heap}
use hft_order_book_simulator.OrderBook.{Levels}
use hft_order_book_simulator.OrderBook.Sides.{LevelOk, SideOk, all_of, sum_remaining}

-- An order without its links.
abbrev pub bare : Order → Order
bare o = record o { prev = none; next = none }

abbrev SameBare : List Ptr → Heap → Heap → Type 0
SameBare ps h g = (a : Ptr) → a ∈ ps → bare (g a) ≡ bare (h a)

bare-remaining : (o : Order) → remaining (bare o) ≡ remaining o
unfolding remaining
bare-remaining o = refl

sum_remaining-bare :
    (h g : Heap) (ps : List Ptr) → SameBare ps h g → sum_remaining g ps ≡ sum_remaining h ps
sum_remaining-bare h g [] same = refl
sum_remaining-bare h g (p ∷ ps) same = omega (
  arith,
  bare-remaining (h p),
  bare-remaining (g p),
  ap remaining (same p (ground arith)),
  sum_remaining-bare h g ps (λ a i. same a (ground arith)),
)

level_eq :
    (l l' : PriceLevel)
    → l'.price ≡ l.price
    → l'.total_qty ≡ l.total_qty
    → l'.head ≡ l.head
    → l'.tail ≡ l.tail
    → l'.order_count ≡ l.order_count
    → l' ≡ l
level_eq l l' ep et eh el ec =
    λ i. record { price = ep i; total_qty = et i; head = eh i; tail = el i; order_count = ec i }

level_unique :
    (s : Side) (h g : Heap) (k j : Price) (l l' : PriceLevel) (ps : List Ptr)
    → LevelOk s h k l ps
    → LevelOk s g j l' ps
    → ps ≢ []
    → SameBare ps h g
    → (j ≡ k) × (l' ≡ l)
level_unique s h g k j l l' [] v w filled same = absurd (filled refl)
level_unique s h g k j l l' (p ∷ ps) v w filled same =
    let price : j ≡ k =
      sym w.orders.0.price
      ∙ ap (λ (o : Order). o.price) (same p (ground arith))
      ∙ v.orders.0.price in
    (
      price,
      level_eq l l' (w.price ∙ price ∙ sym v.price)
          (w.total
            ∙ ap (λ (n : ℕ). n % 2 ^ 32) (sum_remaining-bare h g (p ∷ ps) same)
            ∙ sym v.total)
          (w.queue.head ∙ sym v.queue.head) (w.queue.tail ∙ sym v.queue.tail)
          (w.queue.count ∙ sym v.queue.count),
    )

pub SideOk-unique :
    (s : Side) (h g : Heap) (m m' : Levels) (qs : List (List Ptr))
    → SideOk s h m qs
    → SideOk s g m' qs
    → SameBare (all_of qs) h g
    → m' ≡ m
SideOk-unique s h g [] [] qs v w same = refl
SideOk-unique s h g [] ((j, l') ∷ m') [] v w same = absurd w
SideOk-unique s h g [] ((j, l') ∷ m') (ps ∷ qs) v w same = absurd v
SideOk-unique s h g ((k, l) ∷ m) [] [] v w same = absurd v
SideOk-unique s h g ((k, l) ∷ m) [] (ps ∷ qs) v w same = absurd w
SideOk-unique s h g ((k, l) ∷ m) ((j, l') ∷ m') [] v w same = absurd v
SideOk-unique s h g ((k, l) ∷ m) ((j, l') ∷ m') (ps ∷ qs) v w same =
    let (ek, el) =
      level_unique s h g k j l l' ps v.0 w.0 v.1
        (λ a i. same a (rw (has-append a ps (all_of qs), i) refl)) in
    let rest =
      SideOk-unique s h g m m' qs v.3 w.3
        (λ a i. same a (ground (arith, has-append a ps (all_of qs)))) in
    cons_eq j k l' l m' m ek el rest
  where
    cons_eq :
        (j k : Price) (l' l : PriceLevel) (m' m : Levels)
        → j ≡ k
        → l' ≡ l
        → m' ≡ m
        → ((j, l') ∷ m') ≡ ((k, l) ∷ m)
    cons_eq j k l' l m' m ek el em = cc
