-- ===== src/OrderBook/Cancel.antt =====
-- Cancelling: what `cancel_order` answers, and what it does to the map of the orders.
use hft_order_book_simulator.Common.{
  ◌≡◌, refl, sym, ap, ◌∙◌, subst, arith, Bool, true, false, none, some, Distinct, Bool-cases,
  Option-cases, inl, inr, ◌⊎◌,
}
use hft_order_book_simulator.Types.{Side, bid, ask, Price, OrderId, Ptr, is_active}
use hft_order_book_simulator.PriceLevel
use hft_order_book_simulator.PriceLevel.{PriceLevel}
use hft_order_book_simulator.Containers.{lookup, drop_key, find, adjust, erase}
use hft_order_book_simulator.OrderBook.{
  OrderBook, Levels, with_levels, with_heap, heap, levels, before, remove_from_book, put_level,
  erase_level, publish_market_data,
}
use hft_order_book_simulator.OrderBook.Api.{cancel_order, withdraw}
use hft_order_book_simulator.OrderBook.Keyed.{ids, lookup-drop_key}

with_levels-order_map :
    (s : Side) (b : OrderBook) (m : Levels) → (with_levels s b m).order_map ≡ b.order_map
with_levels-order_map bid b m = refl
with_levels-order_map ask b m = refl

put_level-order_map :
    (s : Side) (px : Price) (l : PriceLevel) (b : OrderBook)
    → (put_level s px l b).order_map ≡ b.order_map
unfolding put_level
put_level-order_map s px l b =
    with_levels-order_map s b (adjust (before s) px (λ l'. l) (levels s b))

erase_level-order_map :
    (s : Side) (px : Price) (b : OrderBook) → (erase_level s px b).order_map ≡ b.order_map
unfolding erase_level
erase_level-order_map s px b = with_levels-order_map s b (erase (before s) px (levels s b))

remove_from_book-order_map :
    (p : Ptr) (b : OrderBook) → (remove_from_book p b).order_map ≡ b.order_map
unfolding remove_from_book
remove_from_book-order_map p b =
    let s = (heap b p).side in
    let px = (heap b p).price in
    elim (Option-cases (find (before s) px (levels s b))) [
      | inl e ↦ rw (remove_from_book, e) refl
      | inr (l, e) ↦
          let (h, l') = PriceLevel.remove (heap b) l p in
          let b₁ = put_level s px l' (with_heap b h) in
          let kept : b₁.order_map ≡ b.order_map = put_level-order_map s px l' (with_heap b h) in
          elim (Bool-cases (PriceLevel.empty l')) [
            | inl none_left ↦
                rw (remove_from_book, e, none_left) (erase_level-order_map s px b₁ ∙ kept)
            | inr some_left ↦ rw (remove_from_book, e, some_left) kept
          ]
    ]

withdraw-order_map :
    (id : OrderId) (p : Ptr) (b : OrderBook) → (withdraw id p b).order_map ≡ drop_key id b.order_map
unfolding withdraw publish_market_data
withdraw-order_map id p b = ground (arith, remove_from_book-order_map p b)

cancel-unknown :
    (id : OrderId) (b : OrderBook) → lookup id b.order_map ≡ none → cancel_order id b ≡ (false, b)
unfolding cancel_order
cancel-unknown id b e = rw (cancel_order, e) refl

pub cancel-cases :
    (id : OrderId) (b : OrderBook)
    → (cancel_order id b ≡ (false, b))
      ⊎ ((p : Ptr) × (lookup id b.order_map ≡ some p)
          × (is_active (heap b p) ≡ true)
          × (cancel_order id b ≡ (true, withdraw id p b)))
unfolding cancel_order
cancel-cases id b = elim (Option-cases (lookup id b.order_map)) [
  | inl e ↦ inl (cancel-unknown id b e)
  | inr (p, e) ↦ elim (Bool-cases (is_active (heap b p))) [
    | inl busy ↦ inr (p, e, busy, rw (cancel_order, e, busy) refl)
    | inr idle ↦ inl (rw (cancel_order, e, idle) refl)
  ]
]

-- When no id stands in the map twice, an order can be cancelled once: after a call that answers true, its id is gone
-- from the map, and a second call with the same id answers false and leaves the book as it is.
pub cancel_once :
    (id : OrderId) (b : OrderBook)
    → Distinct (ids b.order_map)
    → (cancel_order id b).0 ≡ true
    → let b' = (cancel_order id b).1 in
      (lookup id b'.order_map ≡ none) × (cancel_order id b' ≡ (false, b'))
cancel_once id b d ok = elim (cancel-cases id b) [
  | inl refused ↦ cc
  | inr (p, e, busy, done) ↦
      let gone : lookup id (withdraw id p b).order_map ≡ none =
        ap (lookup id) (withdraw-order_map id p b)
        ∙ lookup-drop_key id id b.order_map d
        ∙ ground arith in
      subst
        (λ (r : Bool × OrderBook).
          (lookup id r.1.order_map ≡ none) × (cancel_order id r.1 ≡ (false, r.1)))
        (sym done) (gone, cancel-unknown id (withdraw id p b) gone)
]
