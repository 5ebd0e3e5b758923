-- ===== src/PriceLevel/Payload.antt =====
-- `push_back` and `remove` on the fields of the orders that are not links, for any level and any order.
use hft_order_book_simulator.Common.{
  ◌≡◌, refl, ap, Option, none, some, Option-cases, inl, inr, arith, ◌∙◌,
}
use hft_order_book_simulator.Common.Words.{add32}
use hft_order_book_simulator.Types.{Order, Ptr}
use hft_order_book_simulator.PriceLevel.{
  Heap, PriceLevel, modify, set_next, set_prev, push_back, link_after, remove, unlink_before,
  unlink_after,
}
use hft_order_book_simulator.PriceLevel.Queue.{SamePayload}

-- Two orders that differ in their links at most.
abbrev SameBut : Order → Order → Type 0
SameBut o o' = o' ≡ record o { prev = o'.prev; next = o'.next }

SameBut-trans : (o o' o'' : Order) → SameBut o o' → SameBut o' o'' → SameBut o o''
SameBut-trans o o' o'' e f = f ∙ ap (λ (x : Order). record x { prev = o''.prev; next = o''.next }) e

set_next-SameBut :
    (h : Heap) (p : Ptr) (v : Option Ptr) (a : Ptr) → SameBut (h a) (set_next h p v a)
set_next-SameBut h p v a = ground arith

set_prev-SameBut :
    (h : Heap) (p : Ptr) (v : Option Ptr) (a : Ptr) → SameBut (h a) (set_prev h p v a)
set_prev-SameBut h p v a = ground arith

relink-SameBut :
    (h : Heap) (p : Ptr) (v w : Option Ptr) (a : Ptr)
    → SameBut (h a) (modify h p (λ r. record r { prev = v; next = w }) a)
relink-SameBut h p v w a = ground arith

link_after-SameBut :
    (h : Heap) (l : PriceLevel) (o a : Ptr) → SameBut (h a) ((link_after h l o).0 a)
unfolding link_after
link_after-SameBut h l o a =
    elim l.tail
      as (λ t. SameBut (h a) (
        (let r : Heap × PriceLevel = elim t [
          | some t ↦ (set_next h t (some o), l)
          | none ↦ (h, record l { head = some o })
        ] in
            r).0
          a)) [ some t ↦ set_next-SameBut h t (some o) a | none ↦ refl ]

unlink_before-SameBut :
    (h : Heap) (l : PriceLevel) (o a : Ptr) → SameBut (h a) ((unlink_before h l o).0 a)
unfolding unlink_before
unlink_before-SameBut h l o a =
    elim (h o).prev
      as (λ t. SameBut (h a) (
        (let r : Heap × PriceLevel = elim t [
          | some p ↦ (set_next h p (h o).next, l)
          | none ↦ (h, record l { head = (h o).next })
        ] in
            r).0
          a)) [ some p ↦ set_next-SameBut h p (h o).next a | none ↦ refl ]

unlink_after-SameBut :
    (h : Heap) (l : PriceLevel) (o a : Ptr) → SameBut (h a) ((unlink_after h l o).0 a)
unfolding unlink_after
unlink_after-SameBut h l o a =
    elim (h o).next
      as (λ t. SameBut (h a) (
        (let r : Heap × PriceLevel = elim t [
          | some n ↦ (set_prev h n (h o).prev, l)
          | none ↦ (h, record l { tail = (h o).prev })
        ] in
            r).0
          a)) [ some n ↦ set_prev-SameBut h n (h o).prev a | none ↦ refl ]

pub push_back-SamePayload :
    (h : Heap) (l : PriceLevel) (o : Ptr) → SamePayload h (push_back h l o).0
unfolding push_back
push_back-SamePayload h l o a =
    let cleared : Heap = modify h o (λ r. record r { prev = l.tail; next = none }) in
    SameBut-trans (h a) (cleared a) ((push_back h l o).0 a) (relink-SameBut h o l.tail none a)
      (link_after-SameBut cleared l o a)

pub remove-SamePayload : (h : Heap) (l : PriceLevel) (o : Ptr) → SamePayload h (remove h l o).0
unfolding remove
remove-SamePayload h l o a =
    let (h₁, l₁) = unlink_before h l o in
    let (h₂, l₂) = unlink_after h₁ l₁ o in
    SameBut-trans (h a) (h₁ a) ((remove h l o).0 a) (unlink_before-SameBut h l o a) (
      SameBut-trans (h₁ a) (h₂ a) ((remove h l o).0 a) (unlink_after-SameBut h₁ l₁ o a)
        (relink-SameBut h₂ o none none a))

-- The price stays, and the total grows by the whole quantity.
pub push_back-fields :
    (h : Heap) (l : PriceLevel) (o : Ptr)
    → ((push_back h l o).1.price ≡ l.price)
      × ((push_back h l o).1.total_qty ≡ add32 l.total_qty (h o).quantity)
unfolding push_back link_after
push_back-fields h l o = elim (Option-cases l.tail) [
  | inl e ↦ ground (arith, e)
  | inr (t, e) ↦ ground (arith, e)
]
