-- ===== src/PriceLevel.antt =====
-- order_book.hpp, `struct PriceLevel`: the orders at one price, oldest first, in an intrusive doubly
-- linked list over the orders in memory.
pub mod Links
pub mod Queue
pub mod Removal
pub mod Payload
mod Tests
use hft_order_book_simulator.Common.{
  ℕ, ◌≡◌, Option, none, some, Bool, true, false, ◌==◌, if◌then◌else◌,
}
use hft_order_book_simulator.Common.Int.{pos}
use hft_order_book_simulator.Common.Words.{add32, sub32, add64, sub64}
use hft_order_book_simulator.Types.{Order, Ptr, Price, Quantity, remaining}

-- The memory that holds the orders.
abbrev pub Heap : Type 0
Heap = Ptr → Order

abbrev pub modify : Heap → Ptr → (Order → Order) → Heap
modify h p f q = if p == q then f (h q) else h q

-- `p->next = v` and `p->prev = v`
abbrev pub set_next : Heap → Ptr → Option Ptr → Heap
set_next h p v = modify h p λ o. record o { next = v }

abbrev pub set_prev : Heap → Ptr → Option Ptr → Heap
set_prev h p v = modify h p λ o. record o { prev = v }

pub record PriceLevel : Type 0 where
  pub price : Price
  pub total_qty : Quantity
  pub head : Option Ptr
  pub tail : Option Ptr
  pub order_count : ℕ

-- The member initialisers of `PriceLevel`.
abbrev pub default_level : PriceLevel
default_level = record { price = pos 0; total_qty = 0; head = none; tail = none; order_count = 0 }

-- `if (tail) tail->next = o; else head = o;`
unfoldable pub link_after : Heap → PriceLevel → Ptr → Heap × PriceLevel
link_after h l o = elim l.tail [
  | some t ↦ (set_next h t (some o), l)
  | none ↦ (h, record l { head = some o })
]

unfoldable pub push_back : Heap → PriceLevel → Ptr → Heap × PriceLevel
unfolding link_after add32 add64
push_back h l o =
    let cleared = modify h o (λ r. record r { prev = l.tail; next = none }) in
    let (h', l') = link_after cleared l o in
    (
      h',
      record l' {
        tail = some o;
        total_qty = add32 l'.total_qty (h' o).quantity;
        order_count = add64 l'.order_count 1;
      },
    )

-- `if (o->prev) o->prev->next = o->next; else head = o->next;`
unfoldable pub unlink_before : Heap → PriceLevel → Ptr → Heap × PriceLevel
unlink_before h l o = elim (h o).prev [
  | some p ↦ (set_next h p (h o).next, l)
  | none ↦ (h, record l { head = (h o).next })
]

-- `if (o->next) o->next->prev = o->prev; else tail = o->prev;`
unfoldable pub unlink_after : Heap → PriceLevel → Ptr → Heap × PriceLevel
unlink_after h l o = elim (h o).next [
  | some n ↦ (set_prev h n (h o).prev, l)
  | none ↦ (h, record l { tail = (h o).prev })
]

unfoldable pub remove : Heap → PriceLevel → Ptr → Heap × PriceLevel
unfolding unlink_before unlink_after remaining sub32 sub64
remove h l o =
    let (h₁, l₁) = unlink_before h l o in
    let (h₂, l₂) = unlink_after h₁ l₁ o in
    (
      modify h₂ o (λ r. record r { prev = none; next = none }),
      record l₂ {
        total_qty = sub32 l₂.total_qty (remaining (h₂ o));
        order_count = sub64 l₂.order_count 1;
      },
    )

unfoldable pub empty : PriceLevel → Bool
empty l = elim l.head [ none ↦ true | some o ↦ false ]
