-- ===== src/PriceLevel/Links.antt =====
-- Doubly linked list segments: which pointers a segment fixes, and what a write leaves of it.
use hft_order_book_simulator.Common.{
  ◌≡◌, refl, Option, none, some, List, [], ◌∷◌, ◌++◌, arith, head_or, last_or, ◌∈◌, Distinct,
}
use hft_order_book_simulator.Types.{Ptr}
use hft_order_book_simulator.PriceLevel.{Heap, set_next, set_prev}

-- The nodes `ps` are linked both ways, between the neighbours `before` and `after`.
abbrev pub Links : Heap → Option Ptr → List Ptr → Option Ptr → Type 0
Links h before [] after = Unit {0}
Links h before (p ∷ ps) after =
    ((h p).prev ≡ before) × ((h p).next ≡ head_or ps after) × Links h (some p) ps after

-- The two heaps agree on the links of the nodes `ps`.
abbrev pub SameLinks : List Ptr → Heap → Heap → Type 0
SameLinks ps h g = (a : Ptr) → a ∈ ps → ((g a).prev ≡ (h a).prev) × ((g a).next ≡ (h a).next)

pub Links-frame :
    (h g : Heap) (before : Option Ptr) (ps : List Ptr) (after : Option Ptr)
    → SameLinks ps h g
    → Links h before ps after
    → Links g before ps after
Links-frame h g before [] after same s = tt
Links-frame h g before (p ∷ ps) after same s = (
  ground (arith, same p),
  ground (arith, same p),
  Links-frame h g (some p) ps after (λ a i. same a (ground arith)) s.2,
)

head_or-append :
    (xs ys : List Ptr) (after : Option Ptr)
    → head_or (xs ++ ys) after ≡ head_or xs (head_or ys after)
head_or-append [] ys after = refl
head_or-append (x ∷ xs) ys after = refl

pub Links-split :
    (h : Heap) (before : Option Ptr) (xs ys : List Ptr) (after : Option Ptr)
    → Links h before (xs ++ ys) after
    → Links h before xs (head_or ys after) × Links h (last_or before xs) ys after
Links-split h before [] ys after s = (tt, s)
Links-split h before (x ∷ xs) ys after s =
    let ih = Links-split h (some x) xs ys after s.2 in
    ((s.0, ground (arith, head_or-append xs ys after), ih.0), ih.1)

pub Links-join :
    (h : Heap) (before : Option Ptr) (xs ys : List Ptr) (after : Option Ptr)
    → Links h before xs (head_or ys after)
    → Links h (last_or before xs) ys after
    → Links h before (xs ++ ys) after
Links-join h before [] ys after s t = t
Links-join h before (x ∷ xs) ys after s t =
    (s.0, ground (arith, head_or-append xs ys after), Links-join h (some x) xs ys after s.2 t)

pub last-mem : (x : Ptr) (xs : List Ptr) (t : Ptr) → last_or (some x) xs ≡ some t → t ∈ x ∷ xs
last-mem x [] t e = ground arith
last-mem x (y ∷ ys) t e = ground (arith, last-mem y ys t)

-- A new successor for the last node.
pub Links-set_next :
    (h : Heap) (before : Option Ptr) (xs : List Ptr) (after : Option Ptr) (t : Ptr) (v : Option Ptr)
    → Links h before xs after
    → Distinct xs
    → last_or none xs ≡ some t
    → Links (set_next h t v) before xs v
Links-set_next h before [] after t v s d e = tt
Links-set_next h before (x ∷ []) after t v s d e = ground arith
Links-set_next h before (x ∷ y ∷ ys) after t v s d e =
    let apart = last-mem y ys t e in
    (ground arith, ground arith, Links-set_next h (some x) (y ∷ ys) after t v s.2 d.1 e)

-- A new predecessor for the first node.
pub Links-set_prev :
    (h : Heap) (before : Option Ptr) (y : Ptr) (ys : List Ptr) (after v : Option Ptr)
    → Links h before (y ∷ ys) after
    → Distinct (y ∷ ys)
    → Links (set_prev h y v) v (y ∷ ys) after
Links-set_prev h before y ys after v s d = (
  ground arith,
  ground arith,
  Links-frame h (set_prev h y v) (some y) ys after (λ a i. ground arith) s.2,
)
