-- ===== src/OrderBook/Sides/Dequeue.antt =====
-- The queues of a side without one order.
use hft_order_book_simulator.Common.{
  ◌≡◌, refl, ap, arith, true, false, List, [], ◌∷◌, ◌++◌, ◌==◌, if◌then◌else◌, ◌∈◌, ◌∉◌, has,
  has-append, Bool-cases, ==_iff, inl, inr, outside_left, outside_right,
}
use hft_order_book_simulator.Types.{Ptr}
use hft_order_book_simulator.OrderBook.Sides.{all_of}

-- A queue is left out when it has become empty.
abbrev pub queues_with : List Ptr → List (List Ptr) → List (List Ptr)
queues_with [] qs = qs
queues_with (x ∷ xs) qs = (x ∷ xs) ∷ qs

-- The queues without the order `p`: the others keep their order.
abbrev pub without : Ptr → List Ptr → List Ptr
without p [] = []
without p (x ∷ xs) = let rest = without p xs in if p == x then xs else x ∷ rest

abbrev pub dequeue : Ptr → List (List Ptr) → List (List Ptr)
dequeue p [] = []
dequeue p (ps ∷ qs) =
    let rest = dequeue p qs in if has p ps then queues_with (without p ps) qs else ps ∷ rest

pub without-split : (p : Ptr) (xs ys : List Ptr) → p ∉ xs → without p (xs ++ p ∷ ys) ≡ xs ++ ys
without-split p [] ys out = let e : (p == p) ≡ true = ground arith in rw e refl
without-split p (x ∷ xs) ys out =
    let e : (p == x) ≡ false = ground arith in
    rw e (ap (◌∷◌ x) (without-split p xs ys (ground arith)))

pub dequeue-absent : (p : Ptr) (qs : List (List Ptr)) → p ∉ all_of qs → dequeue p qs ≡ qs
dequeue-absent p [] out = refl
dequeue-absent p (ps ∷ qs) out =
    rw (outside_left p ps (all_of qs) out)
      (ap (λ zs. ps ∷ zs) (dequeue-absent p qs (outside_right p ps (all_of qs) out)))

pub all_of-queues_with :
    (ps : List Ptr) (qs : List (List Ptr)) → all_of (queues_with ps qs) ≡ ps ++ all_of qs
all_of-queues_with [] qs = refl
all_of-queues_with (x ∷ xs) qs = refl

pub has_without :
    (a p : Ptr) (xs ys zs : List Ptr)
    → p ∉ xs
    → p ∉ ys
    → p ∉ zs
    → has a ((xs ++ ys) ++ zs) ≡ (if a == p then false else has a ((xs ++ p ∷ ys) ++ zs))
has_without a p xs ys zs h k j = elim (Bool-cases (a == p)) [
  | inl e ↦
      rw (e, (==_iff a p).0 e) (ground (arith, has-append p (xs ++ ys) zs, has-append p xs ys))
  | inr e ↦ rw e (
      ground (
        arith,
        has-append a (xs ++ ys) zs,
        has-append a xs ys,
        has-append a (xs ++ p ∷ ys) zs,
        has-append a xs (p ∷ ys),
      ))
]

pub mem_own : (p : Ptr) (xs ys : List Ptr) → p ∈ xs ++ p ∷ ys
mem_own p xs ys = ground (arith, has-append p xs (p ∷ ys))

pub mem_with : (a p : Ptr) (xs ys : List Ptr) → a ∈ xs ++ ys → a ∈ xs ++ p ∷ ys
mem_with a p xs ys i = ground (arith, has-append a xs (p ∷ ys), has-append a xs ys)

pub without_behind :
    (a p : Ptr) (xs ys zs : List Ptr)
    → p ∉ xs
    → has a ys ≡ (if a == p then false else has a zs)
    → has a (xs ++ ys) ≡ (if a == p then false else has a (xs ++ zs))
without_behind a p xs ys zs out e = elim (Bool-cases (a == p)) [
  | inl same ↦ rw (same, has-append a xs ys, e, (==_iff a p).0 same) (ground arith)
  | inr other ↦ rw other (ground (arith, has-append a xs ys, has-append a xs zs))
]
