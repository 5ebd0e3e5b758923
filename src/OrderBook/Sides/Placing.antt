-- ===== src/OrderBook/Sides/Placing.antt =====
-- `rest_order` on a side: the order goes to the back of the level of its price, which is made if there is none.
use mathlib.Core.Path.{subst₂}
use hft_order_book_simulator.Common.{
  ◌≡◌, ◌≢◌, refl, sym, ap, subst, arith, true, false, List, [], ◌∷◌, ◌++◌, ◌==◌, if◌then◌else◌, All,
  ◌∈◌, ◌∉◌, has, has-append, ◌||◌, Bool-cases, ==_iff, inl, inr, Distinct, Distinct-apart,
  apart_left, Distinct-left, Distinct-right, Distinct-append, Distinct-snoc,
}
use hft_order_book_simulator.Types.{Ptr, Price, Side}
use hft_order_book_simulator.PriceLevel.{PriceLevel, Heap, default_level}
use hft_order_book_simulator.PriceLevel.Queue.{IsQueue, ne_of_not_mem}
use hft_order_book_simulator.Containers.{at_or_insert}
use hft_order_book_simulator.OrderBook.{Levels, before}
use hft_order_book_simulator.OrderBook.Sides.{
  Resting, LevelOk, LevelOk-frame, SideOk, SideOk-frame, all_of,
}
use hft_order_book_simulator.OrderBook.Sides.Prices.{
  before_total, Ahead-trans, AllPrices-at_or_insert, AllPrices-adjust,
}
use hft_order_book_simulator.OrderBook.Sides.Joining.{
  joined, joined_heap, joined_outside, joined-LevelOk,
}
use hft_order_book_simulator.OrderBook.Sides.Inserting.{
  found_level, placed, placed_behind, placed_new, placed_here, placed_first,
}

-- The queues of a side after the order `p` has joined the one of the price `k`.
abbrev pub enqueue : Side → Price → Ptr → Levels → List (List Ptr) → List (List Ptr)
enqueue s k p ((j, l) ∷ m) (ps ∷ qs) =
    let rest = enqueue s k p m qs in
    if before s j k
    then ps ∷ rest
    else if before s k j
    then (p ∷ []) ∷ ps ∷ qs
    else (ps ++ p ∷ []) ∷ qs
enqueue s k p _ qs = (p ∷ []) ∷ qs

-- A side with the memory `h` and the queues `qs` has been given the order `p`.
pub record Placing (s : Side) (h : Heap) (p : Ptr) (qs : List (List Ptr)) (g : Heap) (m' : Levels)
    (qs' : List (List Ptr)) : Type 0 where
  pub ok : SideOk s g m' qs'
  pub outside : (a : Ptr) → a ∉ all_of qs → (p == a) ≡ false → g a ≡ h a
  pub members : (a : Ptr) → has a (all_of qs') ≡ ((a == p) || has a (all_of qs))
  pub distinct : Distinct (all_of qs')

abbrev pub Placed : Side → Heap → Price → Ptr → Levels → List (List Ptr) → Type 0
Placed s h k p m qs =
    Placing s h p qs (joined_heap h k p (found_level s k m)) (placed s k (joined h k p) m)
      (enqueue s k p m qs)

Placing-eq :
    {s : Side} {h : Heap} {p : Ptr} {qs qs' : List (List Ptr)} {g g' : Heap} {m m' : Levels}
    → g' ≡ g
    → m' ≡ m
    → Placing s h p qs g m qs'
    → Placing s h p qs g' m' qs'
Placing-eq {s} {h} {p} {qs} {qs'} {g} {g'} {m} {m'} eg em x =
    subst₂ (λ z w. Placing s h p qs z w qs') (sym eg) (sym em) x

-- A level of its own for the order.
alone-LevelOk :
    (s : Side) (h : Heap) (k : Price) (p : Ptr)
    → Resting s k (h p)
    → LevelOk s (joined_heap h k p default_level) k (joined h k p default_level) (p ∷ [])
alone-LevelOk s h k p r =
    joined-LevelOk s h k p default_level []
      (record { head = refl; tail = refl; links = tt; distinct = tt; count = refl }) refl r tt refl

alone_outside :
    (s : Side) (h : Heap) (k : Price) (p a : Ptr)
    → Resting s k (h p)
    → (p == a) ≡ false
    → joined_heap h k p default_level a ≡ h a
alone_outside s h k p a r ne =
    joined_outside s h k p default_level []
      (record { head = refl; tail = refl; links = tt; distinct = tt; count = refl }) refl r tt refl
      a refl ne

priced :
    {h : Heap} {l : PriceLevel} {ps : List Ptr} (k : Price)
    → IsQueue h l ps
    → IsQueue h (record l { price = k }) ps
priced k q = record {
  head = q.head;
  tail = q.tail;
  links = q.links;
  distinct = q.distinct;
  count = q.count;
}

snoc-ne-nil : (ps : List Ptr) (p : Ptr) → (ps ++ p ∷ []) ≢ []
snoc-ne-nil [] p e = cc
snoc-ne-nil (x ∷ ps) p e = cc

has_middle :
    (a p : Ptr) (xs ys zs : List Ptr)
    → has a ys ≡ ((a == p) || has a zs)
    → has a (xs ++ ys) ≡ ((a == p) || has a (xs ++ zs))
has_middle a p xs ys zs e = ground (arith, e, has-append a xs ys, has-append a xs zs)

has_snoc :
    (a p : Ptr) (xs ys : List Ptr) → has a ((xs ++ p ∷ []) ++ ys) ≡ ((a == p) || has a (xs ++ ys))
has_snoc a p xs ys =
    ground (arith, has-append a (xs ++ p ∷ []) ys, has-append a xs (p ∷ []), has-append a xs ys)

apart_middle :
    (a p : Ptr) (ys zs : List Ptr)
    → has a ys ≡ ((a == p) || has a zs)
    → (p == a) ≡ false
    → a ∉ zs
    → a ∉ ys
apart_middle a p ys zs e ne out = ground arith

apart_snoc :
    (a p : Ptr) (xs ys : List Ptr) → Distinct (xs ++ ys) → p ∉ ys → a ∈ xs ++ p ∷ [] → a ∉ ys
apart_snoc a p xs ys d out i = elim (Bool-cases (has a xs)) [
  | inl e ↦ Distinct-apart xs ys a d e
  | inr e ↦
      let same : (a == p) ≡ true = ground (arith, has-append a xs (p ∷ [])) in
      subst (λ z. z ∉ ys) (sym ((==_iff a p).0 same)) out
]

pub place_lem :
    (s : Side) (h : Heap) (k : Price) (p : Ptr) (m : Levels) (qs : List (List Ptr))
    → SideOk s h m qs
    → Distinct (all_of qs)
    → p ∉ all_of qs
    → Resting s k (h p)
    → Placed s h k p m qs
place_lem s h k p [] [] v d out r =
    let (em, ef) = placed_first s k (joined h k p) in
    Placing-eq (ap (joined_heap h k p) ef) em (record {
      ok = (alone-LevelOk s h k p r, (λ e. cc), tt, tt);
      outside = λ a o ne. alone_outside s h k p a r ne;
      members = λ a. refl;
      distinct = (refl, tt);
    })
place_lem s h k p [] (ps ∷ qs) v d out r = absurd v
place_lem s h k p ((j, l) ∷ m) [] v d out r = absurd v
place_lem s h k p ((j, l) ∷ m) (ps ∷ qs) v d out r = elim (Bool-cases (before s j k)) [
  | inl behind ↦
      let ih =
        place_lem s h k p m qs v.3 (Distinct-right ps (all_of qs) d)
          (ground (arith, has-append p ps (all_of qs))) r in
      let (em, ef) = placed_behind s k j l m (joined h k p) behind in
      Placing-eq (ap (joined_heap h k p) ef) em (
        rw behind (record {
          ok = (
            LevelOk-frame s h (joined_heap h k p (found_level s k m)) j l ps
                (λ a i.
                  ih.outside a (Distinct-apart ps (all_of qs) a d i)
                    (ne_of_not_mem p a ps (ground (arith, has-append p ps (all_of qs))) i))
                v.0,
            v.1,
            AllPrices-adjust (λ i. before s j i ≡ true) s k (λ x. joined h k p (found_level s k m))
                (at_or_insert (before s) k default_level m).1
                (AllPrices-at_or_insert (λ i. before s j i ≡ true) s k default_level m behind v.2),
            ih.ok,
          );
          outside = λ a o ne. ih.outside a (ground (arith, has-append a ps (all_of qs))) ne;
          members = λ a. has_middle a p ps (all_of (enqueue s k p m qs)) (all_of qs) (ih.members a);
          distinct =
              Distinct-append ps (all_of (enqueue s k p m qs)) (Distinct-left ps (all_of qs) d)
                ih.distinct
                (λ a i.
                  apart_middle a p (all_of (enqueue s k p m qs)) (all_of qs) (ih.members a)
                    (ne_of_not_mem p a ps (ground (arith, has-append p ps (all_of qs))) i)
                    (Distinct-apart ps (all_of qs) a d i));
        }))
  | inr e ↦ elim (Bool-cases (before s k j)) [
    | inl new ↦
        let (em, ef) = placed_new s k j l m (joined h k p) e new in
        Placing-eq (ap (joined_heap h k p) ef) em (
          rw (e, new)
            (record {
              ok = (
                alone-LevelOk s h k p r,
                (λ z. cc),
                (new, Ahead-trans s k j m new v.2),
                SideOk-frame s h (joined_heap h k p default_level) ((j, l) ∷ m) (ps ∷ qs)
                    (λ a i. alone_outside s h k p a r (ne_of_not_mem p a (ps ++ all_of qs) out i))
                    v,
              );
              outside = λ a o ne. alone_outside s h k p a r ne;
              members = λ a. refl;
              distinct = (out, d);
            }))
    | inr e' ↦
        let (em, ef) = placed_here s k j l m (joined h k p) e e' in
        let same : j ≡ k = before_total s j k e e' in
        let out₁ : p ∉ ps = ground (arith, has-append p ps (all_of qs)) in
        let out₂ : p ∉ all_of qs = ground (arith, has-append p ps (all_of qs)) in
        let orders = subst (λ z. All (λ a. Resting s z (h a)) ps) same v.0.orders in
        let q = priced k v.0.queue in
        let outside = joined_outside s h k p l ps q out₁ r orders v.0.total in
        Placing-eq (ap (joined_heap h k p) ef) em (
          rw (e, e')
            (record {
              ok = (
                subst (λ z. LevelOk s (joined_heap h k p l) z (joined h k p l) (ps ++ p ∷ []))
                    (sym same) (joined-LevelOk s h k p l ps q out₁ r orders v.0.total),
                (λ z. snoc-ne-nil ps p z),
                v.2,
                SideOk-frame s h (joined_heap h k p l) m qs
                    (λ a i.
                      outside a (apart_left ps (all_of qs) a d i)
                        (ne_of_not_mem p a (all_of qs) out₂ i))
                    v.3,
              );
              outside = λ a o ne. outside a (ground (arith, has-append a ps (all_of qs))) ne;
              members = λ a. has_snoc a p ps (all_of qs);
              distinct =
                  Distinct-append (ps ++ p ∷ []) (all_of qs)
                    (Distinct-snoc ps p out₁ (Distinct-left ps (all_of qs) d))
                    (Distinct-right ps (all_of qs) d)
                    (λ a i. apart_snoc a p ps (all_of qs) d out₂ i);
            }))
  ]
]
