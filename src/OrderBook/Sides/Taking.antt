-- ===== src/OrderBook/Sides/Taking.antt =====
-- `remove_from_book` on a side: an order is taken out of the level of its price, and the level goes if it was the last.
use mathlib.Core.Path.{subst₂}
use hft_order_book_simulator.Common.{
  ◌≡◌, ◌≢◌, refl, sym, ap, ◌∙◌, subst, arith, true, false, some, List, [], ◌∷◌, ◌++◌, ◌==◌,
  if◌then◌else◌, ◌∈◌, ◌∉◌, has, has-append, Bool-cases, inl, inr, Distinct, Distinct-apart,
  Distinct-split, apart_left, Distinct-left, Distinct-right, Distinct-append, split_at_mem,
  outside_left, outside_right,
}
use hft_order_book_simulator.Types.{Ptr, Price, Side}
use hft_order_book_simulator.PriceLevel
use hft_order_book_simulator.PriceLevel.{PriceLevel, Heap}
use hft_order_book_simulator.Containers.{find}
use hft_order_book_simulator.OrderBook.{Levels, before}
use hft_order_book_simulator.OrderBook.Sides.{
  LevelOk, LevelOk-frame, SideOk, SideOk-frame, Ahead, all_of,
}
use hft_order_book_simulator.OrderBook.Sides.Members.{Resting_of, price_on}
use hft_order_book_simulator.OrderBook.Sides.Leaving.{
  reduced, g, removed-LevelOk, removed_outside, find_behind, reduced_behind, find_here,
  reduced_here, reduced-AllPrices,
}
use hft_order_book_simulator.OrderBook.Sides.Dequeue.{
  queues_with, dequeue, without-split, all_of-queues_with, has_without, mem_own, mem_with,
  without_behind,
}

-- The order `p` has been taken from a side with the memory `h` and the queues `qs`.
pub record Taking (s : Side) (h : Heap) (p : Ptr) (qs : List (List Ptr)) (g : Heap) (m' : Levels)
    : Type 0 where
  pub queues : List (List Ptr)
  pub exact : queues ≡ dequeue p qs
  pub ok : SideOk s g m' queues
  pub outside : (a : Ptr) → a ∉ all_of qs → g a ≡ h a
  pub members : (a : Ptr) → has a (all_of queues) ≡ (if a == p then false else has a (all_of qs))
  pub distinct : Distinct (all_of queues)

-- The level that `find` gives, and what becomes of the side.
pub record Taken (s : Side) (h : Heap) (k : Price) (p : Ptr) (m : Levels) (qs : List (List Ptr))
    : Type 0 where
  pub level : PriceLevel
  pub found : find (before s) k m ≡ some level
  pub taking :
      Taking s h p qs
        (PriceLevel.remove h level p).0
        (reduced s k (PriceLevel.remove h level p).1 m)

-- The front level has come to hold the orders at `zs`.
front_SideOk :
    (s : Side) (g : Heap) (k : Price) (l : PriceLevel) (zs : List Ptr) (m : Levels)
    (qs : List (List Ptr))
    → LevelOk s g k l zs
    → Ahead s k m
    → SideOk s g m qs
    → SideOk s g (if PriceLevel.empty l then m else (k, l) ∷ m) (queues_with zs qs)
unfolding PriceLevel.empty
front_SideOk s g k l [] m qs v a r = rw v.queue.head r
front_SideOk s g k l (z ∷ zs) m qs v a r =
    let some_left : PriceLevel.empty l ≡ false = rw v.queue.head refl in
    rw some_left (v, (λ e. cc), a, r)

module _ (s : Side) (h : Heap) (k : Price) (l : PriceLevel) (m : Levels) (xs ys : List Ptr)
    (p : Ptr) (qs : List (List Ptr)) (v : LevelOk s h k l (xs ++ p ∷ ys)) (a : Ahead s k m)
    (r : SideOk s h m qs) (d : Distinct ((xs ++ p ∷ ys) ++ all_of qs)) where
  here_Taken : Taken s h k p ((k, l) ∷ m) ((xs ++ p ∷ ys) ∷ qs)
  here_Taken =
      let (out₁, out₂, _, _, kept) =
        Distinct-split xs p ys (Distinct-left (xs ++ p ∷ ys) (all_of qs) d) in
      let out₃ =
        Distinct-apart (xs ++ p ∷ ys) (all_of qs) p d (ground (arith, has-append p xs (p ∷ ys))) in
      let l' = (PriceLevel.remove h l p).1 in
      let joint = all_of-queues_with (xs ++ ys) qs in
      record {
        level = l;
        found = find_here s k l m;
        taking = record {
          queues = queues_with (xs ++ ys) qs;
          exact =
              rw (mem_own p xs ys)
                (ap (λ zs. queues_with zs qs) (sym (without-split p xs ys out₁)));
          ok =
              subst (λ z. SideOk s (g s h k l xs ys p v) z (queues_with (xs ++ ys) qs))
                (sym (reduced_here s k l m l'))
                (front_SideOk s (g s h k l xs ys p v) k l' (xs ++ ys) m qs
                  (removed-LevelOk s h k l xs ys p v) a
                  (SideOk-frame s h (g s h k l xs ys p v) m qs
                    (λ b i.
                      removed_outside s h k l xs ys p v b
                        (apart_left (xs ++ p ∷ ys) (all_of qs) b d i))
                    r));
          outside = λ b o.
              removed_outside s h k l xs ys p v b (outside_left b (xs ++ p ∷ ys) (all_of qs) o);
          members = λ b. ap (has b) joint ∙ has_without b p xs ys (all_of qs) out₁ out₂ out₃;
          distinct = subst Distinct (sym joint) (
              Distinct-append (xs ++ ys) (all_of qs) kept
                (Distinct-right (xs ++ p ∷ ys) (all_of qs) d)
                (λ b i. Distinct-apart (xs ++ p ∷ ys) (all_of qs) b d (mem_with b p xs ys i)));
        };
      }

module _ (s : Side) (h : Heap) (k j : Price) (l : PriceLevel) (m : Levels) (ps : List Ptr) (p : Ptr)
    (qs : List (List Ptr)) (v : LevelOk s h j l ps) (filled : ps ≢ []) (a : Ahead s j m)
    (d : Distinct (ps ++ all_of qs)) (out : p ∉ ps) (first : before s j k ≡ true) where
  behind_Taken : Taken s h k p m qs → Taken s h k p ((j, l) ∷ m) (ps ∷ qs)
  behind_Taken t =
      let l' = (PriceLevel.remove h t.level p).1 in
      let g = (PriceLevel.remove h t.level p).0 in
      let qs' = t.taking.queues in
      record {
        level = t.level;
        found = find_behind s k j l m first ∙ t.found;
        taking = record {
          queues = ps ∷ qs';
          exact = rw out (ap (λ zs. ps ∷ zs) t.taking.exact);
          ok =
              subst (λ z. SideOk s g z (ps ∷ qs')) (sym (reduced_behind s k j l m l' first))
                (
                  LevelOk-frame s h g j l ps
                      (λ b i. t.taking.outside b (Distinct-apart ps (all_of qs) b d i)) v,
                  filled,
                  reduced-AllPrices (λ i. before s j i ≡ true) s k l' m a,
                  t.taking.ok,
                );
          outside = λ b o. t.taking.outside b (outside_right b ps (all_of qs) o);
          members = λ b. without_behind b p ps (all_of qs') (all_of qs) out (t.taking.members b);
          distinct =
              Distinct-append ps (all_of qs') (Distinct-left ps (all_of qs) d) t.taking.distinct
                (λ b i. ground (arith, t.taking.members b, Distinct-apart ps (all_of qs) b d i));
        };
      }

pub take_lem :
    (s : Side) (h : Heap) (m : Levels) (qs : List (List Ptr)) (p : Ptr)
    → SideOk s h m qs
    → Distinct (all_of qs)
    → p ∈ all_of qs
    → Taken s h (h p).price p m qs
take_lem s h [] [] p v d i = cc
take_lem s h [] (ps ∷ qs) p v d i = absurd v
take_lem s h ((k, l) ∷ m) [] p v d i = cc
take_lem s h ((k, l) ∷ m) (ps ∷ qs) p v d i = elim (Bool-cases (has p ps)) [
  | inl here ↦
      let (xs, ys, e) = split_at_mem p ps here in
      let r = Resting_of s h k ps p v.0.orders here in
      let v' = subst (LevelOk s h k l) e v.0 in
      subst₂ (λ j zs. Taken s h j p ((k, l) ∷ m) (zs ∷ qs)) (sym r.price) (sym e)
        (here_Taken s h k l m xs ys p qs v' v.2 v.3 (subst (λ zs. Distinct (zs ++ all_of qs)) e d))
  | inr away ↦
      let i' : p ∈ all_of qs = ground (arith, has-append p ps (all_of qs)) in
      behind_Taken s h (h p).price k l m ps p qs v.0 v.1 v.2 d away
        (price_on (λ j. before s k j ≡ true) s h m qs p v.3 i' v.2)
        (take_lem s h m qs p v.3 (Distinct-right ps (all_of qs) d) i')
]
