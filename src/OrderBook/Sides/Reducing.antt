-- ===== src/OrderBook/Sides/Reducing.antt =====
-- A reduction by `amend_order` on a side: the quantity of an order and the total of its level go down together, and the
-- order keeps its place.
use hft_order_book_simulator.Common.{
  ℕ, ◌+◌, ◌-◌, ◌%◌, ◌^◌, ◌≤◌, ◌<◌, ◌≡◌, refl, sym, ap, ◌∙◌, subst, arith, true, false, none, List,
  [], ◌∷◌, ◌++◌, ◌==◌, All, ◌∈◌, ◌∉◌, has, has-append, Bool-cases, ==_iff, inl, inr, Distinct,
  Distinct-apart, Distinct-split, Distinct-right, split_at_mem,
}
use hft_order_book_simulator.Common.Words.{sub32}
use hft_order_book_simulator.Types.{Ptr, Price, Quantity, Side, remaining, is_active}
use hft_order_book_simulator.PriceLevel.{PriceLevel, Heap, modify}
use hft_order_book_simulator.PriceLevel.Links.{Links-frame}
use hft_order_book_simulator.PriceLevel.Queue.{ne_of_not_mem}
use hft_order_book_simulator.Containers.{adjust}
use hft_order_book_simulator.OrderBook.{Levels, before}
use hft_order_book_simulator.OrderBook.Effects.{adjust-front}
use hft_order_book_simulator.OrderBook.Sides.{
  Resting, LevelOk, LevelOk-frame, SideOk, SideOk-frame, all_of, sum_remaining, sum_remaining-frame,
  remaining-sub,
}
use hft_order_book_simulator.OrderBook.Sides.Sweep.{sum_remaining-append}
use hft_order_book_simulator.OrderBook.Sides.Prices.{AllPrices-adjust}
use hft_order_book_simulator.OrderBook.Sides.Inserting.{adjust_behind}
use hft_order_book_simulator.OrderBook.Sides.Members.{Resting_of, price_on}

abbrev pub lower : Quantity → PriceLevel → PriceLevel
lower d l = record l { total_qty = sub32 l.total_qty d }

abbrev pub requantified : Heap → Ptr → Quantity → Heap
requantified h p qty = modify h p λ o. record o { quantity = qty }

total_lowered :
    (total sum sum' d : ℕ)
    → total ≡ sum % 2 ^ 32
    → sum' + d ≡ sum
    → d < 2 ^ 32
    → sub32 total d ≡ sum' % 2 ^ 32
unfolding sub32
total_lowered total sum sum' d e k lt = omega arith

sub32_small : (a b : ℕ) → b ≤ a → a < 2 ^ 32 → sub32 a b ≡ a - b
unfolding sub32
sub32_small a b h k = omega arith

module _ (s : Side) (h : Heap) (p : Ptr) (qty : Quantity) (filled_less : (h p).filled_qty < qty)
    (less : qty ≤ (h p).quantity) where
  abbrev g : Heap
  g = requantified h p qty

  others : (a : Ptr) → (p == a) ≡ false → g a ≡ h a
  others a ne = rw ne refl

  own : g p ≡ record (h p) { quantity = qty }
  own = ground arith

  lowered-Resting : (k : Price) (a : Ptr) → Resting s k (h a) → Resting s k (g a)
  unfolding is_active
  lowered-Resting k a r = elim (Bool-cases (p == a)) [
    | inr other ↦ subst (Resting s k) (sym (others a other)) r
    | inl same ↦
        let r' = subst (λ z. Resting s k (h z)) (sym ((==_iff p a).0 same)) r in
        subst (λ z. Resting s k (g z)) ((==_iff p a).0 same)
          (subst (Resting s k) (sym own) (record {
            side = r'.side;
            price = r'.price;
            positive = r'.positive;
            active = r'.active;
            open_qty = filled_less;
            fits = omega (arith, r'.fits);
          }))
  ]

  lowered-All :
      (k : Price) (ps : List Ptr)
      → All (λ a. Resting s k (h a)) ps
      → All (λ a. Resting s k (g a)) ps
  lowered-All k [] v = tt
  lowered-All k (a ∷ ps) v = (lowered-Resting k a v.0, lowered-All k ps v.1)

  sum_others : (ps : List Ptr) → p ∉ ps → sum_remaining g ps ≡ sum_remaining h ps
  sum_others ps out =
      sum_remaining-frame h g ps (λ a i. rw (others a (ne_of_not_mem p a ps out i)) refl)

  sum_lowered :
      (xs ys : List Ptr)
      → Distinct (xs ++ p ∷ ys)
      → (h p).quantity < 2 ^ 32
      → sum_remaining g (xs ++ p ∷ ys) + ((h p).quantity - qty) ≡ sum_remaining h (xs ++ p ∷ ys)
  sum_lowered xs ys d fits =
      let (out₁, out₂, _, _, _) = Distinct-split xs p ys d in
      let after : remaining (g p) ≡ qty - (h p).filled_qty =
        ap remaining own
        ∙ remaining-sub (record (h p) { quantity = qty }) (omega arith) (omega arith) in
      omega (
        arith,
        sum_remaining-append g xs (p ∷ ys),
        sum_remaining-append h xs (p ∷ ys),
        sum_others xs out₁,
        sum_others ys out₂,
        remaining-sub (h p) (omega arith) fits,
        after,
      )

  lowered-LevelOk :
      (k : Price) (l : PriceLevel) (ps : List Ptr)
      → LevelOk s h k l ps
      → p ∈ ps
      → LevelOk s g k (lower (sub32 (h p).quantity qty) l) ps
  lowered-LevelOk k l ps v i =
      let (xs, ys, e) = split_at_mem p ps i in
      let fits = (Resting_of s h k ps p v.orders i).fits in
      record {
        queue = record {
          head = v.queue.head;
          tail = v.queue.tail;
          links = Links-frame h g none ps none (λ a j. same_links a) v.queue.links;
          distinct = v.queue.distinct;
          count = v.queue.count;
        };
        price = v.price;
        orders = lowered-All k ps v.orders;
        total =
            ap (sub32 l.total_qty) (sub32_small (h p).quantity qty less fits)
            ∙ total_lowered l.total_qty (sum_remaining h ps) (sum_remaining g ps)
                ((h p).quantity - qty) v.total
                (subst (λ zs. sum_remaining g zs + ((h p).quantity - qty) ≡ sum_remaining h zs)
                  (sym e) (sum_lowered xs ys (subst Distinct e v.queue.distinct) fits))
                (omega (arith, fits));
      }
    where
      same_links : (a : Ptr) → ((g a).prev ≡ (h a).prev) × ((g a).next ≡ (h a).next)
      same_links a = ground arith

  -- The side after the reduction, in its order and with its queues as they were.
  pub lower_lem :
      (m : Levels) (qs : List (List Ptr))
      → SideOk s h m qs
      → Distinct (all_of qs)
      → p ∈ all_of qs
      → SideOk s g (adjust (before s) (h p).price (lower (sub32 (h p).quantity qty)) m) qs
  lower_lem [] [] v d i = cc
  lower_lem [] (ps ∷ qs) v d i = absurd v
  lower_lem ((k, l) ∷ m) [] v d i = cc
  lower_lem ((k, l) ∷ m) (ps ∷ qs) v d i = elim (Bool-cases (has p ps)) [
    | inl here ↦
        let r = Resting_of s h k ps p v.0.orders here in
        let f = lower (sub32 (h p).quantity qty) in
        let out = Distinct-apart ps (all_of qs) p d here in
        subst (λ j. SideOk s g (adjust (before s) j f ((k, l) ∷ m)) (ps ∷ qs)) (sym r.price)
          (subst (λ z. SideOk s g z (ps ∷ qs)) (sym (adjust-front s k f l m))
            (
              lowered-LevelOk k l ps v.0 here,
              v.1,
              v.2,
              SideOk-frame s h g m qs (λ a j. others a (ne_of_not_mem p a (all_of qs) out j)) v.3,
            ))
    | inr away ↦
        let there : p ∈ all_of qs = ground (arith, has-append p ps (all_of qs)) in
        let j = (h p).price in
        let f = lower (sub32 (h p).quantity qty) in
        let ahead = price_on (λ z. before s k z ≡ true) s h m qs p v.3 there v.2 in
        subst (λ z. SideOk s g z (ps ∷ qs)) (sym (adjust_behind s j k f l m ahead))
          (
            LevelOk-frame s h g k l ps (λ a z. others a (ne_of_not_mem p a ps away z)) v.0,
            v.1,
            AllPrices-adjust (λ z. before s k z ≡ true) s j f m v.2,
            lower_lem m qs v.3 (Distinct-right ps (all_of qs) d) there,
          )
  ]
