-- ===== src/OrderBook/Sides/Joining.antt =====
-- An order joins the level of its price: `rest_order`, on one level.
use hft_order_book_simulator.Common.{
  ℕ, ◌+◌, ◌-◌, ◌%◌, ◌^◌, ◌≤◌, ◌<◌, ◌≡◌, sym, ap, ◌∙◌, arith, false, List, [], ◌∷◌, ◌++◌, ◌==◌, All,
  All-append, ◌∉◌,
}
use hft_order_book_simulator.Common.Words.{add32, sub32}
use hft_order_book_simulator.Types.{Order, Ptr, Price, Side, remaining}
use hft_order_book_simulator.PriceLevel
use hft_order_book_simulator.PriceLevel.{PriceLevel, Heap, default_level}
use hft_order_book_simulator.PriceLevel.Queue.{
  IsQueue, SamePayload, push_back-IsQueue, push_back-outside,
}
use hft_order_book_simulator.PriceLevel.Payload.{push_back-SamePayload, push_back-fields}
use hft_order_book_simulator.OrderBook.Sides.{
  Resting, LevelOk, sum_remaining, sum_remaining-frame, remaining-sub, Resting-payload,
  All-Resting-frame, SameOrders,
}
use hft_order_book_simulator.OrderBook.Sides.Sweep.{sum_remaining-append}

-- What `rest_order` makes of the level that it finds, and of the memory.
abbrev pub joined : Heap → Price → Ptr → PriceLevel → PriceLevel
joined h k p l =
    let (g, pushed) = PriceLevel.push_back h (record l { price = k }) p in
    record pushed { total_qty = sub32 pushed.total_qty (g p).filled_qty }

abbrev pub joined_heap : Heap → Price → Ptr → PriceLevel → Heap
joined_heap h k p l = (PriceLevel.push_back h (record l { price = k }) p).0

total_joined :
    (total sum q f r : ℕ)
    → total ≡ sum % 2 ^ 32
    → f ≤ q
    → q < 2 ^ 32
    → r ≡ q - f
    → sub32 (add32 total q) f ≡ (sum + (r + 0)) % 2 ^ 32
unfolding add32 sub32
total_joined total sum q f r e le lt er = omega arith

module _ (s : Side) (h : Heap) (k : Price) (p : Ptr) (l : PriceLevel) (ps : List Ptr)
    (q : IsQueue h (record l { price = k }) ps) (out : p ∉ ps) (r : Resting s k (h p))
    (orders : All (λ a. Resting s k (h a)) ps)
    (total : l.total_qty ≡ sum_remaining h ps % 2 ^ 32) where
  pub joined_outside : (a : Ptr) → a ∉ ps → (p == a) ≡ false → joined_heap h k p l a ≡ h a
  joined_outside a o ne = push_back-outside h (record l { price = k }) ps p q a o ne

  joined_payload : SamePayload h (joined_heap h k p l)
  joined_payload = push_back-SamePayload h (record l { price = k }) p

  joined_total :
      (joined h k p l).total_qty ≡ sum_remaining (joined_heap h k p l) (ps ++ p ∷ []) % 2 ^ 32
  joined_total =
      let g = joined_heap h k p l in
      let f = push_back-fields h (record l { price = k }) p in
      let same : SameOrders (ps ++ p ∷ []) h g = λ a i. joined_payload a in
      ap (λ (n : ℕ). sub32 n (g p).filled_qty) f.1
      ∙ ap (λ (o : Order). sub32 (add32 l.total_qty (h p).quantity) o.filled_qty) (joined_payload p)
      ∙ total_joined l.total_qty (sum_remaining h ps) (h p).quantity (h p).filled_qty
          (remaining (h p)) total (omega (arith, r.open_qty)) r.fits
          (remaining-sub (h p) (omega (arith, r.open_qty)) r.fits)
      ∙ ap (λ (n : ℕ). n % 2 ^ 32)
          (sym (sum_remaining-frame h g (ps ++ p ∷ []) same ∙ sum_remaining-append h ps (p ∷ [])))

  pub joined-LevelOk : LevelOk s (joined_heap h k p l) k (joined h k p l) (ps ++ p ∷ [])
  joined-LevelOk =
      let x = push_back-IsQueue h (record l { price = k }) ps p q out in
      record {
        queue = record {
          head = x.head;
          tail = x.tail;
          links = x.links;
          distinct = x.distinct;
          count = x.count;
        };
        price = (push_back-fields h (record l { price = k }) p).0;
        orders =
            All-append (λ a. Resting s k (joined_heap h k p l a)) ps (p ∷ [])
              (All-Resting-frame s k h (joined_heap h k p l) ps (λ a i. joined_payload a) orders)
              (Resting-payload s k (h p) (joined_heap h k p l p) (joined_payload p) r, tt);
        total = joined_total;
      }
