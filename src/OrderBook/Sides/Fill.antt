-- ===== src/OrderBook/Sides/Fill.antt =====
-- One trade, seen from the order that is filled and from the level of the maker.
use hft_order_book_simulator.Common.{
  ℕ, ◌+◌, ◌-◌, ◌%◌, ◌^◌, ◌≤◌, ◌<◌, ◌≡◌, refl, sym, ap, ◌∙◌, subst, true, false, none, List, [], ◌∷◌,
  ◌==◌, if◌then◌else◌, arith, ◌∈◌, ◌∉◌,
}
use hft_order_book_simulator.Common.Words.{sub32}
use hft_order_book_simulator.Types.{Order, Ptr, Price, Side, filled, remaining, is_active}
use hft_order_book_simulator.PriceLevel
use hft_order_book_simulator.PriceLevel.{PriceLevel, Heap, modify}
use hft_order_book_simulator.PriceLevel.Links.{Links-frame}
use hft_order_book_simulator.PriceLevel.Queue.{IsQueue, ne_of_not_mem}
use hft_order_book_simulator.PriceLevel.Removal.{
  remove-IsQueue, Removes, remove-Removes, total-remove,
}
use hft_order_book_simulator.OrderBook.{fill}
use hft_order_book_simulator.OrderBook.Effects.{traded_heap}
use hft_order_book_simulator.OrderBook.Sides.{
  LevelOk, sum_remaining, remaining-sub, SameOrders, All-Resting-frame, sum_remaining-frame,
}

-- What `execute_trade` makes of one of the two orders.
pub record Filled (qty : ℕ) (o o' : Order) : Type 0 where
  pub side : o'.side ≡ o.side
  pub price : o'.price ≡ o.price
  pub quantity : o'.quantity ≡ o.quantity
  pub filled_qty : o'.filled_qty ≡ o.filled_qty + qty
  pub rest : remaining o' ≡ o.quantity - o.filled_qty - qty
  pub active : is_active o' ≡ (if o.quantity - o.filled_qty - qty == 0 then false else true)

fill-side : (qty : ℕ) (o : Order) → (fill qty o).side ≡ o.side
unfolding fill
fill-side qty o = refl

fill-price : (qty : ℕ) (o : Order) → (fill qty o).price ≡ o.price
unfolding fill
fill-price qty o = refl

fill-quantity : (qty : ℕ) (o : Order) → (fill qty o).quantity ≡ o.quantity
unfolding fill
fill-quantity qty o = refl

-- The fill, with what remains named `rest`.
fill-rest :
    (qty : ℕ) (o : Order)
    → o.filled_qty + qty ≤ o.quantity
    → o.quantity < 2 ^ 32
    → ((fill qty o).filled_qty ≡ o.filled_qty + qty)
      × (remaining (fill qty o) ≡ o.quantity - o.filled_qty - qty)
unfolding fill remaining
fill-rest qty o h k = (omega arith, omega arith)

fill-status :
    (qty : ℕ) (o : Order)
    → is_active (fill qty o) ≡ (if remaining (fill qty o) == 0 then false else true)
unfolding fill is_active
fill-status qty o = ground arith

pub fill-Filled :
    (qty : ℕ) (o : Order)
    → o.filled_qty + qty ≤ o.quantity
    → o.quantity < 2 ^ 32
    → Filled qty o (fill qty o)
fill-Filled qty o h k =
    let (whole, rest) = fill-rest qty o h k in
    record {
      side = fill-side qty o;
      price = fill-price qty o;
      quantity = fill-quantity qty o;
      filled_qty = whole;
      rest = rest;
      active = fill-status qty o ∙ ap (λ (n : ℕ). if n == 0 then false else true) rest;
    }

total_falls :
    (total qty r rest r' rest' : ℕ)
    → total ≡ (r + rest) % 2 ^ 32
    → r ≡ r' + qty
    → rest' ≡ rest
    → sub32 total qty ≡ (r' + rest') % 2 ^ 32
unfolding sub32
total_falls total qty r rest r' rest' e f g = omega arith

total_gone :
    (total qty left r rest rest' : ℕ)
    → total ≡ (r + rest) % 2 ^ 32
    → r ≡ qty
    → left ≡ 0
    → rest' ≡ rest
    → sub32 (sub32 total qty) left ≡ rest' % 2 ^ 32
unfolding sub32
total_gone total qty left r rest rest' e f z g = omega arith

modify-ne :
    (h : Heap) (p : Ptr) (f : Order → Order) (a : Ptr) → (p == a) ≡ false → modify h p f a ≡ h a
modify-ne h p f a e = rw e

pub traded_taker :
    (h : Heap) (p t : Ptr) (qty : ℕ) → (p == t) ≡ false → traded_heap h p t qty t ≡ fill qty (h t)
traded_taker h p t qty e = ground arith

-- The maker gives way to the order behind it when it is filled completely.
module _ (s : Side) (h : Heap) (k : Price) (l : PriceLevel) (p : Ptr) (ps : List Ptr) (t : Ptr)
    (qty : ℕ) (v : LevelOk s h k l (p ∷ ps)) (out : t ∉ p ∷ ps) where
  -- The memory and the level after the trade, before anything is removed.
  abbrev pub h₁ : Heap
  h₁ = traded_heap h p t qty

  abbrev pub l₁ : PriceLevel
  l₁ = record l { total_qty = sub32 l.total_qty qty }

  traded_maker : h₁ p ≡ fill qty (h p)
  traded_maker = ground arith

  pub traded_outside : (a : Ptr) → a ∉ p ∷ ps → (t == a) ≡ false → h₁ a ≡ h a
  traded_outside a e f = ground arith

  traded_behind : (a : Ptr) → a ∈ ps → h₁ a ≡ h a
  traded_behind a i =
      let e : (t == a) ≡ false = ne_of_not_mem t a (p ∷ ps) out (ground arith) in
      let f : (p == a) ≡ false = ne_of_not_mem p a ps v.queue.distinct.0 i in rw (e, f) refl

  traded_links : (a : Ptr) → ((h₁ a).prev ≡ (h a).prev) × ((h₁ a).next ≡ (h a).next)
  unfolding fill
  traded_links a = ground arith

  pub traded-IsQueue : IsQueue h₁ l₁ (p ∷ ps)
  traded-IsQueue = record {
    head = v.queue.head;
    tail = v.queue.tail;
    links = Links-frame h h₁ none (p ∷ ps) none (λ a i. traded_links a) v.queue.links;
    distinct = v.queue.distinct;
    count = v.queue.count;
  }

  pub maker-Filled : qty ≤ (h p).quantity - (h p).filled_qty → Filled qty (h p) (h₁ p)
  maker-Filled le =
      subst (Filled qty (h p)) (sym traded_maker)
        (fill-Filled qty (h p) (omega (arith, v.orders.0.open_qty)) v.orders.0.fits)

  -- Something remains of the maker: it keeps its place.
  pub stays : qty < (h p).quantity - (h p).filled_qty → LevelOk s h₁ k l₁ (p ∷ ps)
  stays lt =
      let f = maker-Filled (omega arith) in
      let r = v.orders.0 in
      let rest : sum_remaining h₁ ps ≡ sum_remaining h ps = sum_remaining-frame h h₁ ps behind in
      record {
        queue = traded-IsQueue;
        price = v.price;
        orders = (
          record {
            side = f.side ∙ r.side;
            price = f.price ∙ r.price;
            positive = r.positive;
            active = f.active ∙ ground arith;
            open_qty = omega (arith, f.filled_qty, f.quantity);
            fits = omega (arith, f.quantity, r.fits);
          },
          All-Resting-frame s k h h₁ ps behind v.orders.1,
        );
        total =
            total_falls l.total_qty qty (remaining (h p)) (sum_remaining h ps) (remaining (h₁ p))
              (sum_remaining h₁ ps) v.total
              (omega (arith, f.rest, remaining-sub (h p) (omega (arith, r.open_qty)) r.fits)) rest;
      }
    where
      behind : SameOrders ps h h₁
      behind a i = rw (traded_behind a i) refl

  -- The memory and the level after a filled maker has been taken out.
  abbrev pub h₂ : Heap
  h₂ = modify (PriceLevel.remove h₁ l₁ p).0 p (λ o. record o { status = filled })

  abbrev pub l₂ : PriceLevel
  l₂ = (PriceLevel.remove h₁ l₁ p).1

  removes : Removes h₁ l₁ p (p ∷ ps)
  removes = remove-Removes h₁ l₁ [] ps p traded-IsQueue

  pub gone_outside : (a : Ptr) → a ∉ p ∷ ps → h₂ a ≡ h₁ a
  gone_outside a e =
      let f : (p == a) ≡ false = ground arith in
      modify-ne (PriceLevel.remove h₁ l₁ p).0 p (λ o. record o { status = filled }) a f
      ∙ removes.outside a e

  gone_orders : SameOrders ps h h₂
  gone_orders a i =
      let f : (p == a) ≡ false = ne_of_not_mem p a ps v.queue.distinct.0 i in
      rw f (
        subst
          (λ o. (PriceLevel.remove h₁ l₁ p).0 a ≡ record o {
            prev = ((PriceLevel.remove h₁ l₁ p).0 a).prev;
            next = ((PriceLevel.remove h₁ l₁ p).0 a).next;
          })
          (traded_behind a i) (removes.payload a))

  pub gone : qty ≡ (h p).quantity - (h p).filled_qty → LevelOk s h₂ k l₂ ps
  gone all_of_it =
      let f = maker-Filled (omega arith) in
      let r = v.orders.0 in
      let q = remove-IsQueue h₁ l₁ [] ps p traded-IsQueue in
      let t = total-remove h₁ l₁ [] ps p traded-IsQueue in
      record {
        queue = record {
          head = q.head;
          tail = q.tail;
          links = Links-frame (PriceLevel.remove h₁ l₁ p).0 h₂ none ps none unlinked q.links;
          distinct = q.distinct;
          count = q.count;
        };
        price = t.1 ∙ v.price;
        orders = All-Resting-frame s k h h₂ ps gone_orders v.orders.1;
        total =
            t.0
            ∙ total_gone l.total_qty qty (remaining (h₁ p)) (remaining (h p)) (sum_remaining h ps)
                (sum_remaining h₂ ps) v.total
                (omega (arith, remaining-sub (h p) (omega (arith, r.open_qty)) r.fits))
                (omega (arith, f.rest)) (sum_remaining-frame h h₂ ps gone_orders);
      }
    where
      unlinked :
          (a : Ptr)
          → a ∈ ps
          → ((h₂ a).prev ≡ ((PriceLevel.remove h₁ l₁ p).0 a).prev)
            × ((h₂ a).next ≡ ((PriceLevel.remove h₁ l₁ p).0 a).next)
      unlinked a i =
          let f : (p == a) ≡ false = ne_of_not_mem p a ps v.queue.distinct.0 i in (rw f, rw f)

  pub sum_behind : sum_remaining h₁ ps ≡ sum_remaining h ps
  sum_behind = sum_remaining-frame h h₁ ps (λ a i. rw (traded_behind a i) refl)

  pub sum_gone : sum_remaining h₂ ps ≡ sum_remaining h ps
  sum_gone = sum_remaining-frame h h₂ ps gone_orders
