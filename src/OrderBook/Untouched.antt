-- ===== src/OrderBook/Untouched.antt =====
-- The steps of the engine that leave the map of the orders, the free list and the ids as they are.
use mathlib.Core.Path.{fun_ext}
use hft_order_book_simulator.Common.{
  ◌≡◌, refl, ap, ◌∙◌, arith, Bool, true, false, none, some, [], ◌∷◌, if◌then◌else◌,
}
use hft_order_book_simulator.Common.Words.{add64}
use hft_order_book_simulator.Types.{
  Order, Ptr, Price, Quantity, Side, bid, ask, OrderStatus, OrderId,
}
use hft_order_book_simulator.PriceLevel
use hft_order_book_simulator.PriceLevel.{PriceLevel, Heap, modify, default_level}
use hft_order_book_simulator.PriceLevel.Queue.{SamePayload}
use hft_order_book_simulator.PriceLevel.Payload.{remove-SamePayload, push_back-SamePayload}
use hft_order_book_simulator.Containers.{find, at_or_insert}
use hft_order_book_simulator.OrderBook.{
  OrderBook, Levels, heap, with_heap, levels, with_levels, before, execute_trade, report_trade,
  reduce_total, rest_order, put_level, erase_level, remove_from_book, publish_market_data, fill,
}
use hft_order_book_simulator.OrderBook.Matching.{
  set_status, remove_from_front, erase_front_if_empty,
}
use hft_order_book_simulator.OrderBook.Api.{set_quantity}
use hft_order_book_simulator.OrderBook.Keyed.{Keys, keys, SameKeys}

SameKeys-if :
    (c : Bool) (b x y : OrderBook) → SameKeys b x → SameKeys b y → SameKeys b (if c then x else y)
SameKeys-if true b x y e f = e
SameKeys-if false b x y e f = f

-- A new memory with the same ids.
with_heap-SameKeys :
    (b : OrderBook) (h : Heap) → ((a : Ptr) → (h a).id ≡ (heap b a).id) → SameKeys b (with_heap b h)
with_heap-SameKeys b h e =
    ap
      (λ (f : Ptr → OrderId).
        let k : Keys = (
          f, b.order_map, b.pool.next, b.pool.free_head, b.pool.allocated, b.pool.capacity,
          b.id_counter,
        ) in
        k)
      (fun_ext e)

with_levels-SameKeys : (s : Side) (b : OrderBook) (m : Levels) → SameKeys b (with_levels s b m)
with_levels-SameKeys bid b m = refl
with_levels-SameKeys ask b m = refl

modify-id :
    (h : Heap) (p : Ptr) (f : Order → Order)
    → ((o : Order) → (f o).id ≡ o.id)
    → (a : Ptr) → (modify h p f a).id ≡ (h a).id
modify-id h p f e a = ground (arith, e (h a))

payload-id : (h g : Heap) → SamePayload h g → (a : Ptr) → (g a).id ≡ (h a).id
payload-id h g e a = ap (λ (o : Order). o.id) (e a)

fill-id : (qty : Quantity) (o : Order) → (fill qty o).id ≡ o.id
unfolding fill
fill-id qty o = refl

pub publish-SameKeys : (b : OrderBook) → SameKeys b (publish_market_data b)
unfolding publish_market_data
publish-SameKeys b = SameKeys-if b.on_market_data b _ _ refl refl

pub set_status-SameKeys :
    (p : Ptr) (st : OrderStatus) (b : OrderBook) → SameKeys b (set_status p st b)
set_status-SameKeys p st b =
    with_heap-SameKeys b (modify (heap b) p λ o. record o { status = st })
      (modify-id (heap b) p (λ o. record o { status = st }) (λ o. refl))

pub set_quantity-SameKeys :
    (p : Ptr) (qty : Quantity) (b : OrderBook) → SameKeys b (set_quantity p qty b)
set_quantity-SameKeys p qty b =
    with_heap-SameKeys b (modify (heap b) p λ o. record o { quantity = qty })
      (modify-id (heap b) p (λ o. record o { quantity = qty }) (λ o. refl))

report_trade-SameKeys :
    (maker taker : Ptr) (px : Price) (qty : Quantity) (b : OrderBook)
    → SameKeys b (report_trade maker taker px qty b)
unfolding report_trade
report_trade-SameKeys maker taker px qty b = SameKeys-if b.on_trade b _ _ refl refl

pub reduce_total-SameKeys :
    (s : Side) (px : Price) (qty : Quantity) (b : OrderBook) → SameKeys b (reduce_total s px qty b)
unfolding reduce_total
reduce_total-SameKeys s px qty b = with_levels-SameKeys s b _

pub execute_trade-SameKeys :
    (maker taker : Ptr) (px : Price) (qty : Quantity) (b : OrderBook)
    → SameKeys b (execute_trade maker taker px qty b)
unfolding execute_trade
execute_trade-SameKeys maker taker px qty b =
    let g = modify (modify (heap b) maker (fill qty)) taker (fill qty) in
    let b₁ = with_heap b g in
    let x = with_heap-SameKeys b g (λ a.
      modify-id (modify (heap b) maker (fill qty)) taker (fill qty) (fill-id qty) a
      ∙ modify-id (heap b) maker (fill qty) (fill-id qty) a) in
    let y = reduce_total-SameKeys (heap b₁ maker).side (heap b₁ maker).price qty b₁ in
    let b₂ = reduce_total (heap b₁ maker).side (heap b₁ maker).price qty b₁ in
    let b₃ : OrderBook = record b₂ {
      last_trade_px = px;
      last_trade_qty = qty;
      stats = record b₂.stats {
        total_trades = add64 b₂.stats.total_trades 1;
        total_volume = add64 b₂.stats.total_volume qty;
      };
    } in
    report_trade-SameKeys maker taker px qty b₃ ∙ y ∙ x

pub remove_from_front-SameKeys :
    (s : Side) (p : Ptr) (b : OrderBook) → SameKeys b (remove_from_front s p b)
unfolding remove_from_front
remove_from_front-SameKeys s p b =
    elim (levels s b)
      as (λ m.
        keys (elim m as (λ z. OrderBook) [
          | [] ↦ b
          | (k, l) ∷ m ↦
              let (h, l') = PriceLevel.remove (heap b) l p in
              with_levels s (with_heap b h) ((k, l') ∷ m)
        ])
        ≡ keys b) [
          | [] ↦ refl
          | (k, l) ∷ m ↦
              with_levels-SameKeys s (with_heap b (PriceLevel.remove (heap b) l p).0)
                ((k, (PriceLevel.remove (heap b) l p).1) ∷ m)
              ∙ with_heap-SameKeys b (PriceLevel.remove (heap b) l p).0 (
                  payload-id (heap b) (PriceLevel.remove (heap b) l p).0
                    (remove-SamePayload (heap b) l p))
        ]

pub erase_front-SameKeys : (s : Side) (b : OrderBook) → SameKeys b (erase_front_if_empty s b)
unfolding erase_front_if_empty
erase_front-SameKeys s b =
    elim (levels s b)
      as (λ m.
        keys (elim m as (λ z. OrderBook) [
          | [] ↦ b
          | (k, l) ∷ m ↦ if PriceLevel.empty l then with_levels s b m else b
        ])
        ≡ keys b) [
          | [] ↦ refl
          | (k, l) ∷ m ↦ SameKeys-if (PriceLevel.empty l) b _ _ (with_levels-SameKeys s b m) refl
        ]

pub rest_order-SameKeys : (p : Ptr) (b : OrderBook) → SameKeys b (rest_order p b)
unfolding rest_order
rest_order-SameKeys p b =
    let s = (heap b p).side in
    let found : PriceLevel =
      (at_or_insert (before s) (heap b p).price default_level (levels s b)).0 in
    let l : PriceLevel = record found { price = (heap b p).price } in
    let h = (PriceLevel.push_back (heap b) l p).0 in
    with_levels-SameKeys s (with_heap b h) _
    ∙ with_heap-SameKeys b h (payload-id (heap b) h (push_back-SamePayload (heap b) l p))

pub remove_from_book-SameKeys : (p : Ptr) (b : OrderBook) → SameKeys b (remove_from_book p b)
unfolding remove_from_book put_level erase_level
remove_from_book-SameKeys p b =
    let s = (heap b p).side in
    let k = (heap b p).price in
    elim (find (before s) k (levels s b))
      as (λ c.
        keys (elim c as (λ z. OrderBook) [
          | none ↦ b
          | some l ↦
              let (h, l') = PriceLevel.remove (heap b) l p in
              let b' = put_level s k l' (with_heap b h) in
              if PriceLevel.empty l' then erase_level s k b' else b'
        ])
        ≡ keys b) [
          | none ↦ refl
          | some l ↦
              let (h, l') = PriceLevel.remove (heap b) l p in
              let b' = put_level s k l' (with_heap b h) in
              let kept : keys b' ≡ keys b =
                with_levels-SameKeys s (with_heap b h) _
                ∙ with_heap-SameKeys b h
                    (payload-id (heap b) h (remove-SamePayload (heap b) l p)) in
              SameKeys-if (PriceLevel.empty l') b _ _ (with_levels-SameKeys s b' _ ∙ kept) kept
        ]
