-- ===== src/OrderBook/Ledger.antt =====
-- The counters and the callbacks of a book, and what the steps of the matching loops do to them.
use hft_order_book_simulator.Common.{
  suc, ◌≡◌, refl, ap, ◌∙◌, Bool, true, false, List, [], ◌∷◌, ◌==◌, if◌then◌else◌, arith,
}
use hft_order_book_simulator.Common.Words.{add64}
use hft_order_book_simulator.Types.{Order, Ptr, Price, Quantity, Side, bid, ask, Trade}
use hft_order_book_simulator.PriceLevel
use hft_order_book_simulator.PriceLevel.{PriceLevel, Heap, modify}
use hft_order_book_simulator.PriceLevel.Payload.{remove-SamePayload}
use hft_order_book_simulator.OrderBook.{
  OrderBook, Levels, Event, traded, Stats, heap, with_heap, levels, with_levels, execute_trade,
  report_trade, reduce_total, fill,
}
use hft_order_book_simulator.OrderBook.Matching.{
  remove_from_front, erase_front_if_empty, retire, forget,
}
use hft_order_book_simulator.OrderBook.Effects.{traded_heap, execute_trade-Effect, execute_at}
use hft_order_book_simulator.OrderBook.Sides.Fill.{traded_taker}

-- What a book notes of its trades.
abbrev pub Ledger : Type 0
Ledger = Stats × List Event × Bool × Price × Quantity

abbrev pub ledger : OrderBook → Ledger
ledger b = (b.stats, b.events, b.on_trade, b.last_trade_px, b.last_trade_qty)

-- The ledger after a trade.
unfoldable pub with_trade : Trade → Ledger → Ledger
unfolding add64
with_trade tr (stats, events, on, px, qty) = (
  record stats {
    total_trades = add64 stats.total_trades 1;
    total_volume = add64 stats.total_volume tr.quantity;
  },
  if on then traded tr ∷ events else events,
  on,
  tr.price,
  tr.quantity,
)

-- The trade between `maker` and `taker`, as it is reported.
abbrev pub trade_of : Ptr → Ptr → Price → Quantity → OrderBook → Trade
trade_of maker taker px qty b = record {
  maker_order_id = (heap b maker).id;
  taker_order_id = (heap b taker).id;
  price = px;
  quantity = qty;
  timestamp = b.clock b.now_calls;
}

traded_heap-id :
    (h : Heap) (maker taker : Ptr) (qty : Quantity) (a : Ptr)
    → (traded_heap h maker taker qty a).id ≡ (h a).id
unfolding fill
traded_heap-id h maker taker qty a = ground arith

report_trade-ledger :
    (maker taker : Ptr) (px : Price) (qty : Quantity) (b : OrderBook)
    → ledger (report_trade maker taker px qty b) ≡ (
      b.stats,
      (if b.on_trade then traded (trade_of maker taker px qty b) ∷ b.events else b.events),
      b.on_trade,
      b.last_trade_px,
      b.last_trade_qty,
    )
unfolding report_trade
report_trade-ledger maker taker px qty b =
    let tr = trade_of maker taker px qty b in
    elim b.on_trade
      as (λ c.
        ledger
          (if c then record b { now_calls = suc b.now_calls; events = traded tr ∷ b.events } else b)
        ≡ (
          b.stats,
          (if c then traded tr ∷ b.events else b.events),
          b.on_trade,
          b.last_trade_px,
          b.last_trade_qty,
        )) [ true ↦ refl | false ↦ refl ]

-- A fill does not change an id, so the trade may be read off the orders as they were.
ids_kept :
    (maker taker : Ptr) (px : Price) (qty : Quantity) (b : OrderBook)
    → with_trade
        (trade_of maker taker px qty (with_heap b (traded_heap (heap b) maker taker qty)))
        (ledger b)
      ≡ with_trade (trade_of maker taker px qty b) (ledger b)
ids_kept maker taker px qty b =
    let id = traded_heap-id (heap b) maker taker qty in rw (id maker, id taker) refl

execute_at-ledger :
    (s : Side) (k : Price) (maker taker : Ptr) (px : Price) (qty : Quantity) (b : OrderBook)
    → ledger (execute_at s k maker taker px qty b)
      ≡ with_trade (trade_of maker taker px qty b) (ledger b)
unfolding execute_at with_trade reduce_total
execute_at-ledger bid k maker taker px qty b =
    report_trade-ledger maker taker px qty _ ∙ ids_kept maker taker px qty b
execute_at-ledger ask k maker taker px qty b =
    report_trade-ledger maker taker px qty _ ∙ ids_kept maker taker px qty b

pub execute_trade-ledger :
    (maker taker : Ptr) (px : Price) (qty : Quantity) (b : OrderBook)
    → ledger (execute_trade maker taker px qty b)
      ≡ with_trade (trade_of maker taker px qty b) (ledger b)
unfolding execute_trade execute_at
execute_trade-ledger maker taker px qty b =
    let o : Order = traded_heap (heap b) maker taker qty maker in
    execute_at-ledger o.side o.price maker taker px qty b

pub execute_trade-taker :
    (maker taker : Ptr) (px : Price) (qty : Quantity) (b : OrderBook)
    → (maker == taker) ≡ false
    → heap (execute_trade maker taker px qty b) taker ≡ fill qty (heap b taker)
execute_trade-taker maker taker px qty b ne =
    let E =
      execute_trade-Effect (traded_heap (heap b) maker taker qty maker).side
        (traded_heap (heap b) maker taker qty maker).price maker taker px qty b refl refl in
    ap (λ (h : Heap). h taker) E.memory ∙ traded_taker (heap b) maker taker qty ne

-- What a removal from the side leaves of the ledger and of the order `t`: all but its links.
pub record Quiet (t : Ptr) (b b' : OrderBook) : Type 0 where
  pub ledger_same : ledger b' ≡ ledger b
  pub order : heap b' t ≡ record (heap b t) { prev = (heap b' t).prev; next = (heap b' t).next }

pub with_levels-ledger :
    (s : Side) (b : OrderBook) (m : Levels) → ledger (with_levels s b m) ≡ ledger b
with_levels-ledger bid b m = refl
with_levels-ledger ask b m = refl

with_levels-heap : (s : Side) (b : OrderBook) (m : Levels) → heap (with_levels s b m) ≡ heap b
with_levels-heap bid b m = refl
with_levels-heap ask b m = refl

with_levels-Quiet :
    (s : Side) (t : Ptr) (b : OrderBook) (m : Levels) → Quiet t b (with_levels s b m)
with_levels-Quiet bid t b m = record { ledger_same = refl; order = refl }
with_levels-Quiet ask t b m = record { ledger_same = refl; order = refl }

Quiet-trans : (t : Ptr) (b b' b'' : OrderBook) → Quiet t b b' → Quiet t b' b'' → Quiet t b b''
Quiet-trans t b b' b'' x y = record {
  ledger_same = y.ledger_same ∙ x.ledger_same;
  order =
      y.order
      ∙ ap (λ (o : Order). record o { prev = (heap b'' t).prev; next = (heap b'' t).next }) x.order;
}

pub erase_front-Quiet : (s : Side) (t : Ptr) (b : OrderBook) → Quiet t b (erase_front_if_empty s b)
unfolding erase_front_if_empty
erase_front-Quiet s t b =
    elim (levels s b)
      as (λ m. Quiet t b (elim m as (λ z. OrderBook) [
        | [] ↦ b
        | (k, l) ∷ m ↦ if PriceLevel.empty l then with_levels s b m else b
      ])) [
        | [] ↦ still
        | (k, l) ∷ m ↦
            elim (PriceLevel.empty l) as (λ c. Quiet t b (if c then with_levels s b m else b)) [
              | true ↦ with_levels-Quiet s t b m
              | false ↦ still
            ]
      ]
  where
    still : Quiet t b b
    still = record { ledger_same = refl; order = refl }

pub remove_from_front-Quiet :
    (s : Side) (p t : Ptr) (b : OrderBook) → Quiet t b (remove_from_front s p b)
unfolding remove_from_front
remove_from_front-Quiet s p t b =
    elim (levels s b)
      as (λ m. Quiet t b (elim m as (λ z. OrderBook) [
        | [] ↦ b
        | (k, l) ∷ m ↦
            let (h, l') = PriceLevel.remove (heap b) l p in
            with_levels s (with_heap b h) ((k, l') ∷ m)
      ])) [
        | [] ↦ record { ledger_same = refl; order = refl }
        | (k, l) ∷ m ↦
            let b₁ = with_heap b (PriceLevel.remove (heap b) l p).0 in
            Quiet-trans t b b₁ _
              (record { ledger_same = refl; order = remove-SamePayload (heap b) l p t })
              (with_levels-Quiet s t b₁ _)
      ]

pub retire-Quiet :
    (s : Side) (p t : Ptr) (b : OrderBook) → (p == t) ≡ false → Quiet t b (retire s p b)
unfolding retire forget
retire-Quiet s p t b ne =
    Quiet-trans t b (remove_from_front s p b) (retire s p b) (remove_from_front-Quiet s p t b)
      (record { ledger_same = refl; order = ground (arith, ne) })
