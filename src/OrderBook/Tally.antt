-- ===== src/OrderBook/Tally.antt =====
-- The counters of a book and the calls of its trade callback, over any number of calls. main.cpp counts what its callback
-- is called with.
use hft_order_book_simulator.Common.{
  ℕ, suc, ◌+◌, ◌%◌, ◌^◌, ◌≡◌, refl, sym, ap, ◌∙◌, subst, Bool, true, false, some, List, [], ◌∷◌,
  if◌then◌else◌, arith, inl, inr,
}
use hft_order_book_simulator.Common.Words.{add64}
use hft_order_book_simulator.Types.{Order, Ptr, OrderId, Timestamp, cancelled, Trade}
use hft_order_book_simulator.MemoryPool
use hft_order_book_simulator.MemoryPool.{MemoryPool}
use hft_order_book_simulator.Containers.{drop_key}
use hft_order_book_simulator.OrderBook.{
  OrderBook, Event, traded, ticked, construct_over, remove_from_book,
}
use hft_order_book_simulator.OrderBook.Matching.{set_status}
use hft_order_book_simulator.OrderBook.Api.{add_order, withdraw, cancel_order, amend_order}
use hft_order_book_simulator.OrderBook.Ledger.{Ledger, ledger, with_trade}
use hft_order_book_simulator.OrderBook.Cancel.{cancel-cases}
use hft_order_book_simulator.OrderBook.Keeping.{
  publish_keeps, remove_from_book_keeps, add_order_keeps, amend_order_keeps,
}
use hft_order_book_simulator.OrderBook.Queries.{total_trades, total_volume, orders_cancelled}
use hft_order_book_simulator.OrderBook.Session.{Call, add, cancel, amend, call, run}

abbrev pub trades_in : List Event → ℕ
trades_in [] = 0
trades_in (traded t ∷ es) = suc (trades_in es)
trades_in (ticked t ∷ es) = trades_in es

abbrev pub volume_in : List Event → ℕ
volume_in [] = 0
volume_in (traded t ∷ es) = t.quantity + volume_in es
volume_in (ticked t ∷ es) = volume_in es

-- The callback is set, and the counters have what it was called with.
abbrev pub Tallied : Ledger → Type 0
Tallied (stats, events, on, px, qty) =
    (on ≡ true)
    × (stats.total_trades ≡ trades_in events % 2 ^ 64)
    × (stats.total_volume ≡ volume_in events % 2 ^ 64)

with_trade-Tallied : (tr : Trade) (l : Ledger) → Tallied l → Tallied (with_trade tr l)
unfolding with_trade add64
with_trade-Tallied tr l h = rw (h.0) (refl, omega (arith, h.1), omega (arith, h.2))

withdraw-Tallied :
    (id : OrderId) (p : Ptr) (b : OrderBook)
    → Tallied (ledger b)
    → Tallied (ledger (withdraw id p b))
unfolding withdraw
withdraw-Tallied id p b h =
    let b₁ = set_status p cancelled (remove_from_book p b) in
    publish_keeps Tallied with_trade-Tallied (λ x l k. k) (λ n l k. k)
      (record b₁ {
        order_map = drop_key id b₁.order_map;
        stats = record b₁.stats { orders_cancelled = add64 b₁.stats.orders_cancelled 1 };
        pool = MemoryPool.deallocate (some p) b₁.pool;
      })
      (remove_from_book_keeps Tallied with_trade-Tallied (λ x l k. k) (λ n l k. k) p b h)

pub call-Tallied : (c : Call) (b : OrderBook) → Tallied (ledger b) → Tallied (ledger (call c b))
call-Tallied (add side type price quantity) b h =
    add_order_keeps Tallied with_trade-Tallied (λ x l k. k) (λ n l k. k) side type price quantity b
      h
call-Tallied (cancel id) b h = elim (cancel-cases id b) [
  | inl refused ↦ subst (λ (r : Bool × OrderBook). Tallied (ledger r.1)) (sym refused) h
  | inr (p, e, busy, done) ↦
      subst (λ (r : Bool × OrderBook). Tallied (ledger r.1)) (sym done) (withdraw-Tallied id p b h)
]
call-Tallied (amend id new_qty) b h =
    amend_order_keeps Tallied with_trade-Tallied (λ x l k. k) (λ n l k. k) id new_qty b h

run-Tallied : (cs : List Call) (b : OrderBook) → Tallied (ledger b) → Tallied (ledger (run cs b))
run-Tallied [] b h = h
run-Tallied (c ∷ cs) b h = run-Tallied cs (call c b) (call-Tallied c b h)

-- After any calls of `add_order`, `cancel_order` and `amend_order` from the construction of a book with a trade callback
-- on, with any pool and any arguments, `total_trades` is the number of times the callback was called, and `total_volume`
-- the sum of the quantities that it was called with, both modulo 2 ^ 64.
pub tally_lem :
    (pool : MemoryPool Order) (on_market_data : Bool) (clock : ℕ → Timestamp) (cs : List Call)
    → let b = run cs (construct_over pool true on_market_data clock) in
      (total_trades b ≡ trades_in b.events % 2 ^ 64)
      × (total_volume b ≡ volume_in b.events % 2 ^ 64)
unfolding construct_over
tally_lem pool on_market_data clock cs =
    let h = run-Tallied cs (construct_over pool true on_market_data clock) (refl, refl, refl) in
    (h.1, h.2)

-- Whether a call is a `cancel_order` that answers true.
abbrev cancels : Call → OrderBook → Bool
cancels (cancel id) b = (cancel_order id b).0
cancels _ b = false

-- The calls of a run that do.
abbrev pub cancelled_in : List Call → OrderBook → ℕ
cancelled_in [] b = 0
cancelled_in (c ∷ cs) b = (if cancels c b then 1 else 0) + cancelled_in cs (call c b)

abbrev Cancelled : ℕ → Ledger → Type 0
Cancelled n l = l.0.orders_cancelled ≡ n % 2 ^ 64

with_trade-Cancelled :
    (n : ℕ) (tr : Trade) (l : Ledger) → Cancelled n l → Cancelled n (with_trade tr l)
unfolding with_trade
with_trade-Cancelled n tr l h = h

withdraw-Cancelled :
    (n : ℕ) (id : OrderId) (p : Ptr) (b : OrderBook)
    → Cancelled n (ledger b)
    → Cancelled (1 + n) (ledger (withdraw id p b))
unfolding withdraw add64
withdraw-Cancelled n id p b h =
    let b₁ = set_status p cancelled (remove_from_book p b) in
    let k =
      remove_from_book_keeps (Cancelled n) (with_trade-Cancelled n) (λ x l k. k) (λ i l k. k) p b
        h in
    publish_keeps (Cancelled (1 + n)) (with_trade-Cancelled (1 + n)) (λ x l k. k) (λ i l k. k)
      (record b₁ {
        order_map = drop_key id b₁.order_map;
        stats = record b₁.stats { orders_cancelled = add64 b₁.stats.orders_cancelled 1 };
        pool = MemoryPool.deallocate (some p) b₁.pool;
      })
      (omega (arith, k))

call-Cancelled :
    (c : Call) (n : ℕ) (b : OrderBook)
    → Cancelled n (ledger b)
    → Cancelled ((if cancels c b then 1 else 0) + n) (ledger (call c b))
call-Cancelled (add side type price quantity) n b h =
    subst (λ k. Cancelled k (ledger (add_order side type price quantity b).1)) (omega arith)
      (add_order_keeps (Cancelled n) (with_trade-Cancelled n) (λ x l k. k) (λ i l k. k) side type
        price quantity b h)
call-Cancelled (cancel id) n b h = elim (cancel-cases id b) [
  | inl refused ↦
      subst (λ (r : Bool × OrderBook). Cancelled ((if r.0 then 1 else 0) + n) (ledger r.1))
        (sym refused) (subst (λ k. Cancelled k (ledger b)) (omega arith) h)
  | inr (p, e, busy, done) ↦
      subst (λ (r : Bool × OrderBook). Cancelled ((if r.0 then 1 else 0) + n) (ledger r.1))
        (sym done) (withdraw-Cancelled n id p b h)
]
call-Cancelled (amend id new_qty) n b h =
    subst (λ k. Cancelled k (ledger (amend_order id new_qty b).1)) (omega arith)
      (amend_order_keeps (Cancelled n) (with_trade-Cancelled n) (λ x l k. k) (λ i l k. k) id new_qty
        b h)

run-Cancelled :
    (cs : List Call) (n : ℕ) (b : OrderBook)
    → Cancelled n (ledger b)
    → Cancelled (n + cancelled_in cs b) (ledger (run cs b))
run-Cancelled [] n b h = subst (λ k. Cancelled k (ledger b)) (omega arith) h
run-Cancelled (c ∷ cs) n b h =
    let one : ℕ = if cancels c b then 1 else 0 in
    subst (λ k. Cancelled k (ledger (run cs (call c b)))) (omega arith)
      (run-Cancelled cs (one + n) (call c b) (call-Cancelled c n b h))

-- After any calls of `add_order`, `cancel_order` and `amend_order` from the construction of a book on, with any pool,
-- any callbacks and any arguments, `orders_cancelled` is the number of the calls of `cancel_order` that answered true,
-- modulo 2 ^ 64: what is cancelled by the matching engine or refused is not counted.
pub cancelled_lem :
    (pool : MemoryPool Order) (on_trade on_market_data : Bool) (clock : ℕ → Timestamp)
    (cs : List Call)
    → let b = construct_over pool on_trade on_market_data clock in
      orders_cancelled (run cs b) ≡ cancelled_in cs b % 2 ^ 64
unfolding construct_over
cancelled_lem pool on_trade on_market_data clock cs =
    let b = construct_over pool on_trade on_market_data clock in
    run-Cancelled cs 0 b refl ∙ ap (λ (k : ℕ). k % 2 ^ 64) (omega arith)
