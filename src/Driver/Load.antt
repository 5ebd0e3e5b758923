-- ===== src/Driver/Load.antt =====
-- main.cpp, `test_simulation_under_load`: the book through any number of rounds.
use hft_order_book_simulator.Common.{
  ℕ, zero, suc, ◌+◌, ◌%◌, ◌^◌, ◌≤◌, ◌<◌, ◌≡◌, refl, ◌∙◌, subst, Bool, true, false, not, ◌&&◌, some,
  List, [], ◌∷◌, ◌==◌, length, length-append, get_elem?, erase_at, arith, Bool-cases, inl, inr,
}
use hft_order_book_simulator.Common.Int.{◌+ℤ◌, ◌-ℤ◌}
use hft_order_book_simulator.Types.{Order, Timestamp}
use hft_order_book_simulator.LatencyTimer
use hft_order_book_simulator.LatencyTimer.{LatencyTimer, record_since, record_ns, ◌>>=◌}
use hft_order_book_simulator.OrderBook.Queries.{total_trades, total_volume}
use hft_order_book_simulator.OrderBook
use hft_order_book_simulator.OrderBook.{OrderBook}
use hft_order_book_simulator.OrderBook.Api.{cancel_order}
use hft_order_book_simulator.OrderBook.Queries.{is_empty}
use hft_order_book_simulator.OrderBook.Ledger.{ledger}
use hft_order_book_simulator.OrderBook.Tally.{trades_in, volume_in, Tallied}
use hft_order_book_simulator.OrderBook.Tally.{call-Tallied}
use hft_order_book_simulator.OrderBook.Session.{add, cancel, construct-BookOk}
use hft_order_book_simulator.OrderBook.Invariant.{BookOk}
use hft_order_book_simulator.OrderBook.Invariant.Adding.{add_order-BookOk}
use hft_order_book_simulator.OrderBook.Invariant.Cancelling.{cancel_order-BookOk}
use hft_order_book_simulator.OrderBook.Invariant.Counter.{add_order-counter, cancel_order-counter}
use hft_order_book_simulator.Driver.{
  Draw, Simulation, side_of, type_of, base_price, place_order, cancel_one, simulate_round, simulate,
  test_simulation_under_load,
}

-- What the distributions promise.
pub record InRange (d : Draw) : Type 0 where
  pub qty : d.qty ≤ 500
  pub idx : (n : ℕ) → 0 < n → d.idx n < n

-- After `n` rounds.
pub record Fine (s : Simulation) (n : ℕ) : Type 0 where
  pub book : BookOk s.book
  pub tallied : Tallied (ledger s.book)
  pub counted : s.book.id_counter ≤ n
  pub timed : LatencyTimer.count s.order_latency ≡ n

get_elem-found :
    {A : Type 0} (xs : List A) (i : ℕ) → i < length xs → (x : A) × (get_elem? xs i ≡ some x)
get_elem-found [] i lt = absurd (omega (arith, lt))
get_elem-found (x ∷ xs) zero lt = (x, refl)
get_elem-found (x ∷ xs) (suc i) lt = get_elem-found xs i (omega (arith, lt))

place_order-Fine :
    (i n : ℕ) (d : Draw) (s : Simulation)
    → InRange d
    → Fine s n
    → suc n < 2 ^ 64
    → Fine (place_order i d s) (suc n)
unfolding place_order LatencyTimer.count record_since record_ns
place_order-Fine i n d s r v small =
    let side = side_of d.side in
    let type = type_of d.type in
    let px = base_price +ℤ d.price in
    let counted = v.counted in
    let qty : d.qty < 2 ^ 32 = omega (arith, r.qty) in
    record {
      book = add_order-BookOk side type px d.qty s.book v.book (omega arith) qty;
      tallied = call-Tallied (add side type px d.qty) s.book v.tallied;
      counted = omega (arith, add_order-counter side type px d.qty s.book v.book (omega arith) qty);
      timed = omega (arith, length-append s.order_latency.samples ((d.t1 -ℤ d.t0) ∷ []), v.timed);
    }

cancel_one-Fine :
    (idx n : ℕ) (s : Simulation)
    → idx < length s.active_ids
    → Fine s n
    → (s' : Simulation) × (cancel_one idx s ≡ some s') × Fine s' n
unfolding cancel_one
cancel_one-Fine idx n s lt v =
    let (id, e) = get_elem-found s.active_ids idx lt in
    (
      record s { book = (cancel_order id s.book).1; active_ids = erase_at idx s.active_ids },
      rw (cancel_one, e) refl,
      record {
        book = cancel_order-BookOk id s.book v.book;
        tallied = call-Tallied (cancel id) s.book v.tallied;
        counted = omega (arith, v.counted, cancel_order-counter id s.book);
        timed = v.timed;
      },
    )

some_active : {A : Type 0} (xs : List A) → is_empty xs ≡ false → 0 < length xs
some_active [] e = absurd (cc e)
some_active (x ∷ xs) e = omega arith

unless : (x y : Bool) → not x && y ≡ true → x ≡ false
unless true y e = absurd (cc e)
unless false y e = refl

simulate_round-Fine :
    (i n : ℕ) (d : Draw) (s : Simulation)
    → InRange d
    → Fine s n
    → suc n < 2 ^ 64
    → (s' : Simulation) × (simulate_round i d s ≡ some s') × Fine s' (suc n)
unfolding simulate_round
simulate_round-Fine i n d s r v small =
    let s₁ = place_order i d s in
    let v₁ = place_order-Fine i n d s r v small in
    let cancels = not (is_empty s₁.active_ids) && (i % 5 == 0) in
    elim (Bool-cases cancels) [
      | inr off ↦ (s₁, rw (simulate_round, off) refl, v₁)
      | inl due ↦
          let any : is_empty s₁.active_ids ≡ false =
            unless (is_empty s₁.active_ids) (i % 5 == 0) due in
          let k = length s₁.active_ids in
          let (s₂, e, v₂) =
            cancel_one-Fine (d.idx k) (suc n) s₁ (r.idx k (some_active s₁.active_ids any)) v₁ in
          (s₂, rw (simulate_round, due) e, v₂)
    ]

simulate-Fine :
    (n i m : ℕ) (draws : ℕ → Draw) (s : Simulation)
    → ((j : ℕ) → InRange (draws j))
    → Fine s m
    → m + n < 2 ^ 64
    → (s' : Simulation) × (simulate n i draws s ≡ some s') × Fine s' (m + n)
unfolding simulate
simulate-Fine zero i m draws s r v small = (s, refl, subst (Fine s) (omega arith) v)
simulate-Fine (suc n) i m draws s r v small =
    let (s₁, e, v₁) = simulate_round-Fine i m (draws i) s (r i) v (omega (arith, small)) in
    let (s₂, f, v₂) = simulate-Fine n (suc i) (suc m) draws s₁ r v₁ (omega (arith, small)) in
    (s₂, rw (simulate, e) f, subst (Fine s₂) (omega arith) v₂)

-- For any draws within the bounds of their distributions, any number of rounds below 2 ^ 64, any clocks and any initial
-- memory: the load simulation makes no access out of range and ends, with the book well formed, a latency noted for
-- each round, and the counters of the book equal, modulo 2 ^ 64, to the number and the sum of the trades that its callback
-- was called with, which is what the scenario counts.
pub load_lem :
    (n : ℕ) (raw : ℕ → Order) (clock : ℕ → Timestamp) (draws : ℕ → Draw)
    → ((j : ℕ) → InRange (draws j))
    → n < 2 ^ 64
    → (s : Simulation) × (test_simulation_under_load n raw clock draws ≡ some s)
      × BookOk s.book
      × (LatencyTimer.count s.order_latency ≡ n)
      × (total_trades s.book ≡ trades_in s.book.events % 2 ^ 64)
      × (total_volume s.book ≡ volume_in s.book.events % 2 ^ 64)
unfolding test_simulation_under_load OrderBook.construct OrderBook.construct_over LatencyTimer.count
load_lem n raw clock draws r small =
    let s : Simulation = record {
      book = OrderBook.construct raw true false clock;
      active_ids = [];
      order_latency = LatencyTimer.construct;
    } in
    let v : Fine s 0 = record {
      book = construct-BookOk 65536 raw true false clock (omega arith) (omega arith);
      tallied = (refl, refl, refl);
      counted = omega arith;
      timed = refl;
    } in
    let (s', e, v') = simulate-Fine n 0 0 draws s r v (omega (arith, small)) in
    (s', e, v'.book, v'.timed ∙ omega arith, v'.tallied.1, v'.tallied.2)
