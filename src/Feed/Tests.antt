-- ===== src/Feed/Tests.antt =====
-- A feed over a ring of four: one tick is published before the thread starts, one while it stops.
use hft_order_book_simulator.Common.{ℕ, ◌≤◌, ◌≡◌, refl, arith, true, [], ◌∷◌}
use hft_order_book_simulator.Types.{MarketDataTick}
use hft_order_book_simulator.OrderBook.{no_tick}
use hft_order_book_simulator.MemoryPool.{update}
use hft_order_book_simulator.RingBuffer
use hft_order_book_simulator.RingBuffer.Indices.{IsCapacity}
use hft_order_book_simulator.Feed.{
  Feed, finished, register_handler, construct, push_tick, pushed, note, count_publish,
  ticks_consumed, ticks_published, start, request_stop, consume,
}
use hft_order_book_simulator.Feed.Invariant.{
  Reach, fresh, pushes, notes, consumes, starts, stops, latest, Counts,
}
use hft_order_book_simulator.Feed.Delivery.{delivery, flush}
use hft_order_book_simulator.Feed.Leaving.{rounds}
use hft_order_book_simulator.Feed.Stopping.{stop_ends}

abbrev four : IsCapacity 4
four = record { bits = 2; power = refl; two = omega arith; small = omega arith }

abbrev tick : ℕ → MarketDataTick
tick n = record no_tick { last_trade_qty = n }

abbrev blank : ℕ → MarketDataTick
blank i = no_tick

abbrev f₁ : Feed
f₁ = note (push_tick (tick 1) (register_handler true (construct 4 blank)))

-- Started, it takes one tick; stopped, it still looks for more, and gets a tick that the producer has not counted.
abbrev f₂ : Feed
f₂ = consume (consume (consume (consume (start f₁))))

abbrev f₃ : Feed
f₃ = push_tick (tick 2) (request_stop f₂)

-- It goes round once more, and stands before its last look at the ring.
abbrev f₄ : Feed
f₄ = consume (consume (consume (consume (consume (consume f₃)))))

abbrev log : ℕ → MarketDataTick
log = update (update blank 0 (tick 1)) 1 (tick 2)

reached : Reach 4 blank true f₄ (log, 2)
unfolding construct push_tick pushed note count_publish start consume request_stop
    RingBuffer.construct
reached =
    let one = notes (pushes (tick 1) refl fresh) in
    let taken = consumes (consumes (consumes (consumes (starts refl one)))) in
    let two = pushes (tick 2) refl (stops refl taken) in
    consumes (consumes (consumes (consumes (consumes (consumes two)))))

delivery_example :
    (done : ℕ) × (done ≤ 2)
    × (f₄.seen ≡ latest log done)
    × Counts f₄.consumed done 0
    × Counts f₄.published 2 1
unfolding construct push_tick pushed note count_publish start consume request_stop
    RingBuffer.construct
delivery_example = delivery four log 2 reached

flush_example :
    ((consume f₄).seen ≡ tick 2 ∷ tick 1 ∷ [])
    × Counts (ticks_consumed (consume f₄)) 2 0
    × Counts (ticks_published (consume f₄)) 2 1
unfolding construct push_tick pushed note count_publish start consume request_stop
    RingBuffer.construct
flush_example = flush four log 2 reached refl refl

-- The handler has returned from the first tick, which is not counted as consumed, and the producer has pushed a second,
-- which is not counted as published.
abbrev f₅ : Feed
f₅ = push_tick (tick 2) (consume (consume (consume (start f₁))))

between : Reach 4 blank true f₅ (log, 2)
unfolding construct push_tick pushed note count_publish start consume RingBuffer.construct
between =
    let one = notes (pushes (tick 1) refl fresh) in
    pushes (tick 2) refl (consumes (consumes (consumes (starts refl one))))

stop_ends_example :
    ((rounds 20 (request_stop f₅)).thread ≡ finished)
    × ((rounds 20 (request_stop f₅)).seen ≡ tick 2 ∷ tick 1 ∷ [])
    × Counts (ticks_consumed (rounds 20 (request_stop f₅))) 2 0
    × Counts (ticks_published (rounds 20 (request_stop f₅))) 2 1
unfolding construct push_tick pushed note count_publish start consume RingBuffer.construct
stop_ends_example = stop_ends four log 2 20 between refl (omega arith)
