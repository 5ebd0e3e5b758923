-- ===== src/Feed/Delivery.antt =====
-- market_data_feed.cpp: what a feed hands to its handler.
use hft_order_book_simulator.Common.{
  ℕ, ◌≤◌, ◌≡◌, sym, ap, ◌∙◌, subst, arith, inl, inr, Bool, true, [], if◌then◌else◌, Bool-cases,
  ==_iff,
}
use hft_order_book_simulator.Types.{MarketDataTick}
use hft_order_book_simulator.RingBuffer
use hft_order_book_simulator.RingBuffer.{RingBuffer}
use hft_order_book_simulator.RingBuffer.Indices.{IsCapacity, mod-injective}
use hft_order_book_simulator.RingBuffer.Calls.{Queued}
use hft_order_book_simulator.Feed.{
  Feed, ticks_consumed, ticks_published, draining, popping, finished, advance, consume,
}
use hft_order_book_simulator.Feed.Steps.{Reach-Inv}
use hft_order_book_simulator.Feed.Invariant.{
  Reach, InFlight, latest, InFlight-done, Counts, unnoted, uncounted,
}

-- For a ring of a valid capacity, whatever the order in which ticks are published and consumed and the thread is started, stopped and joined: the
-- handler, if there is one, has been called with the first `done` accepted ticks, once each and in their order;
-- modulo 2 ^ 64, `ticks_consumed` counts them, but for the one, if any, after whose handling the thread stands before its
-- `fetch_add`, and `ticks_published` counts the accepted ticks, but for the one, if any, after whose push the producer stands
-- before its own.
pub delivery :
    {size : ℕ} (v : IsCapacity size) {raw : ℕ → MarketDataTick} {hh : Bool} {f : Feed}
    (log : ℕ → MarketDataTick) (sent : ℕ)
    → Reach size raw hh f (log, sent)
    → (done : ℕ) × (done ≤ sent)
      × (f.seen ≡ (if hh then latest log done else []))
      × Counts f.consumed done (uncounted f.thread)
      × Counts f.published sent (unnoted f.publisher)
delivery v {f = f} log sent r =
    let I = Reach-Inv v r in
    (
      I.done,
      omega (arith, InFlight-done f.thread log I.done I.received I.flight, I.queue.behind),
      I.seen,
      I.consumed,
      I.published,
    )

drained :
    {size : ℕ} (v : IsCapacity size) {ring : RingBuffer MarketDataTick} {log : ℕ → MarketDataTick}
    {sent received : ℕ}
    → Queued size ring log sent received
    → RingBuffer.empty ring ≡ true
    → received ≡ sent
unfolding RingBuffer.empty
drained {size} v {ring} {log} {sent} {received} q e =
    mod-injective size received sent (omega (arith, v.two)) q.behind q.room
      (sym q.tail ∙ sym ((==_iff ring.head ring.tail).0 e) ∙ q.head)

-- For a ring of a valid capacity: when the consumer thread has seen that the feed is stopped and finds the ring empty, it leaves its loop with every
-- accepted tick handled: the handler, if there is one, has been called with all of them, once each and in their order;
-- `ticks_consumed` counts all of them, modulo 2 ^ 64, and `ticks_published` all but the one, if any, that the producer has
-- pushed and not yet counted.
pub flush :
    {size : ℕ} (v : IsCapacity size) {raw : ℕ → MarketDataTick} {hh : Bool} {f : Feed}
    (log : ℕ → MarketDataTick) (sent : ℕ)
    → Reach size raw hh f (log, sent)
    → f.thread ≡ draining
    → (consume f).thread ≡ finished
    → ((consume f).seen ≡ (if hh then latest log sent else []))
      × Counts (ticks_consumed (consume f)) sent 0
      × Counts (ticks_published (consume f)) sent (unnoted f.publisher)
unfolding consume advance
flush v {hh = hh} {f = f} log sent r e last =
    let I = Reach-Inv v r in
    let step : consume f ≡ advance draining f = ap (λ t. advance t f) e in
    let here : (if RingBuffer.empty f.ring then finished else popping) ≡ finished =
      ap (λ (g : Feed). g.thread) (sym step) ∙ last in
    let dry : RingBuffer.empty f.ring ≡ true = elim (Bool-cases (RingBuffer.empty f.ring)) [
      | inl test ↦ test
      | inr test ↦ cc
    ] in
    let flight : (I.received ≡ I.done) × Unit {0} =
      subst (λ t. InFlight t log I.done I.received) e I.flight in
    let all : I.done ≡ sent = sym flight.0 ∙ drained v I.queue dry in
    (
      ap (λ (g : Feed). g.seen) step ∙ I.seen ∙ ap (λ n. if hh then latest log n else []) all,
      subst (λ (g : Feed). Counts g.consumed sent 0) (sym step)
          (subst (λ k. Counts f.consumed k 0) all
            (subst (λ t. Counts f.consumed I.done (uncounted t)) e I.consumed)),
      subst (λ (g : Feed). Counts g.published sent (unnoted f.publisher)) (sym step) I.published,
    )
