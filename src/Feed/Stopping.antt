-- ===== src/Feed/Stopping.antt =====
-- market_data_feed.cpp: the consumer thread of a stopped feed leaves its loop.
use hft_order_book_simulator.Common.{
  ℕ, zero, suc, ◌-◌, ◌*◌, ◌≤◌, ◌≡◌, refl, sym, ap, ◌∙◌, subst, arith, Bool, true, false, Option,
  none, some, [], if◌then◌else◌,
}
use hft_order_book_simulator.Types.{MarketDataTick}
use hft_order_book_simulator.RingBuffer
use hft_order_book_simulator.RingBuffer.{RingBuffer}
use hft_order_book_simulator.RingBuffer.Indices.{IsCapacity}
use hft_order_book_simulator.Feed.{
  Feed, Loop, absent, checking, draining, popping, handling, called, popped, handle, count_tick,
  advance, finished, request_stop, consume, ticks_consumed, ticks_published,
}
use hft_order_book_simulator.Feed.Invariant.{
  Reach, Inv, InFlight, latest, Counts, unnoted, uncounted,
}
use hft_order_book_simulator.Feed.Leaving.{rounds, rank-le, ends, received_unique}
use hft_order_book_simulator.Feed.Alive.{Alive, Reach-Alive}
use hft_order_book_simulator.Feed.Steps.{consume-Inv, request_stop-Inv, Reach-Inv}

rounds-Inv :
    {size : ℕ} (v : IsCapacity size) {hh : Bool} (n : ℕ) (f : Feed) (log : ℕ → MarketDataTick)
    (sent : ℕ)
    → Inv size hh f log sent
    → Inv size hh (rounds n f) log sent
rounds-Inv v zero f log sent I = I
rounds-Inv v (suc n) f log sent I = rounds-Inv v n (consume f) log sent (consume-Inv v f log sent I)

popped-publisher :
    (p : Option MarketDataTick × RingBuffer MarketDataTick) (f : Feed)
    → (popped p f).publisher ≡ f.publisher
unfolding popped
popped-publisher (some tick, r) f = refl
popped-publisher (none, r) f = refl

advance-publisher : (t : Loop) (f : Feed) → (advance t f).publisher ≡ f.publisher
unfolding advance handle count_tick
advance-publisher absent f = refl
advance-publisher checking f = refl
advance-publisher draining f = refl
advance-publisher popping f = popped-publisher (RingBuffer.pop f.ring) f
advance-publisher (handling tick) f = refl
advance-publisher called f = refl
advance-publisher finished f = refl

rounds-publisher : (n : ℕ) (f : Feed) → (rounds n f).publisher ≡ f.publisher
unfolding consume
rounds-publisher zero f = refl
rounds-publisher (suc n) f = rounds-publisher n (consume f) ∙ advance-publisher f.thread f

-- For a ring of a valid capacity: when `stop` is called on a feed that is running, in whatever state its threads have
-- brought it, and the producer stands still from then on, 5 * size steps of the consumer thread are enough for it to leave its loop,
-- with every accepted tick handled: the handler, if there is one, has been called with all of them, once each and in
-- their order; `ticks_consumed` counts all of them, modulo 2 ^ 64, and `ticks_published` all but the one, if any, that the
-- producer has pushed and not yet counted.
pub stop_ends :
    {size : ℕ} (v : IsCapacity size) {raw : ℕ → MarketDataTick} {hh : Bool} {f : Feed}
    (log : ℕ → MarketDataTick) (sent n : ℕ)
    → Reach size raw hh f (log, sent)
    → f.running ≡ true
    → 5 * size ≤ n
    → ((rounds n (request_stop f)).thread ≡ finished)
      × ((rounds n (request_stop f)).seen ≡ (if hh then latest log sent else []))
      × Counts (ticks_consumed (rounds n (request_stop f))) sent 0
      × Counts (ticks_published (rounds n (request_stop f))) sent (unnoted f.publisher)
unfolding request_stop
stop_ends {size} v {hh = hh} {f = f} log sent n r on le =
    let g = record f { running = false; joining = true } in
    let eq : request_stop f ≡ g = rw on refl in
    let alive = Reach-Alive r on in
    let I = Reach-Inv v r in
    let I' : Inv size hh g log sent =
      subst (λ x. Inv size hh x log sent) eq (request_stop-Inv v f log sent I) in
    let end =
      ends v n g log sent I.received
        (record {
          queue = I.queue;
          stopped = refl;
          there = λ x. subst Alive x alive;
          dry = λ x. absurd (subst Alive x alive);
        })
        (omega (
          arith,
          le,
          rank-le f.thread (sent - I.received) size
              (omega (arith, I.queue.room, I.queue.behind, v.two)),
        )) in
    let J = rounds-Inv v n g log sent I' in
    let flight = subst (λ t. InFlight t log J.done J.received) end.0 J.flight in
    let all : J.done ≡ sent =
      sym flight.0 ∙ received_unique v (rounds n g).ring log sent J.received sent J.queue end.1 in
    subst
      (λ x.
        ((rounds n x).thread ≡ finished)
        × ((rounds n x).seen ≡ (if hh then latest log sent else []))
        × Counts (ticks_consumed (rounds n x)) sent 0
        × Counts (ticks_published (rounds n x)) sent (unnoted f.publisher))
      (sym eq)
      (
        end.0,
        J.seen ∙ ap (λ k. if hh then latest log k else []) all,
        subst (λ k. Counts (rounds n g).consumed k 0) all
            (subst (λ t. Counts (rounds n g).consumed J.done (uncounted t)) end.0 J.consumed),
        subst (λ p. Counts (rounds n g).published sent (unnoted p)) (rounds-publisher n g)
            J.published,
      )
