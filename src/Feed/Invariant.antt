-- ===== src/Feed/Invariant.antt =====
-- The states that a feed reaches with its three threads, in any order of their steps, and what holds in them.
use hft_order_book_simulator.Common.{
  ℕ, ◌+◌, zero, suc, ◌%◌, ◌^◌, ◌≤◌, ◌≡◌, ◌==◌, refl, sym, ap, ◌∙◌, subst, arith, inl, inr, Bool,
  true, false, List, [], ◌∷◌, if◌then◌else◌,
}
use hft_order_book_simulator.Common.Words.{add64}
use hft_order_book_simulator.Types.{MarketDataTick}
use hft_order_book_simulator.MemoryPool.{update}
use hft_order_book_simulator.RingBuffer
use hft_order_book_simulator.RingBuffer.{RingBuffer}
use hft_order_book_simulator.RingBuffer.Indices.{IsCapacity}
use hft_order_book_simulator.RingBuffer.Calls.{Queued, push-Queued}
use hft_order_book_simulator.Feed.{
  Feed, Publisher, counting, push_tick, pushed, note, count_publish, called, Loop, absent, checking,
  draining, popping, handling, finished, construct, register_handler, start, request_stop, join,
  consume,
}

-- The ticks accepted so far, by number, and how many: what they are after a `publish` whose ring answers `ok`.
abbrev accept : Bool → MarketDataTick → (ℕ → MarketDataTick) × ℕ → (ℕ → MarketDataTick) × ℕ
accept true tick (log, sent) = (update log sent tick, suc sent)
accept false tick (log, sent) = (log, sent)

-- The states of a feed that its threads reach, once its handler is registered. `start` and `stop` are called one after the other.
pub data Reach (size : ℕ) (raw : ℕ → MarketDataTick) (has_handler : Bool)
    : Feed → (ℕ → MarketDataTick) × ℕ → Type 0 where
  fresh : Reach size raw has_handler (register_handler has_handler (construct size raw)) (raw, 0)
  pushes :
      {f : Feed} {h : (ℕ → MarketDataTick) × ℕ} (tick : MarketDataTick)
      → f.publisher ≡ Publisher.idle
      → Reach size raw has_handler f h
      → Reach size raw has_handler
          (push_tick tick f)
          (accept (RingBuffer.push tick f.ring).0 tick h)
  notes :
      {f : Feed} {h : (ℕ → MarketDataTick) × ℕ}
      → Reach size raw has_handler f h
      → Reach size raw has_handler (note f) h
  consumes :
      {f : Feed} {h : (ℕ → MarketDataTick) × ℕ}
      → Reach size raw has_handler f h
      → Reach size raw has_handler (consume f) h
  starts :
      {f : Feed} {h : (ℕ → MarketDataTick) × ℕ}
      → f.joining ≡ false
      → Reach size raw has_handler f h
      → Reach size raw has_handler (start f) h
  stops :
      {f : Feed} {h : (ℕ → MarketDataTick) × ℕ}
      → f.joining ≡ false
      → Reach size raw has_handler f h
      → Reach size raw has_handler (request_stop f) h
  joins :
      {f : Feed} {h : (ℕ → MarketDataTick) × ℕ}
      → f.joining ≡ true
      → f.thread ≡ finished
      → Reach size raw has_handler f h
      → Reach size raw has_handler (join f) h

-- The first `n` entries of a log, latest first.
abbrev pub latest : (ℕ → MarketDataTick) → ℕ → List MarketDataTick
latest log zero = []
latest log (suc n) = log n ∷ latest log n

-- What the consumer thread holds besides the `done` ticks that it has handled.
abbrev pub InFlight : Loop → (ℕ → MarketDataTick) → ℕ → ℕ → Type 0
InFlight (handling tick) log done received = (received ≡ suc done) × (tick ≡ log done)
InFlight _ log done received = (received ≡ done) × Unit {0}

-- What is not yet in the counter of the published ticks, and in that of the consumed ones.
abbrev pub unnoted : Publisher → ℕ
unnoted (counting true) = 1
unnoted _ = 0

abbrev pub uncounted : Loop → ℕ
uncounted called = 1
uncounted _ = 0

-- A 64-bit counter has all of `total` but the `late` last.
abbrev pub Counts : ℕ → ℕ → ℕ → Type 0
Counts counter total late = (n : ℕ) × (n + late ≡ total) × (counter ≡ n % 2 ^ 64)

pub record Inv (size : ℕ) (has_handler : Bool) (f : Feed) (log : ℕ → MarketDataTick) (sent : ℕ)
    : Type 0 where
  pub received : ℕ
  pub done : ℕ
  pub queue : Queued size f.ring log sent received
  pub flight : InFlight f.thread log done received
  pub published : Counts f.published sent (unnoted f.publisher)
  pub consumed : Counts f.consumed done (uncounted f.thread)
  pub handler : f.has_handler ≡ has_handler
  pub seen : f.seen ≡ (if has_handler then latest log done else [])
  pub idle : f.running ≡ false → f.joining ≡ false → f.thread ≡ absent

latest-update :
    (log : ℕ → MarketDataTick) (i : ℕ) (tick : MarketDataTick) (n : ℕ)
    → n ≤ i
    → latest (update log i tick) n ≡ latest log n
latest-update log i tick zero le = refl
latest-update log i tick (suc n) le =
    let other : (i == n) ≡ false = ground arith in
    rw other (ap (◌∷◌ (log n)) (latest-update log i tick n (omega arith)))

pub InFlight-done :
    (t : Loop) (log : ℕ → MarketDataTick) (done received : ℕ)
    → InFlight t log done received
    → done ≤ received
InFlight-done absent log done received k = omega (arith, k)
InFlight-done checking log done received k = omega (arith, k)
InFlight-done draining log done received k = omega (arith, k)
InFlight-done popping log done received k = omega (arith, k)
InFlight-done (handling tick) log done received k = omega (arith, k)
InFlight-done called log done received k = omega (arith, k)
InFlight-done finished log done received k = omega (arith, k)

-- A tick that is accepted later is not the one in flight.
InFlight-update :
    (t : Loop) (log : ℕ → MarketDataTick) (done received i : ℕ) (tick : MarketDataTick)
    → received ≤ i
    → InFlight t log done received
    → InFlight t (update log i tick) done received
InFlight-update absent log done received i tick le k = k
InFlight-update checking log done received i tick le k = k
InFlight-update draining log done received i tick le k = k
InFlight-update popping log done received i tick le k = k
InFlight-update (handling x) log done received i tick le k =
    let other : (i == done) ≡ false = ground arith in (k.0, rw other k.1)
InFlight-update called log done received i tick le k = k
InFlight-update finished log done received i tick le k = k

module _ {size : ℕ} (v : IsCapacity size) {hh : Bool} (f : Feed) (log : ℕ → MarketDataTick)
    (sent : ℕ) (I : Inv size hh f log sent) where
  pub push_tick-Inv :
      (tick : MarketDataTick)
      → f.publisher ≡ Publisher.idle
      → let h = accept (RingBuffer.push tick f.ring).0 tick (log, sent) in
        Inv size hh (push_tick tick f) h.0 h.1
  unfolding push_tick pushed
  push_tick-Inv tick at_rest =
      let P = λ (p : Bool × RingBuffer MarketDataTick).
        Inv size hh (pushed p f) (accept p.0 tick (log, sent)).0 (accept p.0 tick (log, sent)).1 in
      let le = InFlight-done f.thread log I.done I.received I.flight in
      let c = subst (λ x. Counts f.published sent (unnoted x)) at_rest I.published in
      elim (push-Queued v f.ring log sent I.received tick I.queue) [
        | inl full ↦ subst P (sym full.0) (record {
          received = I.received;
          done = I.done;
          queue = I.queue;
          flight = I.flight;
          published = c;
          consumed = I.consumed;
          handler = I.handler;
          seen = I.seen;
          idle = I.idle;
        })
        | inr (ok, q) ↦
            subst P (sym (ap (λ (b : Bool). (b, (RingBuffer.push tick f.ring).1)) ok)) (record {
              received = I.received;
              done = I.done;
              queue = q;
              flight =
                  InFlight-update f.thread log I.done I.received sent tick I.queue.behind I.flight;
              published = (c.0, omega (arith, c.1), c.2);
              consumed = I.consumed;
              handler = I.handler;
              seen =
                  I.seen
                  ∙ ap (λ (l : List MarketDataTick). if hh then l else [])
                      (sym
                        (latest-update log sent tick I.done (omega (arith, le, I.queue.behind))));
              idle = I.idle;
            })
      ]

  -- The producer is done, with what its counters are then.
  at_rest-Inv :
      (n d : ℕ)
      → Counts n sent 0
      → Inv size hh (record f { published = n; dropped = d; publisher = Publisher.idle }) log sent
  at_rest-Inv n d c = record {
    received = I.received;
    done = I.done;
    queue = I.queue;
    flight = I.flight;
    published = c;
    consumed = I.consumed;
    handler = I.handler;
    seen = I.seen;
    idle = I.idle;
  }

  count_publish-Inv :
      (p : Publisher)
      → Counts f.published sent (unnoted p)
      → p ≡ f.publisher
      → Inv size hh (count_publish p f) log sent
  unfolding count_publish add64
  count_publish-Inv Publisher.idle c e = I
  count_publish-Inv (counting true) c e =
      at_rest-Inv (add64 f.published 1) f.dropped (c.0 + 1, omega (arith, c.1), omega (arith, c.2))
  count_publish-Inv (counting false) c e = at_rest-Inv f.published (add64 f.dropped 1) c

  pub note-Inv : Inv size hh (note f) log sent
  unfolding note
  note-Inv = count_publish-Inv f.publisher I.published refl
