-- ===== src/Feed/Steps.antt =====
-- Every step of the three threads keeps what holds of a feed.
use hft_order_book_simulator.Common.{
  ℕ, ◌+◌, suc, ◌≡◌, refl, sym, ap, ◌∙◌, subst, arith, inl, inr, Bool, true, false, List, [], ◌∷◌,
  if◌then◌else◌, Bool-cases,
}
use hft_order_book_simulator.Common.Words.{add64}
use hft_order_book_simulator.Types.{MarketDataTick}
use hft_order_book_simulator.RingBuffer
use hft_order_book_simulator.RingBuffer.{RingBuffer}
use hft_order_book_simulator.RingBuffer.Indices.{IsCapacity}
use hft_order_book_simulator.RingBuffer.Calls.{construct-Queued, pop-Queued}
use hft_order_book_simulator.Feed.{
  Feed, called, count_tick, Loop, absent, checking, draining, popping, handling, finished,
  construct, start, request_stop, join, popped, handle, advance, consume,
}
use hft_order_book_simulator.Feed.Invariant.{
  Reach, fresh, pushes, notes, consumes, starts, stops, joins, Inv, InFlight, latest, push_tick-Inv,
  note-Inv, Counts, uncounted,
}

seen_next :
    (a hh : Bool) (tick x : MarketDataTick) (seen l : List MarketDataTick)
    → a ≡ hh
    → tick ≡ x
    → seen ≡ (if hh then l else [])
    → (if a then tick ∷ seen else seen) ≡ (if hh then x ∷ l else [])
seen_next a true tick x seen l ea et es = rw (ea, et, es) refl
seen_next a false tick x seen l ea et es = rw (ea, es) refl

module _ {size : ℕ} (v : IsCapacity size) {hh : Bool} (f : Feed) (log : ℕ → MarketDataTick)
    (sent : ℕ) (I : Inv size hh f log sent) where
  -- The thread moves on without touching a tick.
  move :
      (t : Loop)
      → InFlight t log I.done I.received
      → Counts f.consumed I.done (uncounted t)
      → (f.running ≡ false → f.joining ≡ false → t ≡ absent)
      → Inv size hh (record f { thread = t }) log sent
  move t k c idle = record {
    received = I.received;
    done = I.done;
    queue = I.queue;
    flight = k;
    published = I.published;
    consumed = c;
    handler = I.handler;
    seen = I.seen;
    idle = idle;
  }

  counted : (t : Loop) → f.thread ≡ t → Counts f.consumed I.done (uncounted t)
  counted t e = subst (λ x. Counts f.consumed I.done (uncounted x)) e I.consumed

  awake :
      (t : Loop) {A : Type 0}
      → f.thread ≡ t
      → (t ≡ absent → ⊥)
      → f.running ≡ false
      → f.joining ≡ false
      → A
  awake t e ne r j = absurd (ne (sym e ∙ I.idle r j))

  popped-Inv :
      f.thread ≡ popping
      → I.received ≡ I.done
      → Inv size hh (popped (RingBuffer.pop f.ring) f) log sent
  unfolding popped
  popped-Inv e k = elim (pop-Queued v f.ring log sent I.received I.queue) [
    | inl (dry, all) ↦
        subst (λ p. Inv size hh (popped p f) log sent) (sym dry)
          (move checking (k, tt) (counted popping e) (awake popping e (λ x. cc)))
    | inr (is, q) ↦
        subst (λ p. Inv size hh (popped p f) log sent)
          (sym (ap (λ o. (o, (RingBuffer.pop f.ring).1)) is))
          (record {
            received = suc I.received;
            done = I.done;
            queue = q;
            flight = (ap suc k, ap log k);
            published = I.published;
            consumed = counted popping e;
            handler = I.handler;
            seen = I.seen;
            idle = awake popping e (λ x. cc);
          })
  ]

  handle-Inv :
      (tick : MarketDataTick)
      → f.thread ≡ handling tick
      → I.received ≡ suc I.done
      → tick ≡ log I.done
      → Inv size hh (handle tick f) log sent
  unfolding handle
  handle-Inv tick e k is = record {
    received = I.received;
    done = suc I.done;
    queue = I.queue;
    flight = (k, tt);
    published = I.published;
    consumed = let c = counted (handling tick) e in (c.0, omega (arith, c.1), c.2);
    handler = I.handler;
    seen =
        seen_next f.has_handler hh tick (log I.done) f.seen (latest log I.done) I.handler is I.seen;
    idle = awake (handling tick) e (λ x. cc);
  }

  count_tick-Inv :
      f.thread ≡ called → (I.received ≡ I.done) × Unit {0} → Inv size hh (count_tick f) log sent
  unfolding count_tick add64
  count_tick-Inv e k =
      let c = counted called e in
      record {
        received = I.received;
        done = I.done;
        queue = I.queue;
        flight = k;
        published = I.published;
        consumed = (c.0 + 1, omega (arith, c.1), omega (arith, c.2));
        handler = I.handler;
        seen = I.seen;
        idle = awake called e (λ x. cc);
      }

  advance-Inv :
      (t : Loop)
      → f.thread ≡ t
      → InFlight t log I.done I.received
      → Inv size hh (advance t f) log sent
  unfolding advance
  advance-Inv absent e k = I
  advance-Inv checking e k =
      elim f.running
        as (λ c. Inv size hh (record f { thread = if c then popping else draining }) log sent) [
          | true ↦ move popping k (counted checking e) (awake checking e (λ x. cc))
          | false ↦ move draining k (counted checking e) (awake checking e (λ x. cc))
        ]
  advance-Inv draining e k = elim (Bool-cases (RingBuffer.empty f.ring)) [
    | inl dry ↦ rw dry (move finished k (counted draining e) (awake draining e (λ x. cc)))
    | inr more ↦ rw more (move popping k (counted draining e) (awake draining e (λ x. cc)))
  ]
  advance-Inv popping e k = popped-Inv e k.0
  advance-Inv (handling tick) e k = handle-Inv tick e k.0 k.1
  advance-Inv called e k = count_tick-Inv e k
  advance-Inv finished e k = I

  pub consume-Inv : Inv size hh (consume f) log sent
  unfolding consume
  consume-Inv = advance-Inv f.thread refl I.flight

  -- A thread is started only where there is none.
  start-Inv : f.joining ≡ false → Inv size hh (start f) log sent
  unfolding start
  start-Inv j = choose f.running refl
    where
      choose :
          (c : Bool)
          → f.running ≡ c
          → Inv size hh (if c then f else record f { running = true; thread = checking }) log sent
      choose true e = I
      choose false e = record {
        received = I.received;
        done = I.done;
        queue = I.queue;
        flight = subst (λ t. InFlight t log I.done I.received) (I.idle e j) I.flight;
        published = I.published;
        consumed = counted absent (I.idle e j);
        handler = I.handler;
        seen = I.seen;
        idle = λ r k. cc;
      }

  pub request_stop-Inv : Inv size hh (request_stop f) log sent
  unfolding request_stop
  request_stop-Inv =
      elim f.running
        as (λ c.
          Inv size hh (if c then record f { running = false; joining = true } else f) log sent) [
            | true ↦ record {
              received = I.received;
              done = I.done;
              queue = I.queue;
              flight = I.flight;
              published = I.published;
              consumed = I.consumed;
              handler = I.handler;
              seen = I.seen;
              idle = λ r k. cc;
            }
            | false ↦ I
          ]

  join-Inv : f.thread ≡ finished → Inv size hh (join f) log sent
  unfolding join
  join-Inv e = record {
    received = I.received;
    done = I.done;
    queue = I.queue;
    flight = subst (λ t. InFlight t log I.done I.received) e I.flight;
    published = I.published;
    consumed = counted finished e;
    handler = I.handler;
    seen = I.seen;
    idle = λ r k. refl;
  }

none_seen : (hh : Bool) → ◌≡◌ {A = List MarketDataTick} [] (if hh then [] else [])
none_seen true = refl
none_seen false = refl

pub Reach-Inv :
    {size : ℕ} (v : IsCapacity size) {raw : ℕ → MarketDataTick} {hh : Bool} {f : Feed}
    {h : (ℕ → MarketDataTick) × ℕ}
    → Reach size raw hh f h
    → Inv size hh f h.0 h.1
unfolding construct
Reach-Inv v {raw} {hh} fresh = record {
  received = 0;
  done = 0;
  queue = construct-Queued v raw;
  flight = (refl, tt);
  published = (0, refl, refl);
  consumed = (0, refl, refl);
  handler = refl;
  seen = none_seen hh;
  idle = λ r j. refl;
}
Reach-Inv v (pushes {f} {h} tick e r) = push_tick-Inv v f h.0 h.1 (Reach-Inv v r) tick e
Reach-Inv v (notes {f} {h} r) = note-Inv v f h.0 h.1 (Reach-Inv v r)
Reach-Inv v (consumes {f} {h} r) = consume-Inv v f h.0 h.1 (Reach-Inv v r)
Reach-Inv v (starts {f} {h} j r) = start-Inv v f h.0 h.1 (Reach-Inv v r) j
Reach-Inv v (stops {f} {h} j r) = request_stop-Inv v f h.0 h.1 (Reach-Inv v r)
Reach-Inv v (joins {f} {h} j e r) = join-Inv v f h.0 h.1 (Reach-Inv v r) e
