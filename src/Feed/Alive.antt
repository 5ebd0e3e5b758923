-- ===== src/Feed/Alive.antt =====
-- market_data_feed.cpp: while a feed is running its consumer thread is in its loop.
use hft_order_book_simulator.Common.{
  ℕ, ◌≡◌, refl, sym, ◌∙◌, subst, inl, inr, Bool, true, false, Option, none, some, if◌then◌else◌,
  Bool-cases,
}
use hft_order_book_simulator.Types.{MarketDataTick}
use hft_order_book_simulator.RingBuffer
use hft_order_book_simulator.RingBuffer.{RingBuffer}
use hft_order_book_simulator.Feed.{
  Feed, Loop, absent, checking, draining, popping, handling, finished, called, construct, push_tick,
  pushed, Publisher, counting, note, count_publish, count_tick, start, request_stop, join, popped,
  handle, advance, consume,
}
use hft_order_book_simulator.Feed.Invariant.{
  Reach, fresh, pushes, notes, consumes, starts, stops, joins,
}

-- The thread is in its loop, and has not seen `running_` at false.
abbrev pub Alive : Loop → Type 0
Alive checking = Unit
Alive popping = Unit
Alive called = Unit
Alive (handling tick) = Unit
Alive _ = ⊥

-- While the feed is running its thread is alive.
popped-Alive :
    (p : Option MarketDataTick × RingBuffer MarketDataTick) (f : Feed) → Alive (popped p f).thread
unfolding popped
popped-Alive (some tick, r) f = tt
popped-Alive (none, r) f = tt

popped-running :
    (p : Option MarketDataTick × RingBuffer MarketDataTick) (f : Feed)
    → (popped p f).running ≡ f.running
unfolding popped
popped-running (some tick, r) f = refl
popped-running (none, r) f = refl

advance-running : (t : Loop) (f : Feed) → (advance t f).running ≡ f.running
unfolding advance handle count_tick
advance-running absent f = refl
advance-running checking f = refl
advance-running draining f = refl
advance-running popping f = popped-running (RingBuffer.pop f.ring) f
advance-running (handling tick) f = refl
advance-running called f = refl
advance-running finished f = refl

advance-Alive : (t : Loop) (f : Feed) → f.running ≡ true → Alive t → Alive (advance t f).thread
unfolding advance handle count_tick
advance-Alive absent f e a = absurd a
advance-Alive draining f e a = absurd a
advance-Alive finished f e a = absurd a
advance-Alive checking f e a = rw e tt
advance-Alive popping f e a = popped-Alive (RingBuffer.pop f.ring) f
advance-Alive (handling tick) f e a = tt
advance-Alive called f e a = tt

count_publish-same :
    (p : Publisher) (f : Feed)
    → ((count_publish p f).thread ≡ f.thread) × ((count_publish p f).running ≡ f.running)
unfolding count_publish
count_publish-same Publisher.idle f = (refl, refl)
count_publish-same (counting true) f = (refl, refl)
count_publish-same (counting false) f = (refl, refl)

start-Alive : (f : Feed) → (f.running ≡ true → Alive f.thread) → Alive (start f).thread
unfolding start
start-Alive f alive = choose f.running refl
  where
    choose :
        (c : Bool)
        → f.running ≡ c
        → Alive (if c then f else record f { running = true; thread = checking }).thread
    choose true e = alive e
    choose false e = tt

request_stop-running : (f : Feed) → (request_stop f).running ≡ false
unfolding request_stop
request_stop-running f = elim (Bool-cases f.running) [ inl on ↦ rw on refl | inr off ↦ rw off refl ]

pub Reach-Alive :
    {size : ℕ} {raw : ℕ → MarketDataTick} {hh : Bool} {f : Feed} {h : (ℕ → MarketDataTick) × ℕ}
    → Reach size raw hh f h
    → f.running ≡ true
    → Alive f.thread
unfolding construct push_tick pushed note consume join
Reach-Alive fresh e = absurd (cc e)
Reach-Alive (pushes tick at_rest r) e = Reach-Alive r e
Reach-Alive (notes {f} r) e =
    let same = count_publish-same f.publisher f in
    subst Alive (sym same.0) (Reach-Alive r (sym same.1 ∙ e))
Reach-Alive (consumes {f} r) e =
    let e' = sym (advance-running f.thread f) ∙ e in advance-Alive f.thread f e' (Reach-Alive r e')
Reach-Alive (starts {f} j r) e = start-Alive f (Reach-Alive r)
Reach-Alive (stops {f} j r) e = absurd (cc (e, request_stop-running f))
Reach-Alive (joins {f} j last r) e = absurd (subst Alive last (Reach-Alive r e))
