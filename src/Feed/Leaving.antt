-- ===== src/Feed/Leaving.antt =====
-- market_data_feed.cpp: how far the consumer thread of a stopped feed is from the end of its loop.
use native.Mathlib.Decide.{dec_le, dec_lt}
use hft_order_book_simulator.Common.{
  ℕ, zero, suc, ◌+◌, ◌-◌, ◌*◌, ◌%◌, ◌≤◌, ◌<◌, ◌≡◌, ◌≢◌, refl, sym, ap, ◌∙◌, subst, arith, inl, inr,
  true, false, if◌then◌else◌, Bool-cases, ◌==◌, ==_iff,
}
use hft_order_book_simulator.Types.{MarketDataTick}
use hft_order_book_simulator.RingBuffer
use hft_order_book_simulator.RingBuffer.{RingBuffer}
use hft_order_book_simulator.RingBuffer.Indices.{IsCapacity, mod-injective}
use hft_order_book_simulator.RingBuffer.Calls.{Queued, pop-Queued}
use hft_order_book_simulator.Feed.{
  Feed, called, count_tick, Loop, absent, checking, draining, popping, handling, finished, popped,
  handle, advance, consume,
}

-- `n` steps of the consumer thread, while the others stand still.
abbrev pub rounds : ℕ → Feed → Feed
rounds zero f = f
rounds (suc n) f = rounds n (consume f)

-- The steps that are left to the end of the loop of a stopped feed, with `q` ticks in the ring.
abbrev pub rank : Loop → ℕ → ℕ
rank absent q = 0
rank checking q = 5 * q + 2
rank draining q = 5 * q + 1
rank popping q = if q == 0 then 3 else 5 * q
rank (handling tick) q = 5 * q + 4
rank called q = 5 * q + 3
rank finished q = 0

-- How many items have been delivered can be read off a ring.
pub received_unique :
    {size : ℕ} (v : IsCapacity size) (ring : RingBuffer MarketDataTick) (log : ℕ → MarketDataTick)
    (sent a b : ℕ)
    → Queued size ring log sent a
    → Queued size ring log sent b
    → a ≡ b
received_unique {size} v ring log sent a b p q = elim (dec_le a b) [
  | yes le ↦
      mod-injective size a b (omega (arith, v.two)) le (omega (arith, p.room, q.behind))
        (sym p.tail ∙ q.tail)
  | no gt ↦ sym (
      mod-injective size b a (omega (arith, v.two)) (omega arith) (omega (arith, q.room, p.behind))
        (sym q.tail ∙ p.tail))
]

-- A stopped feed whose thread has not been joined, with `received` items out of the ring.
pub record Leaving (size : ℕ) (f : Feed) (log : ℕ → MarketDataTick) (sent received : ℕ)
    : Type 0 where
  pub queue : Queued size f.ring log sent received
  pub stopped : f.running ≡ false
  pub there : f.thread ≢ absent
  pub dry : f.thread ≡ finished → received ≡ sent

-- One step nearer to the end than with `left` steps to go.
abbrev Nearer : ℕ → (ℕ → MarketDataTick) → ℕ → Feed → ℕ → Type 0
Nearer size log sent g left =
    (r : ℕ) × Leaving size g log sent r × (rank g.thread (sent - r) ≤ left - 1)

module _ {size : ℕ} (v : IsCapacity size) (f : Feed) (log : ℕ → MarketDataTick) (sent received : ℕ)
    (l : Leaving size f log sent received) where
  moves :
      (t : Loop) (left : ℕ)
      → t ≢ absent
      → (t ≡ finished → received ≡ sent)
      → rank t (sent - received) ≤ left - 1
      → Nearer size log sent (record f { thread = t }) left
  moves t left there dry le =
      (received, record { queue = l.queue; stopped = l.stopped; there = there; dry = dry }, le)

  -- The test of the ring tells whether anything is left in it.
  empty-received : RingBuffer.empty f.ring ≡ true → received ≡ sent
  unfolding RingBuffer.empty
  empty-received e =
      mod-injective size received sent (omega (arith, v.two)) l.queue.behind l.queue.room
        (sym l.queue.tail ∙ sym ((==_iff f.ring.head f.ring.tail).0 e) ∙ l.queue.head)

  more-received : RingBuffer.empty f.ring ≡ false → received < sent
  unfolding RingBuffer.empty
  more-received e =
      let behind = l.queue.behind in
      let differ : received ≢ sent = λ same. absurd (
        cc (
          e,
          (==_iff f.ring.head f.ring.tail).1
              (l.queue.head ∙ ap (λ n. n % size) (sym same) ∙ sym l.queue.tail),
        )) in
      elim (dec_lt received sent) [ yes lt ↦ lt | no ge ↦ absurd (differ (omega arith)) ]

  advance-Nearer :
      (t : Loop) → f.thread ≡ t → Nearer size log sent (advance t f) (rank t (sent - received))
  unfolding advance popped handle count_tick
  advance-Nearer absent e = absurd (l.there e)
  advance-Nearer checking e =
      subst
        (λ c.
          Nearer size log sent (record f { thread = if c then popping else draining })
            (rank checking (sent - received)))
        (sym l.stopped)
        (moves draining (rank checking (sent - received)) (λ x. absurd (cc x)) (λ x. absurd (cc x))
          (omega arith))
  advance-Nearer draining e = elim (Bool-cases (RingBuffer.empty f.ring)) [
    | inl none_left ↦ rw none_left (
        moves finished (rank draining (sent - received)) (λ x. absurd (cc x))
          (λ x. empty-received none_left) (omega arith))
    | inr more ↦
        let lt = more-received more in
        rw more (
          moves popping (rank draining (sent - received)) (λ x. absurd (cc x)) (λ x. absurd (cc x))
            (ground (arith, lt)))
  ]
  advance-Nearer popping e = elim (pop-Queued v f.ring log sent received l.queue) [
    | inl (same, all) ↦
        subst (λ p. Nearer size log sent (popped p f) (rank popping (sent - received))) (sym same)
          (moves checking (rank popping (sent - received)) (λ x. absurd (cc x)) (λ x. absurd (cc x))
            (ground (arith, all)))
    | inr (is, q) ↦
        let le = q.behind in
        subst (λ p. Nearer size log sent (popped p f) (rank popping (sent - received)))
          (sym (ap (λ o. (o, (RingBuffer.pop f.ring).1)) is))
          (
            suc received,
            record {
              queue = q;
              stopped = l.stopped;
              there = λ x. absurd (cc x);
              dry = λ x. absurd (cc x);
            },
            ground (arith, le),
          )
  ]
  advance-Nearer (handling tick) e = (
    received,
    record {
      queue = l.queue;
      stopped = l.stopped;
      there = λ x. absurd (cc x);
      dry = λ x. absurd (cc x);
    },
    omega arith,
  )
  advance-Nearer called e = (
    received,
    record {
      queue = l.queue;
      stopped = l.stopped;
      there = λ x. absurd (cc x);
      dry = λ x. absurd (cc x);
    },
    omega arith,
  )
  advance-Nearer finished e =
      (received, l, subst (λ t. rank t (sent - received) ≤ 0) (sym e) (omega arith))

rank-zero : (t : Loop) (q : ℕ) → t ≢ absent → rank t q ≤ 0 → t ≡ finished
rank-zero absent q there le = absurd (there refl)
rank-zero checking q there le = absurd (omega (arith, le))
rank-zero draining q there le = absurd (omega (arith, le))
rank-zero popping q there le = absurd (ground (arith, le))
rank-zero (handling tick) q there le = absurd (omega (arith, le))
rank-zero called q there le = absurd (omega (arith, le))
rank-zero finished q there le = refl

pub ends :
    {size : ℕ} (v : IsCapacity size) (n : ℕ) (f : Feed) (log : ℕ → MarketDataTick)
    (sent received : ℕ)
    → Leaving size f log sent received
    → rank f.thread (sent - received) ≤ n
    → ((rounds n f).thread ≡ finished) × Queued size (rounds n f).ring log sent sent
unfolding consume
ends {size} v zero f log sent received l le =
    let e = rank-zero f.thread (sent - received) l.there le in
    (e, subst (Queued size f.ring log sent) (l.dry e) l.queue)
ends v (suc n) f log sent received l le =
    let next = advance-Nearer v f log sent received l f.thread refl in
    ends v n (consume f) log sent next.0 next.1 (omega (arith, le, next.2))

pub rank-le : (t : Loop) (q size : ℕ) → q < size → rank t q ≤ 5 * size
rank-le absent q size lt = omega arith
rank-le checking q size lt = omega arith
rank-le draining q size lt = omega arith
rank-le popping q size lt = ground (arith, lt)
rank-le (handling tick) q size lt = omega arith
rank-le called q size lt = omega arith
rank-le finished q size lt = omega arith
