-- ===== src/RingBuffer/Calls.antt =====
-- The calls of the ring buffer as wholes, `push` and `pop` without interruption, on a ring that holds what was
-- accepted and not yet delivered.
use hft_order_book_simulator.Common.{
  ℕ, suc, ◌-◌, ◌≡◌, ◌≢◌, ◌==◌, refl, sym, ap, ◌∙◌, arith, ◌⊎◌, inl, inr, Bool-cases, true, false,
  ==_iff, none, some,
}
use hft_order_book_simulator.MemoryPool.{update}
use hft_order_book_simulator.RingBuffer.{RingBuffer, next_index, construct, push, pop, full}
use hft_order_book_simulator.RingBuffer.Indices.{IsCapacity, mod-injective}
use hft_order_book_simulator.RingBuffer.Threads.{Producer, Consumer, System, after_write, here}
use hft_order_book_simulator.RingBuffer.Size.{full-Shared}
use hft_order_book_simulator.RingBuffer.Fifo.{
  Holds, Reach-Inv, write_slot-Shared, store_head-Shared, store_tail-Shared, find_room-room,
  find_item-item,
}

-- The ring holds the items of `log` from number `received` up to `sent`.
abbrev pub Queued {ℓ} : {T : Type ℓ} → ℕ → RingBuffer T → (ℕ → T) → ℕ → ℕ → Type ℓ
Queued c ring log sent received = Holds c ring log sent log received

ne_of_test : (a b : ℕ) → (a == b) ≡ false → a ≢ b
ne_of_test a b f e = ground arith

module _ {ℓ} {T : Type ℓ} {c : ℕ} (v : IsCapacity c) where
  -- The ring and its history, while neither thread is in a call.
  abbrev between : RingBuffer T → (ℕ → T) → ℕ → ℕ → System T
  between ring log sent received = record {
    ring = ring;
    producer = Producer.idle;
    consumer = Consumer.idle;
    log = log;
    sent = sent;
    got = log;
    received = received;
  }

  pub Holds-Queued :
      {ring : RingBuffer T} {log got : ℕ → T} {sent received : ℕ}
      → Holds c ring log sent got received
      → Queued c ring log sent received
  Holds-Queued I = record {
    capacity = I.capacity;
    head = I.head;
    tail = I.tail;
    behind = I.behind;
    room = I.room;
    stored = I.stored;
    delivered = λ i lt. refl;
  }

  pub construct-Queued : (raw : ℕ → T) → Queued c (construct c raw) raw 0 0
  unfolding construct
  construct-Queued raw = Holds-Queued (Reach-Inv v raw here).shared

  -- For a valid capacity, on a ring that holds the items of `log` from number `received` up to `sent`, `push` either answers false and
  -- changes nothing, as it does only with `Capacity - 1` items in the ring, or it answers true and the item is the next one
  -- of the log.
  pub push-Queued :
      (ring : RingBuffer T) (log : ℕ → T) (sent received : ℕ) (item : T)
      → Queued c ring log sent received
      → ((push item ring ≡ (false, ring)) × (sent - received ≡ c - 1))
        ⊎ (((push item ring).0 ≡ true)
            × Queued c (push item ring).1 (update log sent item) (suc sent) received)
  unfolding push full
  push-Queued ring log sent received item I =
      let s = between ring log sent received in
      elim (Bool-cases (next_index ring.capacity ring.head == ring.tail)) [
        | inl lap ↦ inl (rw lap refl, (full-Shared v s I).0 lap)
        | inr free ↦
            let room =
              find_room-room v s ring.head I I.head
                (ne_of_test (next_index ring.capacity ring.head) ring.tail free) in
            let own : update ring.buffer ring.head item ring.head ≡ item = ground arith in
            let w = write_slot-Shared v s item ring.head I I.head in
            let q =
              store_head-Shared v (after_write s item ring.head) item ring.head w
                (I.head, room, own) in
            inr (rw free refl, rw free (Holds-Queued q))
      ]

  -- For a valid capacity, on a ring that holds the items of `log` from number `received` up to `sent`, `pop` either has nothing and changes nothing, as it does only when every item has been
  -- delivered, or it returns the oldest item that has not been and leaves the others.
  pub pop-Queued :
      (ring : RingBuffer T) (log : ℕ → T) (sent received : ℕ)
      → Queued c ring log sent received
      → ((pop ring ≡ (none, ring)) × (sent ≡ received))
        ⊎ (((pop ring).0 ≡ some (log received)) × Queued c (pop ring).1 log sent (suc received))
  unfolding pop
  pop-Queued ring log sent received I =
      let s = between ring log sent received in
      elim (Bool-cases (ring.tail == ring.head)) [
        | inl same ↦
            let e = (==_iff ring.tail ring.head).0 same in
            inl (
              rw same refl,
              sym (
                  mod-injective c received sent (omega (arith, v.two)) I.behind I.room
                    (sym I.tail ∙ e ∙ I.head)),
            )
        | inr more ↦
            let lt = find_item-item v s ring.tail I I.tail (ne_of_test ring.tail ring.head more) in
            let is = ap ring.buffer I.tail ∙ I.stored received (omega arith) lt in
            let q = store_tail-Shared v s ring.tail (ring.buffer ring.tail) I (I.tail, lt, is) in
            inr (rw more (ap some is), rw more (Holds-Queued q))
      ]
