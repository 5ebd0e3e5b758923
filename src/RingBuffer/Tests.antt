-- ===== src/RingBuffer/Tests.antt =====
-- Runs of the ring buffer, of one thread after the other and of both interleaved.
use hft_order_book_simulator.Common.{
  ℕ, ◌-◌, ◌≤◌, ◌<◌, ◌≡◌, ◌↔◌, ◌⊎◌, none, refl, arith, true, false, some,
}
use hft_order_book_simulator.RingBuffer.{
  RingBuffer, construct, push, pop, size_approx, full, empty, usable_capacity, next_index,
}
use hft_order_book_simulator.RingBuffer.Indices.{IsCapacity}
use hft_order_book_simulator.RingBuffer.Threads.{
  Producer, Consumer, System, load_head, find_room, write_slot, store_head, load_tail, find_item,
  read_slot, store_tail, after_write, after_head, after_tail, init, Reach, here, later,
}
use hft_order_book_simulator.RingBuffer.Fifo.{Reach-Inv, fifo}
use hft_order_book_simulator.RingBuffer.Calls.{Queued, Holds-Queued, push-Queued, pop-Queued}
use hft_order_book_simulator.MemoryPool.{update}
use hft_order_book_simulator.RingBuffer.Size.{sizes}

abbrev four : IsCapacity 4
four = record { bits = 2; power = refl; two = omega arith; small = omega arith }

abbrev zeros : ℕ → ℕ
zeros i = 0

abbrev three_in : RingBuffer ℕ
unfolding construct push
three_in = (push 7 (push 6 (push 5 (construct 4 zeros)).1).1).1

full_after_three :
    (full three_in ≡ true) × (size_approx three_in ≡ 3) × ((push 8 three_in).0 ≡ false)
unfolding full size_approx push three_in
full_after_three = (refl, refl, refl)

first_in_first_out : (pop three_in).0 ≡ some 5
unfolding pop three_in
first_in_first_out = refl

-- 5 is pushed and popped; the consumer's loads come between the producer's steps.
abbrev s₀ : System ℕ
s₀ = init (construct 4 zeros)

abbrev s₁ : System ℕ
s₁ = record s₀ { producer = Producer.loaded 5 s₀.ring.head }

abbrev s₂ : System ℕ
s₂ = record s₁ { producer = Producer.checked 5 0 }

abbrev s₃ : System ℕ
s₃ = after_write s₂ 5 0

abbrev s₄ : System ℕ
s₄ = record s₃ { consumer = Consumer.loaded s₃.ring.tail }

abbrev s₅ : System ℕ
s₅ = after_head s₄ 5 0

abbrev s₆ : System ℕ
s₆ = record s₅ { consumer = Consumer.checked 0 }

abbrev s₇ : System ℕ
s₇ = record s₆ { consumer = Consumer.taken 0 (s₆.ring.buffer 0) }

abbrev s₈ : System ℕ
s₈ = after_tail s₇ 0 5

halfway : Reach s₀ s₅
unfolding construct next_index
halfway =
    later
      (later
        (later (later (later here (load_head 5 refl)) (find_room 5 0 refl (λ e. omega (arith, e))))
          (write_slot 5 0 refl))
        (load_tail refl))
      (store_head 5 0 refl)

through : Reach s₀ s₈
unfolding construct next_index
through =
    later (later (later halfway (find_item 0 refl (λ e. omega (arith, e)))) (read_slot 0 refl))
      (store_tail 0 5 refl)

one-Queued : Queued 4 s₅.ring s₅.log 1 0
one-Queued = Holds-Queued four (Reach-Inv four zeros halfway).shared

push-Queued_example :
    ((push 6 s₅.ring ≡ (false, s₅.ring)) × (1 - 0 ≡ 4 - 1))
    ⊎ (((push 6 s₅.ring).0 ≡ true) × Queued 4 (push 6 s₅.ring).1 (update s₅.log 1 6) 2 0)
push-Queued_example = push-Queued four s₅.ring s₅.log 1 0 6 one-Queued

pop-Queued_example :
    ((pop s₅.ring ≡ (none, s₅.ring)) × ◌≡◌ {A = ℕ} 1 0)
    ⊎ (((pop s₅.ring).0 ≡ some (s₅.log 0)) × Queued 4 (pop s₅.ring).1 s₅.log 1 1)
pop-Queued_example = pop-Queued four s₅.ring s₅.log 1 0 one-Queued

fifo_example : (1 ≤ 1) × (1 - 1 ≤ usable_capacity s₈.ring) × ((i : ℕ) → i < 1 → s₈.got i ≡ s₈.log i)
fifo_example = fifo four zeros through

sizes_example :
    (size_approx s₈.ring ≡ 1 - 1)
    × ((empty s₈.ring ≡ true) ↔ (s₈.sent ≡ s₈.received))
    × ((full s₈.ring ≡ true) ↔ (1 - 1 ≡ usable_capacity s₈.ring))
sizes_example = sizes four zeros through
