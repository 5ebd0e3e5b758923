-- ===== src/RingBuffer/Fifo.antt =====
-- spsc_ring_buffer.hpp: the items that go through the ring, in any interleaving of the two threads.
use native.Mathlib.Nat.{zero-mod, add-mod_right}
use native.Mathlib.Decide.{dec_lt}
use hft_order_book_simulator.Common.{
  ℕ, suc, ◌+◌, ◌-◌, ◌%◌, ◌≤◌, ◌<◌, ◌≡◌, ◌≢◌, ◌==◌, refl, sym, ap, ◌∙◌, arith, inl, inr, Bool-cases,
  ==_iff, subst,
}
use hft_order_book_simulator.MemoryPool.{update}
use hft_order_book_simulator.RingBuffer.{RingBuffer, next_index, construct, usable_capacity}
use hft_order_book_simulator.RingBuffer.Indices.{IsCapacity, next_index-pos, mod-ne}
use hft_order_book_simulator.RingBuffer.Threads.{
  Producer, Consumer, System, Step, load_head, find_full, find_room, write_slot, store_head,
  load_tail, find_empty, find_item, read_slot, store_tail, after_write, after_head, after_tail,
  init, Reach, here, later,
}

module _ {ℓ} {T : Type ℓ} (c : ℕ) where
  -- What the producer's local variables say of the shared state.
  abbrev ProducerKnows : System T → Producer T → Type ℓ
  ProducerKnows s Producer.idle = Unit
  ProducerKnows s (Producer.loaded item h) = (h ≡ s.sent % c) × Unit {ℓ}
  ProducerKnows s (Producer.checked item h) =
      (h ≡ s.sent % c) × (suc s.sent < s.received + c) × Unit {ℓ}
  ProducerKnows s (Producer.written item h) =
      (h ≡ s.sent % c) × (suc s.sent < s.received + c) × (s.ring.buffer h ≡ item)

  -- And the consumer's.
  abbrev ConsumerKnows : System T → Consumer T → Type ℓ
  ConsumerKnows s Consumer.idle = Unit
  ConsumerKnows s (Consumer.loaded t) = (t ≡ s.received % c) × Unit {ℓ}
  ConsumerKnows s (Consumer.checked t) = (t ≡ s.received % c) × (s.received < s.sent) × Unit {ℓ}
  ConsumerKnows s (Consumer.taken t item) =
      (t ≡ s.received % c) × (s.received < s.sent) × (item ≡ s.log s.received)

  -- The shared state: the indices are positions, and the slots between them hold what was accepted.
  pub record Holds (ring : RingBuffer T) (log : ℕ → T) (sent : ℕ) (got : ℕ → T) (received : ℕ)
      : Type ℓ where
    pub capacity : ring.capacity ≡ c
    pub head : ring.head ≡ sent % c
    pub tail : ring.tail ≡ received % c
    pub behind : received ≤ sent
    pub room : sent < received + c
    pub stored : (i : ℕ) → received ≤ i → i < sent → ring.buffer (i % c) ≡ log i
    pub delivered : (i : ℕ) → i < received → got i ≡ log i

  abbrev pub Shared : System T → Type ℓ
  Shared s = Holds s.ring s.log s.sent s.got s.received

  pub record Inv (s : System T) : Type ℓ where
    pub shared : Shared s
    pub producer : ProducerKnows s s.producer
    pub consumer : ConsumerKnows s s.consumer

  -- What one thread knows outlives the steps of the other.
  producer_keeps :
      (s t : System T) (k : Producer T)
      → t.sent ≡ s.sent
      → s.received ≤ t.received
      → ((i : ℕ) → t.ring.buffer i ≡ s.ring.buffer i)
      → ProducerKnows s k
      → ProducerKnows t k
  producer_keeps s t Producer.idle e le same kn = tt
  producer_keeps s t (Producer.loaded item h) e le same kn = (rw e kn.0, tt)
  producer_keeps s t (Producer.checked item h) e le same kn = (rw e kn.0, omega arith, tt)
  producer_keeps s t (Producer.written item h) e le same kn =
      (rw e kn.0, omega arith, same h ∙ kn.2)

  consumer_keeps :
      (s t : System T) (k : Consumer T)
      → t.received ≡ s.received
      → s.sent ≤ t.sent
      → ((i : ℕ) → i < s.sent → t.log i ≡ s.log i)
      → ConsumerKnows s k
      → ConsumerKnows t k
  consumer_keeps s t Consumer.idle e le same kn = tt
  consumer_keeps s t (Consumer.loaded i) e le same kn = (rw e kn.0, tt)
  consumer_keeps s t (Consumer.checked i) e le same kn = (rw e kn.0, omega arith, tt)
  consumer_keeps s t (Consumer.taken i item) e le same kn =
      (rw e kn.0, omega arith, kn.2 ∙ sym (same s.received kn.1) ∙ ap t.log (sym e))

module _ {ℓ} {T : Type ℓ} {c : ℕ} (v : IsCapacity c) where
  -- `update` elsewhere.
  update-ne : (f : ℕ → T) (i j : ℕ) (x : T) → j ≢ i → update f i x j ≡ f j
  update-ne f i j x ne = ground arith

  -- A slot that holds an accepted item is not the one that the producer writes.
  pub write_slot-Shared :
      (s : System T) (item : T) (h : ℕ)
      → Shared c s
      → h ≡ s.sent % c
      → Shared c (after_write s item h)
  write_slot-Shared s item h I e = record {
    capacity = I.capacity;
    head = I.head;
    tail = I.tail;
    behind = I.behind;
    room = I.room;
    stored = λ i lo hi.
        update-ne s.ring.buffer h (i % c) item (λ same.
          mod-ne c i s.sent (omega (arith, v.two)) hi (omega (arith, I.room)) (sym e ∙ sym same))
        ∙ I.stored i lo hi;
    delivered = I.delivered;
  }

  pub store_head-Shared :
      (s : System T) (item : T) (h : ℕ)
      → Shared c s
      → ProducerKnows c s (Producer.written item h)
      → Shared c (after_head s item h)
  store_head-Shared s item h I (e, room, kept) = record {
    capacity = I.capacity;
    head = rw (I.capacity, e) (next_index-pos v s.sent);
    tail = I.tail;
    behind = omega (arith, I.behind);
    room = room;
    stored = λ i lo hi. elim (Bool-cases (s.sent == i)) [
      | inl now ↦
          rw now (
            ap s.ring.buffer (ap (λ (n : ℕ). n % c) (sym ((==_iff s.sent i).0 now)) ∙ sym e) ∙ kept)
      | inr old ↦ rw old (I.stored i lo (ground arith))
    ];
    delivered =
        λ i lt. I.delivered i lt ∙ sym (update-ne s.log s.sent i item (omega (arith, I.behind)));
  }

  pub store_tail-Shared :
      (s : System T) (t : ℕ) (item : T)
      → Shared c s
      → ConsumerKnows c s (Consumer.taken t item)
      → Shared c (after_tail s t item)
  store_tail-Shared s t item I (e, some_left, is) = record {
    capacity = I.capacity;
    head = I.head;
    tail = rw (I.capacity, e) (next_index-pos v s.received);
    behind = some_left;
    room = omega (arith, I.room);
    stored = λ i lo hi. I.stored i (omega arith) hi;
    delivered = λ i lt. elim (Bool-cases (s.received == i)) [
      | inl now ↦ rw now (is ∙ ap s.log ((==_iff s.received i).0 now))
      | inr old ↦ rw old (I.delivered i (ground arith))
    ];
  }

  -- The test of `push` tells a full ring from one with room; it stays true until the item is in.
  pub find_room-room :
      (s : System T) (h : ℕ)
      → Shared c s
      → h ≡ s.sent % c
      → next_index s.ring.capacity h ≢ s.ring.tail
      → suc s.sent < s.received + c
  find_room-room s h I e f = elim (dec_lt (suc s.sent) (s.received + c)) [
    | yes lt ↦ lt
    | no ge ↦
        let lap : suc s.sent ≡ s.received + c = omega (arith, I.room) in
        absurd (
          f (
            rw (I.capacity, e, I.tail)
              (next_index-pos v s.sent ∙ ap (λ (n : ℕ). n % c) lap ∙ add-mod_right s.received c)))
  ]

  -- The test of `pop` tells an empty ring from one with an item.
  pub find_item-item :
      (s : System T) (t : ℕ)
      → Shared c s
      → t ≡ s.received % c
      → t ≢ s.ring.head
      → s.received < s.sent
  find_item-item s t I e f = elim (dec_lt s.received s.sent) [
    | yes lt ↦ lt
    | no ge ↦
        let same : s.received ≡ s.sent = omega (arith, I.behind) in
        absurd (f (e ∙ ap (λ (n : ℕ). n % c) same ∙ sym I.head))
  ]

  Step-Inv : {s t : System T} → Step s t → Inv c s → Inv c t
  Step-Inv (load_head item e) I = record {
    shared = I.shared;
    producer = (I.shared.head, tt);
    consumer = I.consumer;
  }
  Step-Inv (find_full item h e f) I = record {
    shared = I.shared;
    producer = tt;
    consumer = I.consumer;
  }
  Step-Inv {s} (find_room item h e f) I =
      let kn = subst (ProducerKnows c s) e I.producer in
      record {
        shared = I.shared;
        producer = (kn.0, find_room-room s h I.shared kn.0 f, tt);
        consumer = I.consumer;
      }
  Step-Inv {s} (write_slot item h e) I =
      let kn = subst (ProducerKnows c s) e I.producer in
      let own : update s.ring.buffer h item h ≡ item = ground arith in
      record {
        shared = write_slot-Shared s item h I.shared kn.0;
        producer = (kn.0, kn.1, own);
        consumer =
            consumer_keeps c s (after_write s item h) s.consumer refl (omega arith) (λ i lt. refl)
              I.consumer;
      }
  Step-Inv {s} (store_head item h e) I =
      let kn = subst (ProducerKnows c s) e I.producer in
      record {
        shared = store_head-Shared s item h I.shared kn;
        producer = tt;
        consumer =
            consumer_keeps c s (after_head s item h) s.consumer refl (omega arith)
              (λ i lt. update-ne s.log s.sent i item (omega arith)) I.consumer;
      }
  Step-Inv (load_tail e) I = record {
    shared = I.shared;
    producer = I.producer;
    consumer = (I.shared.tail, tt);
  }
  Step-Inv (find_empty t e f) I = record { shared = I.shared; producer = I.producer; consumer = tt }
  Step-Inv {s} (find_item t e f) I =
      let kn = subst (ConsumerKnows c s) e I.consumer in
      record {
        shared = I.shared;
        producer = I.producer;
        consumer = (kn.0, find_item-item s t I.shared kn.0 f, tt);
      }
  Step-Inv {s} (read_slot t e) I =
      let kn = subst (ConsumerKnows c s) e I.consumer in
      record {
        shared = I.shared;
        producer = I.producer;
        consumer =
            (kn.0, kn.1, ap s.ring.buffer kn.0 ∙ I.shared.stored s.received (omega arith) kn.1);
      }
  Step-Inv {s} (store_tail t item e) I =
      let kn = subst (ConsumerKnows c s) e I.consumer in
      record {
        shared = store_tail-Shared s t item I.shared kn;
        producer =
            producer_keeps c s (after_tail s t item) s.producer refl (omega arith) (λ i. refl)
              I.producer;
        consumer = tt;
      }

  -- A fresh buffer satisfies the invariant, and every interleaving keeps it.
  init-Inv : (raw : ℕ → T) → Inv c (init (construct c raw))
  unfolding construct
  init-Inv raw = record {
    shared = record {
      capacity = refl;
      head = sym (zero-mod c);
      tail = sym (zero-mod c);
      behind = omega arith;
      room = omega (arith, v.two);
      stored = λ i lo hi. absurd (omega arith);
      delivered = λ i lt. absurd (omega arith);
    };
    producer = tt;
    consumer = tt;
  }

  pub Reach-Inv : (raw : ℕ → T) {s : System T} → Reach (init (construct c raw)) s → Inv c s
  Reach-Inv raw here = init-Inv raw
  Reach-Inv raw (later r st) = Step-Inv st (Reach-Inv raw r)

  -- For a valid capacity, whatever the interleaving of the two threads: no more is delivered than was accepted, at most
  -- `capacity() = Capacity - 1` items wait, and the n-th item delivered is the n-th accepted, so that none is
  -- lost, repeated or reordered.
  pub fifo :
      (raw : ℕ → T) {s : System T}
      → Reach (init (construct c raw)) s
      → (s.received ≤ s.sent)
        × (s.sent - s.received ≤ usable_capacity s.ring)
        × ((i : ℕ) → i < s.received → s.got i ≡ s.log i)
  unfolding usable_capacity
  fifo raw r =
      let I = (Reach-Inv raw r).shared in (I.behind, omega (arith, I.room, I.capacity), I.delivered)
