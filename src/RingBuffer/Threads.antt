-- ===== src/RingBuffer/Threads.antt =====
-- The two threads of the ring buffer, a shared access at a time, in any interleaving. Each load and store of
-- an index is one step; acquire and release make the store of a slot visible before that of the index, so the
-- steps are taken as sequentially consistent. `log` and `got` record what was accepted and what was
-- delivered; the program has no such variables.
use hft_order_book_simulator.Common.{ℕ, suc, ◌≡◌, ◌≢◌}
use hft_order_book_simulator.MemoryPool.{update}
use hft_order_book_simulator.RingBuffer.{RingBuffer, next_index}

module _ {ℓ} (T : Type ℓ) where
  -- Where the producer stands in `push`, with its local variables.
  pub data Producer : Type ℓ where
    idle : Producer
    loaded : (item : T) → (h : ℕ) → Producer  -- after the load of `head_`
    checked : (item : T) → (h : ℕ) → Producer  -- after the load of `tail_`: not full
    written : (item : T) → (h : ℕ) → Producer  -- after the store to the slot

  -- Where the consumer stands in `pop`.
  pub data Consumer : Type ℓ where
    idle : Consumer
    loaded : (t : ℕ) → Consumer  -- after the load of `tail_`
    checked : (t : ℕ) → Consumer  -- after the load of `head_`: not empty
    taken : (t : ℕ) → (item : T) → Consumer  -- after the read of the slot

  pub record System : Type ℓ where
    pub ring : RingBuffer T
    pub producer : Producer
    pub consumer : Consumer
    pub log : ℕ → T
    pub sent : ℕ
    pub got : ℕ → T
    pub received : ℕ

module _ {ℓ} {T : Type ℓ} where
  -- `buffer_[h] = item`
  abbrev pub after_write : System T → T → ℕ → System T
  after_write s item h = record s {
    ring = record s.ring { buffer = update s.ring.buffer h item };
    producer = Producer.written item h;
  }

  -- `head_.store(next_h)`: the item is accepted.
  abbrev pub after_head : System T → T → ℕ → System T
  after_head s item h = record s {
    ring = record s.ring { head = next_index s.ring.capacity h };
    producer = Producer.idle;
    log = update s.log s.sent item;
    sent = suc s.sent;
  }

  -- `tail_.store((t + 1) & MASK)`: the item is delivered.
  abbrev pub after_tail : System T → ℕ → T → System T
  after_tail s t item = record s {
    ring = record s.ring { tail = next_index s.ring.capacity t };
    consumer = Consumer.idle;
    got = update s.got s.received item;
    received = suc s.received;
  }

  pub data Step (s : System T) : System T → Type ℓ where
    load_head :
        (item : T)
        → s.producer ≡ Producer.idle
        → Step s (record s { producer = Producer.loaded item s.ring.head })
    -- `push` returns false
    find_full :
        (item : T) (h : ℕ)
        → s.producer ≡ Producer.loaded item h
        → next_index s.ring.capacity h ≡ s.ring.tail
        → Step s (record s { producer = Producer.idle })
    find_room :
        (item : T) (h : ℕ)
        → s.producer ≡ Producer.loaded item h
        → next_index s.ring.capacity h ≢ s.ring.tail
        → Step s (record s { producer = Producer.checked item h })
    write_slot :
        (item : T) (h : ℕ) → s.producer ≡ Producer.checked item h → Step s (after_write s item h)
    -- `push` returns true
    store_head :
        (item : T) (h : ℕ) → s.producer ≡ Producer.written item h → Step s (after_head s item h)
    load_tail :
        s.consumer ≡ Consumer.idle → Step s (record s { consumer = Consumer.loaded s.ring.tail })
    -- `pop` returns nullopt
    find_empty :
        (t : ℕ)
        → s.consumer ≡ Consumer.loaded t
        → t ≡ s.ring.head
        → Step s (record s { consumer = Consumer.idle })
    find_item :
        (t : ℕ)
        → s.consumer ≡ Consumer.loaded t
        → t ≢ s.ring.head
        → Step s (record s { consumer = Consumer.checked t })
    read_slot :
        (t : ℕ)
        → s.consumer ≡ Consumer.checked t
        → Step s (record s { consumer = Consumer.taken t (s.ring.buffer t) })
    -- `pop` returns the item
    store_tail :
        (t : ℕ) (item : T) → s.consumer ≡ Consumer.taken t item → Step s (after_tail s t item)

  -- A fresh buffer, before either thread has called anything.
  abbrev pub init : RingBuffer T → System T
  init r = record {
    ring = r;
    producer = Producer.idle;
    consumer = Consumer.idle;
    log = r.buffer;
    sent = 0;
    got = r.buffer;
    received = 0;
  }

  pub data Reach (s : System T) : System T → Type ℓ where
    here : Reach s s
    later : {t u : System T} → Reach s t → Step t u → Reach s u
