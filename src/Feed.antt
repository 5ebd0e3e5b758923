-- ===== src/Feed.antt =====
-- market_data_feed.hpp and market_data_feed.cpp, `class MarketDataFeed`: a producer that publishes ticks, a
-- thread that hands them to a handler, and a caller that starts and stops that thread. Every access to what the threads
-- share is a step of its own. A call of the ring is one, since it takes effect at one access: a `push` that is accepted
-- at the store of `head_`, a `pop` that delivers at the store of `tail_`, and a refusal at the load of the other's index.
pub mod Invariant
pub mod Steps
pub mod Delivery
pub mod Leaving
pub mod Alive
pub mod Stopping
mod Tests
use hft_order_book_simulator.Common.{
  ℕ, Bool, true, false, not, Option, none, some, List, [], ◌∷◌, if◌then◌else◌,
}
use hft_order_book_simulator.Common.Words.{add64}
use hft_order_book_simulator.Types.{MarketDataTick}
use hft_order_book_simulator.RingBuffer
use hft_order_book_simulator.RingBuffer.{RingBuffer}

abbrev ring_size : ℕ
ring_size = 8192

-- Where the consumer thread stands in `consumer_loop`.
pub data Loop : Type 0 where
  absent : Loop  -- no thread, or one that has been joined
  checking : Loop  -- before the load of `running_`
  draining : Loop  -- `running_` was false: before the test of the ring
  popping : Loop
  handling : MarketDataTick → Loop  -- before the call of the handler
  called : Loop  -- before `consumed_.fetch_add`
  finished : Loop

-- Where the producer stands in `publish`.
pub data Publisher : Type 0 where
  idle : Publisher
  counting : Bool → Publisher  -- the ring has answered: before the `fetch_add` on the counter

-- `seen` is what the handler was called with, latest first; `has_handler` says whether there is one, and
-- `joining` whether the caller waits in `join`.
pub record Feed : Type 0 where
  pub ring : RingBuffer MarketDataTick
  pub running : Bool
  pub has_handler : Bool
  pub published : ℕ
  pub consumed : ℕ
  pub dropped : ℕ
  pub thread : Loop
  pub publisher : Publisher
  pub joining : Bool
  pub seen : List MarketDataTick

-- A feed over a ring of the given size.
unfoldable pub construct : ℕ → (ℕ → MarketDataTick) → Feed
construct size raw = record {
  ring = RingBuffer.construct size raw;
  running = false;
  has_handler = false;
  published = 0;
  consumed = 0;
  dropped = 0;
  thread = absent;
  publisher = Publisher.idle;
  joining = false;
  seen = [];
}

abbrev pub ticks_published : Feed → ℕ
ticks_published f = f.published

abbrev pub ticks_consumed : Feed → ℕ
ticks_consumed f = f.consumed

abbrev ticks_dropped : Feed → ℕ
ticks_dropped f = f.dropped

-- `registers` is whether the handler that is passed is one that can be called.
abbrev pub register_handler : Bool → Feed → Feed
register_handler registers f = record f { has_handler = registers }

-- What `publish` does with the answer of the ring.
unfoldable pub pushed : Bool × RingBuffer MarketDataTick → Feed → Feed
pushed (ok, r) f = record f { ring = r; publisher = counting ok }

-- `publish` up to the answer of the ring, which is what it returns.
unfoldable pub push_tick : MarketDataTick → Feed → Feed
unfolding RingBuffer.push pushed
push_tick tick f = pushed (RingBuffer.push tick f.ring) f

-- The rest of `publish`: `published_.fetch_add` or `dropped_.fetch_add`.
unfoldable pub count_publish : Publisher → Feed → Feed
unfolding add64
count_publish Publisher.idle f = f
count_publish (counting true) f = record f {
  published = add64 f.published 1;
  publisher = Publisher.idle;
}
count_publish (counting false) f = record f {
  dropped = add64 f.dropped 1;
  publisher = Publisher.idle;
}

unfoldable pub note : Feed → Feed
unfolding count_publish
note f = count_publish f.publisher f

unfoldable pub start : Feed → Feed
start f = if f.running then f else record f { running = true; thread = checking }

-- `stop` up to the join, and the join, which waits for the thread to finish.
unfoldable pub request_stop : Feed → Feed
request_stop f = if f.running then record f { running = false; joining = true } else f

unfoldable pub join : Feed → Feed
join f = record f { thread = absent; joining = false }

-- `if (tick_opt) { ... }`, up to the test of the handler and the call of the handler
unfoldable pub popped : Option MarketDataTick × RingBuffer MarketDataTick → Feed → Feed
popped (some tick, r) f = record f { ring = r; thread = handling tick }
popped (none, r) f = record f { ring = r; thread = checking }

unfoldable pub handle : MarketDataTick → Feed → Feed
handle tick f = record f { seen = if f.has_handler then tick ∷ f.seen else f.seen; thread = called }

-- `consumed_.fetch_add`
unfoldable pub count_tick : Feed → Feed
unfolding add64
count_tick f = record f { consumed = add64 f.consumed 1; thread = checking }

-- One step of `consumer_loop`.
unfoldable pub advance : Loop → Feed → Feed
unfolding RingBuffer.empty RingBuffer.pop popped handle count_tick
advance absent f = f
advance checking f = record f { thread = if f.running then popping else draining }
advance draining f = record f { thread = if RingBuffer.empty f.ring then finished else popping }
advance popping f = popped (RingBuffer.pop f.ring) f
advance (handling tick) f = handle tick f
advance called f = count_tick f
advance finished f = f

unfoldable pub consume : Feed → Feed
unfolding advance
consume f = advance f.thread f
