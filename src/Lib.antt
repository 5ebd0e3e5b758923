-- ===== src/Lib.antt =====
-- A model of the order book simulator, with the theorems that make its parts correct.
--
-- The program is a limit order book with price-time priority. An order book owns a pool of orders; each
-- side of it is a map from prices to price levels, and each level is a doubly linked list through the
-- orders at that price. Adding an order allocates it, matches it against the opposite side and lets the
-- rest of it stand in the book or cancels it. A ring buffer between two threads carries market data.
--
-- Files and what they are about:
--   Common      tests on numbers, lists with native lengths, integers, 32 and 64 bit arithmetic, masks
--   Types       order_types.hpp: orders, trades, ticks; `Ptr` is the number of a slot of the pool
--   PriceLevel  order_book.hpp, `struct PriceLevel`: `push_back`, `remove`, `empty` over a memory of orders;
--               Links and Queue say what a list is, Removal takes one order out, Payload
--               is about what is not links
--   MemoryPool  memory_pool.hpp: `allocate`, `deallocate` and the free list; Ownership has the client.
--               Contention has the threads that allocate and free a shared access at a time, with Invariant,
--               Moves and Steps for what each step keeps and Exclusive for what the threads may count on
--   Containers  what the program uses of std::map and std::unordered_map
--   OrderBook   order_book.hpp and order_book.cpp: the state and its steps. Matching has `match_order` and the
--               matching loops, Api the calls, Queries and Depth what a book is asked for, Cancel the
--               laws of `cancel_order`, Refusals the calls that are turned down. Effects says what the
--               single steps change, Sides what a well-formed side is: Fill one trade, Level and Inner one
--               level, Outer and Sweep the side, with Trail for the single steps of the loops; Ledger,
--               Accounts, Keeping and Tally are about the counters and the callback of the trades, Ticks about that of the
--               market data; Fok is about FOK. Sides/Joining, Inserting and Placing are about an order that joins a side, Members,
--               Leaving, Dequeue and Taking about one that leaves it, Reducing about one that shrinks,
--               Unique says what determines the levels, Loops has the two loops without a bound on their
--               rounds, Ending is about their end and Runs about where any run of them leads. Keyed says how the map of the orders and the pool agree, Untouched and
--               Releases what keeps that, Invariant what a well-formed book is and, in its modules, that
--               the calls keep it; Session is about any number of calls, Session/Best about the best prices after them, RoundTrip about an order that is
--               added and cancelled
--   RingBuffer  spsc_ring_buffer.hpp: the operations; Threads runs the two threads a shared access at a
--               time, Indices counts round the ring, Fifo and Size have the results, Calls is about whole calls
--   Feed        market_data_feed.hpp and market_data_feed.cpp: `publish` (`push_tick`, `note`), `start`, `stop` and `consumer_loop` as
--               steps of three threads over the ring; Invariant, Steps and Delivery say what is
--               delivered, Leaving, Alive and Stopping that the loop
--               ends
--   LatencyTimer  latency_timer.hpp: `record`, `record_ns`, `reset`, `count` and `compute`; Sorting is about the sort,
--               Percentiles about what `compute` answers
--   Driver      main.cpp: the scenarios of the pool (PoolCycle), of the matching engine (Matching) and of the load
--               simulation (Load)
-- Tests and Witnesses run the definitions and the theorems on concrete states.
--
-- How the state corresponds. The storage of the pool is the memory that all parts share, a function from
-- slots to orders; a pointer is a slot number, and nullptr is `none`. A std::map is the list of its entries in the
-- order of its comparator. `match_against_asks` and `match_against_bids` are the same code with the sides and
-- the comparison swapped, and so are one definition with the passive side as an argument. Callbacks are a log of
-- what they were called with, and a flag that says whether they are set; they do not call the book. The clock is a
-- function of the number of calls. `stop` is two steps, `request_stop` and `join`, and
-- `publish` two, `push_tick` and `note`; the feed takes each call of the ring as one step, since it takes effect at
-- one access. Integers that wrap are written with their remainder.
-- `compute` takes the operations on `double` as an instance argument.
--
-- Fuel. Each matching loop has one round more than the pool has slots. A round of the inner loop uses up
-- the incoming order or retires one order of the level, and a round of the outer loop empties a level, leaves,
-- or is the last before the order is found to be used up; no level is empty. So the fuel is enough where
-- the orders of the side are different slots of the pool.
--
-- Not modelled: two threads that allocate from one pool at once, which the class does not promise to support;
-- weak memory, since the steps of the ring buffer and of the pool are sequentially consistent; the
-- addresses and the padding of objects; the name of the symbol of a book and of a feed; a handler registered after
-- the start of a feed; the text that `report` of a latency timer prints; of main.cpp what it prints, the
-- timers of the pool scenario, which only go into that text, and the scenarios that measure the throughput of threads.
pub mod Common
pub mod Types
pub mod PriceLevel
pub mod MemoryPool
pub mod Containers
pub mod OrderBook
pub mod RingBuffer
pub mod Feed
pub mod LatencyTimer
pub mod Driver
