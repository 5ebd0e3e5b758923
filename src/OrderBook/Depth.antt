-- ===== src/OrderBook/Depth.antt =====
-- The depth snapshots: the loops of `bid_depth` and `ask_depth` against a plain description.
use hft_order_book_simulator.Common.{
  ℕ, zero, suc, ◌+◌, ◌≡◌, sym, ◌∙◌, arith, List, [], ◌∷◌, ◌++◌, map, length, length-append, take,
  leb, true, false,
}
use mathlib.Core.List.{append_assoc, append-nil}
use hft_order_book_simulator.Types.{Price}
use hft_order_book_simulator.PriceLevel.{PriceLevel}
use hft_order_book_simulator.OrderBook.{OrderBook, Levels}
use hft_order_book_simulator.OrderBook.Queries.{DepthEntry, depth_loop, bid_depth, ask_depth}

-- What a snapshot says of one level.
abbrev pub entry_of : Price × PriceLevel → DepthEntry
entry_of (px, l) = record { price = px; qty = l.total_qty; order_cnt = l.order_count }

depth_loop-take :
    (n k : ℕ) (result : List DepthEntry) (m : Levels)
    → length result + k ≡ n
    → depth_loop n result m ≡ result ++ take k (map entry_of m)
unfolding depth_loop
depth_loop-take n zero result [] e = sym (append-nil result)
depth_loop-take n (suc k) result [] e = sym (append-nil result)
depth_loop-take n zero result ((px, l) ∷ m) e =
    let full : leb n (length result) ≡ true = ground arith in rw full (sym (append-nil result))
depth_loop-take n (suc k) result ((px, l) ∷ m) e =
    let entry = entry_of (px, l) in
    let more : leb n (length result) ≡ false = ground arith in
    let ih =
      depth_loop-take n k (result ++ entry ∷ []) m
        (omega (arith, length-append result (entry ∷ []))) in
    rw more (ih ∙ append_assoc result (entry ∷ []) (take k (map entry_of m)))

-- A snapshot of depth `n` lists the best `n` levels of the side, in the order of the book, or all of them if there are fewer.
pub depth_lem :
    (n : ℕ) (b : OrderBook)
    → (bid_depth n b ≡ take n (map entry_of b.bids))
      × (ask_depth n b ≡ take n (map entry_of b.asks))
unfolding bid_depth ask_depth
depth_lem n b =
    (depth_loop-take n n [] b.bids (omega arith), depth_loop-take n n [] b.asks (omega arith))
