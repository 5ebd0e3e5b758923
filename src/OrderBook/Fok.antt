-- ===== src/OrderBook/Fok.antt =====
-- FOK orders: `check_fok_fillable` and what `match_order` does with its answer.
use hft_order_book_simulator.Common.{
  ℕ, ◌+◌, ◌%◌, ◌^◌, ◌≤◌, ◌≡◌, refl, sym, ap, ◌∙◌, subst, Bool, true, false, ◌&&◌, List, [], ◌∷◌,
  if◌then◌else◌, arith, Bool-cases, inl, inr, ◌⊎◌, ltb,
}
use hft_order_book_simulator.Common.Words.{add32}
use hft_order_book_simulator.Types.{Order, Ptr, Price, Quantity, Side, fok, rejected, is_active}
use hft_order_book_simulator.PriceLevel.{Heap}
use hft_order_book_simulator.OrderBook.{OrderBook, Levels, heap, levels, publish_market_data}
use hft_order_book_simulator.OrderBook.Matching.{
  match_against, stops_at, opposite, fok_available, check_fok_fillable, is_limit, is_fok, loop_fuel,
  match_order, reject, settle,
}
use hft_order_book_simulator.OrderBook.Sides.{SideOk, all_of, sum_remaining}
use hft_order_book_simulator.OrderBook.Sides.Level.{Taker}
use hft_order_book_simulator.OrderBook.Sides.Outer.{Stopped}
use hft_order_book_simulator.OrderBook.Sides.Sweep.{Ready, match_against_lem, sum_remaining-append}

add32-le : (a total sum : ℕ) → total ≡ sum % 2 ^ 32 → add32 a total ≤ a + sum
unfolding add32
add32-le a total sum e = omega arith

idle_of_full : (o : Order) → Taker o → o.filled_qty ≡ o.quantity → is_active o ≡ false
idle_of_full o w e = elim (Bool-cases (is_active o)) [
  | inl busy ↦ absurd (omega (arith, w.open_if busy))
  | inr idle ↦ idle
]

-- What the check adds up is at most what remains of the orders of the side.
fok_available-le :
    (s : Side) (h : Heap) (px : Price) (qty available : Quantity) (m : Levels)
    (qs : List (List Ptr))
    → SideOk s h m qs
    → fok_available s px qty available m ≤ available + sum_remaining h (all_of qs)
unfolding fok_available
fok_available-le s h px qty available [] [] v = omega arith
fok_available-le s h px qty available [] (ps ∷ qs) v = absurd v
fok_available-le s h px qty available ((k, l) ∷ m) [] v = absurd v
fok_available-le s h px qty available ((k, l) ∷ m) (ps ∷ qs) v =
    let sum = sum_remaining-append h ps (all_of qs) in
    let ih = fok_available-le s h px qty (add32 available l.total_qty) m qs v.3 in
    let more : add32 available l.total_qty ≤ available + sum_remaining h ps =
      add32-le available l.total_qty (sum_remaining h ps) v.0.total in
    ground (arith, sum, ih, more)

no_levels_left :
    (s : Side) (h : Heap) (left : List (List Ptr))
    → SideOk s h [] left
    → sum_remaining h (all_of left) ≡ 0
no_levels_left s h [] v = refl
no_levels_left s h (ps ∷ qs) v = absurd v

fok-never-stops : (s : Side) (o : Order) (k : Price) → o.type ≡ fok → stops_at s o k ≡ false
unfolding stops_at
fok-never-stops s o k e = ground (arith, ap is_limit e)

-- An order that is not a LIMIT order leaves the loop filled, or with nothing left to trade with.
Stopped-nonlimit :
    (s : Side) (o : Order) (h : Heap) (m : Levels) (left : List (List Ptr))
    → o.type ≡ fok
    → SideOk s h m left
    → Stopped s o m
    → (is_active o ≡ false) ⊎ (sum_remaining h (all_of left) ≡ 0)
Stopped-nonlimit s o h [] left e v st = inr (no_levels_left s h left v)
Stopped-nonlimit s o h ((k, l) ∷ m) left e v (inl idle) = inl idle
Stopped-nonlimit s o h ((k, l) ∷ m) left e v (inr st) = cc (fok-never-stops s o k e)

-- An FOK order that passes the check is traded completely.
fok-fills :
    (s : Side) (b : OrderBook) (t : Ptr) (qs : List (List Ptr))
    → Ready s b t qs
    → (heap b t).type ≡ fok
    → (heap b t).filled_qty ≡ 0
    → (heap b t).quantity ≤ fok_available s (heap b t).price (heap b t).quantity 0 (levels s b)
    → let o = heap (match_against (loop_fuel b) s t b) t in
      (o.filled_qty ≡ (heap b t).quantity) × (is_active o ≡ false)
fok-fills s b t qs r e z h =
    let b' = match_against (loop_fuel b) s t b in
    let run = match_against_lem s b t qs r in
    let type' : (heap b' t).type ≡ fok = ap (λ (o : Order). o.type) run.same ∙ e in
    let qty' : (heap b' t).quantity ≡ (heap b t).quantity =
      ap (λ (o : Order). o.quantity) run.same in
    let enough =
      fok_available-le s (heap b) (heap b t).price (heap b t).quantity 0 (levels s b) qs r.side in
    let full : (heap b' t).filled_qty ≡ (heap b' t).quantity =
      elim (Stopped-nonlimit s (heap b' t) (heap b') (levels s b') run.left type' run.ok
        run.stopped) [
          | inl idle ↦ run.taker.full_if idle
          | inr none_left ↦ omega (arith, run.balance, run.taker.within)
        ] in
    (full ∙ qty', idle_of_full (heap b' t) run.taker full)

abbrev pub Rejected : OrderBook → Ptr → OrderBook → Type 0
Rejected b t b' =
    (b'.bids ≡ b.bids)
    × (b'.asks ≡ b.asks)
    × (b'.events ≡ b.events)
    × ((heap b' t).status ≡ rejected)
    × ((heap b' t).filled_qty ≡ 0)

reject-Rejected : (b : OrderBook) (t : Ptr) → (heap b t).filled_qty ≡ 0 → Rejected b t (reject t b)
unfolding reject
reject-Rejected b t z = (refl, refl, refl, ground arith, ground arith)

publish-heap : (b : OrderBook) → heap (publish_market_data b) ≡ heap b
unfolding publish_market_data
publish-heap b = elim (Bool-cases b.on_market_data) [ inl e ↦ rw e | inr e ↦ rw e ]

settle-idle : (b : OrderBook) (t : Ptr) → is_active (heap b t) ≡ false → heap (settle t b) ≡ heap b
unfolding settle
settle-idle b t idle = rw idle (publish-heap b)

-- On a passive side that is ready for it, `match_order` with an unfilled FOK order does all or nothing: either the order is rejected, with both sides of the
-- book and the log of callbacks as they were, or its whole quantity is traded.
pub fok_all_or_nothing :
    (b : OrderBook) (t : Ptr) (qs : List (List Ptr))
    → Ready (opposite (heap b t).side) b t qs
    → (heap b t).type ≡ fok
    → (heap b t).filled_qty ≡ 0
    → let b' = match_order t b in
      Rejected b t b'
      ⊎ (((heap b' t).filled_qty ≡ (heap b t).quantity) × (is_active (heap b' t) ≡ false))
unfolding match_order check_fok_fillable
fok_all_or_nothing b t qs r e z =
    let s = opposite (heap b t).side in
    let o = heap b t in
    let check = fok_available s o.price o.quantity 0 (levels s b) in
    let swept = match_against (loop_fuel b) s t b in
    elim (Bool-cases (ltb check o.quantity)) [
      | inl short ↦ inl (
          subst (Rejected b t) (sym (branch (reject t b) (settle t swept) (ap is_fok e) short))
            (reject-Rejected b t z))
      | inr enough ↦
          let (full, idle) = fok-fills s b t qs r e z (ground arith) in
          let same = settle-idle swept t idle in
          inr (
            subst (λ x. ((heap x t).filled_qty ≡ o.quantity) × (is_active (heap x t) ≡ false))
              (sym (branch (reject t b) (settle t swept) (ap is_fok e) enough))
              (
                ap (λ (g : Heap). (g t).filled_qty) same ∙ full,
                ap (λ (g : Heap). is_active (g t)) same ∙ idle,
              ))
    ]
  where
    branch :
        {c d e : Bool} (x y : OrderBook)
        → c ≡ true
        → d ≡ e
        → (if c && d then x else y) ≡ (if e then x else y)
    branch x y p q = rw (p, q)
