-- ===== src/OrderBook/Accounts.antt =====
-- The trades of the matching loops, as the counters and the callback have them.
use hft_order_book_simulator.Common.{
  ℕ, ◌+◌, ◌-◌, ◌%◌, ◌^◌, ◌≤◌, ◌<◌, ◌≡◌, refl, ap, ◌∙◌, subst, Bool, true, false, List, [], ◌∷◌,
  ◌++◌, map, length, length-append, if◌then◌else◌, arith, All, All-append,
}
use hft_order_book_simulator.Common.Words.{add64}
use hft_order_book_simulator.Types.{Order, Ptr, Price, Quantity, Side, Trade}
use hft_order_book_simulator.OrderBook.{OrderBook, Event, traded, heap, execute_trade, fill}
use hft_order_book_simulator.OrderBook.Matching.{
  erase_front_if_empty, retire, stops_at, match_against, loop_fuel,
}
use hft_order_book_simulator.OrderBook.Ledger.{
  Ledger, with_trade, trade_of, Quiet, execute_trade-ledger, execute_trade-taker, erase_front-Quiet,
  retire-Quiet,
}
use hft_order_book_simulator.OrderBook.Sides.{remaining-sub}
use hft_order_book_simulator.OrderBook.Sides.Fill.{fill-Filled}
use hft_order_book_simulator.OrderBook.Sides.Sweep.{Ready, match_against_lem}
use hft_order_book_simulator.OrderBook.Trail.{Trail, Next, over, fills_part, fills_whole, erases}

abbrev volume_of : List Trade → ℕ
volume_of [] = 0
volume_of (tr ∷ ts) = tr.quantity + volume_of ts

volume_of-append : (xs ys : List Trade) → volume_of (xs ++ ys) ≡ volume_of xs + volume_of ys
volume_of-append [] ys = omega arith
volume_of-append (x ∷ xs) ys = omega (arith, volume_of-append xs ys)

-- What the callback is called with, if it is set.
abbrev reports : Bool → List Trade → List Event
reports true ts = map traded ts
reports false ts = []

-- The price and the quantity of the latest trade, or else the given ones.
abbrev pub latest : List Trade → Price × Quantity → Price × Quantity
latest [] d = d
latest (tr ∷ ts) d = (tr.price, tr.quantity)

-- A trade for the incoming order `o`, at a price that its limit reaches.
abbrev Fair : Side → Order → Trade → Type 0
Fair s o tr = (tr.taker_order_id ≡ o.id) × (stops_at s o tr.price ≡ false)

-- From `b` to `b'` the incoming order `t` has made the trades `ts`, the latest first.
pub record Accounts (s : Side) (t : Ptr) (b b' : OrderBook) (ts : List Trade) : Type 0 where
  pub gained : (heap b' t).filled_qty ≡ (heap b t).filled_qty + volume_of ts
  pub total_trades : b'.stats.total_trades % 2 ^ 64 ≡ (b.stats.total_trades + length ts) % 2 ^ 64
  pub total_volume : b'.stats.total_volume % 2 ^ 64 ≡ (b.stats.total_volume + volume_of ts) % 2 ^ 64
  pub events : b'.events ≡ reports b.on_trade ts ++ b.events
  pub last_trade :
      ◌≡◌ {A = Price × Quantity}
        (b'.last_trade_px, b'.last_trade_qty)
        (latest ts (b.last_trade_px, b.last_trade_qty))
  pub fair : All (Fair s (heap b t)) ts

reports-append :
    (on : Bool) (xs ys : List Trade) (es : List Event)
    → reports on xs ++ (reports on ys ++ es) ≡ reports on (xs ++ ys) ++ es
reports-append true [] ys es = refl
reports-append true (x ∷ xs) ys es = ap (λ l. traded x ∷ l) (reports-append true xs ys es)
reports-append false xs ys es = refl

latest-append :
    (xs ys : List Trade) (d : Price × Quantity) → latest xs (latest ys d) ≡ latest (xs ++ ys) d
latest-append [] ys d = refl
latest-append (x ∷ xs) ys d = refl

All-weaken :
    {P Q : Trade → Type 0} (ts : List Trade) → ((tr : Trade) → P tr → Q tr) → All P ts → All Q ts
All-weaken [] f h = tt
All-weaken (tr ∷ ts) f h = (f tr h.0, All-weaken ts f h.1)

-- What a part of the loops hands on to the next.
record Goes (s : Side) (t : Ptr) (b b' : OrderBook) (ts : List Trade) : Type 0 where
  accounts : Accounts s t b b' ts
  on : b'.on_trade ≡ b.on_trade
  same : (tr : Trade) → Fair s (heap b' t) tr → Fair s (heap b t) tr
  fits : ((heap b' t).filled_qty ≤ (heap b' t).quantity) × ((heap b' t).quantity < 2 ^ 32)

Goes-trans :
    (s : Side) (t : Ptr) (b b' b'' : OrderBook) (xs ys : List Trade)
    → Goes s t b b' xs
    → Goes s t b' b'' ys
    → Goes s t b b'' (ys ++ xs)
Goes-trans s t b b' b'' xs ys g h =
    let x = g.accounts in
    let y = h.accounts in
    record {
      accounts = record {
        gained = omega (arith, x.gained, y.gained, volume_of-append ys xs);
        total_trades = omega (arith, x.total_trades, y.total_trades, length-append ys xs);
        total_volume = omega (arith, x.total_volume, y.total_volume, volume_of-append ys xs);
        events =
            y.events
            ∙ ap (λ c. reports c ys ++ b'.events) g.on
            ∙ ap (λ es. reports b.on_trade ys ++ es) x.events
            ∙ reports-append b.on_trade ys xs b.events;
        last_trade =
            y.last_trade
            ∙ ap (latest ys) x.last_trade
            ∙ latest-append ys xs (b.last_trade_px, b.last_trade_qty);
        fair = All-append (Fair s (heap b t)) ys xs (All-weaken ys g.same y.fair) x.fair;
      };
      on = h.on ∙ g.on;
      same = λ tr k. g.same tr (h.same tr k);
      fits = h.fits;
    }

abbrev Fits : Order → Type 0
Fits o = (o.filled_qty ≤ o.quantity) × (o.quantity < 2 ^ 32)

Quiet-Goes :
    (s : Side) (t : Ptr) (b b' : OrderBook) → Fits (heap b t) → Quiet t b b' → Goes s t b b' []
unfolding stops_at
Quiet-Goes s t b b' fits q = record {
  accounts = record {
    gained = omega (arith, ap (λ (o : Order). o.filled_qty) q.order);
    total_trades = omega (arith, ap (λ (l : Ledger). l.0.total_trades) q.ledger_same);
    total_volume = omega (arith, ap (λ (l : Ledger). l.0.total_volume) q.ledger_same);
    events = ap (λ (l : Ledger). l.1) q.ledger_same ∙ no_reports b.on_trade b.events;
    last_trade = ap (λ (l : Ledger). let r : Price × Quantity = (l.3, l.4) in r) q.ledger_same;
    fair = tt;
  };
  on = ap (λ (l : Ledger). l.2) q.ledger_same;
  same = λ tr k. subst (λ o. Fair s o tr) q.order k;
  fits = (
    omega (
      arith,
      fits.0,
      ap (λ (o : Order). o.filled_qty) q.order,
      ap (λ (o : Order). o.quantity) q.order,
    ),
    omega (arith, fits.1, ap (λ (o : Order). o.quantity) q.order),
  );
}
  where
    no_reports : (on : Bool) (es : List Event) → es ≡ reports on [] ++ es
    no_reports true es = refl
    no_reports false es = refl

trade-Goes :
    (s : Side) (t p : Ptr) (px : Price) (qty : Quantity) (b : OrderBook)
    → Fits (heap b t)
    → Next s t p px qty b
    → Goes s t b (execute_trade p t px qty b) (trade_of p t px qty b ∷ [])
unfolding with_trade fill stops_at add64
trade-Goes s t p px qty b fits n =
    let tr = trade_of p t px qty b in
    let led = execute_trade-ledger p t px qty b in
    let mine = execute_trade-taker p t px qty b n.apart in
    let room : qty ≤ (heap b t).quantity - (heap b t).filled_qty =
      omega (arith, n.most, remaining-sub (heap b t) fits.0 fits.1) in
    let f = fill-Filled qty (heap b t) (omega (arith, room, fits.0)) fits.1 in
    let filled_qty = ap (λ (o : Order). o.filled_qty) mine ∙ f.filled_qty in
    let quantity = ap (λ (o : Order). o.quantity) mine ∙ f.quantity in
    record {
      accounts = record {
        gained = omega (arith, filled_qty);
        total_trades = omega (arith, ap (λ (l : Ledger). l.0.total_trades) led);
        total_volume = omega (arith, ap (λ (l : Ledger). l.0.total_volume) led);
        events = ap (λ (l : Ledger). l.1) led ∙ one_report b.on_trade tr b.events;
        last_trade = ap (λ (l : Ledger). let r : Price × Quantity = (l.3, l.4) in r) led;
        fair = ((refl, n.reaches), tt);
      };
      on = ap (λ (l : Ledger). l.2) led;
      same = λ x k. subst (λ o. Fair s o x) mine k;
      fits = (omega (arith, filled_qty, quantity, room, fits.0), omega (arith, quantity, fits.1));
    }
  where
    one_report :
        (on : Bool) (tr : Trade) (es : List Event)
        → (if on then traded tr ∷ es else es) ≡ reports on (tr ∷ []) ++ es
    one_report true tr es = refl
    one_report false tr es = refl

Trail-Goes :
    {s : Side} {t : Ptr} {b' : OrderBook} {b : OrderBook} {rs : List Ptr}
    → Trail s t b' rs b
    → Fits (heap b t)
    → (ts : List Trade) × Goes s t b b' ts
Trail-Goes {s} {t} {b'} over fits =
    ([], Quiet-Goes s t b' b' fits (record { ledger_same = refl; order = refl }))
Trail-Goes {s} {t} {b'} {b} (fills_part p px qty n e x) fits =
    let b₁ = execute_trade p t px qty b in
    let first = trade-Goes s t p px qty b fits n in
    let (ts, rest) = Trail-Goes x first.fits in
    (
      ts ++ trade_of p t px qty b ∷ [],
      Goes-trans s t b b₁ b' (trade_of p t px qty b ∷ []) ts first rest,
    )
Trail-Goes {s} {t} {b'} {b} (fills_whole p px qty n e x) fits =
    let b₁ = execute_trade p t px qty b in
    let b₂ = retire s p b₁ in
    let tr = trade_of p t px qty b in
    let first = trade-Goes s t p px qty b fits n in
    let gone = Quiet-Goes s t b₁ b₂ first.fits (retire-Quiet s p t b₁ n.apart) in
    let (ts, rest) = Trail-Goes x gone.fits in
    (
      ts ++ tr ∷ [],
      Goes-trans s t b b₂ b' (tr ∷ []) ts (Goes-trans s t b b₁ b₂ (tr ∷ []) [] first gone) rest,
    )
Trail-Goes {s} {t} {b'} {b} (erases x) fits =
    let b₁ = erase_front_if_empty s b in
    let first = Quiet-Goes s t b b₁ fits (erase_front-Quiet s t b) in
    let (ts, rest) = Trail-Goes x first.fits in (ts ++ [], Goes-trans s t b b₁ b' [] ts first rest)

-- The matching loops, with the fuel that `match_order` gives them, on a passive side that is ready for the order: there is
-- a list of trades, all of the incoming order and at prices that its limit reaches, whose quantities add up to what the
-- order has gained; modulo 2 ^ 64 the counters of trades and of volume have grown by their number and their sum, the
-- callback, if it is set, has been called with them and nothing else, once each and in their order, and the last
-- trade is the last of them.
pub accounts_lem :
    (s : Side) (b : OrderBook) (t : Ptr) (qs : List (List Ptr))
    → Ready s b t qs
    → (ts : List Trade) × Accounts s t b (match_against (loop_fuel b) s t b) ts
accounts_lem s b t qs r =
    let w = r.taker in
    let run = match_against_lem s b t qs r in
    let (ts, g) = Trail-Goes run.trail (w.within, w.fits) in (ts, g.accounts)
