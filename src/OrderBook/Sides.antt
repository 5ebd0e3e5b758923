-- ===== src/OrderBook/Sides.antt =====
-- What holds of one side of a book over the memory: the levels stand in the order of their prices, and each is
-- the queue of the active orders at its price, with the total of what remains of them.
pub mod Fill
pub mod Level
pub mod Inner
pub mod Outer
pub mod Sweep
pub mod Prices
pub mod Joining
pub mod Inserting
pub mod Placing
pub mod Members
pub mod Leaving
pub mod Dequeue
pub mod Taking
pub mod Reducing
pub mod Unique
pub mod Loops
pub mod Ending
pub mod Runs
use hft_order_book_simulator.Common.{
  ℕ, zero, suc, ◌+◌, ◌-◌, ◌%◌, ◌^◌, ◌≤◌, ◌<◌, ◌≡◌, ◌≢◌, refl, sym, ap, ◌∙◌, subst, Bool, true,
  false, ◌&&◌, Option, none, some, List, [], ◌∷◌, ◌++◌, ◌==◌, if◌then◌else◌, arith, Bool-cases, inl,
  inr, ==_iff, All, ◌∈◌, ◌∉◌, has, ◌||◌, has-append, length, Distinct,
}
use hft_order_book_simulator.Common.Int.{ltb_ℤ, pos, ◌<ℤ◌}
use hft_order_book_simulator.Common.Words.{add32, sub32}
use hft_order_book_simulator.Types.{
  Order, Ptr, Price, Quantity, Side, bid, ask, OrderType, limit, OrderStatus, filled, partial, new,
  cancelled, rejected, remaining, is_active, is_active_status,
}
use hft_order_book_simulator.PriceLevel
use hft_order_book_simulator.PriceLevel.{PriceLevel, Heap, modify}
use hft_order_book_simulator.PriceLevel.Links.{Links, Links-frame}
use hft_order_book_simulator.PriceLevel.Queue.{IsQueue, SamePayload}
use hft_order_book_simulator.OrderBook.{OrderBook, Levels, heap, before, levels, fill}

-- An order that rests at the price `k` of the side `s`.
pub record Resting (s : Side) (k : Price) (o : Order) : Type 0 where
  pub side : o.side ≡ s
  pub price : o.price ≡ k
  pub positive : pos 0 <ℤ k
  pub active : is_active o ≡ true
  pub open_qty : o.filled_qty < o.quantity
  pub fits : o.quantity < 2 ^ 32

-- What remains of the orders at `ps`.
abbrev pub sum_remaining : Heap → List Ptr → ℕ
sum_remaining h [] = 0
sum_remaining h (p ∷ ps) = remaining (h p) + sum_remaining h ps

-- The level `l` at the price `k` holds the orders at `ps`.
pub record LevelOk (s : Side) (h : Heap) (k : Price) (l : PriceLevel) (ps : List Ptr) : Type 0 where
  pub queue : IsQueue h l ps
  pub price : l.price ≡ k
  pub orders : All (λ p. Resting s k (h p)) ps
  pub total : l.total_qty ≡ sum_remaining h ps % 2 ^ 32

abbrev pub AllPrices : (Price → Type 0) → Levels → Type 0
AllPrices Q [] = Unit {0}
AllPrices Q ((j, l) ∷ m) = Q j × AllPrices Q m

-- All prices of `m` come behind `k`.
abbrev pub Ahead : Side → Price → Levels → Type 0
Ahead s k = AllPrices (λ j. before s k j ≡ true)

-- The levels `m` hold the orders at `qs`, a list for each level, none empty.
abbrev pub SideOk : Side → Heap → Levels → List (List Ptr) → Type 0
SideOk s h [] [] = Unit {0}
SideOk s h [] (ps ∷ qs) = ⊥
SideOk s h ((k, l) ∷ m) [] = ⊥
SideOk s h ((k, l) ∷ m) (ps ∷ qs) = LevelOk s h k l ps × (ps ≢ []) × Ahead s k m × SideOk s h m qs

abbrev pub all_of : List (List Ptr) → List Ptr
all_of [] = []
all_of (ps ∷ qs) = ps ++ all_of qs

pub remaining-sub :
    (o : Order)
    → o.filled_qty ≤ o.quantity
    → o.quantity < 2 ^ 32
    → remaining o ≡ o.quantity - o.filled_qty
unfolding remaining
remaining-sub o h k = omega arith

-- Two memories that hold the same orders at `ps`, links apart.
abbrev pub SameOrders : List Ptr → Heap → Heap → Type 0
SameOrders ps h g = (a : Ptr) → a ∈ ps → g a ≡ record (h a) { prev = (g a).prev; next = (g a).next }

pub Resting-payload :
    (s : Side) (k : Price) (o o' : Order)
    → o' ≡ record o { prev = o'.prev; next = o'.next }
    → Resting s k o
    → Resting s k o'
unfolding is_active
Resting-payload s k o o' e r = subst (Resting s k) (sym e) (record {
  side = r.side;
  price = r.price;
  positive = r.positive;
  active = r.active;
  open_qty = r.open_qty;
  fits = r.fits;
})

pub All-Resting-frame :
    (s : Side) (k : Price) (h g : Heap) (ps : List Ptr)
    → SameOrders ps h g
    → All (λ p. Resting s k (h p)) ps
    → All (λ p. Resting s k (g p)) ps
All-Resting-frame s k h g [] same r = tt
All-Resting-frame s k h g (p ∷ ps) same r = (
  Resting-payload s k (h p) (g p) (same p (ground arith)) r.0,
  All-Resting-frame s k h g ps (λ a i. same a (ground arith)) r.1,
)

remaining-payload :
    (o o' : Order) → o' ≡ record o { prev = o'.prev; next = o'.next } → remaining o' ≡ remaining o
unfolding remaining
remaining-payload o o' e = ap (λ (x : Order). sub32 x.quantity x.filled_qty) e

pub sum_remaining-frame :
    (h g : Heap) (ps : List Ptr) → SameOrders ps h g → sum_remaining g ps ≡ sum_remaining h ps
sum_remaining-frame h g [] same = refl
sum_remaining-frame h g (p ∷ ps) same = omega (
  arith,
  remaining-payload (h p) (g p) (same p (ground arith)),
  sum_remaining-frame h g ps (λ a i. same a (ground arith)),
)

-- A level whose orders are the same in another memory.
pub LevelOk-frame :
    (s : Side) (h g : Heap) (k : Price) (l : PriceLevel) (ps : List Ptr)
    → ((a : Ptr) → a ∈ ps → g a ≡ h a)
    → LevelOk s h k l ps
    → LevelOk s g k l ps
LevelOk-frame s h g k l ps same v =
    let orders : SameOrders ps h g = λ a i. rw (same a i) refl in
    record {
      queue = record {
        head = v.queue.head;
        tail = v.queue.tail;
        links = Links-frame h g none ps none (λ a i. (rw (same a i), rw (same a i))) v.queue.links;
        distinct = v.queue.distinct;
        count = v.queue.count;
      };
      price = v.price;
      orders = All-Resting-frame s k h g ps orders v.orders;
      total = v.total ∙ ap (λ (n : ℕ). n % 2 ^ 32) (sym (sum_remaining-frame h g ps orders));
    }

pub SideOk-frame :
    (s : Side) (h g : Heap) (m : Levels) (qs : List (List Ptr))
    → ((a : Ptr) → a ∈ all_of qs → g a ≡ h a)
    → SideOk s h m qs
    → SideOk s g m qs
SideOk-frame s h g [] [] same v = tt
SideOk-frame s h g [] (ps ∷ qs) same v = absurd v
SideOk-frame s h g ((k, l) ∷ m) [] same v = absurd v
SideOk-frame s h g ((k, l) ∷ m) (ps ∷ qs) same v = (
  LevelOk-frame s h g k l ps (λ a i. same a (rw (has-append a ps (all_of qs), i))) v.0,
  v.1,
  v.2,
  SideOk-frame s h g m qs (λ a i. same a (ground (arith, has-append a ps (all_of qs)))) v.3,
)
