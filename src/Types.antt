-- ===== src/Types.antt =====
-- order_types.hpp: the enumerations and the plain structures.
-- Padding and alignment (`alignas(64)`) have no effect on values and are left out.
use hft_order_book_simulator.Common.{ℕ, Bool, true, false, Option, none}
use hft_order_book_simulator.Common.Int.{ℤ, pos}
use hft_order_book_simulator.Common.Words.{sub32}

-- `Price` and `Timestamp` are int64_t, `OrderId` is uint64_t, `Quantity` is uint32_t.
abbrev pub Price : Type 0
Price = ℤ

abbrev pub Timestamp : Type 0
Timestamp = ℤ

abbrev pub OrderId : Type 0
OrderId = ℕ

abbrev pub Quantity : Type 0
Quantity = ℕ

pub data Side : Type 0 where
  bid ask : Side

pub data OrderType : Type 0 where
  limit market ioc fok : OrderType

pub data OrderStatus : Type 0 where
  new partial filled cancelled rejected : OrderStatus

-- The address of an order: the number of its slot in the pool. `none` of `Option Ptr` is nullptr.
abbrev pub Ptr : Type 0
Ptr = ℕ

pub record Order : Type 0 where
  pub id : OrderId
  pub price : Price
  pub quantity : Quantity
  pub filled_qty : Quantity
  pub side : Side
  pub type : OrderType
  pub status : OrderStatus
  pub timestamp : Timestamp
  pub prev : Option Ptr
  pub next : Option Ptr

-- The member initialisers of `Order`.
abbrev pub default_order : Order
default_order = record {
  id = 0;
  price = pos 0;
  quantity = 0;
  filled_qty = 0;
  side = bid;
  type = limit;
  status = new;
  timestamp = pos 0;
  prev = none;
  next = none;
}

unfoldable pub remaining : Order → Quantity
unfolding sub32
remaining o = sub32 o.quantity o.filled_qty

abbrev pub is_active_status : OrderStatus → Bool
is_active_status new = true
is_active_status partial = true
is_active_status _ = false

unfoldable pub is_active : Order → Bool
is_active o = is_active_status o.status

pub record Trade : Type 0 where
  pub maker_order_id : OrderId
  pub taker_order_id : OrderId
  pub price : Price
  pub quantity : Quantity
  pub timestamp : Timestamp

pub record MarketDataTick : Type 0 where
  pub best_bid : Price
  pub best_ask : Price
  pub best_bid_qty : Quantity
  pub best_ask_qty : Quantity
  pub last_trade_px : Price
  pub last_trade_qty : Quantity
  pub timestamp : Timestamp
