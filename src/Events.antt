-- ===== src/Events.antt =====
-- trading/events/models.py: orders and trades, and the heap of mutable orders.
use stock_trading_platform.Prelude.{ℕ, ◌-◌, String, Bool, true, false, Option, ◌==◌, if◌then◌else◌}

pub data OrderSide : Type 0 where
  buy sell : OrderSide

pub data OrderType : Type 0 where
  limit market : OrderType

pub data OrderStatus : Type 0 where
  new partially_filled filled canceled rejected : OrderStatus

-- Prices are whole cents and times are numbers of a clock.
pub record Order : Type 0 where
  pub order_id : String
  pub ticker : String
  pub side : OrderSide
  pub order_type : OrderType
  pub quantity : ℕ
  pub price : Option ℕ
  pub timestamp : ℕ
  pub status : OrderStatus
  pub filled_quantity : ℕ
  pub account_id : String

-- A trade's `trade_id` is the number n of the text "T{n}".
pub record Trade : Type 0 where
  pub trade_id : ℕ
  pub ticker : String
  pub buyer_order_id : String
  pub seller_order_id : String
  pub price : ℕ
  pub quantity : ℕ
  pub timestamp : ℕ

abbrev pub remaining_quantity : Order → ℕ
remaining_quantity o = o.quantity - o.filled_quantity

abbrev pub is_terminal : OrderStatus → Bool
is_terminal new = false
is_terminal partially_filled = false
is_terminal filled = true
is_terminal canceled = true
is_terminal rejected = true

abbrev pub is_complete : Order → Bool
is_complete o = is_terminal o.status

-- The objects of class `Order` by their identity: book queues, the registry and the callers hold
-- references into one heap, so a fill or a cancellation is seen by all of them.
abbrev pub Heap : Type 0
Heap = ℕ → Order

abbrev pub write : Heap → ℕ → Order → Heap
write h r o s = if s == r then o else h s
