-- ===== src/Api/Schemas.antt =====
-- `OrderResponse` of trading/api/schemas.py. A `TradeResponse` has the fields of a trade.
use stock_trading_platform.Prelude.{ℕ, String, Option, List}
use stock_trading_platform.Events.{OrderSide, OrderType, OrderStatus, Order, Trade}

pub record OrderResponse : Type 0 where
  pub order_id : String
  pub ticker : String
  pub side : OrderSide
  pub order_type : OrderType
  pub quantity : ℕ
  pub price : Option ℕ
  pub status : OrderStatus
  pub filled_quantity : ℕ
  pub trades : List Trade

-- The response that the handler of a submission builds.
abbrev pub response_of : Order → List Trade → OrderResponse
response_of o trades = record {
  order_id = o.order_id;
  ticker = o.ticker;
  side = o.side;
  order_type = o.order_type;
  quantity = o.quantity;
  price = o.price;
  status = o.status;
  filled_quantity = o.filled_quantity;
  trades = trades;
}
