-- ===== src/Persistence/Json.antt =====
-- The dicts that stand in the event log and in a snapshot: `_order_to_dict` and `_trade_to_dict` of
-- trading/persistence, and the constructor calls that read them again, in snapshot.py and main.py.
pub mod Reading
use stock_trading_platform.Prelude.{ℕ, ◌≡◌, refl, String, Option, none, some, str_eq, if◌then◌else◌}
use stock_trading_platform.Events.{
  OrderSide, buy, sell, OrderType, limit, market, OrderStatus, new, partially_filled, filled,
  canceled, rejected, Order, Trade,
}

-- `e.value`
abbrev pub side_value : OrderSide → String
side_value buy = "BUY"
side_value sell = "SELL"

abbrev pub type_value : OrderType → String
type_value limit = "LIMIT"
type_value market = "MARKET"

abbrev pub status_value : OrderStatus → String
status_value new = "NEW"
status_value partially_filled = "PARTIALLY_FILLED"
status_value filled = "FILLED"
status_value canceled = "CANCELED"
status_value rejected = "REJECTED"

-- `OrderSide(text)` and the like; `none` is the `ValueError` for any other text.
unfoldable pub side_of_value : String → Option OrderSide
side_of_value t = if str_eq t "BUY" then some buy else if str_eq t "SELL" then some sell else none

unfoldable pub type_of_value : String → Option OrderType
type_of_value t =
    if str_eq t "LIMIT" then some limit else if str_eq t "MARKET" then some market else none

unfoldable pub status_of_value : String → Option OrderStatus
status_of_value t =
    if str_eq t "NEW"
    then some new
    else if str_eq t "PARTIALLY_FILLED"
    then some partially_filled
    else if str_eq t "FILLED"
    then some filled
    else if str_eq t "CANCELED"
    then some canceled
    else if str_eq t "REJECTED"
    then some rejected
    else none

-- The keys of an order's dict; their order in the two files differs.
pub record OrderDict : Type 0 where
  pub order_id : String
  pub ticker : String
  pub side : String
  pub order_type : String
  pub quantity : ℕ
  pub filled_quantity : ℕ
  pub price : Option String
  pub status : String
  pub account_id : String
  pub timestamp : String

-- A trade's id stands as its number.
pub record TradeDict : Type 0 where
  pub trade_id : ℕ
  pub ticker : String
  pub buyer_order_id : String
  pub seller_order_id : String
  pub price : String
  pub quantity : ℕ
  pub timestamp : String

-- An exception ends the reading.
infixl 5 ◌>>=◌
abbrev ◌>>=◌ : {A B : Type 0} → Option A → (A → Option B) → Option B
none >>= f = none
some a >>= f = f a

-- The library's texts: `str` and `Decimal` of a price, `isoformat` and `fromisoformat` of a time. A
-- text that they do not read is an exception.
module _ (str : ℕ → String) (decimal : String → Option ℕ) (isoformat : ℕ → String)
    (fromisoformat : String → Option ℕ) where
  unfoldable pub order_to_dict : Order → OrderDict
  order_to_dict x = record {
    order_id = x.order_id;
    ticker = x.ticker;
    side = side_value x.side;
    order_type = type_value x.order_type;
    quantity = x.quantity;
    filled_quantity = x.filled_quantity;
    price = elim x.price [ none ↦ none | some p ↦ some (str p) ];
    status = status_value x.status;
    account_id = x.account_id;
    timestamp = isoformat x.timestamp;
  }

  -- `Decimal(d["price"]) if d["price"] is not None else None`
  abbrev pub price_of_dict : Option String → Option (Option ℕ)
  price_of_dict none = some none
  price_of_dict (some t) = elim (decimal t) [ none ↦ none | some p ↦ some (some p) ]

  unfoldable pub dict_to_order : OrderDict → Option Order
  dict_to_order d = do
    side ← side_of_value d.side
    order_type ← type_of_value d.order_type
    price ← price_of_dict d.price
    status ← status_of_value d.status
    timestamp ← fromisoformat d.timestamp
    some (record {
      order_id = d.order_id;
      ticker = d.ticker;
      side = side;
      order_type = order_type;
      quantity = d.quantity;
      price = price;
      timestamp = timestamp;
      status = status;
      filled_quantity = d.filled_quantity;
      account_id = d.account_id;
    })

  -- The event log's own dict of an order, and how `_replay_event` reads it.
  unfoldable pub logged_order : Order → OrderDict
  logged_order x = record {
    order_id = x.order_id;
    ticker = x.ticker;
    side = side_value x.side;
    order_type = type_value x.order_type;
    quantity = x.quantity;
    price = elim x.price [ none ↦ none | some p ↦ some (str p) ];
    timestamp = isoformat x.timestamp;
    status = status_value x.status;
    filled_quantity = x.filled_quantity;
    account_id = x.account_id;
  }

  unfoldable pub replayed_order : OrderDict → Option Order
  replayed_order d = do
    side ← side_of_value d.side
    order_type ← type_of_value d.order_type
    price ← price_of_dict d.price
    status ← status_of_value d.status
    timestamp ← fromisoformat d.timestamp
    some (record {
      order_id = d.order_id;
      ticker = d.ticker;
      side = side;
      order_type = order_type;
      quantity = d.quantity;
      price = price;
      status = status;
      filled_quantity = d.filled_quantity;
      timestamp = timestamp;
      account_id = d.account_id;
    })

  -- `_trade_to_dict`, and how `_rebuild_risk` reads it.
  unfoldable pub trade_to_dict : Trade → TradeDict
  trade_to_dict t = record {
    trade_id = t.trade_id;
    ticker = t.ticker;
    buyer_order_id = t.buyer_order_id;
    seller_order_id = t.seller_order_id;
    price = str t.price;
    quantity = t.quantity;
    timestamp = isoformat t.timestamp;
  }

  unfoldable pub rebuilt_trade : TradeDict → Option Trade
  rebuilt_trade d = do
    price ← decimal d.price
    timestamp ← fromisoformat d.timestamp
    some (record {
      trade_id = d.trade_id;
      ticker = d.ticker;
      buyer_order_id = d.buyer_order_id;
      seller_order_id = d.seller_order_id;
      price = price;
      quantity = d.quantity;
      timestamp = timestamp;
    })
