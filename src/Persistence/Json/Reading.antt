-- ===== src/Persistence/Json/Reading.antt =====
-- What is written as a dict is read again.
use stock_trading_platform.Prelude.{ℕ, ◌≡◌, refl, String, Option, none, some}
use stock_trading_platform.Events.{
  OrderSide, buy, sell, OrderType, limit, market, OrderStatus, new, partially_filled, filled,
  canceled, rejected, Order, Trade,
}
use stock_trading_platform.Persistence.Json.{
  side_value, type_value, status_value, side_of_value, type_of_value, status_of_value,
  order_to_dict, price_of_dict, dict_to_order, logged_order, replayed_order, trade_to_dict,
  rebuilt_trade,
}

side_of_value-side_value : (s : OrderSide) → side_of_value (side_value s) ≡ some s
unfolding side_of_value
side_of_value-side_value buy = refl
side_of_value-side_value sell = refl

type_of_value-type_value : (t : OrderType) → type_of_value (type_value t) ≡ some t
unfolding type_of_value
type_of_value-type_value limit = refl
type_of_value-type_value market = refl

status_of_value-status_value : (s : OrderStatus) → status_of_value (status_value s) ≡ some s
unfolding status_of_value
status_of_value-status_value new = refl
status_of_value-status_value partially_filled = refl
status_of_value-status_value filled = refl
status_of_value-status_value canceled = refl
status_of_value-status_value rejected = refl

-- The library reads again what it has written.
module _ (str : ℕ → String) (decimal : String → Option ℕ) (isoformat : ℕ → String)
    (fromisoformat : String → Option ℕ) (decimal-str : (p : ℕ) → decimal (str p) ≡ some p)
    (fromisoformat-isoformat : (t : ℕ) → fromisoformat (isoformat t) ≡ some t) where
  price_of_dict_lem :
      (p : Option ℕ)
      → price_of_dict str decimal isoformat fromisoformat
          (elim p [ none ↦ none | some q ↦ some (str q) ])
        ≡ some p
  price_of_dict_lem none = refl
  price_of_dict_lem (some q) = rw (price_of_dict, decimal-str q) refl

  -- Every order, whatever its content, is read from a snapshot, and from the event log, as the
  -- order that was written; and every trade from the event log as the trade that was written.
  pub written_and_read :
      ((x : Order)
        → (dict_to_order str decimal isoformat fromisoformat
              (order_to_dict str decimal isoformat fromisoformat x)
            ≡ some x)
          × (replayed_order str decimal isoformat fromisoformat
                (logged_order str decimal isoformat fromisoformat x)
              ≡ some x))
      × ((t : Trade)
          → rebuilt_trade str decimal isoformat fromisoformat
              (trade_to_dict str decimal isoformat fromisoformat t)
            ≡ some t)
  unfolding dict_to_order order_to_dict replayed_order logged_order rebuilt_trade trade_to_dict
  written_and_read = (
    λ x. (
      rw
          (
            side_of_value-side_value x.side,
            type_of_value-type_value x.order_type,
            price_of_dict_lem x.price,
            status_of_value-status_value x.status,
            fromisoformat-isoformat x.timestamp,
          )
          refl,
      rw
          (
            side_of_value-side_value x.side,
            type_of_value-type_value x.order_type,
            price_of_dict_lem x.price,
            status_of_value-status_value x.status,
            fromisoformat-isoformat x.timestamp,
          )
          refl,
    ),
    λ t. rw (decimal-str t.price, fromisoformat-isoformat t.timestamp) refl,
  )
