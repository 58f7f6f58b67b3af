-- ===== src/Api/Validation.antt =====
-- The constraints of `OrderRequest` in trading/api/schemas.py, which pydantic checks before the
-- handler `submit_order` of trading/api/routes.py is called. A body that lacks a required field, or
-- has one of another type, is answered 422 too and does not come here.
pub mod Bounds
mod Tests
use stock_trading_platform.Prelude.{
  ℕ, ◌*◌, String, Bool, true, false, not, ◌&&◌, Option, none, some, leb, ltb, if◌then◌else◌,
}
use Prim.Native.Nat.{◌/◌, ◌^◌}
use Prim.Native.String.{count}
use stock_trading_platform.Events.{OrderSide, OrderType, limit, market}
use stock_trading_platform.Api.Requests.{OrderRequest, Service, Answer, submit_request}

-- A `Decimal` that is not negative: `units` divided by 10 as often as `places` says.
pub record Decimal : Type 0 where
  pub units : ℕ
  pub places : ℕ

-- A body with values of the right types; a price below 0 is not admitted and stands for 0 here.
pub record Body : Type 0 where
  pub order_id : Option String
  pub ticker : String
  pub side : OrderSide
  pub order_type : OrderType
  pub quantity : ℕ
  pub price : Option Decimal
  pub account_id : Option String

-- `min_length` and `max_length`
abbrev pub has_length : ℕ → ℕ → String → Bool
has_length min_length max_length s = leb min_length (count s) && leb (count s) max_length

abbrev pub order_id_valid : Option String → Bool
order_id_valid none = true
order_id_valid (some id) = has_length 1 128 id

abbrev pub account_of_body : Option String → String
account_of_body none = "default"
account_of_body (some a) = a

abbrev pub cents : Decimal → ℕ
cents d = (d.units * 100) / (10 ^ d.places)

-- `price_required_for_limit`
abbrev pub price_fits : OrderType → Option Decimal → Bool
price_fits limit none = false
price_fits limit (some d) = true
price_fits market none = true
price_fits market (some d) = false

abbrev pub request_of : Body → OrderRequest
request_of b = record {
  order_id = b.order_id;
  ticker = b.ticker;
  side = b.side;
  order_type = b.order_type;
  quantity = b.quantity;
  price = elim b.price [ none ↦ none | some d ↦ some (cents d) ];
  account_id = account_of_body b.account_id;
}

module _ (clock : ℕ → ℕ) (now logged_at : ℕ) (generated : String) (o : ℕ) (s : Service) where
  -- `none` is the answer 422 to a body that is not valid.
  abbrev pub after_validation : Option OrderRequest → Service × Option Answer
  after_validation none = (s, none)
  after_validation (some q) =
      let r = submit_request clock now logged_at generated o q s in (r.0, some r.1)

-- The library's check of `decimal_places`.
module _ (within_places : ℕ → Decimal → Bool) where
  abbrev pub price_valid : Option Decimal → Bool
  price_valid none = true
  price_valid (some d) = ltb 0 d.units && within_places 2 d

  abbrev pub is_valid : Body → Bool
  is_valid b =
      order_id_valid b.order_id
      && has_length 1 10 b.ticker
      && ltb 0 b.quantity
      && price_valid b.price
      && has_length 1 50 (account_of_body b.account_id)
      && price_fits b.order_type b.price

  -- `OrderRequest(...)`; `none` is the `ValidationError`.
  unfoldable pub validate : Body → Option OrderRequest
  validate b = if is_valid b then some (request_of b) else none

  -- POST /orders
  unfoldable pub post_order :
      (clock : ℕ → ℕ) (now logged_at : ℕ) (generated : String) (o : ℕ)
      → Body
      → Service
      → Service × Option Answer
  unfolding validate
  post_order clock now logged_at generated o b s =
      after_validation clock now logged_at generated o s (validate b)
