-- ===== src/Api/Validation/Bounds.antt =====
-- What a valid body keeps to, and what the service makes of any body.
use stock_trading_platform.Prelude.{ℕ, ◌*◌, ◌≤◌, ◌<◌, ◌≡◌, String, Option, none, some}
use Prim.Native.Nat.{◌^◌}
use Prim.Native.String.{count}
use stock_trading_platform.Events.{OrderType, limit, market}
use stock_trading_platform.Api.Requests.{OrderRequest, Service}
use stock_trading_platform.Api.Validation.{Decimal, Body}

-- The lengths and numbers that the schema documents.
abbrev pub IsPriced : OrderType → Option Decimal → Option ℕ → Type 0
IsPriced limit none p = ⊥
IsPriced limit (some d) p = (c : ℕ) × (p ≡ some c) × (0 < c) × (d.units * 100 ≡ c * 10 ^ d.places)
IsPriced market d p = p ≡ none

pub record IsInBounds (b : Body) (q : OrderRequest) : Type 0 where
  pub id_length : (id : String) → q.order_id ≡ some id → (1 ≤ count id) × (count id ≤ 128)
  pub ticker_length : (1 ≤ count q.ticker) × (count q.ticker ≤ 10)
  pub account_length : (1 ≤ count q.account_id) × (count q.account_id ≤ 50)
  pub some_quantity : 1 ≤ q.quantity
  pub exact_price : IsPriced q.order_type b.price q.price
