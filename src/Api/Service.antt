-- ===== src/Api/Service.antt =====
-- Sessions of submissions on a service whose books are in order.
use stock_trading_platform.Prelude.{ℕ, ◌<◌, ◌≡◌, refl, String, some, arith}
use stock_trading_platform.Events.{limit, Order, Heap, write}
use stock_trading_platform.OrderBook.Book.{overflow}
use stock_trading_platform.Engine.Routing.{IsSubmittable, IsManager}
use stock_trading_platform.Risk.Checker.{RiskChecker}
use stock_trading_platform.Risk.Overflow.{IsOutOfRange}
use stock_trading_platform.Api.Requests.{
  OrderRequest, order_of, Answer, created, replayed, unprocessable_ticker, unprocessable_order,
  server_error, Service,
}

-- What the validation of a request lets through.
pub record IsRequest (q : OrderRequest) : Type 0 where
  pub some_quantity : 0 < q.quantity
  pub priced : q.order_type ≡ limit → (p : ℕ) × (q.price ≡ some p)

-- The books of the service are in order, with references below `n`.
abbrev pub IsService : ℕ → Service → Type 0
IsService n s = IsManager s.platform.heap n s.platform.engine.manager

pub order_of-IsSubmittable :
    (q : OrderRequest) (generated : String) (now : ℕ)
    → IsRequest q
    → IsSubmittable (order_of q generated now)
order_of-IsSubmittable q generated now r = record {
  tracked = record {
    bounded = omega arith;
    status_open = λ l. refl;
    status_filled = λ e. absurd (omega (arith, e, r.some_quantity));
  };
  priced = r.priced;
}

-- No exception but that for an order with an amount that is out of range.
abbrev pub IsAnswered : RiskChecker → Order → Answer → Type 0
IsAnswered c x (created r) = Unit
IsAnswered c x (replayed r) = Unit
IsAnswered c x unprocessable_ticker = Unit
IsAnswered c x (unprocessable_order v) = Unit
IsAnswered c x (server_error e) = (e ≡ overflow) × IsOutOfRange c x

abbrev IsGood : ℕ → RiskChecker → Order → Service × Answer → Type 0
IsGood n c x r = IsService n r.0 × IsAnswered c x r.1

pub write_same : (h : Heap) (o : ℕ) (x : Order) → write h o x o ≡ x
write_same h o x = ground arith
