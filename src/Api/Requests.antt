-- ===== src/Api/Requests.antt =====
-- The handlers of trading/api/routes.py that change state: `submit_order` and `cancel_order`. The
-- queue hands the order of a submission to the consumer, whose round stands here in its place.
use stock_trading_platform.Prelude.{
  ℕ, String, Bool, true, false, not, Option, none, some, if◌then◌else◌,
}
use stock_trading_platform.Prelude.Dict.{lookup}
use stock_trading_platform.Events.{OrderSide, OrderType, new, Order, Heap, write}
use stock_trading_platform.OrderBook.Book.{Error, Result, ok, raise}
use stock_trading_platform.Engine.Manager.{is_supported}
use stock_trading_platform.Engine.Matcher.{MatchingEngine, engine_cancel}
use stock_trading_platform.Risk.Checker.{RiskViolation, record_cancel}
use stock_trading_platform.Persistence.EventLog.{append_order_cancelled, append_idempotency_cached}
use stock_trading_platform.Api.Schemas.{OrderResponse, response_of}
use stock_trading_platform.Api.Idempotency.{IdempotencyStore, get, store, has}
use stock_trading_platform.Api.Consumer.{Platform, Reply, executed, refused, failed, consume}

-- `OrderRequest`, after its validation.
pub record OrderRequest : Type 0 where
  pub order_id : Option String
  pub ticker : String
  pub side : OrderSide
  pub order_type : OrderType
  pub quantity : ℕ
  pub price : Option ℕ
  pub account_id : String

-- The order of a request, with a generated id where the request has none.
abbrev pub order_of : OrderRequest → (generated : String) → (now : ℕ) → Order
order_of q generated now = record {
  order_id = elim q.order_id [ none ↦ generated | some id ↦ id ];
  ticker = q.ticker;
  side = q.side;
  order_type = q.order_type;
  quantity = q.quantity;
  price = q.price;
  timestamp = now;
  status = new;
  filled_quantity = 0;
  account_id = q.account_id;
}

-- HTTP 201, 200 for a replayed response, 422 for a ticker or a risk limit, 500 for the rest.
pub data Answer : Type 0 where
  created : OrderResponse → Answer
  replayed : Option OrderResponse → Answer
  unprocessable_ticker : Answer
  unprocessable_order : RiskViolation → Answer
  server_error : Error → Answer

pub record Service : Type 0 where
  pub platform : Platform
  pub idempotency : IdempotencyStore

-- The response is kept and logged under the id that the client gave. The store reads the clock
-- first, at `now`, and the log later, at `logged_at`.
abbrev pub remember : (now logged_at : ℕ) → Option String → OrderResponse → Service → Service
remember now logged_at none r s = s
remember now logged_at (some id) r s = record s {
  idempotency = store now id r 24 s.idempotency;
  platform = record s.platform { log = append_idempotency_cached logged_at id r 24 s.platform.log };
}

abbrev pub respond :
    (now logged_at : ℕ) → OrderRequest → ℕ → Service → Platform × Reply → Service × Answer
respond now logged_at q o s (p, executed ts) =
    let r = response_of (p.heap o) ts in
    (remember now logged_at q.order_id r (record s { platform = p }), created r)
respond now logged_at q o s (p, refused x) = (record s { platform = p }, unprocessable_order x)
respond now logged_at q o s (p, failed e) = (record s { platform = p }, server_error e)

module _ (clock : ℕ → ℕ) (now logged_at : ℕ) (generated : String) (o : ℕ) where
  -- A new order `o`, which the heap does not hold yet.
  abbrev pub submit_new : OrderRequest → Service → Service × Answer
  submit_new q s =
      if not (is_supported q.ticker s.platform.engine.manager.supported_tickers)
      then (s, unprocessable_ticker)
      else let p = record s.platform {
        heap = write s.platform.heap o (order_of q generated now);
      } in
        respond now logged_at q o s (consume clock now p o)

  abbrev pub submit_known :
      OrderRequest → String → Service → IdempotencyStore × Bool → Service × Answer
  submit_known q id s (i, true) =
      let found = get now id i in (record s { idempotency = found.0 }, replayed found.1)
  submit_known q id s (i, false) = submit_new q (record s { idempotency = i })

  abbrev pub submit_with_id : OrderRequest → Service → Option String → Service × Answer
  submit_with_id q s none = submit_new q s
  submit_with_id q s (some id) = submit_known q id s (has now id s.idempotency)

  -- `submit_order`: the idempotency check is before any effect.
  unfoldable pub submit_request : OrderRequest → Service → Service × Answer
  submit_request q s = submit_with_id q s q.order_id

abbrev pub record_canceled : String → Option (String × ℕ) → Platform → Platform
record_canceled id none p = p
record_canceled id (some (ticker, r)) p = record p {
  risk = record_cancel p.risk (p.heap r);
  log = append_order_cancelled id (p.heap r).ticker p.log;
}

abbrev pub after_cancellation :
    String
    → Option (String × ℕ)
    → Platform
    → Result (Heap × MatchingEngine × Bool)
    → Result (Platform × Bool)
after_cancellation id entry p (raise x) = raise x
after_cancellation id entry p (ok (h, e, success)) =
    let p' = record p { heap = h; engine = e } in
    ok (if success then record_canceled id entry p' else p', success)

-- `cancel_order`: the answer says whether an order was canceled.
unfoldable pub cancel_request : String → Platform → Result (Platform × Bool)
cancel_request id p =
    after_cancellation id (lookup id p.engine.order_registry) p (engine_cancel p.heap p.engine id)
