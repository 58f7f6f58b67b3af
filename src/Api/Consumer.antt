-- ===== src/Api/Consumer.antt =====
-- `run_consumer` of trading/api/consumer.py: one round of its loop, from the queue to the future's
-- result. The notifications that follow read the state and change nothing of it; they are in
-- Api.Notifications.
use stock_trading_platform.Prelude.{ℕ, String, none, some, List, [], ◌∷◌, if◌then◌else◌}
use stock_trading_platform.Prelude.Dict.{lookup}
use stock_trading_platform.Events.{OrderType, limit, market, Order, Trade, Heap, is_complete}
use stock_trading_platform.OrderBook.Book.{
  OrderBook, Error, overflow, Result, ok, raise, get_best_bid, get_best_ask,
}
use stock_trading_platform.Engine.Manager.{get_order_book}
use stock_trading_platform.Engine.Matcher.{MatchingEngine, EngineOutcome, engine_submit}
use stock_trading_platform.Risk.Checker.{
  RiskChecker, RiskViolation, Check, passed, overflowed, violated, check, check_market_spread,
  record_open_order, record_fill, record_order_complete,
}
use stock_trading_platform.Persistence.EventLog.{
  EventLog, append_order_submitted, append_trade_executed,
}

-- What the consumers share.
pub record Platform : Type 0 where
  pub heap : Heap
  pub engine : MatchingEngine
  pub risk : RiskChecker
  pub log : EventLog

-- What the future of an order is given: the trades, a violation, or another exception.
pub data Reply : Type 0 where
  executed : List Trade → Reply
  refused : RiskViolation → Reply
  failed : Error → Reply

-- The account of a trade's order: the registered order's, or the incoming order's.
abbrev pub account_of : Heap → MatchingEngine → Order → String → String
account_of h e x id = elim (lookup id e.order_registry) [
  | none ↦ x.account_id
  | some (ticker, r) ↦ (h r).account_id
]

-- One trade is logged and recorded as a fill.
abbrev pub record_trade : ℕ → Platform → Trade → Platform
record_trade o p t =
    let buyer = account_of p.heap p.engine (p.heap o) t.buyer_order_id in
    let seller = account_of p.heap p.engine (p.heap o) t.seller_order_id in
    record p {
      log = append_trade_executed t buyer seller p.log;
      risk = record_fill p.risk t buyer seller;
    }

unfoldable pub record_trades : ℕ → Platform → List Trade → Platform
record_trades o p [] = p
record_trades o p (t ∷ ts) = record_trades o (record_trade o p t) ts

abbrev pub complete_order : ℕ → Platform → Platform
complete_order o p =
    if is_complete (p.heap o)
    then record p { risk = record_order_complete p.risk (p.heap o) }
    else p

abbrev pub after_matching : ℕ → Platform → Result EngineOutcome → Platform × Reply
after_matching o p (raise e) = (p, failed e)
after_matching o p (ok r) = (
  complete_order o (record_trades o (record p { heap = r.heap; engine = r.engine }) r.trades),
  executed r.trades,
)

-- The order is registered as open and logged before it is matched.
abbrev pub open_order : Platform → ℕ → Platform
open_order p o = record p {
  risk = record_open_order p.risk (p.heap o);
  log = append_order_submitted (p.heap o) p.log;
}

module _ (clock : ℕ → ℕ) (now : ℕ) where
  -- What follows the write of the log. While the consumer awaits that write, handlers of other
  -- requests may run; a round without them goes on from the platform that it has left.
  abbrev pub match_logged : Platform → ℕ → Platform × Reply
  match_logged p o = after_matching o p (engine_submit clock now p.heap p.engine o)

  unfoldable pub execute : Platform → ℕ → Platform × Reply
  execute p o = match_logged (open_order p o) o

  abbrev pub after_check : Platform → ℕ → Check → Platform × Reply
  after_check p o (violated x) = (p, refused x)
  after_check p o overflowed = (p, failed overflow)
  after_check p o passed = execute p o

  abbrev pub after_book : Platform → ℕ → Result OrderBook → Platform × Reply
  after_book p o (raise e) = (p, failed e)
  after_book p o (ok b) =
      after_check p o (check_market_spread p.risk (get_best_bid b) (get_best_ask b))

  -- A market order needs a book that is not empty and a spread that is not too wide.
  abbrev pub check_spread : Platform → ℕ → OrderType → Platform × Reply
  check_spread p o limit = execute p o
  check_spread p o market = after_book p o (get_order_book p.engine.manager (p.heap o).ticker)

  abbrev pub after_risk : Platform → ℕ → Check → Platform × Reply
  after_risk p o (violated x) = (p, refused x)
  after_risk p o overflowed = (p, failed overflow)
  after_risk p o passed = check_spread p o (p.heap o).order_type

  -- One round, for the order that the queue gave.
  unfoldable pub consume : Platform → ℕ → Platform × Reply
  consume p o = after_risk p o (check p.risk (p.heap o))
