-- ===== src/Api/Preserves.antt =====
-- Predicates of the platform, through the steps of a round of the consumer.
use stock_trading_platform.Prelude.{ℕ, List, [], ◌∷◌}
use stock_trading_platform.Events.{OrderType, limit, market, Trade, Heap}
use stock_trading_platform.OrderBook.Book.{OrderBook, Result, ok, raise}
use stock_trading_platform.Engine.Matcher.{MatchingEngine, EngineOutcome, engine_submit}
use stock_trading_platform.Risk.Checker.{Check, passed, overflowed, violated, check}
use stock_trading_platform.Api.Consumer.{
  Platform, record_trade, record_trades, complete_order, after_matching, open_order, execute,
  after_check, after_book, after_risk, check_spread, consume,
}

-- The steps of a round with the order `o`: before its logging `P` holds, and `Q` after it.
pub record RoundKeeps (P Q : Platform → Type 0) (o : ℕ) : Type 0 where
  pub opened : (p : Platform) → P p → Q (open_order p o)
  pub matched :
      (p : Platform) (h : Heap) (e : MatchingEngine) → Q p → Q (record p { heap = h; engine = e })
  pub traded : (p : Platform) (t : Trade) → Q p → Q (record_trade o p t)
  pub completed : (p : Platform) → Q p → Q (complete_order o p)
  pub ended : (p : Platform) → Q p → P p

module _ (P Q : Platform → Type 0) (o : ℕ) (k : RoundKeeps P Q o) where
  record_trades-keeps : (ts : List Trade) (p : Platform) → Q p → Q (record_trades o p ts)
  unfolding record_trades
  record_trades-keeps [] p a = a
  record_trades-keeps (t ∷ ts) p a = record_trades-keeps ts (record_trade o p t) (k.traded p t a)

  after_matching-keeps :
      (r : Result EngineOutcome) (p : Platform) → Q p → P (after_matching o p r).0
  after_matching-keeps (raise e) p a = k.ended p a
  after_matching-keeps (ok r) p a =
      let q = record p { heap = r.heap; engine = r.engine } in
      k.ended (complete_order o (record_trades o q r.trades)) (
        k.completed (record_trades o q r.trades)
          (record_trades-keeps r.trades q (k.matched p r.heap r.engine a)))

  module _ (clock : ℕ → ℕ) (now : ℕ) (p : Platform) (a : P p) where
    execute-keeps : P (execute clock now p o).0
    unfolding execute
    execute-keeps =
        after_matching-keeps (engine_submit clock now p.heap p.engine o) (open_order p o)
          (k.opened p a)

    after_check-keeps : (c : Check) → P (after_check clock now p o c).0
    after_check-keeps passed = execute-keeps
    after_check-keeps (violated x) = a
    after_check-keeps overflowed = a

    after_book-keeps : (b : Result OrderBook) → P (after_book clock now p o b).0
    after_book-keeps (raise e) = a
    after_book-keeps (ok b) = after_check-keeps _

    check_spread-keeps : (t : OrderType) → P (check_spread clock now p o t).0
    check_spread-keeps limit = execute-keeps
    check_spread-keeps market = after_book-keeps _

    after_risk-keeps : (c : Check) → P (after_risk clock now p o c).0
    after_risk-keeps passed = check_spread-keeps (p.heap o).order_type
    after_risk-keeps (violated x) = a
    after_risk-keeps overflowed = a

    pub consume-keeps : P (consume clock now p o).0
    unfolding consume
    consume-keeps = after_risk-keeps (check p.risk (p.heap o))
