-- ===== src/Api/Rounds.antt =====
-- What a round of the consumer keeps and what it answers.
use stock_trading_platform.Prelude.{ℕ, ◌≡◌, ◌≢◌, refl, List, [], ◌∷◌, Bool-cases, inl, inr, arith}
use stock_trading_platform.Events.{OrderType, limit, market, Trade, is_complete}
use stock_trading_platform.OrderBook.Book.{OrderBook, Result, ok, raise}
use stock_trading_platform.Engine.Matcher.{EngineOutcome}
use stock_trading_platform.Risk.Checker.{
  RiskChecker, RiskViolation, Check, passed, overflowed, violated, check, record_order_complete,
}
use stock_trading_platform.Risk.Exposure.{opens, fills, closes, Reach, here, next}
use stock_trading_platform.Api.Consumer.{
  Platform, refused, record_trade, record_trades, complete_order, after_matching, open_order,
  execute, after_check, after_book, after_risk, check_spread, consume,
}

abbrev Reaches : RiskChecker → Platform → Type 0
Reaches c p = Reach c p.risk

record_trades-Reaches :
    (c : RiskChecker) (o : ℕ) (p : Platform) (ts : List Trade)
    → Reaches c p
    → Reaches c (record_trades o p ts)
unfolding record_trades
record_trades-Reaches c o p [] r = r
record_trades-Reaches c o p (t ∷ ts) r =
    record_trades-Reaches c o (record_trade o p t) ts (next r (fills t _ _))

complete_order-Reaches :
    (c : RiskChecker) (o : ℕ) (p : Platform) → Reaches c p → Reaches c (complete_order o p)
unfolding record_order_complete
complete_order-Reaches c o p r = elim (Bool-cases (is_complete (p.heap o))) [
  | inl e ↦ rw (e, complete_order) (next r (closes (p.heap o)))
  | inr e ↦ rw (e, complete_order) r
]

after_matching-Reaches :
    (c : RiskChecker) (o : ℕ) (p : Platform) (r : Result EngineOutcome)
    → Reaches c p
    → Reaches c (after_matching o p r).0
after_matching-Reaches c o p (raise e) h = h
after_matching-Reaches c o p (ok r) h =
    complete_order-Reaches c o
      (record_trades o (record p { heap = r.heap; engine = r.engine }) r.trades)
      (record_trades-Reaches c o (record p { heap = r.heap; engine = r.engine }) r.trades h)

after_matching_not_refused :
    (o : ℕ) (p : Platform) (r : Result EngineOutcome) (x : RiskViolation)
    → (after_matching o p r).1 ≢ refused x
after_matching_not_refused o p (raise e) x h = absurd (ground arith)
after_matching_not_refused o p (ok r) x h = absurd (ground arith)

module _ (clock : ℕ → ℕ) (now : ℕ) (p : Platform) (o : ℕ) where
  execute-Reaches : check p.risk (p.heap o) ≡ passed → Reaches p.risk (execute clock now p o).0
  unfolding execute
  execute-Reaches e =
      after_matching-Reaches p.risk o (open_order p o) _ (next here (opens (p.heap o) e))

  after_check-Reaches :
      (k : Check)
      → check p.risk (p.heap o) ≡ passed
      → Reaches p.risk (after_check clock now p o k).0
  after_check-Reaches passed e = execute-Reaches e
  after_check-Reaches (violated x) e = here
  after_check-Reaches overflowed e = here

  after_book-Reaches :
      (b : Result OrderBook)
      → check p.risk (p.heap o) ≡ passed
      → Reaches p.risk (after_book clock now p o b).0
  after_book-Reaches (raise x) e = here
  after_book-Reaches (ok b) e = after_check-Reaches _ e

  check_spread-Reaches :
      (t : OrderType)
      → check p.risk (p.heap o) ≡ passed
      → Reaches p.risk (check_spread clock now p o t).0
  check_spread-Reaches limit e = execute-Reaches e
  check_spread-Reaches market e = after_book-Reaches _ e

  after_risk-Reaches :
      (k : Check) → check p.risk (p.heap o) ≡ k → Reaches p.risk (after_risk clock now p o k).0
  after_risk-Reaches passed e = check_spread-Reaches (p.heap o).order_type e
  after_risk-Reaches (violated x) e = here
  after_risk-Reaches overflowed e = here

  -- A round does to the risk checker what the order's check allows.
  pub consume-Reaches : Reaches p.risk (consume clock now p o).0
  unfolding consume
  consume-Reaches = after_risk-Reaches (check p.risk (p.heap o)) refl

  -- What a refused order leaves: nothing has changed.
  execute_not_refused : (x : RiskViolation) → (execute clock now p o).1 ≢ refused x
  unfolding execute
  execute_not_refused x = after_matching_not_refused o (open_order p o) _ x

  after_check-refused :
      (k : Check) (x : RiskViolation)
      → (after_check clock now p o k).1 ≡ refused x
      → (after_check clock now p o k).0 ≡ p
  after_check-refused passed x e = absurd (execute_not_refused x e)
  after_check-refused (violated y) x e = refl
  after_check-refused overflowed x e = refl

  after_book-refused :
      (b : Result OrderBook) (x : RiskViolation)
      → (after_book clock now p o b).1 ≡ refused x
      → (after_book clock now p o b).0 ≡ p
  after_book-refused (raise y) x e = refl
  after_book-refused (ok b) x e = after_check-refused _ x e

  check_spread-refused :
      (t : OrderType) (x : RiskViolation)
      → (check_spread clock now p o t).1 ≡ refused x
      → (check_spread clock now p o t).0 ≡ p
  check_spread-refused limit x e = absurd (execute_not_refused x e)
  check_spread-refused market x e = after_book-refused _ x e

  after_risk-refused :
      (k : Check) (x : RiskViolation)
      → (after_risk clock now p o k).1 ≡ refused x
      → (after_risk clock now p o k).0 ≡ p
  after_risk-refused passed x e = check_spread-refused (p.heap o).order_type x e
  after_risk-refused (violated y) x e = refl
  after_risk-refused overflowed x e = refl

  -- An order that a risk check refuses, for a limit or for the spread, changes nothing: no order,
  -- no book, no exposure, and nothing is logged.
  pub consume-refused :
      (x : RiskViolation) → (consume clock now p o).1 ≡ refused x → (consume clock now p o).0 ≡ p
  unfolding consume
  consume-refused x e = after_risk-refused (check p.risk (p.heap o)) x e
