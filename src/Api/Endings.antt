-- ===== src/Api/Endings.antt =====
-- The ends of a round of the consumer, on books that are in order, written out.
use stock_trading_platform.Prelude.{ℕ, suc, ◌≤◌, ◌≡◌, refl, ap, subst, sym, true, ◌⊎◌, inl, inr}
use stock_trading_platform.Events.{OrderType, limit, market}
use stock_trading_platform.OrderBook.Book.{OrderBook, overflow, Result, ok}
use stock_trading_platform.Engine.Manager.{is_supported}
use stock_trading_platform.Engine.Matcher.{EngineOutcome, engine_submit}
use stock_trading_platform.Engine.Routing.{IsSubmittable, IsManager}
use stock_trading_platform.Risk.Checker.{RiskViolation, Check, passed, overflowed, violated, check}
use stock_trading_platform.Api.Consumer.{
  Platform, Reply, refused, failed, after_matching, open_order, execute, after_check, after_book,
  after_risk, check_spread, consume,
}
use stock_trading_platform.Api.Answers

module _ (clock : ℕ → ℕ) (now n : ℕ) (p : Platform) (o : ℕ)
    (v : IsManager p.heap n p.engine.manager) (fresh : n ≤ o) (good : IsSubmittable (p.heap o))
    (supported : is_supported (p.heap o).ticker p.engine.manager.supported_tickers ≡ true) where
  abbrev pub matched : EngineOutcome
  matched = (Answers.engine_submit_lem clock now n p o v fresh good supported).0

  pub matched_lem : engine_submit clock now p.heap p.engine o ≡ ok matched
  matched_lem = (Answers.engine_submit_lem clock now n p o v fresh good supported).1

  pub matched_kept : IsManager matched.heap (suc o) matched.engine.manager
  matched_kept = (Answers.engine_submit_lem clock now n p o v fresh good supported).2

  -- Refused or out of range with nothing changed, or executed to the end.
  abbrev pub Ends : Platform × Reply → Type 0
  Ends z =
      ((x : RiskViolation) × ◌≡◌ {A = Platform × Reply} z (p, refused x))
      ⊎ (◌≡◌ {A = Platform × Reply} z (p, failed overflow))
      ⊎ (z ≡ after_matching o (open_order p o) (ok matched))

  execute-Ends : Ends (execute clock now p o)
  unfolding execute
  execute-Ends = inr (inr (ap (after_matching o (open_order p o)) matched_lem))

  after_check-Ends : (k : Check) → Ends (after_check clock now p o k)
  after_check-Ends passed = execute-Ends
  after_check-Ends (violated x) = inl (x, refl)
  after_check-Ends overflowed = inr (inl refl)

  check_spread-Ends : (t : OrderType) → Ends (check_spread clock now p o t)
  check_spread-Ends limit = execute-Ends
  check_spread-Ends market =
      let (b, e) = Answers.get_order_book_lem clock now n p o v fresh good supported in
      subst (λ (x : Result OrderBook). Ends (after_book clock now p o x)) (sym e)
        (after_check-Ends _)

  after_risk-Ends : (k : Check) → Ends (after_risk clock now p o k)
  after_risk-Ends passed = check_spread-Ends (p.heap o).order_type
  after_risk-Ends (violated x) = inl (x, refl)
  after_risk-Ends overflowed = inr (inl refl)

  pub consume-Ends : Ends (consume clock now p o)
  unfolding consume
  consume-Ends = after_risk-Ends (check p.risk (p.heap o))
