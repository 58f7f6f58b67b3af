-- ===== src/Api/Answers.antt =====
-- How a round of the consumer may end, on books that are in order.
use stock_trading_platform.Prelude.{ℕ, suc, ◌≤◌, ◌≡◌, ◌≢◌, refl, ap, sym, ◌∙◌, subst, true, arith}
use stock_trading_platform.Events.{OrderType, limit, market, Heap}
use stock_trading_platform.OrderBook.Book.{
  OrderBook, overflow, Result, ok, get_best_bid, get_best_ask,
}
use stock_trading_platform.Engine.Manager.{is_supported, get_order_book}
use stock_trading_platform.Engine.Matcher.{
  MatchingEngine, EngineOutcome, engine_submit, after_submit, register,
}
use stock_trading_platform.Engine.Routing.{IsSubmittable, IsManager, submit_order-IsManager}
use stock_trading_platform.Risk.Checker.{Check, passed, overflowed, violated, check}
use stock_trading_platform.Risk.Overflow.{IsOutOfRange, check-IsOutOfRange, check_market_spread_lem}
use stock_trading_platform.Api.Consumer.{
  Platform, Reply, executed, refused, failed, record_trades, after_matching, open_order, execute,
  after_check, after_book, after_risk, check_spread, consume,
}
use stock_trading_platform.Api.Logging.{record_trades-log, complete_order-log}

pub register-manager :
    (now : ℕ) (h : Heap) (e : MatchingEngine) (o : ℕ) → (register now h e o).manager ≡ e.manager
register-manager now h e o = ground arith

-- A refused order changes nothing, and so does one with an amount that is out of range; an executed
-- one leaves every book in order; there is no other exception.
abbrev pub Works : Platform → ℕ → Platform × Reply → Type 0
Works p o (p', executed ts) = IsManager p'.heap (suc o) p'.engine.manager
Works p o (p', refused x) = p' ≡ p
Works p o (p', failed e) = (e ≡ overflow) × (p' ≡ p) × IsOutOfRange p.risk (p.heap o)

after_matching-Works :
    (p q : Platform) (o : ℕ) (r : EngineOutcome)
    → IsManager r.heap (suc o) r.engine.manager
    → Works p o (after_matching o q (ok r))
after_matching-Works p q o r m =
    let q' = record q { heap = r.heap; engine = r.engine } in
    let a = record_trades-log o q' r.trades in
    let b = complete_order-log o (record_trades o q' r.trades) in
    let heaps = sym (b.1 ∙ a.1) in
    let engines = sym (b.2 ∙ a.2) in
    subst (λ (x : Heap × MatchingEngine). IsManager x.0 (suc o) x.1.manager)
      (λ i. (heaps i, engines i)) m

module _ (clock : ℕ → ℕ) (now n : ℕ) (p : Platform) (o : ℕ)
    (v : IsManager p.heap n p.engine.manager) (fresh : n ≤ o) (good : IsSubmittable (p.heap o))
    (supported : is_supported (p.heap o).ticker p.engine.manager.supported_tickers ≡ true) where
  pub engine_submit_lem :
      (r : EngineOutcome) × (engine_submit clock now p.heap p.engine o ≡ ok r)
      × IsManager r.heap (suc o) r.engine.manager
  unfolding engine_submit
  engine_submit_lem =
      let (s, e, m) =
        submit_order-IsManager clock p.heap n p.engine.manager o v fresh good supported in
      let made : EngineOutcome = record {
        heap = s.heap;
        engine = register now s.heap (record p.engine { manager = s.manager }) o;
        trades = s.trades;
      } in
      (
        made,
        ap (after_submit now p.engine o) e,
        subst (IsManager s.heap (suc o))
            (sym (register-manager now s.heap (record p.engine { manager = s.manager }) o)) m,
      )

  execute-Works : Works p o (execute clock now p o)
  unfolding execute
  execute-Works =
      let (r, e, m) = engine_submit_lem in
      subst (λ (x : Result EngineOutcome). Works p o (after_matching o (open_order p o) x)) (sym e)
        (after_matching-Works p (open_order p o) o r m)

  after_check-Works : (k : Check) → k ≢ overflowed → Works p o (after_check clock now p o k)
  after_check-Works passed in_range = execute-Works
  after_check-Works (violated x) in_range = refl
  after_check-Works overflowed in_range = absurd (in_range refl)

  pub get_order_book_lem :
      (b : OrderBook) × (get_order_book p.engine.manager (p.heap o).ticker ≡ ok b)
  unfolding get_order_book
  get_order_book_lem = let (b, e) = v.all_supported (p.heap o).ticker supported in (b, ground arith)

  check_spread-Works : (t : OrderType) → Works p o (check_spread clock now p o t)
  check_spread-Works limit = execute-Works
  check_spread-Works market =
      let (b, e) = get_order_book_lem in
      subst (λ (x : Result OrderBook). Works p o (after_book clock now p o x)) (sym e)
        (after_check-Works _ (check_market_spread_lem p.risk (get_best_bid b) (get_best_ask b)))

  after_risk-Works :
      (k : Check) → check p.risk (p.heap o) ≡ k → Works p o (after_risk clock now p o k)
  after_risk-Works passed e = check_spread-Works (p.heap o).order_type
  after_risk-Works (violated x) e = refl
  after_risk-Works overflowed e = (refl, refl, check-IsOutOfRange p.risk (p.heap o) e)

  -- The books are in order, and the order is well-formed, new to the heap's books, and of a
  -- supported ticker. A round of the consumer then ends in one of three ways. The order is executed,
  -- and the books of all tickers are in order again. A risk check refuses it, and the platform is as
  -- it was. Or it is a limit order that would lead its account to an amount of 10 ^ 1_000_000 or
  -- more: then `decimal.Overflow` is raised, and the platform is as it was.
  pub consume-Works : Works p o (consume clock now p o)
  unfolding consume
  consume-Works = after_risk-Works (check p.risk (p.heap o)) refl
