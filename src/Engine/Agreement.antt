-- ===== src/Engine/Agreement.antt =====
-- `MatchingEngine.submit_order` at other times: the clock's and the registration's are seen in the
-- trades and in `registry_timestamps` only.
pub mod Cancellation
use stock_trading_platform.Prelude.{
  ℕ, ◌≡◌, refl, ap, sym, ◌∙◌, subst, String, Bool, true, false, not, Option, none, some, List, [],
  ◌∷◌, arith, inl, inr, Bool-cases, Option-cases, if◌then◌else◌,
}
use stock_trading_platform.Prelude.Dict.{Dict, lookup}
use stock_trading_platform.Events.{OrderType, limit, market, Trade, Heap, is_complete}
use stock_trading_platform.OrderBook.Book.{
  OrderBook, Outcome, Result, ok, raise, unsupported_ticker,
}
use stock_trading_platform.OrderBook.Clock.{
  SameOutcome, SameResult, add_limit_order-SameResult, execute_market_order-SameResult,
}
use stock_trading_platform.Engine.Manager.{
  OrderBookManager, Submitted, is_supported, route_order, update_book, submit_to, submit_order,
}
use stock_trading_platform.Engine.Matcher.{
  MatchingEngine, EngineOutcome, register, after_submit, engine_submit,
}

-- The same but for the times of the registrations.
abbrev pub SameEngine : MatchingEngine → MatchingEngine → Type 0
SameEngine e f = (times : Dict ℕ) × (f ≡ record e { registry_timestamps = times })

abbrev SameSubmitted : Submitted → Submitted → Type 0
SameSubmitted s t = (ts : List Trade) × (t ≡ record s { trades = ts })

abbrev pub SameEngineOutcome : EngineOutcome → EngineOutcome → Type 0
SameEngineOutcome r s = (s.heap ≡ r.heap) × SameEngine r.engine s.engine

module _ (clock clock' : ℕ → ℕ) (h : Heap) where
  module _ (b : OrderBook) (o : ℕ) where
    by_type :
        (t : OrderType) (x y x' y' : Result Outcome)
        → SameResult SameOutcome x x'
        → SameResult SameOutcome y y'
        → SameResult SameOutcome
            (elim t [ limit ↦ x | market ↦ y ])
            (elim t [ limit ↦ x' | market ↦ y' ])
    by_type limit x y x' y' p q = p
    by_type market x y x' y' p q = q

    route_order-SameResult :
        SameResult SameOutcome (route_order clock h b o) (route_order clock' h b o)
    unfolding route_order
    route_order-SameResult =
        by_type (h o).order_type _ _ _ _ (add_limit_order-SameResult clock clock' h b o)
          (execute_market_order-SameResult clock clock' h b o)

  update_book-SameResult :
      (m : OrderBookManager) (t : String) (x x' : Result Outcome)
      → SameResult SameOutcome x x'
      → SameResult SameSubmitted (update_book m t x) (update_book m t x')
  update_book-SameResult m t (ok r) (ok s) (ts, e) = (ts, rw e refl)
  update_book-SameResult m t (raise x) (raise y) e = e
  update_book-SameResult m t (ok r) (raise y) e = absurd e
  update_book-SameResult m t (raise x) (ok s) e = absurd e

  submit_to-SameResult :
      (m : OrderBookManager) (o : ℕ) (b : Option OrderBook)
      → SameResult SameSubmitted (submit_to clock h m o b) (submit_to clock' h m o b)
  submit_to-SameResult m o none = refl
  submit_to-SameResult m o (some b) =
      update_book-SameResult m (h o).ticker (route_order clock h b o) (route_order clock' h b o)
        (route_order-SameResult b o)

  submit_order-SameResult :
      (m : OrderBookManager) (o : ℕ)
      → SameResult SameSubmitted (submit_order clock h m o) (submit_order clock' h m o)
  unfolding submit_order
  submit_order-SameResult m o = elim (Bool-cases (is_supported (h o).ticker m.supported_tickers)) [
    | inl known ↦ rw known (submit_to-SameResult m o (lookup (h o).ticker m.order_books))
    | inr unknown ↦ rw unknown refl
  ]

  register-SameEngine :
      (now now' : ℕ) (h' : Heap) (m : OrderBookManager) (e : MatchingEngine) (times : Dict ℕ)
      (o : ℕ)
      → SameEngine
          (register now h' (record e { manager = m }) o)
          (register now' h' (record e { manager = m; registry_timestamps = times }) o)
  register-SameEngine now now' h' m e times o = elim (Bool-cases (is_complete (h' o))) [
    | inl complete ↦ rw complete (times, refl)
    | inr stays ↦ rw stays (_, refl)
  ]

  after_submit-SameResult :
      (now now' : ℕ) (e : MatchingEngine) (times : Dict ℕ) (o : ℕ) (x x' : Result Submitted)
      → SameResult SameSubmitted x x'
      → SameResult SameEngineOutcome
          (after_submit now e o x)
          (after_submit now' (record e { registry_timestamps = times }) o x')
  after_submit-SameResult now now' e times o (ok r) (ok s) (ts, same) =
      rw same (refl, register-SameEngine now now' r.heap r.manager e times o)
  after_submit-SameResult now now' e times o (raise x) (raise y) same = same
  after_submit-SameResult now now' e times o (ok r) (raise y) same = absurd same
  after_submit-SameResult now now' e times o (raise x) (ok s) same = absurd same

  pub engine_submit-SameResult :
      (now now' : ℕ) (e f : MatchingEngine) (o : ℕ)
      → SameEngine e f
      → SameResult SameEngineOutcome
          (engine_submit clock now h e o)
          (engine_submit clock' now' h f o)
  unfolding engine_submit
  engine_submit-SameResult now now' e f o (times, same) = rw same (
      after_submit-SameResult now now' e times o (submit_order clock h e.manager o)
        (submit_order clock' h e.manager o) (submit_order-SameResult e.manager o))
