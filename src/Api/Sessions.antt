-- ===== src/Api/Sessions.antt =====
-- Whole sessions of the service: submissions and cancellations in any order.
use stock_trading_platform.Prelude.{
  ℕ, ◌≤◌, ◌≡◌, refl, String, Bool, true, false, Option, none, some, List, [], ◌∷◌, Bool-cases, inl,
  inr, subst, sym,
}
use stock_trading_platform.Events.{Heap, write}
use stock_trading_platform.OrderBook.Book.{Result, ok, raise}
use stock_trading_platform.Engine.Manager.{is_supported}
use stock_trading_platform.Engine.Matcher.{MatchingEngine}
use stock_trading_platform.Risk.Checker.{
  RiskChecker, init_checker, get_notional_exposure, get_ticker_notional,
}
use stock_trading_platform.Risk.Exposure.{Reach, here, next, closes, exposure_bounded}
use stock_trading_platform.Api.Schemas.{OrderResponse}
use stock_trading_platform.Api.Idempotency.{IdempotencyStore, has}
use stock_trading_platform.Api.Consumer.{Platform, Reply, executed, refused, failed, consume}
use stock_trading_platform.Api.Rounds.{consume-Reaches}
use stock_trading_platform.Api.Requests.{
  OrderRequest, order_of, Service, remember, respond, submit_new, submit_known, submit_with_id,
  submit_request, record_canceled, after_cancellation, cancel_request,
}

-- A request that changes state. `clock` gives the times of the trades, `now` that of the request and
-- `logged_at` that of the log entry of its response,
-- `generated` the id for an order without one, and `o` refers to the new order.
pub data Action : Type 0 where
  submits :
      (clock : ℕ → ℕ) (now logged_at : ℕ) (generated : String) (o : ℕ) (q : OrderRequest) → Action
  cancels : (id : String) → Action

abbrev pub kept_platform : Service → Result (Platform × Bool) → Service
kept_platform s (raise x) = s
kept_platform s (ok (p, b)) = record s { platform = p }

abbrev pub act : Action → Service → Service
act (submits clock now logged_at generated o q) s =
    (submit_request clock now logged_at generated o q s).0
act (cancels id) s = kept_platform s (cancel_request id s.platform)

abbrev pub acts : List Action → Service → Service
acts [] s = s
acts (a ∷ rest) s = acts rest (act a s)

Reach-trans : {c d e : RiskChecker} → Reach c d → Reach d e → Reach c e
Reach-trans a here = a
Reach-trans a (next b s) = next (Reach-trans a b) s

remember-risk :
    (now logged_at : ℕ) (id : Option String) (r : OrderResponse) (s : Service)
    → (remember now logged_at id r s).platform.risk ≡ s.platform.risk
remember-risk now logged_at none r s = refl
remember-risk now logged_at (some id) r s = refl

respond-risk :
    (now logged_at : ℕ) (q : OrderRequest) (o : ℕ) (s : Service) (x : Platform × Reply)
    → (respond now logged_at q o s x).0.platform.risk ≡ x.0.risk
respond-risk now logged_at q o s (p, executed ts) =
    remember-risk now logged_at q.order_id _ (record s { platform = p })
respond-risk now logged_at q o s (p, refused x) = refl
respond-risk now logged_at q o s (p, failed e) = refl

module _ (clock : ℕ → ℕ) (now logged_at : ℕ) (generated : String) (o : ℕ) (q : OrderRequest) where
  submit_new-Reaches :
      (s : Service)
      → Reach s.platform.risk (submit_new clock now logged_at generated o q s).0.platform.risk
  submit_new-Reaches s =
      let p = record s.platform { heap = write s.platform.heap o (order_of q generated now) } in
      elim (Bool-cases (is_supported q.ticker s.platform.engine.manager.supported_tickers)) [
        | inl e ↦
            rw (e, submit_new)
              (subst (Reach s.platform.risk)
                (sym (respond-risk now logged_at q o s (consume clock now p o)))
                (consume-Reaches clock now p o))
        | inr e ↦ rw (e, submit_new) here
      ]

  submit_known-Reaches :
      (id : String) (s : Service) (x : IdempotencyStore × Bool)
      → Reach s.platform.risk
          (submit_known clock now logged_at generated o q id s x).0.platform.risk
  submit_known-Reaches id s (i, true) = here
  submit_known-Reaches id s (i, false) = submit_new-Reaches (record s { idempotency = i })

  submit_with_id-Reaches :
      (s : Service) (id : Option String)
      → Reach s.platform.risk
          (submit_with_id clock now logged_at generated o q s id).0.platform.risk
  submit_with_id-Reaches s none = submit_new-Reaches s
  submit_with_id-Reaches s (some id) = submit_known-Reaches id s (has now id s.idempotency)

record_canceled-Reaches :
    (id : String) (entry : Option (String × ℕ)) (p : Platform)
    → Reach p.risk (record_canceled id entry p).risk
record_canceled-Reaches id none p = here
record_canceled-Reaches id (some (t, r)) p = next here (closes (p.heap r))

after_cancellation-Reaches :
    (id : String) (entry : Option (String × ℕ)) (s : Service)
    (x : Result (Heap × MatchingEngine × Bool))
    → Reach s.platform.risk
        (kept_platform s (after_cancellation id entry s.platform x)).platform.risk
after_cancellation-Reaches id entry s (raise e) = here
after_cancellation-Reaches id entry s (ok (h, e, true)) =
    record_canceled-Reaches id entry (record s.platform { heap = h; engine = e })
after_cancellation-Reaches id entry s (ok (h, e, false)) = here

act-Reaches : (a : Action) (s : Service) → Reach s.platform.risk (act a s).platform.risk
unfolding submit_request cancel_request
act-Reaches (submits clock now logged_at generated o q) s =
    submit_with_id-Reaches clock now logged_at generated o q s q.order_id
act-Reaches (cancels id) s = after_cancellation-Reaches id _ s _

acts-Reaches :
    (rest : List Action) (s : Service) → Reach s.platform.risk (acts rest s).platform.risk
acts-Reaches [] s = here
acts-Reaches (a ∷ rest) s = Reach-trans (act-Reaches a s) (acts-Reaches rest (act a s))

-- A service starts with a new risk checker, and with whatever else in its state. After any
-- submissions and cancellations, with whatever content and in whatever order, no account's notional
-- exposure and no account's notional in a ticker is above its limit.
pub service_bounded :
    (p n t x : ℕ) (rest : List Action) (s : Service)
    → s.platform.risk ≡ init_checker p n t x
    → ((a : String) → get_notional_exposure (acts rest s).platform.risk a ≤ n)
      × ((a u : String) → get_ticker_notional (acts rest s).platform.risk a u ≤ t)
service_bounded p n t x rest s e =
    exposure_bounded p n t x
      (subst (λ (c : RiskChecker). Reach c (acts rest s).platform.risk) e (acts-Reaches rest s))
