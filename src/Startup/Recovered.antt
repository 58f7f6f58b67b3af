-- ===== src/Startup/Recovered.antt =====
-- The positions of a running service against those that its log tells.
use stock_trading_platform.Prelude.{
  ℕ, ◌≡◌, refl, ap, sym, subst, ◌∙◌, String, Bool, true, false, Option, some, none, List, [], ◌∷◌,
  Bool-cases, inl, inr,
}
use stock_trading_platform.Prelude.Int.{pos, ◌+ℤ◌}
use stock_trading_platform.Events.{Heap, is_complete, write}
use stock_trading_platform.OrderBook.Book.{Result, ok, raise}
use stock_trading_platform.Engine.Manager.{is_supported}
use stock_trading_platform.Engine.Matcher.{MatchingEngine}
use stock_trading_platform.Risk.Checker.{RiskChecker, record_order_complete, get_position}
use stock_trading_platform.Risk.Positions.{change, get_position-record_fill}
use stock_trading_platform.Persistence.EventLog.{
  order_submitted, trade_executed, order_cancelled, idempotency_cached, EventLog, append_event,
}
use stock_trading_platform.Persistence.Replay.{IsEnded}
use stock_trading_platform.Api.Logging.{complete_order-log}
use stock_trading_platform.Api.Schemas.{OrderResponse}
use stock_trading_platform.Api.Idempotency.{IdempotencyStore, has}
use stock_trading_platform.Api.Consumer.{
  Platform, Reply, executed, refused, failed, account_of, complete_order, consume,
}
use stock_trading_platform.Api.Preserves.{RoundKeeps, consume-keeps}
use stock_trading_platform.Api.Requests.{
  OrderRequest, order_of, Service, remember, respond, submit_new, submit_known, submit_with_id,
  submit_request, record_canceled, after_cancellation, cancel_request,
}
use stock_trading_platform.Api.Sessions.{Action, submits, cancels, kept_platform, act, acts}
use stock_trading_platform.Startup.Steps.{rebuild_risk}
use stock_trading_platform.Startup.Positions.{
  get_position-record_open_order, get_position-record_cancel, logged_position, IsUnread,
  logged_position_still, logged_position-append_event, rebuild_risk-position,
}

-- The log tells the positions.
abbrev pub IsTold : Platform → Type 0
IsTold p = (a u : String) → get_position p.risk a u ≡ logged_position p.log a u

-- While nothing was appended yet, the file may end in a piece that is no entry.
abbrev Waits : Platform → Type 0
Waits p = IsTold p × IsUnread p.log.tail

abbrev Runs : Platform → Type 0
Runs p = IsTold p × IsEnded p.log

Runs→Waits : (p : Platform) → Runs p → Waits p
Runs→Waits p (f, ended) = (f, subst IsUnread (sym ended) tt)

complete_order-IsTold : (o : ℕ) (p : Platform) → IsTold p → IsTold (complete_order o p)
unfolding record_order_complete
complete_order-IsTold o p f = elim (Bool-cases (is_complete (p.heap o))) [
  | inl e ↦ rw (e, complete_order) (λ a u. get_position-record_cancel p.risk (p.heap o) a u ∙ f a u)
  | inr e ↦ rw (e, complete_order) f
]

complete_order-Runs : (o : ℕ) (p : Platform) → Runs p → Runs (complete_order o p)
complete_order-Runs o p (f, ended) =
    (complete_order-IsTold o p f, ap (λ (l : EventLog). l.tail) (complete_order-log o p).0 ∙ ended)

round-Waits : (o : ℕ) → RoundKeeps Waits Runs o
unfolding append_event
round-Waits o = record {
  opened = λ p (f, unread). (
    λ a u.
        get_position-record_open_order p.risk (p.heap o) a u
        ∙ f a u
        ∙ sym (logged_position_still (order_submitted (p.heap o)) p.log a u unread (λ z. refl)),
    refl,
  );
  matched = λ p h e f. f;
  traded = λ p t (f, ended). (
    λ a u.
        let buyer = account_of p.heap p.engine (p.heap o) t.buyer_order_id in
        let seller = account_of p.heap p.engine (p.heap o) t.seller_order_id in
        get_position-record_fill p.risk t buyer seller a u
        ∙ ap (λ z. z +ℤ change t buyer seller a u) (f a u)
        ∙ sym (logged_position-append_event (trade_executed t buyer seller) p.log a u ended),
    refl,
  );
  completed = complete_order-Runs o;
  ended = Runs→Waits;
}

remember-Waits :
    (now logged_at : ℕ) (id : Option String) (r : OrderResponse) (s : Service)
    → Waits s.platform
    → Waits (remember now logged_at id r s).platform
unfolding append_event
remember-Waits now logged_at none r s f = f
remember-Waits now logged_at (some id) r s (f, unread) = (
  λ a u.
      f a u
      ∙ sym
          (logged_position_still (idempotency_cached id r _) s.platform.log a u unread (λ z. refl)),
  tt,
)

respond-Waits :
    (now logged_at : ℕ) (q : OrderRequest) (o : ℕ) (s : Service) (x : Platform × Reply)
    → Waits x.0
    → Waits (respond now logged_at q o s x).0.platform
respond-Waits now logged_at q o s (p, executed ts) f =
    remember-Waits now logged_at q.order_id _ (record s { platform = p }) f
respond-Waits now logged_at q o s (p, refused x) f = f
respond-Waits now logged_at q o s (p, failed e) f = f

module _ (clock : ℕ → ℕ) (now logged_at : ℕ) (generated : String) (o : ℕ) (q : OrderRequest) where
  submit_new-Waits :
      (s : Service)
      → Waits s.platform
      → Waits (submit_new clock now logged_at generated o q s).0.platform
  submit_new-Waits s f =
      let p = record s.platform { heap = write s.platform.heap o (order_of q generated now) } in
      elim (Bool-cases (is_supported q.ticker s.platform.engine.manager.supported_tickers)) [
        | inl e ↦
            rw (e, submit_new)
              (respond-Waits now logged_at q o s (consume clock now p o)
                (consume-keeps Waits Runs o (round-Waits o) clock now p f))
        | inr e ↦ rw (e, submit_new) f
      ]

  submit_known-Waits :
      (id : String) (s : Service) (x : IdempotencyStore × Bool)
      → Waits s.platform
      → Waits (submit_known clock now logged_at generated o q id s x).0.platform
  submit_known-Waits id s (i, true) f = f
  submit_known-Waits id s (i, false) f = submit_new-Waits (record s { idempotency = i }) f

  submit_with_id-Waits :
      (s : Service) (id : Option String)
      → Waits s.platform
      → Waits (submit_with_id clock now logged_at generated o q s id).0.platform
  submit_with_id-Waits s none f = submit_new-Waits s f
  submit_with_id-Waits s (some id) f = submit_known-Waits id s (has now id s.idempotency) f

record_canceled-Waits :
    (id : String) (entry : Option (String × ℕ)) (p : Platform)
    → Waits p
    → Waits (record_canceled id entry p)
unfolding append_event
record_canceled-Waits id none p f = f
record_canceled-Waits id (some (t, r)) p (f, unread) = (
  λ a u.
      get_position-record_cancel p.risk (p.heap r) a u
      ∙ f a u
      ∙ sym (logged_position_still (order_cancelled id _) p.log a u unread (λ z. refl)),
  tt,
)

after_cancellation-Waits :
    (id : String) (entry : Option (String × ℕ)) (s : Service)
    (x : Result (Heap × MatchingEngine × Bool))
    → Waits s.platform
    → Waits (kept_platform s (after_cancellation id entry s.platform x)).platform
after_cancellation-Waits id entry s (raise e) f = f
after_cancellation-Waits id entry s (ok (h, e, true)) f =
    record_canceled-Waits id entry (record s.platform { heap = h; engine = e }) f
after_cancellation-Waits id entry s (ok (h, e, false)) f = f

act-Waits : (c : Action) (s : Service) → Waits s.platform → Waits (act c s).platform
unfolding submit_request cancel_request
act-Waits (submits clock now logged_at generated o q) s f =
    submit_with_id-Waits clock now logged_at generated o q s q.order_id f
act-Waits (cancels id) s f = after_cancellation-Waits id _ s _ f

acts-Waits : (cs : List Action) (s : Service) → Waits s.platform → Waits (acts cs s).platform
acts-Waits [] s f = f
acts-Waits (c ∷ cs) s f = acts-Waits cs (act c s) (act-Waits c s f)

-- A service in which the log tells the positions, as it does when both are new, runs any requests;
-- the log's file may end in a piece of a line, if that is no entry. A risk checker without positions
-- that is then rebuilt from the log, over whatever heap and registry the startup has restored, has
-- for every account and ticker the service's position.
pub positions_recovered :
    (cs : List Action) (s : Service) (h : Heap) (e : MatchingEngine) (c : RiskChecker)
    → IsTold s.platform
    → IsUnread s.platform.log.tail
    → ((a u : String) → get_position c a u ≡ pos 0)
    → (a u : String)
    → get_position (rebuild_risk h e (acts cs s).platform.log c) a u
      ≡ get_position (acts cs s).platform.risk a u
positions_recovered cs s h e c f unread zero a u =
    rebuild_risk-position h e (acts cs s).platform.log c a u (zero a u)
    ∙ sym ((acts-Waits cs s (f, unread)).0 a u)
