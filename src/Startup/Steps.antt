-- ===== src/Startup/Steps.antt =====
-- The startup of `lifespan` in main.py: the snapshot, the events after it, and what is rebuilt from
-- the whole log. `now` is the time of the startup.
use stock_trading_platform.Prelude.{ℕ, suc, String, Bool, Option, none, some, List, [], ◌∷◌}
use stock_trading_platform.Prelude.Dict.{Dict}
use stock_trading_platform.Events.{limit, market, Heap, write}
use stock_trading_platform.OrderBook.Book.{Result, ok, raise}
use stock_trading_platform.Engine.Matcher.{
  MatchingEngine, EngineOutcome, engine_submit, engine_cancel, evict_stale_registry,
}
use stock_trading_platform.Risk.Checker.{RiskChecker, record_open_order, record_fill}
use stock_trading_platform.Persistence.EventLog.{
  Event, order_submitted, trade_executed, order_cancelled, idempotency_cached, Entry, EventLog,
  read_all,
}
use stock_trading_platform.Persistence.Snapshot.{Snapshot, Restored, load, restore}
use stock_trading_platform.Api.Idempotency.{IdempotencyStore}
use stock_trading_platform.Api.Idempotency

abbrev pub after_replay : ℕ → Result EngineOutcome → Result Restored
after_replay next (raise e) = raise e
after_replay next (ok r) = ok (record { heap = r.heap; next = next; engine = r.engine })

abbrev pub after_replayed_cancel : ℕ → Result (Heap × MatchingEngine × Bool) → Result Restored
after_replayed_cancel next (raise e) = raise e
after_replayed_cancel next (ok (h, e, success)) = ok (record { heap = h; next = next; engine = e })

module _ (clock : ℕ → ℕ) (now : ℕ) where
  -- `_replay_event`: a submission makes a new object and matches it again.
  unfoldable pub replay_event : Event → Restored → Result Restored
  replay_event (order_submitted x) r =
      after_replay (suc r.next) (engine_submit clock now (write r.heap r.next x) r.engine r.next)
  replay_event (order_cancelled id ticker) r =
      after_replayed_cancel r.next (engine_cancel r.heap r.engine id)
  replay_event (trade_executed t buyer seller) r = ok r
  replay_event (idempotency_cached id response expires_at) r = ok r

  unfoldable pub replay_events : List Entry → Result Restored → Result Restored
  replay_events xs (raise e) = raise e
  replay_events [] (ok r) = ok r
  replay_events (x ∷ xs) (ok r) = replay_events xs (replay_event x.event r)

-- Phase 1 of `_rebuild_risk`: the limit orders of the registry are open.
unfoldable pub rebuild_open_orders : Heap → Dict (String × ℕ) → RiskChecker → RiskChecker
rebuild_open_orders h [] c = c
rebuild_open_orders h ((id, (ticker, r)) ∷ d) c =
    rebuild_open_orders h d
      (elim (h r).order_type [ limit ↦ record_open_order c (h r) | market ↦ c ])

abbrev pub rebuild_fill : Event → RiskChecker → RiskChecker
rebuild_fill (trade_executed t buyer seller) c = record_fill c t buyer seller
rebuild_fill (order_submitted x) c = c
rebuild_fill (order_cancelled id ticker) c = c
rebuild_fill (idempotency_cached id response expires_at) c = c

-- Phase 2: every trade that was ever logged.
unfoldable pub rebuild_positions : List Entry → RiskChecker → RiskChecker
rebuild_positions [] c = c
rebuild_positions (x ∷ xs) c = rebuild_positions xs (rebuild_fill x.event c)

-- `_rebuild_risk`
unfoldable pub rebuild_risk : Heap → MatchingEngine → EventLog → RiskChecker → RiskChecker
unfolding rebuild_positions rebuild_open_orders
rebuild_risk h e l c = rebuild_positions (read_all 0 l) (rebuild_open_orders h e.order_registry c)

abbrev pub rebuild_response : ℕ → Event → IdempotencyStore → IdempotencyStore
rebuild_response now (idempotency_cached id response expires_at) s =
    Idempotency.restore now id response expires_at s
rebuild_response now (trade_executed t buyer seller) s = s
rebuild_response now (order_submitted x) s = s
rebuild_response now (order_cancelled id ticker) s = s

-- `_rebuild_idempotency`
unfoldable pub rebuild_idempotency : ℕ → List Entry → IdempotencyStore → IdempotencyStore
rebuild_idempotency now [] s = s
rebuild_idempotency now (x ∷ xs) s = rebuild_idempotency now xs (rebuild_response now x.event s)

pub record Started : Type 0 where
  pub restored : Restored
  pub risk : RiskChecker
  pub idempotency : IdempotencyStore

abbrev pub rebuild :
    ℕ → ℕ → EventLog → RiskChecker → IdempotencyStore → Result Restored → Result Started
rebuild now ttl l c s (raise e) = raise e
rebuild now ttl l c s (ok r) = ok (record {
  restored = record r { engine = (evict_stale_registry now ttl r.heap r.engine).0 };
  risk = rebuild_risk r.heap r.engine l c;
  idempotency = rebuild_idempotency now (read_all 0 l) s;
})

abbrev pub recover : (ℕ → ℕ) → ℕ → Option Snapshot → EventLog → Restored → Result Restored
recover clock now none l r = replay_events clock now (read_all 0 l) (ok r)
recover clock now (some s) l r = replay_events clock now (read_all s.sequence l) (restore s r)

-- The startup, from the new state `r`, `c` and `s` that `init_app_state` made.
unfoldable pub start :
    (ℕ → ℕ)
    → (now ttl : ℕ) → Option Snapshot
    → EventLog
    → Restored
    → RiskChecker
    → IdempotencyStore
    → Result Started
unfolding replay_events rebuild_risk rebuild_idempotency
start clock now ttl file l r c s = rebuild now ttl l c s (recover clock now (load file) l r)
