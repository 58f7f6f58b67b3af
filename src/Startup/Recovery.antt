-- ===== src/Startup/Recovery.antt =====
-- What a start from the log alone recovers.
use stock_trading_platform.Prelude.{ℕ, ◌<◌, ◌≡◌, refl, ap, String, none, List, [], All, arith}
use stock_trading_platform.Events.{Heap}
use stock_trading_platform.OrderBook.Book.{ok}
use stock_trading_platform.Engine.Matcher.{MatchingEngine, init_engine, evict_stale_registry}
use stock_trading_platform.Engine.Initial.{init_manager-IsManager}
use stock_trading_platform.Engine.Routing.{IsManager}
use stock_trading_platform.Risk.Checker.{RiskChecker}
use stock_trading_platform.Persistence.EventLog.{read_all}
use stock_trading_platform.Persistence.Replay.{IsEnded}
use stock_trading_platform.Persistence.Snapshot.{Restored, load}
use stock_trading_platform.Api.Idempotency.{IdempotencyStore}
use stock_trading_platform.Api.Requests.{Service}
use stock_trading_platform.Startup.Steps.{Started, replay_events, rebuild, start}
use stock_trading_platform.Startup.Replica.{Replica}
use stock_trading_platform.Startup.Restart.{Request, IsValid, serve_all, serve_all-IsReplica}

-- The state that a start begins with.
abbrev pub new_state : List String → Heap → Restored
new_state ts h = record { heap = h; next = 0; engine = init_engine ts }

-- A service that has handled nothing yet, and whose log is an empty file or ends in a newline.
pub record IsNew (ts : List String) (s : Service) : Type 0 where
  pub new_engine : s.platform.engine ≡ init_engine ts
  pub nothing_logged : read_all 0 s.platform.log ≡ []
  pub log_ended : IsEnded s.platform.log

init_engine-IsManager : (ts : List String) (h : Heap) → IsManager h 0 (init_engine ts).manager
unfolding init_engine
init_engine-IsManager ts h = init_manager-IsManager ts h 0

IsNew-Replica :
    (clock : ℕ → ℕ) (now : ℕ) (ts : List String) (s : Service)
    → IsNew ts s
    → Replica clock now (new_state ts s.platform.heap) 0 s.platform
unfolding replay_events
IsNew-Replica clock now ts s v = record {
  replayed = new_state ts s.platform.heap;
  ran = (
    v.log_ended,
    ap (λ xs. replay_events clock now xs (ok (new_state ts s.platform.heap))) v.nothing_logged,
  );
  at = refl;
  heaps = λ x ne. refl;
  engines = rw v.new_engine ((init_engine ts).registry_timestamps, refl);
  books = rw v.new_engine (init_engine-IsManager ts s.platform.heap);
}

module _ (clock : ℕ → ℕ) (now ttl : ℕ) (ts : List String) (s : Service) (rs : List Request)
    (c : RiskChecker) (i : IdempotencyStore) where
  abbrev served : ℕ × Service
  served = serve_all rs (0, s)

  -- A service that has handled nothing yet, for any tickers, and whose log's file ends in a newline,
  -- is asked for any valid submissions and cancellations, each handled to its end before the next;
  -- then it stops and is started again without a snapshot, from its log alone, at any later time. The
  -- start succeeds. But for the eviction at its end the engine is the one that stopped: the same books
  -- for every ticker, the same registry, and for every reference of an executed order the same order
  -- in the same state.
  pub start_after_serving :
      IsNew ts s
      → All IsValid rs
      → (d : Started) × (start clock now ttl none served.1.platform.log
            (new_state ts s.platform.heap)
            c
            i
          ≡ ok d)
        × (r : Restored) × (d.restored
            ≡ record r { engine = (evict_stale_registry now ttl r.heap r.engine).0 })
        × (r.engine.manager ≡ served.1.platform.engine.manager)
        × (r.engine.order_registry ≡ served.1.platform.engine.order_registry)
        × ((x : ℕ) → x < served.0 → r.heap x ≡ served.1.platform.heap x)
  unfolding start load
  start_after_serving new valid =
      let v =
        serve_all-IsReplica clock now (new_state ts s.platform.heap) rs (0, s) valid
          (IsNew-Replica clock now ts s new) in
      (
        _,
        ap (rebuild now ttl served.1.platform.log c i) v.ran.1,
        v.replayed,
        refl,
        ap (λ (e : MatchingEngine). e.manager) v.engines.1,
        ap (λ (e : MatchingEngine). e.order_registry) v.engines.1,
        λ x l. v.heaps x (omega arith),
      )
