-- ===== src/Startup/Tests.antt =====
-- A service that has traded, started again.
use stock_trading_platform.Events.{sell}
use stock_trading_platform.Engine.Samples.{order, manager-IsManager}
use stock_trading_platform.Persistence.EventLog.{Event, order_submitted, order_cancelled}
use stock_trading_platform.Persistence.Replay.{
  append_all, entries_after, IsEnded, open_log-IsBounded,
}
use stock_trading_platform.Persistence.Snapshot.{Snapshot, save, load, restore}
use stock_trading_platform.Startup.Steps.{recover, replay_events}
use stock_trading_platform.Startup.Snapshots.{shutdown, recover_since_snapshot}
use stock_trading_platform.Prelude.{some}
use stock_trading_platform.Api.Schemas.{OrderResponse, response_of}
use stock_trading_platform.Prelude.{ℕ, ◌<◌, ◌≡◌, refl, none, arith, String, List, [], ◌∷◌}
use stock_trading_platform.Prelude.Int.{pos}
use stock_trading_platform.Prelude.Dict.{lookup}
use stock_trading_platform.Engine.Samples.{clock, heap}
use stock_trading_platform.Engine.Matcher.{init_engine, evict_stale_registry}
use stock_trading_platform.Risk.Checker.{init_checker, get_position}
use stock_trading_platform.Persistence.EventLog.{open_log, max_sequence, read_lines}
use stock_trading_platform.OrderBook.Book.{ok}
use stock_trading_platform.Persistence.Snapshot.{Restored}
use stock_trading_platform.Api.Idempotency.{init_store}
use stock_trading_platform.Api.Requests.{Service}
use stock_trading_platform.Api.Service.{IsRequest}
use stock_trading_platform.Api.Sessions.{Action, acts}
use stock_trading_platform.Api.Sessions
use stock_trading_platform.Startup.Restart.{Request, asks, cancels, serve_all}
use stock_trading_platform.Startup.Recovery.{IsNew, new_state, start_after_serving}
use stock_trading_platform.Api.Samples.{platform, service, request}
use stock_trading_platform.Startup.Steps.{Started, start, rebuild_risk}
use stock_trading_platform.Startup.Positions.{IsUnread}
use stock_trading_platform.Startup.Recovered.{positions_recovered}

abbrev session : List Action
session = Sessions.submits clock 9 10 "generated" 6 request ∷ Sessions.cancels "k" ∷ []

no_position : (a u : String) → get_position (init_checker 100 5_000 2_000 50) a u ≡ pos 0
unfolding get_position init_checker lookup
no_position a u = refl

unread : IsUnread service.platform.log.tail
unfolding open_log
unread = tt

positions_recovered_example :
    get_position
      (rebuild_risk heap
        (init_engine ("AAPL" ∷ []))
        (acts session service).platform.log
        (init_checker 100 5_000 2_000 50))
      "ann"
      "AAPL"
    ≡ get_position (acts session service).platform.risk "ann" "AAPL"
unfolding get_position init_checker lookup open_log max_sequence read_lines
positions_recovered_example =
    positions_recovered session service heap (init_engine ("AAPL" ∷ []))
      (init_checker 100 5_000 2_000 50) (λ a u. refl) unread no_position "ann" "AAPL"

abbrev new_service : Service
new_service = record service { platform = record platform { engine = init_engine ("AAPL" ∷ []) } }

new_service-IsNew : IsNew ("AAPL" ∷ []) new_service
unfolding open_log max_sequence read_lines
new_service-IsNew = record { new_engine = refl; nothing_logged = refl; log_ended = refl }

abbrev day : List Request
day = asks clock 9 10 "generated" request ∷ cancels "k" ∷ asks clock 11 12 "generated" request ∷ []

request-IsRequest : IsRequest request
request-IsRequest = record { some_quantity = omega arith; priced = λ l. (101, refl) }

start_after_serving_example :
    let (n, live) = serve_all day (0, new_service) in
    (d : Started) × (start clock 50 24 none live.platform.log
        (new_state ("AAPL" ∷ []) heap)
        (init_checker 100 5_000 2_000 50)
        init_store
      ≡ ok d)
    × (r : Restored) × (d.restored
        ≡ record r { engine = (evict_stale_registry 50 24 r.heap r.engine).0 })
    × (r.engine.manager ≡ live.platform.engine.manager)
    × (r.engine.order_registry ≡ live.platform.engine.order_registry)
    × ((x : ℕ) → x < n → r.heap x ≡ live.platform.heap x)
start_after_serving_example =
    start_after_serving clock 50 24 ("AAPL" ∷ []) new_service day (init_checker 100 5_000 2_000 50)
      init_store new_service-IsNew (request-IsRequest, (tt, (request-IsRequest, tt)))

-- A sale and the cancellation of the bid that rests.
abbrev later : List Event
later = order_submitted (order "s9" sell 3 102) ∷ order_cancelled "b3" "AAPL" ∷ []

ended : IsEnded platform.log
unfolding open_log
ended = refl

recover_since_snapshot_example :
    (s : Snapshot) × (save heap platform.engine platform.log.sequence ≡ ok s)
    × (shutdown platform none ≡ some s)
    × (recover clock 50
          (load (shutdown platform none))
          (append_all later platform.log)
          (new_state ("AAPL" ∷ "MSFT" ∷ []) heap)
        ≡ replay_events clock 50
            (entries_after platform.log.sequence later)
            (restore s (new_state ("AAPL" ∷ "MSFT" ∷ []) heap)))
recover_since_snapshot_example =
    recover_since_snapshot clock 50 4 platform none later (new_state ("AAPL" ∷ "MSFT" ∷ []) heap)
      (open_log-IsBounded [] none) ended manager-IsManager

abbrev response : OrderResponse
response = response_of (heap 4) []
