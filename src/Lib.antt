-- ===== src/Lib.antt =====
-- Stock trading platform: limit order books with price-time priority behind an HTTP service, with
-- pre-trade risk checks, an event log, snapshots and recovery.
--
-- The parts and how they interact. A request reaches a handler (trading/api/routes.py), which
-- answers a repeated client id from the idempotency store (trading/api/dependencies.py) and else
-- makes an `Order` (trading/events/models.py) for the queue of its ticker. The consumer
-- (trading/api/consumer.py) takes it from there: the risk checker (trading/risk/checker.py) checks
-- it, the event log (trading/persistence/event_log.py) gets it, the matching engine
-- (trading/engine/matcher.py) hands it to the book of its ticker
-- (trading/engine/order_book_manager.py, trading/engine/order_book.py), and each trade is logged
-- and recorded as a fill. Snapshots (trading/persistence/snapshot.py) hold the resting orders. A
-- start (main.py) restores the last snapshot, replays the events after it, and rebuilds what the
-- risk checker and the idempotency store knew from the whole log.
--
-- Files:
--   Prelude        shared names, lists, dicts with text keys, signed integers, loops on fuel
--   Events         models.py: Order, Trade and their enumerations; the heap of orders
--   OrderBook      order_book.py. Levels: the dict of one side, with its queues. Matching: the two
--                  nested loops of `_match_buy_order` and `_match_sell_order`, which differ in the
--                  side only. Book: the methods. The other files hold the invariants: Fills and
--                  FillQueue for the inner loop, Sweep for the outer one, Validity for the book,
--                  Limit, Executes and Orders for the two kinds of orders, Removal and Cancel for
--                  cancellation. Priority: an order's execution as a specification over a list of
--                  offers, and matching against it. Termination: the loops without fuel.
--                  Members: which orders the operations leave in a book. Clock: what depends on
--                  the time.
--   Engine         order_book_manager.py (Manager) and matcher.py (Matcher). Routing and Execution
--                  are about what an execution promises to its callers, Initial about a new
--                  manager, Eviction about `evict_stale_registry`, Tickers about the list of
--                  tickers, Registry about the registry in all calls: Submission, Cancellation and
--                  Liveness, and Sequences of calls. Agreement compares calls at other times and
--                  over other heaps, Upkeep is about cancellation whatever the registry says.
--   Risk           checker.py (Checker), the limits over all runs (Exposure), positions, the amounts
--                  that Decimal cannot hold (Overflow), and registration against cancellation
--   Persistence    event_log.py (EventLog, Replay), snapshot.py (Snapshot, Values, Filling,
--                  Recovery), and the dicts of orders and trades in both (Json)
--   Api            Idempotency: the store of dependencies.py. Consumer: one round of
--                  `run_consumer`. Requests: the handlers `submit_order` and `cancel_order` of
--                  routes.py. Validation: the schema of a request, before its handler. Rounds,
--                  Answers, Endings, Logging and Preserves are about one round, Resubmission and
--                  Sessions about more requests. Service joins the books with the handler of
--                  submissions. Broadcaster and Delivery: broadcaster.py. Websocket: the endpoint
--                  of websocket.py, one connection as a sequence of events. Notifications: what
--                  rounds and cancellations tell the subscribers. BookView, Shown and Reads: the
--                  book as routes.py returns it, and the handlers that only read.
--   Startup        main.py: `_replay_event`, `_rebuild_risk`, `_rebuild_idempotency` and the order
--                  in which `lifespan` calls them (Steps); Positions and Recovered are about the
--                  positions that are rebuilt, Replay, Replica, Restart and Recovery about the
--                  books and orders: a replay beside the service that wrote the log. Responses: the
--                  idempotency store that is rebuilt from the log. Snapshots: the periodic snapshot
--                  and the shutdown. Interleaving: a cancellation within a round of the consumer
--
-- How the code is read. Objects of class `Order` are references into a heap, a function from
-- references to orders, so that a queue, the registry and a caller see each other's changes; new
-- orders get references above those in use, and the invariant of a book says that references
-- ascend in each queue: the older order stands first. An exception is a value of a result type; a
-- state in it is kept where the code has changed it before the exception. Prices are whole cents,
-- as the schema of requests admits two decimal places; sums of money are exact, where `Decimal`
-- would round at 28 digits, far beyond the limits that the sums are compared with. A product or a
-- sum that is 10 ^ 1_000_000 or more once it is rounded raises `decimal.Overflow` in the checks of
-- the notional exposure and of the notional in a ticker. Times are numbers and the clock is a parameter; where the code reads it twice, for the expiry in the
-- idempotency store and for the logged one, there are two times. The event log's file is its lines
-- that ended and, after a crash in the middle of a write, the piece of a line at its end, which the
-- next event that is written joins. What pydantic means by `decimal_places`, and how a price or
-- a time is printed, are parameters, with documented behaviour as hypotheses. A trade id is the
-- number in its text. The JSON text of log and snapshot is the library's: a line or a file stands
-- for the value it is read as. Text is compared by its code points.
--
-- Loops run on fuel (`while` of Prelude.Loop). The inner loop has the length of the queue plus 2,
-- since a round empties the incoming order or takes one from the queue; the outer loop has the
-- number of levels plus 2, since a round empties the incoming order or deletes a level. FillQueue
-- and Sweep show that both end by their own tests, not for want of fuel.
--
-- A round of the consumer has two parts, before and after the await of the write of the order's log
-- entry (`open_order` and `match_logged`). `execute` runs one right after the other, and the
-- theorems on rounds and on services are about requests that are handled each to its end before the
-- next. In the code a cancellation or a round of another ticker may run in between, so that the log
-- may tell two events in the other order than they happened in (Startup/Interleaving).
-- Risk/Exposure takes registrations, fills and cancellations in any order.
--
-- Not modelled: health, metrics and logging, and the middleware, which change none of the state
-- above; how the event loop schedules the background tasks; the getters of the singletons in
-- dependencies.py.
pub mod Prelude
pub mod Events
pub mod OrderBook
pub mod Engine
pub mod Risk
pub mod Persistence
pub mod Api
pub mod Startup
