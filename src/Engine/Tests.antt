-- ===== src/Engine/Tests.antt =====
-- Small books, orders and runs: the theorems of the engine at concrete inputs.
use stock_trading_platform.Prelude.{
  some, ◌≢◌, ◌≢◌, while, map, ℕ, ◌+◌, ◌≤◌, ◌<◌, ◌≡◌, refl, String, List, [], ◌∷◌, arith, All,
  length, ◌⊎◌,
}
use stock_trading_platform.Events.{Heap, buy, filled, rejected, remaining_quantity}
use stock_trading_platform.OrderBook.Levels.{
  append_order, put_back, del_level, set_queue, get_queue, best_price, min_key, max_key,
}
use stock_trading_platform.OrderBook.Matching.{
  Match, match_order, match_level, fill_queue, fill_head, settle, apply_fill,
}
use stock_trading_platform.OrderBook.Resting.{Rests, terms}
use stock_trading_platform.OrderBook.Book.{
  get_best_bid, get_best_ask, get_spread, Outcome, Result, ok, raise, add_limit_order,
  execute_market_order, match_side, match_buy_order, match_sell_order, cancel_order, remove_order,
  remove_from_levels,
}
use stock_trading_platform.OrderBook.Validity.{IsBook, place, match_state}
use stock_trading_platform.Engine.Manager.{route_order, Submitted, is_supported, submit_order}
use stock_trading_platform.Engine.Matcher.{MatchingEngine, to_evict, evict_stale_registry}
use stock_trading_platform.Engine.Eviction.{evicts, lookup-evict_stale_registry}
use stock_trading_platform.Prelude.{none, if◌then◌else◌}
use stock_trading_platform.Events.{write, filled}
use stock_trading_platform.Engine.Samples.{
  heap, book, clock, manager, book-IsBook, buy_order-IsSubmittable, sell_order-IsSubmittable,
  manager-IsManager,
}
use stock_trading_platform.Engine.Routing.{IsManager, submit_order-IsManager, submit_order-isolates}
use stock_trading_platform.Engine.Execution.{
  route_order-IsBook, route_order-IsFair, route_order-ByPrice, route_order_conserves,
  add_limit_order_ends, execute_market_order_ends, route_order-allocate,
}
use stock_trading_platform.OrderBook.Termination.{Sweeps, unmatched, match_side-Sweeps}
use stock_trading_platform.OrderBook.Priority.{allows, allocate, offers_by_priority}
use stock_trading_platform.OrderBook.Priority.Execution.{executed}
use stock_trading_platform.Prelude.Int.{pos}
use stock_trading_platform.OrderBook.Quotes.{quotes}
use stock_trading_platform.OrderBook.Trades.{IsFair, IsNumbered, ByPrice, traded_quantity}
use stock_trading_platform.OrderBook.Side.{HasKey, total_quantity}
use stock_trading_platform.OrderBook.Cancel.Outcome.{
  CancelOutcome, cancel_order_outcome, cancel_order-IsBook,
}
use stock_trading_platform.Prelude.Dict.{lookup}

program : Unit {0}
unfolding route_order add_limit_order execute_market_order match_buy_order match_sell_order
    match_order match_level fill_queue fill_head while settle apply_fill append_order put_back
    del_level set_queue get_queue best_price min_key max_key cancel_order remove_order
    remove_from_levels
program = tt

abbrev trades_of : Result Outcome → List (ℕ × ℕ × ℕ)
trades_of (ok r) = map (λ t. (t.trade_id, t.price, t.quantity)) r.trades
trades_of (raise e) = []

-- The better price first, then the older order of the two at 101.
trades_of_buy :
    trades_of (route_order clock heap book 4) ≡ (7, 100, 4) ∷ (8, 101, 5) ∷ (9, 101, 3) ∷ []
unfolding program
trades_of_buy = refl

trades_of_sell : trades_of (route_order clock heap book 5) ≡ (7, 99, 9) ∷ []
unfolding program
trades_of_sell = refl

route_order-IsBook_example :
    (r : Outcome) × (route_order clock heap book 4 ≡ ok r) × IsBook r.heap 5 r.book
route_order-IsBook_example =
    route_order-IsBook clock heap 4 book 4 book-IsBook (omega arith) buy_order-IsSubmittable refl

route_order-IsFair_example :
    (r : Outcome) × (route_order clock heap book 4 ≡ ok r)
    × All (IsFair "AAPL" buy (heap 4)) r.trades
    × IsNumbered 7 r.trades
    × (r.book.trade_counter ≡ 7 + length r.trades)
route_order-IsFair_example =
    route_order-IsFair clock heap 4 book 4 book-IsBook (omega arith) buy_order-IsSubmittable refl

route_order-ByPrice_example :
    (r : Outcome) × (route_order clock heap book 4 ≡ ok r)
    × ByPrice buy r.trades
    × All (λ t. (q : ℕ) → HasKey q r.book.asks → t.price ≤ q) r.trades
route_order-ByPrice_example =
    route_order-ByPrice clock heap 4 book 4 book-IsBook (omega arith) buy_order-IsSubmittable refl

route_order_conserves_example :
    (r : Outcome) × (route_order clock heap book 4 ≡ ok r)
    × ((r.heap 4).filled_quantity ≡ 0 + traded_quantity r.trades)
    × ((r.heap 4).filled_quantity ≤ (r.heap 4).quantity)
    × (total_quantity r.heap r.book.asks + traded_quantity r.trades ≡ total_quantity heap book.asks)
    × ((x : ℕ) → terms (r.heap x) ≡ terms (heap x))
route_order_conserves_example =
    route_order_conserves clock heap 4 book 4 book-IsBook (omega arith) buy_order-IsSubmittable refl

add_limit_order_ends_example :
    (r : Outcome) × (add_limit_order clock heap book 4 ≡ ok r)
    × (((remaining_quantity (r.heap 4) ≡ 0)
          × ((r.heap 4).status ≡ filled)
          × (r.book.bids ≡ book.bids))
        ⊎ (Rests r.heap (place book buy) 101 4
            × (r.book.bids ≡ append_order 101 4 book.bids)
            × ((q : ℕ) → HasKey q r.book.asks → 101 < q)))
add_limit_order_ends_example =
    add_limit_order_ends clock heap 4 book 4 book-IsBook (omega arith)
      (buy_order-IsSubmittable.tracked) refl 101 refl refl

execute_market_order_ends_example :
    (r : Outcome) × (execute_market_order clock heap book 5 ≡ ok r)
    × (r.book.asks ≡ book.asks)
    × (((remaining_quantity (r.heap 5) ≡ 0) × ((r.heap 5).status ≡ filled))
        ⊎ (((r.heap 5).status ≡ rejected) × (r.book.bids ≡ [])))
execute_market_order_ends_example =
    execute_market_order_ends clock heap 4 book 5 book-IsBook (omega arith)
      (sell_order-IsSubmittable.tracked) refl refl

cancel_order_outcome_example : CancelOutcome heap book "s2" (cancel_order heap book "s2")
cancel_order_outcome_example = cancel_order_outcome heap 4 book "s2" book-IsBook

cancel_order-IsBook_example :
    IsBook (cancel_order heap book "s2").0 4 (cancel_order heap book "s2").1
cancel_order-IsBook_example = cancel_order-IsBook heap 4 book "s2" book-IsBook

submit_order-IsManager_example :
    (s : Submitted) × (submit_order clock heap manager 4 ≡ ok s) × IsManager s.heap 5 s.manager
unfolding is_supported
submit_order-IsManager_example =
    submit_order-IsManager clock heap 4 manager 4 manager-IsManager (omega arith)
      buy_order-IsSubmittable refl

submit_order-isolates_example :
    (s : Submitted) × (submit_order clock heap manager 4 ≡ ok s)
    × ((t : String) → t ≢ "AAPL" → lookup t s.manager.order_books ≡ lookup t manager.order_books)
    × ((x : ℕ) → (heap x).ticker ≢ "AAPL" → s.heap x ≡ heap x)
unfolding is_supported
submit_order-isolates_example =
    submit_order-isolates clock heap 4 manager 4 manager-IsManager (omega arith)
      buy_order-IsSubmittable refl

quotes_example :
    HasKey 99 book.bids
    × ((p : ℕ) → HasKey p book.bids → p ≤ 99)
    × HasKey 100 book.asks
    × ((q : ℕ) → HasKey q book.asks → 100 ≤ q)
    × (99 < 100)
    × ((s : ℕ) × (get_spread book ≡ some (pos s)) × (99 + s ≡ 100) × (0 < s))
unfolding get_best_bid get_best_ask min_key max_key
quotes_example = quotes heap 4 book book-IsBook 99 100 refl refl (omega arith)

-- Two orders registered at time 5, of which the second is filled later.
abbrev old_engine : MatchingEngine
old_engine = record {
  manager = manager;
  order_registry = ("b3", ("AAPL", 3)) ∷ ("b4", ("AAPL", 4)) ∷ [];
  registry_timestamps = ("b3", 5) ∷ ("b4", 5) ∷ [];
}

abbrev later_heap : Heap
later_heap = write heap 4 (record (heap 4) { status = filled })

evicted_orders : (evict_stale_registry 1_000 900 later_heap old_engine).1 ≡ 1
unfolding evict_stale_registry to_evict lookup
evicted_orders = refl

lookup-evict_stale_registry_example :
    (lookup "b4" (evict_stale_registry 1_000 900 later_heap old_engine).0.order_registry ≡ (
      if evicts 1_000 900 later_heap old_engine.registry_timestamps "b4"
        (lookup "b4" old_engine.order_registry)
      then none
      else lookup "b4" old_engine.order_registry))
    × ((evict_stale_registry 1_000 900 later_heap old_engine).0.manager ≡ manager)
lookup-evict_stale_registry_example =
    lookup-evict_stale_registry 1_000 900 later_heap old_engine "b4" ((refl, tt), (tt, tt))

-- The ask at 100 is taken first, then the older of the two at 101; three of the last are left.
route_order-allocate_example :
    (r : Outcome) × (route_order clock heap book 4 ≡ ok r)
    × (executed buy 4 r
        ≡ allocate (allows buy (some 101)) 12 (offers_by_priority buy heap book.asks))
route_order-allocate_example =
    route_order-allocate clock heap 4 book 4 book-IsBook (omega arith) buy_order-IsSubmittable refl

allocate_test :
    allocate (allows buy (some 101)) 12 (offers_by_priority buy heap book.asks) ≡ record {
      deals =
          record { price = 100; order_id = "s1"; quantity = 4 }
          ∷ record { price = 101; order_id = "s0"; quantity = 5 }
          ∷ record { price = 101; order_id = "s2"; quantity = 3 }
          ∷ [];
      unfilled = 0;
      offers = record { price = 101; order = 2; order_id = "s2"; quantity = 3 } ∷ [];
    }
unfolding allocate offers_by_priority
allocate_test = refl

match_side-Sweeps_example :
    let r = match_side clock buy heap book 4 in
    Sweeps clock "AAPL" buy 4 (unmatched buy heap book) (match_state buy r)
    × ((t : Match) → Sweeps clock "AAPL" buy 4 (unmatched buy heap book) t → t ≡ match_state buy r)
match_side-Sweeps_example =
    match_side-Sweeps clock heap 4 book 4 book-IsBook (omega arith) buy_order-IsSubmittable.tracked
      buy
