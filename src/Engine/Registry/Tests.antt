-- ===== src/Engine/Registry/Tests.antt =====
-- The registry of a small engine: one ask rests in it.
use stock_trading_platform.Prelude.{
  ℕ, ◌≡◌, ◌≢◌, refl, true, false, none, [], ◌∷◌, arith, inl, while,
}
use stock_trading_platform.Prelude.Dict.{lookup, insert}
use stock_trading_platform.Events.{Order, Heap, sell, canceled, write}
use stock_trading_platform.OrderBook.Levels.{append_order, best_price, max_key}
use stock_trading_platform.OrderBook.Matching.{match_order}
use stock_trading_platform.OrderBook.Book.{
  OrderBook, ok, add_limit_order, match_sell_order, empty_book,
}
use stock_trading_platform.Engine.Manager.{
  init_manager, make_books, is_supported, submit_order, route_order,
}
use stock_trading_platform.Engine.Matcher.{
  MatchingEngine, EngineOutcome, init_engine, engine_submit, engine_cancel,
}
use stock_trading_platform.Engine.Routing.{IsSubmittable}
use stock_trading_platform.Engine.Samples.{order, heap, clock}
use stock_trading_platform.Engine.Registry.{IsEngine}
use stock_trading_platform.Engine.Registry.Sequences.{
  Running, Calls, none_yet, then_call, submits, new_engine, Calls-IsEngine, resting_order_cancels,
}

abbrev ask : Order
ask = order "s1" sell 4 100

abbrev book : OrderBook
book = record (empty_book "AAPL") { asks = (100, 0 ∷ []) ∷ [] }

abbrev after : EngineOutcome
after = record {
  heap = write heap 0 ask;
  engine = record {
    manager = record { order_books = ("AAPL", book) ∷ []; supported_tickers = "AAPL" ∷ [] };
    order_registry = ("s1", ("AAPL", 0)) ∷ [];
    registry_timestamps = ("s1", 9) ∷ [];
  };
  trades = [];
}

ask-IsSubmittable : IsSubmittable ask
ask-IsSubmittable = record { tracked = ground arith; priced = λ l. (100, refl) }

abbrev started : Running
started = new_engine ("AAPL" ∷ []) heap

submitted : engine_submit clock 9 (write heap 0 ask) started.engine 0 ≡ ok after
unfolding engine_submit init_engine init_manager make_books insert lookup is_supported submit_order
    route_order add_limit_order match_sell_order match_order while best_price max_key append_order
submitted = refl

abbrev running : Running
running = record { heap = after.heap; next = 1; engine = after.engine }

one_call : Calls started running
unfolding init_engine init_manager make_books insert lookup is_supported
one_call = then_call none_yet (submits clock 9 ask after ask-IsSubmittable refl refl submitted)

Calls-IsEngine_example : IsEngine running.heap 1 running.engine
Calls-IsEngine_example = Calls-IsEngine ("AAPL" ∷ []) heap running one_call

resting_order_cancels_example :
    (h' : Heap) × (e' : MatchingEngine) × (engine_cancel running.heap running.engine "s1"
      ≡ ok (h', e', true))
    × (h' 0 ≡ record ask { status = canceled })
    × ((x : ℕ) → x ≢ 0 → h' x ≡ running.heap x)
    × (lookup "s1" e'.order_registry ≡ none)
    × (engine_cancel h' e' "s1" ≡ ok (h', e', false))
unfolding lookup is_supported
resting_order_cancels_example =
    resting_order_cancels ("AAPL" ∷ []) heap running "AAPL" book sell 0 one_call refl refl
      (inl (inl refl))
