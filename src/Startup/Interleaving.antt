-- ===== src/Startup/Interleaving.antt =====
-- A cancellation that runs while the consumer awaits the write of an order's log entry.
use stock_trading_platform.Prelude.{ℕ, ◌≡◌, refl, Option, none, some, [], ◌∷◌, while}
use stock_trading_platform.Prelude.Int.{◌+ℤ◌}
use stock_trading_platform.Prelude.Dict.{lookup, insert, erase}
use stock_trading_platform.OrderBook.Levels.{
  append_order, put_back, del_level, set_queue, get_queue, best_price, min_key, max_key,
}
use stock_trading_platform.OrderBook.Matching.{
  match_order, match_level, fill_queue, fill_head, settle, apply_fill,
}
use stock_trading_platform.OrderBook.Book.{
  OrderBook, Result, ok, raise, add_limit_order, execute_market_order, match_buy_order,
  match_sell_order, get_best_bid, cancel_order, remove_from_levels, remove_order,
}
use stock_trading_platform.Engine.Manager.{
  route_order, is_supported, submit_order, get_order_book, cancel_order_in,
}
use stock_trading_platform.Engine.Matcher.{engine_submit, engine_cancel}
use stock_trading_platform.Engine.Samples.{heap, clock}
use stock_trading_platform.Risk.Checker.{
  init_checker, record_open_order, record_fill, record_cancel, record_order_complete, add_position,
  reduce_notional, get_position, get_ticker_notional, add_entry, discard_entry,
}
use stock_trading_platform.Persistence.EventLog.{
  open_log, append_event, read_all, read_lines, max_sequence,
}
use stock_trading_platform.Persistence.Snapshot.{Restored}
use stock_trading_platform.Api.Consumer.{Platform, open_order, match_logged, record_trades}
use stock_trading_platform.Api.Requests.{cancel_request}
use stock_trading_platform.Api.Samples.{platform}
use stock_trading_platform.Startup.Steps.{replay_event, replay_events}

-- The bid of order 4 is logged; while the consumer awaits the write, the ask "s1" is canceled; then
-- the bid is matched. The log tells it the other way round.
abbrev racing : Platform
racing = record platform {
  engine = record platform.engine { order_registry = ("s1", ("AAPL", 1)) ∷ [] };
}

abbrev canceled_between : Platform
canceled_between = elim (cancel_request "s1" (open_order racing 4)) [
  | ok (p, success) ↦ p
  | raise e ↦ racing
]

abbrev raced : Platform
raced = (match_logged clock 9 canceled_between 4).0

abbrev bid_of : Result OrderBook → Option ℕ
bid_of (ok b) = get_best_bid b
bid_of (raise e) = none

abbrev replayed_bid : Result Restored → Option ℕ
replayed_bid (ok r) = bid_of (get_order_book r.engine.manager "AAPL")
replayed_bid (raise e) = none

program : Unit {0}
unfolding engine_submit submit_order is_supported route_order add_limit_order execute_market_order
    match_buy_order match_sell_order match_order match_level fill_queue fill_head while settle
    apply_fill append_order put_back del_level set_queue get_queue best_price min_key max_key
    record_trades record_open_order record_fill record_cancel record_order_complete add_position
    reduce_notional get_position get_ticker_notional add_entry discard_entry lookup insert erase
    init_checker open_log append_event max_sequence ◌+ℤ◌ cancel_request engine_cancel cancel_order
    get_best_bid get_order_book replay_events replay_event read_lines
program = tt

race :
    (bid_of (get_order_book raced.engine.manager "AAPL") ≡ some 101)
    × (replayed_bid (
          replay_events clock 9
            (read_all 0 raced.log)
            (ok (record { heap = heap; next = 6; engine = racing.engine })))
        ≡ some 99)
unfolding program cancel_order_in remove_from_levels remove_order
race = (refl, refl)
