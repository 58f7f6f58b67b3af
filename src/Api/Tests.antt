-- ===== src/Api/Tests.antt =====
-- Requests to a small service.
use stock_trading_platform.Prelude.{
  ◌==◌, ◌+◌, ◌*◌, ◌≤◌, ◌≡◌, refl, String, some, none, List, [], ◌∷◌, map, length, arith,
  if◌then◌else◌, str_eq, ltb, while,
}
use stock_trading_platform.Prelude.Int.{◌+ℤ◌}
use stock_trading_platform.Prelude.Dict.{lookup, insert}
use stock_trading_platform.Events.{Trade}
use stock_trading_platform.OrderBook.Levels.{
  append_order, put_back, del_level, set_queue, get_queue, best_price, min_key, max_key,
}
use stock_trading_platform.OrderBook.Matching.{
  match_order, match_level, fill_queue, fill_head, settle, apply_fill,
}
use stock_trading_platform.OrderBook.Book.{
  add_limit_order, execute_market_order, match_buy_order, match_sell_order,
}
use stock_trading_platform.Engine.Manager.{route_order, is_supported, submit_order}
use stock_trading_platform.Engine.Matcher.{engine_submit}
use stock_trading_platform.Engine.Samples.{heap, clock, manager-IsManager, buy_order-IsSubmittable}
use stock_trading_platform.Risk.Checker.{
  position_limit, init_checker, check, record_open_order, record_fill, record_cancel,
  record_order_complete, add_position, reduce_notional, get_position, get_notional_exposure,
  get_ticker_notional, sum_notional, add_entry, discard_entry, reaches,
}
use stock_trading_platform.Persistence.EventLog.{open_log, append_event, max_sequence}
use stock_trading_platform.Engine.Samples.{manager-IsManager}
use stock_trading_platform.Api.Samples.{platform, service, request}
use stock_trading_platform.Api.Schemas.{OrderResponse, response_of}
use stock_trading_platform.Api.Idempotency.{
  init_store, get, store, has, answer, answer-store, Synced, gets, stores, calls, init_store-Synced,
}
use stock_trading_platform.Api.Consumer.{
  Platform, executed, refused, consume, execute, record_trades,
}
use stock_trading_platform.Api.Rounds.{consume-refused}
use stock_trading_platform.Api.Answers.{Works, consume-Works}
use stock_trading_platform.Api.Requests.{Service, Answer, created, replayed, submit_request}
use stock_trading_platform.Api.Resubmission.{resubmission}
use stock_trading_platform.Prelude.{◌&&◌, ◌||◌}
use stock_trading_platform.Api.Broadcaster.{
  trade, init_broadcaster, subscribe, unsubscribe, broadcast, deliver, put_nowait, subscribe_all,
  set_tickers, get_tickers, drop_tickers, discard_all, discard_client, add_client, has_client,
  clients_of,
}
use stock_trading_platform.Api.Delivery.{received, broadcast-subscribe}
use stock_trading_platform.Api.Shown.{Descending, Ascending, first_price, shown_book}
use stock_trading_platform.Engine.Samples.{manager}
use stock_trading_platform.OrderBook.Book.{OrderBook, ok}
use stock_trading_platform.Api.BookView.{OrderBookResponse, build_order_book_response, level_total}
use stock_trading_platform.OrderBook.Side.{total_quantity}
use stock_trading_platform.Api.Sessions.{submits, cancels, acts, service_bounded}

program : Unit {0}
unfolding consume execute record_trades engine_submit submit_order is_supported route_order
    add_limit_order execute_market_order match_buy_order match_sell_order match_order match_level
    fill_queue fill_head while settle apply_fill append_order put_back del_level set_queue get_queue
    best_price min_key max_key check record_open_order record_fill record_cancel
    record_order_complete add_position reduce_notional get_position get_notional_exposure
    get_ticker_notional sum_notional add_entry discard_entry reaches lookup insert init_checker
    submit_request init_store get store has open_log append_event max_sequence ◌+ℤ◌
program = tt

abbrev pub trades : List Trade
trades = elim (consume clock 9 platform 4).1 [ executed ts ↦ ts | _ ↦ [] ]

trades_found : map (λ t. t.quantity) trades ≡ 4 ∷ 5 ∷ 3 ∷ []
unfolding program
trades_found = refl

pub three : length trades ≡ 3
unfolding program
three = refl

consume-Works_example : Works platform 4 (consume clock 9 platform 4)
unfolding is_supported
consume-Works_example =
    consume-Works clock 9 4 platform 4 manager-IsManager (omega arith) buy_order-IsSubmittable refl

pub consumed : (consume clock 9 platform 4).1 ≡ executed trades
unfolding program
consumed = refl

-- A platform whose position limit is below the order's quantity.
abbrev strict : Platform
strict = record platform { risk = init_checker 5 5_000 2_000 50 }

strict-refused : (consume clock 9 strict 4).1 ≡ refused position_limit
unfolding program
strict-refused = refl

consume-refused_example : (consume clock 9 strict 4).0 ≡ strict
consume-refused_example = consume-refused clock 9 strict 4 position_limit strict-refused

abbrev first : Service × Answer
first = submit_request clock 9 10 "generated" 6 request service

abbrev response : OrderResponse
response = elim first.1 [ created r ↦ r | _ ↦ response_of (heap 4) [] ]

first_created : first.1 ≡ created response
unfolding program
first_created = refl

three_trades : map (λ t. t.quantity) response.trades ≡ 4 ∷ 5 ∷ 3 ∷ []
unfolding program
three_trades = refl

-- The second request asks for more, under the same id.
resubmission_example :
    submit_request clock 10_000 10_001 "other" 7 (record request { quantity = 50 }) first.0
    ≡ (first.0, replayed (some response))
resubmission_example =
    resubmission clock clock 9 10 10_000 10_001 "generated" "other" 6 7 request
      (record request { quantity = 50 }) "k" service response refl refl (omega arith) first_created

service_bounded_example :
    ((a : String)
      → get_notional_exposure
          (acts (submits clock 9 10 "generated" 6 request ∷ cancels "k" ∷ []) service).platform.risk
          a
        ≤ 5_000)
    × ((a u : String)
        → get_ticker_notional
            (acts
              (submits clock 9 10 "generated" 6 request ∷ cancels "k" ∷ [])
              service).platform.risk
            a
            u
          ≤ 2_000)
service_bounded_example =
    service_bounded 100 5_000 2_000 50 (submits clock 9 10 "generated" 6 request ∷ cancels "k" ∷ [])
      service refl

answer-store_example : answer 100 "k" (store 9 "k" response 24 init_store) ≡ (
    if str_eq "k" "k"
    then (if ltb (9 + 24 * 3_600) 100 then none else some response)
    else answer 100 "k" init_store)
answer-store_example = answer-store 9 100 "k" "k" response 24 init_store

init_store-Synced_example :
    Synced (calls (stores 9 "k" response 24 ∷ gets 100_000 "k" ∷ []) init_store)
init_store-Synced_example = init_store-Synced (stores 9 "k" response 24 ∷ gets 100_000 "k" ∷ [])

broadcast-subscribe_example :
    broadcast 2
      (subscribe 1 ("AAPL" ∷ "MSFT" ∷ []) init_broadcaster)
      "MSFT"
      (trade 0 "MSFT" 100 5)
      (λ d. [])
      1
    ≡ received 2
        (has_client 1 (clients_of "MSFT" init_broadcaster.subscriptions)
          || (1 == 1 && is_supported "MSFT" ("AAPL" ∷ "MSFT" ∷ [])))
        (trade 0 "MSFT" 100 5)
        []
unfolding init_broadcaster lookup
broadcast-subscribe_example =
    broadcast-subscribe 2 1 ("AAPL" ∷ "MSFT" ∷ []) init_broadcaster "MSFT" (trade 0 "MSFT" 100 5)
      (λ d. []) 1 (λ t. tt)

-- A client that subscribes twice and then leaves still gets what it asked for first.
left_behind :
    broadcast 2
      (unsubscribe 1 (subscribe 1 ("MSFT" ∷ []) (subscribe 1 ("AAPL" ∷ []) init_broadcaster)))
      "AAPL"
      (trade 0 "AAPL" 100 5)
      (λ d. [])
      1
    ≡ trade 0 "AAPL" 100 5 ∷ []
unfolding init_broadcaster lookup insert subscribe unsubscribe broadcast deliver put_nowait
    subscribe_all set_tickers get_tickers drop_tickers discard_all discard_client add_client
    has_client
left_behind = refl

shown_book_example :
    (b : OrderBook) × (r : OrderBookResponse) × (lookup "AAPL" manager.order_books ≡ some b)
    × (build_order_book_response heap manager "AAPL" ≡ ok r)
    × Descending r.bids
    × Ascending r.asks
    × (first_price r.bids ≡ r.best_bid)
    × (first_price r.asks ≡ r.best_ask)
    × (level_total r.bids ≡ total_quantity heap b.bids)
    × (level_total r.asks ≡ total_quantity heap b.asks)
unfolding is_supported
shown_book_example = shown_book heap 4 manager "AAPL" manager-IsManager refl
