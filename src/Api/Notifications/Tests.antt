-- ===== src/Api/Notifications/Tests.antt =====
-- A subscriber of the ticker of an order that meets three others.
use stock_trading_platform.Prelude.{◌≡◌, refl, ap, [], ◌∷◌, ◌++◌, map, arith}
use stock_trading_platform.Prelude.Dict.{lookup, insert}
use stock_trading_platform.Events.{remaining_quantity}
use stock_trading_platform.OrderBook.Book.{OrderBook, ok, get_best_bid, get_best_ask, get_spread}
use stock_trading_platform.Engine.Manager.{is_supported, get_order_book}
use stock_trading_platform.Engine.Samples.{clock, manager-IsManager, buy_order-IsSubmittable}
use stock_trading_platform.Api.Broadcaster.{
  Broadcaster, order_status, book_update, init_broadcaster, has_client, add_client, subscribe,
}
use stock_trading_platform.Api.Consumer.{Platform, Reply, consume}
use stock_trading_platform.Api.Delivery.{HasSets, subscribe_all_lem}
use stock_trading_platform.Api.Samples.{platform}
use stock_trading_platform.Api.Tests.{trades, three, consumed}
use stock_trading_platform.Api.Notifications.{notify_round}
use stock_trading_platform.Api.Notifications.Announced.{trade_message}
use stock_trading_platform.Api.Notifications.Served.{consume_announces}

abbrev broadcaster : Broadcaster
broadcaster = subscribe 1 ("AAPL" ∷ []) init_broadcaster

broadcaster-HasSets : HasSets broadcaster.subscriptions
unfolding subscribe init_broadcaster lookup
broadcaster-HasSets t = (subscribe_all_lem 1 ("AAPL" ∷ []) [] t 1 (λ u. tt)).0

abbrev round : Platform × Reply
round = consume clock 9 platform 4

consume_announces_example :
    (book : OrderBook) × (get_order_book round.0.engine.manager "AAPL" ≡ ok book)
    × (notify_round 100 broadcaster 4 round (λ d. []) 1
        ≡ []
          ++ order_status
              (round.0.heap 4).order_id
              "AAPL"
              (round.0.heap 4).status
              (round.0.heap 4).filled_quantity
              (remaining_quantity (round.0.heap 4))
            ∷ book_update "AAPL" (get_best_bid book) (get_best_ask book) (get_spread book)
            ∷ map trade_message trades)
unfolding is_supported subscribe init_broadcaster lookup insert add_client has_client
consume_announces_example =
    consume_announces clock 9 4 platform 4 manager-IsManager (omega arith) buy_order-IsSubmittable
      refl 100 broadcaster (λ d. []) 1 round.0 trades broadcaster-HasSets refl
      (ap (λ r. (round.0, r)) consumed) (omega (arith, three))
