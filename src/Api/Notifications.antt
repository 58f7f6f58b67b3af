-- ===== src/Api/Notifications.antt =====
-- What the subscribers of a ticker are told: the end of a round of `run_consumer` in
-- trading/api/consumer.py, after the future has its result, and the end of `cancel_order` in
-- trading/api/routes.py.
pub mod Announced
pub mod Served
mod Tests
use stock_trading_platform.Prelude.{
  ℕ, ◌-◌, String, Bool, true, false, none, some, Option, List, [], ◌∷◌,
}
use stock_trading_platform.Events.{Order, Trade, canceled, remaining_quantity}
use stock_trading_platform.OrderBook.Book.{
  OrderBook, Result, ok, raise, get_best_bid, get_best_ask, get_spread,
}
use stock_trading_platform.Engine.Manager.{get_order_book}
use stock_trading_platform.Api.Broadcaster.{
  Broadcaster, Mailboxes, notify_order_status, notify_book_update, notify_trade,
}
use stock_trading_platform.Api.Consumer.{Platform, Reply, executed, refused, failed}

module _ (capacity : ℕ) (b : Broadcaster) where
  unfoldable pub notify_trades : List Trade → Mailboxes → Mailboxes
  notify_trades [] ms = ms
  notify_trades (t ∷ ts) ms =
      notify_trades ts (notify_trade capacity b t.trade_id t.ticker t.price t.quantity ms)

  abbrev pub notify_status : Order → Mailboxes → Mailboxes
  notify_status x ms =
      notify_order_status capacity b x.order_id x.ticker x.status x.filled_quantity
        (remaining_quantity x) ms

  -- An exception of the lookup ends the notifications.
  abbrev pub notify_book : Order → List Trade → Result OrderBook → Mailboxes → Mailboxes
  notify_book x ts (raise e) ms = ms
  notify_book x ts (ok book) ms = notify_trades ts (
      notify_book_update capacity b x.ticker (get_best_bid book) (get_best_ask book)
        (get_spread book) ms)

  -- The round of order `o` has the platform and the reply as its result.
  unfoldable pub notify_round : ℕ → Platform × Reply → Mailboxes → Mailboxes
  unfolding notify_trades
  notify_round o (p, executed ts) ms =
      let x = p.heap o in
      notify_book x ts (get_order_book p.engine.manager x.ticker) (notify_status x ms)
  notify_round o (p, refused v) ms = ms
  notify_round o (p, failed e) ms = ms

  -- The entry that the registry had, and the state after the cancellation.
  abbrev pub notify_canceled :
      String → Option (String × ℕ) → Platform × Bool → Mailboxes → Mailboxes
  notify_canceled id none r ms = ms
  notify_canceled id (some (ticker, o)) (p, false) ms = ms
  notify_canceled id (some (ticker, o)) (p, true) ms =
      notify_order_status capacity b id (p.heap o).ticker canceled (p.heap o).filled_quantity 0 ms
