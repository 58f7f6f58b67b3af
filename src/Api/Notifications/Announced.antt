-- ===== src/Api/Notifications/Announced.antt =====
-- The notifications of a round, as one client sees them.
use stock_trading_platform.Prelude.{
  ℕ, suc, ◌+◌, ◌≤◌, ◌<◌, ◌≡◌, ap, sym, ◌∙◌, String, true, List, [], ◌∷◌, ◌++◌, map, append-nil,
  append_assoc, All, length, length-append, arith,
}
use stock_trading_platform.Events.{Trade, remaining_quantity}
use stock_trading_platform.OrderBook.Book.{OrderBook, ok, get_best_bid, get_best_ask, get_spread}
use stock_trading_platform.Engine.Manager.{get_order_book}
use stock_trading_platform.Api.Broadcaster.{
  Message, book_update, trade, order_status, Broadcaster, has_client, clients_of, Mailboxes,
  broadcast,
}
use stock_trading_platform.Api.Delivery.{HasSets, deliver-received}
use stock_trading_platform.Api.Consumer.{Platform, executed}
use stock_trading_platform.Api.Notifications.{notify_trades, notify_round}

abbrev pub trade_message : Trade → Message
trade_message t = trade t.trade_id t.ticker t.price t.quantity

module _ (capacity : ℕ) (b : Broadcaster) (sets : HasSets b.subscriptions) (ticker : String)
    (d : ℕ) where
  -- A subscriber with room gets a message at the end of its queue.
  broadcast_arrives :
      (x : Message) (ms : Mailboxes)
      → has_client d (clients_of ticker b.subscriptions) ≡ true
      → length (ms d) < capacity
      → broadcast capacity b ticker x ms d ≡ ms d ++ x ∷ []
  unfolding broadcast
  broadcast_arrives x ms subscribed room =
      deliver-received capacity (clients_of ticker b.subscriptions) x ms d (sets ticker)
      ∙ ground (arith, subscribed, room)

  notify_trades_lem :
      (ts : List Trade) (ms : Mailboxes)
      → has_client d (clients_of ticker b.subscriptions) ≡ true
      → All (λ (t : Trade). t.ticker ≡ ticker) ts
      → length (ms d) + length ts ≤ capacity
      → notify_trades capacity b ts ms d ≡ ms d ++ map trade_message ts
  unfolding notify_trades
  notify_trades_lem [] ms subscribed of_ticker room = sym (append-nil (ms d))
  notify_trades_lem (t ∷ ts) ms subscribed of_ticker room =
      let x = trade_message t in
      let next = broadcast capacity b t.ticker x ms in
      let here : next d ≡ ms d ++ x ∷ [] =
        ap (λ u. broadcast capacity b u x ms d) of_ticker.0
        ∙ broadcast_arrives x ms subscribed (omega (arith, room)) in
      let longer = ap (λ q. length q) here ∙ length-append (ms d) (x ∷ []) in
      notify_trades_lem ts next subscribed of_ticker.1 (omega (arith, room, longer))
      ∙ ap (λ q. q ++ map trade_message ts) here
      ∙ append_assoc (ms d) (x ∷ []) (map trade_message ts)

  -- After an executed order a subscriber of its ticker whose queue has the room is told, after what
  -- waits in its queue, the order's status, then the new best prices of the book, then each trade
  -- in its order, and nothing else.
  pub notify_round_lem :
      (p : Platform) (o : ℕ) (ts : List Trade) (book : OrderBook) (ms : Mailboxes)
      → (p.heap o).ticker ≡ ticker
      → get_order_book p.engine.manager ticker ≡ ok book
      → has_client d (clients_of ticker b.subscriptions) ≡ true
      → All (λ (t : Trade). t.ticker ≡ ticker) ts
      → length (ms d) + suc (suc (length ts)) ≤ capacity
      → notify_round capacity b o (p, executed ts) ms d
        ≡ ms d
          ++ order_status
              (p.heap o).order_id
              ticker
              (p.heap o).status
              (p.heap o).filled_quantity
              (remaining_quantity (p.heap o))
            ∷ book_update ticker (get_best_bid book) (get_best_ask book) (get_spread book)
            ∷ map trade_message ts
  unfolding notify_round
  notify_round_lem p o ts book ms same found subscribed of_ticker room =
      let x = p.heap o in
      let first =
        order_status x.order_id ticker x.status x.filled_quantity (remaining_quantity x) in
      let second = book_update ticker (get_best_bid book) (get_best_ask book) (get_spread book) in
      let ms₁ = broadcast capacity b ticker first ms in
      let ms₂ = broadcast capacity b ticker second ms₁ in
      let here₁ : ms₁ d ≡ ms d ++ first ∷ [] =
        broadcast_arrives first ms subscribed (omega (arith, room)) in
      let longer₁ = ap (λ q. length q) here₁ ∙ length-append (ms d) (first ∷ []) in
      let here₂ : ms₂ d ≡ ms₁ d ++ second ∷ [] =
        broadcast_arrives second ms₁ subscribed (omega (arith, room, longer₁)) in
      let longer₂ = ap (λ q. length q) here₂ ∙ length-append (ms₁ d) (second ∷ []) in
      rw (same, found)
        (notify_trades_lem ts ms₂ subscribed of_ticker (omega (arith, room, longer₁, longer₂))
          ∙ ap (λ q. q ++ map trade_message ts) (here₂ ∙ ap (λ q. q ++ second ∷ []) here₁)
          ∙ ap (λ q. q ++ map trade_message ts) (append_assoc (ms d) (first ∷ []) (second ∷ []))
          ∙ append_assoc (ms d) (first ∷ second ∷ []) (map trade_message ts))
