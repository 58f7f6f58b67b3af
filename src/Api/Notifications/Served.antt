-- ===== src/Api/Notifications/Served.antt =====
-- What the subscribers of a ticker are told of a round of the consumer, on books that are in order.
use stock_trading_platform.Prelude.{
  ℕ, suc, ◌+◌, ◌≤◌, ◌≡◌, ap, sym, ◌∙◌, subst, String, true, List, ◌∷◌, ◌++◌, map, All, All-map,
  length, inl, inr,
}
use stock_trading_platform.Events.{Trade, Heap, remaining_quantity}
use stock_trading_platform.OrderBook.Book.{OrderBook, ok, get_best_bid, get_best_ask, get_spread}
use stock_trading_platform.Engine.Manager.{OrderBookManager, is_supported, get_order_book}
use stock_trading_platform.Engine.Matcher.{
  MatchingEngine, EngineOutcome, engine_submit, after_submit, register,
}
use stock_trading_platform.Engine.Routing.{
  IsSubmittable, IsManager, ran, book_kept, submitted, submit_order_lem, submitted-IsManager,
}
use stock_trading_platform.Engine.Tickers.{get_order_book_ok}
use stock_trading_platform.Api.Broadcaster.{
  Broadcaster, Mailboxes, order_status, book_update, has_client, clients_of,
}
use stock_trading_platform.Api.Delivery.{HasSets}
use stock_trading_platform.Api.Consumer.{
  Platform, Reply, executed, refused, failed, record_trades, after_matching, open_order, consume,
}
use stock_trading_platform.Api.Logging.{record_trades-log, complete_order-log}
use stock_trading_platform.Api.Answers.{register-manager}
use stock_trading_platform.Api.Endings.{matched_lem, consume-Ends}
use stock_trading_platform.Api.Notifications.{notify_round}
use stock_trading_platform.Api.Notifications.Announced.{trade_message, notify_round_lem}

-- The order, its trades and the book that is found for it are of one ticker.
abbrev IsOfTicker : String → ℕ → Platform × Reply → Type 0
IsOfTicker t o (p, executed ts) =
    ((p.heap o).ticker ≡ t)
    × ((b : OrderBook) × (get_order_book p.engine.manager t ≡ ok b))
    × All (λ (x : Trade). x.ticker ≡ t) ts
IsOfTicker t o (p, refused x) = Unit
IsOfTicker t o (p, failed e) = Unit

after_matching-IsOfTicker :
    (t : String) (o : ℕ) (q : Platform) (r : EngineOutcome)
    → (r.heap o).ticker ≡ t
    → (b : OrderBook) × (get_order_book r.engine.manager t ≡ ok b)
    → All (λ (x : Trade). x.ticker ≡ t) r.trades
    → IsOfTicker t o (after_matching o q (ok r))
after_matching-IsOfTicker t o q r same found of_ticker =
    let q' = record q { heap = r.heap; engine = r.engine } in
    let a = record_trades-log o q' r.trades in
    let b = complete_order-log o (record_trades o q' r.trades) in
    let heaps = sym (b.1 ∙ a.1) in
    let engines = sym (b.2 ∙ a.2) in
    (
      subst (λ (h : Heap). (h o).ticker ≡ t) heaps same,
      subst (λ (e : MatchingEngine). (b : OrderBook) × (get_order_book e.manager t ≡ ok b)) engines
          found,
      of_ticker,
    )

module _ (clock : ℕ → ℕ) (now n : ℕ) (p : Platform) (o : ℕ)
    (v : IsManager p.heap n p.engine.manager) (fresh : n ≤ o) (good : IsSubmittable (p.heap o))
    (supported : is_supported (p.heap o).ticker p.engine.manager.supported_tickers ≡ true) where
  abbrev made : EngineOutcome
  made =
      let s = submitted clock p.heap n p.engine.manager o v fresh good supported in
      record {
        heap = s.heap;
        engine = register now s.heap (record p.engine { manager = s.manager }) o;
        trades = s.trades;
      }

  engine_submit-made : engine_submit clock now p.heap p.engine o ≡ ok made
  unfolding engine_submit
  engine_submit-made =
      ap (after_submit now p.engine o)
        (submit_order_lem clock p.heap n p.engine.manager o v fresh good supported)

  made-IsOfTicker : IsOfTicker (p.heap o).ticker o (after_matching o (open_order p o) (ok made))
  made-IsOfTicker =
      let m = p.engine.manager in
      let s = submitted clock p.heap n m o v fresh good supported in
      let book_ticker = (book_kept clock p.heap n m o v fresh good supported).0 in
      let executes = (ran clock p.heap n m o v fresh good supported).3 in
      let in_order = submitted-IsManager clock p.heap n m o v fresh good supported in
      after_matching-IsOfTicker (p.heap o).ticker o (open_order p o) made
        (ap (λ y. y.ticker) (executes.same_terms o))
        (subst
          (λ (x : OrderBookManager). (b : OrderBook) × (get_order_book x (p.heap o).ticker ≡ ok b))
          (sym (register-manager now s.heap (record p.engine { manager = s.manager }) o))
          (get_order_book_ok s.manager s.heap (suc o) (p.heap o).ticker in_order supported))
        (All-map (λ t f. f.of_ticker ∙ book_ticker) s.trades executes.fair)

  consume-IsOfTicker : IsOfTicker (p.heap o).ticker o (consume clock now p o)
  consume-IsOfTicker = elim (consume-Ends clock now n p o v fresh good supported) [
    | inl (x, e) ↦ subst (IsOfTicker (p.heap o).ticker o) (sym e) tt
    | inr (inl e) ↦ subst (IsOfTicker (p.heap o).ticker o) (sym e) tt
    | inr (inr e) ↦
        subst (IsOfTicker (p.heap o).ticker o)
          (sym (
            e
            ∙ ap (after_matching o (open_order p o))
                (sym (matched_lem clock now n p o v fresh good supported) ∙ engine_submit-made)))
          made-IsOfTicker
  ]

  -- The books are in order, the order is well-formed, new to them, and of a supported ticker, and
  -- its round executes it. A client that is subscribed to its ticker, and has the room in its queue,
  -- is then told, after what waits in the queue: the status that the order has after the round, the
  -- best prices and the spread of its book after the round, and each of its trades in their order;
  -- and nothing else. Each ticker's subscribers are a set.
  pub consume_announces :
      (capacity : ℕ) (b : Broadcaster) (ms : Mailboxes) (d : ℕ) (p' : Platform) (ts : List Trade)
      → HasSets b.subscriptions
      → has_client d (clients_of (p.heap o).ticker b.subscriptions) ≡ true
      → consume clock now p o ≡ (p', executed ts)
      → length (ms d) + suc (suc (length ts)) ≤ capacity
      → (book : OrderBook) × (get_order_book p'.engine.manager (p.heap o).ticker ≡ ok book)
        × (notify_round capacity b o (consume clock now p o) ms d
            ≡ ms d
              ++ order_status
                  (p'.heap o).order_id
                  (p.heap o).ticker
                  (p'.heap o).status
                  (p'.heap o).filled_quantity
                  (remaining_quantity (p'.heap o))
                ∷ book_update
                    (p.heap o).ticker
                    (get_best_bid book)
                    (get_best_ask book)
                    (get_spread book)
                ∷ map trade_message ts)
  consume_announces capacity b ms d p' ts sets subscribed e room =
      let t = (p.heap o).ticker in
      let (same, (book, found), of_ticker) = subst (IsOfTicker t o) e consume-IsOfTicker in
      (
        book,
        found,
        ap (λ z. notify_round capacity b o z ms d) e
            ∙ notify_round_lem capacity b sets t d p' o ts book ms same found subscribed of_ticker
                room,
      )
