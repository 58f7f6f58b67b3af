-- ===== src/Engine/Execution.antt =====
-- What the execution of an order promises its clients: `add_limit_order` and
-- `execute_market_order` behind the choice that `OrderBookManager.submit_order` makes.
use stock_trading_platform.Prelude.{
  ℕ, suc, ap, ◌∙◌, inl, inr, ◌+◌, ◌≤◌, ◌≡◌, some, [], All, All-map, length, ◌⊎◌,
}
use stock_trading_platform.Events.{limit, market, filled, rejected, Heap, Order, remaining_quantity}
use stock_trading_platform.OrderBook.Levels.{append_order}
use stock_trading_platform.OrderBook.Resting.{Rests, IsTracked, terms}
use stock_trading_platform.OrderBook.Trades.{IsFair, traded_quantity, IsNumbered, Precedes, ByPrice}
use stock_trading_platform.OrderBook.Side.{HasKey, All-HasKey, total_quantity}
use stock_trading_platform.OrderBook.Book.{
  OrderBook, Outcome, ok, match_side, add_limit_order, execute_market_order,
}
use stock_trading_platform.OrderBook.Exhausted.{Apart}
use stock_trading_platform.OrderBook.Validity.{IsBook, facing, own, place, match_side-Matched}
use stock_trading_platform.OrderBook.Executes.{Executes}
use stock_trading_platform.OrderBook.Priority.{
  Allocation, allows, limit_of, allocate, offers_by_priority,
}
use stock_trading_platform.OrderBook.Priority.Execution.{
  executed, accepts-allows, match_side-allocate, executed-rest_remainder, executed-reject_remainder,
}
use stock_trading_platform.OrderBook.Orders.{
  limit_outcome, limit_outcome_lem, limit_outcome_ends, market_outcome, execute_market_order_lem,
  market_outcome_ends,
}
use stock_trading_platform.Engine.Manager.{route_order}
use stock_trading_platform.Engine.Routing.{IsSubmittable, OrderType-cases, route_order-Executes}

module _ (clock : ℕ → ℕ) (h : Heap) (n : ℕ) (b : OrderBook) (o : ℕ) (v : IsBook h n b)
    (fresh : n ≤ o) (good : IsSubmittable (h o)) (in_book : (h o).ticker ≡ b.ticker) where
  abbrev ran :
      (r : Outcome) × (route_order clock h b o ≡ ok r)
      × IsBook r.heap (suc o) r.book
      × Executes h b o r
  ran = route_order-Executes clock h n b o v fresh good in_book

  -- A limit order with a price and a market order are both executed by the book of their ticker
  -- without an exception, and afterwards the book is in order again: in each level the references
  -- ascend, every order in it is open, unfilled and at the level's price, no level is empty or
  -- double, and every bid is below every ask.
  pub route_order-IsBook :
      (r : Outcome) × (route_order clock h b o ≡ ok r) × IsBook r.heap (suc o) r.book
  route_order-IsBook = (ran.0, ran.1, ran.2)

  -- Every trade of an execution has a positive quantity, the book's ticker, the incoming order on
  -- its own side and a price within the order's limit; the trades are numbered one by one from the
  -- book's counter, which ends behind the last of them.
  pub route_order-IsFair :
      (r : Outcome) × (route_order clock h b o ≡ ok r)
      × All (IsFair b.ticker (h o).side (h o)) r.trades
      × IsNumbered b.trade_counter r.trades
      × (r.book.trade_counter ≡ b.trade_counter + length r.trades)
  route_order-IsFair = (ran.0, ran.1, ran.3.fair, ran.3.numbered, ran.3.counted)

  -- Price priority: no trade of an execution has a better price, for the incoming order, than one
  -- before it, and no price that is left on the other side is better than that of any trade.
  pub route_order-ByPrice :
      (r : Outcome) × (route_order clock h b o ≡ ok r)
      × ByPrice (h o).side r.trades
      × All
          (λ t. (q : ℕ) → HasKey q (facing (h o).side r.book) → Precedes (h o).side t.price q)
          r.trades
  route_order-ByPrice = (
    ran.0,
    ran.1,
    ran.3.by_price,
    All-map
        (λ t a q k. All-HasKey (Precedes (h o).side t.price) q (facing (h o).side ran.0.book) a k)
        ran.0.trades ran.3.best_first,
  )

  -- An execution fills the incoming order by the sum of its trades, never beyond its quantity, and
  -- takes exactly that sum from the open quantity of the other side; of all orders it changes the
  -- status and the filled quantity only.
  pub route_order_conserves :
      (r : Outcome) × (route_order clock h b o ≡ ok r)
      × ((r.heap o).filled_quantity ≡ (h o).filled_quantity + traded_quantity r.trades)
      × ((r.heap o).filled_quantity ≤ (r.heap o).quantity)
      × (total_quantity r.heap (facing (h o).side r.book) + traded_quantity r.trades
          ≡ total_quantity h (facing (h o).side b))
      × ((x : ℕ) → terms (r.heap x) ≡ terms (h x))
  route_order_conserves =
      (ran.0, ran.1, ran.3.incoming_filled, ran.3.bounded, ran.3.conserved, ran.3.same_terms)

  -- The specification's answer to the order.
  abbrev specified : Allocation
  specified =
      allocate (allows (h o).side (limit_of (h o))) (remaining_quantity (h o))
        (offers_by_priority (h o).side h (facing (h o).side b))

  matched_allocate : executed (h o).side o (match_side clock (h o).side h b o) ≡ specified
  matched_allocate =
      match_side-allocate clock h n b o v fresh good.tracked (h o).side
        (allows (h o).side (limit_of (h o))) (λ p. accepts-allows (h o).side (h o) p good.priced)

  matched_side : ((match_side clock (h o).side h b o).heap o).side ≡ (h o).side
  matched_side =
      ap (λ (x : Order). x.side)
        ((match_side-Matched clock h n b o v fresh good.tracked (h o).side).matching.same_terms o)

  -- An execution is what price-time priority says. The other side is taken as one list of offers,
  -- the best price first and at each price the older order first; from its head on each offer is
  -- taken as a whole, the last one perhaps in part, until the order's quantity is used up or the
  -- next price is worse than the order's limit (a market order has none). The trades, in their
  -- order, are these deals: price, resting order and quantity; what the order has left is what was
  -- not allocated, and the other side is left with the remaining offers.
  pub route_order-allocate :
      (r : Outcome) × (route_order clock h b o ≡ ok r)
      × (executed (h o).side o r
          ≡ allocate
              (allows (h o).side (limit_of (h o)))
              (remaining_quantity (h o))
              (offers_by_priority (h o).side h (facing (h o).side b)))
  unfolding route_order limit_outcome market_outcome
  route_order-allocate = elim (OrderType-cases (h o).order_type) [
    | inl l ↦
        let (p, ep) = good.priced l in
        (
          limit_outcome clock h n b o v fresh good.tracked in_book p,
          rw (l, route_order) (limit_outcome_lem clock h n b o v fresh good.tracked in_book p l ep),
          executed-rest_remainder (h o).side o p (match_side clock (h o).side h b o) matched_side
              ∙ matched_allocate,
        )
    | inr m ↦ (
      market_outcome clock h n b o v fresh good.tracked in_book,
      rw (m, route_order) (execute_market_order_lem clock h n b o v fresh good.tracked in_book m),
      executed-reject_remainder (h o).side o (match_side clock (h o).side h b o) ∙ matched_allocate,
    )
  ]

module _ (clock : ℕ → ℕ) (h : Heap) (n : ℕ) (b : OrderBook) (o : ℕ) (v : IsBook h n b)
    (fresh : n ≤ o) (tracked : IsTracked (h o)) (in_book : (h o).ticker ≡ b.ticker) where
  -- A limit order ends in one of two ways. It is FILLED with nothing left, and its own side of the
  -- book is as it was; or it rests, at the end of the queue of its own price, and no price on the
  -- other side meets its own.
  pub add_limit_order_ends :
      (price : ℕ)
      → (h o).order_type ≡ limit
      → (h o).price ≡ some price
      → (r : Outcome) × (add_limit_order clock h b o ≡ ok r)
        × (((remaining_quantity (r.heap o) ≡ 0)
              × ((r.heap o).status ≡ filled)
              × (own (h o).side r.book ≡ own (h o).side b))
            ⊎ (Rests r.heap (place b (h o).side) price o
                × (own (h o).side r.book ≡ append_order price o (own (h o).side b))
                × ((q : ℕ) → HasKey q (facing (h o).side r.book) → Apart (h o).side price q)))
  add_limit_order_ends price l p = (
    limit_outcome clock h n b o v fresh tracked in_book price,
    limit_outcome_lem clock h n b o v fresh tracked in_book price l p,
    limit_outcome_ends clock h n b o v fresh tracked in_book price l p,
  )

  -- A market order never rests: its own side of the book is as it was, and the order is FILLED with
  -- nothing left, or REJECTED when the other side of the book has been emptied.
  pub execute_market_order_ends :
      (h o).order_type ≡ market
      → (r : Outcome) × (execute_market_order clock h b o ≡ ok r)
        × (own (h o).side r.book ≡ own (h o).side b)
        × (((remaining_quantity (r.heap o) ≡ 0) × ((r.heap o).status ≡ filled))
            ⊎ (((r.heap o).status ≡ rejected) × (facing (h o).side r.book ≡ [])))
  execute_market_order_ends m =
      let e = market_outcome_ends clock h n b o v fresh tracked in_book m in
      (
        market_outcome clock h n b o v fresh tracked in_book,
        execute_market_order_lem clock h n b o v fresh tracked in_book m,
        e.0,
        e.1,
      )
