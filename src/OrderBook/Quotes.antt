-- ===== src/OrderBook/Quotes.antt =====
-- `get_best_bid`, `get_best_ask` and `get_spread` on a book in order.
use stock_trading_platform.Prelude.{ℕ, ◌+◌, ◌-◌, ◌≤◌, ◌<◌, ◌≡◌, some, arith}
use stock_trading_platform.Prelude.Int.{pos, ◌-ℤ◌}
use stock_trading_platform.Events.{buy, sell, Heap}
use stock_trading_platform.OrderBook.Levels.{best_price}
use stock_trading_platform.OrderBook.Side.{HasKey, All-HasKey}
use stock_trading_platform.OrderBook.Best.{IsBest, best_price-IsBest}
use stock_trading_platform.OrderBook.Book.{OrderBook, get_best_bid, get_best_ask, get_spread}
use stock_trading_platform.OrderBook.Validity.{IsBook}

sub_pos : (a b : ℕ) → b < a → (s : ℕ) × (pos a -ℤ pos b ≡ pos s) × (b + s ≡ a) × (0 < s)
unfolding ◌-ℤ◌
sub_pos a b l = (a - b, ground arith, omega arith, omega arith)

module _ (h : Heap) (n : ℕ) (b : OrderBook) (v : IsBook h n b) (bid ask : ℕ)
    (best_bid : get_best_bid b ≡ some bid) (best_ask : get_best_ask b ≡ some ask)
    (some_bid : 0 < bid) where
  bid-IsBest : IsBest sell bid b.bids
  unfolding get_best_bid best_price
  bid-IsBest = best_price-IsBest sell b.bids bid best_bid

  ask-IsBest : IsBest buy ask b.asks
  unfolding get_best_ask best_price
  ask-IsBest = best_price-IsBest buy b.asks ask best_ask

  -- A well-formed book has a best bid, which is not zero, and a best ask. The best bid is the
  -- highest price on its side, the best ask the lowest on its own, the bid is below the ask, and the
  -- spread is what the ask is above the bid.
  pub quotes :
      HasKey bid b.bids
      × ((p : ℕ) → HasKey p b.bids → p ≤ bid)
      × HasKey ask b.asks
      × ((q : ℕ) → HasKey q b.asks → ask ≤ q)
      × (bid < ask)
      × ((s : ℕ) × (get_spread b ≡ some (pos s)) × (bid + s ≡ ask) × (0 < s))
  unfolding get_spread
  quotes =
      let crossed = v.uncrossed bid ask bid-IsBest.present ask-IsBest.present in
      (
        bid-IsBest.present,
        λ p k. All-HasKey (λ k. k ≤ bid) p b.bids bid-IsBest.first k,
        ask-IsBest.present,
        λ q k. All-HasKey (λ k. ask ≤ k) q b.asks ask-IsBest.first k,
        crossed,
        (let (s, e, sum, more) = sub_pos ask bid crossed in
            (s, ground (arith, e, best_bid, best_ask, crossed, some_bid), sum, more)),
      )
