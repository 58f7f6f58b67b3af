-- ===== src/OrderBook/Validity.antt =====
-- The invariant of a book, and what matching does to it.
use stock_trading_platform.Prelude.{ℕ, ◌≤◌, ◌<◌, ◌≡◌, refl, false, [], arith}
use stock_trading_platform.Events.{OrderSide, buy, sell, Heap}
use stock_trading_platform.OrderBook.Levels.{Levels}
use stock_trading_platform.OrderBook.Matching.{Match, can_match, match_order}
use stock_trading_platform.OrderBook.Resting.{Place, IsTracked, across}
use stock_trading_platform.OrderBook.Side.{HasKey, IsSide, total_quantity}
use stock_trading_platform.OrderBook.Sweep.{Matching, match_order-Matching}
use stock_trading_platform.OrderBook.Book.{
  OrderBook, Outcome, match_side, match_buy_order, match_sell_order,
}

-- The side that an incoming order meets, and its own.
abbrev pub facing : OrderSide → OrderBook → Levels
facing buy b = b.asks
facing sell b = b.bids

abbrev pub own : OrderSide → OrderBook → Levels
own buy b = b.bids
own sell b = b.asks

abbrev pub place : OrderBook → OrderSide → Place
place b side = record { ticker = b.ticker; side = side }

-- Both sides are in order, and every bid is below every ask. `n` bounds the references.
pub record IsBook (h : Heap) (n : ℕ) (b : OrderBook) : Type 0 where
  pub bids_kept : IsSide h (place b buy) n b.bids
  pub asks_kept : IsSide h (place b sell) n b.asks
  pub uncrossed : (p q : ℕ) → HasKey p b.bids → HasKey q b.asks → p < q

abbrev pub match_state : OrderSide → Outcome → Match
match_state side r = record {
  heap = r.heap;
  levels = facing side r.book;
  trade_counter = r.book.trade_counter;
  trades = r.trades;
}

-- What matching leaves: the loop's invariant, ended by the loop's tests, and the rest of the book
-- as it was.
pub record Matched (clock : ℕ → ℕ) (side : OrderSide) (h : Heap) (n : ℕ) (b : OrderBook) (o : ℕ)
    (r : Outcome) : Type 0 where
  pub matching :
      Matching clock b.ticker side o n h
        (facing side b)
        (h o).filled_quantity
        (total_quantity h (facing side b))
        b.trade_counter
        (match_state side r)
  pub exhausted : can_match clock b.ticker side o (match_state side r) ≡ false
  pub same_own : own side r.book ≡ own side b
  pub same_ticker : r.book.ticker ≡ b.ticker

module _ (clock : ℕ → ℕ) (h : Heap) (n : ℕ) (b : OrderBook) (o : ℕ) (v : IsBook h n b)
    (fresh : n ≤ o) (tracked : IsTracked (h o)) where
  abbrev pub start : OrderSide → Match
  start side = record {
    heap = h;
    levels = facing side b;
    trade_counter = b.trade_counter;
    trades = [];
  }

  facing-IsSide : (side : OrderSide) → IsSide h (across b.ticker side) n (facing side b)
  facing-IsSide buy = v.asks_kept
  facing-IsSide sell = v.bids_kept

  pub start-Matching :
      (side : OrderSide)
      → Matching clock b.ticker side o n h
          (facing side b)
          (h o).filled_quantity
          (total_quantity h (facing side b))
          b.trade_counter
          (start side)
  start-Matching side = record {
    incoming = tracked;
    same_terms = λ x. refl;
    levels_kept = facing-IsSide side;
    keys_kept = λ k a. a;
    untouched = λ x ne stays. refl;
    incoming_filled = omega arith;
    conserved = omega arith;
    counted = omega arith;
    numbered = tt;
    fair = tt;
    best_first = tt;
    by_price = tt;
  }

  pub match_side_state :
      (side : OrderSide)
      → match_state side (match_side clock side h b o)
        ≡ match_order clock b.ticker side o (start side)
  unfolding match_buy_order match_sell_order
  match_side_state buy = refl
  match_side_state sell = refl

  pub match_side-Matched :
      (side : OrderSide) → Matched clock side h n b o (match_side clock side h b o)
  unfolding match_buy_order match_sell_order
  match_side-Matched buy =
      let m =
        match_order-Matching clock b.ticker buy o n h (facing buy b) (h o).filled_quantity
          (total_quantity h (facing buy b)) b.trade_counter fresh (start buy)
          (start-Matching buy) in
      record { matching = m.0; exhausted = m.1; same_own = refl; same_ticker = refl }
  match_side-Matched sell =
      let m =
        match_order-Matching clock b.ticker sell o n h (facing sell b) (h o).filled_quantity
          (total_quantity h (facing sell b)) b.trade_counter fresh (start sell)
          (start-Matching sell) in
      record { matching = m.0; exhausted = m.1; same_own = refl; same_ticker = refl }
