-- ===== src/Engine/Samples.antt =====
-- A small heap, book and manager for tests.
use stock_trading_platform.Prelude.{
  Bool-cases, inl, inr, subst, str_eq, eq_iff, true, ℕ, ◌≡◌, refl, some, none, String, [], ◌∷◌,
  arith, ◌==◌, if◌then◌else◌,
}
use stock_trading_platform.Events.{OrderSide, buy, sell, limit, market, new, Order, Heap}
use stock_trading_platform.OrderBook.Book.{OrderBook, empty_book}
use stock_trading_platform.OrderBook.Validity.{IsBook}
use stock_trading_platform.Engine.Manager.{OrderBookManager, is_supported}
use stock_trading_platform.Engine.Routing.{IsSubmittable, IsManager}
use stock_trading_platform.Prelude.Dict.{lookup}

abbrev pub order : String → OrderSide → ℕ → ℕ → Order
order id side quantity price = record {
  order_id = id;
  ticker = "AAPL";
  side = side;
  order_type = limit;
  quantity = quantity;
  price = some price;
  timestamp = 0;
  status = new;
  filled_quantity = 0;
  account_id = "default";
}

-- Two asks at 101 and one at 100 rest; a bid at 99. Order 4 buys 12
-- at 101; order 5 sells 20 at the market.
abbrev pub heap : Heap
heap r =
    if r == 0
    then order "s0" sell 5 101
    else if r == 1
    then order "s1" sell 4 100
    else if r == 2
    then order "s2" sell 6 101
    else if r == 3
    then order "b3" buy 9 99
    else if r == 4
    then order "b4" buy 12 101
    else record (order "m5" sell 20 0) { order_type = market; price = none }

abbrev pub book : OrderBook
book = record {
  ticker = "AAPL";
  bids = (99, 3 ∷ []) ∷ [];
  asks = (101, 0 ∷ 2 ∷ []) ∷ (100, 1 ∷ []) ∷ [];
  trade_counter = 7;
}

abbrev pub clock : ℕ → ℕ
clock n = n

pub book-IsBook : IsBook heap 4 book
book-IsBook = record {
  bids_kept = ground arith;
  asks_kept = ground arith;
  uncrossed = λ p q k l. ground arith;
}

pub buy_order-IsSubmittable : IsSubmittable (heap 4)
buy_order-IsSubmittable = record { tracked = ground arith; priced = λ l. (101, refl) }

pub sell_order-IsSubmittable : IsSubmittable (heap 5)
sell_order-IsSubmittable = record { tracked = ground arith; priced = λ l. absurd (ground arith) }

abbrev pub manager : OrderBookManager
manager = record {
  order_books = ("AAPL", book) ∷ ("MSFT", empty_book "MSFT") ∷ [];
  supported_tickers = "AAPL" ∷ "MSFT" ∷ [];
}

msft-IsBook : IsBook heap 4 (empty_book "MSFT")
msft-IsBook = record { bids_kept = tt; asks_kept = tt; uncrossed = λ p q k l. absurd k }

manager-books_kept :
    (t : String) (b : OrderBook)
    → lookup t manager.order_books ≡ some b
    → (b.ticker ≡ t) × IsBook heap 4 b
unfolding lookup
manager-books_kept t b e = elim (Bool-cases (str_eq "AAPL" t)) [
  | inl aapl ↦
      let same : book ≡ b = ground arith in
      subst (λ (c : OrderBook). (c.ticker ≡ t) × IsBook heap 4 c) same
        ((eq_iff "AAPL" t).0 aapl, book-IsBook)
  | inr other ↦ elim (Bool-cases (str_eq "MSFT" t)) [
    | inl msft ↦
        let same : empty_book "MSFT" ≡ b = ground arith in
        subst (λ (c : OrderBook). (c.ticker ≡ t) × IsBook heap 4 c) same
          ((eq_iff "MSFT" t).0 msft, msft-IsBook)
    | inr neither ↦ absurd (ground arith)
  ]
]

manager-all_supported :
    (t : String)
    → is_supported t manager.supported_tickers ≡ true
    → (b : OrderBook) × (lookup t manager.order_books ≡ some b)
unfolding lookup is_supported
manager-all_supported t s = elim (Bool-cases (str_eq "AAPL" t)) [
  | inl aapl ↦ (book, ground arith)
  | inr other ↦ (empty_book "MSFT", ground arith)
]

pub manager-IsManager : IsManager heap 4 manager
manager-IsManager = record {
  books_kept = manager-books_kept;
  all_supported = manager-all_supported;
}
