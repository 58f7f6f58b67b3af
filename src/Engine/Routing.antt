-- ===== src/Engine/Routing.antt =====
-- An order handed to the book of its ticker, and the managers that stay in order by it.
use stock_trading_platform.Prelude.{
  ℕ, suc, ◌≤◌, ◌<◌, ◌≡◌, ◌≢◌, refl, ap, sym, ◌∙◌, subst, String, true, false, some, arith, ◌⊎◌, inl,
  inr, eq_iff, str_eq, Bool-cases,
}
use stock_trading_platform.Prelude.Dict.{lookup, lookup-insert}
use stock_trading_platform.Events.{buy, sell, OrderType, limit, market, Order, Heap, write}
use stock_trading_platform.OrderBook.Resting.{IsTracked}
use stock_trading_platform.OrderBook.Side.{IsSide-frame}
use stock_trading_platform.OrderBook.Book.{OrderBook, Outcome, ok, raise, unsupported_ticker}
use stock_trading_platform.OrderBook.Validity.{IsBook, place}
use stock_trading_platform.OrderBook.Executes.{Executes}
use stock_trading_platform.OrderBook.Orders.{
  limit_outcome, market_outcome, limit_outcome-Executes, market_outcome-Executes,
  execute_market_order_lem, market_outcome-IsBook, limit_outcome-IsBook, limit_outcome_lem,
}
use stock_trading_platform.Engine.Manager.{
  OrderBookManager, Submitted, is_supported, route_order, submit_order, put_book,
}

-- An order that a client may submit: not overfilled, and with a price if it is a limit order.
pub record IsSubmittable (x : Order) : Type 0 where
  pub tracked : IsTracked x
  pub priced : x.order_type ≡ limit → (p : ℕ) × (x.price ≡ some p)

pub OrderType-cases : (t : OrderType) → (t ≡ limit) ⊎ (t ≡ market)
OrderType-cases limit = inl refl
OrderType-cases market = inr refl

module _ (clock : ℕ → ℕ) (h : Heap) (n : ℕ) (b : OrderBook) (o : ℕ) (v : IsBook h n b)
    (fresh : n ≤ o) (good : IsSubmittable (h o)) (in_book : (h o).ticker ≡ b.ticker) where
  -- Either type of order is executed, and leaves the book in order.
  pub route_order-Executes :
      (r : Outcome) × (route_order clock h b o ≡ ok r)
      × IsBook r.heap (suc o) r.book
      × Executes h b o r
  unfolding route_order
  route_order-Executes = elim (OrderType-cases (h o).order_type) [
    | inl l ↦
        let (p, ep) = good.priced l in
        (
          limit_outcome clock h n b o v fresh good.tracked in_book p,
          rw (l, route_order) (limit_outcome_lem clock h n b o v fresh good.tracked in_book p l ep),
          limit_outcome-IsBook clock h n b o v fresh good.tracked in_book p l ep,
          limit_outcome-Executes clock h n b o v fresh good.tracked in_book p,
        )
    | inr m ↦ (
      market_outcome clock h n b o v fresh good.tracked in_book,
      rw (m, route_order) (execute_market_order_lem clock h n b o v fresh good.tracked in_book m),
      market_outcome-IsBook clock h n b o v fresh good.tracked in_book,
      market_outcome-Executes clock h n b o v fresh good.tracked in_book,
    )
  ]

-- The order that arrives changes no order of another ticker.
pub IsBook-frame :
    (h h' : Heap) (n n' : ℕ) (b : OrderBook)
    → n ≤ n'
    → ((x : ℕ) → x < n → (h x).ticker ≡ b.ticker → h' x ≡ h x)
    → IsBook h n b
    → IsBook h' n' b
IsBook-frame h h' n n' b le f v = record {
  bids_kept =
      IsSide-frame h h' (place b buy) n n' b.bids le (λ x p l t. ground (arith, f x l t.in_book))
        v.bids_kept;
  asks_kept =
      IsSide-frame h h' (place b sell) n n' b.asks le (λ x p l t. ground (arith, f x l t.in_book))
        v.asks_kept;
  uncrossed = v.uncrossed;
}

-- Every supported ticker has its own book, and all books are in order.
pub record IsManager (h : Heap) (n : ℕ) (m : OrderBookManager) : Type 0 where
  pub books_kept :
      (t : String) (b : OrderBook) → lookup t m.order_books ≡ some b → (b.ticker ≡ t) × IsBook h n b
  pub all_supported :
      (t : String)
      → is_supported t m.supported_tickers ≡ true
      → (b : OrderBook) × (lookup t m.order_books ≡ some b)

-- A new object in the heap is seen by no book.
pub IsManager-frame :
    (h : Heap) (n n' o : ℕ) (x : Order) (m : OrderBookManager)
    → n ≤ n'
    → n ≤ o
    → IsManager h n m
    → IsManager (write h o x) n' m
IsManager-frame h n n' o x m le fresh v = record {
  books_kept = λ t b e.
      let kept = v.books_kept t b e in
      (kept.0, IsBook-frame h (write h o x) n n' b le (λ y l same. ground arith) kept.1);
  all_supported = v.all_supported;
}

module _ (clock : ℕ → ℕ) (h : Heap) (n : ℕ) (m : OrderBookManager) (o : ℕ) (v : IsManager h n m)
    (fresh : n ≤ o) where
  -- A ticker with no book is refused before anything is changed.
  submit_order-unsupported :
      is_supported (h o).ticker m.supported_tickers ≡ false
      → submit_order clock h m o ≡ raise unsupported_ticker
  unfolding submit_order
  submit_order-unsupported e = rw e

  module _ (good : IsSubmittable (h o))
      (known : is_supported (h o).ticker m.supported_tickers ≡ true) where
    abbrev pub book : OrderBook
    book = (v.all_supported (h o).ticker known).0

    pub found : lookup (h o).ticker m.order_books ≡ some book
    found = (v.all_supported (h o).ticker known).1

    pub book_kept : (book.ticker ≡ (h o).ticker) × IsBook h n book
    book_kept = v.books_kept (h o).ticker book found

    abbrev pub ran :
        (r : Outcome) × (route_order clock h book o ≡ ok r)
        × IsBook r.heap (suc o) r.book
        × Executes h book o r
    ran = route_order-Executes clock h n book o book_kept.1 fresh good (sym book_kept.0)

    abbrev pub submitted : Submitted
    submitted = record {
      heap = ran.0.heap;
      manager = put_book m (h o).ticker ran.0.book;
      trades = ran.0.trades;
    }

    pub submit_order_lem : submit_order clock h m o ≡ ok submitted
    unfolding submit_order
    submit_order_lem = rw (known, found, ran.1)

    -- Orders of other tickers stay as they are.
    other_tickers : (x : ℕ) → (h x).ticker ≢ (h o).ticker → ran.0.heap x ≡ h x
    other_tickers x ne =
        ran.3.untouched x (λ e. ne (ap (λ y. (h y).ticker) e)) (λ price st. ne (st.1 ∙ book_kept.0))

    pub other_books :
        (t : String)
        → t ≢ (h o).ticker
        → lookup t submitted.manager.order_books ≡ lookup t m.order_books
    other_books t ne = rw lookup-insert (ground (arith, eq_iff (h o).ticker t))

    next_books :
        (t : String) (b : OrderBook)
        → lookup t submitted.manager.order_books ≡ some b
        → (b.ticker ≡ t) × IsBook submitted.heap (suc o) b
    next_books t b e = elim (Bool-cases (str_eq (h o).ticker t)) [
      | inl same ↦
          let is_new = ran.0.book ≡ b in
          let new : is_new =
            ground (arith, lookup-insert (h o).ticker t ran.0.book m.order_books) in
          subst (λ (c : OrderBook). (c.ticker ≡ t) × IsBook submitted.heap (suc o) c) new
            (ran.3.same_ticker ∙ book_kept.0 ∙ (eq_iff (h o).ticker t).0 same, ran.2)
      | inr differs ↦
          let ne : t ≢ (h o).ticker = ground (arith, eq_iff (h o).ticker t) in
          let (here, kept) = v.books_kept t b (sym (other_books t ne) ∙ e) in
          (
            here,
            IsBook-frame h submitted.heap n (suc o) b (omega arith)
                (λ x l q. other_tickers x (λ c. ne (sym (sym c ∙ q ∙ here)))) kept,
          )
    ]

    next_supported :
        (t : String)
        → is_supported t m.supported_tickers ≡ true
        → (b : OrderBook) × (lookup t submitted.manager.order_books ≡ some b)
    next_supported t s = elim (Bool-cases (str_eq (h o).ticker t)) [
      | inl same ↦
          (ran.0.book, ground (arith, lookup-insert (h o).ticker t ran.0.book m.order_books))
      | inr differs ↦
          let (b, e) = v.all_supported t s in
          (b, other_books t (ground (arith, eq_iff (h o).ticker t)) ∙ e)
    ]

    pub submitted-IsManager : IsManager submitted.heap (suc o) submitted.manager
    submitted-IsManager = record { books_kept = next_books; all_supported = next_supported }

    -- On a manager whose books are all well-formed, the submission of a limit order with a price or
    -- a market order, new to the books and for a supported ticker, succeeds, and the books of all
    -- tickers are well-formed after it.
    pub submit_order-IsManager :
        (s : Submitted) × (submit_order clock h m o ≡ ok s) × IsManager s.heap (suc o) s.manager
    submit_order-IsManager = (submitted, submit_order_lem, submitted-IsManager)

    -- Such a submission changes no book and no order of another ticker.
    pub submit_order-isolates :
        (s : Submitted) × (submit_order clock h m o ≡ ok s)
        × ((t : String)
            → t ≢ (h o).ticker
            → lookup t s.manager.order_books ≡ lookup t m.order_books)
        × ((x : ℕ) → (h x).ticker ≢ (h o).ticker → s.heap x ≡ h x)
    submit_order-isolates = (submitted, submit_order_lem, other_books, other_tickers)
