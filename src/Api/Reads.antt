-- ===== src/Api/Reads.antt =====
-- The handlers of trading/api/routes.py that only read: `get_order_book` and `list_tickers`.
use stock_trading_platform.Prelude.{
  ℕ, ◌≡◌, String, not, List, if◌then◌else◌, arith, Bool-cases, inl, inr,
}
use stock_trading_platform.Events.{Heap}
use stock_trading_platform.OrderBook.Book.{OrderBook, Error, Result, ok, raise}
use stock_trading_platform.Engine.Manager.{is_supported, get_supported_tickers, get_order_book}
use stock_trading_platform.Engine.Matcher.{MatchingEngine}
use stock_trading_platform.Engine.Routing.{IsManager}
use stock_trading_platform.Engine.Tickers.{is_supported-sort_tickers}
use stock_trading_platform.Api.BookView.{OrderBookResponse, view_book, build_order_book_response}

-- HTTP 200, 404 with the tickers that there are, and 500.
pub data BookAnswer : Type 0 where
  shown : OrderBookResponse → BookAnswer
  not_found : List String → BookAnswer
  lookup_failed : Error → BookAnswer

abbrev pub answer_of : Result OrderBookResponse → BookAnswer
answer_of (raise e) = lookup_failed e
answer_of (ok r) = shown r

-- The handler `get_order_book`.
unfoldable pub answer_book : Heap → MatchingEngine → String → BookAnswer
answer_book h e t =
    let tickers = get_supported_tickers e.manager in
    if not (is_supported t tickers)
    then not_found tickers
    else answer_of (build_order_book_response h e.manager t)

abbrev pub list_tickers : MatchingEngine → List String
list_tickers e = get_supported_tickers e.manager

-- On books in order a supported ticker is answered with the view of its own book, and any other
-- with the list of the tickers; the lookup never fails.
pub answer_book_lem :
    (h : Heap) (n : ℕ) (e : MatchingEngine) (t : String)
    → IsManager h n e.manager
    → (if is_supported t e.manager.supported_tickers
        then ((b : OrderBook) × (b.ticker ≡ t) × (answer_book h e t ≡ shown (view_book h t b)))
        else answer_book h e t ≡ not_found (list_tickers e))
unfolding answer_book build_order_book_response get_order_book
answer_book_lem h n e t v =
    let sorted = is_supported-sort_tickers t e.manager.supported_tickers in
    elim (Bool-cases (is_supported t e.manager.supported_tickers)) [
      | inl known ↦
          let (b, found) = v.all_supported t known in
          rw known (b, (v.books_kept t b found).0, ground (arith, sorted, known, found))
      | inr unknown ↦ rw unknown (ground (arith, sorted, unknown))
    ]
