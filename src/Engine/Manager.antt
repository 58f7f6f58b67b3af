-- ===== src/Engine/Manager.antt =====
-- `class OrderBookManager`.
use stock_trading_platform.Prelude.{
  ℕ, String, Bool, false, not, ◌||◌, Option, none, some, List, [], ◌∷◌, str_eq, if◌then◌else◌,
}
use Prim.Native.String.{compare}
use Prim.Native.Nat.{lt, eq, gt}
use stock_trading_platform.Prelude.Dict.{Dict, lookup, insert}
use stock_trading_platform.Events.{limit, market, Trade, Heap}
use stock_trading_platform.OrderBook.Book.{
  OrderBook, empty_book, Outcome, Result, ok, raise, unsupported_ticker, key_error, add_limit_order,
  execute_market_order, cancel_order,
}

-- `supported_tickers` is a set; the list that made it stands for it.
pub record OrderBookManager : Type 0 where
  pub order_books : Dict OrderBook
  pub supported_tickers : List String

-- `ticker in supported_tickers`
unfoldable pub is_supported : String → List String → Bool
is_supported t [] = false
is_supported t (s ∷ ts) = str_eq s t || is_supported t ts

unfoldable pub make_books : List String → Dict OrderBook → Dict OrderBook
make_books [] d = d
make_books (t ∷ ts) d = make_books ts (insert t (empty_book t) d)

-- `OrderBookManager(supported_tickers)`
unfoldable pub init_manager : List String → OrderBookManager
init_manager ts = record { order_books = make_books ts []; supported_tickers = ts }

-- The heap, the manager and the trades after a submission.
pub record Submitted : Type 0 where
  pub heap : Heap
  pub manager : OrderBookManager
  pub trades : List Trade

-- The book's own method for the order's type; `OrderType` has no third member.
unfoldable pub route_order : (ℕ → ℕ) → Heap → OrderBook → ℕ → Result Outcome
route_order clock h b o = elim (h o).order_type [
  | limit ↦ add_limit_order clock h b o
  | market ↦ execute_market_order clock h b o
]

-- Books are changed in place.
abbrev pub put_book : OrderBookManager → String → OrderBook → OrderBookManager
put_book m t b = record m { order_books = insert t b m.order_books }

abbrev pub update_book : OrderBookManager → String → Result Outcome → Result Submitted
update_book m t (raise e) = raise e
update_book m t (ok r) =
    ok (record { heap = r.heap; manager = put_book m t r.book; trades = r.trades })

abbrev pub submit_to : (ℕ → ℕ) → Heap → OrderBookManager → ℕ → Option OrderBook → Result Submitted
submit_to clock h m o none = raise key_error
submit_to clock h m o (some b) = update_book m (h o).ticker (route_order clock h b o)

-- `OrderBookManager.submit_order`
unfoldable pub submit_order : (ℕ → ℕ) → Heap → OrderBookManager → ℕ → Result Submitted
submit_order clock h m o =
    if not (is_supported (h o).ticker m.supported_tickers)
    then raise unsupported_ticker
    else submit_to clock h m o (lookup (h o).ticker m.order_books)

abbrev pub cancel_in :
    Heap
    → OrderBookManager
    → String
    → String
    → Option OrderBook
    → Result (Heap × OrderBookManager × Bool)
cancel_in h m t id none = raise key_error
cancel_in h m t id (some b) = let c = cancel_order h b id in ok (c.0, put_book m t c.1, c.2)

-- `OrderBookManager.cancel_order`
unfoldable pub cancel_order_in :
    Heap → OrderBookManager → String → String → Result (Heap × OrderBookManager × Bool)
cancel_order_in h m t id =
    if not (is_supported t m.supported_tickers)
    then ok (h, m, false)
    else cancel_in h m t id (lookup t m.order_books)

abbrev pub or_key_error : {A : Type 0} → Option A → Result A
or_key_error none = raise key_error
or_key_error (some a) = ok a

-- `get_order_book`
unfoldable pub get_order_book : OrderBookManager → String → Result OrderBook
get_order_book m t =
    if not (is_supported t m.supported_tickers)
    then raise unsupported_ticker
    else or_key_error (lookup t m.order_books)

-- A place in a sorted list, for a ticker that it has not yet.
unfoldable pub insert_sorted : String → List String → List String
insert_sorted t [] = t ∷ []
insert_sorted t (s ∷ ts) =
    let rest = insert_sorted t ts in
    elim (compare t s) [ lt ↦ t ∷ s ∷ ts | eq ↦ s ∷ ts | gt ↦ s ∷ rest ]

unfoldable pub sort_tickers : List String → List String
unfolding insert_sorted
sort_tickers [] = []
sort_tickers (t ∷ ts) = let rest = sort_tickers ts in insert_sorted t rest

-- `get_supported_tickers`: each once, sorted by code points.
abbrev pub get_supported_tickers : OrderBookManager → List String
get_supported_tickers m = sort_tickers m.supported_tickers
