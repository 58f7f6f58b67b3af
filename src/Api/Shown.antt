-- ===== src/Api/Shown.antt =====
-- The book as `get_order_book` of trading/api/routes.py shows it, for a book in order.
use stock_trading_platform.Prelude.{
  ℕ, ◌≤◌, ◌≡◌, refl, ap, sym, ◌∙◌, String, true, Option, none, some, List, [], ◌∷◌, All, arith,
  if◌then◌else◌,
}
use stock_trading_platform.Prelude.Dict.{lookup}
use stock_trading_platform.Events.{OrderSide, buy, sell, Heap}
use stock_trading_platform.OrderBook.Levels.{Levels, min_key, max_key, best_price}
use stock_trading_platform.OrderBook.Resting.{Place}
use stock_trading_platform.OrderBook.Side.{IsSide, total_quantity}
use stock_trading_platform.OrderBook.Book.{OrderBook, ok, get_best_bid, get_best_ask}
use stock_trading_platform.OrderBook.Validity.{place}
use stock_trading_platform.Engine.Manager.{OrderBookManager, is_supported, get_order_book}
use stock_trading_platform.Engine.Routing.{IsManager}
use stock_trading_platform.Api.BookView.{
  OrderBookLevel, OrderBookResponse, insert_level, view_levels, view_book, view_found,
  build_order_book_response, stands_before, IsSorted, level_total, view_levels-IsSorted,
}

-- No price is above one before it; no price is below one before it.
abbrev pub Descending : List OrderBookLevel → Type 0
Descending [] = Unit
Descending (x ∷ xs) = All (λ y. y.price ≤ x.price) xs × Descending xs

abbrev pub Ascending : List OrderBookLevel → Type 0
Ascending [] = Unit
Ascending (x ∷ xs) = All (λ y. x.price ≤ y.price) xs × Ascending xs

sell-Descending : (xs : List OrderBookLevel) → IsSorted sell xs → Descending xs
sell-Descending [] s = tt
sell-Descending (x ∷ xs) s = (s.0, sell-Descending xs s.1)

buy-Ascending : (xs : List OrderBookLevel) → IsSorted buy xs → Ascending xs
buy-Ascending [] s = tt
buy-Ascending (x ∷ xs) s = (s.0, buy-Ascending xs s.1)

abbrev pub first_price : List OrderBookLevel → Option ℕ
first_price [] = none
first_price (x ∷ xs) = some x.price

-- The better of a price and one that there may be.
abbrev better : OrderSide → ℕ → Option ℕ → ℕ
better side p none = p
better side p (some q) = if stands_before side p q then p else q

first_price-insert_level :
    (side : OrderSide) (x : OrderBookLevel) (xs : List OrderBookLevel)
    → first_price (insert_level side x xs) ≡ some (better side x.price (first_price xs))
unfolding insert_level
first_price-insert_level side x [] = refl
first_price-insert_level side x (y ∷ ys) = ground arith

min_key-better :
    (p : ℕ) (q : List ℕ) (ls : Levels) → min_key ((p, q) ∷ ls) ≡ some (better buy p (min_key ls))
unfolding min_key
min_key-better p q ls = ground arith

max_key-better :
    (p : ℕ) (q : List ℕ) (ls : Levels) → max_key ((p, q) ∷ ls) ≡ some (better sell p (max_key ls))
unfolding max_key
max_key-better p q ls = ground arith

best_price-better :
    (side : OrderSide) (p : ℕ) (q : List ℕ) (ls : Levels)
    → best_price side ((p, q) ∷ ls) ≡ some (better side p (best_price side ls))
unfolding best_price
best_price-better buy p q ls = min_key-better p q ls
best_price-better sell p q ls = max_key-better p q ls

best_price-none : (side : OrderSide) → best_price side [] ≡ none
unfolding best_price min_key max_key
best_price-none buy = refl
best_price-none sell = refl

-- On a side in order the first price shown is the best.
first_price-view_levels :
    (side : OrderSide) (h : Heap) (at : Place) (n : ℕ) (ls : Levels)
    → IsSide h at n ls
    → first_price (view_levels side h ls) ≡ best_price side ls
unfolding view_levels
first_price-view_levels side h at n [] v = sym (best_price-none side)
first_price-view_levels side h at n ((p, []) ∷ ls) v = absurd (ground (arith, v.0.nonempty))
first_price-view_levels side h at n ((p, r ∷ q) ∷ ls) v =
    first_price-insert_level side _ (view_levels side h ls)
    ∙ ap (λ b. some (better side p b)) (first_price-view_levels side h at n ls v.2)
    ∙ sym (best_price-better side p (r ∷ q) ls)

module _ (h : Heap) (n : ℕ) (m : OrderBookManager) (t : String) (v : IsManager h n m)
    (supported : is_supported t m.supported_tickers ≡ true) where
  -- The response for a supported ticker, on books in order, is of the ticker's own book. The bids
  -- stand with the highest price first, the asks with the lowest; the first bid is at the best bid
  -- that is shown, the first ask at the best ask; and the quantities of each side add up to all that
  -- is open on it.
  pub shown_book :
      (b : OrderBook) × (r : OrderBookResponse) × (lookup t m.order_books ≡ some b)
      × (build_order_book_response h m t ≡ ok r)
      × Descending r.bids
      × Ascending r.asks
      × (first_price r.bids ≡ r.best_bid)
      × (first_price r.asks ≡ r.best_ask)
      × (level_total r.bids ≡ total_quantity h b.bids)
      × (level_total r.asks ≡ total_quantity h b.asks)
  unfolding build_order_book_response get_order_book get_best_bid get_best_ask best_price
  shown_book =
      let (b, found) = v.all_supported t supported in
      let at_hand : get_order_book m t ≡ ok b = ground (arith, supported, found) in
      let kept = (v.books_kept t b found).1 in
      let bids = view_levels-IsSorted sell h b.bids in
      let asks = view_levels-IsSorted buy h b.asks in
      (
        b,
        view_book h t b,
        found,
        ap (view_found h t) at_hand,
        sell-Descending _ bids.0,
        buy-Ascending _ asks.0,
        first_price-view_levels sell h (place b buy) n b.bids kept.bids_kept,
        first_price-view_levels buy h (place b sell) n b.asks kept.asks_kept,
        bids.1,
        asks.1,
      )
