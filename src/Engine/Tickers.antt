-- ===== src/Engine/Tickers.antt =====
-- The list of the supported tickers, and the book of each.
use stock_trading_platform.Prelude.{
  ℕ, ◌≡◌, refl, ap, sym, ◌∙◌, String, true, ◌||◌, List, [], ◌∷◌, All, All-map, arith, str_eq,
}
use Prim.Native.String.{compare}
use Prim.Native.Nat.{Ordering, lt, eq, gt}
use text.Mathlib.TextEquality.{path_by_compare}
use text.Mathlib.TextPositions.{eq_refl}
use stock_trading_platform.Engine.Manager.{
  OrderBookManager, is_supported, insert_sorted, sort_tickers, get_supported_tickers,
  get_order_book,
}
use stock_trading_platform.Engine.Routing.{IsManager}
use stock_trading_platform.Events.{Heap}
use stock_trading_platform.OrderBook.Book.{OrderBook, ok}

module _ (u t s : String) (ts rest : List String)
    (later : is_supported u rest ≡ (str_eq t u || is_supported u ts)) where
  insertion :
      (k : Ordering)
      → compare t s ≡ k
      → is_supported u (elim k [ lt ↦ t ∷ s ∷ ts | eq ↦ s ∷ ts | gt ↦ s ∷ rest ])
        ≡ (str_eq t u || is_supported u (s ∷ ts))
  unfolding is_supported
  insertion lt e = refl
  insertion eq e =
      let same : str_eq t u ≡ str_eq s u = ap (λ x. str_eq x u) (path_by_compare t s e) in
      ground (arith, same)
  insertion gt e = ground (arith, later)

is_supported-insert_sorted :
    (u t : String) (ts : List String)
    → is_supported u (insert_sorted t ts) ≡ (str_eq t u || is_supported u ts)
unfolding is_supported insert_sorted
is_supported-insert_sorted u t [] = refl
is_supported-insert_sorted u t (s ∷ ts) =
    insertion u t s ts (insert_sorted t ts) (is_supported-insert_sorted u t ts) (compare t s) refl

pub is_supported-sort_tickers :
    (u : String) (ts : List String) → is_supported u (sort_tickers ts) ≡ is_supported u ts
unfolding is_supported sort_tickers
is_supported-sort_tickers u [] = refl
is_supported-sort_tickers u (t ∷ ts) =
    ground (arith, is_supported-insert_sorted u t (sort_tickers ts), is_supported-sort_tickers u ts)

head : (t : String) (ts : List String) → is_supported t (t ∷ ts) ≡ true
unfolding is_supported
head t ts = ground (arith, eq_refl t)

is_supported-weaken :
    (u t : String) (ts : List String) → is_supported u ts ≡ true → is_supported u (t ∷ ts) ≡ true
unfolding is_supported
is_supported-weaken u t ts e = ground (arith, e)

-- Every ticker of a list is found in it.
pub is_supported_lem : (ts : List String) → All (λ (t : String). is_supported t ts ≡ true) ts
is_supported_lem [] = tt
is_supported_lem (t ∷ ts) =
    (head t ts, All-map (λ u e. is_supported-weaken u t ts e) ts (is_supported_lem ts))

pub supported_lem :
    (m : OrderBookManager)
    → All (λ (t : String). is_supported t m.supported_tickers ≡ true) (get_supported_tickers m)
supported_lem m =
    All-map (λ t e. sym (is_supported-sort_tickers t m.supported_tickers) ∙ e)
      (get_supported_tickers m) (is_supported_lem (get_supported_tickers m))

pub get_order_book_ok :
    (m : OrderBookManager) (h : Heap) (n : ℕ) (t : String)
    → IsManager h n m
    → is_supported t m.supported_tickers ≡ true
    → (b : OrderBook) × (get_order_book m t ≡ ok b)
unfolding get_order_book
get_order_book_ok m h n t v s = let (b, e) = v.all_supported t s in (b, ground arith)
