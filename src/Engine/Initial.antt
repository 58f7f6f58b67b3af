-- ===== src/Engine/Initial.antt =====
-- The manager of a new engine.
use stock_trading_platform.Prelude.{
  ℕ, ◌≡◌, ◌⊎◌, refl, sym, subst, String, true, some, List, [], ◌∷◌, arith, inl, inr, str_eq, eq_iff,
  Bool-cases,
}
use stock_trading_platform.Prelude.Dict.{Dict, lookup, insert, lookup-insert}
use stock_trading_platform.Events.{Heap}
use stock_trading_platform.OrderBook.Book.{OrderBook, empty_book}
use stock_trading_platform.OrderBook.Validity.{IsBook}
use stock_trading_platform.Engine.Manager.{is_supported, make_books, init_manager}
use stock_trading_platform.Engine.Routing.{IsManager}

pub lookup-make_books :
    (t : String) (b : OrderBook) (ts : List String) (d : Dict OrderBook)
    → lookup t (make_books ts d) ≡ some b
    → (b ≡ empty_book t) ⊎ (lookup t d ≡ some b)
unfolding make_books
lookup-make_books t b [] d e = inr e
lookup-make_books t b (s ∷ ts) d e = elim (lookup-make_books t b ts (insert s (empty_book s) d) e) [
  | inl same ↦ inl same
  | inr old ↦ ground (arith, lookup-insert s t (empty_book s) d, eq_iff s t)
]

make_books-keeps :
    (t : String) (b : OrderBook) (ts : List String) (d : Dict OrderBook)
    → lookup t d ≡ some b
    → (c : OrderBook) × (lookup t (make_books ts d) ≡ some c)
unfolding make_books
make_books-keeps t b [] d e = (b, e)
make_books-keeps t b (s ∷ ts) d e = elim (Bool-cases (str_eq s t)) [
  | inl here ↦
      make_books-keeps t (empty_book s) ts (insert s (empty_book s) d)
        (ground (arith, lookup-insert s t (empty_book s) d))
  | inr there ↦
      make_books-keeps t b ts (insert s (empty_book s) d)
        (ground (arith, lookup-insert s t (empty_book s) d))
]

make_books-has :
    (t : String) (ts : List String) (d : Dict OrderBook)
    → is_supported t ts ≡ true
    → (c : OrderBook) × (lookup t (make_books ts d) ≡ some c)
unfolding make_books is_supported
make_books-has t [] d e = absurd (ground arith)
make_books-has t (s ∷ ts) d e = elim (Bool-cases (str_eq s t)) [
  | inl here ↦
      make_books-keeps t (empty_book s) ts (insert s (empty_book s) d)
        (ground (arith, lookup-insert s t (empty_book s) d))
  | inr there ↦ make_books-has t ts (insert s (empty_book s) d) (ground arith)
]

-- A new manager, for any tickers, has a book for each of them, and all its books are well-formed,
-- over any heap and any bound of references.
pub init_manager-IsManager : (ts : List String) (h : Heap) (n : ℕ) → IsManager h n (init_manager ts)
unfolding init_manager lookup
init_manager-IsManager ts h n = record {
  books_kept = λ t b e. elim (lookup-make_books t b ts [] e) [
    | inl same ↦
        subst (λ (c : OrderBook). (c.ticker ≡ t) × IsBook h n c) (sym same)
          (refl, record { bids_kept = tt; asks_kept = tt; uncrossed = λ p q k l. absurd k })
    | inr old ↦ absurd (ground arith)
  ];
  all_supported = λ t s. make_books-has t ts [] s;
}
