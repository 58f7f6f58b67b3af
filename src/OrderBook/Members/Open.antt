-- ===== src/OrderBook/Members/Open.antt =====
-- The orders in a book are open, and known by references below the bound.
use stock_trading_platform.Prelude.{ℕ, suc, ◌<◌, ◌≡◌, false, List, [], ◌∷◌, All}
use stock_trading_platform.Events.{Heap, is_complete}
use stock_trading_platform.OrderBook.Levels.{Levels}
use stock_trading_platform.OrderBook.Resting.{Place, Rests, Ascending}
use stock_trading_platform.OrderBook.Side.{IsSide}
use stock_trading_platform.OrderBook.Book.{OrderBook}
use stock_trading_platform.OrderBook.Removal.{Everywhere}
use stock_trading_platform.OrderBook.Validity.{IsBook}
use stock_trading_platform.OrderBook.Members.Operations.{EveryOrder}

-- What rests is open, and below the bound of references.
abbrev pub IsOpen : Heap → ℕ → ℕ → Type 0
IsOpen h n x = (is_complete (h x) ≡ false) × (x < n)

queue-IsOpen :
    (h : Heap) (place : Place) (p lo n : ℕ) (q : List ℕ)
    → Ascending lo n q
    → All (Rests h place p) q
    → All (IsOpen h n) q
queue-IsOpen h place p lo n [] a t = tt
queue-IsOpen h place p lo n (r ∷ q) a t =
    ((t.0.is_open, a.1), queue-IsOpen h place p (suc r) n q a.2 t.1)

side-IsOpen :
    (h : Heap) (place : Place) (n : ℕ) (ls : Levels)
    → IsSide h place n ls
    → Everywhere (IsOpen h n) ls
side-IsOpen h place n [] s = tt
side-IsOpen h place n (e ∷ ls) s =
    (queue-IsOpen h place e.0 0 n e.1 s.0.ordered s.0.resting, side-IsOpen h place n ls s.2)

pub book-IsOpen : (h : Heap) (n : ℕ) (b : OrderBook) → IsBook h n b → EveryOrder (IsOpen h n) b
book-IsOpen h n b v = (side-IsOpen h _ n b.bids v.bids_kept, side-IsOpen h _ n b.asks v.asks_kept)
