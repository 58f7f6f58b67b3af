-- ===== src/Persistence/Snapshot.antt =====
-- `class SnapshotManager` of trading/persistence/snapshot.py. The file stands for what the JSON
-- library makes of it: `_order_to_dict` and `_dict_to_order` carry every field of an order.
use stock_trading_platform.Prelude.{
  ℕ, suc, String, Option, none, some, List, [], ◌∷◌, ◌++◌, map, ◌==◌, if◌then◌else◌,
}
use stock_trading_platform.Prelude.Dict.{Dict, insert}
use stock_trading_platform.Events.{Order, Heap, write}
use stock_trading_platform.OrderBook.Levels.{Levels}
use stock_trading_platform.OrderBook.Book.{OrderBook, Result, ok, raise, add_to_book}
use stock_trading_platform.Engine.Manager.{
  OrderBookManager, put_book, get_order_book, get_supported_tickers,
}
use stock_trading_platform.Engine.Matcher.{MatchingEngine}

-- The resting orders of a ticker's book: bids, then asks.
pub record SavedBook : Type 0 where
  pub bids : List Order
  pub asks : List Order

pub record Snapshot : Type 0 where
  pub version : ℕ
  pub sequence : ℕ
  pub books : List (String × SavedBook)

abbrev pub snapshot_version : ℕ
snapshot_version = 1

-- `[o for queue in levels.values() for o in queue]`, by the values of the orders.
unfoldable pub saved_orders : Heap → Levels → List Order
saved_orders h [] = []
saved_orders h ((p, q) ∷ ls) = map h q ++ saved_orders h ls

abbrev pub save_book : Heap → OrderBook → SavedBook
save_book h b = record { bids = saved_orders h b.bids; asks = saved_orders h b.asks }

abbrev pub add_saved :
    Heap
    → String
    → Result OrderBook
    → Result (List (String × SavedBook))
    → Result (List (String × SavedBook))
add_saved h t (raise e) books = raise e
add_saved h t (ok b) (raise e) = raise e
add_saved h t (ok b) (ok books) = ok ((t, save_book h b) ∷ books)

unfoldable pub save_books :
    Heap → OrderBookManager → List String → Result (List (String × SavedBook))
save_books h m [] = ok []
save_books h m (t ∷ ts) = let rest = save_books h m ts in add_saved h t (get_order_book m t) rest

abbrev pub make_snapshot : ℕ → Result (List (String × SavedBook)) → Result Snapshot
make_snapshot sequence (raise e) = raise e
make_snapshot sequence (ok books) =
    ok (record { version = snapshot_version; sequence = sequence; books = books })

-- `save`: what is written for the state at this number of the event log.
unfoldable pub save : Heap → MatchingEngine → (sequence : ℕ) → Result Snapshot
unfolding save_books
save h e sequence =
    make_snapshot sequence (save_books h e.manager (get_supported_tickers e.manager))

-- `load`: no file, or a file of another version, gives no snapshot.
unfoldable pub load : Option Snapshot → Option Snapshot
load none = none
load (some s) = if s.version == snapshot_version then some s else none

-- One ticker in the course of `restore`. `next` is the reference for the next new object.
pub record Restoring : Type 0 where
  pub heap : Heap
  pub next : ℕ
  pub book : OrderBook
  pub registry : Dict (String × ℕ)

abbrev pub after_adding : String → Order → Restoring → Result OrderBook → Result Restoring
after_adding t x s (raise e) = raise e
after_adding t x s (ok b) = ok (record {
  heap = write s.heap s.next x;
  next = suc s.next;
  book = b;
  registry = insert x.order_id (t, s.next) s.registry;
})

-- A new object for the saved order enters the book and the registry.
abbrev pub restore_order : String → Order → Restoring → Result Restoring
restore_order t x s = after_adding t x s (add_to_book (write s.heap s.next x) s.book s.next)

unfoldable pub restore_orders : String → List Order → Result Restoring → Result Restoring
restore_orders t xs (raise e) = raise e
restore_orders t [] (ok s) = ok s
restore_orders t (x ∷ xs) (ok s) = restore_orders t xs (restore_order t x s)

pub record Restored : Type 0 where
  pub heap : Heap
  pub next : ℕ
  pub engine : MatchingEngine

abbrev pub keep_book : String → MatchingEngine → Result Restoring → Result Restored
keep_book t e (raise x) = raise x
keep_book t e (ok s) = ok (record {
  heap = s.heap;
  next = s.next;
  engine = record e { manager = put_book e.manager t s.book; order_registry = s.registry };
})

abbrev pub restore_book : String → SavedBook → Restored → Result OrderBook → Result Restored
restore_book t saved r (raise x) = raise x
restore_book t saved r (ok b) = keep_book t r.engine (
    restore_orders t (saved.bids ++ saved.asks)
      (ok (record { heap = r.heap; next = r.next; book = b; registry = r.engine.order_registry })))

unfoldable pub restore_books : List (String × SavedBook) → Result Restored → Result Restored
restore_books books (raise e) = raise e
restore_books [] (ok r) = ok r
restore_books ((t, saved) ∷ books) (ok r) =
    restore_books books (restore_book t saved r (get_order_book r.engine.manager t))

-- `restore`
unfoldable pub restore : Snapshot → Restored → Result Restored
unfolding restore_books
restore s r = restore_books s.books (ok r)
