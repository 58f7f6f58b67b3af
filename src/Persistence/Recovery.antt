-- ===== src/Persistence/Recovery.antt =====
-- A book restored from its snapshot.
use stock_trading_platform.Prelude.{
  ℕ, suc, ◌≡◌, refl, ap, ◌∙◌, String, some, List, [], ◌∷◌, ◌++◌, map, All, All-append, All-append,
  arith,
}
use stock_trading_platform.Prelude.Dict.{Dict, insert}
use stock_trading_platform.Events.{OrderSide, buy, sell, Order, Heap, write}
use stock_trading_platform.OrderBook.Levels.{Levels, append_order}
use stock_trading_platform.OrderBook.Resting.{Place, Rests, opposite}
use stock_trading_platform.OrderBook.Side.{IsSide}
use stock_trading_platform.OrderBook.Book.{
  OrderBook, empty_book, Result, ok, raise, rest_order, add_to_book,
}
use stock_trading_platform.OrderBook.Validity.{IsBook, own, place}
use stock_trading_platform.Persistence.Snapshot.{
  saved_orders, save_book, Restoring, restore_order, restore_orders,
}
use stock_trading_platform.Persistence.Values.{
  Values, values, append_value, values-append_order, Below, Below-append_order, Below-suc,
  values-write,
}
use stock_trading_platform.Persistence.Filling.{price_of, fill_values, fill_values-saved_orders}

-- A saved order of a side.
abbrev IsSaved : OrderSide → Order → Type 0
IsSaved side x = (x.side ≡ side) × (p : ℕ) × (x.price ≡ some p)

-- No reference of the book is used again.
abbrev IsReady : Restoring → Type 0
IsReady s = Below s.next s.book.bids × Below s.next s.book.asks

abbrev seen : OrderSide → Restoring → Values
seen side s = values s.heap (own side s.book)

abbrev restored : String → OrderSide → Order → ℕ → Restoring → Restoring
restored t side x p s = record {
  heap = write s.heap s.next x;
  next = suc s.next;
  book = rest_order side p s.next s.book;
  registry = insert x.order_id (t, s.next) s.registry;
}

restore_order_lem :
    (side : OrderSide) (t : String) (x : Order) (p : ℕ) (s : Restoring)
    → x.side ≡ side
    → x.price ≡ some p
    → restore_order t x s ≡ ok (restored t side x p s)
unfolding add_to_book
restore_order_lem buy t x p s a e = ground arith
restore_order_lem sell t x p s a e = ground arith

write_same : (h : Heap) (n : ℕ) (x : Order) → write h n x n ≡ x
write_same h n x = ground arith

appended :
    (h : Heap) (n p : ℕ) (x : Order) (ls : Levels)
    → Below n ls
    → x.price ≡ some p
    → values (write h n x) (append_order p n ls) ≡ append_value (price_of x) x (values h ls)
appended h n p x ls b e =
    ground
      (arith, values-append_order (write h n x) p n ls, write_same h n x, values-write h n x ls b)

-- One order of a side: its own side gets it, the other keeps what it has.
restored_values :
    (side : OrderSide) (t : String) (x : Order) (p : ℕ) (s : Restoring)
    → x.price ≡ some p
    → IsReady s
    → IsReady (restored t side x p s)
      × (seen side (restored t side x p s) ≡ append_value (price_of x) x (seen side s))
      × (seen (opposite side) (restored t side x p s) ≡ seen (opposite side) s)
restored_values buy t x p s e r = (
  (Below-append_order s.next p s.book.bids r.0, Below-suc s.next s.book.asks r.1),
  appended s.heap s.next p x s.book.bids r.0 e,
  values-write s.heap s.next x s.book.asks r.1,
)
restored_values sell t x p s e r = (
  (Below-suc s.next s.book.bids r.0, Below-append_order s.next p s.book.asks r.1),
  appended s.heap s.next p x s.book.asks r.1 e,
  values-write s.heap s.next x s.book.bids r.0,
)

-- What restoring these orders of a side leaves.
record Restores (side : OrderSide) (t : String) (xs : List Order) (s : Restoring) : Type 0 where
  after : Restoring
  succeeds : restore_orders t xs (ok s) ≡ ok after
  ready : IsReady after
  filled : seen side after ≡ fill_values xs (seen side s)
  other : seen (opposite side) after ≡ seen (opposite side) s

restore_orders-Restores :
    (side : OrderSide) (t : String) (xs : List Order) (s : Restoring)
    → All (IsSaved side) xs
    → IsReady s
    → Restores side t xs s
unfolding restore_orders
restore_orders-Restores side t [] s a r = record {
  after = s;
  succeeds = refl;
  ready = r;
  filled = refl;
  other = refl;
}
restore_orders-Restores side t (x ∷ xs) s (a, rest) r =
    let one = restored_values side t x a.1 s a.2 r in
    let more = restore_orders-Restores side t xs (restored t side x a.1 s) rest one.0 in
    record {
      after = more.after;
      succeeds =
          ap (restore_orders t xs) (restore_order_lem side t x a.1 s a.0 a.2) ∙ more.succeeds;
      ready = more.ready;
      filled = more.filled ∙ ap (fill_values xs) one.1;
      other = more.other ∙ one.2;
    }

restore_orders-append :
    (t : String) (xs ys : List Order) (s : Result Restoring)
    → restore_orders t (xs ++ ys) s ≡ restore_orders t ys (restore_orders t xs s)
unfolding restore_orders
restore_orders-append t [] ys (raise e) = refl
restore_orders-append t (x ∷ xs) ys (raise e) = refl
restore_orders-append t [] ys (ok s) = refl
restore_orders-append t (x ∷ xs) ys (ok s) = restore_orders-append t xs ys (restore_order t x s)

queue-IsSaved :
    (h : Heap) (rests : Place) (p : ℕ) (q : List ℕ)
    → All (Rests h rests p) q
    → All (IsSaved rests.side) (map h q)
queue-IsSaved h rests p [] a = tt
queue-IsSaved h rests p (r ∷ q) a = ((a.0.on_side, p, a.0.at_price), queue-IsSaved h rests p q a.1)

All-IsSaved :
    (h : Heap) (rests : Place) (n : ℕ) (ls : Levels)
    → IsSide h rests n ls
    → All (IsSaved rests.side) (saved_orders h ls)
unfolding saved_orders
All-IsSaved h rests n [] s = tt
All-IsSaved h rests n ((p, q) ∷ ls) s =
    All-append (IsSaved rests.side) (map h q) (saved_orders h ls)
      (queue-IsSaved h rests p q s.0.resting) (All-IsSaved h rests n ls s.2)

-- A well-formed book is saved, and its ticker's empty book restored from what was saved, with new
-- objects and at the side of any registry. This succeeds, and on both sides the restored book has
-- the same prices in the same order, each with a queue of the same orders, the oldest first.
pub restore_orders-save_book :
    (h : Heap) (n : ℕ) (b : OrderBook) (h' : Heap) (next : ℕ) (registry : Dict (String × ℕ))
    → IsBook h n b
    → (s : Restoring) × (restore_orders b.ticker
          ((save_book h b).bids ++ (save_book h b).asks)
          (ok (record { heap = h'; next = next; book = empty_book b.ticker; registry = registry }))
        ≡ ok s)
      × (values s.heap s.book.bids ≡ values h b.bids)
      × (values s.heap s.book.asks ≡ values h b.asks)
unfolding values
restore_orders-save_book h n b h' next registry v =
    let start : Restoring = record {
      heap = h';
      next = next;
      book = empty_book b.ticker;
      registry = registry;
    } in
    let bids = saved_orders h b.bids in
    let asks = saved_orders h b.asks in
    let one =
      restore_orders-Restores buy b.ticker bids start
        (All-IsSaved h (place b buy) n b.bids v.bids_kept) (tt, tt) in
    let two =
      restore_orders-Restores sell b.ticker asks one.after
        (All-IsSaved h (place b sell) n b.asks v.asks_kept) one.ready in
    (
      two.after,
      restore_orders-append b.ticker bids asks (ok start)
          ∙ ap (restore_orders b.ticker asks) one.succeeds
          ∙ two.succeeds,
      two.other ∙ one.filled ∙ fill_values-saved_orders h (place b buy) n b.bids v.bids_kept,
      two.filled
          ∙ ap (fill_values asks) one.other
          ∙ fill_values-saved_orders h (place b sell) n b.asks v.asks_kept,
    )
