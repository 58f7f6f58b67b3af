-- ===== src/OrderBook/Book.antt =====
-- The methods of `class OrderBook`. Each takes the heap of orders and returns the new one.
use stock_trading_platform.Prelude.{
  ℕ, String, Bool, true, false, not, ◌&&◌, Option, none, some, List, [], ◌∷◌, str_eq, ltb, ◌==◌,
  if◌then◌else◌,
}
use stock_trading_platform.Prelude.Int.{ℤ, pos, ◌-ℤ◌}
use stock_trading_platform.Events.{
  OrderSide, buy, sell, limit, market, canceled, rejected, Trade, remaining_quantity, is_complete,
  Heap, write,
}
use stock_trading_platform.OrderBook.Levels.{Levels, append_order, min_key, max_key}
use stock_trading_platform.OrderBook.Matching.{match_order}

pub record OrderBook : Type 0 where
  pub ticker : String
  pub bids : Levels
  pub asks : Levels
  pub trade_counter : ℕ

-- `OrderBook(ticker)`
abbrev pub empty_book : String → OrderBook
empty_book ticker = record { ticker = ticker; bids = []; asks = []; trade_counter = 0 }

-- What a method that matches leaves: the heap, the book and the trades made.
pub record Outcome : Type 0 where
  pub heap : Heap
  pub book : OrderBook
  pub trades : List Trade

-- The exceptions: `AssertionError` of this class, `ValueError`, `KeyError` and `decimal.Overflow` of
-- its callers.
pub data Error : Type 0 where
  assertion_error unsupported_ticker key_error overflow : Error

pub data Result (A : Type 0) : Type 0 where
  ok : A → Result A
  raise : Error → Result A

-- The end of a queue at the order's own price.
abbrev pub rest_order : OrderSide → ℕ → ℕ → OrderBook → OrderBook
rest_order buy price o b = record b { bids = append_order price o b.bids }
rest_order sell price o b = record b { asks = append_order price o b.asks }

-- What a limit order has left rests, if it is still open.
abbrev pub rest_remainder : ℕ → ℕ → Outcome → Outcome
rest_remainder price o r =
    let x = r.heap o in
    if not (is_complete x) && ltb 0 (remaining_quantity x)
    then record r { book = rest_order x.side price o r.book }
    else r

-- A market order never rests: what is left of it is rejected.
abbrev pub reject_remainder : ℕ → Outcome → Outcome
reject_remainder o r =
    if ltb 0 (remaining_quantity (r.heap o))
    then record r { heap = write r.heap o (record (r.heap o) { status = rejected }) }
    else r

module _ (clock : ℕ → ℕ) where
  -- `_match_buy_order`: against the asks, from the lowest price on.
  unfoldable pub match_buy_order : Heap → OrderBook → ℕ → Outcome
  match_buy_order h b o =
      let m =
        match_order clock b.ticker buy o
          (record { heap = h; levels = b.asks; trade_counter = b.trade_counter; trades = [] }) in
      record {
        heap = m.heap;
        book = record b { asks = m.levels; trade_counter = m.trade_counter };
        trades = m.trades;
      }

  -- `_match_sell_order`: against the bids, from the highest price on.
  unfoldable pub match_sell_order : Heap → OrderBook → ℕ → Outcome
  match_sell_order h b o =
      let m =
        match_order clock b.ticker sell o
          (record { heap = h; levels = b.bids; trade_counter = b.trade_counter; trades = [] }) in
      record {
        heap = m.heap;
        book = record b { bids = m.levels; trade_counter = m.trade_counter };
        trades = m.trades;
      }

  abbrev pub match_side : OrderSide → Heap → OrderBook → ℕ → Outcome
  match_side buy = match_buy_order
  match_side sell = match_sell_order

  -- The limit price was asserted to be there.
  abbrev pub add_priced : Option ℕ → Heap → OrderBook → ℕ → Result Outcome
  add_priced none h b o = raise assertion_error
  add_priced (some price) h b o =
      if str_eq (h o).ticker b.ticker
      then ok (rest_remainder price o (match_side (h o).side h b o))
      else raise assertion_error

  -- `add_limit_order`, with its three assertions.
  unfoldable pub add_limit_order : Heap → OrderBook → ℕ → Result Outcome
  add_limit_order h b o = elim (h o).order_type [
    | limit ↦ add_priced (h o).price h b o
    | market ↦ raise assertion_error
  ]

  -- `execute_market_order`, with its two assertions.
  unfoldable pub execute_market_order : Heap → OrderBook → ℕ → Result Outcome
  execute_market_order h b o = elim (h o).order_type [
    | limit ↦ raise assertion_error
    | market ↦
        if str_eq (h o).ticker b.ticker
        then ok (reject_remainder o (match_side (h o).side h b o))
        else raise assertion_error
  ]

-- `_add_to_book`, which a snapshot's orders enter by.
unfoldable pub add_to_book : Heap → OrderBook → ℕ → Result OrderBook
add_to_book h b o = elim (h o).price [
  | none ↦ raise assertion_error
  | some price ↦ ok (rest_order (h o).side price o b)
]

-- The first order of a queue with this id, and the queue without it.
unfoldable pub remove_order : Heap → String → List ℕ → Option (ℕ × List ℕ)
remove_order h id [] = none
remove_order h id (r ∷ rs) =
    if str_eq (h r).order_id id
    then some (r, rs)
    else elim (remove_order h id rs) [ none ↦ none | some (x, qs) ↦ some (x, r ∷ qs) ]

abbrev pub keep_level : ℕ × List ℕ → Levels → Levels
keep_level (p, []) ls = ls
keep_level (p, r ∷ rs) ls = (p, r ∷ rs) ∷ ls

-- The same over the levels, in the order of the dict; a level left empty is deleted.
unfoldable pub remove_from_levels : Heap → String → Levels → Option (ℕ × Levels)
remove_from_levels h id [] = none
remove_from_levels h id ((p, q) ∷ ls) = elim (remove_order h id q) [
  | some (r, q') ↦ some (r, keep_level (p, q') ls)
  | none ↦ elim (remove_from_levels h id ls) [
    | none ↦ none
    | some (r, ls') ↦ some (r, (p, q) ∷ ls')
  ]
]

abbrev pub set_canceled : Heap → ℕ → Heap
set_canceled h r = write h r (record (h r) { status = canceled })

-- `cancel_order`: the bids first, then the asks.
unfoldable pub cancel_order : Heap → OrderBook → String → Heap × OrderBook × Bool
cancel_order h b id = elim (remove_from_levels h id b.bids) [
  | some (r, ls) ↦ (set_canceled h r, record b { bids = ls }, true)
  | none ↦ elim (remove_from_levels h id b.asks) [
    | some (r, ls) ↦ (set_canceled h r, record b { asks = ls }, true)
    | none ↦ (h, b, false)
  ]
]

unfoldable pub get_best_bid : OrderBook → Option ℕ
get_best_bid b = max_key b.bids

unfoldable pub get_best_ask : OrderBook → Option ℕ
get_best_ask b = min_key b.asks

-- A price of zero counts as missing here, as in Python's `if best_bid and best_ask`.
abbrev pub spread_of : Option ℕ → Option ℕ → Option ℤ
spread_of none ask = none
spread_of (some bid) none = none
spread_of (some bid) (some ask) =
    if bid == 0 then none else if ask == 0 then none else some (pos ask -ℤ pos bid)

unfoldable pub get_spread : OrderBook → Option ℤ
unfolding get_best_bid get_best_ask
get_spread b = spread_of (get_best_bid b) (get_best_ask b)
