-- ===== src/Api/BookView.antt =====
-- `_build_order_book_response` of trading/api/routes.py, which the handler `get_order_book` answers
-- with.
use stock_trading_platform.Prelude.{
  ℕ, ◌+◌, ◌≡◌, refl, String, Bool, Option, List, [], ◌∷◌, All, All-map, arith, leb, Bool-cases, inl,
  inr, if◌then◌else◌,
}
use stock_trading_platform.Prelude.Int.{ℤ}
use stock_trading_platform.Events.{OrderSide, buy, sell, Heap}
use stock_trading_platform.OrderBook.Levels.{Levels}
use stock_trading_platform.OrderBook.Matching.{is_nonempty}
use stock_trading_platform.OrderBook.Resting.{open_quantity}
use stock_trading_platform.OrderBook.Trades.{Precedes, Precedes-trans}
use stock_trading_platform.OrderBook.Side.{total_quantity}
use stock_trading_platform.OrderBook.Book.{
  OrderBook, Result, ok, raise, get_best_bid, get_best_ask, get_spread,
}
use stock_trading_platform.Engine.Manager.{OrderBookManager, get_order_book}

pub record OrderBookLevel : Type 0 where
  pub price : ℕ
  pub quantity : ℕ

pub record OrderBookResponse : Type 0 where
  pub ticker : String
  pub bids : List OrderBookLevel
  pub asks : List OrderBookLevel
  pub best_bid : Option ℕ
  pub best_ask : Option ℕ
  pub spread : Option ℤ

-- The price stands no later than the other, for an incoming order of this side: asks ascend for a
-- buy, bids descend for a sell.
abbrev pub stands_before : OrderSide → ℕ → ℕ → Bool
stands_before buy p q = leb p q
stands_before sell p q = leb q p

-- `sorted` by price.
unfoldable pub insert_level : OrderSide → OrderBookLevel → List OrderBookLevel → List OrderBookLevel
insert_level side x [] = x ∷ []
insert_level side x (y ∷ ys) =
    if stands_before side x.price y.price then x ∷ y ∷ ys else y ∷ insert_level side x ys

-- The levels that have somebody in their queue, with what is left in it, sorted.
unfoldable pub view_levels : OrderSide → Heap → Levels → List OrderBookLevel
unfolding insert_level
view_levels side h [] = []
view_levels side h ((p, q) ∷ ls) =
    let rest = view_levels side h ls in
    if is_nonempty q
    then insert_level side (record { price = p; quantity = open_quantity h q }) rest
    else rest

abbrev pub view_book : Heap → String → OrderBook → OrderBookResponse
view_book h t b = record {
  ticker = t;
  bids = view_levels sell h b.bids;
  asks = view_levels buy h b.asks;
  best_bid = get_best_bid b;
  best_ask = get_best_ask b;
  spread = get_spread b;
}

abbrev pub view_found : Heap → String → Result OrderBook → Result OrderBookResponse
view_found h t (raise e) = raise e
view_found h t (ok b) = ok (view_book h t b)

-- `_build_order_book_response`
unfoldable pub build_order_book_response :
    Heap → OrderBookManager → String → Result OrderBookResponse
unfolding view_levels
build_order_book_response h m t = view_found h t (get_order_book m t)

-- No level has a better price than one before it.
abbrev pub IsSorted : OrderSide → List OrderBookLevel → Type 0
IsSorted side [] = Unit
IsSorted side (x ∷ xs) = All (λ y. Precedes side x.price y.price) xs × IsSorted side xs

abbrev pub level_total : List OrderBookLevel → ℕ
level_total [] = 0
level_total (x ∷ xs) = x.quantity + level_total xs

stands_before-Precedes :
    (side : OrderSide) (p q : ℕ)
    → (if stands_before side p q then Precedes side p q else Precedes side q p)
stands_before-Precedes buy p q = ground arith
stands_before-Precedes sell p q = ground arith

All-insert_level :
    (P : OrderBookLevel → Type 0) (side : OrderSide) (x : OrderBookLevel) (xs : List OrderBookLevel)
    → P x
    → All P xs
    → All P (insert_level side x xs)
unfolding insert_level
All-insert_level P side x [] a b = (a, tt)
All-insert_level P side x (y ∷ ys) a b = elim (Bool-cases (stands_before side x.price y.price)) [
  | inl e ↦ rw e (a, b)
  | inr e ↦ rw e (b.0, All-insert_level P side x ys a b.1)
]

insert_level-IsSorted :
    (side : OrderSide) (x : OrderBookLevel) (xs : List OrderBookLevel)
    → IsSorted side xs
    → IsSorted side (insert_level side x xs)
unfolding insert_level
insert_level-IsSorted side x [] s = (tt, tt)
insert_level-IsSorted side x (y ∷ ys) s = elim (Bool-cases (stands_before side x.price y.price)) [
  | inl e ↦
      let first : Precedes side x.price y.price =
        ground (arith, e, stands_before-Precedes side x.price y.price) in
      rw e ((first, All-map (λ z p. Precedes-trans side x.price y.price z.price first p) ys s.0), s)
  | inr e ↦
      let later : Precedes side y.price x.price =
        ground (arith, e, stands_before-Precedes side x.price y.price) in
      rw e (
        All-insert_level (λ z. Precedes side y.price z.price) side x ys later s.0,
        insert_level-IsSorted side x ys s.1,
      )
]

level_total-insert_level :
    (side : OrderSide) (x : OrderBookLevel) (xs : List OrderBookLevel)
    → level_total (insert_level side x xs) ≡ x.quantity + level_total xs
unfolding insert_level
level_total-insert_level side x [] = refl
level_total-insert_level side x (y ∷ ys) = ground (arith, level_total-insert_level side x ys)

-- The levels that are shown of a side stand with the best price first, and their quantities add up
-- to all that is open on the side.
pub view_levels-IsSorted :
    (side : OrderSide) (h : Heap) (ls : Levels)
    → IsSorted side (view_levels side h ls)
      × (level_total (view_levels side h ls) ≡ total_quantity h ls)
unfolding view_levels total_quantity
view_levels-IsSorted side h [] = (tt, refl)
view_levels-IsSorted side h ((p, []) ∷ ls) =
    let rest = view_levels-IsSorted side h ls in (rest.0, omega (arith, rest.1))
view_levels-IsSorted side h ((p, r ∷ q) ∷ ls) =
    let rest = view_levels-IsSorted side h ls in
    let x : OrderBookLevel = record { price = p; quantity = open_quantity h (r ∷ q) } in
    (
      insert_level-IsSorted side x (view_levels side h ls) rest.0,
      omega (arith, level_total-insert_level side x (view_levels side h ls), rest.1),
    )
