-- ===== src/OrderBook/Matching.antt =====
-- `OrderBook._match_buy_order` and `_match_sell_order`. The two differ in which price is best, in
-- the price check and in who is the buyer: `side` is the side of the incoming order.
use stock_trading_platform.Prelude.{
  ℕ, ◌+◌, String, Bool, true, false, not, ◌&&◌, Option, none, some, List, [], ◌∷◌, ◌++◌, min, ltb,
  ◌==◌, if◌then◌else◌, length, while,
}
use stock_trading_platform.Events.{
  OrderSide, buy, sell, limit, market, partially_filled, filled, OrderType, Order, Trade,
  remaining_quantity, Heap, write,
}
use stock_trading_platform.OrderBook.Levels.{Levels, get_queue, put_back, best_price}

-- The status after a fill.
abbrev pub update_status : Order → Order
update_status x =
    if remaining_quantity x == 0
    then record x { status = filled }
    else if ltb 0 x.filled_quantity
    then record x { status = partially_filled }
    else x

unfoldable pub apply_fill : ℕ → Order → Order
apply_fill qty x = update_status (record x { filled_quantity = x.filled_quantity + qty })

-- Both orders of a trade: the incoming `o`, then the resting `r`.
unfoldable pub settle : Heap → (o r qty : ℕ) → Heap
settle h o r qty = let h' = write h o (apply_fill qty (h o)) in write h' r (apply_fill qty (h' r))

abbrev pub make_trade : String → OrderSide → ℕ → Order → Order → (id qty time : ℕ) → Trade
make_trade ticker buy price incoming resting id qty time = record {
  trade_id = id;
  ticker = ticker;
  buyer_order_id = incoming.order_id;
  seller_order_id = resting.order_id;
  price = price;
  quantity = qty;
  timestamp = time;
}
make_trade ticker sell price incoming resting id qty time = record {
  trade_id = id;
  ticker = ticker;
  buyer_order_id = resting.order_id;
  seller_order_id = incoming.order_id;
  price = price;
  quantity = qty;
  timestamp = time;
}

-- The state of the inner loop, over the queue at the best price.
pub record Fill : Type 0 where
  pub heap : Heap
  pub queue : List ℕ
  pub trade_counter : ℕ
  pub trades : List Trade

-- The state of the outer loop.
pub record Match : Type 0 where
  pub heap : Heap
  pub levels : Levels
  pub trade_counter : ℕ
  pub trades : List Trade

abbrev pub is_nonempty {ℓ} : {A : Type ℓ} → List A → Bool
is_nonempty [] = false
is_nonempty (x ∷ xs) = true

-- The price check: a limit order stops at a price that is worse than its own.
-- A limit order has a price: `add_limit_order` asserts it.
abbrev pub accepts : OrderSide → OrderType → Option ℕ → ℕ → Bool
accepts side market limit_price best = true
accepts side limit none best = false
accepts buy limit (some own) best = not (ltb own best)
accepts sell limit (some own) best = not (ltb best own)

abbrev pub accepts_best : OrderSide → Order → Option ℕ → Bool
accepts_best side x none = false
accepts_best side x (some best) = accepts side x.order_type x.price best

-- `clock n` is what the clock reads when trade n of this book is made.
module _ (clock : ℕ → ℕ) (ticker : String) (side : OrderSide) (o : ℕ) where
  module _ (price : ℕ) where
    -- One round of the inner loop.
    unfoldable pub fill_head : Fill → List ℕ → Fill
    fill_head s [] = s
    fill_head s (r ∷ rs) =
        let qty = min (remaining_quantity (s.heap o)) (remaining_quantity (s.heap r)) in
        let h = settle s.heap o r qty in
        let id = s.trade_counter in
        let t = make_trade ticker side price (s.heap o) (s.heap r) id qty (clock id) in
        record {
          heap = h;
          queue = if remaining_quantity (h r) == 0 then rs else r ∷ rs;
          trade_counter = id + 1;
          trades = s.trades ++ t ∷ [];
        }

    abbrev pub can_fill : Fill → Bool
    can_fill s = ltb 0 (remaining_quantity (s.heap o)) && is_nonempty s.queue

    -- A round empties the incoming order or takes one from the queue: the fuel is enough.
    unfoldable pub fill_queue : Fill → Fill
    unfolding fill_head
    fill_queue s = while (length s.queue + 2) can_fill (λ s. fill_head s s.queue) s

  abbrev pub can_match : Match → Bool
  can_match s =
      ltb 0 (remaining_quantity (s.heap o))
      && accepts_best side (s.heap o) (best_price side s.levels)

  -- One round of the outer loop: the whole queue at the best price.
  unfoldable pub match_level : Match → Option ℕ → Match
  match_level s none = s
  match_level s (some best) =
      let f = fill_queue best (record {
        heap = s.heap;
        queue = get_queue best s.levels;
        trade_counter = s.trade_counter;
        trades = s.trades;
      }) in
      record {
        heap = f.heap;
        levels = put_back best f.queue s.levels;
        trade_counter = f.trade_counter;
        trades = f.trades;
      }

  -- A round empties the incoming order or deletes a level: the fuel is enough.
  unfoldable pub match_order : Match → Match
  unfolding match_level fill_queue
  match_order s =
      while (length s.levels + 2) can_match (λ s. match_level s (best_price side s.levels)) s
