-- ===== src/OrderBook/Levels.antt =====
-- One side of an order book: a dict from prices to queues of orders, in insertion order of the
-- prices. A queue holds references, the oldest first.
use stock_trading_platform.Prelude.{
  ℕ, Option, none, some, List, [], ◌∷◌, ◌++◌, ltb, ◌==◌, if◌then◌else◌,
}
use stock_trading_platform.Events.{OrderSide, buy, sell}

abbrev pub Levels : Type 0
Levels = List (ℕ × List ℕ)

-- `levels[price]`
unfoldable pub get_queue : ℕ → Levels → List ℕ
get_queue price [] = []
get_queue price ((p, q) ∷ ls) = if p == price then q else get_queue price ls

-- `levels[price].append(order)`, where a missing price gets an empty queue first.
unfoldable pub append_order : ℕ → ℕ → Levels → Levels
append_order price r [] = (price, r ∷ []) ∷ []
append_order price r ((p, q) ∷ ls) =
    if p == price then (p, q ++ r ∷ []) ∷ ls else (p, q) ∷ append_order price r ls

-- `del levels[price]`
unfoldable pub del_level : ℕ → Levels → Levels
del_level price [] = []
del_level price ((p, q) ∷ ls) = if p == price then ls else (p, q) ∷ del_level price ls

-- The queue at a price after changes in place.
unfoldable pub set_queue : ℕ → List ℕ → Levels → Levels
set_queue price q' [] = []
set_queue price q' ((p, q) ∷ ls) =
    if p == price then (p, q') ∷ ls else (p, q) ∷ set_queue price q' ls

-- A queue changed in place, and its level deleted if it is empty now.
unfoldable pub put_back : ℕ → List ℕ → Levels → Levels
put_back price [] ls = del_level price ls
put_back price (r ∷ rs) ls = set_queue price (r ∷ rs) ls

-- `min(levels.keys())` and `max(levels.keys())`
unfoldable pub min_key : Levels → Option ℕ
min_key [] = none
min_key ((p, q) ∷ ls) = some (elim (min_key ls) [ none ↦ p | some b ↦ if ltb b p then b else p ])

unfoldable pub max_key : Levels → Option ℕ
max_key [] = none
max_key ((p, q) ∷ ls) = some (elim (max_key ls) [ none ↦ p | some b ↦ if ltb p b then b else p ])

-- The best price that an incoming order of this side meets on the other side.
unfoldable pub best_price : OrderSide → Levels → Option ℕ
best_price buy = min_key
best_price sell = max_key
