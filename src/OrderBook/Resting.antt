-- ===== src/OrderBook/Resting.antt =====
-- What holds of the orders in a book, of the order being matched, and of a list of trades.
use stock_trading_platform.Prelude.{
  String, ℕ, suc, ◌+◌, ◌≤◌, ◌<◌, ◌≡◌, false, some, List, [], ◌∷◌, ◌++◌, All, arith, refl,
}
use stock_trading_platform.Events.{
  OrderSide, buy, sell, limit, new, filled, Order, remaining_quantity, is_complete, Heap,
}

abbrev pub opposite : OrderSide → OrderSide
opposite buy = sell
opposite sell = buy

-- A side of the book of a ticker.
pub record Place : Type 0 where
  pub ticker : String
  pub side : OrderSide

-- Where the orders rest that an incoming order meets.
abbrev pub across : String → OrderSide → Place
across ticker side = record { ticker = ticker; side = opposite side }

-- An order that rests on a side at a price: an open limit order with something left to fill.
pub record Rests (h : Heap) (place : Place) (price r : ℕ) : Type 0 where
  pub on_side : (h r).side ≡ place.side
  pub in_book : (h r).ticker ≡ place.ticker
  pub at_price : (h r).price ≡ some price
  pub is_limit : (h r).order_type ≡ limit
  pub unfilled : (h r).filled_quantity < (h r).quantity
  pub is_open : is_complete (h r) ≡ false

-- The terms of an order that name its level.
abbrev pub Stands : Place → ℕ → Order → Type 0
Stands place price x = (x.side ≡ place.side) × (x.ticker ≡ place.ticker) × (x.price ≡ some price)

-- An order in the course of matching: never overfilled, and FILLED exactly when nothing is left.
pub record IsTracked (x : Order) : Type 0 where
  pub bounded : x.filled_quantity ≤ x.quantity
  pub status_open : x.filled_quantity < x.quantity → is_complete x ≡ false
  pub status_filled : x.filled_quantity ≡ x.quantity → x.status ≡ filled

-- An order without the two fields that matching changes.
abbrev pub terms : Order → Order
terms x = record x { status = new; filled_quantity = 0 }

-- References that grow along the queue, from `lo` on and below `hi`: older orders stand first.
abbrev pub Ascending : ℕ → ℕ → List ℕ → Type 0
Ascending lo hi [] = Unit
Ascending lo hi (r ∷ rs) = (lo ≤ r) × (r < hi) × Ascending (suc r) hi rs

pub Ascending-weaken :
    (lo lo' hi hi' : ℕ) (rs : List ℕ)
    → lo' ≤ lo
    → hi ≤ hi'
    → Ascending lo hi rs
    → Ascending lo' hi' rs
Ascending-weaken lo lo' hi hi' [] p q a = tt
Ascending-weaken lo lo' hi hi' (r ∷ rs) p q (l, m, a) =
    (omega arith, omega arith, Ascending-weaken (suc r) (suc r) hi hi' rs (omega arith) q a)

-- An older queue with a newer order behind it.
pub Ascending-append :
    (lo hi r : ℕ) (rs : List ℕ)
    → Ascending lo hi rs
    → lo ≤ hi
    → hi ≤ r
    → Ascending lo (suc r) (rs ++ r ∷ [])
Ascending-append lo hi r [] a p q = (omega arith, omega arith, tt)
Ascending-append lo hi r (x ∷ rs) (l, m, a) p q =
    (l, omega arith, Ascending-append (suc x) hi r rs a m q)

-- Orders that stay the same above `lo` keep their places.
pub All-Rests-frame :
    (h h' : Heap) (place : Place) (price lo hi : ℕ) (rs : List ℕ)
    → ((x : ℕ) → lo ≤ x → x < hi → Rests h place price x → Rests h' place price x)
    → Ascending lo hi rs
    → All (Rests h place price) rs
    → All (Rests h' place price) rs
All-Rests-frame h h' place price lo hi [] f a rest = tt
All-Rests-frame h h' place price lo hi (r ∷ rs) f (l, m, a) (first, rest) = (
  f r l m first,
  All-Rests-frame h h' place price (suc r) hi rs (λ x p q. f x (omega arith) q) a rest,
)

-- The quantity left in a queue.
abbrev pub open_quantity : Heap → List ℕ → ℕ
open_quantity h [] = 0
open_quantity h (r ∷ rs) = remaining_quantity (h r) + open_quantity h rs

pub open_quantity-frame :
    (h h' : Heap) (lo hi : ℕ) (rs : List ℕ)
    → ((x : ℕ) → lo ≤ x → x < hi → h' x ≡ h x)
    → Ascending lo hi rs
    → open_quantity h' rs ≡ open_quantity h rs
open_quantity-frame h h' lo hi [] f a = refl
open_quantity-frame h h' lo hi (r ∷ rs) f (l, m, a) =
    let rest = open_quantity-frame h h' (suc r) hi rs (λ x p q. f x (omega arith) q) a in
    cc (f r l m, rest)

pub open_quantity-frame-Rests :
    (h h' : Heap) (place : Place) (price lo hi : ℕ) (rs : List ℕ)
    → ((x : ℕ) → x < hi → Rests h place price x → h' x ≡ h x)
    → Ascending lo hi rs
    → All (Rests h place price) rs
    → open_quantity h' rs ≡ open_quantity h rs
open_quantity-frame-Rests h h' place price lo hi [] f a t = refl
open_quantity-frame-Rests h h' place price lo hi (r ∷ rs) f a t =
    cc (f r a.1 t.0, open_quantity-frame-Rests h h' place price (suc r) hi rs f a.2 t.1)
