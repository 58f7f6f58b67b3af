-- ===== src/OrderBook/Trades.antt =====
-- What is said of trades: their quantity, numbers, prices and parties.
use stock_trading_platform.Prelude.{
  ℕ, suc, ◌+◌, ◌≤◌, ◌<◌, ◌≡◌, refl, ap, ◌∙◌, subst, String, true, some, List, [], ◌∷◌, ◌++◌, All,
  All-append, arith, length,
}
use stock_trading_platform.Events.{OrderSide, buy, sell, limit, Order, Trade}
use stock_trading_platform.OrderBook.Matching.{make_trade, accepts}
use stock_trading_platform.OrderBook.Resting.{terms}

-- The quantity of a list of trades.
abbrev pub traded_quantity : List Trade → ℕ
traded_quantity [] = 0
traded_quantity (t ∷ ts) = t.quantity + traded_quantity ts

pub traded_quantity-append :
    (ts us : List Trade) → traded_quantity (ts ++ us) ≡ traded_quantity ts + traded_quantity us
traded_quantity-append [] us = omega arith
traded_quantity-append (t ∷ ts) us = omega (arith, traded_quantity-append ts us)

-- Trades numbered one by one, from `n` on.
abbrev pub IsNumbered : ℕ → List Trade → Type 0
IsNumbered n [] = Unit
IsNumbered n (t ∷ ts) = (t.trade_id ≡ n) × IsNumbered (suc n) ts

pub IsNumbered-append :
    (n : ℕ) (ts : List Trade) (t : Trade)
    → IsNumbered n ts
    → t.trade_id ≡ n + length ts
    → IsNumbered n (ts ++ t ∷ [])
IsNumbered-append n [] t a e = (omega arith, tt)
IsNumbered-append n (u ∷ ts) t (e', a) e = (e', IsNumbered-append (suc n) ts t a (omega arith))

-- The id that a trade gives for the incoming order, and the one for the resting order.
abbrev pub incoming_id : OrderSide → Trade → String
incoming_id buy t = t.buyer_order_id
incoming_id sell t = t.seller_order_id

-- For an incoming order of this side the price `p` is at least as good as `q`.
abbrev pub Precedes : OrderSide → ℕ → ℕ → Type 0
Precedes buy p q = p ≤ q
Precedes sell p q = q ≤ p

-- A limit order pays no more than its price as a buyer, and gets no less as a seller.
abbrev pub WithinLimit : OrderSide → Order → ℕ → Type 0
WithinLimit side x price =
    (own : ℕ) → x.order_type ≡ limit → x.price ≡ some own → Precedes side price own

-- The price check of the loop, `accepts`, lets through no other price.
accepts-WithinLimit :
    (side : OrderSide) (x : Order) (price : ℕ)
    → accepts side x.order_type x.price price ≡ true
    → WithinLimit side x price
accepts-WithinLimit buy x price a own l e = ground arith
accepts-WithinLimit sell x price a own l e = ground arith

-- A trade that the incoming order, with these terms, may make.
pub record IsFair (ticker : String) (side : OrderSide) (incoming : Order) (t : Trade) : Type 0 where
  pub some_quantity : 0 < t.quantity
  pub of_ticker : t.ticker ≡ ticker
  pub of_incoming : incoming_id side t ≡ incoming.order_id
  pub within_limit : WithinLimit side incoming t.price

-- Only the terms of the incoming order matter.
pub IsFair-terms :
    (ticker : String) (side : OrderSide) (x y : Order) (t : Trade)
    → terms x ≡ terms y
    → IsFair ticker side x t
    → IsFair ticker side y t
IsFair-terms ticker side x y t e f = record {
  some_quantity = f.some_quantity;
  of_ticker = f.of_ticker;
  of_incoming = f.of_incoming ∙ ap (λ (z : Order). z.order_id) e;
  within_limit = subst (λ (z : Order). WithinLimit side z t.price) e f.within_limit;
}

pub make_trade-IsFair :
    (ticker : String) (side : OrderSide) (price : ℕ) (x x' y : Order) (id qty time : ℕ)
    → 0 < qty
    → terms x ≡ terms x'
    → accepts side x'.order_type x'.price price ≡ true
    → IsFair ticker side x' (make_trade ticker side price x y id qty time)
make_trade-IsFair ticker buy price x x' y id qty time p e a = record {
  some_quantity = p;
  of_ticker = refl;
  of_incoming = ap (λ (z : Order). z.order_id) e;
  within_limit = accepts-WithinLimit buy x' price a;
}
make_trade-IsFair ticker sell price x x' y id qty time p e a = record {
  some_quantity = p;
  of_ticker = refl;
  of_incoming = ap (λ (z : Order). z.order_id) e;
  within_limit = accepts-WithinLimit sell x' price a;
}

pub make_trade_fields :
    (ticker : String) (side : OrderSide) (price : ℕ) (x y : Order) (id qty time : ℕ)
    → ((make_trade ticker side price x y id qty time).quantity ≡ qty)
      × ((make_trade ticker side price x y id qty time).trade_id ≡ id)
make_trade_fields ticker buy price x y id qty time = (refl, refl)
make_trade_fields ticker sell price x y id qty time = (refl, refl)

pub make_trade-price :
    (ticker : String) (side : OrderSide) (price : ℕ) (x y : Order) (id qty time : ℕ)
    → (make_trade ticker side price x y id qty time).price ≡ price
make_trade-price ticker buy price x y id qty time = refl
make_trade-price ticker sell price x y id qty time = refl

pub Precedes-refl : (side : OrderSide) (p : ℕ) → Precedes side p p
Precedes-refl buy p = omega arith
Precedes-refl sell p = omega arith

pub Precedes-trans :
    (side : OrderSide) (p q r : ℕ) → Precedes side p q → Precedes side q r → Precedes side p r
Precedes-trans buy p q r a b = omega arith
Precedes-trans sell p q r a b = omega arith

-- No trade has a better price than one before it.
abbrev pub ByPrice : OrderSide → List Trade → Type 0
ByPrice side [] = Unit
ByPrice side (t ∷ ts) = All (λ u. Precedes side t.price u.price) ts × ByPrice side ts

pub ByPrice-append :
    (side : OrderSide) (ts : List Trade) (u : Trade)
    → All (λ t. Precedes side t.price u.price) ts
    → ByPrice side ts
    → ByPrice side (ts ++ u ∷ [])
ByPrice-append side [] u a b = (tt, tt)
ByPrice-append side (t ∷ ts) u a b = (
  All-append (λ v. Precedes side t.price v.price) ts (u ∷ []) b.0 (a.0, tt),
  ByPrice-append side ts u a.1 b.1,
)
