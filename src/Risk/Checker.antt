-- ===== src/Risk/Checker.antt =====
-- `class RiskChecker`. Money is whole cents; quantities are shares. The Decimal amounts are exact
-- here: Python rounds them to 28 digits, far beyond the limits that they are compared with. An
-- amount out of their range ends a check with `decimal.Overflow`.
use stock_trading_platform.Prelude.{
  ℕ, zero, suc, ◌+◌, ◌-◌, ◌*◌, String, Bool, true, false, leb, ◌&&◌, Option, none, some, List, [],
  ◌∷◌, str_eq, ltb, ◌==◌, if◌then◌else◌,
}
use Prim.Native.Nat.{◌/◌}
use stock_trading_platform.Prelude.Int.{ℤ, pos, ◌+ℤ◌, ◌-ℤ◌, ltb_ℤ}
use stock_trading_platform.Prelude.Dict.{Dict, lookup, insert}
use stock_trading_platform.Events.{limit, market, Order, Trade, remaining_quantity}

-- An entry of `_open_orders`: a tuple (order_id, quantity, price).
pub record OpenOrder : Type 0 where
  pub order_id : String
  pub quantity : ℕ
  pub price : ℕ

pub record RiskChecker : Type 0 where
  pub max_position : ℕ
  pub max_notional : ℕ
  pub max_notional_per_ticker : ℕ
  pub max_spread : ℕ
  pub positions : Dict (Dict ℤ)
  pub open_orders : Dict (List OpenOrder)
  pub ticker_notional : Dict (Dict ℕ)

-- `RiskChecker(...)` before any order.
unfoldable pub init_checker :
    (max_position max_notional max_notional_per_ticker max_spread : ℕ) → RiskChecker
init_checker p n t s = record {
  max_position = p;
  max_notional = n;
  max_notional_per_ticker = t;
  max_spread = s;
  positions = [];
  open_orders = [];
  ticker_notional = [];
}

abbrev pub max_position_quantity : ℕ
max_position_quantity = 10_000

abbrev pub max_notional_exposure : ℕ
max_notional_exposure = 100_000_000

abbrev pub max_notional_per_ticker_default : ℕ
max_notional_per_ticker_default = 50_000_000

abbrev pub max_spread_default : ℕ
max_spread_default = 5_000

-- `RiskViolation`, by the limit that is violated.
pub data RiskViolation : Type 0 where
  position_limit notional_limit ticker_notional_limit empty_book wide_spread : RiskViolation

-- A check returns nothing, or raises a violation or `decimal.Overflow`.
pub data Check : Type 0 where
  passed overflowed : Check
  violated : RiskViolation → Check

-- The number is at least 10 ^ 29 - 5, when its last `places` digits are dropped.
unfoldable pub reaches : (places : ℕ) → ℕ → Bool
reaches zero v = leb 99_999_999_999_999_999_999_999_999_995 v
reaches (suc places) v = elim (v == 0) [ true ↦ false | false ↦ reaches places (v / 10) ]

-- An amount in cents that, rounded to the 28 digits of the default context, is 10 ^ 1_000_000 or
-- more, above its greatest exponent 999_999: from (10 ^ 29 - 5) * 10 ^ 999_973 cents on.
abbrev pub overflows : ℕ → Bool
overflows v = reaches 999_973 v

-- `d.get(k, {})` and a lookup with a default below it.
abbrev pub or_default {ℓ} : {V : Type ℓ} → V → Option V → V
or_default d none = d
or_default d (some v) = v

abbrev pub at_two {ℓ} : {V : Type ℓ} → V → String → String → Dict (Dict V) → V
at_two d k j m = or_default d (lookup j (or_default [] (lookup k m)))

-- `m[k][j] = v`, where a missing inner dict is made first.
abbrev pub put_two {ℓ} : {V : Type ℓ} → String → String → V → Dict (Dict V) → Dict (Dict V)
put_two k j v m = insert k (insert j v (or_default [] (lookup k m))) m

unfoldable pub get_position : RiskChecker → String → String → ℤ
get_position c account ticker = at_two (pos 0) account ticker c.positions

abbrev pub open_of : RiskChecker → String → List OpenOrder
open_of c account = or_default [] (lookup account c.open_orders)

unfoldable pub sum_notional : List OpenOrder → ℕ
sum_notional [] = 0
sum_notional (x ∷ xs) = x.quantity * x.price + sum_notional xs

unfoldable pub get_notional_exposure : RiskChecker → String → ℕ
get_notional_exposure c account = sum_notional (open_of c account)

unfoldable pub get_ticker_notional : RiskChecker → String → String → ℕ
get_ticker_notional c account ticker = at_two 0 account ticker c.ticker_notional

-- `order.price if order.price is not None else Decimal("0")`
abbrev pub price_or_zero : Order → ℕ
price_or_zero o = or_default 0 o.price

abbrev pub check_position_limit : RiskChecker → Order → Check
check_position_limit c o =
    if ltb_ℤ (pos c.max_position) (get_position c o.account_id o.ticker +ℤ pos o.quantity)
    then violated position_limit
    else passed

-- The amount that an order would lead to, against its limit. If `quantity * price` alone is out of
-- range then so is `projected`.
abbrev pub check_projected : ℕ → ℕ → RiskViolation → Check
check_projected most projected x =
    if overflows projected then overflowed else if ltb most projected then violated x else passed

abbrev pub projected_exposure : RiskChecker → Order → ℕ
projected_exposure c o = get_notional_exposure c o.account_id + o.quantity * price_or_zero o

abbrev pub check_notional_exposure : RiskChecker → Order → Check
check_notional_exposure c o = check_projected c.max_notional (projected_exposure c o) notional_limit

abbrev pub check_ticker_price : RiskChecker → Order → Option ℕ → Check
check_ticker_price c o none = passed
check_ticker_price c o (some price) =
    check_projected c.max_notional_per_ticker
      (get_ticker_notional c o.account_id o.ticker + o.quantity * price) ticker_notional_limit

abbrev pub check_ticker_notional_exposure : RiskChecker → Order → Check
check_ticker_notional_exposure c o = check_ticker_price c o o.price

-- An exception ends the checks.
infixl 5 ◌>>◌
abbrev pub ◌>>◌ : Check → Check → Check
passed >> k = k
overflowed >> k = overflowed
violated x >> k = violated x

-- `check`
unfoldable pub check : RiskChecker → Order → Check
check c o = do
  check_position_limit c o
  elim o.order_type [
    | limit ↦ check_notional_exposure c o >> check_ticker_notional_exposure c o
    | market ↦ passed
  ]

-- `check_market_spread`
unfoldable pub check_market_spread : RiskChecker → Option ℕ → Option ℕ → Check
check_market_spread c none none = violated empty_book
check_market_spread c none (some ask) = passed
check_market_spread c (some bid) none = passed
check_market_spread c (some bid) (some ask) =
    if ltb_ℤ (pos c.max_spread) (pos ask -ℤ pos bid) then violated wide_spread else passed

abbrev pub same_entry : OpenOrder → OpenOrder → Bool
same_entry x y = str_eq x.order_id y.order_id && x.quantity == y.quantity && x.price == y.price

-- `set.add` and `set.discard`
unfoldable pub add_entry : OpenOrder → List OpenOrder → List OpenOrder
add_entry x [] = x ∷ []
add_entry x (y ∷ ys) = if same_entry y x then y ∷ ys else y ∷ add_entry x ys

unfoldable pub discard_entry : OpenOrder → List OpenOrder → List OpenOrder
discard_entry x [] = []
discard_entry x (y ∷ ys) = if same_entry y x then ys else y ∷ discard_entry x ys

abbrev pub entry_of : Order → OpenOrder
entry_of o = record { order_id = o.order_id; quantity = o.quantity; price = price_or_zero o }

abbrev pub set_ticker_notional : RiskChecker → String → String → ℕ → RiskChecker
set_ticker_notional c account ticker v = record c {
  ticker_notional = put_two account ticker v c.ticker_notional;
}

-- `record_open_order`
unfoldable pub record_open_order : RiskChecker → Order → RiskChecker
record_open_order c o = elim o.order_type [
  | market ↦ c
  | limit ↦
      set_ticker_notional
        (record c {
          open_orders =
              insert o.account_id (add_entry (entry_of o) (open_of c o.account_id)) c.open_orders;
        })
        o.account_id o.ticker
        (get_ticker_notional c o.account_id o.ticker + o.quantity * price_or_zero o)
]

unfoldable pub add_position : RiskChecker → String → String → ℤ → RiskChecker
add_position c account ticker delta = record c {
  positions = put_two account ticker (get_position c account ticker +ℤ delta) c.positions;
}

-- `max(0, notional - amount)` for one account and ticker; `-` on ℕ stops at 0.
unfoldable pub reduce_notional : RiskChecker → String → String → ℕ → RiskChecker
reduce_notional c account ticker amount =
    set_ticker_notional c account ticker (get_ticker_notional c account ticker - amount)

-- `record_fill`
unfoldable pub record_fill : RiskChecker → Trade → String → String → RiskChecker
record_fill c t buyer seller =
    let c₁ = add_position c buyer t.ticker (pos t.quantity) in
    let c₂ = add_position c₁ seller t.ticker (pos 0 -ℤ pos t.quantity) in
    let c₃ = reduce_notional c₂ buyer t.ticker (t.quantity * t.price) in
    reduce_notional c₃ seller t.ticker (t.quantity * t.price)

-- `_open_orders.get(account, set()).discard(entry)`: an unknown account gets no entry.
abbrev pub discard_open : RiskChecker → String → OpenOrder → RiskChecker
discard_open c account x = elim (lookup account c.open_orders) [
  | none ↦ c
  | some xs ↦ record c { open_orders = insert account (discard_entry x xs) c.open_orders }
]

-- `record_cancel`, which `record_order_complete` calls
unfoldable pub record_cancel : RiskChecker → Order → RiskChecker
record_cancel c o = elim o.order_type [
  | market ↦ c
  | limit ↦
      reduce_notional (discard_open c o.account_id (entry_of o)) o.account_id o.ticker
        (remaining_quantity o * price_or_zero o)
]

unfoldable pub record_order_complete : RiskChecker → Order → RiskChecker
unfolding record_cancel
record_order_complete c o = record_cancel c o
