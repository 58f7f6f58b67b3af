-- ===== src/Risk/Cancellation.antt =====
-- `record_cancel` against `record_open_order`.
use stock_trading_platform.Prelude.{
  ◌+◌, ◌-◌, ◌*◌, ◌≡◌, String, false, ◌&&◌, List, [], ◌∷◌, str_eq, eq_iff, arith, if◌then◌else◌, All,
  some,
}
use stock_trading_platform.Prelude.Dict.{lookup, lookup-insert}
use stock_trading_platform.Events.{Order, limit, remaining_quantity}
use stock_trading_platform.Risk.Checker.{
  OpenOrder, RiskChecker, record_open_order, record_cancel, reduce_notional, get_ticker_notional,
  get_notional_exposure, add_entry, discard_entry, open_of, entry_of, price_or_zero,
}
use stock_trading_platform.Risk.Exposure.{at_two-put_two}

-- No entry of the list is the order's.
abbrev pub Unregistered : String → List OpenOrder → Type 0
Unregistered id = All (λ y. str_eq y.order_id id ≡ false)

discard_entry-add_entry :
    (x : OpenOrder) (xs : List OpenOrder)
    → Unregistered x.order_id xs
    → discard_entry x (add_entry x xs) ≡ xs
unfolding discard_entry add_entry
discard_entry-add_entry x [] u = ground (arith, eq_iff x.order_id x.order_id)
discard_entry-add_entry x (y ∷ ys) u = ground (arith, u.0, discard_entry-add_entry x ys u.1)

-- Both operations, on a limit order, as they read afterwards.
open_of-record_open_order :
    (c : RiskChecker) (o : Order) (a : String)
    → o.order_type ≡ limit
    → lookup a (record_open_order c o).open_orders ≡ (
        if str_eq o.account_id a
        then some (add_entry (entry_of o) (open_of c o.account_id))
        else lookup a c.open_orders)
unfolding record_open_order
open_of-record_open_order c o a l = ground (
  arith,
  lookup-insert o.account_id a (add_entry (entry_of o) (open_of c o.account_id)) c.open_orders,
)

open_of-record_cancel :
    (c : RiskChecker) (o : Order) (a : String) (xs : List OpenOrder)
    → o.order_type ≡ limit
    → lookup o.account_id c.open_orders ≡ some xs
    → lookup a (record_cancel c o).open_orders ≡ (
        if str_eq o.account_id a
        then some (discard_entry (entry_of o) xs)
        else lookup a c.open_orders)
unfolding record_cancel reduce_notional
open_of-record_cancel c o a xs l e =
    ground (arith, lookup-insert o.account_id a (discard_entry (entry_of o) xs) c.open_orders)

get_ticker_notional-record_open_order :
    (c : RiskChecker) (o : Order) (a t : String)
    → o.order_type ≡ limit
    → get_ticker_notional (record_open_order c o) a t ≡ (
        if str_eq o.account_id a && str_eq o.ticker t
        then get_ticker_notional c o.account_id o.ticker + o.quantity * price_or_zero o
        else get_ticker_notional c a t)
unfolding record_open_order get_ticker_notional
get_ticker_notional-record_open_order c o a t l = ground (
  arith,
  at_two-put_two 0 o.account_id o.ticker a t
      (get_ticker_notional c o.account_id o.ticker + o.quantity * price_or_zero o)
      c.ticker_notional,
)

get_ticker_notional-record_cancel :
    (c : RiskChecker) (o : Order) (a t : String) (xs : List OpenOrder)
    → o.order_type ≡ limit
    → lookup o.account_id c.open_orders ≡ some xs
    → get_ticker_notional (record_cancel c o) a t ≡ (
        if str_eq o.account_id a && str_eq o.ticker t
        then get_ticker_notional c o.account_id o.ticker - remaining_quantity o * price_or_zero o
        else get_ticker_notional c a t)
unfolding record_cancel reduce_notional get_ticker_notional
get_ticker_notional-record_cancel c o a t xs l e = ground (
  arith,
  at_two-put_two 0 o.account_id o.ticker a t
      (get_ticker_notional c o.account_id o.ticker - remaining_quantity o * price_or_zero o)
      c.ticker_notional,
)

module _ (c : RiskChecker) (o : Order) (l : o.order_type ≡ limit) (unfilled : o.filled_quantity ≡ 0)
    (fresh : Unregistered o.order_id (open_of c o.account_id)) where
  abbrev entries : List OpenOrder
  entries = add_entry (entry_of o) (open_of c o.account_id)

  registered : lookup o.account_id (record_open_order c o).open_orders ≡ some entries
  registered =
      ground (arith, open_of-record_open_order c o o.account_id l, eq_iff o.account_id o.account_id)

  restored_exposure :
      (a : String)
      → get_notional_exposure (record_cancel (record_open_order c o) o) a
        ≡ get_notional_exposure c a
  unfolding get_notional_exposure
  restored_exposure a = ground (
    arith,
    open_of-record_open_order c o a l,
    open_of-record_cancel (record_open_order c o) o a entries l registered,
    discard_entry-add_entry (entry_of o) (open_of c o.account_id) fresh,
    eq_iff o.account_id a,
  )

  restored_ticker :
      (a t : String)
      → get_ticker_notional (record_cancel (record_open_order c o) o) a t
        ≡ get_ticker_notional c a t
  restored_ticker a t = ground (
    arith,
    get_ticker_notional-record_open_order c o a t l,
    get_ticker_notional-record_open_order c o o.account_id o.ticker l,
    get_ticker_notional-record_cancel (record_open_order c o) o a t entries l registered,
    eq_iff o.account_id a,
    eq_iff o.ticker t,
    eq_iff o.account_id o.account_id,
    eq_iff o.ticker o.ticker,
  )

  -- An unfilled limit order, whose id no open order of its account has, is registered and then
  -- canceled: the notional exposure of every account, and in every ticker, is as it was.
  pub open_then_cancel :
      ((a : String)
        → get_notional_exposure (record_cancel (record_open_order c o) o) a
          ≡ get_notional_exposure c a)
      × ((a t : String)
          → get_ticker_notional (record_cancel (record_open_order c o) o) a t
            ≡ get_ticker_notional c a t)
  open_then_cancel = (restored_exposure, restored_ticker)
