-- ===== src/Risk/Exposure.antt =====
-- The notional exposures over all that may happen to a risk checker.
use stock_trading_platform.Prelude.{
  ℕ, ◌+◌, ◌-◌, ◌*◌, ◌≤◌, ◌≡◌, refl, ◌∙◌, String, true, ◌&&◌, List, [], ◌∷◌, str_eq, eq_iff, arith,
  if◌then◌else◌, Bool-cases, Option-cases, inl, inr, ◌⊎◌,
}
use stock_trading_platform.Prelude.Int.{ℤ}
use stock_trading_platform.Prelude.Dict.{Dict, lookup, insert, lookup-insert}
use stock_trading_platform.Events.{OrderType, limit, market, Order, Trade}
use stock_trading_platform.Risk.Checker.{
  init_checker, OpenOrder, RiskChecker, passed, or_default, at_two, put_two, open_of, sum_notional,
  get_notional_exposure, get_ticker_notional, price_or_zero, check, add_entry, discard_entry,
  entry_of, set_ticker_notional, record_open_order, add_position, reduce_notional, record_fill,
  discard_open, record_cancel,
}

module _ {V : Type 0} (d : V) (k j k' j' : String) (v : V) (m : Dict (Dict V)) where
  inner_same :
      str_eq k k' ≡ true
      → or_default d (lookup j' (insert j v (or_default [] (lookup k m))))
        ≡ (if str_eq j j' then v else at_two d k' j' m)
  inner_same e = let same = (eq_iff k k').0 e in rw (lookup-insert, same) (ground arith)

  -- A nested dict after `m[k][j] = v`.
  pub at_two-put_two :
      at_two d k' j' (put_two k j v m)
      ≡ (if str_eq k k' && str_eq j j' then v else at_two d k' j' m)
  at_two-put_two =
      rw lookup-insert
        (elim (Bool-cases (str_eq k k')) [ inl e ↦ rw e (inner_same e) | inr e ↦ rw e ])

OrderType-cases : (t : OrderType) → (t ≡ limit) ⊎ (t ≡ market)
OrderType-cases limit = inl refl
OrderType-cases market = inr refl

sum_notional-add_entry :
    (x : OpenOrder) (xs : List OpenOrder)
    → sum_notional (add_entry x xs) ≤ sum_notional xs + x.quantity * x.price
unfolding sum_notional add_entry
sum_notional-add_entry x [] = omega arith
sum_notional-add_entry x (y ∷ ys) = ground (arith, sum_notional-add_entry x ys)

sum_notional-discard_entry :
    (x : OpenOrder) (xs : List OpenOrder) → sum_notional (discard_entry x xs) ≤ sum_notional xs
unfolding sum_notional discard_entry
sum_notional-discard_entry x [] = omega arith
sum_notional-discard_entry x (y ∷ ys) = ground (arith, sum_notional-discard_entry x ys)

-- Every tracked exposure is within its limit.
pub record IsWithin (c : RiskChecker) : Type 0 where
  pub by_account : (a : String) → get_notional_exposure c a ≤ c.max_notional
  pub by_ticker : (a t : String) → get_ticker_notional c a t ≤ c.max_notional_per_ticker

-- What a passed check has compared.
pub check-passed :
    (c : RiskChecker) (o : Order)
    → o.order_type ≡ limit
    → check c o ≡ passed
    → (get_notional_exposure c o.account_id + o.quantity * price_or_zero o ≤ c.max_notional)
      × ((get_ticker_notional c o.account_id o.ticker + o.quantity * price_or_zero o
            ≤ c.max_notional_per_ticker)
          ⊎ (price_or_zero o ≡ 0))
unfolding check
check-passed c o l e = ground arith

pub get_ticker_notional-set :
    (c : RiskChecker) (a t a' t' : String) (v : ℕ)
    → get_ticker_notional (set_ticker_notional c a t v) a' t'
      ≡ (if str_eq a a' && str_eq t t' then v else get_ticker_notional c a' t')
unfolding get_ticker_notional
get_ticker_notional-set c a t a' t' v = at_two-put_two 0 a t a' t' v c.ticker_notional

reduce_notional-IsWithin :
    (c : RiskChecker) (a t : String) (amount : ℕ)
    → IsWithin c
    → IsWithin (reduce_notional c a t amount)
unfolding reduce_notional get_notional_exposure
reduce_notional-IsWithin c a t amount w = record {
  by_account = λ a'. w.by_account a';
  by_ticker = λ a' t'. ground (
    arith,
    get_ticker_notional-set c a t a' t' (get_ticker_notional c a t - amount),
    w.by_ticker a' t',
    w.by_ticker a t,
  );
}

add_position-IsWithin :
    (c : RiskChecker) (a t : String) (delta : ℤ) → IsWithin c → IsWithin (add_position c a t delta)
unfolding add_position get_notional_exposure get_ticker_notional
add_position-IsWithin c a t delta w = record { by_account = w.by_account; by_ticker = w.by_ticker }

-- A fill raises no exposure.
pub record_fill-IsWithin :
    (c : RiskChecker) (t : Trade) (buyer seller : String)
    → IsWithin c
    → IsWithin (record_fill c t buyer seller)
unfolding record_fill
record_fill-IsWithin c t buyer seller w = reduce_notional-IsWithin _ seller t.ticker _ (
    reduce_notional-IsWithin _ buyer t.ticker _
      (add_position-IsWithin _ seller t.ticker _ (add_position-IsWithin c buyer t.ticker _ w)))

discard_open-IsWithin :
    (c : RiskChecker) (a : String) (x : OpenOrder) → IsWithin c → IsWithin (discard_open c a x)
unfolding get_notional_exposure get_ticker_notional
discard_open-IsWithin c a x w = elim (Option-cases (lookup a c.open_orders)) [
  | inl nobody ↦ rw (nobody, discard_open) w
  | inr (xs, e) ↦
      rw (e, discard_open)
        (record {
          by_account = λ a'. ground (
            arith,
            lookup-insert a a' (discard_entry x xs) c.open_orders,
            eq_iff a a',
            w.by_account a',
            w.by_account a,
            sum_notional-discard_entry x xs,
          );
          by_ticker = w.by_ticker;
        })
]

-- Nor does a cancellation, or the completion of an order.
pub record_cancel-IsWithin :
    (c : RiskChecker) (o : Order) → IsWithin c → IsWithin (record_cancel c o)
unfolding record_cancel
record_cancel-IsWithin c o w = elim (OrderType-cases o.order_type) [
  | inl l ↦
      rw (l, record_cancel)
        (reduce_notional-IsWithin _ o.account_id o.ticker _
          (discard_open-IsWithin c o.account_id (entry_of o) w))
  | inr m ↦ rw (m, record_cancel) w
]

-- The checker with the order's entry, before its notional is added.
abbrev opened : RiskChecker → Order → RiskChecker
opened c o = record c {
  open_orders = insert o.account_id (add_entry (entry_of o) (open_of c o.account_id)) c.open_orders;
}

opened-ticker :
    (c : RiskChecker) (o : Order) (a t : String)
    → get_ticker_notional (opened c o) a t ≡ get_ticker_notional c a t
unfolding get_ticker_notional
opened-ticker c o a t = refl

-- An order that passed the check may be registered.
pub record_open_order-IsWithin :
    (c : RiskChecker) (o : Order)
    → check c o ≡ passed
    → IsWithin c
    → IsWithin (record_open_order c o)
unfolding record_open_order get_notional_exposure
record_open_order-IsWithin c o p w = elim (OrderType-cases o.order_type) [
  | inl l ↦
      rw (l, record_open_order)
        (record {
          by_account = λ a. ground (
            arith,
            lookup-insert o.account_id a (add_entry (entry_of o) (open_of c o.account_id))
                c.open_orders,
            sum_notional-add_entry (entry_of o) (open_of c o.account_id),
            w.by_account a,
            check-passed c o l p,
          );
          by_ticker = λ a t. ground (
            arith,
            get_ticker_notional-set (opened c o) o.account_id o.ticker a t
                (get_ticker_notional c o.account_id o.ticker + o.quantity * price_or_zero o),
            eq_iff o.account_id a,
            eq_iff o.ticker t,
            opened-ticker c o a t,
            w.by_ticker a t,
            w.by_ticker o.account_id o.ticker,
            check-passed c o l p,
          );
        })
  | inr m ↦ rw (m, record_open_order) w
]

-- What can happen to the checker: an order that passed its check is registered, a trade is
-- recorded, an order is canceled or completed.
pub data Step (c : RiskChecker) : RiskChecker → Type 0 where
  opens : (o : Order) → check c o ≡ passed → Step c (record_open_order c o)
  fills : (t : Trade) (buyer seller : String) → Step c (record_fill c t buyer seller)
  closes : (o : Order) → Step c (record_cancel c o)

pub data Reach (c : RiskChecker) : RiskChecker → Type 0 where
  here : Reach c c
  next : {d e : RiskChecker} → Reach c d → Step d e → Reach c e

Step-IsWithin : {c d : RiskChecker} → Step c d → IsWithin c → IsWithin d
Step-IsWithin {c} (opens o p) w = record_open_order-IsWithin c o p w
Step-IsWithin {c} (fills t b s) w = record_fill-IsWithin c t b s w
Step-IsWithin {c} (closes o) w = record_cancel-IsWithin c o w

Reach-IsWithin : {c d : RiskChecker} → Reach c d → IsWithin c → IsWithin d
Reach-IsWithin here w = w
Reach-IsWithin (next r s) w = Step-IsWithin s (Reach-IsWithin r w)

init_checker-IsWithin : (p n t s : ℕ) → IsWithin (init_checker p n t s)
unfolding init_checker get_notional_exposure get_ticker_notional sum_notional lookup
init_checker-IsWithin p n t s = record {
  by_account = λ a. omega arith;
  by_ticker = λ a u. omega arith;
}

abbrev SameLimits : RiskChecker → RiskChecker → Type 0
SameLimits c d =
    (d.max_notional ≡ c.max_notional) × (d.max_notional_per_ticker ≡ c.max_notional_per_ticker)

Step-SameLimits : {c d : RiskChecker} → Step c d → SameLimits c d
unfolding record_open_order record_fill record_cancel reduce_notional add_position
Step-SameLimits (opens o p) = ground arith
Step-SameLimits (fills t b s) = (refl, refl)
Step-SameLimits (closes o) = ground arith

Reach-SameLimits : {c d : RiskChecker} → Reach c d → SameLimits c d
Reach-SameLimits here = (refl, refl)
Reach-SameLimits (next r s) =
    let (a, b) = Reach-SameLimits r in let (a', b') = Step-SameLimits s in (a' ∙ a, b' ∙ b)

-- From the start on, whatever is registered after a passed check, filled, canceled or completed in
-- whatever order: no account's notional exposure is above its limit, and none for a ticker either.
pub exposure_bounded :
    (p n t s : ℕ) {d : RiskChecker}
    → Reach (init_checker p n t s) d
    → ((a : String) → get_notional_exposure d a ≤ n)
      × ((a u : String) → get_ticker_notional d a u ≤ t)
unfolding init_checker
exposure_bounded p n t s r =
    let w = Reach-IsWithin r (init_checker-IsWithin p n t s) in
    let (same, same_ticker) = Reach-SameLimits r in
    (λ a. omega (arith, w.by_account a, same), λ a u. omega (arith, w.by_ticker a u, same_ticker))
