-- ===== src/Risk/Overflow.antt =====
-- When a check of the risk checker is out of the range of `Decimal`.
use stock_trading_platform.Prelude.{
  ℕ, zero, suc, ◌+◌, ◌*◌, ◌≤◌, ◌≡◌, ◌≢◌, ◌⊎◌, inl, inr, true, Option, none, some, Bool-cases, ◌==◌,
  arith,
}
use Prim.Native.Nat.{◌/◌, ◌^◌}
use native.Mathlib.Nat.{le-div_iff_mul-le, pow-suc}
use stock_trading_platform.Events.{limit, Order}
use stock_trading_platform.Risk.Checker.{
  RiskChecker, overflowed, reaches, projected_exposure, get_ticker_notional, price_or_zero, check,
  check_market_spread,
}

-- The smallest amount that overflows, for `places` digits after the first 29.
unfoldable pub overflow_from : (places : ℕ) → ℕ
overflow_from places = 99_999_999_999_999_999_999_999_999_995 * 10 ^ places

pub reaches-overflow_from : (k v : ℕ) → reaches k v ≡ true → overflow_from k ≤ v
unfolding reaches overflow_from
reaches-overflow_from zero v e = ground (arith, e)
reaches-overflow_from (suc k) v e = elim (Bool-cases (v == 0)) [
  | inl nothing ↦ absurd (ground (arith, nothing, e))
  | inr something ↦
      let here = reaches-overflow_from k (v / 10) (ground (arith, something, e)) in
      let times_ten = (le-div_iff_mul-le {k = 10} (omega arith)).0 here in
      omega (arith, times_ten, pow-suc 10 k)
]

abbrev pub ticker_projected : RiskChecker → Order → ℕ
ticker_projected c o = get_ticker_notional c o.account_id o.ticker + o.quantity * price_or_zero o

-- A limit order would lead to an amount of 10 ^ 1_000_000 or more, rounded to 28 digits.
abbrev pub IsOutOfRange : RiskChecker → Order → Type 0
IsOutOfRange c o =
    (o.order_type ≡ limit)
    × ((overflow_from 999_973 ≤ projected_exposure c o)
        ⊎ (overflow_from 999_973 ≤ ticker_projected c o))

overflowed_lem :
    (c : RiskChecker) (o : Order)
    → check c o ≡ overflowed
    → (o.order_type ≡ limit)
      × ((reaches 999_973 (projected_exposure c o) ≡ true)
          ⊎ (reaches 999_973 (ticker_projected c o) ≡ true))
unfolding check
overflowed_lem c o e = ground (arith, e)

pub check-IsOutOfRange : (c : RiskChecker) (o : Order) → check c o ≡ overflowed → IsOutOfRange c o
check-IsOutOfRange c o e =
    let (l, over) = overflowed_lem c o e in
    (
      l,
      elim over [
        | inl a ↦ inl (reaches-overflow_from 999_973 (projected_exposure c o) a)
        | inr a ↦ inr (reaches-overflow_from 999_973 (ticker_projected c o) a)
      ],
    )

pub check_market_spread_lem :
    (c : RiskChecker) (bid ask : Option ℕ) → check_market_spread c bid ask ≢ overflowed
unfolding check_market_spread
check_market_spread_lem c none none e = absurd (ground (arith, e))
check_market_spread_lem c none (some a) e = absurd (ground (arith, e))
check_market_spread_lem c (some b) none e = absurd (ground (arith, e))
check_market_spread_lem c (some b) (some a) e = absurd (ground (arith, e))
