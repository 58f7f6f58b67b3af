-- ===== src/Risk/Positions.antt =====
-- The net positions that fills leave.
use stock_trading_platform.Prelude.{
  ℕ, ◌≡◌, refl, String, Bool, ◌&&◌, str_eq, eq_iff, arith, if◌then◌else◌,
}
use stock_trading_platform.Prelude.Int.{ℤ, pos, ◌+ℤ◌, ◌-ℤ◌}
use stock_trading_platform.Events.{Trade}
use stock_trading_platform.Risk.Checker.{
  RiskChecker, add_position, reduce_notional, record_fill, get_position,
}
use stock_trading_platform.Risk.Exposure.{at_two-put_two}

get_position-add_position :
    (c : RiskChecker) (a t a' t' : String) (delta : ℤ)
    → get_position (add_position c a t delta) a' t'
      ≡ (if str_eq a a' && str_eq t t' then get_position c a t +ℤ delta else get_position c a' t')
unfolding get_position add_position
get_position-add_position c a t a' t' delta =
    at_two-put_two (pos 0) a t a' t' (get_position c a t +ℤ delta) c.positions

zero_add : (x : ℤ) → x +ℤ pos 0 ≡ x
unfolding ◌+ℤ◌
zero_add x = ground arith

both_changes :
    (x : ℤ) (q : ℕ) (b s : Bool)
    → (if s then (if b then x +ℤ pos q else x) +ℤ (pos 0 -ℤ pos q) else if b then x +ℤ pos q else x)
      ≡ x +ℤ ((if b then pos q else pos 0) -ℤ (if s then pos q else pos 0))
unfolding ◌+ℤ◌ ◌-ℤ◌
both_changes x q b s = ground arith

positions-record_fill :
    (c : RiskChecker) (t : Trade) (buyer seller a u : String)
    → get_position (record_fill c t buyer seller) a u
      ≡ get_position
          (add_position
            (add_position c buyer t.ticker (pos t.quantity))
            seller
            t.ticker
            (pos 0 -ℤ pos t.quantity))
          a
          u
unfolding record_fill reduce_notional get_position
positions-record_fill c t buyer seller a u = refl

-- The change of one account's position in one ticker by a fill.
abbrev pub change : Trade → String → String → String → String → ℤ
change t buyer seller a u =
    if str_eq t.ticker u
    then (if str_eq buyer a then pos t.quantity else pos 0)
      -ℤ (if str_eq seller a then pos t.quantity else pos 0)
    else pos 0

-- A fill adds its quantity to the buyer's position in its ticker and takes it from the seller's; an
-- account that trades with itself, any other account and any other ticker keep their position.
pub get_position-record_fill :
    (c : RiskChecker) (t : Trade) (buyer seller a u : String)
    → get_position (record_fill c t buyer seller) a u
      ≡ get_position c a u +ℤ change t buyer seller a u
get_position-record_fill c t buyer seller a u = ground (
  arith,
  positions-record_fill c t buyer seller a u,
  get_position-add_position (add_position c buyer t.ticker (pos t.quantity)) seller t.ticker a u
      (pos 0 -ℤ pos t.quantity),
  get_position-add_position c buyer t.ticker a u (pos t.quantity),
  get_position-add_position c buyer t.ticker seller t.ticker (pos t.quantity),
  eq_iff buyer a,
  eq_iff seller a,
  eq_iff t.ticker u,
  eq_iff buyer seller,
  both_changes (get_position c a u) t.quantity (str_eq buyer a) (str_eq seller a),
  zero_add (get_position c a u),
)
