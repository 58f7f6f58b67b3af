-- ===== src/Risk/Tests.antt =====
-- Concrete runs of the risk checker.
use stock_trading_platform.Prelude.{◌≤◌, ◌≡◌, refl, String, some}
use stock_trading_platform.Prelude.Int.{negsuc, ◌+ℤ◌, ◌-ℤ◌}
use stock_trading_platform.Prelude.Dict.{lookup, insert}
use stock_trading_platform.Events.{buy, limit, new, Order, Trade}
use stock_trading_platform.Risk.Checker.{
  RiskChecker, passed, violated, ticker_notional_limit, wide_spread, init_checker, check, reaches,
  check_market_spread, record_open_order, record_fill, record_cancel, add_position, reduce_notional,
  get_position, get_notional_exposure, get_ticker_notional, sum_notional, add_entry, discard_entry,
}
use stock_trading_platform.Risk.Exposure.{here, next, opens, fills, closes, exposure_bounded}
use stock_trading_platform.Risk.Positions.{change, get_position-record_fill}
use stock_trading_platform.Risk.Cancellation.{open_then_cancel}

abbrev bid : Order
bid = record {
  order_id = "b1";
  ticker = "AAPL";
  side = buy;
  order_type = limit;
  quantity = 10;
  price = some 150;
  timestamp = 0;
  status = new;
  filled_quantity = 0;
  account_id = "ann";
}

abbrev sale : Trade
sale = record {
  trade_id = 0;
  ticker = "AAPL";
  price = 149;
  quantity = 4;
  timestamp = 1;
  buyer_order_id = "b1";
  seller_order_id = "s1";
}

abbrev start : RiskChecker
start = init_checker 100 5_000 2_000 50

program : Unit {0}
unfolding init_checker check reaches record_open_order record_fill record_cancel add_position
    reduce_notional get_position get_notional_exposure get_ticker_notional sum_notional add_entry
    discard_entry lookup insert check_market_spread
program = tt

exposure_after : get_notional_exposure (record_open_order start bid) "ann" ≡ 1_500
unfolding program
exposure_after = refl

position_after : get_position (record_fill start sale "ann" "bob") "bob" "AAPL" ≡ negsuc 3
unfolding program ◌+ℤ◌ ◌-ℤ◌
position_after = refl

second_refused :
    check (record_open_order start bid) (record bid { order_id = "b2" })
    ≡ violated ticker_notional_limit
unfolding program ◌+ℤ◌
second_refused = refl

wide : check_market_spread start (some 100) (some 151) ≡ violated wide_spread
unfolding program ◌-ℤ◌
wide = refl

abbrev run : RiskChecker
run =
    record_cancel (record_fill (record_open_order start bid) sale "ann" "bob")
      (record bid { filled_quantity = 4 })

bid-passed : check start bid ≡ passed
unfolding program ◌+ℤ◌
bid-passed = refl

exposure_bounded_example :
    ((a : String) → get_notional_exposure run a ≤ 5_000)
    × ((a u : String) → get_ticker_notional run a u ≤ 2_000)
exposure_bounded_example = exposure_bounded 100 5_000 2_000 50 (
    next (next (next here (opens bid bid-passed)) (fills sale "ann" "bob"))
      (closes (record bid { filled_quantity = 4 })))

get_position-record_fill_example :
    get_position (record_fill start sale "ann" "bob") "ann" "AAPL"
    ≡ get_position start "ann" "AAPL" +ℤ change sale "ann" "bob" "ann" "AAPL"
get_position-record_fill_example = get_position-record_fill start sale "ann" "bob" "ann" "AAPL"

open_then_cancel_example :
    ((a : String)
      → get_notional_exposure (record_cancel (record_open_order start bid) bid) a
        ≡ get_notional_exposure start a)
    × ((a t : String)
        → get_ticker_notional (record_cancel (record_open_order start bid) bid) a t
          ≡ get_ticker_notional start a t)
unfolding init_checker lookup
open_then_cancel_example = open_then_cancel start bid refl refl tt
