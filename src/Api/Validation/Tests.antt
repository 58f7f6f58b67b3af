-- ===== src/Api/Validation/Tests.antt =====
-- The bodies of some requests.
use stock_trading_platform.Prelude.{ℕ, ◌≡◌, refl, Bool, none, some, leb}
use stock_trading_platform.Events.{buy, limit, market}
use stock_trading_platform.Api.Samples.{request}
use stock_trading_platform.Api.Validation.{Decimal, Body, validate}

-- As many places as the decimal was written with.
abbrev written_places : ℕ → Decimal → Bool
written_places n d = leb d.places n

abbrev body : Body
body = record {
  order_id = some "k";
  ticker = "AAPL";
  side = buy;
  order_type = limit;
  quantity = 12;
  price = some (record { units = 1010; places = 3 });
  account_id = some "ann";
}

-- 1.010 is not written with two places, 1.01 is.
validate_lem :
    (validate written_places body ≡ none)
    × (validate written_places (record body { price = some (record { units = 101; places = 2 }) })
        ≡ some request)
unfolding validate
validate_lem = (refl, refl)

-- A market order has no price, and an id is not empty.
refusals :
    (validate written_places (record body { order_type = market }) ≡ none)
    × (validate written_places
          (record body { order_type = market; price = none; order_id = some "" })
        ≡ none)
unfolding validate
refusals = (refl, refl)
