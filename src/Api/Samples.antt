-- ===== src/Api/Samples.antt =====
-- A small service and a request for tests.
use stock_trading_platform.Prelude.{some, none, []}
use stock_trading_platform.Events.{buy, limit}
use stock_trading_platform.Engine.Samples.{heap, manager}
use stock_trading_platform.Risk.Checker.{init_checker}
use stock_trading_platform.Persistence.EventLog.{open_log}
use stock_trading_platform.Api.Idempotency.{init_store}
use stock_trading_platform.Api.Consumer.{Platform}
use stock_trading_platform.Api.Requests.{OrderRequest, Service}

-- Order 4 of the heap, a bid for 12 at 101, comes to the books of the manager.
abbrev pub platform : Platform
platform = record {
  heap = heap;
  engine = record { manager = manager; order_registry = []; registry_timestamps = [] };
  risk = init_checker 100 5_000 2_000 50;
  log = open_log [] none;
}

abbrev pub service : Service
service = record { platform = platform; idempotency = init_store }

-- The same order as a request under the client's id "k".
abbrev pub request : OrderRequest
request = record {
  order_id = some "k";
  ticker = "AAPL";
  side = buy;
  order_type = limit;
  quantity = 12;
  price = some 101;
  account_id = "ann";
}
