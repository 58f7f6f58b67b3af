-- ===== src/Startup/Responses.antt =====
-- The responses of the idempotency store, over a restart: `_rebuild_idempotency` of main.py from the
-- log that the handler of submissions writes.
use stock_trading_platform.Prelude.{ℕ, String, some}
use stock_trading_platform.Persistence.EventLog.{read_all}
use stock_trading_platform.Api.Schemas.{OrderResponse}
use stock_trading_platform.Api.Idempotency.{IdempotencyStore, init_store}
use stock_trading_platform.Api.Requests.{Service, remember}
use stock_trading_platform.Startup.Steps.{rebuild_idempotency}

module _ (now logged_at restart later : ℕ) (id : String) (r : OrderResponse) (s : Service) where
  -- The store at the time `restart`, rebuilt from the log as it was before the response.
  abbrev pub before : IdempotencyStore
  before = rebuild_idempotency restart (read_all 0 s.platform.log) init_store

  -- The same from the log as the response has left it.
  abbrev pub rebuilt : IdempotencyStore
  rebuilt =
      rebuild_idempotency restart (read_all 0 (remember now logged_at (some id) r s).platform.log)
        init_store
