-- ===== src/Engine/Matcher.antt =====
-- `class MatchingEngine`. The registry holds references, so it sees what matching does to an order
-- after its registration.
use stock_trading_platform.Prelude.{
  ℕ, ◌+◌, String, Bool, true, false, not, ◌&&◌, Option, none, some, List, [], ◌∷◌, ltb, length,
  if◌then◌else◌,
}
use stock_trading_platform.Prelude.Dict.{Dict, lookup, insert, erase}
use stock_trading_platform.Prelude.Int.{ℤ}
use stock_trading_platform.Events.{Trade, Heap, is_complete}
use stock_trading_platform.OrderBook.Book.{
  OrderBook, Result, ok, raise, get_best_bid, get_best_ask, get_spread,
}
use stock_trading_platform.Engine.Manager.{
  OrderBookManager, Submitted, init_manager, submit_order, cancel_order_in, get_order_book,
}

pub record MatchingEngine : Type 0 where
  pub manager : OrderBookManager
  pub order_registry : Dict (String × ℕ)
  pub registry_timestamps : Dict ℕ

-- `MatchingEngine(tickers)`
unfoldable pub init_engine : List String → MatchingEngine
init_engine ts = record { manager = init_manager ts; order_registry = []; registry_timestamps = [] }

pub record EngineOutcome : Type 0 where
  pub heap : Heap
  pub engine : MatchingEngine
  pub trades : List Trade

-- An order that is not complete is registered under its id.
abbrev pub register : ℕ → Heap → MatchingEngine → ℕ → MatchingEngine
register now h e o =
    if not (is_complete (h o))
    then record e {
      order_registry = insert (h o).order_id ((h o).ticker, o) e.order_registry;
      registry_timestamps = insert (h o).order_id now e.registry_timestamps;
    }
    else e

abbrev pub after_submit : ℕ → MatchingEngine → ℕ → Result Submitted → Result EngineOutcome
after_submit now e o (raise x) = raise x
after_submit now e o (ok s) = ok (record {
  heap = s.heap;
  engine = register now s.heap (record e { manager = s.manager }) o;
  trades = s.trades;
})

-- `MatchingEngine.submit_order`; `now` is the time of the registration.
unfoldable pub engine_submit : (ℕ → ℕ) → ℕ → Heap → MatchingEngine → ℕ → Result EngineOutcome
engine_submit clock now h e o = after_submit now e o (submit_order clock h e.manager o)

abbrev pub unregister : String → MatchingEngine → MatchingEngine
unregister id e = record e {
  order_registry = erase id e.order_registry;
  registry_timestamps = erase id e.registry_timestamps;
}

abbrev pub after_cancel :
    String
    → MatchingEngine
    → Result (Heap × OrderBookManager × Bool)
    → Result (Heap × MatchingEngine × Bool)
after_cancel id e (raise x) = raise x
after_cancel id e (ok (h, m, success)) =
    let e' = record e { manager = m } in ok (h, (if success then unregister id e' else e'), success)

abbrev pub cancel_entry :
    Heap → MatchingEngine → String → Option (String × ℕ) → Result (Heap × MatchingEngine × Bool)
cancel_entry h e id none = ok (h, e, false)
cancel_entry h e id (some (t, r)) = after_cancel id e (cancel_order_in h e.manager t id)

-- `MatchingEngine.cancel_order`
unfoldable pub engine_cancel :
    Heap → MatchingEngine → String → Result (Heap × MatchingEngine × Bool)
engine_cancel h e id = cancel_entry h e id (lookup id e.order_registry)

-- Registered before the cutoff `now - ttl`; an order with no time counts as older than any.
abbrev pub is_stale : ℕ → ℕ → Option ℕ → Bool
is_stale now ttl none = true
is_stale now ttl (some t) = ltb (t + ttl) now

-- The comprehension of `evict_stale_registry`.
unfoldable pub to_evict : ℕ → ℕ → Heap → Dict ℕ → Dict (String × ℕ) → List String
to_evict now ttl h times [] = []
to_evict now ttl h times ((id, (t, r)) ∷ d) =
    let rest = to_evict now ttl h times d in
    if is_complete (h r) && is_stale now ttl (lookup id times) then id ∷ rest else rest

unfoldable pub unregister_all : List String → MatchingEngine → MatchingEngine
unregister_all [] e = e
unregister_all (id ∷ ids) e = unregister_all ids (unregister id e)

-- `evict_stale_registry`
unfoldable pub evict_stale_registry : ℕ → ℕ → Heap → MatchingEngine → MatchingEngine × ℕ
unfolding to_evict unregister_all
evict_stale_registry now ttl h e =
    let ids = to_evict now ttl h e.registry_timestamps e.order_registry in
    (unregister_all ids e, length ids)

pub record MarketData : Type 0 where
  pub ticker : String
  pub best_bid : Option ℕ
  pub best_ask : Option ℕ
  pub spread : Option ℤ

abbrev pub market_data_of : String → Result OrderBook → Result MarketData
market_data_of t (raise x) = raise x
market_data_of t (ok b) = ok (record {
  ticker = t;
  best_bid = get_best_bid b;
  best_ask = get_best_ask b;
  spread = get_spread b;
})

-- `get_market_data`
unfoldable pub get_market_data : MatchingEngine → String → Result MarketData
get_market_data e t = market_data_of t (get_order_book e.manager t)
