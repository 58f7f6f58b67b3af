-- ===== src/Api/Logging.antt =====
-- What a round of the consumer leaves in the event log.
use stock_trading_platform.Prelude.{ℕ, ◌≡◌, refl, Bool-cases, inl, inr, List, [], ◌∷◌, map}
use stock_trading_platform.Events.{Order, Trade, Heap, is_complete}
use stock_trading_platform.OrderBook.Book.{OrderBook}
use stock_trading_platform.Engine.Matcher.{MatchingEngine}
use stock_trading_platform.Persistence.EventLog.{Event, order_submitted, trade_executed, EventLog}
use stock_trading_platform.Persistence.Replay.{append_all}
use stock_trading_platform.Api.Consumer.{
  Platform, Reply, executed, refused, failed, account_of, record_trade, record_trades,
  complete_order,
}

-- The event of a trade, with the accounts that its orders have.
abbrev pub event_of : ℕ → Heap → MatchingEngine → Trade → Event
event_of o h e t =
    trade_executed t (account_of h e (h o) t.buyer_order_id)
      (account_of h e (h o) t.seller_order_id)

abbrev pub trade_event : ℕ → Platform → Trade → Event
trade_event o p = event_of o p.heap p.engine

-- The platform `p` after a round that began with the log `l` and the order `x`.
abbrev Logged : ℕ → Order → EventLog → Platform × Reply → Type 0
Logged o x l (p, executed ts) = p.log ≡ append_all (order_submitted x ∷ map (trade_event o p) ts) l
Logged o x l (p, refused y) = Unit
Logged o x l (p, failed e) = Unit

pub record_trades-log :
    (o : ℕ) (p : Platform) (ts : List Trade)
    → ((record_trades o p ts).log ≡ append_all (map (trade_event o p) ts) p.log)
      × ((record_trades o p ts).heap ≡ p.heap)
      × ((record_trades o p ts).engine ≡ p.engine)
unfolding record_trades
record_trades-log o p [] = (refl, refl, refl)
record_trades-log o p (t ∷ ts) = record_trades-log o (record_trade o p t) ts

pub complete_order-log :
    (o : ℕ) (p : Platform)
    → ((complete_order o p).log ≡ p.log)
      × ((complete_order o p).heap ≡ p.heap)
      × ((complete_order o p).engine ≡ p.engine)
complete_order-log o p = elim (Bool-cases (is_complete (p.heap o))) [
  | inl e ↦ rw (e, complete_order) (refl, refl, refl)
  | inr e ↦ rw (e, complete_order) (refl, refl, refl)
]

trades_in : Reply → List Trade
trades_in (executed ts) = ts
trades_in (refused x) = []
trades_in (failed e) = []

module _ (clock : ℕ → ℕ) (now : ℕ) (p : Platform) (o : ℕ) where
  abbrev IsLogged : Platform × Reply → Type 0
  IsLogged = Logged o (p.heap o) p.log
