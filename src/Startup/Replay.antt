-- ===== src/Startup/Replay.antt =====
-- `_replay_event` over a log that grows.
use stock_trading_platform.Prelude.{ℕ, ◌≡◌, refl, ap, ◌∙◌, List, [], ◌∷◌, ◌++◌}
use stock_trading_platform.Events.{Trade}
use stock_trading_platform.OrderBook.Book.{Result, ok, raise}
use stock_trading_platform.Persistence.EventLog.{
  Event, trade_executed, Entry, EventLog, append_event, read_all,
}
use stock_trading_platform.Persistence.Replay.{IsEnded}
use stock_trading_platform.Persistence.Snapshot.{Restored}
use stock_trading_platform.Api.Consumer.{Platform, record_trade, record_trades}
use stock_trading_platform.Startup.Steps.{replay_event, replay_events}
use stock_trading_platform.Startup.Positions.{read_all-append_event}

module _ (clock : ℕ → ℕ) (now : ℕ) (r₀ : Restored) where
  -- The whole log is replayed from `r₀`, and ends in `r`; its file ends in a newline.
  abbrev pub Replays : EventLog → Restored → Type 0
  Replays l r = IsEnded l × (replay_events clock now (read_all 0 l) (ok r₀) ≡ ok r)

  replay_events-append :
      (xs ys : List Entry) (r : Result Restored)
      → replay_events clock now (xs ++ ys) r
        ≡ replay_events clock now ys (replay_events clock now xs r)
  unfolding replay_events
  replay_events-append xs ys (raise e) = refl
  replay_events-append [] ys (ok r) = refl
  replay_events-append (x ∷ xs) ys (ok r) =
      replay_events-append xs ys (replay_event clock now x.event r)

  replay_none : (r : Result Restored) → replay_events clock now [] r ≡ r
  unfolding replay_events
  replay_none (raise e) = refl
  replay_none (ok r) = refl

  replay_one :
      (x : Entry) (r : Restored)
      → replay_events clock now (x ∷ []) (ok r) ≡ replay_event clock now x.event r
  unfolding replay_events
  replay_one x r = replay_none (replay_event clock now x.event r)

  -- One more event.
  pub Replays-append_event :
      (e : Event) (l : EventLog) (r r' : Restored)
      → Replays l r
      → replay_event clock now e r ≡ ok r'
      → Replays (append_event e l) r'
  unfolding append_event
  Replays-append_event e l r r' (ended, before) step = (
    refl,
    ap (λ xs. replay_events clock now xs (ok r₀)) (read_all-append_event e l ended)
        ∙ replay_events-append (read_all 0 l) _ (ok r₀)
        ∙ ap (replay_events clock now _) before
        ∙ replay_one _ r
        ∙ step,
  )

  -- Trades are matched again, not replayed.
  pub Replays-record_trades :
      (o : ℕ) (p : Platform) (ts : List Trade) (r : Restored)
      → Replays p.log r
      → Replays (record_trades o p ts).log r
  unfolding record_trades replay_event
  Replays-record_trades o p [] r before = before
  Replays-record_trades o p (t ∷ ts) r before =
      Replays-record_trades o (record_trade o p t) ts r
        (Replays-append_event (trade_executed t _ _) p.log r r before refl)
