-- ===== src/Startup/Replica.antt =====
-- What a replay of the log makes, beside the service that wrote it.
use stock_trading_platform.Prelude.{
  ℕ, suc, ◌≡◌, refl, ap, sym, ◌∙◌, subst, fun_ext, String, Bool, false, arith, ◌==◌, Bool-cases,
  inl, inr,
}
use stock_trading_platform.Events.{Order, Heap, write}
use stock_trading_platform.OrderBook.Book.{Result, ok, raise}
use stock_trading_platform.OrderBook.Clock.{SameResult}
use stock_trading_platform.OrderBook.Members.Operations.{OnOk}
use stock_trading_platform.Engine.Matcher.{
  MatchingEngine, EngineOutcome, engine_submit, engine_cancel,
}
use stock_trading_platform.Engine.Routing.{IsManager, IsManager-frame}
use stock_trading_platform.Engine.Agreement.{
  SameEngine, SameEngineOutcome, engine_submit-SameResult,
}
use stock_trading_platform.Engine.Agreement.Cancellation.{
  Agree, SameCancel, engine_cancel-SameResult,
}
use stock_trading_platform.Engine.Upkeep.{Upkeep, engine_cancel-Upkeep, IsManager-NotIn}
use stock_trading_platform.Persistence.EventLog.{
  order_submitted, order_cancelled, idempotency_cached, append_event,
}
use stock_trading_platform.Persistence.Snapshot.{Restored}
use stock_trading_platform.Risk.Checker.{RiskChecker}
use stock_trading_platform.Api.Schemas.{OrderResponse}
use stock_trading_platform.Api.Consumer.{
  Platform, open_order, record_trades, complete_order, after_matching,
}
use stock_trading_platform.Api.Logging.{record_trades-log, complete_order-log}
use stock_trading_platform.Startup.Steps.{replay_event, after_replay, after_replayed_cancel}
use stock_trading_platform.Startup.Replay.{Replays, Replays-append_event, Replays-record_trades}

-- `n` is the reference for the next order: of all orders in the heaps only that one may differ, an
-- object that was refused and is in no book.
module _ (clock : ℕ → ℕ) (now : ℕ) (r₀ : Restored) where
  pub record Replica (n : ℕ) (p : Platform) : Type 0 where
    pub replayed : Restored
    pub ran : Replays clock now r₀ p.log replayed
    pub at : replayed.next ≡ n
    pub heaps : Agree n p.heap replayed.heap
    pub engines : SameEngine p.engine replayed.engine
    pub books : IsManager p.heap n p.engine.manager

  -- A new object, which the log does not know.
  pub Replica-write :
      (n : ℕ) (p : Platform) (x : Order)
      → Replica n p
      → Replica n (record p { heap = write p.heap n x })
  Replica-write n p x v = record {
    replayed = v.replayed;
    ran = v.ran;
    at = v.at;
    heaps = λ y ne. ground (arith, v.heaps y ne);
    engines = v.engines;
    books = IsManager-frame p.heap n n n x p.engine.manager (omega arith) (omega arith) v.books;
  }

  -- The risk checker is not replayed.
  pub Replica-risk :
      (n : ℕ) (p : Platform) (k : RiskChecker) → Replica n p → Replica n (record p { risk = k })
  Replica-risk n p k v = record {
    replayed = v.replayed;
    ran = v.ran;
    at = v.at;
    heaps = v.heaps;
    engines = v.engines;
    books = v.books;
  }

  -- An order is logged, matched, and its trades are logged.
  module _ (n : ℕ) (p : Platform) (v : Replica n p) (clock' : ℕ → ℕ) (now' : ℕ) (r : EngineOutcome)
      (ran : engine_submit clock' now' p.heap p.engine n ≡ ok r)
      (kept : IsManager r.heap (suc n) r.engine.manager) where
    same_heap : write v.replayed.heap n (p.heap n) ≡ p.heap
    same_heap = fun_ext (λ x. elim (Bool-cases (x == n)) [
      | inl here ↦ ground (arith, here)
      | inr there ↦ ground (arith, there, v.heaps x)
    ])

    again :
        SameResult SameEngineOutcome
          (ok r)
          (engine_submit clock now (write v.replayed.heap n (p.heap n)) v.replayed.engine n)
    again =
        subst
          (λ h. SameResult SameEngineOutcome (ok r) (engine_submit clock now h v.replayed.engine n))
          (sym same_heap)
          (subst
            (λ x.
              SameResult SameEngineOutcome x (engine_submit clock now p.heap v.replayed.engine n))
            ran
            (engine_submit-SameResult clock' clock p.heap now' now p.engine v.replayed.engine n
              v.engines))

    matched_again :
        (x : Result EngineOutcome)
        → SameResult SameEngineOutcome (ok r) x
        → (s : EngineOutcome) × (x ≡ ok s) × SameEngineOutcome r s
    matched_again (ok s) e = (s, refl, e)
    matched_again (raise y) e = absurd e

    abbrev s : EngineOutcome
    s = (matched_again _ again).0

    abbrev next_replayed : Restored
    next_replayed = record { heap = s.heap; next = suc n; engine = s.engine }

    step : replay_event clock now (order_submitted (p.heap n)) v.replayed ≡ ok next_replayed
    unfolding replay_event
    step =
        subst
          (λ k.
            after_replay (suc k)
              (engine_submit clock now (write v.replayed.heap k (p.heap n)) v.replayed.engine k)
            ≡ ok next_replayed)
          (sym v.at) (ap (after_replay (suc n)) (matched_again _ again).1)

    abbrev opened : Platform
    opened = record (open_order p n) { heap = r.heap; engine = r.engine }

    abbrev final : Platform
    final = complete_order n (record_trades n opened r.trades)

    final_log : Replays clock now r₀ final.log next_replayed
    final_log =
        subst (λ l. Replays clock now r₀ l next_replayed)
          (sym (complete_order-log n (record_trades n opened r.trades)).0)
          (Replays-record_trades clock now r₀ n opened r.trades next_replayed (
            Replays-append_event clock now r₀ (order_submitted (p.heap n)) p.log v.replayed
              next_replayed v.ran step))

    final_heap : final.heap ≡ r.heap
    final_heap =
        (complete_order-log n (record_trades n opened r.trades)).1
        ∙ (record_trades-log n opened r.trades).1

    final_engine : final.engine ≡ r.engine
    final_engine =
        (complete_order-log n (record_trades n opened r.trades)).2
        ∙ (record_trades-log n opened r.trades).2

    pub Replica-after_matching : Replica (suc n) (after_matching n (open_order p n) (ok r)).0
    Replica-after_matching = record {
      replayed = next_replayed;
      ran = final_log;
      at = refl;
      heaps = λ y ne. rw final_heap (ap (λ (h : Heap). h y) (matched_again _ again).2.0);
      engines = rw final_engine (matched_again _ again).2.1;
      books = rw (final_heap, final_engine) kept;
    }

  -- An event that a replay passes over.
  pub Replica-idempotency_cached :
      (n : ℕ) (p : Platform) (id : String) (x : OrderResponse) (expires_at : ℕ)
      → Replica n p
      → Replica n (record p { log = append_event (idempotency_cached id x expires_at) p.log })
  unfolding replay_event
  Replica-idempotency_cached n p id x expires_at v = record {
    replayed = v.replayed;
    ran =
        Replays-append_event clock now r₀ (idempotency_cached id x expires_at) p.log v.replayed
          v.replayed v.ran refl;
    at = v.at;
    heaps = v.heaps;
    engines = v.engines;
    books = v.books;
  }

  -- An order is canceled, and the cancellation is logged.
  module _ (n : ℕ) (p : Platform) (v : Replica n p) (id ticker : String) (h : Heap)
      (e : MatchingEngine) (success : Bool)
      (ran : engine_cancel p.heap p.engine id ≡ ok (h, e, success)) where
    kept : Upkeep p.heap n p.engine v.books id (h, e, success)
    kept =
        subst (OnOk (Upkeep p.heap n p.engine v.books id)) ran
          (engine_cancel-Upkeep p.heap n p.engine v.books id)

    canceled_again :
        (x : Result (Heap × MatchingEngine × Bool))
        → SameResult (SameCancel n) (ok (h, e, success)) x
        → (s : Heap × MatchingEngine × Bool) × (x ≡ ok s) × SameCancel n (h, e, success) s
    canceled_again (ok s) a = (s, refl, a)
    canceled_again (raise y) a = absurd a

    once_more :
        (s : Heap × MatchingEngine × Bool) × (engine_cancel v.replayed.heap v.replayed.engine id
          ≡ ok s)
        × SameCancel n (h, e, success) s
    once_more = canceled_again _ (
        subst
          (λ x. SameResult (SameCancel n) x (engine_cancel v.replayed.heap v.replayed.engine id))
          ran
          (engine_cancel-SameResult n p.heap v.replayed.heap v.heaps id p.engine v.replayed.engine
            v.engines (IsManager-NotIn p.heap n p.engine.manager v.books)))

    pub Replica-canceled :
        Replica n
          (record p { heap = h; engine = e; log = append_event (order_cancelled id ticker) p.log })
    unfolding replay_event
    Replica-canceled = record {
      replayed = record { heap = once_more.0.0; next = v.replayed.next; engine = once_more.0.1 };
      ran =
          Replays-append_event clock now r₀ (order_cancelled id ticker) p.log v.replayed _ v.ran
            (ap (after_replayed_cancel v.replayed.next) once_more.1);
      at = v.at;
      heaps = once_more.2.0;
      engines = once_more.2.1;
      books = kept.0;
    }

    -- The answer False changes nothing.
    pub unchanged : success ≡ false → (h ≡ p.heap) × (e ≡ p.engine)
    unchanged = kept.1
