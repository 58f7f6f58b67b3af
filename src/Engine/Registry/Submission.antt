-- ===== src/Engine/Registry/Submission.antt =====
-- `MatchingEngine.submit_order` and the registry.
use stock_trading_platform.Prelude.{
  ℕ, suc, ◌≤◌, ◌≡◌, ◌≢◌, refl, ap, sym, ◌∙◌, subst, String, true, false, none, some, arith, str_eq,
  eq_iff, eq_refl, Bool-cases, inl, inr,
}
use stock_trading_platform.Prelude.Dict.{lookup, lookup-insert}
use stock_trading_platform.Events.{Order, Heap, is_complete}
use stock_trading_platform.OrderBook.Book.{OrderBook, Outcome, Result, ok}
use stock_trading_platform.OrderBook.Resting.{terms}
use stock_trading_platform.OrderBook.Members.Operations.{
  EveryOrder, OnOk, by_type, Enters, add_limit_order-Enters, execute_market_order-Enters,
}
use stock_trading_platform.Engine.Manager.{OrderBookManager, is_supported, route_order}
use stock_trading_platform.Engine.Matcher.{MatchingEngine, EngineOutcome, register, engine_submit}
use stock_trading_platform.Engine.Routing
use stock_trading_platform.Engine.Routing.{IsSubmittable, IsManager, submit_order-IsManager}
use stock_trading_platform.Engine.Registry.{IsEngine, Filed, EveryOrder-map, IsDistinct-insert}
use stock_trading_platform.Engine.Eviction.{IsDistinct}

route_order-Enters :
    (P : ℕ → Type 0) (clock : ℕ → ℕ) (h : Heap) (b : OrderBook) (o : ℕ) (a : EveryOrder P b)
    → OnOk (Enters P clock h b o a) (route_order clock h b o)
unfolding route_order
route_order-Enters P clock h b o a =
    by_type P clock h b o a (h o).order_type _ _ (add_limit_order-Enters P clock h b o a)
      (execute_market_order-Enters P clock h b o a)

OnOk-ok : {A : Type 0} (P : A → Type 0) (x : Result A) (a : A) → x ≡ ok a → OnOk P x → P a
OnOk-ok P x a e p = subst (OnOk P) e p

module _ (clock : ℕ → ℕ) (now : ℕ) (h : Heap) (n : ℕ) (e : MatchingEngine) (o : ℕ)
    (v : IsEngine h n e) (fresh : n ≤ o) (good : IsSubmittable (h o))
    (known : is_supported (h o).ticker e.manager.supported_tickers ≡ true)
    (new_id : lookup (h o).order_id e.order_registry ≡ none) where
  abbrev t₀ : String
  t₀ = (h o).ticker

  abbrev ran : Outcome
  ran = (Routing.ran clock h n e.manager o v.books fresh good known).0

  ran_lem :
      route_order clock h (Routing.book clock h n e.manager o v.books fresh good known) o ≡ ok ran
  ran_lem = (Routing.ran clock h n e.manager o v.books fresh good known).1

  abbrev next : MatchingEngine
  next =
      register now ran.heap
        (record e {
          manager = (Routing.submitted clock h n e.manager o v.books fresh good known).manager;
        })
        o

  engine_submit_lem :
      engine_submit clock now h e o
      ≡ ok (record { heap = ran.heap; engine = next; trades = ran.trades })
  unfolding engine_submit
  engine_submit_lem =
      rw (Routing.submit_order_lem clock h n e.manager o v.books fresh good known) refl

  same_terms : (x : ℕ) → terms (ran.heap x) ≡ terms (h x)
  same_terms = (Routing.ran clock h n e.manager o v.books fresh good known).3.same_terms

  same_id : (x : ℕ) → (ran.heap x).order_id ≡ (h x).order_id
  same_id x = ap (λ (y : Order). y.order_id) (same_terms x)

  same_ticker : (ran.heap o).ticker ≡ t₀
  same_ticker = ap (λ (y : Order). y.ticker) (same_terms o)

  -- What was registered still is.
  still-Filed :
      (t : String) (x : ℕ) → Filed h e.order_registry t x → Filed ran.heap next.order_registry t x
  still-Filed t x f = elim (Bool-cases (is_complete (ran.heap o))) [
    | inl complete ↦ rw (complete, same_id x) f
    | inr stays ↦
        rw (stays, same_id x, same_id o, lookup-insert)
          (ground (
            arith,
            f,
            new_id,
            ap (λ k. lookup k e.order_registry),
            eq_iff (h o).order_id (h x).order_id,
          ))
  ]

  newly-Filed : is_complete (ran.heap o) ≡ false → Filed ran.heap next.order_registry t₀ o
  newly-Filed stays = rw (stays, same_ticker, lookup-insert, eq_refl (ran.heap o).order_id) refl

  abbrev book : OrderBook
  book = Routing.book clock h n e.manager o v.books fresh good known

  abbrev FiledNext : String → ℕ → Type 0
  FiledNext = Filed ran.heap next.order_registry

  book_still_filed : EveryOrder (FiledNext t₀) book
  book_still_filed =
      EveryOrder-map (Filed h e.order_registry t₀) (FiledNext t₀) (still-Filed t₀) book
        (v.filed t₀ book (Routing.found clock h n e.manager o v.books fresh good known))

  ran_filed : EveryOrder (FiledNext t₀) ran.book
  ran_filed =
      OnOk-ok (Enters (FiledNext t₀) clock h book o book_still_filed) (route_order clock h book o)
        ran ran_lem (route_order-Enters (FiledNext t₀) clock h book o book_still_filed) newly-Filed

  next_filed :
      (t : String) (b : OrderBook)
      → lookup t
          (Routing.submitted clock h n e.manager o v.books fresh good known).manager.order_books
        ≡ some b
      → EveryOrder (FiledNext t) b
  next_filed t b f = elim (Bool-cases (str_eq t₀ t)) [
    | inl here ↦
        let is_new = ran.book ≡ b in
        let new : is_new = ground (arith, lookup-insert t₀ t ran.book e.manager.order_books) in
        let same = (eq_iff t₀ t).0 here in
        subst (λ (k : String). EveryOrder (FiledNext k) b) same
          (subst (EveryOrder (FiledNext t₀)) new ran_filed)
    | inr elsewhere ↦
        let ne : t ≢ t₀ = ground (arith, eq_iff t₀ t) in
        EveryOrder-map (Filed h e.order_registry t) (FiledNext t) (still-Filed t) b (
          v.filed t b
            (sym (Routing.other_books clock h n e.manager o v.books fresh good known t ne) ∙ f))
  ]

  next-IsDistinct : IsDistinct next.order_registry
  next-IsDistinct = elim (Bool-cases (is_complete (ran.heap o))) [
    | inl complete ↦ rw complete v.distinct
    | inr stays ↦ rw stays (
        IsDistinct-insert (ran.heap o).order_id ((ran.heap o).ticker, o) e.order_registry
          v.distinct)
  ]

  next_manager :
      next.manager ≡ (Routing.submitted clock h n e.manager o v.books fresh good known).manager
  next_manager = elim (Bool-cases (is_complete (ran.heap o))) [
    | inl complete ↦ rw complete refl
    | inr stays ↦ rw stays refl
  ]

  -- The submission of a well-formed order for a supported ticker, with an id that is not
  -- registered, succeeds and leaves the engine in order.
  pub engine_submit-IsEngine :
      (r : EngineOutcome) × (engine_submit clock now h e o ≡ ok r)
      × IsEngine r.heap (suc o) r.engine
  engine_submit-IsEngine = (
    record { heap = ran.heap; engine = next; trades = ran.trades },
    engine_submit_lem,
    record {
      books =
          rw next_manager
            (Routing.submitted-IsManager clock h n e.manager o v.books fresh good known);
      filed = λ t b f.
          next_filed t b
            (subst (λ (m : OrderBookManager). lookup t m.order_books ≡ some b) next_manager f);
      distinct = next-IsDistinct;
    },
  )
