-- ===== src/Startup/Restart.antt =====
-- A service that runs, stops, and is started again from its log.
use stock_trading_platform.Prelude.{
  ℕ, suc, ◌≡◌, refl, sym, subst, String, Bool, true, false, Option, none, some, List, [], ◌∷◌, All,
  arith, Bool-cases, inl, inr,
}
use stock_trading_platform.Events.{Order, Heap, write}
use stock_trading_platform.OrderBook.Book.{Result, ok, raise}
use stock_trading_platform.OrderBook.Members.Operations.{OnOk}
use stock_trading_platform.Prelude.Dict.{lookup}
use stock_trading_platform.Engine.Manager.{is_supported}
use stock_trading_platform.Engine.Matcher.{MatchingEngine, engine_cancel}
use stock_trading_platform.Engine.Routing.{IsSubmittable}
use stock_trading_platform.Risk.Checker.{record_cancel}
use stock_trading_platform.Persistence.Snapshot.{Restored}
use stock_trading_platform.Api.Schemas.{OrderResponse}
use stock_trading_platform.Api.Idempotency.{IdempotencyStore, has}
use stock_trading_platform.Api.Consumer.{Platform, open_order, after_matching, consume}
use stock_trading_platform.Api.Endings
use stock_trading_platform.Api.Endings.{consume-Ends}
use stock_trading_platform.Api.Requests.{
  OrderRequest, order_of, Answer, created, replayed, unprocessable_ticker, unprocessable_order,
  server_error, Service, remember, respond, submit_new, submit_known, submit_with_id,
  submit_request, after_cancellation, cancel_request,
}
use stock_trading_platform.Api.Service.{IsRequest, order_of-IsSubmittable, write_same}
use stock_trading_platform.Api.Sessions.{kept_platform}
use stock_trading_platform.Startup.Replica.{
  Replica-risk, Replica, Replica-write, Replica-after_matching, Replica-idempotency_cached,
  Replica-canceled, unchanged,
}

-- What clients ask of the service.
pub data Request : Type 0 where
  asks : (clock : ℕ → ℕ) (now logged_at : ℕ) (generated : String) (q : OrderRequest) → Request
  cancels : (id : String) → Request

-- An executed order keeps its reference; the object of any other is dropped.
abbrev pub next_reference : ℕ → Answer → ℕ
next_reference n (created r) = suc n
next_reference n (replayed r) = n
next_reference n unprocessable_ticker = n
next_reference n (unprocessable_order x) = n
next_reference n (server_error e) = n

abbrev pub serve : Request → ℕ × Service → ℕ × Service
serve (asks clock now logged_at generated q) (n, s) =
    let r = submit_request clock now logged_at generated n q s in (next_reference n r.1, r.0)
serve (cancels id) (n, s) = (n, kept_platform s (cancel_request id s.platform))

abbrev pub serve_all : List Request → ℕ × Service → ℕ × Service
serve_all [] x = x
serve_all (r ∷ rs) x = serve_all rs (serve r x)

abbrev pub IsValid : Request → Type 0
IsValid (asks clock now logged_at generated q) = IsRequest q
IsValid (cancels id) = Unit

module _ (clock : ℕ → ℕ) (now : ℕ) (r₀ : Restored) where
  abbrev pub IsReplica : ℕ × Service → Type 0
  IsReplica x = Replica clock now r₀ x.0 x.1.platform

  abbrev After : ℕ → Service × Answer → Type 0
  After n x = IsReplica (next_reference n x.1, x.0)

  remember-IsReplica :
      (n time logged_at : ℕ) (id : Option String) (r : OrderResponse) (s : Service)
      → IsReplica (n, s)
      → IsReplica (n, remember time logged_at id r s)
  remember-IsReplica n time logged_at none r s v = v
  remember-IsReplica n time logged_at (some id) r s v =
      Replica-idempotency_cached clock now r₀ n s.platform id r _ v

  module _ (trades_clock : ℕ → ℕ) (time logged_at : ℕ) (generated : String) (n : ℕ)
      (q : OrderRequest) (valid : IsRequest q) where
    module _ (s : Service) (v : IsReplica (n, s))
        (known : is_supported q.ticker s.platform.engine.manager.supported_tickers ≡ true) where
      abbrev x : Order
      x = order_of q generated time

      abbrev p : Platform
      p = record s.platform { heap = write s.platform.heap n x }

      written : Replica clock now r₀ n p
      written = Replica-write clock now r₀ n s.platform x v

      good : IsSubmittable (p.heap n)
      good =
          subst IsSubmittable (sym (write_same s.platform.heap n x))
            (order_of-IsSubmittable q generated time valid)

      supported : is_supported (p.heap n).ticker p.engine.manager.supported_tickers ≡ true
      supported =
          subst (λ (y : Order). is_supported y.ticker p.engine.manager.supported_tickers ≡ true)
            (sym (write_same s.platform.heap n x)) known

      executed_lem : After n (
          respond time logged_at q n s (
            after_matching n (open_order p n) (
              ok (
                Endings.matched trades_clock time n p n written.books
                  (omega arith)
                  good
                  supported))))
      executed_lem =
          let r =
            Endings.matched trades_clock time n p n written.books (omega arith) good supported in
          remember-IsReplica (suc n) time logged_at q.order_id _
            (record s { platform = (after_matching n (open_order p n) (ok r)).0 })
            (Replica-after_matching clock now r₀ n p written trades_clock time r
              (Endings.matched_lem trades_clock time n p n written.books (omega arith) good
                supported)
              (Endings.matched_kept trades_clock time n p n written.books (omega arith) good
                supported))

      respond-After : After n (respond time logged_at q n s (consume trades_clock time p n))
      respond-After =
          elim (consume-Ends trades_clock time n p n written.books (omega arith) good supported) [
            | inl (y, e) ↦ subst (λ z. After n (respond time logged_at q n s z)) (sym e) written
            | inr (inl e) ↦ subst (λ z. After n (respond time logged_at q n s z)) (sym e) written
            | inr (inr e) ↦
                subst (λ z. After n (respond time logged_at q n s z)) (sym e) executed_lem
          ]

    submit_new-After :
        (s : Service)
        → IsReplica (n, s)
        → After n (submit_new trades_clock time logged_at generated n q s)
    submit_new-After s v =
        elim (Bool-cases (is_supported q.ticker s.platform.engine.manager.supported_tickers)) [
          | inl e ↦ rw (e, submit_new) (respond-After s v e)
          | inr e ↦ rw (e, submit_new) v
        ]

    submit_known-After :
        (id : String) (s : Service) (z : IdempotencyStore × Bool)
        → IsReplica (n, s)
        → After n (submit_known trades_clock time logged_at generated n q id s z)
    submit_known-After id s (i, true) v = v
    submit_known-After id s (i, false) v = submit_new-After (record s { idempotency = i }) v

    submit_with_id-After :
        (s : Service) (id : Option String)
        → IsReplica (n, s)
        → After n (submit_with_id trades_clock time logged_at generated n q s id)
    submit_with_id-After s none v = submit_new-After s v
    submit_with_id-After s (some id) v = submit_known-After id s (has time id s.idempotency) v

  not_registered :
      (s : Service) (id : String) (h : Heap) (e' : MatchingEngine)
      → lookup id s.platform.engine.order_registry ≡ none
      → engine_cancel s.platform.heap s.platform.engine id ≡ ok (h, e', true)
      → ⊥
  unfolding engine_cancel
  not_registered s id h e' f e =
      let e'' = rw f at e in
      let no : OnOk (λ (z : Heap × MatchingEngine × Bool). z.2 ≡ false) (ok (h, e', true)) =
        subst (OnOk (λ (z : Heap × MatchingEngine × Bool). z.2 ≡ false)) e'' refl in
      absurd (ground (arith, no))

  canceled-IsReplica :
      (n : ℕ) (s : Service) (id : String) (z : Result (Heap × MatchingEngine × Bool))
      (entry : Option (String × ℕ))
      → lookup id s.platform.engine.order_registry ≡ entry
      → engine_cancel s.platform.heap s.platform.engine id ≡ z
      → IsReplica (n, s)
      → IsReplica (n, kept_platform s (after_cancellation id entry s.platform z))
  canceled-IsReplica n s id (raise y) entry f e v = v
  canceled-IsReplica n s id (ok (h, e', true)) (some (t, r)) f e v =
      let k = record_cancel s.platform.risk (h r) in
      Replica-canceled clock now r₀ n (record s.platform { risk = k })
        (Replica-risk clock now r₀ n s.platform k v) id (h r).ticker h e' true e
  canceled-IsReplica n s id (ok (h, e', true)) none f e v = absurd (not_registered s id h e' f e)
  canceled-IsReplica n s id (ok (h, e', false)) entry f e v =
      let same = unchanged clock now r₀ n s.platform v id id h e' false e refl in
      rw (same.0, same.1) v

  serve-IsReplica :
      (r : Request) (y : ℕ × Service) → IsValid r → IsReplica y → IsReplica (serve r y)
  unfolding submit_request cancel_request
  serve-IsReplica (asks c t a g q) (n, s) valid v =
      submit_with_id-After c t a g n q valid s q.order_id v
  serve-IsReplica (cancels id) (n, s) valid v = canceled-IsReplica n s id _ _ refl refl v

  pub serve_all-IsReplica :
      (rs : List Request) (y : ℕ × Service)
      → All IsValid rs
      → IsReplica y
      → IsReplica (serve_all rs y)
  serve_all-IsReplica [] y valid v = v
  serve_all-IsReplica (r ∷ rs) y valid v =
      serve_all-IsReplica rs (serve r y) valid.1 (serve-IsReplica r y valid.0 v)
