-- ===== src/Api/Resubmission.antt =====
-- A request that a client sends again under the same id.
use stock_trading_platform.Prelude.{
  ℕ, ◌+◌, ◌*◌, ◌≤◌, ◌≡◌, ap, ◌∙◌, String, Bool, true, false, Option, none, some, arith, eq_iff,
}
use stock_trading_platform.Events.{write}
use stock_trading_platform.Api.Schemas.{OrderResponse, response_of}
use stock_trading_platform.Api.Idempotency.{IdempotencyStore, get, has, answer, answer-store}
use stock_trading_platform.Api.Consumer.{Platform, Reply, executed, refused, failed, consume}
use stock_trading_platform.Api.Requests.{
  OrderRequest, order_of, Answer, created, replayed, unprocessable_ticker, unprocessable_order,
  server_error, Service, remember, respond, submit_new, submit_known, submit_with_id,
  submit_request,
}

get-answer :
    (later : ℕ) (id : String) (i : IdempotencyStore) (r : OrderResponse)
    → answer later id i ≡ some r
    → get later id i ≡ (i, some r)
unfolding get
get-answer later id i r e = ground arith

remember-answer :
    (now logged_at later : ℕ) (id : String) (r : OrderResponse) (o : Option String) (s : Service)
    → later ≤ now + 24 * 3_600
    → o ≡ some id
    → answer later id (remember now logged_at o r s).idempotency ≡ some r
remember-answer now logged_at later id r none s le e = absurd (ground arith)
remember-answer now logged_at later id r (some j) s le e =
    ground (arith, answer-store now later j id r 24 s.idempotency, eq_iff j id)

response_in : Answer → Option OrderResponse
response_in (created r) = some r
response_in (replayed r) = none
response_in unprocessable_ticker = none
response_in (unprocessable_order x) = none
response_in (server_error x) = none

created-injective : (r r' : OrderResponse) → created r ≡ created r' → some r ≡ some r'
unfolding response_in
created-injective r r' e = ap response_in e

module _ (now logged_at later : ℕ) (id : String) (r : OrderResponse)
    (in_time : later ≤ now + 24 * 3_600) where
  respond-answer :
      (q : OrderRequest) (o : ℕ) (s : Service) (x : Platform × Reply)
      → q.order_id ≡ some id
      → (respond now logged_at q o s x).1 ≡ created r
      → answer later id (respond now logged_at q o s x).0.idempotency ≡ some r
  respond-answer q o s (p, executed ts) i e =
      remember-answer now logged_at later id (response_of (p.heap o) ts) q.order_id
        (record s { platform = p }) in_time i
      ∙ created-injective (response_of (p.heap o) ts) r e
  respond-answer q o s (p, refused x) i e = absurd (ground arith)
  respond-answer q o s (p, failed x) i e = absurd (ground arith)

  module _ (clock : ℕ → ℕ) (generated : String) (o : ℕ) (q : OrderRequest)
      (named : q.order_id ≡ some id) where
    submit_new-answer :
        (s : Service)
        → (submit_new clock now logged_at generated o q s).1 ≡ created r
        → answer later id (submit_new clock now logged_at generated o q s).0.idempotency ≡ some r
    submit_new-answer s e = ground (
      arith,
      respond-answer q o s
          (consume clock now
            (record s.platform { heap = write s.platform.heap o (order_of q generated now) }) o)
          named,
    )

    submit_known-answer :
        (j : String) (s : Service) (x : IdempotencyStore × Bool)
        → (submit_known clock now logged_at generated o q j s x).1 ≡ created r
        → answer later id (submit_known clock now logged_at generated o q j s x).0.idempotency
          ≡ some r
    submit_known-answer j s (i, true) e = absurd (ground arith)
    submit_known-answer j s (i, false) e = submit_new-answer (record s { idempotency = i }) e

    submit_with_id-answer :
        (j : Option String) (s : Service)
        → (submit_with_id clock now logged_at generated o q s j).1 ≡ created r
        → answer later id (submit_with_id clock now logged_at generated o q s j).0.idempotency
          ≡ some r
    submit_with_id-answer none s e = submit_new-answer s e
    submit_with_id-answer (some j) s e = submit_known-answer j s (has now j s.idempotency) e

    submit_request-answer :
        (s : Service)
        → (submit_request clock now logged_at generated o q s).1 ≡ created r
        → answer later id (submit_request clock now logged_at generated o q s).0.idempotency
          ≡ some r
    unfolding submit_request
    submit_request-answer s e = submit_with_id-answer q.order_id s e

-- A request whose id the store can answer changes nothing.
submit_request-replay :
    (clock : ℕ → ℕ) (later logged_at : ℕ) (generated : String) (o : ℕ) (q : OrderRequest)
    (id : String) (s : Service) (r : OrderResponse)
    → q.order_id ≡ some id
    → answer later id s.idempotency ≡ some r
    → submit_request clock later logged_at generated o q s ≡ (s, replayed (some r))
unfolding submit_request has
submit_request-replay clock later logged_at generated o q id s r named e =
    let found = get-answer later id s.idempotency r e in
    rw (named, found)
      (ap
        (λ (x : IdempotencyStore × Option OrderResponse).
          (record s { idempotency = x.0 }, replayed x.1))
        found)

-- A submission under a client's id was answered with a new order's response. Until 24 hours after
-- it any request under this id, whatever else it asks for, is answered with the same response, and
-- neither the platform nor the store changes.
pub resubmission :
    (clock clock' : ℕ → ℕ) (now logged_at later logged_at' : ℕ) (generated generated' : String)
    (o o' : ℕ) (q q' : OrderRequest) (id : String) (s : Service) (r : OrderResponse)
    → q.order_id ≡ some id
    → q'.order_id ≡ some id
    → later ≤ now + 24 * 3_600
    → (submit_request clock now logged_at generated o q s).1 ≡ created r
    → submit_request clock' later logged_at' generated' o' q'
        (submit_request clock now logged_at generated o q s).0
      ≡ ((submit_request clock now logged_at generated o q s).0, replayed (some r))
resubmission clock clock' now logged_at later logged_at' generated generated' o o' q q' id s r named
      named' le e =
    submit_request-replay clock' later logged_at' generated' o' q' id _ r named'
      (submit_request-answer now logged_at later id r le clock generated o q named s e)
