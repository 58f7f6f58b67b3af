-- ===== src/Engine/Registry/Sequences.antt =====
-- A `MatchingEngine` in use: submissions, cancellations and evictions in any order.
use stock_trading_platform.Prelude.{
  ℕ, suc, ◌≡◌, ◌≢◌, refl, sym, ◌∙◌, subst, String, Bool, true, false, none, some, List, [], ◌∷◌,
  arith, inl, inr,
}
use stock_trading_platform.Prelude.Dict.{lookup}
use stock_trading_platform.Events.{OrderSide, Order, Heap, is_complete, canceled, write}
use stock_trading_platform.OrderBook.Book.{OrderBook, ok}
use stock_trading_platform.OrderBook.Removal.{InLevels}
use stock_trading_platform.OrderBook.Validity.{own}
use stock_trading_platform.OrderBook.Members.Open.{IsOpen, book-IsOpen}
use stock_trading_platform.OrderBook.Members.Operations.{OnOk}
use stock_trading_platform.Engine.Manager.{OrderBookManager, is_supported, init_manager}
use stock_trading_platform.Engine.Matcher.{
  MatchingEngine, EngineOutcome, init_engine, unregister_all, unregister, to_evict, engine_submit,
  engine_cancel, evict_stale_registry,
}
use stock_trading_platform.Engine.Routing.{IsSubmittable, IsManager-frame}
use stock_trading_platform.Engine.Initial.{init_manager-IsManager, lookup-make_books}
use stock_trading_platform.Engine.Eviction.{
  IsDistinct, lookup-evict_stale_registry, unregister_all-manager,
}
use stock_trading_platform.Engine.Registry.{
  IsEngine, Filed, EveryOrder-map, EveryOrder-zip, IsDistinct-erase,
}
use stock_trading_platform.Engine.Registry.Submission.{engine_submit-IsEngine}
use stock_trading_platform.Engine.Registry.Liveness.{engine_cancel-IsEngine, engine_cancel_resting}

-- `next` is the reference for the next new order.
pub record Running : Type 0 where
  pub heap : Heap
  pub next : ℕ
  pub engine : MatchingEngine

-- A call of the engine's. A new order is well-formed, for a supported ticker, and its id is not
-- registered.
pub data Call : Running → Running → Type 0 where
  submits :
      {s : Running} (clock : ℕ → ℕ) (now : ℕ) (x : Order) (r : EngineOutcome)
      → IsSubmittable x
      → is_supported x.ticker s.engine.manager.supported_tickers ≡ true
      → lookup x.order_id s.engine.order_registry ≡ none
      → engine_submit clock now (write s.heap s.next x) s.engine s.next ≡ ok r
      → Call s (record { heap = r.heap; next = suc s.next; engine = r.engine })
  cancels :
      {s : Running} (id : String) (h : Heap) (e : MatchingEngine) (success : Bool)
      → engine_cancel s.heap s.engine id ≡ ok (h, e, success)
      → Call s (record { heap = h; next = s.next; engine = e })
  evicts :
      {s : Running} (now ttl : ℕ)
      → Call s (record s { engine = (evict_stale_registry now ttl s.heap s.engine).0 })

pub data Calls (s : Running) : Running → Type 0 where
  none_yet : Calls s s
  then_call : {t u : Running} → Calls s t → Call t u → Calls s u

abbrev InOrder : Running → Type 0
InOrder s = IsEngine s.heap s.next s.engine

write-IsEngine :
    (h : Heap) (n : ℕ) (x : Order) (e : MatchingEngine)
    → IsEngine h n e
    → IsEngine (write h n x) n e
write-IsEngine h n x e v = record {
  books = IsManager-frame h n n n x e.manager (omega arith) (omega arith) v.books;
  filed = λ t b f.
      EveryOrder-map (λ y. Filed h e.order_registry t y × IsOpen h n y)
        (Filed (write h n x) e.order_registry t) (λ y z. ground (arith, z)) b
        (EveryOrder-zip (Filed h e.order_registry t) (IsOpen h n) b (v.filed t b f)
          (book-IsOpen h n b (v.books.books_kept t b f).1));
  distinct = v.distinct;
}

IsDistinct-unregister_all :
    (ids : List String) (e : MatchingEngine)
    → IsDistinct e.order_registry
    → IsDistinct (unregister_all ids e).order_registry
unfolding unregister_all
IsDistinct-unregister_all [] e w = w
IsDistinct-unregister_all (j ∷ ids) e w =
    IsDistinct-unregister_all ids (unregister j e) (IsDistinct-erase j e.order_registry w)

-- An open order is not evicted.
stays-Filed :
    (now ttl : ℕ) (h : Heap) (n : ℕ) (e : MatchingEngine) (v : IsEngine h n e) (t : String) (x : ℕ)
    → Filed h e.order_registry t x
    → is_complete (h x) ≡ false
    → Filed h (evict_stale_registry now ttl h e).0.order_registry t x
stays-Filed now ttl h n e v t x f o =
    (lookup-evict_stale_registry now ttl h e (h x).order_id v.distinct).0 ∙ rw (f, o) refl

evict-IsEngine :
    (now ttl : ℕ) (h : Heap) (n : ℕ) (e : MatchingEngine)
    → IsEngine h n e
    → IsEngine h n (evict_stale_registry now ttl h e).0
unfolding evict_stale_registry
evict-IsEngine now ttl h n e v =
    let same =
      unregister_all-manager (to_evict now ttl h e.registry_timestamps e.order_registry) e in
    record {
      books = rw same v.books;
      filed = λ t b f.
          let f' : lookup t e.manager.order_books ≡ some b =
            subst (λ (m : OrderBookManager). lookup t m.order_books ≡ some b) same f in
          EveryOrder-map (λ y. Filed h e.order_registry t y × IsOpen h n y)
            (Filed h (evict_stale_registry now ttl h e).0.order_registry t)
            (λ y z. stays-Filed now ttl h n e v t y z.0 z.1.0) b
            (EveryOrder-zip (Filed h e.order_registry t) (IsOpen h n) b (v.filed t b f')
              (book-IsOpen h n b (v.books.books_kept t b f').1));
      distinct =
          IsDistinct-unregister_all (to_evict now ttl h e.registry_timestamps e.order_registry) e
            v.distinct;
    }

init-IsEngine : (ts : List String) (h : Heap) (n : ℕ) → IsEngine h n (init_engine ts)
unfolding init_engine init_manager lookup
init-IsEngine ts h n = record {
  books = init_manager-IsManager ts h n;
  filed = λ t b f. elim (lookup-make_books t b ts [] f) [
    | inl same ↦ rw same (tt, tt)
    | inr old ↦ absurd (ground arith)
  ];
  distinct = tt;
}

Call-InOrder : {s t : Running} → Call s t → InOrder s → InOrder t
Call-InOrder {s} (submits clock now x r good known new_id ran) v =
    let h : Heap = write s.heap s.next x in
    let written : h s.next ≡ x = ground arith in
    let done =
      engine_submit-IsEngine clock now h s.next s.engine s.next
        (write-IsEngine s.heap s.next x s.engine v) (omega arith)
        (subst IsSubmittable (sym written) good)
        (subst (λ (y : Order). is_supported y.ticker s.engine.manager.supported_tickers ≡ true)
          (sym written) known)
        (subst (λ (y : Order). lookup y.order_id s.engine.order_registry ≡ none) (sym written)
          new_id) in
    subst (OnOk (λ (z : EngineOutcome). IsEngine z.heap (suc s.next) z.engine)) (sym done.1 ∙ ran)
      done.2
Call-InOrder {s} (cancels id h e success ran) v =
    subst (OnOk (λ z. IsEngine z.0 s.next z.1)) ran
      (engine_cancel-IsEngine s.heap s.next s.engine v id)
Call-InOrder {s} (evicts now ttl) v = evict-IsEngine now ttl s.heap s.next s.engine v

Calls-InOrder : {s t : Running} → Calls s t → InOrder s → InOrder t
Calls-InOrder none_yet v = v
Calls-InOrder (then_call before call) v = Call-InOrder call (Calls-InOrder before v)

abbrev pub new_engine : List String → Heap → Running
new_engine ts h = record { heap = h; next = 0; engine = init_engine ts }

-- From a new engine on, whatever well-formed orders with new ids are submitted, whatever is
-- cancelled and whenever the registry is cleared of old entries, the engine stays in order: the
-- books of all tickers are well-formed, each order that rests in a book is registered under its id
-- with its ticker, and no id is registered twice.
pub Calls-IsEngine :
    (ts : List String) (h : Heap) (s : Running)
    → Calls (new_engine ts h) s
    → IsEngine s.heap s.next s.engine
Calls-IsEngine ts h s cs = Calls-InOrder cs (init-IsEngine ts h 0)

-- After any such calls, an order that rests in the book of a supported ticker can be cancelled by
-- its id: the answer is True, the order is marked CANCELED and no other order changes. Then its id
-- is not registered any more, and a second cancellation answers False and changes nothing.
pub resting_order_cancels :
    (ts : List String) (h : Heap) (s : Running) (t : String) (b : OrderBook) (side : OrderSide)
    (r : ℕ)
    → Calls (new_engine ts h) s
    → is_supported t s.engine.manager.supported_tickers ≡ true
    → lookup t s.engine.manager.order_books ≡ some b
    → InLevels r (own side b)
    → (h' : Heap) × (e' : MatchingEngine) × (engine_cancel s.heap s.engine (s.heap r).order_id
        ≡ ok (h', e', true))
      × (h' r ≡ record (s.heap r) { status = canceled })
      × ((x : ℕ) → x ≢ r → h' x ≡ s.heap x)
      × (lookup (s.heap r).order_id e'.order_registry ≡ none)
      × (engine_cancel h' e' (s.heap r).order_id ≡ ok (h', e', false))
resting_order_cancels ts h s t b side r cs known found stands =
    let (h', e', ran, marked, others, kept, gone, again) =
      engine_cancel_resting s.heap s.next s.engine (Calls-IsEngine ts h s cs) t b known found side r
        stands in
    (h', e', ran, marked, others, gone, again)
