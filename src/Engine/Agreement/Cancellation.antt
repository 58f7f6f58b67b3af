-- ===== src/Engine/Agreement/Cancellation.antt =====
-- `MatchingEngine.cancel_order` over two heaps that differ in an order which no book has.
use stock_trading_platform.Prelude.{
  ℕ, ◌≡◌, ◌≢◌, refl, ap, String, Bool, true, false, Option, none, some, List, [], ◌∷◌, All, arith,
  inl, inr, Bool-cases, Option-cases,
}
use stock_trading_platform.Prelude.Dict.{Dict, lookup}
use stock_trading_platform.Events.{Heap}
use stock_trading_platform.OrderBook.Levels.{Levels}
use stock_trading_platform.OrderBook.Book.{
  OrderBook, Result, ok, raise, remove_order, remove_from_levels, set_canceled, cancel_order,
}
use stock_trading_platform.OrderBook.Clock.{SameResult}
use stock_trading_platform.OrderBook.Removal.{Everywhere}
use stock_trading_platform.OrderBook.Members.Operations.{EveryOrder}
use stock_trading_platform.Engine.Manager.{
  OrderBookManager, is_supported, put_book, cancel_in, cancel_order_in,
}
use stock_trading_platform.Engine.Matcher.{
  MatchingEngine, after_cancel, cancel_entry, engine_cancel,
}
use stock_trading_platform.Engine.Agreement.{SameEngine}

-- The two heaps agree but for one reference.
abbrev pub Agree : ℕ → Heap → Heap → Type 0
Agree n h h' = (x : ℕ) → x ≢ n → h' x ≡ h x

module _ (n : ℕ) (h h' : Heap) (same : Agree n h h') (id : String) where
  remove_order-same : (q : List ℕ) → All (λ x. x ≢ n) q → remove_order h' id q ≡ remove_order h id q
  unfolding remove_order
  remove_order-same [] a = refl
  remove_order-same (r ∷ q) a = rw (same r a.0, remove_order-same q a.1) refl

  remove_from_levels-same :
      (ls : Levels)
      → Everywhere (λ x. x ≢ n) ls
      → remove_from_levels h' id ls ≡ remove_from_levels h id ls
  unfolding remove_from_levels
  remove_from_levels-same [] a = refl
  remove_from_levels-same (e ∷ ls) a = elim (Option-cases (remove_order h id e.1)) [
    | inl nothing ↦
        rw (remove_from_levels, remove_order-same e.1 a.0, nothing, remove_from_levels-same ls a.1)
          refl
    | inr (x, found) ↦ rw (remove_from_levels, remove_order-same e.1 a.0, found) refl
  ]

  set_canceled-Agree : (r : ℕ) → Agree n (set_canceled h r) (set_canceled h' r)
  set_canceled-Agree r x ne = ground (arith, same x ne, same r)

  abbrev SameCut : Heap × OrderBook × Bool → Heap × OrderBook × Bool → Type 0
  SameCut x y = Agree n x.0 y.0 × (y.1 ≡ x.1) × (y.2 ≡ x.2)

  cancel_order-SameCut :
      (b : OrderBook)
      → EveryOrder (λ x. x ≢ n) b
      → SameCut (cancel_order h b id) (cancel_order h' b id)
  unfolding cancel_order
  cancel_order-SameCut b a = elim (Option-cases (remove_from_levels h id b.bids)) [
    | inl no_bid ↦ elim (Option-cases (remove_from_levels h id b.asks)) [
      | inl no_ask ↦
          rw
            (
              cancel_order,
              remove_from_levels-same b.bids a.0,
              no_bid,
              remove_from_levels-same b.asks a.1,
              no_ask,
            )
            (same, refl, refl)
      | inr (x, e) ↦
          rw
            (
              cancel_order,
              remove_from_levels-same b.bids a.0,
              no_bid,
              remove_from_levels-same b.asks a.1,
              e,
            )
            (set_canceled-Agree x.0, refl, refl)
    ]
    | inr (x, e) ↦
        rw (cancel_order, remove_from_levels-same b.bids a.0, e)
          (set_canceled-Agree x.0, refl, refl)
  ]

abbrev pub SameCancel : ℕ → Heap × MatchingEngine × Bool → Heap × MatchingEngine × Bool → Type 0
SameCancel n x y = Agree n x.0 y.0 × SameEngine x.1 y.1 × (y.2 ≡ x.2)

-- No order in the manager's books has the reference.
abbrev pub NotIn : ℕ → OrderBookManager → Type 0
NotIn n m =
    (t : String) (b : OrderBook) → lookup t m.order_books ≡ some b → EveryOrder (λ x. x ≢ n) b

module _ (n : ℕ) (h h' : Heap) (same : Agree n h h') (id : String) where
  SameManaged : Heap × OrderBookManager × Bool → Heap × OrderBookManager × Bool → Type 0
  SameManaged x y = Agree n x.0 y.0 × (y.1 ≡ x.1) × (y.2 ≡ x.2)

  cancel_in-same :
      (m : OrderBookManager) (t : String) (b : Option OrderBook)
      → lookup t m.order_books ≡ b
      → NotIn n m
      → SameResult SameManaged (cancel_in h m t id b) (cancel_in h' m t id b)
  unfolding SameManaged
  cancel_in-same m t none f a = refl
  cancel_in-same m t (some b) f a =
      let c = cancel_order-SameCut n h h' same id b (a t b f) in (c.0, ap (put_book m t) c.1, c.2)

  cancel_order_in-same :
      (m : OrderBookManager) (t : String)
      → NotIn n m
      → SameResult SameManaged (cancel_order_in h m t id) (cancel_order_in h' m t id)
  unfolding cancel_order_in SameManaged
  cancel_order_in-same m t a = elim (Bool-cases (is_supported t m.supported_tickers)) [
    | inl known ↦ rw known (cancel_in-same m t (lookup t m.order_books) refl a)
    | inr unknown ↦ rw unknown (same, refl, refl)
  ]

  after_cancel-same :
      (e : MatchingEngine) (times : Dict ℕ) (x y : Result (Heap × OrderBookManager × Bool))
      → SameResult SameManaged x y
      → SameResult
          (SameCancel n)
          (after_cancel id e x)
          (after_cancel id (record e { registry_timestamps = times }) y)
  unfolding SameManaged
  after_cancel-same e times (raise x) (raise y) s = s
  after_cancel-same e times (raise x) (ok y) s = absurd s
  after_cancel-same e times (ok x) (raise y) s = absurd s
  after_cancel-same e times (ok (k, m, true)) (ok (k', m', b)) s =
      rw (s.1, s.2) (s.0, (_, refl), refl)
  after_cancel-same e times (ok (k, m, false)) (ok (k', m', b)) s =
      rw (s.1, s.2) (s.0, (_, refl), refl)

  cancel_entry-same :
      (e : MatchingEngine) (times : Dict ℕ) (x : Option (String × ℕ))
      → NotIn n e.manager
      → SameResult
          (SameCancel n)
          (cancel_entry h e id x)
          (cancel_entry h' (record e { registry_timestamps = times }) id x)
  cancel_entry-same e times none a = (same, (times, refl), refl)
  cancel_entry-same e times (some (t, r)) a =
      after_cancel-same e times (cancel_order_in h e.manager t id)
        (cancel_order_in h' e.manager t id) (cancel_order_in-same e.manager t a)

  pub engine_cancel-SameResult :
      (e f : MatchingEngine)
      → SameEngine e f
      → NotIn n e.manager
      → SameResult (SameCancel n) (engine_cancel h e id) (engine_cancel h' f id)
  unfolding engine_cancel
  engine_cancel-SameResult e f (times, s) a =
      rw s (cancel_entry-same e times (lookup id e.order_registry) a)
