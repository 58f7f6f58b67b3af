-- ===== src/Engine/Upkeep.antt =====
-- `MatchingEngine.cancel_order` on books in order, whatever the registry says.
use stock_trading_platform.Prelude.{
  ℕ, ◌≡◌, ◌≢◌, refl, ap, sym, ◌∙◌, subst, String, Bool, true, false, Option, none, some, arith, inl,
  inr, Bool-cases, Option-cases, if◌then◌else◌,
}
use stock_trading_platform.Prelude.Dict.{lookup, insert-lookup}
use stock_trading_platform.Events.{Heap}
use stock_trading_platform.OrderBook.Book.{OrderBook, ok, cancel_order}
use stock_trading_platform.OrderBook.Validity.{IsBook}
use stock_trading_platform.OrderBook.Cancel.Outcome.{
  Cancels, cancel_order_outcome, cancel_order-IsBook,
}
use stock_trading_platform.OrderBook.Members.Open.{IsOpen, book-IsOpen}
use stock_trading_platform.OrderBook.Members.Operations.{OnOk}
use stock_trading_platform.Engine.Manager.{
  OrderBookManager, is_supported, put_book, cancel_order_in,
}
use stock_trading_platform.Engine.Matcher.{MatchingEngine, unregister, engine_cancel}
use stock_trading_platform.Engine.Routing.{IsManager}
use stock_trading_platform.Engine.Agreement.Cancellation.{NotIn}
use stock_trading_platform.Engine.Registry.{EveryOrder-map}
use stock_trading_platform.Engine.Registry.Cancellation.{
  CancelOutcome-cases, ticker-cancel_order, put_book-IsManager,
}

-- No book has a reference that is not below the bound.
pub IsManager-NotIn : (h : Heap) (n : ℕ) (m : OrderBookManager) → IsManager h n m → NotIn n m
IsManager-NotIn h n m v t b f =
    EveryOrder-map (IsOpen h n) (λ x. x ≢ n) (λ x a. omega (arith, a.1)) b
      (book-IsOpen h n b (v.books_kept t b f).1)

module _ (h : Heap) (n : ℕ) (e : MatchingEngine) (v : IsManager h n e.manager) (id : String) where
  -- The books stay in order, and the answer False means that nothing was changed.
  abbrev pub Upkeep : Heap × MatchingEngine × Bool → Type 0
  Upkeep z = IsManager z.0 n z.1.manager × (z.2 ≡ false → (z.0 ≡ h) × (z.1 ≡ e))

  module _ (t : String) (r : ℕ) (entry : lookup id e.order_registry ≡ some (t, r)) (b : OrderBook)
      (found : lookup t e.manager.order_books ≡ some b) where
    abbrev c : Heap × OrderBook × Bool
    c = cancel_order h b id

    kept : (b.ticker ≡ t) × IsBook h n b
    kept = v.books_kept t b found

    abbrev after : Heap × MatchingEngine × Bool
    after =
        let e' = record e { manager = put_book e.manager t c.1 } in
        (c.0, (if c.2 then unregister id e' else e'), c.2)

    frame : Cancels h b id c.0 c.1 → (x : ℕ) → (h x).ticker ≢ t → c.0 x ≡ h x
    frame k x ne = k.others x (λ z. ne (ground (arith, k.rested.in_book, kept.0)))

    put_same : put_book e.manager t b ≡ e.manager
    put_same =
        ap (λ d. record e.manager { order_books = d })
          (insert-lookup t b e.manager.order_books found)

    canceled : Cancels h b id c.0 c.1 → IsManager c.0 n (put_book e.manager t c.1)
    canceled k =
        put_book-IsManager h c.0 n e.manager t c.1 v (ticker-cancel_order h b id ∙ kept.0)
          (cancel_order-IsBook h n b id kept.1) (frame k)

    after-Upkeep : Upkeep after
    after-Upkeep = elim (CancelOutcome-cases h b id c (cancel_order_outcome h n b id kept.1)) [
      | inl (s, k) ↦ rw s (canceled k, λ z. absurd (ground arith))
      | inr (s, same_heap, same_book, nothing) ↦
          rw (s, same_heap, same_book, put_same) (v, λ z. (refl, refl))
    ]

    cancel_entry_lem :
        is_supported t e.manager.supported_tickers ≡ true → engine_cancel h e id ≡ ok after
    unfolding engine_cancel cancel_order_in
    cancel_entry_lem known = rw (entry, known, found) refl

  by_entry :
      (x : Option (String × ℕ))
      → lookup id e.order_registry ≡ x
      → OnOk Upkeep (engine_cancel h e id)
  unfolding engine_cancel cancel_order_in
  by_entry none f = rw f (v, λ z. (refl, refl))
  by_entry (some (t, r)) f = elim (Bool-cases (is_supported t e.manager.supported_tickers)) [
    | inl known ↦ elim (Option-cases (lookup t e.manager.order_books)) [
      | inl no_book ↦ rw (f, known, no_book) tt
      | inr (b, found) ↦
          subst (OnOk Upkeep) (sym (cancel_entry_lem t r f b found known))
            (after-Upkeep t r f b found)
    ]
    | inr unknown ↦ rw (f, unknown) (v, λ z. (refl, refl))
  ]

  pub engine_cancel-Upkeep : OnOk Upkeep (engine_cancel h e id)
  engine_cancel-Upkeep = by_entry (lookup id e.order_registry) refl
