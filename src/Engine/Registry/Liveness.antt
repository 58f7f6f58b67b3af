-- ===== src/Engine/Registry/Liveness.antt =====
-- `MatchingEngine.cancel_order` on an engine in order.
use stock_trading_platform.Prelude.{
  ℕ, ◌≡◌, ◌≢◌, refl, ap, sym, ◌∙◌, subst, String, Bool, true, false, Option, none, some, arith,
  eq_iff, eq_refl, Bool-cases, Option-cases, inl, inr, if◌then◌else◌,
}
use stock_trading_platform.Prelude.Dict.{lookup, erase, lookup-insert, lookup-erase}
use stock_trading_platform.Events.{OrderSide, Heap, canceled}
use stock_trading_platform.OrderBook.Book.{OrderBook, ok, cancel_order}
use stock_trading_platform.OrderBook.Removal.{InLevels, Everywhere-InLevels}
use stock_trading_platform.OrderBook.Validity.{own}
use stock_trading_platform.OrderBook.Cancel.Outcome.{NotThere}
use stock_trading_platform.OrderBook.Members.Operations.{OnOk}
use stock_trading_platform.Engine.Manager.{is_supported, put_book, cancel_order_in}
use stock_trading_platform.Engine.Matcher.{MatchingEngine, unregister, engine_cancel}
use stock_trading_platform.Engine.Registry.{IsEngine, Filed}
use stock_trading_platform.Engine.Registry.Cancellation
use stock_trading_platform.Engine.Registry.Cancellation.{
  Outcomes, put_book-IsManager, EveryOrder-own,
}

module _ (h : Heap) (n : ℕ) (e : MatchingEngine) (v : IsEngine h n e) (id : String) where
  -- The registered order is not in its book any more: nothing is changed.
  put_same-IsEngine :
      (t : String) (b : OrderBook)
      → lookup t e.manager.order_books ≡ some b
      → IsEngine h n (record e { manager = put_book e.manager t b })
  put_same-IsEngine t b f =
      let kept = v.books.books_kept t b f in
      record {
        books = put_book-IsManager h h n e.manager t b v.books kept.0 kept.1 (λ x ne. refl);
        filed = λ t' b' g. v.filed t' b' (
            ground (
              arith,
              f,
              g,
              lookup-insert t t' b e.manager.order_books,
              eq_iff t t',
              ap (λ s. lookup s e.manager.order_books),
            ));
        distinct = v.distinct;
      }

  abbrev pub Keeps : Heap × MatchingEngine × Bool → Type 0
  Keeps z = IsEngine z.0 n z.1

  module _ (t : String) (r : ℕ) (entry : lookup id e.order_registry ≡ some (t, r)) (b : OrderBook)
      (found : lookup t e.manager.order_books ≡ some b) where
    abbrev c : Heap × OrderBook × Bool
    c = Cancellation.c h n e v t r id b entry found

    abbrev after : Heap × MatchingEngine × Bool
    after =
        let e' = record e { manager = put_book e.manager t c.1 } in
        (c.0, (if c.2 then unregister id e' else e'), c.2)

    after-Keeps : Keeps after
    after-Keeps = elim (Cancellation.outcome h n e v t r id b entry found) [
      | inl (s, k) ↦ rw s (Cancellation.canceled-IsEngine h n e v t r id b entry found k)
      | inr (s, same_heap, same_book, nothing) ↦
          rw (s, same_heap, same_book) (put_same-IsEngine t b found)
    ]

    cancel_entry_lem :
        is_supported t e.manager.supported_tickers ≡ true → engine_cancel h e id ≡ ok after
    unfolding engine_cancel cancel_order_in
    cancel_entry_lem known = rw (entry, known, found) refl

  by_entry :
      (x : Option (String × ℕ)) → lookup id e.order_registry ≡ x → OnOk Keeps (engine_cancel h e id)
  unfolding engine_cancel cancel_order_in
  by_entry none f = rw f v
  by_entry (some (t, r)) f = elim (Bool-cases (is_supported t e.manager.supported_tickers)) [
    | inl known ↦ elim (Option-cases (lookup t e.manager.order_books)) [
      | inl no_book ↦ rw (f, known, no_book) tt
      | inr (b, found) ↦
          subst (OnOk Keeps) (sym (cancel_entry_lem t r f b found known))
            (after-Keeps t r f b found)
    ]
    | inr unknown ↦ rw (f, unknown) v
  ]

  -- A cancellation by any id, whatever it answers, leaves the engine in order.
  pub engine_cancel-IsEngine : OnOk Keeps (engine_cancel h e id)
  engine_cancel-IsEngine = by_entry (lookup id e.order_registry) refl

-- An order `r` that rests in the book of ticker `t`.
module _ (h : Heap) (n : ℕ) (e : MatchingEngine) (v : IsEngine h n e) (t : String) (b : OrderBook)
    (known : is_supported t e.manager.supported_tickers ≡ true)
    (found : lookup t e.manager.order_books ≡ some b) (side : OrderSide) (r : ℕ)
    (stands : InLevels r (own side b)) where
  abbrev id : String
  id = (h r).order_id

  entry : lookup id e.order_registry ≡ some (t, r)
  entry =
      Everywhere-InLevels (Filed h e.order_registry t) r (own side b)
        (EveryOrder-own (Filed h e.order_registry t) side b (v.filed t b found)) stands

  there : NotThere h b id → ⊥
  there nothing =
      Everywhere-InLevels (λ x. (h x).order_id ≢ id) r (own side b)
        (EveryOrder-own (λ x. (h x).order_id ≢ id) side b nothing) stands refl

  pub engine_cancel_resting :
      (h' : Heap) × (e' : MatchingEngine) × (engine_cancel h e id ≡ ok (h', e', true))
      × (h' r ≡ record (h r) { status = canceled })
      × ((x : ℕ) → x ≢ r → h' x ≡ h x)
      × IsEngine h' n e'
      × (lookup id e'.order_registry ≡ none)
      × (engine_cancel h' e' id ≡ ok (h', e', false))
  unfolding engine_cancel
  engine_cancel_resting = elim (Cancellation.outcome h n e v t r id b entry found) [
    | inl (s, k) ↦
        let is_r = Cancellation.order-is_r h n e v t r id b entry found k in
        let removed : lookup id (erase id e.order_registry) ≡ none =
          rw (lookup-erase, eq_refl id) refl in
        (
          (Cancellation.c h n e v t r id b entry found).0,
          Cancellation.canceled_engine h n e v t r id b entry found k,
          cancel_entry_lem h n e v id t r entry b found known ∙ rw s refl,
          subst (λ x. (cancel_order h b id).0 x ≡ record (h x) { status = canceled }) is_r k.marked,
          λ x ne. k.others x (λ z. ne (z ∙ is_r)),
          Cancellation.canceled-IsEngine h n e v t r id b entry found k,
          removed,
          rw removed refl,
        )
    | inr (s, same_heap, same_book, nothing) ↦ absurd (there nothing)
  ]
