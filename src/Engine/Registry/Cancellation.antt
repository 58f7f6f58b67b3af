-- ===== src/Engine/Registry/Cancellation.antt =====
-- `MatchingEngine.cancel_order` and the registry.
use stock_trading_platform.Prelude.{
  ◌==◌, ◌⊎◌, ℕ, ◌≡◌, ◌≢◌, refl, sym, ◌∙◌, subst, String, Bool, true, false, some, arith, str_eq,
  eq_iff, Bool-cases, inl, inr,
}
use stock_trading_platform.Prelude.Dict.{lookup, erase, lookup-insert, lookup-erase}
use stock_trading_platform.Events.{OrderSide, buy, sell, Heap}
use stock_trading_platform.OrderBook.Book.{OrderBook, cancel_order}
use stock_trading_platform.OrderBook.Removal.{Everywhere, Everywhere-InLevels}
use stock_trading_platform.OrderBook.Validity.{IsBook, own}
use stock_trading_platform.OrderBook.Cancel.Outcome.{
  cancel_order_cases, Cancels, CancelOutcome, NotThere, cancel_order_outcome, cancel_order-IsBook,
}
use stock_trading_platform.OrderBook.Members.Operations.{EveryOrder, cancel_order-EveryOrder}
use stock_trading_platform.Engine.Manager.{OrderBookManager, put_book}
use stock_trading_platform.Engine.Matcher.{MatchingEngine, unregister}
use stock_trading_platform.Engine.Routing.{IsManager, IsBook-frame}
use stock_trading_platform.Engine.Registry.{
  IsEngine, Filed, EveryOrder-map, EveryOrder-zip, IsDistinct-erase,
}

pub EveryOrder-own :
    (P : ℕ → Type 0) (side : OrderSide) (b : OrderBook) → EveryOrder P b → Everywhere P (own side b)
EveryOrder-own P buy b a = a.0
EveryOrder-own P sell b a = a.1

pub ticker-cancel_order :
    (h : Heap) (b : OrderBook) (id : String) → (cancel_order h b id).1.ticker ≡ b.ticker
ticker-cancel_order h b id =
    cancel_order_cases (λ z. z.1.ticker ≡ b.ticker) h b id (λ x e. refl) (λ x e. refl)
      (λ no_bid no_ask. refl)

-- The two outcomes, by the Boolean.
abbrev pub Outcomes : Heap → OrderBook → String → Heap × OrderBook × Bool → Type 0
Outcomes h b id c =
    ((c.2 ≡ true) × Cancels h b id c.0 c.1)
    ⊎ ((c.2 ≡ false) × (c.0 ≡ h) × (c.1 ≡ b) × NotThere h b id)

pub CancelOutcome-cases :
    (h : Heap) (b : OrderBook) (id : String) (c : Heap × OrderBook × Bool)
    → CancelOutcome h b id c
    → Outcomes h b id c
CancelOutcome-cases h b id (h', b', true) o = inl (refl, o)
CancelOutcome-cases h b id (h', b', false) o = inr (refl, o.0, o.1, o.2)

-- The book of one ticker is replaced, with a change of this ticker's orders only.
module _ (h h' : Heap) (n : ℕ) (m : OrderBookManager) (t : String) (b' : OrderBook)
    (v : IsManager h n m) (here : b'.ticker ≡ t) (kept : IsBook h' n b')
    (frame : (x : ℕ) → (h x).ticker ≢ t → h' x ≡ h x) where
  replaced :
      (t' : String) (c : OrderBook)
      → lookup t' (put_book m t b').order_books ≡ some c
      → (c.ticker ≡ t') × IsBook h' n c
  replaced t' c f = elim (Bool-cases (str_eq t t')) [
    | inl same ↦
        let is_new = b' ≡ c in
        let new : is_new = ground (arith, lookup-insert t t' b' m.order_books) in
        subst (λ (d : OrderBook). (d.ticker ≡ t') × IsBook h' n d) new
          (here ∙ (eq_iff t t').0 same, kept)
    | inr differs ↦
        let ne : t' ≢ t = ground (arith, eq_iff t t') in
        let old = v.books_kept t' c (ground (arith, lookup-insert t t' b' m.order_books)) in
        (
          old.0,
          IsBook-frame h h' n n c (omega arith)
              (λ x l q. frame x (λ z. ne (sym (sym z ∙ q ∙ old.0)))) old.1,
        )
  ]

  pub put_book-IsManager : IsManager h' n (put_book m t b')
  put_book-IsManager = record {
    books_kept = replaced;
    all_supported = λ t' s. elim (Bool-cases (str_eq t t')) [
      | inl same ↦ (b', ground (arith, lookup-insert t t' b' m.order_books))
      | inr differs ↦
          let (c, e) = v.all_supported t' s in
          (c, ground (arith, lookup-insert t t' b' m.order_books))
    ];
  }

-- A cancellation in the book of ticker `t`, whose registered order is `r`.
module _ (h : Heap) (n : ℕ) (e : MatchingEngine) (v : IsEngine h n e) (t : String) (r : ℕ)
    (id : String) (b : OrderBook) (entry : lookup id e.order_registry ≡ some (t, r))
    (found : lookup t e.manager.order_books ≡ some b) where
  abbrev pub c : Heap × OrderBook × Bool
  c = cancel_order h b id

  pub kept : (b.ticker ≡ t) × IsBook h n b
  kept = v.books.books_kept t b found

  pub outcome : Outcomes h b id c
  outcome = CancelOutcome-cases h b id c (cancel_order_outcome h n b id kept.1)

  -- Only the registered order has the id.
  is_r :
      (t' : String) (x : ℕ)
      → Filed h e.order_registry t' x
      → (h x).order_id ≡ id
      → (t' ≡ t) × (x ≡ r)
  is_r t' x f same = let g = rw same at f in (ground (arith, entry, g), ground (arith, entry, g))

  module _ (k : Cancels h b id c.0 c.1) where
    pub order-is_r : k.order ≡ r
    order-is_r =
        (is_r t k.order
          (Everywhere-InLevels (Filed h e.order_registry t) k.order (own k.side b)
            (EveryOrder-own (Filed h e.order_registry t) k.side b (v.filed t b found)) k.stood)
          k.by_id).1

    same_id : (x : ℕ) → (c.0 x).order_id ≡ (h x).order_id
    same_id x = elim (Bool-cases (x == k.order)) [
      | inl it ↦ ground (arith, it, k.marked)
      | inr other ↦ ground (arith, k.others x)
    ]

    frame : (x : ℕ) → (h x).ticker ≢ t → c.0 x ≡ h x
    frame x ne = k.others x (λ z. ne (ground (arith, k.rested.in_book, kept.0)))

    -- The orders that are still there have other ids.
    left-Filed :
        (t' : String) (x : ℕ)
        → Filed h e.order_registry t' x
        → (t' ≢ t) ⊎ (x ≢ k.order)
        → Filed c.0 (erase id e.order_registry) t' x
    left-Filed t' x f other =
        let ne : (h x).order_id ≢ id = λ z. elim other [
          | inl a ↦ a (is_r t' x f z).0
          | inr a ↦ a ((is_r t' x f z).1 ∙ sym order-is_r)
        ] in
        rw (same_id x, lookup-erase) (ground (arith, f, eq_iff id (h x).order_id))

    left_in_book : EveryOrder (Filed c.0 (erase id e.order_registry) t) c.1
    left_in_book =
        let P : ℕ → Type 0 = Filed h e.order_registry t in
        let a = cancel_order-EveryOrder P h b id (v.filed t b found) in
        EveryOrder-map (λ x. P x × (x ≢ k.order)) (Filed c.0 (erase id e.order_registry) t)
          (λ x z. left-Filed t x z.0 (inr z.1)) c.1
          (EveryOrder-zip P (λ x. x ≢ k.order) c.1 a (k.gone_from_bids, k.gone_from_asks))

    left_in_books :
        (t' : String) (b' : OrderBook)
        → lookup t' (put_book e.manager t c.1).order_books ≡ some b'
        → EveryOrder (Filed c.0 (erase id e.order_registry) t') b'
    left_in_books t' b' f = elim (Bool-cases (str_eq t t')) [
      | inl same ↦
          let is_new = c.1 ≡ b' in
          let new : is_new = ground (arith, lookup-insert t t' c.1 e.manager.order_books) in
          subst (λ (s : String). EveryOrder (Filed c.0 (erase id e.order_registry) s) b')
            ((eq_iff t t').0 same)
            (subst (EveryOrder (Filed c.0 (erase id e.order_registry) t)) new left_in_book)
      | inr differs ↦
          let ne : t' ≢ t = ground (arith, eq_iff t t') in
          EveryOrder-map (Filed h e.order_registry t') (Filed c.0 (erase id e.order_registry) t')
            (λ x z. left-Filed t' x z (inl ne)) b'
            (v.filed t' b' (ground (arith, lookup-insert t t' c.1 e.manager.order_books)))
    ]

    abbrev pub canceled_engine : MatchingEngine
    canceled_engine = unregister id (record e { manager = put_book e.manager t c.1 })

    pub canceled-IsEngine : IsEngine c.0 n canceled_engine
    canceled-IsEngine = record {
      books =
          put_book-IsManager h c.0 n e.manager t c.1 v.books (ticker-cancel_order h b id ∙ kept.0)
            (cancel_order-IsBook h n b id kept.1) frame;
      filed = left_in_books;
      distinct = IsDistinct-erase id e.order_registry v.distinct;
    }
