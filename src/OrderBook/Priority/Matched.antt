-- ===== src/OrderBook/Priority/Matched.antt =====
-- The end of matching against the specification.
use stock_trading_platform.Prelude.{
  ℕ, ◌+◌, ◌≤◌, ◌<◌, ◌≡◌, refl, ap, sym, ◌∙◌, String, Bool, true, false, ltb, Option, none, some, [],
  map, append-nil, arith, Bool-cases, inl, inr, Option-cases, length, Keeps, while_ends,
}
use stock_trading_platform.Events.{OrderSide, remaining_quantity, Heap}
use stock_trading_platform.OrderBook.Levels.{Levels, get_queue, del_level, best_price}
use stock_trading_platform.OrderBook.Matching.{Match, match_level, match_order, can_match, accepts}
use stock_trading_platform.OrderBook.Resting.{across}
use stock_trading_platform.OrderBook.Side.{IsSide-get_queue}
use stock_trading_platform.OrderBook.Best.{best_price-IsBest, best_price-none}
use stock_trading_platform.OrderBook.Sweep
use stock_trading_platform.OrderBook.Priority.{
  Allocation, allocate, after_deals, deal_of, level_offers, sort_levels, offers_by_priority,
}
use stock_trading_platform.OrderBook.Priority.Queue.{allocate-nothing}
use stock_trading_platform.OrderBook.Priority.Sweeping
use stock_trading_platform.OrderBook.Priority.Sweeping.{allocate-stop, offers-best}

no_offers : (side : OrderSide) (h : Heap) → offers_by_priority side h [] ≡ []
unfolding offers_by_priority
no_offers side h = refl

module _ (clock : ℕ → ℕ) (ticker : String) (side : OrderSide) (o n : ℕ) (h₀ : Heap) (ls₀ : Levels)
    (before left c₀ : ℕ) (ok : ℕ → Bool) (total : Allocation) (fresh : n ≤ o)
    (agrees : (p : ℕ) → accepts side (h₀ o).order_type (h₀ o).price p ≡ ok p) where
  abbrev IsMatching : Match → Type 0
  IsMatching = Sweeping.IsMatching clock ticker side o n h₀ ls₀ before left c₀ ok total fresh agrees

  abbrev Allocates : Match → Type 0
  Allocates = Sweeping.Allocates clock ticker side o n h₀ ls₀ before left c₀ ok total fresh agrees

  abbrev rounds : Match → ℕ
  rounds = Sweep.match_rounds clock ticker side o n h₀ ls₀ before left c₀

  abbrev IsRound : Match → Type 0
  IsRound s = IsMatching s × Allocates s

  round :
      (s : Match) (p : Option ℕ)
      → best_price side s.levels ≡ p
      → IsRound s
      → can_match clock ticker side o s ≡ true
      → IsRound (match_level clock ticker side o s p)
        × (rounds (match_level clock ticker side o s p) < rounds s)
  round s none e m g = absurd (Sweep.no_price clock ticker side o n h₀ ls₀ before left c₀ s e g)
  round s (some b) e m g =
      let t = Sweep.can_match-some clock ticker side o n h₀ ls₀ before left c₀ s b e g in
      (
        (
          Sweep.match_level-Matching clock ticker side o n h₀ ls₀ before left c₀ fresh s m.0 b e t.0
              t.1,
          Sweeping.match_level-Allocates clock ticker side o n h₀ ls₀ before left c₀ ok total fresh
              agrees s m.0 b e t.0 t.1 m.1,
        ),
        Sweep.match_level-lower clock ticker side o n h₀ ls₀ before left c₀ fresh s m.0 b e t.0 t.1,
      )

  IsRound-Keeps :
      Keeps IsRound rounds
        (can_match clock ticker side o)
        (λ s. match_level clock ticker side o s (best_price side s.levels))
  IsRound-Keeps = record {
    kept = λ s m g. (round s (best_price side s.levels) refl m g).0;
    lower = λ s m g. (round s (best_price side s.levels) refl m g).1;
  }

  -- A state that the outer loop stops in is one where the specification takes nothing more.
  module _ (s : Match) (m : IsMatching s) (stop : can_match clock ticker side o s ≡ false) where
    abbrev left_over : Allocation
    left_over = record {
      deals = [];
      unfilled = remaining_quantity (s.heap o);
      offers = offers_by_priority side s.heap s.levels;
    }

    stops_at_price :
        0 < remaining_quantity (s.heap o)
        → allocate ok (remaining_quantity (s.heap o)) (offers_by_priority side s.heap s.levels)
          ≡ left_over
    unfolding allocate
    stops_at_price more = elim (Option-cases (best_price side s.levels)) [
      | inl e ↦ rw (best_price-none side s.levels e, no_offers side s.heap) refl
      | inr (b, e) ↦
          let best = best_price-IsBest side s.levels b e in
          rw (offers-best side s.heap b s.levels best) (
            allocate-stop ok (remaining_quantity (s.heap o)) b s.heap (get_queue b s.levels)
              (level_offers s.heap (sort_levels side (del_level b s.levels)))
              (ground (
                arith,
                Sweeping.agrees_now clock ticker side o n h₀ ls₀ before left c₀ ok total fresh
                    agrees s m b,
              ))
              (IsSide-get_queue s.heap (across ticker side) n b s.levels best.present
                m.levels_kept).nonempty)
    ]

    stops :
        allocate ok (remaining_quantity (s.heap o)) (offers_by_priority side s.heap s.levels)
        ≡ left_over
    stops = elim (Bool-cases (ltb 0 (remaining_quantity (s.heap o)))) [
      | inl more ↦ stops_at_price (ground arith)
      | inr filled ↦
          let e : remaining_quantity (s.heap o) ≡ 0 = ground arith in
          allocate-nothing ok (remaining_quantity (s.heap o))
            (offers_by_priority side s.heap s.levels) e
          ∙ rw e refl
    ]

    allocated : Allocates s → record left_over { deals = map (deal_of side) s.trades } ≡ total
    allocated a =
        sym (
          ap (after_deals (map (deal_of side) s.trades)) stops
          ∙ ap (λ d. record left_over { deals = d }) (append-nil (map (deal_of side) s.trades)))
        ∙ a

  pub match_order-allocated :
      (s : Match)
      → IsMatching s
      → Allocates s
      → record {
        deals = map (deal_of side) (match_order clock ticker side o s).trades;
        unfilled = remaining_quantity ((match_order clock ticker side o s).heap o);
        offers =
            offers_by_priority side
              (match_order clock ticker side o s).heap
              (match_order clock ticker side o s).levels;
      }
        ≡ total
  unfolding match_order
  match_order-allocated s m a =
      let e = while_ends IsRound-Keeps (length s.levels + 2) s (ground arith) (m, a) in
      allocated (match_order clock ticker side o s) e.0.0 e.1 e.0.1
