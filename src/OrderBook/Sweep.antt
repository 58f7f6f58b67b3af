-- ===== src/OrderBook/Sweep.antt =====
-- The outer loop of `_match_buy_order` and `_match_sell_order`: its invariant and its end.
use stock_trading_platform.Prelude.{
  &&-true, ltb→lt, ◌⊎◌, ◌&&◌, ℕ, ◌+◌, ◌≤◌, ◌<◌, ◌≡◌, ◌≢◌, refl, sym, ◌∙◌, String, true, false, Bool,
  List, [], ◌∷◌, All, All-map, arith, ◌==◌, if◌then◌else◌, some, none, Option, length, Keeps,
  while_ends, subst, inl, inr, ltb,
}
use stock_trading_platform.Events.{OrderSide, remaining_quantity, Heap}
use stock_trading_platform.OrderBook.Levels.{Levels, get_queue, put_back, best_price}
use stock_trading_platform.OrderBook.Matching.{
  Fill, Match, fill_queue, match_level, match_order, can_match, can_fill, accepts, accepts_best,
  is_nonempty,
}
use stock_trading_platform.OrderBook.Resting.{
  Rests, IsTracked, across, Stands, terms, open_quantity,
}
use stock_trading_platform.OrderBook.Trades.{
  IsFair, IsFair-terms, traded_quantity, IsNumbered, Precedes, Precedes-trans, ByPrice,
}
use stock_trading_platform.OrderBook.FillQueue.{Filling, fill_queue-Filling}
use stock_trading_platform.OrderBook.Side.{
  IsLevel, HasKey, IsSide, total_quantity, IsSide-get_queue, All-HasKey,
}
use stock_trading_platform.OrderBook.Side.PutBack.{
  IsSide-put_back, total_quantity-put_back, length-put_back, HasKey-put_back,
}
use stock_trading_platform.OrderBook.Best.{IsBest, best_price-IsBest, All-put_back}

can_fill-false :
    (left : ℕ) (q : List ℕ) → ltb 0 left && is_nonempty q ≡ false → (left ≡ 0) ⊎ (q ≡ [])
can_fill-false left [] e = inr refl
can_fill-false left (r ∷ rs) e = inl (ground arith)

module _ (clock : ℕ → ℕ) (ticker : String) (side : OrderSide) (o n : ℕ) (h₀ : Heap) (ls₀ : Levels)
    (before left c₀ : ℕ) where
  pub record Matching (s : Match) : Type 0 where
    pub incoming : IsTracked (s.heap o)
    pub same_terms : (x : ℕ) → terms (s.heap x) ≡ terms (h₀ x)
    pub levels_kept : IsSide s.heap (across ticker side) n s.levels
    pub keys_kept : (k : ℕ) → HasKey k s.levels → HasKey k ls₀
    pub untouched :
        (x : ℕ)
        → x ≢ o
        → ((price : ℕ) → ¬ Stands (across ticker side) price (h₀ x))
        → s.heap x ≡ h₀ x
    pub incoming_filled : (s.heap o).filled_quantity ≡ before + traded_quantity s.trades
    pub conserved : total_quantity s.heap s.levels + traded_quantity s.trades ≡ left
    pub counted : s.trade_counter ≡ c₀ + length s.trades
    pub numbered : IsNumbered c₀ s.trades
    pub fair : All (IsFair ticker side (h₀ o)) s.trades
    pub best_first : All (λ t. All (λ e. Precedes side t.price e.0) s.levels) s.trades
    pub by_price : ByPrice side s.trades

  -- The rounds that the loop has left, at most.
  abbrev pub match_rounds : Match → ℕ
  match_rounds s = length s.levels + (if remaining_quantity (s.heap o) == 0 then 0 else 1)

  pub no_price :
      (s : Match) → best_price side s.levels ≡ none → can_match clock ticker side o s ≡ true → ⊥
  no_price s e g = ground arith

  pub can_match-some :
      (s : Match) (b : ℕ)
      → best_price side s.levels ≡ some b
      → can_match clock ticker side o s ≡ true
      → (0 < remaining_quantity (s.heap o))
        × (accepts side (s.heap o).order_type (s.heap o).price b ≡ true)
  can_match-some s b e g =
      let g' =
        &&-true (ltb 0 (remaining_quantity (s.heap o)))
          (accepts_best side (s.heap o) (best_price side s.levels)) g in
      (ltb→lt _ _ g'.0, subst (λ p. accepts_best side (s.heap o) p ≡ true) e g'.1)

  module _ (fresh : n ≤ o) (s : Match) (m : Matching s) (b : ℕ)
      (e : best_price side s.levels ≡ some b) (more : 0 < remaining_quantity (s.heap o))
      (ok_price : accepts side (s.heap o).order_type (s.heap o).price b ≡ true) where
    best : IsBest side b s.levels
    best = best_price-IsBest side s.levels b e

    level : IsLevel s.heap (across ticker side) n (b, get_queue b s.levels)
    level = IsSide-get_queue s.heap (across ticker side) n b s.levels best.present m.levels_kept

    abbrev pub start : Fill
    start = record {
      heap = s.heap;
      queue = get_queue b s.levels;
      trade_counter = s.trade_counter;
      trades = s.trades;
    }

    abbrev pub done : Fill
    done = fill_queue clock ticker side o b start

    abbrev pub queue_left : ℕ
    queue_left = open_quantity s.heap (get_queue b s.levels) + traded_quantity s.trades

    same_incoming : terms (s.heap o) ≡ terms (h₀ o)
    same_incoming = m.same_terms o

    pub start-Filling : Filling clock ticker side o b n s.heap before queue_left c₀ start
    start-Filling = record {
      incoming = m.incoming;
      same_terms = λ x. refl;
      ordered = level.ordered;
      resting = level.resting;
      untouched = λ x ne stays. refl;
      incoming_filled = m.incoming_filled;
      conserved = refl;
      counted = m.counted;
      numbered = m.numbered;
      fair =
          All-map (λ t. IsFair-terms ticker side (h₀ o) (s.heap o) t (sym same_incoming)) s.trades
            m.fair;
      no_worse =
          All-map (λ t a. All-HasKey (Precedes side t.price) b s.levels a best.present) s.trades
            m.best_first;
      by_price = m.by_price;
    }

    pub filled :
        Filling clock ticker side o b n s.heap before queue_left c₀ done
        × (can_fill clock ticker side o b done ≡ false)
    filled =
        fill_queue-Filling clock ticker side o b n s.heap before queue_left c₀ fresh ok_price start
          start-Filling

    -- Orders at other prices stay as they are.
    pub frame :
        (x price : ℕ)
        → price ≢ b
        → x < n
        → Rests s.heap (across ticker side) price x
        → done.heap x ≡ s.heap x
    frame x price ne l t =
        filled.0.untouched x (omega arith) (λ st. ne (ground (arith, t.at_price, st.2)))

    next_same : (x : ℕ) → terms (done.heap x) ≡ terms (h₀ x)
    next_same x = filled.0.same_terms x ∙ m.same_terms x

    next_untouched :
        (x : ℕ)
        → x ≢ o
        → ((price : ℕ) → ¬ Stands (across ticker side) price (h₀ x))
        → done.heap x ≡ h₀ x
    next_untouched x ne stays =
        filled.0.untouched x ne (λ st. stays b (ground (arith, m.same_terms x, st)))
        ∙ m.untouched x ne stays

    next_conserved :
        total_quantity done.heap (put_back b done.queue s.levels) + traded_quantity done.trades
        ≡ left
    next_conserved = omega (
      arith,
      m.conserved,
      filled.0.conserved,
      total_quantity-put_back s.heap done.heap (across ticker side) n b done.queue frame done.queue
          s.levels refl best.present m.levels_kept,
    )

    pub match_level-Matching : Matching (match_level clock ticker side o s (some b))
    unfolding match_level
    match_level-Matching = record {
      incoming = filled.0.incoming;
      same_terms = next_same;
      levels_kept =
          IsSide-put_back s.heap done.heap (across ticker side) n b done.queue frame done.queue
            s.levels refl best.present filled.0.ordered filled.0.resting m.levels_kept;
      keys_kept = λ k a. m.keys_kept k (HasKey-put_back b k done.queue s.levels a);
      untouched = next_untouched;
      incoming_filled = filled.0.incoming_filled;
      conserved = next_conserved;
      counted = filled.0.counted;
      numbered = filled.0.numbered;
      fair =
          All-map (λ t. IsFair-terms ticker side (s.heap o) (h₀ o) t same_incoming) done.trades
            filled.0.fair;
      best_first =
          All-map
            (λ t a.
              All-put_back (Precedes side t.price) b done.queue s.levels
                (All-map (λ x. Precedes-trans side t.price b x.0 a) s.levels best.first))
            done.trades filled.0.no_worse;
      by_price = filled.0.by_price;
    }

    -- The round empties the incoming order or deletes the level.
    pub match_level-lower :
        match_rounds (match_level clock ticker side o s (some b)) < match_rounds s
    unfolding match_level
    match_level-lower = ground (
      arith,
      can_fill-false (remaining_quantity (done.heap o)) done.queue filled.1,
      length-put_back b done.queue s.levels best.present,
    )

  module _ (fresh : n ≤ o) where
    abbrev pub guard : Match → Bool
    guard = can_match clock ticker side o

    pub round :
        (s : Match) (p : Option ℕ)
        → best_price side s.levels ≡ p
        → Matching s
        → guard s ≡ true
        → Matching (match_level clock ticker side o s p)
          × (match_rounds (match_level clock ticker side o s p) < match_rounds s)
    round s none e m g = absurd (no_price s e g)
    round s (some b) e m g =
        let t = can_match-some s b e g in
        (match_level-Matching fresh s m b e t.0 t.1, match_level-lower fresh s m b e t.0 t.1)

    Matching-Keeps :
        Keeps Matching match_rounds guard
          (λ s. match_level clock ticker side o s (best_price side s.levels))
    Matching-Keeps = record {
      kept = λ s m g. (round s (best_price side s.levels) refl m g).0;
      lower = λ s m g. (round s (best_price side s.levels) refl m g).1;
    }

    -- The outer loop ends by its own tests, and keeps the invariant.
    pub match_order-Matching :
        (s : Match)
        → Matching s
        → Matching (match_order clock ticker side o s)
          × (guard (match_order clock ticker side o s) ≡ false)
    unfolding match_order
    match_order-Matching s m = while_ends Matching-Keeps (length s.levels + 2) s (ground arith) m
