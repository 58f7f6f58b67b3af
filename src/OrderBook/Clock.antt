-- ===== src/OrderBook/Clock.antt =====
-- The clock writes the time of a trade, and nothing else depends on it.
use stock_trading_platform.Prelude.{
  ℕ, ◌+◌, ◌≡◌, refl, String, not, ◌&&◌, Option, none, some, List, [], ◌∷◌, ltb, if◌then◌else◌, inl,
  inr, Bool-cases, length, while-related, str_eq,
}
use stock_trading_platform.Events.{
  OrderSide, buy, sell, OrderType, limit, market, Trade, Heap, remaining_quantity, is_complete,
}
use stock_trading_platform.OrderBook.Levels.{get_queue, best_price}
use stock_trading_platform.OrderBook.Matching.{
  Fill, Match, fill_head, fill_queue, can_fill, match_level, match_order, can_match,
}
use stock_trading_platform.OrderBook.Book.{
  OrderBook, Outcome, Result, ok, raise, match_side, match_buy_order, match_sell_order,
  rest_remainder, reject_remainder, add_priced, add_limit_order, execute_market_order,
  assertion_error,
}

-- The same but for the trades.
abbrev SameFill : Fill → Fill → Type 0
SameFill s t = (ts : List Trade) × (t ≡ record s { trades = ts })

abbrev SameMatch : Match → Match → Type 0
SameMatch s t = (ts : List Trade) × (t ≡ record s { trades = ts })

abbrev pub SameOutcome : Outcome → Outcome → Type 0
SameOutcome s t = (ts : List Trade) × (t ≡ record s { trades = ts })

abbrev pub SameResult : {A : Type 0} → (A → A → Type 0) → Result A → Result A → Type 0
SameResult R (ok a) (ok b) = R a b
SameResult R (raise e) (raise f) = e ≡ f
SameResult R (ok a) (raise f) = ⊥
SameResult R (raise e) (ok b) = ⊥

module _ (clock clock' : ℕ → ℕ) (ticker : String) (side : OrderSide) (o : ℕ) where
  fill_head-SameFill :
      (price : ℕ) (s : Fill) (ts : List Trade) (q : List ℕ)
      → SameFill
          (fill_head clock ticker side o price s q)
          (fill_head clock' ticker side o price (record s { trades = ts }) q)
  unfolding fill_head
  fill_head-SameFill price s ts [] = (ts, refl)
  fill_head-SameFill price s ts (r ∷ rs) = (_, refl)

  fill_round :
      (price : ℕ) (s t : Fill)
      → SameFill s t
      → SameFill
          (fill_head clock ticker side o price s s.queue)
          (fill_head clock' ticker side o price t t.queue)
  fill_round price s t (ts, e) = rw e (fill_head-SameFill price s ts s.queue)

  fill_queue-SameFill :
      (price : ℕ) (s t : Fill)
      → SameFill s t
      → SameFill (fill_queue clock ticker side o price s) (fill_queue clock' ticker side o price t)
  unfolding fill_queue
  fill_queue-SameFill price s t (ts, e) = rw e (
      while-related SameFill (can_fill clock ticker side o price)
        (λ s. fill_head clock ticker side o price s s.queue) (can_fill clock' ticker side o price)
        (λ s. fill_head clock' ticker side o price s s.queue) (λ s t r. rw r.1 refl)
        (fill_round price) (length s.queue + 2) s (record s { trades = ts }) (ts, refl))

  match_level-SameMatch :
      (s : Match) (ts : List Trade) (p : Option ℕ)
      → SameMatch
          (match_level clock ticker side o s p)
          (match_level clock' ticker side o (record s { trades = ts }) p)
  unfolding match_level
  match_level-SameMatch s ts none = (ts, refl)
  match_level-SameMatch s ts (some b) =
      let start : Fill = record {
        heap = s.heap;
        queue = get_queue b s.levels;
        trade_counter = s.trade_counter;
        trades = s.trades;
      } in
      let (us, e) = fill_queue-SameFill b start (record start { trades = ts }) (ts, refl) in
      (us, rw e refl)

  match_round :
      (s t : Match)
      → SameMatch s t
      → SameMatch
          (match_level clock ticker side o s (best_price side s.levels))
          (match_level clock' ticker side o t (best_price side t.levels))
  match_round s t (ts, e) = rw e (match_level-SameMatch s ts (best_price side s.levels))

  match_order-SameMatch :
      (s : Match)
      → SameMatch (match_order clock ticker side o s) (match_order clock' ticker side o s)
  unfolding match_order
  match_order-SameMatch s =
      while-related SameMatch (can_match clock ticker side o)
        (λ s. match_level clock ticker side o s (best_price side s.levels))
        (can_match clock' ticker side o)
        (λ s. match_level clock' ticker side o s (best_price side s.levels)) (λ s t r. rw r.1 refl)
        match_round (length s.levels + 2) s s (s.trades, refl)

module _ (clock clock' : ℕ → ℕ) (h : Heap) (b : OrderBook) (o : ℕ) where
  match_side-SameOutcome :
      (side : OrderSide) → SameOutcome (match_side clock side h b o) (match_side clock' side h b o)
  unfolding match_buy_order match_sell_order
  match_side-SameOutcome buy =
      let (ts, e) =
        match_order-SameMatch clock clock' b.ticker buy o
          (record { heap = h; levels = b.asks; trade_counter = b.trade_counter; trades = [] }) in
      (ts, rw e refl)
  match_side-SameOutcome sell =
      let (ts, e) =
        match_order-SameMatch clock clock' b.ticker sell o
          (record { heap = h; levels = b.bids; trade_counter = b.trade_counter; trades = [] }) in
      (ts, rw e refl)

  rest_remainder-SameOutcome :
      (price : ℕ) (r s : Outcome)
      → SameOutcome r s
      → SameOutcome (rest_remainder price o r) (rest_remainder price o s)
  rest_remainder-SameOutcome price r s (ts, e) =
      rw e
        (elim (Bool-cases (not (is_complete (r.heap o)) && ltb 0 (remaining_quantity (r.heap o)))) [
          | inl rest ↦ rw rest (ts, refl)
          | inr done ↦ rw done (ts, refl)
        ])

  reject_remainder-SameOutcome :
      (r s : Outcome) → SameOutcome r s → SameOutcome (reject_remainder o r) (reject_remainder o s)
  reject_remainder-SameOutcome r s (ts, e) =
      rw e (elim (Bool-cases (ltb 0 (remaining_quantity (r.heap o)))) [
        | inl left ↦ rw left (ts, refl)
        | inr filled ↦ rw filled (ts, refl)
      ])

  add_priced-SameResult :
      (p : Option ℕ) → SameResult SameOutcome (add_priced clock p h b o) (add_priced clock' p h b o)
  add_priced-SameResult none = refl
  add_priced-SameResult (some price) = elim (Bool-cases (str_eq (h o).ticker b.ticker)) [
    | inl here ↦ rw here (
        rest_remainder-SameOutcome price (match_side clock (h o).side h b o)
          (match_side clock' (h o).side h b o) (match_side-SameOutcome (h o).side))
    | inr elsewhere ↦ rw elsewhere refl
  ]

  at_market :
      SameResult SameOutcome
        (if str_eq (h o).ticker b.ticker
          then ok (reject_remainder o (match_side clock (h o).side h b o))
          else raise assertion_error)
        (if str_eq (h o).ticker b.ticker
          then ok (reject_remainder o (match_side clock' (h o).side h b o))
          else raise assertion_error)
  at_market = elim (Bool-cases (str_eq (h o).ticker b.ticker)) [
    | inl here ↦ rw here (
        reject_remainder-SameOutcome (match_side clock (h o).side h b o)
          (match_side clock' (h o).side h b o) (match_side-SameOutcome (h o).side))
    | inr elsewhere ↦ rw elsewhere refl
  ]

  by_type :
      (t : OrderType) (x y x' y' : Result Outcome)
      → SameResult SameOutcome x x'
      → SameResult SameOutcome y y'
      → SameResult SameOutcome
          (elim t [ limit ↦ x | market ↦ y ])
          (elim t [ limit ↦ x' | market ↦ y' ])
  by_type limit x y x' y' p q = p
  by_type market x y x' y' p q = q

  -- Either method of the book, whatever the order's type.
  pub add_limit_order-SameResult :
      SameResult SameOutcome (add_limit_order clock h b o) (add_limit_order clock' h b o)
  unfolding add_limit_order
  add_limit_order-SameResult =
      by_type (h o).order_type _ _ _ _ (add_priced-SameResult (h o).price) refl

  pub execute_market_order-SameResult :
      SameResult SameOutcome (execute_market_order clock h b o) (execute_market_order clock' h b o)
  unfolding execute_market_order
  execute_market_order-SameResult = by_type (h o).order_type _ _ _ _ refl at_market
