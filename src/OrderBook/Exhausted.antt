-- ===== src/OrderBook/Exhausted.antt =====
-- Where matching stops: the incoming order is filled, or no price on the other side suits it.
use stock_trading_platform.Prelude.{
  ℕ, ◌<◌, ◌≡◌, String, false, some, [], arith, subst, inl, inr, Option-cases,
}
use stock_trading_platform.Events.{OrderSide, buy, sell, limit, market, remaining_quantity}
use stock_trading_platform.OrderBook.Levels.{best_price}
use stock_trading_platform.OrderBook.Matching.{Match, can_match, accepts, accepts_best}
use stock_trading_platform.OrderBook.Trades.{Precedes}
use stock_trading_platform.OrderBook.Side.{HasKey, All-HasKey}
use stock_trading_platform.OrderBook.Best.{best_price-IsBest, best_price-none}

-- An own price that does not meet the other side's price `q`.
abbrev pub Apart : OrderSide → ℕ → ℕ → Type 0
Apart buy p q = p < q
Apart sell p q = q < p

accepts-Apart :
    (side : OrderSide) (p b q : ℕ)
    → accepts side limit (some p) b ≡ false
    → Precedes side b q
    → Apart side p q
accepts-Apart buy p b q e f = ground arith
accepts-Apart sell p b q e f = ground arith

module _ (clock : ℕ → ℕ) (ticker : String) (side : OrderSide) (o : ℕ) (s : Match)
    (stop : can_match clock ticker side o s ≡ false)
    (more : 0 < remaining_quantity (s.heap o)) where
  not_accepted : accepts_best side (s.heap o) (best_price side s.levels) ≡ false
  not_accepted = ground arith

  -- A market order stops only when the other side is empty.
  pub market_exhausted : (s.heap o).order_type ≡ market → s.levels ≡ []
  market_exhausted t = elim (Option-cases (best_price side s.levels)) [
    | inl e ↦ best_price-none side s.levels e
    | inr (b, e) ↦ absurd (ground (arith, not_accepted))
  ]

  -- A limit order stops when its price meets none on the other side.
  pub limit_exhausted :
      (p : ℕ)
      → (s.heap o).order_type ≡ limit
      → (s.heap o).price ≡ some p
      → (q : ℕ) → HasKey q s.levels
      → Apart side p q
  limit_exhausted p t e q k = elim (Option-cases (best_price side s.levels)) [
    | inl none_left ↦ absurd (subst (HasKey q) (best_price-none side s.levels none_left) k)
    | inr (b, eb) ↦
        accepts-Apart side p b q (ground (arith, not_accepted))
          (All-HasKey (Precedes side b) q s.levels (best_price-IsBest side s.levels b eb).first k)
  ]
