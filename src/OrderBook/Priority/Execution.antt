-- ===== src/OrderBook/Priority/Execution.antt =====
-- The execution of an order against the specification.
use stock_trading_platform.Prelude.{
  ℕ, ◌≤◌, ◌≡◌, refl, ap, ◌∙◌, Bool, some, not, ◌&&◌, ltb, [], ◌∷◌, List, map, arith, inl, inr,
  Bool-cases,
}
use stock_trading_platform.Events.{
  OrderSide, buy, sell, limit, rejected, Order, Heap, remaining_quantity, is_complete, write,
}
use stock_trading_platform.OrderBook.Levels.{Levels}
use stock_trading_platform.OrderBook.Matching.{Match, accepts}
use stock_trading_platform.OrderBook.Resting.{IsTracked}
use stock_trading_platform.OrderBook.Side.{total_quantity}
use stock_trading_platform.OrderBook.Book.{
  OrderBook, Outcome, match_side, rest_remainder, reject_remainder,
}
use stock_trading_platform.OrderBook.Validity
use stock_trading_platform.OrderBook.Validity.{IsBook, facing, match_state, match_side-Matched}
use stock_trading_platform.OrderBook.Executes.{facing-rest_order}
use stock_trading_platform.OrderBook.Priority.{
  Allocation, allows, limit_of, allocate, deal_of, offer_of, queue_offers, level_offers,
  sort_levels, offers_by_priority,
}
use stock_trading_platform.OrderBook.Priority.Matched.{match_order-allocated}

-- The code's result in the words of the specification.
abbrev pub executed : OrderSide → ℕ → Outcome → Allocation
executed side o r = record {
  deals = map (deal_of side) r.trades;
  unfilled = remaining_quantity (r.heap o);
  offers = offers_by_priority side r.heap (facing side r.book);
}

-- The code's price check, on an order whose limit price is there, is the specification's.
pub accepts-allows :
    (side : OrderSide) (x : Order) (p : ℕ)
    → (x.order_type ≡ limit → (own : ℕ) × (x.price ≡ some own))
    → accepts side x.order_type x.price p ≡ allows side (limit_of x) p
accepts-allows buy x p priced = ground (arith, priced)
accepts-allows sell x p priced = ground (arith, priced)

-- Offers show an order's id and what it has left, no more.
queue_offers-same :
    (h h' : Heap) (p : ℕ) (q : List ℕ)
    → ((x : ℕ) → offer_of h' p x ≡ offer_of h p x)
    → queue_offers h' p q ≡ queue_offers h p q
queue_offers-same h h' p [] f = refl
queue_offers-same h h' p (r ∷ q) f = rw (f r, queue_offers-same h h' p q f) refl

level_offers-same :
    (h h' : Heap) (ls : Levels)
    → ((p x : ℕ) → offer_of h' p x ≡ offer_of h p x)
    → level_offers h' ls ≡ level_offers h ls
level_offers-same h h' [] f = refl
level_offers-same h h' (e ∷ ls) f =
    rw (queue_offers-same h h' e.0 e.1 (f e.0), level_offers-same h h' ls f) refl

module _ (clock : ℕ → ℕ) (h : Heap) (n : ℕ) (b : OrderBook) (o : ℕ) (v : IsBook h n b)
    (fresh : n ≤ o) (tracked : IsTracked (h o)) where
  module _ (side : OrderSide) (ok : ℕ → Bool)
      (agrees : (p : ℕ) → accepts side (h o).order_type (h o).price p ≡ ok p) where
    abbrev specified : Allocation
    specified = allocate ok (remaining_quantity (h o)) (offers_by_priority side h (facing side b))

    abbrev in_words : Match → Allocation
    in_words s = record {
      deals = map (deal_of side) s.trades;
      unfilled = remaining_quantity (s.heap o);
      offers = offers_by_priority side s.heap s.levels;
    }

    pub match_side-allocate : executed side o (match_side clock side h b o) ≡ specified
    match_side-allocate =
        ap in_words (Validity.match_side_state clock h n b o v fresh tracked side)
        ∙ match_order-allocated clock b.ticker side o n h (facing side b) (h o).filled_quantity
            (total_quantity h (facing side b)) b.trade_counter ok specified fresh agrees
            (Validity.start clock h n b o v fresh tracked side)
            (Validity.start-Matching clock h n b o v fresh tracked side) refl

-- What follows the matching changes neither the other side nor the trades.
pub executed-rest_remainder :
    (side : OrderSide) (o price : ℕ) (r : Outcome)
    → (r.heap o).side ≡ side
    → executed side o (rest_remainder price o r) ≡ executed side o r
executed-rest_remainder side o price r e =
    elim (Bool-cases (not (is_complete (r.heap o)) && ltb 0 (remaining_quantity (r.heap o)))) [
      | inl rest ↦ rw (rest, facing-rest_order side (r.heap o).side price o r.book e) refl
      | inr done ↦ rw done refl
    ]

pub executed-reject_remainder :
    (side : OrderSide) (o : ℕ) (r : Outcome)
    → executed side o (reject_remainder o r) ≡ executed side o r
unfolding offers_by_priority
executed-reject_remainder side o r = elim (Bool-cases (ltb 0 (remaining_quantity (r.heap o)))) [
  | inl rest ↦
      let h' : Heap = write r.heap o (record (r.heap o) { status = rejected }) in
      let same : remaining_quantity (h' o) ≡ remaining_quantity (r.heap o) = ground arith in
      rw
        (
          rest,
          same,
          level_offers-same r.heap h' (sort_levels side (facing side r.book)) (λ p x. ground arith),
        )
        refl
  | inr done ↦ rw done refl
]
