-- ===== src/OrderBook/Cancel/Outcome.antt =====
-- `OrderBook.cancel_order` as a whole: its two outcomes, and the book after either.
use stock_trading_platform.Prelude.{
  ℕ, ◌≡◌, ◌≢◌, refl, String, Bool, true, false, none, some, [], ◌∷◌, All-map, arith, inl, inr,
  Option-cases, ◌+◌,
}
use stock_trading_platform.Events.{OrderSide, buy, sell, canceled, Heap, remaining_quantity}
use stock_trading_platform.OrderBook.Levels.{Levels}
use stock_trading_platform.OrderBook.Resting.{Rests, opposite}
use stock_trading_platform.OrderBook.Side.{IsSide, IsSide-frame, total_quantity}
use stock_trading_platform.OrderBook.Book.{
  OrderBook, remove_from_levels, set_canceled, cancel_order,
}
use stock_trading_platform.OrderBook.Validity.{IsBook, place, own, facing}
use stock_trading_platform.OrderBook.Removal.{InLevels, Everywhere, remove_from_levels-none}
use stock_trading_platform.OrderBook.Cancel.{
  Removed, remove_from_levels-Removed, set_canceled-Rests,
}

-- An order on the other side is another order.
ne_of_side :
    (h : Heap) (b : OrderBook) (side : OrderSide) (p q r x : ℕ)
    → Rests h (place b side) p r
    → Rests h (place b (opposite side)) q x
    → x ≢ r
ne_of_side h b buy p q r x t u e = ground (arith, t.on_side, u.on_side)
ne_of_side h b sell p q r x t u e = ground (arith, t.on_side, u.on_side)

set_canceled-IsSide :
    (h : Heap) (b : OrderBook) (side : OrderSide) (n p r : ℕ) (ls : Levels)
    → Rests h (place b side) p r
    → IsSide h (place b (opposite side)) n ls
    → IsSide (set_canceled h r) (place b (opposite side)) n ls
set_canceled-IsSide h b side n p r ls t s =
    IsSide-frame h (set_canceled h r) (place b (opposite side)) n n ls (omega arith)
      (λ x q l u. set_canceled-Rests h _ q r x (ne_of_side h b side p q r x t u) u) s

Everywhere-facing :
    (h : Heap) (b : OrderBook) (side : OrderSide) (n p r : ℕ) (ls : Levels)
    → Rests h (place b side) p r
    → IsSide h (place b (opposite side)) n ls
    → Everywhere (λ x. x ≢ r) ls
Everywhere-facing h b side n p r [] t s = tt
Everywhere-facing h b side n p r (e ∷ ls) t s = (
  All-map (λ x u. ne_of_side h b side p e.0 r x t u) e.1 s.0.resting,
  Everywhere-facing h b side n p r ls t s.2,
)

-- A successful cancellation: an order that rested in the book under this id is marked canceled,
-- and stands nowhere in the book any more; the quantity of its side falls by what it had left.
pub record Cancels (h : Heap) (b : OrderBook) (id : String) (h' : Heap) (b' : OrderBook)
    : Type 0 where
  pub side : OrderSide
  pub price : ℕ
  pub order : ℕ
  pub stood : InLevels order (own side b)
  pub rested : Rests h (place b side) price order
  pub by_id : (h order).order_id ≡ id
  pub marked : h' order ≡ record (h order) { status = canceled }
  pub others : (x : ℕ) → x ≢ order → h' x ≡ h x
  pub gone_from_bids : Everywhere (λ x. x ≢ order) b'.bids
  pub gone_from_asks : Everywhere (λ x. x ≢ order) b'.asks
  pub quantity :
      total_quantity h' (own side b') + remaining_quantity (h order) ≡ total_quantity h (own side b)
  pub other_side : facing side b' ≡ facing side b
  pub same_counter : b'.trade_counter ≡ b.trade_counter

-- A refused one: nothing in the book has the id.
abbrev pub NotThere : Heap → OrderBook → String → Type 0
NotThere h b id =
    Everywhere (λ x. (h x).order_id ≢ id) b.bids × Everywhere (λ x. (h x).order_id ≢ id) b.asks

abbrev pub CancelOutcome : Heap → OrderBook → String → Heap × OrderBook × Bool → Type 0
CancelOutcome h b id (h', b', true) = Cancels h b id h' b'
CancelOutcome h b id (h', b', false) = (h' ≡ h) × (b' ≡ b) × NotThere h b id

marks : (h : Heap) (r : ℕ) → set_canceled h r r ≡ record (h r) { status = canceled }
marks h r = ground arith

-- What holds in each of the three branches holds of the result.
pub cancel_order_cases {ℓ} :
    (P : Heap × OrderBook × Bool → Type ℓ) (h : Heap) (b : OrderBook) (id : String)
    → ((x : ℕ × Levels)
        → remove_from_levels h id b.bids ≡ some x
        → P (set_canceled h x.0, record b { bids = x.1 }, true))
    → ((x : ℕ × Levels)
        → remove_from_levels h id b.asks ≡ some x
        → P (set_canceled h x.0, record b { asks = x.1 }, true))
    → (remove_from_levels h id b.bids ≡ none
        → remove_from_levels h id b.asks ≡ none
        → P (h, b, false))
    → P (cancel_order h b id)
unfolding cancel_order
cancel_order_cases P h b id bid ask neither = elim (Option-cases (remove_from_levels h id b.bids)) [
  | inl no_bid ↦ elim (Option-cases (remove_from_levels h id b.asks)) [
    | inl no_ask ↦ rw (cancel_order, no_bid, no_ask) (neither no_bid no_ask)
    | inr (x, e) ↦ rw (cancel_order, no_bid, e) (ask x e)
  ]
  | inr (x, e) ↦ rw (cancel_order, e) (bid x e)
]

module _ (h : Heap) (n : ℕ) (b : OrderBook) (id : String) (v : IsBook h n b) where
  bid-Removed :
      (x : ℕ × Levels)
      → remove_from_levels h id b.bids ≡ some x
      → Removed h id (place b buy) n b.bids x.0 x.1
  bid-Removed x e = remove_from_levels-Removed h id (place b buy) n b.bids x e v.bids_kept

  ask-Removed :
      (x : ℕ × Levels)
      → remove_from_levels h id b.asks ≡ some x
      → Removed h id (place b sell) n b.asks x.0 x.1
  ask-Removed x e = remove_from_levels-Removed h id (place b sell) n b.asks x e v.asks_kept

  -- On a well-formed book `cancel_order` answers True after it marked one resting order with this
  -- id CANCELED, changed no other order, removed it from the book, and lowered the open quantity of
  -- its side by what the order had left, with the other side as it was. It answers False only when
  -- no order in the book has the id, and then changes nothing.
  pub cancel_order_outcome : CancelOutcome h b id (cancel_order h b id)
  cancel_order_outcome =
      cancel_order_cases (CancelOutcome h b id) h b id
        (λ x e.
          let m = bid-Removed x e in
          record {
            side = buy;
            price = m.price;
            order = x.0;
            stood = m.stood;
            rested = m.at;
            by_id = m.by_id;
            marked = marks h x.0;
            others = λ y ne. ground arith;
            gone_from_bids = m.gone;
            gone_from_asks = Everywhere-facing h b buy n m.price x.0 b.asks m.at v.asks_kept;
            quantity = m.quantity;
            other_side = refl;
            same_counter = refl;
          })
        (λ x e.
          let m = ask-Removed x e in
          record {
            side = sell;
            price = m.price;
            order = x.0;
            stood = m.stood;
            rested = m.at;
            by_id = m.by_id;
            marked = marks h x.0;
            others = λ y ne. ground arith;
            gone_from_bids = Everywhere-facing h b sell n m.price x.0 b.bids m.at v.bids_kept;
            gone_from_asks = m.gone;
            quantity = m.quantity;
            other_side = refl;
            same_counter = refl;
          })
        (λ no_bid no_ask. (
          refl,
          refl,
          (remove_from_levels-none h id b.bids no_bid, remove_from_levels-none h id b.asks no_ask),
        ))

  -- Cancelling by any id keeps a well-formed book well-formed, whether an order was found or not.
  pub cancel_order-IsBook : IsBook (cancel_order h b id).0 n (cancel_order h b id).1
  cancel_order-IsBook =
      cancel_order_cases (λ z. IsBook z.0 n z.1) h b id
        (λ x e.
          let m = bid-Removed x e in
          record {
            bids_kept = m.kept;
            asks_kept = set_canceled-IsSide h b buy n m.price x.0 b.asks m.at v.asks_kept;
            uncrossed = λ p q k l. v.uncrossed p q (m.keys p k) l;
          })
        (λ x e.
          let m = ask-Removed x e in
          record {
            bids_kept = set_canceled-IsSide h b sell n m.price x.0 b.bids m.at v.bids_kept;
            asks_kept = m.kept;
            uncrossed = λ p q k l. v.uncrossed p q k (m.keys q l);
          })
        (λ no_bid no_ask. v)
