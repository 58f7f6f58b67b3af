-- ===== src/OrderBook/Executes.antt =====
-- What executing an incoming order does, whatever its type: the trades, the quantities, and the
-- orders that it leaves alone.
use stock_trading_platform.Prelude.{
  ℕ, ◌+◌, ◌≤◌, ◌≡◌, ◌≢◌, refl, ap, ◌∙◌, not, ◌&&◌, All, arith, ltb, inl, inr, Bool-cases, length,
}
use stock_trading_platform.Events.{
  OrderSide, buy, sell, Order, Heap, remaining_quantity, is_complete, rejected, write,
}
use stock_trading_platform.OrderBook.Resting.{Place, across, Stands, terms}
use stock_trading_platform.OrderBook.Trades.{IsFair, traded_quantity, IsNumbered, Precedes, ByPrice}
use stock_trading_platform.OrderBook.Side.{IsSide, total_quantity, total_quantity-frame_below}
use stock_trading_platform.OrderBook.Book.{
  OrderBook, Outcome, rest_order, rest_remainder, reject_remainder,
}
use stock_trading_platform.OrderBook.Validity.{Matched, facing}

pub record Executes (h : Heap) (b : OrderBook) (o : ℕ) (r : Outcome) : Type 0 where
  pub fair : All (IsFair b.ticker (h o).side (h o)) r.trades
  pub by_price : ByPrice (h o).side r.trades
  pub best_first :
      All (λ t. All (λ e. Precedes (h o).side t.price e.0) (facing (h o).side r.book)) r.trades
  pub numbered : IsNumbered b.trade_counter r.trades
  pub counted : r.book.trade_counter ≡ b.trade_counter + length r.trades
  pub incoming_filled :
      (r.heap o).filled_quantity ≡ (h o).filled_quantity + traded_quantity r.trades
  pub bounded : (r.heap o).filled_quantity ≤ (r.heap o).quantity
  pub conserved :
      total_quantity r.heap (facing (h o).side r.book) + traded_quantity r.trades
      ≡ total_quantity h (facing (h o).side b)
  pub same_ticker : r.book.ticker ≡ b.ticker
  pub same_terms : (x : ℕ) → terms (r.heap x) ≡ terms (h x)
  pub untouched :
      (x : ℕ)
      → x ≢ o
      → ((price : ℕ) → ¬ Stands (across b.ticker (h o).side) price (h x))
      → r.heap x ≡ h x

pub Matched-Executes :
    {clock : ℕ → ℕ} {h : Heap} {n : ℕ} {b : OrderBook} {o : ℕ} {r : Outcome}
    → Matched clock (h o).side h n b o r
    → Executes h b o r
Matched-Executes m = record {
  fair = m.matching.fair;
  by_price = m.matching.by_price;
  best_first = m.matching.best_first;
  numbered = m.matching.numbered;
  counted = m.matching.counted;
  incoming_filled = m.matching.incoming_filled;
  bounded = m.matching.incoming.bounded;
  conserved = m.matching.conserved;
  same_ticker = m.same_ticker;
  same_terms = m.matching.same_terms;
  untouched = m.matching.untouched;
}

pub facing-rest_order :
    (side side' : OrderSide) (price o : ℕ) (b : OrderBook)
    → side' ≡ side
    → facing side (rest_order side' price o b) ≡ facing side b
facing-rest_order buy buy price o b e = refl
facing-rest_order sell sell price o b e = refl
facing-rest_order buy sell price o b e = absurd (ground arith)
facing-rest_order sell buy price o b e = absurd (ground arith)

trade_counter-rest_order :
    (side : OrderSide) (price o : ℕ) (b : OrderBook)
    → (rest_order side price o b).trade_counter ≡ b.trade_counter
trade_counter-rest_order buy price o b = refl
trade_counter-rest_order sell price o b = refl

ticker-rest_order :
    (side : OrderSide) (price o : ℕ) (b : OrderBook) → (rest_order side price o b).ticker ≡ b.ticker
ticker-rest_order buy price o b = refl
ticker-rest_order sell price o b = refl

-- To rest changes the order's own side of the book only.
pub rest_remainder-Executes :
    (h : Heap) (b : OrderBook) (o price : ℕ) (r : Outcome)
    → Executes h b o r
    → Executes h b o (rest_remainder price o r)
rest_remainder-Executes h b o price r x =
    elim (Bool-cases (not (is_complete (r.heap o)) && ltb 0 (remaining_quantity (r.heap o)))) [
      | inl rest ↦
          let same =
            facing-rest_order (h o).side (r.heap o).side price o r.book
              (ap (λ (y : Order). y.side) (x.same_terms o)) in
          rw rest (record {
            fair = x.fair;
            by_price = x.by_price;
            best_first = rw same x.best_first;
            numbered = x.numbered;
            counted = trade_counter-rest_order (r.heap o).side price o r.book ∙ x.counted;
            incoming_filled = x.incoming_filled;
            bounded = x.bounded;
            conserved = rw same x.conserved;
            same_ticker = ticker-rest_order (r.heap o).side price o r.book ∙ x.same_ticker;
            same_terms = x.same_terms;
            untouched = x.untouched;
          })
      | inr done ↦ rw done x
    ]

-- A rejection changes the order's own status only.
pub reject_remainder-Executes :
    (h : Heap) (n : ℕ) (b : OrderBook) (o : ℕ) (r : Outcome) (place : Place)
    → n ≤ o
    → IsSide r.heap place n (facing (h o).side r.book)
    → Executes h b o r
    → Executes h b o (reject_remainder o r)
reject_remainder-Executes h n b o r place fresh s x =
    elim (Bool-cases (ltb 0 (remaining_quantity (r.heap o)))) [
      | inl left ↦
          let h' : Heap = write r.heap o (record (r.heap o) { status = rejected }) in
          let same =
            total_quantity-frame_below r.heap h' place n (facing (h o).side r.book)
              (λ y l. ground arith) s in
          rw left (record {
            fair = x.fair;
            by_price = x.by_price;
            best_first = x.best_first;
            numbered = x.numbered;
            counted = x.counted;
            incoming_filled = ground (arith, x.incoming_filled);
            bounded = ground (arith, x.bounded);
            conserved = rw same x.conserved;
            same_ticker = x.same_ticker;
            same_terms = λ y. ground (arith, x.same_terms y);
            untouched = λ y ne stays. ground (arith, x.untouched y ne stays);
          })
      | inr filled ↦ rw filled x
    ]
