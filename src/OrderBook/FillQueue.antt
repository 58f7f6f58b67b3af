-- ===== src/OrderBook/FillQueue.antt =====
-- The inner loop of `_match_buy_order` and `_match_sell_order`: its invariant and its end.
use stock_trading_platform.Prelude.{
  Bool-cases, inl, inr, ℕ, suc, ◌+◌, ◌-◌, ◌≤◌, ◌<◌, ◌≡◌, ◌≢◌, refl, String, true, false, List, [],
  ◌∷◌, ◌++◌, All, All-append, arith, min, ◌==◌, if◌then◌else◌, length, length-append, Keeps,
  while_ends, Bool, ◌∙◌, ap,
}
use stock_trading_platform.Events.{OrderSide, Trade, remaining_quantity, Heap}
use stock_trading_platform.OrderBook.Matching.{
  Fill, fill_head, fill_queue, can_fill, settle, apply_fill, make_trade, accepts,
}
use stock_trading_platform.OrderBook.Fills.{
  apply_fill_quantity, apply_fill-IsTracked, settle_incoming, settle_resting, settle_other,
  settle-terms,
}
use stock_trading_platform.OrderBook.Resting.{
  Rests, IsTracked, across, Stands, terms, Ascending, Ascending-weaken, All-Rests-frame,
  open_quantity, open_quantity-frame,
}
use stock_trading_platform.OrderBook.Trades.{
  IsFair, make_trade-IsFair, make_trade_fields, make_trade-price, traded_quantity,
  traded_quantity-append, IsNumbered, IsNumbered-append, Precedes, Precedes-refl, ByPrice,
  ByPrice-append,
}

-- The loop at one price: `h₀` is the heap before it, `n` bounds the references in the queue.
module _ (clock : ℕ → ℕ) (ticker : String) (side : OrderSide) (o price n : ℕ) (h₀ : Heap)
    (before left c₀ : ℕ) where
  pub record Filling (s : Fill) : Type 0 where
    pub incoming : IsTracked (s.heap o)
    pub same_terms : (x : ℕ) → terms (s.heap x) ≡ terms (h₀ x)
    pub ordered : Ascending 0 n s.queue
    pub resting : All (Rests s.heap (across ticker side) price) s.queue
    pub untouched : (x : ℕ) → x ≢ o → ¬ Stands (across ticker side) price (h₀ x) → s.heap x ≡ h₀ x
    pub incoming_filled : (s.heap o).filled_quantity ≡ before + traded_quantity s.trades
    pub conserved : open_quantity s.heap s.queue + traded_quantity s.trades ≡ left
    pub counted : s.trade_counter ≡ c₀ + length s.trades
    pub numbered : IsNumbered c₀ s.trades
    pub fair : All (IsFair ticker side (h₀ o)) s.trades
    pub no_worse : All (λ t. Precedes side t.price price) s.trades
    pub by_price : ByPrice side s.trades

  -- The rounds that the loop has left, at most.
  abbrev pub fill_rounds : Fill → ℕ
  fill_rounds s = length s.queue + (if remaining_quantity (s.heap o) == 0 then 0 else 1)

  module _ (fresh : n ≤ o) (ok_price : accepts side (h₀ o).order_type (h₀ o).price price ≡ true)
      (s : Fill) (f : Filling s) (r : ℕ) (rs : List ℕ) (e : s.queue ≡ r ∷ rs)
      (more : 0 < remaining_quantity (s.heap o)) where
    pub order : Ascending 0 n (r ∷ rs)
    order = rw e at f.ordered

    pub rests : All (Rests s.heap (across ticker side) price) (r ∷ rs)
    rests = rw e at f.resting

    abbrev pub qty : ℕ
    qty = min (remaining_quantity (s.heap o)) (remaining_quantity (s.heap r))

    abbrev pub next_heap : Heap
    next_heap = settle s.heap o r qty

    pub o-ne-r : o ≢ r
    o-ne-r = omega (arith, order)

    qty_pos : 0 < qty
    qty_pos = omega (arith, rests.0.unfilled)

    next_incoming : next_heap o ≡ apply_fill qty (s.heap o)
    next_incoming = settle_incoming s.heap o r qty o-ne-r

    pub next_resting : next_heap r ≡ apply_fill qty (s.heap r)
    next_resting = settle_resting s.heap o r qty o-ne-r

    pub next_other : (x : ℕ) → suc r ≤ x → x < n → next_heap x ≡ s.heap x
    next_other x p q = settle_other s.heap o r qty x (omega arith) (omega arith)

    next_ordered : Ascending 0 n (if remaining_quantity (next_heap r) == 0 then rs else r ∷ rs)
    next_ordered =
        ground (arith, order, Ascending-weaken (suc r) 0 n n rs (omega arith) (omega arith) order.2)

    rest-Rests : All (Rests next_heap (across ticker side) price) rs
    rest-Rests =
        All-Rests-frame s.heap next_heap (across ticker side) price (suc r) n rs
          (λ x p q t. ground (arith, next_other x p q)) order.2 rests.1

    next_resting_terms : terms (next_heap r) ≡ terms (s.heap r)
    next_resting_terms = settle-terms s.heap o r qty r

    next-IsTracked : IsTracked (next_heap r)
    next-IsTracked = rw next_resting (apply_fill-IsTracked qty (s.heap r) qty_pos (omega arith))

    head-Rests : 0 < remaining_quantity (next_heap r) → Rests next_heap (across ticker side) price r
    head-Rests p = ground (arith, next-IsTracked, next_resting_terms, rests.0)

    next-Rests :
        All
          (Rests next_heap (across ticker side) price)
          (if remaining_quantity (next_heap r) == 0 then rs else r ∷ rs)
    next-Rests = ground (arith, head-Rests, rest-Rests)

    next_conserved :
        open_quantity next_heap (if remaining_quantity (next_heap r) == 0 then rs else r ∷ rs) + qty
        ≡ open_quantity s.heap s.queue
    next_conserved = rw e (
        ground (
          arith,
          next_resting,
          apply_fill_quantity qty (s.heap r),
          open_quantity-frame s.heap next_heap (suc r) n rs next_other order.2,
        ))

    next_untouched :
        (x : ℕ) → x ≢ o → ¬ Stands (across ticker side) price (h₀ x) → next_heap x ≡ h₀ x
    next_untouched x a b = elim (Bool-cases (x == r)) [
      | inl same ↦ absurd (b (ground (arith, rests.0, f.untouched x a b)))
      | inr other ↦ settle_other s.heap o r qty x a (ground arith) ∙ f.untouched x a b
    ]

    next_incoming_filled : (next_heap o).filled_quantity ≡ (s.heap o).filled_quantity + qty
    next_incoming_filled = ground (arith, next_incoming, apply_fill_quantity qty (s.heap o))

    abbrev pub trade : Trade
    trade =
        make_trade ticker side price (s.heap o) (s.heap r) s.trade_counter qty
          (clock s.trade_counter)

    pub trade_fields : (trade.quantity ≡ qty) × (trade.trade_id ≡ s.trade_counter)
    trade_fields =
        make_trade_fields ticker side price (s.heap o) (s.heap r) s.trade_counter qty
          (clock s.trade_counter)

    pub trade_price : trade.price ≡ price
    trade_price =
        make_trade-price ticker side price (s.heap o) (s.heap r) s.trade_counter qty
          (clock s.trade_counter)

    next_traded : traded_quantity (s.trades ++ trade ∷ []) ≡ traded_quantity s.trades + qty
    next_traded = omega (arith, traded_quantity-append s.trades (trade ∷ []), trade_fields)

    trade-IsFair : IsFair ticker side (h₀ o) trade
    trade-IsFair =
        make_trade-IsFair ticker side price (s.heap o) (h₀ o) (s.heap r) s.trade_counter qty
          (clock s.trade_counter) qty_pos (f.same_terms o) ok_price

    pub fill_head-Filling : Filling (fill_head clock ticker side o price s (r ∷ rs))
    unfolding fill_head
    fill_head-Filling = record {
      incoming = rw next_incoming (apply_fill-IsTracked qty (s.heap o) qty_pos (omega arith));
      same_terms = λ x. settle-terms s.heap o r qty x ∙ f.same_terms x;
      ordered = next_ordered;
      resting = next-Rests;
      untouched = next_untouched;
      incoming_filled = omega (arith, next_incoming_filled, next_traded, f.incoming_filled);
      conserved = omega (arith, next_conserved, next_traded, f.conserved);
      counted = omega (arith, length-append s.trades (trade ∷ []), f.counted);
      numbered =
          IsNumbered-append c₀ s.trades trade f.numbered (omega (arith, trade_fields, f.counted));
      no_worse =
          All-append (λ t. Precedes side t.price price) s.trades (trade ∷ []) f.no_worse
            (rw trade_price (Precedes-refl side price), tt);
      by_price = ByPrice-append side s.trades trade (rw trade_price f.no_worse) f.by_price;
      fair = All-append (IsFair ticker side (h₀ o)) s.trades (trade ∷ []) f.fair (trade-IsFair, tt);
    }

    pub next_incoming_left : remaining_quantity (next_heap o) ≡ remaining_quantity (s.heap o) - qty
    next_incoming_left = ground (arith, next_incoming, apply_fill_quantity qty (s.heap o))

    pub next_resting_left : remaining_quantity (next_heap r) ≡ remaining_quantity (s.heap r) - qty
    next_resting_left = ground (arith, next_resting, apply_fill_quantity qty (s.heap r))

    -- The round empties the incoming order or takes one from the queue.
    pub fill_head-lower :
        fill_rounds (fill_head clock ticker side o price s (r ∷ rs)) < fill_rounds s
    unfolding fill_head
    fill_head-lower = ground (arith, next_incoming_left, next_resting_left, ap length e)

  module _ (fresh : n ≤ o)
      (ok_price : accepts side (h₀ o).order_type (h₀ o).price price ≡ true) where
    abbrev pub body : Fill → Fill
    body s = fill_head clock ticker side o price s s.queue

    abbrev pub guard : Fill → Bool
    guard = can_fill clock ticker side o price

    round :
        (s : Fill) (q : List ℕ)
        → s.queue ≡ q
        → Filling s
        → guard s ≡ true
        → Filling (fill_head clock ticker side o price s q)
          × (fill_rounds (fill_head clock ticker side o price s q) < fill_rounds s)
    round s [] e f g = absurd (ground arith)
    round s (r ∷ rs) e f g = (
      fill_head-Filling fresh ok_price s f r rs e (ground arith),
      fill_head-lower fresh ok_price s f r rs e (ground arith),
    )

    pub Filling-Keeps : Keeps Filling fill_rounds guard body
    Filling-Keeps = record {
      kept = λ s f g. (round s s.queue refl f g).0;
      lower = λ s f g. (round s s.queue refl f g).1;
    }

    -- The inner loop ends with the incoming order or the queue empty, and keeps the invariant.
    pub fill_queue-Filling :
        (s : Fill)
        → Filling s
        → Filling (fill_queue clock ticker side o price s)
          × (guard (fill_queue clock ticker side o price s) ≡ false)
    unfolding fill_queue
    fill_queue-Filling s f = while_ends Filling-Keeps (length s.queue + 2) s (ground arith) f
