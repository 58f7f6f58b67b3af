-- ===== src/OrderBook/Limit.antt =====
-- `add_limit_order` on an order in the course of matching, and the order of the book after it.
use stock_trading_platform.Prelude.{
  &&-true, ltb→lt, ℕ, suc, ◌≤◌, ◌<◌, ◌≡◌, false, not, ◌&&◌, some, arith, ltb, eq_iff, inl, inr,
  Bool-cases, ap, sym, ◌∙◌,
}
use stock_trading_platform.Events.{
  OrderSide, buy, sell, limit, Order, Heap, remaining_quantity, is_complete,
}
use stock_trading_platform.OrderBook.Resting.{Place, Rests, IsTracked, terms}
use stock_trading_platform.OrderBook.Side.{
  HasKey, IsSide-frame, IsSide-append_order, HasKey-append_order,
}
use stock_trading_platform.OrderBook.Book.{
  OrderBook, Outcome, ok, match_side, match_buy_order, match_sell_order, rest_order, rest_remainder,
  add_limit_order,
}
use stock_trading_platform.OrderBook.Exhausted.{Apart, limit_exhausted}
use stock_trading_platform.OrderBook.Validity.{
  IsBook, Matched, facing, place, match_state, match_side-Matched,
}

pub IsBook-weaken : (h : Heap) (n n' : ℕ) (b : OrderBook) → n ≤ n' → IsBook h n b → IsBook h n' b
IsBook-weaken h n n' b le v = record {
  bids_kept = IsSide-frame h h (place b buy) n n' b.bids le (λ x p l r. r) v.bids_kept;
  asks_kept = IsSide-frame h h (place b sell) n n' b.asks le (λ x p l r. r) v.asks_kept;
  uncrossed = v.uncrossed;
}

rest_order-IsBook :
    (side : OrderSide) (h : Heap) (n : ℕ) (b : OrderBook) (o price : ℕ)
    → IsBook h n b
    → n ≤ o
    → Rests h (place b side) price o
    → ((q : ℕ) → HasKey q (facing side b) → Apart side price q)
    → IsBook h (suc o) (rest_order side price o b)
rest_order-IsBook buy h n b o price v le t apart = record {
  bids_kept = IsSide-append_order h (place b buy) n price o b.bids le t v.bids_kept;
  asks_kept =
      IsSide-frame h h (place b sell) n (suc o) b.asks (omega arith) (λ x p l r. r) v.asks_kept;
  uncrossed = λ p q kp kq. elim (HasKey-append_order price o p b.bids kp) [
    | inl new ↦ rw new (apart q kq)
    | inr old ↦ v.uncrossed p q old kq
  ];
}
rest_order-IsBook sell h n b o price v le t apart = record {
  bids_kept =
      IsSide-frame h h (place b buy) n (suc o) b.bids (omega arith) (λ x p l r. r) v.bids_kept;
  asks_kept = IsSide-append_order h (place b sell) n price o b.asks le t v.asks_kept;
  uncrossed = λ p q kp kq. elim (HasKey-append_order price o q b.asks kq) [
    | inl new ↦ rw new (apart p kp)
    | inr old ↦ v.uncrossed p q kp old
  ];
}

module _ (clock : ℕ → ℕ) (h : Heap) (n : ℕ) (b : OrderBook) (o : ℕ) (v : IsBook h n b)
    (fresh : n ≤ o) (tracked : IsTracked (h o)) where
  own_frame :
      (side : OrderSide) (r : Outcome)
      → Matched clock side h n b o r
      → (x price : ℕ) → x < n
      → Rests h (place b side) price x
      → Rests r.heap (place b side) price x
  own_frame buy r m x price l t =
      let same = m.matching.untouched x (omega arith) (λ p st. ground (arith, t.on_side, st)) in
      ground (arith, same)
  own_frame sell r m x price l t =
      let same = m.matching.untouched x (omega arith) (λ p st. ground (arith, t.on_side, st)) in
      ground (arith, same)

  -- Matching alone keeps the book in order.
  pub match_side-IsBook :
      (side : OrderSide)
      → IsBook (match_side clock side h b o).heap n (match_side clock side h b o).book
  unfolding match_buy_order match_sell_order
  match_side-IsBook buy =
      let m = match_side-Matched clock h n b o v fresh tracked buy in
      record {
        bids_kept =
            IsSide-frame h _ (place b buy) n n b.bids (omega arith) (own_frame buy _ m) v.bids_kept;
        asks_kept = m.matching.levels_kept;
        uncrossed = λ p q kp kq. v.uncrossed p q kp (m.matching.keys_kept q kq);
      }
  match_side-IsBook sell =
      let m = match_side-Matched clock h n b o v fresh tracked sell in
      record {
        bids_kept = m.matching.levels_kept;
        asks_kept =
            IsSide-frame h _ (place b sell) n n b.asks (omega arith) (own_frame sell _ m)
              v.asks_kept;
        uncrossed = λ p q kp kq. v.uncrossed p q (m.matching.keys_kept p kp) kq;
      }

  -- The limit order and its terms.
  module _ (price : ℕ) (is_limit : (h o).order_type ≡ limit) (has_price : (h o).price ≡ some price)
      (in_book : (h o).ticker ≡ b.ticker) where
    abbrev pub matched : Outcome
    matched = match_side clock (h o).side h b o

    pub add_limit_order_lem : add_limit_order clock h b o ≡ ok (rest_remainder price o matched)
    unfolding add_limit_order
    add_limit_order_lem = ground (arith, eq_iff (h o).ticker b.ticker)

    matched_terms : terms (matched.heap o) ≡ terms (h o)
    matched_terms =
        (match_side-Matched clock h n b o v fresh tracked (h o).side).matching.same_terms o

    abbrev pub rests_on : Place
    rests_on = place matched.book (h o).side

    pub remainder-Rests :
        is_complete (matched.heap o) ≡ false
        → 0 < remaining_quantity (matched.heap o)
        → Rests matched.heap rests_on price o
    remainder-Rests is_open more =
        let m = match_side-Matched clock h n b o v fresh tracked (h o).side in
        record {
          on_side = ap (λ (x : Order). x.side) matched_terms;
          in_book = ap (λ (x : Order). x.ticker) matched_terms ∙ in_book ∙ sym m.same_ticker;
          at_price = ap (λ (x : Order). x.price) matched_terms ∙ has_price;
          is_limit = ap (λ (x : Order). x.order_type) matched_terms ∙ is_limit;
          unfilled = omega arith;
          is_open = is_open;
        }

    pub remainder-Apart :
        0 < remaining_quantity (matched.heap o)
        → (q : ℕ) → HasKey q (facing (h o).side matched.book)
        → Apart (h o).side price q
    remainder-Apart more q k =
        let m = match_side-Matched clock h n b o v fresh tracked (h o).side in
        limit_exhausted clock b.ticker (h o).side o (match_state (h o).side matched) m.exhausted
          more price (ap (λ (x : Order). x.order_type) matched_terms ∙ is_limit)
          (ap (λ (x : Order). x.price) matched_terms ∙ has_price) q k

    matched_side : (matched.heap o).side ≡ (h o).side
    matched_side = ap (λ (x : Order). x.side) matched_terms

    pub rest_remainder-IsBook :
        IsBook (rest_remainder price o matched).heap (suc o) (rest_remainder price o matched).book
    rest_remainder-IsBook =
        elim (Bool-cases
          (not (is_complete (matched.heap o)) && ltb 0 (remaining_quantity (matched.heap o)))) [
            | inl rest ↦
                let t =
                  &&-true (not (is_complete (matched.heap o)))
                    (ltb 0 (remaining_quantity (matched.heap o))) rest in
                rw (rest, matched_side)
                  (rest_order-IsBook (h o).side matched.heap n matched.book o price
                    (match_side-IsBook (h o).side) fresh
                    (remainder-Rests (ground (arith, t.0)) (ltb→lt _ _ t.1))
                    (remainder-Apart (ltb→lt _ _ t.1)))
            | inr done ↦ rw done (
                IsBook-weaken matched.heap n (suc o) matched.book (omega arith)
                  (match_side-IsBook (h o).side))
          ]

    -- A limit order with a price, handed to the book of its ticker, is accepted, and the book stays
    -- in order.
    pub add_limit_order-IsBook :
        (r : Outcome) × (add_limit_order clock h b o ≡ ok r) × IsBook r.heap (suc o) r.book
    add_limit_order-IsBook =
        (rest_remainder price o matched, add_limit_order_lem, rest_remainder-IsBook)
