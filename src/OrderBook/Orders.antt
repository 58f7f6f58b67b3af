-- ===== src/OrderBook/Orders.antt =====
-- `add_limit_order` and `execute_market_order` on an order for this book, and where each may end.
use stock_trading_platform.Prelude.{
  String, &&-true, ℕ, suc, ◌≤◌, ◌≡◌, refl, ap, ◌∙◌, subst, false, not, ◌&&◌, some, [], arith, ltb,
  ltb→lt, inl, inr, Bool-cases, eq_iff, ◌⊎◌,
}
use stock_trading_platform.Events.{
  OrderSide, buy, sell, limit, market, filled, rejected, Order, Heap, remaining_quantity,
  is_complete, write,
}
use stock_trading_platform.OrderBook.Levels.{append_order}
use stock_trading_platform.OrderBook.Resting.{Place, Rests, IsTracked, terms}
use stock_trading_platform.OrderBook.Side.{HasKey, IsSide, IsSide-frame}
use stock_trading_platform.OrderBook.Book.{
  OrderBook, Outcome, ok, match_side, rest_order, rest_remainder, reject_remainder, add_limit_order,
  execute_market_order,
}
use stock_trading_platform.OrderBook.Exhausted.{Apart, market_exhausted}
use stock_trading_platform.OrderBook.Validity.{
  IsBook, Matched, facing, own, place, match_state, match_side-Matched,
}
use stock_trading_platform.OrderBook.Limit.{
  IsBook-weaken, match_side-IsBook, add_limit_order_lem, rest_remainder-IsBook, remainder-Rests,
  remainder-Apart,
}
use stock_trading_platform.OrderBook.Executes.{
  Executes, Matched-Executes, rest_remainder-Executes, reject_remainder-Executes, facing-rest_order,
}

abbrev place_of : String → OrderSide → Place
place_of ticker side = record { ticker = ticker; side = side }

own-rest_order :
    (side side' : OrderSide) (price o : ℕ) (b : OrderBook)
    → side' ≡ side
    → own side (rest_order side' price o b) ≡ append_order price o (own side b)
own-rest_order buy buy price o b e = refl
own-rest_order sell sell price o b e = refl
own-rest_order buy sell price o b e = absurd (ground arith)
own-rest_order sell buy price o b e = absurd (ground arith)

-- How an order that was executed in full or in part ends: filled, or open with a remainder.
module _ (clock : ℕ → ℕ) (h : Heap) (n : ℕ) (b : OrderBook) (o : ℕ) (v : IsBook h n b)
    (fresh : n ≤ o) (tracked : IsTracked (h o)) (in_book : (h o).ticker ≡ b.ticker) where
  abbrev matched : Outcome
  matched = match_side clock (h o).side h b o

  matched-Matched : Matched clock (h o).side h n b o matched
  matched-Matched = match_side-Matched clock h n b o v fresh tracked (h o).side

  matched_terms : terms (matched.heap o) ≡ terms (h o)
  matched_terms = matched-Matched.matching.same_terms o

  filled_up :
      remaining_quantity (matched.heap o) ≡ 0
      → (remaining_quantity (matched.heap o) ≡ 0) × ((matched.heap o).status ≡ filled)
  filled_up e =
      let t = matched-Matched.matching.incoming in (e, t.status_filled (omega (arith, t.bounded)))

  unfoldable pub limit_outcome : ℕ → Outcome
  limit_outcome price = rest_remainder price o matched

  unfoldable pub market_outcome : Outcome
  market_outcome = reject_remainder o matched

  pub limit_outcome-Executes : (price : ℕ) → Executes h b o (limit_outcome price)
  unfolding limit_outcome
  limit_outcome-Executes price =
      rest_remainder-Executes h b o price matched (Matched-Executes matched-Matched)

  facing_place :
      (side : OrderSide) (h' : Heap) (c : OrderBook)
      → IsBook h' n c
      → (p : Place) × IsSide h' p n (facing side c)
  facing_place buy h' c w = (place c sell, w.asks_kept)
  facing_place sell h' c w = (place c buy, w.bids_kept)

  pub market_outcome-Executes : Executes h b o market_outcome
  unfolding market_outcome
  market_outcome-Executes =
      let p =
        facing_place (h o).side matched.heap matched.book
          (match_side-IsBook clock h n b o v fresh tracked (h o).side) in
      reject_remainder-Executes h n b o matched p.0 fresh p.1 (Matched-Executes matched-Matched)

  pub execute_market_order_lem :
      (h o).order_type ≡ market → execute_market_order clock h b o ≡ ok market_outcome
  unfolding execute_market_order market_outcome
  execute_market_order_lem is_market = ground (arith, eq_iff (h o).ticker b.ticker)

  write_frame : (h' : Heap) (y : Order) (c : OrderBook) → IsBook h' n c → IsBook (write h' o y) n c
  write_frame h' y c w = record {
    bids_kept =
        IsSide-frame h' (write h' o y) (place c buy) n n c.bids (omega arith)
          (λ x p l t. ground arith) w.bids_kept;
    asks_kept =
        IsSide-frame h' (write h' o y) (place c sell) n n c.asks (omega arith)
          (λ x p l t. ground arith) w.asks_kept;
    uncrossed = w.uncrossed;
  }

  pub market_outcome-IsBook : IsBook market_outcome.heap (suc o) market_outcome.book
  unfolding market_outcome
  market_outcome-IsBook =
      let w = match_side-IsBook clock h n b o v fresh tracked (h o).side in
      elim (Bool-cases (ltb 0 (remaining_quantity (matched.heap o)))) [
        | inl left ↦ rw left (
            IsBook-weaken _ n (suc o) matched.book (omega arith) (
              write_frame matched.heap (record (matched.heap o) { status = rejected }) matched.book
                w))
        | inr none_left ↦
            rw none_left (IsBook-weaken matched.heap n (suc o) matched.book (omega arith) w)
      ]

  -- A market order ends filled, or rejected with the other side of the book empty; its own side of
  -- the book is as it was.
  pub market_outcome_ends :
      (h o).order_type ≡ market
      → (own (h o).side market_outcome.book ≡ own (h o).side b)
        × (((remaining_quantity (market_outcome.heap o) ≡ 0)
              × ((market_outcome.heap o).status ≡ filled))
            ⊎ (((market_outcome.heap o).status ≡ rejected)
                × (facing (h o).side market_outcome.book ≡ [])))
  unfolding market_outcome
  market_outcome_ends is_market = elim (Bool-cases (ltb 0 (remaining_quantity (matched.heap o)))) [
    | inl left ↦ rw left (
      matched-Matched.same_own,
      inr (
        ground arith,
        market_exhausted clock b.ticker (h o).side o (match_state (h o).side matched)
            matched-Matched.exhausted (ltb→lt 0 _ left)
            (ap (λ (x : Order). x.order_type) matched_terms ∙ is_market),
      ),
    )
    | inr none_left ↦ rw none_left (matched-Matched.same_own, inl (filled_up (ground arith)))
  ]

  pub limit_outcome-IsBook :
      (price : ℕ)
      → (h o).order_type ≡ limit
      → (h o).price ≡ some price
      → IsBook (limit_outcome price).heap (suc o) (limit_outcome price).book
  unfolding limit_outcome
  limit_outcome-IsBook price l p =
      rest_remainder-IsBook clock h n b o v fresh tracked price l p in_book

  matched_side : (matched.heap o).side ≡ (h o).side
  matched_side = ap (λ (x : Order). x.side) matched_terms

  -- What is not put to rest has nothing left.
  all_filled :
      not (is_complete (matched.heap o)) && ltb 0 (remaining_quantity (matched.heap o)) ≡ false
      → remaining_quantity (matched.heap o) ≡ 0
  all_filled done = ground (arith, matched-Matched.matching.incoming.status_open)

  -- A limit order ends filled, with its own side of the book as it was, or it rests at the end of
  -- its price's queue, and its price meets none on the other side.
  pub limit_outcome_ends :
      (price : ℕ)
      → (h o).order_type ≡ limit
      → (h o).price ≡ some price
      → let r = limit_outcome price in
        ((remaining_quantity (r.heap o) ≡ 0)
          × ((r.heap o).status ≡ filled)
          × (own (h o).side r.book ≡ own (h o).side b))
        ⊎ (Rests r.heap (place b (h o).side) price o
            × (own (h o).side r.book ≡ append_order price o (own (h o).side b))
            × ((q : ℕ) → HasKey q (facing (h o).side r.book) → Apart (h o).side price q))
  unfolding limit_outcome
  limit_outcome_ends price l p =
      elim (Bool-cases
        (not (is_complete (matched.heap o)) && ltb 0 (remaining_quantity (matched.heap o)))) [
          | inl rest ↦
              let t =
                &&-true (not (is_complete (matched.heap o)))
                  (ltb 0 (remaining_quantity (matched.heap o))) rest in
              rw rest (
                inr (
                  subst (λ q. Rests matched.heap q price o)
                      (ap (λ (k : String). place_of k (h o).side) matched-Matched.same_ticker)
                      (remainder-Rests clock h n b o v fresh tracked price l p in_book
                        (ground (arith, t.0)) (ltb→lt 0 _ t.1)),
                  own-rest_order (h o).side (matched.heap o).side price o matched.book matched_side
                      ∙ ap (append_order price o) matched-Matched.same_own,
                  rw
                      (facing-rest_order (h o).side (matched.heap o).side price o matched.book
                        matched_side)
                      (remainder-Apart clock h n b o v fresh tracked price l p in_book
                        (ltb→lt 0 _ t.1)),
                ))
          | inr done ↦ rw done (
              inl (
                (filled_up (all_filled done)).0,
                (filled_up (all_filled done)).1,
                matched-Matched.same_own,
              ))
        ]

  pub limit_outcome_lem :
      (price : ℕ)
      → (h o).order_type ≡ limit
      → (h o).price ≡ some price
      → add_limit_order clock h b o ≡ ok (limit_outcome price)
  unfolding limit_outcome
  limit_outcome_lem price l p = add_limit_order_lem clock h n b o v fresh tracked price l p in_book
