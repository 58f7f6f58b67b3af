-- ===== src/OrderBook/Members/Operations.antt =====
-- Which orders stand in a book after its methods.
use stock_trading_platform.Prelude.{
  All, ℕ, ◌≡◌, subst, String, false, not, ◌&&◌, &&-true, Option, none, some, [], ◌∷◌, List, arith,
  ltb, inl, inr, Bool-cases, Option-cases, str_eq, if◌then◌else◌,
}
use stock_trading_platform.Events.{
  OrderSide, buy, sell, OrderType, limit, market, Heap, remaining_quantity, is_complete,
}
use stock_trading_platform.OrderBook.Levels.{Levels}
use stock_trading_platform.OrderBook.Book.{
  OrderBook, Outcome, Result, ok, raise, match_side, match_buy_order, match_sell_order, rest_order,
  rest_remainder, reject_remainder, assertion_error, add_priced, add_limit_order,
  execute_market_order, keep_level, remove_order, remove_from_levels, cancel_order,
}
use stock_trading_platform.OrderBook.Removal.{
  Everywhere, remove_order-All, remove_from_levels_hit, remove_from_levels_miss,
}
use stock_trading_platform.OrderBook.Cancel.Outcome.{cancel_order_cases}
use stock_trading_platform.OrderBook.Members.{Everywhere-match_order, Everywhere-append_order}

-- All orders of a book.
abbrev pub EveryOrder {ℓ} : (ℕ → Type ℓ) → OrderBook → Type ℓ
EveryOrder P b = Everywhere P b.bids × Everywhere P b.asks

-- What holds of a result, if there is one.
abbrev pub OnOk : {A : Type 0} → (A → Type 0) → Result A → Type 0
OnOk P (ok a) = P a
OnOk P (raise e) = Unit

module _ (P : ℕ → Type 0) where
  module _ (clock : ℕ → ℕ) (h : Heap) (b : OrderBook) (o : ℕ) (a : EveryOrder P b) where
    match_side-EveryOrder : (side : OrderSide) → EveryOrder P (match_side clock side h b o).book
    unfolding match_buy_order match_sell_order
    match_side-EveryOrder buy = (a.0, Everywhere-match_order P clock b.ticker buy o _ a.1)
    match_side-EveryOrder sell = (Everywhere-match_order P clock b.ticker sell o _ a.0, a.1)

    rest_order-EveryOrder :
        (side : OrderSide) (price : ℕ) (c : OrderBook)
        → P o
        → EveryOrder P c
        → EveryOrder P (rest_order side price o c)
    rest_order-EveryOrder buy price c p e = (Everywhere-append_order P price o c.bids p e.0, e.1)
    rest_order-EveryOrder sell price c p e = (e.0, Everywhere-append_order P price o c.asks p e.1)

    -- The order itself comes in if it is still open.
    abbrev pub Enters : Outcome → Type 0
    Enters r = (is_complete (r.heap o) ≡ false → P o) → EveryOrder P r.book

    rest_remainder-Enters :
        (price : ℕ) (r : Outcome) → EveryOrder P r.book → Enters (rest_remainder price o r)
    rest_remainder-Enters price r e =
        elim (Bool-cases (not (is_complete (r.heap o)) && ltb 0 (remaining_quantity (r.heap o)))) [
          | inl rest ↦
              let t =
                &&-true (not (is_complete (r.heap o))) (ltb 0 (remaining_quantity (r.heap o)))
                  rest in
              rw rest (λ p.
                rest_order-EveryOrder (r.heap o).side price r.book (p (ground (arith, t.0))) e)
          | inr done ↦ rw done (λ p. e)
        ]

    reject_remainder-Enters : (r : Outcome) → EveryOrder P r.book → Enters (reject_remainder o r)
    reject_remainder-Enters r e = elim (Bool-cases (ltb 0 (remaining_quantity (r.heap o)))) [
      | inl left ↦ rw left (λ p. e)
      | inr filled ↦ rw filled (λ p. e)
    ]

    add_priced-Enters : (p : Option ℕ) → OnOk Enters (add_priced clock p h b o)
    add_priced-Enters none = tt
    add_priced-Enters (some price) = elim (Bool-cases (str_eq (h o).ticker b.ticker)) [
      | inl here ↦ rw here (
          rest_remainder-Enters price (match_side clock (h o).side h b o)
            (match_side-EveryOrder (h o).side))
      | inr elsewhere ↦ rw elsewhere tt
    ]

    pub by_type :
        (t : OrderType) (x y : Result Outcome)
        → OnOk Enters x
        → OnOk Enters y
        → OnOk Enters (elim t [ limit ↦ x | market ↦ y ])
    by_type limit x y p q = p
    by_type market x y p q = q

    pub add_limit_order-Enters : OnOk Enters (add_limit_order clock h b o)
    unfolding add_limit_order
    add_limit_order-Enters = by_type (h o).order_type _ _ (add_priced-Enters (h o).price) tt

    at_market : OnOk Enters (
        if str_eq (h o).ticker b.ticker
        then ok (reject_remainder o (match_side clock (h o).side h b o))
        else raise assertion_error)
    at_market = elim (Bool-cases (str_eq (h o).ticker b.ticker)) [
      | inl here ↦ rw here (
          reject_remainder-Enters (match_side clock (h o).side h b o)
            (match_side-EveryOrder (h o).side))
      | inr elsewhere ↦ rw elsewhere tt
    ]

    pub execute_market_order-Enters : OnOk Enters (execute_market_order clock h b o)
    unfolding execute_market_order
    execute_market_order-Enters = by_type (h o).order_type _ _ tt at_market

  Everywhere-keep_level :
      (p : ℕ) (q : List ℕ) (ls : Levels)
      → All P q
      → Everywhere P ls
      → Everywhere P (keep_level (p, q) ls)
  Everywhere-keep_level p [] ls a e = e
  Everywhere-keep_level p (r ∷ q) ls a e = (a, e)

  remove_from_levels-Everywhere :
      (h : Heap) (id : String) (ls : Levels) (x : ℕ × Levels)
      → remove_from_levels h id ls ≡ some x
      → Everywhere P ls
      → Everywhere P x.1
  unfolding remove_from_levels
  remove_from_levels-Everywhere h id [] x e a = absurd (ground arith)
  remove_from_levels-Everywhere h id (l ∷ ls) x e a = elim (Option-cases (remove_order h id l.1)) [
    | inl nothing ↦
        let (y, ey, same) = remove_from_levels_miss h id l ls x nothing e in
        subst (λ (z : ℕ × Levels). Everywhere P z.1) same
          (a.0, remove_from_levels-Everywhere h id ls y ey a.1)
    | inr (y, ey) ↦
        subst (λ (z : ℕ × Levels). Everywhere P z.1) (remove_from_levels_hit h id l ls y x ey e)
          (Everywhere-keep_level l.0 y.1 ls (remove_order-All P h id l.1 y ey a.0).1 a.1)
  ]

  -- A cancellation brings in no order.
  pub cancel_order-EveryOrder :
      (h : Heap) (b : OrderBook) (id : String)
      → EveryOrder P b
      → EveryOrder P (cancel_order h b id).1
  cancel_order-EveryOrder h b id a =
      cancel_order_cases (λ z. EveryOrder P z.1) h b id
        (λ x e. (remove_from_levels-Everywhere h id b.bids x e a.0, a.1))
        (λ x e. (a.0, remove_from_levels-Everywhere h id b.asks x e a.1)) (λ no_bid no_ask. a)
