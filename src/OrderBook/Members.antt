-- ===== src/OrderBook/Members.antt =====
-- Which orders stand in a book: the operations bring in none but the order they are given.
pub mod Operations
pub mod Open
use stock_trading_platform.Prelude.{
  ℕ, ◌+◌, ◌≡◌, refl, ap, subst, String, true, false, not, ◌&&◌, Option, none, some, List, [], ◌∷◌,
  ◌++◌, All, All-append, arith, ltb, ◌==◌, if◌then◌else◌, inl, inr, Bool-cases, Option-cases,
  length, while, while-kept,
}
use stock_trading_platform.Events.{
  OrderSide, buy, sell, limit, market, Heap, remaining_quantity, is_complete,
}
use stock_trading_platform.OrderBook.Levels.{
  Levels, get_queue, append_order, del_level, set_queue, put_back, best_price,
}
use stock_trading_platform.OrderBook.Matching.{
  Fill, Match, fill_head, fill_queue, can_fill, match_level, match_order, can_match,
}
use stock_trading_platform.OrderBook.Book.{
  OrderBook, Outcome, Result, ok, raise, match_side, match_buy_order, match_sell_order, rest_order,
  rest_remainder, reject_remainder, keep_level, remove_order, remove_from_levels, cancel_order,
  set_canceled,
}
use stock_trading_platform.OrderBook.Removal.{Everywhere, remove_order-All}

module _ {ℓ} (P : ℕ → Type ℓ) where
  Everywhere-get_queue : (price : ℕ) (ls : Levels) → Everywhere P ls → All P (get_queue price ls)
  unfolding get_queue
  Everywhere-get_queue price [] a = tt
  Everywhere-get_queue price (e ∷ ls) a = elim (Bool-cases (e.0 == price)) [
    | inl here ↦ rw here a.0
    | inr there ↦ rw there (Everywhere-get_queue price ls a.1)
  ]

  Everywhere-del_level :
      (price : ℕ) (ls : Levels) → Everywhere P ls → Everywhere P (del_level price ls)
  unfolding del_level
  Everywhere-del_level price [] a = tt
  Everywhere-del_level price (e ∷ ls) a = elim (Bool-cases (e.0 == price)) [
    | inl here ↦ rw here a.1
    | inr there ↦ rw there (a.0, Everywhere-del_level price ls a.1)
  ]

  Everywhere-set_queue :
      (price : ℕ) (q : List ℕ) (ls : Levels)
      → All P q
      → Everywhere P ls
      → Everywhere P (set_queue price q ls)
  unfolding set_queue
  Everywhere-set_queue price q [] b a = tt
  Everywhere-set_queue price q (e ∷ ls) b a = elim (Bool-cases (e.0 == price)) [
    | inl here ↦ rw here (b, a.1)
    | inr there ↦ rw there (a.0, Everywhere-set_queue price q ls b a.1)
  ]

  Everywhere-put_back :
      (price : ℕ) (q : List ℕ) (ls : Levels)
      → All P q
      → Everywhere P ls
      → Everywhere P (put_back price q ls)
  unfolding put_back
  Everywhere-put_back price [] ls b a = Everywhere-del_level price ls a
  Everywhere-put_back price (r ∷ rs) ls b a = Everywhere-set_queue price (r ∷ rs) ls b a

  Everywhere-append_order :
      (price r : ℕ) (ls : Levels) → P r → Everywhere P ls → Everywhere P (append_order price r ls)
  unfolding append_order
  Everywhere-append_order price r [] p a = ((p, tt), tt)
  Everywhere-append_order price r (e ∷ ls) p a = elim (Bool-cases (e.0 == price)) [
    | inl here ↦ rw here (All-append P e.1 (r ∷ []) a.0 (p, tt), a.1)
    | inr there ↦ rw there (a.0, Everywhere-append_order price r ls p a.1)
  ]

  module _ (clock : ℕ → ℕ) (ticker : String) (side : OrderSide) (o : ℕ) where
    All-fill_head :
        (price : ℕ) (s : Fill) (q : List ℕ)
        → s.queue ≡ q
        → All P q
        → All P (fill_head clock ticker side o price s q).queue
    unfolding fill_head
    All-fill_head price s [] e a = rw e tt
    All-fill_head price s (r ∷ rs) e a = ground (arith, a)

    All-fill_queue :
        (price : ℕ) (s : Fill)
        → All P s.queue
        → All P (fill_queue clock ticker side o price s).queue
    unfolding fill_queue
    All-fill_queue price s a =
        while-kept (λ (s : Fill). All P s.queue) (can_fill clock ticker side o price)
          (λ s. fill_head clock ticker side o price s s.queue)
          (λ s b. All-fill_head price s s.queue refl b) (length s.queue + 2) s a

    Everywhere-match_level :
        (s : Match) (p : Option ℕ)
        → Everywhere P s.levels
        → Everywhere P (match_level clock ticker side o s p).levels
    unfolding match_level
    Everywhere-match_level s none a = a
    Everywhere-match_level s (some b) a =
        Everywhere-put_back b _ s.levels (All-fill_queue b _ (Everywhere-get_queue b s.levels a)) a

    Everywhere-match_order :
        (s : Match)
        → Everywhere P s.levels
        → Everywhere P (match_order clock ticker side o s).levels
    unfolding match_order
    Everywhere-match_order s a =
        while-kept (λ (s : Match). Everywhere P s.levels) (can_match clock ticker side o)
          (λ s. match_level clock ticker side o s (best_price side s.levels))
          (λ s b. Everywhere-match_level s (best_price side s.levels) b) (length s.levels + 2) s a
