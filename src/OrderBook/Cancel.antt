-- ===== src/OrderBook/Cancel.antt =====
-- `cancel_order`: it finds an order by its id, takes it out of the book and marks it canceled.
pub mod Outcome
use stock_trading_platform.Prelude.{
  ℕ, suc, ◌+◌, ◌-◌, ◌≤◌, ◌<◌, ◌≡◌, ◌≢◌, refl, ap, sym, ◌∙◌, subst, String, Bool, true, false,
  Option, none, some, List, [], ◌∷◌, All, All-map, arith, inl, inr, Option-cases, ◌⊎◌, ◌==◌,
  if◌then◌else◌,
}
use stock_trading_platform.Events.{
  OrderSide, buy, sell, Order, Heap, remaining_quantity, write, canceled,
}
use stock_trading_platform.OrderBook.Levels.{Levels}
use stock_trading_platform.OrderBook.Resting.{
  Place, Rests, Ascending, open_quantity, open_quantity-frame,
}
use stock_trading_platform.OrderBook.Side.{
  IsLevel, IsLevel-frame, NoKey, HasKey, IsSide, IsSide-frame, IsSide-frame_ne, total_quantity,
  All-HasKey,
}
use stock_trading_platform.OrderBook.Side.PutBack.{total_quantity-frame}
use stock_trading_platform.OrderBook.Book.{
  OrderBook, remove_order, remove_from_levels, keep_level, set_canceled, cancel_order,
}
use stock_trading_platform.OrderBook.Validity.{IsBook, place}
use stock_trading_platform.OrderBook.Removal.{
  InLevels, Taken, remove_order-Taken, remove_order-All, Everywhere, remove_from_levels-none,
  remove_from_levels_hit, remove_from_levels_miss,
}

-- An order taken from a side of a book, and canceled.
pub record Removed (h : Heap) (id : String) (place : Place) (n : ℕ) (ls : Levels) (r : ℕ)
    (ls' : Levels) : Type 0 where
  pub price : ℕ
  pub at : Rests h place price r
  pub key : HasKey price ls
  pub stood : InLevels r ls
  pub below : r < n
  pub by_id : (h r).order_id ≡ id
  pub kept : IsSide (set_canceled h r) place n ls'
  pub keys : (k : ℕ) → HasKey k ls' → HasKey k ls
  pub gone : Everywhere (λ x. x ≢ r) ls'
  pub quantity :
      total_quantity (set_canceled h r) ls' + remaining_quantity (h r) ≡ total_quantity h ls

-- Other orders than `r` do not see its cancellation.
set_canceled-Rests :
    (h : Heap) (place : Place) (price r x : ℕ)
    → x ≢ r
    → Rests h place price x
    → Rests (set_canceled h r) place price x
set_canceled-Rests h place price r x ne t = ground arith

-- An order at another price is another order.
ne_of_price :
    (h : Heap) (place : Place) (p q r x : ℕ) → q ≢ p → Rests h place p r → Rests h place q x → x ≢ r
ne_of_price h place p q r x ne t u e = ne (ground (arith, t.at_price, u.at_price))

All-Rests-ne :
    (h : Heap) (place : Place) (p r : ℕ) (q : List ℕ) (ne : All (λ x. x ≢ r) q)
    → All (Rests h place p) q
    → All (Rests (set_canceled h r) place p) q
All-Rests-ne h place p r [] ne a = tt
All-Rests-ne h place p r (x ∷ q) ne a =
    (set_canceled-Rests h place p r x ne.0 a.0, All-Rests-ne h place p r q ne.1 a.1)

open_quantity-ne :
    (h : Heap) (r : ℕ) (q : List ℕ)
    → All (λ x. x ≢ r) q
    → open_quantity (set_canceled h r) q ≡ open_quantity h q
open_quantity-ne h r [] a = refl
open_quantity-ne h r (x ∷ q) a = ground (arith, open_quantity-ne h r q a.1)

-- No order at other prices than `p` is the order `r`, which rests at `p`.
Everywhere-ne :
    (h : Heap) (place : Place) (n p r : ℕ) (ls : Levels)
    → Rests h place p r
    → NoKey p ls
    → IsSide h place n ls
    → Everywhere (λ x. x ≢ r) ls
Everywhere-ne h place n p r [] t k s = tt
Everywhere-ne h place n p r (e ∷ ls) t k s = (
  All-map (λ x u. ne_of_price h place p e.0 r x k.0 t u) e.1 s.0.resting,
  Everywhere-ne h place n p r ls t k.1 s.2,
)

NoKey-subset :
    (p : ℕ) (ls ls' : Levels) → ((k : ℕ) → HasKey k ls' → HasKey k ls) → NoKey p ls → NoKey p ls'
NoKey-subset p ls [] f a = tt
NoKey-subset p ls (e ∷ ls') f a = (
  All-HasKey (λ k. k ≢ p) e.0 ls a (f e.0 (inl refl)),
  NoKey-subset p ls ls' (λ k b. f k (inr b)) a,
)

module _ (h : Heap) (id : String) (place : Place) (n : ℕ) (l : ℕ × List ℕ) (ls : Levels)
    (s : IsSide h place n (l ∷ ls)) (r : ℕ) where
  -- The order was in the first level, and `q'` is what it leaves there.
  module _ (t : Rests h place l.0 r) (q' : List ℕ) (k : Taken h id 0 n l.1 r q')
      (rest : All (Rests h place l.0) q') where
    frame : (x price : ℕ) → price ≢ l.0 → x < n → Rests h place price x → set_canceled h r x ≡ h x
    frame x price ne p u = let other = ne_of_price h place l.0 price r x ne t u in ground arith

    ls_kept : IsSide (set_canceled h r) place n ls
    ls_kept =
        IsSide-frame_ne h (set_canceled h r) place l.0 n n ls (omega arith)
          (λ x price ne p u.
            set_canceled-Rests h place price r x (ne_of_price h place l.0 price r x ne t u) u)
          s.1 s.2

    ls_gone : Everywhere (λ x. x ≢ r) ls
    ls_gone = Everywhere-ne h place n l.0 r ls t s.1 s.2

    ls_quantity : total_quantity (set_canceled h r) ls ≡ total_quantity h ls
    ls_quantity = total_quantity-frame h (set_canceled h r) place n l.0 q' frame ls s.1 s.2

    first-Removed : (q : List ℕ) → q' ≡ q → Removed h id place n (l ∷ ls) r (keep_level (l.0, q) ls)
    unfolding total_quantity
    first-Removed [] e = record {
      price = l.0;
      at = t;
      key = inl refl;
      stood = inl k.stood;
      below = k.below;
      by_id = k.by_id;
      kept = ls_kept;
      keys = λ x a. inr a;
      gone = ls_gone;
      quantity = omega (arith, ls_quantity, k.quantity, ap (open_quantity h) e);
    }
    first-Removed (x ∷ xs) e = record {
      price = l.0;
      at = t;
      key = inl refl;
      stood = inl k.stood;
      below = k.below;
      by_id = k.by_id;
      kept = (
        record {
          nonempty = λ c. ground arith;
          ordered = rw e at k.ordered;
          resting = All-Rests-ne h place l.0 r (x ∷ xs) (rw e at k.gone) (rw e at rest);
        },
        s.1,
        ls_kept,
      );
      keys = λ x a. a;
      gone = (rw e at k.gone, ls_gone);
      quantity = omega (
        arith,
        ls_quantity,
        k.quantity,
        ap (open_quantity h) e,
        open_quantity-ne h r (x ∷ xs) (rw e at k.gone),
      );
    }

  -- The order was in a later level.
  later-Removed :
      (ls' : Levels) → Removed h id place n ls r ls' → Removed h id place n (l ∷ ls) r (l ∷ ls')
  unfolding total_quantity
  later-Removed ls' m =
      let other = All-HasKey (λ p. p ≢ l.0) m.price ls s.1 m.key in
      let ne =
        All-map (λ x u. ne_of_price h place m.price l.0 r x (λ e. other (sym e)) m.at u) l.1
          s.0.resting in
      record {
        price = m.price;
        at = m.at;
        key = inr m.key;
        stood = inr m.stood;
        below = m.below;
        by_id = m.by_id;
        kept = (
          record {
            nonempty = s.0.nonempty;
            ordered = s.0.ordered;
            resting = All-Rests-ne h place l.0 r l.1 ne s.0.resting;
          },
          NoKey-subset l.0 ls ls' m.keys s.1,
          m.kept,
        );
        keys = λ x a. ground (arith, m.keys x);
        gone = (ne, m.gone);
        quantity = omega (arith, m.quantity, open_quantity-ne h r l.1 ne);
      }

-- The search of a side takes one order out, with the id that was asked for.
pub remove_from_levels-Removed :
    (h : Heap) (id : String) (place : Place) (n : ℕ) (ls : Levels) (x : ℕ × Levels)
    → remove_from_levels h id ls ≡ some x
    → IsSide h place n ls
    → Removed h id place n ls x.0 x.1
unfolding remove_from_levels
remove_from_levels-Removed h id place n [] x e s = absurd (ground arith)
remove_from_levels-Removed h id place n (l ∷ ls) x e s =
    elim (Option-cases (remove_order h id l.1)) [
      | inl nothing ↦
          let (y, ey, same) = remove_from_levels_miss h id l ls x nothing e in
          subst (λ (z : ℕ × Levels). Removed h id place n (l ∷ ls) z.0 z.1) same
            (later-Removed h id place n l ls s y.0 y.1
              (remove_from_levels-Removed h id place n ls y ey s.2))
      | inr (y, ey) ↦
          let a = remove_order-All (Rests h place l.0) h id l.1 y ey s.0.resting in
          subst (λ (z : ℕ × Levels). Removed h id place n (l ∷ ls) z.0 z.1)
            (remove_from_levels_hit h id l ls y x ey e)
            (first-Removed h id place n l ls s y.0 a.0 y.1
              (remove_order-Taken h id 0 n l.1 y ey s.0.ordered) a.1 y.1 refl)
    ]
