-- ===== src/OrderBook/Removal.antt =====
-- `remove_order` and `remove_from_levels`, the search of `cancel_order` through one side.
use stock_trading_platform.Prelude.{
  refl, ◌⊎◌, ℕ, suc, ◌+◌, ◌≤◌, ◌<◌, ◌≡◌, ◌≢◌, subst, String, true, false, none, some, List, [], ◌∷◌,
  All, arith, eq_iff, str_eq, inl, inr, Bool-cases, Option-cases,
}
use stock_trading_platform.Events.{Heap, remaining_quantity}
use stock_trading_platform.OrderBook.Levels.{Levels}
use stock_trading_platform.OrderBook.Resting.{Ascending, Ascending-weaken, open_quantity}
use stock_trading_platform.OrderBook.Book.{remove_order, remove_from_levels, keep_level}

-- The order stands in the queue, and in a queue of the levels.
abbrev pub InQueue : ℕ → List ℕ → Type 0
InQueue r [] = ⊥
InQueue r (x ∷ q) = (x ≡ r) ⊎ InQueue r q

abbrev pub InLevels : ℕ → Levels → Type 0
InLevels r [] = ⊥
InLevels r (e ∷ ls) = InQueue r e.1 ⊎ InLevels r ls

pub All-InQueue {ℓ} : (P : ℕ → Type ℓ) (r : ℕ) (q : List ℕ) → All P q → InQueue r q → P r
All-InQueue P r [] a i = absurd i
All-InQueue P r (x ∷ q) a (inl here) = subst P here a.0
All-InQueue P r (x ∷ q) a (inr there) = All-InQueue P r q a.1 there

-- How the search of a queue found what it found.
remove_order_hit :
    (h : Heap) (id : String) (r : ℕ) (rs : List ℕ) (x : ℕ × List ℕ)
    → str_eq (h r).order_id id ≡ true
    → remove_order h id (r ∷ rs) ≡ some x
    → ◌≡◌ {A = ℕ × List ℕ} (r, rs) x
unfolding remove_order
remove_order_hit h id r rs x hit e = ground arith

remove_order_miss :
    (h : Heap) (id : String) (r : ℕ) (rs : List ℕ) (x : ℕ × List ℕ)
    → str_eq (h r).order_id id ≡ false
    → remove_order h id (r ∷ rs) ≡ some x
    → (y : ℕ × List ℕ) × (remove_order h id rs ≡ some y) × ◌≡◌ {A = ℕ × List ℕ} (y.0, r ∷ y.1) x
unfolding remove_order
remove_order_miss h id r rs x miss e = elim (Option-cases (remove_order h id rs)) [
  | inl nothing ↦ absurd (ground arith)
  | inr (y, ey) ↦ (y, ey, ground arith)
]

-- An order taken from a queue.
pub record Taken (h : Heap) (id : String) (lo hi : ℕ) (q : List ℕ) (r : ℕ) (q' : List ℕ)
    : Type 0 where
  pub by_id : (h r).order_id ≡ id
  pub above : lo ≤ r
  pub below : r < hi
  pub stood : InQueue r q
  pub ordered : Ascending lo hi q'
  pub gone : All (λ x. x ≢ r) q'
  pub quantity : open_quantity h q' + remaining_quantity (h r) ≡ open_quantity h q

Ascending-ne : (r lo hi : ℕ) (q : List ℕ) → r < lo → Ascending lo hi q → All (λ x. x ≢ r) q
Ascending-ne r lo hi [] p a = tt
Ascending-ne r lo hi (x ∷ q) p a = (omega arith, Ascending-ne r (suc x) hi q (omega arith) a.2)

pub remove_order-Taken :
    (h : Heap) (id : String) (lo hi : ℕ) (q : List ℕ) (x : ℕ × List ℕ)
    → remove_order h id q ≡ some x
    → Ascending lo hi q
    → Taken h id lo hi q x.0 x.1
unfolding remove_order
remove_order-Taken h id lo hi [] x e a = absurd (ground arith)
remove_order-Taken h id lo hi (r ∷ rs) x e a = elim (Bool-cases (str_eq (h r).order_id id)) [
  | inl hit ↦
      subst (λ (y : ℕ × List ℕ). Taken h id lo hi (r ∷ rs) y.0 y.1)
        (remove_order_hit h id r rs x hit e)
        (record {
          by_id = (eq_iff (h r).order_id id).0 hit;
          above = a.0;
          below = a.1;
          stood = inl refl;
          ordered = Ascending-weaken (suc r) lo hi hi rs (omega arith) (omega arith) a.2;
          gone = Ascending-ne r (suc r) hi rs (omega arith) a.2;
          quantity = omega arith;
        })
  | inr miss ↦
      let (y, ey, same) = remove_order_miss h id r rs x miss e in
      let t = remove_order-Taken h id (suc r) hi rs y ey a.2 in
      subst (λ (z : ℕ × List ℕ). Taken h id lo hi (r ∷ rs) z.0 z.1) same
        (record {
          by_id = t.by_id;
          above = omega (arith, t.above, a.0);
          below = t.below;
          stood = inr t.stood;
          ordered = (a.0, a.1, t.ordered);
          gone = (omega (arith, t.above), t.gone);
          quantity = omega (arith, t.quantity);
        })
]

-- What holds of every order of the queue holds of the ones kept and of the one taken.
pub remove_order-All {ℓ} :
    (P : ℕ → Type ℓ) (h : Heap) (id : String) (q : List ℕ) (x : ℕ × List ℕ)
    → remove_order h id q ≡ some x
    → All P q
    → P x.0 × All P x.1
unfolding remove_order
remove_order-All P h id [] x e a = absurd (ground arith)
remove_order-All P h id (r ∷ rs) x e a = elim (Bool-cases (str_eq (h r).order_id id)) [
  | inl hit ↦ subst (λ (y : ℕ × List ℕ). P y.0 × All P y.1) (remove_order_hit h id r rs x hit e) a
  | inr miss ↦
      let (y, ey, same) = remove_order_miss h id r rs x miss e in
      let t = remove_order-All P h id rs y ey a.1 in
      subst (λ (z : ℕ × List ℕ). P z.0 × All P z.1) same (t.0, (a.0, t.1))
]

-- Nothing was found only if no order of the queue has the id.
pub remove_order-none :
    (h : Heap) (id : String) (q : List ℕ)
    → remove_order h id q ≡ none
    → All (λ x. (h x).order_id ≢ id) q
unfolding remove_order
remove_order-none h id [] e = tt
remove_order-none h id (r ∷ rs) e = elim (Bool-cases (str_eq (h r).order_id id)) [
  | inl hit ↦ absurd (ground arith)
  | inr miss ↦ (ground (arith, eq_iff (h r).order_id id), remove_order-none h id rs (ground arith))
]

-- The orders of the levels, as a predicate.
abbrev pub Everywhere {ℓ} : (ℕ → Type ℓ) → Levels → Type ℓ
Everywhere P = All (λ e. All P e.1)

pub Everywhere-InLevels {ℓ} :
    (P : ℕ → Type ℓ) (r : ℕ) (ls : Levels) → Everywhere P ls → InLevels r ls → P r
Everywhere-InLevels P r [] a i = absurd i
Everywhere-InLevels P r (e ∷ ls) a (inl here) = All-InQueue P r e.1 a.0 here
Everywhere-InLevels P r (e ∷ ls) a (inr there) = Everywhere-InLevels P r ls a.1 there

pub remove_from_levels-none :
    (h : Heap) (id : String) (ls : Levels)
    → remove_from_levels h id ls ≡ none
    → Everywhere (λ x. (h x).order_id ≢ id) ls
unfolding remove_from_levels
remove_from_levels-none h id [] e = tt
remove_from_levels-none h id (l ∷ ls) e = elim (Option-cases (remove_order h id l.1)) [
  | inl nothing ↦
      (remove_order-none h id l.1 nothing, remove_from_levels-none h id ls (ground arith))
  | inr (y, ey) ↦ absurd (ground arith)
]

-- How the search of the levels found what it found.
pub remove_from_levels_hit :
    (h : Heap) (id : String) (l : ℕ × List ℕ) (ls : Levels) (y : ℕ × List ℕ) (x : ℕ × Levels)
    → remove_order h id l.1 ≡ some y
    → remove_from_levels h id (l ∷ ls) ≡ some x
    → ◌≡◌ {A = ℕ × Levels} (y.0, keep_level (l.0, y.1) ls) x
unfolding remove_from_levels
remove_from_levels_hit h id l ls y x hit e = ground arith

pub remove_from_levels_miss :
    (h : Heap) (id : String) (l : ℕ × List ℕ) (ls : Levels) (x : ℕ × Levels)
    → remove_order h id l.1 ≡ none
    → remove_from_levels h id (l ∷ ls) ≡ some x
    → (y : ℕ × Levels) × (remove_from_levels h id ls ≡ some y)
      × ◌≡◌ {A = ℕ × Levels} (y.0, l ∷ y.1) x
unfolding remove_from_levels
remove_from_levels_miss h id l ls x miss e = elim (Option-cases (remove_from_levels h id ls)) [
  | inl nothing ↦ absurd (ground arith)
  | inr (y, ey) ↦ (y, ey, ground arith)
]
