-- ===== src/OrderBook/Priority/Sorting.antt =====
-- Levels sorted by their price: the best level comes out first.
use stock_trading_platform.Prelude.{
  ℕ, ◌≡◌, ◌≢◌, refl, ap, sym, ◌∙◌, subst, true, false, List, [], ◌∷◌, All, arith, ◌==◌, ==→eq,
  ==→ne, Bool-cases, inl, inr,
}
use stock_trading_platform.Events.{OrderSide, buy, sell}
use stock_trading_platform.OrderBook.Levels.{Levels, get_queue, del_level, set_queue}
use stock_trading_platform.OrderBook.Trades.{Precedes}
use stock_trading_platform.OrderBook.Side.{HasKey}
use stock_trading_platform.OrderBook.Priority.{is_better, insert_sorted_level, sort_levels}

module _ {ℓ} (P : ℕ × List ℕ → Type ℓ) (side : OrderSide) where
  All-insert_sorted_level :
      (e : ℕ × List ℕ) (ls : Levels) → P e → All P ls → All P (insert_sorted_level side e ls)
  All-insert_sorted_level e [] p a = (p, tt)
  All-insert_sorted_level e (d ∷ ls) p a = elim (Bool-cases (is_better side e.0 d.0)) [
    | inl first ↦ rw (first, insert_sorted_level) (p, a)
    | inr later ↦ rw (later, insert_sorted_level) (a.0, All-insert_sorted_level e ls p a.1)
  ]

  pub All-sort_levels : (ls : Levels) → All P ls → All P (sort_levels side ls)
  All-sort_levels [] a = tt
  All-sort_levels (e ∷ ls) a =
      All-insert_sorted_level e (sort_levels side ls) a.0 (All-sort_levels ls a.1)

Precedes→is_better : (side : OrderSide) (p q : ℕ) → Precedes side p q → is_better side p q ≡ true
Precedes→is_better buy p q a = ground arith
Precedes→is_better sell p q a = ground arith

worse : (side : OrderSide) (p q : ℕ) → Precedes side p q → q ≢ p → is_better side q p ≡ false
worse buy p q a ne = ground arith
worse sell p q a ne = ground arith

insert_front :
    (side : OrderSide) (e : ℕ × List ℕ) (ls : Levels)
    → All (λ d. Precedes side e.0 d.0) ls
    → insert_sorted_level side e ls ≡ e ∷ ls
insert_front side e [] a = refl
insert_front side e (d ∷ ls) a = rw (Precedes→is_better side e.0 d.0 a.0) refl

pub sort_levels-best :
    (side : OrderSide) (b : ℕ) (ls : Levels)
    → HasKey b ls
    → All (λ e. Precedes side b e.0) ls
    → sort_levels side ls ≡ (b, get_queue b ls) ∷ sort_levels side (del_level b ls)
unfolding get_queue del_level
sort_levels-best side b [] k a = absurd k
sort_levels-best side b (e ∷ ls) k a = elim (Bool-cases (e.0 == b)) [
  | inl here ↦ rw here (
      subst
        (λ (p : ℕ).
          insert_sorted_level side e (sort_levels side ls) ≡ (p, e.1) ∷ sort_levels side ls)
        (==→eq e.0 b here)
        (insert_front side e (sort_levels side ls) (
          All-sort_levels (λ d. Precedes side e.0 d.0) side ls
            (subst (λ p. All (λ d. Precedes side p d.0) ls) (sym (==→eq e.0 b here)) a.1))))
  | inr there ↦
      let k' : HasKey b ls = ground (arith, k) in
      rw there (
        ap (insert_sorted_level side e) (sort_levels-best side b ls k' a.1)
        ∙ rw (worse side b e.0 a.0 (==→ne e.0 b there)) refl)
]

-- A queue changed in place changes neither the keys nor the other levels.
pub get_queue-set_queue :
    (b : ℕ) (q : List ℕ) (ls : Levels) → HasKey b ls → get_queue b (set_queue b q ls) ≡ q
unfolding get_queue set_queue
get_queue-set_queue b q [] k = absurd k
get_queue-set_queue b q (e ∷ ls) k = ground (arith, k, get_queue-set_queue b q ls)

pub del_level-set_queue :
    (b : ℕ) (q : List ℕ) (ls : Levels) → del_level b (set_queue b q ls) ≡ del_level b ls
unfolding del_level set_queue
del_level-set_queue b q [] = refl
del_level-set_queue b q (e ∷ ls) = ground (arith, del_level-set_queue b q ls)

pub HasKey-set_queue :
    (b : ℕ) (q : List ℕ) (ls : Levels) → HasKey b ls → HasKey b (set_queue b q ls)
unfolding set_queue
HasKey-set_queue b q [] k = absurd k
HasKey-set_queue b q (e ∷ ls) k = ground (arith, k, HasKey-set_queue b q ls)
