-- ===== src/OrderBook/Best.antt =====
-- `min(keys)` and `max(keys)`: the best price among the keys.
use stock_trading_platform.Prelude.{
  Bool-cases, ltb, ◌==◌, subst, ℕ, ◌≡◌, none, some, List, [], ◌∷◌, All, All-map, arith, inl, inr,
  Option-cases, refl,
}
use stock_trading_platform.Events.{OrderSide, buy, sell}
use stock_trading_platform.OrderBook.Levels.{
  Levels, min_key, max_key, best_price, put_back, set_queue, del_level,
}
use stock_trading_platform.OrderBook.Trades.{Precedes, Precedes-refl, Precedes-trans}
use stock_trading_platform.OrderBook.Side.{HasKey}

-- A key of the side, at least as good as each.
pub record IsBest (side : OrderSide) (b : ℕ) (ls : Levels) : Type 0 where
  pub present : HasKey b ls
  pub first : All (λ e. Precedes side b e.0) ls

All-Precedes :
    (side : OrderSide) (b c : ℕ) (ls : Levels)
    → Precedes side b c
    → All (λ e. Precedes side c e.0) ls
    → All (λ e. Precedes side b e.0) ls
All-Precedes side b c ls p = All-map (λ e. Precedes-trans side b c e.0 p) ls

-- One more level in front of a side whose best price is known.
IsBest-cons_better :
    (side : OrderSide) (x : ℕ × List ℕ) (c : ℕ) (ls : Levels)
    → Precedes side x.0 c
    → IsBest side c ls
    → IsBest side x.0 (x ∷ ls)
IsBest-cons_better side x c ls p i = record {
  present = inl refl;
  first = (Precedes-refl side x.0, All-Precedes side x.0 c ls p i.first);
}

IsBest-cons_worse :
    (side : OrderSide) (x : ℕ × List ℕ) (c : ℕ) (ls : Levels)
    → Precedes side c x.0
    → IsBest side c ls
    → IsBest side c (x ∷ ls)
IsBest-cons_worse side x c ls p i = record { present = inr i.present; first = (p, i.first) }

IsBest-one : (side : OrderSide) (x : ℕ × List ℕ) → IsBest side x.0 (x ∷ [])
IsBest-one side x = record { present = inl refl; first = (Precedes-refl side x.0, tt) }

min_key-IsBest : (ls : Levels) (b : ℕ) → min_key ls ≡ some b → IsBest buy b ls
unfolding min_key
min_key-IsBest [] b e = absurd (ground arith)
min_key-IsBest (x ∷ []) b e = subst (λ p. IsBest buy p (x ∷ [])) (ground arith) (IsBest-one buy x)
min_key-IsBest (x ∷ y ∷ ls) b e = elim (Option-cases (min_key (y ∷ ls))) [
  | inl stop ↦ absurd (ground arith)
  | inr (c, ec) ↦ elim (Bool-cases (ltb c x.0)) [
    | inl better ↦
        subst (λ p. IsBest buy p (x ∷ y ∷ ls)) (ground arith)
          (IsBest-cons_worse buy x c (y ∷ ls) (ground arith) (min_key-IsBest (y ∷ ls) c ec))
    | inr worse ↦
        subst (λ p. IsBest buy p (x ∷ y ∷ ls)) (ground arith)
          (IsBest-cons_better buy x c (y ∷ ls) (ground arith) (min_key-IsBest (y ∷ ls) c ec))
  ]
]

max_key-IsBest : (ls : Levels) (b : ℕ) → max_key ls ≡ some b → IsBest sell b ls
unfolding max_key
max_key-IsBest [] b e = absurd (ground arith)
max_key-IsBest (x ∷ []) b e = subst (λ p. IsBest sell p (x ∷ [])) (ground arith) (IsBest-one sell x)
max_key-IsBest (x ∷ y ∷ ls) b e = elim (Option-cases (max_key (y ∷ ls))) [
  | inl stop ↦ absurd (ground arith)
  | inr (c, ec) ↦ elim (Bool-cases (ltb x.0 c)) [
    | inl better ↦
        subst (λ p. IsBest sell p (x ∷ y ∷ ls)) (ground arith)
          (IsBest-cons_worse sell x c (y ∷ ls) (ground arith) (max_key-IsBest (y ∷ ls) c ec))
    | inr worse ↦
        subst (λ p. IsBest sell p (x ∷ y ∷ ls)) (ground arith)
          (IsBest-cons_better sell x c (y ∷ ls) (ground arith) (max_key-IsBest (y ∷ ls) c ec))
  ]
]

pub best_price-IsBest :
    (side : OrderSide) (ls : Levels) (b : ℕ) → best_price side ls ≡ some b → IsBest side b ls
unfolding best_price
best_price-IsBest buy ls b e = min_key-IsBest ls b e
best_price-IsBest sell ls b e = max_key-IsBest ls b e

-- There is no best price exactly when the side is empty.
pub best_price-none : (side : OrderSide) (ls : Levels) → best_price side ls ≡ none → ls ≡ []
unfolding best_price min_key max_key
best_price-none buy [] e = refl
best_price-none sell [] e = refl
best_price-none buy (x ∷ ls) e = absurd (ground arith)
best_price-none sell (x ∷ ls) e = absurd (ground arith)

All-del_level {ℓ} :
    (P : ℕ → Type ℓ) (p : ℕ) (ls : Levels) → All (λ e. P e.0) ls → All (λ e. P e.0) (del_level p ls)
unfolding del_level
All-del_level P p [] a = tt
All-del_level P p (e ∷ ls) a = elim (Bool-cases (e.0 == p)) [
  | inl here ↦ rw here a.1
  | inr there ↦ rw there (a.0, All-del_level P p ls a.1)
]

pub All-set_queue {ℓ} :
    (P : ℕ → Type ℓ) (p : ℕ) (q : List ℕ) (ls : Levels)
    → All (λ e. P e.0) ls
    → All (λ e. P e.0) (set_queue p q ls)
unfolding set_queue
All-set_queue P p q [] a = tt
All-set_queue P p q (e ∷ ls) a = elim (Bool-cases (e.0 == p)) [
  | inl here ↦ rw here a
  | inr there ↦ rw there (a.0, All-set_queue P p q ls a.1)
]

-- What holds of every key still does after the best queue was filled from.
pub All-put_back {ℓ} :
    (P : ℕ → Type ℓ) (p : ℕ) (q : List ℕ) (ls : Levels)
    → All (λ e. P e.0) ls
    → All (λ e. P e.0) (put_back p q ls)
unfolding put_back
All-put_back P p [] ls a = All-del_level P p ls a
All-put_back P p (r ∷ rs) ls a = All-set_queue P p (r ∷ rs) ls a
