-- ===== src/OrderBook/Side.antt =====
-- The invariant of one side of a book, and how the operations on levels keep it.
pub mod PutBack
use stock_trading_platform.Prelude.{
  sym, ==→eq, ==→ne, subst, ℕ, suc, ◌+◌, ◌≤◌, ◌<◌, ◌≡◌, ◌≢◌, refl, some, List, [], ◌∷◌, ◌++◌, All,
  All-map, All-append, arith, ◌==◌, if◌then◌else◌, inl, inr, Bool-cases, ◌⊎◌, length,
}
use stock_trading_platform.Events.{OrderSide, Heap}
use stock_trading_platform.OrderBook.Levels.{
  Levels, get_queue, append_order, del_level, set_queue, put_back,
}
use stock_trading_platform.OrderBook.Resting.{
  Place, Rests, Ascending, Ascending-weaken, Ascending-append, All-Rests-frame, open_quantity,
  open_quantity-frame, open_quantity-frame-Rests,
}

-- A level: a queue with somebody in it, oldest first, all at its price.
pub record IsLevel (h : Heap) (place : Place) (n : ℕ) (level : ℕ × List ℕ) : Type 0 where
  pub nonempty : level.1 ≢ []
  pub ordered : Ascending 0 n level.1
  pub resting : All (Rests h place level.0) level.1

abbrev pub NoKey : ℕ → Levels → Type 0
NoKey p = All (λ e. e.0 ≢ p)

-- The levels of a side have distinct prices; `n` bounds their references.
abbrev pub IsSide : Heap → Place → ℕ → Levels → Type 0
IsSide h place n [] = Unit
IsSide h place n (e ∷ ls) = IsLevel h place n e × NoKey e.0 ls × IsSide h place n ls

-- The price is a key.
abbrev pub HasKey : ℕ → Levels → Type 0
HasKey p [] = ⊥
HasKey p (e ∷ ls) = (e.0 ≡ p) ⊎ HasKey p ls

unfoldable pub total_quantity : Heap → Levels → ℕ
total_quantity h [] = 0
total_quantity h (e ∷ ls) = open_quantity h e.1 + total_quantity h ls

pub IsLevel-frame :
    (h h' : Heap) (place : Place) (n n' : ℕ) (e : ℕ × List ℕ)
    → n ≤ n'
    → ((x : ℕ) → x < n → Rests h place e.0 x → Rests h' place e.0 x)
    → IsLevel h place n e
    → IsLevel h' place n' e
IsLevel-frame h h' place n n' e le f l = record {
  nonempty = l.nonempty;
  ordered = Ascending-weaken 0 0 n n' e.1 (omega arith) le l.ordered;
  resting = All-Rests-frame h h' place e.0 0 n e.1 (λ x p q. f x q) l.ordered l.resting;
}

-- Levels at other prices than `p` do not see a change of the orders at `p`.
pub IsSide-frame_ne :
    (h h' : Heap) (place : Place) (p n n' : ℕ) (ls : Levels)
    → n ≤ n'
    → ((x price : ℕ) → price ≢ p → x < n → Rests h place price x → Rests h' place price x)
    → NoKey p ls
    → IsSide h place n ls
    → IsSide h' place n' ls
IsSide-frame_ne h h' place p n n' [] le f k s = tt
IsSide-frame_ne h h' place p n n' (e ∷ ls) le f k s = (
  IsLevel-frame h h' place n n' e le (λ x. f x e.0 k.0) s.0,
  s.1,
  IsSide-frame_ne h h' place p n n' ls le f k.1 s.2,
)

pub IsSide-frame :
    (h h' : Heap) (place : Place) (n n' : ℕ) (ls : Levels)
    → n ≤ n'
    → ((x price : ℕ) → x < n → Rests h place price x → Rests h' place price x)
    → IsSide h place n ls
    → IsSide h' place n' ls
IsSide-frame h h' place n n' [] le f s = tt
IsSide-frame h h' place n n' (e ∷ ls) le f s = (
  IsLevel-frame h h' place n n' e le (λ x. f x e.0) s.0,
  s.1,
  IsSide-frame h h' place n n' ls le f s.2,
)

-- The level at a key.
pub IsSide-get_queue :
    (h : Heap) (place : Place) (n p : ℕ) (ls : Levels)
    → HasKey p ls
    → IsSide h place n ls
    → IsLevel h place n (p, get_queue p ls)
unfolding get_queue
IsSide-get_queue h place n p [] k s = absurd k
IsSide-get_queue h place n p (e ∷ ls) k s = elim (Bool-cases (e.0 == p)) [
  | inl here ↦ rw here (subst (λ x. IsLevel h place n (x, e.1)) (==→eq e.0 p here) s.0)
  | inr there ↦ rw there (IsSide-get_queue h place n p ls (ground (arith, ==→ne e.0 p there)) s.2)
]

NoKey-set_queue : (p x : ℕ) (q : List ℕ) (ls : Levels) → NoKey x ls → NoKey x (set_queue p q ls)
unfolding set_queue
NoKey-set_queue p x q [] k = tt
NoKey-set_queue p x q (e ∷ ls) k = ground (arith, NoKey-set_queue p x q ls k.1)

NoKey-del_level : (p x : ℕ) (ls : Levels) → NoKey x ls → NoKey x (del_level p ls)
unfolding del_level
NoKey-del_level p x [] k = tt
NoKey-del_level p x (e ∷ ls) k = ground (arith, NoKey-del_level p x ls k.1)

NoKey-append_order : (p r x : ℕ) (ls : Levels) → x ≢ p → NoKey x ls → NoKey x (append_order p r ls)
unfolding append_order
NoKey-append_order p r x [] ne k = ground arith
NoKey-append_order p r x (e ∷ ls) ne k = ground (arith, NoKey-append_order p r x ls ne k.1)

append-ne-nil : (xs : List ℕ) (r : ℕ) → xs ++ r ∷ [] ≢ []
append-ne-nil [] r e = ground arith
append-ne-nil (x ∷ xs) r e = ground arith

-- A new order at the end of its price's queue.
pub IsSide-append_order :
    (h : Heap) (place : Place) (n p r : ℕ) (ls : Levels)
    → n ≤ r
    → Rests h place p r
    → IsSide h place n ls
    → IsSide h place (suc r) (append_order p r ls)
unfolding append_order
IsSide-append_order h place n p r [] le rest s = (
  record {
    nonempty = λ e. ground arith;
    ordered = (omega arith, omega arith, tt);
    resting = (rest, tt);
  },
  tt,
  tt,
)
IsSide-append_order h place n p r (e ∷ ls) le rest s = elim (Bool-cases (e.0 == p)) [
  | inl here ↦ rw here (
    record {
      nonempty = append-ne-nil e.1 r;
      ordered = Ascending-append 0 n r e.1 s.0.ordered (omega arith) le;
      resting =
          All-append (Rests h place e.0) e.1 (r ∷ []) s.0.resting (rw (==→eq e.0 p here) rest, tt);
    },
    s.1,
    IsSide-frame h h place n (suc r) ls (omega arith) (λ x price l t. t) s.2,
  )
  | inr there ↦ rw there (
    IsLevel-frame h h place n (suc r) e (omega arith) (λ x l t. t) s.0,
    NoKey-append_order p r e.0 ls (==→ne e.0 p there) s.1,
    IsSide-append_order h place n p r ls le rest s.2,
  )
]

pub All-HasKey {ℓ} :
    (P : ℕ → Type ℓ) (p : ℕ) (ls : Levels) → All (λ e. P e.0) ls → HasKey p ls → P p
All-HasKey P p [] a k = absurd k
All-HasKey P p (e ∷ ls) a (inl here) = subst P here a.0
All-HasKey P p (e ∷ ls) a (inr there) = All-HasKey P p ls a.1 there

-- Where the keys of changed levels come from.
pub HasKey-append_order :
    (p r k : ℕ) (ls : Levels) → HasKey k (append_order p r ls) → (k ≡ p) ⊎ HasKey k ls
unfolding append_order
HasKey-append_order p r k [] a = ground arith
HasKey-append_order p r k (e ∷ ls) a = ground (arith, HasKey-append_order p r k ls)

pub total_quantity-frame_below :
    (h h' : Heap) (place : Place) (n : ℕ) (ls : Levels)
    → ((x : ℕ) → x < n → h' x ≡ h x)
    → IsSide h place n ls
    → total_quantity h' ls ≡ total_quantity h ls
unfolding total_quantity
total_quantity-frame_below h h' place n [] f s = refl
total_quantity-frame_below h h' place n (e ∷ ls) f s = omega (
  arith,
  open_quantity-frame h h' 0 n e.1 (λ x p q. f x q) s.0.ordered,
  total_quantity-frame_below h h' place n ls f s.2,
)
