-- ===== src/Persistence/Values.antt =====
-- Levels seen by the values of their orders, whatever objects hold them; and what filling levels
-- with a saved list of orders makes of them.
use stock_trading_platform.Prelude.{
  ℕ, suc, ◌<◌, ◌≡◌, refl, List, [], ◌∷◌, ◌++◌, map, map-append, All, All-map, All-append, arith,
  ◌==◌, if◌then◌else◌, Bool-cases, inl, inr,
}
use stock_trading_platform.Events.{Order, Heap, write}
use stock_trading_platform.OrderBook.Levels.{Levels, append_order}

abbrev pub Values : Type 0
Values = List (ℕ × List Order)

-- The prices in their order, each with its orders from the oldest on.
unfoldable pub values : Heap → Levels → Values
values h [] = []
values h ((p, q) ∷ ls) = (p, map h q) ∷ values h ls

unfoldable pub append_value : ℕ → Order → Values → Values
append_value p x [] = (p, x ∷ []) ∷ []
append_value p x ((k, ys) ∷ vs) =
    if k == p then (k, ys ++ x ∷ []) ∷ vs else (k, ys) ∷ append_value p x vs

pub values-append_order :
    (h : Heap) (p r : ℕ) (ls : Levels)
    → values h (append_order p r ls) ≡ append_value p (h r) (values h ls)
unfolding values append_order append_value
values-append_order h p r [] = refl
values-append_order h p r ((k, q) ∷ ls) =
    ground (arith, map-append h q (r ∷ []), values-append_order h p r ls)

-- All references are below `n`.
abbrev pub Below : ℕ → Levels → Type 0
Below n = All (λ e. All (λ r. r < n) e.1)

All-below-suc : (n : ℕ) (q : List ℕ) → All (λ r. r < n) q → All (λ r. r < suc n) q
All-below-suc n q b = All-map (λ r p. omega arith) q b

pub Below-append_order : (n p : ℕ) (ls : Levels) → Below n ls → Below (suc n) (append_order p n ls)
unfolding append_order
Below-append_order n p [] b = ((omega arith, tt), tt)
Below-append_order n p ((k, q) ∷ ls) b = elim (Bool-cases (k == p)) [
  | inl e ↦ rw e (
    All-append (λ r. r < suc n) q (n ∷ []) (All-below-suc n q b.0) (omega arith, tt),
    All-map (λ e. All-below-suc n e.1) ls b.1,
  )
  | inr e ↦ rw e (All-below-suc n q b.0, Below-append_order n p ls b.1)
]

pub Below-suc : (n : ℕ) (ls : Levels) → Below n ls → Below (suc n) ls
Below-suc n ls b = All-map (λ e. All-below-suc n e.1) ls b

map-write :
    (h : Heap) (n : ℕ) (x : Order) (q : List ℕ) → All (λ r. r < n) q → map (write h n x) q ≡ map h q
map-write h n x [] b = refl
map-write h n x (r ∷ q) b = ground (arith, b.0, map-write h n x q b.1)

-- A new object changes no order that is there.
pub values-write :
    (h : Heap) (n : ℕ) (x : Order) (ls : Levels)
    → Below n ls
    → values (write h n x) ls ≡ values h ls
unfolding values
values-write h n x [] b = refl
values-write h n x ((k, q) ∷ ls) b =
    ground (arith, map-write h n x q b.0, values-write h n x ls b.1)
