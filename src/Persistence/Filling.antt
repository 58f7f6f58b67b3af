-- ===== src/Persistence/Filling.antt =====
-- Levels filled, order by order, with what was saved of a side.
use stock_trading_platform.Prelude.{
  ℕ, ◌≡◌, ◌≢◌, refl, ap, sym, ◌∙◌, some, none, List, [], ◌∷◌, ◌++◌, map, All, All-append, arith,
  append-nil, append_assoc,
}
use stock_trading_platform.Events.{Order, Heap}
use stock_trading_platform.OrderBook.Levels.{Levels}
use stock_trading_platform.OrderBook.Resting.{Place, Rests}
use stock_trading_platform.OrderBook.Side.{IsSide, NoKey}
use stock_trading_platform.Persistence.Snapshot.{saved_orders}
use stock_trading_platform.Persistence.Values.{Values, values, append_value}

abbrev pub price_of : Order → ℕ
price_of x = elim x.price [ none ↦ 0 | some p ↦ p ]

-- Each order to the end of the queue of its price.
abbrev pub fill_values : List Order → Values → Values
fill_values [] vs = vs
fill_values (x ∷ xs) vs = fill_values xs (append_value (price_of x) x vs)

abbrev NoValue : ℕ → Values → Type 0
NoValue p = All (λ e. e.0 ≢ p)

append_value-new :
    (p : ℕ) (x : Order) (vs : Values) → NoValue p vs → append_value p x vs ≡ vs ++ (p, x ∷ []) ∷ []
unfolding append_value
append_value-new p x [] a = refl
append_value-new p x ((k, ys) ∷ vs) a = ground (arith, a.0, append_value-new p x vs a.1)

append_value-last :
    (p : ℕ) (x : Order) (ys : List Order) (vs : Values)
    → NoValue p vs
    → append_value p x (vs ++ (p, ys) ∷ []) ≡ vs ++ (p, ys ++ x ∷ []) ∷ []
unfolding append_value
append_value-last p x ys [] a = ground arith
append_value-last p x ys ((k, zs) ∷ vs) a = ground (arith, a.0, append_value-last p x ys vs a.1)

fill_values-queue :
    (p : ℕ) (xs ys : List Order) (vs : Values)
    → All (λ x. price_of x ≡ p) xs
    → NoValue p vs
    → fill_values xs (vs ++ (p, ys) ∷ []) ≡ vs ++ (p, ys ++ xs) ∷ []
fill_values-queue p [] ys vs same a =
    ap (λ (zs : List Order). vs ++ (p, zs) ∷ []) (sym (append-nil ys))
fill_values-queue p (x ∷ xs) ys vs same a =
    ap (λ k. fill_values xs (append_value k x (vs ++ (p, ys) ∷ []))) same.0
    ∙ ap (fill_values xs) (append_value-last p x ys vs a)
    ∙ fill_values-queue p xs (ys ++ x ∷ []) vs same.1 a
    ∙ ap (λ (zs : List Order). vs ++ (p, zs) ∷ []) (append_assoc ys (x ∷ []) xs)

fill_values-level :
    (p : ℕ) (xs : List Order) (vs : Values)
    → xs ≢ []
    → All (λ x. price_of x ≡ p) xs
    → NoValue p vs
    → fill_values xs vs ≡ vs ++ (p, xs) ∷ []
fill_values-level p [] vs ne same a = absurd (ne refl)
fill_values-level p (x ∷ xs) vs ne same a =
    ap (λ k. fill_values xs (append_value k x vs)) same.0
    ∙ ap (fill_values xs) (append_value-new p x vs a)
    ∙ fill_values-queue p xs (x ∷ []) vs same.1 a

pub fill_values-append :
    (xs ys : List Order) (vs : Values)
    → fill_values (xs ++ ys) vs ≡ fill_values ys (fill_values xs vs)
fill_values-append [] ys vs = refl
fill_values-append (x ∷ xs) ys vs = fill_values-append xs ys (append_value (price_of x) x vs)

All-price :
    (h : Heap) (place : Place) (p : ℕ) (q : List ℕ)
    → All (Rests h place p) q
    → All (λ x. price_of x ≡ p) (map h q)
All-price h place p [] a = tt
All-price h place p (r ∷ q) a = (ground (arith, a.0.at_price), All-price h place p q a.1)

map-nonempty : (h : Heap) (q : List ℕ) → q ≢ [] → map h q ≢ []
map-nonempty h [] ne = absurd (ne refl)
map-nonempty h (r ∷ q) ne = λ e. absurd (ground arith)

NoValue-next :
    (h : Heap) (p : ℕ) (xs : List Order) (vs : Values) (ls : Levels)
    → NoKey p ls
    → All (λ e. NoValue e.0 vs) ls
    → All (λ e. NoValue e.0 (vs ++ (p, xs) ∷ [])) ls
NoValue-next h p xs vs [] k a = tt
NoValue-next h p xs vs (e ∷ ls) k a = (
  All-append (λ d. d.0 ≢ e.0) vs ((p, xs) ∷ []) a.0 ((λ same. k.0 (sym same)), tt),
  NoValue-next h p xs vs ls k.1 a.1,
)

-- The saved orders of a side fill empty levels to what the side was.
fill_values-saved_orders_onto :
    (h : Heap) (place : Place) (n : ℕ) (ls : Levels) (vs : Values)
    → IsSide h place n ls
    → All (λ e. NoValue e.0 vs) ls
    → fill_values (saved_orders h ls) vs ≡ vs ++ values h ls
unfolding saved_orders values
fill_values-saved_orders_onto h place n [] vs s a = sym (append-nil vs)
fill_values-saved_orders_onto h place n ((p, q) ∷ ls) vs s a =
    fill_values-append (map h q) (saved_orders h ls) vs
    ∙ ap (fill_values (saved_orders h ls)) (
        fill_values-level p (map h q) vs (map-nonempty h q s.0.nonempty)
          (All-price h place p q s.0.resting) a.0)
    ∙ fill_values-saved_orders_onto h place n ls (vs ++ (p, map h q) ∷ []) s.2
        (NoValue-next h p (map h q) vs ls s.1 a.1)
    ∙ append_assoc vs ((p, map h q) ∷ []) (values h ls)

All-trivial : (ls : Levels) → All (λ e. NoValue e.0 []) ls
All-trivial [] = tt
All-trivial (e ∷ ls) = (tt, All-trivial ls)

pub fill_values-saved_orders :
    (h : Heap) (place : Place) (n : ℕ) (ls : Levels)
    → IsSide h place n ls
    → fill_values (saved_orders h ls) [] ≡ values h ls
fill_values-saved_orders h place n ls s =
    fill_values-saved_orders_onto h place n ls [] s (All-trivial ls)
