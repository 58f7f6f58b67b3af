-- ===== src/Engine/Registry.antt =====
-- The registry of a `MatchingEngine`: what rests in a book is registered under its id.
pub mod Submission
pub mod Cancellation
pub mod Liveness
pub mod Sequences
mod Tests
use stock_trading_platform.Prelude.{
  ℕ, suc, ◌≤◌, ◌≡◌, ◌≢◌, refl, ap, sym, ◌∙◌, subst, String, true, false, not, Option, none, some,
  List, [], ◌∷◌, All, All-map, arith, str_eq, eq_iff, eq_refl, Bool-cases, inl, inr, if◌then◌else◌,
}
use stock_trading_platform.Prelude.Dict.{Dict, lookup, insert, erase, lookup-insert, lookup-erase}
use stock_trading_platform.Events.{Order, Heap, is_complete}
use stock_trading_platform.OrderBook.Levels.{Levels}
use stock_trading_platform.OrderBook.Book.{OrderBook, Outcome, Result, ok, raise}
use stock_trading_platform.OrderBook.Removal.{Everywhere}
use stock_trading_platform.OrderBook.Members.Operations.{
  EveryOrder, OnOk, by_type, Enters, add_limit_order-Enters, execute_market_order-Enters,
}
use stock_trading_platform.Engine.Manager.{is_supported, route_order, submit_order}
use stock_trading_platform.Engine.Matcher.{MatchingEngine, EngineOutcome, register, engine_submit}
use stock_trading_platform.Engine.Routing
use stock_trading_platform.Engine.Routing.{IsSubmittable, IsManager}
use stock_trading_platform.Engine.Eviction.{IsDistinct, Without}

-- The registry has the order under its id, with the ticker.
abbrev pub Filed : Heap → Dict (String × ℕ) → String → ℕ → Type 0
Filed h d t x = lookup (h x).order_id d ≡ some (t, x)

-- An engine in order: its books, and all that rests in them is registered. So no two resting
-- orders share an id.
pub record IsEngine (h : Heap) (n : ℕ) (e : MatchingEngine) : Type 0 where
  pub books : IsManager h n e.manager
  pub filed :
      (t : String) (b : OrderBook)
      → lookup t e.manager.order_books ≡ some b
      → EveryOrder (Filed h e.order_registry t) b
  pub distinct : IsDistinct e.order_registry

Everywhere-map :
    (P Q : ℕ → Type 0) → ((x : ℕ) → P x → Q x) → (ls : Levels) → Everywhere P ls → Everywhere Q ls
Everywhere-map P Q f ls = All-map (λ e. All-map f e.1) ls

pub EveryOrder-map :
    (P Q : ℕ → Type 0) → ((x : ℕ) → P x → Q x) → (b : OrderBook) → EveryOrder P b → EveryOrder Q b
EveryOrder-map P Q f b a = (Everywhere-map P Q f b.bids a.0, Everywhere-map P Q f b.asks a.1)

All-zip : (P Q : ℕ → Type 0) (q : List ℕ) → All P q → All Q q → All (λ x. P x × Q x) q
All-zip P Q [] a b = tt
All-zip P Q (x ∷ q) a b = ((a.0, b.0), All-zip P Q q a.1 b.1)

Everywhere-zip :
    (P Q : ℕ → Type 0) (ls : Levels)
    → Everywhere P ls
    → Everywhere Q ls
    → Everywhere (λ x. P x × Q x) ls
Everywhere-zip P Q [] a b = tt
Everywhere-zip P Q (e ∷ ls) a b = (All-zip P Q e.1 a.0 b.0, Everywhere-zip P Q ls a.1 b.1)

pub EveryOrder-zip :
    (P Q : ℕ → Type 0) (b : OrderBook)
    → EveryOrder P b
    → EveryOrder Q b
    → EveryOrder (λ x. P x × Q x) b
EveryOrder-zip P Q b a c = (Everywhere-zip P Q b.bids a.0 c.0, Everywhere-zip P Q b.asks a.1 c.1)

Without-insert :
    (k j : String) (v : String × ℕ) (d : Dict (String × ℕ))
    → str_eq j k ≡ false
    → Without k d
    → Without k (insert j v d)
unfolding insert
Without-insert k j v [] ne w = (ne, tt)
Without-insert k j v ((i, x) ∷ d) ne w = elim (Bool-cases (str_eq i j)) [
  | inl here ↦ rw here w
  | inr there ↦ rw there (w.0, Without-insert k j v d ne w.1)
]

IsDistinct-insert :
    (k : String) (v : String × ℕ) (d : Dict (String × ℕ)) → IsDistinct d → IsDistinct (insert k v d)
unfolding insert
IsDistinct-insert k v [] w = (tt, tt)
IsDistinct-insert k v ((i, x) ∷ d) w = elim (Bool-cases (str_eq i k)) [
  | inl here ↦ rw here w
  | inr there ↦ rw there (
    Without-insert i k v d (ground (arith, eq_iff i k, eq_iff k i)) w.0,
    IsDistinct-insert k v d w.1,
  )
]

Without-erase : (k j : String) (d : Dict (String × ℕ)) → Without k d → Without k (erase j d)
unfolding erase
Without-erase k j [] w = tt
Without-erase k j ((i, x) ∷ d) w = elim (Bool-cases (str_eq i j)) [
  | inl here ↦ rw here (Without-erase k j d w.1)
  | inr there ↦ rw there (w.0, Without-erase k j d w.1)
]

pub IsDistinct-erase : (k : String) (d : Dict (String × ℕ)) → IsDistinct d → IsDistinct (erase k d)
unfolding erase
IsDistinct-erase k [] w = tt
IsDistinct-erase k ((i, x) ∷ d) w = elim (Bool-cases (str_eq i k)) [
  | inl here ↦ rw here (IsDistinct-erase k d w.1)
  | inr there ↦ rw there (Without-erase i k d w.0, IsDistinct-erase k d w.1)
]
