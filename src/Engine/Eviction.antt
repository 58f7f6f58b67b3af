-- ===== src/Engine/Eviction.antt =====
-- `MatchingEngine.evict_stale_registry`.
use stock_trading_platform.Prelude.{
  ℕ, ◌≡◌, refl, ap, ◌∙◌, subst, String, Bool, false, ◌&&◌, Option, none, some, List, [], ◌∷◌, All,
  arith, str_eq, eq_iff, Bool-cases, inl, inr, if◌then◌else◌,
}
use stock_trading_platform.Prelude.Dict.{Dict, lookup, lookup-erase}
use stock_trading_platform.Events.{Heap, is_complete}
use stock_trading_platform.Engine.Manager.{is_supported}
use stock_trading_platform.Engine.Matcher.{
  MatchingEngine, is_stale, to_evict, unregister, unregister_all, evict_stale_registry,
}

-- The id is none of these.
abbrev pub Without : String → Dict (String × ℕ) → Type 0
Without id = All (λ e. str_eq e.0 id ≡ false)

-- A Python dict has each key once.
abbrev pub IsDistinct : Dict (String × ℕ) → Type 0
IsDistinct [] = Unit
IsDistinct (e ∷ d) = Without e.0 d × IsDistinct d

abbrev among : String → List String → Bool
among id ids = is_supported id ids

-- A registered order is evicted: it is complete, and its time is past the cutoff or missing.
abbrev pub evicts : ℕ → ℕ → Heap → Dict ℕ → String → Option (String × ℕ) → Bool
evicts now ttl h times id none = false
evicts now ttl h times id (some (t, r)) = is_complete (h r) && is_stale now ttl (lookup id times)

module _ (now ttl : ℕ) (h : Heap) (times : Dict ℕ) (id : String) where
  among-Without :
      (d : Dict (String × ℕ)) → Without id d → among id (to_evict now ttl h times d) ≡ false
  unfolding to_evict is_supported
  among-Without [] w = refl
  among-Without ((j, (t, r)) ∷ d) w = ground (arith, w.0, among-Without d w.1)

  among-to_evict :
      (d : Dict (String × ℕ))
      → IsDistinct d
      → among id (to_evict now ttl h times d) ≡ evicts now ttl h times id (lookup id d)
  unfolding to_evict is_supported lookup
  among-to_evict [] w = refl
  among-to_evict ((j, (t, r)) ∷ d) w = elim (Bool-cases (str_eq j id)) [
    | inl here ↦
        let same = (eq_iff j id).0 here in
        ground (
          arith,
          here,
          same,
          ap (λ k. lookup k times) same,
          among-Without d (subst (λ k. Without k d) same w.0),
        )
    | inr there ↦ ground (arith, there, among-to_evict d w.1)
  ]

lookup-unregister_all :
    (id : String) (ids : List String) (e : MatchingEngine)
    → lookup id (unregister_all ids e).order_registry
      ≡ (if among id ids then none else lookup id e.order_registry)
unfolding unregister_all is_supported
lookup-unregister_all id [] e = refl
lookup-unregister_all id (j ∷ ids) e =
    ground
      (arith, lookup-unregister_all id ids (unregister j e), lookup-erase j id e.order_registry)

pub unregister_all-manager :
    (ids : List String) (e : MatchingEngine) → (unregister_all ids e).manager ≡ e.manager
unfolding unregister_all
unregister_all-manager [] e = refl
unregister_all-manager (j ∷ ids) e = unregister_all-manager ids (unregister j e)

-- In a registry with distinct ids an eviction removes exactly the orders that are complete and
-- whose registration is older than the ttl or has no time; every other order stays registered, and
-- the books are untouched.
pub lookup-evict_stale_registry :
    (now ttl : ℕ) (h : Heap) (e : MatchingEngine) (id : String)
    → IsDistinct e.order_registry
    → (lookup id (evict_stale_registry now ttl h e).0.order_registry ≡ (
        if evicts now ttl h e.registry_timestamps id (lookup id e.order_registry)
        then none
        else lookup id e.order_registry))
      × ((evict_stale_registry now ttl h e).0.manager ≡ e.manager)
unfolding evict_stale_registry
lookup-evict_stale_registry now ttl h e id w = (
  lookup-unregister_all id (to_evict now ttl h e.registry_timestamps e.order_registry) e
      ∙ ap (λ (b : Bool). if b then none else lookup id e.order_registry)
          (among-to_evict now ttl h e.registry_timestamps id e.order_registry w),
  unregister_all-manager (to_evict now ttl h e.registry_timestamps e.order_registry) e,
)
