-- ===== src/Api/Idempotency.antt =====
-- `class IdempotencyStore` of trading/api/dependencies.py. Times count seconds.
use stock_trading_platform.Prelude.{
  ℕ, ◌+◌, ◌*◌, ◌≤◌, ◌≡◌, String, Bool, true, false, Option, none, some, ltb, arith, [],
  if◌then◌else◌, eq_iff, str_eq, inl, inr, List, ◌∷◌, Bool-cases,
}
use stock_trading_platform.Prelude.Dict.{Dict, lookup, insert, erase, lookup-insert, lookup-erase}
use stock_trading_platform.Api.Schemas.{OrderResponse}

pub record IdempotencyStore : Type 0 where
  pub cache : Dict OrderResponse
  pub expires_at : Dict ℕ

unfoldable pub init_store : IdempotencyStore
init_store = record { cache = []; expires_at = [] }

abbrev pub drop : String → IdempotencyStore → IdempotencyStore
drop id s = record { cache = erase id s.cache; expires_at = erase id s.expires_at }

abbrev pub is_expired : ℕ → Option ℕ → Bool
is_expired now none = false
is_expired now (some expiry) = ltb expiry now

-- `get`: an expired entry is dropped first. `del` finds the entry in both dicts: they have the same
-- keys (`Synced`).
unfoldable pub get : ℕ → String → IdempotencyStore → IdempotencyStore × Option OrderResponse
get now id s =
    if is_expired now (lookup id s.expires_at) then (drop id s, none) else (s, lookup id s.cache)

-- `store`
unfoldable pub store :
    ℕ → String → OrderResponse → (ttl_hours : ℕ) → IdempotencyStore → IdempotencyStore
store now id r ttl_hours s = record {
  cache = insert id r s.cache;
  expires_at = insert id (now + ttl_hours * 3_600) s.expires_at;
}

-- `restore`
unfoldable pub restore :
    ℕ → String → OrderResponse → (expiry : ℕ) → IdempotencyStore → IdempotencyStore
restore now id r expiry s =
    if ltb now expiry
    then record { cache = insert id r s.cache; expires_at = insert id expiry s.expires_at }
    else s

-- `__contains__`
unfoldable pub has : ℕ → String → IdempotencyStore → IdempotencyStore × Bool
unfolding get
has now id s = let found = get now id s in (found.0, elim found.1 [ none ↦ false | some r ↦ true ])

abbrev SameKey : Option OrderResponse → Option ℕ → Type 0
SameKey none none = Unit
SameKey none (some e) = ⊥
SameKey (some r) none = ⊥
SameKey (some r) (some e) = Unit

-- Both dicts have the same keys.
abbrev pub Synced : IdempotencyStore → Type 0
Synced s = (id : String) → SameKey (lookup id s.cache) (lookup id s.expires_at)

-- What a store answers at a time, without its effect on the store.
abbrev pub answer : ℕ → String → IdempotencyStore → Option OrderResponse
answer now id s = (get now id s).1

-- A response is answered from its storing until its expiry, the instant of expiry included, and
-- never after; the answers for other ids do not change.
pub answer-store :
    (now later : ℕ) (id j : String) (r : OrderResponse) (ttl : ℕ) (s : IdempotencyStore)
    → answer later j (store now id r ttl s) ≡ (
        if str_eq id j
        then (if ltb (now + ttl * 3_600) later then none else some r)
        else answer later j s)
unfolding get store
answer-store now later id j r ttl s = ground (
  arith,
  lookup-insert id j r s.cache,
  lookup-insert id j (now + ttl * 3_600) s.expires_at,
  eq_iff id j,
)

-- Asking for an id, at whatever time before, changes no later answer for any id.
pub answer-get :
    (now later : ℕ) (id j : String) (s : IdempotencyStore)
    → now ≤ later
    → answer later j (get now id s).0 ≡ answer later j s
unfolding get
answer-get now later id j s le =
    ground (arith, lookup-erase id j s.cache, lookup-erase id j s.expires_at, eq_iff id j)

Synced-insert :
    (id : String) (r : OrderResponse) (expiry : ℕ) (s : IdempotencyStore)
    → Synced s
    → Synced (record { cache = insert id r s.cache; expires_at = insert id expiry s.expires_at })
Synced-insert id r expiry s same j =
    rw (lookup-insert id j r s.cache, lookup-insert id j expiry s.expires_at)
      (elim (Bool-cases (str_eq id j)) [ inl e ↦ rw e tt | inr e ↦ rw e (same j) ])

Synced-drop : (id : String) (s : IdempotencyStore) → Synced s → Synced (drop id s)
Synced-drop id s same j =
    rw (lookup-erase id j s.cache, lookup-erase id j s.expires_at)
      (elim (Bool-cases (str_eq id j)) [ inl e ↦ rw e tt | inr e ↦ rw e (same j) ])

-- What is done to a store.
pub data Call : Type 0 where
  gets : ℕ → String → Call
  stores : ℕ → String → OrderResponse → ℕ → Call
  restores : ℕ → String → OrderResponse → ℕ → Call

abbrev pub call : Call → IdempotencyStore → IdempotencyStore
call (gets now id) s = (get now id s).0
call (stores now id r ttl) s = store now id r ttl s
call (restores now id r expiry) s = restore now id r expiry s

abbrev pub calls : List Call → IdempotencyStore → IdempotencyStore
calls [] s = s
calls (c ∷ cs) s = calls cs (call c s)

Synced-call : (c : Call) (s : IdempotencyStore) → Synced s → Synced (call c s)
unfolding get store restore
Synced-call (gets now id) s same = elim (Bool-cases (is_expired now (lookup id s.expires_at))) [
  | inl e ↦ rw (e, call, get) (Synced-drop id s same)
  | inr e ↦ rw (e, call, get) same
]
Synced-call (stores now id r ttl) s same = Synced-insert id r (now + ttl * 3_600) s same
Synced-call (restores now id r expiry) s same = elim (Bool-cases (ltb now expiry)) [
  | inl e ↦ rw (e, call, restore) (Synced-insert id r expiry s same)
  | inr e ↦ rw (e, call, restore) same
]

Synced-calls : (cs : List Call) (s : IdempotencyStore) → Synced s → Synced (calls cs s)
Synced-calls [] s same = same
Synced-calls (c ∷ cs) s same = Synced-calls cs (call c s) (Synced-call c s same)

-- After any calls on a new store both dicts have the same keys: the two `del` of `get` find theirs.
pub init_store-Synced : (cs : List Call) → Synced (calls cs init_store)
unfolding init_store lookup
init_store-Synced cs = Synced-calls cs init_store (λ id. tt)
