-- ===== src/Prelude/Dict.antt =====
-- A Python dict with text keys, in insertion order.
use stock_trading_platform.Prelude.Tests.{if◌then◌else◌, Bool-cases}
use Prim.Native.String.{String}
use mathlib.Core.Path.{◌≡◌, refl}
use mathlib.Core.Logic.{inl, inr}
use mathlib.Core.Bool.{Bool, true, false}
use mathlib.Core.Option.{Option, none, some}
use mathlib.Core.List.{List, [], ◌∷◌}
use native.Mathlib.Omega.{arith}
use text.Mathlib.Text.{◌==◌}
use text.Mathlib.TextEquality.{eq_iff}

abbrev pub Dict {ℓ} : Type ℓ → Type ℓ
Dict V = List (String × V)

module _ {ℓ} {V : Type ℓ} where
  -- `d.get(k)`
  unfoldable pub lookup : String → Dict V → Option V
  lookup k [] = none
  lookup k ((j, v) ∷ d) = if j == k then some v else lookup k d

  -- `d[k] = v`: an old key keeps its place, a new one goes to the end.
  unfoldable pub insert : String → V → Dict V → Dict V
  insert k v [] = (k, v) ∷ []
  insert k v ((j, w) ∷ d) = if j == k then (j, v) ∷ d else (j, w) ∷ insert k v d

  -- `del d[k]` and `d.pop(k, None)`. The keys of a dict are distinct, so one entry goes at most.
  unfoldable pub erase : String → Dict V → Dict V
  erase k [] = []
  erase k ((j, w) ∷ d) = if j == k then erase k d else (j, w) ∷ erase k d

  pub lookup-insert :
      (k j : String) (v : V) (d : Dict V)
      → lookup j (insert k v d) ≡ (if k == j then some v else lookup j d)
  unfolding lookup insert
  lookup-insert k j v [] = refl
  lookup-insert k j v ((i, w) ∷ d) =
      ground (arith, eq_iff k j, eq_iff i k, eq_iff i j, lookup-insert k j v d)

  -- To store what is there already changes nothing.
  pub insert-lookup : (k : String) (v : V) (d : Dict V) → lookup k d ≡ some v → insert k v d ≡ d
  unfolding lookup insert
  insert-lookup k v [] e = absurd (ground arith)
  insert-lookup k v ((i, w) ∷ d) e = elim (Bool-cases (i == k)) [
    | inl here ↦ ground (arith, here)
    | inr there ↦ ground (arith, there, insert-lookup k v d)
  ]

  pub lookup-erase :
      (k j : String) (d : Dict V) → lookup j (erase k d) ≡ (if k == j then none else lookup j d)
  unfolding lookup erase
  lookup-erase k j [] = ground arith
  lookup-erase k j ((i, w) ∷ d) =
      ground (arith, eq_iff k j, eq_iff i k, eq_iff i j, lookup-erase k j d)

-- `k in d`
abbrev pub contains {ℓ} : {V : Type ℓ} → String → Dict V → Bool
contains k d = elim (lookup k d) [ none ↦ false | some _ ↦ true ]
