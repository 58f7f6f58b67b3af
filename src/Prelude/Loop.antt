-- ===== src/Prelude/Loop.antt =====
-- A `while` loop on fuel, and its rule: an invariant, and a measure that the body lowers.
use stock_trading_platform.Prelude.Tests.{Bool-cases}
use Prim.Native.Nat.{ℕ, zero, suc, ◌<◌}
use mathlib.Core.Path.{◌≡◌, refl, sym, ◌∙◌}
use mathlib.Core.Logic.{inl, inr}
use mathlib.Core.Bool.{Bool, true, false}
use native.Mathlib.Omega.{arith}

unfoldable pub while {ℓ} : {S : Type ℓ} → ℕ → (S → Bool) → (S → S) → S → S
while zero guard body s = s
while (suc fuel) guard body s = elim (guard s) [ true ↦ while fuel guard body (body s) | false ↦ s ]

-- What the body keeps, whatever the test says, the loop keeps with any fuel.
pub while-kept {ℓ κ} :
    {S : Type ℓ} (P : S → Type κ) (guard : S → Bool) (body : S → S)
    → ((s : S) → P s → P (body s))
    → (fuel : ℕ) (s : S) → P s
    → P (while fuel guard body s)
unfolding while
while-kept P guard body k zero s p = p
while-kept P guard body k (suc fuel) s p = elim (Bool-cases (guard s)) [
  | inl more ↦ rw (more, while) (while-kept P guard body k fuel (body s) (k s p))
  | inr done ↦ rw (done, while) p
]

-- Two loops whose states stay related, with the same tests.
pub while-related {ℓ κ} :
    {S T : Type ℓ} (R : S → T → Type κ) (guard : S → Bool) (body : S → S) (guard' : T → Bool)
    (body' : T → T)
    → ((s : S) (t : T) → R s t → guard s ≡ guard' t)
    → ((s : S) (t : T) → R s t → R (body s) (body' t))
    → (fuel : ℕ) (s : S) (t : T) → R s t
    → R (while fuel guard body s) (while fuel guard' body' t)
unfolding while
while-related R guard body guard' body' same k zero s t r = r
while-related R guard body guard' body' same k (suc fuel) s t r = elim (Bool-cases (guard s)) [
  | inl more ↦
      rw (more, sym (same s t r) ∙ more, while)
        (while-related R guard body guard' body' same k fuel (body s) (body' t) (k s t r))
  | inr done ↦ rw (done, sym (same s t r) ∙ done, while) r
]

-- What the body owes: it keeps the invariant and lowers the measure.
pub record Keeps {ℓ κ} {S : Type ℓ} (P : S → Type κ) (measure : S → ℕ) (guard : S → Bool)
    (body : S → S) : Type (ℓ ⊔ κ) where
  pub kept : (s : S) → P s → guard s ≡ true → P (body s)
  pub lower : (s : S) → P s → guard s ≡ true → measure (body s) < measure s

module _ {ℓ κ} {S : Type ℓ} {P : S → Type κ} {measure : S → ℕ} {guard : S → Bool} {body : S → S}
    (k : Keeps P measure guard body) where
  -- With fuel above the measure the loop ends by its test, with the invariant.
  pub while_ends :
      (fuel : ℕ) (s : S)
      → measure s < fuel
      → P s
      → P (while fuel guard body s) × (guard (while fuel guard body s) ≡ false)
  unfolding while
  while_ends zero s m p = absurd (omega arith)
  while_ends (suc fuel) s m p = elim (Bool-cases (guard s)) [
    | inl more ↦
        rw (more, while)
          (while_ends fuel (body s) (omega (arith, k.lower s p more)) (k.kept s p more))
    | inr done ↦ rw (done, while) (p, done)
  ]

-- The loop without fuel: a run that ends by the loop's own test.
pub data Runs {ℓ} {S : Type ℓ} (guard : S → Bool) (body : S → S) : S → S → Type ℓ where
  ends : {s : S} → guard s ≡ false → Runs guard body s s
  again : {s t : S} → guard s ≡ true → Runs guard body (body s) t → Runs guard body s t

module _ {ℓ κ} {S : Type ℓ} {P : S → Type κ} {measure : S → ℕ} {guard : S → Bool} {body : S → S}
    (k : Keeps P measure guard body) where
  pub while-Runs :
      (fuel : ℕ) (s : S) → measure s < fuel → P s → Runs guard body s (while fuel guard body s)
  unfolding while
  while-Runs zero s m p = absurd (omega arith)
  while-Runs (suc fuel) s m p = elim (Bool-cases (guard s)) [
    | inl more ↦
        rw (more, while)
          (again more
            (while-Runs fuel (body s) (omega (arith, k.lower s p more)) (k.kept s p more)))
    | inr done ↦ rw (done, while) (ends done)
  ]

  -- A run ends where the loop on fuel does.
  pub Runs→while :
      (fuel : ℕ) (s : S) {t : S}
      → Runs guard body s t
      → measure s < fuel
      → P s
      → t ≡ while fuel guard body s
  unfolding while
  Runs→while zero s r m p = absurd (omega arith)
  Runs→while (suc fuel) s (ends done) m p = rw (done, while) refl
  Runs→while (suc fuel) s (again more r) m p =
      rw (more, while)
        (Runs→while fuel (body s) r (omega (arith, k.lower s p more)) (k.kept s p more))
