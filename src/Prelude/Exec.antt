-- ===== src/Prelude/Exec.antt =====
-- Code that changes a state and may fail: the state comes back beside the result, an error's too.
use mathlib.Core.Path.{◌≡◌, refl}
use mathlib.Core.Logic.{◌⊎◌, inl, inr}
use mathlib.Core.Option.{Option, none, some}
use lanterndb.Prelude.Results.{Result, ok, err}

module _ {ℓ κ μ ν} {E : Type ℓ} {S : Type κ} {A : Type μ} {B : Type ν} where
  -- `?` on a call that returned this, and the rest of the function.
  abbrev pub and_then : Result E A × S → (A → S → Result E B × S) → Result E B × S
  and_then (ok a, s) f = f a s
  and_then (err e, s) f = (err e, s)

module _ {ℓ κ μ ν} {E : Type ℓ} {F : Type ν} {S : Type κ} {A : Type μ} where
  -- The conversion of the error that `?` makes.
  abbrev pub map_err : (E → F) → Result E A × S → Result F A × S
  map_err f (ok a, s) = (ok a, s)
  map_err f (err e, s) = (err (f e), s)

module _ {ℓ κ μ} {E : Type ℓ} {S : Type κ} {A : Type μ} where
  -- To split on a computed result and keep the equation.
  pub result_cases :
      (m : Result E A × S)
      → ((a : A) × (s : S) × (m ≡ (ok a, s))) ⊎ ((e : E) × (s : S) × (m ≡ (err e, s)))
  result_cases (ok a, s) = inl (a, s, refl)
  result_cases (err e, s) = inr (e, s, refl)

  -- The same for code on fuel, which may return nothing.
  pub run_cases :
      (m : Option (Result E A × S))
      → (m ≡ none)
        ⊎ ((a : A) × (s : S) × (m ≡ some (ok a, s)))
        ⊎ ((e : E) × (s : S) × (m ≡ some (err e, s)))
  run_cases none = inl refl
  run_cases (some (ok a, s)) = inr (inl (a, s, refl))
  run_cases (some (err e, s)) = inr (inr (e, s, refl))
