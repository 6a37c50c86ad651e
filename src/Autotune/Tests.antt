-- ===== src/Autotune/Tests.antt =====
-- Concrete runs of the tuning of lantern_cli/src/index_autotune/mod.rs, with natural numbers for
-- floats.
use mathlib.Core.List.{Mem}
use lanterndb.Prelude.{
  ℕ, ◌+◌, ◌≡◌, refl, Bool, true, false, some, List, [], ◌∷◌, arith, ltb, leb, ltb→lt, ltb→ge,
  ge→ltb, Result, ok,
}
use lanterndb.Autotune.{
  IndexParams, variant, AutotuneResult, Tuning, find_best_variant, try_variants,
}
use lanterndb.Autotune.Choice.{IsBest, find_best_variant-IsBest}

ltb_asym : (a b : ℕ) → ltb a b ≡ true → ltb b a ≡ false
ltb_asym a b h = ge→ltb b a (omega (arith, ltb→lt a b h))

ltb_trans : (a b c : ℕ) → ltb a b ≡ false → ltb b c ≡ false → ltb a c ≡ false
ltb_trans a b c h k = ge→ltb a c (omega (arith, ltb→ge a b h, ltb→ge b c k))

abbrev sum : ℕ → ℕ → ℕ
sum a b = a + b

abbrev at_least : ℕ → ℕ → Bool
at_least a b = leb b a

abbrev measured_two : List (AutotuneResult ℕ)
measured_two =
    record { params = variant 64 32 6; recall = 90; latency = 3; indexing_duration = 5 }
    ∷ record { params = variant 64 40 8; recall = 99; latency = 9; indexing_duration = 9 }
    ∷ []

find_best_variant-IsBest_example :
    (best : AutotuneResult ℕ) × (find_best_variant sum at_least ltb measured_two 85 ≡ some best)
    × Mem best measured_two
    × IsBest sum at_least ltb measured_two 85 best
find_best_variant-IsBest_example =
    find_best_variant-IsBest sum at_least ltb ltb_asym ltb_trans measured_two 85
      (λ e. absurd (cc e))

abbrev drops : ℕ → Result ℕ (Unit {0}) × ℕ
drops n = (ok tt, n)

abbrev never : ℕ → Bool
never n = false

-- A larger graph finds more.
abbrev finds : IndexParams → ℕ → Result ℕ (ℕ × ℕ × ℕ) × ℕ
finds v n = (ok (5, v.m, 1), n)

abbrev more_than_seven : ℕ → Bool
more_than_seven = ltb 7

abbrev fresh : Tuning ℕ ℕ
fresh = record { results = []; progress = 5; reported = []; database = 0 }

abbrev three : List IndexParams
three = variant 64 32 6 ∷ variant 64 40 8 ∷ variant 64 48 12 ∷ []

abbrev tuned : Tuning ℕ ℕ
tuned = record {
  results =
      record { params = variant 64 32 6; recall = 6; latency = 1; indexing_duration = 5 }
      ∷ record { params = variant 64 40 8; recall = 8; latency = 1; indexing_duration = 5 }
      ∷ [];
  progress = 25;
  reported = 25 ∷ 15 ∷ [];
  database = 0;
}

try_three : try_variants drops never finds more_than_seven 10 three fresh ≡ (ok tt, tuned)
unfolding try_variants
try_three = refl
