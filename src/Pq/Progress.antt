-- ===== src/Pq/Progress.antt =====
-- The progress of a quantization, a `u8`: `report_progress` and `set_and_report_progress` of
-- lantern_cli/src/pq/mod.rs. The values reported are kept, the latest last.
use lanterndb.Prelude.{
  ℕ, ◌+◌, ◌-◌, ◌%◌, ◌<◌, ◌≡◌, max, List, [], ◌∷◌, ◌++◌, arith, leb, if◌then◌else◌,
}

pub record Progress : Type 0 where
  pub value : ℕ
  pub reported : List ℕ

unfoldable pub report_progress : Progress → ℕ → Progress
report_progress old progress =
    let new_progress = (old.value + progress) % 256 in
    record { value = new_progress; reported = old.reported ++ new_progress ∷ [] }

unfoldable pub set_and_report_progress : Progress → ℕ → Progress
unfolding report_progress
set_and_report_progress old progress =
    if leb progress old.value then old else report_progress old (progress - old.value)

-- For a `u8` progress the result is the larger of the two, without wrapping, and it is reported just
-- when it grows.
pub set_and_report_progress-max :
    (old : Progress) (progress : ℕ)
    → progress < 256
    → ((set_and_report_progress old progress).value ≡ max old.value progress)
      × ((set_and_report_progress old progress).reported
          ≡ (if leb progress old.value then old.reported else old.reported ++ progress ∷ []))
unfolding set_and_report_progress
set_and_report_progress-max old progress small = ground arith
