-- ===== src/Daemon/Targets/Restarts.antt =====
-- The waits between the runs of a job, for lantern_cli/src/daemon/mod.rs.
use lanterndb.Prelude.{ℕ, zero, suc, ◌*◌, ◌≤◌, ◌≡◌, refl, List, [], ◌∷◌, arith, length, map, All}
use lanterndb.Daemon.Targets.{failed, spawn_job}

-- `n` waits that double from `interval`.
abbrev pub doubling : ℕ → ℕ → List ℕ
doubling interval zero = []
doubling interval (suc n) = interval ∷ doubling (interval * 2) n

-- While a job fails again within 30 seconds each time, the waits double.
pub spawn_job-doubling :
    (interval : ℕ) (elapsed : List ℕ)
    → All (λ seconds. seconds ≤ 30) elapsed
    → spawn_job interval (map failed elapsed) ≡ doubling interval (length elapsed)
unfolding spawn_job
spawn_job-doubling interval [] h = refl
spawn_job-doubling interval (seconds ∷ elapsed) h =
    ground (arith, spawn_job-doubling (interval * 2) elapsed h.1)
