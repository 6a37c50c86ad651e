-- ===== src/Daemon/Queue/Retried.antt =====
-- What becomes of a batch whose embedding fails, or whose job cannot be read, for
-- lantern_cli/src/daemon/embedding_jobs.rs.
use Prim.Native.String.{String}
use lanterndb.Prelude.{
  ℕ, ◌-◌, ◌<◌, ◌≡◌, false, Option, some, List, [], ◌∷◌, ◌++◌, arith, ltb, if◌then◌else◌, length,
  take, length-take,
}
use lanterndb.Daemon.Queue.{Queue, collect_job}

-- A job whose rows are more than the batch size of its model is sent with one row less than that
-- size; one whose rows are no more, with all of them.
pub collect_job_size :
    (load_job : ℕ → Option ℕ) (id max_batch_size : ℕ) (ids : List String) (q : Queue)
    → 0 < max_batch_size
    → (sent : List String) × ((collect_job load_job id ids (some max_batch_size) q).jobs
        ≡ q.jobs ++ record { id = id; is_init = false; row_ids = some sent } ∷ [])
      × (length sent ≡ (if ltb max_batch_size (length ids) then max_batch_size - 1 else length ids))
unfolding collect_job
collect_job_size load_job id max_batch_size ids q pos = (
  (if ltb max_batch_size (length ids) then take (max_batch_size - 1) ids else ids),
  ground arith,
  ground (arith, length-take (max_batch_size - 1) ids),
)
