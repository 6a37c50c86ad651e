-- ===== src/Daemon/Queue.antt =====
-- The way of a row through the embedding jobs: the lock table, the map that batches rows, the
-- collector and the worker of lantern_cli/src/daemon/embedding_jobs.rs. The job table, the models'
-- batch sizes and the embedding itself are parameters; so is whether the database takes a lock that
-- no other row holds. A round of the collector is one step, and the result of an embedding is taken
-- to arrive; usage records and the event for the streaming task are left out.
pub mod Counting
pub mod Locked
pub mod Retried
use Prim.Native.String.{String}
use text.Mathlib.Text
use lanterndb.Prelude.{
  ℕ, zero, suc, ◌-◌, Bool, true, false, ◌&&◌, ◌||◌, not, Option, none, some, List, [], ◌∷◌, ◌++◌,
  ltb, ◌==◌, if◌then◌else◌, length, take, drop,
}

-- A job and a row of it.
pub record Lock : Type 0 where
  pub job_id : ℕ
  pub row_id : String

-- What the queue needs of `EmbeddingJob`.
pub record BatchJob : Type 0 where
  pub id : ℕ
  pub is_init : Bool
  pub row_ids : Option (List String)

-- `lost` holds the rows that the collector drained for a job it could not load.
pub record Queue : Type 0 where
  pub locks : List Lock
  pub batching : List (ℕ × List String)
  pub jobs : List BatchJob
  pub retries : List BatchJob
  pub lost : List Lock

abbrev pub is_lock : Lock → Lock → Bool
is_lock a b = (a.job_id == b.job_id) && Text.◌==◌ a.row_id b.row_id

abbrev pub is_locked : Lock → List Lock → Bool
is_locked a [] = false
is_locked a (b ∷ locks) = is_lock a b || is_locked a locks

-- The insert fails on a duplicate key, or with another error.
pub lock_row : Bool → Lock → List Lock → Bool × List Lock
lock_row accepts lock locks =
    if accepts && not (is_locked lock locks) then (true, lock ∷ locks) else (false, locks)

-- The rows of a job, added to those that the map has for it.
pub batch_rows : ℕ → List String → List (ℕ × List String) → List (ℕ × List String)
batch_rows id rows [] = (id, rows) ∷ []
batch_rows id rows ((j, job_vec) ∷ map) =
    if j == id then (j, job_vec ++ rows) ∷ map else (j, job_vec) ∷ batch_rows id rows map

abbrev pub locked_row : ℕ → String → Queue → Bool × List Lock → Queue
locked_row id row q (true, locks) = record q {
  locks = locks;
  batching = batch_rows id (row ∷ []) q.batching;
}
locked_row id row q (false, locks) = record q { locks = locks }

-- A notification about one row.
unfoldable pub on_row_notification : Bool → ℕ → String → Queue → Queue
unfolding lock_row batch_rows
on_row_notification accepts id row q =
    locked_row id row q (lock_row accepts (record { job_id = id; row_id = row }) q.locks)

abbrev pub locks_of : ℕ → List String → List Lock
locks_of id [] = []
locks_of id (row ∷ rows) = record { job_id = id; row_id = row } ∷ locks_of id rows

abbrev pub send_batch : ℕ → List String → Queue → Queue
send_batch id ids q = record q {
  jobs = q.jobs ++ record { id = id; is_init = false; row_ids = some ids } ∷ [];
}

-- One job of the drained map. `load_job` gives the batch size of the job's model, or nothing when
-- the job cannot be read from its table.
unfoldable pub collect_job : (ℕ → Option ℕ) → ℕ → List String → Option ℕ → Queue → Queue
unfolding batch_rows
collect_job load_job id ids none q = record q { lost = q.lost ++ locks_of id ids }
collect_job load_job id ids (some max_batch_size) q =
    if ltb max_batch_size (length ids)
    then send_batch id (take (max_batch_size - 1) ids)
        (record q { batching = batch_rows id (drop (max_batch_size - 1) ids) q.batching })
    else send_batch id ids q

pub collect_jobs : (ℕ → Option ℕ) → List (ℕ × List String) → Queue → Queue
unfolding collect_job
collect_jobs load_job [] q = q
collect_jobs load_job ((id, ids) ∷ map) q =
    collect_jobs load_job map (collect_job load_job id ids (load_job id) q)

-- One round of the collector.
unfoldable pub batch_collector : (ℕ → Option ℕ) → Queue → Queue
unfolding collect_jobs
batch_collector load_job q = collect_jobs load_job q.batching (record q { batching = [] })

abbrev pub without : Lock → List Lock → List Lock
without a [] = []
without a (b ∷ locks) = if is_lock a b then without a locks else b ∷ without a locks

pub unlock_rows : ℕ → List String → List Lock → List Lock
unlock_rows id [] locks = locks
unlock_rows id (row ∷ rows) locks =
    unlock_rows id rows (without (record { job_id = id; row_id = row }) locks)

abbrev pub unlocked : BatchJob → Option (List String) → Queue → Queue
unlocked job none q = q
unlocked job (some rows) q = record q { locks = unlock_rows job.id rows q.locks }

-- A failed job that is no initial one is sent again after 300 seconds.
abbrev pub after_embedding : Bool → BatchJob → Queue → Queue
after_embedding true job q = q
after_embedding false job q =
    if job.is_init then q else record q { retries = q.retries ++ job ∷ [] }

abbrev pub on_job : Bool → List BatchJob → Queue → Queue
on_job succeeds [] q = q
on_job succeeds (job ∷ jobs) q =
    unlocked job job.row_ids (after_embedding succeeds job (record q { jobs = jobs }))

-- The worker takes a job and gets the outcome of its embedding.
unfoldable pub embedding_worker : Bool → Queue → Queue
unfolding unlock_rows
embedding_worker succeeds q = on_job succeeds q.jobs q

abbrev pub due : List BatchJob → Queue → Queue
due [] q = q
due (job ∷ retries) q = record q { jobs = q.jobs ++ job ∷ []; retries = retries }

-- The retry of a job, when its time has come: it joins the queue.
unfoldable pub schedule_job_retry : Queue → Queue
schedule_job_retry q = due q.retries q
