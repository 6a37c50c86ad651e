-- ===== src/Daemon/Stream.antt =====
-- The streaming of a job's rows: `stream_job` of lantern_cli/src/daemon/embedding_jobs.rs. The rows
-- of the temporary table stand in the order in which the database yields them. What the loop
-- receives after its `k`th batch is a parameter, and so is the percentage, which the source computes
-- with floats. The queries of the database are taken to succeed.
pub mod Batches
pub mod Finished
use Prim.Native.String.{String}
use lanterndb.Prelude.{
  ℕ, zero, suc, ◌+◌, Bool, true, false, Option, none, some, List, [], ◌∷◌, ◌++◌, ltb, if◌then◌else◌,
  length, take, drop, Result, ok, err,
}

-- What the worker reports.
pub data JobEvent : Type 0 where
  done : JobEvent
  errored : String → JobEvent

-- The variables of the loop, the batches sent and the values written to `init_progress`.
pub record Streaming : Type 0 where
  pub table : List String
  pub processed_rows : ℕ
  pub progress : ℕ
  pub batches : List (List String)
  pub init_progress : List ℕ

-- What the jobs table says of the job, and whether its client job is on.
pub record JobRow : Type 0 where
  pub finished : Bool
  pub failure : Option String
  pub percent_done : ℕ
  pub client_job : Bool

module _ (event : ℕ → Option JobEvent) (percent : ℕ → ℕ → ℕ) (is_init : Bool) (total_rows : ℕ) where
  -- The progress after a batch of `sent` rows is done.
  pub advance : ℕ → Streaming → Streaming
  advance sent s =
      let processed = s.processed_rows + sent in
      let new_progress = percent processed total_rows in
      if is_init
      then if ltb s.progress new_progress
        then record s {
          processed_rows = processed;
          progress = new_progress;
          init_progress = s.init_progress ++ new_progress ∷ [];
        }
        else record s { processed_rows = processed }
      else s

  -- After a batch: a channel that is closed counts for nothing.
  abbrev pub on_event :
      (Streaming → Option (Result String (Unit {0}) × Streaming))
      → ℕ
      → Streaming
      → Option JobEvent
      → Option (Result String (Unit {0}) × Streaming)
  on_event loop sent s (some (errored e)) = some (err e, s)
  on_event loop sent s (some done) = loop (advance sent s)
  on_event loop sent s none = loop s

  abbrev pub on_rows :
      (Streaming → Option (Result String (Unit {0}) × Streaming))
      → List String
      → Streaming
      → Option (Result String (Unit {0}) × Streaming)
  on_rows loop [] s = some (ok tt, s)
  on_rows loop (row ∷ rows) s =
      on_event loop (length (row ∷ rows)) (record s { batches = s.batches ++ (row ∷ rows) ∷ [] })
        (event (length s.batches))

  unfoldable pub stream_loop : ℕ → ℕ → Streaming → Option (Result String (Unit {0}) × Streaming)
  unfolding advance
  stream_loop zero batch_size s = none
  stream_loop (suc fuel) batch_size s =
      on_rows (stream_loop fuel batch_size) (take batch_size s.table)
        (record s { table = drop batch_size s.table })

abbrev pub start_of : List String → Streaming
start_of rows = record {
  table = rows;
  processed_rows = 0;
  progress = 0;
  batches = [];
  init_progress = [];
}

-- The task's rows: none are left to stream when the table is empty.
unfoldable pub stream_rows :
    (ℕ → Option JobEvent)
    → (ℕ → ℕ → ℕ)
    → Bool
    → ℕ
    → ℕ
    → List String
    → Option (Result String (Unit {0}) × Streaming)
unfolding stream_loop
stream_rows event percent is_init fuel batch_size [] = some (ok tt, start_of [])
stream_rows event percent is_init fuel batch_size (row ∷ rows) =
    stream_loop event percent is_init (length (row ∷ rows)) fuel batch_size (start_of (row ∷ rows))

-- An initial job turns its client job on before its rows are streamed.
abbrev pub enabled : Bool → JobRow → JobRow
enabled is_init job = if is_init then record job { client_job = true } else job

-- The reason of a failure is written unless the job has finished before.
abbrev pub finish : Bool → JobRow → Result String (Unit {0}) → JobRow
finish is_init job (ok _) =
    if is_init then record job { finished = true; percent_done = 100 } else job
finish is_init job (err e) =
    if is_init
    then record job { failure = (if job.finished then job.failure else some e); client_job = false }
    else job

abbrev pub last_of : ℕ → List ℕ → ℕ
last_of n [] = n
last_of n (x ∷ xs) = last_of x xs

abbrev pub with_outcome :
    Bool → JobRow → Option (Result String (Unit {0}) × Streaming) → Option (JobRow × Streaming)
with_outcome is_init job none = none
with_outcome is_init job (some (result, s)) = some (
  finish is_init (record job { percent_done = last_of job.percent_done s.init_progress }) result,
  s,
)

unfoldable pub stream_job :
    (ℕ → Option JobEvent)
    → (ℕ → ℕ → ℕ)
    → Bool
    → ℕ
    → ℕ
    → List String
    → JobRow
    → Option (JobRow × Streaming)
unfolding stream_rows
stream_job event percent is_init fuel batch_size rows job =
    with_outcome is_init (enabled is_init job)
      (stream_rows event percent is_init fuel batch_size rows)
