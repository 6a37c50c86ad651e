-- ===== src/Embeddings/Driver/Pipeline.antt =====
-- `create_embeddings_from_db` of lantern_cli/src/embeddings/mod.rs: the three tasks, connected by
-- channels that stay open, and the order in which their results are taken.
pub mod Refinement
use Prim.Native.String.{String}
use lanterndb.Prelude.{ℕ, suc, ◌+◌, Bool, Option, none, some, List, [], ◌∷◌, map, Result, ok, err}
use lanterndb.Embeddings.Driver.Records.{EmbeddingRecord}
use lanterndb.Embeddings.Driver.Worker.{
  Row, producer_worker, EmbeddingJobType, embedding_generation, batch, WorkerError, Worker,
  embedding_worker,
}
use lanterndb.Embeddings.Driver.Worker.Batches.{send_open}
use lanterndb.Embeddings.Driver.Exporter.{Operation, Received, Exporter, db_exporter_worker}
use lanterndb.Embeddings.Driver.Defaults.{get_default_batch_size}

pub data DriverError (P E D : Type 0) : Type 0 where
  not_read : P → DriverError P E D
  not_embedded : WorkerError E → DriverError P E D
  not_exported : D → DriverError P E D

-- The fields of the arguments that the tasks read, and the sizes that the database reports.
pub record EmbeddingArgs : Type 0 where
  pub batch_size : Option ℕ
  pub model : String
  pub job_type : Option EmbeddingJobType
  pub stream : Bool

abbrev pub batch_size_of : EmbeddingArgs → Option ℕ → ℕ
batch_size_of args none = get_default_batch_size args.model
batch_size_of args (some n) = n

abbrev pub job_type_of : Option EmbeddingJobType → EmbeddingJobType
job_type_of none = embedding_generation
job_type_of (some job_type) = job_type

-- The times at which the messages from the `i`-th on arrive, and at which a flush after each ends.
abbrev pub at_times : (ℕ → ℕ × ℕ) → ℕ → List (List EmbeddingRecord) → List Received
at_times clock i [] = []
at_times clock i (rows ∷ msgs) =
    record { rows = rows; arrived = (clock i).0; flushed = (clock i).1 }
    ∷ at_times clock (i + 1) msgs

-- The result of the producer is taken first, then the worker's and the exporter's.
abbrev pub joined :
    {P E D : Type 0}
    → Result P (Unit {0})
    → Result (WorkerError E) ℕ
    → Result D ℕ
    → Result (DriverError P E D) (ℕ × ℕ)
joined (err e) embedding_result exporter_result = err (not_read e)
joined (ok u) (err e) exporter_result = err (not_embedded e)
joined (ok u) (ok processed_tokens) (err e) = err (not_exported e)
joined (ok u) (ok processed_tokens) (ok processed_rows) = ok (processed_rows, processed_tokens)

abbrev pub worker_new : {R : Type 0} → R → Worker R (List (List EmbeddingRecord))
worker_new runtime = record { count = 0; processed_tokens = 0; runtime = runtime; tx = [] }

module _ {P Q F E R D : Type 0} (query_portal : Q → ℕ → Result P (List Row) × Q)
    (is_whitespace : ℕ → Bool) (show : F → List ℕ)
    (process : R → List (List ℕ) → Result E (List (List F) × ℕ) × R)
    (batch_completion : R → List (List ℕ) → Result E (List (List ℕ) × ℕ) × R)
    (outcome : List Operation → Operation → Result D (Unit {0})) (percent : ℕ → ℕ → ℕ)
    (item_count : ℕ) (clock : ℕ → ℕ × ℕ) where
  abbrev pub exported_to :
      Result P (Unit {0})
      → Bool
      → Result (WorkerError E) ℕ × Worker R (List (List EmbeddingRecord))
      → Result (DriverError P E D) (ℕ × ℕ) × Exporter
  exported_to producer_result stream (embedding_result, s) =
      let exporter = db_exporter_worker outcome percent item_count stream (at_times clock 0 s.tx) in
      (joined producer_result embedding_result exporter.0, exporter.1)

  abbrev pub embedded_from :
      EmbeddingArgs
      → R
      → Option (Result P (Unit {0}) × List (List Row))
      → Option (Result (DriverError P E D) (ℕ × ℕ) × Exporter)
  embedded_from args runtime none = none
  embedded_from args runtime (some (producer_result, batches)) = some (
      exported_to producer_result args.stream (
        embedding_worker is_whitespace show process batch_completion send_open
          (job_type_of args.job_type) (map batch batches) (worker_new runtime)))

  -- What the driver returns, and the exporter's end; nothing when the producer's fuel runs out.
  unfoldable pub create_embeddings_from_db :
      ℕ → EmbeddingArgs → R → Q → Option (Result (DriverError P E D) (ℕ × ℕ) × Exporter)
  create_embeddings_from_db fuel args runtime portal =
      embedded_from args runtime
        (producer_worker query_portal send_open fuel (batch_size_of args args.batch_size) portal [])
