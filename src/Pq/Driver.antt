-- ===== src/Pq/Driver.antt =====
-- The driver of a quantization here, `quantize_table_local` of lantern_cli/src/pq/mod.rs, and the
-- arguments, operations and errors that it shares with a quantization on GCP. What each operation
-- does to the progress, and whether it fails, is a parameter, as are the answers of the database
-- and the random number; the calls are kept, the latest last.
pub mod Calls
pub mod Safety
pub mod Gcp
pub mod Limits
mod Tests
use lanterndb.Prelude.{
  ℕ, zero, suc, ◌-◌, ◌/◌, Bool, true, false, ◌&&◌, not, Option, none, some, List, [], ◌∷◌, ◌++◌,
  ltb, leb, if◌then◌else◌, length, Result, ok, err, and_then,
}
use lanterndb.Pq.Progress.{Progress, set_and_report_progress}

pub record PqArgs : Type 0 where
  pub table : List ℕ
  pub schema : List ℕ
  pub column : List ℕ
  pub pk : List ℕ
  pub codebook_table_name : Option (List ℕ)
  pub dataset_limit : Option ℕ
  pub start_offset_id : Option ℕ
  pub dataset_size : Option ℕ
  pub clusters : ℕ
  pub splits : ℕ
  pub subvector_id : Option ℕ
  pub skip_table_setup : Bool
  pub skip_vector_quantization : Bool
  pub skip_codebook_creation : Bool
  pub overwrite : Bool
  pub total_task_count : Option ℕ
  pub parallel_task_count : Option ℕ
  pub quantization_task_id : Option ℕ
  pub run_on_gcp : Bool
  pub gcp_project : Option (List ℕ)
  pub gcp_quantization_task_count : Option ℕ
  pub gcp_quantization_task_parallelism : Option ℕ
  pub gcp_clustering_task_parallelism : Option ℕ
  pub gcp_clustering_cpu : Option ℕ
  pub gcp_clustering_memory_gb : Option ℕ
  pub gcp_quantization_cpu : Option ℕ
  pub gcp_quantization_memory_gb : Option ℕ

-- The arguments of `create_codebook` that the driver computes.
pub record CodebookArgs : Type 0 where
  pub total_row_count : ℕ
  pub start_offset_id : ℕ
  pub vector_dim : ℕ
  pub subvector_dim : ℕ

-- The variables of the two templates of gcp_batch.rs, and what a batch asks of the machines.
pub record ClusteringVariables : Type 0 where
  pub table_name : List ℕ
  pub column_name : List ℕ
  pub cluster_count : ℕ
  pub split_count : ℕ
  pub parallelism : ℕ
  pub total_rows : ℕ
  pub limit : ℕ
  pub offset : ℕ

pub record QuantizationVariables : Type 0 where
  pub table_name : List ℕ
  pub column_name : List ℕ
  pub cluster_count : ℕ
  pub split_count : ℕ
  pub total_rows : ℕ
  pub quantization_task_count : ℕ
  pub parallelism : ℕ

pub record Resources : Type 0 where
  pub cpu_milli : ℕ
  pub memory_mib : ℕ
  pub task_count : ℕ
  pub parallelism : ℕ

pub data Operation : Type 0 where
  setup_tables : Bool → Operation
  setup_triggers : Operation
  commit : Operation
  quantize_and_write_vectors : ℕ → Operation
  create_codebook : CodebookArgs → Operation
  make_codebook_logged_and_readonly : Operation
  quantize_vectors : Operation
  write_quantized_rows : Operation
  cluster_on_gcp : ClusteringVariables → Resources → Operation
  quantize_on_gcp : QuantizationVariables → Resources → Operation

-- An empty range of random numbers and a division by zero are `panicked`.
pub data PqError (E : Type 0) : Type 0 where
  limit_below_clusters : PqError E
  dataset_below_clusters : PqError E
  dimensions_below_splits : PqError E
  name_too_long : PqError E
  project_required : PqError E
  job_cancelled : PqError E
  panicked : PqError E
  failed : E → PqError E

pub record PqRun : Type 0 where
  pub progress : Progress
  pub calls : List Operation

-- `gen_range(0..n)` is below a positive `n`.
pub record PqWorld (E : Type 0) : Type 0 where
  pub perform : Operation → Progress → Result E (Unit {0}) × Progress
  pub connected : Result E (Unit {0})
  pub row_count : Result E ℕ
  pub max_connections : Result E ℕ
  pub dimensions : Result E ℕ
  pub gen_range : ℕ → ℕ
  pub is_canceled : Bool

abbrev pub is_none : Option ℕ → Bool
is_none none = true
is_none (some n) = false

abbrev pub limit_of : Option ℕ → ℕ
limit_of none = 0
limit_of (some limit) = limit

abbrev pub rows_to_take : ℕ → ℕ → ℕ
rows_to_take limit total = if ltb 0 limit && leb limit total then limit else total

abbrev pub codebook_table_name_of : PqArgs → Option (List ℕ) → List ℕ
codebook_table_name_of args none = 112 ∷ 113 ∷ 95 ∷ args.table ++ (95 ∷ args.column)
codebook_table_name_of args (some name) = name

module _ {E : Type 0} (w : PqWorld E) where
  abbrev pub performed :
      Operation → Result E (Unit {0}) × Progress → PqRun → Result (PqError E) (Unit {0}) × PqRun
  performed op (ok u, p) s = (ok tt, record { progress = p; calls = s.calls ++ op ∷ [] })
  performed op (err e, p) s = (err (failed e), record { progress = p; calls = s.calls ++ op ∷ [] })

  unfoldable pub call : Operation → PqRun → Result (PqError E) (Unit {0}) × PqRun
  call op s = performed op (w.perform op s.progress) s

  -- `set_and_report_progress`
  abbrev pub report : ℕ → PqRun → Result (PqError E) (Unit {0}) × PqRun
  report progress s = (ok tt, record s { progress = set_and_report_progress s.progress progress })

  abbrev pub ask : {A : Type 0} → Result E A → PqRun → Result (PqError E) A × PqRun
  ask (ok a) s = (ok a, s)
  ask (err e) s = (err (failed e), s)

  abbrev pub ensured : Bool → PqError E → PqRun → Result (PqError E) (Unit {0}) × PqRun
  ensured true e s = (ok tt, s)
  ensured false e s = (err e, s)

  -- `rng.gen_range(0..max_id)`
  abbrev pub random_below : ℕ → PqRun → Result (PqError E) ℕ × PqRun
  random_below zero s = (err panicked, s)
  random_below (suc n) s = (ok (w.gen_range (suc n)), s)

  abbrev pub random_offset : ℕ → ℕ → PqRun → Result (PqError E) ℕ × PqRun
  random_offset zero total s = (ok 0, s)
  random_offset (suc l) total s = random_below (if ltb total (suc l) then 0 else total - suc l) s

  abbrev pub start_offset : Option ℕ → ℕ → ℕ → PqRun → Result (PqError E) ℕ × PqRun
  start_offset (some id) limit total s = (ok id, s)
  start_offset none limit total s = random_offset limit total s

  abbrev pub divided : ℕ → ℕ → PqRun → Result (PqError E) ℕ × PqRun
  divided a zero s = (err panicked, s)
  divided a (suc b) s = (ok (a / suc b), s)

  -- The rows that the caller names, or those that the table has.
  abbrev pub dataset_rows : Option ℕ → PqRun → Result (PqError E) ℕ × PqRun
  dataset_rows (some row_cnt) s = (ok row_cnt, s)
  dataset_rows none s = ask w.row_count s

  -- Quantizing and writing the vectors after the codebook, and the last commit.
  abbrev pub write_vectors : PqArgs → PqRun → Result (PqError E) (Unit {0}) × PqRun
  write_vectors args s =
      if args.skip_vector_quantization
      then (ok tt, s)
      else and_then (call quantize_vectors s) λ _ s. and_then (report 90 s) λ _ s.
        and_then (ensured (not w.is_canceled) job_cancelled s) λ _ s. call write_quantized_rows s

  abbrev pub make_readonly : PqArgs → PqRun → Result (PqError E) (Unit {0}) × PqRun
  make_readonly args s =
      if is_none args.subvector_id then call make_codebook_logged_and_readonly s else (ok tt, s)

  unfoldable pub with_codebook : PqArgs → ℕ → ℕ → PqRun → Result (PqError E) (Unit {0}) × PqRun
  unfolding call
  with_codebook args offset rows s = and_then (ask w.dimensions s) λ vector_dim s.
      and_then (ensured (not (ltb vector_dim args.splits)) dimensions_below_splits s) λ _ s.
        and_then (divided vector_dim args.splits s) λ subvector_dim s.
          and_then
            (call
              (create_codebook (record {
                total_row_count = rows;
                start_offset_id = offset;
                vector_dim = vector_dim;
                subvector_dim = subvector_dim;
              }))
              s)
            λ _ s. and_then (make_readonly args s) λ _ s.
              and_then (write_vectors args s) λ _ s. and_then (call commit s) λ _ s. report 100 s

  abbrev pub quantize_only : ℕ → PqRun → Result (PqError E) (Unit {0}) × PqRun
  quantize_only rows s = and_then (call (quantize_and_write_vectors rows) s) λ _ s. report 100 s

  unfoldable pub after_setup : PqArgs → PqRun → Result (PqError E) (Unit {0}) × PqRun
  unfolding with_codebook
  after_setup args s =
      let limit = limit_of args.dataset_limit in
      and_then (ensured (not (ltb 0 limit && ltb limit args.clusters)) limit_below_clusters s)
        λ _ s. and_then (dataset_rows args.dataset_size s) λ total s.
          and_then (ensured (not (ltb total args.clusters)) dataset_below_clusters s) λ _ s.
            and_then (start_offset args.start_offset_id limit total s) λ offset s.
              and_then (ask w.max_connections s) λ _ s.
                if args.skip_codebook_creation && not args.skip_vector_quantization
                then quantize_only (rows_to_take limit total) s
                else with_codebook args offset (rows_to_take limit total) s

  abbrev pub set_up : PqArgs → PqRun → Result (PqError E) (Unit {0}) × PqRun
  set_up args s =
      and_then (call (setup_tables args.overwrite) s)
        λ _ s. and_then (call setup_triggers s) λ _ s. call commit s

  unfoldable pub quantize_table_local : PqArgs → PqRun → Result (PqError E) (Unit {0}) × PqRun
  unfolding after_setup
  quantize_table_local args s = and_then (ask w.connected s) λ _ s.
      if args.skip_table_setup
      then after_setup args s
      else and_then (set_up args s) λ _ s.
        if args.skip_codebook_creation && args.skip_vector_quantization
        then report 100 s
        else after_setup args s
