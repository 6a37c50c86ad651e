-- ===== src/Embeddings/Driver/Pipeline/Refinement.antt =====
-- `create_embeddings_from_db` of lantern_cli/src/embeddings/mod.rs against what it is for: one record
-- for each row that has a text.
use mathlib.Core.List.{Perm}
use mathlib.Core.Path.{subst}
use lanterndb.Embeddings.Driver.Exporter.{db_exporter_worker}
use lanterndb.Prelude.{
  chunks, concat-chunk_loop, ℕ, ◌+◌, ◌<◌, ◌≡◌, refl, ap, ◌∙◌, Bool, some, List, [], ◌∷◌, ◌++◌, map,
  arith, length, length-map, concat, Result, ok,
}
use lanterndb.Embeddings.Driver.Records.{EmbeddingRecord, copy_lines}
use lanterndb.Embeddings.Driver.Worker.{Row}
use lanterndb.Embeddings.Driver.Worker.Batches.{query_rows, kept, producer_worker-chunk_loop}
use lanterndb.Embeddings.Driver.Worker.Answers.{record_for, embedding_worker_lem}
use lanterndb.Embeddings.Driver.Exporter.{Operation, Exporter}
use lanterndb.Embeddings.Driver.Exporter.Trace.{exported}
use lanterndb.Embeddings.Driver.Exporter.Complete.{received}
use lanterndb.Embeddings.Driver.Exporter.Total.{db_exporter_worker_total}
use lanterndb.Embeddings.Driver.Pipeline.{
  EmbeddingArgs, batch_size_of, job_type_of, at_times, worker_new, create_embeddings_from_db,
}

received-at_times :
    (clock : ℕ → ℕ × ℕ) (i : ℕ) (msgs : List (List EmbeddingRecord))
    → received (at_times clock i msgs) ≡ concat msgs
received-at_times clock i [] = refl
received-at_times clock i (rows ∷ msgs) = ap (λ t. rows ++ t) (received-at_times clock (i + 1) msgs)

module _ {F E R D : Type 0} (is_whitespace : ℕ → Bool) (show : F → List ℕ)
    (process : R → List (List ℕ) → Result E (List (List F) × ℕ) × R)
    (batch_completion : R → List (List ℕ) → Result E (List (List ℕ) × ℕ) × R)
    (outcome : List Operation → Operation → Result D (Unit {0})) (percent : ℕ → ℕ → ℕ)
    (item_count : ℕ) (clock : ℕ → ℕ × ℕ) (embed : List ℕ → List F) (complete : List ℕ → List ℕ)
    (process_works : (r : R) (inputs : List (List ℕ))
      → (tokens : ℕ) × (r' : R) × (process r inputs ≡ (ok (map embed inputs, tokens), r')))
    (completion_works : (r : R) (inputs : List (List ℕ))
      → (tokens : ℕ) × (r' : R) × (batch_completion r inputs
          ≡ (ok (map complete inputs, tokens), r')))
    (works : (trace : List Operation) (op : Operation) → outcome trace op ≡ ok tt) where
  -- Over a portal that gives the rows of a table, with a runtime that answers every input and a
  -- database that does every operation, a batch size of 1 to 2^31 - 1 and more fuel than rows, the
  -- driver succeeds. It returns the number of the rows that have a text with more than spaces, and
  -- what it commits are the lines of a permutation of their records: of each the key, and what the
  -- runtime answers to its text.
  pub create_embeddings_from_db_refines :
      (fuel : ℕ) (args : EmbeddingArgs) (runtime : R) (rows : List Row)
      → 0 < batch_size_of args args.batch_size
      → batch_size_of args args.batch_size < 2147483648
      → length rows < fuel
      → let wanted =
          map
            (record_for show embed complete (job_type_of args.job_type))
            (kept is_whitespace rows) in
        (tokens : ℕ) × (s : Exporter) × (records : List EmbeddingRecord)
        × (create_embeddings_from_db query_rows is_whitespace show process batch_completion outcome
              percent item_count clock fuel args runtime rows
            ≡ some (ok (length wanted, tokens), s))
        × Perm records wanted
        × (exported s ≡ copy_lines records)
  unfolding create_embeddings_from_db
  create_embeddings_from_db_refines fuel args runtime rows pos small enough =
      let size = batch_size_of args args.batch_size in
      let w =
        embedding_worker_lem is_whitespace show process batch_completion embed complete
          process_works completion_works (job_type_of args.job_type) (chunks size rows)
          (worker_new runtime) in
      let e =
        db_exporter_worker_total outcome percent item_count args.stream works
          (at_times clock 0 w.0.tx) in
      let all : concat (chunks size rows) ≡ rows =
        concat-chunk_loop (length rows) size rows pos (omega arith) in
      let f = record_for show embed complete (job_type_of args.job_type) in
      let moves = w.2 in
      rw
        (
          producer_worker-chunk_loop fuel (length rows) size rows [] pos small enough (omega arith),
          w.1,
          e.0,
        )
        (
          w.0.processed_tokens,
          (db_exporter_worker outcome percent item_count args.stream (at_times clock 0 w.0.tx)).1,
          concat w.0.tx,
          ap
              (λ n. some (
                ok (n, w.0.processed_tokens),
                (db_exporter_worker outcome percent item_count args.stream
                    (at_times clock 0 w.0.tx)).1,
              ))
              (ap length (received-at_times clock 0 w.0.tx)
                ∙ (moves.2
                    ∙ omega (
                      arith,
                      ap (λ t. length (kept is_whitespace t)) all,
                      length-map f (kept is_whitespace rows),
                    ))),
          subst (λ t. Perm (concat w.0.tx) (map f (kept is_whitespace t))) all moves.0,
          e.1 ∙ ap copy_lines (received-at_times clock 0 w.0.tx),
        )
