-- ===== src/Pq/Driver/Tests.antt =====
-- A quantization of a table of a hundred rows, and one whose limit is all of them.
use lanterndb.Prelude.{◌<◌}
use lanterndb.Prelude.{
  ℕ, ◌-◌, ◌≡◌, refl, Bool, true, false, not, Option, none, some, [], ◌∷◌, arith, ok, err,
}
use lanterndb.Prelude.{◌<◌}
use lanterndb.Pq.Driver.{
  PqArgs, setup_tables, create_codebook, commit, setup_triggers, make_codebook_logged_and_readonly,
  panicked, PqRun, PqWorld, call, after_setup, with_codebook, quantize_table_local,
}
use lanterndb.Pq.Driver.Safety.{AllSafe}
use lanterndb.Pq.Driver.Gcp.{gcp_sizes, sizes_of, quantize_table}
use lanterndb.Pq.Driver.Gcp.Batches.{quantize_table-AllSafe}
use lanterndb.Pq.Driver.Gcp.Connections.{connections_open, connections_exceed}
use lanterndb.Pq.Driver.Limits.{limit_panics}

abbrev small_args : Option ℕ → Bool → Bool → PqArgs
small_args limit skip gcp = record {
  table = 116 ∷ [];
  schema = 115 ∷ [];
  pk = 107 ∷ [];
  column = 118 ∷ [];
  codebook_table_name = none;
  dataset_limit = limit;
  start_offset_id = none;
  dataset_size = some 100;
  clusters = 4;
  splits = 3;
  subvector_id = none;
  skip_table_setup = skip;
  skip_vector_quantization = not gcp;
  skip_codebook_creation = false;
  overwrite = false;
  total_task_count = none;
  parallel_task_count = none;
  quantization_task_id = none;
  run_on_gcp = gcp;
  gcp_project = some (112 ∷ []);
  gcp_quantization_task_count = none;
  gcp_quantization_task_parallelism = none;
  gcp_clustering_task_parallelism = none;
  gcp_clustering_cpu = none;
  gcp_clustering_memory_gb = none;
  gcp_quantization_cpu = none;
  gcp_quantization_memory_gb = none;
}

abbrev kind_world : PqWorld (Unit {0})
kind_world = record {
  perform = λ op p. (ok tt, p);
  connected = ok tt;
  row_count = ok 100;
  max_connections = ok 10;
  dimensions = ok 10;
  gen_range = λ n. n - 1;
  is_canceled = false;
}

abbrev fresh_run : PqRun
fresh_run = record { progress = record { value = 0; reported = [] }; calls = [] }

some_rows-calls :
    (quantize_table_local kind_world (small_args (some 40) false false) fresh_run).1.calls
    ≡ setup_tables false
      ∷ setup_triggers
      ∷ commit
      ∷ create_codebook (record {
        total_row_count = 40;
        start_offset_id = 59;
        vector_dim = 10;
        subvector_dim = 3;
      })
      ∷ make_codebook_logged_and_readonly
      ∷ commit
      ∷ []
unfolding quantize_table_local after_setup with_codebook call
some_rows-calls = refl

quantize_table-AllSafe_example :
    AllSafe kind_world
      (small_args (some 40) false true)
      100
      (quantize_table kind_world (small_args (some 40) false true) fresh_run).1
quantize_table-AllSafe_example =
    quantize_table-AllSafe kind_world (small_args (some 40) false true) 100 fresh_run refl
      (λ n e. grind (arith, e)) refl (λ n pos. omega arith) tt

limit_panics_example :
    quantize_table_local kind_world (small_args (some 100) true false) fresh_run
    ≡ (err panicked, fresh_run)
limit_panics_example =
    limit_panics kind_world (small_args (some 100) true false) fresh_run 100 100 refl refl refl refl
      refl (omega arith) (omega arith) (omega arith)

abbrev gcp_args : PqArgs
gcp_args = small_args (some 40) false true

-- The default of a hundred connections: 25 tasks with three connections for threads and one each,
-- and that of the driver.
connections_exceed_example : 100 < connections_open 25 8 100
unfolding gcp_sizes
connections_exceed_example =
    connections_exceed kind_world gcp_args 2500000 100 8 fresh_run (sizes_of gcp_args 2500000 25 33)
      refl refl (omega arith) (λ e. omega arith) (omega arith) (omega arith) refl
