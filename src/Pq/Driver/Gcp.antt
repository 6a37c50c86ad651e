-- ===== src/Pq/Driver/Gcp.antt =====
-- A quantization on GCP, `quantize_table_on_gcp` of lantern_cli/src/pq/gcp_batch.rs: the sizes of the
-- two batches, the operations in their order, and the arguments of the tasks that the templates
-- start; and `quantize_table` of mod.rs, which runs it or the local driver. The image, the project
-- and the region of a batch are left out.
pub mod Batches
pub mod Connections
use lanterndb.Prelude.{
  ℕ, zero, suc, ◌-◌, ◌*◌, ◌/◌, Bool, true, false, ◌&&◌, not, Option, none, some, List, [], ◌∷◌,
  ◌++◌, ltb, leb, max, min, if◌then◌else◌, length, Result, ok, err, and_then,
}
use lanterndb.Pq.Driver.{
  PqArgs, ClusteringVariables, QuantizationVariables, Resources, setup_tables, setup_triggers,
  commit, make_codebook_logged_and_readonly, cluster_on_gcp, quantize_on_gcp, PqError,
  name_too_long, project_required, limit_below_clusters, PqRun, PqWorld, limit_of, call, report,
  ask, ensured, divided, dataset_rows, random_offset, set_up, codebook_table_name_of,
  quantize_table_local,
}

abbrev pub or_default : Option ℕ → ℕ → ℕ
or_default none n = n
or_default (some given) n = given

abbrev pub is_given : Option (List ℕ) → Bool
is_given none = false
is_given (some s) = true

-- `(cpu as f64 * 3.75) as usize`
abbrev pub memory_for : ℕ → ℕ
memory_for cpu = cpu * 15 / 4

abbrev pub cpu_for : ℕ → ℕ
cpu_for rows =
    if ltb rows 100000
    then 8
    else if ltb rows 1000000
    then 16
    else if ltb rows 5000000
    then 32
    else if ltb rows 10000000
    then 64
    else 96

pub record GcpSizes : Type 0 where
  pub clustering_cpu : ℕ
  pub clustering_memory : ℕ
  pub clustering_parallelism : ℕ
  pub quantization_cpu : ℕ
  pub quantization_memory : ℕ
  pub quantization_tasks : ℕ
  pub quantization_parallelism : ℕ

abbrev pub quantization_tasks_of : PqArgs → ℕ → ℕ
quantization_tasks_of args total =
    or_default args.gcp_quantization_task_count (max (total / 100000) 1)

abbrev pub sizes_of : PqArgs → ℕ → ℕ → ℕ → GcpSizes
sizes_of args total per_cpu per_split =
    let quantization_cpu = or_default args.gcp_quantization_cpu 4 in
    let clustering_cpu = or_default args.gcp_quantization_cpu (cpu_for total) in
    let tasks = quantization_tasks_of args total in
    record {
      clustering_cpu = clustering_cpu;
      clustering_memory = or_default args.gcp_clustering_memory_gb (memory_for clustering_cpu);
      clustering_parallelism =
          or_default args.gcp_clustering_task_parallelism (min args.splits (max 1 per_split));
      quantization_cpu = quantization_cpu;
      quantization_memory =
          or_default args.gcp_quantization_memory_gb (memory_for quantization_cpu);
      quantization_tasks = tasks;
      quantization_parallelism =
          min (or_default args.gcp_quantization_task_parallelism (max 1 per_cpu)) tasks;
    }

abbrev pub clustering_variables : PqArgs → GcpSizes → ℕ → ℕ → ClusteringVariables
clustering_variables args sizes total start_offset_id = record {
  table_name = args.table;
  column_name = args.column;
  cluster_count = args.clusters;
  split_count = args.splits;
  parallelism = sizes.clustering_parallelism;
  total_rows = total;
  limit = or_default args.dataset_limit total;
  offset = start_offset_id;
}

abbrev pub clustering_resources : PqArgs → GcpSizes → Resources
clustering_resources args sizes = record {
  cpu_milli = sizes.clustering_cpu * 1000;
  memory_mib = sizes.clustering_memory * 1000;
  task_count = args.splits;
  parallelism = sizes.clustering_parallelism;
}

abbrev pub quantization_variables : PqArgs → GcpSizes → ℕ → QuantizationVariables
quantization_variables args sizes total = record {
  table_name = args.table;
  column_name = args.column;
  cluster_count = args.clusters;
  split_count = args.splits;
  total_rows = total;
  quantization_task_count = sizes.quantization_tasks;
  parallelism = sizes.quantization_parallelism;
}

abbrev pub quantization_resources : GcpSizes → Resources
quantization_resources sizes = record {
  cpu_milli = sizes.quantization_cpu * 1000;
  memory_mib = sizes.quantization_memory * 1000;
  task_count = sizes.quantization_tasks;
  parallelism = sizes.quantization_parallelism;
}

module _ {E : Type 0} (w : PqWorld E) where
  unfoldable pub gcp_sizes : PqArgs → ℕ → ℕ → PqRun → Result (PqError E) GcpSizes × PqRun
  gcp_sizes args total max_connections s =
      and_then (divided w max_connections (or_default args.gcp_quantization_cpu 4) s) λ per_cpu s.
        and_then (divided w max_connections args.splits s)
          λ per_split s. (ok (sizes_of args total per_cpu per_split), s)

  abbrev pub gcp_set_up : PqArgs → PqRun → Result (PqError E) (Unit {0}) × PqRun
  gcp_set_up args s =
      if args.skip_table_setup then (ok tt, s) else and_then (set_up w args s) λ _ s. report w 5 s

  abbrev pub gcp_cluster : PqArgs → GcpSizes → ℕ → PqRun → Result (PqError E) (Unit {0}) × PqRun
  gcp_cluster args sizes total s =
      if args.skip_codebook_creation
      then (ok tt, s)
      else (let limit = limit_of args.dataset_limit in
          and_then (ensured w (not (ltb 0 limit && ltb limit args.clusters)) limit_below_clusters s)
            λ _ s. and_then (random_offset w limit total s) λ offset s.
              and_then
                (call w
                  (cluster_on_gcp (clustering_variables args sizes total offset)
                    (clustering_resources args sizes))
                  s)
                λ _ s.
                  and_then (call w make_codebook_logged_and_readonly s)
                    λ _ s. and_then (call w commit s) λ _ s. report w 90 s)

  abbrev pub gcp_quantize : PqArgs → GcpSizes → ℕ → PqRun → Result (PqError E) (Unit {0}) × PqRun
  gcp_quantize args sizes total s =
      if args.skip_vector_quantization
      then (ok tt, s)
      else call w
          (quantize_on_gcp (quantization_variables args sizes total) (quantization_resources sizes))
          s

  unfoldable pub quantize_table_on_gcp : PqArgs → PqRun → Result (PqError E) (Unit {0}) × PqRun
  unfolding gcp_sizes
  quantize_table_on_gcp args s =
      and_then (ensured w (is_given args.gcp_project) project_required s) λ _ s.
        and_then (ask w w.connected s) λ _ s.
          and_then (ask w w.max_connections s) λ max_connections s.
            and_then (dataset_rows w args.dataset_size s) λ total s.
              and_then (gcp_sizes args total max_connections s) λ sizes s.
                and_then (gcp_set_up args s) λ _ s.
                  and_then (gcp_cluster args sizes total s)
                    λ _ s. and_then (gcp_quantize args sizes total s) λ _ s. report w 100 s

  unfoldable pub quantize_table : PqArgs → PqRun → Result (PqError E) (Unit {0}) × PqRun
  unfolding quantize_table_on_gcp
  quantize_table args s =
      and_then
        (ensured w (leb (length (codebook_table_name_of args args.codebook_table_name)) 63)
          name_too_long s)
        λ _ s.
          if args.run_on_gcp then quantize_table_on_gcp args s else quantize_table_local w args s
