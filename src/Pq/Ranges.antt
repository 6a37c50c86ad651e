-- ===== src/Pq/Ranges.antt =====
-- How the rows are divided: between the tasks of a batch and the connections of one task in
-- lantern_cli/src/pq/quantization.rs, between the connections in lantern_cli/src/pq/codebook.rs, and
-- the subvectors of a codebook task there. A range is its start and its end, which is not in it. A
-- batch has a task at least, and Postgres more than two connections, so that no subtraction is below
-- zero and no division by it.
pub mod Cover
use lanterndb.Prelude.{
  ℕ, suc, ◌+◌, ◌-◌, ◌*◌, ◌/◌, ◌%◌, min, max, Option, none, some, leb, ◌==◌, if◌then◌else◌, Result,
  ok, err,
}

-- `quantize_and_write_vectors`: the rows of a task.
unfoldable pub task_range : ℕ → ℕ → ℕ → ℕ × ℕ
task_range total_row_count task_count task_id =
    let chunk_per_task = total_row_count / task_count in
    let limit_start = chunk_per_task * task_id in
    (
      limit_start,
      (if task_id == task_count - 1 then total_row_count + 1 else limit_start + chunk_per_task),
    )

-- The connections of a task, at least one.
unfoldable pub task_connections : ℕ → ℕ → ℕ → ℕ
task_connections num_cores max_connections parallel_task_count =
    max (min num_cores ((max_connections - 2) / parallel_task_count)) 1

-- The rows that connection `i` fetches.
unfoldable pub connection_range : ℕ × ℕ → ℕ → ℕ → ℕ → ℕ × ℕ
connection_range limits num_cores num_connections i =
    let chunk_size = (limits.1 - limits.0) / num_connections in
    let range_start = limits.0 + i * chunk_size in
    (range_start, (if i == num_cores - 1 then limits.1 else range_start + chunk_size))

abbrev pub div_ceil : ℕ → ℕ → ℕ
div_ceil n d = n / d + (if n % d == 0 then 0 else 1)

-- `create_codebook`: the rows that connection `i` fetches.
unfoldable pub codebook_range : ℕ → ℕ → ℕ → ℕ → ℕ → ℕ × ℕ
codebook_range total_row_count start_offset_id num_cores num_connections i =
    let chunk_size = div_ceil total_row_count num_connections in
    let range_start = i * chunk_size + start_offset_id in
    (
      range_start,
      (if i == num_cores - 1
          then start_offset_id + total_row_count + 1
          else range_start + chunk_size),
    )

-- The part of the vectors that a codebook task reads, or all of them; `err` when the task's
-- subvector does not exist.
unfoldable pub subvector_bounds : ℕ → ℕ → ℕ → Option ℕ → Result ℕ (ℕ × ℕ)
subvector_bounds vector_dim subvector_dim splits none = ok (0, vector_dim)
subvector_bounds vector_dim subvector_dim splits (some subvector_id) =
    let start = subvector_id * subvector_dim in
    if leb splits subvector_id
    then err subvector_id
    else ok (start, (if subvector_id == splits - 1 then vector_dim else start + subvector_dim))

-- The subvectors for which centroids are computed.
unfoldable pub subvector_range : ℕ → ℕ × ℕ → ℕ × ℕ
subvector_range subvector_dim bounds = (bounds.0 / subvector_dim, bounds.1 / subvector_dim)
