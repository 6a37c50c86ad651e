-- ===== src/Pq/Ranges/Cover.antt =====
-- Which rows the ranges of lantern_cli/src/pq/quantization.rs and lantern_cli/src/pq/codebook.rs
-- cover.
use lanterndb.Prelude.{
  ℕ, zero, suc, ◌+◌, ◌-◌, ◌*◌, ◌/◌, ◌%◌, ◌≤◌, ◌<◌, ◌≡◌, ◌⊎◌, inl, inr, refl, ap, sym, some, arith,
  ok, Bool-cases, ◌==◌, leb, leb→le,
}
use native.Mathlib.Nat.{
  mul-zero, mul-suc, suc-mul, zero-mul, one-mul, add-mul, mul_comm, mul-le-mul_right,
  div-mul-le_self, lt-div-mul-add, mod-eq-sub-div-mul, div-eq_of_eq-mul_left,
}
use lanterndb.Pq.Ranges.{
  task_range, connection_range, codebook_range, subvector_bounds, subvector_range, div_ceil,
}

-- `r` is one of the rows.
abbrev pub IsIn : ℕ → ℕ × ℕ → Type 0
IsIn r range = (range.0 ≤ r) × (r < range.1)

-- Among `n` parts of `chunk` rows, of which the last has no end, every row has its part.
part_of :
    (chunk n r : ℕ)
    → 0 < n
    → (i : ℕ) × (i < n) × (chunk * i ≤ r) × ((r < chunk * i + chunk) ⊎ (suc i ≡ n))
part_of chunk zero r pos = absurd (omega arith)
part_of chunk (suc n) r pos = elim (Bool-cases (leb (chunk * n) r)) [
  | inl e ↦ (n, omega arith, leb→le (chunk * n) r e, inr refl)
  | inr e ↦
      let below : r < chunk * n = ground arith in
      let some_part : 0 < n = positive n below in extend n below (part_of chunk n r some_part)
]
  where
    positive : (m : ℕ) → r < chunk * m → 0 < m
    positive zero p = absurd (omega (arith, mul-zero chunk))
    positive (suc m) p = omega arith

    extend :
        (m : ℕ)
        → r < chunk * m
        → ((i : ℕ) × (i < m) × (chunk * i ≤ r) × ((r < chunk * i + chunk) ⊎ (suc i ≡ m)))
        → (i : ℕ) × (i < suc m) × (chunk * i ≤ r) × ((r < chunk * i + chunk) ⊎ (suc i ≡ suc m))
    extend m p (i, q, s, inl x) = (i, omega arith, s, inl x)
    extend m p (i, q, s, inr x) =
        (i, omega arith, s, inl (omega (arith, mul-suc chunk i, ap (λ t. chunk * t) x)))

-- Every row up to the total has a task, for any positive number of tasks.
pub task_range_cover :
    (total task_count r : ℕ)
    → 0 < task_count
    → r ≤ total
    → (task_id : ℕ) × (task_id < task_count) × IsIn r (task_range total task_count task_id)
unfolding task_range
task_range_cover total task_count r pos small =
    let x = part_of (total / task_count) task_count r pos in (x.0, x.1, (x.2, ground (arith, x.3)))

-- With one connection for each core, every row of a task has a connection.
pub connection_range_cover :
    (start end_row num_cores r : ℕ)
    → 0 < num_cores
    → IsIn r (start, end_row)
    → (i : ℕ) × (i < num_cores) × IsIn r (connection_range (start, end_row) num_cores num_cores i)
unfolding connection_range
connection_range_cover start end_row num_cores r pos (low, high) =
    let chunk = (end_row - start) / num_cores in
    let x = part_of chunk num_cores (r - start) pos in
    (
      x.0,
      x.1,
      (omega (arith, x.2, mul_comm chunk x.0), ground (arith, x.3, x.2, mul_comm chunk x.0)),
    )

-- With fewer connections than cores, no connection takes the rows that are left when the rows are
-- divided by the number of connections.
pub last_rows_skipped :
    (start end_row num_cores num_connections i r : ℕ)
    → num_connections < num_cores
    → i < num_connections
    → start + num_connections * ((end_row - start) / num_connections) ≤ r
    → ¬ IsIn r (connection_range (start, end_row) num_cores num_connections i)
unfolding connection_range
last_rows_skipped start end_row num_cores num_connections i r fewer below rest (low, high) =
    let chunk = (end_row - start) / num_connections in
    let up : suc i * chunk ≤ num_connections * chunk = mul-le-mul_right chunk (omega arith) in
    ground (arith, up, suc-mul i chunk)

chunks_enough : (total n : ℕ) → 0 < n → total ≤ div_ceil total n * n
chunks_enough total n pos =
    let d = div-mul-le_self total n in
    let m = lt-div-mul-add {a = total} {b = n} pos in
    elim (Bool-cases (total % n == 0)) [
      | inl e ↦ ground (arith, mod-eq-sub-div-mul total n, add-mul (total / n) 0 n, d, zero-mul n)
      | inr e ↦ ground (arith, m, add-mul (total / n) 1 n, one-mul n)
    ]

-- However many connections there are, every row of the dataset from the offset on has one.
pub codebook_range_cover :
    (total offset num_cores num_connections r : ℕ)
    → 0 < num_connections
    → IsIn r (offset, offset + total)
    → (i : ℕ) × (i < num_connections)
      × IsIn r (codebook_range total offset num_cores num_connections i)
unfolding codebook_range
codebook_range_cover total offset num_cores num_connections r pos (low, high) =
    let chunk = div_ceil total num_connections in
    let x = part_of chunk num_connections (r - offset) pos in
    let enough = chunks_enough total num_connections pos in
    (
      x.0,
      x.1,
      (
        omega (arith, x.2, mul_comm chunk x.0),
        elim x.3 [
          | inl a ↦ ground (arith, a, mul_comm chunk x.0)
          | inr e ↦
              let all : suc x.0 * chunk ≡ num_connections * chunk = ap (λ (t : ℕ). t * chunk) e in
              ground (arith, all, mul_comm chunk num_connections, enough, suc-mul x.0 chunk)
        ],
      ),
    )

-- When the subvectors divide the vector, centroids are computed for exactly the splits, and by a
-- task for exactly its own subvector.
pub subvector_range_splits :
    (subvector_dim splits subvector_id : ℕ)
    → 0 < subvector_dim
    → subvector_id < splits
    → (subvector_range subvector_dim (0, splits * subvector_dim) ≡ (0, splits))
      × ((bounds : ℕ × ℕ) × (subvector_bounds
              (splits * subvector_dim)
              subvector_dim
              splits
              (some subvector_id)
            ≡ ok bounds)
          × (subvector_range subvector_dim bounds ≡ (subvector_id, suc subvector_id)))
unfolding subvector_range subvector_bounds
subvector_range_splits subvector_dim splits subvector_id pos below = (
  ground (
    arith,
    div-eq_of_eq-mul_left {n = subvector_dim} {m = splits * subvector_dim} {k = splits} pos refl,
  ),
  (
    (subvector_id * subvector_dim, suc subvector_id * subvector_dim),
    elim (Bool-cases (subvector_id == splits - 1)) [
      | inl e ↦
          let last : suc subvector_id ≡ splits = ground arith in
          let same : splits * subvector_dim ≡ suc subvector_id * subvector_dim =
            ap (λ (t : ℕ). t * subvector_dim) (sym last) in
          ground (arith, same)
      | inr e ↦ ground (arith, suc-mul subvector_id subvector_dim)
    ],
    ground (
      arith,
      div-eq_of_eq-mul_left {n = subvector_dim} {m = subvector_id * subvector_dim}
          {k = subvector_id} pos refl,
      div-eq_of_eq-mul_left {n = subvector_dim} {m = suc subvector_id * subvector_dim}
          {k = suc subvector_id} pos refl,
    ),
  ),
)
