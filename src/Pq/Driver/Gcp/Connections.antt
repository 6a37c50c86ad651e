-- ===== src/Pq/Driver/Gcp/Connections.antt =====
-- The connections of the quantization tasks that lantern_cli/src/pq/gcp_batch.rs runs at once.
use native.Mathlib.Nat.{mul-le-mul_left}
use lanterndb.Prelude.{◌+◌, ◌%◌, ◌≢◌, refl}
use native.Mathlib.Nat.{le-div_iff_mul-le}
use lanterndb.Prelude.{
  ℕ, zero, suc, ◌-◌, ◌*◌, ◌/◌, ◌≤◌, ◌<◌, ◌≡◌, none, max, min, arith, ok, and_then,
}
use lanterndb.Pq.Ranges.{task_connections}
use lanterndb.Pq.Driver.{PqArgs, PqRun, PqWorld, divided}
use lanterndb.Pq.Driver.Gcp.{or_default, GcpSizes, sizes_of, quantization_tasks_of, gcp_sizes}

-- The connections of the driver and of the tasks that run at once: each task keeps the one that it
-- reads the table's size with, beside those of its threads.
abbrev pub connections_open : ℕ → ℕ → ℕ → ℕ
connections_open parallelism cores max_connections =
    1 + parallelism * (1 + task_connections cores max_connections parallelism)

four_times :
    (p cores m r : ℕ)
    → 3 ≤ p
    → r < 4
    → r ≢ 1
    → 4 ≤ cores
    → m ≡ p * 4 + r
    → m < connections_open p cores m
unfolding task_connections
four_times p cores m zero three small other many e =
    let d : 3 ≤ (m - 2) / p =
      (le-div_iff_mul-le {k = p} {x = 3} {y = m - 2} (omega arith)).1 (omega arith) in
    let k : p * 4 ≤ p * (1 + max (min cores ((m - 2) / p)) 1) = mul-le-mul_left p (omega arith) in
    omega (arith, k)
four_times p cores m (suc r) three small other many e =
    let two : 1 ≤ r = pos_of r other in
    let d : 4 ≤ (m - 2) / p =
      (le-div_iff_mul-le {k = p} {x = 4} {y = m - 2} (omega arith)).1 (omega arith) in
    let k : p * 5 ≤ p * (1 + max (min cores ((m - 2) / p)) 1) = mul-le-mul_left p (omega arith) in
    omega (arith, k)
  where
    pos_of : (r : ℕ) → suc r ≢ 1 → 1 ≤ r
    pos_of zero h = absurd (h refl)
    pos_of (suc r) h = omega arith

sizes_equal :
    {E : Type 0} (w : PqWorld E) (args : PqArgs) (total m cpu splits : ℕ) (s : PqRun)
    (sizes : GcpSizes)
    → cpu ≡ 4
    → args.gcp_quantization_task_parallelism ≡ none
    → (and_then (divided w m cpu s) λ per_cpu s.
        and_then
          (divided w m splits s)
          λ per_split s. (ok (sizes_of args total per_cpu per_split), s)).0
      ≡ ok sizes
    → sizes.quantization_parallelism ≡ min (max 1 (m / 4)) (quantization_tasks_of args total)
sizes_equal w args total m zero k s sizes c default h = absurd (omega arith)
sizes_equal w args total m (suc c) zero s sizes four default h = cc
sizes_equal w args total m (suc c) (suc k) s sizes four default h =
    let e : sizes_of args total (m / suc c) (m / suc k) ≡ sizes = grind (arith, h) in
    let f : (sizes_of args total (m / suc c) (m / suc k)).quantization_parallelism
        ≡ min (max 1 (m / 4)) (quantization_tasks_of args total) =
      rw (default, four) refl in
    rw (← e) f

-- On machines of four CPUs, which is the default, with at least four cores, twelve connections or
-- more of which a division by four does not leave one, and enough rows that there are as many tasks
-- as may run at once: the driver and the tasks that run at once open more connections than the
-- database takes.
pub connections_exceed :
    {E : Type 0} (w : PqWorld E) (args : PqArgs) (total max_connections cores : ℕ) (s : PqRun)
    (sizes : GcpSizes)
    → args.gcp_quantization_cpu ≡ none
    → args.gcp_quantization_task_parallelism ≡ none
    → 12 ≤ max_connections
    → max_connections % 4 ≢ 1
    → max_connections / 4 ≤ quantization_tasks_of args total
    → 4 ≤ cores
    → (gcp_sizes w args total max_connections s).0 ≡ ok sizes
    → max_connections < connections_open sizes.quantization_parallelism cores max_connections
unfolding gcp_sizes
connections_exceed w args total m cores s sizes cpus default twelve other tasks many h =
    let f : sizes.quantization_parallelism
        ≡ min (max 1 (m / 4)) (quantization_tasks_of args total) =
      sizes_equal w args total m (or_default args.gcp_quantization_cpu 4) args.splits s sizes
        (rw cpus refl) default h in
    four_times sizes.quantization_parallelism cores m (m % 4) (omega (arith, f)) (omega arith) other
      many (omega (arith, f))
