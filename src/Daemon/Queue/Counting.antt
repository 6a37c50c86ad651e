-- ===== src/Daemon/Queue/Counting.antt =====
-- How often a row is locked and how often it waits, for
-- lantern_cli/src/daemon/embedding_jobs.rs.
use Prim.Native.String.{String}
use text.Mathlib.TextEquality.{eq_iff}
use lanterndb.Prelude.{
  ℕ, ◌+◌, ◌≤◌, ◌≡◌, inl, inr, refl, ap, ◌∙◌, Bool, true, false, Option, none, some, List, [], ◌∷◌,
  ◌++◌, arith, ltb, ==_iff, if◌then◌else◌, Bool-cases,
}
use lanterndb.Daemon.Queue.{
  Lock, BatchJob, Queue, is_lock, is_locked, batch_rows, locks_of, without, unlock_rows,
}

abbrev pub bit : Bool → ℕ
bit b = if b then 1 else 0

unfoldable pub count : Lock → List Lock → ℕ
count a [] = 0
count a (b ∷ locks) = bit (is_lock a b) + count a locks

-- How often a lock's row waits in the map, in a job of the queue, or is lost.
unfoldable pub count_batching : Lock → List (ℕ × List String) → ℕ
unfolding count
count_batching a [] = 0
count_batching a ((id, rows) ∷ map) = count a (locks_of id rows) + count_batching a map

abbrev pub count_rows : Lock → ℕ → Option (List String) → ℕ
count_rows a id none = 0
count_rows a id (some rows) = count a (locks_of id rows)

unfoldable pub count_jobs : Lock → List BatchJob → ℕ
unfolding count
count_jobs a [] = 0
count_jobs a (job ∷ jobs) = count_rows a job.id job.row_ids + count_jobs a jobs

abbrev pub pending : Lock → Queue → ℕ
pending a q = count_batching a q.batching + count_jobs a q.jobs + count a q.lost

-- Every row that is locked waits in exactly one place, and every row that waits is locked.
pub record IsAccounted (q : Queue) : Type 0 where
  pub same : (a : Lock) → count a q.locks ≡ pending a q
  pub once : (a : Lock) → count a q.locks ≤ 1

pub is_lock_eq : (a b : Lock) → is_lock a b ≡ true → a ≡ b
is_lock_eq a b h = ground (arith, eq_iff a.row_id b.row_id)

pub count-append : (a : Lock) (xs ys : List Lock) → count a (xs ++ ys) ≡ count a xs + count a ys
unfolding count
count-append a [] ys = omega arith
count-append a (x ∷ xs) ys = omega (arith, count-append a xs ys)

pub locks_of-append :
    (id : ℕ) (xs ys : List String) → locks_of id (xs ++ ys) ≡ locks_of id xs ++ locks_of id ys
locks_of-append id [] ys = refl
locks_of-append id (x ∷ xs) ys =
    ap (λ (t : List Lock). record { job_id = id; row_id = x } ∷ t) (locks_of-append id xs ys)

pub count-locks_of-append :
    (a : Lock) (id : ℕ) (xs ys : List String)
    → count a (locks_of id (xs ++ ys)) ≡ count a (locks_of id xs) + count a (locks_of id ys)
count-locks_of-append a id xs ys =
    ap (count a) (locks_of-append id xs ys) ∙ count-append a (locks_of id xs) (locks_of id ys)

pub count_jobs-append :
    (a : Lock) (xs ys : List BatchJob) → count_jobs a (xs ++ ys) ≡ count_jobs a xs + count_jobs a ys
unfolding count_jobs
count_jobs-append a [] ys = omega arith
count_jobs-append a (x ∷ xs) ys = omega (arith, count_jobs-append a xs ys)

pub count-unlocked : (a : Lock) (locks : List Lock) → is_locked a locks ≡ false → count a locks ≡ 0
unfolding count
count-unlocked a [] h = refl
count-unlocked a (b ∷ locks) h = ground (arith, count-unlocked a locks)

pub count_batching-batch_rows :
    (a : Lock) (id : ℕ) (rows : List String) (map : List (ℕ × List String))
    → count_batching a (batch_rows id rows map) ≡ count_batching a map + count a (locks_of id rows)
unfolding count_batching batch_rows
count_batching-batch_rows a id rows [] = omega arith
count_batching-batch_rows a id rows ((j, v) ∷ map) =
    ground (
      arith,
      count_batching-batch_rows a id rows map,
      count-locks_of-append a j v rows,
      ==_iff j id,
    )

pub count-without :
    (a b : Lock) (locks : List Lock)
    → count a (without b locks) ≡ (if is_lock a b then 0 else count a locks)
unfolding count
count-without a b [] = ground arith
count-without a b (c ∷ locks) = elim (Bool-cases (is_lock b c)) [
  | inl e ↦ let same = is_lock_eq b c e in ground (arith, count-without a b locks, same)
  | inr e ↦ elim (Bool-cases (is_lock a b)) [
    | inl f ↦ let same = is_lock_eq a b f in ground (arith, count-without a b locks, same)
    | inr f ↦ ground (arith, count-without a b locks)
  ]
]

pub count-unlock_rows :
    (a : Lock) (id : ℕ) (rows : List String) (locks : List Lock)
    → count a (unlock_rows id rows locks)
      ≡ (if ltb 0 (count a (locks_of id rows)) then 0 else count a locks)
unfolding count unlock_rows
count-unlock_rows a id [] locks = refl
count-unlock_rows a id (row ∷ rows) locks =
    let b : Lock = record { job_id = id; row_id = row } in
    ground (arith, count-unlock_rows a id rows (without b locks), count-without a b locks)
