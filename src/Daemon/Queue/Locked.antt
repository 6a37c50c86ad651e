-- ===== src/Daemon/Queue/Locked.antt =====
-- Which rows are locked, for lantern_cli/src/daemon/embedding_jobs.rs.
use Prim.Native.String.{String}
use lanterndb.Prelude.{
  ℕ, ◌+◌, ◌-◌, ◌≡◌, inl, inr, refl, ap, ◌∙◌, Bool, true, false, ◌&&◌, not, Option, none, some, List,
  [], ◌∷◌, arith, take, drop, take-append-drop, Bool-cases, Option-cases,
}
use lanterndb.Daemon.Queue.{
  Lock, BatchJob, Queue, is_lock, is_locked, on_row_notification, locks_of, collect_job,
  collect_jobs, batch_collector, embedding_worker, on_job,
}
use lanterndb.Daemon.Queue.Counting.{
  count, count_batching, count_jobs, pending, IsAccounted, is_lock_eq, count-append,
  count-locks_of-append, count_jobs-append, count-unlocked, count_batching-batch_rows,
  count-unlock_rows,
}

pub on_row_notification-IsAccounted :
    (accepts : Bool) (id : ℕ) (row : String) (q : Queue)
    → IsAccounted q
    → IsAccounted (on_row_notification accepts id row q)
unfolding on_row_notification count
on_row_notification-IsAccounted accepts id row q h =
    let b : Lock = record { job_id = id; row_id = row } in
    elim (Bool-cases (accepts && not (is_locked b q.locks))) [
      | inl e ↦ rw e (record {
        same = λ a. omega (arith, h.same a, count_batching-batch_rows a id (row ∷ []) q.batching);
        once = λ a. elim (Bool-cases (is_lock a b)) [
          | inl f ↦
              let same = is_lock_eq a b f in
              ground (arith, same, count-unlocked b q.locks, h.once b)
          | inr f ↦ ground (arith, h.once a)
        ];
      })
      | inr e ↦ rw e (record { same = h.same; once = h.once })
    ]

pending-collect_job :
    (a : Lock) (load_job : ℕ → Option ℕ) (id : ℕ) (ids : List String) (o : Option ℕ) (q : Queue)
    → pending a (collect_job load_job id ids o q) ≡ pending a q + count a (locks_of id ids)
unfolding collect_job count_jobs
pending-collect_job a load_job id ids none q =
    omega (arith, count-append a q.lost (locks_of id ids))
pending-collect_job a load_job id ids (some size) q = ground (
  arith,
  count_jobs-append a q.jobs
      (record { id = id; is_init = false; row_ids = some (take (size - 1) ids) } ∷ []),
  count_jobs-append a q.jobs (record { id = id; is_init = false; row_ids = some ids } ∷ []),
  count_batching-batch_rows a id (drop (size - 1) ids) q.batching,
  count-locks_of-append a id (take (size - 1) ids) (drop (size - 1) ids),
  ap (λ (t : List String). count a (locks_of id t)) (take-append-drop (size - 1) ids),
)

locks-collect_job :
    (load_job : ℕ → Option ℕ) (id : ℕ) (ids : List String) (o : Option ℕ) (q : Queue)
    → (collect_job load_job id ids o q).locks ≡ q.locks
unfolding collect_job
locks-collect_job load_job id ids none q = refl
locks-collect_job load_job id ids (some size) q = ground arith

pending-collect_jobs :
    (a : Lock) (load_job : ℕ → Option ℕ) (map : List (ℕ × List String)) (q : Queue)
    → (pending a (collect_jobs load_job map q) ≡ pending a q + count_batching a map)
      × ((collect_jobs load_job map q).locks ≡ q.locks)
unfolding collect_jobs count_batching
pending-collect_jobs a load_job [] q = (omega arith, refl)
pending-collect_jobs a load_job ((id, ids) ∷ map) q =
    let x = pending-collect_jobs a load_job map (collect_job load_job id ids (load_job id) q) in
    (
      omega (arith, x.0, pending-collect_job a load_job id ids (load_job id) q),
      x.1 ∙ locks-collect_job load_job id ids (load_job id) q,
    )

pub batch_collector-IsAccounted :
    (load_job : ℕ → Option ℕ) (q : Queue) → IsAccounted q → IsAccounted (batch_collector load_job q)
unfolding batch_collector count_batching
batch_collector-IsAccounted load_job q h = record {
  same = λ a.
      let x = pending-collect_jobs a load_job q.batching (record q { batching = [] }) in
      omega (arith, ap (count a) x.1, x.0, h.same a);
  once = λ a.
      let x = pending-collect_jobs a load_job q.batching (record q { batching = [] }) in
      omega (arith, ap (count a) x.1, h.once a);
}

on_job-IsAccounted :
    (job : BatchJob) (jobs : List BatchJob) (q : Queue)
    → q.jobs ≡ job ∷ jobs
    → IsAccounted q
    → IsAccounted (on_job true (job ∷ jobs) q)
unfolding embedding_worker count_jobs
on_job-IsAccounted job jobs q e h = elim (Option-cases job.row_ids) [
  | inl f ↦
      rw f (record { same = λ a. ground (arith, h.same a, f, ap (count_jobs a) e); once = h.once })
  | inr (rows, f) ↦ rw f (record {
    same = λ a. ground (
      arith,
      h.same a,
      h.once a,
      f,
      ap (count_jobs a) e,
      count-unlock_rows a job.id rows q.locks,
    );
    once = λ a. ground (arith, h.once a, count-unlock_rows a job.id rows q.locks);
  })
]

on_jobs-IsAccounted :
    (jobs : List BatchJob) (q : Queue)
    → q.jobs ≡ jobs
    → IsAccounted q
    → IsAccounted (on_job true jobs q)
on_jobs-IsAccounted [] q e h = h
on_jobs-IsAccounted (job ∷ jobs) q e h = on_job-IsAccounted job jobs q e h

pub embedding_worker-IsAccounted :
    (q : Queue) → IsAccounted q → IsAccounted (embedding_worker true q)
unfolding embedding_worker
embedding_worker-IsAccounted q h = on_jobs-IsAccounted q.jobs q refl h

-- What happens to the queue when no embedding fails.
pub data Event : Type 0 where
  notified : Bool → ℕ → String → Event
  collected : Event
  embedded : Event

abbrev pub on_event : (ℕ → Option ℕ) → Event → Queue → Queue
on_event load_job (notified accepts id row) q = on_row_notification accepts id row q
on_event load_job collected q = batch_collector load_job q
on_event load_job embedded q = embedding_worker true q

abbrev pub run : (ℕ → Option ℕ) → List Event → Queue → Queue
run load_job [] q = q
run load_job (event ∷ events) q = run load_job events (on_event load_job event q)
