-- ===== src/Daemon/IndexJobs/Tests.antt =====
-- The autotune jobs of lantern_cli/src/daemon/autotune_jobs.rs at concrete inputs.
use mathlib.Core.List.{Perm}
use lanterndb.Prelude.Sorting.{Sorted, sort_by}
use lanterndb.Prelude.{
  ℕ, ◌≡◌, ◌≢◌, refl, false, true, none, some, List, [], ◌∷◌, ◌++◌, arith, split,
}
use lanterndb.Daemon.IndexJobs.{
  IndexJobRow, JobColumns, job_new, insert_job, job_insert_processor, collect_pending_index_jobs,
  id_order, set_job_handle, remove_job_handle, index_job_update, cancel_all_jobs, on_message,
  updated, ended as listener_ended, update_action,
}
use lanterndb.Daemon.IndexJobs.Pending.{open_jobs, pending_jobs_queue}
use lanterndb.Daemon.IndexJobs.Run.{
  Outcome, errored_canceled, JobRun, job_run, recorded, Reach, here, next, cancel,
}
use lanterndb.Daemon.IndexJobs.Completes.{CanEnd, Reach-CanEnd}
use lanterndb.Daemon.IndexJobs.Hangs.{two_cancels_hang}

-- A new job, one that was running, one that was cancelled, and one that is finished.
abbrev table : List (IndexJobRow ℕ)
table =
    record {
      id = 4;
      canceled = false;
      started = false;
      finished = false;
      failed = false;
      columns = 0;
    }
    ∷ record {
      id = 2;
      canceled = false;
      started = true;
      finished = false;
      failed = false;
      columns = 0;
    }
    ∷ record {
      id = 7;
      canceled = true;
      started = true;
      finished = false;
      failed = false;
      columns = 0;
    }
    ∷ record {
      id = 5;
      canceled = false;
      started = true;
      finished = true;
      failed = false;
      columns = 0;
    }
    ∷ []

pending_jobs_queue_example :
    (ordered : List (IndexJobRow ℕ)) × Perm ordered table
    × Sorted id_order ordered
    × ((job_insert_processor
          (collect_pending_index_jobs table)
          (record { rows = table; queue = [] })).queue
        ≡ open_jobs ordered)
pending_jobs_queue_example = pending_jobs_queue table (
  ((λ e. omega arith), ((λ e. omega arith), ((λ e. omega arith), tt))),
  (((λ e. omega arith), ((λ e. omega arith), tt)), (((λ e. omega arith), tt), (tt, tt))),
)

pending_run :
    (job_insert_processor
      (collect_pending_index_jobs table)
      (record { rows = table; queue = [] })).queue
    ≡ 2 ∷ 4 ∷ []
unfolding job_insert_processor collect_pending_index_jobs sort_by insert_job
pending_run = refl

-- A job that another daemon has started is not started again.
started_elsewhere :
    (insert_job
      (record { id = 2; generate_missing = false; row_id = none; filter = false })
      (record { rows = table; queue = [] })).queue
    ≡ []
unfolding insert_job
started_elsewhere = refl

-- A cancellation reaches the job that runs, and not the one that waits in the queue.
cancelled_jobs :
    index_job_update 7 true
      (index_job_update 4 true (set_job_handle 4 (record { running = []; cancelled = [] })))
    ≡ record { running = 4 ∷ []; cancelled = 4 ∷ [] }
unfolding index_job_update
cancelled_jobs = refl

all_cancelled :
    cancel_all_jobs (remove_job_handle 2 (record { running = 4 ∷ 2 ∷ []; cancelled = [] }))
    ≡ record { running = []; cancelled = 4 ∷ [] }
unfolding cancel_all_jobs
all_cancelled = refl

-- "update:7", and a payload with no colon.
heard_update :
    on_message (λ text. some 7) (update_action ++ 58 ∷ 55 ∷ [])
    ≡ updated (record { id = 7; generate_missing = true })
unfolding on_message split
heard_update = refl

heard_nothing : on_message (λ text. some 7) update_action ≡ listener_ended
unfolding on_message split
heard_nothing = refl

-- A negative sample size becomes a large one.
abbrev columns : JobColumns ℕ
columns = record {
  schema = [];
  table = [];
  column = [];
  metric_kind = [];
  model = none;
  target_recall = 95;
  k = 65546;
  sample_size = 4294967295;
  create_index = true;
}

narrowed :
    (job_new
      (record {
        id = 1;
        canceled = false;
        started = false;
        finished = false;
        failed = false;
        columns = columns;
      })
      []).columns
    ≡ record columns { k = 10; sample_size = 18446744073709551615 }
unfolding job_new
narrowed = refl

abbrev cancelled_run : JobRun
cancelled_run = record (job_run 3) { events = errored_canceled ∷ []; cancels = 1 }

Reach-CanEnd_example : CanEnd cancelled_run
Reach-CanEnd_example =
    Reach-CanEnd 3 cancelled_run (next here (cancel (job_run 3) refl refl)) (omega arith)

two_cancels_hang_example :
    (r : JobRun) × Reach (job_run 3) r
    × (r.cancels ≡ 2)
    × ((t : JobRun) (o : Outcome) → Reach r t → t.worker ≢ recorded o)
two_cancels_hang_example = two_cancels_hang 2
