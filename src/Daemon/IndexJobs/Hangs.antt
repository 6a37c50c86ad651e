-- ===== src/Daemon/IndexJobs/Hangs.antt =====
-- A run of lantern_cli/src/daemon/autotune_jobs.rs with two cancellations may never end.
use lanterndb.Prelude.{ℕ, suc, ◌≡◌, ◌≢◌, refl, ap, true, none, [], ◌∷◌}
use lanterndb.Daemon.IndexJobs.Run.{
  Outcome, canceled, errored_canceled, ended, for_result, recorded, JobRun, job_run, Step, cancel,
  take_event, tune, give_up, fail, finish, announce, respond, record_outcome, Reach, here, next,
}

-- The worker waits for the result, the channel is full, and the processor waits for room in it.
abbrev hung : JobRun
hung = record {
  is_canceled = true;
  events = errored_canceled ∷ [];
  response = none;
  work = ended canceled;
  worker = for_result;
  cancels = 2;
}

no_step : {r t : JobRun} → r ≡ hung → Step r t → ⊥
no_step e (cancel r h k) = cc (ap (λ (x : JobRun). x.events) e)
no_step e (take_event r x h k) = cc (ap (λ (x : JobRun). x.worker) e)
no_step e (tune r n h k) = cc (ap (λ (x : JobRun). x.work) e)
no_step e (give_up r n h k) = cc (ap (λ (x : JobRun). x.work) e)
no_step e (fail r n h) = cc (ap (λ (x : JobRun). x.work) e)
no_step e (finish r success h) = cc (ap (λ (x : JobRun). x.work) e)
no_step e (announce r o h k) = cc (ap (λ (x : JobRun). x.events) e)
no_step e (respond r o h) = cc (ap (λ (x : JobRun). x.work) e)
no_step e (record_outcome r o h k) = cc (ap (λ (x : JobRun). x.response) e)

stays : {r t : JobRun} → r ≡ hung → Reach r t → t ≡ hung
stays e here = e
stays e (next reach step) = absurd (no_step (stays e reach) step)

-- With variants to try, two cancellations can be sent so that the worker never writes an outcome,
-- whatever steps follow.
pub two_cancels_hang :
    (variants : ℕ)
    → (r : JobRun) × Reach (job_run (suc variants)) r
      × (r.cancels ≡ 2)
      × ((t : JobRun) (o : Outcome) → Reach r t → t.worker ≢ recorded o)
two_cancels_hang variants = (
  hung,
  next
      (next (next (next here (cancel _ refl refl)) (take_event _ errored_canceled refl refl))
        (give_up _ variants refl refl))
      (cancel _ refl refl),
  refl,
  λ t o reach e. cc (ap (λ (x : JobRun). x.worker) (stays refl reach)),
)
