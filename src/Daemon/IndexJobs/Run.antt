-- ===== src/Daemon/IndexJobs/Run.antt =====
-- The run of one autotune job, lantern_cli/src/daemon/autotune_jobs.rs: `autotune_worker` waits for
-- the first event of the job and then for its result, `autotune_job_processor` tunes, sends the event
-- `Done` and then the result, and the cancellations come from the map of handles. The channel of the
-- events holds one.
use lanterndb.Prelude.{
  ℕ, zero, suc, ◌≡◌, Bool, true, false, ◌||◌, Option, none, some, List, [], ◌∷◌,
}

-- How a job ends: it is tuned, it finds that it was cancelled, or it fails otherwise.
pub data Outcome : Type 0 where
  tuned canceled errored : Outcome

pub data JobEvent : Type 0 where
  done errored_canceled : JobEvent

-- The processor: it has variants left to try, or the outcome, whose event it has still to send, or
-- whose response, or it has sent both.
pub data Work : Type 0 where
  working : ℕ → Work
  ended : Outcome → Work
  announced : Outcome → Work
  responded : Work

-- The worker: it waits for an event, then for the result, and then writes the outcome to the table.
pub data Waiting : Type 0 where
  for_event : Waiting
  for_result : Waiting
  recorded : Outcome → Waiting

pub record JobRun : Type 0 where
  pub is_canceled : Bool
  pub events : List JobEvent
  pub response : Option Outcome
  pub work : Work
  pub worker : Waiting
  -- how many cancellations were sent
  pub cancels : ℕ

abbrev pub job_run : ℕ → JobRun
job_run variants = record {
  is_canceled = false;
  events = [];
  response = none;
  work = working variants;
  worker = for_event;
  cancels = 0;
}

-- The handle is removed when the outcome is written.
abbrev pub has_handle : Waiting → Bool
has_handle for_event = true
has_handle for_result = true
has_handle (recorded o) = false

abbrev pub is_cancellation : JobEvent → Bool
is_cancellation done = false
is_cancellation errored_canceled = true

-- The result of `autotune_index` when no variant is left.
abbrev pub last_outcome : Bool → Outcome
last_outcome true = tuned
last_outcome false = errored

pub data Step : JobRun → JobRun → Type 0 where
  -- a cancellation is put into the channel, when there is room
  cancel :
      (r : JobRun)
      → has_handle r.worker ≡ true
      → r.events ≡ []
      → Step r (record r { events = errored_canceled ∷ []; cancels = suc r.cancels })
  take_event :
      (r : JobRun) (e : JobEvent)
      → r.worker ≡ for_event
      → r.events ≡ e ∷ []
      → Step r (record r {
        is_canceled = r.is_canceled || is_cancellation e;
        events = [];
        worker = for_result;
      })
  -- the flag is read before each variant
  tune :
      (r : JobRun) (n : ℕ)
      → r.work ≡ working (suc n)
      → r.is_canceled ≡ false
      → Step r (record r { work = working n })
  give_up :
      (r : JobRun) (n : ℕ)
      → r.work ≡ working (suc n)
      → r.is_canceled ≡ true
      → Step r (record r { work = ended canceled })
  fail : (r : JobRun) (n : ℕ) → r.work ≡ working n → Step r (record r { work = ended errored })
  finish :
      (r : JobRun) (success : Bool)
      → r.work ≡ working zero
      → Step r (record r { work = ended (last_outcome success) })
  -- `event_tx.send(JobEvent::Done)` waits for room
  announce :
      (r : JobRun) (o : Outcome)
      → r.work ≡ ended o
      → r.events ≡ []
      → Step r (record r { work = announced o; events = done ∷ [] })
  respond :
      (r : JobRun) (o : Outcome)
      → r.work ≡ announced o
      → Step r (record r { work = responded; response = some o })
  record_outcome :
      (r : JobRun) (o : Outcome)
      → r.worker ≡ for_result
      → r.response ≡ some o
      → Step r (record r { worker = recorded o; response = none })

pub data Reach (s : JobRun) : JobRun → Type 0 where
  here : Reach s s
  next : {t u : JobRun} → Reach s t → Step t u → Reach s u

-- Steps put before others.
pub before : {s t u : JobRun} → Step s t → Reach t u → Reach s u
before step here = next here step
before step (next r last) = next (before step r) last
