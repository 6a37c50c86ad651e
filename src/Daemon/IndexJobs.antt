-- ===== src/Daemon/IndexJobs.antt =====
-- The autotune jobs, lantern_cli/src/daemon/autotune_jobs.rs, and what they use of
-- lantern_cli/src/daemon/helpers.rs: the rows of the job table, the notifications, and the map of
-- running jobs. A time is there or not; the channels between the tasks stay open.
pub mod Pending
mod Tests
pub mod Run
pub mod Completes
pub mod Hangs
use lanterndb.Prelude.Sorting.{Ordering, less, equal, greater, sort_by}
use lanterndb.Prelude.{
  ℕ, ◌+◌, ◌%◌, Bool, true, false, ◌&&◌, not, Option, none, some, List, [], ◌∷◌, ◌++◌, ◌==◌, ltb,
  if◌then◌else◌, split,
}
use lanterndb.Daemon.Clients.{JobInsertNotification, contains}
use lanterndb.Daemon.Clients.Updates.{JobUpdateNotification, same_label}

-- A row of the job table, whose columns of the job itself are one value.
pub record IndexJobRow (A : Type 0) : Type 0 where
  pub id : ℕ
  pub canceled : Bool
  pub started : Bool
  pub finished : Bool
  pub failed : Bool
  pub columns : A

-- The columns of a job, with `i32` as its 32 bits; `recall` is a floating-point number.
pub record JobColumns (F : Type 0) : Type 0 where
  pub schema : List ℕ
  pub table : List ℕ
  pub column : List ℕ
  pub metric_kind : List ℕ
  pub model : Option (List ℕ)
  pub target_recall : F
  pub k : ℕ
  pub sample_size : ℕ
  pub create_index : Bool

pub record AutotuneJob (F : Type 0) : Type 0 where
  pub job_id : ℕ
  pub is_init : Bool
  pub db_uri : List ℕ
  pub columns : JobColumns F

-- A negative `i32` becomes a large `usize`, and of `k` the low sixteen bits are kept.
abbrev pub as_usize : ℕ → ℕ
as_usize n = if ltb n 2147483648 then n else n + 18446744069414584320

unfoldable pub job_new : {F : Type 0} → IndexJobRow (JobColumns F) → List ℕ → AutotuneJob F
job_new row db_uri = record {
  job_id = row.id;
  is_init = true;
  db_uri = db_uri;
  columns = record row.columns {
    k = row.columns.k % 65536;
    sample_size = as_usize row.columns.sample_size;
  };
}

-- The table and the jobs that were sent to the worker.
pub record Inserts (A : Type 0) : Type 0 where
  pub rows : List (IndexJobRow A)
  pub queue : List ℕ

module _ {A : Type 0} where
  -- `WHERE id=$1 AND canceled_at IS NULL`
  unfoldable pub find_job : ℕ → List (IndexJobRow A) → Option (IndexJobRow A)
  find_job id [] = none
  find_job id (row ∷ rows) =
      let rest = find_job id rows in if row.id == id && not row.canceled then some row else rest

  -- `SET started_at=NOW() WHERE started_at IS NULL AND id=$1`
  abbrev pub start_row : ℕ → IndexJobRow A → IndexJobRow A
  start_row id row = if row.id == id then record row { started = true } else row

  unfoldable pub mark_started : ℕ → List (IndexJobRow A) → List (IndexJobRow A)
  mark_started id [] = []
  mark_started id (row ∷ rows) = start_row id row ∷ mark_started id rows

  abbrev pub send_job : ℕ → Inserts A → Inserts A
  send_job id s = record s { queue = s.queue ++ id ∷ [] }

  abbrev pub start_job : ℕ → Bool → Bool → Inserts A → Inserts A
  start_job id started generate_missing s =
      if started && not generate_missing
      then s
      else send_job id (record s { rows = mark_started id s.rows })

  abbrev pub found_job : JobInsertNotification → Option (IndexJobRow A) → Inserts A → Inserts A
  found_job n none s = s
  found_job n (some row) s =
      if row.finished then send_job n.id s else start_job n.id row.started n.generate_missing s

  -- A round of `job_insert_processor`.
  unfoldable pub insert_job : JobInsertNotification → Inserts A → Inserts A
  unfolding find_job mark_started
  insert_job n s = found_job n (find_job n.id s.rows) s

  unfoldable pub job_insert_processor : List JobInsertNotification → Inserts A → Inserts A
  unfolding insert_job
  job_insert_processor [] s = s
  job_insert_processor (n ∷ notifications) s = job_insert_processor notifications (insert_job n s)

  -- `ORDER BY id`
  abbrev pub id_order : IndexJobRow A → IndexJobRow A → Ordering
  id_order a b = if ltb a.id b.id then less else if ltb b.id a.id then greater else equal

  -- The jobs that neither failed nor finished; one that was started before is taken up again.
  unfoldable pub pending_of : List (IndexJobRow A) → List JobInsertNotification
  pending_of [] = []
  pending_of (row ∷ rows) =
      let rest = pending_of rows in
      if not row.failed && not row.finished
      then record { id = row.id; generate_missing = row.started; row_id = none; filter = false }
        ∷ rest
      else rest

  unfoldable pub collect_pending_index_jobs : List (IndexJobRow A) → List JobInsertNotification
  unfolding pending_of
  collect_pending_index_jobs rows = pending_of (sort_by id_order rows)

-- The jobs that have a handle in the map, and those that were sent the event of their cancellation.
pub record Handles : Type 0 where
  pub running : List ℕ
  pub cancelled : List ℕ

abbrev pub set_job_handle : ℕ → Handles → Handles
set_job_handle id h = record h { running = id ∷ h.running }

abbrev pub without : ℕ → List ℕ → List ℕ
without id [] = []
without id (i ∷ ids) = let rest = without id ids in if i == id then rest else i ∷ rest

abbrev pub remove_job_handle : ℕ → Handles → Handles
remove_job_handle id h = record h { running = without id h.running }

-- A round of `index_job_update_processor`, with whether the row has `canceled_at`.
unfoldable pub index_job_update : ℕ → Bool → Handles → Handles
index_job_update id canceled h =
    if canceled && contains id h.running then record h { cancelled = h.cancelled ++ id ∷ [] } else h

unfoldable pub cancel_all_jobs : Handles → Handles
cancel_all_jobs h = record { running = []; cancelled = h.cancelled ++ h.running }

-- What `db_notification_listener` does with a payload: it sends a notification or logs an error and
-- goes on, it ends, or it panics. How numbers are read is a parameter.
pub data Heard : Type 0 where
  inserted : JobInsertNotification → Heard
  updated : JobUpdateNotification → Heard
  ignored : Heard
  ended : Heard
  unparsed : Heard

-- "insert" and "update"
abbrev pub insert_action : List ℕ
insert_action = 105 ∷ 110 ∷ 115 ∷ 101 ∷ 114 ∷ 116 ∷ []

abbrev pub update_action : List ℕ
update_action = 117 ∷ 112 ∷ 100 ∷ 97 ∷ 116 ∷ 101 ∷ []

abbrev pub heard_action : List ℕ → Option ℕ → Heard
heard_action action none = unparsed
heard_action action (some id) =
    if same_label action insert_action
    then inserted (record { id = id; generate_missing = false; row_id = none; filter = false })
    else if same_label action update_action
    then updated (record { id = id; generate_missing = true })
    else ignored

abbrev pub heard_parts : (List ℕ → Option ℕ) → List (List ℕ) → Heard
heard_parts from_str_radix [] = ended
heard_parts from_str_radix (action ∷ []) = ended
heard_parts from_str_radix (action ∷ id ∷ rest) = heard_action action (from_str_radix id)

unfoldable pub on_message : (List ℕ → Option ℕ) → List ℕ → Heard
on_message from_str_radix payload =
    let parts = split 58 [] payload in heard_parts from_str_radix (parts.0 ++ parts.1 ∷ [])
