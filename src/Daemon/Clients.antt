-- ===== src/Daemon/Clients.antt =====
-- The client jobs of lantern_cli/src/daemon/client_embedding_jobs.rs: the map of running jobs, the
-- listener task of each, and their signals. A job's channel is the number of its start; whether the
-- calls on the client's database succeed is given. The triggers are SQL, and dropping them only logs
-- its errors. A start is spawned, and its steps are taken one by one, between those of other tasks: it
-- looks at the map, enters itself, and listens.
pub mod Payload
pub mod Known
pub mod Managed
pub mod Stopped
pub mod Updates
mod Tests
use lanterndb.Prelude.{
  ℕ, zero, suc, ◌+◌, ◌*◌, Bool, true, false, ◌||◌, Option, none, some, List, [], ◌∷◌, ◌++◌, map,
  ◌==◌, if◌then◌else◌, Result, ok, err, and_then,
}

pub data ClientJobSignal : Type 0 where
  stop : ClientJobSignal
  restart : ClientJobSignal

-- `filter` tells whether there is one: that of the missing rows.
pub record JobInsertNotification : Type 0 where
  pub id : ℕ
  pub generate_missing : Bool
  pub row_id : Option (List ℕ)
  pub filter : Bool

-- The task that listens for the signals of a job, with those that it has not taken yet.
pub record Listener : Type 0 where
  pub gen : ℕ
  pub job_id : ℕ
  pub signals : List ClientJobSignal
  pub restart_interval : ℕ

-- The map of jobs to channels, the tasks that hold the other ends, what was sent to the queue, the
-- next channel, the jobs that a start was spawned for, and those whose start has looked at the map
-- and not yet entered it.
pub record Clients : Type 0 where
  pub jobs : List (ℕ × ℕ)
  pub listeners : List Listener
  pub notifications : List JobInsertNotification
  pub next : ℕ
  pub spawned : List ℕ
  pub starting : List ℕ

abbrev pub contains : ℕ → List ℕ → Bool
contains id [] = false
contains id (i ∷ ids) = (i == id) || contains id ids

abbrev pub without_start : ℕ → List ℕ → List ℕ
without_start id [] = []
without_start id (i ∷ ids) = let rest = without_start id ids in if i == id then rest else i ∷ rest

abbrev pub no_clients : Clients
no_clients = record {
  jobs = [];
  listeners = [];
  notifications = [];
  next = 0;
  spawned = [];
  starting = [];
}

pub data ClientError (E : Type 0) : Type 0 where
  channel_closed : ClientError E
  failed : E → ClientError E

abbrev pub job_of : ℕ → List (ℕ × ℕ) → Option ℕ
job_of id [] = none
job_of id ((i, gen) ∷ jobs) = if i == id then some gen else job_of id jobs

abbrev pub remove_job : ℕ → List (ℕ × ℕ) → List (ℕ × ℕ)
remove_job id [] = []
remove_job id ((i, gen) ∷ jobs) =
    let rest = remove_job id jobs in if i == id then rest else (i, gen) ∷ rest

-- Whether a task still holds the channel's other end.
abbrev pub is_open : ℕ → List Listener → Bool
is_open gen [] = false
is_open gen (l ∷ listeners) = (l.gen == gen) || is_open gen listeners

abbrev pub push_signal : ℕ → ClientJobSignal → List Listener → List Listener
push_signal gen signal [] = []
push_signal gen signal (l ∷ listeners) =
    (if l.gen == gen then record l { signals = l.signals ++ signal ∷ [] } else l)
    ∷ push_signal gen signal listeners

abbrev pub drop_listener : ℕ → List Listener → List Listener
drop_listener gen [] = []
drop_listener gen (l ∷ listeners) =
    let rest = drop_listener gen listeners in if l.gen == gen then rest else l ∷ rest

-- The channel is put into the map before the listener is set up.
abbrev pub insert_job : ℕ → Clients → Clients
insert_job id s = record s { jobs = (id, s.next) ∷ remove_job id s.jobs; next = suc s.next }

abbrev pub spawn_listener : ℕ → ℕ → Clients → Clients
spawn_listener gen id s = record s {
  listeners = record { gen = gen; job_id = id; signals = []; restart_interval = 10 } ∷ s.listeners;
}

module _ {E : Type 0} where
  abbrev pub stopped : Option ℕ → Clients → Result (ClientError E) (Unit {0}) × Clients
  stopped none s = (ok tt, s)
  stopped (some gen) s =
      if is_open gen s.listeners
      then (ok tt, record s { listeners = push_signal gen stop s.listeners })
      else (err channel_closed, s)

  unfoldable pub stop_client_job : ℕ → Clients → Result (ClientError E) (Unit {0}) × Clients
  stop_client_job id s = stopped (job_of id s.jobs) (record s { jobs = remove_job id s.jobs })

  abbrev pub stop_active : Option ℕ → ℕ → Clients → Result (ClientError E) (Unit {0}) × Clients
  stop_active none id s = (ok tt, s)
  stop_active (some gen) id s = stop_client_job id s

  abbrev pub checked : Result E (Unit {0}) → Clients → Result (ClientError E) (Unit {0}) × Clients
  checked (ok u) s = (ok tt, s)
  checked (err e) s = (err (failed e), s)

  abbrev pub marked_starting :
      ℕ → Result (ClientError E) (Unit {0}) × Clients → Result (ClientError E) (Unit {0}) × Clients
  marked_starting id (ok u, s) = (ok tt, record s { starting = id ∷ s.starting })
  marked_starting id (err e, s) = (err e, s)

  -- A job that is active is stopped first.
  unfoldable pub begin_start : ℕ → Clients → Result (ClientError E) (Unit {0}) × Clients
  unfolding stop_client_job
  begin_start id s = marked_starting id (stop_active (job_of id s.jobs) id s)

  abbrev pub entered :
      ℕ → Result (ClientError E) (Unit {0}) × Clients → Result (ClientError E) ℕ × Clients
  entered id (ok u, s) = (ok s.next, spawn_listener s.next id (insert_job id s))
  entered id (err e, s) = (err e, s)

  -- Whether the connection and the triggers could be set up is given.
  unfoldable pub enter_map :
      Result E (Unit {0}) → Result E (Unit {0}) → ℕ → Clients → Result (ClientError E) ℕ × Clients
  enter_map connected set_up id s = entered id (
      and_then (checked connected (record s { starting = without_start id s.starting }))
        λ _ s. checked set_up s)

  -- Whether the listener could be set up is given: otherwise the channel's other end goes.
  unfoldable pub listen :
      Result E (Unit {0}) → ℕ → Clients → Result (ClientError E) (Unit {0}) × Clients
  listen (ok u) gen s = (ok tt, s)
  listen (err e) gen s = (err (failed e), record s { listeners = drop_listener gen s.listeners })

  -- A start with no other task in between.
  unfoldable pub start_client_job :
      Result E (Unit {0})
      → Result E (Unit {0})
      → Result E (Unit {0})
      → ℕ
      → Clients
      → Result (ClientError E) (Unit {0}) × Clients
  unfolding begin_start enter_map listen
  start_client_job connected set_up heard id s =
      and_then (begin_start id s)
        λ _ s. and_then (enter_map connected set_up id s) λ gen s. listen heard gen s

-- The waits of a restart that fails this often before it succeeds.
pub restart_waits : ℕ → ℕ → List ℕ
restart_waits interval zero = []
restart_waits interval (suc failures) = interval ∷ restart_waits (interval * 2) failures

-- A task takes its next signal: it ends, or listens anew, and asks for the rows it missed.
abbrev pub after_signal : Listener → List ClientJobSignal → List Listener
after_signal l [] = l ∷ []
after_signal l (stop ∷ signals) = []
after_signal l (restart ∷ signals) = record l { signals = signals; restart_interval = 10 } ∷ []

abbrev pub missed_rows : ℕ → List ClientJobSignal → List JobInsertNotification
missed_rows id [] = []
missed_rows id (stop ∷ signals) = []
missed_rows id (restart ∷ signals) =
    record { id = id; generate_missing = true; row_id = none; filter = true } ∷ []

abbrev pub take_signals : ℕ → List Listener → List Listener
take_signals gen [] = []
take_signals gen (l ∷ listeners) =
    (if l.gen == gen then after_signal l l.signals else l ∷ []) ++ take_signals gen listeners

abbrev pub missed_by : ℕ → List Listener → List JobInsertNotification
missed_by gen [] = []
missed_by gen (l ∷ listeners) =
    (if l.gen == gen then missed_rows l.job_id l.signals else []) ++ missed_by gen listeners

unfoldable pub take_signal : ℕ → Clients → Clients
take_signal gen s = record s {
  listeners = take_signals gen s.listeners;
  notifications = s.notifications ++ missed_by gen s.listeners;
}

-- The connection of a listener broke: it signals its own task.
unfoldable pub connection_lost : ℕ → Clients → Clients
connection_lost gen s = record s { listeners = push_signal gen restart s.listeners }

-- A start is spawned; the errors of a stop are logged only.
unfoldable pub toggle_client_job : ℕ → Bool → Clients → Clients
unfolding stop_client_job
toggle_client_job id true s = record s { spawned = id ∷ s.spawned }
toggle_client_job id false s = (stop_client_job {E = Unit {0}} id s).1

abbrev pub stop_each : List ℕ → Clients → Clients
stop_each [] s = s
stop_each (id ∷ ids) s = stop_each ids (stop_client_job {E = Unit {0}} id s).1

unfoldable pub stop_all_client_jobs : Clients → Clients
stop_all_client_jobs s = stop_each (map (λ (job : ℕ × ℕ). job.0) s.jobs) s
