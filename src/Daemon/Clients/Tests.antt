-- ===== src/Daemon/Clients/Tests.antt =====
-- Concrete runs of the client jobs of lantern_cli/src/daemon/client_embedding_jobs.rs.
use lanterndb.Prelude.{err, ◌⊎◌}
use lanterndb.Daemon.Clients.{begin_start, enter_map, stop_client_job}
use lanterndb.Daemon.Clients.Updates.{is_unreachable, handle_closed}
use lanterndb.Prelude.{
  ℕ, zero, suc, length, ap, ◌≡◌, ◌≢◌, inr, refl, true, false, Option, none, some, List, [], ◌∷◌,
  arith, All, Result, ok,
}
use lanterndb.Daemon.Clients.{
  Clients, Listener, no_clients, job_of, connection_lost, toggle_client_job, stop_all_client_jobs,
}
use lanterndb.Daemon.Clients.Known.{has_stop}
use lanterndb.Daemon.Clients.Managed.{
  IsManaged, Reach, Reach.here, Reach.further, Step.toggle, Step.begin, Step.enter, Step.lose,
  Reach-IsManaged,
}
use lanterndb.Daemon.Clients.Stopped.{stop_all_client_jobs_told}
use lanterndb.Daemon.Clients.Updates.{
  JobUpdateNotification, JobRow, Daemon, process_update, IsCancelled, process_update-IsCancelled,
}

abbrev works : Result ℕ (Unit {0})
works = ok tt

-- Job 4 is started, loses its connection, and is started again before it restarts.
abbrev asked : Clients
asked = toggle_client_job 4 true no_clients

abbrev begun : Clients
begun = (begin_start {E = ℕ} 4 asked).1

abbrev once : Clients
once = (enter_map works works 4 begun).1

abbrev lost : Clients
lost = connection_lost 0 once

abbrev again : Clients
again = (begin_start {E = ℕ} 4 lost).1

abbrev twice : Clients
twice = (enter_map works works 4 again).1

twice_reached : Reach ℕ no_clients twice
unfolding toggle_client_job begin_start enter_map connection_lost stop_client_job
twice_reached =
    further again twice
      (further lost again
        (further once lost
          (further begun once
            (further asked begun (further no_clients asked here (toggle 4 true no_clients))
              (begin 4 asked refl refl))
            (enter works works 4 begun refl))
          (lose 0 once))
        (begin 4 lost refl refl))
      (enter works works 4 again refl)

Reach-IsManaged_example : IsManaged twice
Reach-IsManaged_example = Reach-IsManaged twice twice_reached

-- Two starts of a job that overlap: the first listener is named by nothing and told nothing.
overlapping_starts :
    let s = (begin_start {E = ℕ} 4 (begin_start {E = ℕ} 4 asked).1).1 in
    let t = (enter_map works works 4 (enter_map works works 4 s).1).1 in
    (job_of 4 t.jobs ≡ some 1) × (length t.listeners ≡ 2)
unfolding toggle_client_job begin_start enter_map
overlapping_starts = (refl, refl)

abbrev two_jobs : Clients
two_jobs = record {
  jobs = (4, 0) ∷ (5, 1) ∷ [];
  listeners =
      record { gen = 1; job_id = 5; signals = []; restart_interval = 10 }
      ∷ record { gen = 0; job_id = 4; signals = []; restart_interval = 10 }
      ∷ [];
  notifications = [];
  next = 2;
  spawned = [];
  starting = [];
}

stop_all_client_jobs_told_example :
    All (λ (l : Listener). has_stop l.signals ≡ true) (stop_all_client_jobs two_jobs).listeners
    × ((id : ℕ) → job_of id (stop_all_client_jobs two_jobs).jobs ≡ none)
unfolding IsManaged
stop_all_client_jobs_told_example = stop_all_client_jobs_told two_jobs (inr refl, (inr refl, tt))

-- A number as that many strokes.
abbrev strokes : ℕ → List ℕ
strokes zero = []
strokes (suc n) = 124 ∷ strokes n

abbrev count_strokes : List ℕ → Option ℕ
count_strokes text = some (length text)

length-strokes : (n : ℕ) → length (strokes n) ≡ n
length-strokes zero = refl
length-strokes (suc n) = omega (arith, length-strokes n)

count_strokes-strokes : (n : ℕ) → count_strokes (strokes n) ≡ some n
count_strokes-strokes zero = refl
count_strokes-strokes (suc n) = ap some (length-strokes (suc n))

strokes_plain : (n : ℕ) → All (λ c. c ≢ 58) (strokes n)
strokes_plain zero = tt
strokes_plain (suc n) = ((λ e. absurd (omega (arith, e))), strokes_plain n)

abbrev busy : Daemon
busy = record {
  clients = two_jobs;
  running = 7 ∷ [];
  cancelled = [];
  stale = [];
  batching = (7, []) ∷ [];
}

abbrev cancelled_row : JobRow
cancelled_row = record { canceled = true; init_finished = false; label = none }

abbrev update_seven : JobUpdateNotification
update_seven = record { id = 7; generate_missing = false }

process_update-IsCancelled_example :
    (((process_update [] update_seven cancelled_row busy).0 ≡ ok tt)
      × ((process_update [] update_seven cancelled_row busy).1.clients.notifications
          ≡ two_jobs.notifications)
      × IsCancelled false 7 busy (process_update [] update_seven cancelled_row busy).1)
    ⊎ ((false ≡ false)
        × (is_unreachable 7 busy ≡ true)
        × (process_update [] update_seven cancelled_row busy ≡ (err handle_closed, busy)))
process_update-IsCancelled_example =
    process_update-IsCancelled [] update_seven cancelled_row busy refl

-- The handle is there and its task has ended: the rows wait on.
abbrev stale_seven : Daemon
stale_seven = record busy { stale = 7 ∷ [] }

update_of_stale :
    process_update [] update_seven cancelled_row stale_seven ≡ (err handle_closed, stale_seven)
unfolding process_update
update_of_stale = refl
