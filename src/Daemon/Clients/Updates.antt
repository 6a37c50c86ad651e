-- ===== src/Daemon/Clients/Updates.antt =====
-- The updates of jobs, `job_update_processor` and `collect_pending_jobs` of
-- lantern_cli/src/daemon/embedding_jobs.rs.
use lanterndb.Prelude.{ok, err, and_then, ◌⊎◌}
use lanterndb.Daemon.Clients.{contains}
use lanterndb.Prelude.{
  ℕ, ◌≡◌, refl, ap, ◌∙◌, inl, inr, Bool, true, false, ◌&&◌, ◌||◌, not, Option, none, some, List, [],
  ◌∷◌, ◌++◌, arith, ◌==◌, ==_refl, if◌then◌else◌, Result, Bool-cases, Option-cases,
}
use lanterndb.Daemon.Clients.{Clients, job_of, is_open, stop_client_job, toggle_client_job}
use lanterndb.Daemon.Clients.Known.{job_of-remove_job}
use lanterndb.Daemon.Clients.Managed.{stop_client_job-remove_job}

-- `generate_missing` is set for the jobs that are found at the start.
pub record JobUpdateNotification : Type 0 where
  pub id : ℕ
  pub generate_missing : Bool

-- The columns that the update reads; the label of the daemon and of the job are compared.
pub record JobRow : Type 0 where
  pub canceled : Bool
  pub init_finished : Bool
  pub label : Option (List ℕ)

-- The daemon's maps: the client jobs, the jobs that run, with those that were sent the event of
-- their cancellation, those whose handle is in the map although the task has ended, and the rows
-- that wait to be batched, by job.
pub record Daemon : Type 0 where
  pub clients : Clients
  pub running : List ℕ
  pub cancelled : List ℕ
  pub stale : List ℕ
  pub batching : List (ℕ × List (List ℕ))

abbrev pub same_label : List ℕ → List ℕ → Bool
same_label [] [] = true
same_label (c ∷ s) (d ∷ t) = if c == d then same_label s t else false
same_label _ _ = false

abbrev pub label_or_empty : Option (List ℕ) → List ℕ
label_or_empty none = []
label_or_empty (some label) = label

abbrev pub without_rows : ℕ → List (ℕ × List (List ℕ)) → List (ℕ × List (List ℕ))
without_rows id [] = []
without_rows id ((i, rows) ∷ batching) =
    let rest = without_rows id batching in if i == id then rest else (i, rows) ∷ rest

-- The processor ends with this error when it sends to a handle whose task has ended.
pub data UpdateError : Type 0 where
  handle_closed : UpdateError

abbrev pub is_unreachable : ℕ → Daemon → Bool
is_unreachable id d = contains id d.running && contains id d.stale

-- A running job is sent the event; the rows that wait go only when the job is cancelled.
abbrev pub cancel_ongoing : ℕ → Bool → Daemon → Result UpdateError (Unit {0}) × Daemon
cancel_ongoing id canceled d = if is_unreachable id d then (err handle_closed, d) else (
  ok tt,
  record d {
    cancelled = if contains id d.running then d.cancelled ++ id ∷ [] else d.cancelled;
    batching = if canceled then without_rows id d.batching else d.batching;
  },
)

abbrev pub request_missing : ℕ → Daemon → Daemon
request_missing id d = record d {
  clients = record d.clients {
    notifications =
        d.clients.notifications
        ++ record { id = id; generate_missing = true; row_id = none; filter = true } ∷ [];
  };
}

module _ (daemon_label : List ℕ) where
  abbrev pub toggled_or_cancelled :
      ℕ → JobRow → Bool → Daemon → Result UpdateError (Unit {0}) × Daemon
  toggled_or_cancelled id row matching d =
      if row.init_finished && matching
      then (ok tt, record d { clients = toggle_client_job id (not row.canceled) d.clients })
      else if row.canceled || not matching
      then cancel_ongoing id row.canceled d
      else (ok tt, d)

  unfoldable pub process_update :
      JobUpdateNotification → JobRow → Daemon → Result UpdateError (Unit {0}) × Daemon
  process_update notification row d =
      let matching = same_label (label_or_empty row.label) daemon_label in
      and_then (toggled_or_cancelled notification.id row matching d) λ _ d.
        if not row.canceled && (notification.generate_missing && matching)
        then (ok tt, request_missing notification.id d)
        else (ok tt, d)

-- The pending jobs: those that did not fail and are not cancelled.
unfoldable pub collect_pending_jobs : List (ℕ × Bool × Bool) → List JobUpdateNotification
collect_pending_jobs [] = []
collect_pending_jobs ((id, init_failed, canceled) ∷ rows) =
    let rest = collect_pending_jobs rows in
    if init_failed || canceled then rest else record { id = id; generate_missing = true } ∷ rest

pub rows_of : ℕ → List (ℕ × List (List ℕ)) → Option (List (List ℕ))
rows_of id [] = none
rows_of id ((i, rows) ∷ batching) = if i == id then some rows else rows_of id batching

rows_of-without_rows :
    (id : ℕ) (batching : List (ℕ × List (List ℕ))) → rows_of id (without_rows id batching) ≡ none
unfolding rows_of
rows_of-without_rows id [] = refl
rows_of-without_rows id ((i, rows) ∷ batching) = ground (arith, rows_of-without_rows id batching)

stop_client_job_silent :
    (E : Type 0) (id : ℕ) (s : Clients)
    → (stop_client_job {E = E} id s).1.notifications ≡ s.notifications
unfolding stop_client_job
stop_client_job_silent E id s = elim (Option-cases (job_of id s.jobs)) [
  | inl e ↦ rw e refl
  | inr (gen, e) ↦ elim (Bool-cases (is_open gen s.listeners)) [
    | inl o ↦ rw (e, o) refl
    | inr o ↦ rw (e, o) refl
  ]
]

-- What a cancellation leaves of a job: of a finished job of this daemon no client job is left, and
-- the rows that wait stay; of another the client jobs stay, no row waits, and when it runs it was
-- sent the event.
unfoldable pub IsCancelled : Bool → ℕ → Daemon → Daemon → Type 0
IsCancelled true id before d =
    (job_of id d.clients.jobs ≡ none)
    × (d.batching ≡ before.batching)
    × (d.cancelled ≡ before.cancelled)
IsCancelled false id before d =
    (d.clients ≡ before.clients)
    × (rows_of id d.batching ≡ none)
    × (contains id before.running ≡ true → d.cancelled ≡ before.cancelled ++ id ∷ [])

module _ (daemon_label : List ℕ) where
  -- The update of a cancelled job that does not fail asks for no rows. When the job had finished its
  -- first run and has the daemon's label, it is no client job any more, and the rows that wait are
  -- kept; otherwise no row of it waits any more, the client jobs are as before, and when it runs it
  -- is sent the event of the cancellation. The update fails only in the other case, when the handle
  -- of the job is there and its task has ended: then nothing is changed, its rows wait on, and the
  -- processor ends.
  pub process_update-IsCancelled :
      (notification : JobUpdateNotification) (row : JobRow) (d : Daemon)
      → row.canceled ≡ true
      → let after = process_update daemon_label notification row d in
        ((after.0 ≡ ok tt)
          × (after.1.clients.notifications ≡ d.clients.notifications)
          × IsCancelled
              (row.init_finished && same_label (label_or_empty row.label) daemon_label)
              notification.id
              d
              after.1)
        ⊎ (((row.init_finished && same_label (label_or_empty row.label) daemon_label) ≡ false)
            × (is_unreachable notification.id d ≡ true)
            × (after ≡ (err handle_closed, d)))
  unfolding process_update IsCancelled toggle_client_job
  process_update-IsCancelled notification row d h =
      elim (Bool-cases (row.init_finished && same_label (label_or_empty row.label) daemon_label)) [
        | inl t ↦
            rw (h, t)
              (inl (
                refl,
                stop_client_job_silent (Unit {0}) notification.id d.clients,
                (
                  ap (job_of notification.id)
                        (stop_client_job-remove_job (Unit {0}) notification.id d.clients)
                      ∙ job_of-remove_job notification.id notification.id d.clients.jobs
                      ∙ rw (==_refl notification.id) refl,
                  refl,
                  refl,
                ),
              ))
        | inr t ↦ elim (Bool-cases (is_unreachable notification.id d)) [
          | inl u ↦ rw (h, t, u) (inr (refl, refl, refl))
          | inr u ↦
              rw (h, t, u)
                (inl (
                  refl,
                  refl,
                  (refl, rows_of-without_rows notification.id d.batching, λ r. rw r refl),
                ))
        ]
      ]
