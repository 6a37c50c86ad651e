-- ===== src/Daemon/Clients/Managed.antt =====
-- No listener task of lantern_cli/src/daemon/client_embedding_jobs.rs runs on unnoticed.
use lanterndb.Prelude.{sym, List, [], ◌∷◌, ◌==◌, ==_iff, arith}
use lanterndb.Daemon.Clients.{
  ClientError, Listener, no_clients, contains, without_start, drop_listener, marked_starting,
  begin_start, enter_map, listen,
}
use lanterndb.Prelude.{
  ℕ, ◌≡◌, inl, inr, refl, ap, ◌∙◌, Bool, true, false, none, ==_refl, All, Bool-cases, Option-cases,
  Result, ok, err,
}
use lanterndb.Daemon.Clients.{
  restart, Clients, job_of, remove_job, is_open, stop_client_job, stop_active, take_signal,
  connection_lost, toggle_client_job,
}
use lanterndb.Daemon.Clients.Known.{
  IsKnown, job_of-remove_job, push-IsKnown, removed-IsKnown, closed-IsKnown, absent-IsKnown,
  insert-All-IsKnown, take-IsKnown,
}

unfoldable pub IsManaged : Clients → Type 0
IsManaged s = All (IsKnown s.jobs) s.listeners

pub stop_client_job-IsManaged :
    (E : Type 0) (id : ℕ) (s : Clients) → IsManaged s → IsManaged (stop_client_job {E = E} id s).1
unfolding stop_client_job IsManaged
stop_client_job-IsManaged E id s h = elim (Option-cases (job_of id s.jobs)) [
  | inl e ↦ rw e (absent-IsKnown s.jobs id s.listeners e h)
  | inr (gen, e) ↦ elim (Bool-cases (is_open gen s.listeners)) [
    | inl o ↦ rw (e, o) (removed-IsKnown s.jobs id gen s.listeners e h)
    | inr o ↦ rw (e, o) (closed-IsKnown s.jobs id gen s.listeners e o h)
  ]
]

pub stop_client_job-remove_job :
    (E : Type 0) (id : ℕ) (s : Clients)
    → (stop_client_job {E = E} id s).1.jobs ≡ remove_job id s.jobs
unfolding stop_client_job
stop_client_job-remove_job E id s = elim (Option-cases (job_of id s.jobs)) [
  | inl e ↦ rw e refl
  | inr (gen, e) ↦ elim (Bool-cases (is_open gen s.listeners)) [
    | inl o ↦ rw (e, o) refl
    | inr o ↦ rw (e, o) refl
  ]
]

-- After this the job is not in the map, whether or not its task could be told.
stop_active_lem :
    (E : Type 0) (id : ℕ) (s : Clients)
    → IsManaged s
    → IsManaged (stop_active {E = E} (job_of id s.jobs) id s).1
      × (job_of id (stop_active {E = E} (job_of id s.jobs) id s).1.jobs ≡ none)
stop_active_lem E id s h = elim (Option-cases (job_of id s.jobs)) [
  | inl e ↦ rw e (h, e)
  | inr (gen, e) ↦ rw e (
    stop_client_job-IsManaged E id s h,
    ap (job_of id) (stop_client_job-remove_job E id s)
        ∙ job_of-remove_job id id s.jobs
        ∙ rw (==_refl id) refl,
  )
]

stop_client_job-starting :
    (E : Type 0) (id : ℕ) (s : Clients) → (stop_client_job {E = E} id s).1.starting ≡ s.starting
unfolding stop_client_job
stop_client_job-starting E id s = elim (Option-cases (job_of id s.jobs)) [
  | inl e ↦ rw e refl
  | inr (gen, e) ↦ elim (Bool-cases (is_open gen s.listeners)) [
    | inl o ↦ rw (e, o) refl
    | inr o ↦ rw (e, o) refl
  ]
]

-- The map names none of these jobs.
abbrev Unnamed : List (ℕ × ℕ) → List ℕ → Type 0
Unnamed jobs ids = All (λ i. job_of i jobs ≡ none) ids

remove_job-Unnamed :
    (id : ℕ) (jobs : List (ℕ × ℕ)) (ids : List ℕ)
    → Unnamed jobs ids
    → Unnamed (remove_job id jobs) ids
remove_job-Unnamed id jobs [] h = tt
remove_job-Unnamed id jobs (i ∷ ids) h =
    (ground (arith, job_of-remove_job i id jobs, h.0), remove_job-Unnamed id jobs ids h.1)

entry-Unnamed :
    (id gen : ℕ) (jobs : List (ℕ × ℕ)) (ids : List ℕ)
    → Unnamed jobs ids
    → Unnamed ((id, gen) ∷ remove_job id jobs) (without_start id ids)
entry-Unnamed id gen jobs [] h = tt
entry-Unnamed id gen jobs (i ∷ ids) h = elim (Bool-cases (i == id)) [
  | inl t ↦ rw t (entry-Unnamed id gen jobs ids h.1)
  | inr t ↦
      rw t (ground (arith, job_of-remove_job i id jobs, h.0), entry-Unnamed id gen jobs ids h.1)
]

without_start-Unnamed :
    (id : ℕ) (jobs : List (ℕ × ℕ)) (ids : List ℕ)
    → Unnamed jobs ids
    → Unnamed jobs (without_start id ids)
without_start-Unnamed id jobs [] h = tt
without_start-Unnamed id jobs (i ∷ ids) h = elim (Bool-cases (i == id)) [
  | inl t ↦ rw t (without_start-Unnamed id jobs ids h.1)
  | inr t ↦ rw t (h.0, without_start-Unnamed id jobs ids h.1)
]

job_of-Unnamed :
    (id : ℕ) (jobs : List (ℕ × ℕ)) (ids : List ℕ)
    → Unnamed jobs ids
    → contains id ids ≡ true
    → job_of id jobs ≡ none
job_of-Unnamed id jobs [] h c = cc
job_of-Unnamed id jobs (i ∷ ids) h c = elim (Bool-cases (i == id)) [
  | inl t ↦ ap (λ k. job_of k jobs) (sym ((==_iff i id).0 t)) ∙ h.0
  | inr t ↦ job_of-Unnamed id jobs ids h.1 (rw t at c)
]

drop_listener-IsKnown :
    (jobs : List (ℕ × ℕ)) (gen : ℕ) (ls : List Listener)
    → All (IsKnown jobs) ls
    → All (IsKnown jobs) (drop_listener gen ls)
drop_listener-IsKnown jobs gen [] h = tt
drop_listener-IsKnown jobs gen (l ∷ ls) h = elim (Bool-cases (l.gen == gen)) [
  | inl t ↦ rw t (drop_listener-IsKnown jobs gen ls h.1)
  | inr t ↦ rw t (h.0, drop_listener-IsKnown jobs gen ls h.1)
]

-- Each task is known, and no start that has looked at the map has its job in it.
unfoldable IsOrderly : Clients → Type 0
unfolding IsManaged
IsOrderly s = IsManaged s × Unnamed s.jobs s.starting

-- A step of a task of the daemon. A start begins only when no other start of its job is on its way.
pub data Step (E : Type 0) : Clients → Clients → Type 0 where
  toggle : (id : ℕ) (enable : Bool) (s : Clients) → Step E s (toggle_client_job id enable s)
  begin :
      (id : ℕ) (s : Clients)
      → contains id s.spawned ≡ true
      → contains id s.starting ≡ false
      → Step E s (begin_start {E = E} id s).1
  enter :
      (connected set_up : Result E (Unit {0})) (id : ℕ) (s : Clients)
      → contains id s.starting ≡ true
      → Step E s (enter_map connected set_up id s).1
  heard : (result : Result E (Unit {0})) (gen : ℕ) (s : Clients) → Step E s (listen result gen s).1
  lose : (gen : ℕ) (s : Clients) → Step E s (connection_lost gen s)
  take_next : (gen : ℕ) (s : Clients) → Step E s (take_signal gen s)

-- Any number of steps.
pub data Reach (E : Type 0) (start : Clients) : Clients → Type 0 where
  here : Reach E start start
  further : (s t : Clients) → Reach E start s → Step E s t → Reach E start t

stop-IsOrderly :
    (E : Type 0) (id : ℕ) (s : Clients) → IsOrderly s → IsOrderly (stop_client_job {E = E} id s).1
unfolding IsOrderly
stop-IsOrderly E id s h = (
  stop_client_job-IsManaged E id s h.0,
  rw (stop_client_job-remove_job E id s, stop_client_job-starting E id s)
      (remove_job-Unnamed id s.jobs s.starting h.1),
)

stop_active-IsOrderly :
    (E : Type 0) (id : ℕ) (s : Clients)
    → IsOrderly s
    → IsOrderly (stop_active {E = E} (job_of id s.jobs) id s).1
stop_active-IsOrderly E id s h = elim (Option-cases (job_of id s.jobs)) [
  | inl e ↦ rw e h
  | inr (gen, e) ↦ rw e (stop-IsOrderly E id s h)
]

marked_starting-IsOrderly :
    (E : Type 0) (id : ℕ) (m : Result (ClientError E) (Unit {0}) × Clients)
    → IsOrderly m.1
    → job_of id m.1.jobs ≡ none
    → IsOrderly (marked_starting id m).1
unfolding IsOrderly IsManaged
marked_starting-IsOrderly E id (ok u, s) h n = (h.0, (n, h.1))
marked_starting-IsOrderly E id (err e, s) h n = h

begin_start-IsOrderly :
    (E : Type 0) (id : ℕ) (s : Clients) → IsOrderly s → IsOrderly (begin_start {E = E} id s).1
unfolding begin_start IsOrderly
begin_start-IsOrderly E id s h =
    marked_starting-IsOrderly E id (stop_active (job_of id s.jobs) id s)
      (stop_active-IsOrderly E id s h) (stop_active_lem E id s h.0).1

enter_map-IsOrderly :
    {E : Type 0} (connected set_up : Result E (Unit {0})) (id : ℕ) (s : Clients)
    → contains id s.starting ≡ true
    → IsOrderly s
    → IsOrderly (enter_map connected set_up id s).1
unfolding enter_map IsOrderly IsManaged
enter_map-IsOrderly (err e) set_up id s c h = (h.0, without_start-Unnamed id s.jobs s.starting h.1)
enter_map-IsOrderly (ok a) (err e) id s c h = (h.0, without_start-Unnamed id s.jobs s.starting h.1)
enter_map-IsOrderly (ok a) (ok b) id s c h = (
  (
    inr (rw (==_refl id) refl),
    insert-All-IsKnown s.jobs id s.next s.listeners (job_of-Unnamed id s.jobs s.starting h.1 c) h.0,
  ),
  entry-Unnamed id s.next s.jobs s.starting h.1,
)

listen-IsOrderly :
    {E : Type 0} (result : Result E (Unit {0})) (gen : ℕ) (s : Clients)
    → IsOrderly s
    → IsOrderly (listen result gen s).1
unfolding listen IsOrderly IsManaged
listen-IsOrderly (ok a) gen s h = h
listen-IsOrderly (err e) gen s h = (drop_listener-IsKnown s.jobs gen s.listeners h.0, h.1)

Step-IsOrderly : {E : Type 0} (s t : Clients) → Step E s t → IsOrderly s → IsOrderly t
unfolding toggle_client_job connection_lost take_signal IsOrderly IsManaged
Step-IsOrderly _ _ (toggle id true s) h = h
Step-IsOrderly _ _ (toggle id false s) h = stop-IsOrderly (Unit {0}) id s h
Step-IsOrderly {E} _ _ (begin id s spawned free) h = begin_start-IsOrderly E id s h
Step-IsOrderly _ _ (enter connected set_up id s c) h = enter_map-IsOrderly connected set_up id s c h
Step-IsOrderly _ _ (heard result gen s) h = listen-IsOrderly result gen s h
Step-IsOrderly _ _ (lose gen s) h = (push-IsKnown s.jobs gen restart s.listeners h.0, h.1)
Step-IsOrderly _ _ (take_next gen s) h = (take-IsKnown s.jobs gen s.listeners h.0, h.1)

Reach-IsOrderly : {E : Type 0} (start s : Clients) → IsOrderly start → Reach E start s → IsOrderly s
Reach-IsOrderly start _ h here = h
Reach-IsOrderly start _ h (further s t r step) =
    Step-IsOrderly s t step (Reach-IsOrderly start s h r)

-- From the empty map, in every order of the steps of the starts, the stops, the lost connections
-- and the signals, whatever calls on the clients' databases fail, as long as no start of a job
-- begins while another start of it has not entered the map: each listener task that runs has been
-- told to stop, or it is the one that the map names for its job.
pub Reach-IsManaged : {E : Type 0} (s : Clients) → Reach E no_clients s → IsManaged s
unfolding IsOrderly IsManaged
Reach-IsManaged s r = (Reach-IsOrderly no_clients s (tt, tt) r).0
