-- ===== src/Daemon/Clients/Stopped.antt =====
-- `stop_all_client_jobs` of lantern_cli/src/daemon/embedding_jobs.rs: no task is left listening.
use lanterndb.Prelude.{
  ℕ, ◌≡◌, inl, inr, refl, ap, ◌∙◌, Bool, true, false, ◌||◌, Option, none, List, [], ◌∷◌, map, arith,
  ◌==◌, if◌then◌else◌, All,
}
use lanterndb.Daemon.Clients.{
  Listener, Clients, job_of, stop_client_job, stop_each, stop_all_client_jobs,
}
use lanterndb.Daemon.Clients.Known.{has_stop, IsKnown, job_of-remove_job}
use lanterndb.Daemon.Clients.Managed.{
  IsManaged, stop_client_job-IsManaged, stop_client_job-remove_job,
}

abbrev elem : ℕ → List ℕ → Bool
elem i [] = false
elem i (id ∷ ids) = (i == id) || elem i ids

stop_each-IsManaged : (ids : List ℕ) (s : Clients) → IsManaged s → IsManaged (stop_each ids s)
stop_each-IsManaged [] s h = h
stop_each-IsManaged (id ∷ ids) s h =
    stop_each-IsManaged ids (stop_client_job id s).1 (stop_client_job-IsManaged (Unit {0}) id s h)

stopped_either :
    (a b : Bool) (o : Option ℕ)
    → (if b then none else if a then none else o) ≡ (if a || b then none else o)
stopped_either true true o = refl
stopped_either true false o = refl
stopped_either false true o = refl
stopped_either false false o = refl

job_of-stop_each :
    (i : ℕ) (ids : List ℕ) (s : Clients)
    → job_of i (stop_each ids s).jobs ≡ (if elem i ids then none else job_of i s.jobs)
job_of-stop_each i [] s = refl
job_of-stop_each i (id ∷ ids) s =
    job_of-stop_each i ids (stop_client_job id s).1
    ∙ ap (λ o. if elem i ids then none else o)
        (ap (job_of i) (stop_client_job-remove_job (Unit {0}) id s) ∙ job_of-remove_job i id s.jobs)
    ∙ stopped_either (i == id) (elem i ids) (job_of i s.jobs)

not_named :
    (i : ℕ) (jobs : List (ℕ × ℕ))
    → (if elem i (map (λ (job : ℕ × ℕ). job.0) jobs) then none else job_of i jobs) ≡ none
not_named i [] = refl
not_named i ((j, gen) ∷ jobs) = ground (arith, not_named i jobs)

told :
    (jobs : List (ℕ × ℕ)) (listeners : List Listener)
    → ((i : ℕ) → job_of i jobs ≡ none)
    → All (IsKnown jobs) listeners
    → All (λ (l : Listener). has_stop l.signals ≡ true) listeners
told jobs [] n h = tt
told jobs (l ∷ listeners) n h = (known_told h.0, told jobs listeners n h.1)
  where
    known_told : IsKnown jobs l → has_stop l.signals ≡ true
    known_told (inl a) = a
    known_told (inr b) = absurd (cc (b, n l.job_id))

-- When each task that runs has been told to stop or is the one that the map names for its job: after
-- all jobs are stopped, each task that runs has been told to stop, and the map names none.
pub stop_all_client_jobs_told :
    (s : Clients)
    → IsManaged s
    → All (λ (l : Listener). has_stop l.signals ≡ true) (stop_all_client_jobs s).listeners
      × ((id : ℕ) → job_of id (stop_all_client_jobs s).jobs ≡ none)
unfolding stop_all_client_jobs IsManaged
stop_all_client_jobs_told s h =
    let ids = map (λ (job : ℕ × ℕ). job.0) s.jobs in
    let empty : (i : ℕ) → job_of i (stop_each ids s).jobs ≡ none =
      λ i. job_of-stop_each i ids s ∙ not_named i s.jobs in
    (
      told (stop_each ids s).jobs (stop_each ids s).listeners empty (stop_each-IsManaged ids s h),
      empty,
    )
