-- ===== src/Daemon/Clients/Known.antt =====
-- The tasks that the map of lantern_cli/src/daemon/client_embedding_jobs.rs knows of, under each change
-- of the map and of the signals.
use lanterndb.Prelude.{
  ℕ, ◌≡◌, ◌⊎◌, inl, inr, refl, ap, ◌∙◌, Bool, true, false, ◌||◌, none, some, List, [], ◌∷◌, ◌++◌,
  arith, ◌==◌, ==_iff, if◌then◌else◌, All, All-append, Bool-cases,
}
use lanterndb.Daemon.Clients.{
  ClientJobSignal, stop, restart, Listener, job_of, remove_job, is_open, push_signal, after_signal,
  take_signals,
}

abbrev pub has_stop : List ClientJobSignal → Bool
has_stop [] = false
has_stop (stop ∷ signals) = true
has_stop (restart ∷ signals) = has_stop signals

-- The task has been told to stop, or it is the one that the map names for its job.
abbrev pub IsKnown : List (ℕ × ℕ) → Listener → Type 0
IsKnown jobs l = (has_stop l.signals ≡ true) ⊎ (job_of l.job_id jobs ≡ some l.gen)

pub has_stop-append :
    (signals : List ClientJobSignal) (signal : ClientJobSignal)
    → has_stop (signals ++ signal ∷ []) ≡ (has_stop signals || has_stop (signal ∷ []))
has_stop-append [] stop = refl
has_stop-append [] restart = refl
has_stop-append (stop ∷ signals) signal = refl
has_stop-append (restart ∷ signals) signal = has_stop-append signals signal

pub job_of-remove_job :
    (i id : ℕ) (jobs : List (ℕ × ℕ))
    → job_of i (remove_job id jobs) ≡ (if i == id then none else job_of i jobs)
job_of-remove_job i id [] = ground arith
job_of-remove_job i id ((j, gen) ∷ jobs) = ground (arith, job_of-remove_job i id jobs)

pub or_true : (b : Bool) → (b || true) ≡ true
or_true true = refl
or_true false = refl

pub or_left : (a b : Bool) → (a || b) ≡ false → a ≡ false
or_left true b h = h
or_left false b h = refl

pub or_right : (a b : Bool) → (a || b) ≡ false → b ≡ false
or_right true b h = absurd (cc h)
or_right false b h = h

-- A task with a signal more, when it is the one meant.
abbrev pub signalled : ℕ → ClientJobSignal → Listener → Listener
signalled gen signal l = if l.gen == gen then record l { signals = l.signals ++ signal ∷ [] } else l

pub signalled-IsKnown :
    (jobs : List (ℕ × ℕ)) (gen : ℕ) (signal : ClientJobSignal) (l : Listener)
    → IsKnown jobs l
    → IsKnown jobs (signalled gen signal l)
signalled-IsKnown jobs gen signal l h = elim (Bool-cases (l.gen == gen)) [
  | inl t ↦ rw t (elim h [
    | inl a ↦ inl (has_stop-append l.signals signal ∙ ap (λ b. b || has_stop (signal ∷ [])) a)
    | inr b ↦ inr b
  ])
  | inr t ↦ rw t h
]

pub push-IsKnown :
    (jobs : List (ℕ × ℕ)) (gen : ℕ) (signal : ClientJobSignal) (listeners : List Listener)
    → All (IsKnown jobs) listeners
    → All (IsKnown jobs) (push_signal gen signal listeners)
push-IsKnown jobs gen signal [] h = tt
push-IsKnown jobs gen signal (l ∷ listeners) h =
    (signalled-IsKnown jobs gen signal l h.0, push-IsKnown jobs gen signal listeners h.1)

pub other-IsKnown :
    (jobs : List (ℕ × ℕ)) (id gen : ℕ) (l : Listener)
    → job_of id jobs ≡ some gen
    → (l.gen == gen) ≡ false
    → IsKnown jobs l
    → IsKnown (remove_job id jobs) l
other-IsKnown jobs id gen l e t (inl a) = inl a
other-IsKnown jobs id gen l e t (inr b) = elim (Bool-cases (l.job_id == id)) [
  | inl u ↦
      let same : job_of l.job_id jobs ≡ job_of id jobs =
        ap (λ i. job_of i jobs) ((==_iff l.job_id id).0 u) in
      let g : l.gen ≡ gen = cc (b, same, e) in absurd (cc (rw ((==_iff l.gen gen).1 g) at t))
  | inr u ↦ inr (job_of-remove_job l.job_id id jobs ∙ rw u b)
]

pub stopped-IsKnown :
    (jobs : List (ℕ × ℕ)) (id gen : ℕ) (l : Listener)
    → job_of id jobs ≡ some gen
    → IsKnown jobs l
    → IsKnown (remove_job id jobs) (signalled gen stop l)
stopped-IsKnown jobs id gen l e h = elim (Bool-cases (l.gen == gen)) [
  | inl t ↦ rw t (inl (has_stop-append l.signals stop ∙ or_true (has_stop l.signals)))
  | inr t ↦ rw t (other-IsKnown jobs id gen l e t h)
]

-- After the job is removed its task is told, when there is one.
pub removed-IsKnown :
    (jobs : List (ℕ × ℕ)) (id gen : ℕ) (listeners : List Listener)
    → job_of id jobs ≡ some gen
    → All (IsKnown jobs) listeners
    → All (IsKnown (remove_job id jobs)) (push_signal gen stop listeners)
removed-IsKnown jobs id gen [] e h = tt
removed-IsKnown jobs id gen (l ∷ listeners) e h =
    (stopped-IsKnown jobs id gen l e h.0, removed-IsKnown jobs id gen listeners e h.1)

pub closed-IsKnown :
    (jobs : List (ℕ × ℕ)) (id gen : ℕ) (listeners : List Listener)
    → job_of id jobs ≡ some gen
    → is_open gen listeners ≡ false
    → All (IsKnown jobs) listeners
    → All (IsKnown (remove_job id jobs)) listeners
closed-IsKnown jobs id gen [] e c h = tt
closed-IsKnown jobs id gen (l ∷ listeners) e c h = (
  other-IsKnown jobs id gen l e (or_left (l.gen == gen) (is_open gen listeners) c) h.0,
  closed-IsKnown jobs id gen listeners e (or_right (l.gen == gen) (is_open gen listeners) c) h.1,
)

pub absent_job-IsKnown :
    (jobs : List (ℕ × ℕ)) (id : ℕ) (l : Listener)
    → job_of id jobs ≡ none
    → IsKnown jobs l
    → IsKnown (remove_job id jobs) l
absent_job-IsKnown jobs id l e (inl a) = inl a
absent_job-IsKnown jobs id l e (inr b) = elim (Bool-cases (l.job_id == id)) [
  | inl u ↦
      let same : job_of l.job_id jobs ≡ job_of id jobs =
        ap (λ i. job_of i jobs) ((==_iff l.job_id id).0 u) in
      absurd (cc (b, same, e))
  | inr u ↦ inr (job_of-remove_job l.job_id id jobs ∙ rw u b)
]

pub absent-IsKnown :
    (jobs : List (ℕ × ℕ)) (id : ℕ) (listeners : List Listener)
    → job_of id jobs ≡ none
    → All (IsKnown jobs) listeners
    → All (IsKnown (remove_job id jobs)) listeners
absent-IsKnown jobs id [] e h = tt
absent-IsKnown jobs id (l ∷ listeners) e h =
    (absent_job-IsKnown jobs id l e h.0, absent-IsKnown jobs id listeners e h.1)

pub insert-IsKnown :
    (jobs : List (ℕ × ℕ)) (id gen : ℕ) (l : Listener)
    → (job_of id jobs ≡ none)
    → IsKnown jobs l
    → IsKnown ((id, gen) ∷ remove_job id jobs) l
insert-IsKnown jobs id gen l e (inl a) = inl a
insert-IsKnown jobs id gen l e (inr b) = elim (Bool-cases (l.job_id == id)) [
  | inl u ↦
      let same : job_of l.job_id jobs ≡ job_of id jobs =
        ap (λ i. job_of i jobs) ((==_iff l.job_id id).0 u) in
      absurd (cc (b, same, e))
  | inr u ↦ inr (ground (arith, job_of-remove_job l.job_id id jobs, u, b))
]

pub insert-All-IsKnown :
    (jobs : List (ℕ × ℕ)) (id gen : ℕ) (listeners : List Listener)
    → (job_of id jobs ≡ none)
    → All (IsKnown jobs) listeners
    → All (IsKnown ((id, gen) ∷ remove_job id jobs)) listeners
insert-All-IsKnown jobs id gen [] e h = tt
insert-All-IsKnown jobs id gen (l ∷ listeners) e h =
    (insert-IsKnown jobs id gen l e h.0, insert-All-IsKnown jobs id gen listeners e h.1)

pub took-IsKnown :
    (jobs : List (ℕ × ℕ)) (l : Listener) (signals : List ClientJobSignal)
    → l.signals ≡ signals
    → IsKnown jobs l
    → All (IsKnown jobs) (after_signal l signals)
took-IsKnown jobs l [] e h = (h, tt)
took-IsKnown jobs l (stop ∷ signals) e h = tt
took-IsKnown jobs l (restart ∷ signals) e (inl a) = (inl (rw e at a), tt)
took-IsKnown jobs l (restart ∷ signals) e (inr b) = (inr b, tt)

pub take-IsKnown :
    (jobs : List (ℕ × ℕ)) (gen : ℕ) (listeners : List Listener)
    → All (IsKnown jobs) listeners
    → All (IsKnown jobs) (take_signals gen listeners)
take-IsKnown jobs gen [] h = tt
take-IsKnown jobs gen (l ∷ listeners) h = elim (Bool-cases (l.gen == gen)) [
  | inl t ↦ rw t (
      All-append (IsKnown jobs) (after_signal l l.signals) (take_signals gen listeners)
        (took-IsKnown jobs l l.signals refl h.0) (take-IsKnown jobs gen listeners h.1))
  | inr t ↦ rw t (h.0, take-IsKnown jobs gen listeners h.1)
]
