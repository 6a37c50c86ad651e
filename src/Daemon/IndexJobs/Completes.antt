-- ===== src/Daemon/IndexJobs/Completes.antt =====
-- A run of lantern_cli/src/daemon/autotune_jobs.rs with at most one cancellation can always end.
use mathlib.Core.Path.{subst}
use lanterndb.Prelude.{
  ℕ, zero, suc, ◌≤◌, ◌≡◌, ◌⊎◌, inl, inr, refl, Bool, true, false, ◌||◌, Option, none, some, List,
  [], ◌∷◌, arith,
}
use lanterndb.Daemon.IndexJobs.Run.{
  Outcome, tuned, canceled, JobEvent, done, errored_canceled, Work, working, ended, announced,
  responded, Waiting, for_event, for_result, recorded, JobRun, job_run, has_handle, is_cancellation,
  Step, cancel, take_event, tune, give_up, fail, finish, announce, respond, record_outcome, Reach,
  here, next, before,
}

-- What the processor has sent.
data Stage : Type 0 where
  early sent_event sent_all : Stage

abbrev stage : Work → Stage
stage (working n) = early
stage (ended o) = early
stage (announced o) = sent_event
stage responded = sent_all

-- The states of a run with at most one cancellation: before `Done` is sent, the channel is empty or
-- holds the cancellation, and it is empty when the worker has taken it.
IsLive : Waiting → Stage → List JobEvent → Option Outcome → ℕ → Type 0
IsLive for_event early es none c = (es ≡ []) ⊎ ((es ≡ errored_canceled ∷ []) × (1 ≤ c))
IsLive for_event sent_event es none c = (e : JobEvent) × (es ≡ e ∷ [])
IsLive for_event sent_all es (some o) c = (e : JobEvent) × (es ≡ e ∷ [])
IsLive for_result early es none c = (es ≡ []) × (1 ≤ c)
IsLive for_result sent_event es none c = Unit
IsLive for_result sent_all es (some o) c = Unit
IsLive (recorded o) sent_all es none c = Unit
IsLive for_event early es (some o) c = ⊥
IsLive for_event sent_event es (some o) c = ⊥
IsLive for_event sent_all es none c = ⊥
IsLive for_result early es (some o) c = ⊥
IsLive for_result sent_event es (some o) c = ⊥
IsLive for_result sent_all es none c = ⊥
IsLive (recorded o) early es p c = ⊥
IsLive (recorded o) sent_event es p c = ⊥
IsLive (recorded o) sent_all es (some p) c = ⊥

abbrev LiveRun : JobRun → Type 0
LiveRun r = IsLive r.worker (stage r.work) r.events r.response r.cancels

cancel-IsLive :
    (w : Waiting) (s : Stage) (p : Option Outcome) (c : ℕ)
    → has_handle w ≡ true
    → suc c ≤ 1
    → IsLive w s [] p c
    → IsLive w s (errored_canceled ∷ []) p (suc c)
unfolding IsLive
cancel-IsLive for_event early none c h one v = inr (refl, omega arith)
cancel-IsLive for_event early (some o) c h one v = v
cancel-IsLive for_event sent_event none c h one v = (errored_canceled, refl)
cancel-IsLive for_event sent_event (some o) c h one v = v
cancel-IsLive for_event sent_all none c h one v = v
cancel-IsLive for_event sent_all (some o) c h one v = (errored_canceled, refl)
cancel-IsLive for_result early none c h one v = absurd (omega (arith, v.1))
cancel-IsLive for_result early (some o) c h one v = v
cancel-IsLive for_result sent_event none c h one v = tt
cancel-IsLive for_result sent_event (some o) c h one v = v
cancel-IsLive for_result sent_all none c h one v = v
cancel-IsLive for_result sent_all (some o) c h one v = tt
cancel-IsLive (recorded o) s p c h one v = cc

take_event-IsLive :
    (s : Stage) (e : JobEvent) (p : Option Outcome) (c : ℕ)
    → IsLive for_event s (e ∷ []) p c
    → IsLive for_result s [] p c
unfolding IsLive
take_event-IsLive early e none c (inl h) = cc
take_event-IsLive early e none c (inr (h, some_)) = (refl, some_)
take_event-IsLive early e (some o) c v = v
take_event-IsLive sent_event e none c v = tt
take_event-IsLive sent_event e (some o) c v = v
take_event-IsLive sent_all e none c v = v
take_event-IsLive sent_all e (some o) c v = tt

announce-IsLive :
    (w : Waiting) (p : Option Outcome) (c : ℕ)
    → IsLive w early [] p c
    → IsLive w sent_event (done ∷ []) p c
unfolding IsLive
announce-IsLive for_event none c v = (done, refl)
announce-IsLive for_event (some o) c v = v
announce-IsLive for_result none c v = tt
announce-IsLive for_result (some o) c v = v
announce-IsLive (recorded o) p c v = v

respond-IsLive :
    (w : Waiting) (es : List JobEvent) (p : Option Outcome) (o : Outcome) (c : ℕ)
    → IsLive w sent_event es p c
    → IsLive w sent_all es (some o) c
unfolding IsLive
respond-IsLive for_event es none o c v = v
respond-IsLive for_event es (some q) o c v = absurd v
respond-IsLive for_result es none o c v = tt
respond-IsLive for_result es (some q) o c v = tt
respond-IsLive (recorded q) es p o c v = v

record_outcome-IsLive :
    (s : Stage) (es : List JobEvent) (o : Outcome) (c : ℕ)
    → IsLive for_result s es (some o) c
    → IsLive (recorded o) s es none c
unfolding IsLive
record_outcome-IsLive early es o c v = v
record_outcome-IsLive sent_event es o c v = v
record_outcome-IsLive sent_all es o c v = tt

Step-LiveRun : {r t : JobRun} → Step r t → t.cancels ≤ 1 → LiveRun r → LiveRun t
Step-LiveRun (cancel r h e) one v =
    cancel-IsLive r.worker (stage r.work) r.response r.cancels h one
      (subst (λ x. IsLive r.worker (stage r.work) x r.response r.cancels) e v)
Step-LiveRun (take_event r e h k) one v = take_event-IsLive (stage r.work) e r.response r.cancels (
    subst (λ x. IsLive for_event (stage r.work) x r.response r.cancels) k
      (subst (λ x. IsLive x (stage r.work) r.events r.response r.cancels) h v))
Step-LiveRun (tune r n h k) one v =
    subst (λ x. IsLive r.worker (stage x) r.events r.response r.cancels) h v
Step-LiveRun (give_up r n h k) one v =
    subst (λ x. IsLive r.worker (stage x) r.events r.response r.cancels) h v
Step-LiveRun (fail r n h) one v =
    subst (λ x. IsLive r.worker (stage x) r.events r.response r.cancels) h v
Step-LiveRun (finish r success h) one v =
    subst (λ x. IsLive r.worker (stage x) r.events r.response r.cancels) h v
Step-LiveRun (announce r o h k) one v = announce-IsLive r.worker r.response r.cancels (
    subst (λ x. IsLive r.worker early x r.response r.cancels) k
      (subst (λ x. IsLive r.worker (stage x) r.events r.response r.cancels) h v))
Step-LiveRun (respond r o h) one v =
    respond-IsLive r.worker r.events r.response o r.cancels
      (subst (λ x. IsLive r.worker (stage x) r.events r.response r.cancels) h v)
Step-LiveRun (record_outcome r o h k) one v =
    record_outcome-IsLive (stage r.work) r.events o r.cancels (
      subst (λ x. IsLive for_result (stage r.work) r.events x r.cancels) k
        (subst (λ x. IsLive x (stage r.work) r.events r.response r.cancels) h v))

Step-cancels : {r t : JobRun} → Step r t → r.cancels ≤ t.cancels
Step-cancels (cancel r h e) = omega arith
Step-cancels (take_event r e h k) = omega arith
Step-cancels (tune r n h k) = omega arith
Step-cancels (give_up r n h k) = omega arith
Step-cancels (fail r n h) = omega arith
Step-cancels (finish r success h) = omega arith
Step-cancels (announce r o h k) = omega arith
Step-cancels (respond r o h) = omega arith
Step-cancels (record_outcome r o h k) = omega arith

Reach-LiveRun : {r t : JobRun} → Reach r t → t.cancels ≤ 1 → LiveRun r → LiveRun t
Reach-LiveRun here one v = v
Reach-LiveRun (next reach step) one v =
    Step-LiveRun step one (Reach-LiveRun reach (omega (arith, Step-cancels step)) v)

-- From the state, steps lead to one where the worker has written an outcome.
abbrev pub CanEnd : JobRun → Type 0
CanEnd r = (r' : JobRun) × (o : Outcome) × Reach r r' × (r'.worker ≡ recorded o)

end_after : {r s : JobRun} → Step r s → CanEnd s → CanEnd r
end_after step (r', o, reach, e) = (r', o, before step reach, e)

-- The worker waits for the result.
module _ (f : Bool) (c : ℕ) where
  abbrev at_result : List JobEvent → Option Outcome → Work → JobRun
  at_result es p k = record {
    is_canceled = f;
    events = es;
    response = p;
    work = k;
    worker = for_result;
    cancels = c;
  }

  end_responded : (es : List JobEvent) (o : Outcome) → CanEnd (at_result es (some o) responded)
  end_responded es o =
      end_after (record_outcome (at_result es (some o) responded) o refl refl) (_, o, here, refl)

  end_announced :
      (es : List JobEvent) (p : Option Outcome) (o : Outcome)
      → CanEnd (at_result es p (announced o))
  end_announced es p o =
      end_after (respond (at_result es p (announced o)) o refl) (end_responded es o)

  end_ended : (p : Option Outcome) (o : Outcome) → CanEnd (at_result [] p (ended o))
  end_ended p o =
      end_after (announce (at_result [] p (ended o)) o refl refl) (end_announced (done ∷ []) p o)

end_working :
    (f : Bool) (c : ℕ) (p : Option Outcome) (n : ℕ) → CanEnd (at_result f c [] p (working n))
end_working f c p zero =
    end_after (finish (at_result f c [] p (working zero)) true refl) (end_ended f c p tuned)
end_working true c p (suc n) =
    end_after (give_up (at_result true c [] p (working (suc n))) n refl refl)
      (end_ended true c p canceled)
end_working false c p (suc n) =
    end_after (tune (at_result false c [] p (working (suc n))) n refl refl)
      (end_working false c p n)

-- The worker waits for an event.
abbrev at_event : Bool → ℕ → List JobEvent → Option Outcome → Work → JobRun
at_event f c es p k = record {
  is_canceled = f;
  events = es;
  response = p;
  work = k;
  worker = for_event;
  cancels = c;
}

end_of_work :
    (f : Bool) (c : ℕ) (k : Work) (p : Option Outcome)
    → stage k ≡ early
    → CanEnd (at_result f c [] p k)
end_of_work f c (working n) p h = end_working f c p n
end_of_work f c (ended o) p h = end_ended f c p o
end_of_work f c (announced o) p h = end_announced f c [] p o
end_of_work f c responded p h = cc

idle_ended :
    (f : Bool) (c : ℕ) (p : Option Outcome) (o : Outcome) → CanEnd (at_event f c [] p (ended o))
idle_ended f c p o = end_after (announce (at_event f c [] p (ended o)) o refl refl) (
    end_after (take_event (at_event f c (done ∷ []) p (announced o)) done refl refl)
      (end_announced (f || false) c [] p o))

idle_working :
    (f : Bool) (c : ℕ) (p : Option Outcome) (n : ℕ) → CanEnd (at_event f c [] p (working n))
idle_working f c p zero =
    end_after (finish (at_event f c [] p (working zero)) true refl) (idle_ended f c p tuned)
idle_working true c p (suc n) =
    end_after (give_up (at_event true c [] p (working (suc n))) n refl refl)
      (idle_ended true c p canceled)
idle_working false c p (suc n) =
    end_after (tune (at_event false c [] p (working (suc n))) n refl refl)
      (idle_working false c p n)

taken :
    (f : Bool) (c : ℕ) (p : Option Outcome) (k : Work) (es : List JobEvent) (e : JobEvent)
    → es ≡ e ∷ []
    → CanEnd (at_result (f || is_cancellation e) c [] p k)
    → CanEnd (at_event f c es p k)
taken f c p k es e h x = end_after (take_event (at_event f c es p k) e refl h) x

idle :
    (f : Bool) (c : ℕ) (k : Work) (es : List JobEvent)
    → stage k ≡ early
    → es ≡ []
    → CanEnd (at_event f c es none k)
idle f c (working n) es h e = rw e (idle_working f c none n)
idle f c (ended o) es h e = rw e (idle_ended f c none o)
idle f c (announced o) es h e = cc
idle f c responded es h e = cc

live_ends :
    (f : Bool) (es : List JobEvent) (p : Option Outcome) (k : Work) (w : Waiting) (c : ℕ)
    → IsLive w (stage k) es p c
    → CanEnd
        (record { is_canceled = f; events = es; response = p; work = k; worker = w; cancels = c })
unfolding IsLive
live_ends f es none (working n) for_event c (inl e) = idle f c (working n) es refl e
live_ends f es none (working n) for_event c (inr (e, h)) =
    taken f c none (working n) es errored_canceled e (end_working (f || true) c none n)
live_ends f es none (ended o) for_event c (inl e) = idle f c (ended o) es refl e
live_ends f es none (ended o) for_event c (inr (e, h)) =
    taken f c none (ended o) es errored_canceled e (end_ended (f || true) c none o)
live_ends f es none (announced o) for_event c (e, h) =
    taken f c none (announced o) es e h (end_announced (f || is_cancellation e) c [] none o)
live_ends f es (some q) responded for_event c (e, h) =
    taken f c (some q) responded es e h (end_responded (f || is_cancellation e) c [] q)
live_ends f es none (working n) for_result c (e, h) = rw e (end_working f c none n)
live_ends f es none (ended o) for_result c (e, h) = rw e (end_ended f c none o)
live_ends f es none (announced o) for_result c v = end_announced f c es none o
live_ends f es (some q) responded for_result c v = end_responded f c es q
live_ends f es none responded (recorded o) c v = (_, o, here, refl)
live_ends f es (some q) (working n) for_event c v = absurd v
live_ends f es (some q) (ended o) for_event c v = absurd v
live_ends f es (some q) (announced o) for_event c v = absurd v
live_ends f es none responded for_event c v = absurd v
live_ends f es (some q) (working n) for_result c v = absurd v
live_ends f es (some q) (ended o) for_result c v = absurd v
live_ends f es (some q) (announced o) for_result c v = absurd v
live_ends f es none responded for_result c v = absurd v
live_ends f es p (working n) (recorded o) c v = absurd v
live_ends f es p (ended q) (recorded o) c v = absurd v
live_ends f es p (announced q) (recorded o) c v = absurd v
live_ends f es (some q) responded (recorded o) c v = absurd v

-- Whatever state a run with at most one cancellation has come to, steps lead from there to one where
-- the worker has written an outcome: neither task waits forever for the other.
pub Reach-CanEnd :
    (variants : ℕ) (r : JobRun) → Reach (job_run variants) r → r.cancels ≤ 1 → CanEnd r
unfolding IsLive
Reach-CanEnd variants r reach one =
    live_ends r.is_canceled r.events r.response r.work r.worker r.cancels
      (Reach-LiveRun reach one (inl refl))
