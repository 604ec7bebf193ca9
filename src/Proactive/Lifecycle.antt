-- ===== src/Proactive/Lifecycle.antt =====
-- The steps that a job takes.
use lemonbot.Prelude.{
  ℕ, String, ◌+◌, ◌*◌, ◌≤◌, ◌≡◌, ◌∙◌, refl, Bool, true, false, not, ◌&&◌, ◌||◌, Option, none, some,
  List, [], ◌∷◌, arith, ltb, ◌==◌, string_eq, nat_eq, Bool-cases, Option-cases, inl, inr, All,
  All-Unit, Among,
}
use lemonbot.Domain.{Time, second}
use lemonbot.Sql.{update_where, exists_where, count_where, first_where, All-update_each}
use lemonbot.Sql.Evolution.{
  Evolves, Evolves-refl, Evolves-update, Evolves-insert, Evolves-trans, Evolves-weaken,
}
use lemonbot.Proactive.{
  JobRow, JobStatus, Jobs, is_pending, is_running, is_interrupted, is_unstarted, initialize,
  has_job_id, add, next_job, is_waiting, claimed, claim_due, is_active_job, is_startable,
  mark_model_started, transition, next_due, complete, defer, fail, is_cancellable, cancel,
}

abbrev pub is_final : JobStatus → Bool
is_final JobStatus.pending = false
is_final JobStatus.running = false
is_final _ = true

-- What was asked for stays; a completed, dead or cancelled job is final; attempts are never taken
-- back.
pub record Moves (r s : JobRow) : Type 0 where
  pub job_id : s.job_id ≡ r.job_id
  pub source : s.source ≡ r.source
  pub channel : s.channel ≡ r.channel
  pub chat_id : s.chat_id ≡ r.chat_id
  pub reason : s.reason_event_id ≡ r.reason_event_id
  pub prompt : s.prompt ≡ r.prompt
  pub recurrence : s.recurrence_seconds ≡ r.recurrence_seconds
  pub final : is_final r.status ≡ true → s.status ≡ r.status
  pub attempts : r.attempts ≤ s.attempts

pub Moves-refl : (r : JobRow) → Moves r r
Moves-refl r = record {
  job_id = refl;
  source = refl;
  channel = refl;
  chat_id = refl;
  reason = refl;
  prompt = refl;
  recurrence = refl;
  final = λ _. refl;
  attempts = omega arith;
}

pub Moves-trans : (r s t : JobRow) → Moves r s → Moves s t → Moves r t
Moves-trans r s t a b = record {
  job_id = b.job_id ∙ a.job_id;
  source = b.source ∙ a.source;
  channel = b.channel ∙ a.channel;
  chat_id = b.chat_id ∙ a.chat_id;
  reason = b.reason ∙ a.reason;
  prompt = b.prompt ∙ a.prompt;
  recurrence = b.recurrence ∙ a.recurrence;
  final = λ e. let same = a.final e in b.final (rw same e) ∙ same;
  attempts = omega (arith, a.attempts, b.attempts);
}

-- The steps of an operation that adds no job.
abbrev pub Steps : Jobs → Jobs → Type 0
Steps = Evolves Moves (λ _. ⊥)

same : (jobs : Jobs) → Steps jobs jobs
same jobs = Evolves-refl Moves (λ _. ⊥) Moves-refl jobs

update :
    (test : JobRow → Bool) (set : JobRow → JobRow) (jobs : Jobs)
    → ((r : JobRow) → test r ≡ true → Moves r (set r))
    → Steps jobs (update_where test set jobs)
update = Evolves-update Moves (λ _. ⊥) Moves-refl

initialize-Steps : (now : Time) (jobs : Jobs) → Steps jobs (initialize now jobs)
unfolding initialize
initialize-Steps now jobs =
    Evolves-trans Moves (λ _. ⊥) Moves-trans (λ x y n m. n) jobs _ _
      (update is_interrupted _ jobs (λ r h. ground arith))
      (update is_unstarted _ _ (λ r h. ground arith))

claim_due-Steps : (now : Time) (jobs : Jobs) → Steps jobs (claim_due now jobs).0
unfolding claim_due
claim_due-Steps now jobs = elim (Option-cases (next_job now jobs)) [
  | inl e ↦ rw e (same jobs)
  | inr (row, e) ↦ elim (Bool-cases (count_where (is_waiting row.job_id) jobs == 1)) [
    | inr f ↦ rw (e, f) (same jobs)
    | inl f ↦ rw (e, f) (update (is_waiting row.job_id) (claimed now) jobs (λ r h. ground arith))
  ]
]

mark_model_started-Steps :
    (id : String) (now : Time) (jobs : Jobs) → Steps jobs (mark_model_started id now jobs).0
unfolding mark_model_started
mark_model_started-Steps id now jobs = update (is_startable id) _ jobs (λ r h. ground arith)

transition-Steps :
    (id : String) (status : JobStatus) (due_at : Time) (error : Option String) (now : Time)
    (jobs : Jobs)
    → Steps jobs (transition id status due_at error now jobs).0
unfolding transition
transition-Steps id status due_at error now jobs =
    elim (Bool-cases (count_where (is_active_job id) jobs == 1)) [
      | inr e ↦ rw e (same jobs)
      | inl e ↦ rw e (update (is_active_job id) _ jobs (λ r h. ground arith))
    ]

complete-Steps :
    (job : JobRow) (now clock : Time) (jobs : Jobs) → Steps jobs (complete job now clock jobs).0
unfolding complete
complete-Steps job now clock jobs = elim (Option-cases job.recurrence_seconds) [
  | inl e ↦
      rw (e, complete) (transition-Steps job.job_id JobStatus.completed job.due_at none clock jobs)
  | inr (n, e) ↦
      rw (e, complete)
        (transition-Steps job.job_id JobStatus.pending (next_due job.due_at (n * second) now) none
          clock jobs)
]

defer-Steps :
    (id : String) (delay : Time) (reason : String) (now : Time) (jobs : Jobs)
    → Steps jobs (defer id delay reason now jobs).0
unfolding defer
defer-Steps id delay reason now jobs = elim (Bool-cases (ltb delay second)) [
  | inl e ↦ rw e (same jobs)
  | inr e ↦ rw e (transition-Steps id JobStatus.pending (now + delay) (some reason) now jobs)
]

fail-Steps :
    (job : JobRow) (reason : String) (max_attempts : ℕ) (now : Time) (jobs : Jobs)
    → Steps jobs (fail job reason max_attempts now jobs).0
unfolding fail
fail-Steps job reason max_attempts now jobs =
    elim (Option-cases (first_where (has_job_id job.job_id) jobs)) [
      | inl e ↦ rw e (same jobs)
      | inr (row, e) ↦
          elim (Bool-cases
            (is_running row.status && count_where (is_active_job job.job_id) jobs == 1)) [
              | inr f ↦ rw (e, f) (same jobs)
              | inl f ↦ rw (e, f) (update (is_active_job job.job_id) _ jobs (λ r h. ground arith))
            ]
    ]

cancel-Steps : (id : String) (now : Time) (jobs : Jobs) → Steps jobs (cancel id now jobs).0
unfolding cancel
cancel-Steps id now jobs = update (is_cancellable id) _ jobs (λ r h. ground arith)

pub data JobCall : Type 0 where
  initializes claims : JobCall
  adds completes : JobRow → JobCall
  starts cancels : (id : String) → JobCall
  defers : (id : String) → (delay : Time) → (reason : String) → JobCall
  fails : (job : JobRow) → (reason : String) → (max_attempts : ℕ) → JobCall

pub step : Time × JobCall → Jobs → Jobs
step (now, initializes) jobs = initialize now jobs
step (now, claims) jobs = (claim_due now jobs).0
step (now, adds job) jobs = (add job now jobs).0
step (now, completes job) jobs = (complete job now now jobs).0
step (now, starts id) jobs = (mark_model_started id now jobs).0
step (now, cancels id) jobs = (cancel id now jobs).0
step (now, defers id delay reason) jobs = (defer id delay reason now jobs).0
step (now, fails job reason max_attempts) jobs = (fail job reason max_attempts now jobs).0

pub run : List (Time × JobCall) → Jobs → Jobs
run [] jobs = jobs
run (c ∷ cs) jobs = run cs (step c jobs)

-- A row that an `add` among the calls inserted, of a job that was pending and had no attempts, and
-- that has moved since.
pub record IsAdded (cs : List (Time × JobCall)) (row : JobRow) : Type 0 where
  pub now : Time
  pub job : JobRow
  pub among : Among (now, adds job) cs
  pub pending : job.status ≡ JobStatus.pending
  pub unattempted : job.attempts ≡ 0
  pub moved : Moves (record job { model_started_at = none; updated_at = now }) row

abbrev pub JobSteps : List (Time × JobCall) → Jobs → Jobs → Type 0
JobSteps cs = Evolves Moves (IsAdded cs)

add-JobSteps :
    (job : JobRow) (now : Time) (cs : List (Time × JobCall)) (jobs : Jobs)
    → JobSteps ((now, adds job) ∷ cs) jobs (add job now jobs).0
unfolding add
add-JobSteps job now cs jobs =
    let Added = IsAdded ((now, adds job) ∷ cs) in
    let kept = Evolves-refl Moves Added Moves-refl jobs in
    elim (Bool-cases (not (is_pending job.status) || not (job.attempts == 0))) [
      | inl e ↦ rw e kept
      | inr e ↦ elim (Bool-cases (exists_where (has_job_id job.job_id) jobs)) [
        | inl f ↦ rw (e, f) kept
        | inr f ↦
            rw (e, f)
              (Evolves-insert Moves Added Moves-refl jobs _ (record {
                now = now;
                job = job;
                among = inl refl;
                pending = ground arith;
                unattempted = ground arith;
                moved = Moves-refl _;
              }))
      ]
    ]

unadded :
    (cs : List (Time × JobCall)) (jobs after : Jobs) → Steps jobs after → JobSteps cs jobs after
unadded cs = Evolves-weaken Moves (λ _. ⊥) (IsAdded cs) (λ y n. absurd n)

step-JobSteps :
    (c : Time × JobCall) (cs : List (Time × JobCall)) (jobs : Jobs)
    → JobSteps (c ∷ cs) jobs (step c jobs)
unfolding step
step-JobSteps (now, adds job) cs jobs = add-JobSteps job now cs jobs
step-JobSteps (now, initializes) cs jobs = unadded _ jobs _ (initialize-Steps now jobs)
step-JobSteps (now, claims) cs jobs = unadded _ jobs _ (claim_due-Steps now jobs)
step-JobSteps (now, completes job) cs jobs = unadded _ jobs _ (complete-Steps job now now jobs)
step-JobSteps (now, starts id) cs jobs = unadded _ jobs _ (mark_model_started-Steps id now jobs)
step-JobSteps (now, cancels id) cs jobs = unadded _ jobs _ (cancel-Steps id now jobs)
step-JobSteps (now, defers id delay reason) cs jobs =
    unadded _ jobs _ (defer-Steps id delay reason now jobs)
step-JobSteps (now, fails job reason max_attempts) cs jobs =
    unadded _ jobs _ (fail-Steps job reason max_attempts now jobs)

later :
    (c : Time × JobCall) (cs : List (Time × JobCall)) (row : JobRow)
    → IsAdded cs row
    → IsAdded (c ∷ cs) row
later c cs row a = record {
  now = a.now;
  job = a.job;
  among = inr a.among;
  pending = a.pending;
  unattempted = a.unattempted;
  moved = a.moved;
}

moved_on : (cs : List (Time × JobCall)) (x y : JobRow) → IsAdded cs x → Moves x y → IsAdded cs y
moved_on cs x y a m = record {
  now = a.now;
  job = a.job;
  among = a.among;
  pending = a.pending;
  unattempted = a.unattempted;
  moved = Moves-trans _ x y a.moved m;
}

-- Over any sequence of the store's methods no job is lost: what it asks for stays, completed, dead
-- and cancelled are final, and attempts are never taken back. A job that is new in the table was
-- added by one of the calls, pending and unattempted, and has moved the same way since.
pub run-JobSteps : (cs : List (Time × JobCall)) (jobs : Jobs) → JobSteps cs jobs (run cs jobs)
unfolding run
run-JobSteps [] jobs = Evolves-refl _ _ Moves-refl jobs
run-JobSteps (c ∷ cs) jobs =
    Evolves-trans Moves (IsAdded (c ∷ cs)) Moves-trans (moved_on (c ∷ cs)) jobs _ _
      (step-JobSteps c cs jobs)
      (Evolves-weaken Moves (IsAdded cs) (IsAdded (c ∷ cs)) (later c cs) _ _
        (run-JobSteps cs (step c jobs)))

-- A running job does not survive the start of the process.
abbrev pub IsRestarted : JobRow → Type 0
IsRestarted r = is_running r.status ≡ false

-- When the process starts, no job is left running: `initialize` gives up those whose model call
-- may have begun.
initialize-IsRestarted : (now : Time) (jobs : Jobs) → All IsRestarted (initialize now jobs)
unfolding initialize
initialize-IsRestarted now jobs =
    All-update_each (λ r. is_interrupted r ≡ false) IsRestarted is_unstarted _ _ (λ r h q. refl)
      (λ r h q. ground arith)
      (All-update_each (λ _. Unit) (λ r. is_interrupted r ≡ false) is_interrupted _ jobs
        (λ r h _. refl) (λ r h _. h) (All-Unit jobs))
