-- ===== src/Proactive.antt =====
-- proactive/store.py: the scheduled messages, a table of jobs. The table is its own database; a
-- method is one transaction on it, and one that raises leaves it as it was. The texts of instants
-- that the code compares are in ISO format and UTC, whose order is that of the instants. Jobs that are
-- due at the same instant and were created at the same one are taken in the order of the table.
pub mod Recurrence
pub mod Lifecycle
pub mod Claim
mod Samples
use lemonbot.Prelude.{
  ℕ, zero, suc, String, ◌+◌, ◌*◌, Bool, true, false, not, ◌&&◌, ◌||◌, Option, none, some, List, [],
  ◌∷◌, ◌++◌, ltb, leb, ◌==◌, string_eq, nat_eq, is_some, if◌then◌else◌, take_chars, Exception,
  Result, ok, err,
}
use lemonbot.Domain.{Time, second}
use lemonbot.Sql.{update_where, exists_where, count_where, select_where, first_where, first_by}

pub data JobSource : Type 0 where
  admin_schedule user_subscription stored_commitment : JobSource

pub data JobStatus : Type 0 where
  pending running completed dead cancelled : JobStatus

abbrev pub is_pending : JobStatus → Bool
is_pending JobStatus.pending = true
is_pending _ = false

abbrev pub is_running : JobStatus → Bool
is_running JobStatus.running = true
is_running _ = false

-- `ProactiveJob`, with the column `updated_at` that the table adds.
pub record JobRow : Type 0 where
  pub job_id : String
  pub source : JobSource
  pub channel : String
  pub chat_id : String
  pub reason_event_id : String
  pub prompt : String
  pub due_at : Time
  pub recurrence_seconds : Option ℕ
  pub status : JobStatus
  pub attempts : ℕ
  pub model_started_at : Option Time
  pub created_at : Time
  pub updated_at : Time
  pub last_error : Option String

abbrev pub Jobs : Type 0
Jobs = List JobRow

abbrev pub is_interrupted : JobRow → Bool
is_interrupted row = is_running row.status && is_some row.model_started_at

abbrev pub is_unstarted : JobRow → Bool
is_unstarted row = is_running row.status && not (is_some row.model_started_at)

-- The two updates of `_initialize_sync`, which runs when the process starts.
unfoldable pub initialize : Time → Jobs → Jobs
initialize now jobs =
    update_where is_unstarted (λ r. record r { status = JobStatus.pending; updated_at = now })
      (update_where is_interrupted
        (λ r. record r {
          status = JobStatus.dead;
          updated_at = now;
          last_error = some "process stopped after model provider I/O may have begun";
        })
        jobs)

abbrev pub has_job_id : String → JobRow → Bool
has_job_id id row = row.job_id == id

-- The arguments are a job; the row that is inserted has not started the model.
unfoldable pub add : JobRow → Time → Jobs → Jobs × Result {0} Unit
add job now jobs =
    if not (is_pending job.status) || not (job.attempts == 0)
    then (jobs, err Exception.value_error)
    else if exists_where (has_job_id job.job_id) jobs
    then (jobs, err Exception.integrity_error)
    else (jobs ++ record job { model_started_at = none; updated_at = now } ∷ [], ok tt)

abbrev pub is_due : Time → JobRow → Bool
is_due now row = is_pending row.status && leb row.due_at now

-- ORDER BY due_at, created_at
abbrev pub due_before : JobRow → JobRow → Bool
due_before a b = ltb a.due_at b.due_at || (a.due_at == b.due_at && ltb a.created_at b.created_at)

unfoldable pub next_job : Time → Jobs → Option JobRow
next_job now jobs = first_by due_before (select_where (is_due now) jobs)

abbrev pub is_waiting : String → JobRow → Bool
is_waiting id row = has_job_id id row && is_pending row.status

abbrev pub claimed : Time → JobRow → JobRow
claimed now row = record row {
  status = JobStatus.running;
  attempts = row.attempts + 1;
  updated_at = now;
}

-- The job that is returned is the row as it was read, with the new status and attempts.
abbrev pub handed_out : JobRow → JobRow
handed_out row = record row { status = JobStatus.running; attempts = row.attempts + 1 }

-- `_decode`, of which the bound of `ProactiveJob.attempts` can fail: a ValidationError, a ValueError.
abbrev pub decoded : JobRow → Result (Option JobRow)
decoded job = if leb job.attempts 100 then ok (some job) else err Exception.value_error

-- The row is decoded after the transaction that claimed it.
abbrev pub claim_job : Time → Option JobRow → Jobs → Jobs × Result (Option JobRow)
claim_job now none jobs = (jobs, ok none)
claim_job now (some row) jobs =
    if count_where (is_waiting row.job_id) jobs == 1
    then (update_where (is_waiting row.job_id) (claimed now) jobs, decoded (handed_out row))
    else (jobs, ok none)

unfoldable pub claim_due : Time → Jobs → Jobs × Result (Option JobRow)
claim_due now jobs = claim_job now (next_job now jobs) jobs

abbrev pub is_active_job : String → JobRow → Bool
is_active_job id row = has_job_id id row && is_running row.status

abbrev pub is_startable : String → JobRow → Bool
is_startable id row = has_job_id id row && is_unstarted row

abbrev already_started : Option JobRow → Bool
already_started none = false
already_started (some row) = is_interrupted row

unfoldable pub mark_model_started : String → Time → Jobs → Jobs × Bool
mark_model_started id now jobs = (
  update_where (is_startable id) (λ r. record r { model_started_at = some now; updated_at = now })
      jobs,
  count_where (is_startable id) jobs == 1 || already_started (first_where (has_job_id id) jobs),
)

-- `error[:2000] if error else None`
abbrev pub bounded_error : Option String → Option String
bounded_error none = none
bounded_error (some e) = if e == "" then none else some (take_chars 2000 e)

abbrev pub moved : JobStatus → Time → Option String → Time → JobRow → JobRow
moved status due_at error now row = record row {
  status = status;
  due_at = due_at;
  updated_at = now;
  last_error = error;
  model_started_at = none;
}

-- `_transition`
unfoldable pub transition :
    String → JobStatus → Time → Option String → Time → Jobs → Jobs × Result {0} Unit
transition id status due_at error now jobs =
    if count_where (is_active_job id) jobs == 1
    then (
      update_where (is_active_job id) (moved status due_at (bounded_error error) now) jobs,
      ok tt,
    )
    else (jobs, err Exception.runtime_error)

-- `while due_at <= now: due_at += step`, on fuel.
unfoldable pub advance : ℕ → (due_at step now : Time) → Time
advance zero due_at step now = due_at
advance (suc fuel) due_at step now = elim (leb due_at now) [
  | true ↦ advance fuel (due_at + step) step now
  | false ↦ due_at
]

unfoldable pub next_due : (due_at step now : Time) → Time
next_due due_at step now = advance (now + 1) due_at step now

-- `job` is the job as it was claimed, and `now` the time of completion.
unfoldable pub complete : JobRow → (now clock : Time) → Jobs → Jobs × Result {0} Unit
complete job now clock jobs = elim job.recurrence_seconds [
  | none ↦ transition job.job_id JobStatus.completed job.due_at none clock jobs
  | some seconds ↦
      transition job.job_id JobStatus.pending (next_due job.due_at (seconds * second) now) none
        clock jobs
]

unfoldable pub defer : String → (delay : Time) → String → Time → Jobs → Jobs × Result {0} Unit
defer id delay reason now jobs =
    if ltb delay second
    then (jobs, err Exception.value_error)
    else transition id JobStatus.pending (now + delay) (some reason) now jobs

abbrev pub after_failure : JobRow → JobRow → ℕ → JobStatus
after_failure job row max_attempts =
    if is_some row.model_started_at || leb max_attempts job.attempts
    then JobStatus.dead
    else JobStatus.pending

abbrev pub fail_row : JobRow → String → ℕ → Time → Option JobRow → Jobs → Jobs × Result {0} Unit
fail_row job reason max_attempts now none jobs = (jobs, err Exception.runtime_error)
fail_row job reason max_attempts now (some row) jobs =
    if is_running row.status && count_where (is_active_job job.job_id) jobs == 1
    then (
      update_where (is_active_job job.job_id)
          (moved (after_failure job row max_attempts) (now + 300 * second)
            (some (take_chars 2000 reason)) now)
          jobs,
      ok tt,
    )
    else (jobs, err Exception.runtime_error)

unfoldable pub fail : JobRow → String → ℕ → Time → Jobs → Jobs × Result {0} Unit
fail job reason max_attempts now jobs =
    fail_row job reason max_attempts now (first_where (has_job_id job.job_id) jobs) jobs

abbrev pub is_cancellable : String → JobRow → Bool
is_cancellable id row = has_job_id id row && (is_pending row.status || is_running row.status)

unfoldable pub cancel : String → Time → Jobs → Jobs × Bool
cancel id now jobs = (
  update_where (is_cancellable id)
      (λ r. record r { status = JobStatus.cancelled; updated_at = now }) jobs,
  count_where (is_cancellable id) jobs == 1,
)
