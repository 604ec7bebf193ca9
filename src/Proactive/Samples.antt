-- ===== src/Proactive/Samples.antt =====
-- Runs of the job store on concrete jobs.
use lemonbot.Prelude.{ℕ, String, ◌≡◌, refl, ◌*◌, Option, none, some, List, [], ◌∷◌, ok, arith}
use lemonbot.Domain.{Time, second}
use lemonbot.Sql.{first_by, select_where, count_where}
use lemonbot.Proactive.{JobRow, JobSource, JobStatus, Jobs, claim_due, next_job, next_due, advance}
use lemonbot.Proactive.Recurrence.{IsNextDue, next_due-IsNextDue}
use lemonbot.Proactive.Lifecycle.{
  JobCall, claims, adds, completes, starts, cancels, fails, JobSteps, run, run-JobSteps,
}
use lemonbot.Proactive.Claim.{IsNextJob, claim_due-IsNextJob}

abbrev job : String → Time → Option ℕ → JobRow
job id due_at recurrence_seconds = record {
  job_id = id;
  source = JobSource.admin_schedule;
  channel = "fake";
  chat_id = "a";
  reason_event_id = "e1";
  prompt = "say hello";
  due_at = due_at;
  recurrence_seconds = recurrence_seconds;
  status = JobStatus.pending;
  attempts = 0;
  model_started_at = none;
  created_at = 1;
  updated_at = 1;
  last_error = none;
}

abbrev two_jobs : Jobs
two_jobs = job "later" 20 none ∷ job "hourly" 10 (some 3600) ∷ []

abbrev hourly : JobRow
hourly = record (job "hourly" 10 (some 3600)) { status = JobStatus.running; attempts = 1 }

claims_hourly : (claim_due 30 two_jobs).1 ≡ ok (some hourly)
unfolding claim_due next_job first_by select_where count_where
claims_hourly = refl

claim_due-IsNextJob_example : IsNextJob 30 two_jobs hourly
claim_due-IsNextJob_example = claim_due-IsNextJob 30 two_jobs hourly claims_hourly

next_due-IsNextDue_example : IsNextDue 10 (3600 * second) 30 (next_due 10 (3600 * second) 30)
next_due-IsNextDue_example = next_due-IsNextDue 10 (3600 * second) 30 (omega arith)

abbrev calls : List (Time × JobCall)
calls =
    (29, adds (job "greeting" 60 none))
    ∷ (30, claims)
    ∷ (31, starts "hourly")
    ∷ (32, completes hourly)
    ∷ (33, claims)
    ∷ (34, fails (job "later" 20 none) "no model" 3)
    ∷ (35, cancels "later")
    ∷ []

run-JobSteps_example : JobSteps calls two_jobs (run calls two_jobs)
run-JobSteps_example = run-JobSteps calls two_jobs

skips_missed : next_due 10 5 30 ≡ 35
unfolding next_due advance
skips_missed = refl
