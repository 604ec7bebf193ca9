-- ===== src/Proactive/Claim.antt =====
-- Which job `claim_due` hands out.
use lemonbot.Prelude.{
  ◌≤◌, ◌+◌, ◌≡◌, sym, true, false, some, arith, leb, ◌==◌, nat_eq, Bool-cases, Option-cases, inl,
  inr, All, Among, All-Among, ok,
}
use lemonbot.Domain.{Time}
use lemonbot.Sql.{
  IsOrder, first_by-least, first_by-All, select_where-test, All-select_where, All-of_select,
  count_where,
}
use lemonbot.Proactive.{
  JobRow, JobStatus, Jobs, is_due, due_before, next_job, is_waiting, claim_due,
}

due_before-IsOrder : IsOrder due_before
due_before-IsOrder = record {
  irreflexive = λ a. ground arith;
  negatively_trans = λ a b c h k. ground arith;
  asymmetric = λ a b h. ground arith;
}

-- The job is a row of the table that was pending and due, and no job that is due comes before it.
pub record IsNextJob (now : Time) (jobs : Jobs) (job : JobRow) : Type 0 where
  pub row : JobRow
  pub among : Among row jobs
  pub pending : row.status ≡ JobStatus.pending
  pub due : row.due_at ≤ now
  pub oldest : All (λ r. is_due now r ≡ true → due_before r row ≡ false) jobs
  pub as_running : job ≡ record row { status = JobStatus.running; attempts = row.attempts + 1 }

next_job-Among :
    (now : Time) (jobs : Jobs) (row : JobRow) → next_job now jobs ≡ some row → Among row jobs
unfolding next_job
next_job-Among now jobs row e =
    first_by-All due_before (λ r. Among r jobs) _ row
      (All-select_where (λ r. Among r jobs) (is_due now) jobs (All-Among jobs)) e

next_job-is_due :
    (now : Time) (jobs : Jobs) (row : JobRow) → next_job now jobs ≡ some row → is_due now row ≡ true
unfolding next_job
next_job-is_due now jobs row e =
    first_by-All due_before (λ r. is_due now r ≡ true) _ row (select_where-test (is_due now) jobs) e

next_job-least :
    (now : Time) (jobs : Jobs) (row : JobRow)
    → next_job now jobs ≡ some row
    → All (λ r. is_due now r ≡ true → due_before r row ≡ false) jobs
unfolding next_job
next_job-least now jobs row e =
    All-of_select (λ r. due_before r row ≡ false) (is_due now) jobs
      (first_by-least due_before due_before-IsOrder _ row e)

-- If `claim_due` returns a job, it is a row of the table that was pending and due, before which no job
-- that is due comes, by its due time and then by its creation; it is handed out as that row, but
-- running, with one attempt more.
pub claim_due-IsNextJob :
    (now : Time) (jobs : Jobs) (job : JobRow)
    → (claim_due now jobs).1 ≡ ok (some job)
    → IsNextJob now jobs job
unfolding claim_due
claim_due-IsNextJob now jobs job h = elim (Option-cases (next_job now jobs)) [
  | inl e ↦ let gone = rw e at h in absurd (cc)
  | inr (row, e) ↦ elim (Bool-cases (count_where (is_waiting row.job_id) jobs == 1)) [
    | inr f ↦ let gone = rw (e, f) at h in absurd (cc)
    | inl f ↦ elim (Bool-cases (leb (row.attempts + 1) 100)) [
      | inr g ↦ let gone = rw (e, f, g) at h in absurd (cc)
      | inl g ↦
          let returned = rw (e, f, g) at h in
          let ready = next_job-is_due now jobs row e in
          record {
            row = row;
            among = next_job-Among now jobs row e;
            pending = ground arith;
            due = ground arith;
            oldest = next_job-least now jobs row e;
            as_running = sym (cc);
          }
    ]
  ]
]
