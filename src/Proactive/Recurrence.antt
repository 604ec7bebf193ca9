-- ===== src/Proactive/Recurrence.antt =====
-- The loop that finds when a recurring job is due next.
use lemonbot.Prelude.{
  ℕ, zero, suc, ◌+◌, ◌*◌, ◌≤◌, ◌<◌, ◌≡◌, ◌⊎◌, refl, leb, arith, Bool-cases, inl, inr,
}
use lemonbot.Domain.{Time}
use lemonbot.Proactive.{advance, next_due}

-- The first instant after `now` that lies a whole number of steps after `due_at`.
pub record IsNextDue (due_at step now next : Time) : Type 0 where
  pub periods : ℕ
  pub whole : next ≡ due_at + periods * step
  pub future : now < next
  pub first : (periods ≡ 0) ⊎ (next ≤ now + step)

IsNextDue-step :
    (due_at step now next : Time)
    → due_at ≤ now
    → IsNextDue (due_at + step) step now next
    → IsNextDue due_at step now next
IsNextDue-step due_at step now next h r = record {
  periods = r.periods + 1;
  whole = grind (arith, r.whole);
  future = r.future;
  first = elim r.first [ inl e ↦ inr (let w = r.whole in grind (arith, e)) | inr l ↦ inr l ];
}

advance-IsNextDue :
    (fuel : ℕ) (due_at step now : Time)
    → 0 < step
    → now < due_at + fuel
    → IsNextDue due_at step now (advance fuel due_at step now)
unfolding advance
advance-IsNextDue zero due_at step now p h = record {
  periods = 0;
  whole = omega arith;
  future = omega arith;
  first = inl refl;
}
advance-IsNextDue (suc fuel) due_at step now p h = elim (Bool-cases (leb due_at now)) [
  | inl e ↦
      rw (e, advance)
        (IsNextDue-step due_at step now _ (ground arith)
          (advance-IsNextDue fuel (due_at + step) step now p (omega arith)))
  | inr e ↦
      rw (e, advance)
        (record { periods = 0; whole = omega arith; future = ground arith; first = inl refl })
]

-- The loop over a recurrence of at least one microsecond ends, and its result is the first instant
-- after `now` that lies a whole number of steps after the job's due time.
pub next_due-IsNextDue :
    (due_at step now : Time) → 0 < step → IsNextDue due_at step now (next_due due_at step now)
unfolding next_due
next_due-IsNextDue due_at step now p = advance-IsNextDue (now + 1) due_at step now p (omega arith)
