-- ===== src/Storage/Recovery.antt =====
-- storage/repository.py: `recover_interrupted`, which a restart runs over what a stopped process left.
pub mod Lifecycle
pub mod Settled
use lemonbot.Prelude.{
  ℕ, String, ◌-◌, Bool, true, false, not, ◌&&◌, Option, none, some, ltb, ◌==◌, is_some,
}
use lemonbot.Domain.{Time, InboxState, OutboxState, inbox_state_eq, outbox_state_eq}
use lemonbot.Sql.{update_where, count_where}
use lemonbot.Storage.Tables.{InboxRow, OutboxRow, ToolExecutionRow, ToolState, Database}
use lemonbot.Storage.Tools.{tool_state_eq}

-- A time column against the cutoff; NULL passes no comparison.
abbrev before_cutoff : Option Time → Time → Bool
before_cutoff none cutoff = false
before_cutoff (some at) cutoff = ltb at cutoff

abbrev pub is_stale_started : Time → InboxRow → Bool
is_stale_started cutoff row =
    row.state == InboxState.processing
    && (before_cutoff row.claimed_at cutoff && is_some row.model_started_at)

abbrev pub is_stale_unstarted : Time → InboxRow → Bool
is_stale_unstarted cutoff row =
    row.state == InboxState.processing
    && (before_cutoff row.claimed_at cutoff && not (is_some row.model_started_at))

abbrev pub is_stale_reserved : Time → OutboxRow → Bool
is_stale_reserved cutoff row =
    row.state == OutboxState.reserved && before_cutoff row.reserved_at cutoff

abbrev pub is_dispatching : OutboxRow → Bool
is_dispatching row = row.state == OutboxState.dispatching

abbrev pub quarantine : Time → InboxRow → InboxRow
quarantine now row = record row {
  state = InboxState.dead;
  claimed_at = none;
  last_error =
      some "process stopped after model provider I/O may have begun; automatic retry is forbidden";
  updated_at = now;
}

abbrev pub requeue : Time → InboxRow → InboxRow
requeue now row = record row { state = InboxState.pending; claimed_at = none; updated_at = now }

abbrev pub release : Time → OutboxRow → OutboxRow
release now row = record row {
  state = OutboxState.pending;
  reserved_at = none;
  next_attempt_at = none;
  updated_at = now;
}

abbrev pub give_up : Time → OutboxRow → OutboxRow
give_up now row = record row {
  state = OutboxState.unknown;
  failure_detail = some "process stopped after dispatch began; manual reconciliation required";
  updated_at = now;
}

abbrev pub interrupt : ToolState → String → Time → ToolExecutionRow → ToolExecutionRow
interrupt state code now row = record row {
  state = state;
  outcome_code = some code;
  resolved_at = some now;
  updated_at = now;
}

pub record RecoveryCounts : Type 0 where
  pub inbox_requeued : ℕ
  pub inbox_dead_ambiguous : ℕ
  pub outbox_released : ℕ
  pub outbox_unknown : ℕ
  pub tool_requests_failed : ℕ
  pub tool_calls_unknown : ℕ

-- The six updates in the order of the source; each counts the rows as the ones before left them.
unfoldable pub recover_interrupted : Time → Time → Database → Database × RecoveryCounts
recover_interrupted stale_after now db =
    let cutoff = now - stale_after in
    let inbox₁ = update_where (is_stale_started cutoff) (quarantine now) db.inbox in
    let inbox₂ = update_where (is_stale_unstarted cutoff) (requeue now) inbox₁ in
    let outbox₁ = update_where (is_stale_reserved cutoff) (release now) db.outbox in
    let outbox₂ = update_where is_dispatching (give_up now) outbox₁ in
    let requested : ToolExecutionRow → Bool = λ r. r.state == ToolState.requested in
    let executing : ToolExecutionRow → Bool = λ r. r.state == ToolState.executing in
    let tools₁ =
      update_where requested (interrupt ToolState.failed "interrupted_before_invoke" now)
        db.tool_executions in
    let tools₂ =
      update_where executing (interrupt ToolState.unknown "interrupted_during_invoke" now) tools₁ in
    (
      record db { inbox = inbox₂; outbox = outbox₂; tool_executions = tools₂ },
      record {
        inbox_requeued = count_where (is_stale_unstarted cutoff) inbox₁;
        inbox_dead_ambiguous = count_where (is_stale_started cutoff) db.inbox;
        outbox_released = count_where (is_stale_reserved cutoff) db.outbox;
        outbox_unknown = count_where is_dispatching outbox₁;
        tool_requests_failed = count_where requested db.tool_executions;
        tool_calls_unknown = count_where executing tools₁;
      },
    )
