-- ===== src/Storage/History/Frames.antt =====
-- Each group of methods leaves the other groups' tables alone.
use lemonbot.Prelude.{◌≡◌, arith}
use lemonbot.Domain.{Time}
use lemonbot.Storage.Tables.{Database}
use lemonbot.Storage.Inbox.{
  record_inbound, claim_next_inbox, complete_inbox, mark_inbox_model_started, fail_inbox,
}
use lemonbot.Storage.Outbox.{
  create_outbox, reserve_next_outbox, mark_dispatching, apply_receipt, mark_outbox_unknown,
  release_reserved, mark_reserved_dead, reconcile_unknown_outbox,
}
use lemonbot.Storage.Tools.{begin_tool_execution, mark_tool_executing, resolve_tool_execution}
use lemonbot.Storage.Drafts.{create_draft}
use lemonbot.Storage.Allowlist.{set_allowlisted, reconcile_allowlist}
use lemonbot.Approvals.{create}
use lemonbot.Storage.RuntimeState.{set_paused, set_runtime_state, clear_runtime_state_prefix}
use lemonbot.Storage.History.{
  InboxCall, OutboxCall, ToolCall, OtherCall, Choices, inbox_step, outbox_step, tool_step,
  other_step, creates, records, begins, drafts,
}

module _ (now : Time) (db : Database) where
  pub outbox-inbox_step : (c : InboxCall) → (inbox_step now c db).outbox ≡ db.outbox
  unfolding inbox_step record_inbound claim_next_inbox complete_inbox mark_inbox_model_started
      fail_inbox
  outbox-inbox_step (records event) = ground arith
  outbox-inbox_step _ = ground arith

  pub tools-inbox_step :
      (c : InboxCall) → (inbox_step now c db).tool_executions ≡ db.tool_executions
  unfolding inbox_step record_inbound claim_next_inbox complete_inbox mark_inbox_model_started
      fail_inbox
  tools-inbox_step (records event) = ground arith
  tools-inbox_step _ = ground arith

  pub inbox-tool_step : (c : ToolCall) → (tool_step now c db).inbox ≡ db.inbox
  unfolding tool_step begin_tool_execution mark_tool_executing resolve_tool_execution
  inbox-tool_step (begins q id) = ground arith
  inbox-tool_step _ = ground arith

  pub outbox-tool_step : (c : ToolCall) → (tool_step now c db).outbox ≡ db.outbox
  unfolding tool_step begin_tool_execution mark_tool_executing resolve_tool_execution
  outbox-tool_step (begins q id) = ground arith
  outbox-tool_step _ = ground arith

module _ (select : Choices) (now : Time) (db : Database) where
  pub inbox-outbox_step : (c : OutboxCall) → (outbox_step select now c db).inbox ≡ db.inbox
  unfolding outbox_step create_outbox reserve_next_outbox mark_dispatching apply_receipt
      mark_outbox_unknown release_reserved mark_reserved_dead reconcile_unknown_outbox
  inbox-outbox_step (creates message) = ground arith
  inbox-outbox_step _ = ground arith

  pub tools-outbox_step :
      (c : OutboxCall) → (outbox_step select now c db).tool_executions ≡ db.tool_executions
  unfolding outbox_step create_outbox reserve_next_outbox mark_dispatching apply_receipt
      mark_outbox_unknown release_reserved mark_reserved_dead reconcile_unknown_outbox
  tools-outbox_step (creates message) = ground arith
  tools-outbox_step _ = ground arith

  pub inbox-other_step : (c : OtherCall) → (other_step select now c db).inbox ≡ db.inbox
  unfolding other_step create_draft set_allowlisted reconcile_allowlist set_paused set_runtime_state
      clear_runtime_state_prefix create
  inbox-other_step (drafts message) = ground arith
  inbox-other_step _ = ground arith

  pub outbox-other_step : (c : OtherCall) → (other_step select now c db).outbox ≡ db.outbox
  unfolding other_step create_draft set_allowlisted reconcile_allowlist set_paused set_runtime_state
      clear_runtime_state_prefix create
  outbox-other_step (drafts message) = ground arith
  outbox-other_step _ = ground arith

  pub tools-other_step :
      (c : OtherCall) → (other_step select now c db).tool_executions ≡ db.tool_executions
  unfolding other_step create_draft set_allowlisted reconcile_allowlist set_paused set_runtime_state
      clear_runtime_state_prefix create
  tools-other_step (drafts message) = ground arith
  tools-other_step _ = ground arith
