-- ===== src/Storage/History.antt =====
-- Histories: any sequence of the repository's methods, and of requests for approvals, with the instants
-- at which they run.
pub mod Queues
mod Frames
mod Samples
pub mod Once
pub mod OneReply
pub mod Keys
pub mod Occurrences
pub mod Sent
pub mod Executions
pub mod SentOnce
use lemonbot.Prelude.{ℕ, String, Bool, Option, List, [], ◌∷◌, Result, ok, err}
use lemonbot.Prelude.Json.{Fields}
use lemonbot.Domain.{Time, InboundEvent, OutboundMessage, DeliveryReceipt, AuditRecord}
use lemonbot.Sql.{Choice}
use lemonbot.Storage.Tables.{Database, OutboxRow, DraftRow, ToolState, add_audit}
use lemonbot.Storage.Inbox.{
  record_inbound, claim_next_inbox, complete_inbox, mark_inbox_model_started, fail_inbox,
}
use lemonbot.Storage.Outbox.{
  create_outbox, reserve_next_outbox, mark_dispatching, apply_receipt, mark_outbox_unknown,
  release_reserved, mark_reserved_dead, reconcile_unknown_outbox,
}
use lemonbot.Storage.Tools.{
  ToolRequest, begin_tool_execution, mark_tool_executing, resolve_tool_execution,
}
use lemonbot.Storage.Drafts.{create_draft}
use lemonbot.Storage.Allowlist.{set_allowlisted, reconcile_allowlist}
use lemonbot.Storage.RuntimeState.{set_paused, set_runtime_state, clear_runtime_state_prefix}
use lemonbot.Storage.Recovery.{recover_interrupted}
use lemonbot.Approvals.{ApprovalRequest, create}

pub data InboxCall : Type 0 where
  records : InboundEvent → InboxCall
  claims : Option String → InboxCall
  completes starts : ℕ → InboxCall
  fails : (id : ℕ) (error : String) (retryable : Bool) (max_attempts : ℕ) → InboxCall

pub data OutboxCall : Type 0 where
  creates : OutboundMessage → OutboxCall
  reserves : Option String → OutboxCall
  dispatches : ℕ → OutboxCall
  receives : ℕ → DeliveryReceipt → OutboxCall
  doubts kills : ℕ → String → OutboxCall
  releases : (id : ℕ) (detail : String) (delay : ℕ) → OutboxCall
  reconciles : (id : ℕ) (outcome note : String) → OutboxCall

pub data ToolCall : Type 0 where
  begins : ToolRequest → (execution_id : String) → ToolCall
  executes : String → ToolCall
  resolves : (execution_id : String) → ToolState → (code : String) → Fields → ToolCall

pub data OtherCall : Type 0 where
  drafts : OutboundMessage → OtherCall
  allows : (channel chat_id : String) → Bool → (label : Option String) → OtherCall
  reconciles_allowlist : (channel : String) → List String → (label : Option String) → OtherCall
  pauses : Option String → Bool → OtherCall
  sets_state : String → Fields → OtherCall
  clears_state : String → OtherCall
  audits : AuditRecord → OtherCall
  asks_approval : ApprovalRequest → OtherCall

pub data Call : Type 0 where
  on_inbox : InboxCall → Call
  on_outbox : OutboxCall → Call
  on_tools : ToolCall → Call
  on_other : OtherCall → Call
  recovers : (stale_after : Time) → Call

-- The rows that SELECT statements with no ORDER BY return.
pub record Choices : Type 0 where
  pub outbox : Choice OutboxRow
  pub drafts : Choice DraftRow

-- A method that raises leaves the database as it was.
abbrev or_before {ℓ} : {A : Type ℓ} → (A → Database) → Result A → Database → Database
or_before after (ok a) db = after a
or_before after (err e) db = db

unfoldable pub inbox_step : Time → InboxCall → Database → Database
inbox_step now (records event) db = (record_inbound event now db).0
inbox_step now (claims channel) db = (claim_next_inbox channel now db).0
inbox_step now (completes id) db = (complete_inbox id now db).0
inbox_step now (starts id) db = (mark_inbox_model_started id now db).0
inbox_step now (fails id error retryable max_attempts) db =
    (fail_inbox id error retryable max_attempts now db).0

unfoldable pub outbox_step : Choices → Time → OutboxCall → Database → Database
outbox_step select now (creates message) db = (create_outbox select.outbox message now db).0
outbox_step select now (reserves channel) db = (reserve_next_outbox channel now db).0
outbox_step select now (dispatches id) db = (mark_dispatching id now db).0
outbox_step select now (receives id receipt) db = (apply_receipt id receipt now db).0
outbox_step select now (doubts id detail) db = (mark_outbox_unknown id detail now db).0
outbox_step select now (kills id detail) db = (mark_reserved_dead id detail now db).0
outbox_step select now (releases id detail delay) db = (release_reserved id detail delay now db).0
outbox_step select now (reconciles id outcome note) db =
    (reconcile_unknown_outbox id outcome note now db).0

unfoldable pub tool_step : Time → ToolCall → Database → Database
tool_step now (begins q execution_id) db = (begin_tool_execution q execution_id now db).0
tool_step now (executes execution_id) db = (mark_tool_executing execution_id now db).0
tool_step now (resolves execution_id state code summary) db =
    (resolve_tool_execution execution_id state code summary now db).0

unfoldable pub other_step : Choices → Time → OtherCall → Database → Database
other_step select now (drafts message) db = (create_draft select.drafts message now db).0
other_step select now (allows channel chat_id enabled label) db =
    set_allowlisted channel chat_id enabled label now db
other_step select now (reconciles_allowlist channel chat_ids label) db =
    (reconcile_allowlist channel chat_ids label now db).0
other_step select now (pauses channel paused) db = set_paused channel paused now db
other_step select now (sets_state key value) db =
    or_before (λ d. d) (set_runtime_state key value now db) db
other_step select now (clears_state prefix) db =
    or_before (λ r. r.0) (clear_runtime_state_prefix prefix db) db
other_step select now (audits entry) db = add_audit entry db
other_step select now (asks_approval q) db = (create q db).0

unfoldable pub step : Choices → Time × Call → Database → Database
step select (now, on_inbox c) db = inbox_step now c db
step select (now, on_outbox c) db = outbox_step select now c db
step select (now, on_tools c) db = tool_step now c db
step select (now, on_other c) db = other_step select now c db
step select (now, recovers stale_after) db = (recover_interrupted stale_after now db).0

unfoldable pub run : Choices → List (Time × Call) → Database → Database
run select [] db = db
run select (c ∷ cs) db = run select cs (step select c db)
