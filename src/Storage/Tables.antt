-- ===== src/Storage/Tables.antt =====
-- storage/models.py: the rows of the tables, and the database that holds them.
use lemonbot.Prelude.{ℕ, String, Bool, Option, List, [], ◌∷◌, ◌++◌}
use lemonbot.Prelude.Json.{Fields}
use lemonbot.Domain.{
  Time, EventKind, MessageRole, InboxState, OutboxState, ApprovalState, AuditRecord,
}
use lemonbot.Sql.{next_id}

pub record InboxRow : Type 0 where
  pub id : ℕ
  pub channel : String
  pub event_id : String
  pub chat_id : String
  pub sender_id : String
  pub kind : EventKind
  pub text : Option String
  pub occurred_at : Time
  pub metadata_json : Fields
  pub state : InboxState
  pub attempts : ℕ
  pub claimed_at : Option Time
  pub model_started_at : Option Time
  pub last_error : Option String
  pub created_at : Time
  pub updated_at : Time

-- The column `state` is left out: the constraint ck_drafts_state leaves it one value.
pub record DraftRow : Type 0 where
  pub id : ℕ
  pub draft_id : String
  pub channel : String
  pub chat_id : String
  pub text : String
  pub reply_to_event_id : String
  pub metadata_json : Fields
  pub created_at : Time
  pub updated_at : Time

pub record OutboxRow : Type 0 where
  pub id : ℕ
  pub message_id : String
  pub channel : String
  pub chat_id : String
  pub text : String
  pub reply_to_event_id : Option String
  pub metadata_json : Fields
  pub proactive : Bool
  pub state : OutboxState
  pub attempts : ℕ
  pub next_attempt_at : Option Time
  pub reserved_at : Option Time
  pub dispatch_started_at : Option Time
  pub acknowledged_at : Option Time
  pub external_id : Option String
  pub failure_detail : Option String
  pub created_at : Time
  pub updated_at : Time

pub record MessageRow : Type 0 where
  pub id : ℕ
  pub channel : String
  pub chat_id : String
  pub sender_id : Option String
  pub role : MessageRole
  pub kind : EventKind
  pub content : String
  pub external_id : Option String
  pub occurred_at : Time
  pub metadata_json : Fields

-- The columns are those of the record that the row stores.
pub record AuditRow : Type 0 where
  pub id : ℕ
  pub entry : AuditRecord
  pub open entry use *

pub record AllowlistRow : Type 0 where
  pub id : ℕ
  pub channel : String
  pub chat_id : String
  pub enabled : Bool
  pub label : Option String
  pub created_at : Time
  pub updated_at : Time

pub record ApprovalRow : Type 0 where
  pub approval_id : String
  pub profile : String
  pub channel : String
  pub chat_id : String
  pub event_id : String
  pub tool_name : String
  pub action_kind : String
  pub arguments_summary : String
  pub arguments_sha256 : String
  pub arguments_json : Fields
  pub state : ApprovalState
  pub claim_token : Option String
  pub outcome_code : Option String
  pub created_at : Time
  pub expires_at : Time
  pub claimed_at : Option Time
  pub resolved_at : Option Time
  pub updated_at : Time

pub data ToolState : Type 0 where
  requested executing succeeded failed denied approval_pending unknown : ToolState

pub record ToolExecutionRow : Type 0 where
  pub execution_id : String
  pub profile : String
  pub channel : String
  pub chat_id : String
  pub event_id : String
  pub call_id : String
  pub tool_name : String
  pub action_kind : String
  pub arguments_summary : String
  pub arguments_sha256 : String
  pub side_effect : Bool
  pub state : ToolState
  pub outcome_code : Option String
  pub result_summary_json : Fields
  pub created_at : Time
  pub started_at : Option Time
  pub resolved_at : Option Time
  pub updated_at : Time

pub record RuntimeStateRow : Type 0 where
  pub key : String
  pub value_json : Fields
  pub updated_at : Time

pub record Database : Type 0 where
  pub inbox : List InboxRow
  pub drafts : List DraftRow
  pub outbox : List OutboxRow
  pub messages : List MessageRow
  pub audit_log : List AuditRow
  pub allowlist : List AllowlistRow
  pub approvals : List ApprovalRow
  pub tool_executions : List ToolExecutionRow
  pub runtime_state : List RuntimeStateRow

-- `session.add(AuditRow(…))`
abbrev pub log_with : List AuditRow → AuditRecord → List AuditRow
log_with log entry = log ++ record { id = next_id (λ r. r.id) log; entry = entry } ∷ []

abbrev pub add_audit : AuditRecord → Database → Database
add_audit entry db = record db { audit_log = log_with db.audit_log entry }

-- `session.add(MessageRow(…))`, whose id the table gives.
abbrev pub add_message : (ℕ → MessageRow) → Database → Database
add_message row db = record db {
  messages = db.messages ++ row (next_id (λ r. r.id) db.messages) ∷ [];
}
