-- ===== src/Storage/Tools.antt =====
-- storage/repository.py: the durable state of the tool calls that the model asked for.
pub mod Lifecycle
pub mod Again
use lemonbot.Prelude.{
  ℕ, String, Bool, true, false, not, ◌&&◌, ◌||◌, Option, none, some, List, [], ◌∷◌, ◌++◌, ◌==◌,
  string_eq, nat_eq, bool_eq, if◌then◌else◌, take_chars, Exception, Result, ok, err, Eq, ◌≡◌, ◌↔◌,
  arith,
}
use lemonbot.Prelude.Json.{Fields, end}
use lemonbot.Domain.{Time}
use lemonbot.Sql.{update_where, exists_where, first_where, count_where}
use lemonbot.Storage.Tables.{ToolExecutionRow, ToolState, Database}

abbrev tool_beq : ToolState → ToolState → Bool
tool_beq ToolState.requested ToolState.requested = true
tool_beq ToolState.executing ToolState.executing = true
tool_beq ToolState.succeeded ToolState.succeeded = true
tool_beq ToolState.failed ToolState.failed = true
tool_beq ToolState.denied ToolState.denied = true
tool_beq ToolState.approval_pending ToolState.approval_pending = true
tool_beq ToolState.unknown ToolState.unknown = true
tool_beq _ _ = false

pub tool_beq_iff : (a b : ToolState) → (tool_beq a b ≡ true) ↔ (a ≡ b)
tool_beq_iff ToolState.requested b = ground arith
tool_beq_iff _ b = ground arith

instance abbrev pub tool_state_eq : Eq ToolState
tool_state_eq = record { equals = tool_beq; equals_iff = tool_beq_iff }

-- The arguments of `begin_tool_execution`. The digest and the summary are those that
-- `_tool_arguments_metadata` computes of the arguments.
pub record ToolRequest : Type 0 where
  pub profile : String
  pub channel : String
  pub chat_id : String
  pub event_id : String
  pub call_id : String
  pub tool_name : String
  pub action_kind : String
  pub arguments_sha256 : String
  pub arguments_summary : String
  pub side_effect : Bool

-- The unique constraint uq_tool_executions_call_binding.
abbrev pub same_call : ToolRequest → ToolExecutionRow → Bool
same_call q row =
    row.profile == q.profile
    && (row.channel == q.channel
        && (row.chat_id == q.chat_id && (row.event_id == q.event_id && row.call_id == q.call_id)))

abbrev pub tool_row : ToolRequest → String → Time → ToolExecutionRow
tool_row q execution_id now = record {
  execution_id = execution_id;
  profile = q.profile;
  channel = q.channel;
  chat_id = q.chat_id;
  event_id = q.event_id;
  call_id = q.call_id;
  tool_name = q.tool_name;
  action_kind = q.action_kind;
  arguments_summary = q.arguments_summary;
  arguments_sha256 = q.arguments_sha256;
  side_effect = q.side_effect;
  state = ToolState.requested;
  outcome_code = none;
  result_summary_json = end;
  created_at = now;
  started_at = none;
  resolved_at = none;
  updated_at = now;
}

abbrev pub same_request : ToolRequest → ToolExecutionRow → Bool
same_request q row =
    row.tool_name == q.tool_name
    && (row.action_kind == q.action_kind
        && (row.arguments_sha256 == q.arguments_sha256 && row.side_effect == q.side_effect))

abbrev existing_call :
    ToolRequest → Option ToolExecutionRow → Database → Database × Result (String × Bool)
existing_call q none db = (db, err Exception.runtime_error)
existing_call q (some row) db =
    if same_request q row
    then (db, ok (row.execution_id, false))
    else (db, err Exception.value_error)

-- A new row reads back as the one that was inserted. Its primary key is a fresh UUID; one that is
-- taken violates the key.
unfoldable pub begin_tool_execution :
    ToolRequest → String → Time → Database → Database × Result (String × Bool)
begin_tool_execution q execution_id now db =
    if exists_where (same_call q) db.tool_executions
    then existing_call q (first_where (same_call q) db.tool_executions) db
    else if exists_where (λ r. r.execution_id == execution_id) db.tool_executions
    then (db, err Exception.integrity_error)
    else (
      record db { tool_executions = db.tool_executions ++ tool_row q execution_id now ∷ [] },
      ok (execution_id, true),
    )

abbrev pub is_requested : String → ToolExecutionRow → Bool
is_requested execution_id row = row.execution_id == execution_id && row.state == ToolState.requested

unfoldable pub mark_tool_executing : String → Time → Database → Database × Bool
mark_tool_executing execution_id now db = (
  record db {
    tool_executions =
        update_where (is_requested execution_id)
          (λ r. record r { state = ToolState.executing; started_at = some now; updated_at = now })
          db.tool_executions;
  },
  count_where (is_requested execution_id) db.tool_executions == 1,
)

-- `terminal_sources`: the states from which an outcome may be recorded; `none` for what is no
-- outcome.
abbrev pub terminal_source : ToolState → Option (ToolState → Bool)
terminal_source ToolState.succeeded = some (λ s. s == ToolState.executing)
terminal_source ToolState.failed = some (λ s. s == ToolState.requested || s == ToolState.executing)
terminal_source ToolState.denied = some (λ s. s == ToolState.requested)
terminal_source ToolState.approval_pending = some (λ s. s == ToolState.requested)
terminal_source ToolState.unknown = some (λ s. s == ToolState.executing)
terminal_source ToolState.requested = none
terminal_source ToolState.executing = none

abbrev resolution_time : ToolState → Time → Option Time
resolution_time ToolState.approval_pending now = none
resolution_time _ now = some now

abbrev pub resolvable : String → (ToolState → Bool) → ToolExecutionRow → Bool
resolvable execution_id from row = row.execution_id == execution_id && from row.state

unfoldable pub resolve_tool_execution :
    String → ToolState → String → Fields → Time → Database → Database × Result Bool
resolve_tool_execution execution_id state outcome_code summary now db =
    elim (terminal_source state) [
      | none ↦ (db, err Exception.value_error)
      | some from ↦ (
        record db {
          tool_executions =
              update_where (resolvable execution_id from)
                (λ r. record r {
                  state = state;
                  outcome_code = some (take_chars 128 outcome_code);
                  result_summary_json = summary;
                  resolved_at = resolution_time state now;
                  updated_at = now;
                })
                db.tool_executions;
        },
        ok (count_where (resolvable execution_id from) db.tool_executions == 1),
      )
    ]
