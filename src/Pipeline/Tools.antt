-- ===== src/Pipeline/Tools.antt =====
-- orchestration/pipeline.py: `_invoke_tool`. The k-th transaction is its first. The functions stand in
-- the order from the last step to the first.
use Prim.Native.String.{◌++◌ as concat, len}
use lemonbot.Prelude.{
  ℕ, ◌+◌, String, Bool, true, false, not, ◌&&◌, ◌||◌, Option, none, some, List, [], ◌∷◌, ◌==◌,
  string_eq, if◌then◌else◌, length, Result, ok, err, is_some,
}
use lemonbot.Prelude.Json.{Json, Fields, field, end, str, int, bool, get}
use lemonbot.Domain.{PolicyDecision, ProposedAction, PolicyEvaluation, policy_decision_eq}
use lemonbot.Domain.Exchange.{
  DataClass, ToolCall, ToolManifest, ToolContext, ToolResult, data_class_eq,
}
use lemonbot.Storage.Tables.{Database, ApprovalRow, ToolState}
use lemonbot.Storage.Inbox.{InboxItem}
use lemonbot.Storage.Allowlist.{contains}
use lemonbot.Storage.Tools.{
  ToolRequest, begin_tool_execution, mark_tool_executing, resolve_tool_execution,
}
use lemonbot.Approvals.{ApprovalRequest, create}
use lemonbot.Policy.Engine.{decision_value}
use lemonbot.Policy.Evaluate.{evaluate}
use lemonbot.Pipeline.{
  Surroundings, arrive, exception_name, Failure, permanent, fault, cancelled, Task, done, fails,
}
use lemonbot.Pipeline.Agent.{Agent, Approver, Tool, Outside, answers, is_cancelled, raises}
use lemonbot.Pipeline.Tools.Answers.{
  find_tool, allows_class, refusal, call_class, tool_action, tool_context, reported_state,
  reported_code, reported_summary, interrupted_state,
}
pub mod Urls
pub mod Answers
pub mod Judged
pub mod Refines
pub mod Once
pub mod Samples

-- What `_invoke_tool` does: `ran` is the id of the execution for which it called `tool.invoke`.
pub record Invocation : Type 0 where
  pub after : Database
  pub result : Task ToolResult
  pub ran : Option String

module _ (env : Surroundings) (agent : Agent) (item : InboxItem) where
  -- `resolve_tool_execution`, at the k-th transaction.
  abbrev pub resolve_at :
      ℕ → String → ToolState → String → Fields → Database → Database × Result Bool
  resolve_at k id state code summary db =
      resolve_tool_execution id state code summary (env.clock k) (arrive env k db)

  -- A request that is refused before anything ran.
  abbrev pub refuse : ℕ → String → ToolState → String → Fields → ToolResult → Database → Invocation
  refuse k id state code summary result db = record {
    after = (resolve_at k id state code summary db).0;
    result = done result;
    ran = none;
  }

  abbrev pub stopped : Database → Failure → Invocation
  stopped db failure = record { after = db; result = fails failure; ran = none }

  abbrev pub recorded_result : String → ToolResult → Database × Result Bool → Invocation
  recorded_result id r (db, ok true) = record { after = db; result = done r; ran = some id }
  recorded_result id r (db, ok false) = record {
    after = db;
    result = fails (permanent "tool outcome could not be durably recorded");
    ran = some id;
  }
  recorded_result id r (db, err e) = record {
    after = db;
    result = fails (fault (exception_name e));
    ran = some id;
  }

  abbrev pub settled : ℕ → String → ToolManifest → Outside ToolResult → Database → Invocation
  settled k id manifest is_cancelled db = record {
    after =
        (resolve_at k id (interrupted_state manifest)
          (if manifest.side_effect then "cancelled_during_side_effect" else "cancelled") end db).0;
    result = fails cancelled;
    ran = some id;
  }
  settled k id manifest (raises name) db = record {
    after =
        (resolve_at k id (interrupted_state manifest)
          (if manifest.side_effect then "exception_during_side_effect" else "tool_exception")
          (field "error_type" (str name) end) db).0;
    result = done (
        refusal (some (if manifest.side_effect then "tool_state_unknown" else "tool_failed"))
          "Tool execution failed without exposing internal details." end manifest.side_effect);
    ran = some id;
  }
  settled k id manifest (answers r) db =
      recorded_result id r
        (resolve_at k id (reported_state r) (reported_code r) (reported_summary r) db)

  abbrev pub run_tool : ℕ → String → Tool → DataClass → Fields → Database → Invocation
  run_tool k id tool class arguments db =
      let marked = mark_tool_executing id (env.clock k) (arrive env k db) in
      if marked.1
      then settled (k + 1) id tool.manifest
          (tool.invoke k (tool_context agent item class) arguments) marked.0
      else stopped marked.0 (permanent "tool execution state changed before invocation")

  -- The second check, next to the invocation.
  abbrev pub commit :
      ℕ → String → Tool → DataClass → Fields → Database × Result PolicyEvaluation → Invocation
  commit k id tool class arguments (db, err e) = stopped db (fault "ValidationError")
  commit k id tool class arguments (db, ok e) =
      if e.decision == PolicyDecision.auto
      then run_tool k id tool class arguments db
      else refuse k id ToolState.denied e.rule_id end
          (refusal none
            (concat "Tool blocked before commit: "
              (concat (decision_value e.decision) (concat "/" e.rule_id)))
            end false)
          db

  abbrev pub approval_request :
      ℕ → Approver → ToolManifest → Fields × String × String → ApprovalRequest
  approval_request k approver manifest (normalized, digest, summary) = record {
    approval_id = agent.fresh k;
    profile = approver.profile;
    channel = item.event.channel;
    chat_id = item.event.chat_id;
    event_id = item.event.event_id;
    tool_name = manifest.name;
    action_kind = manifest.action_kind;
    arguments_summary = summary;
    arguments_sha256 = digest;
    arguments = normalized;
    created_at = env.clock k;
    expires_at = env.clock k + approver.default_ttl;
  }

  abbrev pub pending_approval : ℕ → String → Database × Result ApprovalRow → Invocation
  pending_approval k id (db, err e) = stopped db (fault (exception_name e))
  pending_approval k id (db, ok row) =
      refuse k id ToolState.approval_pending "approval_pending"
        (field "approval_id" (str row.approval_id) end)
        (refusal (some "approval_pending")
          (concat "Tool action is pending one-time local administrator approval ("
            (concat row.approval_id "). It has not been executed."))
          (field "approval_id" (str row.approval_id) end) false)
        db

  -- `ApprovalService.request`
  abbrev pub request_approval :
      ℕ
      → String
      → Approver
      → ToolManifest
      → Result (Fields × String × String)
      → Database
      → Invocation
  request_approval k id approver manifest (err e) db = stopped db (fault (exception_name e))
  request_approval k id approver manifest (ok canonical) db =
      pending_approval (k + 1) id
        (create (approval_request k approver manifest canonical) (arrive env k db))

  abbrev pub ask_approval :
      ℕ → String → Option Approver → ToolManifest → Fields → Database → Invocation
  ask_approval k id none manifest arguments db =
      refuse k id ToolState.denied "approval_unavailable" end
        (refusal (some "approval_unavailable")
          "Tool requires local administrator approval, but approval is disabled." end false)
        db
  ask_approval k id (some approver) manifest arguments db =
      request_approval k id approver manifest (approver.canonicalize arguments) db

  abbrev pub evaluate_at : ℕ → ToolManifest → Fields → Database → Database × Result PolicyEvaluation
  evaluate_at k manifest arguments db =
      evaluate env.texts env.zone env.policy (env.clock k) (tool_action item manifest arguments)
        (arrive env k db)

  abbrev pub decided :
      ℕ → String → Tool → DataClass → Fields → Database × Result PolicyEvaluation → Invocation
  decided k id tool class arguments (db, err e) = stopped db (fault "ValidationError")
  decided k id tool class arguments (db, ok e) =
      if e.decision == PolicyDecision.approve_once
      then ask_approval k id agent.approver tool.manifest arguments db
      else if not (e.decision == PolicyDecision.auto)
      then refuse k id ToolState.denied e.rule_id end
          (refusal none
            (concat "Tool blocked by policy: "
              (concat (decision_value e.decision) (concat "/" e.rule_id)))
            end false)
          db
      else commit (k + 1) id tool class arguments (evaluate_at k tool.manifest arguments db)

  abbrev pub classified : ℕ → String → Tool → Fields → Option DataClass → Database → Invocation
  classified k id tool arguments none db =
      refuse k id ToolState.denied "url_not_explicitly_authorized" end
        (refusal (some "url_not_authorized")
          "The browser may open only an HTTPS URL written explicitly in the current inbound message."
          end false)
        db
  classified k id tool arguments (some class) db =
      if not (allows_class class tool.manifest.allowed_data)
      then refuse k id ToolState.denied "data_class_not_allowed" end
          (refusal (some "data_class_denied")
            "The broker denied this data class for the selected tool." end false)
          db
      else decided (k + 1) id tool class arguments (evaluate_at k tool.manifest arguments db)

  abbrev pub validated : ℕ → String → Tool → Fields → Option String → Database → Invocation
  validated k id tool arguments (some name) db =
      refuse k id ToolState.failed "arguments_rejected" (field "error_type" (str name) end)
        (refusal none (concat "Tool arguments rejected: " name) end false) db
  validated k id tool arguments none db =
      classified k id tool arguments (call_class agent item tool.manifest arguments) db

  abbrev pub enrolled : ℕ → String → ToolCall → Option Tool → Database → Invocation
  enrolled k id call none db =
      refuse k id ToolState.denied "tool_not_enrolled" end
        (refusal none (concat "Tool " (concat (agent.show_repr call.name) " is not enrolled.")) end
          false)
        db
  enrolled k id call (some tool) db =
      validated k id tool call.arguments (agent.rejects call.arguments tool.manifest.input_schema)
        db

  abbrev pub begun : ℕ → ToolCall → Database × Result (String × Bool) → Invocation
  begun k call (db, err e) =
      stopped db
        (permanent (concat "tool request could not be durably recorded: " (exception_name e)))
  begun k call (db, ok (id, false)) = record {
    after = db;
    result = done (
        refusal (some "duplicate_tool_call")
          "This tool call id was already processed and will not run again." end false);
    ran = none;
  }
  begun k call (db, ok (id, true)) = enrolled k id call (find_tool call.name agent.tools) db

  abbrev request_kind : Option Tool → String
  request_kind none = "unknown_tool"
  request_kind (some tool) = tool.manifest.action_kind

  abbrev request_effect : Option Tool → Bool
  request_effect none = false
  request_effect (some tool) = tool.manifest.side_effect

  abbrev pub tool_request : ToolCall → String × String → ToolRequest
  tool_request call (digest, summary) = record {
    profile = agent.config.profile;
    channel = item.event.channel;
    chat_id = item.event.chat_id;
    event_id = item.event.event_id;
    call_id = call.call_id;
    tool_name = call.name;
    action_kind = request_kind (find_tool call.name agent.tools);
    arguments_sha256 = digest;
    arguments_summary = summary;
    side_effect = request_effect (find_tool call.name agent.tools);
  }

  abbrev pub requested : ℕ → ToolCall → Result (String × String) → Database → Invocation
  requested k call (err e) db =
      stopped db
        (permanent (concat "tool request could not be durably recorded: " (exception_name e)))
  requested k call (ok metadata) db = begun (k + 1) call (
      begin_tool_execution (tool_request call metadata) (agent.fresh k) (env.clock k)
        (arrive env k db))

  unfoldable pub invoke_tool : ℕ → ToolCall → Database → Invocation
  invoke_tool k call db = requested k call (agent.metadata call.arguments) db
