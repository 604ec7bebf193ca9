-- ===== src/Pipeline/Turns/Samples.antt =====
-- A run of two turns with one call of a tool.
use lemonbot.Prelude.{◌≡◌, refl, Option, none, some, String, strip, lstrip, rstrip, [], ◌∷◌}
use lemonbot.Prelude.Json.{end}
use lemonbot.Domain.{EventKind, InboxState}
use lemonbot.Storage.Tables.{Database, InboxRow}
use lemonbot.Pipeline.Agent.Samples.{agent}
use lemonbot.Pipeline.Window.{
  system_message, append_tool_result_bounded, fits_context, maximum_context_tokens,
  reserved_context_tokens, tool_schema_tokens,
}
use lemonbot.Pipeline.Delivery.Samples.{quiet, ready, noon}
use lemonbot.Pipeline.Tools.Samples.{asking}
use lemonbot.Pipeline.Turns.{ModelRun, run_model_and_tools, turns, turn, run_calls}
use lemonbot.Pipeline.Tools.{invoke_tool}
use lemonbot.Sql.{count_where, exists_where, first_where, update_where, update_first, next_id}
use lemonbot.Storage.Inbox.{mark_inbox_model_started}
use lemonbot.Storage.Tools.{begin_tool_execution, mark_tool_executing, resolve_tool_execution}
use lemonbot.Storage.Allowlist.{contains}
use lemonbot.Storage.RuntimeState.{is_paused}
use lemonbot.Storage.History.{run}
use lemonbot.Policy.Evaluate.{evaluate, audited_decision}
use lemonbot.Policy.Engine.{decision_on, hard_denied, contains_secret}
use lemonbot.Pipeline.{Task, done, fails}
use lemonbot.Pipeline.Turns.Within.{IsWithin, run_model_and_tools-IsWithin}

abbrev asked : InboxRow
asked = record {
  id = 1;
  channel = "fake";
  event_id = "e1";
  chat_id = "a";
  sender_id = "u";
  kind = EventKind.text;
  text = some "look it up";
  occurred_at = noon;
  metadata_json = end;
  state = InboxState.processing;
  attempts = 1;
  claimed_at = some noon;
  model_started_at = none;
  last_error = none;
  created_at = noon;
  updated_at = noon;
}

abbrev processing : Database
processing = record ready { inbox = asked ∷ [] }

run_model_and_tools-IsWithin_example :
    IsWithin quiet agent asking
      (run_model_and_tools quiet agent asking 0 (system_message agent "hi" ∷ []) processing)
run_model_and_tools-IsWithin_example =
    run_model_and_tools-IsWithin quiet agent asking 0 (system_message agent "hi" ∷ []) processing

abbrev replies_with : Task ModelRun → Option String
replies_with (fails f) = none
replies_with (done r) = some r.reply

it_replies :
    replies_with
      (run_model_and_tools quiet agent asking 0 (system_message agent "hi" ∷ []) processing).result
    ≡ some "done"
unfolding run_model_and_tools turns turn run_calls invoke_tool append_tool_result_bounded
    fits_context maximum_context_tokens reserved_context_tokens tool_schema_tokens
    mark_inbox_model_started begin_tool_execution mark_tool_executing resolve_tool_execution run
    evaluate audited_decision decision_on hard_denied contains_secret is_paused contains count_where
    exists_where first_where update_where update_first next_id strip lstrip rstrip
it_replies = refl
