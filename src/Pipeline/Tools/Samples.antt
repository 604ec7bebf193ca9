-- ===== src/Pipeline/Tools/Samples.antt =====
-- A call of an enrolled tool.
use lemonbot.Prelude.{[], ◌∷◌, String, ◌≡◌, ◌≤◌, refl, true, some, strip, lstrip, rstrip, is_some}
use lemonbot.Prelude.Json.{end}
use lemonbot.Domain.{EventKind, InboxState}
use lemonbot.Sql.{count_where, exists_where, first_where, update_where, update_first, next_id}
use lemonbot.Storage.Inbox.{InboxItem}
use lemonbot.Storage.Tools.{begin_tool_execution, mark_tool_executing, resolve_tool_execution}
use lemonbot.Storage.Allowlist.{contains}
use lemonbot.Storage.RuntimeState.{is_paused}
use lemonbot.Storage.History.{run}
use lemonbot.Policy.Evaluate.{evaluate, audited_decision}
use lemonbot.Policy.Engine.{decision_on, hard_denied, contains_secret}
use lemonbot.Pipeline.Agent.Samples.{agent, lookup_call}
use lemonbot.Pipeline.Delivery.Samples.{quiet, ready, noon, first_rows}
use lemonbot.Pipeline.Tools.{invoke_tool}
use lemonbot.Pipeline.Tools.Once.{Round, tool_runs, tool_runs_once}
use lemonbot.Storage.History.Executions.{starts_tool}
use lemonbot.Pipeline.Refinement.{Refines}
use lemonbot.Pipeline.Tools.Refines.{invoke_tool-Refines}
use lemonbot.Pipeline.Tools.Judged.{Permitted, recorded, invoke_tool-Permitted}

abbrev pub asking : InboxItem
asking = record {
  id = 1;
  event = record {
    channel = "fake";
    event_id = "e1";
    chat_id = "a";
    sender_id = "u";
    text = some "look it up";
    kind = EventKind.text;
    occurred_at = noon;
    metadata = end;
  };
  state = InboxState.processing;
  attempts = 1;
  claimed_at = some noon;
}

lookup_runs : is_some (invoke_tool quiet agent asking 0 lookup_call ready).ran ≡ true
unfolding invoke_tool begin_tool_execution mark_tool_executing resolve_tool_execution run evaluate
    audited_decision decision_on hard_denied contains_secret is_paused contains count_where
    exists_where first_where update_where update_first next_id strip lstrip rstrip
lookup_runs = refl

invoke_tool-Permitted_example :
    (metadata : String × String) × Permitted quiet agent asking 1 lookup_call
      (recorded quiet agent asking 0 lookup_call metadata ready)
invoke_tool-Permitted_example =
    invoke_tool-Permitted quiet agent asking 0 lookup_call ready lookup_runs

abbrev lookup_round : Round
lookup_round = record { env = quiet; agent = agent; item = asking; at = 0; call = lookup_call }

-- The same call, twice.
tool_runs_once_example : tool_runs first_rows "x1" (lookup_round ∷ lookup_round ∷ []) ready ≤ 1
tool_runs_once_example = tool_runs_once first_rows "x1" (lookup_round ∷ lookup_round ∷ []) ready

invoke_tool-Refines_example :
    Refines first_rows starts_tool
      (invoke_tool quiet agent asking 0 lookup_call ready).ran
      ready
      (invoke_tool quiet agent asking 0 lookup_call ready).after
invoke_tool-Refines_example = invoke_tool-Refines quiet agent asking 0 lookup_call ready
