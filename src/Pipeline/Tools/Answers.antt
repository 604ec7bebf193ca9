-- ===== src/Pipeline/Tools/Answers.antt =====
-- orchestration/pipeline.py: what `_invoke_tool` builds of a call and of a tool's answer.
use Prim.Native.String.{len}
use lemonbot.Prelude.{
  String, Bool, false, ◌||◌, Option, none, some, List, [], ◌∷◌, ◌==◌, string_eq, if◌then◌else◌,
  length,
}
use lemonbot.Prelude.Json.{Json, Fields, field, end, str, int, bool, get}
use lemonbot.Domain.{ProposedAction}
use lemonbot.Domain.Exchange.{DataClass, ToolManifest, ToolContext, ToolResult, data_class_eq}
use lemonbot.Storage.Tables.{ToolState}
use lemonbot.Storage.Inbox.{InboxItem}
use lemonbot.Storage.Allowlist.{contains}
use lemonbot.Pipeline.Agent.{Agent, Tool}
use lemonbot.Pipeline.Tools.Urls.{explicit_event_urls}

abbrev pub find_tool : String → List (String × Tool) → Option Tool
find_tool name [] = none
find_tool name ((n, tool) ∷ tools) = if n == name then some tool else find_tool name tools

abbrev pub allows_class : DataClass → List DataClass → Bool
allows_class c [] = false
allows_class c (d ∷ ds) = d == c || allows_class c ds

abbrev pub refusal : Option String → String → Fields → Bool → ToolResult
refusal error_code content metadata state_unknown = record {
  ok = false;
  content = content;
  metadata = metadata;
  facts = [];
  artifacts = [];
  error_code = error_code;
  truncated = false;
  side_effect_committed = false;
  state_unknown = state_unknown;
}

abbrev url_argument : Option Json → Option String
url_argument (some (str u)) = some u
url_argument _ = none

abbrev is_listed : Option String → List String → Bool
is_listed none urls = false
is_listed (some u) urls = contains u urls

-- The class of the data that the call may carry, unless it asks for an address that the message does
-- not name.
abbrev pub call_class : Agent → InboxItem → ToolManifest → Fields → Option DataClass
call_class agent item manifest arguments =
    if manifest.action_kind == "browse_public_https"
    then (if is_listed (url_argument (get arguments "url"))
          (explicit_event_urls agent item.event.text)
        then some DataClass.public
        else none)
    else some DataClass.conversation

abbrev pub tool_action : InboxItem → ToolManifest → Fields → ProposedAction
tool_action item manifest arguments = record {
  kind = manifest.action_kind;
  channel = some item.event.channel;
  chat_id = some item.event.chat_id;
  bound_channel = some item.event.channel;
  bound_chat_id = some item.event.chat_id;
  reason_event_id = some item.event.event_id;
  proactive = false;
  side_effect = manifest.side_effect;
  tool_name = some manifest.name;
  arguments = arguments;
}

abbrev pub tool_context : Agent → InboxItem → DataClass → ToolContext
tool_context agent item class = record {
  profile = agent.config.profile;
  channel = item.event.channel;
  chat_id = item.event.chat_id;
  event_id = item.event.event_id;
  principal_id = item.event.sender_id;
  granted_scopes = agent.config.granted_tool_scopes;
  data_class = class;
}

-- An outcome that the tool reported.
abbrev pub reported_state : ToolResult → ToolState
reported_state r =
    if r.state_unknown
    then ToolState.unknown
    else if r.ok || r.side_effect_committed
    then ToolState.succeeded
    else ToolState.failed

abbrev or_default : Option String → String → String
or_default none d = d
or_default (some s) d = if s == "" then d else s

abbrev pub reported_code : ToolResult → String
reported_code r = or_default r.error_code (if r.ok then "ok" else "reported_failure")

abbrev pub reported_summary : ToolResult → Fields
reported_summary r = field "ok" (bool r.ok) (
    field "content_bytes" (int (len r.content)) (
      field "facts" (int (length r.facts)) (
        field "artifacts" (int (length r.artifacts)) (
          field "truncated" (bool r.truncated) (
            field "side_effect_committed" (bool r.side_effect_committed)
              (field "state_unknown" (bool r.state_unknown) end))))))

abbrev pub interrupted_state : ToolManifest → ToolState
interrupted_state manifest = if manifest.side_effect then ToolState.unknown else ToolState.failed
