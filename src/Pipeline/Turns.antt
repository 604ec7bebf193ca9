-- ===== src/Pipeline/Turns.antt =====
-- orchestration/pipeline.py: `_run_model_and_tools`, the turns of the model and the tool calls that it asks
-- for in them. Besides its result a run records its requests and the calls that it passed to
-- `_invoke_tool`. Eight transactions are set aside for a call, of which it makes at most five.
use Prim.Native.String.{◌++◌ as concat}
use text.Mathlib.Text.{starts_with}
use lemonbot.Prelude.{
  ℕ, zero, suc, ◌+◌, ◌-◌, min, max, String, Bool, true, false, not, ◌&&◌, ◌||◌, Option, none, some,
  List, [], ◌∷◌, ◌++◌, ltb, ◌==◌, string_eq, nat_eq, if◌then◌else◌, length, strip, lstrip,
}
use lemonbot.Domain.{InboundEvent, MessageRole}
use lemonbot.Domain.Exchange.{
  ModelMessage, ModelRequest, ModelResponse, ToolCall, ToolManifest, ToolResult,
}
use lemonbot.Storage.Tables.{Database}
use lemonbot.Storage.Inbox.{InboxItem, mark_inbox_model_started}
use lemonbot.Storage.Allowlist.{contains}
use lemonbot.Pipeline.{
  Surroundings, arrive, Failure, permanent, fault, cancelled, Task, done, fails,
}
use lemonbot.Pipeline.Agent.{Agent, Tool, Generation, responds, fails_closed, breaks, breaks_off}
use lemonbot.Pipeline.Window.{
  fits_context, manifests, tool_schema_tokens, append_tool_result_bounded,
}
use lemonbot.Pipeline.Tools.Answers.{find_tool}
use lemonbot.Pipeline.Tools.{Invocation, invoke_tool}
pub mod Calls
pub mod Limits
pub mod Within
mod Samples

pub record ModelRun : Type 0 where
  pub reply : String
  pub turns_used : ℕ
  pub input_tokens_used : ℕ
  pub output_tokens_used : ℕ

-- The variables of the loop, and the number of the next transaction.
pub record Progress : Type 0 where
  pub history : List ModelMessage
  pub tool_calls_used : ℕ
  pub navigations_used : ℕ
  pub input_tokens_used : ℕ
  pub output_tokens_used : ℕ
  pub at : ℕ

pub record Run {ℓ} (A : Type ℓ) : Type ℓ where
  pub after : Database
  pub result : Task A
  pub requests : List ModelRequest
  pub calls : List ToolCall

-- How a turn ends that does not raise.
pub data Turn : Type 0 where
  replies : ModelRun → Turn
  goes_on : Progress → Turn

abbrev pub is_given : Option String → Bool
is_given none = false
is_given (some s) = not (s == "")

abbrev pub text_of : Option String → String
text_of none = ""
text_of (some s) = s

abbrev pub raised {ℓ} : {A : Type ℓ} → Database → Failure → Run A
raised db failure = record { after = db; result = fails failure; requests = []; calls = [] }

abbrev pub assistant : ModelResponse → List ToolCall → ModelMessage
assistant r calls = record {
  role = MessageRole.assistant;
  content = r.content;
  name = none;
  tool_call_id = none;
  tool_calls = calls;
  reasoning_content = r.reasoning_content;
}

-- What a run did, before another one that went on from it.
abbrev pub preceded {ℓ} : {A : Type ℓ} → List ModelRequest → List ToolCall → Run A → Run A
preceded requests calls run = record run {
  requests = requests ++ run.requests;
  calls = calls ++ run.calls;
}

module _ (env : Surroundings) (agent : Agent) (item : InboxItem) where
  abbrev pub is_browser : Option Tool → Bool
  is_browser none = false
  is_browser (some tool) = tool.manifest.action_kind == "browse_public_https"

  abbrev pub is_navigation : ToolCall → Bool
  is_navigation call = is_browser (find_tool call.name agent.tools)

  abbrev pub navigations_with : ToolCall → ℕ → ℕ
  navigations_with call n = if is_navigation call then n + 1 else n

  -- The calls of one response; `rest` is what the loop does after a call.
  abbrev pub after_append :
      ToolCall
      → Task (List ModelMessage)
      → (List ModelMessage → Run Progress)
      → Database
      → Run Progress
  after_append call (fails f) rest db = record (raised db f) { calls = call ∷ [] }
  after_append call (done history) rest db = preceded [] (call ∷ []) (rest history)

  abbrev pub after_call :
      ToolCall
      → List ModelMessage
      → Task ToolResult
      → (List ModelMessage → Run Progress)
      → Database
      → Run Progress
  after_call call history (fails f) rest db = record (raised db f) { calls = call ∷ [] }
  after_call call history (done r) rest db =
      after_append call (append_tool_result_bounded agent history call.name call.call_id r.content)
        rest db

  unfoldable pub run_calls : List ToolCall → Progress → Database → Run Progress
  run_calls [] p db = record { after = db; result = done p; requests = []; calls = [] }
  run_calls (call ∷ calls) p db =
      let navigations = navigations_with call p.navigations_used in
      let i = invoke_tool env agent item p.at call db in
      let rest = λ (history : List ModelMessage).
        run_calls calls
          (record p { history = history; navigations_used = navigations; at = p.at + 8 }) i.after in
      if is_navigation call && ltb agent.config.max_navigations navigations
      then raised db (permanent "navigation limit exceeded")
      else after_call call p.history i.result rest i.after

  abbrev pub is_deep : InboundEvent → Bool
  is_deep event =
      contains event.sender_id agent.config.deep_sender_ids
      && (is_given event.text && starts_with (lstrip (text_of event.text)) "/deep")

  abbrev pub request_for : Progress → ModelRequest
  request_for p = record {
    messages = p.history;
    tools = manifests agent;
    max_tokens =
        min agent.config.model_max_tokens
          (agent.config.max_task_output_tokens - p.output_tokens_used);
    deep = is_deep item.event;
    correlation_id = some (concat item.event.channel (concat ":" item.event.event_id));
  }

  abbrev schemas_of : List ToolManifest → ℕ
  schemas_of [] = 0
  schemas_of (m ∷ ms) = tool_schema_tokens agent

  abbrev pub estimated_input : ModelRequest → ℕ
  estimated_input request = agent.model.count_tokens request.messages + schemas_of request.tools

  abbrev pub has_calls : List ToolCall → Bool
  has_calls [] = false
  has_calls (c ∷ cs) = true

  abbrev pub estimated_output : ModelResponse → ℕ
  estimated_output r =
      if has_calls r.tool_calls
      then agent.model.count_tokens (assistant r r.tool_calls ∷ [])
      else if is_given r.content
      then agent.model.count_tokens (assistant r [] ∷ [])
      else 1

  abbrev pub going_on : Run Progress → Run Turn
  going_on run = record {
    after = run.after;
    result = elim run.result [ fails f ↦ fails f | done p ↦ done (goes_on p) ];
    requests = run.requests;
    calls = run.calls;
  }

  abbrev pub replied : ℕ → ModelResponse → Progress → ModelRun
  replied n r p = record {
    reply = strip (text_of r.content);
    turns_used = n;
    input_tokens_used = p.input_tokens_used;
    output_tokens_used = p.output_tokens_used;
  }

  -- What follows a response whose tokens are charged.
  abbrev pub concluded : ℕ → ModelResponse → Progress → Database → Run Turn
  concluded n r p db =
      let used = p.tool_calls_used + length r.tool_calls in
      if has_calls r.tool_calls
      then (if ltb agent.config.max_tool_calls used
          then raised db (permanent "tool call limit exceeded")
          else going_on (
              run_calls r.tool_calls
                (record p {
                  history = p.history ++ assistant r r.tool_calls ∷ [];
                  tool_calls_used = used;
                })
                db))
      else if is_given r.content && not (strip (text_of r.content) == "")
      then record { after = db; result = done (replies (replied n r p)); requests = []; calls = [] }
      else raised db (permanent "model returned neither text nor tool calls")

  abbrev pub charged : ℕ → (estimate : ℕ) → ModelResponse → Progress → Database → Run Turn
  charged n estimate r p db =
      let input = p.input_tokens_used + max estimate r.prompt_tokens in
      let output = p.output_tokens_used + max (estimated_output r) r.completion_tokens in
      if ltb agent.config.max_task_input_tokens input
      then raised db (permanent "provider exceeded the task input token limit")
      else if ltb agent.config.max_task_output_tokens output
      then raised db (permanent "provider exceeded the task output token limit")
      else concluded n r (record p { input_tokens_used = input; output_tokens_used = output }) db

  abbrev pub generated : ℕ → (estimate : ℕ) → Generation → Progress → Database → Run Turn
  generated n estimate (fails_closed name) p db =
      raised db (permanent (concat "model call failed closed: " name))
  generated n estimate (breaks name) p db = raised db (fault name)
  generated n estimate breaks_off p db = raised db cancelled
  generated n estimate (responds r) p db = charged n estimate r p db

  -- One turn of the loop.
  unfoldable pub turn : ℕ → Progress → Database → Run Turn
  turn n p db =
      let request = request_for p in
      let estimate = estimated_input request in
      let marked = mark_inbox_model_started item.id (env.clock p.at) (arrive env p.at db) in
      if not (fits_context agent p.history)
      then raised db (permanent "model context hard limit exceeded")
      else if ltb (agent.config.max_task_output_tokens - p.output_tokens_used) 1
      then raised db (permanent "task output token limit exceeded")
      else if ltb agent.config.max_task_input_tokens (p.input_tokens_used + estimate)
      then raised db (permanent "task input token limit exceeded")
      else if not marked.1
      then raised marked.0 (permanent "inbox state changed before model provider I/O")
      else preceded (request ∷ []) [] (
          generated n estimate (agent.model.generate p.at request) (record p { at = p.at + 1 })
            marked.0)

  abbrev pub next_turn : Run Turn → (Progress → Database → Run ModelRun) → Run ModelRun
  next_turn run rest = elim run.result [
    | fails f ↦ record {
      after = run.after;
      result = fails f;
      requests = run.requests;
      calls = run.calls;
    }
    | done (replies r) ↦ record {
      after = run.after;
      result = done r;
      requests = run.requests;
      calls = run.calls;
    }
    | done (goes_on p) ↦ preceded run.requests run.calls (rest p run.after)
  ]

  -- The loop, with `left` turns to go, of which the first is the n-th.
  unfoldable pub turns : (left n : ℕ) → Progress → Database → Run ModelRun
  turns zero n p db = raised db (permanent "model turn limit exceeded")
  turns (suc left) n p db =
      next_turn (turn n p db) (λ (q : Progress) (d : Database). turns left (n + 1) q d)

  abbrev pub started : ℕ → List ModelMessage → Progress
  started k history = record {
    history = history;
    tool_calls_used = 0;
    navigations_used = 0;
    input_tokens_used = 0;
    output_tokens_used = 0;
    at = k;
  }

  unfoldable pub run_model_and_tools : ℕ → List ModelMessage → Database → Run ModelRun
  run_model_and_tools k history db = turns agent.config.max_model_turns 1 (started k history) db
