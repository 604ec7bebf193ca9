-- ===== src/Pipeline/Agent/Samples.antt =====
-- An agent with one tool, whose model counts characters.
use lemonbot.Prelude.{
  ℕ, ◌+◌, String, true, false, Option, none, some, List, [], ◌∷◌, ok, ◌==◌, nat_eq, if◌then◌else◌,
  chars,
}
use lemonbot.Prelude.Json.{field, end, str}
use lemonbot.Domain.Exchange.{
  ModelMessage, ModelRequest, ToolCall, ToolManifest, ToolResult, DataClass,
}
use lemonbot.Pipeline.Agent.{Agent, PipelineConfig, Tool, answers, Generation, responds}

abbrev pub text_size : Option String → ℕ
text_size none = 0
text_size (some s) = chars s

abbrev pub tokens : List ModelMessage → ℕ
tokens [] = 0
tokens (m ∷ ms) = text_size m.content + tokens ms

abbrev pub lookup_call : ToolCall
lookup_call = record { call_id = "c1"; name = "lookup"; arguments = field "q" (str "x") end }

-- The model first asks for the tool, and then answers.
abbrev asks_then_answers : ℕ → ModelRequest → Generation
asks_then_answers k request = responds (record {
  content = if k == 0 then none else some "done";
  tool_calls = if k == 0 then lookup_call ∷ [] else [];
  reasoning_content = none;
  prompt_tokens = 10;
  completion_tokens = 5;
})

abbrev lookup_manifest : ToolManifest
lookup_manifest = record {
  name = "lookup";
  input_schema = end;
  action_kind = "mcp_read";
  side_effect = false;
  allowed_data = DataClass.conversation ∷ [];
}

abbrev lookup_result : ToolResult
lookup_result = record {
  ok = true;
  content = "found";
  metadata = end;
  facts = [];
  artifacts = [];
  error_code = none;
  truncated = false;
  side_effect_committed = false;
  state_unknown = false;
}

abbrev pub lookup_tool : Tool
lookup_tool = record {
  manifest = lookup_manifest;
  invoke = λ k context arguments. answers lookup_result;
}

abbrev pub config : PipelineConfig
config = record {
  max_model_turns = 8;
  max_task_input_tokens = 4096;
  max_task_output_tokens = 256;
  max_tool_calls = 2;
  max_navigations = 1;
  max_reply_chars = 3000;
  model_max_tokens = 100;
  max_context_tokens = some 300;
  profile = "default";
  granted_tool_scopes = [];
  deep_sender_ids = [];
}

abbrev pub agent : Agent
agent = record {
  config = config;
  model = record { count_tokens = tokens; context_tokens = 100000; generate = asks_then_answers };
  tools = ("lookup", lookup_tool) ∷ [];
  encode_manifests = λ ms. "[]";
  metadata = λ arguments. ok ("digest", "summary");
  rejects = λ arguments schema. none;
  find_urls = λ s. [];
  show_repr = λ s. s;
  approver = none;
  fresh = λ k. "x1";
}
