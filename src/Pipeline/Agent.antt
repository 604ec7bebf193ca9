-- ===== src/Pipeline/Agent.antt =====
-- orchestration/pipeline.py: the model, the tools and the limits that an `EventPipeline` is built with.
-- What the model's provider and the tools answer is a parameter.
pub mod Samples
use lemonbot.Prelude.{ℕ, String, Option, List, [], ◌∷◌, Result, Bool}
use lemonbot.Prelude.Json.{Fields}
use lemonbot.Domain.Exchange.{
  ModelMessage, ModelRequest, ModelResponse, ToolManifest, ToolContext, ToolResult,
}

-- The fields of `PipelineConfig` that the modelled methods read.
pub record PipelineConfig : Type 0 where
  pub max_model_turns : ℕ
  pub max_task_input_tokens : ℕ
  pub max_task_output_tokens : ℕ
  pub max_tool_calls : ℕ
  pub max_navigations : ℕ
  pub max_reply_chars : ℕ
  pub model_max_tokens : ℕ
  pub max_context_tokens : Option ℕ
  pub profile : String
  pub granted_tool_scopes : List String
  pub deep_sender_ids : List String

-- How a call ends that leaves the process: with its value, cancelled, or by an exception, of which
-- the code keeps the name of the type.
pub data Outside {ℓ} (A : Type ℓ) : Type ℓ where
  answers : A → Outside A
  is_cancelled : Outside A
  raises : String → Outside A

pub record Tool : Type 0 where
  pub manifest : ToolManifest
  pub invoke : (k : ℕ) → ToolContext → Fields → Outside ToolResult

-- How `generate` ends: by a response, by a BudgetError or ModelGatewayError, by another exception, or
-- cancelled.
pub data Generation : Type 0 where
  responds : ModelResponse → Generation
  fails_closed breaks : String → Generation
  breaks_off : Generation

-- A `ModelBackend`: `generate` is given the number of the transaction before it.
pub record Backend : Type 0 where
  pub count_tokens : List ModelMessage → ℕ
  pub context_tokens : ℕ
  pub generate : (k : ℕ) → ModelRequest → Generation

-- `ApprovalService`, with its `canonicalize_arguments`.
pub record Approver : Type 0 where
  pub profile : String
  pub default_ttl : ℕ
  pub canonicalize : Fields → Result (Fields × String × String)

-- `encode_manifests` is the JSON text of the manifests, `metadata` is `_tool_arguments_metadata`: the
-- digest and the summary of a tool's arguments. `rejects` is the exception's type when the arguments
-- do not match a JSON schema, and `find_urls` what a regular expression finds. `fresh` is `uuid4()`, `show_repr` is
-- `repr` of a text.
pub record Agent : Type 0 where
  pub config : PipelineConfig
  pub model : Backend
  pub tools : List (String × Tool)
  pub encode_manifests : List ToolManifest → String
  pub metadata : Fields → Result (String × String)
  pub rejects : (arguments schema : Fields) → Option String
  pub find_urls : String → List String
  pub show_repr : String → String
  pub approver : Option Approver
  pub fresh : ℕ → String
