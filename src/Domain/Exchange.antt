-- ===== src/Domain/Exchange.antt =====
-- domain/models.py: what the agent exchanges with the model and with tools. The fields that only a
-- model's provider reads are left out.
use lemonbot.Prelude.{ℕ, String, Bool, true, false, Option, List, Eq, ◌≡◌, ◌↔◌, arith}
use lemonbot.Prelude.Json.{Fields}
use lemonbot.Domain.States.{MessageRole}

pub data DataClass : Type 0 where
  public conversation private_local secret : DataClass

abbrev data_class_beq : DataClass → DataClass → Bool
data_class_beq DataClass.public DataClass.public = true
data_class_beq DataClass.conversation DataClass.conversation = true
data_class_beq DataClass.private_local DataClass.private_local = true
data_class_beq DataClass.secret DataClass.secret = true
data_class_beq _ _ = false

pub data_class_beq_iff : (a b : DataClass) → (data_class_beq a b ≡ true) ↔ (a ≡ b)
data_class_beq_iff DataClass.public b = ground arith
data_class_beq_iff _ b = ground arith

instance abbrev pub data_class_eq : Eq DataClass
data_class_eq = record { equals = data_class_beq; equals_iff = data_class_beq_iff }

pub record ToolCall : Type 0 where
  pub call_id : String
  pub name : String
  pub arguments : Fields

pub record ModelMessage : Type 0 where
  pub role : MessageRole
  pub content : Option String
  pub name : Option String
  pub tool_call_id : Option String
  pub tool_calls : List ToolCall
  pub reasoning_content : Option String

pub record ModelResponse : Type 0 where
  pub content : Option String
  pub tool_calls : List ToolCall
  pub reasoning_content : Option String
  pub prompt_tokens : ℕ
  pub completion_tokens : ℕ

pub record ToolManifest : Type 0 where
  pub name : String
  pub input_schema : Fields
  pub action_kind : String
  pub side_effect : Bool
  pub allowed_data : List DataClass

pub record ModelRequest : Type 0 where
  pub messages : List ModelMessage
  pub tools : List ToolManifest
  pub max_tokens : ℕ
  pub deep : Bool
  pub correlation_id : Option String

pub record ToolContext : Type 0 where
  pub profile : String
  pub channel : String
  pub chat_id : String
  pub event_id : String
  pub principal_id : String
  pub granted_scopes : List String
  pub data_class : DataClass

pub record ToolResult : Type 0 where
  pub ok : Bool
  pub content : String
  pub metadata : Fields
  pub facts : List Fields
  pub artifacts : List String
  pub error_code : Option String
  pub truncated : Bool
  pub side_effect_committed : Bool
  pub state_unknown : Bool
