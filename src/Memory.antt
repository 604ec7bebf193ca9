-- ===== src/Memory.antt =====
-- memory/models.py: what is remembered of a conversation. Floating-point numbers are a parameter.
pub mod Context
use lemonbot.Prelude.{ℕ, String, Bool, true, false, Option, List}
use lemonbot.Domain.{Time, MessageRole}
use lemonbot.Domain.Exchange.{ModelMessage}

pub record ConversationTurn : Type 0 where
  pub message_id : String
  pub event_id : Option String
  pub channel : String
  pub chat_id : String
  pub role : MessageRole
  pub content : String
  pub occurred_at : Time

pub data MemoryKind : Type 0 where
  summary fact preference commitment episode : MemoryKind

abbrev pub is_commitment : MemoryKind → Bool
is_commitment MemoryKind.commitment = true
is_commitment _ = false

-- The fields that the context's builder reads.
pub record MemoryRecord (Float : Type 0) : Type 0 where
  pub memory_id : String
  pub channel : String
  pub chat_id : String
  pub kind : MemoryKind
  pub text : String
  pub source_message_ids : List String
  pub importance : Float
  pub created_at : Time

pub record SearchHit (Float : Type 0) : Type 0 where
  pub memory : MemoryRecord Float
  pub score : Float

pub record ContextBundle : Type 0 where
  pub messages : List ModelMessage
  pub memory_ids : List String
  pub estimated_tokens : ℕ
  pub omitted_turns : ℕ
  pub omitted_memories : ℕ
  pub truncated : Bool
