-- ===== src/Domain.antt =====
-- domain/models.py: the records and enumerations that the subsystems share. A time is the number of
-- microseconds since the first instant that Python's `datetime` has, in UTC. Field validators that
-- bound lengths reject a value before it is built and are not repeated here.
mod States
pub mod Exchange
pub use States.*
use lemonbot.Prelude.{ℕ, String, Bool, Option}
use lemonbot.Prelude.Json.{Fields}

abbrev pub Time : Type 0
Time = ℕ

abbrev pub second : Time
second = 1000000

pub record InboundEvent : Type 0 where
  pub channel : String
  pub event_id : String
  pub chat_id : String
  pub sender_id : String
  pub text : Option String
  pub kind : EventKind
  pub occurred_at : Time
  pub metadata : Fields

pub record OutboundMessage : Type 0 where
  pub message_id : String
  pub channel : String
  pub chat_id : String
  pub text : String
  pub reply_to_event_id : Option String
  pub created_at : Time
  pub metadata : Fields

pub record DeliveryReceipt : Type 0 where
  pub message_id : String
  pub status : DeliveryStatus
  pub external_id : Option String
  pub acknowledged_at : Option Time
  pub detail : Option String

pub record ProposedAction : Type 0 where
  pub kind : String
  pub channel : Option String
  pub chat_id : Option String
  pub bound_channel : Option String
  pub bound_chat_id : Option String
  pub reason_event_id : Option String
  pub proactive : Bool
  pub side_effect : Bool
  pub tool_name : Option String
  pub arguments : Fields

pub record PolicyEvaluation : Type 0 where
  pub decision : PolicyDecision
  pub reason : String
  pub rule_id : String
  pub retry_after_seconds : Option ℕ

pub record AuditRecord : Type 0 where
  pub action : String
  pub outcome : String
  pub channel : Option String
  pub chat_id : Option String
  pub event_id : Option String
  pub message_id : Option String
  pub rule_id : Option String
  pub detail : Fields
  pub occurred_at : Time
