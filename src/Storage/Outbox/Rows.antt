-- ===== src/Storage/Outbox/Rows.antt =====
-- The rows of the outbox as the repository's callers see them, and the tests of its WHERE clauses.
use lemonbot.Prelude.{
  ℕ, String, Bool, true, false, ◌&&◌, ◌||◌, Option, none, some, ltb, leb, ◌==◌, string_eq, nat_eq,
  is_text, if_given,
}
use lemonbot.Prelude.Json.{get_flag}
use lemonbot.Domain.{
  Time, OutboxState, OutboundMessage, EventKind, MessageRole, outbox_state_eq, message_role_eq,
}
use lemonbot.Storage.Tables.{OutboxRow, MessageRow}

-- domain/models.py: OutboxItem
pub record OutboxItem : Type 0 where
  pub id : ℕ
  pub message : OutboundMessage
  pub state : OutboxState
  pub attempts : ℕ
  pub reserved_at : Option Time
  pub dispatch_started_at : Option Time

unfoldable pub outbox_item : OutboxRow → OutboxItem
outbox_item row = record {
  id = row.id;
  message = record {
    message_id = row.message_id;
    channel = row.channel;
    chat_id = row.chat_id;
    text = row.text;
    reply_to_event_id = row.reply_to_event_id;
    created_at = row.created_at;
    metadata = row.metadata_json;
  };
  state = row.state;
  attempts = row.attempts;
  reserved_at = row.reserved_at;
  dispatch_started_at = row.dispatch_started_at;
}

abbrev pub outbox_value : OutboxState → String
outbox_value OutboxState.pending = "pending"
outbox_value OutboxState.reserved = "reserved"
outbox_value OutboxState.dispatching = "dispatching"
outbox_value OutboxState.acknowledged = "acknowledged"
outbox_value OutboxState.unknown = "unknown"
outbox_value OutboxState.dead = "dead"

-- The two unique constraints, uq_outbox_message_id and uq_outbox_one_reply_per_event. NULL is
-- distinct from NULL.
abbrev pub same_reply : String → Option String → OutboxRow → Bool
same_reply channel none row = false
same_reply channel (some event) row = row.channel == channel && is_text row.reply_to_event_id event

abbrev pub conflicts : OutboundMessage → OutboxRow → Bool
conflicts message row =
    row.message_id == message.message_id || same_reply message.channel message.reply_to_event_id row

abbrev pub outbox_row : OutboundMessage → Time → ℕ → OutboxRow
outbox_row message now id = record {
  id = id;
  message_id = message.message_id;
  channel = message.channel;
  chat_id = message.chat_id;
  text = message.text;
  reply_to_event_id = message.reply_to_event_id;
  metadata_json = message.metadata;
  proactive = get_flag message.metadata "proactive";
  state = OutboxState.pending;
  attempts = 0;
  next_attempt_at = none;
  reserved_at = none;
  dispatch_started_at = none;
  acknowledged_at = none;
  external_id = none;
  failure_detail = none;
  created_at = message.created_at;
  updated_at = now;
}

abbrev pub assistant_message : OutboxRow → ℕ → MessageRow
assistant_message row id = record {
  id = id;
  channel = row.channel;
  chat_id = row.chat_id;
  sender_id = none;
  role = MessageRole.assistant;
  kind = EventKind.text;
  content = row.text;
  external_id = some row.message_id;
  occurred_at = row.created_at;
  metadata_json = row.metadata_json;
}

abbrev pub is_assistant_message : OutboxRow → MessageRow → Bool
is_assistant_message row message =
    message.channel == row.channel
    && (is_text message.external_id row.message_id && message.role == MessageRole.assistant)

-- ORDER BY created_at, id
abbrev pub created_before : OutboxRow → OutboxRow → Bool
created_before a b =
    ltb a.created_at b.created_at || (a.created_at == b.created_at && ltb a.id b.id)

abbrev due : Option Time → Time → Bool
due none now = true
due (some at) now = leb at now

abbrev pub is_due : Option String → Time → OutboxRow → Bool
is_due channel now row =
    row.state == OutboxState.pending
    && (due row.next_attempt_at now && if_given channel (λ c. row.channel == c))

abbrev pub at_state : ℕ → OutboxState → OutboxRow → Bool
at_state id source row = row.id == id && row.state == source
