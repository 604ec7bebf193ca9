-- ===== src/Storage/Inbox.antt =====
-- storage/repository.py: the inbox, from the first sight of an event to its completion.
pub mod Lifecycle
pub mod Claim
use lemonbot.Prelude.{
  ℕ, suc, String, ◌+◌, Bool, true, false, not, ◌&&◌, ◌||◌, Option, none, some, List, [], ◌∷◌, ◌++◌,
  ltb, ◌==◌, string_eq, nat_eq, is_some, if_given, if◌then◌else◌, take_chars, Exception, Result, ok,
  err,
}
use lemonbot.Prelude.Json.{Fields, field, end, str, int}
use lemonbot.Domain.{
  Time, InboxState, InboundEvent, AuditRecord, EventKind, MessageRole, inbox_state_eq,
}
use lemonbot.Sql.{
  update_where, update_first, exists_where, select_where, first_where, first_by, next_id,
  count_where,
}
use lemonbot.Storage.Tables.{InboxRow, MessageRow, Database, add_audit, add_message}

-- domain/models.py: InboxItem
pub record InboxItem : Type 0 where
  pub id : ℕ
  pub event : InboundEvent
  pub state : InboxState
  pub attempts : ℕ
  pub claimed_at : Option Time

unfoldable pub inbox_item : InboxRow → InboxItem
inbox_item row = record {
  id = row.id;
  event = record {
    channel = row.channel;
    event_id = row.event_id;
    chat_id = row.chat_id;
    sender_id = row.sender_id;
    text = row.text;
    kind = row.kind;
    occurred_at = row.occurred_at;
    metadata = row.metadata_json;
  };
  state = row.state;
  attempts = row.attempts;
  claimed_at = row.claimed_at;
}

abbrev pub kind_value : EventKind → String
kind_value EventKind.text = "text"
kind_value EventKind.image = "image"
kind_value EventKind.file = "file"
kind_value EventKind.enter_chat = "enter_chat"
kind_value EventKind.system = "system"

abbrev pub state_value : InboxState → String
state_value InboxState.pending = "pending"
state_value InboxState.processing = "processing"
state_value InboxState.completed = "completed"
state_value InboxState.dead = "dead"

-- The unique constraint uq_inbox_channel_event.
abbrev pub has_key : String → String → InboxRow → Bool
has_key channel event_id row = row.channel == channel && row.event_id == event_id

abbrev pub inbox_row : InboundEvent → Time → ℕ → InboxRow
inbox_row event now id = record {
  id = id;
  channel = event.channel;
  event_id = event.event_id;
  chat_id = event.chat_id;
  sender_id = event.sender_id;
  kind = event.kind;
  text = event.text;
  occurred_at = event.occurred_at;
  metadata_json = event.metadata;
  state = InboxState.pending;
  attempts = 0;
  claimed_at = none;
  model_started_at = none;
  last_error = none;
  created_at = now;
  updated_at = now;
}

abbrev text_or_empty : Option String → String
text_or_empty none = ""
text_or_empty (some t) = t

abbrev user_message : InboundEvent → ℕ → MessageRow
user_message event id = record {
  id = id;
  channel = event.channel;
  chat_id = event.chat_id;
  sender_id = some event.sender_id;
  role = MessageRole.user;
  kind = event.kind;
  content = text_or_empty event.text;
  external_id = some event.event_id;
  occurred_at = event.occurred_at;
  metadata_json = event.metadata;
}

abbrev receive_audit : InboundEvent → Time → AuditRecord
receive_audit event now = record {
  action = "inbox.receive";
  outcome = "accepted";
  channel = some event.channel;
  chat_id = some event.chat_id;
  event_id = some event.event_id;
  message_id = none;
  rule_id = none;
  detail = field "kind" (str (kind_value event.kind)) end;
  occurred_at = now;
}

abbrev insert_inbox : InboxRow → Database → Database
insert_inbox row db = record db { inbox = db.inbox ++ row ∷ [] }

unfoldable pub record_inbound : InboundEvent → Time → Database → Database × Bool
record_inbound event now db =
    if exists_where (has_key event.channel event.event_id) db.inbox then (db, false) else (
      add_audit (receive_audit event now) (
          add_message (user_message event)
            (insert_inbox (inbox_row event now (next_id (λ r. r.id) db.inbox)) db)),
      true,
    )

abbrev exact_event : String → String → String → InboxRow → Bool
exact_event channel chat_id event_id row =
    row.channel == channel && (row.chat_id == chat_id && row.event_id == event_id)

abbrev any_empty : String → String → String → Bool
any_empty a b c = a == "" || (b == "" || c == "")

unfoldable pub has_inbound_event : String → String → String → Database → Bool
has_inbound_event channel chat_id event_id db =
    if any_empty channel chat_id event_id
    then false
    else exists_where (exact_event channel chat_id event_id) db.inbox

abbrev event_of : Option InboxRow → Option InboundEvent
event_of none = none
event_of (some row) = some (inbox_item row).event

unfoldable pub inbound_event : String → String → String → Database → Option InboundEvent
inbound_event channel chat_id event_id db =
    if any_empty channel chat_id event_id
    then none
    else event_of (first_where (exact_event channel chat_id event_id) db.inbox)

abbrev pub is_active : InboxRow → Bool
is_active row = row.state == InboxState.pending || row.state == InboxState.processing

-- ORDER BY occurred_at, id
abbrev pub precedes : InboxRow → InboxRow → Bool
precedes a b = ltb a.occurred_at b.occurred_at || (a.occurred_at == b.occurred_at && ltb a.id b.id)

abbrev pub blocks : InboxRow → InboxRow → Bool
blocks current earlier =
    earlier.channel == current.channel
    && (earlier.chat_id == current.chat_id && (is_active earlier && precedes earlier current))

abbrev pub is_eligible : Option String → List InboxRow → InboxRow → Bool
is_eligible channel inbox current =
    current.state == InboxState.pending
    && (not (exists_where (blocks current) inbox) && if_given channel (λ c. current.channel == c))

unfoldable pub candidate : Option String → List InboxRow → Option InboxRow
candidate channel inbox = first_by precedes (select_where (is_eligible channel inbox) inbox)

abbrev pub is_claimable : ℕ → InboxRow → Bool
is_claimable id row = row.id == id && row.state == InboxState.pending

abbrev pub claimed : Time → InboxRow → InboxRow
claimed now row = record row {
  state = InboxState.processing;
  attempts = row.attempts + 1;
  claimed_at = some now;
  updated_at = now;
}

abbrev item_of : Option InboxRow → Option InboxItem
item_of none = none
item_of (some row) = some (inbox_item row)

-- UPDATE … WHERE id = (candidate) AND state = 'pending' RETURNING id, and the row under that id.
unfoldable pub claim_row : ℕ → Time → Database → Database × Option InboxItem
claim_row id now db =
    let inbox' = update_where (is_claimable id) (claimed now) db.inbox in
    if exists_where (is_claimable id) db.inbox
    then (record db { inbox = inbox' }, item_of (first_where (λ r. r.id == id) inbox'))
    else (db, none)

unfoldable pub claim_next_inbox : Option String → Time → Database → Database × Option InboxItem
unfolding claim_row candidate
claim_next_inbox channel now db = elim (candidate channel db.inbox) [
  | none ↦ (db, none)
  | some row ↦ claim_row row.id now db
]

abbrev pub in_state : ℕ → InboxState → InboxRow → Bool
in_state id source row = row.id == id && row.state == source

unfoldable pub transition_inbox : ℕ → InboxState → InboxState → Time → Database → Database × Bool
transition_inbox id source target now db = (
  record db {
    inbox =
        update_where (in_state id source)
          (λ r. record r { state = target; claimed_at = none; updated_at = now }) db.inbox;
  },
  count_where (in_state id source) db.inbox == 1,
)

unfoldable pub complete_inbox : ℕ → Time → Database → Database × Bool
unfolding transition_inbox
complete_inbox id = transition_inbox id InboxState.processing InboxState.completed

abbrev pub is_unstarted : ℕ → InboxRow → Bool
is_unstarted id row = in_state id InboxState.processing row && not (is_some row.model_started_at)

abbrev already_started : Option InboxRow → Bool
already_started none = false
already_started (some row) = row.state == InboxState.processing && is_some row.model_started_at

unfoldable pub mark_inbox_model_started : ℕ → Time → Database → Database × Bool
mark_inbox_model_started id now db = (
  record db {
    inbox =
        update_where (is_unstarted id)
          (λ r. record r { model_started_at = some now; updated_at = now }) db.inbox;
  },
  count_where (is_unstarted id) db.inbox == 1
      || already_started (first_where (λ r. r.id == id) db.inbox),
)

-- What `fail_inbox` makes of a row in processing.
abbrev pub after_failure : Bool → ℕ → InboxRow → InboxState
after_failure retryable max_attempts row =
    if retryable && (not (is_some row.model_started_at) && ltb row.attempts max_attempts)
    then InboxState.pending
    else InboxState.dead

abbrev failure_audit : InboxRow → InboxState → String → Time → AuditRecord
failure_audit row next_state error now = record {
  action = "inbox.process";
  outcome = state_value next_state;
  channel = some row.channel;
  chat_id = some row.chat_id;
  event_id = some row.event_id;
  message_id = none;
  rule_id = none;
  detail = field "error" (str error) (field "attempts" (int row.attempts) end);
  occurred_at = now;
}

abbrev failed_row : InboxState → String → Time → InboxRow → InboxRow
failed_row next_state error now row = record row {
  state = next_state;
  claimed_at = none;
  last_error = some error;
  updated_at = now;
}

abbrev fail_row : ℕ → InboxRow → String → Bool → ℕ → Time → Database → Database × Result InboxState
fail_row id row error retryable max_attempts now db =
    let next_state = after_failure retryable max_attempts row in
    (
      add_audit (failure_audit row next_state error now) (record db {
        inbox = update_first (λ r. r.id == id) (failed_row next_state error now) db.inbox;
      }),
      ok next_state,
    )

unfoldable pub fail_inbox : ℕ → String → Bool → ℕ → Time → Database → Database × Result InboxState
fail_inbox id error retryable max_attempts now db = elim (first_where (λ r. r.id == id) db.inbox) [
  | none ↦ (db, err Exception.key_error)
  | some row ↦
      if row.state == InboxState.processing
      then fail_row id row (take_chars 2000 error) retryable max_attempts now db
      else (db, ok row.state)
]
