-- ===== src/Storage/Outbox.antt =====
-- storage/repository.py: the outbox, from a durable reply to its delivery or quarantine.
mod Rows
pub mod Lifecycle
pub use Rows.*
use lemonbot.Prelude.{
  ℕ, String, ◌+◌, ◌*◌, Bool, true, false, not, ◌&&◌, ◌||◌, Option, none, some, List, [], ◌∷◌, ◌++◌,
  ltb, leb, ◌==◌, string_eq, nat_eq, bool_eq, is_some, is_text, if_given, if◌then◌else◌, take_chars,
  Exception, Result, ok, err, chars, strip,
}
use Prim.Native.String.{◌++◌ as concat}
use lemonbot.Prelude.Json.{Json, field, end, str, null, int}
use lemonbot.Domain.{
  Time, second, OutboxState, DeliveryStatus, DeliveryReceipt, OutboundMessage, AuditRecord,
  outbox_state_eq,
}
use lemonbot.Sql.{
  update_where, update_first, exists_where, select_where, first_where, first_by, next_id,
  count_where, Choice,
}
use lemonbot.Storage.Tables.{OutboxRow, Database, add_audit, add_message}

-- INSERT … ON CONFLICT DO NOTHING
abbrev pub insert_outbox : OutboundMessage → Time → List OutboxRow → List OutboxRow
insert_outbox message now outbox =
    if exists_where (conflicts message) outbox
    then outbox
    else outbox ++ outbox_row message now (next_id (λ r. r.id) outbox) ∷ []

-- The assistant's message is stored once for each outbox row.
abbrev store_message : OutboxRow → Database → Database
store_message row db =
    if exists_where (is_assistant_message row) db.messages
    then db
    else add_message (assistant_message row) db

abbrev finish_create : Option OutboxRow → Database → Database → Database × Result OutboxItem
finish_create none before db = (before, err Exception.runtime_error)
finish_create (some row) before db = (store_message row db, ok (outbox_item row))

module _ (select : Choice OutboxRow) where
  unfoldable pub create_outbox : OutboundMessage → Time → Database → Database × Result OutboxItem
  create_outbox message now db =
      let db' = record db { outbox = insert_outbox message now db.outbox } in
      finish_create (select.choose (conflicts message) db'.outbox) db db'

unfoldable pub next_outbox : Option String → Time → List OutboxRow → Option OutboxRow
next_outbox channel now outbox = first_by created_before (select_where (is_due channel now) outbox)

abbrev pub reserved_row : Time → OutboxRow → OutboxRow
reserved_row now row = record row {
  state = OutboxState.reserved;
  attempts = row.attempts + 1;
  reserved_at = some now;
  updated_at = now;
}

abbrev item_of : Option OutboxRow → Option OutboxItem
item_of none = none
item_of (some row) = some (outbox_item row)

unfoldable pub reserve_row : ℕ → Time → Database → Database × Option OutboxItem
reserve_row id now db =
    let test = at_state id OutboxState.pending in
    let outbox' = update_where test (reserved_row now) db.outbox in
    let db' = record db { outbox = outbox' } in
    if count_where test db.outbox == 1
    then (db', item_of (first_where (λ r. r.id == id) outbox'))
    else (db', none)

unfoldable pub reserve_next_outbox : Option String → Time → Database → Database × Option OutboxItem
unfolding reserve_row next_outbox
reserve_next_outbox channel now db = elim (next_outbox channel now db.outbox) [
  | none ↦ (db, none)
  | some row ↦ reserve_row row.id now db
]

-- UPDATE outbox SET … WHERE id = … AND state = …, and whether it changed one row.
abbrev update_at : ℕ → OutboxState → (OutboxRow → OutboxRow) → Database → Database × Bool
update_at id source set db = (
  record db { outbox = update_where (at_state id source) set db.outbox },
  count_where (at_state id source) db.outbox == 1,
)

unfoldable pub mark_dispatching : ℕ → Time → Database → Database × Bool
mark_dispatching id now = update_at id OutboxState.reserved λ r. record r {
  state = OutboxState.dispatching;
  dispatch_started_at = some now;
  updated_at = now;
}

abbrev pub receipt_state : DeliveryStatus → OutboxState
receipt_state DeliveryStatus.acknowledged = OutboxState.acknowledged
receipt_state DeliveryStatus.unknown = OutboxState.unknown
receipt_state DeliveryStatus.failed = OutboxState.dead

abbrev text_value : Option String → Json
text_value none = null
text_value (some t) = str t

abbrev deliver_audit : OutboxRow → OutboxState → DeliveryReceipt → Time → AuditRecord
deliver_audit row state receipt now = record {
  action = "outbox.deliver";
  outcome = outbox_value state;
  channel = some row.channel;
  chat_id = some row.chat_id;
  event_id = row.reply_to_event_id;
  message_id = some row.message_id;
  rule_id = none;
  detail =
      field "external_id" (text_value receipt.external_id)
        (field "detail" (text_value receipt.detail) end);
  occurred_at = now;
}

abbrev receipted : DeliveryReceipt → Time → OutboxRow → OutboxRow
receipted receipt now row = record row {
  state = receipt_state receipt.status;
  external_id = receipt.external_id;
  acknowledged_at = receipt.acknowledged_at;
  failure_detail = receipt.detail;
  updated_at = now;
}

abbrev receipt_on :
    ℕ → OutboxRow → DeliveryReceipt → Time → Database → Database × Result OutboxState
receipt_on id row receipt now db =
    if row.message_id == receipt.message_id
    then (if row.state == OutboxState.dispatching
        then (
          add_audit (deliver_audit row (receipt_state receipt.status) receipt now) (record db {
            outbox = update_first (λ r. r.id == id) (receipted receipt now) db.outbox;
          }),
          ok (receipt_state receipt.status),
        )
        else (db, ok row.state))
    else (db, err Exception.value_error)

unfoldable pub apply_receipt : ℕ → DeliveryReceipt → Time → Database → Database × Result OutboxState
apply_receipt id receipt now db = elim (first_where (λ r. r.id == id) db.outbox) [
  | none ↦ (db, err Exception.key_error)
  | some row ↦ receipt_on id row receipt now db
]

unfoldable pub mark_outbox_unknown : ℕ → String → Time → Database → Database × Bool
mark_outbox_unknown id detail now = update_at id OutboxState.dispatching λ r. record r {
  state = OutboxState.unknown;
  failure_detail = some (take_chars 2000 detail);
  updated_at = now;
}

unfoldable pub release_reserved : ℕ → String → ℕ → Time → Database → Database × Result Bool
release_reserved id detail retry_after_seconds now db =
    let (db', changed) =
      update_at id OutboxState.reserved
        (λ r. record r {
          state = OutboxState.pending;
          reserved_at = none;
          next_attempt_at = some (now + retry_after_seconds * second);
          failure_detail = some (take_chars 2000 detail);
          updated_at = now;
        })
        db in
    if ltb retry_after_seconds 1 || ltb 86400 retry_after_seconds
    then (db, err Exception.value_error)
    else (db', ok changed)

unfoldable pub mark_reserved_dead : ℕ → String → Time → Database → Database × Bool
mark_reserved_dead id detail now = update_at id OutboxState.reserved λ r. record r {
  state = OutboxState.dead;
  failure_detail = some (take_chars 2000 detail);
  updated_at = now;
}

-- The outcome of a manual reconciliation, which the source takes as a state's text.
abbrev reconciled_to : String → Option OutboxState
reconciled_to outcome =
    if outcome == "acknowledged"
    then some OutboxState.acknowledged
    else if outcome == "dead"
    then some OutboxState.dead
    else none

abbrev acknowledged_time : OutboxState → Time → OutboxRow → Option Time
acknowledged_time OutboxState.acknowledged now row = some now
acknowledged_time _ now row = row.acknowledged_at

abbrev reconciled : OutboxState → String → Time → OutboxRow → OutboxRow
reconciled state note now row = record row {
  state = state;
  updated_at = now;
  acknowledged_at = acknowledged_time state now row;
  failure_detail = some (take_chars 2000 (concat "manual reconciliation: " note));
}

abbrev reconcile_audit : OutboxRow → String → String → Time → AuditRecord
reconcile_audit row outcome note now = record {
  action = "outbox.reconcile";
  outcome = outcome;
  channel = some row.channel;
  chat_id = some row.chat_id;
  event_id = row.reply_to_event_id;
  message_id = some row.message_id;
  rule_id = none;
  detail = field "item_id" (int row.id) (field "operator_note" (str note) end);
  occurred_at = now;
}

abbrev reconcile_row : ℕ → OutboxState → String → String → Time → Database → Database × Result Bool
reconcile_row id state outcome note now db =
    elim (first_where (at_state id OutboxState.unknown) db.outbox) [
      | none ↦ (db, ok false)
      | some row ↦ (
        add_audit (reconcile_audit row outcome note now) (record db {
          outbox =
              update_first (at_state id OutboxState.unknown) (reconciled state note now) db.outbox;
        }),
        ok true,
      )
    ]

unfoldable pub reconcile_unknown_outbox :
    ℕ → String → String → Time → Database → Database × Result Bool
reconcile_unknown_outbox id outcome operator_note now db =
    let note = strip operator_note in
    elim (reconciled_to outcome) [
      | none ↦ (db, err Exception.value_error)
      | some state ↦
          if ltb (chars note) 3 || ltb 1000 (chars note)
          then (db, err Exception.value_error)
          else reconcile_row id state outcome note now db
    ]

-- The states that use up a quota: all but `dead`.
abbrev pub is_counted : OutboxRow → Bool
is_counted row = not (row.state == OutboxState.dead)

abbrev pub counts_since :
    Time → String → Option String → Option Bool → Option String → OutboxRow → Bool
counts_since since channel chat_id proactive excluded row =
    row.channel == channel
    && (leb since row.created_at
        && (is_counted row
            && (if_given chat_id (λ c. row.chat_id == c)
                && (if_given proactive (λ p. row.proactive == p)
                    && if_given excluded (λ m. not (row.message_id == m))))))

unfoldable pub count_outbound_since :
    Time → String → Option String → Option Bool → Option String → Database → ℕ
count_outbound_since since channel chat_id proactive excluded db =
    count_where (counts_since since channel chat_id proactive excluded) db.outbox
