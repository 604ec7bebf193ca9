-- ===== src/Storage/History/OneReply.antt =====
-- The unique keys of the outbox: a message has one row, and an event has at most one reply.
use lemonbot.Prelude.{
  ℕ, String, ◌≤◌, ◌≡◌, refl, List, Bool, true, false, ◌&&◌, Option, none, some, arith, ◌==◌,
  string_eq, eq_iff, is_text,
}
use lemonbot.Domain.{Time, OutboundMessage}
use lemonbot.Sql.{count_where}
use lemonbot.Storage.Tables.{Database, OutboxRow}
use lemonbot.Storage.Outbox.{conflicts, same_reply, outbox_row}
use lemonbot.Storage.History.Keys.{IsKey, exclusive-IsKey, run-once}
use lemonbot.Storage.History.{Call, Choices, run}

abbrev has_message_id : String → OutboxRow → Bool
has_message_id id row = row.message_id == id

has_message_id-IsKey : (id : String) → IsKey (has_message_id id)
has_message_id-IsKey id =
    exclusive-IsKey (has_message_id id) (λ r s m. rw m.message_id)
      (λ message now n h r c. ground (
        arith,
        eq_iff message.message_id id,
        eq_iff r.message_id id,
        eq_iff r.message_id message.message_id,
      ))

reply_exclusive :
    (channel event from : String) (o p : Option String) (r : OutboxRow)
    → r.reply_to_event_id ≡ p
    → (from == channel && is_text o event) ≡ true
    → same_reply from o r ≡ false
    → same_reply channel (some event) r ≡ false
reply_exclusive channel event from none p r e h c = ground (arith, eq_iff from channel)
reply_exclusive channel event from (some m) none r e h c = rw e (ground arith)
reply_exclusive channel event from (some m) (some q) r e h c = ground (
  arith,
  eq_iff from channel,
  eq_iff m event,
  eq_iff q event,
  eq_iff q m,
  eq_iff r.channel channel,
  eq_iff r.channel from,
)

replies_exclusive :
    (channel event : String) (message : OutboundMessage) (now n : ℕ)
    → same_reply channel (some event) (outbox_row message now n) ≡ true
    → (r : OutboxRow) → conflicts message r ≡ false
    → same_reply channel (some event) r ≡ false
replies_exclusive channel event message now n h r c =
    reply_exclusive channel event message.channel message.reply_to_event_id r.reply_to_event_id r
      refl h (ground arith)

replies-IsKey : (channel event : String) → IsKey (same_reply channel (some event))
replies-IsKey channel event =
    exclusive-IsKey (same_reply channel (some event)) (λ r s m. rw (m.channel, m.reply))
      (replies_exclusive channel event)

-- At most one row for each message id, and at most one reply to each event of a channel.
pub record OneReply (outbox : List OutboxRow) : Type 0 where
  pub messages : (id : String) → count_where (λ r. r.message_id == id) outbox ≤ 1
  pub replies : (channel event : String) → count_where (same_reply channel (some event)) outbox ≤ 1

-- If the outbox has at most one row for each message id and at most one reply to each event of a
-- channel, so it has after any history, whichever rows unordered queries return.
pub run-OneReply :
    (select : Choices) (cs : List (Time × Call)) (db : Database)
    → OneReply db.outbox
    → OneReply (run select cs db).outbox
run-OneReply select cs db u = record {
  messages = λ id. run-once _ (has_message_id-IsKey id) select cs db (u.messages id);
  replies = λ channel event.
      run-once _ (replies-IsKey channel event) select cs db (u.replies channel event);
}
