-- ===== src/Storage/History/Once.antt =====
-- The unique keys of the inbox and of the outbox: an event is recorded once, a message has one row,
-- and an event has at most one reply.
use lemonbot.Prelude.{
  ℕ, String, ◌≤◌, ◌≡◌, ◌∙◌, refl, List, [], ◌∷◌, true, false, arith, string_eq, eq_iff, Bool-cases,
  inl, inr,
}
use lemonbot.Domain.{Time, InboundEvent}
use lemonbot.Sql.{exists_where, count_where, count_where-update, count_where-insert, next_id}
use lemonbot.Sql.Evolution.{Evolves, count-Evolves}
use lemonbot.Storage.Tables.{Database, InboxRow}
use lemonbot.Storage.Inbox.{has_key, record_inbound, inbox_row}
use lemonbot.Storage.Inbox.Lifecycle as Inbox
use lemonbot.Storage.Recovery.{recover_interrupted}
use lemonbot.Storage.History.Frames.{inbox-tool_step, inbox-outbox_step, inbox-other_step}
use lemonbot.Storage.History.{
  Call, InboxCall, Choices, inbox_step, step, run, on_inbox, on_outbox, on_tools, on_other,
  recovers, records, claims, completes, starts, fails,
}

abbrev event_count : String → String → List InboxRow → ℕ
event_count channel event_id = count_where (has_key channel event_id)

-- At most one row for each channel and event id.
abbrev pub OncePerEvent : List InboxRow → Type 0
OncePerEvent inbox = (channel event_id : String) → event_count channel event_id inbox ≤ 1

module _ (channel event_id : String) where
  has_key-conflicts :
      (event : InboundEvent) (now id : ℕ)
      → has_key channel event_id (inbox_row event now id) ≡ true
      → (r : InboxRow) → has_key event.channel event.event_id r ≡ false
      → has_key channel event_id r ≡ false
  has_key-conflicts event now id h r n = ground (
    arith,
    eq_iff event.channel channel,
    eq_iff event.event_id event_id,
    eq_iff r.channel channel,
    eq_iff r.event_id event_id,
    eq_iff r.channel event.channel,
    eq_iff r.event_id event.event_id,
  )

  record_inbound-once :
      (event : InboundEvent) (now : Time) (db : Database)
      → event_count channel event_id db.inbox ≤ 1
      → event_count channel event_id (record_inbound event now db).0.inbox ≤ 1
  unfolding record_inbound
  record_inbound-once event now db u =
      let key = has_key event.channel event.event_id in
      elim (Bool-cases (exists_where key db.inbox)) [
        | inl e ↦ rw e u
        | inr e ↦ rw e (
            count_where-insert (has_key channel event_id) key db.inbox
              (inbox_row event now (next_id (λ r. r.id) db.inbox)) e
              (has_key-conflicts event now (next_id (λ r. r.id) db.inbox)) u)
      ]

  event_count-Moves :
      (xs ys : List InboxRow)
      → Evolves Inbox.Moves (λ _. ⊥) xs ys
      → event_count channel event_id xs ≤ 1
      → event_count channel event_id ys ≤ 1
  event_count-Moves xs ys e u =
      rw
        (count-Evolves Inbox.Moves (has_key channel event_id) (λ x y m. rw (m.channel, m.event_id))
          xs ys e)
        u

  inbox_step-once :
      (now : Time) (c : InboxCall) (db : Database)
      → event_count channel event_id db.inbox ≤ 1
      → event_count channel event_id (inbox_step now c db).inbox ≤ 1
  unfolding inbox_step
  inbox_step-once now (records event) db u = record_inbound-once event now db u
  inbox_step-once now (claims c) db u =
      event_count-Moves db.inbox _ (Inbox.claim_next_inbox-Evolves _ c now db) u
  inbox_step-once now (completes id) db u =
      event_count-Moves db.inbox _ (Inbox.complete_inbox-Evolves _ id now db) u
  inbox_step-once now (starts id) db u =
      event_count-Moves db.inbox _ (Inbox.mark_inbox_model_started-Evolves _ id now db) u
  inbox_step-once now (fails id error retryable max_attempts) db u =
      event_count-Moves db.inbox _
        (Inbox.fail_inbox-Evolves _ id error retryable max_attempts now db) u

  recover-once :
      (stale now : Time) (db : Database)
      → event_count channel event_id (recover_interrupted stale now db).0.inbox
        ≡ event_count channel event_id db.inbox
  unfolding recover_interrupted
  recover-once stale now db =
      count_where-update (has_key channel event_id) _ _ _ (λ r _. refl)
      ∙ count_where-update (has_key channel event_id) _ _ db.inbox (λ r _. refl)

  inbox_step_once :
      (select : Choices) (c : Time × Call) (db : Database)
      → event_count channel event_id db.inbox ≤ 1
      → event_count channel event_id (step select c db).inbox ≤ 1
  unfolding step
  inbox_step_once select (now, on_inbox c) db u = inbox_step-once now c db u
  inbox_step_once select (now, on_outbox c) db u = rw (inbox-outbox_step select now db c) u
  inbox_step_once select (now, on_tools c) db u = rw (inbox-tool_step now db c) u
  inbox_step_once select (now, on_other c) db u = rw (inbox-other_step select now db c) u
  inbox_step_once select (now, recovers stale) db u = rw (recover-once stale now db) u

  run_once :
      (select : Choices) (cs : List (Time × Call)) (db : Database)
      → event_count channel event_id db.inbox ≤ 1
      → event_count channel event_id (run select cs db).inbox ≤ 1
  unfolding run
  run_once select [] db u = u
  run_once select (c ∷ cs) db u =
      run_once select cs (step select c db) (inbox_step_once select c db u)

-- If no event is recorded twice in a database, no history records one twice: each channel and event
-- id keeps at most one inbox row.
pub run-OncePerEvent :
    (select : Choices) (cs : List (Time × Call)) (db : Database)
    → OncePerEvent db.inbox
    → OncePerEvent (run select cs db).inbox
run-OncePerEvent select cs db u channel event_id =
    run_once channel event_id select cs db (u channel event_id)
