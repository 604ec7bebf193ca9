-- ===== src/Storage/History/SentOnce.antt =====
-- A message is handed to the connector at most once.
use lemonbot.Prelude.{ℕ, ◌≤◌, ◌≡◌, refl, sym, subst, List, true, arith, nat_eq}
use lemonbot.Domain.{Time, OutboxState, outbox_state_eq}
use lemonbot.Sql.{count_where, All-update_each, exists_where-of_one}
use lemonbot.Sql.Evolution.{exists-Evolves}
use lemonbot.Storage.Tables.{Database}
use lemonbot.Storage.Outbox.{mark_dispatching, at_state}
use lemonbot.Storage.Outbox.Lifecycle as Outbox
use lemonbot.Storage.Outbox.Lifecycle.{may_be_sent}
use lemonbot.Storage.History.Keys.{step-once}
use lemonbot.Storage.History.Occurrences.{Single, occurrences-Single}
use lemonbot.Storage.History.Sent.{
  hands_over, handovers, has_row_id, has_row_id-IsKey, IsSent, Sent, step-Sent, hands_over-Sent,
  All-of_count,
}
use lemonbot.Storage.History.{Call, Choices, outbox_step, step, on_outbox, dispatches}

module _ (id : ℕ) where
  -- Where ids are unique, a row that `mark_dispatching` returns true for is sent.
  Sent-mark_dispatching :
      (now : Time) (db : Database)
      → count_where (has_row_id id) db.outbox ≤ 1
      → (mark_dispatching id now db).1 ≡ true
      → Sent id (mark_dispatching id now db).0.outbox
  unfolding mark_dispatching
  Sent-mark_dispatching now db u h =
      let test = at_state id OutboxState.reserved in
      record {
        exists =
            exists-Evolves Outbox.Moves (λ _. ⊥) (has_row_id id) (λ r s m. rw m.id) db.outbox _
              (Outbox.mark_dispatching-Evolves _ id now db)
              (exists_where-of_one test (has_row_id id) db.outbox (λ r t. ground arith) h);
        sent =
            All-update_each (λ r. has_row_id id r ≡ true → test r ≡ true) (IsSent id) test _
              db.outbox (λ r t p e. refl) (λ r t p e. let reserved = p e in absurd (cc))
              (All-of_count test (has_row_id id) (λ r t. ground arith) db.outbox (ground arith));
      }

  Sent-hands_over :
      (select : Choices) (c : Time × Call) (db : Database)
      → count_where (has_row_id id) db.outbox ≤ 1
      → hands_over id c db ≡ true
      → Sent id (step select c db).outbox
  unfolding step outbox_step
  Sent-hands_over select (now, on_outbox (dispatches i)) db u h =
      let same : i ≡ id = ground arith in
      let marked : (mark_dispatching i now db).1 ≡ true = ground arith in
      subst (λ j. Sent id (mark_dispatching j now db).0.outbox) (sym same)
        (Sent-mark_dispatching now db u
          (subst (λ j. (mark_dispatching j now db).1 ≡ true) same marked))
  Sent-hands_over select _ db u h = absurd (cc)

  unfoldable hands_over-Single : (select : Choices) → Single select (hands_over id)
  hands_over-Single select = record {
    Sound = λ db. count_where (has_row_id id) db.outbox ≤ 1;
    Spent = λ db. Sent id db.outbox;
    sound = λ c db u. step-once (has_row_id id) (has_row_id-IsKey id) select c db u;
    spends = λ c db u h. Sent-hands_over select c db u h;
    stays = λ c db s. step-Sent id select c db s;
    misses = λ c db s. hands_over-Sent id c db s;
  }

-- If the ids of the outbox are unique, then in any history, whoever makes its calls and in whatever
-- order, `mark_dispatching` returns true at most once for a row: a message is handed to the
-- connector at most once.
pub handovers_once :
    (select : Choices) (id : ℕ) (cs : List (Time × Call)) (db : Database)
    → count_where (has_row_id id) db.outbox ≤ 1
    → handovers select id cs db ≤ 1
unfolding hands_over-Single
handovers_once select id cs db u =
    occurrences-Single select (hands_over id) (hands_over-Single id select) cs db u
