-- ===== src/Storage/Inbox/Lifecycle.antt =====
-- The steps that a row of the inbox takes under `claim_next_inbox`, `complete_inbox`,
-- `mark_inbox_model_started`, `fail_inbox` and `recover_interrupted`.
use lemonbot.Prelude.{
  ℕ, String, ◌≤◌, ◌≡◌, ◌≢◌, refl, Bool, true, false, Option, arith, is_some, ◌==◌, ◌∙◌, nat_eq,
  Option-cases, Bool-cases, inl, inr, take_chars,
}
use lemonbot.Domain.{Time, InboundEvent, InboxState, inbox_state_eq}
use lemonbot.Sql.{first_where, exists_where}
use lemonbot.Sql.Evolution.{Evolves, Evolves-refl, Evolves-update, Evolves-write, Evolves-insert}
use lemonbot.Storage.Tables.{InboxRow, Database}
use lemonbot.Storage.Inbox.{
  record_inbound, claim_next_inbox, complete_inbox, mark_inbox_model_started, fail_inbox, candidate,
  is_claimable, claimed, in_state, has_key, is_unstarted, after_failure, failed_row,
}

-- Whether the model may have been called for the row.
abbrev pub is_started : InboxRow → Bool
is_started row = is_some row.model_started_at

-- The event's id, chat and time stay; a finished row stays finished; a row whose model call may have begun never
-- returns to `pending`; attempts are never taken back.
pub record Moves (r s : InboxRow) : Type 0 where
  pub id : s.id ≡ r.id
  pub channel : s.channel ≡ r.channel
  pub chat_id : s.chat_id ≡ r.chat_id
  pub event_id : s.event_id ≡ r.event_id
  pub occurred_at : s.occurred_at ≡ r.occurred_at
  pub completed : r.state ≡ InboxState.completed → s.state ≡ InboxState.completed
  pub dead : r.state ≡ InboxState.dead → s.state ≡ InboxState.dead
  pub started : is_started r ≡ true → is_started s ≡ true
  pub no_retry : is_started r ≡ true → r.state ≢ InboxState.pending → s.state ≢ InboxState.pending
  pub attempts : r.attempts ≤ s.attempts

pub record IsNew (r : InboxRow) : Type 0 where
  pub state : r.state ≡ InboxState.pending
  pub unstarted : is_started r ≡ false
  pub attempts : r.attempts ≡ 0

pub Moves-refl : (r : InboxRow) → Moves r r
Moves-refl r = record {
  id = refl;
  channel = refl;
  chat_id = refl;
  event_id = refl;
  occurred_at = refl;
  completed = λ e. e;
  dead = λ e. e;
  started = λ e. e;
  no_retry = λ e n. n;
  attempts = omega arith;
}

pub record_inbound-Evolves :
    (event : InboundEvent) (now : Time) (db : Database)
    → Evolves Moves IsNew db.inbox (record_inbound event now db).0.inbox
unfolding record_inbound
record_inbound-Evolves event now db =
    elim (Bool-cases (exists_where (has_key event.channel event.event_id) db.inbox)) [
      | inl e ↦ rw e (Evolves-refl Moves IsNew Moves-refl db.inbox)
      | inr e ↦ rw e (Evolves-insert Moves IsNew Moves-refl db.inbox _ (ground arith))
    ]

claimed-Moves :
    (id : ℕ) (now : Time) (r : InboxRow) → is_claimable id r ≡ true → Moves r (claimed now r)
claimed-Moves id now r h = ground arith

pub claim_next_inbox-Evolves :
    (New : InboxRow → Type 0) (channel : Option String) (now : Time) (db : Database)
    → Evolves Moves New db.inbox (claim_next_inbox channel now db).0.inbox
unfolding claim_next_inbox
claim_next_inbox-Evolves New channel now db = elim (Option-cases (candidate channel db.inbox)) [
  | inl e ↦ rw (e, claim_next_inbox) (Evolves-refl Moves New Moves-refl db.inbox)
  | inr (row, e) ↦ elim (Bool-cases (exists_where (is_claimable row.id) db.inbox)) [
    | inl t ↦
        rw (e, claim_next_inbox)
          (rw t (
            Evolves-update Moves New Moves-refl (is_claimable row.id) (claimed now) db.inbox
              (claimed-Moves row.id now)))
    | inr t ↦ rw (e, claim_next_inbox) (rw t (Evolves-refl Moves New Moves-refl db.inbox))
  ]
]

pub complete_inbox-Evolves :
    (New : InboxRow → Type 0) (id : ℕ) (now : Time) (db : Database)
    → Evolves Moves New db.inbox (complete_inbox id now db).0.inbox
unfolding complete_inbox
complete_inbox-Evolves New id now db =
    Evolves-update Moves New Moves-refl (in_state id InboxState.processing) _ db.inbox
      (λ r h. ground arith)

pub mark_inbox_model_started-Evolves :
    (New : InboxRow → Type 0) (id : ℕ) (now : Time) (db : Database)
    → Evolves Moves New db.inbox (mark_inbox_model_started id now db).0.inbox
unfolding mark_inbox_model_started
mark_inbox_model_started-Evolves New id now db =
    Evolves-update Moves New Moves-refl (is_unstarted id) _ db.inbox (λ r h. ground arith)

failed-Moves :
    (retryable : Bool) (max_attempts : ℕ) (error : String) (now : Time) (r : InboxRow)
    → (r.state == InboxState.processing) ≡ true
    → Moves r (failed_row (after_failure retryable max_attempts r) error now r)
failed-Moves retryable max_attempts error now r h = ground arith

pub fail_inbox-Evolves :
    (New : InboxRow → Type 0) (id : ℕ) (error : String) (retryable : Bool) (max_attempts : ℕ)
    (now : Time) (db : Database)
    → Evolves Moves New db.inbox (fail_inbox id error retryable max_attempts now db).0.inbox
unfolding fail_inbox
fail_inbox-Evolves New id error retryable max_attempts now db =
    elim (Option-cases (first_where (λ r. r.id == id) db.inbox)) [
      | inl e ↦ rw (e, fail_inbox) (Evolves-refl Moves New Moves-refl db.inbox)
      | inr (row, e) ↦ elim (Bool-cases (row.state == InboxState.processing)) [
        | inl t ↦
            rw (e, fail_inbox)
              (rw t (
                Evolves-write Moves New Moves-refl (λ r. r.id == id) _ db.inbox row e
                  (failed-Moves retryable max_attempts (take_chars 2000 error) now row t)))
        | inr t ↦ rw (e, fail_inbox) (rw t (Evolves-refl Moves New Moves-refl db.inbox))
      ]
    ]

pub Moves-trans : (r s t : InboxRow) → Moves r s → Moves s t → Moves r t
Moves-trans r s t a b = record {
  id = b.id ∙ a.id;
  channel = b.channel ∙ a.channel;
  chat_id = b.chat_id ∙ a.chat_id;
  event_id = b.event_id ∙ a.event_id;
  occurred_at = b.occurred_at ∙ a.occurred_at;
  completed = λ e. b.completed (a.completed e);
  dead = λ e. b.dead (a.dead e);
  started = λ e. b.started (a.started e);
  no_retry = λ e n. b.no_retry (a.started e) (a.no_retry e n);
  attempts = omega arith;
}
