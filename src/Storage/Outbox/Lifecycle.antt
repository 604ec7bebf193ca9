-- ===== src/Storage/Outbox/Lifecycle.antt =====
-- The steps that a row of the outbox takes under the repository's methods.
use lemonbot.Prelude.{
  ◌∙◌, ℕ, String, ◌≤◌, ◌≡◌, ◌≢◌, refl, Bool, true, false, Option, none, some, List, arith, ◌==◌,
  nat_eq, string_eq, Option-cases, Bool-cases, inl, inr, ltb, chars, strip, ◌||◌,
}
use lemonbot.Domain.{Time, OutboxState, DeliveryReceipt, OutboundMessage, outbox_state_eq}
use lemonbot.Sql.{first_where, exists_where, first_where-test, Choice, count_where}
use lemonbot.Sql.Evolution.{Evolves, Evolves-refl, Evolves-update, Evolves-write, Evolves-insert}
use lemonbot.Storage.Tables.{OutboxRow, Database}
use lemonbot.Storage.Outbox.{
  create_outbox, reserve_next_outbox, next_outbox, mark_dispatching, apply_receipt,
  mark_outbox_unknown, release_reserved, mark_reserved_dead, reconcile_unknown_outbox, conflicts,
  insert_outbox, at_state, reserved_row, receipted, reconciled, finish_create, reconcile_row,
  reconciled_to, is_assistant_message,
}

-- Whether the connector may have been called for the row: such a row is never sent again.
abbrev pub may_be_sent : OutboxState → Bool
may_be_sent OutboxState.pending = false
may_be_sent OutboxState.reserved = false
may_be_sent _ = true

-- The message's id, destination and text stay; a row that may have been sent never becomes one that can be sent; what is
-- acknowledged or dead is final; what is unknown does not go back to `dispatching`.
pub record Moves (r s : OutboxRow) : Type 0 where
  pub id : s.id ≡ r.id
  pub message_id : s.message_id ≡ r.message_id
  pub channel : s.channel ≡ r.channel
  pub chat_id : s.chat_id ≡ r.chat_id
  pub text : s.text ≡ r.text
  pub reply : s.reply_to_event_id ≡ r.reply_to_event_id
  pub created_at : s.created_at ≡ r.created_at
  pub proactive : s.proactive ≡ r.proactive
  pub sent : may_be_sent r.state ≡ true → may_be_sent s.state ≡ true
  pub settled :
      may_be_sent r.state ≡ true
      → r.state ≢ OutboxState.dispatching
      → s.state ≢ OutboxState.dispatching
  pub acknowledged : r.state ≡ OutboxState.acknowledged → s.state ≡ OutboxState.acknowledged
  pub dead : r.state ≡ OutboxState.dead → s.state ≡ OutboxState.dead
  pub attempts : r.attempts ≤ s.attempts

pub record IsNew (r : OutboxRow) : Type 0 where
  pub state : r.state ≡ OutboxState.pending
  pub attempts : r.attempts ≡ 0

pub Moves-refl : (r : OutboxRow) → Moves r r
Moves-refl r = record {
  id = refl;
  message_id = refl;
  channel = refl;
  chat_id = refl;
  text = refl;
  reply = refl;
  created_at = refl;
  proactive = refl;
  sent = λ e. e;
  settled = λ e n. n;
  acknowledged = λ e. e;
  dead = λ e. e;
  attempts = omega arith;
}

Same : (New : OutboxRow → Type 0) (xs : List OutboxRow) → Evolves Moves New xs xs
Same New = Evolves-refl Moves New Moves-refl

insert_outbox-Evolves :
    (message : OutboundMessage) (now : Time) (xs : List OutboxRow)
    → Evolves Moves IsNew xs (insert_outbox message now xs)
insert_outbox-Evolves message now xs = elim (Bool-cases (exists_where (conflicts message) xs)) [
  | inl e ↦ rw e (Same IsNew xs)
  | inr e ↦ rw e (Evolves-insert Moves IsNew Moves-refl xs _ (ground arith))
]

outbox-finish_create :
    (row : Option OutboxRow) (before db : Database)
    → Evolves Moves IsNew before.outbox db.outbox
    → Evolves Moves IsNew before.outbox (finish_create row before db).0.outbox
outbox-finish_create none before db h = Same IsNew before.outbox
outbox-finish_create (some row) before db h =
    elim (Bool-cases (exists_where (is_assistant_message row) db.messages)) [
      | inl e ↦ rw e h
      | inr e ↦ rw e h
    ]

pub create_outbox-Evolves :
    (select : Choice OutboxRow) (message : OutboundMessage) (now : Time) (db : Database)
    → Evolves Moves IsNew db.outbox (create_outbox select message now db).0.outbox
unfolding create_outbox
create_outbox-Evolves select message now db =
    outbox-finish_create _ db _ (insert_outbox-Evolves message now db.outbox)

pub reserve_next_outbox-Evolves :
    (New : OutboxRow → Type 0) (channel : Option String) (now : Time) (db : Database)
    → Evolves Moves New db.outbox (reserve_next_outbox channel now db).0.outbox
unfolding reserve_next_outbox
reserve_next_outbox-Evolves New channel now db =
    elim (Option-cases (next_outbox channel now db.outbox)) [
      | inl e ↦ rw (e, reserve_next_outbox) (Same New db.outbox)
      | inr (row, e) ↦
          let test = at_state row.id OutboxState.pending in
          let step =
            Evolves-update Moves New Moves-refl test (reserved_row now) db.outbox
              (λ r h. ground arith) in
          elim (Bool-cases (count_where test db.outbox == 1)) [
            | inl t ↦ rw (e, reserve_next_outbox) (rw t step)
            | inr t ↦ rw (e, reserve_next_outbox) (rw t step)
          ]
    ]

module _ (New : OutboxRow → Type 0) (id : ℕ) (now : Time) (db : Database) where
  pub mark_dispatching-Evolves : Evolves Moves New db.outbox (mark_dispatching id now db).0.outbox
  unfolding mark_dispatching
  mark_dispatching-Evolves =
      Evolves-update Moves New Moves-refl (at_state id OutboxState.reserved) _ db.outbox
        (λ r h. ground arith)

  pub mark_outbox_unknown-Evolves :
      (detail : String)
      → Evolves Moves New db.outbox (mark_outbox_unknown id detail now db).0.outbox
  unfolding mark_outbox_unknown
  mark_outbox_unknown-Evolves detail =
      Evolves-update Moves New Moves-refl (at_state id OutboxState.dispatching) _ db.outbox
        (λ r h. ground arith)

  pub mark_reserved_dead-Evolves :
      (detail : String) → Evolves Moves New db.outbox (mark_reserved_dead id detail now db).0.outbox
  unfolding mark_reserved_dead
  mark_reserved_dead-Evolves detail =
      Evolves-update Moves New Moves-refl (at_state id OutboxState.reserved) _ db.outbox
        (λ r h. ground arith)

  pub release_reserved-Evolves :
      (detail : String) (delay : ℕ)
      → Evolves Moves New db.outbox (release_reserved id detail delay now db).0.outbox
  unfolding release_reserved
  release_reserved-Evolves detail delay = elim (Bool-cases (ltb delay 1 || ltb 86400 delay)) [
    | inl e ↦ rw e (Same New db.outbox)
    | inr e ↦ rw e (
        Evolves-update Moves New Moves-refl (at_state id OutboxState.reserved) _ db.outbox
          (λ r h. ground arith))
  ]

receipted-Moves :
    (receipt : DeliveryReceipt) (now : Time) (r : OutboxRow)
    → (r.state == OutboxState.dispatching) ≡ true
    → Moves r (receipted receipt now r)
receipted-Moves receipt now r h = ground arith

pub apply_receipt-Evolves :
    (New : OutboxRow → Type 0) (id : ℕ) (receipt : DeliveryReceipt) (now : Time) (db : Database)
    → Evolves Moves New db.outbox (apply_receipt id receipt now db).0.outbox
unfolding apply_receipt
apply_receipt-Evolves New id receipt now db =
    elim (Option-cases (first_where (λ r. r.id == id) db.outbox)) [
      | inl e ↦ rw (e, apply_receipt) (Same New db.outbox)
      | inr (row, e) ↦ elim (Bool-cases (row.message_id == receipt.message_id)) [
        | inr m ↦ rw (e, apply_receipt) (rw m (Same New db.outbox))
        | inl m ↦ elim (Bool-cases (row.state == OutboxState.dispatching)) [
          | inr t ↦ rw (e, apply_receipt) (rw m (rw t (Same New db.outbox)))
          | inl t ↦
              rw (e, apply_receipt)
                (rw m (
                  rw t (
                    Evolves-write Moves New Moves-refl (λ r. r.id == id) _ db.outbox row e
                      (receipted-Moves receipt now row t))))
        ]
      ]
    ]

reconciled-Moves :
    (id : ℕ) (outcome : String) (state : OutboxState) (note : String) (now : Time) (r : OutboxRow)
    → reconciled_to outcome ≡ some state
    → at_state id OutboxState.unknown r ≡ true
    → Moves r (reconciled state note now r)
reconciled-Moves id outcome state note now r e h = ground arith

reconcile_row-Evolves :
    (New : OutboxRow → Type 0) (id : ℕ) (state : OutboxState) (outcome note : String) (now : Time)
    (db : Database)
    → reconciled_to outcome ≡ some state
    → Evolves Moves New db.outbox (reconcile_row id state outcome note now db).0.outbox
reconcile_row-Evolves New id state outcome note now db h =
    let test = at_state id OutboxState.unknown in
    elim (Option-cases (first_where test db.outbox)) [
      | inl e ↦ rw (e, reconcile_row) (Same New db.outbox)
      | inr (row, e) ↦
          rw (e, reconcile_row)
            (Evolves-write Moves New Moves-refl test _ db.outbox row e (
              reconciled-Moves id outcome state note now row h
                (first_where-test test db.outbox row e)))
    ]

pub reconcile_unknown_outbox-Evolves :
    (New : OutboxRow → Type 0) (id : ℕ) (outcome note : String) (now : Time) (db : Database)
    → Evolves Moves New db.outbox (reconcile_unknown_outbox id outcome note now db).0.outbox
unfolding reconcile_unknown_outbox
reconcile_unknown_outbox-Evolves New id outcome note now db =
    elim (Option-cases (reconciled_to outcome)) [
      | inl e ↦ rw (e, reconcile_unknown_outbox) (Same New db.outbox)
      | inr (state, e) ↦
          elim (Bool-cases (ltb (chars (strip note)) 3 || ltb 1000 (chars (strip note)))) [
            | inl t ↦ rw (e, reconcile_unknown_outbox) (rw t (Same New db.outbox))
            | inr t ↦
                rw (e, reconcile_unknown_outbox)
                  (rw t (reconcile_row-Evolves New id state outcome (strip note) now db e))
          ]
    ]

pub Moves-trans : (r s t : OutboxRow) → Moves r s → Moves s t → Moves r t
Moves-trans r s t a b = record {
  id = b.id ∙ a.id;
  message_id = b.message_id ∙ a.message_id;
  channel = b.channel ∙ a.channel;
  chat_id = b.chat_id ∙ a.chat_id;
  text = b.text ∙ a.text;
  reply = b.reply ∙ a.reply;
  created_at = b.created_at ∙ a.created_at;
  proactive = b.proactive ∙ a.proactive;
  sent = λ e. b.sent (a.sent e);
  settled = λ e n. b.settled (a.sent e) (a.settled e n);
  acknowledged = λ e. b.acknowledged (a.acknowledged e);
  dead = λ e. b.dead (a.dead e);
  attempts = omega (arith, a.attempts, b.attempts);
}
