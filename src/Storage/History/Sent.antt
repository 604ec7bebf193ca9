-- ===== src/Storage/History/Sent.antt =====
-- Rows of the outbox that were handed to the connector: `mark_dispatching` returned true for them.
use lemonbot.Prelude.{
  ℕ, ◌≤◌, ◌≡◌, ◌≢◌, refl, List, [], ◌∷◌, Bool, true, false, ◌&&◌, arith, ◌==◌, nat_eq, Bool-cases,
  inl, inr, All, All-map,
}
use lemonbot.Domain.{Time, OutboundMessage, OutboxState, outbox_state_eq}
use lemonbot.Sql.{
  exists_where, count_where, count_where-zero, count_where-append, next_id, next_id_above,
}
use lemonbot.Sql.Evolution.{
  Evolves, Evolves-refl, Evolves-insert, Evolves-update, Evolves-trans, All-Evolves, exists-Evolves,
}
use lemonbot.Storage.Tables.{Database, OutboxRow}
use lemonbot.Storage.Outbox.{
  conflicts, insert_outbox, outbox_row, create_outbox, mark_dispatching, at_state,
}
use lemonbot.Storage.Outbox.Lifecycle as Outbox
use lemonbot.Storage.Outbox.Lifecycle.{may_be_sent}
use lemonbot.Storage.Recovery.{recover_interrupted}
use lemonbot.Storage.History.Frames.{outbox-inbox_step, outbox-tool_step, outbox-other_step}
use lemonbot.Storage.History.Keys.{IsKey}
use lemonbot.Storage.History.Occurrences.{occurrences}
use lemonbot.Storage.History.{
  Call, OutboxCall, Choices, outbox_step, step, on_inbox, on_outbox, on_tools, on_other, recovers,
  creates, reserves, dispatches, receives, doubts, kills, releases, reconciles,
}

-- Whether a call is a `mark_dispatching` of the row that returns true.
abbrev pub hands_over : ℕ → Time × Call → Database → Bool
hands_over id (now, on_outbox (dispatches i)) db = i == id && (mark_dispatching i now db).1
hands_over id _ db = false

-- How many calls of a history hand the row over.
abbrev pub handovers : Choices → ℕ → List (Time × Call) → Database → ℕ
handovers select id = occurrences select (hands_over id)

module _ {A : Type 0} (P Q : A → Bool) (sub : (x : A) → P x ≡ true → Q x ≡ true) where
  count_where-le : (xs : List A) → count_where P xs ≤ count_where Q xs
  unfolding count_where
  count_where-le [] = omega arith
  count_where-le (x ∷ xs) = ground (arith, sub x, count_where-le xs)

  -- If no more rows pass a weaker test, it is not weaker.
  pub All-of_count :
      (xs : List A) → count_where Q xs ≤ count_where P xs → All (λ x. Q x ≡ true → P x ≡ true) xs
  unfolding count_where
  All-of_count [] h = tt
  All-of_count (x ∷ xs) h = (
    ground (arith, count_where-le xs),
    All-of_count xs (ground (arith, sub x, count_where-le xs)),
  )

module _ (id : ℕ) where
  abbrev pub has_row_id : OutboxRow → Bool
  has_row_id r = r.id == id

  fresh_count : (xs : List OutboxRow) → next_id (λ r. r.id) xs ≡ id → count_where has_row_id xs ≡ 0
  fresh_count xs e =
      count_where-zero has_row_id xs
        (All-map (λ r l. ground arith) xs (next_id_above (λ r. r.id) xs))

  pub has_row_id-IsKey : IsKey has_row_id
  has_row_id-IsKey = record {
    kept = λ r s m. rw m.id;
    inserted = λ message now xs u. elim (Bool-cases (exists_where (conflicts message) xs)) [
      | inl e ↦ rw e u
      | inr e ↦ elim (Bool-cases (next_id (λ r. r.id) xs == id)) [
        | inl f ↦
            let none_yet = fresh_count xs (ground arith) in
            rw e (
              rw
                (
                  count_where-append has_row_id xs
                      (outbox_row message now (next_id (λ r. r.id) xs)),
                  f,
                )
                (omega arith))
        | inr f ↦ rw e (
            rw
              (
                count_where-append has_row_id xs (outbox_row message now (next_id (λ r. r.id) xs)),
                f,
              )
              (omega arith))
      ]
    ];
  }

  -- The row is no longer one that can be handed over.
  abbrev pub IsSent : OutboxRow → Type 0
  IsSent r = has_row_id r ≡ true → may_be_sent r.state ≡ true

  pub record Sent (rows : List OutboxRow) : Type 0 where
    pub exists : exists_where has_row_id rows ≡ true
    pub sent : All IsSent rows

  IsSent-Moves : (r s : OutboxRow) → IsSent r → Outbox.Moves r s → IsSent s
  IsSent-Moves r s h m e = m.sent (h (rw m.id at e))

  Sent-Evolves : (xs ys : List OutboxRow) → Sent xs → Evolves Outbox.Moves IsSent xs ys → Sent ys
  Sent-Evolves xs ys s e = record {
    exists = exists-Evolves Outbox.Moves IsSent has_row_id (λ r t m. rw m.id) xs ys e s.exists;
    sent = All-Evolves Outbox.Moves IsSent IsSent IsSent-Moves (λ y n. n) xs ys s.sent e;
  }

  same_rows : (xs : List OutboxRow) → Evolves Outbox.Moves IsSent xs xs
  same_rows = Evolves-refl Outbox.Moves IsSent Outbox.Moves-refl

  no_row :
      (ys : List OutboxRow) → All (λ r. has_row_id r ≡ false) ys → exists_where has_row_id ys ≢ true
  unfolding exists_where
  no_row [] a t = cc
  no_row (y ∷ ys) a t = no_row ys a.1 (ground arith)

  -- A new row has an id of its own.
  next_id-ne :
      (xs : List OutboxRow) → exists_where has_row_id xs ≡ true → next_id (λ r. r.id) xs ≢ id
  next_id-ne xs h e = no_row xs (All-map (λ r l. ground arith) xs (next_id_above (λ r. r.id) xs)) h

  insert-Sent :
      (message : OutboundMessage) (now : Time) (xs : List OutboxRow)
      → Sent xs
      → Evolves Outbox.Moves IsSent xs (insert_outbox message now xs)
  insert-Sent message now xs s = elim (Bool-cases (exists_where (conflicts message) xs)) [
    | inl e ↦ rw e (same_rows xs)
    | inr e ↦ rw e (
        Evolves-insert Outbox.Moves IsSent Outbox.Moves-refl xs _
          (λ t. absurd (next_id-ne xs s.exists (ground arith))))
  ]

  create-Sent :
      (select : Choices) (message : OutboundMessage) (now : Time) (db : Database)
      → Sent db.outbox
      → Evolves Outbox.Moves IsSent db.outbox (create_outbox select.outbox message now db).0.outbox
  unfolding create_outbox
  create-Sent select message now db s =
      ground (arith, insert-Sent message now db.outbox, same_rows db.outbox)

  outbox_step-Sent :
      (select : Choices) (now : Time) (c : OutboxCall) (db : Database)
      → Sent db.outbox
      → Evolves Outbox.Moves IsSent db.outbox (outbox_step select now c db).outbox
  unfolding outbox_step
  outbox_step-Sent select now (creates m) db s = create-Sent select m now db s
  outbox_step-Sent select now (reserves c) db s = Outbox.reserve_next_outbox-Evolves _ c now db
  outbox_step-Sent select now (dispatches i) db s = Outbox.mark_dispatching-Evolves _ i now db
  outbox_step-Sent select now (receives i receipt) db s =
      Outbox.apply_receipt-Evolves _ i receipt now db
  outbox_step-Sent select now (doubts i detail) db s =
      Outbox.mark_outbox_unknown-Evolves _ i now db detail
  outbox_step-Sent select now (kills i detail) db s =
      Outbox.mark_reserved_dead-Evolves _ i now db detail
  outbox_step-Sent select now (releases i detail delay) db s =
      Outbox.release_reserved-Evolves _ i now db detail delay
  outbox_step-Sent select now (reconciles i outcome note) db s =
      Outbox.reconcile_unknown_outbox-Evolves _ i outcome note now db

  recover-Sent :
      (stale now : Time) (db : Database)
      → Evolves Outbox.Moves IsSent db.outbox (recover_interrupted stale now db).0.outbox
  unfolding recover_interrupted
  recover-Sent stale now db =
      Evolves-trans Outbox.Moves IsSent Outbox.Moves-trans IsSent-Moves db.outbox _ _
        (Evolves-update Outbox.Moves IsSent Outbox.Moves-refl _ _ db.outbox (λ r h. ground arith))
        (Evolves-update Outbox.Moves IsSent Outbox.Moves-refl _ _ _ (λ r h. ground arith))

  pub step-Sent :
      (select : Choices) (c : Time × Call) (db : Database)
      → Sent db.outbox
      → Sent (step select c db).outbox
  unfolding step
  step-Sent select (now, on_inbox c) db s = rw (outbox-inbox_step now db c) s
  step-Sent select (now, on_outbox c) db s =
      Sent-Evolves db.outbox _ s (outbox_step-Sent select now c db s)
  step-Sent select (now, on_tools c) db s = rw (outbox-tool_step now db c) s
  step-Sent select (now, on_other c) db s = rw (outbox-other_step select now db c) s
  step-Sent select (now, recovers stale) db s =
      Sent-Evolves db.outbox _ s (recover-Sent stale now db)

  -- A row that was handed over cannot be marked again.
  mark_dispatching-Sent :
      (now : Time) (db : Database) → Sent db.outbox → (mark_dispatching id now db).1 ≡ false
  unfolding mark_dispatching
  mark_dispatching-Sent now db s =
      let none_left : count_where (at_state id OutboxState.reserved) db.outbox ≡ 0 =
        count_where-zero (at_state id OutboxState.reserved) db.outbox
          (All-map (λ r h. ground arith) db.outbox s.sent) in
      rw none_left refl

  pub hands_over-Sent :
      (c : Time × Call) (db : Database) → Sent db.outbox → hands_over id c db ≡ false
  hands_over-Sent (now, on_outbox (dispatches i)) db s = elim (Bool-cases (i == id)) [
    | inr e ↦ rw e refl
    | inl e ↦
        let same : id ≡ i = ground arith in
        let gone = mark_dispatching-Sent now db s in let never = rw same at gone in rw e never
  ]
  hands_over-Sent (now, on_outbox _) db s = refl
  hands_over-Sent (now, on_inbox c) db s = refl
  hands_over-Sent (now, on_tools c) db s = refl
  hands_over-Sent (now, on_other c) db s = refl
  hands_over-Sent (now, recovers stale) db s = refl
