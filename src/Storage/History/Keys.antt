-- ===== src/Storage/History/Keys.antt =====
-- A key of the outbox, of which no history makes a second row.
use lemonbot.Prelude.{
  ℕ, ◌≤◌, ◌≡◌, ◌∙◌, List, [], ◌∷◌, Bool, true, false, arith, string_eq, Bool-cases, inl, inr,
}
use lemonbot.Domain.{Time, OutboundMessage}
use lemonbot.Sql.{
  exists_where, count_where, count_where-insert, count_where-update, next_id, Choice,
}
use lemonbot.Sql.Evolution.{Evolves, count-Evolves}
use lemonbot.Storage.Tables.{Database, OutboxRow}
use lemonbot.Storage.Outbox.{conflicts, insert_outbox, outbox_row, create_outbox}
use lemonbot.Storage.Outbox.Lifecycle as Outbox
use lemonbot.Storage.Recovery.{recover_interrupted}
use lemonbot.Storage.History.Frames.{outbox-inbox_step, outbox-tool_step, outbox-other_step}
use lemonbot.Storage.History.{
  Call, OutboxCall, Choices, outbox_step, step, run, on_inbox, on_outbox, on_tools, on_other,
  recovers, creates, reserves, dispatches, receives, doubts, kills, releases, reconciles,
}

-- A test that only a message's identity decides, and that an insertion makes no second row pass.
pub record IsKey (test : OutboxRow → Bool) : Type 0 where
  pub kept : (r s : OutboxRow) → Outbox.Moves r s → test s ≡ test r
  pub inserted :
      (message : OutboundMessage) (now : Time) (xs : List OutboxRow)
      → count_where test xs ≤ 1
      → count_where test (insert_outbox message now xs) ≤ 1

-- A test that no two rows pass that do not conflict.
pub exclusive-IsKey :
    (test : OutboxRow → Bool)
    → ((r s : OutboxRow) → Outbox.Moves r s → test s ≡ test r)
    → ((message : OutboundMessage) (now id : ℕ)
        → test (outbox_row message now id) ≡ true
        → (r : OutboxRow) → conflicts message r ≡ false
        → test r ≡ false)
    → IsKey test
exclusive-IsKey test kept exclusive = record {
  kept = kept;
  inserted = λ message now xs u. elim (Bool-cases (exists_where (conflicts message) xs)) [
    | inl e ↦ rw e u
    | inr e ↦ rw e (
        count_where-insert test (conflicts message) xs
          (outbox_row message now (next_id (λ r. r.id) xs)) e
          (exclusive message now (next_id (λ r. r.id) xs)) u)
  ];
}

module _ (test : OutboxRow → Bool) (key : IsKey test) where
  create-once :
      (select : Choice OutboxRow) (message : OutboundMessage) (now : Time) (db : Database)
      → count_where test db.outbox ≤ 1
      → count_where test (create_outbox select message now db).0.outbox ≤ 1
  unfolding create_outbox
  create-once select message now db u = ground (arith, key.inserted message now db.outbox u)

  count-Moves :
      (xs ys : List OutboxRow)
      → Evolves Outbox.Moves (λ _. ⊥) xs ys
      → count_where test xs ≤ 1
      → count_where test ys ≤ 1
  count-Moves xs ys e u = rw (count-Evolves Outbox.Moves test key.kept xs ys e) u

  outbox_step-once :
      (select : Choices) (now : Time) (c : OutboxCall) (db : Database)
      → count_where test db.outbox ≤ 1
      → count_where test (outbox_step select now c db).outbox ≤ 1
  unfolding outbox_step
  outbox_step-once select now (creates m) db u = create-once select.outbox m now db u
  outbox_step-once select now (reserves c) db u =
      count-Moves db.outbox _ (Outbox.reserve_next_outbox-Evolves _ c now db) u
  outbox_step-once select now (dispatches id) db u =
      count-Moves db.outbox _ (Outbox.mark_dispatching-Evolves _ id now db) u
  outbox_step-once select now (receives id receipt) db u =
      count-Moves db.outbox _ (Outbox.apply_receipt-Evolves _ id receipt now db) u
  outbox_step-once select now (doubts id detail) db u =
      count-Moves db.outbox _ (Outbox.mark_outbox_unknown-Evolves _ id now db detail) u
  outbox_step-once select now (kills id detail) db u =
      count-Moves db.outbox _ (Outbox.mark_reserved_dead-Evolves _ id now db detail) u
  outbox_step-once select now (releases id detail delay) db u =
      count-Moves db.outbox _ (Outbox.release_reserved-Evolves _ id now db detail delay) u
  outbox_step-once select now (reconciles id outcome note) db u =
      count-Moves db.outbox _ (Outbox.reconcile_unknown_outbox-Evolves _ id outcome note now db) u

  recover-once :
      (stale now : Time) (db : Database)
      → count_where test (recover_interrupted stale now db).0.outbox ≡ count_where test db.outbox
  unfolding recover_interrupted
  recover-once stale now db =
      count_where-update test _ _ _ (λ r h. key.kept r _ (ground arith))
      ∙ count_where-update test _ _ db.outbox (λ r h. key.kept r _ (ground arith))

  pub step-once :
      (select : Choices) (c : Time × Call) (db : Database)
      → count_where test db.outbox ≤ 1
      → count_where test (step select c db).outbox ≤ 1
  unfolding step
  step-once select (now, on_inbox c) db u = rw (outbox-inbox_step now db c) u
  step-once select (now, on_outbox c) db u = outbox_step-once select now c db u
  step-once select (now, on_tools c) db u = rw (outbox-tool_step now db c) u
  step-once select (now, on_other c) db u = rw (outbox-other_step select now db c) u
  step-once select (now, recovers stale) db u = rw (recover-once stale now db) u

  pub run-once :
      (select : Choices) (cs : List (Time × Call)) (db : Database)
      → count_where test db.outbox ≤ 1
      → count_where test (run select cs db).outbox ≤ 1
  unfolding run
  run-once select [] db u = u
  run-once select (c ∷ cs) db u = run-once select cs (step select c db) (step-once select c db u)
