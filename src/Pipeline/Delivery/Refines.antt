-- ===== src/Pipeline/Delivery/Refines.antt =====
-- `dispatch_once` is a history of the repository's methods, and calls the connector only for a row
-- that it has marked as dispatching.
use lemonbot.Prelude.{
  ℕ, String, ◌≡◌, refl, Bool, true, Option, none, some, arith, ◌==◌, nat_eq, eqb_iff, Bool-cases,
  inl, inr, Result, ok, err,
}
use lemonbot.Domain.{Time, PolicyDecision, PolicyEvaluation, OutboxState, policy_decision_eq}
use lemonbot.Storage.Tables.{Database}
use lemonbot.Storage.Outbox.{
  OutboxItem, reserve_next_outbox, mark_dispatching, apply_receipt, release_reserved,
}
use lemonbot.Storage.History.{
  Call, step, outbox_step, other_step, on_outbox, on_other, reserves, dispatches, receives, doubts,
  kills, releases, audits,
}
use lemonbot.Storage.History.Sent.{hands_over}
use lemonbot.Pipeline.{Attempt, returns, raises, Surroundings, arrive, exception_name}
use lemonbot.Pipeline.Refinement.{
  Refines, Refines-history, Refines-marked, Refines-then, Refines-after, Refines-transaction,
  Refines-evaluate,
}
use lemonbot.Pipeline.Delivery.{
  delivery_action, is_transient, retry_seconds, withdraw, quarantine, received, conclude, hand_over,
  judged, dispatch_reserved, dispatch_item, dispatch_once, unknown_audit, released,
}

module _ (env : Surroundings) where
  abbrev Reaches : Option ℕ → Database → Database → Type 0
  Reaches = Refines env.select hands_over

  quarantine-Reaches :
      (item : OutboxItem) (name : String) (db : Database)
      → Reaches none db (quarantine env item name db).after
  unfolding step outbox_step other_step
  quarantine-Reaches item name db =
      Refines-then env.select hands_over none db _ _
        (Refines-transaction env hands_over 4 (env.clock 4, on_outbox (doubts item.id name)) db)
        (Refines-transaction env hands_over 5
          (env.clock 5, on_other (audits (unknown_audit env item.message name (env.clock 5)))) _)

  received-Reaches :
      (item : OutboxItem) (before : Database) (r : Database × Result OutboxState)
      → Reaches none before r.0
      → Reaches none before (received env item r).after
  received-Reaches item before (db, ok state) h = h
  received-Reaches item before (db, err e) h =
      Refines-then env.select hands_over none before db _ h
        (quarantine-Reaches item (exception_name e) db)

  conclude-Reaches :
      (item : OutboxItem) (a : Attempt) (db : Database)
      → Reaches none db (conclude env item a db).after
  unfolding step outbox_step
  conclude-Reaches item (raises name) db = quarantine-Reaches item name db
  conclude-Reaches item (returns receipt) db =
      received-Reaches item db (apply_receipt item.id receipt (env.clock 3) (arrive env 3 db)) (
        Refines-transaction env hands_over 3 (env.clock 3, on_outbox (receives item.id receipt)) db)

  delivered-conclude :
      (item : OutboxItem) (a : Attempt) (db : Database)
      → (conclude env item a db).delivered ≡ some item.id
  delivered-conclude item (raises name) db = refl
  delivered-conclude item (returns receipt) db =
      received_row (apply_receipt item.id receipt (env.clock 3) (arrive env 3 db))
    where
      received_row :
          (r : Database × Result OutboxState) → (received env item r).delivered ≡ some item.id
      received_row (d, ok state) = refl
      received_row (d, err e) = refl

  hand_over-Reaches :
      (item : OutboxItem) (db : Database)
      → Reaches (hand_over env item db).delivered db (hand_over env item db).after
  unfolding step outbox_step
  hand_over-Reaches item db =
      let found = arrive env 2 db in
      let marks : Time × Call = (env.clock 2, on_outbox (dispatches item.id)) in
      elim (Bool-cases ((mark_dispatching item.id (env.clock 2) found).1)) [
        | inr m ↦ rw m (Refines-transaction env hands_over 2 marks db)
        | inl m ↦
            let marked = (mark_dispatching item.id (env.clock 2) found).0 in
            let attempt = env.deliver item.message in
            let mine : hands_over item.id marks found ≡ true =
              ground (arith, (eqb_iff item.id item.id).1 refl) in
            rw (m, delivered-conclude item attempt marked)
              (Refines-then env.select hands_over (some item.id) db found _
                (Refines-history env.select hands_over (env.others 2) db)
                (Refines-after env.select hands_over (some item.id) found marked _
                  (Refines-marked env.select hands_over item.id marks found mine)
                  (conclude-Reaches item attempt marked)))
      ]

  released-Reaches :
      (id : ℕ) (rule : String) (before : Database) (r : Database × Result Bool)
      → Reaches none before r.0
      → Reaches (released env id rule r).delivered before (released env id rule r).after
  released-Reaches id rule before (db, ok b) h = h
  released-Reaches id rule before (db, err e) h = h

  withdraw-Reaches :
      (item : OutboxItem) (e : PolicyEvaluation) (db : Database)
      → Reaches (withdraw env item e db).delivered db (withdraw env item e db).after
  unfolding step outbox_step
  withdraw-Reaches item e db = elim (Bool-cases (is_transient e.rule_id)) [
    | inr t ↦
        rw t (
          Refines-transaction env hands_over 2 (env.clock 2, on_outbox (kills item.id e.reason)) db)
    | inl t ↦
        let delay = retry_seconds e.retry_after_seconds in
        rw t (
          released-Reaches item.id e.rule_id db
            (release_reserved item.id e.reason delay (env.clock 2) (arrive env 2 db))
            (Refines-transaction env hands_over 2
              (env.clock 2, on_outbox (releases item.id e.reason delay)) db))
  ]

  judged-Reaches :
      (item : OutboxItem) (before : Database) (r : Database × Result PolicyEvaluation)
      → Reaches none before r.0
      → Reaches (judged env item r).delivered before (judged env item r).after
  judged-Reaches item before (db, err e) h = h
  judged-Reaches item before (db, ok e) h = elim (Bool-cases (e.decision == PolicyDecision.auto)) [
    | inl t ↦ rw t (
        Refines-then env.select hands_over (hand_over env item db).delivered before db _ h
          (hand_over-Reaches item db))
    | inr t ↦ rw t (
        Refines-then env.select hands_over (withdraw env item e db).delivered before db _ h
          (withdraw-Reaches item e db))
  ]

  dispatch_reserved-Reaches :
      (item : OutboxItem) (db : Database)
      → Reaches (dispatch_reserved env item db).delivered db (dispatch_reserved env item db).after
  unfolding dispatch_reserved
  dispatch_reserved-Reaches item db =
      judged-Reaches item db _
        (Refines-evaluate env hands_over 1 (delivery_action env item.message) db)

  dispatch_item-Reaches :
      (before : Database) (r : Database × Option OutboxItem)
      → Reaches none before r.0
      → Reaches (dispatch_item env r).delivered before (dispatch_item env r).after
  dispatch_item-Reaches before (db, none) h = h
  dispatch_item-Reaches before (db, some item) h =
      Refines-then env.select hands_over (dispatch_reserved env item db).delivered before db _ h
        (dispatch_reserved-Reaches item db)

-- Whatever other tasks do between its transactions, what `dispatch_once` does to the database is a
-- history of the repository's methods, theirs among them; and where it calls the connector,
-- `mark_dispatching` returned true for the row in that history.
pub dispatch_once-Refines :
    (env : Surroundings) (channel : String) (db : Database)
    → Refines env.select hands_over
        (dispatch_once env channel db).delivered
        db
        (dispatch_once env channel db).after
unfolding dispatch_once step outbox_step
dispatch_once-Refines env channel db =
    dispatch_item-Reaches env db
      (reserve_next_outbox (some channel) (env.clock 0) (arrive env 0 db))
      (Refines-transaction env hands_over 0 (env.clock 0, on_outbox (reserves (some channel))) db)
