-- ===== src/Pipeline/Delivery/Once.antt =====
-- The pipeline delivers a message at most once, and only on the policy's word.
use lemonbot.Prelude.{
  ℕ, String, ◌+◌, ◌≤◌, ◌≡◌, refl, ap, subst, sym, Bool, true, false, Option, none, some, List, [],
  ◌∷◌, ◌++◌, arith, ◌==◌, nat_eq, Bool-cases, inl, inr, Result, ok, err, if◌then◌else◌, is_some,
}
use lemonbot.Domain.{PolicyDecision, PolicyEvaluation, policy_decision_eq}
use lemonbot.Sql.{count_where}
use lemonbot.Storage.Tables.{Database}
use lemonbot.Storage.Outbox.{OutboxItem, release_reserved}
use lemonbot.Domain.{Time}
use lemonbot.Storage.History.{Call, Choices}
use lemonbot.Storage.History.Sent.{hands_over, handovers, has_row_id}
use lemonbot.Storage.History.Occurrences.{occurrences}
use lemonbot.Storage.History.SentOnce.{handovers_once}
use lemonbot.Policy.Engine.{decision_on, is_valid_retry}
use lemonbot.Policy.Evaluate.{audited_decision}
use lemonbot.Policy.Evaluate.Audited.{evaluate-audited_decision}
use lemonbot.Pipeline.{Surroundings, arrive}
use lemonbot.Pipeline.Refinement.{occurrences-append, Refines-counted}
use lemonbot.Pipeline.Delivery.{
  dispatch_once, dispatch_reserved, delivery_action, withdraw, released, is_transient,
  retry_seconds,
}
use lemonbot.Pipeline.Delivery.Refines.{dispatch_once-Refines}

abbrev pub delivers : ℕ → Option ℕ → Bool
delivers id none = false
delivers id (some i) = i == id

-- How many of a sequence of dispatches, each with a channel and what surrounds it, call the
-- connector for a row.
unfoldable pub deliveries : Choices → ℕ → List (Surroundings × String) → Database → ℕ
deliveries select id [] db = 0
deliveries select id ((env, channel) ∷ rounds) db =
    let d = dispatch_once (record env { select = select }) channel db in
    (if delivers id d.delivered then 1 else 0) + deliveries select id rounds d.after

delivers_it : (id : ℕ) (d : Option ℕ) → delivers id d ≡ true → d ≡ some id
delivers_it id none h = cc
delivers_it id (some i) h = let same : i ≡ id = ground arith in ap some same

deliveries-history :
    (select : Choices) (id : ℕ) (rounds : List (Surroundings × String)) (db : Database)
    → (cs : List (Time × Call)) × (deliveries select id rounds db ≤ handovers select id cs db)
unfolding deliveries occurrences
deliveries-history select id [] db = ([], omega arith)
deliveries-history select id ((env, channel) ∷ rounds) db =
    let own = record env { select = select } in
    let d = dispatch_once own channel db in
    let r = dispatch_once-Refines own channel db in
    let (cs, rest) = deliveries-history select id rounds d.after in
    let first =
      Refines-counted select hands_over id d.delivered (delivers id d.delivered) db d.after r
        (delivers_it id d.delivered) in
    let later =
      subst (λ x. deliveries select id rounds d.after ≤ handovers select id cs x) (sym r.runs)
        rest in
    (r.calls ++ cs, omega (arith, occurrences-append select hands_over id r.calls cs db))

-- However many dispatches are made, one after the other and with whatever other tasks in between,
-- the connector is called at most once for each row, if the ids of the outbox are unique.
pub deliveries_once :
    (select : Choices) (id : ℕ) (rounds : List (Surroundings × String)) (db : Database)
    → count_where (has_row_id id) db.outbox ≤ 1
    → deliveries select id rounds db ≤ 1
deliveries_once select id rounds db u =
    let (cs, h) = deliveries-history select id rounds db in
    omega (arith, handovers_once select id cs db u)

module _ (env : Surroundings) where
  released-undelivered :
      (id : ℕ) (rule : String) (r : Database × Result Bool)
      → (released env id rule r).delivered ≡ none
  released-undelivered id rule (db, ok b) = refl
  released-undelivered id rule (db, err e) = refl

  withdraw-undelivered :
      (item : OutboxItem) (e : PolicyEvaluation) (db : Database)
      → (withdraw env item e db).delivered ≡ none
  withdraw-undelivered item e db = elim (Bool-cases (is_transient e.rule_id)) [
    | inr t ↦ rw t refl
    | inl t ↦ rw t (
        released-undelivered item.id e.rule_id (
          release_reserved item.id e.reason (retry_seconds e.retry_after_seconds) (env.clock 2)
            (arrive env 2 db)))
  ]

  -- `_dispatch_reserved` calls the connector only if the policy, judging the message when it is
  -- about to be sent, decides AUTO.
  pub dispatch_reserved-judged :
      (item : OutboxItem) (db : Database)
      → is_some (dispatch_reserved env item db).delivered ≡ true
      → (decision_on env.texts env.zone env.policy
          (env.clock 1)
          (arrive env 1 db)
          (delivery_action env item.message)).decision
        ≡ PolicyDecision.auto
  unfolding dispatch_reserved audited_decision
  dispatch_reserved-judged item db h =
      let e =
        decision_on env.texts env.zone env.policy (env.clock 1) (arrive env 1 db)
          (delivery_action env item.message) in
      let ends =
        evaluate-audited_decision env.texts env.zone env.policy (env.clock 1)
          (delivery_action env item.message) (arrive env 1 db) in
      elim (Bool-cases (is_valid_retry e.retry_after_seconds)) [
        | inr v ↦ let gone = rw (ends, v) at h in absurd (cc)
        | inl v ↦ elim (Bool-cases (e.decision == PolicyDecision.auto)) [
          | inl t ↦ ground arith
          | inr t ↦
              let late = rw (ends, v, t) at h in
              let gone = rw (withdraw-undelivered item e _) at late in absurd (cc)
        ]
      ]
