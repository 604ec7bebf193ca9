-- ===== src/Policy/Evaluate/Delays.antt =====
-- The delays of decisions stay within the bounds of their record, so that `evaluate` returns, and
-- what it writes.
use lemonbot.Prelude.{[], ◌∷◌, ◌++◌, String, ◌≡◌, refl, ◌≤◌, true, Option, none, some, ok, arith}
use lemonbot.Domain.{Time, ProposedAction, PolicyEvaluation}
use lemonbot.Sql.{next_id}
use lemonbot.Storage.Tables.{Database, AuditRow}
use lemonbot.Policy.Config.{Texts, PolicyConfig, RateLimitProfile, limits_for}
use lemonbot.Policy.Quiet.{Zone, quiet_retry_bounds}
use lemonbot.Policy.Evaluate.{evaluate, audited_decision}
use lemonbot.Policy.Evaluate.Audited.{evaluate-audited_decision}
use lemonbot.Policy.Engine.{
  policy_audit, decision_value, decision_on, evaluate_communication, evaluate_reply,
  evaluate_proactive, is_valid_retry, evaluate_destination, kind_of, message_id,
}

module _ (texts : Texts) (zone : Zone) (config : PolicyConfig) (now : Time) (db : Database) where
  -- The profile that applies to a channel rests at most a day between proactive messages.
  abbrev pub ShortCooldown : String → Type 0
  ShortCooldown channel =
      let hours = (limits_for texts config channel).proactive_cooldown_hours in
      (1 ≤ hours) × (hours ≤ 24)

  valid_proactive :
      (channel chat_id : String) (excluded reason : Option String) (limits : RateLimitProfile)
      → 1 ≤ limits.proactive_cooldown_hours
      → limits.proactive_cooldown_hours ≤ 24
      → is_valid_retry
          (evaluate_proactive texts zone config now db channel chat_id excluded reason
            limits).retry_after_seconds
        ≡ true
  unfolding evaluate_proactive
  valid_proactive channel chat_id excluded reason limits low high =
      ground (arith, quiet_retry_bounds zone config now)

  valid_reply :
      (channel chat_id : String) (excluded : Option String) (limits : RateLimitProfile)
      → is_valid_retry
          (evaluate_reply texts zone config now db channel chat_id excluded
            limits).retry_after_seconds
        ≡ true
  unfolding evaluate_reply
  valid_reply channel chat_id excluded limits = ground arith

  valid_destination :
      (action : ProposedAction) (kind : String) (channel chat_id : Option String)
      → ((c : String) → ShortCooldown c)
      → is_valid_retry
          (evaluate_destination texts zone config now db action kind channel
            chat_id).retry_after_seconds
        ≡ true
  valid_destination action kind none d h = refl
  valid_destination action kind (some c) none h = refl
  valid_destination action kind (some c) (some d) h =
      let id = message_id texts action in
      let limits = limits_for texts config c in
      ground (
        arith,
        quiet_retry_bounds zone config now,
        valid_reply c d id limits,
        valid_proactive c d id action.reason_event_id limits (h c).0 (h c).1,
      )

  valid_decision :
      (action : ProposedAction)
      → ((c : String) → ShortCooldown c)
      → is_valid_retry (decision_on texts zone config now db action).retry_after_seconds ≡ true
  unfolding decision_on evaluate_communication
  valid_decision action h =
      ground
        (arith, valid_destination action (kind_of texts action) action.channel action.chat_id h)

  -- What `evaluate` writes: one audit row of the decision, and nothing in the other tables.
  pub record Audited (action : ProposedAction) (e : PolicyEvaluation) (after : Database)
      : Type 0 where
    pub row : AuditRow
    pub appended : after.audit_log ≡ db.audit_log ++ row ∷ []
    pub outcome : row.outcome ≡ decision_value e.decision
    pub rule : row.rule_id ≡ some e.rule_id
    pub channel : row.channel ≡ action.channel
    pub chat : row.chat_id ≡ action.chat_id
    pub unchanged : after ≡ record db { audit_log = after.audit_log }

  -- With a proactive cooldown from 1 to 24 hours in the profile of every channel, `evaluate` raises on
  -- no path: it returns the decision, whose delay, if any, is from 1 second to a day; it appends one
  -- audit row that names the outcome and the rule, and changes no other table.
  pub evaluate-Audited :
      (action : ProposedAction)
      → ((c : String) → ShortCooldown c)
      → let e = decision_on texts zone config now db action in
        ((evaluate texts zone config now action db).1 ≡ ok e)
        × Audited action e (evaluate texts zone config now action db).0
  unfolding audited_decision
  evaluate-Audited action h =
      rw (evaluate-audited_decision texts zone config now action db, valid_decision action h)
        (
          refl,
          record {
            row = record {
              id = next_id (λ r. r.id) db.audit_log;
              entry = policy_audit action (decision_on texts zone config now db action) now;
            };
            appended = refl;
            outcome = refl;
            rule = refl;
            channel = refl;
            chat = refl;
            unchanged = refl;
          },
        )
