-- ===== src/Policy/Evaluate/Audited.antt =====
-- `evaluate` decides what Policy/Engine says, and audits it.
use lemonbot.Prelude.{String, ◌≡◌, refl, arith, string_eq, Option, none, some, Result}
use lemonbot.Domain.{Time, ProposedAction, PolicyEvaluation}
use lemonbot.Storage.Tables.{Database}
use lemonbot.Policy.Config.{Texts, RateLimitProfile, PolicyConfig, limits_for}
use lemonbot.Policy.Quiet.{Zone}
use lemonbot.Policy.Engine.{
  decision_on, evaluate_communication, evaluate_reply, evaluate_proactive, evaluate_destination,
  in_conversation, evaluate_mcp_tool, evaluate_capability, message_id, kind_of,
}
use lemonbot.Policy.Evaluate.{
  audited_decision, finish, reply_outcome, proactive_outcome, conversation_outcome,
  communication_outcome, mcp_outcome, capability_outcome, evaluate,
}

module _ (texts : Texts) (zone : Zone) (config : PolicyConfig) (now : Time)
    (action : ProposedAction) (db : Database) where
  abbrev ends : PolicyEvaluation → Database × Result PolicyEvaluation
  ends = finish texts zone config now action db

  reply_outcome_lem :
      (channel chat_id : String) (limits : RateLimitProfile)
      → reply_outcome texts zone config now action db channel chat_id limits
        ≡ ends (
            evaluate_reply texts zone config now db channel chat_id
              (message_id texts action)
              limits)
  unfolding evaluate_reply
  reply_outcome_lem channel chat_id limits = ground arith

  proactive_outcome_lem :
      (channel chat_id : String) (limits : RateLimitProfile)
      → proactive_outcome texts zone config now action db channel chat_id limits
        ≡ ends (
            evaluate_proactive texts zone config now db channel chat_id
              (message_id texts action)
              action.reason_event_id
              limits)
  unfolding evaluate_proactive
  proactive_outcome_lem channel chat_id limits = ground arith

  conversation_outcome_lem :
      (kind channel chat_id : String)
      → conversation_outcome texts zone config now action db kind channel chat_id
        ≡ ends (in_conversation texts zone config now db action kind channel chat_id)
  conversation_outcome_lem kind channel chat_id =
      let limits = limits_for texts config channel in
      let reply = reply_outcome_lem channel chat_id limits in
      let proactive = proactive_outcome_lem channel chat_id limits in
      rw (reply, proactive) (ground arith)

  communication_outcome_lem :
      (kind : String) (channel chat_id : Option String)
      → communication_outcome texts zone config now action db kind channel chat_id
        ≡ ends (evaluate_destination texts zone config now db action kind channel chat_id)
  communication_outcome_lem kind none d = refl
  communication_outcome_lem kind (some c) none = refl
  communication_outcome_lem kind (some c) (some d) = conversation_outcome_lem kind c d

  mcp_outcome_lem :
      mcp_outcome texts zone config now action db
      ≡ ends (evaluate_mcp_tool texts zone config now db action)
  mcp_outcome_lem = ground arith

  capability_outcome_lem :
      (kind : String)
      → capability_outcome texts zone config now action db kind
        ≡ ends (evaluate_capability texts zone config now db kind)
  capability_outcome_lem kind = ground arith

  -- On every path, `evaluate` ends in `_decision` with what Policy/Engine decides.
  pub evaluate-audited_decision :
      evaluate texts zone config now action db
      ≡ audited_decision now action db (decision_on texts zone config now db action)
  unfolding evaluate decision_on evaluate_communication
  evaluate-audited_decision =
      let kind = kind_of texts action in
      let communication = communication_outcome_lem kind action.channel action.chat_id in
      let capability = capability_outcome_lem kind in
      rw (communication, capability, mcp_outcome_lem) (ground arith)
