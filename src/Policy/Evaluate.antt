-- ===== src/Policy/Evaluate.antt =====
-- policy/engine.py: `evaluate`, each path of which ends in a call of `_decision`, where the decision
-- is validated, audited and returned. All reads and the audit see one state of the database: the
-- source makes each in a transaction of its own.
pub mod Audited
pub mod Delays
use lemonbot.Prelude.{
  String, ◌*◌, Bool, true, false, not, ◌&&◌, ◌||◌, Option, none, some, leb, ◌==◌, string_eq, nat_eq,
  if◌then◌else◌, Exception, Result, ok, err,
}
use lemonbot.Prelude.Json.{get_flag}
use lemonbot.Domain.{Time, ProposedAction, PolicyEvaluation, PolicyDecision}
use lemonbot.Storage.Tables.{Database, add_audit}
use lemonbot.Storage.Allowlist.{is_allowlisted, contains}
use lemonbot.Storage.RuntimeState.{is_paused}
use lemonbot.Policy.Config.{Texts, RateLimitProfile, PolicyConfig, limits_for, minute, hour, day}
use lemonbot.Policy.Quiet.{Zone, is_quiet, quiet_retry_seconds}
use lemonbot.Policy.Engine.{
  hard_denied, contains_secret, message_id, decide, retry, deny, differs, kind_of, is_given,
  chat_count, channel_count, is_full, quota, policy_audit, is_valid_retry,
}

-- `_decision`: the evaluation is built, which can fail its validation, and then audited.
unfoldable pub audited_decision :
    Time → ProposedAction → Database → PolicyEvaluation → Database × Result PolicyEvaluation
audited_decision now action db e =
    if is_valid_retry e.retry_after_seconds
    then (add_audit (policy_audit action e now) db, ok e)
    else (db, err Exception.value_error)

module _ (texts : Texts) (zone : Zone) (config : PolicyConfig) (now : Time)
    (action : ProposedAction) (db : Database) where
  abbrev pub finish : PolicyEvaluation → Database × Result PolicyEvaluation
  finish = audited_decision now action db

  -- `_evaluate_reply`
  abbrev pub reply_outcome :
      (channel chat_id : String) → RateLimitProfile → Database × Result PolicyEvaluation
  reply_outcome channel chat_id limits =
      let excluded = message_id texts action in
      let full = is_full texts zone config now db channel chat_id excluded in
      let quota_of = quota texts zone config now db channel chat_id excluded in
      if full (10 * minute) limits.reply_per_10_minutes
      then finish (quota_of "rate_reply_10m" 600)
      else if full hour limits.reply_per_hour
      then finish (quota_of "rate_reply_hour" 3600)
      else if full day limits.reply_per_day
      then finish (quota_of "rate_reply_day" 86400)
      else if leb limits.global_per_day
          (channel_count texts zone config now db channel chat_id excluded none)
      then finish (retry 86400 (deny "rate_global_day" "channel daily quota reached"))
      else finish (decide PolicyDecision.auto "reply_allowed" "allowlisted reply within quota")

  -- `_evaluate_proactive`
  abbrev pub proactive_outcome :
      (channel chat_id : String) → RateLimitProfile → Database × Result PolicyEvaluation
  proactive_outcome channel chat_id limits =
      let excluded = message_id texts action in
      let count = chat_count texts zone config now db channel chat_id excluded in
      if not limits.proactive_enabled
      then finish (deny "proactive_disabled" "proactive messaging is disabled for this channel")
      else if not (is_given action.reason_event_id)
      then finish (deny "proactive_no_reason" "proactive messages require a stored reason event")
      else if is_quiet config (zone.local now)
      then finish (
          retry (quiet_retry_seconds zone config now)
            (deny "quiet_hours" "proactive messaging is blocked during quiet hours"))
      else if not (count (limits.proactive_cooldown_hours * hour) (some true) == 0)
      then finish (
          retry (limits.proactive_cooldown_hours * 3600)
            (deny "proactive_cooldown" "per-chat proactive cooldown is active"))
      else if leb limits.proactive_per_day (count day (some true))
      then finish (retry 86400 (deny "proactive_chat_day" "per-chat proactive daily quota reached"))
      else if leb limits.proactive_global_per_day
          (channel_count texts zone config now db channel chat_id excluded (some true))
      then finish (retry 86400 (deny "proactive_global_day" "global proactive daily quota reached"))
      else finish (
          decide PolicyDecision.auto "proactive_allowed"
            "allowlisted proactive message within quota")

  -- `_evaluate_communication`, where the channel and the chat are given, and where not.
  abbrev pub conversation_outcome :
      (kind channel chat_id : String) → Database × Result PolicyEvaluation
  conversation_outcome kind channel chat_id =
      let limits = limits_for texts config channel in
      if not (is_allowlisted channel chat_id db)
      then finish (
          decide PolicyDecision.enroll "chat_not_allowlisted"
            "chat is not enrolled in the allowlist")
      else if channel == "wechat_agent_lab"
          && (not action.proactive && is_quiet config (zone.local now))
      then finish (
          retry (quiet_retry_seconds zone config now)
            (deny "quiet_hours" "canary reply is in quiet hours"))
      else if action.proactive || kind == "proactive_message"
      then proactive_outcome channel chat_id limits
      else reply_outcome channel chat_id limits

  abbrev pub communication_outcome :
      String → (channel chat_id : Option String) → Database × Result PolicyEvaluation
  communication_outcome kind (some channel) (some chat_id) =
      conversation_outcome kind channel chat_id
  communication_outcome kind _ _ =
      finish (deny "missing_destination" "communication requires a broker-owned destination")

  abbrev pub mcp_outcome : Database × Result PolicyEvaluation
  mcp_outcome =
      if not (get_flag action.arguments "enrolled")
      then finish (
          decide PolicyDecision.enroll "mcp_not_enrolled"
            "tool must be pinned and enrolled by an administrator")
      else if action.side_effect
      then finish (
          decide PolicyDecision.approve_once "mcp_side_effect"
            "enrolled MCP side effect requires one-time approval")
      else finish (decide PolicyDecision.auto "mcp_read_enrolled" "enrolled read-only MCP tool")

  abbrev pub capability_outcome : String → Database × Result PolicyEvaluation
  capability_outcome kind =
      if contains kind config.approval_actions
      then finish (
          decide PolicyDecision.approve_once "explicit_approval"
            "action requires one-time administrator approval")
      else if contains kind config.auto_actions
      then finish (
          decide PolicyDecision.auto "safe_capability"
            "action is within an enrolled safe capability")
      else finish (deny "unknown_action" "unknown actions are denied by default")

  unfoldable pub evaluate : Database × Result PolicyEvaluation
  evaluate =
      let kind = kind_of texts action in
      if hard_denied kind
      then finish (deny "hard_denial" "action is always forbidden")
      else if differs action.channel action.bound_channel
      then finish (deny "destination_mismatch" "channel differs from broker-owned route")
      else if differs action.chat_id action.bound_chat_id
      then finish (deny "destination_mismatch" "chat differs from broker-owned route")
      else if contains_secret texts action
      then finish (deny "secret_boundary" "SECRET data cannot enter a model or message")
      else if action.side_effect && is_paused action.channel db
      then finish (retry 30 (deny "runtime_paused" "side effects are paused"))
      else if kind == "reply" || kind == "proactive_message"
      then communication_outcome kind action.channel action.chat_id
      else if kind == "mcp_tool"
      then mcp_outcome
      else capability_outcome kind
