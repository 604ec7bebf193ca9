-- ===== src/Policy/Engine.antt =====
-- policy/engine.py: what is decided on a proposed action, in one state of the database; Policy/Evaluate is
-- `evaluate` itself. A reading of the clock is an argument. Two reasons carry counts in the source,
-- which are left out here.
pub mod Gates
pub mod Auto
pub mod Paused
use Prim.Native.String.{◌++◌ as concat}
use text.Mathlib.Text.{starts_with}
use lemonbot.Prelude.{
  ℕ, String, ◌-◌, ◌*◌, Bool, true, false, not, ◌&&◌, ◌||◌, Option, none, some, List, [], ◌∷◌, ltb,
  leb, ◌==◌, string_eq, nat_eq, is_some, if◌then◌else◌, strip, Exception, Result, ok, err,
}
use lemonbot.Prelude.Json.{Json, str, Fields, field, end, bool, get, get_flag}
use lemonbot.Domain.{Time, ProposedAction, PolicyEvaluation, PolicyDecision, AuditRecord}
use lemonbot.Storage.Tables.{Database, add_audit}
use lemonbot.Storage.Allowlist.{is_allowlisted, contains}
use lemonbot.Storage.RuntimeState.{is_paused}
use lemonbot.Storage.Outbox.{count_outbound_since}
use lemonbot.Policy.Config.{Texts, RateLimitProfile, PolicyConfig, limits_for, minute, hour, day}
use lemonbot.Policy.Quiet.{Zone, is_quiet, quiet_retry_seconds}

abbrev hard_denied_actions : List String
hard_denied_actions =
    "payment" ∷ "purchase" ∷ "buy" ∷ "transfer_money" ∷ "financial_transaction" ∷ "subscribe_paid"
    ∷ "credential_access" ∷ "read_secret" ∷ "mfa" ∷ "oauth_authorize" ∷ "account_security"
    ∷ "install_software" ∷ "elevate" ∷ "registry_write" ∷ "security_setting" ∷ "permanent_delete"
    ∷ "shell" ∷ "run_command" ∷ "arbitrary_code" ∷ "batch_send" ∷ "add_contact" ∷ "create_group"
    ∷ "mention_all" ∷ []

unfoldable pub hard_denied : String → Bool
hard_denied kind =
    contains kind hard_denied_actions
    || (starts_with kind "payment."
        || (starts_with kind "purchase."
            || (starts_with kind "shell."
                || (starts_with kind "credential." || starts_with kind "delete.permanent"))))

abbrev secret_kinds : List String
secret_kinds =
    "reply" ∷ "proactive_message" ∷ "model_call" ∷ "mcp_tool" ∷ "mcp_read" ∷ "mcp_write" ∷ []

abbrev is_secret : Texts → Option Json → Bool
is_secret texts (some (str s)) = texts.casefold s == texts.casefold "SECRET"
is_secret texts _ = false

unfoldable pub contains_secret : Texts → ProposedAction → Bool
contains_secret texts action =
    is_secret texts (get action.arguments "data_class")
    && contains (texts.casefold action.kind) secret_kinds

abbrev read_id : Texts → Option Json → Option String
read_id texts none = none
read_id texts (some Json.null) = none
read_id texts (some v) = texts.read_uuid v

abbrev pub message_id : Texts → ProposedAction → Option String
message_id texts action = read_id texts (get action.arguments "message_id")

abbrev pub decide : PolicyDecision → String → String → PolicyEvaluation
decide decision rule_id reason = record {
  decision = decision;
  reason = reason;
  rule_id = rule_id;
  retry_after_seconds = none;
}

abbrev pub retry : ℕ → PolicyEvaluation → PolicyEvaluation
retry seconds e = record e { retry_after_seconds = some seconds }

abbrev pub deny : String → String → PolicyEvaluation
deny = decide PolicyDecision.deny

-- `action.bound is not None and action.value != action.bound`
abbrev pub differs : Option String → Option String → Bool
differs value none = false
differs none (some b) = true
differs (some v) (some b) = not (v == b)

-- `action.kind.casefold().strip()`
abbrev pub kind_of : Texts → ProposedAction → String
kind_of texts action = strip (texts.casefold action.kind)

-- The truth of an optional text.
abbrev pub is_given : Option String → Bool
is_given none = false
is_given (some s) = not (s == "")

module _ (texts : Texts) (zone : Zone) (config : PolicyConfig) (now : Time) (db : Database) where
  module _ (channel chat_id : String) (excluded : Option String) where
    abbrev pub chat_count : Time → Option Bool → ℕ
    chat_count duration proactive =
        count_outbound_since (now - duration) channel (some chat_id) proactive excluded db

    abbrev pub channel_count : Option Bool → ℕ
    channel_count proactive = count_outbound_since (now - day) channel none proactive excluded db

    -- A window that is full; a maximum of 0 turns it off.
    abbrev pub is_full : Time → ℕ → Bool
    is_full duration maximum = not (maximum == 0) && leb maximum (chat_count duration none)

    abbrev pub quota : String → ℕ → PolicyEvaluation
    quota rule seconds = retry seconds (deny rule "reply quota reached")

    unfoldable pub evaluate_reply : RateLimitProfile → PolicyEvaluation
    evaluate_reply limits =
        if is_full (10 * minute) limits.reply_per_10_minutes
        then quota "rate_reply_10m" 600
        else if is_full hour limits.reply_per_hour
        then quota "rate_reply_hour" 3600
        else if is_full day limits.reply_per_day
        then quota "rate_reply_day" 86400
        else if leb limits.global_per_day (channel_count none)
        then retry 86400 (deny "rate_global_day" "channel daily quota reached")
        else decide PolicyDecision.auto "reply_allowed" "allowlisted reply within quota"

    unfoldable pub evaluate_proactive : Option String → RateLimitProfile → PolicyEvaluation
    evaluate_proactive reason_event_id limits =
        if not limits.proactive_enabled
        then deny "proactive_disabled" "proactive messaging is disabled for this channel"
        else if not (is_given reason_event_id)
        then deny "proactive_no_reason" "proactive messages require a stored reason event"
        else if is_quiet config (zone.local now)
        then retry (quiet_retry_seconds zone config now)
            (deny "quiet_hours" "proactive messaging is blocked during quiet hours")
        else if not (chat_count (limits.proactive_cooldown_hours * hour) (some true) == 0)
        then retry (limits.proactive_cooldown_hours * 3600)
            (deny "proactive_cooldown" "per-chat proactive cooldown is active")
        else if leb limits.proactive_per_day (chat_count day (some true))
        then retry 86400 (deny "proactive_chat_day" "per-chat proactive daily quota reached")
        else if leb limits.proactive_global_per_day (channel_count (some true))
        then retry 86400 (deny "proactive_global_day" "global proactive daily quota reached")
        else decide PolicyDecision.auto "proactive_allowed"
            "allowlisted proactive message within quota"

  abbrev pub in_conversation : ProposedAction → String → String → String → PolicyEvaluation
  in_conversation action kind channel chat_id =
      let excluded = message_id texts action in
      let limits = limits_for texts config channel in
      if not (is_allowlisted channel chat_id db)
      then decide PolicyDecision.enroll "chat_not_allowlisted"
          "chat is not enrolled in the allowlist"
      else if channel == "wechat_agent_lab"
          && (not action.proactive && is_quiet config (zone.local now))
      then retry (quiet_retry_seconds zone config now)
          (deny "quiet_hours" "canary reply is in quiet hours")
      else if action.proactive || kind == "proactive_message"
      then evaluate_proactive channel chat_id excluded action.reason_event_id limits
      else evaluate_reply channel chat_id excluded limits

  abbrev pub evaluate_destination :
      ProposedAction → String → Option String → Option String → PolicyEvaluation
  evaluate_destination action kind (some channel) (some chat_id) =
      in_conversation action kind channel chat_id
  evaluate_destination action kind _ _ =
      deny "missing_destination" "communication requires a broker-owned destination"

  unfoldable pub evaluate_communication : ProposedAction → String → PolicyEvaluation
  unfolding evaluate_reply evaluate_proactive
  evaluate_communication action kind =
      evaluate_destination action kind action.channel action.chat_id

  abbrev pub evaluate_mcp_tool : ProposedAction → PolicyEvaluation
  evaluate_mcp_tool action =
      if not (get_flag action.arguments "enrolled")
      then decide PolicyDecision.enroll "mcp_not_enrolled"
          "tool must be pinned and enrolled by an administrator"
      else if action.side_effect
      then decide PolicyDecision.approve_once "mcp_side_effect"
          "enrolled MCP side effect requires one-time approval"
      else decide PolicyDecision.auto "mcp_read_enrolled" "enrolled read-only MCP tool"

  abbrev pub evaluate_capability : String → PolicyEvaluation
  evaluate_capability kind =
      if contains kind config.approval_actions
      then decide PolicyDecision.approve_once "explicit_approval"
          "action requires one-time administrator approval"
      else if contains kind config.auto_actions
      then decide PolicyDecision.auto "safe_capability"
          "action is within an enrolled safe capability"
      else deny "unknown_action" "unknown actions are denied by default"

  unfoldable pub decision_on : ProposedAction → PolicyEvaluation
  decision_on action =
      let kind = kind_of texts action in
      if hard_denied kind
      then deny "hard_denial" "action is always forbidden"
      else if differs action.channel action.bound_channel
      then deny "destination_mismatch" "channel differs from broker-owned route"
      else if differs action.chat_id action.bound_chat_id
      then deny "destination_mismatch" "chat differs from broker-owned route"
      else if contains_secret texts action
      then deny "secret_boundary" "SECRET data cannot enter a model or message"
      else if action.side_effect && is_paused action.channel db
      then retry 30 (deny "runtime_paused" "side effects are paused")
      else if kind == "reply" || kind == "proactive_message"
      then evaluate_communication action kind
      else if kind == "mcp_tool"
      then evaluate_mcp_tool action
      else evaluate_capability kind

abbrev pub decision_value : PolicyDecision → String
decision_value PolicyDecision.auto = "AUTO"
decision_value PolicyDecision.approve_once = "APPROVE_ONCE"
decision_value PolicyDecision.enroll = "ENROLL"
decision_value PolicyDecision.deny = "DENY"

abbrev pub policy_audit : ProposedAction → PolicyEvaluation → Time → AuditRecord
policy_audit action e now = record {
  action = concat "policy." action.kind;
  outcome = decision_value e.decision;
  channel = action.channel;
  chat_id = action.chat_id;
  event_id = action.reason_event_id;
  message_id = none;
  rule_id = some e.rule_id;
  detail =
      field "proactive" (bool action.proactive) (field "side_effect" (bool action.side_effect) end);
  occurred_at = now;
}

-- The bounds of `PolicyEvaluation.retry_after_seconds`: a value outside them is a ValidationError,
-- a ValueError.
abbrev pub is_valid_retry : Option ℕ → Bool
is_valid_retry none = true
is_valid_retry (some n) = leb 1 n && leb n 86400
