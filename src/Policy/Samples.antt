-- ===== src/Policy/Samples.antt =====
-- Decisions of the policy on concrete actions.
use lemonbot.Prelude.{
  String, ◌≡◌, ◌*◌, ◌+◌, ◌-◌, ◌↔◌, refl, true, false, Option, none, some, [], ◌∷◌, arith, ◌⊎◌, inl,
  ok, strip, lstrip, rstrip,
}
use lemonbot.Prelude.Json.{Json, str, end}
use lemonbot.Domain.{Time, ProposedAction, PolicyDecision, OutboxState}
use lemonbot.Storage.Tables.{Database, AllowlistRow, OutboxRow}
use lemonbot.Storage.Allowlist.{is_allowlisted, contains}
use lemonbot.Policy.Config.{
  Texts, PolicyConfig, RateLimitProfile, default_config, wechat_lab_limits, limits_for, hour, day,
}
use lemonbot.Policy.Quiet.{Zone, is_quiet, is_quiet_at}
use lemonbot.Policy.Engine.{
  decision_on, evaluate_reply, evaluate_communication, hard_denied, contains_secret, kind_of,
}
use lemonbot.Policy.Engine.Gates.{PassesGates, decision_on-PassesGates, communication-allowlisted}
use lemonbot.Policy.Engine.Auto.{MayReply, decision_on-MayReply, MayMessage, decision_on-MayMessage}
use lemonbot.Policy.Engine.Paused.{decision_on-set_paused}
use lemonbot.Policy.Evaluate.{evaluate}
use lemonbot.Policy.Evaluate.Delays.{ShortCooldown, Audited, evaluate-Audited}
use lemonbot.Storage.RuntimeState.{is_paused, set_paused}
use lemonbot.Storage.Outbox.{count_outbound_since}
use lemonbot.Sql.{count_where, exists_where, first_where}

-- UTC
abbrev utc : Zone
utc = record { local = λ t. t; utc = λ t. t }

abbrev read_text : Json → Option String
read_text (str s) = some s
read_text _ = none

-- Texts that are in lower case already, and ids that are in canonical form already.
abbrev plain : Texts
plain = record { casefold = λ s. s; read_uuid = read_text }

abbrev chat : AllowlistRow
chat = record {
  id = 1;
  channel = "fake";
  chat_id = "a";
  enabled = true;
  label = none;
  created_at = 0;
  updated_at = 0;
}

abbrev enrolled : Database
enrolled = record {
  inbox = [];
  drafts = [];
  outbox = [];
  messages = [];
  audit_log = [];
  allowlist = chat ∷ [];
  approvals = [];
  tool_executions = [];
  runtime_state = [];
}

abbrev noon : Time
noon = 1000 * day + 12 * hour

abbrev night : Time
night = 1000 * day + 23 * hour

abbrev reply_to_chat : ProposedAction
reply_to_chat = record {
  kind = "reply";
  channel = some "fake";
  chat_id = some "a";
  bound_channel = some "fake";
  bound_chat_id = some "a";
  reason_event_id = some "e1";
  proactive = false;
  side_effect = true;
  tool_name = none;
  arguments = end;
}

-- An eager profile rests 25 hours between proactive messages.
abbrev eager_limits : RateLimitProfile
eager_limits = record wechat_lab_limits { proactive_enabled = true; proactive_cooldown_hours = 25 }

abbrev eager_config : PolicyConfig
eager_config = record default_config { fallback = eager_limits }

-- One proactive message went to the chat an hour ago.
abbrev greeting : OutboxRow
greeting = record {
  id = 1;
  message_id = "m1";
  channel = "fake";
  chat_id = "a";
  text = "hi";
  reply_to_event_id = none;
  metadata_json = end;
  proactive = true;
  state = OutboxState.acknowledged;
  attempts = 1;
  next_attempt_at = none;
  reserved_at = none;
  dispatch_started_at = none;
  acknowledged_at = some (noon - hour);
  external_id = none;
  failure_detail = none;
  created_at = noon - hour;
  updated_at = noon - hour;
}

abbrev greeted : Database
greeted = record enrolled { outbox = greeting ∷ [] }

is_reply :
    (kind_of plain reply_to_chat ≡ "reply") ⊎ (kind_of plain reply_to_chat ≡ "proactive_message")
unfolding strip lstrip rstrip
is_reply = inl refl

auto :
    (decision_on plain utc default_config noon enrolled reply_to_chat).decision
    ≡ PolicyDecision.auto
unfolding decision_on hard_denied contains_secret is_paused evaluate_communication evaluate_reply
    is_allowlisted contains limits_for is_quiet is_quiet_at count_outbound_since count_where
    exists_where first_where strip lstrip rstrip
auto = refl

decision_on-PassesGates_example : PassesGates plain utc default_config noon enrolled reply_to_chat
decision_on-PassesGates_example =
    decision_on-PassesGates plain utc default_config noon enrolled reply_to_chat (rw auto (λ e. cc))

communication-allowlisted_example :
    (c : String) × (d : String) × (some "fake" ≡ some c)
    × (some "a" ≡ some d)
    × (is_allowlisted c d enrolled ≡ true)
communication-allowlisted_example =
    communication-allowlisted plain utc default_config noon enrolled reply_to_chat is_reply auto

is_plain_reply : kind_of plain reply_to_chat ≡ "reply"
unfolding strip lstrip rstrip
is_plain_reply = refl

decision_on-MayReply_example :
    ((decision_on plain utc default_config noon enrolled reply_to_chat).decision
      ≡ PolicyDecision.auto)
    ↔ MayReply plain utc default_config noon enrolled reply_to_chat
decision_on-MayReply_example =
    decision_on-MayReply plain utc default_config noon enrolled reply_to_chat is_plain_reply refl

-- A message that is not an answer.
abbrev greeting_to_chat : ProposedAction
greeting_to_chat = record reply_to_chat { kind = "proactive_message"; proactive = true }

is_message : kind_of plain greeting_to_chat ≡ "proactive_message"
unfolding strip lstrip rstrip
is_message = refl

decision_on-MayMessage_example :
    ((decision_on plain utc eager_config noon greeted greeting_to_chat).decision
      ≡ PolicyDecision.auto)
    ↔ MayMessage plain utc eager_config noon greeted greeting_to_chat
decision_on-MayMessage_example =
    decision_on-MayMessage plain utc eager_config noon greeted greeting_to_chat (inl is_message)

short : (c : String) → ShortCooldown plain utc default_config noon enrolled c
unfolding limits_for
short c = (ground arith, ground arith)

evaluate-Audited_example :
    let e = decision_on plain utc default_config noon enrolled reply_to_chat in
    ((evaluate plain utc default_config noon reply_to_chat enrolled).1 ≡ ok e)
    × Audited plain utc default_config noon enrolled reply_to_chat e
        (evaluate plain utc default_config noon reply_to_chat enrolled).0
evaluate-Audited_example =
    evaluate-Audited plain utc default_config noon enrolled reply_to_chat short

-- The reply that the policy would let pass is denied after a global pause.
decision_on-set_paused_example :
    (decision_on plain utc default_config noon
      (set_paused none true noon enrolled)
      reply_to_chat).decision
    ≡ PolicyDecision.deny
decision_on-set_paused_example =
    decision_on-set_paused plain utc default_config none noon noon enrolled reply_to_chat (inl refl)
      refl
