-- ===== src/Pipeline/Delivery/Samples.antt =====
-- Dispatches of concrete messages.
use lemonbot.Prelude.{
  String, ◌≤◌, ◌≡◌, ◌*◌, ◌+◌, refl, true, false, Option, none, some, List, [], ◌∷◌, arith, strip,
  lstrip, rstrip, is_some,
}
use lemonbot.Prelude.Json.{Json, str, end}
use lemonbot.Domain.{Time, DeliveryStatus, OutboxState, OutboundMessage, PolicyDecision}
use lemonbot.Sql.{
  Choice, first_where, first_where-test, first_where-All, exists_where-of_none, count_where,
  exists_where, update_where, update_first, next_id,
}
use lemonbot.Storage.Tables.{Database, OutboxRow, AllowlistRow}
use lemonbot.Storage.Outbox.{OutboxItem, mark_dispatching, apply_receipt, count_outbound_since}
use lemonbot.Storage.Allowlist.{is_allowlisted, contains}
use lemonbot.Storage.RuntimeState.{is_paused}
use lemonbot.Storage.History.{Choices, run}
use lemonbot.Storage.History.Sent.{hands_over, has_row_id}
use lemonbot.Policy.Config.{default_config, limits_for, day, hour}
use lemonbot.Policy.Quiet.{is_quiet, is_quiet_at}
use lemonbot.Policy.Evaluate.{evaluate, audited_decision}
use lemonbot.Policy.Engine.{
  decision_on, hard_denied, contains_secret, evaluate_communication, evaluate_reply,
}
use lemonbot.Pipeline.{Attempt, returns, Surroundings, arrive}
use lemonbot.Pipeline.Refinement.{Refines}
use lemonbot.Pipeline.Delivery.{dispatch_once, dispatch_reserved, delivery_action}
use lemonbot.Pipeline.Delivery.Refines.{dispatch_once-Refines}
use lemonbot.Pipeline.Delivery.Once.{deliveries, deliveries_once, dispatch_reserved-judged}

abbrev first_row : {A : Type 0} → Choice A
first_row = record {
  choose = first_where;
  choose-test = first_where-test;
  choose-none = exists_where-of_none;
  choose_among = λ test P xs r h a. first_where-All (λ x. P x ≡ true) test xs r a h;
}

abbrev pub first_rows : Choices
first_rows = record { outbox = first_row; drafts = first_row }

abbrev read_text : Json → Option String
read_text (str s) = some s
read_text _ = none

abbrev acknowledges : OutboundMessage → Attempt
acknowledges message = returns (record {
  message_id = message.message_id;
  status = DeliveryStatus.acknowledged;
  external_id = none;
  acknowledged_at = none;
  detail = none;
})

abbrev pub noon : Time
noon = 1000 * day + 12 * hour

-- Nothing else runs, and the connector acknowledges what it is given.
abbrev pub quiet : Surroundings
quiet = record {
  texts = record { casefold = λ s. s; read_uuid = read_text };
  zone = record { local = λ t. t; utc = λ t. t };
  policy = default_config;
  show = λ j. "";
  select = first_rows;
  clock = λ k. noon + k;
  others = λ k. [];
  deliver = acknowledges;
}

abbrev waiting : OutboxRow
waiting = record {
  id = 1;
  message_id = "m1";
  channel = "fake";
  chat_id = "a";
  text = "hi";
  reply_to_event_id = some "e1";
  metadata_json = end;
  proactive = false;
  state = OutboxState.pending;
  attempts = 0;
  next_attempt_at = none;
  reserved_at = none;
  dispatch_started_at = none;
  acknowledged_at = none;
  external_id = none;
  failure_detail = none;
  created_at = noon;
  updated_at = noon;
}

abbrev chat : AllowlistRow
chat = record {
  id = 1;
  channel = "fake";
  chat_id = "a";
  enabled = true;
  label = none;
  created_at = 0;
  updated_at = 0;
}

abbrev pub ready : Database
ready = record {
  inbox = [];
  drafts = [];
  outbox = waiting ∷ [];
  messages = [];
  audit_log = [];
  allowlist = chat ∷ [];
  approvals = [];
  tool_executions = [];
  runtime_state = [];
}

dispatch_once-Refines_example :
    Refines first_rows hands_over
      (dispatch_once quiet "fake" ready).delivered
      ready
      (dispatch_once quiet "fake" ready).after
dispatch_once-Refines_example = dispatch_once-Refines quiet "fake" ready

one_row : count_where (has_row_id 1) ready.outbox ≤ 1
unfolding count_where
one_row = omega arith

abbrev rounds : List (Surroundings × String)
rounds = (quiet, "fake") ∷ (quiet, "fake") ∷ []

deliveries_once_example : deliveries first_rows 1 rounds ready ≤ 1
deliveries_once_example = deliveries_once first_rows 1 rounds ready one_row

abbrev item : OutboxItem
item = record {
  id = 1;
  message = record {
    message_id = "m1";
    channel = "fake";
    chat_id = "a";
    text = "hi";
    reply_to_event_id = some "e1";
    created_at = noon;
    metadata = end;
  };
  state = OutboxState.reserved;
  attempts = 1;
  reserved_at = some noon;
  dispatch_started_at = none;
}

abbrev reserved : Database
reserved = record ready { outbox = record waiting { state = OutboxState.reserved } ∷ [] }

delivers_it : is_some (dispatch_reserved quiet item reserved).delivered ≡ true
unfolding dispatch_reserved run evaluate audited_decision decision_on hard_denied contains_secret
    is_paused evaluate_communication evaluate_reply is_allowlisted contains limits_for is_quiet
    is_quiet_at count_outbound_since count_where exists_where first_where strip lstrip rstrip
    mark_dispatching apply_receipt update_where update_first next_id
delivers_it = refl

dispatch_reserved-judged_example :
    (decision_on quiet.texts quiet.zone quiet.policy
      (quiet.clock 1)
      (arrive quiet 1 reserved)
      (delivery_action quiet item.message)).decision
    ≡ PolicyDecision.auto
dispatch_reserved-judged_example = dispatch_reserved-judged quiet item reserved delivers_it
