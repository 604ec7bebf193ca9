-- ===== src/Pipeline/Delivery.antt =====
-- orchestration/pipeline.py: `dispatch_once`. Deriving memory from an acknowledged message, which
-- cannot change its outcome, is left out.
pub mod Refines
pub mod Once
pub mod Samples
use Prim.Native.String.{◌++◌ as concat}
use text.Mathlib.Text.{starts_with}
use lemonbot.Prelude.{
  ℕ, String, Bool, true, false, ◌||◌, Option, none, some, List, [], ◌∷◌, ◌==◌, nat_eq, string_eq,
  if◌then◌else◌, Exception, Result, ok, err,
}
use lemonbot.Prelude.Json.{Json, str, Fields, field, end, get, get_flag}
use lemonbot.Domain.{
  Time, OutboundMessage, DeliveryReceipt, OutboxState, PolicyDecision, ProposedAction,
  PolicyEvaluation, AuditRecord, policy_decision_eq,
}
use lemonbot.Storage.Tables.{Database, add_audit}
use lemonbot.Storage.Allowlist.{contains}
use lemonbot.Storage.Outbox.{
  OutboxItem, outbox_value, reserve_next_outbox, mark_dispatching, apply_receipt,
  mark_outbox_unknown, release_reserved, mark_reserved_dead,
}
use lemonbot.Policy.Evaluate.{evaluate}
use lemonbot.Pipeline.{
  PipelineStatus, PipelineResult, Attempt, returns, raises, Surroundings, arrive, exception_name,
}

-- A method's result and, where it called `connector.deliver`, the id of the row.
pub record Dispatch : Type 0 where
  pub after : Database
  pub result : Result PipelineResult
  pub delivered : Option ℕ

abbrev finished : PipelineStatus → ℕ → String → PipelineResult
finished status id detail = record { status = status; item_id = some id; detail = some detail }

abbrev transient_rules : List String
transient_rules =
    "runtime_paused" ∷ "quiet_hours" ∷ "proactive_cooldown" ∷ "proactive_chat_day"
    ∷ "proactive_global_day" ∷ []

unfoldable pub is_transient : String → Bool
is_transient rule_id = starts_with rule_id "rate_" || contains rule_id transient_rules

-- `evaluation.retry_after_seconds or 300`
abbrev pub retry_seconds : Option ℕ → ℕ
retry_seconds none = 300
retry_seconds (some n) = if n == 0 then 300 else n

module _ (env : Surroundings) where
  -- `str(message.metadata.get("reason_event_id", ""))`
  abbrev stored_reason : Option Json → String
  stored_reason none = ""
  stored_reason (some (str s)) = s
  stored_reason (some v) = env.show v

  abbrev pub delivery_action : OutboundMessage → ProposedAction
  delivery_action message =
      let proactive = get_flag message.metadata "proactive" in
      record {
        kind = if proactive then "proactive_message" else "reply";
        channel = some message.channel;
        chat_id = some message.chat_id;
        bound_channel = some message.channel;
        bound_chat_id = some message.chat_id;
        reason_event_id =
            if proactive
            then some (stored_reason (get message.metadata "reason_event_id"))
            else message.reply_to_event_id;
        proactive = proactive;
        side_effect = true;
        tool_name = none;
        arguments = field "message_id" (str message.message_id) end;
      }

  -- A policy that says no: the reservation is given back for later, or the row is given up.
  abbrev pub released : ℕ → String → Database × Result Bool → Dispatch
  released id rule (db, err e) = record { after = db; result = err e; delivered = none }
  released id rule (db, ok _) = record {
    after = db;
    result = ok (finished PipelineStatus.deferred id rule);
    delivered = none;
  }

  abbrev pub withdraw : OutboxItem → PolicyEvaluation → Database → Dispatch
  withdraw item e db =
      let db₁ = arrive env 2 db in
      if is_transient e.rule_id
      then released item.id e.rule_id (
          release_reserved item.id e.reason (retry_seconds e.retry_after_seconds) (env.clock 2) db₁)
      else record {
        after = (mark_reserved_dead item.id e.reason (env.clock 2) db₁).0;
        result = ok (finished PipelineStatus.dead item.id e.rule_id);
        delivered = none;
      }

  abbrev pub unknown_audit : OutboundMessage → String → Time → AuditRecord
  unknown_audit message name now = record {
    action = "outbox.deliver";
    outcome = outbox_value OutboxState.unknown;
    channel = some message.channel;
    chat_id = some message.chat_id;
    event_id = message.reply_to_event_id;
    message_id = some message.message_id;
    rule_id = none;
    detail = field "error_type" (str name) end;
    occurred_at = now;
  }

  -- The outcome is not known: the row is quarantined.
  abbrev pub quarantine : OutboxItem → String → Database → Dispatch
  quarantine item name db =
      let db₁ = (mark_outbox_unknown item.id name (env.clock 4) (arrive env 4 db)).0 in
      record {
        after = add_audit (unknown_audit item.message name (env.clock 5)) (arrive env 5 db₁);
        result = ok (finished PipelineStatus.unknown item.id name);
        delivered = some item.id;
      }

  abbrev receipt_status : OutboxState → PipelineStatus
  receipt_status OutboxState.acknowledged = PipelineStatus.acknowledged
  receipt_status OutboxState.unknown = PipelineStatus.unknown
  receipt_status _ = PipelineStatus.dead

  abbrev pub received : OutboxItem → Database × Result OutboxState → Dispatch
  received item (db, err e) = quarantine item (exception_name e) db
  received item (db, ok state) = record {
    after = db;
    result = ok (finished (receipt_status state) item.id (outbox_value state));
    delivered = some item.id;
  }

  abbrev pub conclude : OutboxItem → Attempt → Database → Dispatch
  conclude item (raises name) db = quarantine item name db
  conclude item (returns receipt) db =
      received item (apply_receipt item.id receipt (env.clock 3) (arrive env 3 db))

  abbrev pub hand_over : OutboxItem → Database → Dispatch
  hand_over item db =
      let marked = mark_dispatching item.id (env.clock 2) (arrive env 2 db) in
      if marked.1 then conclude item (env.deliver item.message) marked.0 else record {
        after = marked.0;
        result =
            ok (finished PipelineStatus.unknown item.id "outbox state changed before dispatch");
        delivered = none;
      }

  abbrev pub judged : OutboxItem → Database × Result PolicyEvaluation → Dispatch
  judged item (db, err e) = record { after = db; result = err e; delivered = none }
  judged item (db, ok e) =
      if e.decision == PolicyDecision.auto then hand_over item db else withdraw item e db

  unfoldable pub dispatch_reserved : OutboxItem → Database → Dispatch
  dispatch_reserved item db = judged item (
      evaluate env.texts env.zone env.policy (env.clock 1) (delivery_action item.message)
        (arrive env 1 db))

  abbrev pub dispatch_item : Database × Option OutboxItem → Dispatch
  dispatch_item (db, none) = record {
    after = db;
    result = ok (record { status = PipelineStatus.idle; item_id = none; detail = none });
    delivered = none;
  }
  dispatch_item (db, some item) = dispatch_reserved item db

  unfoldable pub dispatch_once : String → Database → Dispatch
  dispatch_once channel db =
      dispatch_item (reserve_next_outbox (some channel) (env.clock 0) (arrive env 0 db))
