-- ===== src/Storage/History/Samples.antt =====
-- Runs of the repository's methods on concrete databases.
use lemonbot.Prelude.{
  ℕ, ok, ◌-◌, ◌≤◌, ◌==◌, nat_eq, String, ◌≡◌, refl, true, false, none, some, List, [], ◌∷◌, All,
  arith, string_eq, map,
}
use lemonbot.Prelude.Json.{end}
use lemonbot.Domain.{
  Time, EventKind, DeliveryStatus, InboxState, OutboxState, InboundEvent, OutboundMessage,
  DeliveryReceipt,
}
use lemonbot.Sql.{
  upsert, Choice, exists_where-of_none, first_where, first_where-test, first_where-All,
  exists_where, update_where, count_where, first_by, select_where, next_id, update_first,
}
use lemonbot.Storage.Tables.{Database}
use lemonbot.Storage.Inbox.{
  InboxItem, inbox_item, record_inbound, claim_next_inbox, candidate, is_eligible, claim_row,
  transition_inbox, complete_inbox, mark_inbox_model_started,
}
use lemonbot.Storage.Inbox.Claim.{IsTurn, claim_next_inbox-IsTurn, claim_next_inbox-none}
use lemonbot.Storage.Outbox.{
  reserve_row, next_outbox, create_outbox, reserve_next_outbox, mark_dispatching, apply_receipt,
}
use lemonbot.Storage.Allowlist.{
  set_allowlisted, is_allowlisted, contains, enroll_all, Reconciled, reconcile_allowlist,
}
use lemonbot.Storage.Allowlist.Chats.{reconcile_allowlist-is_allowlisted}
use lemonbot.Storage.Recovery.{recover_interrupted}
use lemonbot.Storage.Recovery.Settled.{Settled, recover_interrupted-Settled}
use lemonbot.Storage.Tools.{ToolRequest, begin_tool_execution}
use lemonbot.Storage.Tools.Again.{begin_tool_execution_again}
use lemonbot.Storage.History.{
  Call, Choices, run, step, inbox_step, outbox_step, on_inbox, on_outbox, on_tools, recovers,
  records, claims, completes, starts, creates, reserves, dispatches, receives, begins, executes,
}
use lemonbot.Storage.History.Queues.{
  InboxSteps, OutboxSteps, ToolSteps, run-inbox, run-outbox, run-tools,
}
use lemonbot.Storage.History.Sent.{has_row_id, handovers}
use lemonbot.Storage.History.SentOnce.{handovers_once}
use lemonbot.Storage.History.Once.{OncePerEvent, run-OncePerEvent}
use lemonbot.Storage.History.OneReply.{OneReply, run-OneReply}

abbrev empty : Database
empty = record {
  inbox = [];
  drafts = [];
  outbox = [];
  messages = [];
  audit_log = [];
  allowlist = [];
  approvals = [];
  tool_executions = [];
  runtime_state = [];
}

-- An event of a chat, which occurred at a time.
abbrev event : String → String → Time → InboundEvent
event id chat occurred_at = record {
  channel = "fake";
  event_id = id;
  chat_id = chat;
  sender_id = "sender";
  text = some "hello";
  kind = EventKind.text;
  occurred_at = occurred_at;
  metadata = end;
}

abbrev reply : String → String → OutboundMessage
reply id event_id = record {
  message_id = id;
  channel = "fake";
  chat_id = "a";
  text = "hi";
  reply_to_event_id = some event_id;
  created_at = 3;
  metadata = end;
}

abbrev receipt : DeliveryReceipt
receipt = record {
  message_id = "m1";
  status = DeliveryStatus.acknowledged;
  external_id = some "x1";
  acknowledged_at = none;
  detail = none;
}

abbrev tool_request : ToolRequest
tool_request = record {
  profile = "default";
  channel = "fake";
  chat_id = "a";
  event_id = "e1";
  call_id = "c1";
  tool_name = "browse";
  action_kind = "browse_public_https";
  arguments_summary = "{}";
  arguments_sha256 = "0";
  side_effect = false;
}

-- SQLite's choice, taken as the first row in the order of the table.
abbrev first_row : {A : Type 0} → Choice A
first_row = record {
  choose = first_where;
  choose-test = first_where-test;
  choose-none = exists_where-of_none;
  choose_among = λ test P xs r h a. first_where-All (λ x. P x ≡ true) test xs r a h;
}

abbrev first_rows : Choices
first_rows = record { outbox = first_row; drafts = first_row }

-- Two events of chat "a", of which the second is recorded first, and one of chat "b".
abbrev three_events : List (Time × Call)
three_events =
    (10, on_inbox (records (event "e2" "a" 6)))
    ∷ (11, on_inbox (records (event "e1" "a" 5)))
    ∷ (12, on_inbox (records (event "e3" "b" 7)))
    ∷ []

-- What claims the first of them, calls the model, replies to it, and sends the reply.
abbrev served : List (Time × Call)
served =
    (20, on_inbox (claims none))
    ∷ (21, on_inbox (starts 2))
    ∷ (22, on_outbox (creates (reply "m1" "e1")))
    ∷ (23, on_outbox (creates (reply "m2" "e1")))
    ∷ (24, on_outbox (reserves (some "fake")))
    ∷ (25, on_outbox (dispatches 1))
    ∷ (26, on_outbox (receives 1 receipt))
    ∷ (27, on_inbox (completes 2))
    ∷ []

abbrev tool_calls : List (Time × Call)
tool_calls =
    (30, on_tools (begins tool_request "t1"))
    ∷ (31, on_tools (executes "t1"))
    ∷ (40, recovers 5)
    ∷ []

abbrev received : Database
received = run first_rows three_events empty

abbrev first_claim : InboxItem
first_claim = record {
  id = 2;
  event = event "e1" "a" 5;
  state = InboxState.processing;
  attempts = 1;
  claimed_at = some 20;
}

claims_oldest : (claim_next_inbox none 20 received).1 ≡ some first_claim
unfolding run step inbox_step record_inbound claim_next_inbox claim_row candidate inbox_item
    first_by select_where exists_where update_where first_where count_where next_id
claims_oldest = refl

unique_ids : (id : ℕ) → count_where (λ r. r.id == id) received.inbox ≤ 1
unfolding run step inbox_step record_inbound exists_where count_where next_id
unique_ids id = ground arith

claim_next_inbox-IsTurn_example : IsTurn none 20 received.inbox first_claim
claim_next_inbox-IsTurn_example =
    claim_next_inbox-IsTurn none 20 received first_claim unique_ids claims_oldest

-- The first event is being processed, and the second waits for it.
abbrev busy : Database
busy =
    run first_rows
      ((10, on_inbox (records (event "e1" "a" 5)))
        ∷ (11, on_inbox (claims none))
        ∷ (12, on_inbox (records (event "e2" "a" 6)))
        ∷ [])
      empty

claims_none : (claim_next_inbox none 20 busy).1 ≡ none
unfolding run step inbox_step record_inbound claim_next_inbox claim_row candidate inbox_item
    first_by select_where exists_where update_where first_where count_where next_id
claims_none = refl

claim_next_inbox-none_example : All (λ r. is_eligible none busy.inbox r ≡ true → ⊥) busy.inbox
claim_next_inbox-none_example = claim_next_inbox-none none 20 busy claims_none

run-inbox_example : InboxSteps received.inbox (run first_rows served received).inbox
run-inbox_example = run-inbox first_rows served received

run-outbox_example : OutboxSteps received.outbox (run first_rows served received).outbox
run-outbox_example = run-outbox first_rows served received

run-tools_example :
    ToolSteps received.tool_executions (run first_rows tool_calls received).tool_executions
run-tools_example = run-tools first_rows tool_calls received

OncePerEvent-before : OncePerEvent empty.inbox
unfolding count_where
OncePerEvent-before channel event_id = omega arith

run-OncePerEvent_example : OncePerEvent (run first_rows three_events empty).inbox
run-OncePerEvent_example = run-OncePerEvent first_rows three_events empty OncePerEvent-before

OneReply-before : OneReply empty.outbox
unfolding count_where
OneReply-before = record { messages = λ id. omega arith; replies = λ channel event. omega arith }

run-OneReply_example : OneReply (run first_rows served empty).outbox
run-OneReply_example = run-OneReply first_rows served empty OneReply-before

states_after :
    map (λ r. r.state) (run first_rows served received).outbox ≡ OutboxState.acknowledged ∷ []
unfolding run step inbox_step outbox_step record_inbound claim_next_inbox claim_row candidate
    inbox_item mark_inbox_model_started create_outbox reserve_next_outbox reserve_row next_outbox
    mark_dispatching apply_receipt transition_inbox complete_inbox first_by select_where
    exists_where update_where update_first first_where count_where next_id
states_after = refl

-- A message that is being dispatched when the process stops.
abbrev in_flight : Database
in_flight =
    run first_rows
      ((10, on_outbox (creates (reply "m1" "e1")))
        ∷ (11, on_outbox (reserves none))
        ∷ (12, on_outbox (dispatches 1))
        ∷ [])
      empty

recover_interrupted-Settled_example : Settled (20 - 5) (recover_interrupted 5 20 in_flight).0
recover_interrupted-Settled_example = recover_interrupted-Settled 5 20 in_flight

-- Chat "b" was enrolled by hand, and the configuration names chat "a".
abbrev enrolled_by_hand : Database
enrolled_by_hand = set_allowlisted "fake" "b" true none 1 empty

abbrev configured : List String
configured = "a" ∷ []

abbrev one_change : Reconciled
one_change = record { configured = 1; disabled = 1; upserted = 1 }

reconciles_chats : (reconcile_allowlist "fake" configured none 2 enrolled_by_hand).1 ≡ ok one_change
unfolding reconcile_allowlist set_allowlisted contains enroll_all upsert update_where exists_where
    count_where next_id
reconciles_chats = refl

reconcile_allowlist-is_allowlisted_example :
    is_allowlisted "fake" "b" (reconcile_allowlist "fake" configured none 2 enrolled_by_hand).0
    ≡ contains "b" configured
reconcile_allowlist-is_allowlisted_example =
    reconcile_allowlist-is_allowlisted "fake" configured none 2 enrolled_by_hand one_change
      reconciles_chats "b"

begins_call : (begin_tool_execution tool_request "t1" 30 received).1 ≡ ok ("t1", true)
unfolding run step inbox_step record_inbound begin_tool_execution exists_where next_id
begins_call = refl

begin_tool_execution_again_example :
    begin_tool_execution tool_request "t2" 31 (begin_tool_execution tool_request "t1" 30 received).0
    ≡ ((begin_tool_execution tool_request "t1" 30 received).0, ok ("t1", false))
begin_tool_execution_again_example =
    begin_tool_execution_again tool_request "t1" "t2" 30 31 received "t1" true begins_call

one_reply : count_where (has_row_id 1) (run first_rows served empty).outbox ≤ 1
unfolding run step inbox_step outbox_step claim_next_inbox claim_row candidate
    mark_inbox_model_started create_outbox reserve_next_outbox reserve_row next_outbox
    mark_dispatching apply_receipt transition_inbox complete_inbox first_by select_where
    exists_where update_where update_first first_where count_where next_id
one_reply = omega arith

handovers_once_example : handovers first_rows 1 served (run first_rows served empty) ≤ 1
handovers_once_example = handovers_once first_rows 1 served (run first_rows served empty) one_reply
