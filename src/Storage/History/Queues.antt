-- ===== src/Storage/History/Queues.antt =====
-- What no history can do to a row of the inbox, of the outbox, or of the tool executions.
use lemonbot.Prelude.{◌≡◌, refl, sym, subst, List, [], ◌∷◌}
use lemonbot.Domain.{Time}
use lemonbot.Sql.Evolution.{Evolves, Evolves-refl, Evolves-Since, Since, Since-trans}
use lemonbot.Storage.Tables.{Database, InboxRow, OutboxRow, ToolExecutionRow}
use lemonbot.Storage.Inbox.Lifecycle as Inbox
use lemonbot.Storage.Outbox.Lifecycle as Outbox
use lemonbot.Storage.Tools.Lifecycle as Tools
use lemonbot.Storage.Recovery.Lifecycle.{inbox-recover, outbox-recover, tools-recover}
use lemonbot.Storage.History.Frames.{
  outbox-inbox_step, tools-inbox_step, inbox-tool_step, outbox-tool_step, inbox-outbox_step,
  tools-outbox_step, inbox-other_step, outbox-other_step, tools-other_step,
}
use lemonbot.Storage.History.{
  Call, InboxCall, OutboxCall, ToolCall, Choices, inbox_step, outbox_step, tool_step, step, run,
  on_inbox, on_outbox, on_tools, on_other, recovers, records, claims, completes, starts, fails,
  creates, reserves, dispatches, receives, doubts, kills, releases, reconciles, begins, executes,
  resolves,
}

-- The steps of the rows of one table over a history.
abbrev pub InboxSteps : List InboxRow → List InboxRow → Type 0
InboxSteps = Evolves Inbox.Moves (Since Inbox.Moves Inbox.IsNew)

abbrev pub OutboxSteps : List OutboxRow → List OutboxRow → Type 0
OutboxSteps = Evolves Outbox.Moves (Since Outbox.Moves Outbox.IsNew)

abbrev pub ToolSteps : List ToolExecutionRow → List ToolExecutionRow → Type 0
ToolSteps = Evolves Tools.Moves (Since Tools.Moves Tools.IsNew)

module _ (now : Time) (db : Database) where
  inbox_step-Evolves :
      (c : InboxCall) → Evolves Inbox.Moves Inbox.IsNew db.inbox (inbox_step now c db).inbox
  unfolding inbox_step
  inbox_step-Evolves (records event) = Inbox.record_inbound-Evolves event now db
  inbox_step-Evolves (claims channel) = Inbox.claim_next_inbox-Evolves _ channel now db
  inbox_step-Evolves (completes id) = Inbox.complete_inbox-Evolves _ id now db
  inbox_step-Evolves (starts id) = Inbox.mark_inbox_model_started-Evolves _ id now db
  inbox_step-Evolves (fails id error retryable max_attempts) =
      Inbox.fail_inbox-Evolves _ id error retryable max_attempts now db

  outbox_step-Evolves :
      (select : Choices) (c : OutboxCall)
      → Evolves Outbox.Moves Outbox.IsNew db.outbox (outbox_step select now c db).outbox
  unfolding outbox_step
  outbox_step-Evolves select (creates m) = Outbox.create_outbox-Evolves select.outbox m now db
  outbox_step-Evolves select (reserves channel) =
      Outbox.reserve_next_outbox-Evolves _ channel now db
  outbox_step-Evolves select (dispatches id) = Outbox.mark_dispatching-Evolves _ id now db
  outbox_step-Evolves select (receives id receipt) =
      Outbox.apply_receipt-Evolves _ id receipt now db
  outbox_step-Evolves select (doubts id detail) =
      Outbox.mark_outbox_unknown-Evolves _ id now db detail
  outbox_step-Evolves select (kills id detail) =
      Outbox.mark_reserved_dead-Evolves _ id now db detail
  outbox_step-Evolves select (releases id detail delay) =
      Outbox.release_reserved-Evolves _ id now db detail delay
  outbox_step-Evolves select (reconciles id outcome note) =
      Outbox.reconcile_unknown_outbox-Evolves _ id outcome note now db

  tool_step-Evolves :
      (c : ToolCall)
      → Evolves Tools.Moves Tools.IsNew db.tool_executions (tool_step now c db).tool_executions
  unfolding tool_step
  tool_step-Evolves (begins q id) =
      Tools.begin_tool_execution-Evolves _ q id now db (λ _. record { state = refl })
  tool_step-Evolves (executes id) = Tools.mark_tool_executing-Evolves _ id now db
  tool_step-Evolves (resolves id state code summary) =
      Tools.resolve_tool_execution-Evolves _ id state code summary now db

InboxSteps-same : {xs ys : List InboxRow} → ys ≡ xs → InboxSteps xs ys
InboxSteps-same {xs} e = subst (InboxSteps xs) (sym e) (Evolves-refl _ _ Inbox.Moves-refl xs)

OutboxSteps-same : {xs ys : List OutboxRow} → ys ≡ xs → OutboxSteps xs ys
OutboxSteps-same {xs} e = subst (OutboxSteps xs) (sym e) (Evolves-refl _ _ Outbox.Moves-refl xs)

ToolSteps-same : {xs ys : List ToolExecutionRow} → ys ≡ xs → ToolSteps xs ys
ToolSteps-same {xs} e = subst (ToolSteps xs) (sym e) (Evolves-refl _ _ Tools.Moves-refl xs)

module _ (select : Choices) where
  inbox-step : (c : Time × Call) (db : Database) → InboxSteps db.inbox (step select c db).inbox
  unfolding step
  inbox-step (now, on_inbox c) db =
      Evolves-Since _ _ Inbox.Moves-refl db.inbox _ (inbox_step-Evolves now db c)
  inbox-step (now, on_outbox c) db = InboxSteps-same (inbox-outbox_step select now db c)
  inbox-step (now, on_tools c) db = InboxSteps-same (inbox-tool_step now db c)
  inbox-step (now, on_other c) db = InboxSteps-same (inbox-other_step select now db c)
  inbox-step (now, recovers stale) db = inbox-recover stale now db

  outbox-step : (c : Time × Call) (db : Database) → OutboxSteps db.outbox (step select c db).outbox
  unfolding step
  outbox-step (now, on_inbox c) db = OutboxSteps-same (outbox-inbox_step now db c)
  outbox-step (now, on_outbox c) db =
      Evolves-Since _ _ Outbox.Moves-refl db.outbox _ (outbox_step-Evolves now db select c)
  outbox-step (now, on_tools c) db = OutboxSteps-same (outbox-tool_step now db c)
  outbox-step (now, on_other c) db = OutboxSteps-same (outbox-other_step select now db c)
  outbox-step (now, recovers stale) db = outbox-recover stale now db

  tools-step :
      (c : Time × Call) (db : Database)
      → ToolSteps db.tool_executions (step select c db).tool_executions
  unfolding step
  tools-step (now, on_inbox c) db = ToolSteps-same (tools-inbox_step now db c)
  tools-step (now, on_outbox c) db = ToolSteps-same (tools-outbox_step select now db c)
  tools-step (now, on_tools c) db =
      Evolves-Since _ _ Tools.Moves-refl db.tool_executions _ (tool_step-Evolves now db c)
  tools-step (now, on_other c) db = ToolSteps-same (tools-other_step select now db c)
  tools-step (now, recovers stale) db = tools-recover stale now db

  -- Over any history no inbox row is lost: its event's id, chat and time stay, a completed or dead row is
  -- final, a row whose model call may have begun never becomes pending again, and attempts are
  -- never taken back.
  pub run-inbox :
      (cs : List (Time × Call)) (db : Database) → InboxSteps db.inbox (run select cs db).inbox
  unfolding run
  run-inbox [] db = Evolves-refl _ _ Inbox.Moves-refl db.inbox
  run-inbox (c ∷ cs) db =
      Since-trans _ _ Inbox.Moves-trans db.inbox _ _ (inbox-step c db)
        (run-inbox cs (step select c db))

  -- Over any history an outbox row that may have reached the connector (dispatching, acknowledged,
  -- unknown or dead) never becomes pending or reserved again; acknowledged and dead are final, and
  -- what has left dispatching does not return to it; the message's id, destination, text and the
  -- event that it answers stay.
  pub run-outbox :
      (cs : List (Time × Call)) (db : Database) → OutboxSteps db.outbox (run select cs db).outbox
  unfolding run
  run-outbox [] db = Evolves-refl _ _ Outbox.Moves-refl db.outbox
  run-outbox (c ∷ cs) db =
      Since-trans _ _ Outbox.Moves-trans db.outbox _ _ (outbox-step c db)
        (run-outbox cs (step select c db))

  -- Over any history a tool execution keeps its call and its arguments' digest, its outcome is
  -- final, and once it has left the requested state it is never requested again.
  pub run-tools :
      (cs : List (Time × Call)) (db : Database)
      → ToolSteps db.tool_executions (run select cs db).tool_executions
  unfolding run
  run-tools [] db = Evolves-refl _ _ Tools.Moves-refl db.tool_executions
  run-tools (c ∷ cs) db =
      Since-trans _ _ Tools.Moves-trans db.tool_executions _ _ (tools-step c db)
        (run-tools cs (step select c db))
