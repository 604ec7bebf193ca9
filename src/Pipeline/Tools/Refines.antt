-- ===== src/Pipeline/Tools/Refines.antt =====
-- `_invoke_tool` is a history of the repository's methods, and runs a tool only for an execution that it has
-- marked as executing.
use lemonbot.Prelude.{
  ℕ, ◌+◌, String, ◌≡◌, refl, Bool, true, false, Option, none, some, arith, ◌==◌, string_eq, eq_iff,
  Bool-cases, inl, inr, Result, ok, err,
}
use lemonbot.Prelude.Json.{Fields}
use lemonbot.Domain.{Time, PolicyDecision, PolicyEvaluation, policy_decision_eq}
use lemonbot.Domain.Exchange.{DataClass, ToolCall, ToolManifest, ToolResult}
use lemonbot.Storage.Tables.{Database, ApprovalRow, ToolState}
use lemonbot.Storage.Inbox.{InboxItem}
use lemonbot.Storage.Tools.{begin_tool_execution, mark_tool_executing}
use lemonbot.Approvals.{create}
use lemonbot.Storage.History.{
  Call, step, tool_step, other_step, on_tools, on_other, begins, executes, resolves, asks_approval,
}
use lemonbot.Storage.History.Executions.{starts_tool}
use lemonbot.Pipeline.{Surroundings, arrive}
use lemonbot.Pipeline.Agent.{Agent, Approver, Tool, Outside, answers, is_cancelled, raises}
use lemonbot.Pipeline.Refinement.{
  Refines, Refines-refl, Refines-history, Refines-marked, Refines-then, Refines-after,
  Refines-transaction, Refines-evaluate,
}
use lemonbot.Pipeline.Tools.Answers.{
  find_tool, allows_class, call_class, tool_action, tool_context, reported_state, reported_code,
  reported_summary,
}
use lemonbot.Pipeline.Tools.{
  Invocation, resolve_at, recorded_result, settled, run_tool, commit, pending_approval,
  request_approval, approval_request, ask_approval, evaluate_at, decided, classified, validated,
  enrolled, begun, tool_request, requested, invoke_tool,
}

module _ (env : Surroundings) (agent : Agent) (item : InboxItem) where
  abbrev Reaches : Option String → Database → Database → Type 0
  Reaches = Refines env.select starts_tool

  resolve_at-Reaches :
      (k : ℕ) (id : String) (state : ToolState) (code : String) (summary : Fields) (db : Database)
      → Reaches none db (resolve_at env agent item k id state code summary db).0
  unfolding step tool_step
  resolve_at-Reaches k id state code summary db =
      Refines-transaction env starts_tool k (env.clock k, on_tools (resolves id state code summary))
        db

  recorded_result-Reaches :
      (id : String) (r : ToolResult) (before : Database) (found : Database × Result Bool)
      → Reaches none before found.0
      → Reaches none before (recorded_result env agent item id r found).after
  recorded_result-Reaches id r before (db, ok true) h = h
  recorded_result-Reaches id r before (db, ok false) h = h
  recorded_result-Reaches id r before (db, err e) h = h

  settled-Reaches :
      (k : ℕ) (id : String) (manifest : ToolManifest) (o : Outside ToolResult) (db : Database)
      → Reaches none db (settled env agent item k id manifest o db).after
  settled-Reaches k id manifest is_cancelled db = resolve_at-Reaches k id _ _ _ db
  settled-Reaches k id manifest (raises name) db = resolve_at-Reaches k id _ _ _ db
  settled-Reaches k id manifest (answers r) db =
      recorded_result-Reaches id r db
        (resolve_at env agent item k id (reported_state r) (reported_code r) (reported_summary r)
          db)
        (resolve_at-Reaches k id _ _ _ db)

  ran-recorded_result :
      (id : String) (r : ToolResult) (found : Database × Result Bool)
      → (recorded_result env agent item id r found).ran ≡ some id
  ran-recorded_result id r (db, ok true) = refl
  ran-recorded_result id r (db, ok false) = refl
  ran-recorded_result id r (db, err e) = refl

  ran-settled :
      (k : ℕ) (id : String) (manifest : ToolManifest) (o : Outside ToolResult) (db : Database)
      → (settled env agent item k id manifest o db).ran ≡ some id
  ran-settled k id manifest is_cancelled db = refl
  ran-settled k id manifest (raises name) db = refl
  ran-settled k id manifest (answers r) db = ran-recorded_result id r _

  run_tool-Reaches :
      (k : ℕ) (id : String) (tool : Tool) (class : DataClass) (arguments : Fields) (db : Database)
      → Reaches
          (run_tool env agent item k id tool class arguments db).ran
          db
          (run_tool env agent item k id tool class arguments db).after
  unfolding step tool_step
  run_tool-Reaches k id tool class arguments db =
      let found = arrive env k db in
      let marks : Time × Call = (env.clock k, on_tools (executes id)) in
      let marked = mark_tool_executing id (env.clock k) found in
      let outcome = tool.invoke k (tool_context agent item class) arguments in
      elim (Bool-cases marked.1) [
        | inr m ↦ rw m (Refines-transaction env starts_tool k marks db)
        | inl m ↦
            let mine : starts_tool id marks found ≡ true = ground (arith, (eq_iff id id).1 refl) in
            rw (m, ran-settled (k + 1) id tool.manifest outcome marked.0)
              (Refines-then env.select starts_tool (some id) db found _
                (Refines-history env.select starts_tool (env.others k) db)
                (Refines-after env.select starts_tool (some id) found marked.0 _
                  (Refines-marked env.select starts_tool id marks found mine)
                  (settled-Reaches (k + 1) id tool.manifest outcome marked.0)))
      ]

  -- An invocation that begins where a history has led to.
  abbrev Continues : Database → Invocation → Type 0
  Continues before i = Reaches i.ran before i.after

  Continues-then :
      (before db : Database) (i : Invocation)
      → Reaches none before db
      → Continues db i
      → Continues before i
  Continues-then before db i h c = Refines-then env.select starts_tool i.ran before db i.after h c

  commit-Continues :
      (k : ℕ) (id : String) (tool : Tool) (class : DataClass) (arguments : Fields)
      (before : Database) (r : Database × Result PolicyEvaluation)
      → Reaches none before r.0
      → Continues before (commit env agent item k id tool class arguments r)
  commit-Continues k id tool class arguments before (db, err e) h = h
  commit-Continues k id tool class arguments before (db, ok e) h =
      elim (Bool-cases (e.decision == PolicyDecision.auto)) [
        | inl t ↦ rw t (
            Continues-then before db (run_tool env agent item k id tool class arguments db) h
              (run_tool-Reaches k id tool class arguments db))
        | inr t ↦ rw t (
            Refines-then env.select starts_tool none before db _ h
              (resolve_at-Reaches k id _ _ _ db))
      ]

  pending_approval-Continues :
      (k : ℕ) (id : String) (before : Database) (r : Database × Result ApprovalRow)
      → Reaches none before r.0
      → Continues before (pending_approval env agent item k id r)
  pending_approval-Continues k id before (db, err e) h = h
  pending_approval-Continues k id before (db, ok row) h =
      Refines-then env.select starts_tool none before db _ h (resolve_at-Reaches k id _ _ _ db)

  request_approval-Continues :
      (k : ℕ) (id : String) (approver : Approver) (manifest : ToolManifest)
      (c : Result (Fields × String × String)) (db : Database)
      → Continues db (request_approval env agent item k id approver manifest c db)
  unfolding step other_step
  request_approval-Continues k id approver manifest (err e) db =
      Refines-refl env.select starts_tool db
  request_approval-Continues k id approver manifest (ok c) db =
      let q = approval_request env agent item k approver manifest c in
      pending_approval-Continues (k + 1) id db (create q (arrive env k db))
        (Refines-transaction env starts_tool k (env.clock k, on_other (asks_approval q)) db)

  ask_approval-Continues :
      (k : ℕ) (id : String) (approver : Option Approver) (manifest : ToolManifest)
      (arguments : Fields) (db : Database)
      → Continues db (ask_approval env agent item k id approver manifest arguments db)
  ask_approval-Continues k id none manifest arguments db = resolve_at-Reaches k id _ _ _ db
  ask_approval-Continues k id (some approver) manifest arguments db =
      request_approval-Continues k id approver manifest (approver.canonicalize arguments) db

  decided-Continues :
      (k : ℕ) (id : String) (tool : Tool) (class : DataClass) (arguments : Fields)
      (before : Database) (r : Database × Result PolicyEvaluation)
      → Reaches none before r.0
      → Continues before (decided env agent item k id tool class arguments r)
  decided-Continues k id tool class arguments before (db, err e) h = h
  decided-Continues k id tool class arguments before (db, ok e) h =
      elim (Bool-cases (e.decision == PolicyDecision.approve_once)) [
        | inl a ↦ rw a (
            Continues-then before db
              (ask_approval env agent item k id agent.approver tool.manifest arguments db) h
              (ask_approval-Continues k id agent.approver tool.manifest arguments db))
        | inr a ↦ elim (Bool-cases (e.decision == PolicyDecision.auto)) [
          | inr t ↦
              rw (a, t)
                (Refines-then env.select starts_tool none before db _ h
                  (resolve_at-Reaches k id _ _ _ db))
          | inl t ↦
              let next = evaluate_at env agent item k tool.manifest arguments db in
              rw (a, t)
                (Continues-then before db
                  (commit env agent item (k + 1) id tool class arguments next) h
                  (commit-Continues (k + 1) id tool class arguments db next (
                    Refines-evaluate env starts_tool k (tool_action item tool.manifest arguments)
                      db)))
        ]
      ]

  classified-Continues :
      (k : ℕ) (id : String) (tool : Tool) (arguments : Fields) (class : Option DataClass)
      (db : Database)
      → Continues db (classified env agent item k id tool arguments class db)
  classified-Continues k id tool arguments none db = resolve_at-Reaches k id _ _ _ db
  classified-Continues k id tool arguments (some class) db =
      elim (Bool-cases (allows_class class tool.manifest.allowed_data)) [
        | inr a ↦ rw a (resolve_at-Reaches k id _ _ _ db)
        | inl a ↦ rw a (
            decided-Continues (k + 1) id tool class arguments db
              (evaluate_at env agent item k tool.manifest arguments db)
              (Refines-evaluate env starts_tool k (tool_action item tool.manifest arguments) db))
      ]

  validated-Continues :
      (k : ℕ) (id : String) (tool : Tool) (arguments : Fields) (rejected : Option String)
      (db : Database)
      → Continues db (validated env agent item k id tool arguments rejected db)
  validated-Continues k id tool arguments (some name) db = resolve_at-Reaches k id _ _ _ db
  validated-Continues k id tool arguments none db =
      classified-Continues k id tool arguments (call_class agent item tool.manifest arguments) db

  enrolled-Continues :
      (k : ℕ) (id : String) (call : ToolCall) (tool : Option Tool) (db : Database)
      → Continues db (enrolled env agent item k id call tool db)
  enrolled-Continues k id call none db = resolve_at-Reaches k id _ _ _ db
  enrolled-Continues k id call (some tool) db =
      validated-Continues k id tool call.arguments
        (agent.rejects call.arguments tool.manifest.input_schema) db

  begun-Continues :
      (k : ℕ) (call : ToolCall) (before : Database) (r : Database × Result (String × Bool))
      → Reaches none before r.0
      → Continues before (begun env agent item k call r)
  begun-Continues k call before (db, err e) h = h
  begun-Continues k call before (db, ok (id, false)) h = h
  begun-Continues k call before (db, ok (id, true)) h =
      Continues-then before db
        (enrolled env agent item k id call (find_tool call.name agent.tools) db) h
        (enrolled-Continues k id call (find_tool call.name agent.tools) db)

  requested-Continues :
      (k : ℕ) (call : ToolCall) (m : Result (String × String)) (db : Database)
      → Continues db (requested env agent item k call m db)
  unfolding step tool_step
  requested-Continues k call (err e) db = Refines-refl env.select starts_tool db
  requested-Continues k call (ok m) db =
      let q = tool_request env agent item call m in
      begun-Continues (k + 1) call db
        (begin_tool_execution q (agent.fresh k) (env.clock k) (arrive env k db))
        (Refines-transaction env starts_tool k (env.clock k, on_tools (begins q (agent.fresh k)))
          db)

-- Whatever other tasks do between its transactions, what `_invoke_tool` does to the database is a history of
-- the repository's methods, theirs among them; and where it runs a tool, `mark_tool_executing` returned
-- true for the execution in that history.
pub invoke_tool-Refines :
    (env : Surroundings) (agent : Agent) (item : InboxItem) (k : ℕ) (call : ToolCall)
    (db : Database)
    → Refines env.select starts_tool
        (invoke_tool env agent item k call db).ran
        db
        (invoke_tool env agent item k call db).after
unfolding invoke_tool
invoke_tool-Refines env agent item k call db =
    requested-Continues env agent item k call (agent.metadata call.arguments) db
