-- ===== src/Pipeline/Tools/Judged.antt =====
-- A tool runs only if it is enrolled, its arguments and data are permitted, and the policy decided AUTO
-- both when the call was planned and next to the invocation.
use lemonbot.Prelude.{
  ℕ, ◌+◌, ◌≡◌, refl, String, Bool, true, false, Option, none, some, arith, ◌==◌, Bool-cases,
  Option-cases, inl, inr, Result, ok, err, is_some,
}
use lemonbot.Prelude.Json.{Fields}
use lemonbot.Domain.{PolicyDecision, policy_decision_eq}
use lemonbot.Domain.Exchange.{DataClass, ToolCall, ToolManifest}
use lemonbot.Storage.Tables.{Database, ApprovalRow}
use lemonbot.Storage.Inbox.{InboxItem}
use lemonbot.Storage.Tools.{begin_tool_execution}
use lemonbot.Policy.Engine.{decision_on, is_valid_retry}
use lemonbot.Policy.Evaluate.{audited_decision}
use lemonbot.Policy.Evaluate.Audited.{evaluate-audited_decision}
use lemonbot.Pipeline.{Surroundings, arrive}
use lemonbot.Pipeline.Agent.{Agent, Approver, Tool}
use lemonbot.Pipeline.Tools.Answers.{find_tool, allows_class, call_class, tool_action}
use lemonbot.Pipeline.Tools.{
  commit, pending_approval, request_approval, ask_approval, evaluate_at, decided, classified,
  enrolled, begun, tool_request, requested, invoke_tool,
}

module _ (env : Surroundings) (agent : Agent) (item : InboxItem) where
  -- At the k-th transaction the policy decides AUTO for the tool.
  abbrev pub IsAuto : ℕ → ToolManifest → Fields → Database → Type 0
  IsAuto k manifest arguments db =
      (decision_on env.texts env.zone env.policy (env.clock k) (arrive env k db)
        (tool_action item manifest arguments)).decision
      ≡ PolicyDecision.auto

  -- What holds when a tool ran, of a call that was recorded before the k-th transaction.
  pub record Permitted (k : ℕ) (call : ToolCall) (db : Database) : Type 0 where
    pub tool : Tool
    pub is_enrolled : find_tool call.name agent.tools ≡ some tool
    pub is_valid : agent.rejects call.arguments tool.manifest.input_schema ≡ none
    pub class : DataClass
    pub has_class : call_class agent item tool.manifest call.arguments ≡ some class
    pub is_allowed : allows_class class tool.manifest.allowed_data ≡ true
    pub planned : IsAuto k tool.manifest call.arguments db
    pub committed :
        IsAuto
          (k + 1)
          tool.manifest
          call.arguments
          (evaluate_at env agent item k tool.manifest call.arguments db).0

  commit-IsAuto :
      (k j : ℕ) (id : String) (tool : Tool) (class : DataClass) (arguments : Fields) (db : Database)
      → is_some
          (commit env agent item k id tool class arguments
            (evaluate_at env agent item j tool.manifest arguments db)).ran
        ≡ true
      → IsAuto j tool.manifest arguments db
  unfolding audited_decision
  commit-IsAuto k j id tool class arguments db h =
      let e =
        decision_on env.texts env.zone env.policy (env.clock j) (arrive env j db)
          (tool_action item tool.manifest arguments) in
      let ends =
        evaluate-audited_decision env.texts env.zone env.policy (env.clock j)
          (tool_action item tool.manifest arguments) (arrive env j db) in
      elim (Bool-cases (is_valid_retry e.retry_after_seconds)) [
        | inr v ↦ let gone = rw (ends, v) at h in absurd (cc)
        | inl v ↦ elim (Bool-cases (e.decision == PolicyDecision.auto)) [
          | inl t ↦ ground arith
          | inr t ↦ let gone = rw (ends, v, t) at h in absurd (cc)
        ]
      ]

  pending_approval-idle :
      (k : ℕ) (id : String) (r : Database × Result ApprovalRow)
      → (pending_approval env agent item k id r).ran ≡ none
  pending_approval-idle k id (db, ok row) = refl
  pending_approval-idle k id (db, err e) = refl

  request_approval-idle :
      (k : ℕ) (id : String) (approver : Approver) (manifest : ToolManifest)
      (c : Result (Fields × String × String)) (db : Database)
      → (request_approval env agent item k id approver manifest c db).ran ≡ none
  request_approval-idle k id approver manifest (ok c) db = pending_approval-idle (k + 1) id _
  request_approval-idle k id approver manifest (err e) db = refl

  ask_approval-idle :
      (k : ℕ) (id : String) (approver : Option Approver) (manifest : ToolManifest)
      (arguments : Fields) (db : Database)
      → (ask_approval env agent item k id approver manifest arguments db).ran ≡ none
  ask_approval-idle k id none manifest arguments db = refl
  ask_approval-idle k id (some approver) manifest arguments db =
      request_approval-idle k id approver manifest (approver.canonicalize arguments) db

  decided-IsAuto :
      (k : ℕ) (id : String) (tool : Tool) (class : DataClass) (arguments : Fields) (db : Database)
      → is_some
          (decided env agent item
            (k + 1)
            id
            tool
            class
            arguments
            (evaluate_at env agent item k tool.manifest arguments db)).ran
        ≡ true
      → IsAuto k tool.manifest arguments db
        × IsAuto
            (k + 1)
            tool.manifest
            arguments
            (evaluate_at env agent item k tool.manifest arguments db).0
  unfolding audited_decision
  decided-IsAuto k id tool class arguments db h =
      let e =
        decision_on env.texts env.zone env.policy (env.clock k) (arrive env k db)
          (tool_action item tool.manifest arguments) in
      let ends =
        evaluate-audited_decision env.texts env.zone env.policy (env.clock k)
          (tool_action item tool.manifest arguments) (arrive env k db) in
      elim (Bool-cases (is_valid_retry e.retry_after_seconds)) [
        | inr v ↦ let gone = rw (ends, v) at h in absurd (cc)
        | inl v ↦ elim (Bool-cases (e.decision == PolicyDecision.approve_once)) [
          | inl a ↦
              let asked = rw (ends, v, a) at h in
              let gone =
                rw (ask_approval-idle (k + 1) id agent.approver tool.manifest arguments _) at
                  asked in
              absurd (cc)
          | inr a ↦ elim (Bool-cases (e.decision == PolicyDecision.auto)) [
            | inr t ↦ let gone = rw (ends, v, a, t) at h in absurd (cc)
            | inl t ↦
                let ran = rw (ends, v, a, t) at h in
                (
                  ground arith,
                  rw (ends, v) (commit-IsAuto (k + 1 + 1) (k + 1) id tool class arguments _ ran),
                )
          ]
        ]
      ]

  classified-Permitted :
      (k : ℕ) (id : String) (call : ToolCall) (tool : Tool) (db : Database)
      → find_tool call.name agent.tools ≡ some tool
      → agent.rejects call.arguments tool.manifest.input_schema ≡ none
      → is_some
          (classified env agent item k id tool call.arguments
            (call_class agent item tool.manifest call.arguments)
            db).ran
        ≡ true
      → Permitted k call db
  classified-Permitted k id call tool db found valid h =
      elim (Option-cases (call_class agent item tool.manifest call.arguments)) [
        | inl n ↦ let gone = rw n at h in absurd (cc)
        | inr c ↦
            let class = c.0 in
            elim (Bool-cases (allows_class class tool.manifest.allowed_data)) [
              | inr a ↦ let gone = rw (c.1, a) at h in absurd (cc)
              | inl a ↦
                  let ran = rw (c.1, a) at h in
                  let autos = decided-IsAuto k id tool class call.arguments db ran in
                  record {
                    tool = tool;
                    is_enrolled = found;
                    is_valid = valid;
                    class = class;
                    has_class = c.1;
                    is_allowed = a;
                    planned = autos.0;
                    committed = autos.1;
                  }
            ]
      ]

  enrolled-Permitted :
      (k : ℕ) (id : String) (call : ToolCall) (db : Database)
      → is_some (enrolled env agent item k id call (find_tool call.name agent.tools) db).ran ≡ true
      → Permitted k call db
  enrolled-Permitted k id call db h = elim (Option-cases (find_tool call.name agent.tools)) [
    | inl n ↦ let gone = rw n at h in absurd (cc)
    | inr t ↦
        let started = rw t.1 at h in
        elim (Option-cases (agent.rejects call.arguments t.0.manifest.input_schema)) [
          | inr x ↦ let gone = rw x.1 at started in absurd (cc)
          | inl v ↦ classified-Permitted k id call t.0 db t.1 v (rw v at started)
        ]
  ]

  begun-Permitted :
      (k : ℕ) (call : ToolCall) (r : Database × Result (String × Bool))
      → is_some (begun env agent item k call r).ran ≡ true
      → Permitted k call r.0
  begun-Permitted k call (db, ok (id, true)) h = enrolled-Permitted k id call db h
  begun-Permitted k call (db, ok (id, false)) h = absurd (cc)
  begun-Permitted k call (db, err e) h = absurd (cc)

  -- The database after the call was recorded.
  abbrev pub recorded : ℕ → ToolCall → String × String → Database → Database
  recorded k call metadata db =
      (begin_tool_execution (tool_request env agent item call metadata) (agent.fresh k)
        (env.clock k) (arrive env k db)).0

  -- `_invoke_tool` calls a tool only if the tool is enrolled under the name of the call, its schema
  -- accepts the arguments, it may see the class of the data, which is public for an address that the
  -- message itself names and else the conversation's, and the policy decided AUTO twice: once the
  -- call was recorded, and again in the last transaction before the one that marks it as executing.
  pub invoke_tool-Permitted :
      (k : ℕ) (call : ToolCall) (db : Database)
      → is_some (invoke_tool env agent item k call db).ran ≡ true
      → (metadata : String × String) × Permitted (k + 1) call (recorded k call metadata db)
  unfolding invoke_tool
  invoke_tool-Permitted k call db h = from_metadata (agent.metadata call.arguments) h
    where
      from_metadata :
          (m : Result (String × String))
          → is_some (requested env agent item k call m db).ran ≡ true
          → (metadata : String × String) × Permitted (k + 1) call (recorded k call metadata db)
      from_metadata (ok metadata) r = (metadata, begun-Permitted (k + 1) call _ r)
      from_metadata (err e) r = absurd (cc)
