-- ===== src/Storage/History/Executions.antt =====
-- A tool execution is marked as executing at most once.
use lemonbot.Prelude.{
  ℕ, String, ◌≤◌, ◌≡◌, ◌≢◌, refl, sym, subst, List, Bool, true, false, arith, ◌==◌, ◌&&◌, nat_eq,
  string_eq, eq_iff, Bool-cases, inl, inr, All, All-map, All-Unit,
}
use lemonbot.Domain.{Time}
use lemonbot.Sql.{exists_where, count_where, count_where-zero, All-update_each, exists_where-of_one}
use lemonbot.Sql.Evolution.{Evolves, Evolves-update, Evolves-trans, All-Evolves, exists-Evolves}
use lemonbot.Storage.Tables.{Database, ToolExecutionRow, ToolState}
use lemonbot.Storage.Tools.{
  ToolRequest, begin_tool_execution, mark_tool_executing, is_requested, tool_state_eq,
}
use lemonbot.Storage.Tools.Lifecycle as Tools
use lemonbot.Storage.Recovery.{recover_interrupted}
use lemonbot.Storage.History.Frames.{tools-inbox_step, tools-outbox_step, tools-other_step}
use lemonbot.Storage.History.Occurrences.{occurrences, Single, occurrences-Single}
use lemonbot.Storage.History.{
  Call, ToolCall, Choices, tool_step, step, on_inbox, on_outbox, on_tools, on_other, recovers,
  begins, executes, resolves,
}

-- Whether a call is a `mark_tool_executing` of the execution that returns true.
abbrev pub starts_tool : String → Time × Call → Database → Bool
starts_tool id (now, on_tools (executes i)) db = i == id && (mark_tool_executing i now db).1
starts_tool id _ db = false

-- How many calls of a history start the execution.
abbrev pub executions : Choices → String → List (Time × Call) → Database → ℕ
executions select id = occurrences select (starts_tool id)

module _ (id : String) where
  abbrev has_execution_id : ToolExecutionRow → Bool
  has_execution_id r = r.execution_id == id

  abbrev IsStarted : ToolExecutionRow → Type 0
  IsStarted r = has_execution_id r ≡ true → r.state ≢ ToolState.requested

  abbrev Anything : ToolExecutionRow → Type 0
  Anything r = Unit

  record Started (rows : List ToolExecutionRow) : Type 0 where
    exists : exists_where has_execution_id rows ≡ true
    started : All IsStarted rows

  Started-Evolves :
      (xs ys : List ToolExecutionRow)
      → Started xs
      → Evolves Tools.Moves IsStarted xs ys
      → Started ys
  Started-Evolves xs ys s e = record {
    exists =
        exists-Evolves Tools.Moves IsStarted has_execution_id (λ r t m. rw m.execution_id) xs ys e
          s.exists;
    started =
        All-Evolves Tools.Moves IsStarted IsStarted
          (λ r t h m e. m.executed (h (rw m.execution_id at e))) (λ y n. n) xs ys s.started e;
  }

  begin-Started :
      (q : ToolRequest) (execution_id : String) (now : Time) (db : Database)
      → Started db.tool_executions
      → Started (begin_tool_execution q execution_id now db).0.tool_executions
  unfolding begin_tool_execution
  begin-Started q execution_id now db s = Started-Evolves db.tool_executions _ s (
      Tools.begin_tool_execution-Evolves IsStarted q execution_id now db (λ absent e.
        let same : execution_id ≡ id = (eq_iff execution_id id).0 e in
        let gone : exists_where has_execution_id db.tool_executions ≡ false =
          subst (λ i. exists_where (λ r. r.execution_id == i) db.tool_executions ≡ false) same
            absent in
        let found = s.exists in absurd (cc)))

  tool_step-Started :
      (now : Time) (c : ToolCall) (db : Database)
      → Started db.tool_executions
      → Started (tool_step now c db).tool_executions
  unfolding tool_step
  tool_step-Started now (begins q i) db s = begin-Started q i now db s
  tool_step-Started now (executes i) db s =
      Started-Evolves db.tool_executions _ s (Tools.mark_tool_executing-Evolves _ i now db)
  tool_step-Started now (resolves i state code summary) db s =
      Started-Evolves db.tool_executions _ s
        (Tools.resolve_tool_execution-Evolves _ i state code summary now db)

  recover-Started :
      (stale now : Time) (db : Database)
      → Evolves Tools.Moves IsStarted db.tool_executions
          (recover_interrupted stale now db).0.tool_executions
  unfolding recover_interrupted
  recover-Started stale now db =
      Evolves-trans Tools.Moves IsStarted Tools.Moves-trans
        (λ r t h m e. m.executed (h (rw m.execution_id at e))) db.tool_executions _ _
        (Evolves-update Tools.Moves IsStarted Tools.Moves-refl _ _ db.tool_executions
          (λ r h. ground arith))
        (Evolves-update Tools.Moves IsStarted Tools.Moves-refl _ _ _ (λ r h. ground arith))

  step-Started :
      (select : Choices) (c : Time × Call) (db : Database)
      → Started db.tool_executions
      → Started (step select c db).tool_executions
  unfolding step
  step-Started select (now, on_inbox c) db s = rw (tools-inbox_step now db c) s
  step-Started select (now, on_outbox c) db s = rw (tools-outbox_step select now db c) s
  step-Started select (now, on_tools c) db s = tool_step-Started now c db s
  step-Started select (now, on_other c) db s = rw (tools-other_step select now db c) s
  step-Started select (now, recovers stale) db s =
      Started-Evolves db.tool_executions _ s (recover-Started stale now db)

  mark-Started :
      (now : Time) (db : Database)
      → (mark_tool_executing id now db).1 ≡ true
      → Started (mark_tool_executing id now db).0.tool_executions
  unfolding mark_tool_executing
  mark-Started now db h = record {
    exists =
        exists-Evolves Tools.Moves IsStarted has_execution_id (λ r t m. rw m.execution_id)
          db.tool_executions _ (Tools.mark_tool_executing-Evolves _ id now db)
          (exists_where-of_one (is_requested id) has_execution_id db.tool_executions
            (λ r t. ground arith) h);
    started =
        All-update_each Anything IsStarted (is_requested id) _ db.tool_executions (λ r t p e. cc)
          (λ r t p e. ground arith) (All-Unit db.tool_executions);
  }

  starts_tool-Started :
      (select : Choices) (c : Time × Call) (db : Database)
      → starts_tool id c db ≡ true
      → Started (step select c db).tool_executions
  unfolding step tool_step
  starts_tool-Started select (now, on_tools (executes i)) db h =
      let same : i ≡ id = (eq_iff i id).0 (ground arith) in
      let marked : (mark_tool_executing i now db).1 ≡ true = ground arith in
      subst (λ j. Started (mark_tool_executing j now db).0.tool_executions) (sym same)
        (mark-Started now db (subst (λ j. (mark_tool_executing j now db).1 ≡ true) same marked))
  starts_tool-Started select _ db h = absurd (cc)

  mark-misses :
      (now : Time) (db : Database)
      → Started db.tool_executions
      → (mark_tool_executing id now db).1 ≡ false
  unfolding mark_tool_executing
  mark-misses now db s =
      let none_left : count_where (is_requested id) db.tool_executions ≡ 0 =
        count_where-zero (is_requested id) db.tool_executions
          (All-map (λ r h. ground arith) db.tool_executions s.started) in
      rw none_left refl

  starts_tool-misses :
      (c : Time × Call) (db : Database) → Started db.tool_executions → starts_tool id c db ≡ false
  starts_tool-misses (now, on_tools (executes i)) db s = elim (Bool-cases (i == id)) [
    | inr e ↦ rw e refl
    | inl e ↦
        let same = (eq_iff i id).0 e in
        rw e
          (subst (λ j. (mark_tool_executing j now db).1 ≡ false) (sym same) (mark-misses now db s))
  ]
  starts_tool-misses (now, on_tools _) db s = refl
  starts_tool-misses (now, on_inbox c) db s = refl
  starts_tool-misses (now, on_outbox c) db s = refl
  starts_tool-misses (now, on_other c) db s = refl
  starts_tool-misses (now, recovers stale) db s = refl

  unfoldable starts_tool-Single : (select : Choices) → Single select (starts_tool id)
  starts_tool-Single select = record {
    Sound = λ db. Unit;
    Spent = λ db. Started db.tool_executions;
    sound = λ c db u. tt;
    spends = λ c db u h. starts_tool-Started select c db h;
    stays = λ c db s. step-Started select c db s;
    misses = λ c db s. starts_tool-misses c db s;
  }

-- In any history, whoever makes its calls and in whatever order, `mark_tool_executing` returns true at most
-- once for an execution.
pub executions_once :
    (select : Choices) (id : String) (cs : List (Time × Call)) (db : Database)
    → executions select id cs db ≤ 1
unfolding starts_tool-Single
executions_once select id cs db =
    occurrences-Single select (starts_tool id) (starts_tool-Single id select) cs db tt
