-- ===== src/Storage/Tools/Lifecycle.antt =====
-- The steps that a tool execution takes under the repository's methods.
use lemonbot.Prelude.{
  ◌∙◌, String, ◌≡◌, ◌≢◌, refl, Bool, true, false, Option, none, some, arith, ◌==◌, string_eq,
  Bool-cases, inl, inr,
}
use lemonbot.Prelude.Json.{Fields}
use lemonbot.Domain.{Time}
use lemonbot.Sql.{first_where, exists_where}
use lemonbot.Sql.Evolution.{Evolves, Evolves-refl, Evolves-update, Evolves-insert}
use lemonbot.Storage.Tables.{ToolExecutionRow, ToolState, Database}
use lemonbot.Storage.Tools.{
  ToolRequest, begin_tool_execution, mark_tool_executing, resolve_tool_execution, same_call,
  same_request, is_requested, tool_state_eq, existing_call, tool_row,
}

abbrev pub is_final : ToolState → Bool
is_final ToolState.requested = false
is_final ToolState.executing = false
is_final _ = true

-- The call that a row stands for stays; an outcome is final; what has left the requested state
-- is never requested again.
pub record Moves (r s : ToolExecutionRow) : Type 0 where
  pub execution_id : s.execution_id ≡ r.execution_id
  pub profile : s.profile ≡ r.profile
  pub channel : s.channel ≡ r.channel
  pub chat_id : s.chat_id ≡ r.chat_id
  pub event_id : s.event_id ≡ r.event_id
  pub call_id : s.call_id ≡ r.call_id
  pub arguments_sha256 : s.arguments_sha256 ≡ r.arguments_sha256
  pub final : is_final r.state ≡ true → s.state ≡ r.state
  pub executed : r.state ≢ ToolState.requested → s.state ≢ ToolState.requested

pub record IsNew (r : ToolExecutionRow) : Type 0 where
  pub state : r.state ≡ ToolState.requested

pub Moves-refl : (r : ToolExecutionRow) → Moves r r
Moves-refl r = record {
  execution_id = refl;
  profile = refl;
  channel = refl;
  chat_id = refl;
  event_id = refl;
  call_id = refl;
  arguments_sha256 = refl;
  final = λ _. refl;
  executed = λ n. n;
}

existing_call-Evolves :
    (New : ToolExecutionRow → Type 0) (q : ToolRequest) (row : Option ToolExecutionRow)
    (db : Database)
    → Evolves Moves New db.tool_executions (existing_call q row db).0.tool_executions
existing_call-Evolves New q none db = Evolves-refl Moves New Moves-refl db.tool_executions
existing_call-Evolves New q (some row) db = elim (Bool-cases (same_request q row)) [
  | inl e ↦ rw e (Evolves-refl Moves New Moves-refl db.tool_executions)
  | inr e ↦ rw e (Evolves-refl Moves New Moves-refl db.tool_executions)
]

-- A row is inserted only if no row has its execution id.
pub begin_tool_execution-Evolves :
    (New : ToolExecutionRow → Type 0) (q : ToolRequest) (execution_id : String) (now : Time)
    (db : Database)
    → (exists_where (λ r. r.execution_id == execution_id) db.tool_executions ≡ false
        → New (tool_row q execution_id now))
    → Evolves Moves New db.tool_executions
        (begin_tool_execution q execution_id now db).0.tool_executions
unfolding begin_tool_execution
begin_tool_execution-Evolves New q execution_id now db new =
    elim (Bool-cases (exists_where (same_call q) db.tool_executions)) [
      | inl e ↦ rw e (existing_call-Evolves New q (first_where (same_call q) db.tool_executions) db)
      | inr e ↦
          elim (Bool-cases
            (exists_where (λ r. r.execution_id == execution_id) db.tool_executions)) [
              | inl t ↦ rw (e, t) (Evolves-refl Moves New Moves-refl db.tool_executions)
              | inr t ↦ rw (e, t) (Evolves-insert Moves New Moves-refl db.tool_executions _ (new t))
            ]
    ]

pub mark_tool_executing-Evolves :
    (New : ToolExecutionRow → Type 0) (execution_id : String) (now : Time) (db : Database)
    → Evolves Moves New db.tool_executions
        (mark_tool_executing execution_id now db).0.tool_executions
unfolding mark_tool_executing
mark_tool_executing-Evolves New execution_id now db =
    Evolves-update Moves New Moves-refl (is_requested execution_id) _ db.tool_executions
      (λ r h. ground arith)

pub resolve_tool_execution-Evolves :
    (New : ToolExecutionRow → Type 0) (execution_id : String) (state : ToolState)
    (outcome_code : String) (summary : Fields) (now : Time) (db : Database)
    → Evolves Moves New db.tool_executions
        (resolve_tool_execution execution_id state outcome_code summary now db).0.tool_executions
unfolding resolve_tool_execution
resolve_tool_execution-Evolves New execution_id ToolState.requested outcome_code summary now db =
    Evolves-refl Moves New Moves-refl db.tool_executions
resolve_tool_execution-Evolves New execution_id ToolState.executing outcome_code summary now db =
    Evolves-refl Moves New Moves-refl db.tool_executions
resolve_tool_execution-Evolves New execution_id _ outcome_code summary now db =
    Evolves-update Moves New Moves-refl _ _ db.tool_executions (λ r h. ground arith)

pub Moves-trans : (r s t : ToolExecutionRow) → Moves r s → Moves s t → Moves r t
Moves-trans r s t a b = record {
  execution_id = b.execution_id ∙ a.execution_id;
  profile = b.profile ∙ a.profile;
  channel = b.channel ∙ a.channel;
  chat_id = b.chat_id ∙ a.chat_id;
  event_id = b.event_id ∙ a.event_id;
  call_id = b.call_id ∙ a.call_id;
  arguments_sha256 = b.arguments_sha256 ∙ a.arguments_sha256;
  final = λ e. let same = a.final e in b.final (rw same e) ∙ same;
  executed = λ n. b.executed (a.executed n);
}
