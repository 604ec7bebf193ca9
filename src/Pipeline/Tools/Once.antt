-- ===== src/Pipeline/Tools/Once.antt =====
-- A tool runs at most once for an execution.
use lemonbot.Prelude.{
  ℕ, String, ◌+◌, ◌≤◌, ◌≡◌, ap, subst, sym, Bool, true, false, Option, none, some, List, [], ◌∷◌,
  ◌++◌, arith, ◌==◌, string_eq, eq_iff, if◌then◌else◌,
}
use lemonbot.Domain.{Time}
use lemonbot.Domain.Exchange.{ToolCall}
use lemonbot.Storage.Tables.{Database}
use lemonbot.Storage.Inbox.{InboxItem}
use lemonbot.Storage.History.{Call, Choices}
use lemonbot.Storage.History.Occurrences.{occurrences}
use lemonbot.Storage.History.Executions.{starts_tool, executions, executions_once}
use lemonbot.Pipeline.{Surroundings}
use lemonbot.Pipeline.Agent.{Agent}
use lemonbot.Pipeline.Refinement.{occurrences-append, Refines-counted}
use lemonbot.Pipeline.Tools.{invoke_tool}
use lemonbot.Pipeline.Tools.Refines.{invoke_tool-Refines}

abbrev pub runs : String → Option String → Bool
runs id none = false
runs id (some i) = i == id

-- A call of `_invoke_tool`, with what surrounds it and its first transaction's number.
pub record Round : Type 0 where
  pub env : Surroundings
  pub agent : Agent
  pub item : InboxItem
  pub at : ℕ
  pub call : ToolCall

-- How many of a sequence of calls run a tool for an execution.
unfoldable pub tool_runs : Choices → String → List Round → Database → ℕ
tool_runs select id [] db = 0
tool_runs select id (round ∷ rounds) db =
    let i =
      invoke_tool (record round.env { select = select }) round.agent round.item round.at round.call
        db in
    (if runs id i.ran then 1 else 0) + tool_runs select id rounds i.after

runs_it : (id : String) (d : Option String) → runs id d ≡ true → d ≡ some id
runs_it id none h = cc
runs_it id (some i) h = ap some ((eq_iff i id).0 h)

tool_runs-history :
    (select : Choices) (id : String) (rounds : List Round) (db : Database)
    → (cs : List (Time × Call)) × (tool_runs select id rounds db ≤ executions select id cs db)
unfolding tool_runs occurrences
tool_runs-history select id [] db = ([], omega arith)
tool_runs-history select id (round ∷ rounds) db =
    let own = record round.env { select = select } in
    let i = invoke_tool own round.agent round.item round.at round.call db in
    let r = invoke_tool-Refines own round.agent round.item round.at round.call db in
    let (cs, rest) = tool_runs-history select id rounds i.after in
    let first =
      Refines-counted select starts_tool id i.ran (runs id i.ran) db i.after r (runs_it id i.ran) in
    let later =
      subst (λ x. tool_runs select id rounds i.after ≤ executions select id cs x) (sym r.runs)
        rest in
    (r.calls ++ cs, omega (arith, occurrences-append select starts_tool id r.calls cs db))

-- However often `_invoke_tool` is called, one call after the other, for whatever events and with whatever
-- other tasks between its transactions, a tool is run at most once for each recorded execution.
pub tool_runs_once :
    (select : Choices) (id : String) (rounds : List Round) (db : Database)
    → tool_runs select id rounds db ≤ 1
tool_runs_once select id rounds db =
    let (cs, h) = tool_runs-history select id rounds db in
    omega (arith, executions_once select id cs db)
