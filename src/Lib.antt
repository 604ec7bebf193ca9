-- ===== src/Lib.antt =====
-- A verification library for Lemonbot, a durable text agent: it reads events of chats from a
-- connector into a database, asks a model for replies and tool calls, and sends what its policy lets
-- pass. Paths below are relative to the root of the repository.
--
-- The program's parts and how they meet. A connector's events enter the inbox
-- (`CoreRepository.record_inbound`). The pipeline claims the oldest event whose conversation has no
-- earlier unfinished one, marks the point after which the model may have been called, runs tools
-- (each call a row of the tool executions), and puts the reply into the outbox. A message of the
-- outbox is reserved, judged by the policy, marked as dispatching, given to the connector, and
-- closed by the connector's receipt or, when it is not known whether it was sent, by hand. The
-- policy reads the allowlist, the pause flags and the outbox's counts. An action that needs an
-- administrator waits as an approval, which is claimed once. All of it lives in one SQLite
-- database, whose transactions run one after another.
--
-- Files:
-- - Prelude, Sql: numbers, texts, JSON and results of Python, and the SQL statements that the
--   repositories are written in, over tables that are lists of rows. Sql/Evolution says how a
--   statement, and a history of statements, changes a table row by row.
-- - Domain: src/lemonbot/domain/models.py.
-- - Storage/Tables: src/lemonbot/storage/models.py. The other files of Storage are the methods of
--   `CoreRepository` in src/lemonbot/storage/repository.py, under their own names: Inbox, Outbox,
--   Drafts, Tools (tool executions), Allowlist, RuntimeState (pauses and keyed values), Recovery
--   (`recover_interrupted`). The files named Lifecycle say which steps a row takes;
--   Storage/History composes the methods to histories.
-- - Policy: src/lemonbot/policy/config.py and src/lemonbot/policy/engine.py. Policy/Evaluate is
--   `DeterministicPolicy.evaluate`, which audits on each path; Policy/Engine is what it decides, apart
--   from the audit, and Policy/Quiet its quiet hours. The policy decides on one state of the database,
--   where the source reads it in several transactions.
-- - Approvals: src/lemonbot/approvals/repository.py and the request of
--   src/lemonbot/approvals/models.py.
-- - Budget: `BudgetManager` and `ModelPrice` of src/lemonbot/models/budget.py, which reserve the cost
--   of a model call before it is made. An amount is exact: Decimal's rounding to 28 digits is left
--   out. Budget/Limits and Budget/History say how much a day and a month can use.
-- - Proactive: `ProactiveJobStore` of src/lemonbot/proactive/store.py, whose jobs are a list of rows.
--   Proactive/Recurrence is the loop over a recurrence, Proactive/Claim which job is claimed.
-- - Domain/Exchange and Pipeline: what is exchanged with the model and the tools, and
--   src/lemonbot/orchestration/pipeline.py. Pipeline/Delivery is `dispatch_once`, Pipeline/Tools
--   `_invoke_tool`, Pipeline/Turns `_run_model_and_tools`, Pipeline/Window
--   `_append_tool_result_bounded` and the context's limits, Pipeline/Reply `_bounded_reply`. A method
--   is a chain of transactions with numbers, before each of which other tasks may make any history
--   of the repository's methods; Pipeline/Refinement turns it into one history.
-- - Memory: `ContextBuilder` of src/lemonbot/memory/context.py, which chooses what a request to the
--   model holds, and its records in src/lemonbot/memory/models.py.
-- - Framing: src/lemonbot/ipc/framing.py. Framing/Stream is its asynchronous reader.
--
-- How the code is modelled. A method is a function from the database to the database and its
-- result; a method that raises returns the database as it was, since its transaction is rolled
-- back. `utc_now()` is an argument, read once in each transaction. A time is a number of
-- microseconds. A row id is one past the largest. An UPDATE with a WHERE clause is a map over
-- the rows, a SELECT with an ORDER BY takes the least row, and a SELECT with none leaves the choice of
-- a row to a parameter, `Choice`, of which the results assume only that it returns a row that
-- passes the test if there is one, and is one of the table's. Fresh UUIDs are arguments.
--
-- Parameters: `Texts` (case folding and the parsing of UUIDs), `Zone` and `Calendar` (the time zone
-- database) stand for what Python's libraries compute, and `Canonical` for
-- `canonicalize_arguments`, which is not modelled. `Surroundings` holds what the pipeline's methods
-- meet: the clock at each transaction, the other tasks, and the connector. `Agent` holds the model,
-- the tools, the matching of URLs and of JSON schemas, the digests of a tool's arguments, the texts
-- that Python makes of values, and fresh UUIDs. `Codec` encodes envelopes, a `Pipe` hands
-- out its bytes in pieces of any sizes, and a `Stream` has asyncio's `readexactly`. Memory takes the
-- order of floats, the JSON text of memories and the estimate of tokens.
--
-- Most loops of the source run over lists. Three run on fuel: `Proactive.advance` on the time that
-- has passed, `Pipeline.Window.search` on the length of the text that it cuts, and
-- `Framing.read_loop` on the number of bytes wanted; each makes progress in every round, so that
-- its fuel is more than its rounds. The turns of the model are counted by the configuration.
--
-- Not modelled: the queries that only list rows; of the pipeline, the preparation of the context for
-- a run of the model, the derivation of memory and `_process_claimed`, which composes the parts; the
-- time limits and the cancellation of a whole task; the runner of scheduled tasks and the persistent
-- ledger of the budget; the asynchronous writer of frames, whose body is that of the blocking one.
-- Connectors, the stores of memory, model workers, tools, the admin interface, the supervisor and
-- the command line are clients of what is modelled here, or input and output. Length limits that
-- pydantic checks before a record is built are not repeated, but for the length of a message in
-- Pipeline/Window and Memory/Context.
mod Prelude
mod Sql
pub mod Domain
pub mod Storage
pub mod Policy
pub mod Approvals
pub mod Budget
pub mod Proactive
pub mod Pipeline
pub mod Framing
pub mod Memory
