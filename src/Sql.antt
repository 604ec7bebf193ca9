-- ===== src/Sql.antt =====
-- The SQL statements that storage/repository.py, approvals/repository.py, models/persistent_budget.py
-- and proactive/store.py are written in, over a table that is the list of its rows. WHERE clauses
-- are Boolean tests, SET lists functions on rows. A row id is SQLite's: one past the largest.
mod Defs
mod Laws
pub mod Evolution
unfoldable pub use Defs.*
pub use Laws.*
