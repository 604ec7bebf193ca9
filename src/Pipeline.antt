-- ===== src/Pipeline.antt =====
-- orchestration/pipeline.py: what the tasks of the agent share. A method of the pipeline is a chain of
-- transactions; before each of them other tasks may run, and the clock is read again.
pub mod Refinement
pub mod Delivery
pub mod Agent
pub mod Window
pub mod Reply
pub mod Tools
pub mod Turns
use lemonbot.Prelude.{ℕ, String, Option, List, Result, Exception, ◌≡◌, refl, ◌⊎◌, inl, inr}
use lemonbot.Prelude.Json.{Json}
use lemonbot.Domain.{Time, OutboundMessage, DeliveryReceipt}
use lemonbot.Storage.Tables.{Database}
use lemonbot.Storage.History.{Call, Choices, run}
use lemonbot.Policy.Config.{Texts, PolicyConfig}
use lemonbot.Policy.Quiet.{Zone}

pub data PipelineStatus : Type 0 where
  idle queued completed skipped retry dead acknowledged unknown deferred : PipelineStatus

pub record PipelineResult : Type 0 where
  pub status : PipelineStatus
  pub item_id : Option ℕ
  pub detail : Option String

-- How `connector.deliver` ends: by a receipt, or by an exception or the timeout, of which the code
-- keeps the name of the type.
pub data Attempt : Type 0 where
  returns : DeliveryReceipt → Attempt
  raises : String → Attempt

-- What surrounds a method: the libraries, the policy's configuration, SQLite's choices, the clock at
-- its k-th transaction, what other tasks do to the database before that, and the connector. `show`
-- is Python's `str` of a decoded JSON value.
pub record Surroundings : Type 0 where
  pub texts : Texts
  pub zone : Zone
  pub policy : PolicyConfig
  pub show : Json → String
  pub select : Choices
  pub clock : ℕ → Time
  pub others : ℕ → List (Time × Call)
  pub deliver : OutboundMessage → Attempt

-- The database that the k-th transaction finds.
abbrev pub arrive : Surroundings → ℕ → Database → Database
arrive env k db = run env.select (env.others k) db

-- How a method ends that may raise `PermanentPipelineError`, with its message, or another exception,
-- given by its type's name, or is cancelled.
pub data Failure : Type 0 where
  permanent fault : String → Failure
  cancelled : Failure

pub data Task {ℓ} (A : Type ℓ) : Type ℓ where
  done : A → Task A
  fails : Failure → Task A

pub Task-cases {ℓ} :
    {A : Type ℓ} (t : Task A) → ((f : Failure) × (t ≡ fails f)) ⊎ ((a : A) × (t ≡ done a))
Task-cases (fails f) = inl (f, refl)
Task-cases (done a) = inr (a, refl)

-- `type(exc).__name__`
abbrev pub exception_name : Exception → String
exception_name Exception.value_error = "ValueError"
exception_name Exception.key_error = "KeyError"
exception_name Exception.runtime_error = "RuntimeError"
exception_name Exception.integrity_error = "IntegrityError"
exception_name Exception.price_not_configured = "PriceNotConfiguredError"
exception_name Exception.budget_exceeded = "BudgetExceededError"
