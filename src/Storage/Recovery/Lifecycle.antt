-- ===== src/Storage/Recovery/Lifecycle.antt =====
-- `recover_interrupted` moves the rows of the three queues only by steps of their lifecycles.
use lemonbot.Prelude.{◌≡◌, arith, Bool, true, List, ◌==◌, ◌-◌}
use lemonbot.Domain.{Time, inbox_state_eq, outbox_state_eq}
use lemonbot.Sql.{update_where}
use lemonbot.Sql.Evolution.{Evolves, Evolves-update, Since, Since-trans}
use lemonbot.Storage.Tables.{Database, ToolState}
use lemonbot.Storage.Tools.{tool_state_eq}
use lemonbot.Storage.Inbox.Lifecycle as Inbox
use lemonbot.Storage.Outbox.Lifecycle as Outbox
use lemonbot.Storage.Tools.Lifecycle as Tools
use lemonbot.Storage.Recovery.{
  recover_interrupted, is_stale_started, is_stale_unstarted, is_stale_reserved, is_dispatching,
  quarantine, requeue, release, give_up, interrupt,
}

module _ {A : Type 0} (Step : A → A → Type 0) (New : A → Type 0) (refl_step : (x : A) → Step x x)
    (trans : (x y z : A) → Step x y → Step y z → Step x z) where
  Evolves-update_twice :
      (test test' : A → Bool) (set set' : A → A) (xs : List A)
      → ((x : A) → test x ≡ true → Step x (set x))
      → ((x : A) → test' x ≡ true → Step x (set' x))
      → Evolves Step (Since Step New) xs (update_where test' set' (update_where test set xs))
  Evolves-update_twice test test' set set' xs step step' =
      Since-trans Step New trans xs _ _
        (Evolves-update Step (Since Step New) refl_step test set xs step)
        (Evolves-update Step (Since Step New) refl_step test' set' _ step')

module _ (stale_after now : Time) (db : Database) where
  pub inbox-recover :
      Evolves Inbox.Moves
        (Since Inbox.Moves Inbox.IsNew)
        db.inbox
        (recover_interrupted stale_after now db).0.inbox
  unfolding recover_interrupted
  inbox-recover =
      Evolves-update_twice Inbox.Moves Inbox.IsNew Inbox.Moves-refl Inbox.Moves-trans
        (is_stale_started (now - stale_after)) (is_stale_unstarted (now - stale_after))
        (quarantine now) (requeue now) db.inbox (λ r h. ground arith) (λ r h. ground arith)

  pub outbox-recover :
      Evolves Outbox.Moves
        (Since Outbox.Moves Outbox.IsNew)
        db.outbox
        (recover_interrupted stale_after now db).0.outbox
  unfolding recover_interrupted
  outbox-recover =
      Evolves-update_twice Outbox.Moves Outbox.IsNew Outbox.Moves-refl Outbox.Moves-trans
        (is_stale_reserved (now - stale_after)) is_dispatching (release now) (give_up now) db.outbox
        (λ r h. ground arith) (λ r h. ground arith)

  pub tools-recover :
      Evolves Tools.Moves
        (Since Tools.Moves Tools.IsNew)
        db.tool_executions
        (recover_interrupted stale_after now db).0.tool_executions
  unfolding recover_interrupted
  tools-recover =
      Evolves-update_twice Tools.Moves Tools.IsNew Tools.Moves-refl Tools.Moves-trans
        (λ r. r.state == ToolState.requested) (λ r. r.state == ToolState.executing)
        (interrupt ToolState.failed "interrupted_before_invoke" now)
        (interrupt ToolState.unknown "interrupted_during_invoke" now) db.tool_executions
        (λ r h. ground arith) (λ r h. ground arith)
