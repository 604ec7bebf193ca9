-- ===== src/Storage/Recovery/Settled.antt =====
-- What `recover_interrupted` leaves behind.
use lemonbot.Prelude.{◌-◌, ◌≡◌, ◌≢◌, Bool, true, false, List, arith, ◌==◌, All, All-Unit}
use lemonbot.Domain.{Time, OutboxState, inbox_state_eq, outbox_state_eq}
use lemonbot.Sql.{update_where, All-update_each}
use lemonbot.Storage.Tables.{Database, ToolState}
use lemonbot.Storage.Tools.{tool_state_eq}
use lemonbot.Storage.Tools.Lifecycle.{is_final}
use lemonbot.Storage.Recovery.{
  recover_interrupted, is_stale_started, is_stale_unstarted, is_stale_reserved,
}

-- Two updates, whose outcome each row has.
update_twice :
    {A : Type 0} (Q R : A → Type 0) (test test' : A → Bool) (set set' : A → A) (xs : List A)
    → ((r : A) → test r ≡ true → Q (set r))
    → ((r : A) → test r ≡ false → Q r)
    → ((r : A) → test' r ≡ true → Q r → R (set' r))
    → ((r : A) → test' r ≡ false → Q r → R r)
    → All R (update_where test' set' (update_where test set xs))
update_twice Q R test test' set set' xs changed kept changed' kept' =
    All-update_each Q R test' set' _ changed' kept' (
      All-update_each (λ _. Unit) Q test set xs (λ r h _. changed r h) (λ r h _. kept r h)
        (All-Unit xs))

-- Nothing is half done: no message is being dispatched, no tool is requested or executing, and what
-- was claimed or reserved before `cutoff` is not any more.
pub record Settled (cutoff : Time) (db : Database) : Type 0 where
  pub started : All (λ r. is_stale_started cutoff r ≡ false) db.inbox
  pub unstarted : All (λ r. is_stale_unstarted cutoff r ≡ false) db.inbox
  pub reserved : All (λ r. is_stale_reserved cutoff r ≡ false) db.outbox
  pub dispatching : All (λ r. r.state ≢ OutboxState.dispatching) db.outbox
  pub tools : All (λ r. is_final r.state ≡ true) db.tool_executions

-- After `recover_interrupted` no message is being dispatched, every tool execution has an outcome,
-- and no event claimed, and no message reserved, before the cutoff is still held.
pub recover_interrupted-Settled :
    (stale_after now : Time) (db : Database)
    → Settled (now - stale_after) (recover_interrupted stale_after now db).0
unfolding recover_interrupted
recover_interrupted-Settled stale_after now db =
    let cutoff = now - stale_after in
    record {
      started =
          update_twice (λ r. is_stale_started cutoff r ≡ false)
            (λ r. is_stale_started cutoff r ≡ false) _ _ _ _ db.inbox (λ r h. ground arith)
            (λ r h. h) (λ r h q. ground arith) (λ r h q. q);
      unstarted =
          update_twice (λ _. Unit) (λ r. is_stale_unstarted cutoff r ≡ false) _ _ _ _ db.inbox
            (λ r h. tt) (λ r h. tt) (λ r h q. ground arith) (λ r h q. h);
      reserved =
          update_twice (λ r. is_stale_reserved cutoff r ≡ false)
            (λ r. is_stale_reserved cutoff r ≡ false) _ _ _ _ db.outbox (λ r h. ground arith)
            (λ r h. h) (λ r h q. ground arith) (λ r h q. q);
      dispatching =
          update_twice (λ _. Unit) (λ r. r.state ≢ OutboxState.dispatching) _ _ _ _ db.outbox
            (λ r h. tt) (λ r h. tt) (λ r h q. ground arith) (λ r h q. ground arith);
      tools =
          update_twice (λ r. (r.state == ToolState.requested) ≡ false)
            (λ r. is_final r.state ≡ true) _ _ _ _ db.tool_executions (λ r h. ground arith)
            (λ r h. h) (λ r h q. ground arith) (λ r h q. ground arith);
    }
