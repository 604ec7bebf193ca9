-- ===== src/Approvals/Samples.antt =====
-- Runs of the approval methods on a concrete database.
use lemonbot.Prelude.{◌≡◌, refl, true, none, some, List, [], ◌∷◌, ok}
use lemonbot.Prelude.Json.{end}
use lemonbot.Domain.{Time, ApprovalState}
use lemonbot.Storage.Tables.{Database, ApprovalRow}
use lemonbot.Sql.{update_where, first_where, count_where, select_where, next_id}
use lemonbot.Approvals.{
  ApprovalRequest, Canonical, ApprovalCall, requests, resolves, recovers, approval_row, claim,
  expire_pending, run, audit_each,
}
use lemonbot.Approvals.Lifecycle.{ApprovalSteps, run-approvals}
use lemonbot.Approvals.Once.{IsClaim, claim-IsClaim, claim_once}

-- Arguments that always bind.
abbrev binding : Canonical
binding = record { binds = λ arguments digest summary. true }

abbrev request : ApprovalRequest
request = record {
  approval_id = "a1";
  profile = "default";
  channel = "fake";
  chat_id = "a";
  event_id = "e1";
  tool_name = "write";
  action_kind = "write_file";
  arguments_summary = "{}";
  arguments_sha256 = "0";
  arguments = end;
  created_at = 1;
  expires_at = 100;
}

abbrev waiting : Database
waiting = record {
  inbox = [];
  drafts = [];
  outbox = [];
  messages = [];
  audit_log = [];
  allowlist = [];
  approvals = approval_row request ∷ [];
  tool_executions = [];
  runtime_state = [];
}

abbrev granted : ApprovalRow
granted = record (approval_row request) {
  state = ApprovalState.executing;
  claim_token = some "token";
  claimed_at = some 10;
  updated_at = 10;
}

abbrev afterwards : List (Time × ApprovalCall)
afterwards =
    (11, requests request)
    ∷ (12, resolves "a1" "default" "token" ApprovalState.approved "ok")
    ∷ (13, recovers "default")
    ∷ []

claims_it : (claim binding "token" "a1" "default" 10 waiting).1 ≡ ok (some granted)
unfolding claim expire_pending update_where count_where first_where select_where audit_each next_id
claims_it = refl

run-approvals_example : ApprovalSteps waiting.approvals (run binding afterwards waiting).approvals
run-approvals_example = run-approvals binding afterwards waiting

claim-IsClaim_example : IsClaim "a1" "default" binding granted
claim-IsClaim_example = claim-IsClaim "a1" "default" binding "token" 10 waiting granted claims_it

claim_once_example :
    (claim binding "again" "a1" "default" 20
      (run binding afterwards (claim binding "token" "a1" "default" 10 waiting).0)).1
    ≡ ok none
claim_once_example =
    claim_once "a1" "default" binding "token" 10 waiting granted claims_it afterwards "again" 20
