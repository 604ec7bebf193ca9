-- ===== src/Approvals.antt =====
-- approvals/repository.py: one-time approvals of exact tool actions.
pub mod Lifecycle
pub mod Once
mod Samples
use lemonbot.Prelude.{
  ℕ, String, Bool, true, false, not, ◌&&◌, ◌||◌, Option, none, some, List, [], ◌∷◌, ◌++◌, ltb, leb,
  ◌==◌, string_eq, nat_eq, is_text, if◌then◌else◌, Exception, Result, ok, err, length,
}
use lemonbot.Prelude.Json.{Fields, field, end, str}
use lemonbot.Domain.{Time, ApprovalState, AuditRecord, approval_state_eq}
use lemonbot.Sql.{update_where, exists_where, select_where, first_where, count_where}
use lemonbot.Storage.Tables.{ApprovalRow, AuditRow, Database, add_audit, log_with}

-- approvals/models.py: ApprovalRequest
pub record ApprovalRequest : Type 0 where
  pub approval_id : String
  pub profile : String
  pub channel : String
  pub chat_id : String
  pub event_id : String
  pub tool_name : String
  pub action_kind : String
  pub arguments_summary : String
  pub arguments_sha256 : String
  pub arguments : Fields
  pub created_at : Time
  pub expires_at : Time

abbrev pub approval_value : ApprovalState → String
approval_value ApprovalState.pending = "pending"
approval_value ApprovalState.executing = "executing"
approval_value ApprovalState.approved = "approved"
approval_value ApprovalState.denied = "denied"
approval_value ApprovalState.unknown = "unknown"

abbrev pub approval_row : ApprovalRequest → ApprovalRow
approval_row q = record {
  approval_id = q.approval_id;
  profile = q.profile;
  channel = q.channel;
  chat_id = q.chat_id;
  event_id = q.event_id;
  tool_name = q.tool_name;
  action_kind = q.action_kind;
  arguments_summary = q.arguments_summary;
  arguments_sha256 = q.arguments_sha256;
  arguments_json = q.arguments;
  state = ApprovalState.pending;
  claim_token = none;
  outcome_code = none;
  created_at = q.created_at;
  expires_at = q.expires_at;
  claimed_at = none;
  resolved_at = none;
  updated_at = q.created_at;
}

-- The unique constraint uq_approvals_action_binding.
abbrev pub same_binding : ApprovalRequest → ApprovalRow → Bool
same_binding q row =
    row.profile == q.profile
    && (row.channel == q.channel
        && (row.chat_id == q.chat_id
            && (row.event_id == q.event_id
                && (row.tool_name == q.tool_name
                    && (row.action_kind == q.action_kind
                        && row.arguments_sha256 == q.arguments_sha256)))))

abbrev pub has_id : String → ApprovalRow → Bool
has_id id row = row.approval_id == id

abbrev approval_audit : String → ApprovalState → ApprovalRow → AuditRecord
approval_audit action outcome row = record {
  action = action;
  outcome = approval_value outcome;
  channel = some row.channel;
  chat_id = some row.chat_id;
  event_id = some row.event_id;
  message_id = none;
  rule_id = none;
  detail = field "approval_id" (str row.approval_id) (
      field "profile" (str row.profile) (
        field "tool_name" (str row.tool_name) (
          field "action_kind" (str row.action_kind)
            (field "arguments_sha256" (str row.arguments_sha256) end))));
  occurred_at = row.updated_at;
}

abbrev found_or_error : Option ApprovalRow → Database → Database × Result ApprovalRow
found_or_error none db = (db, err Exception.runtime_error)
found_or_error (some row) db = (db, ok row)

-- The source returns the row's redacted projection, `_list_item`.
unfoldable pub create : ApprovalRequest → Database → Database × Result ApprovalRow
create q db =
    if exists_where (same_binding q) db.approvals
      || exists_where (has_id q.approval_id) db.approvals
    then found_or_error (first_where (same_binding q) db.approvals) db
    else (
      add_audit (approval_audit "approval.request" ApprovalState.pending (approval_row q))
          (record db { approvals = db.approvals ++ approval_row q ∷ [] }),
      ok (approval_row q),
    )

-- One audit row for each row that a loop changed, in order.
unfoldable pub audit_each :
    (ApprovalRow → AuditRecord) → List ApprovalRow → List AuditRow → List AuditRow
audit_each entry [] log = log
audit_each entry (r ∷ rs) log = audit_each entry rs (log_with log (entry r))

-- SELECT … WHERE, then the loop that assigns to each row and audits it; the number of rows.
abbrev change_all :
    (ApprovalRow → Bool)
    → (ApprovalRow → ApprovalRow)
    → String
    → ApprovalState
    → Database
    → Database × ℕ
change_all test set action outcome db = (
  record db {
    approvals = update_where test set db.approvals;
    audit_log =
        audit_each (λ r. approval_audit action outcome (set r)) (select_where test db.approvals)
          db.audit_log;
  },
  count_where test db.approvals,
)

abbrev pub is_expired : String → Time → ApprovalRow → Bool
is_expired profile now row =
    row.profile == profile && (row.state == ApprovalState.pending && leb row.expires_at now)

abbrev pub settle : ApprovalState → String → Time → ApprovalRow → ApprovalRow
settle state code now row = record row {
  state = state;
  outcome_code = some code;
  resolved_at = some now;
  updated_at = now;
}

unfoldable pub expire_pending : String → Time → Database → Database × ℕ
expire_pending profile now =
    change_all (is_expired profile now) (settle ApprovalState.denied "expired" now)
      "approval.expire" ApprovalState.denied

abbrev pub is_claimable : String → String → Time → ApprovalRow → Bool
is_claimable id profile now row =
    row.approval_id == id
    && (row.profile == profile && (row.state == ApprovalState.pending && ltb now row.expires_at))

abbrev pub claimed : String → Time → ApprovalRow → ApprovalRow
claimed token now row = record row {
  state = ApprovalState.executing;
  claim_token = some token;
  claimed_at = some now;
  updated_at = now;
}

-- Whether `canonicalize_arguments` gives the arguments back with this digest and summary.
pub record Canonical : Type 0 where
  pub binds : Fields → (digest summary : String) → Bool

-- `ApprovalClaim` checks the binding, and a ValueError rolls the claim back.
abbrev reveal :
    Canonical
    → String
    → Option ApprovalRow
    → Database
    → Database
    → Database × Result (Option ApprovalRow)
reveal canonical profile none before db = (before, err Exception.runtime_error)
reveal canonical profile (some row) before db =
    if not (row.profile == profile)
    then (before, err Exception.runtime_error)
    else if canonical.binds row.arguments_json row.arguments_sha256 row.arguments_summary
    then (add_audit (approval_audit "approval.claim" ApprovalState.executing row) db, ok (some row))
    else (before, err Exception.value_error)

-- The source returns `ApprovalClaim`, which has the row's columns. `token` is a fresh UUID.
unfoldable pub claim :
    Canonical → String → String → String → Time → Database → Database × Result (Option ApprovalRow)
unfolding expire_pending
claim canonical token id profile now db =
    let db₁ = (expire_pending profile now db).0 in
    let test = is_claimable id profile now in
    let rows = update_where test (claimed token now) db₁.approvals in
    if count_where test db₁.approvals == 1
    then reveal canonical profile (first_where (has_id id) rows) db
        (record db₁ { approvals = rows })
    else (record db₁ { approvals = rows }, ok none)

abbrev pub is_pending : String → String → ApprovalRow → Bool
is_pending id profile row =
    row.approval_id == id && (row.profile == profile && row.state == ApprovalState.pending)

-- The audit of the row under an id, after an update that changed it.
abbrev audit_row : String → ApprovalState → Option ApprovalRow → Database → Database
audit_row action outcome none db = db
audit_row action outcome (some row) db = add_audit (approval_audit action outcome row) db

abbrev settle_where :
    (ApprovalRow → Bool)
    → String
    → ApprovalState
    → String
    → String
    → Time
    → Database
    → Database × Bool
settle_where test id outcome code action now db =
    let rows = update_where test (settle outcome code now) db.approvals in
    if count_where test db.approvals == 1
    then (
      audit_row action outcome (first_where (has_id id) rows) (record db { approvals = rows }),
      true,
    )
    else (record db { approvals = rows }, false)

unfoldable pub deny : String → String → String → Time → Database → Database × Bool
unfolding expire_pending
deny id profile outcome_code now db =
    settle_where (is_pending id profile) id ApprovalState.denied outcome_code "approval.decision"
      now (expire_pending profile now db).0

abbrev pub is_outcome : ApprovalState → Bool
is_outcome ApprovalState.pending = false
is_outcome ApprovalState.executing = false
is_outcome _ = true

abbrev pub is_claimed_by : String → String → String → ApprovalRow → Bool
is_claimed_by id profile token row =
    row.approval_id == id
    && (row.profile == profile
        && (row.state == ApprovalState.executing && is_text row.claim_token token))

unfoldable pub resolve :
    String → String → String → ApprovalState → String → Time → Database → Database × Result Bool
resolve id profile token outcome outcome_code now db =
    let (db', changed) =
      settle_where (is_claimed_by id profile token) id outcome outcome_code "approval.execute" now
        db in
    if is_outcome outcome then (db', ok changed) else (db, err Exception.value_error)

abbrev pub is_executing : String → ApprovalRow → Bool
is_executing profile row = row.profile == profile && row.state == ApprovalState.executing

unfoldable pub recover_executing : String → Time → Database → Database × ℕ
recover_executing profile now =
    change_all (is_executing profile) (settle ApprovalState.unknown "interrupted_execution" now)
      "approval.recover" ApprovalState.unknown

pub data ApprovalCall : Type 0 where
  requests : ApprovalRequest → ApprovalCall
  claims : (token id profile : String) → ApprovalCall
  denies : (id profile code : String) → ApprovalCall
  resolves : (id profile token : String) → ApprovalState → (code : String) → ApprovalCall
  lists recovers : (profile : String) → ApprovalCall

-- What a call leaves behind; `list_pending` expires what is due before it reads.
unfoldable pub step : Canonical → Time × ApprovalCall → Database → Database
step canonical (now, requests q) db = (create q db).0
step canonical (now, claims token id profile) db = (claim canonical token id profile now db).0
step canonical (now, denies id profile code) db = (deny id profile code now db).0
step canonical (now, resolves id profile token outcome code) db =
    (resolve id profile token outcome code now db).0
step canonical (now, lists profile) db = (expire_pending profile now db).0
step canonical (now, recovers profile) db = (recover_executing profile now db).0

unfoldable pub run : Canonical → List (Time × ApprovalCall) → Database → Database
run canonical [] db = db
run canonical (c ∷ cs) db = run canonical cs (step canonical c db)
