-- ===== src/Approvals/Lifecycle.antt =====
-- The steps that an approval takes.
use lemonbot.Prelude.{
  String, ◌≡◌, ◌≢◌, ◌∙◌, refl, Bool, true, Option, none, some, List, [], ◌∷◌, arith, ◌==◌,
  string_eq, nat_eq, Option-cases, Bool-cases, inl, inr, is_some, ◌||◌,
}
use lemonbot.Domain.{Time, ApprovalState, approval_state_eq}
use lemonbot.Sql.{update_where, first_where, exists_where, count_where}
use lemonbot.Sql.Evolution.{
  Evolves, Evolves-refl, Evolves-update, Evolves-insert, Since, Since-trans, Evolves-Since,
  Evolves-trans,
}
use lemonbot.Storage.Tables.{ApprovalRow, Database}
use lemonbot.Approvals.{
  ApprovalRequest, Canonical, ApprovalCall, requests, claims, denies, resolves, lists, recovers,
  create, claim, deny, resolve, expire_pending, recover_executing, step, run, same_binding, has_id,
  is_expired, settle, is_claimable, claimed, is_pending, is_claimed_by, is_executing, is_outcome,
  settle_where, reveal,
}

-- The action that is approved stays; what is approved, denied or unknown is final; what has left
-- pending never returns to it; the token of an approval
-- that has left pending is never replaced.
pub record Moves (r s : ApprovalRow) : Type 0 where
  pub approval_id : s.approval_id ≡ r.approval_id
  pub profile : s.profile ≡ r.profile
  pub tool_name : s.tool_name ≡ r.tool_name
  pub action_kind : s.action_kind ≡ r.action_kind
  pub arguments_sha256 : s.arguments_sha256 ≡ r.arguments_sha256
  pub arguments_json : s.arguments_json ≡ r.arguments_json
  pub final : is_outcome r.state ≡ true → s.state ≡ r.state
  pub used : r.state ≢ ApprovalState.pending → s.state ≢ ApprovalState.pending
  pub token :
      is_some r.claim_token ≡ true → r.state ≢ ApprovalState.pending → s.claim_token ≡ r.claim_token

pub record IsNew (r : ApprovalRow) : Type 0 where
  pub state : r.state ≡ ApprovalState.pending
  pub token : r.claim_token ≡ none

pub Moves-refl : (r : ApprovalRow) → Moves r r
Moves-refl r = record {
  approval_id = refl;
  profile = refl;
  tool_name = refl;
  action_kind = refl;
  arguments_sha256 = refl;
  arguments_json = refl;
  final = λ _. refl;
  used = λ n. n;
  token = λ _ _. refl;
}

pub Moves-trans : (r s t : ApprovalRow) → Moves r s → Moves s t → Moves r t
Moves-trans r s t a b = record {
  approval_id = b.approval_id ∙ a.approval_id;
  profile = b.profile ∙ a.profile;
  tool_name = b.tool_name ∙ a.tool_name;
  action_kind = b.action_kind ∙ a.action_kind;
  arguments_sha256 = b.arguments_sha256 ∙ a.arguments_sha256;
  arguments_json = b.arguments_json ∙ a.arguments_json;
  final = λ e. let same = a.final e in b.final (rw same e) ∙ same;
  used = λ n. b.used (a.used n);
  token = λ e n. let same = a.token e n in b.token (rw same e) (a.used n) ∙ same;
}

module _ (New : ApprovalRow → Type 0) (keep : (r s : ApprovalRow) → New r → Moves r s → New s) where
  abbrev Steps : Database → Database → Type 0
  Steps db db' = Evolves Moves New db.approvals db'.approvals

  Same : (db : Database) → Steps db db
  Same db = Evolves-refl Moves New Moves-refl db.approvals

  pub expire_pending-Steps :
      (profile : String) (now : Time) (db : Database) → Steps db (expire_pending profile now db).0
  unfolding expire_pending
  expire_pending-Steps profile now db =
      Evolves-update Moves New Moves-refl (is_expired profile now) _ db.approvals
        (λ r h. ground arith)

  recover_executing-Steps :
      (profile : String) (now : Time) (db : Database)
      → Steps db (recover_executing profile now db).0
  unfolding recover_executing
  recover_executing-Steps profile now db =
      Evolves-update Moves New Moves-refl (is_executing profile) _ db.approvals
        (λ r h. ground arith)

  settle_where-Steps :
      (test : ApprovalRow → Bool) (id : String) (outcome : ApprovalState) (code action : String)
      (now : Time) (db : Database)
      → ((r : ApprovalRow) → test r ≡ true → Moves r (settle outcome code now r))
      → Steps db (settle_where test id outcome code action now db).0
  settle_where-Steps test id outcome code action now db step =
      let rows = update_where test (settle outcome code now) db.approvals in
      let steps =
        Evolves-update Moves New Moves-refl test (settle outcome code now) db.approvals step in
      elim (Bool-cases (count_where test db.approvals == 1)) [
        | inr e ↦ rw e steps
        | inl e ↦ elim (Option-cases (first_where (has_id id) rows)) [
          | inl f ↦ rw e (rw f steps)
          | inr (row, f) ↦ rw e (rw f steps)
        ]
      ]

  reveal-Steps :
      (canonical : Canonical) (profile : String) (row : Option ApprovalRow) (before db : Database)
      → Steps before db
      → Steps before (reveal canonical profile row before db).0
  reveal-Steps canonical profile none before db h = Same before
  reveal-Steps canonical profile (some row) before db h =
      elim (Bool-cases (row.profile == profile)) [
        | inr e ↦ rw e (Same before)
        | inl e ↦
            elim (Bool-cases
              (canonical.binds row.arguments_json row.arguments_sha256 row.arguments_summary)) [
                | inr b ↦ rw e (rw b (Same before))
                | inl b ↦ rw e (rw b h)
              ]
      ]

  claim-Steps :
      (canonical : Canonical) (token id profile : String) (now : Time) (db : Database)
      → Steps db (claim canonical token id profile now db).0
  unfolding claim
  claim-Steps canonical token id profile now db =
      let db₁ = (expire_pending profile now db).0 in
      let test = is_claimable id profile now in
      let steps =
        Evolves-trans Moves New Moves-trans keep db.approvals db₁.approvals _
          (expire_pending-Steps profile now db)
          (Evolves-update Moves New Moves-refl test (claimed token now) db₁.approvals
            (λ r h. ground arith)) in
      elim (Bool-cases (count_where test db₁.approvals == 1)) [
        | inr e ↦ rw e steps
        | inl e ↦ rw e (reveal-Steps canonical profile _ db _ steps)
      ]

  deny-Steps :
      (id profile code : String) (now : Time) (db : Database)
      → Steps db (deny id profile code now db).0
  unfolding deny
  deny-Steps id profile code now db =
      let db₁ = (expire_pending profile now db).0 in
      Evolves-trans Moves New Moves-trans keep db.approvals db₁.approvals _
        (expire_pending-Steps profile now db)
        (settle_where-Steps (is_pending id profile) id ApprovalState.denied code "approval.decision"
          now db₁ (λ r h. ground arith))

  resolve-Steps :
      (id profile token : String) (outcome : ApprovalState) (code : String) (now : Time)
      (db : Database)
      → Steps db (resolve id profile token outcome code now db).0
  unfolding resolve
  resolve-Steps id profile token outcome code now db = elim (Bool-cases (is_outcome outcome)) [
    | inr e ↦ rw e (Same db)
    | inl e ↦ rw e (
        settle_where-Steps (is_claimed_by id profile token) id outcome code "approval.execute" now
          db (λ r h. ground arith))
  ]

  -- Every call but `create` only moves rows.
  pub step-Steps :
      (canonical : Canonical) (now : Time) (c : ApprovalCall) (db : Database)
      → ((q : ApprovalRequest) → Steps db (create q db).0)
      → Steps db (step canonical (now, c) db)
  unfolding step
  step-Steps canonical now (requests q) db new = new q
  step-Steps canonical now (claims token id profile) db new =
      claim-Steps canonical token id profile now db
  step-Steps canonical now (denies id profile code) db new = deny-Steps id profile code now db
  step-Steps canonical now (resolves id profile token outcome code) db new =
      resolve-Steps id profile token outcome code now db
  step-Steps canonical now (lists profile) db new = expire_pending-Steps profile now db
  step-Steps canonical now (recovers profile) db new = recover_executing-Steps profile now db

create-Evolves :
    (q : ApprovalRequest) (db : Database)
    → Evolves Moves IsNew db.approvals (create q db).0.approvals
unfolding create
create-Evolves q db =
    elim (Bool-cases (
      exists_where (same_binding q) db.approvals
      || exists_where (has_id q.approval_id) db.approvals)) [
        | inl e ↦ elim (Option-cases (first_where (same_binding q) db.approvals)) [
          | inl f ↦ rw e (rw f (Evolves-refl Moves IsNew Moves-refl db.approvals))
          | inr (row, f) ↦ rw e (rw f (Evolves-refl Moves IsNew Moves-refl db.approvals))
        ]
        | inr e ↦ rw e (
            Evolves-insert Moves IsNew Moves-refl db.approvals _
              (record { state = refl; token = refl }))
      ]

abbrev pub ApprovalSteps : List ApprovalRow → List ApprovalRow → Type 0
ApprovalSteps = Evolves Moves (Since Moves IsNew)

-- Over any history of requests, claims, decisions, expiries and recoveries no approval is lost: the
-- action, its arguments and their digest stay; approved, denied and unknown are final; an approval
-- that has left pending never returns to it, and its claim token is never replaced.
pub run-approvals :
    (canonical : Canonical) (cs : List (Time × ApprovalCall)) (db : Database)
    → ApprovalSteps db.approvals (run canonical cs db).approvals
unfolding run
run-approvals canonical [] db = Evolves-refl _ _ Moves-refl db.approvals
run-approvals canonical ((now, c) ∷ cs) db =
    Since-trans Moves IsNew Moves-trans db.approvals _ _
      (step-Steps (Since Moves IsNew) (λ r s (b, n, m) t. (b, n, Moves-trans b r s m t)) canonical
        now c db (λ q. Evolves-Since Moves IsNew Moves-refl db.approvals _ (create-Evolves q db)))
      (run-approvals canonical cs (step canonical (now, c) db))
