-- ===== src/Approvals/Once.antt =====
-- An approval is claimed once.
use lemonbot.Prelude.{
  String, ◌≡◌, ◌≢◌, refl, ap, true, false, ◌||◌, Option, none, some, List, [], ◌∷◌, arith, ◌==◌,
  string_eq, nat_eq, Option-cases, Bool-cases, inl, inr, eq_iff, All, All-Unit, All-map, ok,
}
use lemonbot.Domain.{Time, ApprovalState, approval_state_eq}
use lemonbot.Sql.{
  update_where, first_where, exists_where, count_where, All-update_each, count_where-zero,
  exists_where-of_first, first_where-All, first_where-test,
}
use lemonbot.Sql.Evolution.{Evolves, Evolves-refl, Evolves-insert, All-Evolves, exists-Evolves}
use lemonbot.Storage.Tables.{ApprovalRow, Database}
use lemonbot.Approvals.{
  ApprovalRequest, Canonical, ApprovalCall, claim, create, expire_pending, step, run, has_id,
  is_expired, is_claimable, claimed, is_pending, same_binding, approval_row, reveal,
}
use lemonbot.Approvals.Lifecycle.{Moves, Moves-refl, expire_pending-Steps, step-Steps}

module _ (id profile : String) where
  -- The row is not an open request for this approval.
  abbrev IsClosed : ApprovalRow → Type 0
  IsClosed r = is_pending id profile r ≡ false

  Moves-IsClosed : (r s : ApprovalRow) → IsClosed r → Moves r s → IsClosed s
  Moves-IsClosed r s c m = let used = m.used in rw (m.approval_id, m.profile) (ground arith)

  -- The approval exists, and no row is an open request for it.
  record Spent (rows : List ApprovalRow) : Type 0 where
    exists : exists_where (has_id id) rows ≡ true
    closed : All IsClosed rows

  has_id-Moves : (r s : ApprovalRow) → Moves r s → has_id id s ≡ has_id id r
  has_id-Moves r s m = rw m.approval_id

  Spent-Evolves : (xs ys : List ApprovalRow) → Spent xs → Evolves Moves IsClosed xs ys → Spent ys
  Spent-Evolves xs ys s e = record {
    exists = exists-Evolves Moves IsClosed (has_id id) has_id-Moves xs ys e s.exists;
    closed = All-Evolves Moves IsClosed IsClosed Moves-IsClosed (λ y n. n) xs ys s.closed e;
  }

  create-IsClosed :
      (q : ApprovalRequest) (rows : List ApprovalRow)
      → exists_where (has_id id) rows ≡ true
      → exists_where (has_id q.approval_id) rows ≡ false
      → IsClosed (approval_row q)
  create-IsClosed q rows h n = elim (Bool-cases (q.approval_id == id)) [
    | inr e ↦ rw e
    | inl e ↦
        let same : q.approval_id ≡ id = ground (arith, eq_iff q.approval_id id) in
        let gone = rw same at n in absurd (cc)
  ]

  create-Spent-Evolves :
      (q : ApprovalRequest) (db : Database)
      → Spent db.approvals
      → Evolves Moves IsClosed db.approvals (create q db).0.approvals
  unfolding create
  create-Spent-Evolves q db s =
      elim (Bool-cases (
        exists_where (same_binding q) db.approvals
        || exists_where (has_id q.approval_id) db.approvals)) [
          | inl e ↦ elim (Option-cases (first_where (same_binding q) db.approvals)) [
            | inl f ↦ rw e (rw f (Evolves-refl Moves IsClosed Moves-refl db.approvals))
            | inr (row, f) ↦ rw e (rw f (Evolves-refl Moves IsClosed Moves-refl db.approvals))
          ]
          | inr e ↦ rw e (
              Evolves-insert Moves IsClosed Moves-refl db.approvals _
                (create-IsClosed q db.approvals s.exists (ground arith)))
        ]

  run-Spent :
      (canonical : Canonical) (cs : List (Time × ApprovalCall)) (db : Database)
      → Spent db.approvals
      → Spent (run canonical cs db).approvals
  unfolding run
  run-Spent canonical [] db s = s
  run-Spent canonical ((now, c) ∷ cs) db s = run-Spent canonical cs (step canonical (now, c) db) (
      Spent-Evolves db.approvals _ s
        (step-Steps IsClosed Moves-IsClosed canonical now c db (λ q. create-Spent-Evolves q db s)))

  -- What is left of the approval once a claim has been tried at `now`.
  claim_rows : Time → String → Database → List ApprovalRow
  claim_rows now token db =
      update_where (is_claimable id profile now) (claimed token now)
        (expire_pending profile now db).0.approvals

  IsClosed-claim :
      (token : String) (now : Time) (db : Database) → All IsClosed (claim_rows now token db)
  unfolding claim_rows expire_pending
  IsClosed-claim token now db =
      All-update_each (λ r. is_expired profile now r ≡ false) IsClosed _ _ _ (λ r h e. ground arith)
        (λ r h e. ground arith)
        (All-update_each (λ r. Unit) (λ r. is_expired profile now r ≡ false)
          (is_expired profile now) _ db.approvals (λ r h _. ground arith) (λ r h _. h)
          (All-Unit db.approvals))

  -- What a successful claim shows of the approval.
  pub record IsClaim (canonical : Canonical) (row : ApprovalRow) : Type 0 where
    pub same_id : row.approval_id ≡ id
    pub same_profile : row.profile ≡ profile
    pub taken : row.state ≢ ApprovalState.pending
    pub bound : canonical.binds row.arguments_json row.arguments_sha256 row.arguments_summary ≡ true

  reveal-row :
      (canonical : Canonical) (found : Option ApprovalRow) (before db : Database)
      (row : ApprovalRow)
      → (reveal canonical profile found before db).1 ≡ ok (some row)
      → (found ≡ some row)
        × (row.profile ≡ profile)
        × (canonical.binds row.arguments_json row.arguments_sha256 row.arguments_summary ≡ true)
        × ((reveal canonical profile found before db).0.approvals ≡ db.approvals)
  reveal-row canonical none before db row h = absurd (cc)
  reveal-row canonical (some r) before db row h = elim (Bool-cases (r.profile == profile)) [
    | inr e ↦ let gone = rw e at h in absurd (cc)
    | inl e ↦
        elim (Bool-cases
          (canonical.binds r.arguments_json r.arguments_sha256 r.arguments_summary)) [
            | inr b ↦ let gone = rw (e, b) at h in absurd (cc)
            | inl b ↦
                let same : r ≡ row = let k = rw (e, b) at h in cc in
                rw (e, b)
                  (ap some same, (eq_iff row.profile profile).0 (rw same at e), rw same at b, refl)
          ]
  ]

  not_pending :
      (row : ApprovalRow)
      → has_id id row ≡ true
      → row.profile ≡ profile
      → IsClosed row
      → row.state ≢ ApprovalState.pending
  not_pending row asked owned closed p = ground (arith, eq_iff row.profile profile)

  -- If a claim succeeds, the approval is spent.
  claim-Spent :
      (canonical : Canonical) (token : String) (now : Time) (db : Database) (row : ApprovalRow)
      → (claim canonical token id profile now db).1 ≡ ok (some row)
      → Spent (claim canonical token id profile now db).0.approvals
  unfolding claim claim_rows
  claim-Spent canonical token now db row h =
      let db₁ = (expire_pending profile now db).0 in
      elim (Bool-cases (count_where (is_claimable id profile now) db₁.approvals == 1)) [
        | inr e ↦ let gone = rw e at h in absurd (cc)
        | inl e ↦
            let (found, _, _, same) = reveal-row canonical _ db _ row (rw e at h) in
            rw e (
              rw same (record {
                exists = exists_where-of_first (has_id id) _ row found;
                closed = IsClosed-claim token now db;
              }))
      ]

  Spent-claim :
      (canonical : Canonical) (token : String) (now : Time) (db : Database)
      → Spent db.approvals
      → (claim canonical token id profile now db).1 ≡ ok none
  unfolding claim
  Spent-claim canonical token now db s =
      let db₁ = (expire_pending profile now db).0 in
      let after =
        Spent-Evolves db.approvals db₁.approvals s
          (expire_pending-Steps IsClosed Moves-IsClosed profile now db) in
      let zero_rows : count_where (is_claimable id profile now) db₁.approvals ≡ 0 =
        count_where-zero (is_claimable id profile now) db₁.approvals
          (All-map (λ r c. ground arith) db₁.approvals after.closed) in
      rw zero_rows refl

  -- A claim that succeeds returns the row of the approval that was asked for, of the profile that
  -- asked, no longer pending, with arguments that their digest and summary still bind.
  pub claim-IsClaim :
      (canonical : Canonical) (token : String) (now : Time) (db : Database) (row : ApprovalRow)
      → (claim canonical token id profile now db).1 ≡ ok (some row)
      → IsClaim canonical row
  unfolding claim claim_rows
  claim-IsClaim canonical token now db row h =
      let db₁ = (expire_pending profile now db).0 in
      elim (Bool-cases (count_where (is_claimable id profile now) db₁.approvals == 1)) [
        | inr e ↦ let gone = rw e at h in absurd (cc)
        | inl e ↦
            let (found, owned, binds, _) = reveal-row canonical _ db _ row (rw e at h) in
            let rows =
              update_where (is_claimable id profile now) (claimed token now) db₁.approvals in
            let asked = first_where-test (has_id id) rows row found in
            let closed : IsClosed row =
              first_where-All IsClosed (has_id id) rows row (IsClosed-claim token now db) found in
            record {
              same_id = (eq_iff row.approval_id id).0 asked;
              same_profile = owned;
              taken = not_pending row asked owned closed;
              bound = binds;
            }
      ]

  -- An approval that was claimed is never claimed again: after any history of requests, claims,
  -- decisions, expiries and recoveries, a claim of the same approval finds nothing.
  pub claim_once :
      (canonical : Canonical) (token : String) (now : Time) (db : Database) (row : ApprovalRow)
      → (claim canonical token id profile now db).1 ≡ ok (some row)
      → (cs : List (Time × ApprovalCall)) (again : String) (later : Time)
      → (claim canonical again id profile later
          (run canonical cs (claim canonical token id profile now db).0)).1
        ≡ ok none
  claim_once canonical token now db row h cs again later =
      Spent-claim canonical again later _
        (run-Spent canonical cs _ (claim-Spent canonical token now db row h))
