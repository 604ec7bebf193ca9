-- ===== src/Storage/Tools/Again.antt =====
-- A tool call that is begun again finds its execution.
use lemonbot.Prelude.{
  String, ◌≡◌, refl, Bool, true, false, some, List, [], ◌∷◌, ◌++◌, arith, ◌==◌, string_eq, bool_eq,
  eq_iff, bool_equals_iff, Bool-cases, Option-cases, inl, inr, ok,
}
use lemonbot.Domain.{Time}
use lemonbot.Sql.{exists_where, first_where, exists_where-append, exists_where-of_none}
use lemonbot.Storage.Tables.{Database}
use lemonbot.Storage.Tools.{ToolRequest, begin_tool_execution, same_call, same_request, tool_row}

first_where-append :
    {A : Type 0} (test : A → Bool) (xs : List A) (x : A)
    → exists_where test xs ≡ false
    → test x ≡ true
    → first_where test (xs ++ x ∷ []) ≡ some x
unfolding first_where exists_where
first_where-append test [] x h t = rw t refl
first_where-append test (y ∷ xs) x h t = elim (Bool-cases (test y)) [
  | inl e ↦ let gone = rw e at h in absurd (cc)
  | inr e ↦ rw e (first_where-append test xs x (rw e at h) t)
]

same_call-tool_row :
    (q : ToolRequest) (execution_id : String) (now : Time)
    → same_call q (tool_row q execution_id now) ≡ true
same_call-tool_row q execution_id now =
    let self : (s : String) → (s == s) ≡ true = λ s. (eq_iff s s).1 refl in
    ground (arith, self q.profile, self q.channel, self q.chat_id, self q.event_id, self q.call_id)

same_request-tool_row :
    (q : ToolRequest) (execution_id : String) (now : Time)
    → same_request q (tool_row q execution_id now) ≡ true
same_request-tool_row q execution_id now =
    let self : (s : String) → (s == s) ≡ true = λ s. (eq_iff s s).1 refl in
    ground (
      arith,
      self q.tool_name,
      self q.action_kind,
      self q.arguments_sha256,
      (bool_equals_iff q.side_effect q.side_effect).1 refl,
    )

-- If beginning a tool call succeeds, then beginning the same call again, at any time and with any
-- new id, returns the same execution as one that is not new, and changes nothing.
pub begin_tool_execution_again :
    (q : ToolRequest) (id again : String) (now later : Time) (db : Database) (execution_id : String)
    (fresh : Bool)
    → (begin_tool_execution q id now db).1 ≡ ok (execution_id, fresh)
    → begin_tool_execution q again later (begin_tool_execution q id now db).0
      ≡ ((begin_tool_execution q id now db).0, ok (execution_id, false))
unfolding begin_tool_execution
begin_tool_execution_again q id again now later db execution_id fresh h =
    elim (Bool-cases (exists_where (same_call q) db.tool_executions)) [
      | inl e ↦ elim (Option-cases (first_where (same_call q) db.tool_executions)) [
        | inl f ↦ let gone = exists_where-of_none (same_call q) db.tool_executions f in absurd (cc)
        | inr (row, f) ↦ elim (Bool-cases (same_request q row)) [
          | inl s ↦
              let same : row.execution_id ≡ execution_id = let k = rw (e, f, s) at h in cc in
              rw (e, f, s) (rw (e, f, s) (rw same refl))
          | inr s ↦ let gone = rw (e, f, s) at h in absurd (cc)
        ]
      ]
      | inr e ↦ elim (Bool-cases (exists_where (λ r. r.execution_id == id) db.tool_executions)) [
        | inl f ↦ let gone = rw (e, f) at h in absurd (cc)
        | inr f ↦
            let row = tool_row q id now in
            let mine = same_call-tool_row q id now in
            let there = exists_where-append (same_call q) db.tool_executions row mine in
            let first = first_where-append (same_call q) db.tool_executions row e mine in
            let bound = same_request-tool_row q id now in
            let same : id ≡ execution_id = let k = rw (e, f) at h in cc in
            rw (e, f) (rw (there, first, bound) (rw same refl))
      ]
    ]
