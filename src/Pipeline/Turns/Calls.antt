-- ===== src/Pipeline/Turns/Calls.antt =====
-- The calls of one response keep within the limits.
use lemonbot.Prelude.{
  ℕ, ◌+◌, ◌≤◌, ◌≡◌, refl, subst, ◌&&◌, List, [], ◌∷◌, arith, ltb, string_eq, Bool-cases, inl, inr,
  length,
}
use lemonbot.Domain.Exchange.{ModelMessage, ToolCall}
use lemonbot.Sql.{count_where}
use lemonbot.Storage.Tables.{Database}
use lemonbot.Storage.Inbox.{InboxItem}
use lemonbot.Pipeline.{Surroundings, Failure, done, fails, Task-cases}
use lemonbot.Pipeline.Agent.{Agent}
use lemonbot.Pipeline.Window.{append_tool_result_bounded}
use lemonbot.Pipeline.Tools.{invoke_tool}
use lemonbot.Pipeline.Turns.{Progress, Run, preceded, is_navigation, navigations_with, run_calls}

module _ (env : Surroundings) (agent : Agent) (item : InboxItem) where
  -- The calls of a list that open a page.
  abbrev pub navigations : List ToolCall → ℕ
  navigations calls = count_where (is_navigation env agent item) calls

  -- What the calls of one response use.
  pub record CallsWithin (calls : List ToolCall) (p : Progress) (run : Run Progress) : Type 0 where
    pub none_asked : run.requests ≡ []
    pub calls_made : length run.calls ≤ length calls
    pub opened : p.navigations_used + navigations run.calls ≤ agent.config.max_navigations
    pub kept :
        (q : Progress)
        → run.result ≡ done q
        → (q.tool_calls_used ≡ p.tool_calls_used)
          × (q.input_tokens_used ≡ p.input_tokens_used)
          × (q.output_tokens_used ≡ p.output_tokens_used)
          × (p.navigations_used + navigations run.calls ≤ q.navigations_used)
          × (q.navigations_used ≤ agent.config.max_navigations)

  pub count_call :
      (call : ToolCall) (calls : List ToolCall) (n : ℕ)
      → n + navigations (call ∷ calls) ≡ navigations_with env agent item call n + navigations calls
  unfolding count_where
  count_call call calls n = elim (Bool-cases (is_navigation env agent item call)) [
    | inl e ↦ rw e (omega arith)
    | inr e ↦ rw e (omega arith)
  ]

  pub no_navigations : navigations [] ≡ 0
  unfolding count_where
  no_navigations = refl

  fails-CallsWithin :
      (calls made : List ToolCall) (p : Progress) (db : Database) (f : Failure)
      → length made ≤ length calls
      → p.navigations_used + navigations made ≤ agent.config.max_navigations
      → CallsWithin calls p (record { after = db; result = fails f; requests = []; calls = made })
  fails-CallsWithin calls made p db f some_calls room = record {
    none_asked = refl;
    calls_made = some_calls;
    opened = room;
    kept = λ q h. absurd (cc);
  }

  first-CallsWithin :
      (call : ToolCall) (calls : List ToolCall) (p : Progress) (history : List ModelMessage)
      (at : ℕ) (run : Run Progress)
      → CallsWithin calls
          (record p {
            history = history;
            navigations_used = navigations_with env agent item call p.navigations_used;
            at = at;
          })
          run
      → CallsWithin (call ∷ calls) p (preceded [] (call ∷ []) run)
  first-CallsWithin call calls p history at run w =
      let counted = count_call call run.calls p.navigations_used in
      record {
        none_asked = w.none_asked;
        calls_made = omega (arith, w.calls_made);
        opened = omega (arith, counted, w.opened);
        kept = λ q h. let k = w.kept q h in (k.0, k.1, k.2, omega (arith, counted, k.3), k.4);
      }

  pub run_calls-CallsWithin :
      (calls : List ToolCall) (p : Progress) (db : Database)
      → p.navigations_used ≤ agent.config.max_navigations
      → CallsWithin calls p (run_calls env agent item calls p db)
  unfolding run_calls
  run_calls-CallsWithin [] p db room = record {
    none_asked = refl;
    calls_made = omega arith;
    opened = omega (arith, no_navigations);
    kept = λ q h.
        let same : p ≡ q = cc in
        subst
          (λ r.
            (r.tool_calls_used ≡ p.tool_calls_used)
            × (r.input_tokens_used ≡ p.input_tokens_used)
            × (r.output_tokens_used ≡ p.output_tokens_used)
            × (p.navigations_used + navigations [] ≤ r.navigations_used)
            × (r.navigations_used ≤ agent.config.max_navigations))
          same (refl, refl, refl, omega (arith, no_navigations), room);
  }
  run_calls-CallsWithin (call ∷ calls) p db room =
      let used = navigations_with env agent item call p.navigations_used in
      let over = is_navigation env agent item call && ltb agent.config.max_navigations used in
      let i = invoke_tool env agent item p.at call db in
      elim (Bool-cases over) [
        | inl e ↦ rw e (
            fails-CallsWithin (call ∷ calls) [] p db _ (omega arith)
              (omega (arith, no_navigations)))
        | inr e ↦
            let fits : used ≤ agent.config.max_navigations = ground arith in
            let counted : p.navigations_used + navigations (call ∷ [])
                ≤ agent.config.max_navigations =
              omega (arith, count_call call [] p.navigations_used, no_navigations) in
            elim (Task-cases i.result) [
              | inl f ↦
                  rw (e, f.1)
                    (fails-CallsWithin (call ∷ calls) (call ∷ []) p i.after f.0 (omega arith)
                      counted)
              | inr r ↦
                  elim (Task-cases (
                    append_tool_result_bounded agent p.history call.name call.call_id
                      r.0.content)) [
                        | inl f ↦
                            rw (e, r.1, f.1)
                              (fails-CallsWithin (call ∷ calls) (call ∷ []) p i.after f.0
                                (omega arith) counted)
                        | inr h ↦
                            rw (e, r.1, h.1)
                              (first-CallsWithin call calls p h.0 (p.at + 8) _ (
                                run_calls-CallsWithin calls
                                  (record p {
                                    history = h.0;
                                    navigations_used = used;
                                    at = p.at + 8;
                                  })
                                  i.after fits))
                      ]
            ]
      ]
