-- ===== src/Pipeline/Turns/Within.antt =====
-- A run keeps within the limits of the configuration, however it ends.
use lemonbot.Prelude.{
  ℕ, zero, suc, ◌+◌, ◌-◌, ◌≤◌, ◌≡◌, refl, subst, ap, ◌∙◌, ◌⊎◌, List, [], ◌∷◌, ◌++◌, arith, inl, inr,
  length, length-append, All, All-append,
}
use lemonbot.Domain.Exchange.{ModelMessage, ToolCall}
use lemonbot.Storage.Tables.{Database}
use lemonbot.Storage.Inbox.{InboxItem}
use lemonbot.Pipeline.{Surroundings, done, Task-cases}
use lemonbot.Pipeline.Agent.{Agent}
use lemonbot.Pipeline.Turns.{
  ModelRun, Progress, Run, Turn, replies, goes_on, preceded, turn, turns, started,
  run_model_and_tools,
}
use lemonbot.Pipeline.Turns.Calls.{navigations, no_navigations, count_call}
use lemonbot.Pipeline.Turns.Limits.{
  IsSound, IsCharged, HasRoom, Spends, raised-Spends, turn-OneTurn,
}

module _ (env : Surroundings) (agent : Agent) (item : InboxItem) where
  navigations-append :
      (xs ys : List ToolCall)
      → navigations env agent item (xs ++ ys)
        ≡ navigations env agent item xs + navigations env agent item ys
  navigations-append [] ys = omega (arith, no_navigations env agent item)
  navigations-append (x ∷ xs) ys = ground (
    arith,
    count_call env agent item x (xs ++ ys) 0,
    count_call env agent item x xs 0,
    navigations-append xs ys,
  )

  Turn-cases : (d : Turn) → ((r : ModelRun) × (d ≡ replies r)) ⊎ ((q : Progress) × (d ≡ goes_on q))
  Turn-cases (replies r) = inl (r, refl)
  Turn-cases (goes_on q) = inr (q, refl)

  -- What the rest of the loop does, from its n-th turn.
  record Ends (left n : ℕ) (p : Progress) (run : Run ModelRun) : Type 0 where
    spends : Spends env agent item left p run
    charges : (r : ModelRun) → run.result ≡ done r → IsCharged env agent item (n + left - 1) r

  then-Ends :
      (left n : ℕ) (p q : Progress) (t : Run Turn) (run : Run ModelRun)
      → Spends env agent item 1 p t
      → p.tool_calls_used + length t.calls ≤ q.tool_calls_used
      → p.navigations_used + navigations env agent item t.calls ≤ q.navigations_used
      → Ends left (n + 1) q run
      → Ends (suc left) n p (preceded t.requests t.calls run)
  then-Ends left n p q t run s tools navs e = record {
    spends = record {
      asked = omega (arith, s.asked, e.spends.asked, length-append t.requests run.requests);
      sound = All-append (IsSound env agent item) t.requests run.requests s.sound e.spends.sound;
      calls_made = omega (arith, e.spends.calls_made, length-append t.calls run.calls);
      opened = omega (arith, e.spends.opened, navigations-append t.calls run.calls);
    };
    charges = λ r h. let c = e.charges r h in (omega (arith, c.0), c.1, c.2);
  }

  turns-Ends :
      (left n : ℕ) (p : Progress) (db : Database)
      → HasRoom env agent item p
      → Ends left n p (turns env agent item left n p db)
  unfolding turns
  turns-Ends zero n p db room = record {
    spends = raised-Spends env agent item p db _ room;
    charges = λ r h. absurd (cc);
  }
  turns-Ends (suc left) n p db room =
      let t = turn env agent item n p db in
      let one = turn-OneTurn env agent item n p db room in
      let few : Spends env agent item (suc left) p t = record {
        asked = omega (arith, one.spends.asked);
        sound = one.spends.sound;
        calls_made = one.spends.calls_made;
        opened = one.spends.opened;
      } in
      elim (Task-cases t.result) [
        | inl f ↦ rw f.1 (record {
          spends = record {
            asked = few.asked;
            sound = few.sound;
            calls_made = few.calls_made;
            opened = few.opened;
          };
          charges = λ r h. absurd (cc);
        })
        | inr d ↦ elim (Turn-cases d.0) [
          | inl r ↦ rw (d.1 ∙ ap done r.1) (record {
            spends = record {
              asked = few.asked;
              sound = few.sound;
              calls_made = few.calls_made;
              opened = few.opened;
            };
            charges = λ m h.
                let same : r.0 ≡ m = cc in
                let c = one.follows.at_reply r.0 (d.1 ∙ ap done r.1) in
                subst (IsCharged env agent item (n + suc left - 1)) same
                  (omega (arith, c.0), c.1, c.2);
          })
          | inr q ↦
              let f = one.follows.after_turn q.0 (d.1 ∙ ap done q.1) in
              rw (d.1 ∙ ap done q.1) (
                then-Ends left n p q.0 t _ one.spends f.1 f.2
                  (turns-Ends left (n + 1) q.0 t.after f.0))
        ]
      ]

  -- What is within the limits of a run.
  pub record IsWithin (run : Run ModelRun) : Type 0 where
    pub requests_made : length run.requests ≤ agent.config.max_model_turns
    pub requests_sound : All (IsSound env agent item) run.requests
    pub calls_made : length run.calls ≤ agent.config.max_tool_calls
    pub pages_opened : navigations env agent item run.calls ≤ agent.config.max_navigations
    pub reply_charged :
        (r : ModelRun)
        → run.result ≡ done r
        → IsCharged env agent item agent.config.max_model_turns r

  -- However `_run_model_and_tools` ends, it made at most `max_model_turns` requests to the model, passed at
  -- most `max_tool_calls` calls to `_invoke_tool`, and of these at most `max_navigations` to the
  -- browser; every request fitted the model's context and asked for no more tokens than the limits
  -- allow; and a run that returns a reply charged its input and output within the task's limits.
  pub run_model_and_tools-IsWithin :
      (k : ℕ) (history : List ModelMessage) (db : Database)
      → IsWithin (run_model_and_tools env agent item k history db)
  unfolding run_model_and_tools
  run_model_and_tools-IsWithin k history db =
      let e =
        turns-Ends agent.config.max_model_turns 1 (started env agent item k history) db (record {
          tools_left = omega arith;
          navigations_left = omega arith;
          input_left = omega arith;
          output_left = omega arith;
        }) in
      record {
        requests_made = e.spends.asked;
        requests_sound = e.spends.sound;
        calls_made = omega (arith, e.spends.calls_made);
        pages_opened = omega (arith, e.spends.opened);
        reply_charged = λ r h. let c = e.charges r h in (omega (arith, c.0), c.1, c.2);
      }
