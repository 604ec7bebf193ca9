-- ===== src/Pipeline/Turns/Limits.antt =====
-- A turn keeps within the limits of the configuration, however it ends.
use lemonbot.Prelude.{
  ℕ, ◌+◌, ◌-◌, ◌≤◌, ◌≡◌, refl, subst, ap, ◌∙◌, max, true, not, ◌&&◌, List, [], ◌∷◌, ◌++◌, arith,
  ltb, ◌==◌, string_eq, Bool-cases, inl, inr, length, All, strip,
}
use lemonbot.Domain.Exchange.{ModelRequest, ModelResponse, ToolCall}
use lemonbot.Storage.Tables.{Database}
use lemonbot.Storage.Inbox.{InboxItem, mark_inbox_model_started}
use lemonbot.Pipeline.{Surroundings, arrive, Failure, done, Task-cases}
use lemonbot.Pipeline.Agent.{Agent, Generation, responds, fails_closed, breaks, breaks_off}
use lemonbot.Pipeline.Window.{fits_context}
use lemonbot.Pipeline.Turns.{
  has_calls, text_of, replied, assistant, going_on, ModelRun, Progress, Run, Turn, replies, goes_on,
  is_given, raised, preceded, request_for, estimated_input, estimated_output, concluded, charged,
  generated, turn,
}
use lemonbot.Pipeline.Turns.Calls.{navigations, CallsWithin, no_navigations, run_calls-CallsWithin}

module _ (env : Surroundings) (agent : Agent) (item : InboxItem) where
  -- A request that the context has room for, and that asks for no more than the task may still use.
  abbrev pub IsSound : ModelRequest → Type 0
  IsSound r =
      (fits_context agent r.messages ≡ true)
      × (estimated_input env agent item r ≤ agent.config.max_task_input_tokens)
      × (r.max_tokens ≤ agent.config.model_max_tokens)
      × (r.max_tokens ≤ agent.config.max_task_output_tokens)

  pub record HasRoom (p : Progress) : Type 0 where
    pub tools_left : p.tool_calls_used ≤ agent.config.max_tool_calls
    pub navigations_left : p.navigations_used ≤ agent.config.max_navigations
    pub input_left : p.input_tokens_used ≤ agent.config.max_task_input_tokens
    pub output_left : p.output_tokens_used ≤ agent.config.max_task_output_tokens

  -- What a reply says of what was used.
  abbrev pub IsCharged : (most : ℕ) → ModelRun → Type 0
  IsCharged most r =
      (r.turns_used ≤ most)
      × (r.input_tokens_used ≤ agent.config.max_task_input_tokens)
      × (r.output_tokens_used ≤ agent.config.max_task_output_tokens)

  pub record Spends {ℓ} {A : Type ℓ} (most : ℕ) (p : Progress) (run : Run A) : Type ℓ where
    pub asked : length run.requests ≤ most
    pub sound : All IsSound run.requests
    pub calls_made : p.tool_calls_used + length run.calls ≤ agent.config.max_tool_calls
    pub opened :
        p.navigations_used + navigations env agent item run.calls ≤ agent.config.max_navigations

  -- Where a turn leaves the loop's variables.
  pub record Follows (n : ℕ) (p : Progress) (run : Run Turn) : Type 0 where
    pub after_turn :
        (q : Progress)
        → run.result ≡ done (goes_on q)
        → HasRoom q
          × (p.tool_calls_used + length run.calls ≤ q.tool_calls_used)
          × (p.navigations_used + navigations env agent item run.calls ≤ q.navigations_used)
    pub at_reply : (r : ModelRun) → run.result ≡ done (replies r) → IsCharged n r

  record Turns (n : ℕ) (p : Progress) (run : Run Turn) : Type 0 where
    pub spends : Spends 0 p run
    pub follows : Follows n p run

  pub raised-Spends {ℓ} :
      {A : Type ℓ} (p : Progress) (db : Database) (f : Failure)
      → HasRoom p
      → Spends 0 p (raised {A = A} db f)
  raised-Spends p db f room = record {
    asked = omega arith;
    sound = tt;
    calls_made = omega (arith, room.tools_left);
    opened = omega (arith, no_navigations env agent item, room.navigations_left);
  }

  raised-Turns :
      (n : ℕ) (p : Progress) (db : Database) (f : Failure) → HasRoom p → Turns n p (raised db f)
  raised-Turns n p db f room = record {
    spends = raised-Spends p db f room;
    follows = record { after_turn = λ q h. absurd (cc); at_reply = λ r h. absurd (cc) };
  }

  going_on-Turns :
      (n : ℕ) (calls : List ToolCall) (p before : Progress) (run : Run Progress)
      → HasRoom p
      → before.tool_calls_used ≤ agent.config.max_tool_calls
      → before.tool_calls_used ≡ p.tool_calls_used + length calls
      → before.navigations_used ≡ p.navigations_used
      → before.input_tokens_used ≡ p.input_tokens_used
      → before.output_tokens_used ≡ p.output_tokens_used
      → CallsWithin env agent item calls before run
      → Turns n p (going_on env agent item run)
  going_on-Turns n calls p before run room few tools navs input output w = record {
    spends = record {
      asked = rw w.none_asked (omega arith);
      sound = rw w.none_asked tt;
      calls_made = omega (arith, w.calls_made);
      opened = omega (arith, w.opened);
    };
    follows = elim (Task-cases run.result) [
      | inl f ↦ record {
        after_turn = λ q h. let gone = rw f.1 at h in absurd (cc);
        at_reply = λ r h. let gone = rw f.1 at h in absurd (cc);
      }
      | inr t ↦ record {
        after_turn = λ q h.
            let is = rw t.1 at h in
            let same : t.0 ≡ q = cc in
            let kept = w.kept q (t.1 ∙ ap done same) in
            (
              record {
                tools_left = omega (arith, kept.0);
                navigations_left = kept.4;
                input_left = omega (arith, kept.1, room.input_left);
                output_left = omega (arith, kept.2, room.output_left);
              },
              omega (arith, kept.0, w.calls_made),
              omega (arith, kept.3),
            );
        at_reply = λ r h. let gone = rw t.1 at h in absurd (cc);
      }
    ];
  }

  -- After a response's tokens were charged.
  concluded-Turns :
      (n : ℕ) (r : ModelResponse) (p : Progress) (db : Database)
      → HasRoom p
      → Turns n p (concluded env agent item n r p db)
  concluded-Turns n r p db room = elim (Bool-cases (has_calls env agent item r.tool_calls)) [
    | inl c ↦
        let used = p.tool_calls_used + length r.tool_calls in
        elim (Bool-cases (ltb agent.config.max_tool_calls used)) [
          | inl e ↦ rw (c, e) (raised-Turns n p db _ room)
          | inr e ↦
              rw (c, e)
                (going_on-Turns n r.tool_calls p
                  (record p {
                    history = p.history ++ assistant r r.tool_calls ∷ [];
                    tool_calls_used = used;
                  })
                  _ room (ground arith) refl refl refl refl
                  (run_calls-CallsWithin env agent item r.tool_calls _ db room.navigations_left))
        ]
    | inr c ↦ elim (Bool-cases (is_given r.content && not (strip (text_of r.content) == ""))) [
      | inr e ↦ rw (c, e) (raised-Turns n p db _ room)
      | inl e ↦
          rw (c, e)
            (record {
              spends = record {
                asked = omega arith;
                sound = tt;
                calls_made = omega (arith, room.tools_left);
                opened = omega (arith, no_navigations env agent item, room.navigations_left);
              };
              follows = record {
                after_turn = λ q h. absurd (cc);
                at_reply = λ m h.
                    let same : replied env agent item n r p ≡ m = cc in
                    subst (IsCharged n) same (omega arith, room.input_left, room.output_left);
              };
            })
    ]
  ]

  Turns-same :
      (n : ℕ) (p q : Progress) (run : Run Turn)
      → q.tool_calls_used ≡ p.tool_calls_used
      → q.navigations_used ≡ p.navigations_used
      → Turns n q run
      → Turns n p run
  Turns-same n p q run tools navs t = record {
    spends = record {
      asked = t.spends.asked;
      sound = t.spends.sound;
      calls_made = omega (arith, t.spends.calls_made);
      opened = omega (arith, t.spends.opened);
    };
    follows = record {
      after_turn =
          λ s h. let f = t.follows.after_turn s h in (f.0, omega (arith, f.1), omega (arith, f.2));
      at_reply = t.follows.at_reply;
    };
  }

  charged-Turns :
      (n estimate : ℕ) (r : ModelResponse) (p : Progress) (db : Database)
      → HasRoom p
      → Turns n p (charged env agent item n estimate r p db)
  charged-Turns n estimate r p db room =
      let input = p.input_tokens_used + max estimate r.prompt_tokens in
      let output =
        p.output_tokens_used + max (estimated_output env agent item r) r.completion_tokens in
      elim (Bool-cases (ltb agent.config.max_task_input_tokens input)) [
        | inl e ↦ rw e (raised-Turns n p db _ room)
        | inr e ↦ elim (Bool-cases (ltb agent.config.max_task_output_tokens output)) [
          | inl f ↦ rw (e, f) (raised-Turns n p db _ room)
          | inr f ↦
              let q = record p { input_tokens_used = input; output_tokens_used = output } in
              rw (e, f)
                (Turns-same n p q _ refl refl (
                  concluded-Turns n r q db (record {
                    tools_left = room.tools_left;
                    navigations_left = room.navigations_left;
                    input_left = ground arith;
                    output_left = ground arith;
                  })))
        ]
      ]

  generated-Turns :
      (n estimate : ℕ) (g : Generation) (p : Progress) (db : Database)
      → HasRoom p
      → Turns n p (generated env agent item n estimate g p db)
  generated-Turns n estimate (fails_closed name) p db room = raised-Turns n p db _ room
  generated-Turns n estimate (breaks name) p db room = raised-Turns n p db _ room
  generated-Turns n estimate breaks_off p db room = raised-Turns n p db _ room
  generated-Turns n estimate (responds r) p db room = charged-Turns n estimate r p db room

  -- A turn makes one request at most.
  pub record OneTurn (n : ℕ) (p : Progress) (run : Run Turn) : Type 0 where
    pub spends : Spends 1 p run
    pub follows : Follows n p run

  raised-OneTurn :
      (n : ℕ) (p : Progress) (db : Database) (f : Failure) → HasRoom p → OneTurn n p (raised db f)
  raised-OneTurn n p db f room =
      let t = raised-Turns n p db f room in
      record {
        spends = record {
          asked = omega arith;
          sound = tt;
          calls_made = t.spends.calls_made;
          opened = t.spends.opened;
        };
        follows = t.follows;
      }

  asked-OneTurn :
      (n : ℕ) (p : Progress) (request : ModelRequest) (run : Run Turn)
      → IsSound request
      → Turns n p run
      → OneTurn n p (preceded (request ∷ []) [] run)
  asked-OneTurn n p request run sound t = record {
    spends = record {
      asked = omega (arith, t.spends.asked);
      sound = (sound, t.spends.sound);
      calls_made = t.spends.calls_made;
      opened = t.spends.opened;
    };
    follows = record { after_turn = t.follows.after_turn; at_reply = t.follows.at_reply };
  }

  pub turn-OneTurn :
      (n : ℕ) (p : Progress) (db : Database) → HasRoom p → OneTurn n p (turn env agent item n p db)
  unfolding turn
  turn-OneTurn n p db room =
      let request = request_for env agent item p in
      let estimate = estimated_input env agent item request in
      let marked = mark_inbox_model_started item.id (env.clock p.at) (arrive env p.at db) in
      elim (Bool-cases (fits_context agent p.history)) [
        | inr f ↦ rw f (raised-OneTurn n p db _ room)
        | inl f ↦
            elim (Bool-cases (ltb (agent.config.max_task_output_tokens - p.output_tokens_used) 1)) [
              | inl o ↦ rw (f, o) (raised-OneTurn n p db _ room)
              | inr o ↦
                  elim (Bool-cases
                    (ltb agent.config.max_task_input_tokens (p.input_tokens_used + estimate))) [
                      | inl i ↦ rw (f, o, i) (raised-OneTurn n p db _ room)
                      | inr i ↦ elim (Bool-cases marked.1) [
                        | inr m ↦ rw (f, o, i, m) (raised-OneTurn n p marked.0 _ room)
                        | inl m ↦
                            let q = record p { at = p.at + 1 } in
                            rw (f, o, i, m)
                              (asked-OneTurn n p request _
                                (f, ground arith, omega arith, omega arith)
                                (Turns-same n p q _ refl refl (
                                  generated-Turns n estimate (agent.model.generate p.at request) q
                                    marked.0
                                    (record {
                                      tools_left = room.tools_left;
                                      navigations_left = room.navigations_left;
                                      input_left = room.input_left;
                                      output_left = room.output_left;
                                    }))))
                      ]
                    ]
            ]
      ]
