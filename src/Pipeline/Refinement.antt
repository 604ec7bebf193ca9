-- ===== src/Pipeline/Refinement.antt =====
-- What a method of the pipeline does to the database, as a history of the repository's methods, in which
-- certain calls are hits for what the method did outside.
use lemonbot.Prelude.{
  ℕ, ◌+◌, ◌≤◌, ◌≡◌, ◌∙◌, refl, ap, subst, sym, Bool, true, Option, none, some, List, [], ◌∷◌, ◌++◌,
  arith, Bool-cases, inl, inr, if◌then◌else◌,
}
use lemonbot.Domain.{Time, ProposedAction}
use lemonbot.Storage.Tables.{Database}
use lemonbot.Storage.History.{Call, Choices, step, run, other_step, on_other, audits}
use lemonbot.Storage.History.Occurrences.{occurrences}
use lemonbot.Policy.Engine.{decision_on, is_valid_retry, policy_audit}
use lemonbot.Policy.Evaluate.{evaluate, audited_decision}
use lemonbot.Policy.Evaluate.Audited.{evaluate-audited_decision}
use lemonbot.Pipeline.{Surroundings, arrive}

module _ {I : Type 0} (select : Choices) (hits : I → Time × Call → Database → Bool) where
  pub run-append :
      (cs ds : List (Time × Call)) (db : Database)
      → run select (cs ++ ds) db ≡ run select ds (run select cs db)
  unfolding run
  run-append [] ds db = refl
  run-append (c ∷ cs) ds db = run-append cs ds (step select c db)

  pub occurrences-append :
      (id : I) (cs ds : List (Time × Call)) (db : Database)
      → occurrences select (hits id) (cs ++ ds) db
        ≡ occurrences select (hits id) cs db + occurrences select (hits id) ds (run select cs db)
  unfolding run occurrences
  occurrences-append id [] ds db = omega arith
  occurrences-append id (c ∷ cs) ds db =
      omega (arith, occurrences-append id cs ds (step select c db))

  -- A method went from one database to another by a history of calls, and what it did outside is
  -- a hit in it.
  pub record Refines (done : Option I) (before after : Database) : Type 0 where
    pub calls : List (Time × Call)
    pub runs : run select calls before ≡ after
    pub marked : (id : I) → done ≡ some id → 1 ≤ occurrences select (hits id) calls before

  pub Refines-refl : (db : Database) → Refines none db db
  unfolding run
  Refines-refl db = record { calls = []; runs = refl; marked = λ id e. absurd (cc) }

  pub Refines-history :
      (cs : List (Time × Call)) (db : Database) → Refines none db (run select cs db)
  Refines-history cs db = record { calls = cs; runs = refl; marked = λ id e. absurd (cc) }

  pub Refines-call : (c : Time × Call) (db : Database) → Refines none db (step select c db)
  unfolding run
  Refines-call c db = record { calls = c ∷ []; runs = refl; marked = λ id e. absurd (cc) }

  pub Refines-marked :
      (id : I) (c : Time × Call) (db : Database)
      → hits id c db ≡ true
      → Refines (some id) db (step select c db)
  unfolding run occurrences
  Refines-marked id c db h = record {
    calls = c ∷ [];
    runs = refl;
    marked = λ i e.
        let same : id ≡ i = cc in
        subst (λ j. 1 ≤ occurrences select (hits j) (c ∷ []) db) same (rw h (omega arith));
  }

  pub Refines-then :
      (d : Option I) (a b c : Database) → Refines none a b → Refines d b c → Refines d a c
  Refines-then d a b c r s = record {
    calls = r.calls ++ s.calls;
    runs = run-append r.calls s.calls a ∙ ap (run select s.calls) r.runs ∙ s.runs;
    marked = λ id e.
        let later =
          subst (λ x. 1 ≤ occurrences select (hits id) s.calls x) (sym r.runs) (s.marked id e) in
        omega (arith, occurrences-append id r.calls s.calls a);
  }

  pub Refines-after :
      (d : Option I) (a b c : Database) → Refines d a b → Refines none b c → Refines d a c
  Refines-after d a b c r s = record {
    calls = r.calls ++ s.calls;
    runs = run-append r.calls s.calls a ∙ ap (run select s.calls) r.runs ∙ s.runs;
    marked = λ id e. omega (arith, occurrences-append id r.calls s.calls a, r.marked id e);
  }

  -- What a method did outside is counted in its history.
  pub Refines-counted :
      (id : I) (d : Option I) (did : Bool) (a b : Database) (r : Refines d a b)
      → (did ≡ true → d ≡ some id)
      → (if did then 1 else 0) ≤ occurrences select (hits id) r.calls a
  Refines-counted id d did a b r is = elim (Bool-cases did) [
    | inl e ↦ rw e (r.marked id (is e))
    | inr e ↦ rw e (omega arith)
  ]

module _ {I : Type 0} (env : Surroundings) (hits : I → Time × Call → Database → Bool) where
  -- What other tasks do before a transaction, and then the transaction.
  pub Refines-transaction :
      (k : ℕ) (c : Time × Call) (db : Database)
      → Refines env.select hits none db (step env.select c (arrive env k db))
  Refines-transaction k c db =
      Refines-then env.select hits none db _ _ (Refines-history env.select hits (env.others k) db)
        (Refines-call env.select hits c _)

  pub Refines-evaluate :
      (k : ℕ) (action : ProposedAction) (db : Database)
      → Refines env.select hits none db
          (evaluate env.texts env.zone env.policy (env.clock k) action (arrive env k db)).0
  unfolding audited_decision step other_step
  Refines-evaluate k action db =
      let e = decision_on env.texts env.zone env.policy (env.clock k) (arrive env k db) action in
      let ends =
        evaluate-audited_decision env.texts env.zone env.policy (env.clock k) action
          (arrive env k db) in
      elim (Bool-cases (is_valid_retry e.retry_after_seconds)) [
        | inl v ↦
            rw (ends, v)
              (Refines-transaction k
                (env.clock k, on_other (audits (policy_audit action e (env.clock k)))) db)
        | inr v ↦ rw (ends, v) (Refines-history env.select hits (env.others k) db)
      ]
