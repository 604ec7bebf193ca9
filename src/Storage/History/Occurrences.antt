-- ===== src/Storage/History/Occurrences.antt =====
-- How often something happens in a history, and what makes it happen at most once.
use lemonbot.Prelude.{
  ℕ, ◌+◌, ◌≤◌, ◌≡◌, List, [], ◌∷◌, Bool, true, false, arith, Bool-cases, inl, inr, if◌then◌else◌,
}
use lemonbot.Domain.{Time}
use lemonbot.Storage.Tables.{Database}
use lemonbot.Storage.History.{Call, Choices, step}

-- How many calls of a history are hits in the database that they find.
unfoldable pub occurrences :
    Choices → (Time × Call → Database → Bool) → List (Time × Call) → Database → ℕ
occurrences select hit [] db = 0
occurrences select hit (c ∷ cs) db =
    (if hit c db then 1 else 0) + occurrences select hit cs (step select c db)

-- A hit leaves the database spent; it then stays so, and has no hits.
pub record Single (select : Choices) (hit : Time × Call → Database → Bool) : Type 1 where
  pub Sound : Database → Type 0
  pub Spent : Database → Type 0
  pub sound : (c : Time × Call) (db : Database) → Sound db → Sound (step select c db)
  pub spends :
      (c : Time × Call) (db : Database) → Sound db → hit c db ≡ true → Spent (step select c db)
  pub stays : (c : Time × Call) (db : Database) → Spent db → Spent (step select c db)
  pub misses : (c : Time × Call) (db : Database) → Spent db → hit c db ≡ false

module _ (select : Choices) (hit : Time × Call → Database → Bool) (single : Single select hit) where
  occurrences-Spent :
      (cs : List (Time × Call)) (db : Database) → single.Spent db → occurrences select hit cs db ≡ 0
  unfolding occurrences
  occurrences-Spent [] db s = omega arith
  occurrences-Spent (c ∷ cs) db s =
      rw (single.misses c db s)
        (omega (arith, occurrences-Spent cs (step select c db) (single.stays c db s)))

  pub occurrences-Single :
      (cs : List (Time × Call)) (db : Database) → single.Sound db → occurrences select hit cs db ≤ 1
  unfolding occurrences
  occurrences-Single [] db u = omega arith
  occurrences-Single (c ∷ cs) db u = elim (Bool-cases (hit c db)) [
    | inl e ↦ rw e (omega (arith, occurrences-Spent cs (step select c db) (single.spends c db u e)))
    | inr e ↦ rw e (omega (arith, occurrences-Single cs (step select c db) (single.sound c db u)))
  ]
