-- ===== src/Sql/Defs.antt =====
-- The statements. A row that a SELECT … LIMIT 1 with an ORDER BY returns is the least by that order.
use lemonbot.Prelude.{
  ℕ, suc, ◌+◌, max, ◌≡◌, true, ◌++◌, All, Bool, false, ◌||◌, Option, none, some, List, [], ◌∷◌,
  if◌then◌else◌,
}

module _ {ℓ} {A : Type ℓ} where
  -- UPDATE … SET … WHERE …
  unfoldable pub update_where : (A → Bool) → (A → A) → List A → List A
  update_where test set [] = []
  update_where test set (r ∷ rs) = (if test r then set r else r) ∷ update_where test set rs

  -- SELECT COUNT(…) WHERE …, and the row count of an UPDATE or DELETE.
  unfoldable pub count_where : (A → Bool) → List A → ℕ
  count_where test [] = 0
  count_where test (r ∷ rs) = (if test r then 1 else 0) + count_where test rs

  -- EXISTS (SELECT … WHERE …)
  unfoldable pub exists_where : (A → Bool) → List A → Bool
  exists_where test [] = false
  exists_where test (r ∷ rs) = test r || exists_where test rs

  -- SELECT … WHERE …
  unfoldable pub select_where : (A → Bool) → List A → List A
  select_where test [] = []
  select_where test (r ∷ rs) = let rest = select_where test rs in if test r then r ∷ rest else rest

  -- SELECT … WHERE …, its first row in the order of the row ids.
  unfoldable pub first_where : (A → Bool) → List A → Option A
  first_where test [] = none
  first_where test (r ∷ rs) = if test r then some r else first_where test rs

  -- An assignment to the columns of the row that a SELECT by its key returned.
  unfoldable pub update_first : (A → Bool) → (A → A) → List A → List A
  update_first test set [] = []
  update_first test set (r ∷ rs) = if test r then set r ∷ rs else r ∷ update_first test set rs

  -- The earlier of two rows by an ORDER BY, where one may be missing.
  abbrev pub earlier_of : (A → A → Bool) → A → Option A → A
  earlier_of before r none = r
  earlier_of before r (some s) = if before s r then s else r

  -- ORDER BY … LIMIT 1
  unfoldable pub first_by : (A → A → Bool) → List A → Option A
  first_by before [] = none
  first_by before (r ∷ rs) = some (earlier_of before r (first_by before rs))

  -- The row id of a new row.
  unfoldable pub next_id : (A → ℕ) → List A → ℕ
  next_id id [] = 1
  next_id id (r ∷ rs) = max (suc (id r)) (next_id id rs)

  -- INSERT … ON CONFLICT DO UPDATE
  unfoldable pub upsert : (A → Bool) → (A → A) → A → List A → List A
  unfolding exists_where update_where
  upsert test set new rows =
      if exists_where test rows then update_where test set rows else rows ++ new ∷ []

  -- DELETE … WHERE …
  unfoldable pub delete_where : (A → Bool) → List A → List A
  delete_where test [] = []
  delete_where test (r ∷ rs) = let rest = delete_where test rs in if test r then rest else r ∷ rest

-- What a SELECT with no ORDER BY returns of the rows that it finds is SQLite's choice.
pub record Choice (A : Type 0) : Type 0 where
  pub choose : (A → Bool) → List A → Option A
  pub choose-test :
      (test : A → Bool) (xs : List A) (r : A) → choose test xs ≡ some r → test r ≡ true
  pub choose-none :
      (test : A → Bool) (xs : List A) → choose test xs ≡ none → exists_where test xs ≡ false
  pub choose_among :
      (test P : A → Bool) (xs : List A) (r : A)
      → choose test xs ≡ some r
      → All (λ x. P x ≡ true) xs
      → P r ≡ true
