-- ===== src/Sql/Laws.antt =====
-- What the statements do, for every table.
use lemonbot.Prelude.{
  ◌==◌, nat_eq, max, subst, ℕ, suc, ◌+◌, ◌≤◌, ◌<◌, ◌≡◌, ◌≢◌, refl, Bool, true, false, none, some,
  List, [], ◌∷◌, ◌++◌, if◌then◌else◌, arith, All, All-map, Among, Bool-cases, Option-cases, inl,
  inr,
}
use lemonbot.Sql.Defs.{
  update_where, count_where, exists_where, select_where, first_where, first_by, next_id,
}

module _ {ℓ} {A : Type ℓ} where
  pub first_where-test :
      (test : A → Bool) (xs : List A) (r : A) → first_where test xs ≡ some r → test r ≡ true
  unfolding first_where
  first_where-test test [] r h = cc
  first_where-test test (x ∷ xs) r h = elim (Bool-cases (test x)) [
    | inl e ↦ let same : x ≡ r = ground arith in rw (same) at e
    | inr e ↦ first_where-test test xs r (ground arith)
  ]

  pub first_where-All {κ} :
      (P : A → Type κ) (test : A → Bool) (xs : List A) (r : A)
      → All P xs
      → first_where test xs ≡ some r
      → P r
  unfolding first_where
  first_where-All P test [] r a h = absurd (cc)
  first_where-All P test (x ∷ xs) r a h = elim (Bool-cases (test x)) [
    | inl e ↦ let same : x ≡ r = ground arith in rw (same) at (a.0)
    | inr e ↦ first_where-All P test xs r a.1 (ground arith)
  ]

  pub exists_where-append :
      (test : A → Bool) (xs : List A) (x : A)
      → test x ≡ true
      → exists_where test (xs ++ x ∷ []) ≡ true
  unfolding exists_where
  exists_where-append test [] x h = ground arith
  exists_where-append test (y ∷ xs) x h = ground (arith, exists_where-append test xs x h)

  pub exists_where-false :
      (test : A → Bool) (xs : List A) → exists_where test xs ≡ false → All (λ r. test r ≡ false) xs
  unfolding exists_where
  exists_where-false test [] h = tt
  exists_where-false test (x ∷ xs) h = (ground arith, exists_where-false test xs (ground arith))

  pub exists_where-of_none :
      (test : A → Bool) (xs : List A) → first_where test xs ≡ none → exists_where test xs ≡ false
  unfolding first_where exists_where
  exists_where-of_none test [] h = refl
  exists_where-of_none test (x ∷ xs) h = elim (Bool-cases (test x)) [
    | inl e ↦ let gone = rw e at h in cc
    | inr e ↦ rw e (exists_where-of_none test xs (rw e at h))
  ]

  pub exists_where-of_first :
      (test : A → Bool) (xs : List A) (r : A)
      → first_where test xs ≡ some r
      → exists_where test xs ≡ true
  unfolding exists_where first_where
  exists_where-of_first test [] r h = cc
  exists_where-of_first test (x ∷ xs) r h = ground (arith, exists_where-of_first test xs r)

  -- What each row has after an UPDATE, by whether the UPDATE changed it.
  pub All-update_each {κ μ} :
      (P : A → Type κ) (Q : A → Type μ) (test : A → Bool) (set : A → A) (xs : List A)
      → ((r : A) → test r ≡ true → P r → Q (set r))
      → ((r : A) → test r ≡ false → P r → Q r)
      → All P xs
      → All Q (update_where test set xs)
  unfolding update_where
  All-update_each P Q test set [] changed kept a = tt
  All-update_each P Q test set (x ∷ xs) changed kept a = elim (Bool-cases (test x)) [
    | inl e ↦ rw e (changed x e a.0, All-update_each P Q test set xs changed kept a.1)
    | inr e ↦ rw e (kept x e a.0, All-update_each P Q test set xs changed kept a.1)
  ]

  pub All-update_where {κ} :
      (P : A → Type κ) (test : A → Bool) (set : A → A) (xs : List A)
      → ((r : A) → test r ≡ true → P r → P (set r))
      → All P xs
      → All P (update_where test set xs)
  unfolding update_where
  All-update_where P test set [] keep a = tt
  All-update_where P test set (x ∷ xs) keep a = elim (Bool-cases (test x)) [
    | inl e ↦ rw e (keep x e a.0, All-update_where P test set xs keep a.1)
    | inr e ↦ rw e (a.0, All-update_where P test set xs keep a.1)
  ]

  pub All-select_where {κ} :
      (P : A → Type κ) (test : A → Bool) (xs : List A) → All P xs → All P (select_where test xs)
  unfolding select_where
  All-select_where P test [] a = tt
  All-select_where P test (x ∷ xs) a = elim (Bool-cases (test x)) [
    | inl e ↦ rw e (a.0, All-select_where P test xs a.1)
    | inr e ↦ rw e (All-select_where P test xs a.1)
  ]

  pub select_where-test :
      (test : A → Bool) (xs : List A) → All (λ r. test r ≡ true) (select_where test xs)
  unfolding select_where
  select_where-test test [] = tt
  select_where-test test (x ∷ xs) = elim (Bool-cases (test x)) [
    | inl e ↦ rw e (e, select_where-test test xs)
    | inr e ↦ rw e (select_where-test test xs)
  ]

  -- What holds of every selected row holds of every row that passes the test.
  pub All-of_select {κ} :
      (P : A → Type κ) (test : A → Bool) (xs : List A)
      → All P (select_where test xs)
      → All (λ r. test r ≡ true → P r) xs
  unfolding select_where
  All-of_select P test [] a = tt
  All-of_select P test (x ∷ xs) a = elim (Bool-cases (test x)) [
    | inl e ↦
        let b : P x × All P (select_where test xs) = rw e at a in
        (λ _. b.0, All-of_select P test xs b.1)
    | inr e ↦
        let b : All P (select_where test xs) = rw e at a in
        (λ t. absurd (cc), All-of_select P test xs b)
  ]

  pub count_where-zero :
      (test : A → Bool) (xs : List A) → All (λ r. test r ≡ false) xs → count_where test xs ≡ 0
  unfolding count_where
  count_where-zero test [] a = refl
  count_where-zero test (x ∷ xs) a = rw a.0 (omega (arith, count_where-zero test xs a.1))

  -- A row that passes a test passes a weaker one.
  pub exists_where-of_one :
      (test weaker : A → Bool) (xs : List A)
      → ((x : A) → test x ≡ true → weaker x ≡ true)
      → (count_where test xs == 1) ≡ true
      → exists_where weaker xs ≡ true
  unfolding count_where exists_where
  exists_where-of_one test weaker [] sub h = cc
  exists_where-of_one test weaker (x ∷ xs) sub h =
      ground (arith, sub x, exists_where-of_one test weaker xs sub)

  pub count_where-append :
      (test : A → Bool) (xs : List A) (x : A)
      → count_where test (xs ++ x ∷ []) ≡ count_where test xs + (if test x then 1 else 0)
  unfolding count_where
  count_where-append test [] x = ground arith
  count_where-append test (y ∷ xs) x = ground (arith, count_where-append test xs x)

  -- An UPDATE that changes neither the test's columns nor what it looks at keeps a count.
  pub count_where-update :
      (test upd : A → Bool) (set : A → A) (xs : List A)
      → ((r : A) → upd r ≡ true → test (set r) ≡ test r)
      → count_where test (update_where upd set xs) ≡ count_where test xs
  unfolding count_where update_where
  count_where-update test upd set [] keep = refl
  count_where-update test upd set (x ∷ xs) keep = elim (Bool-cases (upd x)) [
    | inl e ↦ rw (e, keep x e, count_where-update test upd set xs keep)
    | inr e ↦ rw (e, count_where-update test upd set xs keep)
  ]

  pub next_id_above : (id : A → ℕ) (xs : List A) → All (λ r. id r < next_id id xs) xs
  unfolding next_id
  next_id_above id [] = tt
  next_id_above id (x ∷ xs) = (omega arith, lift xs (next_id_above id xs))
    where
      lift :
          (ys : List A)
          → All (λ r. id r < next_id id xs) ys
          → All (λ r. id r < max (suc (id x)) (next_id id xs)) ys
      lift [] a = tt
      lift (y ∷ ys) a = (omega (arith, a.0), lift ys a.1)

-- A strict order that ORDER BY sorts by.
pub record IsOrder {ℓ} {A : Type ℓ} (before : A → A → Bool) : Type ℓ where
  pub irreflexive : (a : A) → before a a ≡ false
  pub negatively_trans : (a b c : A) → before a b ≡ false → before b c ≡ false → before a c ≡ false
  pub asymmetric : (a b : A) → before a b ≡ true → before b a ≡ false

module _ {ℓ} {A : Type ℓ} (before : A → A → Bool) where
  pub first_by-none : (xs : List A) → first_by before xs ≡ none → xs ≡ []
  unfolding first_by
  first_by-none [] h = refl
  first_by-none (x ∷ xs) h = cc

  pub first_by-All {κ} :
      (P : A → Type κ) (xs : List A) (r : A) → All P xs → first_by before xs ≡ some r → P r
  unfolding first_by
  first_by-All P [] r a h = absurd (cc)
  first_by-All P (x ∷ xs) r a h = elim (Option-cases (first_by before xs)) [
    | inl e ↦ let same : x ≡ r = ground arith in rw (same) at (a.0)
    | inr (s, e) ↦ elim (Bool-cases (before s x)) [
      | inl t ↦ let same : s ≡ r = ground arith in first_by-All P xs r a.1 (rw (same) at e)
      | inr t ↦ let same : x ≡ r = ground arith in rw (same) at (a.0)
    ]
  ]

  weaken :
      (s r : A) (xs : List A)
      → ((y : A) → before y s ≡ false → before y r ≡ false)
      → All (λ y. before y s ≡ false) xs
      → All (λ y. before y r ≡ false) xs
  weaken s r [] f a = tt
  weaken s r (x ∷ xs) f a = (f x a.0, weaken s r xs f a.1)

  least_at :
      (s r : A) (xs : List A)
      → s ≡ r
      → All (λ y. before y s ≡ false) xs
      → All (λ y. before y r ≡ false) xs
  least_at s r xs e a = subst (λ z. All (λ y. before y z ≡ false) xs) e a

  -- No row stands before the one that ORDER BY … LIMIT 1 returns.
  pub first_by-least :
      IsOrder before
      → (xs : List A) (r : A) → first_by before xs ≡ some r
      → All (λ y. before y r ≡ false) xs
  unfolding first_by
  first_by-least o [] r h = tt
  first_by-least o (x ∷ xs) r h = elim (Option-cases (first_by before xs)) [
    | inl e ↦
        let same : x ≡ r = ground arith in
        least_at x r (x ∷ xs) same (rw (first_by-none xs e) (o.irreflexive x, tt))
    | inr (s, e) ↦ elim (Bool-cases (before s x)) [
      | inl t ↦
          let same : s ≡ r = ground arith in
          least_at s r (x ∷ xs) same (o.asymmetric s x t, first_by-least o xs s e)
      | inr t ↦
          let same : x ≡ r = ground arith in
          least_at x r (x ∷ xs) same (
            o.irreflexive x,
            weaken s x xs (λ y h'. o.negatively_trans y s x h' t) (first_by-least o xs s e),
          )
    ]
  ]

-- An INSERT … ON CONFLICT DO NOTHING keeps a key unique: where the new row has the key, a row that
-- has it too conflicts.
pub count_where-insert {ℓ} :
    {A : Type ℓ} (test conflict : A → Bool) (xs : List A) (row : A)
    → exists_where conflict xs ≡ false
    → (test row ≡ true → (r : A) → conflict r ≡ false → test r ≡ false)
    → count_where test xs ≤ 1
    → count_where test (xs ++ row ∷ []) ≤ 1
count_where-insert test conflict xs row absent key bound = elim (Bool-cases (test row)) [
  | inl t ↦
      rw (count_where-append test xs row, t)
        (omega (
          arith,
          count_where-zero test xs (All-map (key t) xs (exists_where-false conflict xs absent)),
        ))
  | inr t ↦ rw (count_where-append test xs row, t) (omega arith)
]

module _ {ℓ} {A : Type ℓ} where
  -- A row that passes its own test makes the test's EXISTS true.
  pub exists_where_self :
      (test : A → A → Bool) (xs : List A)
      → All (λ r. test r r ≡ true → exists_where (test r) xs ≡ true) xs
  unfolding exists_where
  exists_where_self test [] = tt
  exists_where_self test (x ∷ xs) =
      (λ h. ground arith, All-map (λ r h e. ground (arith, h e)) xs (exists_where_self test xs))

  -- An UPDATE that keeps a key leaves a row under it where it changed one.
  pub first_where-update :
      (key upd : A → Bool) (set : A → A) (xs : List A)
      → ((r : A) → upd r ≡ true → key (set r) ≡ true)
      → exists_where upd xs ≡ true
      → first_where key (update_where upd set xs) ≢ none
  unfolding exists_where first_where update_where
  first_where-update key upd set [] keep h = cc
  first_where-update key upd set (x ∷ xs) keep h = elim (Bool-cases (upd x)) [
    | inl e ↦ rw (e, keep x e) (λ n. cc)
    | inr e ↦ elim (Bool-cases (key x)) [
      | inl t ↦ rw (e, t) (λ n. cc)
      | inr t ↦ rw (e, t) (first_where-update key upd set xs keep (ground arith))
    ]
  ]

module _ {A : Type 0} where
  pub count_where-Among :
      (test : A → Bool) (xs : List A) (r : A) → Among r xs → test r ≡ true → 1 ≤ count_where test xs
  unfolding count_where
  count_where-Among test [] r m t = absurd m
  count_where-Among test (x ∷ xs) r (inl same) t =
      let here : test x ≡ true = rw same at t in rw here (omega arith)
  count_where-Among test (x ∷ xs) r (inr m) t = ground (arith, count_where-Among test xs r m t)

  -- Where a key is unique, the row under it after an UPDATE of it is that row, changed.
  pub first_where-changed :
      (key upd : A → Bool) (set : A → A) (xs : List A) (row : A)
      → ((r : A) → upd r ≡ true → key r ≡ true)
      → ((r : A) → upd r ≡ true → key (set r) ≡ true)
      → count_where key xs ≤ 1
      → Among row xs
      → upd row ≡ true
      → first_where key (update_where upd set xs) ≡ some (set row)
  unfolding count_where first_where update_where
  first_where-changed key upd set [] row sub keep bound m u = absurd m
  first_where-changed key upd set (x ∷ xs) row sub keep bound (inl same) u =
      let here : upd x ≡ true = rw same at u in rw (here, keep x here) (rw same refl)
  first_where-changed key upd set (x ∷ xs) row sub keep bound (inr m) u =
      let under = count_where-Among key xs row m (sub row u) in
      let other : key x ≡ false = ground arith in
      let unchanged : upd x ≡ false = ground (arith, sub x) in
      rw (unchanged, other) (first_where-changed key upd set xs row sub keep (ground arith) m u)
