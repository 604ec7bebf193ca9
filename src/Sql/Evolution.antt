-- ===== src/Sql/Evolution.antt =====
-- How a table changes: each row takes a step, rows are added at the end, and none is removed.
use lemonbot.Prelude.{
  ◌≡◌, refl, ◌∙◌, sym, subst, some, Bool, true, List, [], ◌∷◌, ◌++◌, arith, All, All-map,
  Bool-cases, inl, inr,
}
use mathlib.Core.Option.{some-injective}
use lemonbot.Sql.Defs.{update_where, count_where, exists_where, update_first, first_where}

module _ {A : Type 0} (Step : A → A → Type 0) (New : A → Type 0) where
  abbrev pub Evolves : List A → List A → Type 0
  Evolves [] ys = All New ys
  Evolves (x ∷ xs) [] = ⊥
  Evolves (x ∷ xs) (y ∷ ys) = Step x y × Evolves xs ys

  module _ (refl_step : (x : A) → Step x x) where
    pub Evolves-refl : (xs : List A) → Evolves xs xs
    Evolves-refl [] = tt
    Evolves-refl (x ∷ xs) = (refl_step x, Evolves-refl xs)

    pub Evolves-update :
        (test : A → Bool) (set : A → A) (xs : List A)
        → ((x : A) → test x ≡ true → Step x (set x))
        → Evolves xs (update_where test set xs)
    unfolding update_where
    Evolves-update test set [] step = tt
    Evolves-update test set (x ∷ xs) step = elim (Bool-cases (test x)) [
      | inl e ↦ rw e (step x e, Evolves-update test set xs step)
      | inr e ↦ rw e (refl_step x, Evolves-update test set xs step)
    ]

    Evolves-update_first :
        (test : A → Bool) (set : A → A) (xs : List A)
        → ((x : A) → first_where test xs ≡ some x → Step x (set x))
        → Evolves xs (update_first test set xs)
    unfolding update_first first_where
    Evolves-update_first test set [] step = tt
    Evolves-update_first test set (x ∷ xs) step = elim (Bool-cases (test x)) [
      | inl e ↦ rw e (step x (rw e), Evolves-refl xs)
      | inr e ↦ rw e (refl_step x, Evolves-update_first test set xs (λ y h. step y (rw e h)))
    ]

    -- The row that was read is the one that is written.
    pub Evolves-write :
        (test : A → Bool) (set : A → A) (xs : List A) (row : A)
        → first_where test xs ≡ some row
        → Step row (set row)
        → Evolves xs (update_first test set xs)
    Evolves-write test set xs row e step =
        Evolves-update_first test set xs
          (λ x h. subst (λ z. Step z (set z)) (some-injective row x (sym e ∙ h)) step)

    pub Evolves-insert : (xs : List A) (x : A) → New x → Evolves xs (xs ++ x ∷ [])
    Evolves-insert [] x n = (n, tt)
    Evolves-insert (y ∷ xs) x n = (refl_step y, Evolves-insert xs x n)

  New-Evolves :
      ((x y : A) → New x → Step x y → New y)
      → (xs ys : List A) → All New xs
      → Evolves xs ys
      → All New ys
  New-Evolves keep [] ys n e = e
  New-Evolves keep (x ∷ xs) [] n e = absurd e
  New-Evolves keep (x ∷ xs) (y ∷ ys) n e = (keep x y n.0 e.0, New-Evolves keep xs ys n.1 e.1)

  pub Evolves-trans :
      ((x y z : A) → Step x y → Step y z → Step x z)
      → ((x y : A) → New x → Step x y → New y)
      → (xs ys zs : List A) → Evolves xs ys
      → Evolves ys zs
      → Evolves xs zs
  Evolves-trans trans keep [] ys zs e f = New-Evolves keep ys zs e f
  Evolves-trans trans keep (x ∷ xs) [] zs e f = absurd e
  Evolves-trans trans keep (x ∷ xs) (y ∷ ys) [] e f = absurd f
  Evolves-trans trans keep (x ∷ xs) (y ∷ ys) (z ∷ zs) e f =
      (trans x y z e.0 f.0, Evolves-trans trans keep xs ys zs e.1 f.1)

  -- A property that steps keep and new rows have.
  pub All-Evolves :
      (P : A → Type 0)
      → ((x y : A) → P x → Step x y → P y)
      → ((y : A) → New y → P y)
      → (xs ys : List A) → All P xs
      → Evolves xs ys
      → All P ys
  All-Evolves P keep new [] [] p e = tt
  All-Evolves P keep new [] (y ∷ ys) p e = (new y e.0, All-Evolves P keep new [] ys tt e.1)
  All-Evolves P keep new (x ∷ xs) [] p e = absurd e
  All-Evolves P keep new (x ∷ xs) (y ∷ ys) p e =
      (keep x y p.0 e.0, All-Evolves P keep new xs ys p.1 e.1)

-- A weaker account of the rows that were added.
pub Evolves-weaken :
    {A : Type 0} (Step : A → A → Type 0) (New Weaker : A → Type 0)
    → ((y : A) → New y → Weaker y)
    → (xs ys : List A) → Evolves Step New xs ys
    → Evolves Step Weaker xs ys
Evolves-weaken Step New Weaker f [] ys e = All-map f ys e
Evolves-weaken Step New Weaker f (x ∷ xs) [] e = absurd e
Evolves-weaken Step New Weaker f (x ∷ xs) (y ∷ ys) e =
    (e.0, Evolves-weaken Step New Weaker f xs ys e.1)

-- A row that was added and has taken steps since.
abbrev pub Since : {A : Type 0} → (A → A → Type 0) → (A → Type 0) → A → Type 0
Since {A} Step New y = (x : A) × New x × Step x y

module _ {A : Type 0} (Step : A → A → Type 0) (New : A → Type 0) where
  module _ (refl_step : (x : A) → Step x x) where
    All-Since : (ys : List A) → All New ys → All (Since Step New) ys
    All-Since [] n = tt
    All-Since (y ∷ ys) n = ((y, n.0, refl_step y), All-Since ys n.1)

    -- One operation's steps, as steps of a history.
    pub Evolves-Since :
        (xs ys : List A) → Evolves Step New xs ys → Evolves Step (Since Step New) xs ys
    Evolves-Since [] ys e = All-Since ys e
    Evolves-Since (x ∷ xs) [] e = absurd e
    Evolves-Since (x ∷ xs) (y ∷ ys) e = (e.0, Evolves-Since xs ys e.1)

  pub Since-trans :
      ((x y z : A) → Step x y → Step y z → Step x z)
      → (xs ys zs : List A) → Evolves Step (Since Step New) xs ys
      → Evolves Step (Since Step New) ys zs
      → Evolves Step (Since Step New) xs zs
  Since-trans trans =
      Evolves-trans Step (Since Step New) trans (λ x y (b, n, s) t. (b, n, trans b x y s t))

-- Steps that add no row and keep a test's outcome keep a count.
pub count-Evolves :
    {A : Type 0} (Step : A → A → Type 0) (test : A → Bool)
    → ((x y : A) → Step x y → test y ≡ test x)
    → (xs ys : List A) → Evolves Step (λ _. ⊥) xs ys
    → count_where test ys ≡ count_where test xs
unfolding count_where
count-Evolves Step test keep [] [] e = refl
count-Evolves Step test keep [] (y ∷ ys) e = absurd e.0
count-Evolves Step test keep (x ∷ xs) [] e = absurd e
count-Evolves Step test keep (x ∷ xs) (y ∷ ys) e =
    rw (keep x y e.0, count-Evolves Step test keep xs ys e.1)

-- Steps that keep a test's outcome leave a row that passes it.
pub exists-Evolves :
    {A : Type 0} (Step : A → A → Type 0) (New : A → Type 0) (test : A → Bool)
    → ((x y : A) → Step x y → test y ≡ test x)
    → (xs ys : List A) → Evolves Step New xs ys
    → exists_where test xs ≡ true
    → exists_where test ys ≡ true
unfolding exists_where
exists-Evolves Step New test keep [] ys e h = absurd (cc)
exists-Evolves Step New test keep (x ∷ xs) [] e h = absurd e
exists-Evolves Step New test keep (x ∷ xs) (y ∷ ys) e h =
    ground (arith, keep x y e.0, exists-Evolves Step New test keep xs ys e.1)
