-- ===== src/Prelude/Lists.antt =====
-- Lists measured by native numbers, and predicates on every element.
use Prim.Native.Nat.{ℕ, zero, suc, ◌+◌}
use mathlib.Core.Path.{◌≡◌, refl}
use mathlib.Core.Logic.{◌⊎◌, inl, inr}
use mathlib.Core.List.{List, [], ◌∷◌, ◌++◌}
use native.Mathlib.Omega.{arith}

module _ {ℓ} {A : Type ℓ} where
  abbrev pub length : List A → ℕ
  length [] = 0
  length (x ∷ xs) = suc (length xs)

  abbrev pub take : ℕ → List A → List A
  take zero xs = []
  take (suc n) [] = []
  take (suc n) (x ∷ xs) = x ∷ take n xs

  abbrev pub drop : ℕ → List A → List A
  drop zero xs = xs
  drop (suc n) [] = []
  drop (suc n) (x ∷ xs) = drop n xs

  pub length-append : (xs ys : List A) → length (xs ++ ys) ≡ length xs + length ys
  length-append [] ys = omega arith
  length-append (x ∷ xs) ys = omega (arith, length-append xs ys)

module _ {ℓ κ} {A : Type ℓ} where
  -- A predicate by recursion, which computes to tuples.
  abbrev pub All : (A → Type κ) → List A → Type κ
  All P [] = Unit
  All P (x ∷ xs) = P x × All P xs

  pub All-append : (P : A → Type κ) (xs ys : List A) → All P xs → All P ys → All P (xs ++ ys)
  All-append P [] ys a b = b
  All-append P (x ∷ xs) ys a b = (a.0, All-append P xs ys a.1 b)

  pub All-map : {P Q : A → Type κ} (f : (a : A) → P a → Q a) (xs : List A) → All P xs → All Q xs
  All-map f [] h = tt
  All-map f (x ∷ xs) h = (f x h.0, All-map f xs h.1)

pub All-Unit {ℓ} : {A : Type ℓ} (xs : List A) → All {ℓ, 0} (λ _. Unit) xs
All-Unit [] = tt
All-Unit (x ∷ xs) = (tt, All-Unit xs)

module _ {A : Type 0} where
  -- Membership by recursion, which computes to a sum.
  abbrev pub Among : A → List A → Type 0
  Among x [] = ⊥
  Among x (y ∷ ys) = (x ≡ y) ⊎ Among x ys

  -- Each element is a member.
  pub All-Among : (xs : List A) → All (λ x. Among x xs) xs
  All-Among [] = tt
  All-Among (x ∷ xs) = (inl refl, All-map (λ y m. inr m) xs (All-Among xs))
