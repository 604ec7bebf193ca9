-- ===== src/Prelude/Tests.antt =====
-- Python's tests: comparisons of numbers, `==` on the types that the program compares, and the
-- conditional.
use Prim.Native.Nat.{ℕ, compare, Ordering}
use Prim.Native.String.{String}
use mathlib.Core.Path.{◌≡◌, refl}
use mathlib.Core.Logic.{◌↔◌, ◌⊎◌, inl, inr}
use mathlib.Core.Bool.{Bool, true, false, not}
use mathlib.Core.Option.{Option, none, some}
use native.Mathlib.Omega.{arith}
use text.Mathlib.Text.{◌==◌ as str_eq}
use text.Mathlib.TextEquality.{eq_iff}

abbrev pub ltb : ℕ → ℕ → Bool
ltb a b = elim (compare a b) [ Ordering.lt ↦ true | _ ↦ false ]

abbrev pub leb : ℕ → ℕ → Bool
leb a b = elim (compare a b) [ Ordering.gt ↦ false | _ ↦ true ]

abbrev pub eqb : ℕ → ℕ → Bool
eqb a b = elim (compare a b) [ Ordering.eq ↦ true | _ ↦ false ]

infix 1 if◌then◌else◌
abbrev pub if◌then◌else◌ {ℓ} : {A : Type ℓ} → Bool → A → A → A
if true then x else y = x
if false then x else y = y

pub eqb_iff : (a b : ℕ) → (eqb a b ≡ true) ↔ (a ≡ b)
eqb_iff a b = ground arith

-- A type whose values the program compares by `==`.
pub record Eq {ℓ} (T : Type ℓ) : Type ℓ where
  pub equals : T → T → Bool
  pub equals_iff : (x y : T) → (equals x y ≡ true) ↔ (x ≡ y)

infix 50 ◌==◌
abbrev pub ◌==◌ {ℓ} : {A : Type ℓ} ⦃e : Eq A⦄ → A → A → Bool
◌==◌ ⦃e⦄ x y = e.equals x y

abbrev bool_equals : Bool → Bool → Bool
bool_equals false c = not c
bool_equals true c = c

pub bool_equals_iff : (b c : Bool) → (bool_equals b c ≡ true) ↔ (b ≡ c)
bool_equals_iff false c = ground arith
bool_equals_iff true c = ground arith

instance abbrev pub bool_eq : Eq Bool
bool_eq = record { equals = bool_equals; equals_iff = bool_equals_iff }

instance abbrev pub string_eq : Eq String
string_eq = record { equals = str_eq; equals_iff = eq_iff }

instance abbrev pub nat_eq : Eq ℕ
nat_eq = record { equals = eqb; equals_iff = eqb_iff }

-- An optional text against a text, as `==` in Python and `=` in a WHERE clause: NULL equals no text.
abbrev pub is_text : Option String → String → Bool
is_text none s = false
is_text (some t) s = str_eq t s

-- `x is not None`
abbrev pub is_some {ℓ} : {A : Type ℓ} → Option A → Bool
is_some none = false
is_some (some a) = true

-- An optional filter of a query: without a value it passes every row.
abbrev pub if_given {ℓ} : {A : Type ℓ} → Option A → (A → Bool) → Bool
if_given none test = true
if_given (some a) test = test a

-- To split on a computed value and keep the equation.
pub Bool-cases : (b : Bool) → (b ≡ true) ⊎ (b ≡ false)
Bool-cases true = inl refl
Bool-cases false = inr refl

pub Option-cases {ℓ} : {A : Type ℓ} (o : Option A) → (o ≡ none) ⊎ ((a : A) × (o ≡ some a))
Option-cases none = inl refl
Option-cases (some a) = inr (a, refl)
