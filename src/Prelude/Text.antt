-- ===== src/Prelude/Text.antt =====
-- Python's texts: sequences of code points.
use Prim.Native.Nat.{ℕ, zero, suc, ◌+◌, ◌≤◌, min}
use Prim.Native.Char.{Char, code}
use Prim.Native.String.{String, ◌++◌ as concat}
use mathlib.Core.Path.{◌≡◌, refl, ap, ◌∙◌}
use mathlib.Core.Logic.{inl, inr}
use native.Mathlib.Omega.{arith}
use text.Mathlib.TextLemmas.{nil-append, cons-append}
use mathlib.Core.Bool.{Bool, ◌&&◌, ◌||◌}
use lemonbot.Prelude.Tests.{eqb, leb, Bool-cases, if◌then◌else◌}

-- `len(s)`
abbrev pub chars : String → ℕ
chars String.[] = 0
chars (String.◌∷◌ c s) = suc (chars s)

-- `s[:n]`
abbrev pub take_chars : ℕ → String → String
take_chars zero s = String.[]
take_chars (suc n) String.[] = String.[]
take_chars (suc n) (String.◌∷◌ c s) = String.◌∷◌ c (take_chars n s)

-- The characters that `str.strip()` removes.
abbrev is_space : Char → Bool
is_space c =
    let n = code c in
    (leb 9 n && leb n 13)
    || ((leb 28 n && leb n 32)
        || (eqb n 133
            || (eqb n 160
                || (eqb n 5760
                    || ((leb 8192 n && leb n 8202)
                        || (eqb n 8232
                            || (eqb n 8233 || (eqb n 8239 || (eqb n 8287 || eqb n 12288)))))))))

unfoldable pub lstrip : String → String
lstrip String.[] = String.[]
lstrip (String.◌∷◌ c s) = let rest = lstrip s in if is_space c then rest else String.◌∷◌ c s

-- Puts a character before a text from which trailing space was removed.
abbrev keep_char : Char → String → String
keep_char c String.[] = if is_space c then String.[] else String.◌∷◌ c String.[]
keep_char c (String.◌∷◌ d s) = String.◌∷◌ c (String.◌∷◌ d s)

unfoldable pub rstrip : String → String
rstrip String.[] = String.[]
rstrip (String.◌∷◌ c s) = keep_char c (rstrip s)

unfoldable pub strip : String → String
unfolding lstrip rstrip
strip s = rstrip (lstrip s)

pub chars-concat : (s t : String) → chars (concat s t) ≡ chars s + chars t
chars-concat String.[] t = ap chars (nil-append t) ∙ omega arith
chars-concat (String.◌∷◌ c s) t = ap chars (cons-append c s t) ∙ omega (arith, chars-concat s t)

pub chars-take_chars : (n : ℕ) (s : String) → chars (take_chars n s) ≡ min n (chars s)
chars-take_chars zero s = omega arith
chars-take_chars (suc n) String.[] = omega arith
chars-take_chars (suc n) (String.◌∷◌ c s) = omega (arith, chars-take_chars n s)

chars-keep_char : (c : Char) (s : String) → chars (keep_char c s) ≤ suc (chars s)
chars-keep_char c String.[] = elim (Bool-cases (is_space c)) [
  | inl e ↦ rw e (omega arith)
  | inr e ↦ rw e (omega arith)
]
chars-keep_char c (String.◌∷◌ d s) = omega arith

pub chars-rstrip : (s : String) → chars (rstrip s) ≤ chars s
unfolding rstrip
chars-rstrip String.[] = omega arith
chars-rstrip (String.◌∷◌ c s) = omega (arith, chars-keep_char c (rstrip s), chars-rstrip s)

pub chars_empty : (s : String) → chars s ≡ 0 → s ≡ ""
chars_empty String.[] h = refl
chars_empty (String.◌∷◌ c s) h = absurd (omega arith)
