-- ===== src/Pipeline/Reply/Bounds.antt =====
-- A reply is never empty and never longer than the limit.
use Prim.Native.String.{◌++◌ as concat}
use lemonbot.Prelude.{
  ℕ, ◌-◌, ◌≤◌, ◌≡◌, refl, subst, String, false, ◌==◌, string_eq, leb, Bool-cases, inl, inr, arith,
  chars, take_chars, strip, rstrip, chars-concat, chars-take_chars, chars-rstrip,
}
use lemonbot.Prelude.{eq_iff}
use lemonbot.Pipeline.{done}
use lemonbot.Pipeline.Reply.{bounded_reply}

abbrev pub IsBounded : ℕ → String → Type 0
IsBounded limit reply = (1 ≤ chars reply) × (chars reply ≤ limit)

some_text : (text : String) → (text == "") ≡ false → 1 ≤ chars text
some_text String.[] e = let same = (eq_iff "" "").1 refl in absurd (cc)
some_text (String.◌∷◌ c s) e = omega arith

-- A reply that `_bounded_reply` returns has at least one character and at most as many as the limit
-- says, if that is at least one.
pub bounded_reply-IsBounded :
    (limit : ℕ) (value reply : String)
    → 1 ≤ limit
    → bounded_reply limit value ≡ done reply
    → IsBounded limit reply
unfolding bounded_reply
bounded_reply-IsBounded limit value reply positive h =
    let text = strip value in
    let short = rstrip (take_chars (limit - 1) text) in
    elim (Bool-cases (text == "")) [
      | inl e ↦ let gone = rw e at h in absurd (cc)
      | inr e ↦ elim (Bool-cases (leb (chars text) limit)) [
        | inl f ↦
            let same : text ≡ reply = cc (rw (e, f) at h) in
            subst (IsBounded limit) same (some_text text e, ground arith)
        | inr f ↦
            let same : concat short "…" ≡ reply = cc (rw (e, f) at h) in
            subst (IsBounded limit) same (
              omega (arith, chars-concat short "…"),
              omega (
                arith,
                chars-concat short "…",
                chars-rstrip (take_chars (limit - 1) text),
                chars-take_chars (limit - 1) text,
              ),
            )
      ]
    ]
