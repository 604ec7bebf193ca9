-- ===== src/Pipeline/Window/Search.antt =====
-- The search for the longest cut ends, and what is appended fits the model's context.
use lemonbot.Prelude.{
  ℕ, zero, suc, ◌+◌, ◌-◌, ◌/◌, ◌≤◌, ◌<◌, ◌≡◌, ◌⊎◌, inl, inr, refl, sym, subst, ap, arith, String,
  Bool, true, false, ◌==◌, List, [], ◌∷◌, ◌++◌, ltb, nat_eq, Bool-cases, chars, take_chars,
  chars-concat, chars-take_chars, chars_empty,
}
use lemonbot.Domain.Exchange.{ModelMessage}
use lemonbot.Pipeline.{Task, done, fails}
use lemonbot.Pipeline.Agent.{Agent}
use lemonbot.Pipeline.Window.{
  fits_context, tool_message, is_message, fits_with, cut, kept, append_cut, search,
  append_tool_result_bounded, omission, untrusted, truncated_mark,
}

module _ (agent : Agent) (history : List ModelMessage) (tool_name tool_call_id : String) where
  abbrev fits : String → ℕ → Bool
  fits bounded n =
      fits_with agent history tool_name tool_call_id
        (cut agent history tool_name tool_call_id bounded n)

  abbrev searched : ℕ → String → ℕ → ℕ → Task ℕ
  searched = search agent history tool_name tool_call_id

  abbrev pub appended : String → Task (List ModelMessage)
  appended = append_tool_result_bounded agent history tool_name tool_call_id

  abbrev pub message : String → ModelMessage
  message = tool_message agent history tool_name tool_call_id

  abbrev Fitting : String → ℕ → Type 0
  Fitting bounded n = (n ≡ 0) ⊎ (fits bounded n ≡ true)

  search-Fitting :
      (fuel : ℕ) (bounded : String) (low high n : ℕ)
      → Fitting bounded low
      → searched fuel bounded low high ≡ done n
      → Fitting bounded n
  unfolding search
  search-Fitting zero bounded low high n ok h =
      let same : low ≡ n = cc in subst (Fitting bounded) same ok
  search-Fitting (suc fuel) bounded low high n ok h =
      let midpoint = (low + high + 1) / 2 in
      elim (Bool-cases (ltb low high)) [
        | inr e ↦ let last = rw e at h in let same : low ≡ n = cc in subst (Fitting bounded) same ok
        | inl e ↦
            elim (Bool-cases (
              is_message agent history tool_name tool_call_id
                (cut agent history tool_name tool_call_id bounded midpoint))) [
                  | inr v ↦ let gone = rw (e, v) at h in absurd (cc)
                  | inl v ↦ elim (Bool-cases (fits bounded midpoint)) [
                    | inl f ↦
                        search-Fitting fuel bounded midpoint high n (inr f) (rw (e, v, f) at h)
                    | inr f ↦
                        search-Fitting fuel bounded low (midpoint - 1) n ok (rw (e, v, f) at h)
                  ]
                ]
      ]

  -- Where the whole output passes as a message with the mark, the search ends on its fuel with a
  -- cut beyond which no cut fits, if shorter cuts of what fits fit as well.
  search-longest :
      (fuel : ℕ) (bounded : String) (low high : ℕ)
      → ((m n : ℕ) → m ≤ n → fits bounded n ≡ true → fits bounded m ≡ true)
      → ((n : ℕ)
          → is_message agent history tool_name tool_call_id
              (cut agent history tool_name tool_call_id bounded n)
            ≡ true)
      → low ≤ high
      → high < low + fuel
      → ((k : ℕ) → high < k → k ≤ chars bounded → fits bounded k ≡ false)
      → (n : ℕ) × (searched fuel bounded low high ≡ done n)
        × ((k : ℕ) → n < k → k ≤ chars bounded → fits bounded k ≡ false)
  unfolding search
  search-longest zero bounded low high mono valid order enough above = absurd (omega arith)
  search-longest (suc fuel) bounded low high mono valid order enough above =
      let midpoint = (low + high + 1) / 2 in
      elim (Bool-cases (ltb low high)) [
        | inr e ↦
            let same : high ≡ low = ground arith in
            rw e (
              low,
              refl,
              subst (λ h. (k : ℕ) → h < k → k ≤ chars bounded → fits bounded k ≡ false) same above,
            )
        | inl e ↦ elim (Bool-cases (fits bounded midpoint)) [
          | inl f ↦
              rw (e, valid midpoint, f)
                (search-longest fuel bounded midpoint high mono valid (ground arith) (ground arith)
                  above)
          | inr f ↦
              let below : (k : ℕ) → midpoint - 1 < k → k ≤ chars bounded → fits bounded k ≡ false =
                λ k a b. elim (Bool-cases (fits bounded k)) [
                  | inr g ↦ g
                  | inl g ↦ let gone = mono midpoint k (ground arith) g in absurd (cc)
                ] in
              rw (e, valid midpoint, f)
                (search-longest fuel bounded low (midpoint - 1) mono valid (ground arith)
                  (ground arith) below)
        ]
      ]

  -- What `append_tool_result_bounded` gave is the history with one tool message that fits.
  abbrev pub IsFitting : List ModelMessage → Type 0
  IsFitting after =
      (body : String) × (after ≡ history ++ message body ∷ []) × (fits_context agent after ≡ true)

  IsFitting-done :
      (body : String) (after : List ModelMessage)
      → fits_with agent history tool_name tool_call_id body ≡ true
      → done (history ++ message body ∷ []) ≡ done after
      → IsFitting after
  IsFitting-done body after f h =
      let is : history ++ message body ∷ [] ≡ after = cc in
      (body, sym is, subst (λ m. fits_context agent m ≡ true) is f)

  kept-fits :
      (bounded : String) (n : ℕ)
      → Fitting bounded n
      → fits_with agent history tool_name tool_call_id omission ≡ true
      → fits_with agent history tool_name tool_call_id
          (kept agent history tool_name tool_call_id bounded n)
        ≡ true
  kept-fits bounded n good least = elim (Bool-cases (n == 0)) [
    | inl z ↦ rw z least
    | inr z ↦ elim good [ inl gone ↦ absurd (ground arith) | inr f ↦ rw z f ]
  ]

  append_cut-IsFitting :
      (bounded : String) (found : Task ℕ) (after : List ModelMessage)
      → ((n : ℕ) → found ≡ done n → Fitting bounded n)
      → fits_with agent history tool_name tool_call_id omission ≡ true
      → append_cut agent history tool_name tool_call_id bounded found ≡ done after
      → IsFitting after
  append_cut-IsFitting bounded (fails f) after good least h = absurd (cc)
  append_cut-IsFitting bounded (done n) after good least h =
      IsFitting-done (kept agent history tool_name tool_call_id bounded n) after
        (kept-fits bounded n (good n refl) least) h

  -- When a tool's output was appended to the conversation, what is new is one message for the call, and
  -- with it the conversation still leaves room in the model's context, whatever the tokens of a
  -- message are.
  pub append_tool_result_bounded-IsFitting :
      (content : String) (after : List ModelMessage)
      → appended content ≡ done after
      → IsFitting after
  unfolding append_tool_result_bounded
  append_tool_result_bounded-IsFitting content after h =
      let bounded = take_chars 500000 content in
      elim (Bool-cases (is_message agent history tool_name tool_call_id bounded)) [
        | inr v ↦ let gone = rw v at h in absurd (cc)
        | inl v ↦ elim (Bool-cases (fits_with agent history tool_name tool_call_id bounded)) [
          | inl f ↦ IsFitting-done bounded after f (rw (v, f) at h)
          | inr f ↦ elim (Bool-cases (fits_with agent history tool_name tool_call_id omission)) [
            | inr o ↦ let gone = rw (v, f, o) at h in absurd (cc)
            | inl o ↦
                append_cut-IsFitting bounded
                  (searched (chars bounded + 1) bounded 0 (chars bounded)) after
                  (λ n e.
                    search-Fitting (chars bounded + 1) bounded 0 (chars bounded) n (inl refl) e)
                  o (rw (v, f, o) at h)
          ]
        ]
      ]

  -- The output is whole if it fits. If it does not, it is cut after n characters, of which the
  -- message fits, or omitted if n is 0, and no later cut fits.
  pub data IsLongest (content : String) (after : List ModelMessage) : Type 0 where
    whole :
        fits_with agent history tool_name tool_call_id content ≡ true
        → after ≡ history ++ message content ∷ []
        → IsLongest content after
    shortened :
        fits_with agent history tool_name tool_call_id content ≡ false
        → (n : ℕ)
        → after ≡ history ++ message (kept agent history tool_name tool_call_id content n) ∷ []
        → Fitting content n
        → ((k : ℕ) → n < k → k ≤ chars content → fits content k ≡ false)
        → IsLongest content after

  take_all : (n : ℕ) (s : String) → chars s ≤ n → take_chars n s ≡ s
  take_all zero s h = sym (chars_empty s (omega arith))
  take_all (suc n) String.[] h = refl
  take_all (suc n) (String.◌∷◌ c s) h = ap (λ t. String.◌∷◌ c t) (take_all n s (omega arith))

  short_message :
      (s : String) → chars s ≤ 499920 → is_message agent history tool_name tool_call_id s ≡ true
  short_message s h = ground (arith, chars-concat untrusted s)

  short_cut :
      (s : String) (n : ℕ)
      → chars s ≤ 499900
      → is_message agent history tool_name tool_call_id
          (cut agent history tool_name tool_call_id s n)
        ≡ true
  short_cut s n h =
      short_message (cut agent history tool_name tool_call_id s n)
        (omega (arith, chars-concat (take_chars n s) truncated_mark, chars-take_chars n s))

  -- An output of at most 499,900 characters is always appended, if the notice of an omission fits
  -- and an earlier cut fits where a later one does: whole if it fits; otherwise cut as late as a cut
  -- fits, or omitted if no cut fits.
  pub append_tool_result_bounded-IsLongest :
      (content : String)
      → chars content ≤ 499900
      → fits_with agent history tool_name tool_call_id omission ≡ true
      → ((m n : ℕ) → m ≤ n → fits content n ≡ true → fits content m ≡ true)
      → (after : List ModelMessage) × (appended content ≡ done after) × IsLongest content after
  unfolding append_tool_result_bounded
  append_tool_result_bounded-IsLongest content short least mono =
      let same : take_chars 500000 content ≡ content = take_all 500000 content (omega arith) in
      let v = short_message content (omega arith) in
      elim (Bool-cases (fits_with agent history tool_name tool_call_id content)) [
        | inl f ↦ rw (same, v, f) (history ++ message content ∷ [], refl, IsLongest.whole f refl)
        | inr f ↦
            let (n, found, last) =
              search-longest (chars content + 1) content 0 (chars content) mono
                (λ n. short_cut content n short) (omega arith) (omega arith)
                (λ k a b. absurd (omega arith)) in
            let good =
              search-Fitting (chars content + 1) content 0 (chars content) n (inl refl) found in
            rw (same, v, f, least, found)
              (
                history ++ message (kept agent history tool_name tool_call_id content n) ∷ [],
                refl,
                IsLongest.shortened f n refl good last,
              )
      ]
