-- ===== src/Memory/Context/Selection.antt =====
-- What the selection of memories and turns keeps, and that what it selects fits.
use lemonbot.Prelude.{
  ℕ, ◌≤◌, ◌≡◌, refl, subst, String, Bool, true, false, not, Option, none, some, List, [], ◌∷◌, ◌++◌,
  arith, leb, Bool-cases, Option-cases, inl, inr, All, Among, All-append, All-map, chars,
}
use lemonbot.Domain.{message_role_eq}
use lemonbot.Domain.Exchange.{ModelMessage}
use lemonbot.Storage.Allowlist.{contains}
use lemonbot.Sql.{exists_where, exists_where-false, select_where}
use lemonbot.Memory.{ConversationTurn, SearchHit, ContextBundle}
use lemonbot.Memory.Context.{
  built, insert, sorted, reversed, unseen, memory_text, assemble, fits, select_hits, select_turns,
  bundle, with_hits, is_hit_commitment, is_other_hit, ordered_hits, chosen_hits,
}

module _ {A : Type 0} (P : A → Type 0) where
  insert-All :
      (before : A → A → Bool) (x : A) (xs : List A) → P x → All P xs → All P (insert before x xs)
  unfolding insert
  insert-All before x [] p a = (p, tt)
  insert-All before x (y ∷ ys) p a = elim (Bool-cases (before y x)) [
    | inl e ↦ rw e (a.0, insert-All before x ys p a.1)
    | inr e ↦ rw e (p, a)
  ]

  pub sorted-All : (before : A → A → Bool) (xs : List A) → All P xs → All P (sorted before xs)
  unfolding sorted
  sorted-All before [] a = tt
  sorted-All before (x ∷ xs) a =
      insert-All before x (sorted before xs) a.0 (sorted-All before xs a.1)

  reversed-All : (xs done : List A) → All P xs → All P done → All P (reversed xs done)
  unfolding reversed
  reversed-All [] done a d = d
  reversed-All (x ∷ xs) done a d = reversed-All xs (x ∷ done) a.1 (a.0, d)

  select_where-All : (test : A → Bool) (xs : List A) → All P xs → All P (select_where test xs)
  unfolding select_where
  select_where-All test [] a = tt
  select_where-All test (x ∷ xs) a = elim (Bool-cases (test x)) [
    | inl e ↦ rw e (a.0, select_where-All test xs a.1)
    | inr e ↦ rw e (select_where-All test xs a.1)
  ]

pub none_fails :
    {A : Type 0} (test : A → Bool) (xs : List A)
    → exists_where (λ x. not (test x)) xs ≡ false
    → All (λ x. test x ≡ true) xs
none_fails test xs h =
    All-map (λ x n. ground arith) xs (exists_where-false (λ x. not (test x)) xs h)

-- What holds of all elements holds of them as members.
pub given : {A : Type 0} (P : A → Type 0) (xs : List A) → All P xs → All (λ x. Among x xs × P x) xs
given P [] a = tt
given P (x ∷ xs) a = ((inl refl, a.0), All-map (λ y g. (inr g.0, g.1)) xs (given P xs a.1))

pub unseen-All :
    (P : ConversationTurn → Type 0) (seen : List String) (ts : List ConversationTurn)
    → All P ts
    → All P (unseen seen ts)
unfolding unseen
unseen-All P seen [] a = tt
unseen-All P seen (t ∷ ts) a = elim (Bool-cases (contains t.message_id seen)) [
  | inl e ↦ rw e (unseen-All P seen ts a.1)
  | inr e ↦ rw e (a.0, unseen-All P (t.message_id ∷ seen) ts a.1)
]

module _ {Float : Type 0} (less : Float → Float → Bool)
    (encode_hits : List (SearchHit Float) → String) (count_tokens : List ModelMessage → ℕ) where
  module _ (budget : ℕ) (system_messages : List ModelMessage) (current : ConversationTurn) where
    abbrev Fits : List (SearchHit Float) → List ConversationTurn → Type 0
    Fits hits turns =
        fits less encode_hits count_tokens budget system_messages current hits turns ≡ true

    abbrev selected_hits :
        (hits selected : List (SearchHit Float)) → Option (List (SearchHit Float))
    selected_hits = select_hits less encode_hits count_tokens budget system_messages current

    -- What all turns and all memories have that a context may be built of.
    module _ (P : ConversationTurn → Type 0) (Q : SearchHit Float → Type 0) where
      pub record Chosen (hits : List (SearchHit Float)) : Type 0 where
        fitting : Fits hits []
        here : All Q hits

      select_hits-Chosen :
          (hits selected found : List (SearchHit Float))
          → All Q hits
          → Chosen selected
          → selected_hits hits selected ≡ some found
          → Chosen found
      unfolding select_hits
      select_hits-Chosen [] selected found a c h =
          let same : selected ≡ found = cc in subst Chosen same c
      select_hits-Chosen (x ∷ hits) selected found a c h =
          let trial = selected ++ x ∷ [] in
          elim (Bool-cases (leb (chars (memory_text less encode_hits count_tokens trial)) 500000)) [
            | inr v ↦ let gone = rw v at h in absurd (cc)
            | inl v ↦
                elim (Bool-cases
                  (fits less encode_hits count_tokens budget system_messages current trial [])) [
                    | inl f ↦
                        select_hits-Chosen hits trial found a.1
                          (record {
                            fitting = f;
                            here = All-append Q selected (x ∷ []) c.here (a.0, tt);
                          })
                          (rw (v, f) at h)
                    | inr f ↦ select_hits-Chosen hits selected found a.1 c (rw (v, f) at h)
                  ]
          ]

      record Kept (hits : List (SearchHit Float)) (turns : List ConversationTurn) : Type 0 where
        fitting : Fits hits turns
        here : All P turns

      select_turns-Kept :
          (hits : List (SearchHit Float)) (turns selected : List ConversationTurn)
          → All P turns
          → Kept hits selected
          → Kept hits (
              select_turns less encode_hits count_tokens budget system_messages current hits turns
                selected)
      unfolding select_turns
      select_turns-Kept hits [] selected a k = k
      select_turns-Kept hits (t ∷ turns) selected a k =
          elim (Bool-cases (
            fits less encode_hits count_tokens budget system_messages current hits
              (t ∷ selected))) [
                | inl f ↦ rw f (
                    select_turns-Kept hits turns (t ∷ selected) a.1
                      (record { fitting = f; here = (a.0, k.here) }))
                | inr f ↦ rw f (select_turns-Kept hits turns selected a.1 k)
              ]

      pub record Assembled (b : ContextBundle) : Type 0 where
        pub hits : List (SearchHit Float)
        pub turns : List ConversationTurn
        pub assembled :
            b.messages ≡ assemble less encode_hits count_tokens system_messages hits turns current
        pub within : count_tokens b.messages ≤ budget
        pub all_hits : All Q hits
        pub all_turns : All P turns

      pub chosen_hits-Chosen :
          (hits found : List (SearchHit Float))
          → All Q hits
          → Fits [] []
          → chosen_hits less encode_hits count_tokens budget system_messages current hits
            ≡ some found
          → Chosen found
      chosen_hits-Chosen hits found a f h =
          let ordered =
            ordered_hits less encode_hits count_tokens budget system_messages current hits in
          let all : All Q ordered = sorted-All Q _ hits a in
          let commitments =
            select_where
              (is_hit_commitment less encode_hits count_tokens budget system_messages current)
              ordered in
          let others =
            select_where (is_other_hit less encode_hits count_tokens budget system_messages current)
              ordered in
          elim (Option-cases (selected_hits commitments [])) [
            | inl n ↦ let gone = rw n at h in absurd (cc)
            | inr s ↦
                select_hits-Chosen others s.0 found (select_where-All Q _ ordered all)
                  (select_hits-Chosen commitments [] s.0 (select_where-All Q _ ordered all)
                    (record { fitting = f; here = tt }) s.1)
                  (rw s.1 at h)
          ]

      pub with_hits-Assembled :
          (turns : List ConversationTurn) (given : ℕ) (found : Option (List (SearchHit Float)))
          (b : ContextBundle)
          → All P turns
          → ((hits : List (SearchHit Float)) → found ≡ some hits → Chosen hits)
          → with_hits less encode_hits count_tokens budget system_messages current turns given found
            ≡ built b
          → Assembled b
      unfolding fits
      with_hits-Assembled turns given none b a chosen h = absurd (cc)
      with_hits-Assembled turns given (some hits) b a chosen h =
          let c = chosen hits refl in
          let kept =
            select_turns-Kept hits (reversed turns []) [] (reversed-All P turns [] a tt)
              (record { fitting = c.fitting; here = tt }) in
          let picked =
            select_turns less encode_hits count_tokens budget system_messages current hits
              (reversed turns []) [] in
          let fitting = kept.fitting in
          let same : bundle less encode_hits count_tokens budget system_messages current hits turns
                picked given
              ≡ b =
            cc in
          subst Assembled same (record {
            hits = hits;
            turns = picked;
            assembled = refl;
            within = ground arith;
            all_hits = c.here;
            all_turns = kept.here;
          })
