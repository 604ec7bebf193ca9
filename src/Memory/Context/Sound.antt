-- ===== src/Memory/Context/Sound.antt =====
-- A context holds nothing of another conversation, and fits.
use lemonbot.Prelude.{
  ℕ, ◌+◌, ◌-◌, ◌≤◌, ◌≡◌, String, Bool, true, not, ◌||◌, List, [], ◌∷◌, arith, ltb, ◌==◌, Bool-cases,
  inl, inr, All, Among, length,
}
use lemonbot.Domain.{MessageRole, message_role_eq}
use lemonbot.Domain.Exchange.{ModelMessage}
use lemonbot.Sql.{exists_where}
use lemonbot.Memory.{ConversationTurn, SearchHit, ContextBundle}
use lemonbot.Memory.Context.{
  built, same_conversation, assemble, fits, chosen_hits, chronological, strays, hit_strays, build,
}
use lemonbot.Memory.Context.Selection.{
  none_fails, given, sorted-All, unseen-All, chosen_hits-Chosen, with_hits-Assembled,
}

module _ {Float : Type 0} (less : Float → Float → Bool)
    (encode_hits : List (SearchHit Float) → String) (count_tokens : List ModelMessage → ℕ) where
  module _ (budget : ℕ) (system_messages : List ModelMessage) (current : ConversationTurn) where
    abbrev HereHit : SearchHit Float → Type 0
    HereHit h = same_conversation current h.memory.channel h.memory.chat_id ≡ true

    abbrev HereTurn : ConversationTurn → Type 0
    HereTurn t = same_conversation current t.channel t.chat_id ≡ true

    abbrev GivenTurn : List ConversationTurn → ConversationTurn → Type 0
    GivenTurn recent_turns t = Among t recent_turns × HereTurn t

    abbrev GivenHit : List (SearchHit Float) → SearchHit Float → Type 0
    GivenHit memory_hits h = Among h memory_hits × HereHit h

    -- What a bundle holds besides the system's messages and the current turn, and that nothing that
    -- it was built from is of another conversation.
    pub record IsSound (recent_turns : List ConversationTurn) (memory_hits : List (SearchHit Float))
        (b : ContextBundle) : Type 0 where
      pub hits : List (SearchHit Float)
      pub turns : List ConversationTurn
      pub assembled :
          b.messages ≡ assemble less encode_hits count_tokens system_messages hits turns current
      pub within : count_tokens b.messages ≤ budget
      pub hits_given : All (GivenHit memory_hits) hits
      pub turns_given : All (GivenTurn recent_turns) turns
      pub memories_here : All HereHit memory_hits
      pub recent_here : All HereTurn recent_turns

  -- A context that `ContextBuilder.build` returns is assembled of the system's messages, of memories
  -- and earlier turns that are among those it was given, and of the current turn; all memories and
  -- turns that it was given are of the current turn's conversation, and the context's tokens leave the
  -- reserved ones free within the maximum.
  pub build-IsSound :
      (current : ConversationTurn) (recent_turns : List ConversationTurn)
      (memory_hits : List (SearchHit Float)) (maximum reserved : ℕ)
      (system_messages : List ModelMessage) (b : ContextBundle)
      → build less encode_hits count_tokens current recent_turns memory_hits maximum reserved
          system_messages
        ≡ built b
      → IsSound (maximum - reserved) system_messages current recent_turns memory_hits b
        × (count_tokens b.messages + reserved ≤ maximum)
  unfolding build
  build-IsSound current recent_turns memory_hits maximum reserved system_messages b h =
      let budget = maximum - reserved in
      let stray = strays less encode_hits count_tokens current recent_turns in
      let hit_stray = hit_strays less encode_hits count_tokens current memory_hits in
      elim (Bool-cases (ltb maximum 1)) [
        | inl e ↦ let gone = rw e at h in absurd (cc)
        | inr e ↦ elim (Bool-cases (ltb budget 1)) [
          | inl f ↦ let gone = rw (e, f) at h in absurd (cc)
          | inr f ↦ elim (Bool-cases (stray || hit_stray)) [
            | inl s ↦ let gone = rw (e, f, s) at h in absurd (cc)
            | inr s ↦
                elim (Bool-cases (
                  exists_where (λ (m : ModelMessage). not (m.role == MessageRole.system))
                    system_messages)) [
                      | inl m ↦ let gone = rw (e, f, s, m) at h in absurd (cc)
                      | inr m ↦
                          elim (Bool-cases (
                            fits less encode_hits count_tokens budget system_messages current []
                              [])) [
                                | inr k ↦ let gone = rw (e, f, s, m, k) at h in absurd (cc)
                                | inl k ↦
                                    let turns_here : All (HereTurn budget system_messages current)
                                        recent_turns =
                                      none_fails
                                        (λ (t : ConversationTurn).
                                          same_conversation current t.channel t.chat_id)
                                        recent_turns (ground arith) in
                                    let hits_here : All (HereHit budget system_messages current)
                                        memory_hits =
                                      none_fails
                                        (λ (t : SearchHit Float).
                                          same_conversation current t.memory.channel
                                            t.memory.chat_id)
                                        memory_hits (ground arith) in
                                    let given_turns =
                                      given (HereTurn budget system_messages current) recent_turns
                                        turns_here in
                                    let given_hits =
                                      given (HereHit budget system_messages current) memory_hits
                                        hits_here in
                                    let Turn =
                                      GivenTurn budget system_messages current recent_turns in
                                    let Hit = GivenHit budget system_messages current memory_hits in
                                    let sound =
                                      with_hits-Assembled less encode_hits count_tokens budget
                                        system_messages current Turn Hit
                                        (chronological less encode_hits count_tokens budget
                                          system_messages current recent_turns)
                                        (length memory_hits)
                                        (chosen_hits less encode_hits count_tokens budget
                                          system_messages current memory_hits)
                                        b
                                        (unseen-All Turn (current.message_id ∷ []) _
                                          (sorted-All Turn _ recent_turns given_turns))
                                        (λ hits c.
                                          chosen_hits-Chosen less encode_hits count_tokens budget
                                            system_messages current Turn Hit memory_hits hits
                                            given_hits k c)
                                        (rw (e, f, s, m, k) at h) in
                                    (
                                      record {
                                        hits = sound.hits;
                                        turns = sound.turns;
                                        assembled = sound.assembled;
                                        within = sound.within;
                                        hits_given = sound.all_hits;
                                        turns_given = sound.all_turns;
                                        memories_here = hits_here;
                                        recent_here = turns_here;
                                      },
                                      ground (arith, sound.within),
                                    )
                              ]
                    ]
          ]
        ]
      ]
