-- ===== src/Memory/Context/Samples.antt =====
-- A context of one memory and the newer of two turns.
use lemonbot.Prelude.{ℕ, ◌+◌, ◌-◌, ◌≤◌, ◌≡◌, refl, String, true, none, List, [], ◌∷◌, ltb, length}
use lemonbot.Domain.{MessageRole}
use lemonbot.Domain.Exchange.{ModelMessage}
use lemonbot.Storage.Allowlist.{contains}
use lemonbot.Sql.{exists_where, select_where}
use lemonbot.Memory.{ConversationTurn, MemoryKind, SearchHit, ContextBundle}
use lemonbot.Memory.Context.{
  built, build, plain_message, assemble, insert, sorted, reversed, unseen, distinct, fits,
  select_hits, select_turns,
}
use lemonbot.Memory.Context.Sound.{IsSound, build-IsSound}

abbrev said : String → ℕ → ConversationTurn
said content t = record {
  message_id = content;
  event_id = none;
  channel = "fake";
  chat_id = "a";
  role = MessageRole.user;
  content = content;
  occurred_at = t;
}

abbrev promise : SearchHit ℕ
promise = record {
  memory = record {
    memory_id = "m1";
    channel = "fake";
    chat_id = "a";
    kind = MemoryKind.commitment;
    text = "call back";
    source_message_ids = [];
    importance = 5;
    created_at = 1;
  };
  score = 1;
}

abbrev encode : List (SearchHit ℕ) → String
encode hits = "[]"

abbrev count : List ModelMessage → ℕ
count messages = length messages

abbrev system : List ModelMessage
system = plain_message MessageRole.system "be brief" ∷ []

abbrev expected : ContextBundle
expected = record {
  messages = assemble ltb encode count system (promise ∷ []) (said "two" 2 ∷ []) (said "three" 3);
  memory_ids = "m1" ∷ [];
  estimated_tokens = 4;
  omitted_turns = 1;
  omitted_memories = 0;
  truncated = true;
}

builds :
    build ltb encode count
      (said "three" 3)
      (said "two" 2 ∷ said "one" 1 ∷ [])
      (promise ∷ [])
      6
      2
      system
    ≡ built expected
unfolding build assemble insert sorted reversed unseen distinct fits select_hits select_turns
    contains exists_where select_where
builds = refl

build-IsSound_example :
    IsSound ltb encode count
      (6 - 2)
      system
      (said "three" 3)
      (said "two" 2 ∷ said "one" 1 ∷ [])
      (promise ∷ [])
      expected
    × (count expected.messages + 2 ≤ 6)
build-IsSound_example =
    build-IsSound ltb encode count (said "three" 3) (said "two" 2 ∷ said "one" 1 ∷ [])
      (promise ∷ []) 6 2 system expected builds
