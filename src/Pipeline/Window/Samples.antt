-- ===== src/Pipeline/Window/Samples.antt =====
-- A tool's output that has to be cut.
use lemonbot.Prelude.{
  ℕ, ◌≤◌, ◌≡◌, refl, String, true, List, [], ◌∷◌, ◌++◌, arith, take_chars, chars-concat,
  chars-take_chars,
}
use lemonbot.Domain.Exchange.{ModelMessage}
use lemonbot.Pipeline.{done}
use lemonbot.Pipeline.Agent.Samples.{agent}
use lemonbot.Pipeline.Window.{
  fits_with, fits_context, maximum_context_tokens, reserved_context_tokens, tool_schema_tokens,
  system_message, cut, truncated_mark, untrusted, omission, append_tool_result_bounded,
}
use lemonbot.Pipeline.Window.Search.{
  appended, message, IsFitting, IsLongest, append_tool_result_bounded-IsFitting,
  append_tool_result_bounded-IsLongest,
}

abbrev history : List ModelMessage
history = system_message agent "hi" ∷ []

abbrev page : String
page =
    "aaaaaaaaaaaaaaaaaaaaaaaaaaaaaaaaaaaaaaaaaaaaaaaaaaaaaaaaaaaaaaaaaaaaaaaaaaaaaaaaaaaaaaaaaaaaaaaaaaaaaaaaaaaaaaaaaaaaaaaaaaaaaaaaaaaaaaaaaaaaaaaaaaaaaaaaaaaaaaaaaaaa"

least : fits_with agent history "lookup" "c1" omission ≡ true
unfolding fits_context maximum_context_tokens reserved_context_tokens tool_schema_tokens
least = refl

earlier_fits :
    (m n : ℕ)
    → m ≤ n
    → fits_with agent history "lookup" "c1" (cut agent history "lookup" "c1" page n) ≡ true
    → fits_with agent history "lookup" "c1" (cut agent history "lookup" "c1" page m) ≡ true
unfolding fits_context maximum_context_tokens reserved_context_tokens tool_schema_tokens
earlier_fits m n h f = ground (
  arith,
  chars-concat untrusted (cut agent history "lookup" "c1" page m),
  chars-concat untrusted (cut agent history "lookup" "c1" page n),
  chars-concat (take_chars m page) truncated_mark,
  chars-concat (take_chars n page) truncated_mark,
  chars-take_chars m page,
  chars-take_chars n page,
)

append_tool_result_bounded-IsLongest_example :
    (after : List ModelMessage) × (appended agent history "lookup" "c1" page ≡ done after)
    × IsLongest agent history "lookup" "c1" page after
append_tool_result_bounded-IsLongest_example =
    append_tool_result_bounded-IsLongest agent history "lookup" "c1" page (omega arith) least
      earlier_fits

short_output :
    appended agent history "lookup" "c1" "found"
    ≡ done (history ++ message agent history "lookup" "c1" "found" ∷ [])
unfolding append_tool_result_bounded fits_context maximum_context_tokens reserved_context_tokens
    tool_schema_tokens
short_output = refl

append_tool_result_bounded-IsFitting_example :
    IsFitting agent history "lookup" "c1"
      (history ++ message agent history "lookup" "c1" "found" ∷ [])
append_tool_result_bounded-IsFitting_example =
    append_tool_result_bounded-IsFitting agent history "lookup" "c1" "found"
      (history ++ message agent history "lookup" "c1" "found" ∷ []) short_output
