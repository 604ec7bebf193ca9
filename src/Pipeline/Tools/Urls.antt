-- ===== src/Pipeline/Tools/Urls.antt =====
-- orchestration/pipeline.py: `_explicit_event_urls`. What the regular expression finds is a parameter.
use Prim.Native.Char.{Char, code}
use Prim.Native.String.{String}
use lemonbot.Prelude.{
  Bool, false, ◌||◌, ◌==◌, nat_eq, string_eq, Option, none, some, List, [], ◌∷◌, if◌then◌else◌,
}
use lemonbot.Pipeline.Agent.{Agent}

abbrev trailing_punctuation : String
trailing_punctuation = ".,;:!?，。！？；、)]}》」』"

abbrev has_char : String → Char → Bool
has_char String.[] c = false
has_char (String.◌∷◌ d s) c = code d == code c || has_char s c

-- Puts a character before a text from which trailing punctuation was removed.
abbrev keep_url_char : Char → String → String
keep_url_char c String.[] =
    if has_char trailing_punctuation c then String.[] else String.◌∷◌ c String.[]
keep_url_char c (String.◌∷◌ d s) = String.◌∷◌ c (String.◌∷◌ d s)

unfoldable rstrip_url : String → String
rstrip_url String.[] = String.[]
rstrip_url (String.◌∷◌ c s) = keep_url_char c (rstrip_url s)

unfoldable trim_urls : List String → List String
unfolding rstrip_url
trim_urls [] = []
trim_urls (u ∷ us) =
    let rest = trim_urls us in if rstrip_url u == "" then rest else rstrip_url u ∷ rest

unfoldable pub explicit_event_urls : Agent → Option String → List String
unfolding trim_urls
explicit_event_urls agent none = []
explicit_event_urls agent (some text) = if text == "" then [] else trim_urls (agent.find_urls text)
