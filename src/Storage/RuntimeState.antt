-- ===== src/Storage/RuntimeState.antt =====
-- storage/repository.py: the key-value table of the runtime, which holds the pauses.
use Prim.Native.Char.{Char, code}
use Prim.Native.String.{◌++◌ as concat}
use lemonbot.Prelude.{
  ℕ, String, ◌+◌, Bool, true, false, ◌&&◌, ◌||◌, Option, none, some, List, ltb, leb, eqb, ◌==◌,
  string_eq, nat_eq, if◌then◌else◌, Exception, Result, ok, err, chars,
}
use lemonbot.Prelude.Json.{Fields, field, end, bool, get_flag}
use lemonbot.Domain.{Time}
use lemonbot.Sql.{exists_where, first_where, count_where, upsert, delete_where}
use lemonbot.Storage.Tables.{RuntimeStateRow, Database}

abbrev pub has_runtime_key : String → RuntimeStateRow → Bool
has_runtime_key key row = row.key == key

abbrev pub put_state : String → Fields → Time → List RuntimeStateRow → List RuntimeStateRow
put_state key value now rows =
    upsert (has_runtime_key key) (λ r. record r { value_json = value; updated_at = now })
      (record { key = key; value_json = value; updated_at = now }) rows

abbrev pub channel_key : String → String
channel_key channel = concat "pause:channel:" channel

abbrev pub pause_key : Option String → String
pause_key none = "pause:global"
pause_key (some channel) = channel_key channel

unfoldable pub set_paused : Option String → Bool → Time → Database → Database
set_paused channel paused now db = record db {
  runtime_state =
      put_state (pause_key channel) (field "paused" (bool paused) end) now db.runtime_state;
}

abbrev is_channel_key : Option String → RuntimeStateRow → Bool
is_channel_key none row = false
is_channel_key (some channel) row = row.key == channel_key channel

abbrev pub pauses : Option String → RuntimeStateRow → Bool
pauses channel row =
    (row.key == "pause:global" || is_channel_key channel row) && get_flag row.value_json "paused"

unfoldable pub is_paused : Option String → Database → Bool
is_paused channel db = exists_where (pauses channel) db.runtime_state

abbrev value_of : Option RuntimeStateRow → Option Fields
value_of none = none
value_of (some row) = some row.value_json

abbrev pub invalid_key : ℕ → String → Bool
invalid_key limit key = key == "" || ltb limit (chars key)

unfoldable pub runtime_state : String → Database → Result (Option Fields)
runtime_state key db =
    if invalid_key 512 key
    then err Exception.value_error
    else ok (value_of (first_where (has_runtime_key key) db.runtime_state))

unfoldable pub set_runtime_state : String → Fields → Time → Database → Result Database
set_runtime_state key value now db =
    if invalid_key 512 key
    then err Exception.value_error
    else ok (record db { runtime_state = put_state key value now db.runtime_state })

-- SQLite's LIKE makes no difference between the cases of an ASCII letter.
abbrev fold_case : Char → ℕ
fold_case c = let n = code c in if leb b'A' n && leb n b'Z' then n + 32 else n

-- key LIKE prefix || '%'
unfoldable pub like_prefix : String → String → Bool
like_prefix String.[] key = true
like_prefix (String.◌∷◌ p prefix) String.[] = false
like_prefix (String.◌∷◌ p prefix) (String.◌∷◌ c key) =
    eqb (fold_case p) (fold_case c) && like_prefix prefix key

unfoldable pub clear_runtime_state_prefix : String → Database → Result (Database × ℕ)
clear_runtime_state_prefix prefix db =
    let test : RuntimeStateRow → Bool = λ r. like_prefix prefix r.key in
    if invalid_key 256 prefix
    then err Exception.value_error
    else ok (
      record db { runtime_state = delete_where test db.runtime_state },
      count_where test db.runtime_state,
    )
