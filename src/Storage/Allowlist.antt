-- ===== src/Storage/Allowlist.antt =====
-- storage/repository.py: the allowlist of the conversations that the bot may answer.
pub mod Chats
use lemonbot.Prelude.{
  ℕ, String, Bool, true, false, not, ◌&&◌, ◌||◌, Option, none, some, List, [], ◌∷◌, ◌==◌, string_eq,
  nat_eq, if◌then◌else◌, Exception, Result, ok, err, length,
}
use lemonbot.Prelude.Json.{field, end, int}
use lemonbot.Domain.{Time, AuditRecord}
use lemonbot.Sql.{update_where, first_where, count_where, next_id, upsert}
use lemonbot.Storage.Tables.{AllowlistRow, Database, add_audit}

-- The unique constraint uq_allowlist_channel_chat.
abbrev pub is_chat : String → String → AllowlistRow → Bool
is_chat channel chat_id row = row.channel == channel && row.chat_id == chat_id

abbrev pub allowlist_row : String → String → Bool → Option String → Time → ℕ → AllowlistRow
allowlist_row channel chat_id enabled label now id = record {
  id = id;
  channel = channel;
  chat_id = chat_id;
  enabled = enabled;
  label = label;
  created_at = now;
  updated_at = now;
}

abbrev pub upsert_chat :
    String → String → Bool → Option String → Time → List AllowlistRow → List AllowlistRow
upsert_chat channel chat_id enabled label now rows =
    upsert (is_chat channel chat_id)
      (λ r. record r { enabled = enabled; label = label; updated_at = now })
      (allowlist_row channel chat_id enabled label now (next_id (λ r. r.id) rows)) rows

unfoldable pub set_allowlisted : String → String → Bool → Option String → Time → Database → Database
set_allowlisted channel chat_id enabled label now db = record db {
  allowlist = upsert_chat channel chat_id enabled label now db.allowlist;
}

abbrev enabled_of : Option AllowlistRow → Bool
enabled_of none = false
enabled_of (some row) = row.enabled

unfoldable pub is_allowlisted : String → String → Database → Bool
is_allowlisted channel chat_id db = enabled_of (first_where (is_chat channel chat_id) db.allowlist)

unfoldable pub contains : String → List String → Bool
contains x [] = false
contains x (y ∷ ys) = y == x || contains x ys

-- The rows of the channel that the configuration does not name.
abbrev pub is_dropped : String → List String → AllowlistRow → Bool
is_dropped channel chat_ids row =
    row.channel == channel && (row.enabled && not (contains row.chat_id chat_ids))

abbrev pub disable : Time → AllowlistRow → AllowlistRow
disable now row = record row { enabled = false; updated_at = now }

-- The loop over `sorted(chat_ids)`.
unfoldable pub enroll_all :
    String → List String → Option String → Time → List AllowlistRow → List AllowlistRow
enroll_all channel [] label now rows = rows
enroll_all channel (c ∷ cs) label now rows =
    enroll_all channel cs label now (upsert_chat channel c true label now rows)

abbrev reconcile_audit : String → ℕ → ℕ → Time → AuditRecord
reconcile_audit channel configured disabled now = record {
  action = "allowlist.reconcile";
  outcome = "applied";
  channel = some channel;
  chat_id = none;
  event_id = none;
  message_id = none;
  rule_id = none;
  detail = field "configured_count" (int configured) (field "disabled_count" (int disabled) end);
  occurred_at = now;
}

pub record Reconciled : Type 0 where
  pub configured : ℕ
  pub disabled : ℕ
  pub upserted : ℕ

-- `chat_ids` is the set of the source in sorted order. Each upsert counts one row.
unfoldable pub reconcile_allowlist :
    String → List String → Option String → Time → Database → Database × Result Reconciled
reconcile_allowlist channel chat_ids label now db =
    let disabled = count_where (is_dropped channel chat_ids) db.allowlist in
    let kept = update_where (is_dropped channel chat_ids) (disable now) db.allowlist in
    if channel == "" || contains "" chat_ids then (db, err Exception.value_error) else (
      add_audit (reconcile_audit channel (length chat_ids) disabled now)
          (record db { allowlist = enroll_all channel chat_ids label now kept }),
      ok (record { configured = length chat_ids; disabled = disabled; upserted = length chat_ids }),
    )
