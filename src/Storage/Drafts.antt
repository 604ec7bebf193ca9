-- ===== src/Storage/Drafts.antt =====
-- storage/repository.py: replies that are kept as drafts and never sent.
use lemonbot.Prelude.{
  ℕ, String, Bool, ◌&&◌, ◌||◌, Option, none, some, List, [], ◌∷◌, ◌++◌, ◌==◌, string_eq,
  if◌then◌else◌, Exception, Result, ok, err,
}
use lemonbot.Domain.{Time, OutboundMessage}
use lemonbot.Sql.{exists_where, next_id, Choice}
use lemonbot.Storage.Tables.{DraftRow, Database}

-- The unique constraints uq_drafts_draft_id and uq_drafts_one_reply_per_event.
abbrev pub same_draft : OutboundMessage → String → DraftRow → Bool
same_draft message event row =
    row.draft_id == message.message_id
    || (row.channel == message.channel && row.reply_to_event_id == event)

abbrev pub draft_row : OutboundMessage → String → Time → ℕ → DraftRow
draft_row message event now id = record {
  id = id;
  draft_id = message.message_id;
  channel = message.channel;
  chat_id = message.chat_id;
  text = message.text;
  reply_to_event_id = event;
  metadata_json = message.metadata;
  created_at = message.created_at;
  updated_at = now;
}

abbrev pub insert_draft : OutboundMessage → String → Time → List DraftRow → List DraftRow
insert_draft message event now drafts =
    if exists_where (same_draft message event) drafts
    then drafts
    else drafts ++ draft_row message event now (next_id (λ r. r.id) drafts) ∷ []

abbrev finish_draft : Option DraftRow → Database → Database → Database × Result DraftRow
finish_draft none before db = (before, err Exception.runtime_error)
finish_draft (some row) before db = (db, ok row)

module _ (select : Choice DraftRow) where
  abbrev draft_for : OutboundMessage → Option String → Time → Database → Database × Result DraftRow
  draft_for message none now db = (db, err Exception.value_error)
  draft_for message (some event) now db =
      let db' = record db { drafts = insert_draft message event now db.drafts } in
      finish_draft (select.choose (same_draft message event) db'.drafts) db db'

  unfoldable pub create_draft : OutboundMessage → Time → Database → Database × Result DraftRow
  create_draft message = draft_for message message.reply_to_event_id
