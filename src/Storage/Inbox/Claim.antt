-- ===== src/Storage/Inbox/Claim.antt =====
-- Which event `claim_next_inbox` hands out.
use lemonbot.Prelude.{
  ℕ, String, ◌+◌, ◌≤◌, ◌≡◌, subst, Among, All-Among, ◌≢◌, refl, true, false, Option, none, some,
  List, arith, ◌==◌, nat_eq, string_eq, Option-cases, Bool-cases, inl, inr, All, All-map, if_given,
}
use mathlib.Core.Option.{some-injective}
use lemonbot.Domain.{Time, InboxState, inbox_state_eq}
use lemonbot.Sql.{
  IsOrder, first_by-least, first_by-All, first_by-none, first_where, first_where-changed,
  exists_where, exists_where-false, count_where, exists_where_self, select_where-test,
  All-select_where, All-of_select, update_where, first_where-update,
}
use lemonbot.Storage.Tables.{InboxRow, Database}
use lemonbot.Storage.Inbox.{
  InboxItem, inbox_item, claim_row, claim_next_inbox, candidate, is_eligible, blocks, precedes,
  is_claimable, claimed,
}

pub precedes-IsOrder : IsOrder precedes
precedes-IsOrder = record {
  irreflexive = λ a. ground arith;
  negatively_trans = λ a b c h k. ground arith;
  asymmetric = λ a b h. ground arith;
}

-- The row of the inbox that an item was made of, and why it was its turn.
pub record IsTurn (channel : Option String) (now : Time) (inbox : List InboxRow) (item : InboxItem)
    : Type 0 where
  pub row : InboxRow
  pub among : Among row inbox
  pub claimed_row :
      item
      ≡ inbox_item (record row {
        state = InboxState.processing;
        attempts = row.attempts + 1;
        claimed_at = some now;
      })
  pub pending : row.state ≡ InboxState.pending
  pub on_channel : if_given channel (λ c. row.channel == c) ≡ true
  pub unblocked : All (λ r. blocks row r ≡ false) inbox
  pub oldest : All (λ r. is_eligible channel inbox r ≡ true → precedes r row ≡ false) inbox

candidate-is_eligible :
    (channel : Option String) (inbox : List InboxRow) (row : InboxRow)
    → candidate channel inbox ≡ some row
    → is_eligible channel inbox row ≡ true
unfolding candidate
candidate-is_eligible channel inbox row e =
    first_by-All precedes (λ r. is_eligible channel inbox r ≡ true) _ row
      (select_where-test (is_eligible channel inbox) inbox) e

candidate-Among :
    (channel : Option String) (inbox : List InboxRow) (row : InboxRow)
    → candidate channel inbox ≡ some row
    → Among row inbox
unfolding candidate
candidate-Among channel inbox row e =
    first_by-All precedes (λ r. Among r inbox) _ row
      (All-select_where (λ r. Among r inbox) (is_eligible channel inbox) inbox (All-Among inbox)) e

candidate-IsTurn :
    (channel : Option String) (now : Time) (inbox : List InboxRow) (row : InboxRow)
    → candidate channel inbox ≡ some row
    → IsTurn channel now inbox (inbox_item (claimed now row))
unfolding candidate inbox_item
candidate-IsTurn channel now inbox row e =
    let eligible = candidate-is_eligible channel inbox row e in
    record {
      row = row;
      among = candidate-Among channel inbox row e;
      claimed_row = refl;
      pending = ground arith;
      on_channel = ground arith;
      unblocked = exists_where-false (blocks row) inbox (ground arith);
      oldest =
          All-of_select (λ r. precedes r row ≡ false) (is_eligible channel inbox) inbox
            (first_by-least precedes precedes-IsOrder _ row e);
    }

claim_row-claimed :
    (row : InboxRow) (now : Time) (db : Database) (item : InboxItem)
    → count_where (λ r. r.id == row.id) db.inbox ≤ 1
    → Among row db.inbox
    → is_claimable row.id row ≡ true
    → (claim_row row.id now db).1 ≡ some item
    → inbox_item (claimed now row) ≡ item
unfolding claim_row
claim_row-claimed row now db item unique m u h =
    let found =
      first_where-changed (λ r. r.id == row.id) (is_claimable row.id) (claimed now) db.inbox row
        (λ r t. ground arith) (λ r t. ground arith) unique m u in
    elim (Bool-cases (exists_where (is_claimable row.id) db.inbox)) [
      | inl e ↦ some-injective _ item (rw (e, found) at h)
      | inr e ↦ let gone : ◌≡◌ {A = Option InboxItem} none (some item) = rw e at h in absurd (cc)
    ]

-- If `claim_next_inbox` returns an item and the ids in the inbox are unique, then the item is a row of
-- the inbox, with its state, attempts and claim updated: it was pending, it lies on the channel that
-- was asked for, no pending or processing event of its conversation precedes it, and no other
-- eligible event precedes it, by time of occurrence and then by id.
pub claim_next_inbox-IsTurn :
    (channel : Option String) (now : Time) (db : Database) (item : InboxItem)
    → ((id : ℕ) → count_where (λ r. r.id == id) db.inbox ≤ 1)
    → (claim_next_inbox channel now db).1 ≡ some item
    → IsTurn channel now db.inbox item
unfolding claim_next_inbox
claim_next_inbox-IsTurn channel now db item unique h =
    elim (Option-cases (candidate channel db.inbox)) [
      | inl e ↦
          let gone : ◌≡◌ {A = Option InboxItem} none (some item) = rw (e, claim_next_inbox) at h in
          absurd (cc)
      | inr (row, e) ↦
          let eligible = candidate-is_eligible channel db.inbox row e in
          subst (IsTurn channel now db.inbox)
            (claim_row-claimed row now db item (unique row.id)
              (candidate-Among channel db.inbox row e) (ground arith)
              (rw (e, claim_next_inbox) at h))
            (candidate-IsTurn channel now db.inbox row e)
    ]

claim_row-ne-none :
    (id : ℕ) (now : Time) (db : Database)
    → exists_where (is_claimable id) db.inbox ≡ true
    → (claim_row id now db).1 ≢ none
unfolding claim_row
claim_row-ne-none id now db e h =
    let inbox' = update_where (is_claimable id) (claimed now) db.inbox in
    elim (Option-cases (first_where (λ r. r.id == id) inbox')) [
      | inl f ↦
          first_where-update (λ r. r.id == id) (is_claimable id) (claimed now) db.inbox
            (λ r t. ground arith) e f
      | inr (r, f) ↦ let got = rw (e, f) at h in cc
    ]

candidate-is_claimable :
    (channel : Option String) (inbox : List InboxRow) (row : InboxRow)
    → candidate channel inbox ≡ some row
    → exists_where (is_claimable row.id) inbox ≡ true
unfolding candidate
candidate-is_claimable channel inbox row e =
    first_by-All precedes
      (λ r. is_eligible channel inbox r ≡ true → exists_where (is_claimable r.id) inbox ≡ true) _
      row
      (All-select_where _ (is_eligible channel inbox) inbox (
        All-map (λ r f t. f (ground arith)) inbox
          (exists_where_self (λ r. is_claimable r.id) inbox)))
      e (candidate-is_eligible channel inbox row e)

-- If `claim_next_inbox` returns nothing, then no event is eligible: each pending event on the
-- channel that was asked for is preceded by an unfinished one of its own conversation.
pub claim_next_inbox-none :
    (channel : Option String) (now : Time) (db : Database)
    → (claim_next_inbox channel now db).1 ≡ none
    → All (λ r. is_eligible channel db.inbox r ≡ true → ⊥) db.inbox
unfolding claim_next_inbox candidate
claim_next_inbox-none channel now db h = elim (Option-cases (candidate channel db.inbox)) [
  | inl e ↦
      All-of_select (λ _. ⊥) (is_eligible channel db.inbox) db.inbox
        (rw (first_by-none precedes _ e) tt)
  | inr (row, e) ↦ absurd (
      claim_row-ne-none row.id now db (candidate-is_claimable channel db.inbox row e)
        (rw (e, claim_next_inbox) at h))
]
