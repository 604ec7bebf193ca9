-- ===== src/Storage/Allowlist/Chats.antt =====
-- The chats that a channel may talk to after `reconcile_allowlist`.
use lemonbot.Prelude.{
  String, ◌≡◌, refl, sym, subst, Bool, true, false, ◌||◌, Option, List, [], ◌∷◌, ◌++◌, arith, ◌==◌,
  string_eq, eq_iff, Bool-cases, Option-cases, inl, inr, All, All-map, All-Unit, ok,
}
use lemonbot.Domain.{Time}
use lemonbot.Sql.{
  exists_where, first_where, update_where, upsert, exists_where-append, exists_where-of_none,
  exists_where-false, first_where-All, first_where-test, All-update_each, All-update_where,
}
use lemonbot.Storage.Tables.{Database, AllowlistRow}
use lemonbot.Storage.Allowlist.{
  is_chat, upsert_chat, enabled_of, is_allowlisted, contains, is_dropped, disable, enroll_all,
  Reconciled, reconcile_allowlist,
}

All-insert :
    {A : Type 0} (P : A → Type 0) (xs : List A) (x : A) → All P xs → P x → All P (xs ++ x ∷ [])
All-insert P [] x h p = (p, tt)
All-insert P (y ∷ xs) x h p = (h.0, All-insert P xs x h.1 p)

All-upsert :
    {A : Type 0} (P : A → Type 0) (test : A → Bool) (set : A → A) (row : A) (xs : List A)
    → P row
    → ((r : A) → test r ≡ true → P r → P (set r))
    → All P xs
    → All P (upsert test set row xs)
unfolding upsert
All-upsert P test set row xs p keep h = elim (Bool-cases (exists_where test xs)) [
  | inl e ↦ rw e (All-update_where P test set xs keep h)
  | inr e ↦ rw e (All-insert P xs row h p)
]

exists_where-update_self :
    {A : Type 0} (P test : A → Bool) (set : A → A) (xs : List A)
    → ((r : A) → P r ≡ true → P (set r) ≡ true)
    → exists_where P xs ≡ true
    → exists_where P (update_where test set xs) ≡ true
unfolding exists_where update_where
exists_where-update_self P test set [] keep e = e
exists_where-update_self P test set (x ∷ xs) keep e = elim (Bool-cases (test x)) [
  | inl t ↦ rw t (ground (arith, keep x, exists_where-update_self P test set xs keep))
  | inr t ↦ rw t (ground (arith, exists_where-update_self P test set xs keep))
]

exists_append :
    {A : Type 0} (P : A → Bool) (xs : List A) (x : A)
    → exists_where P xs ≡ true
    → exists_where P (xs ++ x ∷ []) ≡ true
unfolding exists_where
exists_append P [] x h = absurd (cc)
exists_append P (y ∷ xs) x h = ground (arith, exists_append P xs x)

contains_more :
    (x y : String) (ys : List String) → contains x ys ≡ true → contains x (y ∷ ys) ≡ true
unfolding contains
contains_more x y ys h = ground arith

contains_self : (ys : List String) → All (λ x. contains x ys ≡ true) ys
unfolding contains
contains_self [] = tt
contains_self (y ∷ ys) = (
  ground (arith, (eq_iff y y).1 refl),
  All-map (λ x h. contains_more x y ys h) ys (contains_self ys),
)

module _ (channel : String) (label : Option String) (now : Time) where
  -- The chat has a row, and its rows are enabled.
  record Enrolled (chat_id : String) (rows : List AllowlistRow) : Type 0 where
    exists : exists_where (is_chat channel chat_id) rows ≡ true
    enabled : All (λ r. is_chat channel chat_id r ≡ true → r.enabled ≡ true) rows

  upsert-Enrolled :
      (chat_id c : String) (rows : List AllowlistRow)
      → Enrolled chat_id rows
      → Enrolled chat_id (upsert_chat channel c true label now rows)
  unfolding upsert
  upsert-Enrolled chat_id c rows e = record {
    exists = elim (Bool-cases (exists_where (is_chat channel c) rows)) [
      | inl t ↦ rw t (
          exists_where-update_self (is_chat channel chat_id) (is_chat channel c) _ rows (λ r h. h)
            e.exists)
      | inr t ↦ rw t (exists_append (is_chat channel chat_id) rows _ e.exists)
    ];
    enabled = All-upsert _ (is_chat channel c) _ _ rows (λ _. refl) (λ r t h _. refl) e.enabled;
  }

  upsert_enrolls :
      (c : String) (rows : List AllowlistRow)
      → Enrolled c (upsert_chat channel c true label now rows)
  unfolding upsert
  upsert_enrolls c rows = elim (Bool-cases (exists_where (is_chat channel c) rows)) [
    | inl t ↦ record {
      exists =
          rw t
            (exists_where-update_self (is_chat channel c) (is_chat channel c) _ rows (λ r h. h) t);
      enabled = rw t (
          All-update_each (λ _. Unit) (λ r. is_chat channel c r ≡ true → r.enabled ≡ true)
            (is_chat channel c) _ rows (λ r h _ _. refl) (λ r h _ k. absurd (cc)) (All-Unit rows));
    }
    | inr t ↦ record {
      exists = rw t (
          exists_where-append (is_chat channel c) rows _
            (ground (arith, (eq_iff channel channel).1 refl, (eq_iff c c).1 refl)));
      enabled = rw t (
          All-insert (λ r. is_chat channel c r ≡ true → r.enabled ≡ true) rows _
            (All-map (λ r h k. absurd (cc)) rows (exists_where-false (is_chat channel c) rows t))
            (λ _. refl));
    }
  ]

  enroll_all-Enrolled :
      (chat_id : String) (cs : List String) (rows : List AllowlistRow)
      → Enrolled chat_id rows
      → Enrolled chat_id (enroll_all channel cs label now rows)
  unfolding enroll_all
  enroll_all-Enrolled chat_id [] rows e = e
  enroll_all-Enrolled chat_id (c ∷ cs) rows e =
      enroll_all-Enrolled chat_id cs _ (upsert-Enrolled chat_id c rows e)

  enroll_all-enrolls :
      (chat_id : String) (cs : List String) (rows : List AllowlistRow)
      → contains chat_id cs ≡ true
      → Enrolled chat_id (enroll_all channel cs label now rows)
  unfolding enroll_all contains
  enroll_all-enrolls chat_id [] rows h = absurd (cc)
  enroll_all-enrolls chat_id (c ∷ cs) rows h = elim (Bool-cases (c == chat_id)) [
    | inl e ↦ enroll_all-Enrolled chat_id cs _ (
        subst (λ x. Enrolled x (upsert_chat channel c true label now rows)) ((eq_iff c chat_id).0 e)
          (upsert_enrolls c rows))
    | inr e ↦ enroll_all-enrolls chat_id cs _ (ground arith)
  ]

  -- No enabled row of the channel is outside the configuration.
  enroll_all-kept :
      (ids cs : List String) (rows : List AllowlistRow)
      → All (λ c. contains c ids ≡ true) cs
      → All (λ r. is_dropped channel ids r ≡ false) rows
      → All (λ r. is_dropped channel ids r ≡ false) (enroll_all channel cs label now rows)
  unfolding enroll_all
  enroll_all-kept ids [] rows known h = h
  enroll_all-kept ids (c ∷ cs) rows known h = enroll_all-kept ids cs _ known.1 (
      All-upsert _ (is_chat channel c) _ _ rows (let k = known.0 in ground arith)
        (λ r t _.
          let same = (eq_iff r.chat_id c).0 (ground arith) in
          let k = rw (sym same) at known.0 in ground arith)
        h)

  -- The rows before the loop: what the configuration does not name is disabled.
  dropped-disabled :
      (ids : List String) (rows : List AllowlistRow)
      → All
          (λ r. is_dropped channel ids r ≡ false)
          (update_where (is_dropped channel ids) (disable now) rows)
  dropped-disabled ids rows =
      All-update_each (λ _. Unit) (λ r. is_dropped channel ids r ≡ false) (is_dropped channel ids)
        (disable now) rows (λ r h _. ground arith) (λ r h _. h) (All-Unit rows)

  enabled-contains :
      (chat_id : String) (ids : List String) (rows : List AllowlistRow)
      → All (λ r. is_dropped channel ids r ≡ false) rows
      → (contains chat_id ids ≡ true → Enrolled chat_id rows)
      → enabled_of (first_where (is_chat channel chat_id) rows) ≡ contains chat_id ids
  enabled-contains chat_id ids rows kept enrolls = elim (Bool-cases (contains chat_id ids)) [
    | inl m ↦ elim (Option-cases (first_where (is_chat channel chat_id) rows)) [
      | inl f ↦
          let gone = exists_where-of_none (is_chat channel chat_id) rows f in
          let there = (enrolls m).exists in absurd (cc)
      | inr (r, f) ↦
          let on = first_where-All _ (is_chat channel chat_id) rows r (enrolls m).enabled f in
          let asked = first_where-test (is_chat channel chat_id) rows r f in rw (f, m) (on asked)
    ]
    | inr m ↦ elim (Option-cases (first_where (is_chat channel chat_id) rows)) [
      | inl f ↦ rw (f, m) refl
      | inr (r, f) ↦
          let off = first_where-All _ (is_chat channel chat_id) rows r kept f in
          let asked = first_where-test (is_chat channel chat_id) rows r f in
          let same : r.chat_id ≡ chat_id = (eq_iff r.chat_id chat_id).0 (ground arith) in
          let out : contains r.chat_id ids ≡ false = rw same m in rw (f, m) (ground arith)
    ]
  ]

-- If `reconcile_allowlist` succeeds, then a chat of the channel is on the allowlist exactly when the
-- configuration names it.
pub reconcile_allowlist-is_allowlisted :
    (channel : String) (chat_ids : List String) (label : Option String) (now : Time) (db : Database)
    (result : Reconciled)
    → (reconcile_allowlist channel chat_ids label now db).1 ≡ ok result
    → (chat_id : String)
    → is_allowlisted channel chat_id (reconcile_allowlist channel chat_ids label now db).0
      ≡ contains chat_id chat_ids
unfolding reconcile_allowlist is_allowlisted
reconcile_allowlist-is_allowlisted channel chat_ids label now db result h chat_id =
    let kept = update_where (is_dropped channel chat_ids) (disable now) db.allowlist in
    elim (Bool-cases (channel == "" || contains "" chat_ids)) [
      | inl e ↦ let gone = rw e at h in absurd (cc)
      | inr e ↦ rw e (
          enabled-contains channel label now chat_id chat_ids
            (enroll_all channel chat_ids label now kept)
            (enroll_all-kept channel label now chat_ids chat_ids kept (contains_self chat_ids)
              (dropped-disabled channel label now chat_ids db.allowlist))
            (enroll_all-enrolls channel label now chat_id chat_ids kept))
    ]
