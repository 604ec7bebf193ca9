-- ===== src/Policy/Engine/Paused.antt =====
-- A pause stops every action with side effects.
use lemonbot.Prelude.{
  String, ◌≡◌, ◌⊎◌, refl, ap, Bool, true, Option, none, some, List, [], ◌∷◌, arith, ◌==◌, string_eq,
  eq_iff, Bool-cases, inl, inr,
}
use mathlib.Core.Option.{some-injective}
use lemonbot.Domain.{Time, ProposedAction, PolicyDecision, policy_decision_eq}
use lemonbot.Sql.{exists_where, update_where, upsert, exists_where-append}
use lemonbot.Storage.Tables.{Database}
use lemonbot.Storage.RuntimeState.{
  set_paused, is_paused, pauses, pause_key, channel_key, has_runtime_key,
}
use lemonbot.Policy.Config.{Texts, PolicyConfig}
use lemonbot.Policy.Quiet.{Zone}
use lemonbot.Policy.Engine.{decision_on}
use lemonbot.Policy.Engine.Gates.{decision_on-PassesGates}

exists_where-update :
    {A : Type 0} (P test : A → Bool) (set : A → A) (xs : List A)
    → ((r : A) → test r ≡ true → P (set r) ≡ true)
    → exists_where test xs ≡ true
    → exists_where P (update_where test set xs) ≡ true
unfolding exists_where update_where
exists_where-update P test set [] h e = absurd (cc)
exists_where-update P test set (x ∷ xs) h e = elim (Bool-cases (test x)) [
  | inl t ↦ rw t (rw (h x t) refl)
  | inr t ↦ rw t (ground (arith, exists_where-update P test set xs h (rw t at e)))
]

exists_where-upsert :
    {A : Type 0} (P test : A → Bool) (set : A → A) (row : A) (xs : List A)
    → P row ≡ true
    → ((r : A) → test r ≡ true → P (set r) ≡ true)
    → exists_where P (upsert test set row xs) ≡ true
unfolding upsert
exists_where-upsert P test set row xs p h = elim (Bool-cases (exists_where test xs)) [
  | inl e ↦ rw e (exists_where-update P test set xs h e)
  | inr e ↦ rw e (exists_where-append P xs row p)
]

-- A pause holds for a channel if it is global or the channel's own.
abbrev pub Covers : Option String → Option String → Type 0
Covers pause channel = (pause ≡ none) ⊎ (pause ≡ channel)

is_paused-set_paused :
    (pause channel : Option String) (t : Time) (db : Database)
    → Covers pause channel
    → is_paused channel (set_paused pause true t db) ≡ true
unfolding is_paused set_paused
is_paused-set_paused none channel t db c =
    exists_where-upsert (pauses channel) (has_runtime_key (pause_key none)) _ _ db.runtime_state
      refl (λ r h. ground arith)
is_paused-set_paused (some p) none t db c = elim c [ inl e ↦ absurd (cc) | inr e ↦ absurd (cc) ]
is_paused-set_paused (some p) (some q) t db c = elim c [
  | inl e ↦ absurd (cc)
  | inr e ↦
      let key : (channel_key p == channel_key q) ≡ true =
        (eq_iff (channel_key p) (channel_key q)).1 (ap channel_key (some-injective p q e)) in
      exists_where-upsert (pauses (some q)) (has_runtime_key (pause_key (some p))) _ _
        db.runtime_state (ground arith) (λ r h. ground arith)
]

-- After a pause, every action with side effects on a channel that the pause Covers is denied,
-- whatever the action, the configuration and the time are.
pub decision_on-set_paused :
    (texts : Texts) (zone : Zone) (config : PolicyConfig) (pause : Option String) (t now : Time)
    (db : Database) (action : ProposedAction)
    → Covers pause action.channel
    → action.side_effect ≡ true
    → (decision_on texts zone config now (set_paused pause true t db) action).decision
      ≡ PolicyDecision.deny
decision_on-set_paused texts zone config pause t now db action c s =
    let db' = set_paused pause true t db in
    let paused = is_paused-set_paused pause action.channel t db c in
    elim (Bool-cases
      ((decision_on texts zone config now db' action).decision == PolicyDecision.deny)) [
        | inl e ↦ ground arith
        | inr e ↦
            let gates = decision_on-PassesGates texts zone config now db' action (ground arith) in
            let open_gate = gates.not_paused in absurd (ground arith)
      ]
