-- ===== src/Policy/Engine/Gates.antt =====
-- What stands between a proposed action and the decision AUTO.
use lemonbot.Prelude.{
  String, ◌≡◌, refl, eq_iff, ◌≢◌, ◌⊎◌, true, false, ◌&&◌, Option, none, some, arith, string_eq,
}
use lemonbot.Domain.{Time, ProposedAction, PolicyDecision}
use lemonbot.Storage.Tables.{Database}
use lemonbot.Storage.Allowlist.{is_allowlisted}
use lemonbot.Storage.RuntimeState.{is_paused}
use lemonbot.Policy.Config.{Texts, PolicyConfig}
use lemonbot.Policy.Quiet.{Zone}
use lemonbot.Policy.Engine.{
  decision_on, evaluate_communication, hard_denied, contains_secret, differs, evaluate_destination,
  kind_of,
}

module _ (texts : Texts) (zone : Zone) (config : PolicyConfig) (now : Time) (db : Database) where
  -- The gates that every action passes on its way to anything but a denial.
  pub record PassesGates (action : ProposedAction) : Type 0 where
    pub not_forbidden : hard_denied (kind_of texts action) ≡ false
    pub on_channel : differs action.channel action.bound_channel ≡ false
    pub in_chat : differs action.chat_id action.bound_chat_id ≡ false
    pub not_secret : contains_secret texts action ≡ false
    pub not_paused : (action.side_effect && is_paused action.channel db) ≡ false

  -- An action that is not denied is on no list of forbidden actions, goes to the conversation that
  -- it is bound to, carries no SECRET data under a kind that the secret check knows, and, if it has
  -- side effects, meets no pause. This holds for AUTO, APPROVE_ONCE and ENROLL alike.
  pub decision_on-PassesGates :
      (action : ProposedAction)
      → (decision_on texts zone config now db action).decision ≢ PolicyDecision.deny
      → PassesGates action
  unfolding decision_on
  decision_on-PassesGates action h = ground arith

  pub destination-allowlisted :
      (action : ProposedAction) (kind : String) (channel chat_id : Option String)
      → (evaluate_destination texts zone config now db action kind channel chat_id).decision
        ≡ PolicyDecision.auto
      → (c : String) × (d : String) × (channel ≡ some c)
        × (chat_id ≡ some d)
        × (is_allowlisted c d db ≡ true)
  destination-allowlisted action kind none d h = cc
  destination-allowlisted action kind (some c) none h = cc
  destination-allowlisted action kind (some c) (some d) h = (c, d, refl, refl, ground arith)

  -- A reply or a proactive message that is AUTO has a channel and a chat, and the chat is on the
  -- allowlist.
  pub communication-allowlisted :
      (action : ProposedAction)
      → (kind_of texts action ≡ "reply") ⊎ (kind_of texts action ≡ "proactive_message")
      → (decision_on texts zone config now db action).decision ≡ PolicyDecision.auto
      → (c : String) × (d : String) × (action.channel ≡ some c)
        × (action.chat_id ≡ some d)
        × (is_allowlisted c d db ≡ true)
  unfolding decision_on evaluate_communication
  communication-allowlisted action k h =
      destination-allowlisted action (kind_of texts action) action.channel action.chat_id (
        ground (
          arith,
          eq_iff (kind_of texts action) "reply",
          eq_iff (kind_of texts action) "proactive_message",
        ))
