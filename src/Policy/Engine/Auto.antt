-- ===== src/Policy/Engine/Auto.antt =====
-- What makes a reply or a proactive message AUTO.
use lemonbot.Prelude.{
  ℕ, String, ◌≡◌, refl, eq_iff, ◌≢◌, ◌<◌, ◌⊎◌, ◌↔◌, ◌-◌, ◌*◌, Bool, true, false, ◌&&◌, ◌||◌, Option,
  none, some, arith, string_eq, ◌==◌, inl, inr,
}
use lemonbot.Domain.{Time, ProposedAction, PolicyDecision}
use lemonbot.Storage.Tables.{Database}
use lemonbot.Storage.Allowlist.{is_allowlisted}
use lemonbot.Storage.Outbox.{count_outbound_since}
use lemonbot.Policy.Config.{Texts, PolicyConfig, RateLimitProfile, limits_for, minute, hour, day}
use lemonbot.Policy.Quiet.{Zone, is_quiet}
use lemonbot.Policy.Engine.{
  decision_on, evaluate_communication, evaluate_reply, evaluate_proactive, is_given,
  evaluate_destination, in_conversation, kind_of, message_id,
}
use lemonbot.Policy.Engine.Gates.{PassesGates, decision_on-PassesGates, destination-allowlisted}

module _ (texts : Texts) (zone : Zone) (config : PolicyConfig) (now : Time) (db : Database) where
  -- The windows of a reply, and how many outbound messages each holds.
  abbrev in_window : String → Option String → Option Bool → Option String → Time → ℕ
  in_window channel chat_id proactive excluded duration =
      count_outbound_since (now - duration) channel chat_id proactive excluded db

  pub record WithinQuota (channel chat_id : String) (excluded : Option String)
      (limits : RateLimitProfile) : Type 0 where
    pub ten_minutes :
        limits.reply_per_10_minutes ≢ 0
        → in_window channel (some chat_id) none excluded (10 * minute) < limits.reply_per_10_minutes
    pub hourly :
        limits.reply_per_hour ≢ 0
        → in_window channel (some chat_id) none excluded hour < limits.reply_per_hour
    pub daily :
        limits.reply_per_day ≢ 0
        → in_window channel (some chat_id) none excluded day < limits.reply_per_day
    pub channel_daily : in_window channel none none excluded day < limits.global_per_day

  evaluate_reply_iff :
      (channel chat_id : String) (excluded : Option String) (limits : RateLimitProfile)
      → ((evaluate_reply texts zone config now db channel chat_id excluded limits).decision
          ≡ PolicyDecision.auto)
        ↔ WithinQuota channel chat_id excluded limits
  unfolding evaluate_reply
  evaluate_reply_iff channel chat_id excluded limits = (λ h. ground arith, λ h. ground arith)

  pub record MayInitiate (channel chat_id : String) (excluded : Option String)
      (reason_event_id : Option String) (limits : RateLimitProfile) : Type 0 where
    pub enabled : limits.proactive_enabled ≡ true
    pub reason : is_given reason_event_id ≡ true
    pub awake : is_quiet config (zone.local now) ≡ false
    pub rested :
        in_window channel
          (some chat_id)
          (some true)
          excluded
          (limits.proactive_cooldown_hours * hour)
        ≡ 0
    pub chat_daily :
        in_window channel (some chat_id) (some true) excluded day < limits.proactive_per_day
    pub channel_daily :
        in_window channel none (some true) excluded day < limits.proactive_global_per_day

  evaluate_proactive_iff :
      (channel chat_id : String) (excluded reason : Option String) (limits : RateLimitProfile)
      → ((evaluate_proactive texts zone config now db channel chat_id excluded reason
            limits).decision
          ≡ PolicyDecision.auto)
        ↔ MayInitiate channel chat_id excluded reason limits
  unfolding evaluate_proactive
  evaluate_proactive_iff channel chat_id excluded reason limits =
      (λ h. ground arith, λ h. ground arith)

  -- Where a communication goes: to a chat that is given and on the allowlist.
  pub record Destination (action : ProposedAction) : Type 0 where
    pub channel : String
    pub chat_id : String
    pub on_channel : action.channel ≡ some channel
    pub in_chat : action.chat_id ≡ some chat_id
    pub allowlisted : is_allowlisted channel chat_id db ≡ true

  -- What lets a reply pass.
  pub record MayReply (action : ProposedAction) : Type 0 where
    pub gates : PassesGates texts zone config now db action
    pub destination : Destination action
    pub lab_awake :
        (destination.channel == "wechat_agent_lab" && is_quiet config (zone.local now)) ≡ false
    pub quota :
        WithinQuota destination.channel destination.chat_id
          (message_id texts action)
          (limits_for texts config destination.channel)

  -- What lets a proactive message pass.
  pub record MayMessage (action : ProposedAction) : Type 0 where
    pub gates : PassesGates texts zone config now db action
    pub destination : Destination action
    pub initiative :
        MayInitiate destination.channel destination.chat_id
          (message_id texts action)
          action.reason_event_id
          (limits_for texts config destination.channel)

  communication-is_destination :
      (action : ProposedAction)
      → (kind_of texts action ≡ "reply") ⊎ (kind_of texts action ≡ "proactive_message")
      → PassesGates texts zone config now db action
      → decision_on texts zone config now db action
        ≡ evaluate_destination texts zone config now db action
            (kind_of texts action)
            action.channel
            action.chat_id
  unfolding decision_on evaluate_communication
  communication-is_destination action k g =
      let kind = kind_of texts action in
      let communicates : (kind == "reply" || kind == "proactive_message") ≡ true =
        ground (arith, eq_iff kind "reply", eq_iff kind "proactive_message") in
      rw (g.not_forbidden, g.on_channel, g.in_chat, g.not_secret, g.not_paused, communicates) refl

  in_conversation-reply :
      (action : ProposedAction) (kind channel chat_id : String)
      → action.proactive ≡ false
      → (kind == "proactive_message") ≡ false
      → ((in_conversation texts zone config now db action kind channel chat_id).decision
          ≡ PolicyDecision.auto)
        ↔ (is_allowlisted channel chat_id db ≡ true)
          × ((channel == "wechat_agent_lab" && is_quiet config (zone.local now)) ≡ false)
          × WithinQuota channel chat_id (message_id texts action) (limits_for texts config channel)
  in_conversation-reply action kind channel chat_id p k =
      let limits = limits_for texts config channel in
      let (to, from) = evaluate_reply_iff channel chat_id (message_id texts action) limits in
      (λ h. (ground arith, ground arith, to (ground arith)), λ h. let a = from h.2 in ground arith)

  in_conversation-proactive :
      (action : ProposedAction) (kind channel chat_id : String)
      → (action.proactive || kind == "proactive_message") ≡ true
      → ((in_conversation texts zone config now db action kind channel chat_id).decision
          ≡ PolicyDecision.auto)
        ↔ (is_allowlisted channel chat_id db ≡ true)
          × MayInitiate channel chat_id
              (message_id texts action)
              action.reason_event_id
              (limits_for texts config channel)
  in_conversation-proactive action kind channel chat_id p =
      let limits = limits_for texts config channel in
      let (to, from) =
        evaluate_proactive_iff channel chat_id (message_id texts action) action.reason_event_id
          limits in
      (
        λ h. (ground arith, to (ground arith)),
        λ h. let a = from h.1 in let awake = h.1.awake in ground arith,
      )

  conversation_of :
      (action : ProposedAction) (kind : String) (d : Destination action)
      → evaluate_destination texts zone config now db action kind action.channel action.chat_id
        ≡ in_conversation texts zone config now db action kind d.channel d.chat_id
  conversation_of action kind d = rw (d.on_channel, d.in_chat) refl

  auto-Destination :
      (action : ProposedAction) (kind : String)
      → (evaluate_destination texts zone config now db action kind action.channel
          action.chat_id).decision
        ≡ PolicyDecision.auto
      → Destination action
  auto-Destination action kind h =
      let (c, d, on_channel, in_chat, allowlisted) =
        destination-allowlisted texts zone config now db action kind action.channel action.chat_id
          h in
      record {
        channel = c;
        chat_id = d;
        on_channel = on_channel;
        in_chat = in_chat;
        allowlisted = allowlisted;
      }

  gates_of :
      (action : ProposedAction)
      → (decision_on texts zone config now db action).decision ≡ PolicyDecision.auto
      → PassesGates texts zone config now db action
  gates_of action h = decision_on-PassesGates texts zone config now db action (rw h (λ e. cc))

  -- An action of the kind "reply" that is not proactive is AUTO exactly when it passes the gates of
  -- every action (no forbidden kind, its own conversation, no secret, no pause), its channel and chat
  -- are given and on the allowlist, it is not for the WeChat lab channel in quiet hours, and each window
  -- of the chat that is on, and the channel's day, has room for one more message.
  pub decision_on-MayReply :
      (action : ProposedAction)
      → kind_of texts action ≡ "reply"
      → action.proactive ≡ false
      → ((decision_on texts zone config now db action).decision ≡ PolicyDecision.auto)
        ↔ MayReply action
  decision_on-MayReply action k p =
      let kind = kind_of texts action in
      let other : (kind == "proactive_message") ≡ false = rw k refl in
      (
        λ h.
            let g = gates_of action h in
            let e = rw (communication-is_destination action (inl k) g) at h in
            let d = auto-Destination action kind e in
            let r =
              (in_conversation-reply action kind d.channel d.chat_id p other).0
                (rw (conversation_of action kind d) at e) in
            record { gates = g; destination = d; lab_awake = r.1; quota = r.2 },
        λ m.
            let d = m.destination in
            rw (communication-is_destination action (inl k) m.gates, conversation_of action kind d)
              ((in_conversation-reply action kind d.channel d.chat_id p other).1
                (d.allowlisted, m.lab_awake, m.quota)),
      )

  initiates :
      (action : ProposedAction)
      → (kind_of texts action ≡ "proactive_message")
        ⊎ ((kind_of texts action ≡ "reply") × (action.proactive ≡ true))
      → (action.proactive || kind_of texts action == "proactive_message") ≡ true
  initiates action (inl k) = ground (arith, eq_iff (kind_of texts action) "proactive_message")
  initiates action (inr k) = rw k.1 refl

  communicates :
      (action : ProposedAction)
      → (kind_of texts action ≡ "proactive_message")
        ⊎ ((kind_of texts action ≡ "reply") × (action.proactive ≡ true))
      → (kind_of texts action ≡ "reply") ⊎ (kind_of texts action ≡ "proactive_message")
  communicates action (inl k) = inr k
  communicates action (inr k) = inl k.0

  -- An action of the kind "proactive_message", or a reply that is proactive, is AUTO exactly when it
  -- passes the gates of every action, its channel and chat are given and on the allowlist, the channel
  -- enables such messages, a reason event is named, it is not quiet, none went to the chat during the
  -- cooldown, and the chat's and the channel's day have room for one more.
  pub decision_on-MayMessage :
      (action : ProposedAction)
      → (kind_of texts action ≡ "proactive_message")
        ⊎ ((kind_of texts action ≡ "reply") × (action.proactive ≡ true))
      → ((decision_on texts zone config now db action).decision ≡ PolicyDecision.auto)
        ↔ MayMessage action
  decision_on-MayMessage action k =
      let kind = kind_of texts action in
      (
        λ h.
            let g = gates_of action h in
            let e = rw (communication-is_destination action (communicates action k) g) at h in
            let d = auto-Destination action kind e in
            let r =
              (in_conversation-proactive action kind d.channel d.chat_id (initiates action k)).0
                (rw (conversation_of action kind d) at e) in
            record { gates = g; destination = d; initiative = r.1 },
        λ m.
            let d = m.destination in
            rw
              (
                communication-is_destination action (communicates action k) m.gates,
                conversation_of action kind d,
              )
              ((in_conversation-proactive action kind d.channel d.chat_id (initiates action k)).1
                (d.allowlisted, m.initiative)),
      )
