-- ===== src/Domain/States.antt =====
-- domain/models.py: the enumerations, with the `==` that the program compares their values by.
use lemonbot.Prelude.{Bool, true, false, arith, Eq, ◌↔◌, ◌≡◌}

pub data EventKind : Type 0 where
  text image file enter_chat system : EventKind

pub data MessageRole : Type 0 where
  system user assistant tool : MessageRole

pub data DeliveryStatus : Type 0 where
  acknowledged failed unknown : DeliveryStatus

pub data InboxState : Type 0 where
  pending processing completed dead : InboxState

pub data OutboxState : Type 0 where
  pending reserved dispatching acknowledged unknown dead : OutboxState

pub data PolicyDecision : Type 0 where
  auto approve_once enroll deny : PolicyDecision

pub data ApprovalState : Type 0 where
  pending executing approved denied unknown : ApprovalState

abbrev message_role_beq : MessageRole → MessageRole → Bool
message_role_beq MessageRole.system MessageRole.system = true
message_role_beq MessageRole.user MessageRole.user = true
message_role_beq MessageRole.assistant MessageRole.assistant = true
message_role_beq MessageRole.tool MessageRole.tool = true
message_role_beq _ _ = false

pub message_role_beq_iff : (a b : MessageRole) → (message_role_beq a b ≡ true) ↔ (a ≡ b)
message_role_beq_iff MessageRole.system b = ground arith
message_role_beq_iff _ b = ground arith

instance abbrev pub message_role_eq : Eq MessageRole
message_role_eq = record { equals = message_role_beq; equals_iff = message_role_beq_iff }

abbrev inbox_state_beq : InboxState → InboxState → Bool
inbox_state_beq InboxState.pending InboxState.pending = true
inbox_state_beq InboxState.processing InboxState.processing = true
inbox_state_beq InboxState.completed InboxState.completed = true
inbox_state_beq InboxState.dead InboxState.dead = true
inbox_state_beq _ _ = false

pub inbox_state_beq_iff : (a b : InboxState) → (inbox_state_beq a b ≡ true) ↔ (a ≡ b)
inbox_state_beq_iff InboxState.pending b = ground arith
inbox_state_beq_iff _ b = ground arith

instance abbrev pub inbox_state_eq : Eq InboxState
inbox_state_eq = record { equals = inbox_state_beq; equals_iff = inbox_state_beq_iff }

abbrev outbox_state_beq : OutboxState → OutboxState → Bool
outbox_state_beq OutboxState.pending OutboxState.pending = true
outbox_state_beq OutboxState.reserved OutboxState.reserved = true
outbox_state_beq OutboxState.dispatching OutboxState.dispatching = true
outbox_state_beq OutboxState.acknowledged OutboxState.acknowledged = true
outbox_state_beq OutboxState.unknown OutboxState.unknown = true
outbox_state_beq OutboxState.dead OutboxState.dead = true
outbox_state_beq _ _ = false

pub outbox_state_beq_iff : (a b : OutboxState) → (outbox_state_beq a b ≡ true) ↔ (a ≡ b)
outbox_state_beq_iff OutboxState.pending b = ground arith
outbox_state_beq_iff _ b = ground arith

instance abbrev pub outbox_state_eq : Eq OutboxState
outbox_state_eq = record { equals = outbox_state_beq; equals_iff = outbox_state_beq_iff }

abbrev policy_decision_beq : PolicyDecision → PolicyDecision → Bool
policy_decision_beq PolicyDecision.auto PolicyDecision.auto = true
policy_decision_beq PolicyDecision.approve_once PolicyDecision.approve_once = true
policy_decision_beq PolicyDecision.enroll PolicyDecision.enroll = true
policy_decision_beq PolicyDecision.deny PolicyDecision.deny = true
policy_decision_beq _ _ = false

pub policy_decision_beq_iff : (a b : PolicyDecision) → (policy_decision_beq a b ≡ true) ↔ (a ≡ b)
policy_decision_beq_iff PolicyDecision.auto b = ground arith
policy_decision_beq_iff _ b = ground arith

instance abbrev pub policy_decision_eq : Eq PolicyDecision
policy_decision_eq = record { equals = policy_decision_beq; equals_iff = policy_decision_beq_iff }

abbrev approval_state_beq : ApprovalState → ApprovalState → Bool
approval_state_beq ApprovalState.pending ApprovalState.pending = true
approval_state_beq ApprovalState.executing ApprovalState.executing = true
approval_state_beq ApprovalState.approved ApprovalState.approved = true
approval_state_beq ApprovalState.denied ApprovalState.denied = true
approval_state_beq ApprovalState.unknown ApprovalState.unknown = true
approval_state_beq _ _ = false

pub approval_state_beq_iff : (a b : ApprovalState) → (approval_state_beq a b ≡ true) ↔ (a ≡ b)
approval_state_beq_iff ApprovalState.pending b = ground arith
approval_state_beq_iff _ b = ground arith

instance abbrev pub approval_state_eq : Eq ApprovalState
approval_state_eq = record { equals = approval_state_beq; equals_iff = approval_state_beq_iff }
