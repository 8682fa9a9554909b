-- ===== src/Conversation/Store/Frames.antt =====
-- What the writes of the store do to the rows: the row that they save, and the maps that they leave.
use zvonilka.Base.{
  ◌≡◌, Text, trim_space, trim_space-IsTrimmed, ok, arith, err, ◌<◌, ◌≤◌, eqb_ℤ, pos,
}
use zvonilka.Base.Dict.{get-put_self, get-remove_self}
use zvonilka.Conversation.Models.{
  ModerationTargetKind, ModerationPolicy, ModerationAction, ModerationRestriction,
  ModerationRateState, not_found,
}
use zvonilka.Conversation.Events.{EventEnvelope}
use zvonilka.Conversation.Store.Rows.{
  MemoryStore, restriction_key, policy_key, restriction_by, policy_by_target, rate_state_by,
}
use zvonilka.Conversation.Store.Writes.{
  save_policy, save_action, save_restriction, delete_restriction, save_rate_state, save_event,
}

-- Two stores agree on the moderation rows that a check reads.
pub record SameRules (s t : MemoryStore) : Type 0 where
  pub policies : t.moderation_policies_by_key ≡ s.moderation_policies_by_key
  pub restrictions : t.moderation_restrictions ≡ s.moderation_restrictions
  pub reports : t.moderation_reports_by_id ≡ s.moderation_reports_by_id
  pub rate_states : t.moderation_rate_states ≡ s.moderation_rate_states

pub save_action-SameRules :
    (s t : MemoryStore) (given saved : ModerationAction)
    → save_action s given ≡ ok (saved, t)
    → SameRules s t
unfolding save_action
save_action-SameRules s t given saved h = ground arith

pub save_event-SameRules :
    (s t : MemoryStore) (given saved : EventEnvelope)
    → save_event s given ≡ ok (saved, t)
    → SameRules s t
unfolding save_event
save_event-SameRules s t given saved h = ground arith

-- The key trims what it is given.
pub restriction_key-trim :
    (kind : ModerationTargetKind) (target_id account_id : Text)
    → restriction_key kind (trim_space target_id) (trim_space account_id)
      ≡ restriction_key kind target_id account_id
unfolding restriction_key policy_key
restriction_key-trim kind target_id account_id =
    rw (trim_space-IsTrimmed target_id, trim_space-IsTrimmed account_id)

pub policy_key-trim :
    (kind : ModerationTargetKind) (target_id : Text)
    → policy_key kind (trim_space target_id) ≡ policy_key kind target_id
unfolding policy_key
policy_key-trim kind target_id = rw (trim_space-IsTrimmed target_id)

-- A row that was saved is read back under its key.
pub restriction_by-save_restriction :
    (s t : MemoryStore) (given saved : ModerationRestriction)
    → save_restriction s given ≡ ok (saved, t)
    → restriction_by t given.target_kind given.target_id given.account_id ≡ ok saved
unfolding save_restriction restriction_by
restriction_by-save_restriction s t given saved h = ground (
  arith,
  get-put_self s.moderation_restrictions
      (restriction_key given.target_kind (trim_space given.target_id) (trim_space given.account_id))
      saved,
)

pub policy_by-save_policy :
    (s t : MemoryStore) (given saved : ModerationPolicy)
    → save_policy s given ≡ ok (saved, t)
    → policy_by_target t given.target_kind given.target_id ≡ ok saved
unfolding save_policy policy_by_target
policy_by-save_policy s t given saved h = ground (
  arith,
  get-put_self s.moderation_policies_by_key
      (policy_key given.target_kind (trim_space given.target_id)) saved,
)

pub rate_state_by-save_rate_state :
    (s t : MemoryStore) (given saved : ModerationRateState)
    → save_rate_state s given ≡ ok (saved, t)
    → rate_state_by t given.target_kind given.target_id given.account_id ≡ ok saved
unfolding save_rate_state rate_state_by
rate_state_by-save_rate_state s t given saved h = ground (
  arith,
  get-put_self s.moderation_rate_states
      (restriction_key given.target_kind (trim_space given.target_id) (trim_space given.account_id))
      saved,
)

-- A restriction that was deleted is not found.
pub restriction_by-delete_restriction :
    (s t : MemoryStore) (kind : ModerationTargetKind) (target_id account_id : Text)
    → delete_restriction s kind target_id account_id ≡ ok t
    → restriction_by t kind target_id account_id ≡ err not_found
unfolding delete_restriction restriction_by
restriction_by-delete_restriction s t kind target_id account_id h = ground (
  arith,
  get-remove_self s.moderation_restrictions
      (restriction_key kind (trim_space target_id) (trim_space account_id)),
)

-- Reads agree where the rows do.
pub restriction_by-SameRules :
    (s t : MemoryStore) (kind : ModerationTargetKind) (target_id account_id : Text)
    → SameRules s t
    → restriction_by t kind target_id account_id ≡ restriction_by s kind target_id account_id
unfolding restriction_by
restriction_by-SameRules s t kind target_id account_id same = rw same.restrictions

pub policy_by-SameRules :
    (s t : MemoryStore) (kind : ModerationTargetKind) (target_id : Text)
    → SameRules s t
    → policy_by_target t kind target_id ≡ policy_by_target s kind target_id
unfolding policy_by_target
policy_by-SameRules s t kind target_id same = rw same.policies

-- What a write of a restriction leaves as it was.
pub save_restriction-keeps :
    (s t : MemoryStore) (given saved : ModerationRestriction)
    → save_restriction s given ≡ ok (saved, t)
    → (t.moderation_policies_by_key ≡ s.moderation_policies_by_key)
      × (t.moderation_rate_states ≡ s.moderation_rate_states)
      × (t.moderation_actions_by_id ≡ s.moderation_actions_by_id)
unfolding save_restriction
save_restriction-keeps s t given saved h = ground arith

-- A policy that was saved is valid: its times are set and in order, and the anti-spam window and
-- burst limit are set together or not at all.
pub record IsValidPolicy (policy : ModerationPolicy) : Type 0 where
  pub created : 0 < policy.created_at
  pub updated : policy.created_at ≤ policy.updated_at
  pub paired : eqb_ℤ policy.anti_spam_window (pos 0) ≡ eqb_ℤ policy.anti_spam_burst_limit (pos 0)

pub save_policy-IsValidPolicy :
    (s t : MemoryStore) (given saved : ModerationPolicy)
    → save_policy s given ≡ ok (saved, t)
    → IsValidPolicy saved × (saved.created_at ≡ given.created_at)
unfolding save_policy
save_policy-IsValidPolicy s t given saved h = ground arith
