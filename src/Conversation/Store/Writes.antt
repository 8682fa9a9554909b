-- ===== src/Conversation/Store/Writes.antt =====
-- internal/domain/conversation/teststore: the writes that moderation makes. A refused write leaves
-- the store as it was, so the result holds the new store only where the write is done.
use zvonilka.Base.{
  ◌+◌, ◌%◌, ◌^◌, Text, is_empty, trim_space, Bool, not, ◌&&◌, ◌||◌, if◌then◌else◌, none, some, [],
  ◌∷◌, ◌++◌, Result, ok, err, before, is_zero, eqb_ℤ, pos, refuse_if, ◌>>◌, true, false,
}
use zvonilka.Base.Dict
use zvonilka.Conversation.Models.{
  Error, conflict, invalid_input, ModerationTargetKind, ModerationPolicy, ModerationReport,
  ModerationReportStatus, ModerationAction, ModerationActionType, ModerationRestriction,
  ModerationRestrictionState, ModerationRateState,
}
use zvonilka.Conversation.Events.{EventEnvelope}
use zvonilka.Conversation.Store.Rows.{MemoryStore, is_unspecified, policy_key, restriction_key}

abbrev pub xor : Bool → Bool → Bool
xor a b = if a then not b else b

abbrev pub no_type : ModerationActionType → Bool
no_type ModerationActionType.unspecified = true
no_type _ = false

abbrev pub no_state : ModerationRestrictionState → Bool
no_state ModerationRestrictionState.unspecified = true
no_state _ = false

-- The row as it is stored, its texts trimmed, and the store with it.
abbrev pub Saved : Type 0 → Type 0
Saved A = Result Error (A × MemoryStore)

unfoldable pub save_policy : MemoryStore → ModerationPolicy → Saved ModerationPolicy
save_policy s given = do
  let policy = record given { target_id = trim_space given.target_id }
  refuse_if (is_unspecified policy.target_kind || is_empty policy.target_id) invalid_input
  refuse_if
      (is_zero policy.created_at
        || is_zero policy.updated_at
        || before policy.updated_at policy.created_at)
      invalid_input
  refuse_if
      (xor (eqb_ℤ policy.anti_spam_window (pos 0)) (eqb_ℤ policy.anti_spam_burst_limit (pos 0)))
      invalid_input
  let key = policy_key policy.target_kind policy.target_id
  ok (
    policy,
    record s { moderation_policies_by_key = Dict.put s.moderation_policies_by_key key policy },
  )

abbrev pub is_pending : ModerationReportStatus → Bool
is_pending ModerationReportStatus.pending = true
is_pending _ = false

abbrev pub no_status : ModerationReportStatus → Bool
no_status ModerationReportStatus.unspecified = true
no_status _ = false

-- The reviewer and the time of the review go with the status.
abbrev pub is_reviewed_well : ModerationReport → Bool
is_reviewed_well r =
    if is_pending r.status
    then is_empty r.reviewed_by_account_id && is_zero r.reviewed_at
    else not (is_empty r.reviewed_by_account_id || is_zero r.reviewed_at)

unfoldable pub save_report : MemoryStore → ModerationReport → Saved ModerationReport
save_report s given = do
  let report = record given {
    id = trim_space given.id;
    target_id = trim_space given.target_id;
    reporter_account_id = trim_space given.reporter_account_id;
    target_account_id = trim_space given.target_account_id;
    reason = trim_space given.reason;
    details = trim_space given.details;
    resolution = trim_space given.resolution;
    reviewed_by_account_id = trim_space given.reviewed_by_account_id;
  }
  refuse_if
      (is_empty report.id
        || is_unspecified report.target_kind
        || is_empty report.target_id
        || is_empty report.reporter_account_id
        || is_empty report.reason)
      invalid_input
  refuse_if (no_status report.status) invalid_input
  refuse_if
      (is_zero report.created_at
        || is_zero report.updated_at
        || before report.updated_at report.created_at)
      invalid_input
  refuse_if (not (is_reviewed_well report)) invalid_input
  ok (
    report,
    record s { moderation_reports_by_id = Dict.put s.moderation_reports_by_id report.id report },
  )

unfoldable pub save_action : MemoryStore → ModerationAction → Saved ModerationAction
save_action s given = do
  let action = record given {
    id = trim_space given.id;
    target_id = trim_space given.target_id;
    actor_account_id = trim_space given.actor_account_id;
    target_account_id = trim_space given.target_account_id;
    reason = trim_space given.reason;
  }
  refuse_if
      (is_empty action.id
        || is_unspecified action.target_kind
        || is_empty action.target_id
        || is_empty action.actor_account_id
        || no_type action.type)
      invalid_input
  refuse_if (is_zero action.created_at) invalid_input
  elim (Dict.get s.moderation_actions_by_id action.id) [
    | some taken ↦ err conflict
    | none ↦ ok (
      action,
      record s { moderation_actions_by_id = Dict.put s.moderation_actions_by_id action.id action },
    )
  ]

unfoldable pub save_restriction : MemoryStore → ModerationRestriction → Saved ModerationRestriction
save_restriction s given = do
  let restriction = record given {
    target_id = trim_space given.target_id;
    account_id = trim_space given.account_id;
    applied_by_account_id = trim_space given.applied_by_account_id;
    reason = trim_space given.reason;
  }
  refuse_if
      (is_unspecified restriction.target_kind
        || is_empty restriction.target_id
        || is_empty restriction.account_id
        || no_state restriction.state)
      invalid_input
  refuse_if
      (is_zero restriction.created_at
        || is_zero restriction.updated_at
        || before restriction.updated_at restriction.created_at)
      invalid_input
  refuse_if
      (not (is_zero restriction.expires_at) && before restriction.expires_at restriction.created_at)
      invalid_input
  let key = restriction_key restriction.target_kind restriction.target_id restriction.account_id
  ok (
    restriction,
    record s { moderation_restrictions = Dict.put s.moderation_restrictions key restriction },
  )

unfoldable pub delete_restriction :
    MemoryStore → ModerationTargetKind → Text → Text → Result Error MemoryStore
delete_restriction s kind target_id account_id = do
  refuse_if
      (is_unspecified kind || is_empty (trim_space target_id) || is_empty (trim_space account_id))
      invalid_input
  let key = restriction_key kind (trim_space target_id) (trim_space account_id)
  ok (record s { moderation_restrictions = Dict.remove s.moderation_restrictions key })

unfoldable pub save_rate_state : MemoryStore → ModerationRateState → Saved ModerationRateState
save_rate_state s given = do
  let state = record given {
    target_id = trim_space given.target_id;
    account_id = trim_space given.account_id;
  }
  refuse_if
      (is_unspecified state.target_kind || is_empty state.target_id || is_empty state.account_id)
      invalid_input
  refuse_if (is_zero state.updated_at) invalid_input
  let key = restriction_key state.target_kind state.target_id state.account_id
  ok (state, record s { moderation_rate_states = Dict.put s.moderation_rate_states key state })

-- An event whose id is known is returned as it was stored. The payload check is for message events
-- alone, which moderation does not write.
unfoldable pub save_event : MemoryStore → EventEnvelope → Saved EventEnvelope
save_event s given = do
  let event = record given {
    event_id = trim_space given.event_id;
    conversation_id = trim_space given.conversation_id;
    actor_account_id = trim_space given.actor_account_id;
  }
  refuse_if
      (is_empty event.event_id || is_empty event.conversation_id || is_empty event.actor_account_id)
      invalid_input
  elim (Dict.get s.events_by_id event.event_id) [
    | some existing ↦ ok (existing, s)
    | none ↦
        let sequence = (s.next_sequence + 1) % 2 ^ 64 in
        let numbered = record event { sequence = sequence } in
        ok (
          numbered,
          record s {
            next_sequence = sequence;
            events_by_id = Dict.put s.events_by_id event.event_id numbered;
            event_order = s.event_order ++ event.event_id ∷ [];
          },
        )
  ]
