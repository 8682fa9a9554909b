-- ===== src/Conversation/Moderation/Restrictions/Enforcement.antt =====
-- Who may restrict an account, and what the store holds after it.
use zvonilka.Base.Dict
use zvonilka.Base.{◌≡◌, Text, Time, trim_space, true, ok, err, arith, Result-cases, inl, inr, none}
use zvonilka.Conversation.Models.{
  Conversation, ConversationMember, ModerationTargetKind, ModerationRestriction, ModerationAction,
  not_found,
}
use zvonilka.Conversation.Params.{ApplyModerationRestrictionParams, LiftModerationRestrictionParams}
use zvonilka.Conversation.Store.{
  MemoryStore, memory_reads, save_restriction, restriction_by, restriction_by-SameRules,
  restriction_by-save_restriction, restriction_by-delete_restriction, save_restriction-keeps,
}
use zvonilka.Conversation.Moderation.Target.{lookup_moderation_conversation, can_moderate}
use zvonilka.Conversation.Moderation.Audit.{Draws, log_drawn}
use zvonilka.Conversation.Moderation.Audit.Trail.{Logs, log_drawn-Logs}
use zvonilka.Conversation.Moderation.Restrictions.{
  apply_moderation_restriction, trimmed_apply, next_restriction, authorize, restriction_action,
  lift_moderation_restriction, trimmed_lift, delete_restriction, lift_action,
}

-- The actor is a member of the conversation of the target and manages it.
abbrev pub Authorized : MemoryStore → ModerationTargetKind → Text → Text → Type 0
Authorized s kind target_id actor =
    (conversation : Conversation) × (member : ConversationMember) × (lookup_moderation_conversation
        (memory_reads s) kind target_id
      ≡ ok conversation)
    × ((memory_reads s).member_row conversation.id actor ≡ ok member)
    × (can_moderate member actor ≡ true)

pub authorize-Authorized :
    (s : MemoryStore) (kind : ModerationTargetKind) (target_id actor : Text)
    (conversation : Conversation)
    → authorize (memory_reads s) kind target_id actor ≡ ok conversation
    → Authorized s kind target_id actor
unfolding authorize
authorize-Authorized s kind target_id actor found h =
    elim (Result-cases (lookup_moderation_conversation (memory_reads s) kind target_id)) [
      | inr (x, e) ↦ ground arith
      | inl (conversation, e) ↦
          elim (Result-cases ((memory_reads s).member_row conversation.id actor)) [
            | inr (x, q) ↦ ground arith
            | inl (member, q) ↦ (conversation, member, e, q, ground arith)
          ]
    ]

-- What a restriction that was applied has gone through.
pub record Applied (s t : MemoryStore) (params : ApplyModerationRestrictionParams)
    (saved : ModerationRestriction) : Type 0 where
  pub authorized : Authorized s params.target_kind params.target_id params.actor_account_id
  pub middle : MemoryStore
  pub stored : save_restriction s (next_restriction params) ≡ ok (saved, middle)
  pub action : ModerationAction
  pub logs : Logs middle t action

pub apply-Applied :
    (s t : MemoryStore) (clock : Time) (draws : Draws) (given : ApplyModerationRestrictionParams)
    (saved : ModerationRestriction)
    → apply_moderation_restriction s clock draws given ≡ ok (saved, t)
    → Applied s t (trimmed_apply given clock) saved
unfolding apply_moderation_restriction
apply-Applied s t clock draws given saved h =
    let params = trimmed_apply given clock in
    elim (Result-cases
      (authorize (memory_reads s) params.target_kind params.target_id params.actor_account_id)) [
        | inr (x, e) ↦ ground arith
        | inl (conversation, e) ↦
            elim (Result-cases (save_restriction s (next_restriction params))) [
              | inr (x, r) ↦ ground arith
              | inl ((row, m), r) ↦
                  elim (Result-cases
                    (log_drawn m clock draws conversation.id (restriction_action params))) [
                      | inr (x, q) ↦ ground arith
                      | inl (((action, event), n), q) ↦ record {
                        authorized =
                            authorize-Authorized s params.target_kind params.target_id
                              params.actor_account_id conversation e;
                        middle = m;
                        stored = ground arith;
                        action = action;
                        logs =
                            log_drawn-Logs m t clock draws conversation.id
                              (restriction_action params) action event (ground arith);
                      }
                    ]
            ]
      ]

-- A restriction that was applied is what the store finds for its account afterwards.
pub restriction_by-apply :
    (s t : MemoryStore) (clock : Time) (draws : Draws) (given : ApplyModerationRestrictionParams)
    (saved : ModerationRestriction)
    → apply_moderation_restriction s clock draws given ≡ ok (saved, t)
    → restriction_by t given.target_kind
        (trim_space given.target_id)
        (trim_space given.target_account_id)
      ≡ ok saved
restriction_by-apply s t clock draws given saved h =
    let applied = apply-Applied s t clock draws given saved h in
    rw
      (restriction_by-SameRules applied.middle t given.target_kind (trim_space given.target_id)
        (trim_space given.target_account_id) applied.logs.rules)
      (restriction_by-save_restriction s applied.middle
        (next_restriction (trimmed_apply given clock)) saved applied.stored)

-- Only a member that manages the conversation of the target applies a restriction; the store finds
-- the saved row for its account afterwards; and the audit trail has one more action, under an id that
-- was free, its policies and rate states being as before.
pub apply-Authorized :
    (s t : MemoryStore) (clock : Time) (draws : Draws) (given : ApplyModerationRestrictionParams)
    (saved : ModerationRestriction)
    → apply_moderation_restriction s clock draws given ≡ ok (saved, t)
    → Authorized s given.target_kind
        (trim_space given.target_id)
        (trim_space given.actor_account_id)
      × (restriction_by t given.target_kind
            (trim_space given.target_id)
            (trim_space given.target_account_id)
          ≡ ok saved)
      × ((action : ModerationAction) × (t.moderation_actions_by_id
            ≡ Dict.put s.moderation_actions_by_id action.id action)
          × (Dict.get s.moderation_actions_by_id action.id ≡ none))
      × (t.moderation_policies_by_key ≡ s.moderation_policies_by_key)
      × (t.moderation_rate_states ≡ s.moderation_rate_states)
apply-Authorized s t clock draws given saved h =
    let applied = apply-Applied s t clock draws given saved h in
    let kept =
      save_restriction-keeps s applied.middle (next_restriction (trimmed_apply given clock)) saved
        applied.stored in
    (
      applied.authorized,
      restriction_by-apply s t clock draws given saved h,
      (applied.action, ground arith, ground arith),
      ground arith,
      ground arith,
    )

-- Only a member that manages the conversation of the target lifts a restriction, and the store finds
-- none for its account afterwards.
pub lift-Authorized :
    (s t : MemoryStore) (clock : Time) (draws : Draws) (given : LiftModerationRestrictionParams)
    → lift_moderation_restriction s clock draws given ≡ ok t
    → Authorized s given.target_kind
        (trim_space given.target_id)
        (trim_space given.actor_account_id)
      × (restriction_by t given.target_kind
            (trim_space given.target_id)
            (trim_space given.target_account_id)
          ≡ err not_found)
unfolding lift_moderation_restriction
lift-Authorized s t clock draws given h =
    let params = trimmed_lift given clock in
    elim (Result-cases
      (authorize (memory_reads s) params.target_kind params.target_id params.actor_account_id)) [
        | inr (x, e) ↦ ground arith
        | inl (conversation, e) ↦
            elim (Result-cases
              (delete_restriction s params.target_kind params.target_id params.target_account_id)) [
                | inr (x, r) ↦ ground arith
                | inl (m, r) ↦
                    elim (Result-cases
                      (log_drawn m clock draws conversation.id (lift_action params))) [
                        | inr (x, q) ↦ ground arith
                        | inl (((action, event), n), q) ↦
                            let logs : Logs m t action =
                              log_drawn-Logs m t clock draws conversation.id (lift_action params)
                                action event (ground arith) in
                            (
                              authorize-Authorized s params.target_kind params.target_id
                                  params.actor_account_id conversation e,
                              rw
                                  (restriction_by-SameRules m t params.target_kind params.target_id
                                    params.target_account_id logs.rules)
                                  (restriction_by-delete_restriction s m params.target_kind
                                    params.target_id params.target_account_id r),
                            )
                      ]
              ]
      ]
