-- ===== src/Conversation/Moderation/Policy/Override.antt =====
-- What a policy override that was set has gone through, and what it changes.
use zvonilka.Base.{
  ◌≡◌, Text, Time, trim_space, or_now, Bool, true, ok, arith, Result-cases, inl, inr, if◌then◌else◌,
}
use zvonilka.Conversation.Models.{
  Conversation, ConversationMember, ModerationPolicy, ModerationAction,
}
use zvonilka.Conversation.Params.{SetModerationPolicyParams}
use zvonilka.Conversation.Store.{
  MemoryStore, memory_reads, save_policy, policy_by_target, policy_by-SameRules,
  policy_by-save_policy, IsValidPolicy, save_policy-IsValidPolicy,
}
use zvonilka.Conversation.Moderation.Target.{
  lookup_moderation_conversation, existing_moderation_policy, can_moderate,
}
use zvonilka.Conversation.Moderation.Audit.{Draws, log_drawn}
use zvonilka.Conversation.Moderation.Audit.Trail.{Logs, log_drawn-Logs}
use zvonilka.Conversation.Moderation.Policy.{
  admit, store_override, set_moderation_policy, next_policy, policy_action,
}

-- The reads that a write of an override begins with, all of them successful.
pub record Admitted (s : MemoryStore) (params : SetModerationPolicyParams) : Type 0 where
  pub conversation : Conversation
  pub inherited : ModerationPolicy
  pub existing : Bool
  pub member : ConversationMember
  pub looked_up :
      lookup_moderation_conversation
        (memory_reads s)
        params.target_kind
        (trim_space params.target_id)
      ≡ ok conversation
  pub resolved :
      existing_moderation_policy
        (memory_reads s)
        conversation
        params.target_kind
        (trim_space params.target_id)
      ≡ ok (inherited, existing)
  pub is_member :
      (memory_reads s).member_row conversation.id (trim_space params.actor_account_id) ≡ ok member
  pub manages : can_moderate member (trim_space params.actor_account_id) ≡ true

admit-Admitted :
    (s : MemoryStore) (params : SetModerationPolicyParams) (conversation : Conversation)
    (inherited : ModerationPolicy) (existing : Bool)
    → admit
        (memory_reads s)
        params.target_kind
        (trim_space params.target_id)
        (trim_space params.actor_account_id)
      ≡ ok (conversation, inherited, existing)
    → (a : Admitted s params) × (a.inherited ≡ inherited) × (a.existing ≡ existing)
unfolding admit
admit-Admitted s params given policy found h =
    let target_id = trim_space params.target_id in
    let actor = trim_space params.actor_account_id in
    let reads = memory_reads s in
    elim (Result-cases (lookup_moderation_conversation reads params.target_kind target_id)) [
      | inr (x, e) ↦ ground arith
      | inl (conversation, e) ↦
          elim (Result-cases
            (existing_moderation_policy reads conversation params.target_kind target_id)) [
              | inr (x, f) ↦ ground arith
              | inl ((inherited, existing), f) ↦
                  elim (Result-cases (reads.member_row conversation.id actor)) [
                    | inr (x, g) ↦ ground arith
                    | inl (member, g) ↦ (
                      record {
                        conversation = conversation;
                        inherited = inherited;
                        existing = existing;
                        member = member;
                        looked_up = e;
                        resolved = f;
                        is_member = g;
                        manages = ground arith;
                      },
                      ground arith,
                      ground arith,
                    )
                  ]
            ]
    ]

-- What the two writes leave: the store finds the saved row, which is valid.
store_override-saved :
    (s t : MemoryStore) (clock : Time) (draws : Draws) (conversation_id : Text)
    (policy saved : ModerationPolicy) (action : Text → ModerationAction)
    → store_override s clock draws conversation_id policy action ≡ ok (saved, t)
    → (policy_by_target t policy.target_kind policy.target_id ≡ ok saved)
      × IsValidPolicy saved
      × (saved.created_at ≡ policy.created_at)
unfolding store_override
store_override-saved s t clock draws conversation_id policy saved action h =
    elim (Result-cases (save_policy s policy)) [
      | inr (x, r) ↦ ground arith
      | inl ((row, m), r) ↦ elim (Result-cases (log_drawn m clock draws conversation_id action)) [
        | inr (x, q) ↦ ground arith
        | inl (((logged, event), n), q) ↦
            let logs : Logs m t logged =
              log_drawn-Logs m t clock draws conversation_id action logged event (ground arith) in
            let stored : save_policy s policy ≡ ok (saved, m) = ground arith in
            let valid = save_policy-IsValidPolicy s m policy saved stored in
            (
              rw (policy_by-SameRules m t policy.target_kind policy.target_id logs.rules)
                  (policy_by-save_policy s m policy saved stored),
              valid.0,
              valid.1,
            )
      ]
    ]

-- An override that was set: its author is a member of the conversation of the target and manages it;
-- the store finds the saved row for the target afterwards; the row is valid; and a row that replaces
-- another keeps the time at which that was created.
pub set_moderation_policy-Admitted :
    (s t : MemoryStore) (clock : Time) (draws : Draws) (params : SetModerationPolicyParams)
    (saved : ModerationPolicy)
    → set_moderation_policy s clock draws params ≡ ok (saved, t)
    → (a : Admitted s params) × (policy_by_target t params.target_kind (trim_space params.target_id)
        ≡ ok saved)
      × IsValidPolicy saved
      × (saved.created_at
          ≡ (if a.existing then a.inherited.created_at else or_now params.created_at clock))
unfolding set_moderation_policy next_policy
set_moderation_policy-Admitted s t clock draws params saved h =
    let target_id = trim_space params.target_id in
    let actor = trim_space params.actor_account_id in
    let now = or_now params.created_at clock in
    elim (Result-cases (admit (memory_reads s) params.target_kind target_id actor)) [
      | inr (x, e) ↦ ground arith
      | inl ((conversation, inherited, existing), e) ↦
          let (a, same, same_row) = admit-Admitted s params conversation inherited existing e in
          let (found, valid, created) =
            store_override-saved s t clock draws conversation.id
              (next_policy params target_id now inherited existing) saved
              (policy_action params target_id actor now) (ground arith) in
          (a, found, valid, rw (same, same_row) created)
    ]
