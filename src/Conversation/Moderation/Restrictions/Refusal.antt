-- ===== src/Conversation/Moderation/Restrictions/Refusal.antt =====
-- What a restriction does to the writes of its account.
use zvonilka.Base.{◌≡◌, Time, trim_space, or_now, false, ok, err, arith, ◌⊎◌, is_empty}
use zvonilka.Conversation.Models.{
  forbidden, ModerationRestriction, ModerationRestrictionState, refused,
}
use zvonilka.Conversation.Params.{ApplyModerationRestrictionParams, CheckModerationWriteParams}
use zvonilka.Conversation.Store.{MemoryStore, memory_reads, save_restriction, restriction_by}
use zvonilka.Conversation.Moderation.RateLimit.Decision.{
  check_moderation_write-refused, effective_restriction-own, live_restriction-found,
}
use zvonilka.Conversation.Moderation.RateLimit.{is_expired, check_moderation_write}
use zvonilka.Conversation.Moderation.Audit.{Draws}
use zvonilka.Conversation.Moderation.Restrictions.{
  apply_moderation_restriction, trimmed_apply, next_restriction, is_expired, is_unspecified,
  no_state,
}
use zvonilka.Conversation.Moderation.Restrictions.Enforcement.{apply-Applied, restriction_by-apply}

apply_valid :
    (s t : MemoryStore) (clock : Time) (draws : Draws) (given : ApplyModerationRestrictionParams)
    (saved : ModerationRestriction)
    → apply_moderation_restriction s clock draws given ≡ ok (saved, t)
    → (is_unspecified given.target_kind ≡ false)
      × (is_empty (trim_space given.target_id) ≡ false)
      × (is_empty (trim_space given.target_account_id) ≡ false)
      × (no_state given.state ≡ false)
unfolding apply_moderation_restriction
apply_valid s t clock draws given saved h = ground arith

saved_state :
    (s t : MemoryStore) (given saved : ModerationRestriction)
    → save_restriction s given ≡ ok (saved, t)
    → saved.state ≡ given.state
unfolding save_restriction
saved_state s t given saved h = ground arith

-- After a ban or a mute that was applied: until it expires, every check of a write of its account
-- in its target, whatever the policy and the writer's role, is refused as forbidden.
pub check-apply-refused :
    (s t : MemoryStore) (clock : Time) (draws : Draws) (given : ApplyModerationRestrictionParams)
    (saved : ModerationRestriction) (later : Time) (check : CheckModerationWriteParams)
    → apply_moderation_restriction s clock draws given ≡ ok (saved, t)
    → (given.state ≡ ModerationRestrictionState.banned)
      ⊎ (given.state ≡ ModerationRestrictionState.muted)
    → check.target_kind ≡ given.target_kind
    → check.target_id ≡ given.target_id
    → check.actor_account_id ≡ given.target_account_id
    → is_expired (or_now check.created_at later) saved ≡ false
    → check_moderation_write (memory_reads t) later check ≡ err (refused, forbidden)
unfolding memory_reads
check-apply-refused s t clock draws given saved later check h state kind target account live =
    let valid = apply_valid s t clock draws given saved h in
    let applied = apply-Applied s t clock draws given saved h in
    let same_state : saved.state ≡ given.state =
      saved_state s applied.middle (next_restriction (trimmed_apply given clock)) saved
        applied.stored in
    let now = or_now check.created_at later in
    let found : restriction_by t check.target_kind (trim_space check.target_id)
          (trim_space check.actor_account_id)
        ≡ ok saved =
      rw (kind, target, account) (restriction_by-apply s t clock draws given saved h) in
    check_moderation_write-refused (memory_reads t) later check saved
      (rw (kind, target, account) (valid.0, valid.1, valid.2))
      (effective_restriction-own (memory_reads t) now check.target_kind (trim_space check.target_id)
        (trim_space check.actor_account_id) saved
        (live_restriction-found (memory_reads t) now check.target_kind (trim_space check.target_id)
          (trim_space check.actor_account_id) saved found live)
        (ground arith))
      (rw same_state state)
