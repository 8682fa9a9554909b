-- ===== src/Conversation/Moderation/RateLimit/Decision.antt =====
-- How a check decides: by the restriction in force, then by the role, then by the rate.
use zvonilka.Base.{
  ◌≡◌, Text, Time, trim_space, is_empty, or_now, true, false, ok, err, arith, ◌⊎◌, ◌↔◌,
}
use zvonilka.Conversation.Models.{
  forbidden, ModerationTargetKind, ModerationRestriction, ModerationRestrictionState, refused,
  ModerationDecision,
}
use zvonilka.Conversation.Params.{CheckModerationWriteParams}
use zvonilka.Conversation.Store.{StoreReads, is_unspecified, no_state}
use zvonilka.Conversation.Moderation.Target.{is_manager}
use zvonilka.Conversation.Moderation.RateLimit.{
  is_expired, check_moderation_write, effective_restriction, live_restriction, expire,
  by_restriction, rate_limit, allowed, check_open,
}

pub live_restriction-found :
    (reads : StoreReads) (now : Time) (kind : ModerationTargetKind) (target_id account_id : Text)
    (r : ModerationRestriction)
    → reads.restriction kind target_id account_id ≡ ok r
    → is_expired now r ≡ false
    → live_restriction reads now kind target_id account_id ≡ ok r
unfolding live_restriction expire
live_restriction-found reads now kind target_id account_id r found live = ground arith

pub effective_restriction-own :
    (reads : StoreReads) (now : Time) (kind : ModerationTargetKind) (target_id account_id : Text)
    (r : ModerationRestriction)
    → live_restriction reads now kind target_id account_id ≡ ok r
    → no_state r.state ≡ false
    → effective_restriction reads now kind target_id account_id ≡ ok r
unfolding effective_restriction
effective_restriction-own reads now kind target_id account_id r found set = ground arith

-- The parameters name a scope, a target and a writer.
abbrev pub IsComplete : CheckModerationWriteParams → Type 0
IsComplete params =
    (is_unspecified params.target_kind ≡ false)
    × (is_empty (trim_space params.target_id) ≡ false)
    × (is_empty (trim_space params.actor_account_id) ≡ false)

module _ (reads : StoreReads) (clock : Time) (params : CheckModerationWriteParams) where
  abbrev pub InForce : ModerationRestriction → Type 0
  InForce r =
      effective_restriction reads (or_now params.created_at clock) params.target_kind
        (trim_space params.target_id) (trim_space params.actor_account_id)
      ≡ ok r

  -- A check with complete parameters goes by the state of the restriction in force.
  pub check_moderation_write-by_restriction :
      (r : ModerationRestriction)
      → IsComplete params
      → InForce r
      → check_moderation_write reads clock params
        ≡ by_restriction r.state (check_open reads (or_now params.created_at clock) params)
  unfolding check_moderation_write
  check_moderation_write-by_restriction r complete force = ground arith

  -- Complete parameters, and a restriction `r` in force: the check allows the write exactly when
  -- `r` is a shadow ban, which hides the write; or there is none, and the writer may write under an
  -- admins-only policy if that is set, and the rate limits pass, and then nothing is hidden.
  pub check_moderation_write-allowed_iff :
      (r : ModerationRestriction) (d : ModerationDecision)
      → IsComplete params
      → InForce r
      → (check_moderation_write reads clock params ≡ ok d) ↔ (
          ((r.state ≡ ModerationRestrictionState.shadowed)
            × (d ≡ record allowed { shadow_hidden = true }))
          ⊎ ((r.state ≡ ModerationRestrictionState.unspecified)
              × (d ≡ allowed)
              × ((params.base_policy.only_admins_can_write ≡ false)
                  ⊎ (is_manager params.actor_role ≡ true))
              × (rate_limit reads
                    (or_now params.created_at clock)
                    params.base_policy
                    params.target_kind
                    (trim_space params.target_id)
                    (trim_space params.actor_account_id)
                  ≡ ok tt)))
  unfolding by_restriction check_open
  check_moderation_write-allowed_iff r d complete force =
      rw (check_moderation_write-by_restriction r complete force) (by_state r.state)
    where
      by_state :
          (state : ModerationRestrictionState)
          → (by_restriction state (check_open reads (or_now params.created_at clock) params) ≡ ok d)
            ↔ (((state ≡ ModerationRestrictionState.shadowed)
                  × (d ≡ record allowed { shadow_hidden = true }))
                ⊎ ((state ≡ ModerationRestrictionState.unspecified)
                    × (d ≡ allowed)
                    × ((params.base_policy.only_admins_can_write ≡ false)
                        ⊎ (is_manager params.actor_role ≡ true))
                    × (rate_limit reads
                          (or_now params.created_at clock)
                          params.base_policy
                          params.target_kind
                          (trim_space params.target_id)
                          (trim_space params.actor_account_id)
                        ≡ ok tt)))
      by_state ModerationRestrictionState.banned = (λ h. ground arith, λ h. ground arith)
      by_state ModerationRestrictionState.muted = (λ h. ground arith, λ h. ground arith)
      by_state ModerationRestrictionState.shadowed = (λ h. ground arith, λ h. ground arith)
      by_state ModerationRestrictionState.unspecified = (λ h. ground arith, λ h. ground arith)

  -- A ban or a mute in force refuses the write.
  pub check_moderation_write-refused :
      (r : ModerationRestriction)
      → IsComplete params
      → InForce r
      → (r.state ≡ ModerationRestrictionState.banned) ⊎ (r.state ≡ ModerationRestrictionState.muted)
      → check_moderation_write reads clock params ≡ err (refused, forbidden)
  unfolding by_restriction
  check_moderation_write-refused r complete force state =
      rw (check_moderation_write-by_restriction r complete force) (ground arith)
