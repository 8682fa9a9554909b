-- ===== src/Conversation/Moderation/RateLimit.antt =====
-- internal/domain/conversation/ratelimit.go: who may write, and the state that slow mode and the
-- anti-spam window keep.
pub mod Window
pub mod Spacing
pub mod Retry
pub mod Decision
use zvonilka.Base.{
  ◌+◌, ◌%◌, ◌^◌, Text, trim_space, is_empty, if◌then◌else◌, Bool, true, not, ◌&&◌, ◌||◌, Time,
  Duration, pos, pos_part, before, is_zero, is_positive, time_add, time_sub, leb_ℤ, leb, or_now,
  Result, ok, err, ◌>>=◌, ◌>>◌, refuse_if,
}
use zvonilka.Conversation.Models.{
  Error, invalid_input, forbidden, rate_limited, ModerationTargetKind, ModerationPolicy,
  ModerationRestriction, ModerationRestrictionState, ModerationRateState, ModerationDecision,
  no_restriction, no_rate_state, refused,
}
use zvonilka.Conversation.Params.{CheckModerationWriteParams, RecordModerationWriteParams}
use zvonilka.Conversation.Store.{
  StoreReads, MemoryStore, Saved, is_unspecified, no_state, memory_reads, save_rate_state,
}
use zvonilka.Conversation.Moderation.Target.{split_moderation_key, is_topic, is_manager, or_else}

-- A check returns a decision beside its error.
abbrev pub Fault : Type 0
Fault = ModerationDecision × Error

abbrev pub or_fault {ℓ} : {A : Type ℓ} → Result Error A → Result Fault A
or_fault (ok a) = ok a
or_fault (err e) = err (refused, e)

abbrev pub is_expired : Time → ModerationRestriction → Bool
is_expired now r = not (is_zero r.expires_at) && not (before now r.expires_at)

unfoldable pub expire : Time → ModerationRestriction → ModerationRestriction
expire now r = if is_expired now r then no_restriction else r

unfoldable pub live_restriction :
    StoreReads → Time → ModerationTargetKind → Text → Text → Result Error ModerationRestriction
live_restriction reads now kind target_id account_id = do
  r ← or_else (reads.restriction kind target_id account_id) (ok no_restriction)
  ok (expire now r)

-- A topic without a restriction of its own falls back on its conversation's.
unfoldable pub effective_restriction :
    StoreReads → Time → ModerationTargetKind → Text → Text → Result Error ModerationRestriction
effective_restriction reads now kind target_id account_id = do
  own ← live_restriction reads now kind target_id account_id
  let (conversation_id, topic_id) = split_moderation_key target_id
  if no_state own.state
        && is_topic kind
        && not (is_empty conversation_id)
        && not (is_empty topic_id)
      then live_restriction reads now ModerationTargetKind.conversation conversation_id account_id
      else ok own

abbrev pub limited : Time → Time → Result Fault (Unit {0})
limited next_allowed now =
    err (record refused { retry_after = time_sub next_allowed now }, rate_limited)

unfoldable pub slow_mode : Time → ModerationPolicy → ModerationRateState → Result Fault (Unit {0})
slow_mode now policy state =
    if is_positive policy.slow_mode_interval && not (is_zero state.last_write_at)
    then (let next_allowed = time_add state.last_write_at policy.slow_mode_interval in
        if before now next_allowed then limited next_allowed now else ok tt)
    else ok tt

-- Whether the window is not begun, or over.
abbrev pub window_over : Time → Duration → ModerationRateState → Bool
window_over now window state =
    is_zero state.window_started_at || leb_ℤ window (time_sub now state.window_started_at)

unfoldable pub current_window : Time → Duration → ModerationRateState → ModerationRateState
current_window now window state =
    if window_over now window state
    then record state { window_started_at = now; window_count = 0 }
    else state

unfoldable pub anti_spam : Time → ModerationPolicy → ModerationRateState → Result Fault (Unit {0})
unfolding current_window
anti_spam now policy given =
    if is_positive policy.anti_spam_window && is_positive policy.anti_spam_burst_limit
    then (let state = current_window now policy.anti_spam_window given in
        if leb (pos_part policy.anti_spam_burst_limit) state.window_count
        then limited (time_add state.window_started_at policy.anti_spam_window) now
        else ok tt)
    else ok tt

abbrev pub is_rated : ModerationPolicy → Bool
is_rated policy =
    is_positive policy.slow_mode_interval
    || is_positive policy.anti_spam_window
    || is_positive policy.anti_spam_burst_limit

unfoldable pub rate_limit :
    StoreReads
    → Time
    → ModerationPolicy
    → ModerationTargetKind
    → Text
    → Text
    → Result Fault (Unit {0})
rate_limit reads now policy kind target_id account_id =
    if is_rated policy
    then (do
      state ← or_fault (or_else (reads.rate_state kind target_id account_id) (ok no_rate_state))
      slow_mode now policy state
      anti_spam now policy state)
    else ok tt

abbrev pub allowed : ModerationDecision
allowed = record refused { allowed = true }

-- The `switch` on the restriction's state; `others` is what follows it.
unfoldable pub by_restriction :
    ModerationRestrictionState → Result Fault ModerationDecision → Result Fault ModerationDecision
by_restriction ModerationRestrictionState.banned others = err (refused, forbidden)
by_restriction ModerationRestrictionState.muted others = err (refused, forbidden)
by_restriction ModerationRestrictionState.shadowed others =
    ok (record allowed { shadow_hidden = true })
by_restriction ModerationRestrictionState.unspecified others = others

-- What follows the switch: the role of the writer, then the rate of its writes.
unfoldable pub check_open :
    StoreReads → Time → CheckModerationWriteParams → Result Fault ModerationDecision
check_open reads now params = do
  let policy = params.base_policy
  refuse_if (policy.only_admins_can_write && not (is_manager params.actor_role))
      (refused, forbidden)
  rate_limit reads now policy params.target_kind (trim_space params.target_id)
      (trim_space params.actor_account_id)
  ok allowed

-- `clock` is what `s.currentTime()` returns.
unfoldable pub check_moderation_write :
    StoreReads → Time → CheckModerationWriteParams → Result Fault ModerationDecision
check_moderation_write reads clock params = do
  let target_id = trim_space params.target_id
  let account_id = trim_space params.actor_account_id
  let now = or_now params.created_at clock
  refuse_if (is_unspecified params.target_kind || is_empty target_id || is_empty account_id)
      (refused, invalid_input)
  restriction ← or_fault (effective_restriction reads now params.target_kind target_id account_id)
  by_restriction restriction.state (check_open reads now params)

-- The new rate state of a write at `now`.
unfoldable pub count_write : Time → Duration → ModerationRateState → ModerationRateState
count_write now window given =
    let state = record given { last_write_at = now; updated_at = now } in
    if window_over now window state
    then record state { window_started_at = now; window_count = 1 }
    else record state { window_count = (state.window_count + 1) % 2 ^ 64 }

abbrev pub hour : Duration
hour = pos 3600000000000

unfoldable pub record_moderation_write :
    MemoryStore → Time → RecordModerationWriteParams → Saved ModerationRateState
record_moderation_write s clock params = do
  let target_id = trim_space params.target_id
  let account_id = trim_space params.actor_account_id
  let now = or_now params.created_at clock
  refuse_if (is_unspecified params.target_kind || is_empty target_id || is_empty account_id)
      invalid_input
  found ←
      or_else ((memory_reads s).rate_state params.target_kind target_id account_id)
        (ok no_rate_state)
  let named =
      if is_empty found.target_id
      then record found {
        target_kind = params.target_kind;
        target_id = target_id;
        account_id = account_id;
      }
      else found
  let window = if is_positive params.anti_spam_window then params.anti_spam_window else hour
  save_rate_state s (count_write now window named)
