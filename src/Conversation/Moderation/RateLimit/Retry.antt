-- ===== src/Conversation/Moderation/RateLimit/Retry.antt =====
-- What a refused writer is told: how long to wait.
use zvonilka.Base.{◌≡◌, Time, is_positive, time_add, ok, err, true, arith}
use zvonilka.Conversation.Models.{
  Error, rate_limited, ModerationPolicy, ModerationRateState, ModerationDecision,
}
use zvonilka.Conversation.Moderation.RateLimit.{slow_mode, anti_spam}

-- A refusal by slow mode is a rate limit with a positive wait, and slow mode refuses the same
-- state no longer once that wait is over.
pub slow_mode-retry :
    (policy : ModerationPolicy) (state : ModerationRateState) (now : Time) (d : ModerationDecision)
    (e : Error)
    → slow_mode now policy state ≡ err (d, e)
    → (e ≡ rate_limited)
      × (is_positive d.retry_after ≡ true)
      × (slow_mode (time_add now d.retry_after) policy state ≡ ok tt)
unfolding slow_mode
slow_mode-retry policy state now d e h = ground arith

-- A refusal by the anti-spam window is a rate limit with a positive wait, and the window refuses
-- the same state no longer once that wait is over.
anti_spam-retry :
    (policy : ModerationPolicy) (state : ModerationRateState) (now : Time) (d : ModerationDecision)
    (e : Error)
    → anti_spam now policy state ≡ err (d, e)
    → (e ≡ rate_limited)
      × (is_positive d.retry_after ≡ true)
      × (anti_spam (time_add now d.retry_after) policy state ≡ ok tt)
unfolding anti_spam
anti_spam-retry policy state now d e h = ground arith
