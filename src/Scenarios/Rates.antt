-- ===== src/Scenarios/Rates.antt =====
-- Runs of writes under slow mode and an anti-spam window, and backoffs.
use Prim.Native.Nat.{min}
use zvonilka.Base.{
  ◌+◌, ◌*◌, ◌^◌, ◌≤◌, codes, Time, pos, pos_part, false, true, List, [], ◌∷◌, ◌≡◌, refl, arith, map,
}
use zvonilka.Conversation.Models.{
  ModerationPolicy, ModerationRateState, ModerationTargetKind, no_rate_state,
}
use zvonilka.Conversation.Moderation.RateLimit.{slow_mode, anti_spam, current_window, count_write}
use zvonilka.Conversation.Moderation.RateLimit.Window.{
  accepted, in_window, in_window-accepted-le, try_write,
}
use zvonilka.Conversation.Moderation.RateLimit.Spacing.{accepted-Spaced, Spaced}
use zvonilka.Notification.Models.{default_settings, normalize_settings}
use zvonilka.Notification.Backoff.{retry_backoff}
use zvonilka.Notification.Backoff.Exact.{retry_backoff-min}

-- Two writes a window of 100, at least 10 apart.
abbrev policy : ModerationPolicy
policy = record {
  target_kind = ModerationTargetKind.conversation;
  target_id = codes "room";
  only_admins_can_write = false;
  only_admins_can_add_members = false;
  allow_reactions = true;
  allow_forwards = true;
  allow_threads = true;
  require_encrypted_messages = false;
  require_trusted_devices = false;
  require_join_approval = false;
  pinned_messages_only_admins = false;
  slow_mode_interval = pos 10;
  anti_spam_window = pos 100;
  anti_spam_burst_limit = pos 2;
  shadow_mode = false;
  created_at = 1;
  updated_at = 1;
}

abbrev times : List Time
times = 1000 ∷ 1005 ∷ 1010 ∷ 1050 ∷ 1100 ∷ []

-- Of these the second comes too soon and the fourth is one too many.
accepted_times :
    map (λ s. s.last_write_at) (accepted policy no_rate_state times) ≡ 1000 ∷ 1010 ∷ 1100 ∷ []
unfolding accepted try_write slow_mode anti_spam current_window count_write
accepted_times = refl

in_window-accepted-le_example :
    in_window 1000 (accepted policy no_rate_state times) ≤ pos_part policy.anti_spam_burst_limit
in_window-accepted-le_example =
    in_window-accepted-le policy no_rate_state times 1000 (omega arith) (omega arith) (omega arith)
      refl (omega arith, (omega arith, (omega arith, (omega arith, (omega arith, tt)))))

abbrev busy : ModerationRateState
busy = record no_rate_state { last_write_at = 1000; window_started_at = 990; window_count = 2 }

accepted-Spaced_example :
    Spaced (pos_part policy.slow_mode_interval) busy.last_write_at (accepted policy busy times)
accepted-Spaced_example = accepted-Spaced policy busy times (omega arith) (omega arith)

retry_backoff-min_example :
    retry_backoff default_settings (3 + 1)
    ≡ min
        (pos_part (normalize_settings default_settings).retry_max_backoff)
        (pos_part (normalize_settings default_settings).retry_initial_backoff * 2 ^ 3)
retry_backoff-min_example = retry_backoff-min default_settings 3
