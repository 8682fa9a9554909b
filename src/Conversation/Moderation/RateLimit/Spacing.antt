-- ===== src/Conversation/Moderation/RateLimit/Spacing.antt =====
-- How the writes that pass lie in time: apart from each other, and inside the windows that they are
-- counted in.
use zvonilka.Base.{
  ℕ, ◌+◌, ◌≤◌, ◌<◌, ◌^◌, ◌≡◌, List, [], ◌∷◌, Time, pos_part, ok, arith, inl, inr, Result-cases,
  Duration, All,
}
use zvonilka.Conversation.Models.{ModerationPolicy, ModerationRateState}
use zvonilka.Conversation.Moderation.RateLimit.{slow_mode, count_write}
use zvonilka.Conversation.Moderation.RateLimit.Window.{
  try_write, accepted, Ordered, Passes, try_write-ok, try_write-Passes,
}

-- A write stands in the window that it was counted in.
abbrev pub InItsWindow : Duration → ModerationRateState → Type 0
InItsWindow window t =
    (t.window_started_at ≤ t.last_write_at)
    × (t.last_write_at < t.window_started_at + pos_part window)

count_write-last_write_at :
    (policy : ModerationPolicy) (now : Time) (s t : ModerationRateState)
    → try_write now policy s ≡ ok t
    → t.last_write_at ≡ now
unfolding count_write
count_write-last_write_at policy now s t h = ground (arith, try_write-ok policy now s t h)

-- Each write comes `gap` or more after the one before it, the first one after `last`.
abbrev pub Spaced : ℕ → Time → List ModerationRateState → Type 0
Spaced gap last [] = Unit
Spaced gap last (t ∷ ts) = (last + gap ≤ t.last_write_at) × Spaced gap t.last_write_at ts

slow_mode-ok :
    (policy : ModerationPolicy) (now : Time) (s : ModerationRateState)
    → 0 < pos_part policy.slow_mode_interval
    → 0 < s.last_write_at
    → slow_mode now policy s ≡ ok tt
    → s.last_write_at + pos_part policy.slow_mode_interval ≤ now
unfolding slow_mode
slow_mode-ok policy now s i p h = ground arith

-- Under a positive slow mode interval, after a first write: whatever the times at which further
-- writes are tried, each accepted one comes an interval or more after the accepted one before it.
pub accepted-Spaced :
    (policy : ModerationPolicy) (s : ModerationRateState) (times : List Time)
    → 0 < pos_part policy.slow_mode_interval
    → 0 < s.last_write_at
    → Spaced (pos_part policy.slow_mode_interval) s.last_write_at (accepted policy s times)
unfolding accepted
accepted-Spaced policy s [] i p = tt
accepted-Spaced policy s (now ∷ times) i p = elim (Result-cases (try_write now policy s)) [
  | inl (t, e) ↦
      let at_now : t.last_write_at ≡ now = count_write-last_write_at policy now s t e in
      let apart : s.last_write_at + pos_part policy.slow_mode_interval ≤ now =
        slow_mode-ok policy now s i p (try_write-ok policy now s t e).0 in
      rw (e, accepted) (omega arith, accepted-Spaced policy t times i (omega arith))
  | inr (x, e) ↦ rw (e, accepted) (accepted-Spaced policy s times i p)
]

windowed_from :
    (policy : ModerationPolicy) (s : ModerationRateState) (from : Time) (times : List Time)
    → 0 < pos_part policy.anti_spam_window
    → 0 < pos_part policy.anti_spam_burst_limit
    → pos_part policy.anti_spam_burst_limit < 2 ^ 64
    → s.window_started_at ≤ from
    → Ordered from times
    → All (InItsWindow policy.anti_spam_window) (accepted policy s times)
unfolding accepted
windowed_from policy s from [] w l big f o = tt
windowed_from policy s from (now ∷ times) w l big f o =
    elim (Result-cases (try_write now policy s)) [
      | inl (t, e) ↦
          let passes : Passes policy now s t = try_write-Passes policy now s t w l big e in
          let at_now : t.last_write_at ≡ now = count_write-last_write_at policy now s t e in
          rw (e, accepted)
            (ground arith, windowed_from policy t now times w l big (ground arith) o.1)
      | inr (x, e) ↦ rw (e, accepted) (windowed_from policy s now times w l big (omega arith) o.1)
    ]

-- Where both anti-spam settings are positive, the limit fits uint64 and the writes are tried at
-- times that run neither backwards nor behind the open window: each accepted write comes at or after
-- the beginning of the window that it is counted in, and before the window's end.
accepted-InItsWindow :
    (policy : ModerationPolicy) (s : ModerationRateState) (times : List Time)
    → 0 < pos_part policy.anti_spam_window
    → 0 < pos_part policy.anti_spam_burst_limit
    → pos_part policy.anti_spam_burst_limit < 2 ^ 64
    → Ordered s.window_started_at times
    → All (InItsWindow policy.anti_spam_window) (accepted policy s times)
accepted-InItsWindow policy s times w l big o =
    windowed_from policy s s.window_started_at times w l big (omega arith) o
