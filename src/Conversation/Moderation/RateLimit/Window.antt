-- ===== src/Conversation/Moderation/RateLimit/Window.antt =====
-- What the anti-spam window and slow mode promise over a whole run of writes: a write is tried at
-- each time of a list, passes both checks or not, and is counted if it passes.
use zvonilka.Base.{
  ℕ, ◌+◌, ◌≤◌, ◌<◌, ◌^◌, ◌≡◌, List, [], ◌∷◌, if◌then◌else◌, ◌==◌, Time, pos_part, Result, ok, err,
  ◌>>◌, true, arith, inl, inr, ◌⊎◌, Result-cases,
}
use zvonilka.Conversation.Models.{ModerationPolicy, ModerationRateState}
use zvonilka.Conversation.Moderation.RateLimit.{
  Fault, slow_mode, anti_spam, count_write, window_over,
}

-- A write at `now` under a policy: the new rate state, or the refusal.
unfoldable pub try_write :
    Time → ModerationPolicy → ModerationRateState → Result Fault ModerationRateState
try_write now policy state = do
  slow_mode now policy state
  anti_spam now policy state
  ok (count_write now policy.anti_spam_window state)

-- The state that later writes see.
abbrev pub after_write :
    ModerationRateState → Result Fault ModerationRateState → ModerationRateState
after_write s (ok t) = t
after_write s (err e) = s

-- The writes that pass, as states: each shows its time and the window it was counted in.
unfoldable pub accepted :
    ModerationPolicy → ModerationRateState → List Time → List ModerationRateState
accepted policy s [] = []
accepted policy s (now ∷ times) = elim (try_write now policy s) [
  | ok t ↦ t ∷ accepted policy t times
  | err e ↦ accepted policy s times
]

-- How many of the writes were counted in the window that began at `start`.
abbrev pub in_window : Time → List ModerationRateState → ℕ
in_window start [] = 0
in_window start (t ∷ ts) = (if t.window_started_at == start then 1 else 0) + in_window start ts

-- Times that do not run backwards, from `from` on.
abbrev pub Ordered : Time → List Time → Type 0
Ordered from [] = Unit
Ordered from (t ∷ ts) = (from ≤ t) × Ordered t ts

abbrev pub counted : Time → ModerationRateState → ℕ
counted start s = if s.window_started_at == start then s.window_count else 0

-- The two ways in which a write passes: it opens a window, or it is one more of a window with room.
abbrev pub Passes : ModerationPolicy → Time → ModerationRateState → ModerationRateState → Type 0
Passes policy now s t =
    ((t.window_started_at ≡ now)
      × (t.window_count ≡ 1)
      × ((s.window_started_at ≡ 0)
          ⊎ (s.window_started_at + pos_part policy.anti_spam_window ≤ now)))
    ⊎ ((t.window_started_at ≡ s.window_started_at)
        × (t.window_count ≡ s.window_count + 1)
        × (s.window_count < pos_part policy.anti_spam_burst_limit)
        × (0 < s.window_started_at)
        × (now < s.window_started_at + pos_part policy.anti_spam_window))

pub try_write-ok :
    (policy : ModerationPolicy) (now : Time) (s t : ModerationRateState)
    → try_write now policy s ≡ ok t
    → (slow_mode now policy s ≡ ok tt)
      × (anti_spam now policy s ≡ ok tt)
      × (t ≡ count_write now policy.anti_spam_window s)
unfolding try_write
try_write-ok policy now s t h = ground arith

anti_spam-ok :
    (policy : ModerationPolicy) (now : Time) (s : ModerationRateState)
    → 0 < pos_part policy.anti_spam_window
    → 0 < pos_part policy.anti_spam_burst_limit
    → anti_spam now policy s ≡ ok tt
    → (window_over now policy.anti_spam_window s ≡ true)
      ⊎ (s.window_count < pos_part policy.anti_spam_burst_limit)
unfolding anti_spam
anti_spam-ok policy now s w l h = ground arith

count_write-Passes :
    (policy : ModerationPolicy) (now : Time) (s : ModerationRateState)
    → 0 < pos_part policy.anti_spam_window
    → pos_part policy.anti_spam_burst_limit < 2 ^ 64
    → (window_over now policy.anti_spam_window s ≡ true)
      ⊎ (s.window_count < pos_part policy.anti_spam_burst_limit)
    → Passes policy now s (count_write now policy.anti_spam_window s)
unfolding count_write
count_write-Passes policy now s w big h = ground arith

pub try_write-Passes :
    (policy : ModerationPolicy) (now : Time) (s t : ModerationRateState)
    → 0 < pos_part policy.anti_spam_window
    → 0 < pos_part policy.anti_spam_burst_limit
    → pos_part policy.anti_spam_burst_limit < 2 ^ 64
    → try_write now policy s ≡ ok t
    → Passes policy now s t
try_write-Passes policy now s t w l big h =
    let (slow, fits, e) = try_write-ok policy now s t h in
    rw e (count_write-Passes policy now s w big (anti_spam-ok policy now s w l fits))

module _ (policy : ModerationPolicy) (w : 0 < pos_part policy.anti_spam_window)
    (l : 0 < pos_part policy.anti_spam_burst_limit)
    (big : pos_part policy.anti_spam_burst_limit < 2 ^ 64) (start : Time) where
  abbrev Room : ModerationRateState → List ModerationRateState → Type 0
  Room s passed =
      (start < s.window_started_at → in_window start passed ≡ 0)
      × (in_window start passed + counted start s ≤ pos_part policy.anti_spam_burst_limit)

  Room-step :
      (s t : ModerationRateState) (now : Time) (rest : List ModerationRateState)
      → 0 < s.window_started_at
      → s.window_started_at ≤ now
      → s.window_count ≤ pos_part policy.anti_spam_burst_limit
      → Passes policy now s t
      → Room t rest
      → Room s (t ∷ rest)
  Room-step s t now rest p f c (inl passes) room = ground arith
  Room-step s t now rest p f c (inr passes) room = ground arith

  accepted-Room :
      (s : ModerationRateState) (from : Time) (times : List Time)
      → 0 < s.window_started_at
      → s.window_started_at ≤ from
      → s.window_count ≤ pos_part policy.anti_spam_burst_limit
      → Ordered from times
      → Room s (accepted policy s times)
  unfolding accepted
  accepted-Room s from [] p f c o = ground arith
  accepted-Room s from (now ∷ times) p f c o = elim (Result-cases (try_write now policy s)) [
    | inl (t, e) ↦
        let passes : Passes policy now s t = try_write-Passes policy now s t w l big e in
        rw (e, accepted)
          (Room-step s t now (accepted policy t times) p (omega arith) c passes
            (accepted-Room t now times (omega arith) (omega arith) (omega arith) o.1))
    | inr (x, e) ↦ rw (e, accepted) (accepted-Room s now times p (omega arith) c o.1)
  ]

limited_from :
    (policy : ModerationPolicy) (s : ModerationRateState) (from : Time) (times : List Time)
    (start : Time)
    → 0 < pos_part policy.anti_spam_window
    → 0 < pos_part policy.anti_spam_burst_limit
    → pos_part policy.anti_spam_burst_limit < 2 ^ 64
    → s.window_started_at ≡ 0
    → 0 < from
    → Ordered from times
    → in_window start (accepted policy s times) ≤ pos_part policy.anti_spam_burst_limit
unfolding accepted
limited_from policy s from [] start w l big z f o = omega arith
limited_from policy s from (now ∷ times) start w l big z f o =
    elim (Result-cases (try_write now policy s)) [
      | inl (t, e) ↦
          let passes : Passes policy now s t = try_write-Passes policy now s t w l big e in
          rw (e, accepted)
            (opened t (accepted policy t times) passes (
              accepted-Room policy w l big start t now times (first t passes) (omega arith)
                (omega arith) o.1))
      | inr (x, e) ↦
          rw (e, accepted) (limited_from policy s now times start w l big z (omega arith) o.1)
    ]
  where
    first : (t : ModerationRateState) → Passes policy now s t → 0 < t.window_started_at
    first t passes = ground arith

    opened :
        (t : ModerationRateState) (rest : List ModerationRateState)
        → Passes policy now s t
        → Room policy w l big start t rest
        → in_window start (t ∷ rest) ≤ pos_part policy.anti_spam_burst_limit
    opened t rest (inl passes) room = ground arith
    opened t rest (inr passes) room = ground arith

-- Where both anti-spam settings are positive, the limit fits uint64, no window is begun and the
-- writes are tried at positive times that do not run backwards: for each time at which a window may
-- begin, at most as many writes as the burst limit are accepted in the window that begins there.
pub in_window-accepted-le :
    (policy : ModerationPolicy) (s : ModerationRateState) (times : List Time) (start : Time)
    → 0 < pos_part policy.anti_spam_window
    → 0 < pos_part policy.anti_spam_burst_limit
    → pos_part policy.anti_spam_burst_limit < 2 ^ 64
    → s.window_started_at ≡ 0
    → Ordered 1 times
    → in_window start (accepted policy s times) ≤ pos_part policy.anti_spam_burst_limit
in_window-accepted-le policy s times start w l big z o =
    limited_from policy s 1 times start w l big z (omega arith) o
