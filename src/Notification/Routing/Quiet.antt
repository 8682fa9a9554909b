-- ===== src/Notification/Routing/Quiet.antt =====
-- Quiet hours are an interval on the circle of the day's minutes.
use zvonilka.Base.{
  ℕ, Text, Time, pos, true, ltb, arith, ◌≡◌, ◌<◌, ◌+◌, ◌-◌, ◌%◌, if◌then◌else◌, leb,
}
use zvonilka.Notification.Models.{QuietHours}
use zvonilka.Notification.Routing.{quiet_hours_active, zone_of}

around :
    (a start : ℕ)
    → start < 1440
    → a < 1440
    → ((a + 1440 - start) % 1440) ≡ (if leb start a then a - start else a + 1440 - start)
around a start l m = ground arith

-- Enabled quiet hours with a start and an end inside the day are active at a local minute of the day
-- exactly where the minutes since the start, around the day, are fewer than those from the start to the
-- end. So they may cross midnight, and they are never active where start and end are the same.
pub quiet_hours_active-circular :
    (local_minute : Text → Time → ℕ) (now : Time) (quiet : QuietHours) (start end : ℕ)
    → quiet.enabled ≡ true
    → quiet.start_minute ≡ pos start
    → quiet.end_minute ≡ pos end
    → start < 1440
    → end < 1440
    → local_minute (zone_of quiet) now < 1440
    → quiet_hours_active local_minute now quiet
      ≡ ltb ((local_minute (zone_of quiet) now + 1440 - start) % 1440) ((end + 1440 - start) % 1440)
unfolding quiet_hours_active
quiet_hours_active-circular local_minute now quiet start end e s t l m n =
    ground (arith, around (local_minute (zone_of quiet) now) start l n, around end start l m)
