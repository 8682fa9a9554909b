-- ===== src/Base/Clock.antt =====
-- `time.Time` and `time.Duration`. A time is a number of nanoseconds since the zero time, which is
-- 0. A duration is an integer of nanoseconds.
use Prim.Native.Nat.{ℕ, suc, ◌+◌, ◌-◌}
use mathlib.Core.Bool.{Bool}
use zvonilka.Base.Tests.{ltb, leb, ◌==◌, if◌then◌else◌}

-- `negsuc n` is -(n + 1).
pub data ℤ : Type 0 where
  pos : ℕ → ℤ
  negsuc : ℕ → ℤ

abbrev pub pos_part : ℤ → ℕ
pos_part (pos n) = n
pos_part (negsuc n) = 0

abbrev pub neg_part : ℤ → ℕ
neg_part (pos n) = 0
neg_part (negsuc n) = suc n

-- a - b, as an integer.
abbrev pub sub_ℕ : ℕ → ℕ → ℤ
sub_ℕ a b = if leb b a then pos (a - b) else negsuc (b - a - 1)

abbrev pub ltb_ℤ : ℤ → ℤ → Bool
ltb_ℤ a b = ltb (pos_part a + neg_part b) (pos_part b + neg_part a)

abbrev pub leb_ℤ : ℤ → ℤ → Bool
leb_ℤ a b = leb (pos_part a + neg_part b) (pos_part b + neg_part a)

abbrev pub eqb_ℤ : ℤ → ℤ → Bool
eqb_ℤ a b = pos_part a + neg_part b == pos_part b + neg_part a

abbrev pub is_positive : ℤ → Bool
is_positive d = ltb 0 (pos_part d)

abbrev pub Time : Type 0
Time = ℕ

abbrev pub Duration : Type 0
Duration = ℤ

-- t.IsZero()
abbrev pub is_zero : Time → Bool
is_zero t = t == 0

-- t.Before(u)
abbrev pub before : Time → Time → Bool
before t u = ltb t u

-- t.Sub(u)
abbrev pub time_sub : Time → Time → Duration
time_sub t u = sub_ℕ t u

-- t.Add(d)
abbrev pub time_add : Time → Duration → Time
time_add t d = t + pos_part d - neg_part d

-- The clock's time where the caller gave none.
abbrev pub or_now : Time → Time → Time
or_now t now = if is_zero t then now else t
