-- ===== src/Base/Lower.antt =====
-- `strings.ToLower` and its composition with `strings.TrimSpace`. Letters outside ASCII are left as
-- they are.
use Prim.Native.Nat.{ℕ, ◌+◌}
use mathlib.Core.Path.{◌≡◌, refl, ap}
use mathlib.Core.List.{[], ◌∷◌}
use mathlib.Core.Bool.{◌&&◌}
use native.Mathlib.Omega.{arith}
use zvonilka.Base.Tests.{leb, if◌then◌else◌}
use zvonilka.Base.Strings.{
  Text, is_empty, is_space, trim_left, trim_right, trim_space, trim_space-IsTrimmed,
}

lower_code : ℕ → ℕ
lower_code c = if leb 65 c && leb c 90 then c + 32 else c

-- strings.ToLower
unfoldable pub to_lower : Text → Text
unfolding lower_code
to_lower [] = []
to_lower (c ∷ s) = lower_code c ∷ to_lower s

-- strings.TrimSpace(strings.ToLower(s))
unfoldable pub trim_lower : Text → Text
unfolding to_lower
trim_lower s = trim_space (to_lower s)

lower_code_idem : (c : ℕ) → lower_code (lower_code c) ≡ lower_code c
unfolding lower_code
lower_code_idem c = ground arith

is_space-lower_code : (c : ℕ) → is_space (lower_code c) ≡ is_space c
unfolding lower_code is_space
is_space-lower_code c = ground arith

to_lower_idem : (s : Text) → to_lower (to_lower s) ≡ to_lower s
unfolding to_lower
to_lower_idem [] = refl
to_lower_idem (c ∷ s) = ground (arith, lower_code_idem c, to_lower_idem s)

is_empty-to_lower : (s : Text) → is_empty (to_lower s) ≡ is_empty s
unfolding to_lower
is_empty-to_lower [] = refl
is_empty-to_lower (c ∷ s) = refl

trim_left-to_lower : (s : Text) → trim_left (to_lower s) ≡ to_lower (trim_left s)
unfolding trim_left to_lower
trim_left-to_lower [] = refl
trim_left-to_lower (c ∷ s) = ground (arith, is_space-lower_code c, trim_left-to_lower s)

trim_right-to_lower : (s : Text) → trim_right (to_lower s) ≡ to_lower (trim_right s)
unfolding trim_right to_lower
trim_right-to_lower [] = refl
trim_right-to_lower (c ∷ s) =
    ground (arith, is_space-lower_code c, trim_right-to_lower s, is_empty-to_lower (trim_right s))

trim_space-to_lower : (s : Text) → trim_space (to_lower s) ≡ to_lower (trim_space s)
unfolding trim_space
trim_space-to_lower s = rw (trim_left-to_lower s, trim_right-to_lower (trim_left s))

-- A text that was brought to lower case and trimmed stays as it is.
pub trim_lower_idem : (s : Text) → trim_lower (trim_lower s) ≡ trim_lower s
unfolding trim_lower
trim_lower_idem s =
    rw (trim_space-to_lower s, to_lower_idem (trim_space s), trim_space-to_lower (trim_space s))
      (ap to_lower (trim_space-IsTrimmed s))
