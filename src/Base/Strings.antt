-- ===== src/Base/Strings.antt =====
-- Go strings as lists of code points: comparison, `strings.TrimSpace` and `strings.Cut`.
use Prim.Native.Nat.{ℕ, zero, suc, ◌+◌, ◌/◌, ◌%◌}
use Prim.Native.Char.{code}
use Prim.Native.String.{String}
use mathlib.Core.Path.{◌≡◌, refl}
use mathlib.Core.Logic.{◌↔◌}
use mathlib.Core.Bool.{Bool, true, false, ◌&&◌, ◌||◌}
use mathlib.Core.Option.{Option, none, some}
use mathlib.Core.List.{List, [], ◌∷◌, ◌++◌}
use native.Mathlib.Omega.{arith}
use zvonilka.Base.Tests.{leb, ◌==◌, if◌then◌else◌}

abbrev pub Text : Type 0
Text = List ℕ

-- A text literal.
abbrev pub codes : String → Text
codes String.[] = []
codes (String.◌∷◌ c s) = code c ∷ codes s

abbrev pub is_empty : Text → Bool
is_empty [] = true
is_empty (c ∷ s) = false

unfoldable pub text_eq : Text → Text → Bool
text_eq [] [] = true
text_eq (a ∷ s) (b ∷ t) = (a == b) && text_eq s t
text_eq _ _ = false

pub text_eq_iff : (s t : Text) → (text_eq s t ≡ true) ↔ (s ≡ t)
unfolding text_eq
text_eq_iff [] [] = ground arith
text_eq_iff [] (b ∷ t) = ground arith
text_eq_iff (a ∷ s) [] = ground arith
text_eq_iff (a ∷ s) (b ∷ t) = ground (arith, text_eq_iff s t)

pub text_eq_refl : (s : Text) → text_eq s s ≡ true
text_eq_refl s = (text_eq_iff s s).1 refl

pub text_eq_sym : (s t : Text) → text_eq s t ≡ text_eq t s
text_eq_sym s t = ground (arith, text_eq_iff s t, text_eq_iff t s)

-- `unicode.IsSpace`.
unfoldable pub is_space : ℕ → Bool
is_space c =
    (leb 9 c && leb c 13)
    || (c == 32)
    || (c == 0x85)
    || (c == 0xA0)
    || (c == 0x1680)
    || (leb 0x2000 c && leb c 0x200A)
    || (c == 0x2028)
    || (c == 0x2029)
    || (c == 0x202F)
    || (c == 0x205F)
    || (c == 0x3000)

unfoldable pub trim_left : Text → Text
trim_left [] = []
trim_left (c ∷ s) = let rest = trim_left s in if is_space c then rest else c ∷ s

unfoldable pub trim_right : Text → Text
trim_right [] = []
trim_right (c ∷ s) = let rest = trim_right s in if is_empty rest && is_space c then [] else c ∷ rest

-- `strings.TrimSpace`.
unfoldable pub trim_space : Text → Text
unfolding is_space trim_left trim_right
trim_space s = trim_right (trim_left s)

-- `strings.Cut` at a separator of one code point.
unfoldable pub cut : ℕ → Text → Option (Text × Text)
cut sep [] = none
cut sep (c ∷ s) =
    let rest = cut sep s in
    if c == sep
    then some ([], s)
    else elim rest [ none ↦ none | some (before, after) ↦ some (c ∷ before, after) ]

-- A text without white space at its ends.
abbrev pub IsTrimmed : Text → Type 0
IsTrimmed s = trim_space s ≡ s

trim_right_idem : (s : Text) → trim_right (trim_right s) ≡ trim_right s
unfolding trim_right
trim_right_idem [] = refl
trim_right_idem (c ∷ s) = ground (arith, trim_right_idem s)

-- No white space at the front.
abbrev solid : Text → Bool
solid [] = true
solid (c ∷ s) = if is_space c then false else true

trim_left-solid : (s : Text) → solid (trim_left s) ≡ true
unfolding trim_left
trim_left-solid [] = refl
trim_left-solid (c ∷ s) = ground (arith, trim_left-solid s)

trim_right-solid : (s : Text) → solid s ≡ true → solid (trim_right s) ≡ true
unfolding trim_right
trim_right-solid [] h = refl
trim_right-solid (c ∷ s) h = ground arith

trim_left_of_solid : (s : Text) → solid s ≡ true → trim_left s ≡ s
unfolding trim_left
trim_left_of_solid [] h = refl
trim_left_of_solid (c ∷ s) h = ground arith

pub trim_space-IsTrimmed : (s : Text) → IsTrimmed (trim_space s)
unfolding trim_space
trim_space-IsTrimmed s =
    let front : solid (trim_right (trim_left s)) ≡ true =
      trim_right-solid (trim_left s) (trim_left-solid s) in
    rw (trim_left_of_solid (trim_right (trim_left s)) front) (trim_right_idem (trim_left s))

decimal_from : ℕ → ℕ → Text → Text
decimal_from zero n rest = rest
decimal_from (suc fuel) n rest =
    let more = decimal_from fuel (n / 10) ((48 + n % 10) ∷ rest) in
    if n / 10 == 0 then (48 + n % 10) ∷ rest else more

-- `fmt.Sprintf("%d", n)`. A number has at most as many digits as its value and one.
unfoldable pub decimal : ℕ → Text
unfolding decimal_from
decimal n = decimal_from (suc n) n []

-- Whether a code point stands in a text.
abbrev pub has_code : ℕ → Text → Bool
has_code sep [] = false
has_code sep (c ∷ s) = (c == sep) || has_code sep s

pub cut-append :
    (sep : ℕ) (s t : Text) → has_code sep s ≡ false → cut sep (s ++ (sep ∷ t)) ≡ some (s, t)
unfolding cut
cut-append sep [] t h = ground arith
cut-append sep (c ∷ s) t h = ground (arith, cut-append sep s t)

pub cut-absent : (sep : ℕ) (s : Text) → has_code sep s ≡ false → cut sep s ≡ none
unfolding cut
cut-absent sep [] h = refl
cut-absent sep (c ∷ s) h = ground (arith, cut-absent sep s)

trim_right-cons :
    (c : ℕ) (s : Text) → trim_right s ≡ s → is_empty s ≡ false → trim_right (c ∷ s) ≡ c ∷ s
unfolding trim_right
trim_right-cons c s h e = ground arith

trim_right-append :
    (s t : Text) → trim_right t ≡ t → is_empty t ≡ false → trim_right (s ++ t) ≡ s ++ t
trim_right-append [] t h e = h
trim_right-append (c ∷ s) t h e = trim_right-cons c (s ++ t) (trim_right-append s t h e) (still s)
  where
    still : (r : Text) → is_empty (r ++ t) ≡ false
    still [] = e
    still (b ∷ r) = refl

-- Two trimmed texts that are not empty are trimmed when joined.
pub trim_space-joined :
    (s t : Text) (sep : ℕ)
    → is_empty (trim_space s) ≡ false
    → is_empty (trim_space t) ≡ false
    → IsTrimmed (trim_space s ++ (sep ∷ trim_space t))
unfolding trim_space
trim_space-joined s t sep a b =
    let front : solid (trim_right (trim_left s)) ≡ true =
      trim_right-solid (trim_left s) (trim_left-solid s) in
    rw
      (trim_left_of_solid (trim_right (trim_left s) ++ (sep ∷ trim_right (trim_left t)))
        (joined (trim_right (trim_left s)) front a))
      (trim_right-append (trim_right (trim_left s)) (sep ∷ trim_right (trim_left t))
        (trim_right-cons sep (trim_right (trim_left t)) (trim_right_idem (trim_left t)) b) refl)
  where
    joined :
        (r : Text)
        → solid r ≡ true
        → is_empty r ≡ false
        → solid (r ++ (sep ∷ trim_right (trim_left t))) ≡ true
    joined [] h e = absurd (ground arith)
    joined (c ∷ r) h e = h
