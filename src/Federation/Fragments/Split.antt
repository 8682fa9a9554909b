-- ===== src/Federation/Fragments/Split.antt =====
-- A payload that is split is whole again when its parts are joined, and each part fits.
use zvonilka.Base.{
  ℕ, zero, suc, ◌+◌, ◌*◌, ◌≤◌, ◌<◌, ℤ, pos_part, List, [], ◌∷◌, ◌++◌, length, drop, arith, ◌≡◌,
  refl, All, is_positive, true, length-drop, length-take, if◌then◌else◌, take-append-drop,
}
use zvonilka.Federation.Models.{Bytes}
use zvonilka.Federation.Fragments.{split_from, split_payload}

abbrev pub joined_parts : List Bytes → Bytes
joined_parts [] = []
joined_parts (p ∷ ps) = p ++ joined_parts ps

split_from-joined :
    (fuel max_bytes : ℕ) (payload : Bytes)
    → 0 < max_bytes
    → length payload ≤ fuel
    → joined_parts (split_from fuel max_bytes payload) ≡ payload
unfolding split_from
split_from-joined zero n [] l m = refl
split_from-joined zero n (b ∷ payload) l m = ground arith
split_from-joined (suc fuel) n [] l m = refl
split_from-joined (suc fuel) n (b ∷ payload) l m =
    rw
      (split_from-joined fuel n (drop n (b ∷ payload)) l
        (omega (arith, length-drop n (b ∷ payload))))
      (take-append-drop n (b ∷ payload))

-- The parts of a payload, joined in their order, are the payload, whatever the limit on their size.
pub split_payload-joined :
    (payload : Bytes) (max_bytes : ℤ) → joined_parts (split_payload payload max_bytes) ≡ payload
unfolding split_payload
split_payload-joined [] max_bytes = refl
split_payload-joined (b ∷ payload) max_bytes =
    split_from-joined (length (b ∷ payload))
      (if is_positive max_bytes then pos_part max_bytes else length (b ∷ payload)) (b ∷ payload)
      (ground arith) (omega arith)

split_from-sizes :
    (fuel n : ℕ) (payload : Bytes) → All (λ p. length p ≤ n) (split_from fuel n payload)
unfolding split_from
split_from-sizes zero n payload = tt
split_from-sizes (suc fuel) n [] = tt
split_from-sizes (suc fuel) n (b ∷ payload) =
    (omega (arith, length-take n (b ∷ payload)), split_from-sizes fuel n (drop n (b ∷ payload)))

-- As many parts as are needed: the last one is not empty and the others are full.
abbrev IsCount : ℕ → ℕ → ℕ → Type 0
IsCount n size count =
    (size ≤ count * n) × (0 < size → count * n < size + n) × (size ≤ 0 → count * n ≤ 0)

split_from-IsCount :
    (fuel n : ℕ) (payload : Bytes)
    → 0 < n
    → length payload ≤ fuel
    → IsCount n (length payload) (length (split_from fuel n payload))
unfolding split_from
split_from-IsCount zero n [] l m = ground arith
split_from-IsCount zero n (b ∷ payload) l m = omega arith
split_from-IsCount (suc fuel) n [] l m = ground arith
split_from-IsCount (suc fuel) n (b ∷ payload) l m =
    let size = length-drop n (b ∷ payload) in
    let (a, c, d) = split_from-IsCount fuel n (drop n (b ∷ payload)) l (omega (arith, size)) in
    (ground (arith, size), (λ p. ground (arith, size)), (λ p. omega arith))

-- Under a positive limit no part of a payload that is not empty is longer than the limit, and the
-- number of parts is the least with which that is possible.
pub split_payload-sizes :
    (payload : Bytes) (max_bytes : ℤ)
    → 0 < length payload
    → is_positive max_bytes ≡ true
    → All (λ p. length p ≤ pos_part max_bytes) (split_payload payload max_bytes)
      × (length payload ≤ length (split_payload payload max_bytes) * pos_part max_bytes)
      × (length (split_payload payload max_bytes) * pos_part max_bytes
          < length payload + pos_part max_bytes)
unfolding split_payload
split_payload-sizes [] max_bytes l p = omega arith
split_payload-sizes (b ∷ payload) max_bytes l p =
    let n = pos_part max_bytes in
    let (a, c, d) =
      split_from-IsCount (length (b ∷ payload)) n (b ∷ payload) (ground arith) (omega arith) in
    rw p (split_from-sizes (length (b ∷ payload)) n (b ∷ payload), a, c l)
