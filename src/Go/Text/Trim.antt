-- ===== src/Go/Text/Trim.antt =====
-- `strings.TrimSpace`: what is trimmed has no blanks around it.
use Prim.Native.String.{[], ◌∷◌}
use bering.Prelude.{String, ◌≡◌, refl, ap, ◌∙◌, Bool, true, ◌&&◌, not, Bool-cases, inl, inr, arith}
use bering.Go.Text.{is_space, is_blank, trim_left, trim_right, trim_space}

trim_right_twice : (s : String) → trim_right (trim_right s) ≡ trim_right s
unfolding trim_right
trim_right_twice [] = refl
trim_right_twice (c ∷ s) = elim (Bool-cases (is_space c && is_blank (trim_right s))) [
  | inl blank ↦ rw blank refl
  | inr other ↦ rw (other, trim_right_twice s, other) refl
]

-- No blank stands at the start of a text.
starts_plain : String → Bool
starts_plain [] = true
starts_plain (c ∷ s) = not (is_space c)

trim_left-starts_plain : (s : String) → starts_plain (trim_left s) ≡ true
unfolding trim_left starts_plain
trim_left-starts_plain [] = refl
trim_left-starts_plain (c ∷ s) = ground (arith, trim_left-starts_plain s)

trim_right-starts_plain : (s : String) → starts_plain s ≡ true → starts_plain (trim_right s) ≡ true
unfolding trim_right starts_plain
trim_right-starts_plain [] h = refl
trim_right-starts_plain (c ∷ s) h = ground arith

trim_left_plain : (s : String) → starts_plain s ≡ true → trim_left s ≡ s
unfolding trim_left starts_plain
trim_left_plain [] h = refl
trim_left_plain (c ∷ s) h = ground arith

pub trim_space_idempotent : (s : String) → trim_space (trim_space s) ≡ trim_space s
unfolding trim_space
trim_space_idempotent s =
    ap trim_right (
      trim_left_plain (trim_right (trim_left s))
        (trim_right-starts_plain (trim_left s) (trim_left-starts_plain s)))
    ∙ trim_right_twice (trim_left s)
