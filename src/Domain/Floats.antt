-- ===== src/Domain/Floats.antt =====
-- Go's float64 as its IEEE 754 word: the sign bit, and the other 63 bits read as a number, by which
-- numbers of one sign are ordered. Comparisons are exact; the program does no arithmetic on floats.
use geo_notifications_servic.Prelude.{
  ℕ, ◌+◌, ◌≤◌, ◌≡◌, ◌⊎◌, Bool, true, false, not, ◌&&◌, ltb, if◌then◌else◌,
}

pub record Float64 : Type 0 where
  pub negative : Bool
  pub magnitude : ℕ

-- The magnitude of the infinities; above it stand the NaNs.
abbrev pub inf_bits : ℕ
inf_bits = 0x7ff0000000000000

abbrev pub is_nan : Float64 → Bool
is_nan x = ltb inf_bits x.magnitude

abbrev above_zero : Float64 → ℕ
above_zero x = if x.negative then 0 else x.magnitude

abbrev below_zero : Float64 → ℕ
below_zero x = if x.negative then x.magnitude else 0

-- `x < y`; false where one of them is a NaN, and the two zeros are equal.
abbrev pub float_lt : Float64 → Float64 → Bool
float_lt x y =
    (not (is_nan x) && not (is_nan y))
    && ltb (above_zero x + below_zero y) (above_zero y + below_zero x)

abbrev pub negated : Float64 → Float64
negated x = record x { negative = not x.negative }

abbrev pub bits_90 : Float64
bits_90 = record { negative = false; magnitude = 0x4056800000000000 }

abbrev pub bits_180 : Float64
bits_180 = record { negative = false; magnitude = 0x4066800000000000 }

-- Not a number, or at most as far from zero as the bound.
abbrev pub WithinOrNan : Float64 → Float64 → Type 0
WithinOrNan bound x = (is_nan x ≡ true) ⊎ (x.magnitude ≤ bound.magnitude)
