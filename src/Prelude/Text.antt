-- ===== src/Prelude/Text.antt =====
-- What the program uses of Go's `strings`: `TrimSpace`, on the code points of a text.
use Prim.Native.Char.{Char, code}
use Prim.Native.String.{String}
use mathlib.Core.Path.{◌≡◌, refl}
use mathlib.Core.Logic.{◌↔◌, inl, inr}
use mathlib.Core.Bool.{Bool, true, ◌&&◌, ◌||◌}
use text.Mathlib.Text.{◌==◌ as str_eq}
use text.Mathlib.TextEquality.{eq_iff}
use geo_notifications_servic.Prelude.Tests.{leb, ◌==◌, if◌then◌else◌, Bool-cases}

-- `unicode.IsSpace`.
pub is_space : Char → Bool
is_space c =
    let n = code c in
    (leb 9 n && leb n 13)
    || n == 32
    || n == 0x85
    || n == 0xa0
    || n == 0x1680
    || (leb 0x2000 n && leb n 0x200a)
    || n == 0x2028
    || n == 0x2029
    || n == 0x202f
    || n == 0x205f
    || n == 0x3000

trim_left : String → String
trim_left String.[] = ""
trim_left (String.◌∷◌ c s) = let rest = trim_left s in if is_space c then rest else String.◌∷◌ c s

abbrev add_unless_blank : Char → String → String
add_unless_blank c String.[] = if is_space c then "" else String.◌∷◌ c ""
add_unless_blank c (String.◌∷◌ d s) = String.◌∷◌ c (String.◌∷◌ d s)

trim_right : String → String
trim_right String.[] = ""
trim_right (String.◌∷◌ c s) = add_unless_blank c (trim_right s)

unfoldable pub trim_space : String → String
unfolding trim_left trim_right is_space
trim_space s = trim_right (trim_left s)

-- Every character of the text is white space.
abbrev pub IsBlank : String → Type 0
IsBlank String.[] = Unit
IsBlank (String.◌∷◌ c s) = (is_space c ≡ true) × IsBlank s

IsBlank-trim_left : (s : String) → IsBlank s → trim_left s ≡ ""
unfolding trim_left
IsBlank-trim_left String.[] h = refl
IsBlank-trim_left (String.◌∷◌ c s) (p, h) = rw p (IsBlank-trim_left s h)

add_unless_blank-empty :
    (c : Char) (r : String) → add_unless_blank c r ≡ "" → (is_space c ≡ true) × (r ≡ "")
add_unless_blank-empty c String.[] h = elim (Bool-cases (is_space c)) [
  | inl p ↦ (p, refl)
  | inr p ↦ cc (rw p at h)
]
add_unless_blank-empty c (String.◌∷◌ d s) h = cc

trim_right-IsBlank : (s : String) → trim_right s ≡ "" → IsBlank s
unfolding trim_right
trim_right-IsBlank String.[] h = tt
trim_right-IsBlank (String.◌∷◌ c s) h =
    let (blank, rest) = add_unless_blank-empty c (trim_right s) h in
    (blank, trim_right-IsBlank s rest)

trim_left-IsBlank : (s : String) → IsBlank (trim_left s) → IsBlank s
unfolding trim_left
trim_left-IsBlank String.[] h = tt
trim_left-IsBlank (String.◌∷◌ c s) h = elim (Bool-cases (is_space c)) [
  | inl p ↦ (p, trim_left-IsBlank s (rw (p, trim_left) at h))
  | inr p ↦ (rw (p, trim_left) at h)
]

-- The test of the program: a text is empty after `TrimSpace` exactly when it is all white space.
pub trim_space_iff : (s : String) → (str_eq (trim_space s) "" ≡ true) ↔ IsBlank s
unfolding trim_space
trim_space_iff s = (
  λ h. trim_left-IsBlank s (trim_right-IsBlank _ ((eq_iff _ _).0 h)),
  λ h. (eq_iff _ _).1 (rw (IsBlank-trim_left s h) refl),
)
