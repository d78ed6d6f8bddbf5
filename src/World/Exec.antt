-- ===== src/World/Exec.antt =====
-- Go's `(value, error)` results over the world, with panics.
use geo_notifications_servic.Prelude.{String, Option, none, some}
use geo_notifications_servic.Errs.{GoError}
use geo_notifications_servic.World.{World}

pub data Result {ℓ} (A : Type ℓ) : Type ℓ where
  ok : A → Result A
  err : GoError → Result A
  panicked : String → Result A

abbrev pub M {ℓ} : Type ℓ → Type ℓ
M A = World → Result A × World

module _ {ℓ} {A : Type ℓ} where
  abbrev pub pure : A → M A
  pure a w = (ok a, w)

  abbrev pub raise : GoError → M A
  raise e w = (err e, w)

  abbrev pub map_result_error : (GoError → GoError) → Result A → Result A
  map_result_error f (ok a) = ok a
  map_result_error f (err e) = err (f e)
  map_result_error f (panicked p) = panicked p

  -- `if err != nil { return f(err) }`
  abbrev pub map_error : (GoError → GoError) → M A → M A
  map_error f m w = let (r, w') = m w in (map_result_error f r, w')

  abbrev pub ignored : Result A → Result (Unit {0})
  ignored (ok a) = ok tt
  ignored (err e) = ok tt
  ignored (panicked p) = panicked p

  -- `_ = call()`
  abbrev pub ignore_error : M A → M (Unit {0})
  ignore_error m w = let (r, w') = m w in (ignored r, w')

  abbrev pub caught : Result A → Result (Option GoError)
  caught (ok a) = ok none
  caught (err e) = ok (some e)
  caught (panicked p) = panicked p

  -- `err := call()`, looked at later
  abbrev pub error_of : M A → M (Option GoError)
  error_of m w = let (r, w') = m w in (caught r, w')

module _ {ℓ κ} {A : Type ℓ} {B : Type κ} where
  abbrev pub continue : Result A → (A → World → Result B × World) → World → Result B × World
  continue (ok a) f w = f a w
  continue (err e) f w = (err e, w)
  continue (panicked p) f w = (panicked p, w)

infixl 5 ◌>>=◌ ◌>>◌
abbrev pub ◌>>=◌ {ℓ κ} : {A : Type ℓ} {B : Type κ} → M A → (A → M B) → M B
◌>>=◌ m f w = let (r, w') = m w in continue r f w'

abbrev pub ◌>>◌ {ℓ κ} : {A : Type ℓ} {B : Type κ} → M A → M B → M B
m >> n = m >>= λ _. n
