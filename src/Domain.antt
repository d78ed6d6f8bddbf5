-- ===== src/Domain.antt =====
-- internal/domain/incidents: the domain's types, and their validation.
pub mod Floats
pub mod Validation
use geo_notifications_servic.Prelude.{
  ℕ, ◌+◌, String, Bool, true, false, ◌||◌, Option, none, some, List, [], ◌∷◌, ℤ, pos, ltb_ℤ, leb_ℤ,
  ltb, length, str_eq, trim_space, if◌then◌else◌,
}
use geo_notifications_servic.Errs.{Kind, invalid, Fields, GoError, no_cause, new_error}
use Floats.{Float64, float_lt, bits_90, bits_180, negated}

-- `fields[key] = text` of a `map[string]string`.
unfoldable pub put_field : String → String → Fields → Fields
put_field key text [] = (key, text) ∷ []
put_field key text ((k, t) ∷ rest) =
    if str_eq k key then (key, text) ∷ rest else (k, t) ∷ put_field key text rest

pub record Point : Type 0 where
  pub lat : Float64
  pub lon : Float64

pub outside : Float64 → Float64 → Bool
outside bound x = float_lt x (negated bound) || float_lt bound x

unfoldable pub validate_point : Point → String → Option GoError
unfolding put_field outside
validate_point p op =
    let fields : Fields = [] in
    let fields' =
      if outside bits_90 p.lat
      then put_field "lat" "must be between -90 and 90" fields
      else fields in
    let fields'' =
      if outside bits_180 p.lon
      then put_field "lon" "must be between -180 and 180" fields'
      else fields' in
    if ltb 0 (length fields'')
    then some (new_error invalid "INVALID_COORDINATES" op "invalid coordinates" fields'' no_cause)
    else none

-- Times are counted from a fixed instant.
pub record Incident : Type 0 where
  pub id : ℕ
  pub title : String
  pub description : String
  pub center : Point
  pub radius : ℤ
  pub active : Bool
  pub created_at : ℕ
  pub updated_at : ℕ

pub record CreateIncident : Type 0 where
  pub title : String
  pub description : String
  pub center : Point
  pub radius : ℤ

abbrev pub blank : String → Bool
blank s = str_eq (trim_space s) ""

or_invalid : Option GoError → Fields → String → Option GoError
or_invalid (some e) fields op = some e
or_invalid none fields op =
    if ltb 0 (length fields)
    then some (new_error invalid "INCIDENT_INVALID" op "invalid incident" fields no_cause)
    else none

unfoldable pub validate_create : CreateIncident → Option GoError
unfolding put_field or_invalid
validate_create c =
    let op : String = "incidents.model.validate_create" in
    let fields : Fields = [] in
    let fields' = if blank c.title then put_field "title" "is required" fields else fields in
    let fields'' =
      if leb_ℤ c.radius (pos 0) then put_field "radius" "must be > 0" fields' else fields' in
    or_invalid (validate_point c.center op) fields'' op

-- A field that is `none` is left as it was.
pub record UpdateIncident : Type 0 where
  pub title : Option String
  pub description : Option String
  pub center : Option Point
  pub radius : Option ℤ

abbrev pub given {ℓ} : {A : Type ℓ} → (A → Bool) → Option A → Bool
given test none = false
given test (some a) = test a

unfoldable pub validate_center : Option Point → String → Option GoError
validate_center none op = none
validate_center (some p) op = validate_point p op

unfoldable pub validate_update : UpdateIncident → Option GoError
unfolding put_field or_invalid validate_center
validate_update u =
    let op : String = "incidents.model.validate_update" in
    let fields : Fields = [] in
    let fields' =
      if given blank u.title then put_field "title" "must not be empty" fields else fields in
    let fields'' =
      if given (λ r. leb_ℤ r (pos 0)) u.radius
      then put_field "radius" "must be > 0" fields'
      else fields' in
    or_invalid (validate_center u.center op) fields'' op

pub record ListFilter : Type 0 where
  pub limit : ℤ
  pub offset : ℤ
  pub active_only : Bool

pub record NearbyIncident : Type 0 where
  pub incident_id : ℕ
  pub distance_meters : Float64
  pub title : String
  pub description : String
  pub center : Point
  pub radius : ℤ
  pub created_at : ℕ
  pub updated_at : ℕ

pub record CheckCommand : Type 0 where
  pub user_id : String
  pub point : Point
  pub limit : ℤ

pub record CheckCompleted : Type 0 where
  pub check_id : ℕ
  pub user_id : String
  pub point : Point
  pub incident_ids : List ℕ
  pub occurred_at : ℕ

or_else : Option GoError → Option GoError → Option GoError
or_else (some e) next = some e
or_else none next = next

check_limit : ℤ → String → Option GoError
check_limit limit op =
    if ltb_ℤ limit (pos 0)
    then some (
        new_error invalid "INVALID_LIMIT" op "limit must be >= 0" (("limit", "must be >= 0") ∷ [])
          no_cause)
    else if ltb_ℤ (pos 500) limit
    then some (
        new_error invalid "INVALID_LIMIT" op "limit must be <= 500"
          (("limit", "must be <= 500") ∷ []) no_cause)
    else none

unfoldable pub validate_check : CheckCommand → Option GoError
unfolding or_else check_limit
validate_check c =
    let op : String = "command.check.validate" in
    if blank c.user_id
    then some (
        new_error invalid "INVALID_USER_ID" op "user_id is required"
          (("user_id", "is required") ∷ []) no_cause)
    else or_else (validate_point c.point op) (check_limit c.limit op)
