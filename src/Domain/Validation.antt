-- ===== src/Domain/Validation.antt =====
-- What validation accepts, and what it reports.
use geo_notifications_servic.Prelude.{
  ℤ, refl, ◌≡◌, ◌↔◌, inl, inr, Bool, true, false, Option, none, some, [], ◌∷◌, ◌++◌, String, arith,
  pos, ◌≤ℤ◌, IsBlank, trim_space_iff, Bool-cases, Option-cases, leb_ℤ,
}
use geo_notifications_servic.Errs.{GoError, Fields, invalid, as_error}
use geo_notifications_servic.Errs.Laws.{Report, report}
use geo_notifications_servic.Domain.{
  outside, Point, CreateIncident, UpdateIncident, given, validate_center, validate_update,
  CheckCommand, blank, validate_point, validate_create, validate_check,
}
use geo_notifications_servic.Domain.Floats.{WithinOrNan, bits_90, bits_180}

abbrev pub IsValidPoint : Point → Type 0
IsValidPoint p = WithinOrNan bits_90 p.lat × WithinOrNan bits_180 p.lon

pub validate_point_iff : (p : Point) (op : String) → (validate_point p op ≡ none) ↔ IsValidPoint p
unfolding validate_point
validate_point_iff p op = ground arith

-- What a command must satisfy, as its messages put it.
pub record IsValidCreate (c : CreateIncident) : Type 0 where
  pub title : ¬ IsBlank c.title
  pub radius : pos 1 ≤ℤ c.radius
  pub center : IsValidPoint c.center

not_blank : (s : String) → (blank s ≡ false) ↔ (¬ IsBlank s)
not_blank s = elim (Bool-cases (blank s)) [
  | inl b ↦ (λ h. cc, λ h. absurd (h ((trim_space_iff s).0 b)))
  | inr n ↦ (λ h b. cc ((trim_space_iff s).1 b), λ _. n)
]

validate_create_tests :
    (c : CreateIncident)
    → (validate_create c ≡ none) ↔ (
        (blank c.title ≡ false)
        × (pos 1 ≤ℤ c.radius)
        × (validate_point c.center "incidents.model.validate_create" ≡ none))
unfolding validate_create
validate_create_tests c = ground arith

-- A create command is accepted exactly when its title is not blank, its radius is positive, and
-- its centre has a latitude within 90 and a longitude within 180 degrees of zero (or NaN).
pub validate_create_iff : (c : CreateIncident) → (validate_create c ≡ none) ↔ IsValidCreate c
validate_create_iff c =
    let (to, from) = validate_create_tests c in
    let (valid, accepted) = validate_point_iff c.center "incidents.model.validate_create" in
    let (filled, some_title) = not_blank c.title in
    (
      λ h. record { title = filled (to h).0; radius = (to h).1; center = valid (to h).2 },
      λ v. from (some_title v.title, v.radius, accepted v.center),
    )

-- The entry of a field that fails its test.
abbrev pub problem : Bool → String → String → Fields
problem true field text = (field, text) ∷ []
problem false field text = []

-- An error about the given fields, or none if there is none.
abbrev pub rejected : String → Fields → Option Report
rejected code [] = none
rejected code (f ∷ fs) = some (record { kind = invalid; code = code; fields = f ∷ fs })

abbrev pub told : Option GoError → Option Report
told none = none
told (some e) = some (report e)

-- A point is rejected if a coordinate is out of range, by an error that names exactly the coordinates
-- that are.
pub validate_point_report :
    (p : Point) (op : String)
    → told (validate_point p op)
      ≡ rejected "INVALID_COORDINATES" (
          problem (outside bits_90 p.lat) "lat" "must be between -90 and 90"
          ++ problem (outside bits_180 p.lon) "lon" "must be between -180 and 180")
unfolding validate_point as_error
validate_point_report p op = elim (Bool-cases (outside bits_90 p.lat)) [
  | inl a ↦ elim (Bool-cases (outside bits_180 p.lon)) [
    | inl b ↦ rw (a, b, validate_point)
    | inr b ↦ rw (a, b, validate_point)
  ]
  | inr a ↦ elim (Bool-cases (outside bits_180 p.lon)) [
    | inl b ↦ rw (a, b, validate_point)
    | inr b ↦ rw (a, b, validate_point)
  ]
]

-- The first report, if there is one.
abbrev pub first_report : Option Report → Option Report → Option Report
first_report (some r) next = some r
first_report none next = next

-- The error for a create command is the one of its centre if that is invalid, and otherwise names
-- exactly the fields, title and radius, that fail their test; there is none if both pass.
pub validate_create_report :
    (c : CreateIncident)
    → told (validate_create c)
      ≡ first_report (told (validate_point c.center "incidents.model.validate_create")) (
          rejected "INCIDENT_INVALID" (
            problem (blank c.title) "title" "is required"
            ++ problem (leb_ℤ c.radius (pos 0)) "radius" "must be > 0"))
unfolding validate_create as_error
validate_create_report c =
    let p = validate_point c.center "incidents.model.validate_create" in
    elim (Option-cases p) [
      | inr (e, found) ↦ rw (found, validate_create)
      | inl fine ↦ elim (Bool-cases (blank c.title)) [
        | inl a ↦ elim (Bool-cases (leb_ℤ c.radius (pos 0))) [
          | inl b ↦ rw (fine, a, b, validate_create)
          | inr b ↦ rw (fine, a, b, validate_create)
        ]
        | inr a ↦ elim (Bool-cases (leb_ℤ c.radius (pos 0))) [
          | inl b ↦ rw (fine, a, b, validate_create)
          | inr b ↦ rw (fine, a, b, validate_create)
        ]
      ]
    ]

-- What a check command must satisfy.
pub record IsValidCheck (c : CheckCommand) : Type 0 where
  pub user : ¬ IsBlank c.user_id
  pub point : IsValidPoint c.point
  pub limit_least : pos 0 ≤ℤ c.limit
  pub limit_most : c.limit ≤ℤ pos 500

validate_check_tests :
    (c : CheckCommand)
    → (validate_check c ≡ none) ↔ (
        (blank c.user_id ≡ false)
        × (validate_point c.point "command.check.validate" ≡ none)
        × (pos 0 ≤ℤ c.limit)
        × (c.limit ≤ℤ pos 500))
unfolding validate_check
validate_check_tests c = ground arith

-- A check command is accepted exactly when it names a user, its point is valid, and its limit lies
-- between 0 and 500.
pub validate_check_iff : (c : CheckCommand) → (validate_check c ≡ none) ↔ IsValidCheck c
validate_check_iff c =
    let (to, from) = validate_check_tests c in
    let (valid, accepted) = validate_point_iff c.point "command.check.validate" in
    let (filled, some_user) = not_blank c.user_id in
    (
      λ h. record {
        user = filled (to h).0;
        point = valid (to h).1;
        limit_least = (to h).2;
        limit_most = (to h).3;
      },
      λ v. from (some_user v.user, accepted v.point, v.limit_least, v.limit_most),
    )

-- A field that is left out, or has the property.
abbrev pub Given {ℓ} : {A : Type ℓ} → (A → Type 0) → Option A → Type 0
Given P none = Unit
Given P (some a) = P a

-- What an update command must satisfy.
pub record IsValidUpdate (u : UpdateIncident) : Type 0 where
  pub title : Given (λ t. ¬ IsBlank t) u.title
  pub radius : Given (λ r. pos 1 ≤ℤ r) u.radius
  pub center : Given IsValidPoint u.center

title_tests : (t : Option String) → (given blank t ≡ false) ↔ Given (λ s. ¬ IsBlank s) t
title_tests none = (λ h. tt, λ h. refl)
title_tests (some s) = not_blank s

radius_tests : (r : Option ℤ) → (given (λ n. leb_ℤ n (pos 0)) r ≡ false) ↔ Given (λ n. pos 1 ≤ℤ n) r
radius_tests none = (λ h. tt, λ h. refl)
radius_tests (some n) = ground arith

center_tests :
    (p : Option Point) (op : String) → (validate_center p op ≡ none) ↔ Given IsValidPoint p
unfolding validate_center
center_tests none op = (λ h. tt, λ h. refl)
center_tests (some p) op = validate_point_iff p op

validate_update_tests :
    (u : UpdateIncident)
    → (validate_update u ≡ none) ↔ (
        (given blank u.title ≡ false)
        × (given (λ r. leb_ℤ r (pos 0)) u.radius ≡ false)
        × (validate_center u.center "incidents.model.validate_update" ≡ none))
unfolding validate_update
validate_update_tests u = ground arith

-- An update command is accepted exactly when each field that it gives is valid: a title that is not
-- blank, a positive radius, a centre with a latitude within 90 and a longitude within 180 degrees of
-- zero (or NaN).
pub validate_update_iff : (u : UpdateIncident) → (validate_update u ≡ none) ↔ IsValidUpdate u
validate_update_iff u =
    let (to, from) = validate_update_tests u in
    let (title, some_title) = title_tests u.title in
    let (radius, some_radius) = radius_tests u.radius in
    let (center, some_center) = center_tests u.center "incidents.model.validate_update" in
    (
      λ h. record { title = title (to h).0; radius = radius (to h).1; center = center (to h).2 },
      λ v. from (some_title v.title, some_radius v.radius, some_center v.center),
    )
