-- ===== src/Tests/Validating.antt =====
-- Commands that are accepted or rejected.
use geo_notifications_servic.Prelude.{◌≡◌, ◌↔◌, none, [], ◌∷◌, ◌++◌, pos, String, leb_ℤ, List}
use geo_notifications_servic.Errs.{GoError, app, conflict, caused_by, pg_error}
use geo_notifications_servic.Errs.Laws.{report, wrap_all}
use geo_notifications_servic.Domain.{CreateIncident, blank, validate_point, validate_create}
use geo_notifications_servic.Domain.Validation.{
  IsValidCreate, validate_create_iff, told, first_report, rejected, problem, validate_create_report,
}
use geo_notifications_servic.Middleware.{map_err}
use geo_notifications_servic.Middleware.Responses.{described, map_err-wrap_all}
use geo_notifications_servic.Tests.Samples.{spot, broken}

abbrev unnamed : CreateIncident
unnamed = record { title = " "; description = ""; center = spot; radius = pos 5 }

validate_create_iff_example : (validate_create unnamed ≡ none) ↔ IsValidCreate unnamed
validate_create_iff_example = validate_create_iff unnamed

validate_create_report_example :
    told (validate_create unnamed)
    ≡ first_report (told (validate_point spot "incidents.model.validate_create")) (
        rejected "INCIDENT_INVALID" (
          problem (blank " ") "title" "is required"
          ++ problem (leb_ℤ (pos 5) (pos 0)) "radius" "must be > 0"))
validate_create_report_example = validate_create_report unnamed

abbrev ops : List String
ops = "incidents.service.create" ∷ "incidents.repo.create" ∷ []

-- A conflict that the database has reported.
abbrev taken : GoError
taken = app conflict "CONFLICT" "db" "already there" [] (caused_by (pg_error "23505" "duplicate"))

map_err-wrap_all_example :
    map_err (wrap_all ("incidents.service.create" ∷ ops) broken) ≡ described (report broken)
map_err-wrap_all_example = map_err-wrap_all "incidents.service.create" ops broken

abbrev secret : String
secret = "secret"
