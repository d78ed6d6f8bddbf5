-- ===== src/Tests/Checking.antt =====
-- A location check over HTTP, near one incident.
use geo_notifications_servic.Prelude.{◌≡◌, refl, List, [], ◌∷◌, length, inr, trim_space}
use geo_notifications_servic.World.Exec.{ok}
use geo_notifications_servic.Domain.{NearbyIncident, validate_check, validate_point}
use geo_notifications_servic.Domain.Validation.{IsValidCheck}
use geo_notifications_servic.Incidents.{find_nearby, record_check}
use geo_notifications_servic.Incidents.Rows.{
  scan_descriptions, nearest_first, has_duplicate, to_nearby,
}
use geo_notifications_servic.Outbox.{enqueue}
use geo_notifications_servic.Db.{within_tx_root}
use geo_notifications_servic.Service.{check_and_record, incident_ids}
use geo_notifications_servic.Service.Checks.{Recorded}
use geo_notifications_servic.Service.Atomicity.{found}
use geo_notifications_servic.Handlers
use geo_notifications_servic.Handlers.{
  LocationCheckRequest, LocationCheckResponse, bound, to_nearby_response, location_check,
}
use geo_notifications_servic.Router.{
  App, Request, post, serve, handlers, dispatch, is_protected, route, with_error, recovered,
}
use geo_notifications_servic.Router.Checks.{checked, response, over_database, check_served}
use geo_notifications_servic.Tests.Samples.{good, start, fire_nearby}
use geo_notifications_servic.Tests.Serving.{gin, app, asking}

abbrev kept : App
kept = over_database gin good 60 (app good)

-- Without a key.
abbrev pub checking : Request
checking = record (asking ("location" ∷ "check" ∷ []) "") { method = post }

abbrev pub shown : LocationCheckResponse
shown = response (fire_nearby ∷ []) 1

answered :
    (serve gin good kept checking start).0.answer
    ≡ record { status = 200; body = location_check shown }
unfolding serve route is_protected handlers dispatch Handlers.check bound to_nearby_response
    with_error recovered check_and_record validate_check trim_space validate_point find_nearby
    scan_descriptions nearest_first within_tx_root record_check has_duplicate to_nearby enqueue
answered = refl

check_served_example :
    (asked : LocationCheckRequest) × (inc : List NearbyIncident) × (gin.bind_check checking.body
      ≡ inr asked)
    × IsValidCheck (checked asked)
    × ((found good (checked asked) start).0 ≡ ok inc)
    × (shown ≡ response inc (length inc))
    × Recorded good
        (checked asked)
        (incident_ids inc)
        (good.clock (found good (checked asked) start).1.calls)
        start.tables
        (serve gin good kept checking start).1.tables
check_served_example = check_served gin good 60 (app good) checking start shown refl refl answered
