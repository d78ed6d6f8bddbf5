-- ===== src/Tests/Posting.antt =====
-- An incident that is created over HTTP and read again.
use geo_notifications_servic.Prelude.{◌≡◌, refl, true, [], ◌∷◌, pos, inr, trim_space, arith}
use geo_notifications_servic.Domain.{Incident, validate_create, validate_point}
use geo_notifications_servic.Domain.Validation.{IsValidCreate}
use geo_notifications_servic.Incidents
use geo_notifications_servic.Incidents.Rows.{to_domain, null_string}
use geo_notifications_servic.Incidents.Lifecycle.{HasFreshIds}
use geo_notifications_servic.Service
use geo_notifications_servic.Service.RoundTrips.{Created}
use geo_notifications_servic.Cache.{bumped}
use geo_notifications_servic.Middleware.{api_key}
use geo_notifications_servic.Handlers
use geo_notifications_servic.Handlers.{
  CreateIncidentRequest, IncidentResponse, bound, incident, to_incident_response,
}
use geo_notifications_servic.Router.{
  App, Request, post, serve, handlers, dispatch, is_protected, route, with_error, recovered,
}
use geo_notifications_servic.Router.Steps.{command}
use geo_notifications_servic.Router.RoundTrips.{over_cache, post_then_get}
use geo_notifications_servic.Tests.Samples.{good, start, spot}
use geo_notifications_servic.Tests.Serving.{gin, app, asking}

fresh : HasFreshIds start
fresh = (omega arith, (omega arith, tt))

abbrev kept : App
kept = over_cache gin good 60 (app good)

abbrev posting : Request
posting = record (asking ("incidents" ∷ []) "secret") { method = post }

abbrev reading : Request
reading = asking ("incidents" ∷ "2" ∷ []) "secret"

abbrev flood : IncidentResponse
flood = record {
  id = 2;
  title = "flood";
  description = "";
  center = spot;
  radius = pos 7;
  active = true;
  created_at = 0;
  updated_at = 0;
}

posted :
    (serve gin good kept posting start).0.answer ≡ record { status = 201; body = incident flood }
unfolding serve route is_protected handlers dispatch api_key Handlers.create bound
    to_incident_response with_error recovered bumped Service.create Incidents.create validate_create
    validate_point trim_space to_domain null_string
posted = refl

post_then_get_example :
    ((req : CreateIncidentRequest) × (inc : Incident) × (gin.bind_create posting.body ≡ inr req)
      × IsValidCreate (command req)
      × Created (command req) inc
      × (flood ≡ to_incident_response inc))
    × ((serve gin good kept reading (serve gin good kept posting start).1).0.answer
        ≡ record { status = 200; body = incident flood })
post_then_get_example =
    post_then_get gin good 60 (app good) start posting reading flood "2" fresh refl refl posted refl
      refl refl refl refl refl
