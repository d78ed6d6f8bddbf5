-- ===== src/Router/Steps.antt =====
-- What a request for one incident that succeeds has done.
use geo_notifications_servic.Prelude.{
  ℕ, ◌≤◌, ◌<◌, ◌≡◌, ◌≢◌, refl, ap, ◌⊎◌, inl, inr, String, pos, none, false, true, some,
  Option-cases, Bool-cases, arith, leb_ℤ,
}
use geo_notifications_servic.Errs.{
  GoError, Kind, invalid, not_found, unauthorized, forbidden, conflict, internal,
}
use geo_notifications_servic.Errs.Laws.{report}
use geo_notifications_servic.Domain.{Incident, CreateIncident}
use geo_notifications_servic.World.{World, Env}
use geo_notifications_servic.World.Exec.{Result, ok, err, panicked, M}
use geo_notifications_servic.Db.Inversion.{continue-eq-ok}
use geo_notifications_servic.Ports.{IncidentsRepository}
use geo_notifications_servic.Service
use geo_notifications_servic.Middleware.{api_key}
use geo_notifications_servic.Middleware.Responses.{status_of}
use geo_notifications_servic.Handlers
use geo_notifications_servic.Handlers.{
  Gin, Answer, Body, CreateIncidentRequest, IncidentResponse, to_incident_response, bound, incident,
}
use geo_notifications_servic.Router.{App, Request, Route, route, is_protected, handlers, dispatch}
use geo_notifications_servic.Router.Failures.{answer_for}

-- The status of an error is 400 at least.
status_of-le : (k : Kind) → 400 ≤ status_of k
status_of-le invalid = omega arith
status_of-le not_found = omega arith
status_of-le unauthorized = omega arith
status_of-le forbidden = omega arith
status_of-le conflict = omega arith
status_of-le internal = omega arith

refused_not : (k : Kind) (status : ℕ) → status < 400 → status_of k ≢ status
refused_not k status low h = let high = status_of-le k in omega arith

-- A lower one is an answer of the handlers.
pub made_ok :
    (request_id : String) (r : Result Answer) (status : ℕ) (b : Body)
    → status < 400
    → answer_for request_id r ≡ record { status = status; body = b }
    → r ≡ ok (record { status = status; body = b })
made_ok request_id (ok a) status b low h = ap ok h
made_ok request_id (err e) status b low h =
    absurd (refused_not (report e).kind status low (ap (λ a. a.status) h))
made_ok request_id (panicked p) status b low h =
    absurd (refused_not internal status low (ap (λ a. a.status) h))

-- The command that the handler makes of a request.
abbrev pub command : CreateIncidentRequest → CreateIncident
command req = record {
  title = req.title;
  description = req.description;
  center = req.center;
  radius = req.radius;
}

module _ (gin : Gin) (env : Env) (repo : IncidentsRepository) (w : World) where
  abbrev answered : Incident → M Answer
  answered inc u = (ok (record { status = 201; body = incident (to_incident_response inc) }), u)

  pub create_handled :
      (body : String) (b : GoError ⊎ CreateIncidentRequest) (shown : IncidentResponse)
      → gin.bind_create body ≡ b
      → (Handlers.create gin env repo body w).0
        ≡ ok (record { status = 201; body = incident shown })
      → (req : CreateIncidentRequest) × (inc : Incident) × (b ≡ inr req)
        × ((Service.create env repo (command req) w).0 ≡ ok inc)
        × (shown ≡ to_incident_response inc)
        × ((Handlers.create gin env repo body w).1 ≡ (Service.create env repo (command req) w).1)
  unfolding Handlers.create bound to_incident_response
  create_handled body (inl e) shown same h = absurd (let failed = rw same at h in cc)
  create_handled body (inr req) shown same h =
      let r = Service.create env repo (command req) w in
      let (inc, made, seen, left) = continue-eq-ok r.0 answered r.1 (rw same at h) in
      (req, inc, refl, made, cc, rw same (ap (λ p. p.1) left))

  pub get_handled :
      (text : String) (inc : Incident)
      → gin.parse_int text ≡ (pos inc.id, none)
      → leb_ℤ (pos inc.id) (pos 0) ≡ false
      → (Service.get_by_id env repo (pos inc.id) w).0 ≡ ok inc
      → (Handlers.get_by_id gin env repo text w).0
        ≡ ok (record { status = 200; body = incident (to_incident_response inc) })
  unfolding Handlers.get_by_id Handlers.positive_id Handlers.invalid_id to_incident_response
  get_handled text inc read least h = rw (read, least, h) refl

module _ (gin : Gin) (env : Env) (app : App) (req : Request) (w : World) where
  -- A request that has the key is handled.
  pub passed :
      (r : Route)
      → route req.method req.path ≡ some r
      → api_key app.api_key req.api_key ≡ none
      → handlers gin env app req (route req.method req.path) w ≡ dispatch gin env app req r w
  unfolding handlers
  passed r found open_ = elim (Bool-cases (is_protected r)) [
    | inl protected ↦ rw (found, protected, open_) refl
    | inr free ↦ rw (found, free) refl
  ]

  -- One to a protected route that succeeds has it.
  pub had_key :
      (r : Route) (a : Answer)
      → is_protected r ≡ true
      → (handlers gin env app req (some r) w).0 ≡ ok a
      → api_key app.api_key req.api_key ≡ none
  unfolding handlers
  had_key r a protected h = elim (Option-cases (api_key app.api_key req.api_key)) [
    | inl open_ ↦ open_
    | inr (e, stopped) ↦ absurd (let failed = rw (protected, stopped) at h in cc)
  ]
