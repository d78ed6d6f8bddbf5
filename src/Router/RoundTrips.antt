-- ===== src/Router/RoundTrips.antt =====
-- An incident that is created over HTTP, and read again.
use geo_notifications_servic.Prelude.{
  arith, ◌≡◌, refl, sym, ap, ◌∙◌, inr, String, [], ◌∷◌, ℕ, pos, none, str_eq, false, some, leb_ℤ,
  ◌<◌,
}
use geo_notifications_servic.Domain.{Incident}
use geo_notifications_servic.Domain.Validation.{IsValidCreate, validate_create_iff}
use geo_notifications_servic.World.{World, Env, fine, IncidentRow}
use geo_notifications_servic.World.Exec.{ok}
use geo_notifications_servic.Db.{pool}
use geo_notifications_servic.Ports.{IncidentsRepository}
use geo_notifications_servic.Incidents
use geo_notifications_servic.Incidents.Rows.{to_domain}
use geo_notifications_servic.Incidents.Lookup.{lookup, get_by_id-found}
use geo_notifications_servic.Incidents.Lifecycle.{
  HasFreshIds, new_incident, create-added, lookup-create,
}
use geo_notifications_servic.TxRunner.{base_repository}
use geo_notifications_servic.Service.RoundTrips.{
  Created, Created-created, create-passed, get_by_id-passes, positive_id,
}
use geo_notifications_servic.Cache.{cached_repository}
use geo_notifications_servic.Cache.Writes.{bumped-ok}
use geo_notifications_servic.Middleware.{api_key}
use geo_notifications_servic.Handlers.{
  Gin, CreateIncidentRequest, IncidentResponse, to_incident_response, incident,
}
use geo_notifications_servic.Router.{
  App, Request, to_create, to_get, get, post, route, is_protected, serve, handlers, dispatch,
  request_id_of,
}
use geo_notifications_servic.Router.Failures.{serve-answer, answer_for}
use geo_notifications_servic.Router.Steps.{
  command, made_ok, create_handled, get_handled, passed, had_key,
}

module _ (gin : Gin) (env : Env) (ttl : ℕ) (app : App) where
  abbrev pub cached : IncidentsRepository
  cached = cached_repository env ttl (base_repository env)

  abbrev pub over_cache : App
  over_cache = record app { repo = cached }

  -- An incident that is stored is read by a request with the key.
  stored_then_get :
      (asked : Request) (text : String) (inc : Incident) (row : IncidentRow) (v : World)
      → asked.method ≡ get
      → asked.path ≡ "incidents" ∷ text ∷ []
      → str_eq text "stats" ≡ false
      → api_key app.api_key asked.api_key ≡ none
      → gin.parse_int text ≡ (pos inc.id, none)
      → env.reply v.calls ≡ fine
      → inc ≡ to_domain row
      → 0 < row.id
      → lookup (pos inc.id) v.tables.incidents ≡ some row
      → (serve gin env over_cache asked v).0.answer
        ≡ record { status = 200; body = incident (to_incident_response inc) }
  unfolding route is_protected dispatch
  stored_then_get asked text inc row v method path other open_ read up same positive found =
      let least : leb_ℤ (pos inc.id) (pos 0) ≡ false = rw same (positive_id row positive) in
      let routed : route asked.method asked.path ≡ some (to_get text) =
        rw (method, path, other) refl in
      let at_v = get_by_id-found env (pos inc.id) v row up found ∙ ap ok (sym same) in
      serve-answer gin env over_cache asked v
      ∙ ap (λ r. answer_for (request_id_of over_cache asked v) r.0)
          (passed gin env over_cache asked v (to_get text) routed open_)
      ∙ ap (answer_for (request_id_of over_cache asked v)) (
          get_handled gin env cached v text inc read least
            (get_by_id-passes env cached v (pos inc.id) inc least at_v))

  -- Over a database in which the ids in use are below the next one, which is positive, if POST
  -- /incidents is answered by an incident with status 201, then the body was read as a request whose
  -- command is valid, the answer shows a new active incident with the fields of the command, and GET
  -- /incidents/{id} with the same key and the id of the answer, if it follows and the database answers,
  -- is answered by the same incident with status 200; whether the cache answers or not.
  pub post_then_get :
      (w : World) (made asked : Request) (shown : IncidentResponse) (text : String)
      → HasFreshIds w
      → made.method ≡ post
      → made.path ≡ "incidents" ∷ []
      → (serve gin env over_cache made w).0.answer ≡ record { status = 201; body = incident shown }
      → asked.method ≡ get
      → asked.path ≡ "incidents" ∷ text ∷ []
      → str_eq text "stats" ≡ false
      → asked.api_key ≡ made.api_key
      → gin.parse_int text ≡ (pos shown.id, none)
      → let w' = (serve gin env over_cache made w).1 in
        env.reply w'.calls ≡ fine
        → ((req : CreateIncidentRequest) × (inc : Incident) × (gin.bind_create made.body ≡ inr req)
            × IsValidCreate (command req)
            × Created (command req) inc
            × (shown ≡ to_incident_response inc))
          × ((serve gin env over_cache asked w').0.answer
              ≡ record { status = 200; body = incident shown })
  unfolding route is_protected dispatch serve to_incident_response
  post_then_get w made asked shown text fresh method path h method' path' other same_key read up =
      let routed : route made.method made.path ≡ some to_create = rw (method, path) refl in
      let result = handlers gin env over_cache made (route made.method made.path) w in
      let finished =
        made_ok (request_id_of over_cache made w) result.0 201 (incident shown) (omega arith)
          (sym (serve-answer gin env over_cache made w) ∙ h) in
      let open_ = had_key gin env over_cache made w to_create _ refl (rw routed at finished) in
      let same = passed gin env over_cache made w to_create routed open_ in
      let (req, inc, read_body, created_, seen, left) =
        create_handled gin env cached w made.body _ shown refl
          (ap (λ r. r.0) (sym same) ∙ finished) in
      let (valid, stored, service_left) = create-passed env cached w (command req) inc created_ in
      let (base, tables) = bumped-ok env (Incidents.create env pool (command req)) w inc stored in
      let (answer, rows) = create-added env (command req) w inc base in
      let at_v : (serve gin env over_cache made w).1.tables
          ≡ (Incidents.create env pool (command req) w).1.tables =
        ap (λ r. r.1.tables) same
        ∙ ap (λ v. v.tables) left
        ∙ ap (λ v. v.tables) service_left
        ∙ tables in
      (
        (
          req,
          inc,
          read_body,
          (validate_create_iff (command req)).0 valid,
          rw answer (Created-created (command req) w.sequences.incident_id (env.clock w.calls)),
          seen,
        ),
        rw seen (
            stored_then_get asked text inc (new_incident env (command req) w)
              (serve gin env over_cache made w).1 method' path' other (rw same_key open_)
              (read ∙ ap (λ s. (pos s.id, none)) seen) up answer fresh.0
              (rw at_v (lookup-create env (command req) w inc fresh base))),
      )
