-- ===== src/Handlers.antt =====
-- internal/http/handlers/incidents.go. A handler answers once, or records one error and returns:
-- `ctx.JSON(status, body)` is the value of the computation, `ctx.Error(err); return` its error.
pub mod System
pub mod Health
use geo_notifications_servic.Prelude.{
  ℕ, ◌⊎◌, inl, inr, Bool, true, false, Option, none, some, String, List, [], ◌∷◌, map, ℤ, pos,
  leb_ℤ, if◌then◌else◌,
}
use geo_notifications_servic.Errs.{
  Fields, GoError, Cause, invalid, no_cause, caused_by, new_error, wrap_error,
}
use geo_notifications_servic.Domain.{
  Point, Incident, CreateIncident, UpdateIncident, ListFilter, NearbyIncident, CheckCommand,
}
use geo_notifications_servic.Domain.Floats.{Float64}
use geo_notifications_servic.World.{Env}
use geo_notifications_servic.World.Exec.{
  M, Result, ok, err, panicked, pure, raise, map_error, ◌>>=◌, ◌>>◌,
}
use geo_notifications_servic.Middleware.{ApiError}
use geo_notifications_servic.Ports.{IncidentsRepository, TxRunner}
use geo_notifications_servic.Service
use geo_notifications_servic.Service.{CheckResult}
use System.{HealthResponse}

pub record IncidentResponse : Type 0 where
  pub id : ℕ
  pub title : String
  pub description : String
  pub center : Point
  pub radius : ℤ
  pub active : Bool
  pub created_at : ℕ
  pub updated_at : ℕ

unfoldable pub to_incident_response : Incident → IncidentResponse
to_incident_response inc = record {
  id = inc.id;
  title = inc.title;
  description = inc.description;
  center = inc.center;
  radius = inc.radius;
  active = inc.active;
  created_at = inc.created_at;
  updated_at = inc.updated_at;
}

pub record CreateIncidentRequest : Type 0 where
  pub title : String
  pub description : String
  pub center : Point
  pub radius : ℤ

pub record UpdateIncidentRequest : Type 0 where
  pub title : Option String
  pub description : Option String
  pub center : Option Point
  pub radius : Option ℤ

pub record LocationCheckRequest : Type 0 where
  pub user_id : String
  pub location : Point
  pub limit : ℤ

-- `nearbyIncident` and `locationCheckResponse`.
pub record NearbyResponse : Type 0 where
  pub incident_id : ℕ
  pub distance_meters : Float64
  pub title : String
  pub description : String
  pub center : Point
  pub radius : ℤ
  pub created_at : ℕ
  pub updated_at : ℕ

pub record LocationCheckResponse : Type 0 where
  pub count : ℕ
  pub incidents : List NearbyResponse

unfoldable pub to_nearby_response : NearbyIncident → NearbyResponse
to_nearby_response it = record {
  incident_id = it.incident_id;
  distance_meters = it.distance_meters;
  title = it.title;
  description = it.description;
  center = it.center;
  radius = it.radius;
  created_at = it.created_at;
  updated_at = it.updated_at;
}

-- The values that are written as JSON.
pub data Body : Type 0 where
  no_body : Body
  incident : IncidentResponse → Body
  incidents : List IncidentResponse → Body
  location_check : LocationCheckResponse → Body
  user_count : ℕ → Body
  health : HealthResponse → Body
  api_error : ApiError → Body
  plain_text : String → Body

pub record Answer : Type 0 where
  pub status : ℕ
  pub body : Body

-- gin and strconv: the binding of a body, with its `binding` rules, and the reading of numbers,
-- which has a value beside its error.
pub record Gin : Type 0 where
  pub bind_create : String → GoError ⊎ CreateIncidentRequest
  pub bind_update : String → GoError ⊎ UpdateIncidentRequest
  pub bind_check : String → GoError ⊎ LocationCheckRequest
  pub parse_int : String → ℤ × Option GoError
  pub atoi : String → ℤ × Option GoError
  pub parse_bool : String → Bool × Option GoError

-- `ShouldBindJSON`, and the error that an operation makes of its error.
unfoldable pub bound {ℓ} : {A : Type ℓ} → String → GoError ⊎ A → M A
bound op (inl e) = raise (new_error invalid "INVALID_JSON" op "invalid json" [] (caused_by e))
bound op (inr req) = pure req

unfoldable pub invalid_id : String → Cause → GoError
invalid_id op cause =
    new_error invalid "INVALID_ID" op "invalid id" (("id", "must be > 0") ∷ []) cause

-- `id, err := strconv.ParseInt(ctx.Param("id"), 10, 64); if err != nil || id <= 0 { … }`
unfoldable pub positive_id : String → ℤ × Option GoError → M ℤ
unfolding invalid_id
positive_id op (id, some e) = raise (invalid_id op (caused_by e))
positive_id op (id, none) = if leb_ℤ id (pos 0) then raise (invalid_id op no_cause) else pure id

-- `ctx.DefaultQuery`
abbrev pub default_query : Option String → String → String
default_query none text = text
default_query (some s) text = s

module _ (gin : Gin) (env : Env) (repo : IncidentsRepository) where
  unfoldable pub create : String → M Answer
  unfolding bound to_incident_response
  create body = do
    req ← bound "incidents.http.create" (gin.bind_create body)
    inc ← Service.create env repo (record {
      title = req.title;
      description = req.description;
      center = req.center;
      radius = req.radius;
    })
    pure (record { status = 201; body = incident (to_incident_response inc) })

  unfoldable pub get_by_id : String → M Answer
  unfolding positive_id invalid_id to_incident_response
  get_by_id id_text = do
    id ← positive_id "incidents.http.get_by_id" (gin.parse_int id_text)
    inc ← Service.get_by_id env repo id
    pure (record { status = 200; body = incident (to_incident_response inc) })

  -- A number that cannot be read is the value that is given beside the error.
  unfoldable pub list : (limit offset active_only : Option String) → M Answer
  unfolding to_incident_response
  list limit offset active_only = do
    items ← Service.list env repo (record {
      limit = (gin.atoi (default_query limit "50")).0;
      offset = (gin.atoi (default_query offset "0")).0;
      active_only = (gin.parse_bool (default_query active_only "true")).0;
    })
    pure (record { status = 200; body = incidents (map to_incident_response items) })

  unfoldable pub update : (id_text body : String) → M Answer
  unfolding bound positive_id invalid_id to_incident_response
  update id_text body = do
    id ← positive_id "incidents.http.update" (gin.parse_int id_text)
    req ← bound "incidents.http.update" (gin.bind_update body)
    inc ← Service.update env repo id (record {
      title = req.title;
      description = req.description;
      center = req.center;
      radius = req.radius;
    })
    pure (record { status = 200; body = incident (to_incident_response inc) })

  unfoldable pub deactivate : String → M Answer
  unfolding positive_id invalid_id
  deactivate id_text = do
    id ← positive_id "incidents.http.deactivate" (gin.parse_int id_text)
    Service.deactivate env repo id
    pure (record { status = 204; body = no_body })

  unfoldable pub check : TxRunner → String → M Answer
  unfolding bound to_nearby_response
  check tx body = do
    req ← bound "incidents.http.check" (gin.bind_check body)
    res ←
        Service.check_and_record env repo tx
          (record { user_id = req.user_id; point = req.location; limit = req.limit })
    pure (record {
      status = 200;
      body =
          location_check
            (record { count = res.count; incidents = map to_nearby_response res.incidents });
    })

  unfoldable pub stats : ℤ → M Answer
  stats window = do
    count ← map_error (wrap_error "incidents.http.stats") (Service.stats env repo window)
    pure (record { status = 200; body = user_count count })
