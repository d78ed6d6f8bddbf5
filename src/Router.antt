-- ===== src/Router.antt =====
-- internal/http/router.go with the middleware that it installs (internal/platform/middleware): what
-- is answered to a request. gin calls the handlers in the order in which they are installed; one that
-- aborts stops the later ones, and each of the earlier ones goes on where it called `Next`.
pub mod Keys
pub mod Told
pub mod Failures
pub mod Health
pub mod Steps
pub mod RoundTrips
pub mod Checks
use geo_notifications_servic.Prelude.{
  ℕ, Bool, true, false, Option, none, some, String, List, [], ◌∷◌, ℤ, str_eq, leb, ltb_ℤ,
  if◌then◌else◌,
}
use geo_notifications_servic.Errs.{GoError, internal, no_cause, new_error}
use geo_notifications_servic.World.{World, Env}
use geo_notifications_servic.World.Exec.{Result, ok, err, panicked, M, pure, raise, ◌>>=◌}
use geo_notifications_servic.Ports.{IncidentsRepository, TxRunner}
use geo_notifications_servic.Logger.{Level, level_info, level_warn, level_error}
use geo_notifications_servic.Middleware.{Response, respond, api_key}
use geo_notifications_servic.Handlers
use geo_notifications_servic.Handlers.{Gin, Answer, Body, health, api_error, plain_text, no_body}
use geo_notifications_servic.Handlers.System
use geo_notifications_servic.Handlers.System.{Dependency}

pub data Method : Type 0 where
  get post put patch delete other : Method

-- The path is given by its segments after `/api/v1`, none of which is empty (gin redirects a path that
-- ends in a slash to the one without it); a header or parameter that is missing is empty,
-- or none where the code tells the difference.
pub record Request : Type 0 where
  pub method : Method
  pub path : List String
  pub body : String
  pub api_key : String
  pub request_id : String
  pub limit : Option String
  pub offset : Option String
  pub active_only : Option String

pub data Route : Type 0 where
  to_health to_create to_list to_stats to_check : Route
  to_get to_update to_deactivate : String → Route

one_incident : Method → String → Option Route
one_incident get id = some (if str_eq id "stats" then to_stats else to_get id)
one_incident put id = some (to_update id)
one_incident patch id = some (to_update id)
one_incident delete id = some (to_deactivate id)
one_incident post id = none
one_incident other id = none

all_incidents : Method → Option Route
all_incidents get = some to_list
all_incidents post = some to_create
all_incidents put = none
all_incidents patch = none
all_incidents delete = none
all_incidents other = none

only_get : Route → Method → Option Route
only_get r get = some r
only_get r post = none
only_get r put = none
only_get r patch = none
only_get r delete = none
only_get r other = none

only_post : Route → Method → Option Route
only_post r post = some r
only_post r get = none
only_post r put = none
only_post r patch = none
only_post r delete = none
only_post r other = none

-- `setupRoutes`; gin prefers the route of a fixed segment to that of a parameter.
unfoldable pub route : Method → List String → Option Route
unfolding one_incident all_incidents only_get only_post
route m [] = none
route m (a ∷ []) =
    if str_eq a "health"
    then only_get to_health m
    else if str_eq a "incidents"
    then all_incidents m
    else none
route m (a ∷ b ∷ []) =
    if str_eq a "incidents"
    then one_incident m b
    else if str_eq a "location"
    then if str_eq b "check" then only_post to_check m else none
    else none
route m (a ∷ b ∷ c ∷ rest) = none

-- The group `protected`.
unfoldable pub is_protected : Route → Bool
is_protected to_health = false
is_protected to_check = false
is_protected to_create = true
is_protected to_list = true
is_protected to_stats = true
is_protected (to_get id) = true
is_protected (to_update id) = true
is_protected (to_deactivate id) = true

-- What `main` builds the router from.
pub record App : Type 0 where
  pub repo : IncidentsRepository
  pub tx : TxRunner
  pub deps : List Dependency
  pub stats_window : ℤ
  pub api_key : String
  pub min_level : Level
  -- `newRequestID` at a call: the text of 16 random bytes, or none where they cannot be read.
  pub random_id : ℕ → Option String

unfoldable pub health_answer : Env → List Dependency → M Answer
health_answer env deps =
    System.health env deps >>= λ r. pure (record { status = r.1; body = health r.0 })

module _ (gin : Gin) (env : Env) (app : App) where
  unfoldable pub dispatch : Request → Route → M Answer
  unfolding health_answer
  dispatch req to_health = health_answer env app.deps
  dispatch req to_create = Handlers.create gin env app.repo req.body
  dispatch req to_list = Handlers.list gin env app.repo req.limit req.offset req.active_only
  dispatch req to_stats = Handlers.stats gin env app.repo app.stats_window
  dispatch req to_check = Handlers.check gin env app.repo app.tx req.body
  dispatch req (to_get id) = Handlers.get_by_id gin env app.repo id
  dispatch req (to_update id) = Handlers.update gin env app.repo id req.body
  dispatch req (to_deactivate id) = Handlers.deactivate gin env app.repo id

  unfoldable pub guarded : Option GoError → M Answer → M Answer
  guarded (some e) m = raise e
  guarded none m = m

  -- The handlers of a route, `APIKey` included.
  unfoldable pub handlers : Request → Option Route → M Answer
  unfolding guarded
  handlers req none = pure (record { status = 404; body = plain_text "404 page not found" })
  handlers req (some r) =
      if is_protected r
      then guarded (api_key app.api_key req.api_key) (dispatch req r)
      else dispatch req r

-- `Recovery`: a panic becomes an error.
panic_error : GoError
panic_error =
    new_error internal "PANIC" "http.middleware.panic_recovery" "internal server error" [] no_cause

unfoldable pub recovered : Result Answer → Result Answer
unfolding panic_error
recovered (ok a) = ok a
recovered (err e) = err e
recovered (panicked p) = err panic_error

-- `Error`: the answer to a request whose handlers have recorded an error. The last clause is not
-- reached: a response is written where an error is recorded and none has been written.
abbrev error_answer : Option Response → Answer
error_answer (some r) = record { status = r.status; body = api_error r.resp }
error_answer none = record { status = 200; body = no_body }

unfoldable pub with_error : String → Result Answer → Answer
with_error request_id (ok a) = a
with_error request_id (err e) = error_answer (respond request_id (e ∷ []) false)
with_error request_id (panicked p) = record { status = 500; body = no_body }

-- `GinStructuredLogger`: the level at which a response is logged, if it is.
unfoldable pub access_level : Level → ℕ → Option Level
access_level min_level status =
    let level =
      if leb 500 status then level_error else if leb 400 status then level_warn else level_info in
    if ltb_ℤ level min_level then none else some level

-- `RequestID`
abbrev zeros : String
zeros = "00000000000000000000000000000000"

abbrev or_zeros : Option String → String
or_zeros none = zeros
or_zeros (some s) = s

unfoldable pub request_id_of : App → Request → World → String
request_id_of app req w =
    if str_eq req.request_id "" then or_zeros (app.random_id w.calls) else req.request_id

-- A response, with its header `X-Request-Id` and the level at which it is logged.
pub record Served : Type 0 where
  pub answer : Answer
  pub request_id : String
  pub logged : Option Level

-- `NewRouter`: the chain for a request.
unfoldable pub serve : Gin → Env → App → Request → World → Served × World
serve gin env app req w =
    let rid = request_id_of app req w in
    let (r, w') = handlers gin env app req (route req.method req.path) w in
    let answer = with_error rid (recovered r) in
    (
      record {
        answer = answer;
        request_id = rid;
        logged = access_level app.min_level answer.status;
      },
      w',
    )
