-- ===== src/System/Requests.antt =====
-- What a request over HTTP leaves as it was.
use geo_notifications_servic.Prelude.{
  ◌⊎◌, inl, inr, ℕ, Option, none, some, String, List, [], ◌∷◌, ℤ, pos, leb_ℤ, All,
}
use geo_notifications_servic.Errs.{GoError, wrap_error}
use geo_notifications_servic.Domain.{
  Point, CreateIncident, UpdateIncident, ListFilter, CheckCommand,
}
use geo_notifications_servic.World.{World, Env, Tables}
use geo_notifications_servic.Db.Keeps.{
  Keeps, SameOutside, Keeps-pure, Keeps-raise, Keeps-clock, Keeps-map_error, Keeps-error_of,
  Keeps-if, Keeps-bind,
}
use geo_notifications_servic.Ports.{IncidentsRepository, TxRunner}
use geo_notifications_servic.Service
use geo_notifications_servic.Handlers
use geo_notifications_servic.Handlers.{Gin}
use geo_notifications_servic.Handlers.System
use geo_notifications_servic.Handlers.System.{Dependency, HealthResponse, ping_all}
use geo_notifications_servic.Router.{
  App, Request, Route, route, serve, handlers, dispatch, health_answer, guarded, is_protected,
  to_health, to_create, to_list, to_stats, to_check, to_get, to_update, to_deactivate,
}

-- What the calls that the service makes keep of the tables.
pub record KeptPorts (P : Tables → Type 0) (env : Env) (repo : IncidentsRepository) (tx : TxRunner)
    : Type 0 where
  pub create : (c : CreateIncident) → Keeps P (repo.create c)
  pub get_by_id : (id : ℤ) → Keeps P (repo.get_by_id id)
  pub list : (f : ListFilter) → Keeps P (repo.list f)
  pub update : (id : ℤ) (u : UpdateIncident) → Keeps P (repo.update id u)
  pub deactivate : (id : ℤ) → Keeps P (repo.deactivate id)
  pub find_nearby : (p : Point) (limit : ℤ) → Keeps P (repo.find_nearby p limit)
  pub count : (since : ℕ) → Keeps P (repo.count_unique_users_since since)
  pub record_and_publish :
      (c : CheckCommand) (ids : List ℕ)
      → Keeps P (tx.within_tx (Service.record_and_publish env c ids))

module _ {P : Tables → Type 0} (env : Env) (repo : IncidentsRepository) (tx : TxRunner)
    (k : KeptPorts P env repo tx) where
  Keeps-check_valid : (op : String) (e : Option GoError) → Keeps P (Service.check_valid op e)
  unfolding Service.check_valid
  Keeps-check_valid op none = Keeps-pure tt
  Keeps-check_valid op (some e) = Keeps-raise _

  Keeps-check_id : (op : String) (id : ℤ) → Keeps P (Service.check_id op id)
  unfolding Service.check_id
  Keeps-check_id op id = Keeps-if (leb_ℤ id (pos 0)) _ _ (Keeps-raise _) (Keeps-pure tt)

  Keeps-bound : {A : Type 0} (op : String) (b : GoError ⊎ A) → Keeps P (Handlers.bound op b)
  unfolding Handlers.bound
  Keeps-bound op (inl e) = Keeps-raise _
  Keeps-bound op (inr a) = Keeps-pure a

  Keeps-positive_id :
      (op : String) (id : ℤ) (e : Option GoError) → Keeps P (Handlers.positive_id op (id, e))
  unfolding Handlers.positive_id
  Keeps-positive_id op id (some e) = Keeps-raise _
  Keeps-positive_id op id none = Keeps-if (leb_ℤ id (pos 0)) _ _ (Keeps-raise _) (Keeps-pure id)

  Keeps-check_and_record : (c : CheckCommand) → Keeps P (Service.check_and_record env repo tx c)
  unfolding Service.check_and_record
  Keeps-check_and_record c = Keeps-bind _ _ (Keeps-check_valid _ _) λ _.
      Keeps-bind _ _ (Keeps-map_error _ _ (k.find_nearby c.point c.limit))
        λ inc. Keeps-bind _ _ (Keeps-map_error _ _ (k.record_and_publish c _)) λ _. Keeps-pure _

  Keeps-service_stats : (window : ℤ) → Keeps P (Service.stats env repo window)
  unfolding Service.stats
  Keeps-service_stats window = Keeps-if (leb_ℤ window (pos 0)) _ _ (Keeps-raise _) (
      Keeps-bind _ _ (Keeps-clock _) (λ since.
        Keeps-map_error (wrap_error "incidents.service.stats") (repo.count_unique_users_since since)
          (k.count since)))

  module _ (gin : Gin) where
    Keeps-create : (body : String) → Keeps P (Handlers.create gin env repo body)
    unfolding Handlers.create Service.create
    Keeps-create body = Keeps-bind _ _ (Keeps-bound _ (gin.bind_create body)) λ req.
        Keeps-bind _ _
          (Keeps-bind _ _ (Keeps-check_valid _ _) (λ _. Keeps-map_error _ _ (k.create _)))
          (λ inc. Keeps-pure _)

    Keeps-get_by_id : (text : String) → Keeps P (Handlers.get_by_id gin env repo text)
    unfolding Handlers.get_by_id Service.get_by_id
    Keeps-get_by_id text =
        Keeps-bind _ _ (Keeps-positive_id _ (gin.parse_int text).0 (gin.parse_int text).1) λ id.
          Keeps-bind _ _
            (Keeps-bind _ _ (Keeps-check_id _ id) (λ _. Keeps-map_error _ _ (k.get_by_id id)))
            (λ inc. Keeps-pure _)

    Keeps-list :
        (limit offset active_only : Option String)
        → Keeps P (Handlers.list gin env repo limit offset active_only)
    unfolding Handlers.list Service.list
    Keeps-list limit offset active_only =
        Keeps-bind _ _ (Keeps-map_error _ _ (k.list _)) (λ items. Keeps-pure _)

    Keeps-update : (text body : String) → Keeps P (Handlers.update gin env repo text body)
    unfolding Handlers.update Service.update
    Keeps-update text body =
        Keeps-bind _ _ (Keeps-positive_id _ (gin.parse_int text).0 (gin.parse_int text).1) λ id.
          Keeps-bind _ _ (Keeps-bound _ (gin.bind_update body)) λ req.
            Keeps-bind _ _
              (Keeps-bind _ _ (Keeps-check_id _ id) λ _.
                Keeps-bind _ _ (Keeps-check_valid _ _) (λ _. Keeps-map_error _ _ (k.update id _)))
              (λ inc. Keeps-pure _)

    Keeps-deactivate : (text : String) → Keeps P (Handlers.deactivate gin env repo text)
    unfolding Handlers.deactivate Service.deactivate
    Keeps-deactivate text =
        Keeps-bind _ _ (Keeps-positive_id _ (gin.parse_int text).0 (gin.parse_int text).1) λ id.
          Keeps-bind _ _
            (Keeps-bind _ _ (Keeps-check_id _ id) (λ _. Keeps-map_error _ _ (k.deactivate id)))
            (λ _. Keeps-pure _)

    Keeps-check : (body : String) → Keeps P (Handlers.check gin env repo tx body)
    unfolding Handlers.check
    Keeps-check body =
        Keeps-bind _ _ (Keeps-bound _ (gin.bind_check body))
          λ req. Keeps-bind _ _ (Keeps-check_and_record _) (λ res. Keeps-pure _)

    Keeps-stats : (window : ℤ) → Keeps P (Handlers.stats gin env repo window)
    unfolding Handlers.stats
    Keeps-stats window =
        Keeps-bind _ _ (Keeps-map_error _ _ (Keeps-service_stats window)) (λ n. Keeps-pure _)

Keeps-ping_all :
    {P : Tables → Type 0} (deps : List Dependency) (state : HealthResponse × ℕ)
    → All (λ d. Keeps P d.ping) deps
    → Keeps P (ping_all deps state)
unfolding ping_all
Keeps-ping_all [] state h = Keeps-pure state
Keeps-ping_all (d ∷ ds) state (h, hs) =
    Keeps-bind _ _ (Keeps-error_of d.ping h) (λ e. Keeps-ping_all ds _ hs)

module _ {P : Tables → Type 0} (gin : Gin) (env : Env) (app : App)
    (k : KeptPorts P env app.repo app.tx)
    (pings : All (λ (d : Dependency). Keeps P d.ping) app.deps) where
  Keeps-dispatch : (req : Request) (r : Route) → Keeps P (dispatch gin env app req r)
  unfolding dispatch health_answer System.health
  Keeps-dispatch req to_health = record {
    at = λ w h.
        (Keeps-bind (ping_all app.deps _) _ (Keeps-ping_all app.deps _ pings)
            (λ r. Keeps-pure _)).at
          w h;
  }
  Keeps-dispatch req to_create = Keeps-create env app.repo app.tx k gin req.body
  Keeps-dispatch req to_list =
      Keeps-list env app.repo app.tx k gin req.limit req.offset req.active_only
  Keeps-dispatch req to_stats = Keeps-stats env app.repo app.tx k gin app.stats_window
  Keeps-dispatch req to_check = Keeps-check env app.repo app.tx k gin req.body
  Keeps-dispatch req (to_get id) = Keeps-get_by_id env app.repo app.tx k gin id
  Keeps-dispatch req (to_update id) = Keeps-update env app.repo app.tx k gin id req.body
  Keeps-dispatch req (to_deactivate id) = Keeps-deactivate env app.repo app.tx k gin id

  Keeps-guarded :
      (stop : Option GoError) (req : Request) (r : Route)
      → Keeps P (guarded gin env app stop (dispatch gin env app req r))
  unfolding guarded
  Keeps-guarded none req r = Keeps-dispatch req r
  Keeps-guarded (some e) req r = Keeps-raise e

  Keeps-handlers : (req : Request) (r : Option Route) → Keeps P (handlers gin env app req r)
  unfolding handlers
  Keeps-handlers req none = Keeps-pure _
  Keeps-handlers req (some r) =
      Keeps-if (is_protected r) _ _ (Keeps-guarded _ req r) (Keeps-dispatch req r)

  -- A request keeps what the calls of the service and the pings keep.
  pub serve-keeps :
      (req : Request) (w : World)
      → P w.tables
      → P (serve gin env app req w).1.tables × SameOutside w (serve gin env app req w).1
  unfolding serve
  serve-keeps req w h = (Keeps-handlers req (route req.method req.path)).at w h
