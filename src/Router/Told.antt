-- ===== src/Router/Told.antt =====
-- Every error that a handler records is an *errs.Error, whatever the repositories return.
use geo_notifications_servic.Prelude.{
  ℕ, ◌≡◌, refl, ◌⊎◌, Bool, true, false, Option, none, some, String, List, [], ◌∷◌, ℤ, pos, leb_ℤ,
  inl, inr, if◌then◌else◌,
}
use geo_notifications_servic.Errs.{
  GoError, Error, Kind, Fields, Cause, as_error, wrap_error, new_error,
}
use geo_notifications_servic.Domain.{CreateIncident, UpdateIncident, CheckCommand}
use geo_notifications_servic.World.{World, Env}
use geo_notifications_servic.World.Exec.{
  Result, ok, err, panicked, M, pure, raise, map_error, continue, map_result_error, error_of,
  caught, ◌>>=◌,
}
use geo_notifications_servic.Ports.{IncidentsRepository, TxRunner}
use geo_notifications_servic.Service
use geo_notifications_servic.Middleware.{api_key}
use geo_notifications_servic.Middleware.Responses.{wrap_error-found}
use geo_notifications_servic.Handlers
use geo_notifications_servic.Handlers.{Gin, Answer, api_error, health}
use geo_notifications_servic.Handlers.System
use geo_notifications_servic.Handlers.System.{Dependency, HealthResponse, ping_all}
use geo_notifications_servic.Router.{
  App, Request, Route, handlers, is_protected, dispatch, health_answer, to_health, to_create,
  to_list, to_stats, to_check, to_get, to_update, to_deactivate, guarded,
}
use geo_notifications_servic.Router.Keys.{rejection-told}

-- The errors of a computation are *errs.Error.
pub record Tells {ℓ} {A : Type ℓ} (m : M A) : Type ℓ where
  pub at : (w : World) (e : GoError) → (m w).0 ≡ err e → (found : Error) × (as_error e ≡ some found)

module _ {ℓ} {A : Type ℓ} where
  Tells-pure : (a : A) → Tells (pure a)
  Tells-pure a = record { at = λ w e h. absurd (cc) }

  Tells-new_error :
      (kind : Kind) (code op msg : String) (fields : Fields) (c : Cause)
      → Tells (raise {A = A} (new_error kind code op msg fields c))
  unfolding as_error
  Tells-new_error kind code op msg fields c = record {
    at = λ w e h.
        let same : new_error kind code op msg fields c ≡ e = cc in
        (
          record { kind = kind; code = code; op = op; msg = msg; fields = fields; err = c },
          rw (← same) refl,
        );
  }

  Tells-map_error : (op : String) (m : M A) → Tells (map_error (wrap_error op) m)
  Tells-map_error op m = record { at = λ w. wrapped (m w).0 }
    where
      wrapped :
          (r : Result A) (e : GoError)
          → map_result_error (wrap_error op) r ≡ err e
          → (found : Error) × (as_error e ≡ some found)
      wrapped (ok a) e h = absurd (cc)
      wrapped (panicked p) e h = absurd (cc)
      wrapped (err d) e h =
          let same : wrap_error op d ≡ e = cc in rw (← same) (wrap_error-found op d)

  Tells-error_of : (m : M A) → Tells (error_of m)
  Tells-error_of m = record { at = λ w. missing (m w).0 }
    where
      missing :
          (r : Result A) (e : GoError)
          → caught r ≡ err e
          → (found : Error) × (as_error e ≡ some found)
      missing (ok a) e h = absurd (cc)
      missing (panicked p) e h = absurd (cc)
      missing (err d) e h = absurd (cc)

  Tells-if : (b : Bool) (m n : M A) → Tells m → Tells n → Tells (if b then m else n)
  Tells-if true m n km kn = km
  Tells-if false m n km kn = kn

module _ {ℓ κ} {A : Type ℓ} {B : Type κ} where
  Tells-bind : (m : M A) (f : A → M B) → Tells m → ((a : A) → Tells (f a)) → Tells (m >>= f)
  Tells-bind m f km kf = record { at = λ w e h. after (m w).0 (m w).1 (km.at w) e h }
    where
      after :
          (r : Result A) (v : World)
          → ((e : GoError) → r ≡ err e → (found : Error) × (as_error e ≡ some found))
          → (e : GoError) → (continue r f v).0 ≡ err e
          → (found : Error) × (as_error e ≡ some found)
      after (ok a) v k e h = (kf a).at v e h
      after (err d) v k e h = k e (cc)
      after (panicked p) v k e h = absurd (cc)

module _ (env : Env) (repo : IncidentsRepository) where
  Tells-check_valid :
      (op : String) (invalid : Option GoError) → Tells (Service.check_valid op invalid)
  unfolding Service.check_valid
  Tells-check_valid op none = Tells-pure tt
  Tells-check_valid op (some e) = Tells-map_error op (raise e)

  Tells-check_id : (op : String) (id : ℤ) → Tells (Service.check_id op id)
  unfolding Service.check_id
  Tells-check_id op id =
      Tells-if (leb_ℤ id (pos 0)) _ _ (Tells-new_error _ _ _ _ _ _) (Tells-pure tt)

  Tells-create : (c : CreateIncident) → Tells (Service.create env repo c)
  unfolding Service.create
  Tells-create c = Tells-bind _ _ (Tells-check_valid _ _) (λ _. Tells-map_error _ (repo.create c))

  Tells-get_by_id : (id : ℤ) → Tells (Service.get_by_id env repo id)
  unfolding Service.get_by_id
  Tells-get_by_id id =
      Tells-bind _ _ (Tells-check_id _ id) (λ _. Tells-map_error _ (repo.get_by_id id))

  Tells-update : (id : ℤ) (u : UpdateIncident) → Tells (Service.update env repo id u)
  unfolding Service.update
  Tells-update id u =
      Tells-bind _ _ (Tells-check_id _ id)
        λ _. Tells-bind _ _ (Tells-check_valid _ _) λ _. Tells-map_error _ (repo.update id u)

  Tells-deactivate : (id : ℤ) → Tells (Service.deactivate env repo id)
  unfolding Service.deactivate
  Tells-deactivate id =
      Tells-bind _ _ (Tells-check_id _ id) λ _. Tells-map_error _ (repo.deactivate id)

  Tells-check_and_record :
      (tx : TxRunner) (c : CheckCommand) → Tells (Service.check_and_record env repo tx c)
  unfolding Service.check_and_record
  Tells-check_and_record tx c = Tells-bind _ _ (Tells-check_valid _ _) λ _.
      Tells-bind _ _ (Tells-map_error _ (repo.find_nearby c.point c.limit)) λ inc.
        Tells-bind _ _
          (Tells-map_error _
            (tx.within_tx (Service.record_and_publish env c (Service.incident_ids inc))))
          (λ _. Tells-pure _)

  Tells-bound : {A : Type 0} (op : String) (b : GoError ⊎ A) → Tells (Handlers.bound op b)
  unfolding Handlers.bound
  Tells-bound op (inl e) = Tells-new_error _ _ _ _ _ _
  Tells-bound op (inr a) = Tells-pure a

  Tells-positive_id :
      (op : String) (id : ℤ) (e : Option GoError) → Tells (Handlers.positive_id op (id, e))
  unfolding Handlers.positive_id Handlers.invalid_id
  Tells-positive_id op id (some e) = Tells-new_error _ _ _ _ _ _
  Tells-positive_id op id none =
      Tells-if (leb_ℤ id (pos 0)) _ _ (Tells-new_error _ _ _ _ _ _) (Tells-pure id)

-- The health handler records no error.
Tells-ping_all : (deps : List Dependency) (state : HealthResponse × ℕ) → Tells (ping_all deps state)
unfolding ping_all
Tells-ping_all [] state = Tells-pure state
Tells-ping_all (d ∷ ds) state = Tells-bind _ _ (Tells-error_of d.ping) λ e. Tells-ping_all ds _

module _ (gin : Gin) (env : Env) (app : App) where
  open app use {repo}

  Tells-dispatch : (req : Request) (r : Route) → Tells (dispatch gin env app req r)
  unfolding dispatch Handlers.create Handlers.list Handlers.stats Handlers.check Handlers.get_by_id
      Handlers.update Handlers.deactivate health_answer System.health Service.list
  Tells-dispatch req to_health = record {
    at = λ w e h.
        (Tells-bind _ _ (Tells-ping_all app.deps _)
            (λ r. Tells-pure (record { status = r.1; body = health r.0 }))).at
          w e h;
  }
  Tells-dispatch req to_create =
      Tells-bind _ _ (Tells-bound env repo _ (gin.bind_create req.body))
        λ c. Tells-bind _ _ (Tells-create env repo _) λ inc. Tells-pure _
  Tells-dispatch req to_list =
      Tells-bind _ _ (Tells-map_error _ (repo.list _)) λ items. Tells-pure _
  Tells-dispatch req to_stats =
      Tells-bind _ _ (Tells-map_error _ (Service.stats env repo app.stats_window)) λ n. Tells-pure _
  Tells-dispatch req to_check =
      Tells-bind _ _ (Tells-bound env repo _ (gin.bind_check req.body))
        λ c. Tells-bind _ _ (Tells-check_and_record env repo app.tx _) λ res. Tells-pure _
  Tells-dispatch req (to_get id) =
      Tells-bind _ _ (Tells-positive_id env repo _ (gin.parse_int id).0 (gin.parse_int id).1)
        λ n. Tells-bind _ _ (Tells-get_by_id env repo n) λ inc. Tells-pure _
  Tells-dispatch req (to_update id) =
      Tells-bind _ _ (Tells-positive_id env repo _ (gin.parse_int id).0 (gin.parse_int id).1) λ n.
        Tells-bind _ _ (Tells-bound env repo _ (gin.bind_update req.body))
          λ u. Tells-bind _ _ (Tells-update env repo n _) λ inc. Tells-pure _
  Tells-dispatch req (to_deactivate id) =
      Tells-bind _ _ (Tells-positive_id env repo _ (gin.parse_int id).0 (gin.parse_int id).1)
        λ n. Tells-bind _ _ (Tells-deactivate env repo n) λ _. Tells-pure _

  Tells-guarded :
      (stop : Option GoError) (req : Request) (r : Route)
      → api_key app.api_key req.api_key ≡ stop
      → Tells (guarded gin env app stop (dispatch gin env app req r))
  unfolding guarded
  Tells-guarded none req r h = Tells-dispatch req r
  Tells-guarded (some e) req r h = record {
    at = λ w d same.
        let raised : e ≡ d = cc in
        let (found, told) = rejection-told app.api_key req.api_key e h in
        (found, rw (← raised) told);
  }

  pub Tells-handlers : (req : Request) (r : Option Route) → Tells (handlers gin env app req r)
  unfolding handlers
  Tells-handlers req none = Tells-pure _
  Tells-handlers req (some r) =
      Tells-if (is_protected r) _ _ (Tells-guarded _ req r refl) (Tells-dispatch req r)
