-- ===== src/Router/Checks.antt =====
-- What a client knows whose location check has been answered.
use geo_notifications_servic.Prelude.{
  ℕ, ◌≤◌, ◌≡◌, refl, sym, ap, ◌∙◌, ◌⊎◌, inl, inr, String, List, [], ◌∷◌, map, length, arith, subst,
  some,
}
use geo_notifications_servic.Errs.{GoError}
use geo_notifications_servic.Domain.{CheckCommand, NearbyIncident}
use geo_notifications_servic.Domain.Validation.{IsValidCheck}
use geo_notifications_servic.World.{World, Env}
use geo_notifications_servic.World.Exec.{ok, M}
use geo_notifications_servic.Db.Inversion.{continue-eq-ok}
use geo_notifications_servic.Ports.{IncidentsRepository, TxRunner}
use geo_notifications_servic.TxRunner.{base_repository, tx_runner}
use geo_notifications_servic.Service
use geo_notifications_servic.Service.{CheckResult, incident_ids}
use geo_notifications_servic.Service.Checks.{Recorded}
use geo_notifications_servic.Service.Atomicity.{run, found, check_and_record-ok}
use geo_notifications_servic.Service.Order.{check_and_record-later}
use geo_notifications_servic.Cache.{cached_repository}
use geo_notifications_servic.Handlers
use geo_notifications_servic.Handlers.{
  Gin, Answer, LocationCheckRequest, LocationCheckResponse, to_nearby_response, bound,
  location_check,
}
use geo_notifications_servic.Router.{
  App, Request, to_check, post, route, is_protected, serve, handlers, dispatch, request_id_of,
}
use geo_notifications_servic.Router.Failures.{serve-answer}
use geo_notifications_servic.Router.Steps.{made_ok}

-- The command that the handler makes of a request, and the response to its result.
abbrev pub checked : LocationCheckRequest → CheckCommand
checked req = record { user_id = req.user_id; point = req.location; limit = req.limit }

abbrev pub response : List NearbyIncident → ℕ → LocationCheckResponse
response inc count = record { count = count; incidents = map to_nearby_response inc }

module _ (gin : Gin) (env : Env) (repo : IncidentsRepository) (tx : TxRunner) (w : World) where
  abbrev answered : CheckResult → M Answer
  answered res u =
      (ok (record { status = 200; body = location_check (response res.incidents res.count) }), u)

  check_handled :
      (body : String) (b : GoError ⊎ LocationCheckRequest) (shown : LocationCheckResponse)
      → gin.bind_check body ≡ b
      → (Handlers.check gin env repo tx body w).0
        ≡ ok (record { status = 200; body = location_check shown })
      → (req : LocationCheckRequest) × (res : CheckResult) × (b ≡ inr req)
        × ((Service.check_and_record env repo tx (checked req) w).0 ≡ ok res)
        × (shown ≡ response res.incidents res.count)
        × ((Handlers.check gin env repo tx body w).1
            ≡ (Service.check_and_record env repo tx (checked req) w).1)
  unfolding Handlers.check bound
  check_handled body (inl e) shown same h = absurd (let failed = rw same at h in cc)
  check_handled body (inr req) shown same h =
      let r = Service.check_and_record env repo tx (checked req) w in
      let (res, made, seen, left) = continue-eq-ok r.0 answered r.1 (rw same at h) in
      (req, res, refl, made, cc, rw same (ap (λ p. p.1) left))

module _ (gin : Gin) (env : Env) (ttl : ℕ) (app : App) where
  abbrev pub over_database : App
  over_database = record app {
    repo = cached_repository env ttl (base_repository env);
    tx = tx_runner env;
  }

  -- The call of the service that such a request comes to.
  check_reached :
      (req : Request) (w : World) (shown : LocationCheckResponse)
      → req.method ≡ post
      → req.path ≡ "location" ∷ "check" ∷ []
      → (serve gin env over_database req w).0.answer
        ≡ record { status = 200; body = location_check shown }
      → (asked : LocationCheckRequest) × (res : CheckResult) × (gin.bind_check req.body ≡ inr asked)
        × ((run env (checked asked) w).0 ≡ ok res)
        × (shown ≡ response res.incidents res.count)
        × ((serve gin env over_database req w).1 ≡ (run env (checked asked) w).1)
  unfolding route is_protected handlers dispatch serve Service.check_and_record
  check_reached req w shown method path h =
      let routed : route req.method req.path ≡ some to_check = rw (method, path) refl in
      let result = handlers gin env over_database req (route req.method req.path) w in
      let finished =
        made_ok (request_id_of over_database req w) result.0 200 (location_check shown)
          (omega arith) (sym (serve-answer gin env over_database req w) ∙ h) in
      let same : result ≡ Handlers.check gin env over_database.repo over_database.tx req.body w =
        rw routed refl in
      let (asked, res, read, done, seen, left) =
        check_handled gin env over_database.repo over_database.tx w req.body _ shown refl
          (ap (λ r. r.0) (sym same) ∙ finished) in
      (asked, res, read, done, seen, ap (λ r. r.1) same ∙ left)

  -- If POST /location/check is answered with status 200, then the body was read as a request whose
  -- command is valid, the answer shows the incidents that FindNearby found and their number, and
  -- exactly one check of the user at the point has been added to the tables, with a link to each of
  -- these incidents and, if there is one, a pending event that holds them all, due from the time of the
  -- transaction on.
  pub check_served :
      (req : Request) (w : World) (shown : LocationCheckResponse)
      → req.method ≡ post
      → req.path ≡ "location" ∷ "check" ∷ []
      → (serve gin env over_database req w).0.answer
        ≡ record { status = 200; body = location_check shown }
      → (asked : LocationCheckRequest) × (inc : List NearbyIncident) × (gin.bind_check req.body
          ≡ inr asked)
        × IsValidCheck (checked asked)
        × ((found env (checked asked) w).0 ≡ ok inc)
        × (shown ≡ response inc (length inc))
        × Recorded env
            (checked asked)
            (incident_ids inc)
            (env.clock (found env (checked asked) w).1.calls)
            w.tables
            (serve gin env over_database req w).1.tables
  check_served req w shown method path h =
      let (asked, res, read, done, seen, left) = check_reached req w shown method path h in
      let (valid, nearby, count, whole) = check_and_record-ok env (checked asked) w res done in
      (
        asked,
        res.incidents,
        read,
        valid,
        nearby,
        seen ∙ ap (response res.incidents) count,
        subst
            (Recorded env (checked asked) (incident_ids res.incidents)
              (env.clock (found env (checked asked) w).1.calls) w.tables)
            (sym (ap (λ v. v.tables) left)) whole,
      )

  -- The search of such a request ends no later than the request.
  pub check_served-later :
      (req : Request) (w : World) (shown : LocationCheckResponse) (asked : LocationCheckRequest)
      → req.method ≡ post
      → req.path ≡ "location" ∷ "check" ∷ []
      → gin.bind_check req.body ≡ inr asked
      → (serve gin env over_database req w).0.answer
        ≡ record { status = 200; body = location_check shown }
      → (found env (checked asked) w).1.calls ≤ (serve gin env over_database req w).1.calls
  check_served-later req w shown asked method path read h =
      let (asked', res, read', done, _, left) = check_reached req w shown method path h in
      let same : asked' ≡ asked = cc in
      subst (λ a. (found env (checked a) w).1.calls ≤ (serve gin env over_database req w).1.calls)
        same (rw left (check_and_record-later env (checked asked') w res done))
