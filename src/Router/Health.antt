-- ===== src/Router/Health.antt =====
-- The request for the health of the service.
use geo_notifications_servic.Prelude.{◌≡◌, refl, [], ◌∷◌, All, if◌then◌else◌}
use geo_notifications_servic.World.{World, Env}
use geo_notifications_servic.Handlers.{Gin, health}
use geo_notifications_servic.Handlers.System.{HealthResponse}
use geo_notifications_servic.Handlers.Health.{IsCalm, all_up, health-Ends}
use geo_notifications_servic.Router.{
  App, Request, get, route, is_protected, serve, handlers, dispatch, health_answer, with_error,
  recovered,
}

-- If no ping panics, GET /health is answered, with or without an API key, by ok with status 200 if
-- each dependency, asked in turn, answers its ping, and otherwise by degraded with status 503.
pub serve-health :
    (gin : Gin) (env : Env) (app : App) (req : Request) (w : World)
    → req.method ≡ get
    → req.path ≡ "health" ∷ []
    → All IsCalm app.deps
    → let up = all_up app.deps w in
      (resp : HealthResponse) × ((serve gin env app req w).0.answer
        ≡ record { status = if up then 200 else 503; body = health resp })
      × (resp.status ≡ (if up then "ok" else "degraded"))
unfolding serve route is_protected handlers dispatch health_answer with_error recovered
serve-health gin env app req w method path calm =
    let (resp, returned, text) = health-Ends env app.deps w calm in
    (resp, rw (method, path, returned) refl, text)
