-- ===== src/Router/Failures.antt =====
-- What is answered to a request whose handlers fail or panic.
use geo_notifications_servic.Prelude.{◌≡◌, refl, String, some, []}
use geo_notifications_servic.Errs.{GoError, internal, Error, as_error}
use geo_notifications_servic.Errs.Laws.{report}
use geo_notifications_servic.World.{World, Env}
use geo_notifications_servic.World.Exec.{Result, ok, err, panicked}
use geo_notifications_servic.Middleware.{respond, map_err}
use geo_notifications_servic.Middleware.Responses.{map_err-found}
use geo_notifications_servic.Handlers.{Gin, Answer}
use geo_notifications_servic.Router.{
  App, Request, route, serve, handlers, with_error, recovered, request_id_of,
}
use geo_notifications_servic.Router.Keys.{refused_with}
use geo_notifications_servic.Router.Told.{Tells-handlers}

-- The answer for each way in which the handlers of a request can end.
abbrev pub answer_for : String → Result Answer → Answer
answer_for request_id (ok a) = a
answer_for request_id (err e) = refused_with (report e) request_id
answer_for request_id (panicked p) =
    refused_with (record { kind = internal; code = "PANIC"; fields = [] }) request_id

panic_answer :
    (request_id p : String)
    → with_error request_id (recovered (panicked p)) ≡ answer_for request_id (panicked p)
unfolding with_error recovered respond map_err as_error
panic_answer request_id p = refl

told_answer :
    (request_id : String) (r : Result Answer)
    → ((e : GoError) → r ≡ err e → (found : Error) × (as_error e ≡ some found))
    → with_error request_id (recovered r) ≡ answer_for request_id r
unfolding with_error recovered respond
told_answer request_id (ok a) h = refl
told_answer request_id (panicked p) h = panic_answer request_id p
told_answer request_id (err e) h =
    let (found, told) = h e refl in rw (map_err-found e found told) refl

-- Every request is answered: with what its handlers write; if they fail, with the status and the text
-- of the error's kind, its code, its fields only if it is about an invalid request, and the
-- request's id; and if they panic, with status 500, the code PANIC and the request's id.
pub serve-answer :
    (gin : Gin) (env : Env) (app : App) (req : Request) (w : World)
    → (serve gin env app req w).0.answer
      ≡ answer_for
          (request_id_of app req w)
          (handlers gin env app req (route req.method req.path) w).0
unfolding serve
serve-answer gin env app req w =
    told_answer (request_id_of app req w) (handlers gin env app req (route req.method req.path) w).0
      ((Tells-handlers gin env app req (route req.method req.path)).at w)
