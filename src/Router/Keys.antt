-- ===== src/Router/Keys.antt =====
-- Requests that the API key does not let pass.
use geo_notifications_servic.Prelude.{
  ◌≡◌, ◌≢◌, refl, true, some, String, [], str_eq, Bool-cases, inl, inr, arith, if◌then◌else◌,
  Option-cases,
}
use geo_notifications_servic.Errs.{
  GoError, Error, Kind, internal, unauthorized, as_error, new_error, no_cause,
}
use geo_notifications_servic.Errs.Laws.{Report}
use geo_notifications_servic.World.{World, Env}
use geo_notifications_servic.World.Exec.{err}
use geo_notifications_servic.Middleware.{api_key, respond, map_err}
use geo_notifications_servic.Middleware.Responses.{described, api_key_iff}
use geo_notifications_servic.Handlers.{Gin, Answer, api_error}
use geo_notifications_servic.Router.{
  App, Request, Route, route, is_protected, serve, handlers, with_error, recovered, request_id_of,
}

-- The response to an error whose kind, code and fields are given.
abbrev pub refused_with : Report → String → Answer
refused_with told request_id = record {
  status = (described told).status;
  body = api_error (record (described told).resp { request_id = request_id });
}

-- What is told of a key that is missing or wrong, and of one that is not configured.
abbrev pub key_report : String → Report
key_report configured =
    if str_eq configured ""
    then record { kind = internal; code = "API_KEY_NOT_CONFIGURED"; fields = [] }
    else record { kind = unauthorized; code = "INVALID_API_KEY"; fields = [] }

-- The errors of `APIKey`.
abbrev key_error : Kind → String → String → GoError
key_error kind code msg = new_error kind code "http.middleware.apikey" msg [] no_cause

abbrev told : Kind → String → String → Error
told kind code msg = record {
  kind = kind;
  code = code;
  op = "http.middleware.apikey";
  msg = msg;
  fields = [];
  err = no_cause;
}

rejection :
    (configured got : String) (e : GoError)
    → api_key configured got ≡ some e
    → e ≡ (
        if str_eq configured ""
        then key_error internal "API_KEY_NOT_CONFIGURED" "api key not configured"
        else key_error unauthorized "INVALID_API_KEY" "invalid api key")
unfolding api_key
rejection configured got e h = ground arith

-- It is an *errs.Error.
pub rejection-told :
    (configured got : String) (e : GoError)
    → api_key configured got ≡ some e
    → (found : Error) × (as_error e ≡ some found)
unfolding as_error
rejection-told configured got e h =
    let same = rejection configured got e h in
    elim (Bool-cases (str_eq configured "")) [
      | inl empty ↦
          (told internal "API_KEY_NOT_CONFIGURED" "api key not configured", rw (same, empty) refl)
      | inr set ↦ (told unauthorized "INVALID_API_KEY" "invalid api key", rw (same, set) refl)
    ]

rejected_key :
    (configured got : String) (e : GoError) (request_id : String)
    → api_key configured got ≡ some e
    → with_error request_id (err e) ≡ refused_with (key_report configured) request_id
unfolding with_error respond map_err as_error
rejected_key configured got e request_id h =
    let same = rejection configured got e h in
    elim (Bool-cases (str_eq configured "")) [
      | inl empty ↦ rw (same, empty) refl
      | inr set ↦ rw (same, set) refl
    ]

module _ (gin : Gin) (env : Env) (app : App) (req : Request) (w : World) where
  -- If no key is configured, or a request for a protected route does not have it, then the world is
  -- left as it was, and the answer is an error with the request's id: of status 500 and code
  -- API_KEY_NOT_CONFIGURED in the first case, of status 401 and code INVALID_API_KEY in the second.
  pub serve_without_key :
      (r : Route)
      → route req.method req.path ≡ some r
      → is_protected r ≡ true
      → ¬ ((app.api_key ≢ "") × (req.api_key ≡ app.api_key))
      → ((serve gin env app req w).1 ≡ w)
        × ((serve gin env app req w).0.answer
            ≡ refused_with (key_report app.api_key) (request_id_of app req w))
  unfolding serve handlers recovered
  serve_without_key r found protected closed =
      elim (Option-cases (api_key app.api_key req.api_key)) [
        | inl open_ ↦ absurd (closed ((api_key_iff app.api_key req.api_key).0 open_))
        | inr (e, stopped) ↦
            rw (found, protected, stopped)
              (refl, rejected_key app.api_key req.api_key e (request_id_of app req w) stopped)
      ]
