-- ===== src/Tests/Serving.antt =====
-- Requests over HTTP.
use geo_notifications_servic.Prelude.{
  ◌*◌, ◌≡◌, ◌≢◌, refl, true, false, none, some, String, [], ◌∷◌, inl, inr, pos, arith,
  if◌then◌else◌, List,
}
use geo_notifications_servic.Errs.{plain}
use geo_notifications_servic.World.{Env, failed}
use geo_notifications_servic.Incidents.Rows.{is_some}
use geo_notifications_servic.TxRunner.{base_repository, tx_runner}
use geo_notifications_servic.Db.Status.{ping, status_check, rounds}
use geo_notifications_servic.Db.Status.Waiting.{status_check-returns, ping-returns}
use geo_notifications_servic.Logger.{Events, level_info, level_warn, log_any, new_logger}
use geo_notifications_servic.Logger.Lines.{written, log_any-written}
use geo_notifications_servic.Handlers.{Gin, health}
use geo_notifications_servic.Handlers.System.{HealthResponse}
use geo_notifications_servic.Handlers.Health.{all_up}
use geo_notifications_servic.Router.{
  App, Request, get, serve, request_id_of, handlers, route, to_list, is_protected,
}
use geo_notifications_servic.Router.Keys.{refused_with, key_report, serve_without_key}
use geo_notifications_servic.Router.Failures.{answer_for, serve-answer}
use geo_notifications_servic.Router.Health.{serve-health}
use geo_notifications_servic.Tests.Samples.{good, failing, broken, start, spot}

-- Each body is the same request, and the only number is 2.
abbrev pub gin : Gin
gin = record {
  bind_create =
      λ body. inr (record { title = "flood"; description = ""; center = spot; radius = pos 7 });
  bind_update = λ body. inl (plain "EOF");
  bind_check = λ body. inr (record { user_id = "ann"; location = spot; limit = pos 10 });
  parse_int = λ text. (pos 2, none);
  atoi = λ text. (pos 2, none);
  parse_bool = λ text. (true, none);
}

abbrev pub app : Env → App
app env = record {
  repo = base_repository env;
  tx = tx_runner env;
  deps =
      record { name = "postgres"; ping = ping env }
      ∷ record { name = "redis"; ping = ping env }
      ∷ [];
  stats_window = pos 60;
  api_key = "secret";
  min_level = level_info;
  random_id = λ n. some "1";
}

abbrev pub asking : List String → String → Request
asking path key = record {
  method = get;
  path = path;
  body = "";
  api_key = key;
  request_id = "";
  limit = none;
  offset = none;
  active_only = none;
}

abbrev keyless : Request
keyless = asking ("incidents" ∷ []) ""

serve_without_key_example :
    ((serve gin good (app good) keyless start).1 ≡ start)
    × ((serve gin good (app good) keyless start).0.answer
        ≡ refused_with (key_report "secret") (request_id_of (app good) keyless start))
unfolding route is_protected
serve_without_key_example =
    serve_without_key gin good (app good) keyless start to_list refl refl
      (λ h. absurd (different h.1))
  where
    different : keyless.api_key ≢ (app good).api_key
    different same = cc

abbrev listing : Request
listing = asking ("incidents" ∷ []) "secret"

-- The first call fails.
serve-answer_example :
    (serve gin (failing 0) (app (failing 0)) listing start).0.answer
    ≡ answer_for
        (request_id_of (app (failing 0)) listing start)
        (handlers gin (failing 0) (app (failing 0)) listing (route get ("incidents" ∷ [])) start).0
serve-answer_example = serve-answer gin (failing 0) (app (failing 0)) listing start

-- The second dependency is down.
serve-health_example :
    let req = asking ("health" ∷ []) "" in
    let up = all_up (app (failing 1)).deps start in
    (resp : HealthResponse) × ((serve gin (failing 1) (app (failing 1)) req start).0.answer
      ≡ record { status = if up then 200 else 503; body = health resp })
    × (resp.status ≡ (if up then "ok" else "degraded"))
serve-health_example =
    serve-health gin (failing 1) (app (failing 1)) (asking ("health" ∷ []) "") start refl refl
      (ping-returns (failing 1), (ping-returns (failing 1), tt))

-- A database that never answers, and a clock by which each ping takes a tenth of a second.
abbrev silent : Env
silent = record good { reply = λ n. failed 0 broken; clock = λ n. n * 100000000 }

status_check-returns_example : is_some (status_check silent (λ n. true) none rounds start) ≡ true
status_check-returns_example = status_check-returns silent (λ n. true) start (λ n from. omega arith)

abbrev on_warnings : Events
on_warnings = record { debug = false; info = false; warn = true; error = false }

log_any-written_example :
    log_any (new_logger false level_info "GEO" on_warnings) level_warn "slow" []
    ≡ written "GEO" on_warnings (record { level = level_warn; message = "slow"; attributes = [] })
log_any-written_example = log_any-written level_info "GEO" on_warnings "slow" [] false level_warn
