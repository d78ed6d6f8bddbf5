-- ===== src/Main.antt =====
-- cmd/api/main.go: start-up, the wait for a signal, and shut-down, as what is seen of them from
-- outside, in order. What requests and workers do meanwhile is in System.
pub mod Settling
pub mod Resources
pub mod Workers
pub mod Stopping
use geo_notifications_servic.Prelude.{
  ℕ, zero, suc, ◌⊎◌, inl, inr, Bool, true, false, Option, none, some, String, List, [], ◌∷◌, ◌++◌,
  map,
}
use geo_notifications_servic.Errs.{GoError, error_text}
use geo_notifications_servic.World.{World, Env}
use geo_notifications_servic.World.Exec.{Result, ok, err, panicked}
use geo_notifications_servic.Config.{EnvConfig, load}
use geo_notifications_servic.Config
use geo_notifications_servic.Logger
use geo_notifications_servic.Logger.{
  Logger, Level, level_info, level_error, parse_log_level, new, log_at, build_info, BuildInfo,
}
use geo_notifications_servic.Db.Status
use geo_notifications_servic.Db.Status.{
  HandleEvent, handle_opened, handle_closed, open_pool, status_check, rounds,
}
use geo_notifications_servic.Health.{redis_ping}
use geo_notifications_servic.Server.{new_server}
use geo_notifications_servic.Relay
use geo_notifications_servic.Relay.{Signal, tick, done}
use geo_notifications_servic.Webhook

-- What ends the wait: the server, or a signal.
pub data Stop : Type 0 where
  server_failed : GoError → Stop
  signalled : String → Stop

-- What `main` finds, besides the answers of Env: envconfig, sqlx.Open, the timers of StatusCheck,
-- strconv.Quote, the build, GOMAXPROCS, what ends the wait, the result of the server's Shutdown, and
-- how often the workers go round before they look at their context again.
pub record Host : Type 0 where
  pub envconfig : EnvConfig
  pub sqlx_open : String → Option GoError
  pub timer_first : ℕ → Bool
  pub quote : String → String
  pub build : Option BuildInfo
  pub gomaxprocs : String
  pub stop : Stop
  pub shutdown : Option GoError
  pub ticks : ℕ
  pub turns : ℕ

pub data Resource : Type 0 where
  database cache_redis queue_redis : Resource

pub data Effect : Type 0 where
  printed : String → GoError → Effect
  logged : Logger.Effect → Effect
  opened closed : Resource → Effect
  -- The server listens, is shut down, and is closed; the workers are started, and their context ends.
  server_started : String → Effect
  server_shut_down server_closed workers_started workers_cancelled : Effect

-- `main` returns, waits for ever, or ends by a panic.
pub data Ending : Type 0 where
  returned waiting crashed : Ending

abbrev pub Outcome : Type 0
Outcome = List Effect × Ending

abbrev pub say : Logger → Level → String → List (String × String) → List Effect
say log level msg args = map logged (log_at level log msg args)

-- The deferred calls of `Close`, the last first.
abbrev pub close_all : List Resource → List Effect
close_all = map closed

abbrev pub handled : HandleEvent → Effect
handled handle_opened = opened database
handled handle_closed = closed database

abbrev pub and_then : List Effect → Outcome → Outcome
and_then es o = (es ++ o.0, o.1)

abbrev pub error_args : String → GoError → List (String × String)
error_args status e = ("status", status) ∷ ("error", error_text e) ∷ []

-- A call of the start-up: its error is logged, and ends `main`.
abbrev pub proceed {ℓ} :
    {A : Type ℓ} → Logger → String → List Resource → Result A → Outcome → Outcome
proceed log status held (ok a) next = next
proceed log status held (err e) next =
    (say log level_error "startup" (error_args status e) ++ close_all held, returned)
proceed log status held (panicked p) next = (close_all held, crashed)

-- The context of a worker that looks at it: it ends if it is cancelled.
abbrev pub signals : Bool → ℕ → List Signal
signals true zero = done ∷ []
signals false zero = []
signals cancelled (suc n) = tick ∷ signals cancelled n

abbrev pub turns_of : Bool → ℕ → List Bool
turns_of true zero = true ∷ []
turns_of false zero = []
turns_of cancelled (suc n) = false ∷ turns_of cancelled n

-- `g.Wait`: none while one of the two goes on; the error is the first that is not nil.
abbrev pub group_wait : Option GoError → Option GoError → Option (Option GoError)
group_wait (some e) (some f) = some (some e)
group_wait (some e) none = none
group_wait none e = none

abbrev pub pool_of : Config.Config → Status.Config
pool_of cfg = record {
  url = cfg.db.url;
  max_idle_conns = cfg.db.max_idle_conns;
  max_open_conns = cfg.db.max_open_conns;
  conn_max_lifetime = cfg.db.conn_max_lifetime;
  conn_max_idle_time = cfg.db.conn_max_idle_time;
  ping_timeout = cfg.db.ping_timeout;
}

abbrev pub main_logger : Config.Config → Logger
main_logger cfg = new false (parse_log_level cfg.log_level) "GEO"

module _ (host : Host) (env : Env) where
  -- Each worker's result, which depends neither on the world nor on the other worker.
  unfoldable pub workers : Bool → World → Option (Option GoError)
  workers cancelled w =
      group_wait (Relay.run env (signals cancelled host.ticks) w).0
        (Webhook.run env (turns_of cancelled host.turns) 0 w).0

  module _ (log : Logger) where
    waited : Option (Option GoError) → List Effect → Outcome
    waited none deferred = ([], waiting)
    waited (some none) deferred = (deferred, returned)
    waited (some (some e)) deferred = (
      say log level_error "shutdown" (error_args "workers failed to stop gracefully" e) ++ deferred,
      returned,
    )

    server_stopped : Option GoError → List Effect
    server_stopped none = server_shut_down ∷ []
    server_stopped (some e) =
        server_shut_down
          ∷ say log level_error "could not stop server gracefully" (("error", error_text e) ∷ [])
        ++ server_closed ∷ []

    -- From `select` on.
    unfoldable pub stopped : Stop → World → List Resource → Outcome
    unfolding waited server_stopped
    stopped (server_failed e) w held =
        and_then (say log level_error "startup" (error_args "server failed" e))
          (waited (workers false w) (close_all held))
    stopped (signalled sig) w held =
        and_then
          (say log level_info "shutdown" (("status", "shutdown started") ∷ ("signal", sig) ∷ [])
            ++ workers_cancelled ∷ server_stopped host.shutdown)
          (waited (workers true w) (
            say log level_info "shutdown" (("status", "shutdown complete") ∷ ("signal", sig) ∷ [])
            ++ close_all held))

    unfoldable pub serving : Config.Config → World → List Resource → Outcome
    unfolding stopped
    serving cfg w held =
        and_then
          (say log level_info "startup"
              (("status", "server started") ∷ ("addr", cfg.http_addr) ∷ [])
            ++ server_started (new_server cfg.http_addr).addr ∷ workers_started ∷ [])
          (stopped host.stop w held)

    open_queue : Config.Config → World → Outcome
    open_queue cfg w =
        let (r, w') = redis_ping env w in
        let held = queue_redis ∷ cache_redis ∷ database ∷ [] in
        and_then (opened queue_redis ∷ [])
          (proceed log "redis queue init failed" held r (serving cfg w' held))

    open_cache : Config.Config → World → Outcome
    unfolding open_queue
    open_cache cfg w =
        let (r, w') = redis_ping env w in
        and_then (opened cache_redis ∷ []) (
          proceed log "redis cache init failed" (cache_redis ∷ database ∷ []) r (open_queue cfg w'))

    -- What `StatusCheck` returns; none where it goes on.
    checked : Config.Config → Option (Result (Unit {0}) × World) → Outcome
    unfolding open_cache
    checked cfg none = ([], waiting)
    checked cfg (some (r, w)) = proceed log "db not ready" (database ∷ []) r (open_cache cfg w)

    open_database : Config.Config → World → Outcome
    unfolding checked
    open_database cfg w =
        let (events, (r, w')) = open_pool env host.sqlx_open (pool_of cfg) w in
        and_then (map handled events) (
          proceed log "db init failed" [] r
            (checked cfg (status_check env host.timer_first none rounds w')))

  unfoldable pub configured : GoError ⊎ Config.Config → World → Outcome
  unfolding open_database
  configured (inl e) w = (printed "Error loading config:" e ∷ [], returned)
  configured (inr cfg) w =
      let log = main_logger cfg in
      and_then
        (say log level_info "startup" (("GOMAXPROCS", host.gomaxprocs) ∷ [])
          ++ map logged (build_info host.quote log host.build))
        (open_database log cfg w)

  unfoldable pub main : World → Outcome
  unfolding configured
  main w = configured (load host.envconfig) w
