-- ===== src/Main/Resources.antt =====
-- What `main` opens it closes, in the opposite order.
use geo_notifications_servic.Prelude.{
  refl, sym, ap, ◌∙◌, ◌⊎◌, inl, inr, true, false, Option, none, some, List, [], ◌∷◌, ◌++◌, map,
}
use geo_notifications_servic.Errs.{GoError, error_text}
use geo_notifications_servic.World.{World, Env}
use geo_notifications_servic.World.Exec.{Result}
use geo_notifications_servic.Config
use geo_notifications_servic.Config.{load}
use geo_notifications_servic.Db.Status.{HandleEvent, Pool, open_pool, status_check, rounds}
use geo_notifications_servic.Db.Status.Pools.{Opens, open_pool-Opens}
use geo_notifications_servic.Health.{redis_ping}
use geo_notifications_servic.Logger.{Logger, level_info, level_error, build_info}
use geo_notifications_servic.Main.{
  Host, Resource, database, cache_redis, queue_redis, Effect, logged, server_started, server_closed,
  workers_started, workers_cancelled, returned, say, close_all, and_then, proceed, waited,
  server_stopped, stopped, Stop, server_failed, signalled, serving, open_queue, open_cache, checked,
  handled, Outcome, open_database, configured, main, workers, error_args, pool_of, main_logger,
}
use geo_notifications_servic.Main.Settling.{
  IsQuiet, Settles, IsQuiet-logged, IsQuiet-append, Settles-quiet, Settles-close, IsQuiet-say,
  IsQuiet-nil, Settles-say, Settles-proceed, Settles-opened,
}

module _ (host : Host) (env : Env) (log : Logger) where
  Settles-waited :
      (held : List Resource) (r : Option (Option GoError)) (es : List Effect)
      → IsQuiet es
      → Settles held (waited host env log r (es ++ close_all held))
  unfolding waited
  Settles-waited held none es quiet = refl
  Settles-waited held (some none) es quiet =
      Settles-quiet held es (close_all held, returned) quiet (Settles-close held)
  Settles-waited held (some (some e)) es quiet =
      Settles-say log level_error "shutdown" (error_args "workers failed to stop gracefully" e) held
        (es ++ close_all held, returned)
        (Settles-quiet held es (close_all held, returned) quiet (Settles-close held))

  IsQuiet-server_stopped : (e : Option GoError) → IsQuiet (server_stopped host env log e)
  unfolding server_stopped
  IsQuiet-server_stopped none rest held = (refl, refl)
  IsQuiet-server_stopped (some e) rest held =
      let args = ("error", error_text e) ∷ [] in
      IsQuiet-append (say log level_error "could not stop server gracefully" args)
        (server_closed ∷ []) (IsQuiet-say log level_error "could not stop server gracefully" args)
        (λ rest held. (refl, refl)) rest held

  Settles-stopped :
      (held : List Resource) (stop : Stop) (w : World)
      → Settles held (stopped host env log stop w held)
  unfolding stopped
  Settles-stopped held (server_failed e) w =
      Settles-say log level_error "startup" (error_args "server failed" e) held
        (waited host env log (workers host env false w) (close_all held))
        (Settles-waited held (workers host env false w) [] IsQuiet-nil)
  Settles-stopped held (signalled sig) w =
      let started = ("status", "shutdown started") ∷ ("signal", sig) ∷ [] in
      let complete = ("status", "shutdown complete") ∷ ("signal", sig) ∷ [] in
      let lines = say log level_info "shutdown" started in
      let last = say log level_info "shutdown" complete in
      Settles-quiet held (lines ++ workers_cancelled ∷ server_stopped host env log host.shutdown)
        (waited host env log (workers host env true w) (last ++ close_all held))
        (IsQuiet-append lines (workers_cancelled ∷ server_stopped host env log host.shutdown)
          (IsQuiet-say log level_info "shutdown" started)
          (λ rest h. IsQuiet-server_stopped host.shutdown rest h))
        (Settles-waited held (workers host env true w) last
          (IsQuiet-say log level_info "shutdown" complete))

  Settles-serving :
      (cfg : Config.Config) (held : List Resource) (w : World)
      → Settles held (serving host env log cfg w held)
  unfolding serving
  Settles-serving cfg held w =
      let args = ("status", "server started") ∷ ("addr", cfg.http_addr) ∷ [] in
      let lines = say log level_info "startup" args in
      Settles-quiet held (lines ++ server_started cfg.http_addr ∷ workers_started ∷ [])
        (stopped host env log host.stop w held)
        (IsQuiet-append lines (server_started cfg.http_addr ∷ workers_started ∷ [])
          (IsQuiet-say log level_info "startup" args) (λ rest h. (refl, refl)))
        (Settles-stopped held host.stop w)

  Settles-open_queue :
      (cfg : Config.Config) (w : World)
      → Settles (cache_redis ∷ database ∷ []) (open_queue host env log cfg w)
  unfolding open_queue
  Settles-open_queue cfg w =
      let (r, w') = redis_ping env w in
      let held = queue_redis ∷ cache_redis ∷ database ∷ [] in
      let next = serving host env log cfg w' held in
      Settles-opened queue_redis (cache_redis ∷ database ∷ [])
        (proceed log "redis queue init failed" held r next)
        (Settles-proceed log "redis queue init failed" held r next (Settles-serving cfg held w'))

  Settles-open_cache :
      (cfg : Config.Config) (w : World) → Settles (database ∷ []) (open_cache host env log cfg w)
  unfolding open_cache
  Settles-open_cache cfg w =
      let (r, w') = redis_ping env w in
      let held = cache_redis ∷ database ∷ [] in
      let next = open_queue host env log cfg w' in
      Settles-opened cache_redis (database ∷ []) (proceed log "redis cache init failed" held r next)
        (Settles-proceed log "redis cache init failed" held r next (Settles-open_queue cfg w'))

  Settles-checked :
      (cfg : Config.Config) (r : Option (Result (Unit {0}) × World))
      → Settles (database ∷ []) (checked host env log cfg r)
  unfolding checked
  Settles-checked cfg none = refl
  Settles-checked cfg (some (r, w)) =
      Settles-proceed log "db not ready" (database ∷ []) r (open_cache host env log cfg w)
        (Settles-open_cache cfg w)

  Settles-handled :
      (events : List HandleEvent) (r : Result Pool) (next : Outcome)
      → Opens events r
      → Settles (database ∷ []) next
      → Settles [] (and_then (map handled events) (proceed log "db init failed" [] r next))
  Settles-handled events r next (inl (pool, done, open_)) h =
      rw (done, open_) (Settles-opened database [] next h)
  Settles-handled events r next (inr (e, failed_, inl none_)) h =
      let (closes, opens) =
        IsQuiet-say log level_error "startup" (error_args "db init failed" e) [] [] in
      rw (failed_, none_) (closes ∙ sym opens)
  Settles-handled events r next (inr (e, failed_, inr both)) h =
      let (closes, opens) =
        IsQuiet-say log level_error "startup" (error_args "db init failed" e) [] (database ∷ []) in
      rw (failed_, both) (ap (λ l. database ∷ l) closes ∙ sym opens)

  Settles-open_database :
      (cfg : Config.Config) (w : World) → Settles [] (open_database host env log cfg w)
  unfolding open_database
  Settles-open_database cfg w =
      let (events, (r, w')) = open_pool env host.sqlx_open (pool_of cfg) w in
      let next = checked host env log cfg (status_check env host.timer_first none rounds w') in
      Settles-handled events r next (open_pool-Opens env host.sqlx_open (pool_of cfg) w)
        (Settles-checked cfg (status_check env host.timer_first none rounds w'))

module _ (host : Host) (env : Env) where
  Settles-configured :
      (r : GoError ⊎ Config.Config) (w : World) → Settles [] (configured host env r w)
  unfolding configured
  Settles-configured (inl e) w = refl
  Settles-configured (inr cfg) w =
      let log = main_logger cfg in
      let lines = say log level_info "startup" (("GOMAXPROCS", host.gomaxprocs) ∷ []) in
      Settles-quiet [] (lines ++ map logged (build_info host.quote log host.build))
        (open_database host env log cfg w)
        (IsQuiet-append lines (map logged (build_info host.quote log host.build))
          (IsQuiet-say log level_info "startup" (("GOMAXPROCS", host.gomaxprocs) ∷ []))
          (IsQuiet-logged (build_info host.quote log host.build)))
        (Settles-open_database host env log cfg w)

  -- Whatever fails, and whatever ends the wait: when `main` returns, or ends by a panic of the
  -- start-up, it has closed each database or Redis connection it opened, exactly once and in the
  -- opposite order; while it waits, it has closed none.
  pub Settles-main : (w : World) → Settles [] (main host env w)
  unfolding main
  Settles-main w = Settles-configured (load host.envconfig) w
