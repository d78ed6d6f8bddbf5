-- ===== src/Main/Stopping.antt =====
-- How `main` ends once its server has been started.
use geo_notifications_servic.Prelude.{
  ◌≡◌, refl, sym, ap, ◌∙◌, subst, inr, Bool, true, false, Option, none, some, String, List, [], ◌∷◌,
  ◌++◌, map,
}
use mathlib.Core.List.{append_assoc}
use geo_notifications_servic.Errs.{GoError, plain}
use geo_notifications_servic.World.{World, Env}
use geo_notifications_servic.World.Exec.{Result, ok, err, panicked}
use geo_notifications_servic.Config
use geo_notifications_servic.Config.{load}
use geo_notifications_servic.Db.Status.{
  HandleEvent, handle_opened, handle_closed, open_pool, status_check, rounds,
}
use geo_notifications_servic.Health.{redis_ping}
use geo_notifications_servic.Logger
use geo_notifications_servic.Logger.{Logger, Level, level_info, level_error, log_at, build_info}
use geo_notifications_servic.Main.Workers.{workers-go_on, workers-end}
use geo_notifications_servic.Main.{
  Host, Resource, database, cache_redis, queue_redis, Effect, logged, opened, closed,
  server_started, workers_started, workers_cancelled, returned, waiting, Outcome, say, close_all,
  and_then, error_args, proceed, handled, pool_of, main_logger, waited, server_stopped, stopped,
  server_failed, signalled, serving, open_queue, open_cache, checked, open_database, configured,
  main,
}

abbrev starts : Effect → Bool → Bool
starts (server_started addr) rest = true
starts _ rest = rest

abbrev pub has_started : List Effect → Bool
has_started [] = false
has_started (e ∷ es) = starts e (has_started es)

has_started-logged :
    (lines : List Logger.Effect) (es : List Effect)
    → has_started (map logged lines ++ es) ≡ has_started es
has_started-logged [] es = refl
has_started-logged (l ∷ lines) es = has_started-logged lines es

has_started-handled :
    (events : List HandleEvent) (es : List Effect)
    → has_started (map handled events ++ es) ≡ has_started es
has_started-handled [] es = refl
has_started-handled (handle_opened ∷ events) es = has_started-handled events es
has_started-handled (handle_closed ∷ events) es = has_started-handled events es

has_started-close : (held : List Resource) → has_started (close_all held) ≡ false
has_started-close [] = refl
has_started-close (r ∷ held) = has_started-close held

-- The outcomes that, if the server is started in them, end as `stopped` does.
abbrev all_open : List Resource
all_open = queue_redis ∷ cache_redis ∷ database ∷ []

and_then-and_then :
    (es fs : List Effect) (o : Outcome) → and_then es (and_then fs o) ≡ and_then (es ++ fs) o
and_then-and_then es fs (gs, ending) = ap (λ l. (l, ending)) (sym (append_assoc es fs gs))

module _ (host : Host) (env : Env) where
  module _ (log : Logger) where
    abbrev Ran : Outcome → Type 0
    Ran o =
        (pre : List Effect) × (w : World) × (o
          ≡ and_then pre (stopped host env log host.stop w all_open))

    abbrev RunsOn : Outcome → Type 0
    RunsOn o = has_started o.0 ≡ true → Ran o

    RunsOn-logged :
        (lines : List Logger.Effect) (o : Outcome)
        → RunsOn o
        → RunsOn (and_then (map logged lines) o)
    RunsOn-logged lines o h served =
        let (pre, w, same) = h (sym (has_started-logged lines o.0) ∙ served) in
        (
          map logged lines ++ pre,
          w,
          ap (and_then (map logged lines)) same
              ∙ and_then-and_then (map logged lines) pre
                  (stopped host env log host.stop w all_open),
        )

    RunsOn-handled :
        (events : List HandleEvent) (o : Outcome)
        → RunsOn o
        → RunsOn (and_then (map handled events) o)
    RunsOn-handled events o h served =
        let (pre, w, same) = h (sym (has_started-handled events o.0) ∙ served) in
        (
          map handled events ++ pre,
          w,
          ap (and_then (map handled events)) same
              ∙ and_then-and_then (map handled events) pre
                  (stopped host env log host.stop w all_open),
        )

    RunsOn-opened : (r : Resource) (o : Outcome) → RunsOn o → RunsOn (and_then (opened r ∷ []) o)
    RunsOn-opened r o h served =
        let (pre, w, same) = h served in (opened r ∷ pre, w, ap (and_then (opened r ∷ [])) same)

    RunsOn-proceed {ℓ} :
        {A : Type ℓ} (status : String) (held : List Resource) (r : Result A) (next : Outcome)
        → RunsOn next
        → RunsOn (proceed log status held r next)
    RunsOn-proceed status held (ok a) next h = h
    RunsOn-proceed status held (err e) next h =
        RunsOn-logged (log_at level_error log "startup" (error_args status e))
          (close_all held, returned) (λ served. let no = has_started-close held in absurd (cc))
    RunsOn-proceed status held (panicked p) next h =
        λ served. let no = has_started-close held in absurd (cc)

    RunsOn-serving :
        (cfg : Config.Config) (w : World) → RunsOn (serving host env log cfg w all_open)
    unfolding serving
    RunsOn-serving cfg w served = (
      say log level_info "startup" (("status", "server started") ∷ ("addr", cfg.http_addr) ∷ [])
          ++ server_started cfg.http_addr ∷ workers_started ∷ [],
      w,
      refl,
    )

    RunsOn-open_queue : (cfg : Config.Config) (w : World) → RunsOn (open_queue host env log cfg w)
    unfolding open_queue
    RunsOn-open_queue cfg w =
        let (r, w') = redis_ping env w in
        let next = serving host env log cfg w' all_open in
        RunsOn-opened queue_redis (proceed log "redis queue init failed" all_open r next)
          (RunsOn-proceed "redis queue init failed" all_open r next (RunsOn-serving cfg w'))

    RunsOn-open_cache : (cfg : Config.Config) (w : World) → RunsOn (open_cache host env log cfg w)
    unfolding open_cache
    RunsOn-open_cache cfg w =
        let (r, w') = redis_ping env w in
        let held = cache_redis ∷ database ∷ [] in
        let next = open_queue host env log cfg w' in
        RunsOn-opened cache_redis (proceed log "redis cache init failed" held r next)
          (RunsOn-proceed "redis cache init failed" held r next (RunsOn-open_queue cfg w'))

    RunsOn-checked :
        (cfg : Config.Config) (r : Option (Result (Unit {0}) × World))
        → RunsOn (checked host env log cfg r)
    unfolding checked
    RunsOn-checked cfg none = λ served. absurd (cc)
    RunsOn-checked cfg (some (r, w)) =
        RunsOn-proceed "db not ready" (database ∷ []) r (open_cache host env log cfg w)
          (RunsOn-open_cache cfg w)

    RunsOn-open_database :
        (cfg : Config.Config) (w : World) → RunsOn (open_database host env log cfg w)
    unfolding open_database
    RunsOn-open_database cfg w =
        let (events, (r, w')) = open_pool env host.sqlx_open (pool_of cfg) w in
        let next = checked host env log cfg (status_check env host.timer_first none rounds w') in
        RunsOn-handled events (proceed log "db init failed" [] r next) (
          RunsOn-proceed "db init failed" [] r next
            (RunsOn-checked cfg (status_check env host.timer_first none rounds w')))

    stopped-waits :
        (e : GoError) (w : World) (held : List Resource)
        → (stopped host env log (server_failed e) w held).1 ≡ waiting
    unfolding stopped waited
    stopped-waits e w held = rw (workers-go_on host env w) refl

    abbrev last_of : String → List Resource → Outcome
    last_of sig held = (
      say log level_error "shutdown"
            (error_args "workers failed to stop gracefully" (plain "context canceled"))
          ++ (say log level_info "shutdown" (("status", "shutdown complete") ∷ ("signal", sig) ∷ [])
              ++ close_all held),
      returned,
    )

    stopped-ends :
        (sig : String) (w : World) (held : List Resource)
        → (fs : List Effect) × (stopped host env log (signalled sig) w held
            ≡ and_then fs (last_of sig held))
    unfolding stopped waited
    stopped-ends sig w held = (
      say log level_info "shutdown" (("status", "shutdown started") ∷ ("signal", sig) ∷ [])
          ++ workers_cancelled ∷ server_stopped host env log host.shutdown,
      rw (workers-end host env w) refl,
    )

  module _ (cfg : Config.Config) (w : World) (loaded : load host.envconfig ≡ inr cfg) where
    RunsOn-main : RunsOn (main_logger cfg) (main host env w)
    unfolding main configured
    RunsOn-main =
        let log = main_logger cfg in
        let lines = log_at level_info log "startup" (("GOMAXPROCS", host.gomaxprocs) ∷ []) in
        let build = build_info host.quote log host.build in
        let o = open_database host env log cfg w in
        rw loaded (
          subst (RunsOn log) (and_then-and_then (map logged lines) (map logged build) o) (
            RunsOn-logged log lines (and_then (map logged build) o)
              (RunsOn-logged log build o (RunsOn-open_database log cfg w))))

    -- If the configuration could be read, the server could be started, and the server later fails,
    -- `main` goes on waiting, however often the workers go round; it does not return.
    pub main-waits :
        (e : GoError)
        → host.stop ≡ server_failed e
        → has_started (main host env w).0 ≡ true
        → (main host env w).1 ≡ waiting
    main-waits e failed served =
        let (pre, v, same) = RunsOn-main served in
        ap (λ o. o.1) same
        ∙ ap (λ stop. (stopped host env (main_logger cfg) stop v all_open).1) failed
        ∙ stopped-waits (main_logger cfg) e v all_open

    -- If the configuration could be read, the server could be started, and a signal comes, `main`
    -- returns, and the last that it does is to report an error of the workers, the cancellation
    -- that it caused, then the end of the shut-down, and to close what it opened.
    pub main-stops :
        (sig : String)
        → host.stop ≡ signalled sig
        → has_started (main host env w).0 ≡ true
        → ((main host env w).1 ≡ returned)
          × ((pre : List Effect) × ((main host env w).0
                ≡ pre
                  ++ (say
                        (main_logger cfg)
                        level_error
                        "shutdown"
                        (error_args "workers failed to stop gracefully" (plain "context canceled"))
                      ++ (say
                            (main_logger cfg)
                            level_info
                            "shutdown"
                            (("status", "shutdown complete") ∷ ("signal", sig) ∷ [])
                          ++ closed queue_redis ∷ closed cache_redis ∷ closed database ∷ []))))
    main-stops sig signal served =
        let (pre, v, same) = RunsOn-main served in
        let (fs, ends) = stopped-ends (main_logger cfg) sig v all_open in
        let whole =
          same
          ∙ ap (λ stop. and_then pre (stopped host env (main_logger cfg) stop v all_open)) signal
          ∙ ap (and_then pre) ends
          ∙ and_then-and_then pre fs (last_of (main_logger cfg) sig all_open) in
        (ap (λ o. o.1) whole, (pre ++ fs, ap (λ o. o.0) whole))
