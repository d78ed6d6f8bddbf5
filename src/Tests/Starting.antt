-- ===== src/Tests/Starting.antt =====
-- The program is started, and stopped, and so is the stand-in for the webhook's target.
use geo_notifications_servic.Prelude.{
  suc, ◌≡◌, ◌↔◌, refl, true, none, List, [], ◌∷◌, ◌++◌, inr, pos,
}
use geo_notifications_servic.Errs.{plain}
use geo_notifications_servic.World.{Env}
use geo_notifications_servic.World.Exec.{ok}
use geo_notifications_servic.Config.{Config, zero_config, load, EnvConfig}
use geo_notifications_servic.Logger.{
  level_info, level_error, log_at, new_logger, write, enabled, parse_log_level, build_info,
}
use geo_notifications_servic.Db.Status.{open_pool, status_check}
use geo_notifications_servic.Health.{redis_ping}
use geo_notifications_servic.Main.{
  Host, Effect, database, cache_redis, queue_redis, closed, returned, waiting, server_failed,
  signalled, say, error_args, main, main_logger, serving, Stop,
}
use geo_notifications_servic.Main.Settling.{Settles}
use geo_notifications_servic.Main.Resources.{Settles-main}
use geo_notifications_servic.Main.Stopping.{has_started, main-waits, main-stops}
use geo_notifications_servic.Webhook.{handle, request, has_key, carried_out, copies}
use geo_notifications_servic.Webhook.Delivery.{message}
use geo_notifications_servic.Stub.{IsObject, respond}
use geo_notifications_servic.Stub.Delivery.{handle-respond}
use geo_notifications_servic.Tests.Samples.{good, failing, start, completed_event, broken}

abbrev envconfig : EnvConfig
envconfig prefix tags cfg =
    (none, record cfg { log_level = "error"; db = record cfg.db { url = "postgres://db" } })

abbrev interrupted : Host
interrupted = record {
  envconfig = envconfig;
  sqlx_open = λ url. none;
  timer_first = λ n. true;
  quote = λ text. text;
  build = none;
  gomaxprocs = "4";
  stop = signalled "interrupt";
  shutdown = none;
  ticks = 2;
  turns = 2;
}

abbrev broken_server : Host
broken_server = record interrupted { stop = server_failed broken }

abbrev cfg : Config
unfolding zero_config
cfg = (envconfig "GEO" [] zero_config).1

-- The fourth call is the ping of the queue's Redis.
Settles-main_example : Settles [] (main interrupted (failing 3) start)
Settles-main_example = Settles-main interrupted (failing 3) start

-- Nothing fails on the way to the server's start.
served : (stop : Stop) → has_started (main (record interrupted { stop = stop }) good start).0 ≡ true
unfolding main load log_at new_logger write enabled parse_log_level build_info open_pool
    status_check redis_ping serving
served stop = refl

loaded : load envconfig ≡ inr cfg
unfolding load
loaded = refl

main-waits_example : (main broken_server good start).1 ≡ waiting
main-waits_example =
    main-waits broken_server good cfg start loaded broken refl (served (server_failed broken))

main-stops_example :
    ((main interrupted good start).1 ≡ returned)
    × ((pre : List Effect) × ((main interrupted good start).0
          ≡ pre
            ++ (say
                  (main_logger cfg)
                  level_error
                  "shutdown"
                  (error_args "workers failed to stop gracefully" (plain "context canceled"))
                ++ (say
                      (main_logger cfg)
                      level_info
                      "shutdown"
                      (("status", "shutdown complete") ∷ ("signal", "interrupt") ∷ [])
                    ++ closed queue_redis ∷ closed cache_redis ∷ closed database ∷ []))))
main-stops_example =
    main-stops interrupted good cfg start loaded "interrupt" refl (served (signalled "interrupt"))

-- Every text is taken as an object.
abbrev unmarshal : IsObject
unmarshal text = none

abbrev target : Env
target = record good { http_status = λ n. 200 }

handle-respond_example :
    let (r, v) = handle target (message "{}" (pos 7)) start in
    (v.posts
      ≡ start.posts
        ++ copies (suc (target.resends (suc start.calls))) (request "{}" completed_event))
    × ((r ≡ ok tt) ↔ (unmarshal "{}" ≡ none))
unfolding respond has_key carried_out
handle-respond_example =
    handle-respond target unmarshal "/webhook" "{}" (pos 7) start completed_event refl refl refl
      refl refl refl refl
