-- ===== src/Health/Keeps.antt =====
-- The pings touch neither the tables nor the stream.
use geo_notifications_servic.Prelude.{refl, ℕ, Bool, Option, none, some}
use geo_notifications_servic.World.{World, Env, Tables}
use geo_notifications_servic.World.Exec.{Result}
use geo_notifications_servic.Db.Keeps.{Keeps, SameOutside}
use geo_notifications_servic.Db.Status.{status_check, rounds}
use geo_notifications_servic.Db.Status.Keeps.{Kept, Kept-status_check}
use geo_notifications_servic.Db.Status.Waiting.{Keeps-ping}
use geo_notifications_servic.Health.{redis_ping, finished, postgres_ping}

pub Keeps-redis_ping : {P : Tables → Type 0} (env : Env) → Keeps P (redis_ping env)
unfolding redis_ping
Keeps-redis_ping env = Keeps-ping env

Kept-finished :
    (P : Tables → Type 0) (w : World) (r : Option (Result (Unit {0}) × World))
    → P w.tables
    → Kept P w r
    → P (finished w r).1.tables × SameOutside w (finished w r).1
Kept-finished P w none h k = (h, (refl, refl, refl))
Kept-finished P w (some (r, v)) h k = k

pub Keeps-postgres_ping :
    {P : Tables → Type 0} (env : Env) (timer_first : ℕ → Bool)
    → Keeps P (postgres_ping env timer_first)
unfolding postgres_ping
Keeps-postgres_ping {P = P} env timer_first = record {
  at = λ w h.
      Kept-finished P w (status_check env timer_first none rounds w) h
        (Kept-status_check P env timer_first none rounds w h);
}
